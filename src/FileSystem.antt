-- ===== src/FileSystem.antt =====
-- filesys/filesys.cc and what it stands on.
pub mod Place
pub mod Layout
pub mod Inode
pub mod Allocate
pub mod ReadAt
pub mod Fragments
pub mod WriteBack
pub mod WriteAt
pub mod WriteDir
pub mod Unlink
pub mod TwoGroups
