-- ===== src/FileSystem/Layout.antt =====
-- Where things lie on the disk: the constants of filesys/filesys.h and machine/disk.h, the superblock
-- that FileSystem::FileSystem writes when it formats, and FileHeader::firstSector.
use everything.Base.{ℕ, ◌+◌, ◌-◌, ◌*◌, ◌/◌, ◌%◌, ◌≤◌, ◌<◌, ◌≡◌, ◌≢◌, arith}

-- machine/disk.h
abbrev pub sector_size : ℕ
sector_size = 128

abbrev pub sectors_per_track : ℕ
sectors_per_track = 32

abbrev pub num_tracks : ℕ
num_tracks = 32

abbrev pub num_sectors : ℕ
num_sectors = sectors_per_track * num_tracks

-- filesys/filesys.h
abbrev pub cylinder_groups : ℕ
cylinder_groups = 2

abbrev pub block_size : ℕ
block_size = 4096

abbrev pub fragment_size : ℕ
fragment_size = 1024

abbrev pub inode_range : ℕ
inode_range = 2048

pub record SuperBlock : Type 0 where
  pub disk_size : ℕ
  pub block_size : ℕ
  pub block_count : ℕ
  pub fragment_size : ℕ
  pub fragment_count : ℕ
  pub inode_count : ℕ
  pub cylinder_groups_count : ℕ
  pub cylinder_in_each_group : ℕ
  pub offset_each_superblock_cylinder : ℕ
  pub offset_each_cylinder_summary : ℕ
  pub offset_cylinder_free_block_list : ℕ
  pub offset_cylinder_free_inode_list : ℕ
  pub offset_cylinder_inode_table : ℕ
  pub offset_cylinder_data_block : ℕ
  pub num_inode_cylinder : ℕ
  pub num_fragment_cylinder : ℕ

-- The superblock of a formatted disk.
unfoldable pub format : SuperBlock
format =
    let disk_data_size : ℕ = num_sectors * sector_size in
    let block_count : ℕ = disk_data_size / block_size in
    let fragment_in_one_block : ℕ = block_size / fragment_size in
    let fragment_count : ℕ = fragment_in_one_block * block_count in
    let inode_count : ℕ = disk_data_size / inode_range in
    record {
      disk_size = disk_data_size;
      block_size = block_size;
      block_count = block_count;
      fragment_size = fragment_size;
      fragment_count = fragment_count;
      inode_count = inode_count;
      cylinder_groups_count = cylinder_groups;
      cylinder_in_each_group = num_tracks / cylinder_groups;
      offset_each_superblock_cylinder = 0 * fragment_in_one_block;
      offset_each_cylinder_summary = 1 * fragment_in_one_block;
      offset_cylinder_free_block_list = 2 * fragment_in_one_block;
      offset_cylinder_free_inode_list = 2 * fragment_in_one_block + fragment_in_one_block / 2;
      offset_cylinder_inode_table = 3 * fragment_in_one_block;
      offset_cylinder_data_block = 4 * fragment_in_one_block;
      num_inode_cylinder = inode_count / cylinder_groups;
      num_fragment_cylinder = fragment_count / cylinder_groups;
    }

-- FileHeader::firstSector, with the inode's `id`; ids start from 1.
unfoldable pub first_sector : SuperBlock → ℕ → ℕ
first_sector sb id =
    let legal_inode : ℕ = id - 1 in
    let index : ℕ = legal_inode / sb.num_inode_cylinder in
    let offset : ℕ = legal_inode % sb.num_inode_cylinder in
    let sector_in_fragment : ℕ = sb.fragment_size / sector_size in
    sb.num_fragment_cylinder * index * sector_in_fragment
    + sb.offset_each_superblock_cylinder * sector_in_fragment
    + sb.offset_cylinder_inode_table * sector_in_fragment
    + offset * (128 / sector_size)

-- The first fragment of a cylinder group, as Create, Allocate and Unlink compute it.
pub group_start : SuperBlock → ℕ → ℕ
group_start sb i = i * (sb.num_fragment_cylinder + sb.offset_each_superblock_cylinder)

-- On a formatted disk, two different inodes of numbers 1 to the inode count have different sectors.
first_sector_ne :
    (a b : ℕ)
    → 1 ≤ a
    → a ≤ format.inode_count
    → 1 ≤ b
    → b ≤ format.inode_count
    → a ≢ b
    → first_sector format a ≢ first_sector format b
unfolding first_sector format
first_sector_ne a b la ha lb hb ne e = ne (omega arith)

-- On a formatted disk, the sector of an inode of number 1 to the inode count lies on the disk and
-- in the inode table of its cylinder group: from the table's first sector on and before the first
-- data block.
first_sector_bounds :
    (id g : ℕ)
    → 1 ≤ id
    → id ≤ format.inode_count
    → g ≡ (id - 1) / format.num_inode_cylinder
    → ((group_start format g + format.offset_cylinder_inode_table) * 8 ≤ first_sector format id)
      × (first_sector format id < (group_start format g + format.offset_cylinder_data_block) * 8)
      × (first_sector format id < num_sectors)
unfolding first_sector format group_start
first_sector_bounds id g l h e = omega arith
