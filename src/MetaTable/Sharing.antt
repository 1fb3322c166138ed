-- ===== src/MetaTable/Sharing.antt =====
-- What the table promises for one inode: a count of users, and a request to delete that waits for the
-- last of them.
use everything.Base.{
  ℕ, zero, suc, ◌+◌, ◌-◌, ◌≤◌, ◌<◌, ◌≡◌, ◌≢◌, refl, ap, ◌∙◌, Bool, true, false, not, ◌&&◌, Option,
  some, List, [], ◌∷◌, arith, ◌==◌, if◌then◌else◌, ◌>>=◌, Bool-cases, inl, inr, replicate,
}
use everything.MetaTable.{
  MetaTable, MetaTableItem, store, inc_usage, dec_usage, check_finish, try_finish, open_file,
  close_file,
}
use everything.MetaTable.Items.{
  IsValid, item_at, item_of-item_at, store-IsValid, item_at-store, item_at-store_ne,
}

pub record Share : Type 0 where
  pub users : ℕ
  pub doomed : Bool

abbrev pub view : MetaTableItem → Share
view x = record { users = x.usage; doomed = not (x.finish == 0) }

-- The specification of opening, closing and removing. The Boolean says to delete the inode now.
pub share_open : Share → Bool × Share
share_open s = (false, record s { users = s.users + 1 })

pub share_close : Share → Bool × Share
share_close s =
    let left : ℕ = s.users - 1 in
    if s.doomed && left == 0
    then (true, record { users = 0; doomed = false })
    else (false, record s { users = left })

pub share_remove : Share → Bool × Share
share_remove s = if s.users == 0 then (true, s) else (false, record s { doomed = true })

-- A result that does to the inode what the specification says, and nothing to any other.
pub record Refines (t : MetaTable) (inode : ℕ) (result : Option (Bool × MetaTable))
    (spec : Bool × Share) : Type 0 where
  pub out : MetaTable
  pub item : MetaTableItem
  pub returns : result ≡ some (spec.0, out)
  pub valid : IsValid out
  pub stands : item_at out inode ≡ some item
  pub means : view item ≡ spec.1
  pub others : (other : ℕ) → 1 ≤ other → inode ≢ other → item_at out other ≡ item_at t other

module _ (t : MetaTable) (inode : ℕ) (x : MetaTableItem) (v : IsValid t) (h : 1 ≤ inode)
    (e : item_at t inode ≡ some x) where
  stored :
      (y : MetaTableItem) (result : Option (Bool × MetaTable)) (spec : Bool × Share)
      → result ≡ some (spec.0, store t (inode - 1) y)
      → y.inode ≡ x.inode
      → view y ≡ spec.1
      → Refines t inode result spec
  stored y result spec r s m = record {
    out = store t (inode - 1) y;
    item = y;
    returns = r;
    valid = store-IsValid t inode y v e s;
    stands = item_at-store t inode y e;
    means = m;
    others = λ other h' ne. item_at-store_ne t inode other y h h' ne;
  }

  kept :
      (result : Option (Bool × MetaTable)) (spec : Bool × Share)
      → result ≡ some (spec.0, t)
      → view x ≡ spec.1
      → Refines t inode result spec
  kept result spec r m = record {
    out = t;
    item = x;
    returns = r;
    valid = v;
    stands = e;
    means = m;
    others = λ other h' ne. refl;
  }

  -- In a table with its inodes in order, opening an inode that is there gives it one user more and
  -- keeps its waiting deletion; every other inode of number at least 1 keeps its item.
  open_file-Refines :
      Refines t inode (open_file t inode >>= λ t'. some (false, t')) (share_open (view x))
  unfolding open_file inc_usage share_open
  open_file-Refines =
      stored (record x { usage = x.usage + 1 }) _ _ (rw (item_of-item_at t inode v h e)) refl refl

  -- In a table with its inodes in order, tryFinish of an inode that is there answers TRUE exactly
  -- if it has no user, and otherwise leaves a waiting deletion; every other inode of number at
  -- least 1 keeps its item.
  try_finish-Refines : Refines t inode (try_finish t inode) (share_remove (view x))
  unfolding try_finish share_remove
  try_finish-Refines = elim (Bool-cases (x.usage == 0)) [
    | inl idle ↦ rw idle (
        stored (record x { last_modified = 0 }) _ _ (rw (item_of-item_at t inode v h e, idle)) refl
          refl)
    | inr busy ↦
        rw busy (
          stored (record x { finish = 1 }) _ _ (rw (item_of-item_at t inode v h e, busy)) refl refl)
  ]

  pub check_finish-Refines : Refines t inode (check_finish t inode) (
      if not (x.finish == 0) && x.usage == 0
      then (true, record { users = 0; doomed = false })
      else (false, view x))
  unfolding check_finish
  check_finish-Refines = elim (Bool-cases (x.finish == 0)) [
    | inl alive ↦ rw alive (kept _ _ (rw (item_of-item_at t inode v h e, alive)) (rw alive))
    | inr doomed ↦ rw doomed (elim (Bool-cases (x.usage == 0)) [
      | inl idle ↦ rw idle (
          stored (record x { last_modified = 0; finish = 0 }) _ _
            (rw (item_of-item_at t inode v h e, doomed, idle)) refl (ground arith))
      | inr busy ↦ rw busy (kept _ _ (rw (item_of-item_at t inode v h e, doomed, busy)) (rw doomed))
    ])
  ]

abbrev released : MetaTableItem → MetaTableItem
released x =
    if x.usage - 1 == 0
    then record x { usage = 0; last_modified = 0 }
    else record x { usage = x.usage - 1 }

abbrev checked : MetaTableItem → Bool × Share
checked x =
    if not (x.finish == 0) && x.usage == 0
    then (true, record { users = 0; doomed = false })
    else (false, view x)

released_inode : (x : MetaTableItem) → (released x).inode ≡ x.inode
released_inode x = ground arith

checked-released : (x : MetaTableItem) → checked (released x) ≡ share_close (view x)
unfolding share_close
checked-released x = ground arith

module _ (t : MetaTable) (inode : ℕ) (x : MetaTableItem) (v : IsValid t) (h : 1 ≤ inode)
    (e : item_at t inode ≡ some x) where
  dec_usage-released : dec_usage t inode ≡ some (store t (inode - 1) (released x))
  unfolding dec_usage
  dec_usage-released = rw (item_of-item_at t inode v h e)

  -- In a table with its inodes in order, closing an inode that is there (the decUsage and
  -- checkFinish of the OpenFile destructor) does what the specification of a close says: one user
  -- less, and Unlink is asked for exactly if no user is left and a deletion waits, which resets
  -- both; every other inode of number at least 1 keeps its item.
  pub close_file-Refines : Refines t inode (close_file t inode) (share_close (view x))
  unfolding close_file
  close_file-Refines =
      let y : MetaTableItem = released x in
      let t' : MetaTable = store t (inode - 1) y in
      let rest =
        check_finish-Refines t' inode y (store-IsValid t inode y v e (released_inode x)) h
          (item_at-store t inode y e) in
      rw (← checked-released x) (record {
        out = rest.out;
        item = rest.item;
        returns = rw dec_usage-released rest.returns;
        valid = rest.valid;
        stands = rest.stands;
        means = rest.means;
        others = λ other h' ne. rest.others other h' ne ∙ item_at-store_ne t inode other y h h' ne;
      })

-- Closing `n` times, with what each close said about Unlink.
pub close_times : ℕ → MetaTable → ℕ → Option (List Bool × MetaTable)
close_times zero t inode = some ([], t)
close_times (suc n) t inode = do
  (unlink, t') ← close_file t inode
  (later, t'') ← close_times n t' inode
  some (unlink ∷ later, t'')

-- After the `n` closes come the table in which the next close is the last.
pub record LastClose (n : ℕ) (t : MetaTable) (inode : ℕ) : Type 0 where
  pub before : MetaTable
  pub after : MetaTable
  pub quiet : close_times n t inode ≡ some (replicate n false, before)
  pub final : close_file before inode ≡ some (true, after)
  pub reset :
      (y : MetaTableItem) × (item_at after inode ≡ some y)
      × (view y ≡ record { users = 0; doomed = false })

close_times_step :
    (n : ℕ) (t t' : MetaTable) (inode : ℕ) {later : List Bool} {t'' : MetaTable}
    → close_file t inode ≡ some (false, t')
    → close_times n t' inode ≡ some (later, t'')
    → close_times (suc n) t inode ≡ some (false ∷ later, t'')
unfolding close_times
close_times_step n t t' inode e f = rw (e, f)

-- In a table with its inodes in order, for an inode with n + 1 users that waits for deletion, the
-- first n closes do not ask for Unlink, the next one does, and the inode then has no user and no
-- waiting deletion.
pub close_times-LastClose :
    (n : ℕ) (t : MetaTable) (inode : ℕ) (x : MetaTableItem)
    → IsValid t
    → 1 ≤ inode
    → item_at t inode ≡ some x
    → view x ≡ record { users = suc n; doomed = true }
    → LastClose n t inode
close_times-LastClose zero t inode x v h e s =
    let r = close_file-Refines t inode x v h e in
    let spec : share_close (view x) ≡ (true, record { users = 0; doomed = false }) =
      rw s (unfold share_close in refl) in
    record {
      before = t;
      after = r.out;
      quiet = unfold close_times in refl;
      final = rw r.returns (rw spec);
      reset = (r.item, r.stands, r.means ∙ ap (λ (p : Bool × Share). p.1) spec);
    }
close_times-LastClose (suc n) t inode x v h e s =
    let r = close_file-Refines t inode x v h e in
    let spec : share_close (view x) ≡ (false, record { users = suc n; doomed = true }) =
      rw s (unfold share_close in ground arith) in
    let rest =
      close_times-LastClose n r.out inode r.item r.valid h r.stands
        (r.means ∙ ap (λ (p : Bool × Share). p.1) spec) in
    record {
      before = rest.before;
      after = rest.after;
      quiet = close_times_step n t r.out inode (rw r.returns (rw spec)) rest.quiet;
      final = rest.final;
      reset = rest.reset;
    }

-- Never delete in use: an inode that waits for deletion has users, after any of the three steps.
abbrev pub IsCalm : Share → Type 0
IsCalm s = s.doomed ≡ true → 0 < s.users

pub share-IsCalm :
    (s : Share)
    → IsCalm s
    → IsCalm (share_open s).1 × IsCalm (share_close s).1 × IsCalm (share_remove s).1
unfolding share_open share_close share_remove
share-IsCalm s c = ground arith
