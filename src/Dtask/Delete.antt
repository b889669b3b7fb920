-- ===== src/Dtask/Delete.antt =====
-- rt_dtask_delete and rt_dtask_dispose of edfomai-drv-data.c.
use edfomai.Base.{
  ◌≡◌, ◌≢◌, true, false, none, some, List, [], ◌∷◌, arith, ◌==◌, Ptr, Name, null, Items, lookup,
  release, has, pointers, Bool-cases, inl, inr,
}
use edfomai.Platform.{Platform, RtTask}
use edfomai.World.{World, RtDeadlineTask}
use edfomai.Dtask.{rt_dtask_delete}
use edfomai.Dtask.Valid.{IsValid}
use edfomai.Dtask.Owned.{owned-entry}
use edfomai.Dtask.Drop.{release_block, dropped, drop_entry-IsValid}
use edfomai.Dtask.Entry.{Answers, block_of, block-clean}
use edfomai.Dtask.Change.{outcome, on_entry-outcome}
use edfomai.Dtask.Waiting.{with_block-IsValid}

pub lookup-pointers :
    (n : Name) (p : Ptr) (xs : Items) → lookup n xs ≡ some p → has p (pointers xs) ≡ true
unfolding lookup
lookup-pointers n p [] e = cc
lookup-pointers n p ((m, q) ∷ xs) e = ground (arith, lookup-pointers n p xs)

release-cons :
    (p q : Ptr) (live : List Ptr) → (q == p) ≡ false → release p (q ∷ live) ≡ q ∷ release p live
unfolding release
release-cons p q live ne = rw ne

release_block-cons :
    (p q : Ptr) (live : List Ptr)
    → (p ≢ null → (q == p) ≡ false)
    → release_block p (q ∷ live) ≡ q ∷ release_block p live
release_block-cons p q live ne = elim (Bool-cases (p == null)) [
  | inl e ↦ rw e
  | inr e ↦ rw e (release-cons p q live (ne λ z. ground arith))
]

module _ {P : Platform} where
  open P use {rname, malloc_fresh}

  -- The world without the entry at `p`.
  abbrev pub dropped_at : World P → Ptr → World P
  dropped_at w p = elim (w.dtasks p) [ none ↦ w | some d ↦ dropped w p d ]

  pub dropped_at_lem :
      (w : World P) (p : Ptr) (d : RtDeadlineTask)
      → w.dtasks p ≡ some d
      → dropped_at w p ≡ dropped w p d
  dropped_at_lem w p d e = rw (e, dropped_at)

  module _ {w : World P} {xs : Items} {ds : List RtDeadlineTask} {task : RtTask} where
    -- On a valid table, for a task that the kernel knows, delete takes the entry with the task's
    -- name out of the table, frees its block and that of its alarm, changes nothing else and returns
    -- 0; without such an entry it changes nothing and returns -1.
    pub delete_lem :
        IsValid w xs ds
        → Answers task w
        → rt_dtask_delete task w ≡ some (outcome w (lookup (rname task) xs) (dropped_at w))
    unfolding rt_dtask_delete
    delete_lem v a = on_entry-outcome _ (dropped_at w) v a λ p d found at_p of_n.
        let i = lookup-pointers (rname task) p xs found in
        let (own, alarm) = owned-entry w.dtasks p d xs ds v.table.stored at_p i in
        let fresh = malloc_fresh w.live w.kernel in
        let apart_p : (block_of w == p) ≡ false = ground (arith, v.in_use p own) in
        let apart_alarm : d.watchd ≢ null → (block_of w == d.watchd) ≡ false =
          λ ne. ground (arith, v.in_use d.watchd (alarm ne)) in
        (
          rw (
            drop_entry-IsValid p d (with_block-IsValid v) at_p i,
            dropped_at_lem w p d at_p,
            release_block-cons d.watchd (block_of w) w.live apart_alarm,
            release-cons p (block_of w) (release_block d.watchd w.live) apart_p,
          ),
          rw (dropped_at_lem w p d at_p) (ground (arith, block-clean v)),
        )
