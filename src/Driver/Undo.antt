-- ===== src/Driver/Undo.antt =====
-- A creation and then a deletion of the same task (edfomai-drv-data.c).
use edfomai.Base.{
  ℕ, ◌≡◌, false, none, some, List, [], ◌∷◌, ◌++◌, arith, ◌==◌, ◌>>=◌, pos, Ptr, Name, null, Items,
  lookup, remove, has, release, pointers, name_eq, name_eq_self, Bool-cases, inl, inr, release_self,
}
use edfomai.Platform.{Platform, RtTask}
use edfomai.World.{World, RtDeadlineTask}
use edfomai.Recalc.Refine.{round}
use edfomai.Recalc.Scan.{refreshed}
use edfomai.Recalc.Assign.{marked}
use edfomai.Dtask.{rt_dtask_create, rt_dtask_delete}
use edfomai.Dtask.Valid.{IsValid}
use edfomai.Dtask.Keep.{round-IsValid}
use edfomai.Dtask.Entry.{block_of}
use edfomai.Dtask.Restart.{clocked}
use edfomai.Dtask.Owned.{without, pointers-owned}
use edfomai.Dtask.Drop.{dropped, dropped-IsValid, release_block}
use edfomai.Dtask.Delete.{delete_lem, dropped_at_lem}
use edfomai.Dtask.Create.{Creatable, created, created_entry, create-new, alarm_of, with_alarm_block}
use edfomai.Driver.Served.{Steady, all_short, answers}
use edfomai.Driver.Served.Blocks.{last-listed}

lookup-last :
    (n : Name) (p : Ptr) (xs : Items) → lookup n xs ≡ none → lookup n (xs ++ (n, p) ∷ []) ≡ some p
unfolding lookup
lookup-last n p [] e = rw (name_eq_self n)
lookup-last n p ((m, q) ∷ xs) e = elim (Bool-cases (name_eq m n)) [
  | inl hit ↦ cc (rw hit at e)
  | inr miss ↦ rw miss (lookup-last n p xs (rw miss at e))
]

remove-last :
    (n : Name) (p : Ptr) (xs : Items)
    → has p (pointers xs) ≡ false
    → remove p (xs ++ (n, p) ∷ []) ≡ xs
unfolding remove
remove-last n p [] out = ground arith
remove-last n p ((m, q) ∷ xs) out = ground (arith, remove-last n p xs)

module _ (P : Platform) where
  marked-watchd :
      (now : ℕ) (s : P.State) (d : RtDeadlineTask)
      → (marked (refreshed P now s d)).watchd ≡ d.watchd
  marked-watchd now s d = ground arith

module _ {P : Platform} where
  open P use {rname}

  released :
      (w : World P)
      → release (block_of w) (release_block (alarm_of w) (with_alarm_block w (block_of w ∷ w.live)))
        ≡ w.live
  released w = elim (Bool-cases (alarm_of w == null)) [
    | inl e ↦ rw e (release_self (block_of w) w.live)
    | inr e ↦
        rw (e, release_self (alarm_of w) (block_of w ∷ w.live)) (release_self (block_of w) w.live)
  ]

  -- On a valid table without an entry of the task's name, with a kernel that knows its tasks, all with
  -- short names, and has memory: a creation of the task and then its deletion return 0, and then the
  -- table has the items that it had, is valid, and exactly the blocks are in use that were.
  pub create-delete :
      {w : World P} {xs : Items} {ds : List RtDeadlineTask}
      → IsValid w xs ds
      → Steady P
      → (t : RtTask) (deadline : ℕ) → lookup (rname t) xs ≡ none
      → (w' : World P) × (es : List RtDeadlineTask) × ((rt_dtask_create t deadline >>= λ _.
              rt_dtask_delete t)
            w
          ≡ some (pos 0, w'))
        × IsValid w' xs es
        × (w'.live ≡ w.live)
  create-delete {w} {xs} {ds} v st t deadline missing =
      let s = (clocked w).kernel in
      let c : Creatable t w = record {
        info = (st.knows t s).0;
        filled_in = (st.knows t s).1;
        room = st.room w.live w.kernel;
      } in
      let e = created_entry w t deadline c.info in
      let p = block_of w in
      let (valid, creates) = create-new deadline v c missing (all_short st ds) (st.short t) in
      let (es, good, _) = round-IsValid valid in
      let u = created w t deadline c.info in
      let now = (P.rt_timer_read u.kernel).0 in
      let s' = (P.rt_timer_read u.kernel).1 in
      let u' = round u (pointers (xs ++ (rname t, p) ∷ [])) (ds ++ e ∷ []) in
      let e' = marked (refreshed P now s' e) in
      let listed = last-listed (rname t) p xs in
      let stored : u'.dtasks p ≡ some e' = ground (arith, listed) in
      let deletes = delete_lem good (answers st t u') in
      let found = lookup-last (rname t) p xs missing in
      let unlisted : has p (pointers xs) ≡ false = ground (
        arith,
        P.malloc_fresh w.live w.kernel,
        pointers-owned w.dtasks p xs ds v.table.stored,
        v.in_use p,
      ) in
      let left = dropped-IsValid p e' good stored listed in
      (
        dropped u' p e',
        without p (xs ++ (rname t, p) ∷ []) es,
        rw (creates, deletes, found, dropped_at_lem u' p e' stored),
        rw (remove-last (rname t) p xs unlisted) at left,
        rw (marked-watchd P now s' e) (released w),
      )
