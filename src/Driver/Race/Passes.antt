-- ===== src/Driver/Race/Passes.antt =====
-- A pass of the second loop of rt_dtask_recalculateprio (edfomai-drv-data.c) with edf_delete_hook
-- (edfomai-drv.c) before its body.
use edfomai.Base.{
  ◌≡◌, refl, ap, ◌∙◌, Bool, true, false, ◌||◌, Option, none, some, List, [], ◌∷◌, arith, ◌==◌, Ptr,
  Items, lookup, remove, has, pointers, Bool-cases, inl, inr,
}
use edfomai.Platform.{Platform}
use edfomai.World.{World, RtDeadlineTask, Blocks, Cmd, load}
use edfomai.World.Laws.{load_lem}
use edfomai.Recalc.{Bounds, assign_step}
use edfomai.Recalc.Holds.{Holds, touched-update}
use edfomai.Recalc.Assign.{marked, calls_of, run_calls, assign_step_lem}
use edfomai.Dtask.Valid.{IsValid}
use edfomai.Dtask.Keep.{lookup-entry}
use edfomai.Dtask.Change.{change, changed, change-IsValid}
use edfomai.Dtask.Owned.{without}
use edfomai.Dtask.Drop.{dropped, dropped-IsValid}
use edfomai.Dtask.Delete.{delete_lem, dropped_at_lem, lookup-pointers}
use edfomai.Driver.{edf_delete_hook}
use edfomai.Driver.Served.{Steady, kernel-IsValid, answers}
use edfomai.Driver.Race.{next_item, follow, pass}

-- The entry at `r` is that of the pass, or the one that was fetched for the next pass.
abbrev pub hits : Ptr → Ptr → Option Ptr → Bool
hits r p none = r == p
hits r p (some q) = r == p || r == q

next_item-listed : (p q : Ptr) (xs : Items) → next_item p xs ≡ some q → has q (pointers xs) ≡ true
unfolding next_item
next_item-listed p q [] e = cc
next_item-listed p q ((n, x) ∷ []) e = ground arith
next_item-listed p q ((n, x) ∷ (m, y) ∷ xs) e = ground (arith, next_item-listed p q ((m, y) ∷ xs))

has-remove :
    (r q : Ptr) (xs : Items)
    → (r == q) ≡ false
    → has q (pointers xs) ≡ true
    → has q (pointers (remove r xs)) ≡ true
unfolding remove
has-remove r q [] ne i = i
has-remove r q ((n, x) ∷ xs) ne i = ground (arith, has-remove r q xs ne)

stored_at :
    {P : Platform} (w : World P) (p : Ptr) (ps : List Ptr) (ds : List RtDeadlineTask)
    → Holds w.dtasks ps ds
    → has p ps ≡ true
    → (d : RtDeadlineTask) × (w.dtasks p ≡ some d)
stored_at w p [] ds h i = cc
stored_at w p (q ∷ ps) [] h i = absurd h
stored_at w p (q ∷ ps) (d ∷ ds) h i = elim (Bool-cases (q == p)) [
  | inl e ↦ (d, ground arith)
  | inr e ↦ stored_at w p ps ds h.1 (ground arith)
]

module _ {P : Platform} where
  open P use {rname, t_desc, rtdm_event_signal}

  -- What the hook leaves when the task has the entry `d` at `r`.
  abbrev hooked : World P → Ptr → RtDeadlineTask → World P
  hooked w r d = record (dropped w r d) { kernel = rtdm_event_signal w.kernel }

  load_gone : (p : Ptr) (w : World P) → w.dtasks p ≡ none → load p w ≡ none
  unfolding load
  load_gone p w e = rw (e, load)

  gone_entry : (b : Bounds) (p : Ptr) (w : World P) → w.dtasks p ≡ none → assign_step b p w ≡ none
  unfolding assign_step
  gone_entry b p w e = let gone = load_gone p w e in rw gone

  -- What a pass comes to on a valid table: a fault, or the next entry and a valid table.
  abbrev pub PassEnds : Bool → Cmd P (Option Ptr) → Option Ptr → Items → World P → Type 0
  PassEnds true run tmp xs w = run w ≡ none
  PassEnds false run none xs w =
      (w' : World P) × (es : List RtDeadlineTask) × (run w ≡ some (none, w')) × IsValid w' xs es
  PassEnds false run (some q) xs w =
      (w' : World P) × (es : List RtDeadlineTask) × (run w ≡ some (next_item q xs, w'))
      × IsValid w' xs es

  module _ (st : Steady P) where
    hook_lem :
        {w : World P} {xs : Items} {ds : List RtDeadlineTask} (cookie r : Ptr)
        → IsValid w xs ds
        → lookup (rname (t_desc cookie)) xs ≡ some r
        → (d : RtDeadlineTask) × (edf_delete_hook cookie w ≡ some (tt, hooked w r d))
          × IsValid (hooked w r d) (remove r xs) (without r xs ds)
    unfolding edf_delete_hook
    hook_lem {w} {xs} {ds} cookie r v found =
        let t = t_desc cookie in
        let (d, at_r, of_n, own) =
          lookup-entry P w.dtasks (rname t) r xs ds v.table.stored v.named found in
        let runs = delete_lem v (answers st t w) in
        let left = dropped-IsValid r d v at_r (lookup-pointers (rname t) r xs found) in
        (
          d,
          rw (runs, found, dropped_at_lem w r d at_r),
          kernel-IsValid (rtdm_event_signal w.kernel) left,
        )

    -- A body on an entry of a valid table, and the step of `tmp` to an entry of it.
    body_lem :
        {w : World P} {xs : Items} {ds : List RtDeadlineTask} (b : Bounds) (p : Ptr)
        → IsValid w xs ds
        → has p (pointers xs) ≡ true
        → (w' : World P) × (es : List RtDeadlineTask) × (assign_step b p w ≡ some (tt, w'))
          × IsValid w' xs es
          × ((q : Ptr) → (p == q) ≡ false → w'.dtasks q ≡ w.dtasks q)
    body_lem {w} {xs} {ds} b p v i =
        let (d, at_p) = stored_at w p (pointers xs) ds v.table.stored i in
        let marks = change-IsValid marked p (λ e. (ground arith, ground arith, ground arith)) v in
        let s = run_calls P (calls_of P b d) w.kernel in
        let same = touched-update marked w.dtasks p d [] at_p refl in
        (
          record (change marked p w) { kernel = s },
          changed marked p (pointers xs) ds,
          assign_step_lem b p d w (st.short d.task) at_p
              ∙ ap (λ (f : Blocks). some (tt, record w { kernel = s; dtasks = f })) same,
          kernel-IsValid s marks,
          λ q ne. ground (arith, ne),
        )

    -- On a valid table, with a kernel that knows its tasks, all with short names, and has memory: when
    -- edf_delete_hook comes before the body of a pass and deletes an entry, the pass faults exactly
    -- if that is the entry of the pass or the one fetched for the next pass. Otherwise it goes on to the
    -- entry behind the fetched one in the table that is left, which is valid.
    pub pass-PassEnds :
        {w : World P} {xs : Items} {ds : List RtDeadlineTask} (b : Bounds) (cookie r p : Ptr)
        (tmp : Option Ptr)
        → IsValid w xs ds
        → has p (pointers xs) ≡ true
        → next_item p xs ≡ tmp
        → lookup (rname (t_desc cookie)) xs ≡ some r
        → PassEnds
            (hits r p tmp)
            (pass (edf_delete_hook cookie) (assign_step b) p tmp)
            tmp
            (remove r xs)
            w
    unfolding pass follow
    pass-PassEnds {w} {xs} {ds} b cookie r p none v i fetched found =
        let (d, deletes, left) = hook_lem cookie r v found in
        elim (Bool-cases (r == p)) [
          | inl own ↦ let gone = gone_entry b p (hooked w r d) (rw own) in rw (own, deletes, gone)
          | inr other ↦
              let (w', es, runs, valid, _) = body_lem b p left (has-remove r p xs other i) in
              rw other (w', es, rw (deletes, runs), valid)
        ]
    pass-PassEnds {w} {xs} {ds} b cookie r p (some q) v i fetched found =
        let (d, deletes, left) = hook_lem cookie r v found in
        let listed = next_item-listed p q xs fetched in
        elim (Bool-cases (r == p)) [
          | inl own ↦ let gone = gone_entry b p (hooked w r d) (rw own) in rw (own, deletes, gone)
          | inr other ↦
              let (w', es, runs, valid, kept) = body_lem b p left (has-remove r p xs other i) in
              elim (Bool-cases (r == q)) [
                | inl next ↦
                    let apart : (p == q) ≡ false = ground (arith, other, next) in
                    let gone = load_gone q w' (kept q apart ∙ rw next) in
                    rw (other, next, deletes, runs, gone)
                | inr last ↦
                    let (e, at_q) =
                      stored_at w' q (pointers (remove r xs)) es valid.table.stored
                        (has-remove r q xs last listed) in
                    let items_left = valid.table.listed in
                    rw (other, last)
                      (w', es, rw (deletes, runs, load_lem q e w' at_q, items_left), valid)
              ]
        ]
