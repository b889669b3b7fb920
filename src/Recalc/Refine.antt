-- ===== src/Recalc/Refine.antt =====
-- rt_dtask_recalculateprio of edfomai-drv-data.c as one round over the entries of the table.
use edfomai.Base.{
  ℕ, ◌<◌, ◌≡◌, ◌≢◌, refl, ap, true, false, some, List, [], ◌∷◌, map, arith, ◌==◌, Ptr, pos, Items,
  Distinct, pointers, length,
}
use edfomai.Platform.{Platform}
use edfomai.World.{World, RtDeadlineTask}
use edfomai.Recalc.{no_bounds, rt_dtask_recalculateprio}
use edfomai.Recalc.Holds.{Holds, touched, touched-touched, Holds-touched}
use edfomai.Recalc.Scan.{bounds_of, refreshed, scan_lem}
use edfomai.Recalc.Assign.{marked, all_calls, run_calls, ShortNames, assign_lem}

module _ (P : Platform) where
  ShortNames-refreshed :
      (now : ℕ) (s : P.State) (ds : List RtDeadlineTask)
      → ShortNames P ds
      → ShortNames P (map (refreshed P now s) ds)
  ShortNames-refreshed now s [] h = tt
  ShortNames-refreshed now s (d ∷ ds) h = (ground arith, ShortNames-refreshed now s ds h.1)

length-pos : (xs : Items) → xs ≢ [] → 0 < length xs
length-pos [] h = absurd (h refl)
length-pos (x ∷ xs) h = omega arith

module _ {P : Platform} where
  open P use {State, Table, items, hash_count, count_length, rt_timer_read}

  -- The table has these items, at different addresses that hold these entries.
  pub record IsTable (w : World P) (xs : Items) (ds : List RtDeadlineTask) : Type 0 where
    pub listed : items w.dtask_map ≡ xs
    pub apart : Distinct (pointers xs)
    pub stored : Holds w.dtasks (pointers xs) ds

  -- What a round does: one reading of the clock, the bounds of the active entries, every entry
  -- refreshed and marked, and the calls.
  abbrev pub round : World P → List Ptr → List RtDeadlineTask → World P
  round w ps ds =
      let (now, s) = rt_timer_read w.kernel in
      let g = refreshed P now s in
      record w {
        kernel = run_calls P (all_calls P (bounds_of now ds no_bounds) (map g ds)) s;
        dtasks = touched (λ d. marked (g d)) ps w.dtasks;
      }

  -- On an empty table nothing happens, not even a reading of the clock.
  pub recalculateprio-empty :
      (w : World P) → items w.dtask_map ≡ [] → rt_dtask_recalculateprio w ≡ some (pos 0, w)
  unfolding rt_dtask_recalculateprio
  recalculateprio-empty w e =
      let none_in : (hash_count w.dtask_map == 0) ≡ true =
        ground (arith, count_length w.dtask_map, ap (length {0}) e) in
      rw none_in

  -- On a table with items, whose entries have tasks with names of fewer than 24 characters,
  -- rt_dtask_recalculateprio returns 0 after one round: the clock is read once, each entry of the
  -- table is refreshed and marked and no other block changes, and the calls of the ready entries
  -- are made in the order of the table.
  pub recalculateprio-round :
      (w : World P) (xs : Items) (ds : List RtDeadlineTask)
      → IsTable w xs ds
      → ShortNames P ds
      → xs ≢ []
      → rt_dtask_recalculateprio w ≡ some (pos 0, round w (pointers xs) ds)
  unfolding rt_dtask_recalculateprio
  recalculateprio-round w xs ds is short full =
      let some_in : (hash_count w.dtask_map == 0) ≡ false =
        ground (arith, count_length w.dtask_map, ap (length {0}) is.listed, length-pos xs full) in
      let now = (rt_timer_read w.kernel).0 in
      let s = (rt_timer_read w.kernel).1 in
      let g = refreshed P now s in
      let w' : World P = record w { kernel = s } in
      let w'' : World P = record w { kernel = s; dtasks = touched g (pointers xs) w.dtasks } in
      rw (
        some_in,
        is.listed,
        scan_lem now (pointers xs) ds no_bounds w' is.apart is.stored,
        assign_lem (bounds_of now ds no_bounds) (pointers xs) (map g ds) w'' is.apart
            (Holds-touched g w.dtasks (pointers xs) (pointers xs) ds (λ q i. i) is.stored)
            (ShortNames-refreshed P now s ds short),
        touched-touched g marked (pointers xs) w.dtasks,
      )
