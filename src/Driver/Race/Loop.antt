-- ===== src/Driver/Race/Loop.antt =====
-- HASH_ITER with nothing between its passes is a loop over the items of the table.
use edfomai.Base.{
  ℕ, suc, ◌≡◌, refl, ap, false, Option, none, some, List, [], ◌∷◌, length, replicate, arith, pure,
  for_each, Ptr, Items, has, Distinct, pointers,
}
use edfomai.Platform.{Platform}
use edfomai.World.{World, RtDeadlineTask, update}
use edfomai.World.Laws.{load_lem}
use edfomai.Recalc.{Bounds, assign_step}
use edfomai.Recalc.Holds.{Holds, Holds-update}
use edfomai.Recalc.Assign.{ShortNames, marked, calls_of, run_calls, assign_step_lem}
use edfomai.Recalc.Refine.{IsTable}
use edfomai.Driver.Race.{first_item, next_item, follow, pass, iterate, hash_iter}

abbrev pub first_of : List Ptr → Option Ptr
first_of [] = none
first_of (p ∷ ps) = some p

abbrev pub rest_of : List Ptr → List Ptr
rest_of [] = []
rest_of (p ∷ ps) = ps

-- Each of the addresses is followed in the table by the one behind it.
abbrev Linked : Items → List Ptr → Type 0
Linked xs [] = Unit
Linked xs (p ∷ ps) = (next_item p xs ≡ first_of ps) × Linked xs ps

first_item_lem : (xs : Items) → first_item xs ≡ first_of (pointers xs)
first_item_lem [] = refl
first_item_lem (x ∷ xs) = refl

length-pointers : (xs : Items) → length xs ≡ length (pointers xs)
length-pointers [] = refl
length-pointers (x ∷ xs) = ap suc (length-pointers xs)

Linked-cons :
    (n : List ℕ) (q : Ptr) (xs : Items) (ps : List Ptr)
    → has q ps ≡ false
    → Linked xs ps
    → Linked ((n, q) ∷ xs) ps
unfolding next_item
Linked-cons n q xs [] out h = tt
Linked-cons n q xs (p ∷ ps) out h = (ground (arith, h.0), Linked-cons n q xs ps (ground arith) h.1)

Linked-pointers : (xs : Items) → Distinct (pointers xs) → Linked xs (pointers xs)
unfolding next_item
Linked-pointers [] apart = tt
Linked-pointers ((n, p) ∷ xs) apart = (
  ground (arith, first_item_lem xs),
  Linked-cons n p xs (pointers xs) apart.0 (Linked-pointers xs apart.1),
)

module _ {P : Platform} where
  open P use {items}

  iterate_from :
      (b : Bounds) (xs : Items) (ps : List Ptr) (ds : List RtDeadlineTask) (w : World P)
      → Distinct ps
      → Linked xs ps
      → items w.dtask_map ≡ xs
      → Holds w.dtasks ps ds
      → ShortNames P ds
      → iterate
          (replicate (length ps) (pure tt))
          (assign_step b)
          (first_of ps)
          (first_of (rest_of ps))
          w
        ≡ for_each ps (assign_step b) w
  unfolding iterate pass follow for_each
  iterate_from b xs [] ds w apart linked listed h short = refl
  iterate_from b xs (p ∷ ps) [] w apart linked listed h short = absurd h
  iterate_from b xs (p ∷ []) (d ∷ ds) w apart linked listed h short =
      rw (assign_step_lem b p d w short.0 h.0)
  iterate_from b xs (p ∷ q ∷ ps) (d ∷ []) w apart linked listed h short = absurd h.1
  iterate_from b xs (p ∷ q ∷ ps) (d ∷ e ∷ ds) w apart linked listed h short =
      let w' : World P = record w {
        kernel = run_calls P (calls_of P b d) w.kernel;
        dtasks = update w.dtasks p (some (marked d));
      } in
      let rest = Holds-update w.dtasks p (some (marked d)) (q ∷ ps) (e ∷ ds) apart.0 h.1 in
      rw (assign_step_lem b p d w short.0 h.0, load_lem q e w' rest.0, listed, linked.1.0)
        (iterate_from b xs (q ∷ ps) (e ∷ ds) w' apart.1 linked.1 listed rest short.1)

  -- On a table whose tasks have names of fewer than 24 characters, HASH_ITER with a pass for each item
  -- and nothing between its passes does what the loop over the items does.
  pub hash_iter-for_each :
      (b : Bounds) (xs : Items) (ds : List RtDeadlineTask) (w : World P)
      → IsTable w xs ds
      → ShortNames P ds
      → hash_iter (replicate (length xs) (pure tt)) (assign_step b) w
        ≡ for_each (pointers xs) (assign_step b) w
  unfolding hash_iter iterate follow for_each
  hash_iter-for_each b [] ds w is short = let listed = is.listed in rw listed
  hash_iter-for_each b ((n, p) ∷ xs) [] w is short = absurd is.stored
  hash_iter-for_each b ((n, p) ∷ xs) (d ∷ ds) w is short =
      let listed = is.listed in
      let linked = Linked-pointers ((n, p) ∷ xs) is.apart in
      rw (listed, load_lem p d w is.stored.0, listed, linked.0, length-pointers xs)
        (iterate_from b ((n, p) ∷ xs) (p ∷ pointers xs) (d ∷ ds) w is.apart linked is.listed
          is.stored short)
