-- ===== src/Exercise/Periods/Refines.antt =====
-- What exercise-xenomai/multitask.c can do, multitask.c.d.c can do: the semaphore only takes runs away.
use edfomai.Base.{
  ℕ, zero, suc, ◌≡◌, refl, sym, ap, ◌∙◌, subst, some, List, [], ◌∷◌, map, ◌⊎◌, inl, inr, ltb,
  get_elem?, set, Bool-cases, Option-cases,
}
use edfomai.Tasks.{sem_p_lem, moved, Reached, at_start, after}
use edfomai.Exercise.Multitask
use edfomai.Exercise.Multitask.{Multitask, Actor, spawns, demos, multitask_step}
use edfomai.Exercise.Periods.{
  DemoPc, demo_off, demo_started, demo_read, demo_top, demo_waiting, MainPc, main_top,
  main_assigned, main_paused, Periods, begun, demo, main, periods_step,
}

-- A task of multitask.c without the semaphore: one that holds it is before or behind the print.
abbrev pub forget_pc : Multitask.DemoPc → DemoPc
forget_pc Multitask.demo_off = demo_off
forget_pc Multitask.demo_started = demo_started
forget_pc (Multitask.demo_read v) = demo_read v
forget_pc (Multitask.demo_top v) = demo_top v
forget_pc (Multitask.demo_locked v) = demo_top v
forget_pc (Multitask.demo_printed v) = demo_waiting v
forget_pc (Multitask.demo_waiting v) = demo_waiting v

abbrev pub forget_main : Multitask.MainPc → MainPc
forget_main (Multitask.main_top i) = main_top i
forget_main (Multitask.main_assigned i) = main_assigned i
forget_main Multitask.main_paused = main_paused

abbrev pub forget : Multitask → Periods
forget s = record {
  periods = s.periods;
  tasks = map forget_pc s.tasks;
  main_pc = forget_main s.main_pc;
  out = s.out;
}

module _ {ℓ} {A B : Type ℓ} (f : A → B) where
  map-set : (xs : List A) (k : ℕ) (v : A) → map f (set xs k v) ≡ set (map f xs) k (f v)
  map-set [] k v = refl
  map-set (x ∷ xs) zero v = refl
  map-set (x ∷ xs) (suc k) v = ap (◌∷◌ (f x)) (map-set xs k v)

  map-get_elem? :
      (xs : List A) (k : ℕ) (v : A) → get_elem? xs k ≡ some v → get_elem? (map f xs) k ≡ some (f v)
  map-get_elem? [] k v e = cc
  map-get_elem? (x ∷ xs) zero v e = cc
  map-get_elem? (x ∷ xs) (suc k) v e = map-get_elem? xs k v e

  -- A write that the map does not see.
  map-set_same :
      (xs : List A) (k : ℕ) (v w : A)
      → get_elem? xs k ≡ some w
      → f v ≡ f w
      → map f (set xs k v) ≡ map f xs
  map-set_same [] k v w e same = refl
  map-set_same (x ∷ xs) zero v w e same = let here : x ≡ w = cc in rw (same, here)
  map-set_same (x ∷ xs) (suc k) v w e same = ap (◌∷◌ (f x)) (map-set_same xs k v w e same)

-- One step of multitask.c is no step or one step of the same actor.
abbrev Steps : Actor → Multitask → Multitask → Type 0
Steps a s t = (forget t ≡ forget s) ⊎ (periods_step a (forget s) ≡ some (forget t))

-- The same task stands at the place that the step starts from.
step-demo :
    (k : ℕ) (pc : Multitask.DemoPc) (s : Multitask)
    → get_elem? s.tasks k ≡ some pc
    → periods_step (demos k) (forget s) ≡ demo k (forget_pc pc) (forget s)
unfolding periods_step
step-demo k pc s h = rw (periods_step, map-get_elem? forget_pc s.tasks k pc h)

demo-Steps :
    (k : ℕ) (pc : Multitask.DemoPc) (s t : Multitask)
    → get_elem? s.tasks k ≡ some pc
    → Multitask.demo k pc s ≡ some t
    → Steps (demos k) s t
unfolding Multitask.demo demo
demo-Steps k Multitask.demo_off s t h e = cc
demo-Steps k Multitask.demo_started s t h e =
    moved (Steps (demos k) s) e (inr (step-demo k _ s h ∙ rw (map-set forget_pc s.tasks k)))
demo-Steps k (Multitask.demo_read v) s t h e =
    moved (Steps (demos k) s) e (inr (step-demo k _ s h ∙ rw (map-set forget_pc s.tasks k)))
demo-Steps k (Multitask.demo_top v) s t h e =
    let (n, had, e') = sem_p_lem s.sem _ t e in
    moved (Steps (demos k) s) e'
      (inl (rw (map-set_same forget_pc s.tasks k (Multitask.demo_locked v) _ h refl)))
demo-Steps k (Multitask.demo_locked v) s t h e =
    moved (Steps (demos k) s) e (inr (step-demo k _ s h ∙ rw (map-set forget_pc s.tasks k)))
demo-Steps k (Multitask.demo_printed v) s t h e =
    moved (Steps (demos k) s) e
      (inl (rw (map-set_same forget_pc s.tasks k (Multitask.demo_waiting v) _ h refl)))
demo-Steps k (Multitask.demo_waiting v) s t h e =
    moved (Steps (demos k) s) e (inr (step-demo k _ s h ∙ rw (map-set forget_pc s.tasks k)))

main-Steps :
    (pc : Multitask.MainPc) (s t : Multitask)
    → s.main_pc ≡ pc
    → Multitask.main pc s ≡ some t
    → Steps spawns s t
unfolding Multitask.main periods_step main
main-Steps (Multitask.main_top i) s t here e = elim (Bool-cases (ltb i 3)) [
  | inl more ↦ moved (Steps spawns s) (rw more at e) (inr (rw (here, more)))
  | inr over ↦ moved (Steps spawns s) (rw over at e) (inr (rw (here, over)))
]
main-Steps (Multitask.main_assigned i) s t here e =
    moved (Steps spawns s) e (inr (rw (here, map-set forget_pc s.tasks i)))
main-Steps Multitask.main_paused s t here e = cc

step-Steps : (a : Actor) (s t : Multitask) → multitask_step a s ≡ some t → Steps a s t
unfolding multitask_step
step-Steps spawns s t e = main-Steps s.main_pc s t refl e
step-Steps (demos k) s t e = elim (Option-cases (get_elem? s.tasks k)) [
  | inl gone ↦ let e' = rw (multitask_step, gone) at e in cc
  | inr (pc, h) ↦ demo-Steps k pc s t h (rw (multitask_step, h) at e)
]

-- Every reached state of multitask.c is, without the semaphore, a reached state of multitask.c.d.c,
-- with the same console.
pub Reached-forget :
    (a b c : ℕ) (s : Multitask)
    → Reached multitask_step (Multitask.begun a b c) s
    → Reached periods_step (begun a b c) (forget s)
Reached-forget a b c _ at_start = at_start
Reached-forget a b c _ (after s t actor r e) = elim (step-Steps actor s t e) [
  | inl same ↦ subst (Reached periods_step (begun a b c)) (sym same) (Reached-forget a b c s r)
  | inr moves ↦ after (forget s) (forget t) actor (Reached-forget a b c s r) moves
]
