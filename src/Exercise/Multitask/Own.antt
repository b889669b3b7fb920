-- ===== src/Exercise/Multitask/Own.antt =====
-- Each task of exercise-xenomai/multitask.c reads its own cell, and one task prints at a time.
use edfomai.Base.{
  ℕ, zero, suc, ◌+◌, ◌≤◌, ◌<◌, ◌≡◌, ◌≢◌, refl, sym, ◌∙◌, subst, some, List, [], ◌∷◌, inl, inr,
  arith, ltb, length, get_elem?, get_or, set, Bool-cases, Option-cases, length-set,
}
use edfomai.Tasks.{sem_p_lem, moved, Reached, Reached_ind}
use edfomai.Exercise.Multitask.{
  DemoPc, demo_off, demo_started, demo_read, demo_top, demo_locked, demo_printed, demo_waiting,
  MainPc, main_top, main_assigned, main_paused, Event, set_periodic, says, Multitask, begun, goto,
  period_of, demo, main, Actor, spawns, demos, multitask_step,
}
use edfomai.Exercise.Multitask.Cells.{
  get_elem?-set, get_or-set, get_or-set_other, sum_of, sum_of-set, sum_of-set_same,
}

-- 1 for a task that has the semaphore.
abbrev pub held : DemoPc → ℕ
held (demo_locked v) = 1
held (demo_printed v) = 1
held _ = 0

-- What a task knows: from its start its cell is its number plus one, and then so is `retval`.
abbrev OwnPc : List ℕ → ℕ → DemoPc → Type 0
OwnPc cells k demo_off = Unit
OwnPc cells k demo_started = get_or cells k 0 ≡ suc k
OwnPc cells k (demo_read v) = v ≡ suc k
OwnPc cells k (demo_top v) = v ≡ suc k
OwnPc cells k (demo_locked v) = v ≡ suc k
OwnPc cells k (demo_printed v) = v ≡ suc k
OwnPc cells k (demo_waiting v) = v ≡ suc k

abbrev OwnMain : List ℕ → MainPc → Type 0
OwnMain cells (main_assigned i) = get_or cells i 0 ≡ suc i
OwnMain cells _ = Unit

-- The tasks that main() starts in a later round, or in this one.
abbrev NotYet : MainPc → ℕ → Type 0
NotYet (main_top i) k = i ≤ k
NotYet (main_assigned i) k = i ≤ k
NotYet main_paused k = 1 ≤ 0

-- Task k, counted from 0, prints k + 1 and has that many seconds as its period.
abbrev pub OwnEvents : List Event → Type 0
OwnEvents [] = Unit
OwnEvents (set_periodic k p ∷ rest) = (p ≡ period_of (suc k)) × OwnEvents rest
OwnEvents (says k v ∷ rest) = (v ≡ suc k) × OwnEvents rest

record Inv (s : Multitask) : Type 0 where
  one : s.sem + sum_of held s.tasks ≡ 1
  size : length s.periods ≡ 3
  own : (k : ℕ) (pc : DemoPc) → get_elem? s.tasks k ≡ some pc → OwnPc s.periods k pc
  own_main : OwnMain s.periods s.main_pc
  off : (k : ℕ) (pc : DemoPc) → get_elem? s.tasks k ≡ some pc → NotYet s.main_pc k → pc ≡ demo_off
  events : OwnEvents s.out

goto-Inv :
    (k n : ℕ) (pc pc' : DemoPc) (out : List Event) (s : Multitask)
    → get_elem? s.tasks k ≡ some pc
    → pc ≢ demo_off
    → n + held pc' ≡ s.sem + held pc
    → OwnPc s.periods k pc'
    → OwnEvents out
    → Inv s
    → Inv (goto k pc' (record s { sem = n; out = out }))
goto-Inv k n pc pc' out s at_k started count knows events v = record {
  one = omega (arith, v.one, sum_of-set held s.tasks k pc' pc at_k);
  size = v.size;
  own = λ j w e. elim (get_elem?-set s.tasks k j pc' w e) [
    | inl (same, new) ↦ rw (same, new) knows
    | inr old ↦ v.own j w old
  ];
  own_main = v.own_main;
  off = λ j w e later. elim (get_elem?-set s.tasks k j pc' w e) [
    | inl (same, new) ↦ absurd (started (v.off k pc at_k (subst (NotYet s.main_pc) same later)))
    | inr old ↦ v.off j w old later
  ];
  events = events;
}

demo-Inv :
    (k : ℕ) (pc : DemoPc) (s t : Multitask)
    → get_elem? s.tasks k ≡ some pc
    → demo k pc s ≡ some t
    → Inv s
    → Inv t
unfolding demo
demo-Inv k demo_off s t h e v = cc
demo-Inv k demo_started s t h e v =
    moved Inv e (goto-Inv k s.sem _ _ s.out s h (λ z. cc) refl (v.own k _ h) v.events v)
demo-Inv k (demo_read w) s t h e v =
    let knows = v.own k _ h in
    moved Inv e (goto-Inv k s.sem _ _ _ s h (λ z. cc) refl knows (rw knows, v.events) v)
demo-Inv k (demo_top w) s t h e v =
    let (n, had, e') = sem_p_lem s.sem _ t e in
    moved Inv e'
      (goto-Inv k n _ (demo_locked w) s.out s h (λ z. cc) (omega arith) (v.own k _ h) v.events v)
demo-Inv k (demo_locked w) s t h e v =
    let knows = v.own k _ h in
    moved Inv e (goto-Inv k s.sem _ _ _ s h (λ z. cc) refl knows (knows, v.events) v)
demo-Inv k (demo_printed w) s t h e v = moved Inv e (
    goto-Inv k (suc s.sem) _ (demo_waiting w) s.out s h (λ z. cc) (omega arith) (v.own k _ h)
      v.events v)
demo-Inv k (demo_waiting w) s t h e v =
    moved Inv e (goto-Inv k s.sem _ _ s.out s h (λ z. cc) refl (v.own k _ h) v.events v)

-- The assignment of main() in round i leaves what the tasks know.
assigned_own :
    (i k : ℕ) (pc : DemoPc) (cells : List ℕ)
    → i < length cells
    → OwnPc cells k pc
    → OwnPc (set cells i (suc i)) k pc
assigned_own i k demo_off cells h knows = knows
assigned_own i k demo_started cells h knows = elim (get_or-set_other cells i k (suc i) 0) [
  | inl same ↦ same ∙ knows
  | inr (here, less) ↦ rw here (get_or-set cells i (suc i) 0 h)
]
assigned_own i k (demo_read w) cells h knows = knows
assigned_own i k (demo_top w) cells h knows = knows
assigned_own i k (demo_locked w) cells h knows = knows
assigned_own i k (demo_printed w) cells h knows = knows
assigned_own i k (demo_waiting w) cells h knows = knows

main-Inv : (pc : MainPc) (s t : Multitask) → s.main_pc ≡ pc → main pc s ≡ some t → Inv s → Inv t
unfolding main
main-Inv (main_top i) s t here e v = elim (Bool-cases (ltb i 3)) [
  | inl more ↦
      let less : i < length s.periods = ground (arith, v.size) in
      moved Inv (rw more at e) (record {
        one = v.one;
        size = length-set s.periods i (suc i) ∙ v.size;
        own = λ k pc h. assigned_own i k pc s.periods less (v.own k pc h);
        own_main = get_or-set s.periods i (suc i) 0 less;
        off = λ k pc h later. v.off k pc h (subst (λ m. NotYet m k) (sym here) later);
        events = v.events;
      })
  | inr over ↦ moved Inv (rw over at e) (record {
    one = v.one;
    size = v.size;
    own = v.own;
    own_main = tt;
    off = λ k pc h later. absurd (omega arith);
    events = v.events;
  })
]
main-Inv (main_assigned i) s t here e v = moved Inv e (record {
  one =
      rw
        (sum_of-set_same held s.tasks i demo_started
          (λ w h. rw (v.off i w h (subst (λ m. NotYet m i) (sym here) (omega arith)))))
        v.one;
  size = v.size;
  own = λ j w h. elim (get_elem?-set s.tasks i j demo_started w h) [
    | inl (same, new) ↦ rw (same, new) (rw here at v.own_main)
    | inr old ↦ v.own j w old
  ];
  own_main = tt;
  off = λ j w h later. elim (get_elem?-set s.tasks i j demo_started w h) [
    | inl (same, new) ↦ absurd (omega arith)
    | inr old ↦ v.off j w old (subst (λ m. NotYet m j) (sym here) (omega arith))
  ];
  events = v.events;
})
main-Inv main_paused s t here e v = cc

step-Inv : (a : Actor) (s t : Multitask) → multitask_step a s ≡ some t → Inv s → Inv t
unfolding multitask_step
step-Inv spawns s t e v = main-Inv s.main_pc s t refl e v
step-Inv (demos k) s t e v = elim (Option-cases (get_elem? s.tasks k)) [
  | inl gone ↦ let e' = rw (multitask_step, gone) at e in cc
  | inr (pc, h) ↦ demo-Inv k pc s t h (rw (multitask_step, h) at e) v
]

begun_off :
    (k : ℕ) (pc : DemoPc)
    → get_elem? (demo_off ∷ demo_off ∷ demo_off ∷ []) k ≡ some pc
    → pc ≡ demo_off
begun_off zero pc h = cc
begun_off (suc zero) pc h = cc
begun_off (suc (suc zero)) pc h = cc
begun_off (suc (suc (suc k))) pc h = cc

begun-Inv : (a b c : ℕ) → Inv (begun a b c)
begun-Inv a b c = record {
  one = refl;
  size = refl;
  own = λ k pc h. rw (begun_off k pc h) tt;
  own_main = tt;
  off = λ k pc h later. begun_off k pc h;
  events = tt;
}

-- In every reached state, whatever the cells of `periods` held before, the semaphore or exactly one task has the
-- turn to print, and every task k has printed only k + 1 and made itself periodic with k + 1 seconds.
pub Reached-own :
    (a b c : ℕ) (s : Multitask)
    → Reached multitask_step (begun a b c) s
    → (s.sem + sum_of held s.tasks ≡ 1) × OwnEvents s.out
Reached-own a b c s r =
    let v = Reached_ind multitask_step Inv step-Inv (begun-Inv a b c) r in (v.one, v.events)
