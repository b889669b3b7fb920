-- ===== src/Exercise/Shared.antt =====
-- exercise-xenomai/multitask.c.c.c: five tasks that get the address of the loop variable of main(), and
-- read it when they run. A step of the model is a pass of the loop's test, a start with the increment
-- behind it, or the read or the print of a task; sleeping takes any number of steps of the others. The
-- inquiry of the task's name succeeds, and the name is left out.
use edfomai.Base.{
  ℕ, suc, ◌≤◌, ◌<◌, ◌≡◌, refl, Option, none, some, List, [], ◌∷◌, if◌then◌else◌, ltb, get_elem?,
  set, inl, inr, arith, Bool-cases, Option-cases, replicate,
}
use edfomai.Tasks.{moved, Reached, Reached_ind}
use edfomai.Exercise.Multitask.Cells.{get_elem?-replicate, get_elem?-set}

-- The argument is the local variable `retval`.
pub data DemoPc : Type 0 where
  demo_off demo_started : DemoPc
  demo_read : ℕ → DemoPc
  demo_ended : DemoPc

pub data MainPc : Type 0 where
  main_top main_in main_paused : MainPc

-- "Has param": the task and the number.
pub record Line : Type 0 where
  pub task : ℕ
  pub param : ℕ

-- `i` is the loop variable; the newest line comes first.
pub record Shared : Type 0 where
  pub i : ℕ
  pub tasks : List DemoPc
  pub main_pc : MainPc
  pub out : List Line

abbrev pub begun : Shared
begun = record { i = 0; tasks = replicate 5 demo_off; main_pc = main_top; out = [] }

abbrev pub goto : ℕ → DemoPc → Shared → Shared
goto k pc s = record s { tasks = set s.tasks k pc }

unfoldable pub demo : ℕ → DemoPc → Shared → Option Shared
demo k demo_off s = none
demo k demo_started s = some (goto k (demo_read s.i) s)
demo k (demo_read v) s =
    some (goto k demo_ended (record s { out = record { task = k; param = v } ∷ s.out }))
demo k demo_ended s = none

unfoldable pub main : MainPc → Shared → Option Shared
main main_top s = some (record s { main_pc = if ltb s.i 5 then main_in else main_paused })
main main_in s = some (goto s.i demo_started (record s { i = suc s.i; main_pc = main_top }))
main main_paused s = none

pub data Actor : Type 0 where
  spawns : Actor
  demos : ℕ → Actor

unfoldable pub shared_step : Actor → Shared → Option Shared
shared_step spawns s = main s.main_pc s
shared_step (demos k) s = elim (get_elem? s.tasks k) [ none ↦ none | some pc ↦ demo k pc s ]

-- What is known of a number that task k reads, when the variable is n.
abbrev pub Between : ℕ → ℕ → ℕ → Type 0
Between k v n = (k ≤ v) × (v ≤ n)

abbrev pub Late : ℕ → List Line → Type 0
Late n [] = Unit
Late n (line ∷ rest) = Between line.task line.param n × Late n rest

abbrev LatePc : ℕ → ℕ → DemoPc → Type 0
LatePc n k demo_off = Unit
LatePc n k demo_started = k ≤ n
LatePc n k (demo_read v) = Between k v n
LatePc n k demo_ended = Unit

abbrev pub InLoop : ℕ → MainPc → Type 0
InLoop n main_in = n < 5
InLoop n main_top = n ≤ 5
InLoop n main_paused = n ≡ 5

record Inv (s : Shared) : Type 0 where
  within : InLoop s.i s.main_pc
  late_pc : (k : ℕ) (pc : DemoPc) → get_elem? s.tasks k ≡ some pc → LatePc s.i k pc
  late : Late s.i s.out

-- The variable only grows.
Late-suc : (n : ℕ) (lines : List Line) → Late n lines → Late (suc n) lines
Late-suc n [] v = tt
Late-suc n (line ∷ rest) (a, v) = (ground arith, Late-suc n rest v)

LatePc-suc : (n k : ℕ) (pc : DemoPc) → LatePc n k pc → LatePc (suc n) k pc
LatePc-suc n k demo_off v = tt
LatePc-suc n k demo_started v = omega arith
LatePc-suc n k (demo_read w) v = ground arith
LatePc-suc n k demo_ended v = tt

demo-Inv :
    (k : ℕ) (pc : DemoPc) (s t : Shared)
    → get_elem? s.tasks k ≡ some pc
    → demo k pc s ≡ some t
    → Inv s
    → Inv t
unfolding demo
demo-Inv k demo_off s t h e v = cc
demo-Inv k demo_started s t h e v = moved Inv e (record {
  within = v.within;
  late_pc = λ j w h'. elim (get_elem?-set s.tasks k j (demo_read s.i) w h') [
    | inl (same, new) ↦ rw (same, new) (v.late_pc k _ h, omega arith)
    | inr old ↦ v.late_pc j w old
  ];
  late = v.late;
})
demo-Inv k (demo_read x) s t h e v = moved Inv e (record {
  within = v.within;
  late_pc = λ j w h'. elim (get_elem?-set s.tasks k j demo_ended w h') [
    | inl (same, new) ↦ rw new tt
    | inr old ↦ v.late_pc j w old
  ];
  late = (v.late_pc k _ h, v.late);
})
demo-Inv k demo_ended s t h e v = cc

main-Inv : (pc : MainPc) (s t : Shared) → s.main_pc ≡ pc → main pc s ≡ some t → Inv s → Inv t
unfolding main
main-Inv main_top s t here e v =
    let within = rw here at v.within in
    elim (Bool-cases (ltb s.i 5)) [
      | inl more ↦
          moved Inv (rw more at e)
            (record { within = ground arith; late_pc = v.late_pc; late = v.late })
      | inr over ↦
          moved Inv (rw over at e)
            (record { within = ground arith; late_pc = v.late_pc; late = v.late })
    ]
main-Inv main_in s t here e v = moved Inv e (record {
  within = omega (arith, rw here at v.within);
  late_pc = λ j w h. elim (get_elem?-set s.tasks s.i j demo_started w h) [
    | inl (same, new) ↦ rw (same, new) (omega arith)
    | inr old ↦ LatePc-suc s.i j w (v.late_pc j w old)
  ];
  late = Late-suc s.i s.out v.late;
})
main-Inv main_paused s t here e v = cc

step-Inv : (a : Actor) (s t : Shared) → shared_step a s ≡ some t → Inv s → Inv t
unfolding shared_step
step-Inv spawns s t e v = main-Inv s.main_pc s t refl e v
step-Inv (demos k) s t e v = elim (Option-cases (get_elem? s.tasks k)) [
  | inl gone ↦ let e' = rw (shared_step, gone) at e in cc
  | inr (pc, h) ↦ demo-Inv k pc s t h (rw (shared_step, h) at e) v
]

begun-Inv : Inv begun
begun-Inv = record {
  within = omega arith;
  late_pc = λ k pc h. rw (get_elem?-replicate 5 k demo_off pc h) tt;
  late = tt;
}

-- In every reached state, task k has printed nothing but numbers from k up to the present value of the
-- loop variable, which is at most 5 in the loop, and 5 when main() has left it.
Reached-Late : (s : Shared) → Reached shared_step begun s → Late s.i s.out × InLoop s.i s.main_pc
Reached-Late s r = let v = Reached_ind shared_step Inv step-Inv begun-Inv r in (v.late, v.within)
