-- ===== src/Exercise/Prompt/Ends.antt =====
-- Every run of exercise-xenomai/multitask.c.b.c ends, with the five lines in their order.
use edfomai.Base.{
  ℕ, suc, ◌+◌, ◌-◌, ◌*◌, ◌≤◌, ◌<◌, ◌≡◌, refl, subst, true, false, Option, some, List, [], ◌∷◌, ◌⊎◌,
  inl, inr, arith, ltb, length, get_elem?, get_or, Bool-cases, Option-cases,
}
use edfomai.Tasks.{moved, run, run_bound}
use edfomai.Exercise.Multitask.Cells.{sum_of, sum_of-set, get_elem?-some}
use edfomai.Exercise.Prompt.{
  DemoPc, demo_off, demo_started, demo_inquired, demo_read, demo_ended, failed, MainPc, main_top,
  main_named, main_created, main_started, main_returned, Prompt, begun, goto, live, quiet, main,
  returned, Actor, spawns, demos, demo, running, prompt_step,
}
use edfomai.Exercise.Prompt.Order.{Inv, Here, lines, step-Inv, begun-Inv}

-- The steps that a task has before it at most.
abbrev rank : DemoPc → ℕ
rank demo_off = 0
rank demo_started = 3
rank (demo_inquired name) = 2
rank (demo_read name v) = 1
rank demo_ended = 0

-- Eight for each round to come.
abbrev rounds : MainPc → ℕ → ℕ
rounds main_top m = 8 * m + 1
rounds main_named m = 8 * m
rounds main_created m = 8 * m - 1
rounds main_started m = 8 * m - 5
rounds main_returned m = 0

abbrev left : Prompt → ℕ
left s = rounds s.main_pc (5 - s.i) + sum_of rank s.tasks

live_of_busy :
    (tasks : List DemoPc)
    → quiet tasks ≡ false
    → (k : ℕ) × (pc : DemoPc) × (get_elem? tasks k ≡ some pc) × (live pc ≡ true)
live_of_busy [] q = cc
live_of_busy (pc ∷ rest) q = elim (Bool-cases (live pc)) [
  | inl on ↦ (0, pc, refl, on)
  | inr off ↦ let (k, w, h, on) = live_of_busy rest (rw off at q) in (suc k, w, h, on)
]

module _ (refuses : ℕ → Option ℕ) where
  -- Some actor can step.
  abbrev pub Moves : Prompt → Type 0
  Moves s = (a : Actor) × (t : Prompt) × (prompt_step refuses a s ≡ some t)

  demo_moves :
      (k : ℕ) (pc : DemoPc) (s : Prompt)
      → live pc ≡ true
      → (t : Prompt) × (demo refuses k pc s ≡ some t)
  unfolding demo
  demo_moves k demo_off s on = cc
  demo_moves k demo_started s on = elim (Option-cases (refuses k)) [
    | inl fine ↦ (goto k (demo_inquired (get_or s.names k 0)) s, rw (demo, fine))
    | inr (n, bad) ↦ (goto k demo_ended (record s { out = failed n ∷ s.out }), rw (demo, bad))
  ]
  demo_moves k (demo_inquired name) s on = (_, refl)
  demo_moves k (demo_read name v) s on = (_, refl)
  demo_moves k demo_ended s on = cc

  main_moves :
      (pc : MainPc) (s : Prompt) → returned pc ≡ false → (t : Prompt) × (main pc s ≡ some t)
  unfolding main
  main_moves main_top s on = elim (Bool-cases (ltb s.i 5)) [
    | inl more ↦ (record s { str = s.i; main_pc = main_named }, rw more)
    | inr over ↦ (record s { main_pc = main_returned }, rw over)
  ]
  main_moves main_named s on = (_, refl)
  main_moves main_created s on = (_, refl)
  main_moves main_started s on = (_, refl)
  main_moves main_returned s on = cc

  step-Moves : (s : Prompt) → returned s.main_pc ≡ false → Moves s
  unfolding prompt_step running
  step-Moves s on = elim (Bool-cases (quiet s.tasks)) [
    | inl still ↦ let (t, e) = main_moves s.main_pc s on in (spawns, t, rw (on, still, e))
    | inr busy ↦
        let (k, pc, h, lives) = live_of_busy s.tasks busy in
        let (t, e) = demo_moves k pc s lives in (demos k, t, rw (on, running, h, e))
  ]

  demo-left :
      (k : ℕ) (pc : DemoPc) (s t : Prompt)
      → get_elem? s.tasks k ≡ some pc
      → demo refuses k pc s ≡ some t
      → left t < left s
  unfolding demo
  demo-left k demo_off s t h e = cc
  demo-left k demo_started s t h e = elim (Option-cases (refuses k)) [
    | inl fine ↦
        moved (λ t. left t < left s) (rw (demo, fine) at e)
          (omega (arith, sum_of-set rank s.tasks k (demo_inquired (get_or s.names k 0)) _ h))
    | inr (n, bad) ↦
        moved (λ t. left t < left s) (rw (demo, bad) at e)
          (omega (arith, sum_of-set rank s.tasks k demo_ended _ h))
  ]
  demo-left k (demo_inquired name) s t h e =
      moved (λ t. left t < left s) e
        (omega (arith, sum_of-set rank s.tasks k (demo_read name s.i) _ h))
  demo-left k (demo_read name v) s t h e =
      moved (λ t. left t < left s) e (omega (arith, sum_of-set rank s.tasks k demo_ended _ h))
  demo-left k demo_ended s t h e = cc

  main-left :
      (pc : MainPc) (s t : Prompt)
      → s.main_pc ≡ pc
      → main pc s ≡ some t
      → Inv refuses s
      → left t < left s
  unfolding main
  main-left main_top s t at e (rows, v) = elim (Bool-cases (ltb s.i 5)) [
    | inl more ↦ moved (λ t. left t < left s) (rw more at e) (rw at (omega arith))
    | inr over ↦ moved (λ t. left t < left s) (rw over at e) (rw at (omega arith))
  ]
  main-left main_named s t at e (rows, v) =
      let (small, _, _) = subst (Here refuses s) at v in
      moved (λ t. left t < left s) e (rw at (omega arith))
  main-left main_created s t at e (rows, v) =
      let (small, handle, _, (_, off)) = subst (Here refuses s) at v in
      let (pc, h) = get_elem?-some s.tasks s.i (omega (arith, rows.five)) in
      let h' = rw (off pc h) at h in
      moved (λ t. left t < left s) (rw handle at e)
        (rw at (omega (arith, sum_of-set rank s.tasks s.i demo_started _ h')))
  main-left main_started s t at e (rows, v) =
      let (small, _, _, _) = subst (Here refuses s) at v in
      moved (λ t. left t < left s) e (rw at (omega arith))
  main-left main_returned s t at e v = cc

  running-left :
      (a : Actor) (s t : Prompt) → running refuses a s ≡ some t → Inv refuses s → left t < left s
  unfolding running
  running-left spawns s t e v = elim (Bool-cases (quiet s.tasks)) [
    | inl still ↦ main-left s.main_pc s t refl (rw still at e) v
    | inr busy ↦ let e' = rw busy at e in cc
  ]
  running-left (demos k) s t e v = elim (Option-cases (get_elem? s.tasks k)) [
    | inl gone ↦ let e' = rw (running, gone) at e in cc
    | inr (pc, h) ↦ demo-left k pc s t h (rw (running, h) at e)
  ]

  step-left :
      (a : Actor) (s t : Prompt)
      → prompt_step refuses a s ≡ some t
      → Inv refuses s
      → Inv refuses t × (left t < left s)
  unfolding prompt_step
  step-left a s t e v = (
    step-Inv refuses a s t e v,
    elim (Bool-cases (returned s.main_pc)) [
      | inl over ↦ let e' = rw over at e in cc
      | inr on ↦ running-left a s t (rw on at e) v
    ],
  )

  Here-returned :
      (pc : MainPc) (s : Prompt) → returned pc ≡ true → Here refuses s pc → s.out ≡ lines refuses 5
  Here-returned main_top s over v = cc
  Here-returned main_named s over v = cc
  Here-returned main_created s over v = cc
  Here-returned main_started s over v = cc
  Here-returned main_returned s over v = v

  -- A run takes at most 41 steps, whatever the value of the buffer before and whichever inquiries fail; it can
  -- always go on until main() has returned, and then the console has five lines, the one of task k at place k: its own name
  -- and its own number, or the error of its inquiry.
  pub run-Ends :
      (str : ℕ) (actors : List Actor) (t : Prompt)
      → run (prompt_step refuses) actors (begun str) ≡ some t
      → (length actors ≤ 41) × (((returned t.main_pc ≡ true) × (t.out ≡ lines refuses 5)) ⊎ Moves t)
  run-Ends str actors t e =
      let ((rows, v), less) =
        run_bound (prompt_step refuses) (Inv refuses) left step-left actors (begun str) t
          (begun-Inv refuses str) e in
      (
        omega arith,
        elim (Bool-cases (returned t.main_pc)) [
          | inl over ↦ inl (over, Here-returned t.main_pc t over v)
          | inr on ↦ inr (step-Moves t on)
        ],
      )
