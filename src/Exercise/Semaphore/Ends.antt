-- ===== src/Exercise/Semaphore/Ends.antt =====
-- The two tasks of exercise-xenomai/semaphore.c never wait for each other in vain, and end.
use edfomai.Base.{
  ℕ, ◌+◌, ◌-◌, ◌*◌, ◌≤◌, ◌<◌, ◌≡◌, refl, some, arith, ltb, ◌==◌, ◌⊎◌, inl, inr, Bool-cases, ◌≢◌,
}
use edfomai.Tasks.{sem_p_lem, moved, pos_suc}
use edfomai.Exercise.Semaphore.{
  iter, TaskPc, before, taken, loaded, changed, printed, finished, Pair, task_one, task_two, Task,
  task1, task2, pair_step,
}
use edfomai.Exercise.Semaphore.Rounds.{done, held, Within, turns, Inv}

-- The steps that a task still has before it.
abbrev pub steps_left : TaskPc → ℕ
steps_left (before i) = 5 * (iter - i) + 1
steps_left (taken i) = 5 * (iter - i)
steps_left (loaded i g) = 5 * (iter - i) - 1
steps_left (changed i g) = 5 * (iter - i) - 2
steps_left (printed i) = 5 * (iter - i) - 3
steps_left finished = 0

abbrev pub total_left : Pair → ℕ
total_left s = steps_left s.one + steps_left s.two

one-total :
    (pc : TaskPc) (s t : Pair)
    → s.one ≡ pc
    → task_one pc s ≡ some t
    → Within pc
    → total_left t + 1 ≡ total_left s
unfolding task_one
one-total (before i) s t here e v = elim (Bool-cases (ltb i iter)) [
  | inl more ↦
      let (n, had, e') = sem_p_lem s.sem_global1 _ t (rw more at e) in
      let less : i < iter = ground arith in
      moved (λ t. total_left t + 1 ≡ total_left s) e' (rw here (omega arith))
  | inr over ↦
      let within : i ≡ iter = ground arith in
      moved (λ t. total_left t + 1 ≡ total_left s) (rw over at e) (rw here (omega arith))
]
one-total (taken i) s t here e v =
    moved (λ t. total_left t + 1 ≡ total_left s) e (rw here (omega arith))
one-total (loaded i g) s t here e v =
    moved (λ t. total_left t + 1 ≡ total_left s) e (rw here (omega arith))
one-total (changed i g) s t here e v =
    moved (λ t. total_left t + 1 ≡ total_left s) e (rw here (omega arith))
one-total (printed i) s t here e v =
    moved (λ t. total_left t + 1 ≡ total_left s) e (rw here (omega arith))
one-total finished s t here e v = cc

two-total :
    (pc : TaskPc) (s t : Pair)
    → s.two ≡ pc
    → task_two pc s ≡ some t
    → Within pc
    → total_left t + 1 ≡ total_left s
unfolding task_two
two-total (before i) s t here e v = elim (Bool-cases (ltb i iter)) [
  | inl more ↦
      let (n, had, e') = sem_p_lem s.sem_global2 _ t (rw more at e) in
      let less : i < iter = ground arith in
      moved (λ t. total_left t + 1 ≡ total_left s) e' (rw here (omega arith))
  | inr over ↦
      let within : i ≡ iter = ground arith in
      moved (λ t. total_left t + 1 ≡ total_left s) (rw over at e) (rw here (omega arith))
]
two-total (taken i) s t here e v =
    moved (λ t. total_left t + 1 ≡ total_left s) e (rw here (omega arith))
two-total (loaded i g) s t here e v =
    moved (λ t. total_left t + 1 ≡ total_left s) e (rw here (omega arith))
two-total (changed i g) s t here e v =
    moved (λ t. total_left t + 1 ≡ total_left s) e (rw here (omega arith))
two-total (printed i) s t here e v =
    moved (λ t. total_left t + 1 ≡ total_left s) e (rw here (omega arith))
two-total finished s t here e v = cc

pub step-total :
    (a : Task) (s t : Pair) → pair_step a s ≡ some t → Inv s → total_left t + 1 ≡ total_left s
unfolding pair_step
step-total task1 s t e v = one-total s.one s t refl e v.one_within
step-total task2 s t e v = two-total s.two s t refl e v.two_within

-- A task that has not ended goes on unless it waits for a semaphore that is at 0.
one_free :
    (pc : TaskPc) (s : Pair)
    → pc ≢ finished
    → (held pc ≡ 1) ⊎ ((done pc ≡ iter) ⊎ (0 < s.sem_global1))
    → Within pc
    → (t : Pair) × (task_one pc s ≡ some t)
unfolding task_one
one_free (before i) s ne h w = elim (Bool-cases (ltb i iter)) [
  | inl more ↦
      let free : 0 < s.sem_global1 = ground arith in
      let (m, e) = pos_suc s.sem_global1 free in
      (record s { sem_global1 = m; one = taken i }, rw (more, e))
  | inr over ↦ (record s { one = finished }, rw over)
]
one_free (taken i) s ne h w = (_, refl)
one_free (loaded i g) s ne h w = (_, refl)
one_free (changed i g) s ne h w = (_, refl)
one_free (printed i) s ne h w = (_, refl)
one_free finished s ne h w = absurd (ne refl)

two_free :
    (pc : TaskPc) (s : Pair)
    → pc ≢ finished
    → (held pc ≡ 1) ⊎ ((done pc ≡ iter) ⊎ (0 < s.sem_global2))
    → Within pc
    → (t : Pair) × (task_two pc s ≡ some t)
unfolding task_two
two_free (before i) s ne h w = elim (Bool-cases (ltb i iter)) [
  | inl more ↦
      let free : 0 < s.sem_global2 = ground arith in
      let (m, e) = pos_suc s.sem_global2 free in
      (record s { sem_global2 = m; two = taken i }, rw (more, e))
  | inr over ↦ (record s { two = finished }, rw over)
]
two_free (taken i) s ne h w = (_, refl)
two_free (loaded i g) s ne h w = (_, refl)
two_free (changed i g) s ne h w = (_, refl)
two_free (printed i) s ne h w = (_, refl)
two_free finished s ne h w = absurd (ne refl)

ended_or : (pc : TaskPc) → (pc ≡ finished) ⊎ (pc ≢ finished)
ended_or (before i) = inr (λ z. cc)
ended_or (taken i) = inr (λ z. cc)
ended_or (loaded i g) = inr (λ z. cc)
ended_or (changed i g) = inr (λ z. cc)
ended_or (printed i) = inr (λ z. cc)
ended_or finished = inl refl

-- Both tasks are through their loops, and the console holds the ten turns of each.
abbrev pub BothEnded : Pair → Type 0
BothEnded s = (s.one ≡ finished) × (s.two ≡ finished) × (s.global ≡ 0) × (s.out ≡ turns iter)

abbrev pub Moves : Pair → Type 0
Moves s = (a : Task) × (t : Pair) × (pair_step a s ≡ some t)

done-held : (pc : TaskPc) → Within pc → (done pc + held pc ≤ iter) × (held pc ≤ 1)
done-held (before i) w = (omega arith, omega arith)
done-held (taken i) w = (omega arith, omega arith)
done-held (loaded i g) w = (omega arith, omega arith)
done-held (changed i g) w = (omega arith, omega arith)
done-held (printed i) w = (omega arith, omega arith)
done-held finished w = (omega arith, omega arith)

pub Inv-Moves : (s : Pair) → Inv s → BothEnded s ⊎ Moves s
unfolding pair_step
Inv-Moves s v =
    let (le1, h1) = done-held s.one v.one_within in
    elim (ended_or s.one) [
      | inl e1 ↦
          let first = rw e1 at v.first in
          let second = rw e1 at v.second in
          let counted = rw e1 at v.counted in
          elim (ended_or s.two) [
            | inl e2 ↦
                let counted2 = rw e2 at counted in
                let g : s.global ≡ 0 = omega arith in
                let lines = rw (e2, e1) at v.lines in inl (e1, e2, g, lines)
            | inr n2 ↦
                let (t, m) = two_free s.two s n2 (ground arith) v.two_within in inr (task2, t, m)
          ]
      | inr n1 ↦ elim (Bool-cases (ltb 0 s.sem_global1)) [
        | inl can ↦
            let (t, m) = one_free s.one s n1 (ground arith) v.one_within in inr (task1, t, m)
        | inr empty ↦ elim (Bool-cases (held s.one == 1)) [
          | inl can ↦
              let (t, m) = one_free s.one s n1 (ground arith) v.one_within in inr (task1, t, m)
          | inr idle ↦
              let behind : done s.one ≡ 1 + done s.two = ground (arith, v.first) in
              elim (ended_or s.two) [
                | inl e2 ↦ absurd (let b = rw e2 at behind in omega arith)
                | inr n2 ↦
                    let (t, m) = two_free s.two s n2 (ground (arith, v.second)) v.two_within in
                    inr (task2, t, m)
              ]
        ]
      ]
    ]
