-- ===== src/Exercise/Semaphore/Rounds.antt =====
-- How far the tasks of exercise-xenomai/semaphore.c are, as numbers.
use edfomai.Base.{ℕ, zero, suc, ◌+◌, ◌-◌, ◌≤◌, ◌<◌, ◌≡◌, List, [], ◌∷◌, arith}
use edfomai.Exercise.Semaphore.{
  iter, TaskPc, before, taken, loaded, changed, printed, finished, Line, one_says, two_says, Pair,
}

-- The rounds that a task has ended, those in which it changed `global` and in which it printed, and
-- whether it is between its two semaphores.
abbrev pub done : TaskPc → ℕ
done (before i) = i
done (taken i) = i
done (loaded i g) = i
done (changed i g) = i
done (printed i) = i
done finished = iter

abbrev pub bumped : TaskPc → ℕ
bumped (changed i g) = suc i
bumped (printed i) = suc i
bumped pc = done pc

abbrev pub said : TaskPc → ℕ
said (printed i) = suc i
said pc = done pc

abbrev pub held : TaskPc → ℕ
held (before i) = 0
held finished = 0
held _ = 1

abbrev pub Within : TaskPc → Type 0
Within (before i) = i ≤ iter
Within (taken i) = i < iter
Within (loaded i g) = i < iter
Within (changed i g) = i < iter
Within (printed i) = i < iter
Within finished = Unit

-- The value that a task has in hand is that of `global`.
abbrev pub Local : TaskPc → ℕ → Type 0
Local (loaded i g) n = g ≡ n
Local (changed i g) n = g ≡ n
Local _ n = Unit

-- The console after n rounds of both.
abbrev pub turns : ℕ → List Line
turns zero = []
turns (suc n) = two_says 0 ∷ one_says 1 ∷ turns n

-- The console when the first task has printed n + k lines and the second one n.
abbrev pub console : ℕ → ℕ → List Line
console n zero = turns n
console n (suc k) = one_says 1 ∷ turns n

pub bumped-said :
    (pc : TaskPc) → (done pc ≤ said pc) × (said pc ≤ bumped pc) × (bumped pc ≤ done pc + held pc)
bumped-said (before i) = (omega arith, omega arith, omega arith)
bumped-said (taken i) = (omega arith, omega arith, omega arith)
bumped-said (loaded i g) = (omega arith, omega arith, omega arith)
bumped-said (changed i g) = (omega arith, omega arith, omega arith)
bumped-said (printed i) = (omega arith, omega arith, omega arith)
bumped-said finished = (omega arith, omega arith, omega arith)

pub idle-Local : (pc : TaskPc) (n : ℕ) → held pc ≡ 0 → Local pc n
idle-Local (before i) n h = tt
idle-Local (taken i) n h = tt
idle-Local (loaded i g) n h = absurd (omega arith)
idle-Local (changed i g) n h = absurd (omega arith)
idle-Local (printed i) n h = tt
idle-Local finished n h = tt

pub record Inv (s : Pair) : Type 0 where
  pub first : s.sem_global1 + done s.one + held s.one ≡ 1 + done s.two
  pub second : s.sem_global2 + done s.two + held s.two ≡ done s.one
  pub counted : s.global + bumped s.two ≡ bumped s.one
  pub lines : s.out ≡ console (said s.two) (said s.one - said s.two)
  pub one_within : Within s.one
  pub two_within : Within s.two
  pub one_local : Local s.one s.global
  pub two_local : Local s.two s.global
