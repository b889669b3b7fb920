-- ===== src/Exercise/Bottler/Balance.antt =====
-- What the tasks of exercise-xenomai/bottler.c have done and owe, as numbers.
use edfomai.Base.{ℕ, zero, suc, List, [], ◌∷◌, ◌+◌, ◌*◌, ◌%◌, ◌≤◌, ◌<◌, ◌≡◌, refl, arith}
use edfomai.Exercise.Bottler.{
  reader_off, reader_top, reader_in, reader_sensing, reader_signalled, reader_waiting, reader_ended,
  ReaderPc, ExecutorPc, executor_off, executor_top, executor_in, executor_woken, executor_switched,
  executor_sleeping, executor_signalled, executor_waiting, executor_ended, WriterPc, writer_off,
  writer_top, writer_in, writer_woken, writer_sleeping, writer_waiting, writer_ended, MainPc,
  main_top, main_initialized, main_reader, main_executor, main_writer, Line, sensing, executing,
  acting, Plc, do_step, step0, step1, step2, step3, step4, step5,
}

-- The lines of each kind on the console.
abbrev pub sensings : List Line → ℕ
sensings [] = 0
sensings (sensing ∷ rest) = suc (sensings rest)
sensings (_ ∷ rest) = sensings rest

abbrev pub executings : List Line → ℕ
executings [] = 0
executings (executing ∷ rest) = suc (executings rest)
executings (_ ∷ rest) = executings rest

abbrev pub actings : List Line → ℕ
actings [] = 0
actings (acting ∷ rest) = suc (actings rest)
actings (_ ∷ rest) = actings rest

-- 1 for a reader that has printed and not yet signalled, and 1 for one that is started.
abbrev pub reader_owes : ReaderPc → ℕ
reader_owes reader_sensing = 1
reader_owes _ = 0

abbrev pub reader_on : ReaderPc → ℕ
reader_on reader_off = 0
reader_on _ = 1

-- 1 for an executor that has taken a reading and not yet printed; that has switched; that has printed
-- and not yet signalled; that is started.
abbrev pub executor_has : ExecutorPc → ℕ
executor_has executor_woken = 1
executor_has executor_switched = 1
executor_has _ = 0

abbrev pub has_switched : ExecutorPc → ℕ
has_switched executor_switched = 1
has_switched _ = 0

abbrev pub executor_owes : ExecutorPc → ℕ
executor_owes executor_sleeping = 1
executor_owes _ = 0

abbrev pub executor_on : ExecutorPc → ℕ
executor_on executor_off = 0
executor_on _ = 1

abbrev pub writer_has : WriterPc → ℕ
writer_has writer_woken = 1
writer_has _ = 0

abbrev pub writer_on : WriterPc → ℕ
writer_on writer_off = 0
writer_on _ = 1

-- The tasks that main() has started.
abbrev pub started : MainPc → ℕ
started main_top = 0
started main_initialized = 0
started main_reader = 0
started main_executor = 1
started main_writer = 2
started _ = 3

abbrev pub Inv : Plc → Type 0
Inv s =
    (s.read_done + executings s.out + executor_has s.executor_pc + reader_owes s.reader_pc
      ≡ sensings s.out)
    × (s.execution_done + actings s.out + writer_has s.writer_pc + executor_owes s.executor_pc
        ≡ executings s.out)
    × (s.step ≡ (executings s.out + has_switched s.executor_pc) % 6)
    × (reader_on s.reader_pc ≤ started s.main_pc)
    × (2 * executor_on s.executor_pc ≤ started s.main_pc)
    × (3 * writer_on s.writer_pc ≤ started s.main_pc)

-- The switch goes from each of the six steps to the next one, and from the last to the first.
pub do_step_lem : (n : ℕ) (s : Plc) → n < 6 → do_step n s ≡ record s { step = (n + 1) % 6 }
unfolding do_step step0 step1 step2 step3 step4 step5
do_step_lem zero s h = refl
do_step_lem (suc zero) s h = refl
do_step_lem (suc (suc zero)) s h = refl
do_step_lem (suc (suc (suc zero))) s h = refl
do_step_lem (suc (suc (suc (suc zero)))) s h = refl
do_step_lem (suc (suc (suc (suc (suc zero))))) s h = refl
do_step_lem (suc (suc (suc (suc (suc (suc n)))))) s h = absurd (omega arith)

pub reader_on-off : (pc : ReaderPc) → reader_on pc ≡ 0 → pc ≡ reader_off
reader_on-off reader_off h = refl
reader_on-off reader_top h = absurd (omega arith)
reader_on-off reader_in h = absurd (omega arith)
reader_on-off reader_sensing h = absurd (omega arith)
reader_on-off reader_signalled h = absurd (omega arith)
reader_on-off reader_waiting h = absurd (omega arith)
reader_on-off reader_ended h = absurd (omega arith)

pub executor_on-off : (pc : ExecutorPc) → executor_on pc ≡ 0 → pc ≡ executor_off
executor_on-off executor_off h = refl
executor_on-off executor_top h = absurd (omega arith)
executor_on-off executor_in h = absurd (omega arith)
executor_on-off executor_woken h = absurd (omega arith)
executor_on-off executor_switched h = absurd (omega arith)
executor_on-off executor_sleeping h = absurd (omega arith)
executor_on-off executor_signalled h = absurd (omega arith)
executor_on-off executor_waiting h = absurd (omega arith)
executor_on-off executor_ended h = absurd (omega arith)

pub writer_on-off : (pc : WriterPc) → writer_on pc ≡ 0 → pc ≡ writer_off
writer_on-off writer_off h = refl
writer_on-off writer_top h = absurd (omega arith)
writer_on-off writer_in h = absurd (omega arith)
writer_on-off writer_woken h = absurd (omega arith)
writer_on-off writer_sleeping h = absurd (omega arith)
writer_on-off writer_waiting h = absurd (omega arith)
writer_on-off writer_ended h = absurd (omega arith)
