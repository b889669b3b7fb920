-- ===== src/Exercise/Bottler/Counts.antt =====
-- How often the tasks of exercise-xenomai/bottler.c do their parts.
use edfomai.Base.{subst, sym, some, ◌+◌, ◌%◌, ◌≤◌, ◌≡◌, refl, arith, Bool-cases, inl, inr}
use edfomai.Tasks.{sem_p_lem, moved, Reached, Reached_ind}
use edfomai.Exercise.Bottler.{
  reader_off, reader_top, reader_in, reader_sensing, reader_signalled, reader_waiting, reader_ended,
  ReaderPc, ExecutorPc, executor_off, executor_top, executor_in, executor_woken, executor_switched,
  executor_sleeping, executor_signalled, executor_waiting, executor_ended, WriterPc, writer_off,
  writer_top, writer_in, writer_woken, writer_sleeping, writer_waiting, writer_ended, MainPc,
  main_top, main_initialized, main_reader, main_executor, main_writer, main_started, main_paused,
  main_closing, main_cleanup, main_ended, Plc, loaded, print, reader, writer, executor,
  catch_signal, startup, wait_for_ctrl_c, init_xenomai, cleanup, main, Actor, reads, executes,
  writes, controls, signals, ended, paused, running, plc_step,
}
use edfomai.Exercise.Bottler.Balance.{
  sensings, executings, actings, has_switched, Inv, do_step_lem, reader_on-off, executor_on-off,
  writer_on-off,
}

reader-Inv : (pc : ReaderPc) (s t : Plc) → s.reader_pc ≡ pc → reader pc s ≡ some t → Inv s → Inv t
unfolding reader print
reader-Inv reader_off s t here e v = cc
reader-Inv reader_top s t here e v = elim (Bool-cases s.stopped) [
  | inl k ↦ moved Inv (rw k at e) (ground (arith, rw here at v))
  | inr k ↦ moved Inv (rw k at e) (ground (arith, rw here at v))
]
reader-Inv reader_in s t here e v = moved Inv e (ground (arith, rw here at v))
reader-Inv reader_sensing s t here e v = moved Inv e (ground (arith, rw here at v))
reader-Inv reader_signalled s t here e v = moved Inv e (ground (arith, rw here at v))
reader-Inv reader_waiting s t here e v = moved Inv e (ground (arith, rw here at v))
reader-Inv reader_ended s t here e v = cc

writer-Inv : (pc : WriterPc) (s t : Plc) → s.writer_pc ≡ pc → writer pc s ≡ some t → Inv s → Inv t
unfolding writer print
writer-Inv writer_off s t here e v = cc
writer-Inv writer_top s t here e v = elim (Bool-cases s.stopped) [
  | inl k ↦ moved Inv (rw k at e) (ground (arith, rw here at v))
  | inr k ↦ moved Inv (rw k at e) (ground (arith, rw here at v))
]
writer-Inv writer_in s t here e v =
    let (n, had, e') = sem_p_lem s.execution_done _ t e in
    moved Inv e' (ground (arith, rw (here, had) at v))
writer-Inv writer_woken s t here e v = moved Inv e (ground (arith, rw here at v))
writer-Inv writer_sleeping s t here e v = moved Inv e (ground (arith, rw here at v))
writer-Inv writer_waiting s t here e v = moved Inv e (ground (arith, rw here at v))
writer-Inv writer_ended s t here e v = cc

executor-Inv :
    (pc : ExecutorPc) (s t : Plc) → s.executor_pc ≡ pc → executor pc s ≡ some t → Inv s → Inv t
unfolding executor print
executor-Inv executor_off s t here e v = cc
executor-Inv executor_top s t here e v = elim (Bool-cases s.stopped) [
  | inl k ↦ moved Inv (rw k at e) (ground (arith, rw here at v))
  | inr k ↦ moved Inv (rw k at e) (ground (arith, rw here at v))
]
executor-Inv executor_in s t here e v =
    let (n, had, e') = sem_p_lem s.read_done _ t e in
    moved Inv e' (ground (arith, rw (here, had) at v))
executor-Inv executor_woken s t here e v =
    let w = rw here at v in
    moved Inv e (subst Inv (sym (do_step_lem s.step _ (ground (arith, w)))) (ground (arith, w)))
executor-Inv executor_switched s t here e v = moved Inv e (ground (arith, rw here at v))
executor-Inv executor_sleeping s t here e v = moved Inv e (ground (arith, rw here at v))
executor-Inv executor_signalled s t here e v = moved Inv e (ground (arith, rw here at v))
executor-Inv executor_waiting s t here e v = moved Inv e (ground (arith, rw here at v))
executor-Inv executor_ended s t here e v = cc

main-Inv : (pc : MainPc) (s t : Plc) → s.main_pc ≡ pc → main pc s ≡ some t → Inv s → Inv t
unfolding main startup print wait_for_ctrl_c init_xenomai cleanup
main-Inv main_top s t here e v = moved Inv e (ground (arith, rw here at v))
main-Inv main_initialized s t here e v = moved Inv e (ground (arith, rw here at v))
main-Inv main_reader s t here e v =
    let w = rw here at v in
    let off = reader_on-off s.reader_pc (ground (arith, w)) in
    moved Inv e (ground (arith, rw off at w))
main-Inv main_executor s t here e v =
    let w = rw here at v in
    let off = executor_on-off s.executor_pc (ground (arith, w)) in
    moved Inv e (ground (arith, rw off at w))
main-Inv main_writer s t here e v =
    let w = rw here at v in
    let off = writer_on-off s.writer_pc (ground (arith, w)) in
    moved Inv e (ground (arith, rw off at w))
main-Inv main_started s t here e v = moved Inv e (ground (arith, rw here at v))
main-Inv main_paused s t here e v = elim (Bool-cases s.stopped) [
  | inl k ↦ moved Inv (rw k at e) (ground (arith, rw here at v))
  | inr k ↦ let e' = rw k at e in cc
]
main-Inv main_closing s t here e v = moved Inv e (ground (arith, rw here at v))
main-Inv main_cleanup s t here e v = moved Inv e (ground (arith, rw here at v))
main-Inv main_ended s t here e v = cc

running-Inv : (a : Actor) (s t : Plc) → running a s ≡ some t → Inv s → Inv t
unfolding running catch_signal print
running-Inv reads s t e v = reader-Inv s.reader_pc s t refl e v
running-Inv executes s t e v = executor-Inv s.executor_pc s t refl e v
running-Inv writes s t e v = writer-Inv s.writer_pc s t refl e v
running-Inv controls s t e v = main-Inv s.main_pc s t refl e v
running-Inv signals s t e v = elim (Bool-cases (paused s.main_pc)) [
  | inl k ↦ moved Inv (rw k at e) v
  | inr k ↦ let e' = rw k at e in cc
]

step-Inv : (a : Actor) (s t : Plc) → plc_step a s ≡ some t → Inv s → Inv t
unfolding plc_step
step-Inv a s t e v = elim (Bool-cases (ended s.main_pc)) [
  | inl k ↦ let e' = rw k at e in cc
  | inr k ↦ running-Inv a s t (rw k at e) v
]

-- In every reached state of the program, as many readings were announced as executions or more, as many
-- executions as outputs or more, and `step` is the number of switches, counted modulo six.
pub Reached-counts :
    (s : Plc)
    → Reached plc_step loaded s
    → (actings s.out ≤ executings s.out)
      × (executings s.out ≤ sensings s.out)
      × (s.step ≡ (executings s.out + has_switched s.executor_pc) % 6)
Reached-counts s r = let v = Reached_ind plc_step Inv step-Inv (ground arith) r in ground (arith, v)
