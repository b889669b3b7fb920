-- ===== src/Exercise/Bottler.antt =====
-- exercise-xenomai/bottler.c: the cycle of a controller, with a task that reads, one that executes a
-- step of the program, and one that writes, and main(). A step of the model is a test of a loop, a call
-- of a semaphore, the switch, or a print; the steps interleave in any order. Sleeping and the waits for
-- the period take any number of steps of the others. The semaphores of the model are those that
-- startup() creates, the priorities restrict nothing, and rt_task_set_periodic is in no step.
pub mod Balance
pub mod Counts
use edfomai.Base.{ℕ, suc, Bool, true, false, Option, none, some, List, [], ◌∷◌, if◌then◌else◌, ◌==◌}
use edfomai.Tasks.{sem_p}

-- `_off` is a task that main() has not started; `_top` is at the test of its loop.
pub data ReaderPc : Type 0 where
  reader_off reader_top reader_in reader_sensing reader_signalled reader_waiting reader_ended :
      ReaderPc

pub data ExecutorPc : Type 0 where
  executor_off executor_top executor_in executor_woken executor_switched executor_sleeping
        executor_signalled executor_waiting executor_ended :
      ExecutorPc

pub data WriterPc : Type 0 where
  writer_off writer_top writer_in writer_woken writer_sleeping writer_waiting writer_ended :
      WriterPc

pub data MainPc : Type 0 where
  main_top main_initialized main_reader main_executor main_writer main_started main_paused
        main_closing main_cleanup main_ended :
      MainPc

-- What rt_printf puts on the console.
pub data Line : Type 0 where
  sensing sensed executing executed acting acted initialized starting_up waiting should_i_exit
        closing cleaned :
      Line

-- The globals, the local `step` of the executor, and the console, the newest line first.
pub record Plc : Type 0 where
  pub read_done : ℕ
  pub execution_done : ℕ
  pub stopped : Bool
  pub step : ℕ
  pub reader_pc : ReaderPc
  pub executor_pc : ExecutorPc
  pub writer_pc : WriterPc
  pub main_pc : MainPc
  pub out : List Line

-- The semaphores are as startup() creates them, and `step` as the executor declares it.
abbrev pub loaded : Plc
loaded = record {
  read_done = 0;
  execution_done = 0;
  stopped = false;
  step = 0;
  reader_pc = reader_off;
  executor_pc = executor_off;
  writer_pc = writer_off;
  main_pc = main_top;
  out = [];
}

unfoldable pub print : Line → Plc → Plc
print line s = record s { out = line ∷ s.out }

unfoldable pub reader : ReaderPc → Plc → Option Plc
unfolding print
reader reader_off s = none
reader reader_top s = some (record s { reader_pc = if s.stopped then reader_ended else reader_in })
reader reader_in s = some (print sensing (record s { reader_pc = reader_sensing }))
reader reader_sensing s =
    some (record s { read_done = suc s.read_done; reader_pc = reader_signalled })
reader reader_signalled s = some (print sensed (record s { reader_pc = reader_waiting }))
reader reader_waiting s = some (record s { reader_pc = reader_top })
reader reader_ended s = none

unfoldable pub writer : WriterPc → Plc → Option Plc
unfolding print
writer writer_off s = none
writer writer_top s = some (record s { writer_pc = if s.stopped then writer_ended else writer_in })
writer writer_in s =
    sem_p s.execution_done λ n. record s { execution_done = n; writer_pc = writer_woken }
writer writer_woken s = some (print acting (record s { writer_pc = writer_sleeping }))
writer writer_sleeping s = some (print acted (record s { writer_pc = writer_waiting }))
writer writer_waiting s = some (record s { writer_pc = writer_top })
writer writer_ended s = none

-- The six step functions have no body.
unfoldable pub step0 : Plc → Plc
step0 s = s

unfoldable pub step1 : Plc → Plc
step1 s = s

unfoldable pub step2 : Plc → Plc
step2 s = s

unfoldable pub step3 : Plc → Plc
step3 s = s

unfoldable pub step4 : Plc → Plc
step4 s = s

unfoldable pub step5 : Plc → Plc
step5 s = s

-- The text "condition" as a condition: it is a pointer other than NULL.
abbrev pub condition : Bool
condition = true

abbrev pub to_step : ℕ → Plc → Plc
to_step n s = record s { step = if condition then n else s.step }

-- The switch on `step`.
unfoldable pub do_step : ℕ → Plc → Plc
unfolding step0 step1 step2 step3 step4 step5
do_step n s =
    if n == 0
    then to_step 1 (step0 s)
    else if n == 1
    then to_step 2 (step1 s)
    else if n == 2
    then to_step 3 (step2 s)
    else if n == 3
    then to_step 4 (step3 s)
    else if n == 4
    then to_step 5 (step4 s)
    else if n == 5
    then to_step 0 (step5 s)
    else s

unfoldable pub executor : ExecutorPc → Plc → Option Plc
unfolding print
executor executor_off s = none
executor executor_top s =
    some (record s { executor_pc = if s.stopped then executor_ended else executor_in })
executor executor_in s =
    sem_p s.read_done λ n. record s { read_done = n; executor_pc = executor_woken }
executor executor_woken s = some (do_step s.step (record s { executor_pc = executor_switched }))
executor executor_switched s = some (print executing (record s { executor_pc = executor_sleeping }))
executor executor_sleeping s =
    some (record s { execution_done = suc s.execution_done; executor_pc = executor_signalled })
executor executor_signalled s = some (print executed (record s { executor_pc = executor_waiting }))
executor executor_waiting s = some (record s { executor_pc = executor_top })
executor executor_ended s = none

-- The handler of SIGTERM and SIGINT.
unfoldable pub catch_signal : Plc → Plc
unfolding print
catch_signal s = print should_i_exit (record s { stopped = true })

-- It sets up the print buffers and locks the memory, which is nothing to this state.
unfoldable pub init_xenomai : Plc → Plc
init_xenomai s = s

unfoldable pub cleanup : Plc → Plc
unfolding print
cleanup s = print cleaned s

-- The calls of startup() one by one: a started task runs while main() starts the next.
unfoldable pub startup : MainPc → Plc → Option Plc
startup main_reader s = some (record s { reader_pc = reader_top; main_pc = main_executor })
startup main_executor s = some (record s { executor_pc = executor_top; main_pc = main_writer })
startup main_writer s = some (record s { writer_pc = writer_top; main_pc = main_started })
startup _ s = none

-- pause() returns when the handler has run.
unfoldable pub wait_for_ctrl_c : Plc → Option Plc
wait_for_ctrl_c s = if s.stopped then some (record s { main_pc = main_closing }) else none

unfoldable pub main : MainPc → Plc → Option Plc
unfolding print init_xenomai cleanup
main main_top s = some (print initialized (init_xenomai (record s { main_pc = main_initialized })))
main main_initialized s = some (print starting_up (record s { main_pc = main_reader }))
main main_started s = some (print waiting (record s { main_pc = main_paused }))
main main_paused s = wait_for_ctrl_c s
main main_closing s = some (print closing (record s { main_pc = main_cleanup }))
main main_cleanup s = some (cleanup (record s { main_pc = main_ended }))
main main_ended s = none
main pc s = startup pc s

pub data Actor : Type 0 where
  reads executes writes controls signals : Actor

abbrev pub ended : MainPc → Bool
ended main_ended = true
ended _ = false

abbrev pub paused : MainPc → Bool
paused main_paused = true
paused _ = false

unfoldable pub running : Actor → Plc → Option Plc
running reads s = reader s.reader_pc s
running executes s = executor s.executor_pc s
running writes s = writer s.writer_pc s
running controls s = main s.main_pc s
running signals s = if paused s.main_pc then some (catch_signal s) else none

-- The end of main() is the end of the process. A signal before main() pauses is not modelled.
unfoldable pub plc_step : Actor → Plc → Option Plc
plc_step a s = if ended s.main_pc then none else running a s
