-- ===== src/Rover.antt =====
-- The four tasks of exercise-edfomai/mars_rover.c with their three semaphores. A step is one call of a
-- semaphore, one access to a shared variable, or one test of a loop; the tasks' steps interleave in
-- any order. Spinning, printing, and the end of a wait for the period take any number of steps of the
-- others, and the interrupt sets `stopped`.
pub mod Holders
pub mod Exclusion
pub mod Stretches
pub mod Rounds
pub mod Main
pub mod Creations
use edfomai.Base.{
  ℕ, zero, suc, ◌+◌, ◌%◌, ◌^◌, Bool, true, false, Option, none, some, List, [], ◌∷◌, if◌then◌else◌,
  ◌≡◌,
}
use edfomai.Tasks.{sem_p}

-- Where the sensor stands in its loop: `sense_locked` is after rt_sem_p(&exLock), `sense_read v` after
-- the read of `shared`, and so on.
pub data SensePc : Type 0 where
  sense_top sense_busy sense_locked : SensePc
  sense_read : ℕ → SensePc
  sense_written sense_unlocked sense_waiting sense_ended : SensePc

-- `process_read v` is after the read of `sharedResource += 1`, and process_written after its write.
pub data ProcessPc : Type 0 where
  process_top process_ready process_busy process_locked : ProcessPc
  process_read : ℕ → ProcessPc
  process_written process_unlocked process_waiting process_ended : ProcessPc

-- The argument is the local variable `res`.
pub data ActPc : Type 0 where
  act_top act_ready act_busy act_locked : ActPc
  act_read act_unlocked : ℕ → ActPc
  act_waiting act_ended : ActPc

pub data ComunicatePc : Type 0 where
  comunicate_top comunicate_ready comunicate_locked : ComunicatePc
  comunicate_read comunicate_unlocked : ℕ → ComunicatePc
  comunicate_waiting comunicate_ended : ComunicatePc

-- An int is its 32-bit pattern.
pub record Rover : Type 0 where
  pub stopped : Bool
  pub ex_lock : ℕ
  pub sensing_done : ℕ
  pub processing_done : ℕ
  pub shared_resource : ℕ
  pub shared : ℕ
  pub sensor : SensePc
  pub processor : ProcessPc
  pub actuator : ActPc
  pub comunicator : ComunicatePc

-- What startup() leaves.
abbrev pub started_up : Rover
started_up = record {
  stopped = false;
  ex_lock = 1;
  sensing_done = 0;
  processing_done = 0;
  shared_resource = 0;
  shared = 0;
  sensor = sense_top;
  processor = process_top;
  actuator = act_top;
  comunicator = comunicate_top;
}

unfoldable pub sense : SensePc → Rover → Option Rover
sense sense_top r = some (record r { sensor = if r.stopped then sense_ended else sense_busy })
sense sense_busy r = sem_p r.ex_lock λ n. record r { ex_lock = n; sensor = sense_locked }
sense sense_locked r = some (record r { sensor = sense_read r.shared })
sense (sense_read v) r = some (record r { shared_resource = v; sensor = sense_written })
sense sense_written r = some (record r { ex_lock = suc r.ex_lock; sensor = sense_unlocked })
sense sense_unlocked r =
    some (record r { sensing_done = suc r.sensing_done; sensor = sense_waiting })
sense sense_waiting r = some (record r { sensor = sense_top })
sense sense_ended r = none

unfoldable pub process : ProcessPc → Rover → Option Rover
process process_top r =
    some (record r { processor = if r.stopped then process_ended else process_ready })
process process_ready r =
    sem_p r.sensing_done λ n. record r { sensing_done = n; processor = process_busy }
process process_busy r = sem_p r.ex_lock λ n. record r { ex_lock = n; processor = process_locked }
process process_locked r = some (record r { processor = process_read r.shared_resource })
process (process_read v) r =
    some (record r { shared_resource = (v + 1) % 2 ^ 32; processor = process_written })
process process_written r =
    some (record r { ex_lock = suc r.ex_lock; processor = process_unlocked })
process process_unlocked r =
    some (record r { processing_done = suc r.processing_done; processor = process_waiting })
process process_waiting r = some (record r { processor = process_top })
process process_ended r = none

unfoldable pub act : ActPc → Rover → Option Rover
act act_top r = some (record r { actuator = if r.stopped then act_ended else act_ready })
act act_ready r = sem_p r.processing_done λ n. record r { processing_done = n; actuator = act_busy }
act act_busy r = sem_p r.ex_lock λ n. record r { ex_lock = n; actuator = act_locked }
act act_locked r = some (record r { actuator = act_read r.shared_resource })
act (act_read res) r = some (record r { ex_lock = suc r.ex_lock; actuator = act_unlocked res })
act (act_unlocked res) r = some (record r { shared = res; actuator = act_waiting })
act act_waiting r = some (record r { actuator = act_top })
act act_ended r = none

unfoldable pub comunicate : ComunicatePc → Rover → Option Rover
comunicate comunicate_top r =
    some (record r { comunicator = if r.stopped then comunicate_ended else comunicate_ready })
comunicate comunicate_ready r =
    sem_p r.ex_lock λ n. record r { ex_lock = n; comunicator = comunicate_locked }
comunicate comunicate_locked r = some (record r { comunicator = comunicate_read r.shared_resource })
comunicate (comunicate_read res) r =
    some (record r { ex_lock = suc r.ex_lock; comunicator = comunicate_unlocked res })
comunicate (comunicate_unlocked res) r = some (record r { comunicator = comunicate_waiting })
comunicate comunicate_waiting r = some (record r { comunicator = comunicate_top })
comunicate comunicate_ended r = none

pub data Actor : Type 0 where
  sensing processing acting comunicating interrupted : Actor

-- One step of one task, or the signal handler; `none` when the task is blocked or has ended.
unfoldable pub rover_step : Actor → Rover → Option Rover
rover_step sensing r = sense r.sensor r
rover_step processing r = process r.processor r
rover_step acting r = act r.actuator r
rover_step comunicating r = comunicate r.comunicator r
rover_step interrupted r = some (record r { stopped = true })
