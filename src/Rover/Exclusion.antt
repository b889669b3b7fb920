-- ===== src/Rover/Exclusion.antt =====
-- The lock of exercise-edfomai/mars_rover.c: no two tasks are between its rt_sem_p and rt_sem_v.
use edfomai.Base.{ℕ, ◌+◌, ◌≡◌, refl, Bool-cases, ◌∙◌, some, arith, inl, inr}
use edfomai.Rover.{
  sense_top, sense_busy, sense_unlocked, sense_waiting, process_top, process_ready, process_busy,
  process_unlocked, process_waiting, process_ended, act_top, act_ready, act_busy, act_unlocked,
  act_waiting, act_ended, comunicate_top, comunicate_ready, comunicate_unlocked, comunicate_waiting,
  comunicate_ended, SensePc, sense_locked, sense_read, sense_written, sense_ended, ProcessPc,
  process_locked, process_read, process_written, ActPc, act_locked, act_read, ComunicatePc,
  comunicate_locked, comunicate_read, Rover, Actor, started_up, sensing, processing, acting,
  comunicating, interrupted, sense, process, act, comunicate, rover_step,
}
use edfomai.Tasks.{sem_p_lem, moved, Reached, Reached_ind}
use edfomai.Rover.Holders.{process_holds, holders, step-holders}

-- The value that the processor has read is still that of the variable.
abbrev pub Local : ProcessPc → ℕ → Type 0
Local (process_read v) n = v ≡ n
Local _ n = Unit

idle-Local : (pc : ProcessPc) (n : ℕ) → process_holds pc ≡ 0 → Local pc n
idle-Local process_top n h = tt
idle-Local process_ready n h = tt
idle-Local process_busy n h = tt
idle-Local process_locked n h = tt
idle-Local (process_read v) n h = absurd (omega arith)
idle-Local process_written n h = tt
idle-Local process_unlocked n h = tt
idle-Local process_waiting n h = tt
idle-Local process_ended n h = tt

abbrev LocalIn : Rover → Type 0
LocalIn r = Local r.processor r.shared_resource

sense-LocalIn :
    (pc : SensePc) (r s : Rover)
    → r.sensor ≡ pc
    → sense pc r ≡ some s
    → holders r + r.ex_lock ≡ 1
    → LocalIn r
    → LocalIn s
unfolding sense
sense-LocalIn sense_top r s here e one v = moved LocalIn e v
sense-LocalIn sense_busy r s here e one v =
    let (m, had, taken) = sem_p_lem r.ex_lock _ s e in moved LocalIn taken v
sense-LocalIn sense_locked r s here e one v = moved LocalIn e v
sense-LocalIn (sense_read n) r s here e one v =
    let held = rw here at one in moved LocalIn e (idle-Local r.processor n (omega arith))
sense-LocalIn sense_written r s here e one v = moved LocalIn e v
sense-LocalIn sense_unlocked r s here e one v = moved LocalIn e v
sense-LocalIn sense_waiting r s here e one v = moved LocalIn e v
sense-LocalIn sense_ended r s here e one v = cc

process-LocalIn : (pc : ProcessPc) (r s : Rover) → process pc r ≡ some s → LocalIn s
unfolding process
process-LocalIn process_top r s e = elim (Bool-cases r.stopped) [
  | inl k ↦ moved LocalIn (rw k at e) tt
  | inr k ↦ moved LocalIn (rw k at e) tt
]
process-LocalIn process_ready r s e =
    let (m, had, taken) = sem_p_lem r.sensing_done _ s e in moved LocalIn taken tt
process-LocalIn process_busy r s e =
    let (m, had, taken) = sem_p_lem r.ex_lock _ s e in moved LocalIn taken tt
process-LocalIn process_locked r s e = moved LocalIn e refl
process-LocalIn (process_read v) r s e = moved LocalIn e tt
process-LocalIn process_written r s e = moved LocalIn e tt
process-LocalIn process_unlocked r s e = moved LocalIn e tt
process-LocalIn process_waiting r s e = moved LocalIn e tt
process-LocalIn process_ended r s e = cc

act-LocalIn : (pc : ActPc) (r s : Rover) → act pc r ≡ some s → LocalIn r → LocalIn s
unfolding act
act-LocalIn act_top r s e v = moved LocalIn e v
act-LocalIn act_ready r s e v =
    let (m, had, taken) = sem_p_lem r.processing_done _ s e in moved LocalIn taken v
act-LocalIn act_busy r s e v =
    let (m, had, taken) = sem_p_lem r.ex_lock _ s e in moved LocalIn taken v
act-LocalIn act_locked r s e v = moved LocalIn e v
act-LocalIn (act_read res) r s e v = moved LocalIn e v
act-LocalIn (act_unlocked res) r s e v = moved LocalIn e v
act-LocalIn act_waiting r s e v = moved LocalIn e v
act-LocalIn act_ended r s e v = cc

comunicate-LocalIn :
    (pc : ComunicatePc) (r s : Rover) → comunicate pc r ≡ some s → LocalIn r → LocalIn s
unfolding comunicate
comunicate-LocalIn comunicate_top r s e v = moved LocalIn e v
comunicate-LocalIn comunicate_ready r s e v =
    let (m, had, taken) = sem_p_lem r.ex_lock _ s e in moved LocalIn taken v
comunicate-LocalIn comunicate_locked r s e v = moved LocalIn e v
comunicate-LocalIn (comunicate_read res) r s e v = moved LocalIn e v
comunicate-LocalIn (comunicate_unlocked res) r s e v = moved LocalIn e v
comunicate-LocalIn comunicate_waiting r s e v = moved LocalIn e v
comunicate-LocalIn comunicate_ended r s e v = cc

step-LocalIn :
    (a : Actor) (r s : Rover)
    → rover_step a r ≡ some s
    → holders r + r.ex_lock ≡ 1
    → LocalIn r
    → LocalIn s
unfolding rover_step
step-LocalIn sensing r s e one v = sense-LocalIn r.sensor r s refl e one v
step-LocalIn processing r s e one v = process-LocalIn r.processor r s e
step-LocalIn acting r s e one v = act-LocalIn r.actuator r s e v
step-LocalIn comunicating r s e one v = comunicate-LocalIn r.comunicator r s e v
step-LocalIn interrupted r s e one v = moved LocalIn e v

-- In every reached state exactly one of the tasks and the semaphore has the lock, and between the read
-- and the write of the processor's `sharedResource += 1` the variable keeps the value that was read.
pub Reached-holders :
    (r : Rover)
    → Reached rover_step started_up r
    → (holders r + r.ex_lock ≡ 1) × Local r.processor r.shared_resource
Reached-holders r reached =
    Reached_ind rover_step (λ r. (holders r + r.ex_lock ≡ 1) × LocalIn r)
      (λ a s t e (one, v). (step-holders a s t e ∙ one, step-LocalIn a s t e one v)) (refl, tt)
      reached
