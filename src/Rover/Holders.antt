-- ===== src/Rover/Holders.antt =====
-- The tasks of exercise-edfomai/mars_rover.c that hold its lock, counted with the lock.
use edfomai.Base.{ℕ, ◌+◌, ◌≡◌, refl, sym, ap, Bool-cases, ◌∙◌, Option, none, some, arith, inl, inr}
use edfomai.Rover.{
  sense_top, sense_busy, sense_unlocked, sense_waiting, process_top, process_ready, process_busy,
  process_unlocked, process_waiting, process_ended, act_top, act_ready, act_busy, act_unlocked,
  act_waiting, act_ended, comunicate_top, comunicate_ready, comunicate_unlocked, comunicate_waiting,
  comunicate_ended, SensePc, sense_locked, sense_read, sense_written, sense_ended, ProcessPc,
  process_locked, process_read, process_written, ActPc, act_locked, act_read, ComunicatePc,
  comunicate_locked, comunicate_read, Rover, Actor, sensing, processing, acting, comunicating,
  interrupted, sense, process, act, comunicate, rover_step,
}
use edfomai.Tasks.{sem_p_lem}

-- 1 for a task that holds the lock.
abbrev pub sense_holds : SensePc → ℕ
sense_holds sense_locked = 1
sense_holds (sense_read v) = 1
sense_holds sense_written = 1
sense_holds _ = 0

abbrev pub process_holds : ProcessPc → ℕ
process_holds process_locked = 1
process_holds (process_read v) = 1
process_holds process_written = 1
process_holds _ = 0

abbrev pub act_holds : ActPc → ℕ
act_holds act_locked = 1
act_holds (act_read res) = 1
act_holds _ = 0

abbrev pub comunicate_holds : ComunicatePc → ℕ
comunicate_holds comunicate_locked = 1
comunicate_holds (comunicate_read res) = 1
comunicate_holds _ = 0

abbrev pub holders : Rover → ℕ
holders r =
    sense_holds r.sensor
    + process_holds r.processor
    + act_holds r.actuator
    + comunicate_holds r.comunicator

abbrev lock_total : Option Rover → ℕ
lock_total none = 0
lock_total (some r) = holders r + r.ex_lock

sense-holders :
    (pc : SensePc) (r s : Rover)
    → r.sensor ≡ pc
    → sense pc r ≡ some s
    → holders s + s.ex_lock ≡ holders r + r.ex_lock
unfolding sense
sense-holders sense_top r s here e =
    sym (ap lock_total e)
    ∙ elim (Bool-cases r.stopped) [ inl k ↦ rw (here, k) | inr k ↦ rw (here, k) ]
sense-holders sense_busy r s here e =
    let (m, had, taken) = sem_p_lem r.ex_lock _ s e in
    sym (ap lock_total taken) ∙ rw (here, had) (omega arith)
sense-holders sense_locked r s here e = sym (ap lock_total e) ∙ rw here (omega arith)
sense-holders (sense_read v) r s here e = sym (ap lock_total e) ∙ rw here (omega arith)
sense-holders sense_written r s here e = sym (ap lock_total e) ∙ rw here (omega arith)
sense-holders sense_unlocked r s here e = sym (ap lock_total e) ∙ rw here (omega arith)
sense-holders sense_waiting r s here e = sym (ap lock_total e) ∙ rw here (omega arith)
sense-holders sense_ended r s here e = cc

process-holders :
    (pc : ProcessPc) (r s : Rover)
    → r.processor ≡ pc
    → process pc r ≡ some s
    → holders s + s.ex_lock ≡ holders r + r.ex_lock
unfolding process
process-holders process_top r s here e =
    sym (ap lock_total e)
    ∙ elim (Bool-cases r.stopped) [ inl k ↦ rw (here, k) | inr k ↦ rw (here, k) ]
process-holders process_ready r s here e =
    let (m, had, taken) = sem_p_lem r.sensing_done _ s e in
    sym (ap lock_total taken) ∙ rw here (omega arith)
process-holders process_busy r s here e =
    let (m, had, taken) = sem_p_lem r.ex_lock _ s e in
    sym (ap lock_total taken) ∙ rw (here, had) (omega arith)
process-holders process_locked r s here e = sym (ap lock_total e) ∙ rw here (omega arith)
process-holders (process_read v) r s here e = sym (ap lock_total e) ∙ rw here (omega arith)
process-holders process_written r s here e = sym (ap lock_total e) ∙ rw here (omega arith)
process-holders process_unlocked r s here e = sym (ap lock_total e) ∙ rw here (omega arith)
process-holders process_waiting r s here e = sym (ap lock_total e) ∙ rw here (omega arith)
process-holders process_ended r s here e = cc

act-holders :
    (pc : ActPc) (r s : Rover)
    → r.actuator ≡ pc
    → act pc r ≡ some s
    → holders s + s.ex_lock ≡ holders r + r.ex_lock
unfolding act
act-holders act_top r s here e =
    sym (ap lock_total e)
    ∙ elim (Bool-cases r.stopped) [ inl k ↦ rw (here, k) | inr k ↦ rw (here, k) ]
act-holders act_ready r s here e =
    let (m, had, taken) = sem_p_lem r.processing_done _ s e in
    sym (ap lock_total taken) ∙ rw here (omega arith)
act-holders act_busy r s here e =
    let (m, had, taken) = sem_p_lem r.ex_lock _ s e in
    sym (ap lock_total taken) ∙ rw (here, had) (omega arith)
act-holders act_locked r s here e = sym (ap lock_total e) ∙ rw here (omega arith)
act-holders (act_read res) r s here e = sym (ap lock_total e) ∙ rw here (omega arith)
act-holders (act_unlocked res) r s here e = sym (ap lock_total e) ∙ rw here (omega arith)
act-holders act_waiting r s here e = sym (ap lock_total e) ∙ rw here (omega arith)
act-holders act_ended r s here e = cc

comunicate-holders :
    (pc : ComunicatePc) (r s : Rover)
    → r.comunicator ≡ pc
    → comunicate pc r ≡ some s
    → holders s + s.ex_lock ≡ holders r + r.ex_lock
unfolding comunicate
comunicate-holders comunicate_top r s here e =
    sym (ap lock_total e)
    ∙ elim (Bool-cases r.stopped) [ inl k ↦ rw (here, k) | inr k ↦ rw (here, k) ]
comunicate-holders comunicate_ready r s here e =
    let (m, had, taken) = sem_p_lem r.ex_lock _ s e in
    sym (ap lock_total taken) ∙ rw (here, had) (omega arith)
comunicate-holders comunicate_locked r s here e = sym (ap lock_total e) ∙ rw here (omega arith)
comunicate-holders (comunicate_read res) r s here e = sym (ap lock_total e) ∙ rw here (omega arith)
comunicate-holders (comunicate_unlocked res) r s here e =
    sym (ap lock_total e) ∙ rw here (omega arith)
comunicate-holders comunicate_waiting r s here e = sym (ap lock_total e) ∙ rw here (omega arith)
comunicate-holders comunicate_ended r s here e = cc

pub step-holders :
    (a : Actor) (r s : Rover)
    → rover_step a r ≡ some s
    → holders s + s.ex_lock ≡ holders r + r.ex_lock
unfolding rover_step
step-holders sensing r s e = sense-holders r.sensor r s refl e
step-holders processing r s e = process-holders r.processor r s refl e
step-holders acting r s e = act-holders r.actuator r s refl e
step-holders comunicating r s e = comunicate-holders r.comunicator r s refl e
step-holders interrupted r s e = ground arith
