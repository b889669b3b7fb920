-- ===== src/Rover/Stretches.antt =====
-- The steps of one task of exercise-edfomai/mars_rover.c that bring it to the end of its period, when it
-- has the lock or the lock is free.
use edfomai.Base.{ℕ, zero, suc, ◌+◌, ◌%◌, ◌^◌, ◌≡◌, ◌≢◌, refl, false, List, [], ◌∷◌, arith}
use edfomai.Rover.{
  sense_top, sense_busy, sense_locked, sense_read, sense_written, sense_unlocked, sense_waiting,
  sense_ended, SensePc, process_top, process_ready, process_busy, process_locked, process_read,
  process_written, process_unlocked, process_waiting, process_ended, ProcessPc, act_top, act_ready,
  act_busy, act_locked, act_read, act_unlocked, act_waiting, act_ended, ActPc, comunicate_top,
  comunicate_ready, comunicate_locked, comunicate_read, comunicate_unlocked, comunicate_waiting,
  comunicate_ended, ComunicatePc, Rover, Actor, sensing, processing, acting, comunicating, sense,
  process, act, comunicate, rover_step,
}
use edfomai.Tasks.{Reached, at_start, run, run-Reached}
use edfomai.Rover.Holders.{sense_holds, process_holds, act_holds, comunicate_holds}

-- A state in which no signal has come.
abbrev pub at : ℕ → ℕ → ℕ → ℕ → ℕ → SensePc → ProcessPc → ActPc → ComunicatePc → Rover
at l sd pd sr sh s p a c = record {
  stopped = false;
  ex_lock = l;
  sensing_done = sd;
  processing_done = pd;
  shared_resource = sr;
  shared = sh;
  sensor = s;
  processor = p;
  actuator = a;
  comunicator = c;
}

-- The given number of steps of one task.
abbrev times : ℕ → Actor → List Actor
times zero a = []
times (suc n) a = a ∷ times n a

pub release_sense :
    (pc : SensePc) (sd pd sr sh : ℕ) (p : ProcessPc) (a : ActPc) (c : ComunicatePc)
    → sense_holds pc ≡ 1
    → (sr' : ℕ) × Reached rover_step
        (at 0 sd pd sr sh pc p a c)
        (at 1 (suc sd) pd sr' sh sense_waiting p a c)
unfolding run rover_step sense
release_sense sense_top sd pd sr sh p a c h = absurd (omega arith)
release_sense sense_busy sd pd sr sh p a c h = absurd (omega arith)
release_sense sense_locked sd pd sr sh p a c h =
    (sh, run-Reached rover_step (times 4 sensing) at_start refl)
release_sense (sense_read v) sd pd sr sh p a c h =
    (v, run-Reached rover_step (times 3 sensing) at_start refl)
release_sense sense_written sd pd sr sh p a c h =
    (sr, run-Reached rover_step (times 2 sensing) at_start refl)
release_sense sense_unlocked sd pd sr sh p a c h = absurd (omega arith)
release_sense sense_waiting sd pd sr sh p a c h = absurd (omega arith)
release_sense sense_ended sd pd sr sh p a c h = absurd (omega arith)

pub finish_sense :
    (pc : SensePc) (sd pd sr sh : ℕ) (p : ProcessPc) (a : ActPc) (c : ComunicatePc)
    → sense_holds pc ≡ 0
    → pc ≢ sense_ended
    → (sd' sr' : ℕ) × Reached rover_step
        (at 1 sd pd sr sh pc p a c)
        (at 1 sd' pd sr' sh sense_waiting p a c)
unfolding run rover_step sense
finish_sense sense_top sd pd sr sh p a c h ne =
    (suc sd, sh, run-Reached rover_step (times 6 sensing) at_start refl)
finish_sense sense_busy sd pd sr sh p a c h ne =
    (suc sd, sh, run-Reached rover_step (times 5 sensing) at_start refl)
finish_sense sense_locked sd pd sr sh p a c h ne = absurd (omega arith)
finish_sense (sense_read v) sd pd sr sh p a c h ne = absurd (omega arith)
finish_sense sense_written sd pd sr sh p a c h ne = absurd (omega arith)
finish_sense sense_unlocked sd pd sr sh p a c h ne =
    (suc sd, sr, run-Reached rover_step (times 1 sensing) at_start refl)
finish_sense sense_waiting sd pd sr sh p a c h ne =
    (sd, sr, run-Reached rover_step (times 0 sensing) at_start refl)
finish_sense sense_ended sd pd sr sh p a c h ne = absurd (ne refl)

pub again_sense :
    (sd pd sr sh : ℕ) (p : ProcessPc) (a : ActPc) (c : ComunicatePc)
    → Reached rover_step
        (at 1 sd pd sr sh sense_waiting p a c)
        (at 1 (suc sd) pd sh sh sense_waiting p a c)
unfolding run rover_step sense
again_sense sd pd sr sh p a c = run-Reached rover_step (times 7 sensing) at_start refl

pub release_process :
    (pc : ProcessPc) (sd pd sr sh : ℕ) (s : SensePc) (a : ActPc) (c : ComunicatePc)
    → process_holds pc ≡ 1
    → (sr' : ℕ) × Reached rover_step
        (at 0 sd pd sr sh s pc a c)
        (at 1 sd (suc pd) sr' sh s process_waiting a c)
unfolding run rover_step process
release_process process_top sd pd sr sh s a c h = absurd (omega arith)
release_process process_ready sd pd sr sh s a c h = absurd (omega arith)
release_process process_busy sd pd sr sh s a c h = absurd (omega arith)
release_process process_locked sd pd sr sh s a c h =
    ((sr + 1) % 2 ^ 32, run-Reached rover_step (times 4 processing) at_start refl)
release_process (process_read v) sd pd sr sh s a c h =
    ((v + 1) % 2 ^ 32, run-Reached rover_step (times 3 processing) at_start refl)
release_process process_written sd pd sr sh s a c h =
    (sr, run-Reached rover_step (times 2 processing) at_start refl)
release_process process_unlocked sd pd sr sh s a c h = absurd (omega arith)
release_process process_waiting sd pd sr sh s a c h = absurd (omega arith)
release_process process_ended sd pd sr sh s a c h = absurd (omega arith)

-- With two sensings done it needs one at most.
pub finish_process :
    (pc : ProcessPc) (sd pd sr sh : ℕ) (s : SensePc) (a : ActPc) (c : ComunicatePc)
    → process_holds pc ≡ 0
    → pc ≢ process_ended
    → (sd' pd' sr' : ℕ) × Reached rover_step
        (at 1 (suc (suc sd)) pd sr sh s pc a c)
        (at 1 (suc sd') pd' sr' sh s process_waiting a c)
unfolding run rover_step process
finish_process process_top sd pd sr sh s a c h ne =
    (sd, suc pd, (sr + 1) % 2 ^ 32, run-Reached rover_step (times 7 processing) at_start refl)
finish_process process_ready sd pd sr sh s a c h ne =
    (sd, suc pd, (sr + 1) % 2 ^ 32, run-Reached rover_step (times 6 processing) at_start refl)
finish_process process_busy sd pd sr sh s a c h ne =
    (suc sd, suc pd, (sr + 1) % 2 ^ 32, run-Reached rover_step (times 5 processing) at_start refl)
finish_process process_locked sd pd sr sh s a c h ne = absurd (omega arith)
finish_process (process_read v) sd pd sr sh s a c h ne = absurd (omega arith)
finish_process process_written sd pd sr sh s a c h ne = absurd (omega arith)
finish_process process_unlocked sd pd sr sh s a c h ne =
    (suc sd, suc pd, sr, run-Reached rover_step (times 1 processing) at_start refl)
finish_process process_waiting sd pd sr sh s a c h ne =
    (suc sd, pd, sr, run-Reached rover_step (times 0 processing) at_start refl)
finish_process process_ended sd pd sr sh s a c h ne = absurd (ne refl)

pub again_process :
    (sd pd sr sh : ℕ) (s : SensePc) (a : ActPc) (c : ComunicatePc)
    → Reached rover_step
        (at 1 (suc sd) pd sr sh s process_waiting a c)
        (at 1 sd (suc pd) ((sr + 1) % 2 ^ 32) sh s process_waiting a c)
unfolding run rover_step process
again_process sd pd sr sh s a c = run-Reached rover_step (times 8 processing) at_start refl

pub release_act :
    (pc : ActPc) (sd pd sr sh : ℕ) (s : SensePc) (p : ProcessPc) (c : ComunicatePc)
    → act_holds pc ≡ 1
    → (sh' : ℕ) × Reached rover_step
        (at 0 sd pd sr sh s p pc c)
        (at 1 sd pd sr sh' s p act_waiting c)
unfolding run rover_step act
release_act act_top sd pd sr sh s p c h = absurd (omega arith)
release_act act_ready sd pd sr sh s p c h = absurd (omega arith)
release_act act_busy sd pd sr sh s p c h = absurd (omega arith)
release_act act_locked sd pd sr sh s p c h =
    (sr, run-Reached rover_step (times 3 acting) at_start refl)
release_act (act_read v) sd pd sr sh s p c h =
    (v, run-Reached rover_step (times 2 acting) at_start refl)
release_act (act_unlocked v) sd pd sr sh s p c h = absurd (omega arith)
release_act act_waiting sd pd sr sh s p c h = absurd (omega arith)
release_act act_ended sd pd sr sh s p c h = absurd (omega arith)

pub finish_act :
    (pc : ActPc) (sd pd sr sh : ℕ) (s : SensePc) (p : ProcessPc) (c : ComunicatePc)
    → act_holds pc ≡ 0
    → pc ≢ act_ended
    → (pd' sh' : ℕ) × Reached rover_step
        (at 1 sd (suc pd) sr sh s p pc c)
        (at 1 sd pd' sr sh' s p act_waiting c)
unfolding run rover_step act
finish_act act_top sd pd sr sh s p c h ne =
    (pd, sr, run-Reached rover_step (times 6 acting) at_start refl)
finish_act act_ready sd pd sr sh s p c h ne =
    (pd, sr, run-Reached rover_step (times 5 acting) at_start refl)
finish_act act_busy sd pd sr sh s p c h ne =
    (suc pd, sr, run-Reached rover_step (times 4 acting) at_start refl)
finish_act act_locked sd pd sr sh s p c h ne = absurd (omega arith)
finish_act (act_read v) sd pd sr sh s p c h ne = absurd (omega arith)
finish_act (act_unlocked v) sd pd sr sh s p c h ne =
    (suc pd, v, run-Reached rover_step (times 1 acting) at_start refl)
finish_act act_waiting sd pd sr sh s p c h ne =
    (suc pd, sh, run-Reached rover_step (times 0 acting) at_start refl)
finish_act act_ended sd pd sr sh s p c h ne = absurd (ne refl)

pub release_comunicate :
    (pc : ComunicatePc) (sd pd sr sh : ℕ) (s : SensePc) (p : ProcessPc) (a : ActPc)
    → comunicate_holds pc ≡ 1
    → Reached rover_step (at 0 sd pd sr sh s p a pc) (at 1 sd pd sr sh s p a comunicate_waiting)
unfolding run rover_step comunicate
release_comunicate comunicate_top sd pd sr sh s p a h = absurd (omega arith)
release_comunicate comunicate_ready sd pd sr sh s p a h = absurd (omega arith)
release_comunicate comunicate_locked sd pd sr sh s p a h =
    run-Reached rover_step (times 3 comunicating) at_start refl
release_comunicate (comunicate_read v) sd pd sr sh s p a h =
    run-Reached rover_step (times 2 comunicating) at_start refl
release_comunicate (comunicate_unlocked v) sd pd sr sh s p a h = absurd (omega arith)
release_comunicate comunicate_waiting sd pd sr sh s p a h = absurd (omega arith)
release_comunicate comunicate_ended sd pd sr sh s p a h = absurd (omega arith)

pub finish_comunicate :
    (pc : ComunicatePc) (sd pd sr sh : ℕ) (s : SensePc) (p : ProcessPc) (a : ActPc)
    → comunicate_holds pc ≡ 0
    → pc ≢ comunicate_ended
    → Reached rover_step (at 1 sd pd sr sh s p a pc) (at 1 sd pd sr sh s p a comunicate_waiting)
unfolding run rover_step comunicate
finish_comunicate comunicate_top sd pd sr sh s p a h ne =
    run-Reached rover_step (times 5 comunicating) at_start refl
finish_comunicate comunicate_ready sd pd sr sh s p a h ne =
    run-Reached rover_step (times 4 comunicating) at_start refl
finish_comunicate comunicate_locked sd pd sr sh s p a h ne = absurd (omega arith)
finish_comunicate (comunicate_read v) sd pd sr sh s p a h ne = absurd (omega arith)
finish_comunicate (comunicate_unlocked v) sd pd sr sh s p a h ne =
    run-Reached rover_step (times 1 comunicating) at_start refl
finish_comunicate comunicate_waiting sd pd sr sh s p a h ne =
    run-Reached rover_step (times 0 comunicating) at_start refl
finish_comunicate comunicate_ended sd pd sr sh s p a h ne = absurd (ne refl)
