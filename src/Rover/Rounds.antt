-- ===== src/Rover/Rounds.antt =====
-- The tasks of exercise-edfomai/mars_rover.c do not wait for each other for good: from every reached
-- state all four can get to the ends of their periods, one after the other.
use edfomai.Base.{
  ℕ, zero, suc, ◌+◌, ◌%◌, ◌^◌, ◌≡◌, ◌≢◌, refl, sym, subst, false, arith, ◌⊎◌, inl, inr, ◌==◌,
  Bool-cases,
}
use edfomai.Rover.{
  sense_waiting, sense_ended, SensePc, process_waiting, process_ended, ProcessPc, act_waiting,
  act_ended, ActPc, comunicate_waiting, comunicate_ended, ComunicatePc, Rover, rover_step,
  started_up,
}
use edfomai.Tasks.{Reached, Reached-trans}
use edfomai.Rover.Holders.{sense_holds, process_holds, act_holds, comunicate_holds}
use edfomai.Rover.Exclusion.{Reached-holders}
use edfomai.Rover.Stretches.{
  at, release_sense, finish_sense, again_sense, release_process, finish_process, again_process,
  release_act, finish_act, release_comunicate, finish_comunicate,
}

-- The four tasks are at the ends of their periods.
abbrev pub AllWait : Rover → Type 0
AllWait r =
    (r.sensor ≡ sense_waiting)
    × (r.processor ≡ process_waiting)
    × (r.actuator ≡ act_waiting)
    × (r.comunicator ≡ comunicate_waiting)

-- No signal has come, and no task has left its loop.
pub record Runs (r : Rover) : Type 0 where
  pub unstopped : r.stopped ≡ false
  pub senses : r.sensor ≢ sense_ended
  pub processes : r.processor ≢ process_ended
  pub acts : r.actuator ≢ act_ended
  pub comunicates : r.comunicator ≢ comunicate_ended

-- With the lock free.
all_finish :
    (sd pd sr sh : ℕ) (s : SensePc) (p : ProcessPc) (a : ActPc) (c : ComunicatePc)
    → (sense_holds s ≡ 0) × (process_holds p ≡ 0) × (act_holds a ≡ 0) × (comunicate_holds c ≡ 0)
    → Runs (at 1 sd pd sr sh s p a c)
    → (t : Rover) × Reached rover_step (at 1 sd pd sr sh s p a c) t × AllWait t
all_finish sd pd sr sh s p a c (hs, hp, ha, hc) v =
    let (sd1, sr1, r1) = finish_sense s sd pd sr sh p a c hs v.senses in
    let r2 = again_sense sd1 pd sr1 sh p a c in
    let r3 = again_sense (suc sd1) pd sh sh p a c in
    let (sd2, pd1, sr2, r4) = finish_process p sd1 pd sh sh sense_waiting a c hp v.processes in
    let r5 = again_process sd2 pd1 sr2 sh sense_waiting a c in
    let sr3 = (sr2 + 1) % 2 ^ 32 in
    let (pd2, sh1, r6) = finish_act a sd2 pd1 sr3 sh sense_waiting process_waiting c ha v.acts in
    let r7 =
      finish_comunicate c sd2 pd2 sr3 sh1 sense_waiting process_waiting act_waiting hc
        v.comunicates in
    (
      at 1 sd2 pd2 sr3 sh1 sense_waiting process_waiting act_waiting comunicate_waiting,
      Reached-trans rover_step r1 (
          Reached-trans rover_step r2 (
            Reached-trans rover_step r3 (
              Reached-trans rover_step r4
                (Reached-trans rover_step r5 (Reached-trans rover_step r6 r7))))),
      (refl, refl, refl, refl),
    )

one_of : (a b c d : ℕ) → a + b + c + d ≡ 1 → (a ≡ 1) ⊎ ((b ≡ 1) ⊎ ((c ≡ 1) ⊎ (d ≡ 1)))
one_of a b c d h = elim (Bool-cases (a == 1)) [
  | inl e ↦ inl (ground arith)
  | inr e ↦ elim (Bool-cases (b == 1)) [
    | inl f ↦ inr (inl (ground arith))
    | inr f ↦ elim (Bool-cases (c == 1)) [
      | inl g ↦ inr (inr (inl (ground arith)))
      | inr g ↦ inr (inr (inr (ground arith)))
    ]
  ]
]

-- A reached state from which the lock's holder has first gone on.
onwards :
    {r s : Rover}
    → Reached rover_step r s
    → (t : Rover) × Reached rover_step s t × AllWait t
    → (t : Rover) × Reached rover_step r t × AllWait t
onwards first (t, rest, all) = (t, Reached-trans rover_step first rest, all)

from_at :
    (l sd pd sr sh : ℕ) (s : SensePc) (p : ProcessPc) (a : ActPc) (c : ComunicatePc)
    → sense_holds s + process_holds p + act_holds a + comunicate_holds c + l ≡ 1
    → Runs (at l sd pd sr sh s p a c)
    → (t : Rover) × Reached rover_step (at l sd pd sr sh s p a c) t × AllWait t
from_at (suc l) sd pd sr sh s p a c one v =
    let last : l ≡ 0 = omega arith in
    rw last (
      all_finish sd pd sr sh s p a c (omega arith, omega arith, omega arith, omega arith)
        (record {
          unstopped = refl;
          senses = v.senses;
          processes = v.processes;
          acts = v.acts;
          comunicates = v.comunicates;
        }))
from_at zero sd pd sr sh s p a c one v =
    elim (one_of (sense_holds s) (process_holds p) (act_holds a) (comunicate_holds c)
      (omega arith)) [
        | inl h ↦
            let (sr', first) = release_sense s sd pd sr sh p a c h in
            onwards first (
              all_finish (suc sd) pd sr' sh sense_waiting p a c
                (refl, omega arith, omega arith, omega arith)
                (record {
                  unstopped = refl;
                  senses = λ z. cc;
                  processes = v.processes;
                  acts = v.acts;
                  comunicates = v.comunicates;
                }))
        | inr (inl h) ↦
            let (sr', first) = release_process p sd pd sr sh s a c h in
            onwards first (
              all_finish sd (suc pd) sr' sh s process_waiting a c
                (omega arith, refl, omega arith, omega arith)
                (record {
                  unstopped = refl;
                  senses = v.senses;
                  processes = λ z. cc;
                  acts = v.acts;
                  comunicates = v.comunicates;
                }))
        | inr (inr (inl h)) ↦
            let (sh', first) = release_act a sd pd sr sh s p c h in
            onwards first (
              all_finish sd pd sr sh' s p act_waiting c
                (omega arith, omega arith, refl, omega arith)
                (record {
                  unstopped = refl;
                  senses = v.senses;
                  processes = v.processes;
                  acts = λ z. cc;
                  comunicates = v.comunicates;
                }))
        | inr (inr (inr h)) ↦ onwards (release_comunicate c sd pd sr sh s p a h) (
            all_finish sd pd sr sh s p a comunicate_waiting
              (omega arith, omega arith, omega arith, refl)
              (record {
                unstopped = refl;
                senses = v.senses;
                processes = v.processes;
                acts = v.acts;
                comunicates = λ z. cc;
              }))
      ]

-- From every reached state in which `stopped` is not set and no task has left its loop, some further
-- steps of the tasks lead to a state in which all four have come to the ends of their periods.
pub Reached-AllWait :
    (r : Rover)
    → Reached rover_step started_up r
    → Runs r
    → (t : Rover) × Reached rover_step r t × AllWait t
Reached-AllWait r reached v =
    subst (λ x. (t : Rover) × Reached rover_step x t × AllWait t)
      (sym (λ i. record r { stopped = v.unstopped i }))
      (from_at r.ex_lock r.sensing_done r.processing_done r.shared_resource r.shared r.sensor
        r.processor r.actuator r.comunicator (Reached-holders r reached).0
        (record {
          unstopped = refl;
          senses = v.senses;
          processes = v.processes;
          acts = v.acts;
          comunicates = v.comunicates;
        }))
