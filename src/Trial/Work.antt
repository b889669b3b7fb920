-- ===== src/Trial/Work.antt =====
-- A stretch of work of sporadic_test.c and periodic_test.c, and the whole task of periodic_test.c when
-- no other task comes between its steps.
use edfomai.Base.{
  ℕ, zero, suc, ◌+◌, ◌*◌, ◌≤◌, ◌≡◌, refl, ◌∙◌, false, some, ltb, arith, pos, negsuc, Name, Ptr,
  Bool-cases, inl, inr,
}
use edfomai.Driver.{failed}
use edfomai.App.{Skin, App, edf_init, edf_dispose, mtx_create, mtx_delete, mtx_acquire}
use edfomai.Launch.{Native, Watch}
use edfomai.Launch.Wait.{IsCaller, rounds, wait-sent}
use edfomai.Trial.{work_from}
use edfomai.Trial.Sporadic
use edfomai.Trial.Periodic
use edfomai.Trial.Periodic.{nperiods, wait_session, nwait_session, waste_time}

module _ {S : Skin} {N : Native S} (W : Watch S N) where
  open W use {sent}

  -- With fuel for the time that is left, the work ends, and sends nothing.
  work_from_lem :
      (waste session fuel i : ℕ) (a : App S)
      → waste ≤ i + fuel * session
      → (s : S.State) × (work_from N waste session (suc fuel) i a ≡ some (tt, record a { os = s }))
        × (sent s ≡ sent a.os)
  unfolding work_from
  work_from_lem waste session zero i a enough =
      let over : ltb i waste ≡ false = ground arith in (a.os, rw over, refl)
  work_from_lem waste session (suc fuel) i a enough = elim (Bool-cases (ltb i waste)) [
    | inl more ↦
        let s = N.rt_timer_spin session a.os in
        let (s', e, l) =
          work_from_lem waste session fuel (i + session) (record a { os = s }) (grind arith) in
        (s', rw (more, e), l ∙ W.sent_spin session a.os)
    | inr over ↦ (a.os, rw over, refl)
  ]

  -- The task of sporadic_test.c ends. It has sent nothing, and the descriptor and the heap are as before.
  sporadic_demo-sent :
      (a : App S)
      → (s : S.State) × (Sporadic.demo N a ≡ some (tt, record a { os = s })) × (sent s ≡ sent a.os)
  unfolding Sporadic.demo
  sporadic_demo-sent a =
      work_from_lem Sporadic.waste_time Sporadic.wait_session Sporadic.nwait_session 0 a
        (omega arith)

  periods_lem :
      (name : Name) (overruns : Ptr) (fd n : ℕ) (a : App S)
      → IsCaller S name
      → a.device ≡ pos fd
      → (s : S.State) × (Periodic.periods N overruns n a
          ≡ some (tt, record a { os = s; device = pos fd }))
        × (sent s ≡ rounds name n (sent a.os))
  unfolding Periodic.periods Periodic.work
  periods_lem name overruns fd zero a caller open_at = (a.os, rw (← open_at), refl)
  periods_lem name overruns fd (suc n) a caller open_at =
      let (s0, works, l0) = work_from_lem waste_time wait_session nwait_session 0 a (omega arith) in
      let (r, s1, waits, l1) = wait-sent W name overruns fd (record a { os = s0 }) caller open_at in
      let next : App S = record a { os = s1; device = pos fd } in
      let (s2, e, l2) = periods_lem name overruns fd n next caller refl in
      (s2, rw (works, waits) e, rw (l1, l0) at l2)

  -- In a task of the given name, with memory, and with a device that opens: the task of
  -- periodic_test.c ends, with the heap as before. When no other task comes between its steps, it has
  -- sent STOP_WATCHD and then RESET_DEADLINE for that name ten times, and nothing else, and the last
  -- call that it made is to close the descriptor that rt_dev_open returned to it.
  pub demo-sent :
      (name : Name) (overruns : Ptr) (deadline fd : ℕ) (s : S.State) (a : App S)
      → IsCaller S name
      → Skin.rt_dev_open S (N.rt_task_set_periodic deadline a.os) ≡ (pos fd, s)
      → (s' : S.State) × (b : App S) × (Periodic.demo N overruns deadline a ≡ some (tt, b))
        × (b.os ≡ (Skin.rt_dev_close S (pos fd) s').1)
        × (b.live ≡ a.live)
        × (sent b.os ≡ rounds name 10 (sent a.os))
  unfolding Periodic.demo edf_init edf_dispose mtx_create mtx_delete mtx_acquire
  demo-sent name overruns deadline fd s a caller opens =
      let opened : App S = record a { os = s; device = pos fd } in
      let (s1, e, l) = periods_lem name overruns fd nperiods opened caller refl in
      let closing = Skin.rt_dev_close S (pos fd) s1 in
      let before : sent s ≡ sent a.os =
        (rw opens at (W.sent_open (N.rt_task_set_periodic deadline a.os)))
        ∙ W.sent_periodic deadline a.os in
      let logged : sent closing.1 ≡ rounds name 10 (sent a.os) =
        W.sent_close (pos fd) s1 ∙ rw before at l in
      elim (Bool-cases (failed closing.0)) [
        | inl bad ↦ (
          s1,
          record a { os = closing.1; device = negsuc 0 },
          rw (opens, e, bad),
          refl,
          refl,
          logged,
        )
        | inr good ↦ (
          s1,
          record a { os = closing.1; device = pos fd },
          rw (opens, e, good),
          refl,
          refl,
          logged,
        )
      ]
