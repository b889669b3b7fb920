-- ===== src/Launch/Wait.antt =====
-- What edf_task_wait_period of edfomai-app.c sends for a task of a known name.
use edfomai.Base.{ℕ, zero, suc, ◌≡◌, ◌≢◌, ◌∙◌, some, List, ◌∷◌, take, ℤ, pos, Name, Ptr, null}
use edfomai.Message.{EdfMessage, tname_len, stop_watchd, reset_deadline, deadline_not_set}
use edfomai.Platform.{TaskInfo, filled}
use edfomai.App.{Skin, App, edf_task_wait_period}
use edfomai.App.Task.{task_wait_period_lem, waited}
use edfomai.Launch.{Native, Watch}

abbrev pub bare : ℕ → Name → EdfMessage
bare command name = record {
  command = command;
  task = take tname_len name;
  deadline = deadline_not_set;
}

-- What a task of the given name adds to a log in n periods, the newest message first.
abbrev pub rounds : Name → ℕ → List EdfMessage → List EdfMessage
rounds name zero old = old
rounds name (suc n) old = rounds name n (bare reset_deadline name ∷ bare stop_watchd name ∷ old)

-- The calling task has this name, at all times.
abbrev pub IsCaller : Skin → Name → Type 0
IsCaller S name =
    ((s : S.State) → S.rt_task_self s ≢ null)
    × ((s : S.State)
        → (i : TaskInfo) × (S.rt_task_inquire (S.rt_task_self s) s ≡ filled i) × (i.name ≡ name))

module _ {S : Skin} {N : Native S} (W : Watch S N) where
  open W use {sent}

  -- With an open device, a wait sends STOP_WATCHD and then RESET_DEADLINE, and leaves the descriptor
  -- and the heap.
  pub wait-sent :
      (name : Name) (overruns : Ptr) (fd : ℕ) (a : App S)
      → IsCaller S name
      → a.device ≡ pos fd
      → (r : ℤ) × (s : S.State) × (edf_task_wait_period overruns a
          ≡ some (r, record a { os = s; device = pos fd }))
        × (sent s ≡ rounds name 1 (sent a.os))
  wait-sent name overruns fd a (in_task, named) open_at =
      let (i, known, same) = named a.os in
      let s1 = (Skin.rt_dev_write S (pos fd) (bare stop_watchd i.name) a.os).1 in
      let s2 = (Skin.rt_task_wait_period S overruns s1).1 in
      let s3 = (Skin.rt_dev_write S (pos fd) (bare reset_deadline i.name) s2).1 in
      (
        (waited overruns a (filled i)).0,
        s3,
        task_wait_period_lem overruns a (W.room a.live a.os) (in_task a.os) ∙ rw (known, open_at),
        W.sent_write (pos fd) (bare reset_deadline i.name) s2
            ∙ rw (
              W.sent_wait overruns s1,
              W.sent_write (pos fd) (bare stop_watchd i.name) a.os,
              same,
            ),
      )
