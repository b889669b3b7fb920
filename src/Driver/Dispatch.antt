-- ===== src/Driver/Dispatch.antt =====
-- The switch over the commands in the write handler of edfomai-drv.c, on a valid table.
use edfomai.Base.{
  ◌≡◌, refl, sym, ◌∙◌, true, false, none, some, List, arith, ◌==◌, ℤ, Ptr, Items, has, release,
  Bool-cases, inl, inr, pointers,
}
use edfomai.Message.{
  EdfMessage, create_task, start_task, reset_deadline, set_deadline, stop_watchd, going_waitp,
}
use edfomai.Platform.{Platform, RtTask}
use edfomai.World.{World, RtDeadlineTask, Cmd, update}
use edfomai.Recalc.Holds.{Holds-update}
use edfomai.Dtask.Valid.{IsValid, owned}
use edfomai.Dtask.Owned.{has-release, release-Distinct, pointers-owned}
use edfomai.Dtask.{rt_dtask_create}
use edfomai.Driver.{mtx_acquire, mtx_release, locked, dispatch}
use edfomai.Driver.Served.{
  Steady, Served, kernel-IsValid, goingwaitp-Served, stopwatchdog-Served, resetdeadline-Served,
}
use edfomai.Driver.Served.Blocks.{setdeadline-Served, create-Served}

module _ {P : Platform} where
  open P use {rtdm_lock_get, rtdm_lock_put, rtdm_copy_from_user, stale_message, malloc_fresh}
  open P use {xnregistry_bind, xnregistry_fetch, t_desc}

  -- A block that no entry owns is freed.
  pub freed-IsValid :
      {w : World P} {xs : Items} {ds : List RtDeadlineTask} (q : Ptr)
      → IsValid w xs ds
      → has q (owned xs ds) ≡ false
      → IsValid (record w { live = release q w.live; dtasks = update w.dtasks q none }) xs ds
  freed-IsValid {w} {xs} {ds} q v out = record {
    table = record {
      listed = v.table.listed;
      apart = v.table.apart;
      stored =
          Holds-update w.dtasks q none (pointers xs) ds
            (ground (arith, pointers-owned w.dtasks q xs ds v.table.stored)) v.table.stored;
    };
    keys = v.keys;
    named = v.named;
    single = v.single;
    not_null = v.not_null;
    in_use = λ p h. has-release q p w.live (ground arith) ∙ v.in_use p h;
    clean = λ p h. elim (Bool-cases (q == p)) [
      | inl e ↦ rw e
      | inr e ↦ rw e (v.clean p (sym (has-release q p w.live e) ∙ h))
    ];
    once = release-Distinct q w.live v.once;
  }

  abbrev pub unlocked : World P → World P
  unlocked w = record w { kernel = rtdm_lock_put w.kernel }

  abbrev pub locked_world : World P → World P
  locked_world w = record w { kernel = rtdm_lock_get w.kernel }

  pub locked_lem :
      (block : Ptr) (op rest : Cmd P ℤ) (w : World P) (r : ℤ) (u : World P)
      → op (locked_world w) ≡ some (r, u)
      → locked block op rest w ≡ rest (unlocked u)
  unfolding locked mtx_acquire mtx_release
  locked_lem block op rest w r u runs = rw runs

  -- What a dispatched request does before what follows it.
  pub record Dispatched (block : Ptr) (m : EdfMessage) (task : RtTask) (w : World P) (xs : Items)
      (ds : List RtDeadlineTask) : Type 0 where
    pub after : World P
    pub items_after : Items
    pub entries_after : List RtDeadlineTask
    pub goes_on : (rest : Cmd P ℤ) → dispatch block m task rest w ≡ rest after
    pub valid : IsValid after items_after entries_after
    pub spares :
        (q : Ptr)
        → has q w.live ≡ true
        → has q (owned xs ds) ≡ false
        → (has q after.live ≡ true) × (has q (owned items_after entries_after) ≡ false)

  module _ {w : World P} {xs : Items} {ds : List RtDeadlineTask} (v : IsValid w xs ds)
      (st : Steady P) (block : Ptr) (m : EdfMessage) (task : RtTask) where
    by_operation :
        (op : Cmd P ℤ)
        → Served op (locked_world w) xs ds
        → ((rest : Cmd P ℤ) → dispatch block m task rest w ≡ locked block op rest w)
        → Dispatched block m task w xs ds
    by_operation op s picks = record {
      after = unlocked s.after;
      items_after = s.items_after;
      entries_after = s.entries_after;
      goes_on = λ rest. picks rest ∙ locked_lem block op rest w s.result s.after s.runs;
      valid = kernel-IsValid (rtdm_lock_put s.after.kernel) s.valid;
      spares = s.spares;
    }

    pub dispatch-Dispatched : Dispatched block m task w xs ds
    unfolding dispatch
    dispatch-Dispatched =
        let u = kernel-IsValid (rtdm_lock_get w.kernel) v in
        elim (Bool-cases (m.command == create_task)) [
          | inl c ↦ by_operation _ (create-Served u st task m.deadline) λ rest. rw c
          | inr c ↦ elim (Bool-cases (m.command == start_task)) [
            | inl c1 ↦ by_operation _ (setdeadline-Served u st task m.deadline) λ rest. rw (c, c1)
            | inr c1 ↦ elim (Bool-cases (m.command == stop_watchd)) [
              | inl c2 ↦ by_operation _ (stopwatchdog-Served u st task) λ rest. rw (c, c1, c2)
              | inr c2 ↦ elim (Bool-cases (m.command == going_waitp)) [
                | inl c3 ↦ by_operation _ (goingwaitp-Served u st task) λ rest. rw (c, c1, c2, c3)
                | inr c3 ↦ elim (Bool-cases (m.command == reset_deadline)) [
                  | inl c4 ↦
                      by_operation _ (resetdeadline-Served u st task) λ rest. rw (c, c1, c2, c3, c4)
                  | inr c4 ↦ elim (Bool-cases (m.command == set_deadline)) [
                    | inl c5 ↦
                        by_operation _ (setdeadline-Served u st task m.deadline)
                          λ rest. rw (c, c1, c2, c3, c4, c5)
                    | inr c5 ↦ record {
                      after = w;
                      items_after = xs;
                      entries_after = ds;
                      goes_on = λ rest. rw (c, c1, c2, c3, c4, c5);
                      valid = v;
                      spares = λ q i o. (i, o);
                    }
                  ]
                ]
              ]
            ]
          ]
        ]

    -- A CREATE_TASK request is the creation under the lock.
    pub dispatch-create :
        (s : Served (rt_dtask_create task m.deadline) (locked_world w) xs ds)
        → m.command ≡ create_task
        → (d : Dispatched block m task w xs ds) × (d.after ≡ unlocked s.after)
          × (d.items_after ≡ s.items_after)
    unfolding dispatch by_operation
    dispatch-create s c =
        let is_create : (m.command == create_task) ≡ true = ground arith in
        (by_operation _ s λ rest. rw is_create, refl, refl)
