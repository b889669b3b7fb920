-- ===== src/Dtask/Waiting.antt =====
-- rt_dtask_goingwaitp and rt_dtask_stopwatchdog of edfomai-drv-data.c.
use edfomai.Base.{ℕ, [], ◌≡◌, some, List, arith, Ptr, Items, lookup}
use edfomai.Message.{going_waitp}
use edfomai.Platform.{Platform, RtTask}
use edfomai.World.{World, RtDeadlineTask, store}
use edfomai.World.Laws.{load_lem}
use edfomai.Recalc.{is_active, is_ready, Bounds}
use edfomai.Recalc.Scan.{refreshed}
use edfomai.Recalc.Assign.{marked, calls_of}
use edfomai.Dtask.{rt_dtask_goingwaitp, rt_dtask_stopwatchdog}
use edfomai.Dtask.Valid.{IsValid}
use edfomai.Dtask.Entry.{Answers, with_block, block-clean}
use edfomai.Dtask.Change.{change, change_lem, outcome, on_entry-outcome}

-- The entry of a task that waits for its period.
abbrev pub waiting : RtDeadlineTask → RtDeadlineTask
waiting d = record d { state = going_waitp }

module _ {P : Platform} where
  open P use {rname, malloc_fresh}

  pub with_block-IsValid :
      {w : World P} {xs : Items} {ds : List RtDeadlineTask}
      → IsValid w xs ds
      → IsValid (with_block w) xs ds
  with_block-IsValid {w} v = record {
    table = record { listed = v.table.listed; apart = v.table.apart; stored = v.table.stored };
    keys = v.keys;
    named = v.named;
    single = v.single;
    not_null = v.not_null;
    in_use = λ p h. ground (arith, v.in_use p h);
    clean = λ p h. v.clean p (ground arith);
    once = (malloc_fresh w.live w.kernel, v.once);
  }

  module _ {w : World P} {xs : Items} {ds : List RtDeadlineTask} {task : RtTask} where
    -- On a valid table, for a task that the kernel knows, goingwaitp stores GOING_WAITP as the state
    -- of the entry with the task's name, changes nothing else and returns 0; without such an entry
    -- it changes nothing and returns -1.
    pub goingwaitp_lem :
        IsValid w xs ds
        → Answers task w
        → rt_dtask_goingwaitp task w
          ≡ some (outcome w (lookup (rname task) xs) λ p. change waiting p w)
    unfolding rt_dtask_goingwaitp store
    goingwaitp_lem v a =
        on_entry-outcome _ (λ p. change waiting p w) v a
          λ p d found at_p of_n. (
            rw (load_lem p d (with_block w) at_p, change_lem waiting p d (with_block w) at_p),
            ground (arith, block-clean v),
          )

  module _ {w : World P} {xs : Items} {ds : List RtDeadlineTask} {task : RtTask} where
    -- On a valid table, for a task that the kernel knows, stopwatchdog leaves and returns what
    -- goingwaitp does, when the kernel also has memory for a second block and knows the task that
    -- the entry names.
    pub stopwatchdog_lem :
        IsValid w xs ds
        → Answers task w
        → ((p : Ptr) (d : RtDeadlineTask)
            → lookup (rname task) xs ≡ some p
            → w.dtasks p ≡ some d
            → Answers d.task (with_block w))
        → rt_dtask_stopwatchdog task w
          ≡ some (outcome w (lookup (rname task) xs) λ p. change waiting p w)
    unfolding rt_dtask_stopwatchdog
    stopwatchdog_lem v a again =
        on_entry-outcome _ (λ p. change waiting p w) v a
          λ p d found at_p of_n. (
            rw (
              load_lem p d (with_block w) at_p,
              goingwaitp_lem (with_block-IsValid v) (again p d found at_p),
              of_n,
              found,
            ),
            ground (arith, block-clean v),
          )

-- While a task waits, a round neither changes its entry nor asks anything for it.
waiting-idle :
    (P : Platform) (d : RtDeadlineTask) (now : ℕ) (s : P.State) (b : Bounds)
    → (marked (refreshed P now s (waiting d)) ≡ waiting d)
      × (calls_of P b (refreshed P now s (waiting d)) ≡ [])
unfolding is_active is_ready
waiting-idle P d now s b = (ground arith, ground arith)
