-- ===== src/Driver/Pause.antt =====
-- A STOP_WATCHD request to the write handler of edfomai-drv.c: the task waits for its period.
use edfomai.Base.{
  ℕ, ◌≡◌, ◌≢◌, refl, false, none, some, List, arith, pos, Ptr, null, Items, has, has_self, lookup,
  release, pointers,
}
use edfomai.Message.{stop_watchd}
use edfomai.Platform.{Platform, RtTask}
use edfomai.World.{World, RtDeadlineTask, update}
use edfomai.Dtask.Valid.{IsValid, owned}
use edfomai.Dtask.Keep.{Same-owned}
use edfomai.Dtask.Entry.{block_of, with_block}
use edfomai.Dtask.Change.{change, changed, changed-Same, change-IsValid}
use edfomai.Dtask.Waiting.{waiting, with_block-IsValid, stopwatchdog_lem}
use edfomai.Driver.{dispatch, edf_rtdm_write_nrt}
use edfomai.Driver.Served.{Steady, answers, kernel-IsValid}
use edfomai.Driver.Dispatch.{freed-IsValid, locked_lem, locked_world, unlocked}
use edfomai.Driver.Write.{request, task_named, write_lem}

module _ {P : Platform} (st : Steady P) where
  -- The request returns its size, and the entry with the task's name waits; the rest of the table stays.
  pub write-Waiting :
      {w : World P} {xs : Items} {ds : List RtDeadlineTask}
      → IsValid w xs ds
      → (buf : Ptr) (nbyte : ℕ) (t : RtTask) (p : Ptr) → (request w buf).command ≡ stop_watchd
      → task_named (request w buf).task w ≡ t
      → t ≢ null
      → lookup (P.rname t) xs ≡ some p
      → (w' : World P) × (edf_rtdm_write_nrt buf nbyte w ≡ some (pos nbyte, w'))
        × IsValid w' xs (changed waiting p (pointers xs) ds)
  unfolding dispatch
  write-Waiting {w} {xs} {ds} v buf nbyte t p command named known found =
      let block = block_of w in
      let in_lock = kernel-IsValid (P.rtdm_lock_get w.kernel) (with_block-IsValid v) in
      let w' = locked_world (with_block w) in
      let u : World P = change waiting p w' in
      let lem =
        stopwatchdog_lem in_lock (answers st t w')
          (λ q d f at_q. answers st d.task (with_block w')) in
      let same =
        changed-Same waiting p w.dtasks (pointers xs) ds (λ d. (refl, refl, refl)) v.table.stored in
      let unowned : has block (owned xs ds) ≡ false =
        ground (arith, v.in_use block, P.malloc_fresh w.live w.kernel) in
      (
        record (unlocked u) { live = release block u.live; dtasks = update u.dtasks block none },
        write_lem st buf nbyte t w (unlocked u) named known
            (λ rest.
              rw (dispatch, command)
                (locked_lem block _ rest (with_block w) (pos 0) u (rw found at lem)))
            (has_self block w.live),
        freed-IsValid block
            (kernel-IsValid (P.rtdm_lock_put u.kernel)
              (change-IsValid waiting p (λ d. (refl, refl, refl)) in_lock))
            (rw (Same-owned xs ds (changed waiting p (pointers xs) ds) same) unowned),
      )
