-- ===== src/Driver/Register.antt =====
-- A program that creates a task through the device of edfomai-drv.c: its message reaches the table.
use edfomai.Base.{
  ℕ, ◌≡◌, ◌≢◌, ap, ◌∙◌, false, none, some, List, [], ◌∷◌, ◌++◌, arith, ◌==◌, pos, Ptr, null, Items,
  lookup, pointers,
}
use edfomai.Message.{create_task}
use edfomai.Platform.{Platform, RtTask}
use edfomai.World.{World, RtDeadlineTask, Blocks}
use edfomai.World.Laws.{malloc_used-some, free_lem}
use edfomai.Dtask.Valid.{IsValid}
use edfomai.Dtask.Owned.{pointers-owned}
use edfomai.Dtask.Entry.{block_of, with_block}
use edfomai.Dtask.Waiting.{with_block-IsValid}
use edfomai.Driver.{edf_rtdm_write_nrt}
use edfomai.Driver.Served.{Steady, Served, kernel-IsValid}
use edfomai.Driver.Served.Blocks.{create_new-Served, Kept}
use edfomai.Driver.Dispatch.{dispatch-create, locked_world}
use edfomai.Driver.Write.{request, task_named, get_handle_lem, copy_lem, end_with}

module _ {P : Platform} where
  open P use {rname, malloc_fresh}

  -- The task has an entry with the deadline that was asked for, behind the entries that there were,
  -- which still have their tasks and their deadlines.
  pub record Registered (before : Blocks) (w : World P) (old : Items) (new : Items) (t : RtTask)
      (deadline : ℕ) : Type 0 where
    pub block : Ptr
    pub entry : RtDeadlineTask
    pub listed : new ≡ old ++ (rname t, block) ∷ []
    pub stored : w.dtasks block ≡ some entry
    pub of_task : entry.task ≡ t
    pub asked : entry.relative_deadline ≡ deadline
    pub kept : Kept (pointers old) before w.dtasks

  -- On a valid table, with a kernel that knows its tasks, all with short names, and has memory: a
  -- CREATE_TASK request for a task that the registry knows and that has no entry returns the size of
  -- the request, and leaves a valid table with the old entries and, last, one for that task with
  -- the deadline of the request.
  pub write-Registered :
      {w : World P} {xs : Items} {ds : List RtDeadlineTask}
      → IsValid w xs ds
      → Steady P
      → (buf : Ptr) (nbyte : ℕ) (t : RtTask) → (request w buf).command ≡ create_task
      → task_named (request w buf).task w ≡ t
      → t ≢ null
      → lookup (rname t) xs ≡ none
      → (s : Served (edf_rtdm_write_nrt buf nbyte) w xs ds) × (s.result ≡ pos nbyte)
        × Registered w.dtasks s.after xs s.items_after t (request w buf).deadline
  unfolding edf_rtdm_write_nrt
  write-Registered {w} {xs} {ds} v st buf nbyte t command named known missing =
      let block = block_of w in
      let m = request w buf in
      let room = st.room w.live w.kernel in
      let (status, copied, no_fault) = copy_lem w buf in
      let u = with_block-IsValid v in
      let in_lock = kernel-IsValid (P.rtdm_lock_get w.kernel) u in
      let (c, listed, e, stored, of_task, asked, others) =
        create_new-Served in_lock st t m.deadline missing in
      let (d, after, items) = dispatch-create u st block m t c command in
      let place = block_of (locked_world (with_block w)) in
      let fresh = malloc_fresh (block ∷ w.live) (P.rtdm_lock_get w.kernel) in
      let apart : (block == place) ≡ false = ground (arith, fresh) in
      let not_null : (t == null) ≡ false = ground arith in
      let (s, same, kept, blocks) =
        end_with v st (edf_rtdm_write_nrt buf nbyte) (pos nbyte) d.after d.items_after
          d.entries_after d.valid d.spares
          λ held. rw (
            malloc_used-some w room,
            copied,
            no_fault,
            get_handle_lem m.task (with_block w),
            named,
            not_null,
            d.goes_on,
            free_lem block d.after room held,
          ) in
      let stays : (q : Ptr) → (block == q) ≡ false → s.after.dtasks q ≡ c.after.dtasks q =
        λ q other. ap (λ f. f q) blocks ∙ rw other (ap (λ (x : World P). x.dtasks q) after) in
      (
        s,
        same,
        record {
          block = place;
          entry = e;
          listed = kept ∙ items ∙ listed;
          stored = stays place apart ∙ stored;
          of_task = of_task;
          asked = asked;
          kept = λ p d' i at_p.
              let (e', found, same_task, same_deadline) = others p d' i at_p in
              let other : (block == p) ≡ false = ground (
                arith,
                malloc_fresh w.live w.kernel,
                v.in_use p,
                pointers-owned w.dtasks p xs ds v.table.stored,
              ) in
              (e', stays p other ∙ found, same_task, same_deadline);
        },
      )
