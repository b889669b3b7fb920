-- ===== src/Dtask/Entry.antt =====
-- The lookup that most operations of edfomai-drv-data.c start with.
use edfomai.Base.{
  ◌≡◌, ◌≢◌, refl, none, some, List, ◌∷◌, ℤ, negsuc, Ptr, null, Items, lookup, has_self,
  release_self,
}
use edfomai.Platform.{Platform, TaskInfo, RtTask, filled}
use edfomai.World.{World, Cmd, RtDeadlineTask, free}
use edfomai.World.Laws.{update-none, malloc_used-some, free_lem, inquire_filled}
use edfomai.Dtask.{task_name_block, on_entry}
use edfomai.Dtask.Valid.{IsValid}

module _ {P : Platform} where
  open P use {
    rname, stale_info, rt_task_inquire, inquire_name, rtdm_malloc, malloc_fresh, find_lookup,
  }
  open P use {hash_find_str}

  -- The kernel knows the task, and has memory for one block.
  pub record Answers (task : RtTask) (w : World P) : Type 0 where
    pub info : TaskInfo
    pub filled_in : rt_task_inquire task w.kernel ≡ filled info
    pub room : rtdm_malloc w.live w.kernel ≢ null

  abbrev pub block_of : World P → Ptr
  block_of w = rtdm_malloc w.live w.kernel

  -- The state in which the operation works on the entry.
  abbrev pub with_block : World P → World P
  with_block w = record w { live = block_of w ∷ w.live }

  pub task_name_block_lem :
      {task : RtTask} {w : World P} (a : Answers task w)
      → task_name_block task w ≡ some ((block_of w, a.info), with_block w)
  unfolding task_name_block
  task_name_block_lem {task} {w} a = rw (
    malloc_used-some w a.room,
    inquire_filled task (stale_info (block_of w)) a.info (with_block w) a.filled_in,
  )

  pub block-clean :
      {w : World P} {xs : Items} {ds : List RtDeadlineTask} (v : IsValid w xs ds)
      → w.dtasks (block_of w) ≡ none
  block-clean {w} v = v.clean (block_of w) (malloc_fresh w.live w.kernel)

  -- The block is freed again, whatever the work did to the rest.
  free_block :
      (w w' : World P)
      → block_of w ≢ null
      → (live : List Ptr) → w'.live ≡ block_of w ∷ live
      → w'.dtasks (block_of w) ≡ none
      → free (block_of w) w' ≡ some (tt, record w' { live = live })
  free_block w w' room live e unused = rw (
    free_lem (block_of w) w' room (rw e (has_self (block_of w) live)),
    e,
    release_self (block_of w) live,
    update-none w'.dtasks (block_of w) unused,
  )

  module _ {w : World P} {xs : Items} {ds : List RtDeadlineTask} {task : RtTask} where
    pub find_lem :
        (v : IsValid w xs ds) (a : Answers task w)
        → hash_find_str a.info.name w.dtask_map ≡ lookup (rname task) xs
    find_lem v a =
        let listed = v.table.listed in
        rw (
          inquire_name task w.kernel a.info a.filled_in,
          find_lookup (rname task) w.dtask_map (rw listed v.keys),
          listed,
        )

    -- Without an entry of the task's name the operation fails, and leaves everything as it was.
    pub on_entry-none :
        (work : Ptr → Cmd P ℤ)
        → IsValid w xs ds
        → Answers task w
        → lookup (rname task) xs ≡ none
        → on_entry task work w ≡ some (negsuc 0, w)
    unfolding on_entry
    on_entry-none work v a e = rw (
      task_name_block_lem a,
      find_lem v a,
      e,
      free_block w (with_block w) a.room w.live refl (block-clean v),
    )

    -- With one it does the work there.
    pub on_entry-some :
        (work : Ptr → Cmd P ℤ) (p : Ptr) (r : ℤ) (w' : World P) (live : List Ptr)
        → IsValid w xs ds
        → Answers task w
        → lookup (rname task) xs ≡ some p
        → work p (with_block w) ≡ some (r, w')
        → w'.live ≡ block_of w ∷ live
        → w'.dtasks (block_of w) ≡ none
        → on_entry task work w ≡ some (r, record w' { live = live })
    unfolding on_entry
    on_entry-some work p r w' live v a e done left unused =
        rw (task_name_block_lem a, find_lem v a, e, done, free_block w w' a.room live left unused)
