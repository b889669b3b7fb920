-- ===== src/World/Laws.antt =====
-- The accesses to the blocks of World, one equation for each.
use mathlib.Core.Path.{fun_ext}
use edfomai.Base.{◌≡◌, ◌≢◌, true, false, none, some, ◌∷◌, arith, ◌==◌, Ptr, null, has, release}
use edfomai.Platform.{Platform, TaskInfo, RtTask, filled}
use edfomai.World.{World, RtDeadlineTask, Blocks, update, load, malloc, malloc_used, free, inquire}

pub update-none : (f : Blocks) (p : Ptr) → f p ≡ none → update f p none ≡ f
update-none f p e = fun_ext λ q. ground arith

module _ {P : Platform} where
  open P use {rtdm_malloc, rt_task_inquire}

  pub load_lem :
      (p : Ptr) (d : RtDeadlineTask) (w : World P) → w.dtasks p ≡ some d → load p w ≡ some (d, w)
  unfolding load
  load_lem p d w e = rw (e, load)

  malloc-some :
      (w : World P)
      → rtdm_malloc w.live w.kernel ≢ null
      → malloc w
        ≡ some
            (rtdm_malloc w.live w.kernel, record w { live = rtdm_malloc w.live w.kernel ∷ w.live })
  unfolding malloc
  malloc-some w room =
      let got : (rtdm_malloc w.live w.kernel == null) ≡ false = ground arith in rw got

  pub malloc_used-some :
      (w : World P)
      → rtdm_malloc w.live w.kernel ≢ null
      → malloc_used w
        ≡ some
            (rtdm_malloc w.live w.kernel, record w { live = rtdm_malloc w.live w.kernel ∷ w.live })
  unfolding malloc_used
  malloc_used-some w room =
      let got : (rtdm_malloc w.live w.kernel == null) ≡ false = ground arith in
      rw (malloc-some w room, got)

  pub free_lem :
      (p : Ptr) (w : World P)
      → p ≢ null
      → has p w.live ≡ true
      → free p w ≡ some (tt, record w { live = release p w.live; dtasks = update w.dtasks p none })
  unfolding free
  free_lem p w ne held =
      let some_block : (p == null) ≡ false = ground arith in rw (some_block, held)

  pub inquire_filled :
      (t : RtTask) (stale i : TaskInfo) (w : World P)
      → rt_task_inquire t w.kernel ≡ filled i
      → inquire t stale w ≡ some (i, w)
  unfolding inquire
  inquire_filled t stale i w e = ground arith
