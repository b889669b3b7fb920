-- ===== src/Driver/Load.antt =====
-- The start and the end of the module in edfomai-drv.c. The messages to the kernel's log are left out.
use edfomai.Base.{
  ◌≡◌, refl, false, none, some, List, [], ◌∷◌, pure, ◌>>=◌, ◌>>◌, if◌then◌else◌, ℤ, pos, Ptr, Items,
  arith, has, Distinct,
}
use edfomai.Platform.{Platform, t_hook_start, t_hook_switch, t_hook_delete}
use edfomai.World.{World, RtDeadlineTask, Cmd, call}
use edfomai.Dtask.{rt_dtask_init, rt_dtask_dispose}
use edfomai.Dtask.Valid.{IsValid}
use edfomai.Dtask.Dispose.{dispose_lem}
use edfomai.Driver.{failed}
use edfomai.Driver.Served.{kernel-IsValid}

module _ {P : Platform} where
  open P use {
    State, items_empty, rtdm_dev_register, rtdm_dev_unregister, rtdm_lock_init, rt_queue_create,
    rt_queue_delete, rtdm_event_init, rtdm_event_destroy, rtdm_task_init, rtdm_task_destroy,
    rt_task_add_hook, rt_task_remove_hook,
  }

  abbrev pub status_call : (State → ℤ × State) → Cmd P ℤ
  status_call f w = let (res, s) = f w.kernel in some (res, record w { kernel = s })

  unfoldable pub mtx_create : Cmd P ℤ
  mtx_create = do call rtdm_lock_init; pure (pos 0)

  unfoldable pub mtx_delete : Cmd P ℤ
  mtx_delete = pure (pos 0)

  -- Only the first and the last status are returned.
  unfoldable pub edf_rtdm_init : Cmd P ℤ
  edf_rtdm_init = do
    res ← status_call rtdm_dev_register
    if failed res then pure res else do
      _ ← rt_dtask_init
      _ ← mtx_create
      call rt_queue_create
      call rtdm_event_init
      call rtdm_task_init
      _ ← status_call (rt_task_add_hook (t_hook_start ∷ []))
      status_call (rt_task_add_hook (t_hook_delete ∷ []))

  unfoldable pub edf_rtdm_exit : Cmd P (Unit {0})
  edf_rtdm_exit = do
    call (rt_task_remove_hook (t_hook_start ∷ t_hook_switch ∷ []))
    call (rt_task_remove_hook (t_hook_delete ∷ []))
    call rt_queue_delete
    call rtdm_task_destroy
    call rtdm_event_destroy
    _ ← rt_dtask_dispose
    _ ← mtx_delete
    call rtdm_dev_unregister

  -- Before the module is loaded no block that is not in use holds an entry.
  pub record Fresh (w : World P) : Type 0 where
    pub clean : (p : Ptr) → has p w.live ≡ false → w.dtasks p ≡ none
    pub once : Distinct w.live

  -- A module whose device can be registered starts with a valid, empty table.
  pub init-IsValid :
      (w : World P)
      → Fresh w
      → failed (rtdm_dev_register w.kernel).0 ≡ false
      → (r : ℤ) × (w' : World P) × (edf_rtdm_init w ≡ some (r, w')) × IsValid w' [] []
  unfolding edf_rtdm_init rt_dtask_init mtx_create
  init-IsValid w f registered =
      let s = (rtdm_dev_register w.kernel).1 in
      let s' = rtdm_task_init (rtdm_event_init (rt_queue_create (rtdm_lock_init s))) in
      let s'' = (rt_task_add_hook (t_hook_start ∷ []) s').1 in
      let last = rt_task_add_hook (t_hook_delete ∷ []) s'' in
      (
        last.0,
        record w { kernel = last.1; dtask_map = P.empty },
        rw registered,
        record {
          table = record { listed = items_empty; apart = tt; stored = tt };
          keys = tt;
          named = tt;
          single = tt;
          not_null = refl;
          in_use = λ p h. ground arith;
          clean = f.clean;
          once = f.once;
        },
      )

  -- The end of a module with a valid table empties it.
  pub exit-IsValid :
      (w : World P) (xs : Items) (ds : List RtDeadlineTask)
      → IsValid w xs ds
      → (w' : World P) × (edf_rtdm_exit w ≡ some (tt, w')) × IsValid w' [] []
  unfolding edf_rtdm_exit mtx_delete
  exit-IsValid w xs ds v =
      let s = rt_task_remove_hook (t_hook_start ∷ t_hook_switch ∷ []) w.kernel in
      let s' = rt_queue_delete (rt_task_remove_hook (t_hook_delete ∷ []) s) in
      let s'' = rtdm_event_destroy (rtdm_task_destroy s') in
      let (e, done) = dispose_lem (record w { kernel = s'' }) xs ds (kernel-IsValid s'' v) in
      (
        record e.left { kernel = rtdm_dev_unregister e.left.kernel },
        rw done,
        kernel-IsValid (rtdm_dev_unregister e.left.kernel) e.valid,
      )
