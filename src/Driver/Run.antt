-- ===== src/Driver/Run.antt =====
-- Runs of the driver of edfomai-drv.c: requests, hooks and turns of the service, one after the other.
use edfomai.Base.{
  ℕ, ◌≡◌, ◌⊎◌, refl, Bool, true, false, if◌then◌else◌, some, List, [], ◌∷◌, ℤ, pos, negsuc, Ptr,
  Items, pure, ◌>>=◌, ◌>>◌, for_each,
}
use edfomai.Platform.{Platform}
use edfomai.World.{World, RtDeadlineTask, Cmd}
use edfomai.Dtask.Valid.{IsValid}
use edfomai.Driver.Load.{edf_rtdm_init, edf_rtdm_exit}
use edfomai.Driver.{
  failed, mtx_acquire, mtx_release, edf_rtdm_write_nrt, edf_service_turn, edf_startswitch_hook,
  edf_delete_hook,
}
use edfomai.Driver.Served.{Steady, kernel-IsValid, recalculateprio-Served}
use edfomai.Driver.Served.Blocks.{delete-Served}
use edfomai.Driver.Dispatch.{unlocked}
use edfomai.Driver.Write.{write-Served}

-- What happens to the driver: a write, the event that wakes the service, and the kernel's hooks.
pub data Event : Type 0 where
  written : Ptr → ℕ → Event
  woken : Event
  switched : Ptr → Event
  deleted : Ptr → Event

-- The kernel does not load a module whose start returns an error, and does not run its end then.
abbrev pub is_error : ℤ → Bool
is_error (pos n) = false
is_error (negsuc n) = true

module _ {P : Platform} where
  open P use {rtdm_event_clear, rtdm_event_signal, t_desc, items_empty}

  unfoldable pub step : Event → Cmd P (Unit {0})
  step (written buf nbyte) = do _ ← edf_rtdm_write_nrt buf nbyte; pure tt
  step woken = edf_service_turn
  step (switched cookie) = edf_startswitch_hook cookie
  step (deleted cookie) = edf_delete_hook cookie

  -- The world is one of a valid table.
  abbrev pub Sound : World P → Type 0
  Sound w = (xs : Items) × (ds : List RtDeadlineTask) × IsValid w xs ds

  step-Sound :
      (e : Event) (w : World P)
      → Steady P
      → Sound w
      → (w' : World P) × (step e w ≡ some (tt, w')) × Sound w'
  unfolding step edf_service_turn edf_startswitch_hook edf_delete_hook mtx_acquire mtx_release
  step-Sound (written buf nbyte) w st (xs, ds, v) =
      let (s, r) = write-Served v st buf nbyte in
      let runs = s.runs in (s.after, rw runs, (s.items_after, s.entries_after, s.valid))
  step-Sound woken w st (xs, ds, v) =
      let s = recalculateprio-Served (kernel-IsValid (P.rtdm_lock_get w.kernel) v) st in
      let runs = s.runs in
      (
        record (unlocked s.after) { kernel = rtdm_event_clear (P.rtdm_lock_put s.after.kernel) },
        rw runs,
        (s.items_after, s.entries_after, kernel-IsValid _ s.valid),
      )
  step-Sound (switched cookie) w st (xs, ds, v) =
      (record w { kernel = rtdm_event_signal w.kernel }, refl, (xs, ds, kernel-IsValid _ v))
  step-Sound (deleted cookie) w st (xs, ds, v) =
      let s = delete-Served v st (t_desc cookie) in
      let runs = s.runs in
      (
        record s.after { kernel = rtdm_event_signal s.after.kernel },
        rw runs,
        (s.items_after, s.entries_after, kernel-IsValid _ s.valid),
      )

  -- From a valid table, with a kernel that knows its tasks, all with short names, and has memory, no
  -- sequence of requests, hooks and turns of the service leads to a fault, and each ends with a valid
  -- table.
  pub run-Sound :
      (es : List Event) (w : World P)
      → Steady P
      → Sound w
      → (w' : World P) × (for_each es step w ≡ some (tt, w')) × Sound w'
  unfolding for_each
  run-Sound [] w st s = (w, refl, s)
  run-Sound (e ∷ es) w st s =
      let (w1, first, s1) = step-Sound e w st s in
      let (w2, rest, s2) = run-Sound es w1 st s1 in (w2, rw first rest, s2)

  -- The module from its start to its end, with the events between; the result is that of the start.
  abbrev pub life : List Event → Cmd P ℤ
  life es = do
    ret ← edf_rtdm_init
    if is_error ret then pure ret else do for_each es step; edf_rtdm_exit; pure ret

  -- A device is registered with status 0, or refused with an error, as RTDM documents.
  abbrev pub Registers : World P → Type 0
  Registers w =
      (failed (P.rtdm_dev_register w.kernel).0 ≡ false)
      ⊎ (is_error (P.rtdm_dev_register w.kernel).0 ≡ true)
