-- ===== src/World.antt =====
-- The state of the module: the static `dtask_map` of edfomai-drv-data.c, the RT_DEADLINE_TASK blocks
-- of edfomai-drv-data.h, the blocks in use, and the kernel.
pub mod Laws
use edfomai.Base.{
  ℕ, ◌≡◌, Bool, true, false, Option, none, some, List, [], ◌∷◌, M, pure, fault, ◌>>=◌, ◌>>◌, ◌==◌,
  if◌then◌else◌, Ptr, null, has, release,
}
use edfomai.Platform.{Platform, TaskInfo, filled, refused, RtTask}

-- The values of TaskState and DeadlineState. The code also stores another int in `state`.
abbrev pub running : ℕ
running = 0

abbrev pub waiting_period : ℕ
waiting_period = 1

abbrev pub ok : ℕ
ok = 0

abbrev pub missed : ℕ
missed = 1

pub record RtDeadlineTask : Type 0 where
  pub deadline : ℕ
  pub remain : ℕ
  pub relative_deadline : ℕ
  pub status : ℕ
  pub state : ℕ
  pub task : RtTask
  pub watchd : Ptr
  pub task_info : TaskInfo

abbrev pub Blocks : Type 0
Blocks = Ptr → Option RtDeadlineTask

abbrev pub update : Blocks → Ptr → Option RtDeadlineTask → Blocks
update f p v q = if p == q then v else f q

module _ (P : Platform) where
  open P use {State, Table}

  pub record World : Type 0 where
    pub kernel : State
    pub dtask_map : Table
    pub dtasks : Blocks
    pub live : List Ptr

abbrev pub Cmd : Platform → Type 0 → Type 0
Cmd P A = M (World P) A

module _ {P : Platform} where
  open P use {State, rtdm_malloc, rt_task_inquire, rt_timer_read}

  -- A call of the kernel that changes only its own state.
  abbrev pub call : (State → State) → Cmd P (Unit {0})
  call f w = some (tt, record w { kernel = f w.kernel })

  abbrev pub read_timer : Cmd P ℕ
  read_timer w = let (now, s) = rt_timer_read w.kernel in some (now, record w { kernel = s })

  -- `rtdm_malloc`, whose result may be NULL.
  unfoldable pub malloc : Cmd P Ptr
  malloc w =
      let p = rtdm_malloc w.live w.kernel in
      if p == null then some (null, w) else some (p, record w { live = p ∷ w.live })

  -- The code writes through a new block before any test: NULL is a fault there.
  unfoldable pub malloc_used : Cmd P Ptr
  malloc_used = do p ← malloc; if p == null then fault else pure p

  -- `rtdm_free`: nothing at NULL, a fault at a block that is not in use.
  unfoldable pub free : Ptr → Cmd P (Unit {0})
  free p w =
      if p == null
      then some (tt, w)
      else if has p w.live
      then some (tt, record w { live = release p w.live; dtasks = update w.dtasks p none })
      else none

  unfoldable pub load : Ptr → Cmd P RtDeadlineTask
  load p w = elim (w.dtasks p) [ none ↦ none | some d ↦ some (d, w) ]

  unfoldable pub store : Ptr → RtDeadlineTask → Cmd P (Unit {0})
  store p d w = some (tt, record w { dtasks = update w.dtasks p (some d) })

  -- `rt_task_inquire(task, &info)`: the block after the call, and the status being 0.
  unfoldable pub inquire : RtTask → TaskInfo → Cmd P TaskInfo
  inquire t info w = elim (rt_task_inquire t w.kernel) [
    | filled i ↦ some (i, w)
    | refused e ↦ some (info, w)
  ]
