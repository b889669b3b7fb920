-- ===== src/Platform.antt =====
-- What the module calls and this repository does not implement: Xenomai's native skin, registry and
-- RTDM services, the kernel's 64-bit division, and the uthash macros. Each is an interface with the
-- documented behaviour that the code relies on.
use edfomai.Base.{
  ℕ, ℤ, ◌^◌, ◌<◌, ◌≡◌, false, List, [], ◌∷◌, ◌++◌, Option, Name, Ptr, Items, lookup, remove, has,
  UniqueKeys, NoNul, length,
}
use edfomai.Prio.{Div64}
use edfomai.Message.{EdfMessage}

-- The two fields of RT_TASK_INFO that the code reads.
pub record TaskInfo : Type 0 where
  pub name : Name
  pub cprio : ℕ

-- What rt_task_inquire does: it fills the block and returns 0, or returns a negative status and
-- leaves the block alone: `refused n` returns -(n + 1).
pub data Inquiry : Type 0 where
  filled : TaskInfo → Inquiry
  refused : ℕ → Inquiry

-- An RT_TASK is its address, and stands for one task during that task's life.
abbrev pub RtTask : Type 0
RtTask = Ptr

-- The events that a hook can be added for.
pub data Hook : Type 0 where
  t_hook_start : Hook
  t_hook_switch : Hook
  t_hook_delete : Hook

pub record Kernel : Type 1 where
  pub State : Type 0
  -- The field `rname` of an RT_TASK, fixed when the task is created.
  pub rname : RtTask → Name
  pub rt_timer_read : State → ℕ × State
  pub rt_task_inquire : RtTask → State → Inquiry
  pub rt_task_set_priority : RtTask → ℕ → State → State
  pub rt_queue_write : List ℕ → State → State
  -- `rtdm_malloc` is given the blocks in use; NULL when memory is exhausted.
  pub rtdm_malloc : List Ptr → State → Ptr
  -- What a new block, or a local array, holds before it is written.
  pub stale_info : Ptr → TaskInfo
  pub stale_message : Ptr → EdfMessage
  pub stale_chars : List ℕ
  -- The user's buffer; `none` stands for the result -EFAULT.
  pub rtdm_copy_from_user : Ptr → State → Option EdfMessage
  -- A status and a handle, and the thread behind a handle, or NULL.
  pub xnregistry_bind : Name → State → ℕ × ℕ
  pub xnregistry_fetch : ℕ → State → Ptr
  pub t_desc : Ptr → RtTask
  pub rtdm_lock_get : State → State
  pub rtdm_lock_put : State → State
  pub rtdm_event_signal : State → State
  pub rtdm_event_clear : State → State
  -- The start and the end of the module. A mask of hooks is a list.
  pub rtdm_dev_register : State → ℤ × State
  pub rtdm_dev_unregister : State → State
  pub rtdm_lock_init : State → State
  pub rt_queue_create : State → State
  pub rt_queue_delete : State → State
  pub rtdm_event_init : State → State
  pub rtdm_event_destroy : State → State
  pub rtdm_task_init : State → State
  pub rtdm_task_destroy : State → State
  pub rt_task_add_hook : List Hook → State → ℤ × State
  pub rt_task_remove_hook : List Hook → State → State
  pub timer_word : (s : State) → (rt_timer_read s).0 < 2 ^ 64
  pub rname_text : (t : RtTask) → NoNul (rname t)
  pub inquire_name :
      (t : RtTask) (s : State) (i : TaskInfo) → rt_task_inquire t s ≡ filled i → i.name ≡ rname t
  pub malloc_fresh : (live : List Ptr) (s : State) → has (rtdm_malloc live s) live ≡ false
  pub stale_length : length stale_chars ≡ 24

-- uthash with string keys. The items of a table, oldest first, are the order of HASH_ITER; an item
-- is found by the key that it was added under, which its owner must leave unchanged.
pub record Uthash : Type 1 where
  pub Table : Type 0
  pub empty : Table
  pub hash_find_str : Name → Table → Option Ptr
  pub hash_add_str : Name → Ptr → Table → Table
  pub hash_del : Ptr → Table → Table
  pub hash_count : Table → ℕ
  pub items : Table → Items
  pub items_empty : items empty ≡ []
  pub items_add :
      (n : Name) (p : Ptr) (t : Table) → items (hash_add_str n p t) ≡ items t ++ (n, p) ∷ []
  pub items_del : (p : Ptr) (t : Table) → items (hash_del p t) ≡ remove p (items t)
  pub find_lookup :
      (n : Name) (t : Table) → UniqueKeys (items t) → hash_find_str n t ≡ lookup n (items t)
  pub count_length : (t : Table) → hash_count t ≡ length (items t)

pub record Platform : Type 1 where
  pub kernel : Kernel
  pub open kernel use *
  pub hash : Uthash
  pub open hash use *
  pub div : Div64
