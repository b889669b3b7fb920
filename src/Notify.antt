-- ===== src/Notify.antt =====
-- deadline_missed of edfomai-drv.c: the name of a late task is sent to the queue of missed deadlines.
pub mod Message
use edfomai.Base.{
  ℕ, zero, suc, ◌+◌, Bool, true, false, Option, none, some, List, ltb, ◌==◌, if◌then◌else◌, Name,
  length, set, get_or,
}
use edfomai.Message.{tname_len}
use edfomai.Platform.{Platform, RtTask}
use edfomai.World.{Cmd, World}

-- The character at an index of a C string; NUL from its end on.
abbrev pub char_at : Name → ℕ → ℕ
char_at name i = get_or name i 0

-- The loop over i, with the rounds that are left. It returns the i at which it ends.
unfoldable pub copy_rname : ℕ → ℕ → Name → List ℕ → ℕ × List ℕ
copy_rname zero i name message = (i, message)
copy_rname (suc n) i name message = elim (char_at name i == 0) [
  | true ↦ (i, message)
  | false ↦ copy_rname n (i + 1) name (set message i (char_at name i))
]

-- A write into a local array: past its end it destroys the stack.
unfoldable pub write_char : List ℕ → ℕ → ℕ → Option (List ℕ)
write_char message i c = if ltb i (length message) then some (set message i c) else none

unfoldable pub missed_message : Name → List ℕ → Option (List ℕ)
missed_message name stale =
    let (i, message) = copy_rname tname_len 0 name stale in
    write_char message (if ltb i tname_len then i else tname_len) 0

module _ {P : Platform} where
  open P use {rname, stale_chars, rt_queue_write}

  unfoldable pub deadline_missed : RtTask → Cmd P (Unit {0})
  deadline_missed t w = elim (missed_message (rname t) stale_chars) [
    | none ↦ none
    | some message ↦ some (tt, record w { kernel = rt_queue_write message w.kernel })
  ]
