-- ===== src/Message.antt =====
-- The messages of edfomai-data.h, by which a program talks to the driver.
use edfomai.Base.{ℕ, ◌-◌, ◌^◌, Name}

abbrev pub tname_len : ℕ
tname_len = 24

-- DEADLINENOTSET is -1, as an unsigned 64-bit number.
abbrev pub deadline_not_set : ℕ
deadline_not_set = 2 ^ 64 - 1

-- An EDFCommand is an int that need not be one of its names.
abbrev pub create_task : ℕ
create_task = 0

abbrev pub start_task : ℕ
start_task = 1

abbrev pub reset_deadline : ℕ
reset_deadline = 2

abbrev pub set_deadline : ℕ
set_deadline = 3

abbrev pub stop_watchd : ℕ
stop_watchd = 4

abbrev pub going_waitp : ℕ
going_waitp = 5

pub record EdfMessage : Type 0 where
  pub command : ℕ
  pub task : Name
  pub deadline : ℕ
