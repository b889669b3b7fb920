-- ===== src/Tests/SimLaunch.antt =====
-- A skin that logs the messages to the device, for the main programs.
use edfomai.Base.{suc, ◌≢◌, List, [], ◌∷◌, pos, negsuc, refl, Name, Ptr, null, arith}
use edfomai.Message.{EdfMessage}
use edfomai.Platform.{filled}
use edfomai.App.{Skin, App}
use edfomai.Launch.{Native, Watch, Naming}
use edfomai.Tests.Sim.{total, fresh-unused}

-- The messages, and the name of the task that was created last.
pub record LogOs : Type 0 where
  pub log : List EdfMessage
  pub current : Name

-- The name of every task is a function of the state.
abbrev pub skin_of : (LogOs → Name) → Skin
skin_of f = record {
  State = LogOs;
  rt_dev_open = λ s. (pos 3, s);
  rt_dev_write = λ fd m s. (pos 40, record s { log = m ∷ s.log });
  rt_dev_close = λ fd s. (pos 0, s);
  rt_task_self = λ s. 1;
  rt_task_inquire = λ t s. filled (record { name = f s; cprio = 20 });
  rt_task_start = λ t procedure arg s. (pos 0, s);
  rt_task_wait_period = λ overruns s. (pos 0, s);
  malloc = λ live s. suc (total live);
  malloc_fresh = λ live s. fresh-unused live;
}

abbrev pub native_of : (f : LogOs → Name) → Native (skin_of f)
native_of f = record {
  rt_print_auto_init = λ s. s;
  mlockall = λ s. s;
  rt_sem_create = λ p name n s. s;
  rt_task_create = λ t name prio s. record s { current = name };
  signal = λ n f s. s;
  pause = λ s. s;
  rt_task_set_periodic = λ n s. s;
  rt_timer_spin = λ n s. s;
}

pub total_room : (live : List Ptr) → suc (total live) ≢ null
total_room live e = omega arith

abbrev pub watch_of : (f : LogOs → Name) → Watch (skin_of f) (native_of f)
watch_of f = record {
  sent = λ s. s.log;
  sent_write = λ fd m s. refl;
  sent_open = λ s. refl;
  sent_close = λ fd s. refl;
  sent_start = λ t f arg s. refl;
  sent_print_init = λ s. refl;
  sent_mlockall = λ s. refl;
  sent_sem = λ p name n s. refl;
  sent_create = λ t name prio s. refl;
  sent_signal = λ n f s. refl;
  sent_pause = λ s. refl;
  sent_wait = λ p s. refl;
  sent_periodic = λ n s. refl;
  sent_spin = λ n s. refl;
  room = λ live s. total_room live;
}

-- The task is the one that was created last.
abbrev pub log_skin : Skin
log_skin = skin_of (λ s. s.current)

abbrev pub log_native : Native log_skin
log_native = native_of (λ s. s.current)

abbrev pub log_watch : Watch log_skin log_native
log_watch = watch_of (λ s. s.current)

abbrev pub log_naming : Naming log_skin log_native
log_naming = record { created = λ t name prio s. (record { name = name; cprio = 20 }, refl, refl) }

abbrev pub silent_app : App log_skin
silent_app = record { os = record { log = []; current = [] }; device = negsuc 0; live = [] }

-- The task is one that runs, and keeps its name.
abbrev pub own_name : Name
own_name = b'T' ∷ []

abbrev pub running_app : App (skin_of (λ s. own_name))
running_app = record { os = record { log = []; current = [] }; device = pos 3; live = [] }
