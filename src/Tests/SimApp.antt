-- ===== src/Tests/SimApp.antt =====
-- A skin on which the model of edfomai-app.c runs: task 1 calls, the device is descriptor 3 once it
-- was opened, and it logs the commands that it gets.
use edfomai.Base.{ℕ, suc, Bool, true, false, List, [], ◌∷◌, if◌then◌else◌, pos, negsuc}
use edfomai.Platform.{filled}
use edfomai.App.{Skin, App}
use edfomai.Tests.Sim.{sim_name, total, fresh-unused}

pub record SimOs : Type 0 where
  pub opened : Bool
  pub commands : List ℕ
  pub starts : List ℕ

-- A request is answered by its size, 40 bytes.
abbrev pub sim_skin : Skin
sim_skin = record {
  State = SimOs;
  rt_dev_open = λ s. (pos 3, record s { opened = true });
  rt_dev_write = λ fd m s. (pos 40, record s { commands = m.command ∷ s.commands });
  rt_dev_close = λ fd s. (if s.opened then pos 0 else negsuc 8, record s { opened = false });
  rt_task_self = λ s. 1;
  rt_task_inquire = λ t s. filled (record { name = sim_name t; cprio = 20 });
  rt_task_start = λ t procedure arg s. (pos 0, record s { starts = t ∷ s.starts });
  rt_task_wait_period = λ overruns s. (pos 0, s);
  malloc = λ live s. suc (total live);
  malloc_fresh = λ live s. fresh-unused live;
}

abbrev pub closed_app : App sim_skin
closed_app = record {
  os = record { opened = false; commands = []; starts = [] };
  device = pos 0;
  live = [];
}

abbrev pub open_app : App sim_skin
open_app = record {
  os = record { opened = true; commands = []; starts = [] };
  device = pos 3;
  live = [];
}
