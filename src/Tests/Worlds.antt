-- ===== src/Tests/Worlds.antt =====
-- A table of two tasks: task 1 is due at 500 and task 2 at 900, and the clock shows 100.
use edfomai.Base.{
  ℕ, ◌≡◌, refl, false, none, some, List, [], ◌∷◌, arith, ◌==◌, if◌then◌else◌, Ptr, Items, lookup,
  name_eq, has,
}
use edfomai.World.{World, RtDeadlineTask, Blocks}
use edfomai.Recalc.Refine.{IsTable}
use edfomai.Recalc.Assign.{ShortNames}
use edfomai.Dtask.Valid.{IsValid}
use edfomai.Dtask.Entry.{Answers}
use edfomai.Dtask.Create.{Creatable}
use edfomai.Tests.Sim.{Sim, sim, sim_name, total, prio_in, user_message}

abbrev pub entry : ℕ → ℕ → Ptr → RtDeadlineTask
entry t deadline watchd = record {
  deadline = deadline;
  remain = 0;
  relative_deadline = deadline;
  status = 0;
  state = 0;
  task = t;
  watchd = watchd;
  task_info = record { name = sim_name t; cprio = 20 };
}

abbrev pub first : RtDeadlineTask
first = entry 1 500 11

abbrev pub second : RtDeadlineTask
second = entry 2 900 21

abbrev pub two_items : Items
two_items = (sim_name 1, 10) ∷ (sim_name 2, 20) ∷ []

abbrev pub two_entries : List RtDeadlineTask
two_entries = first ∷ second ∷ []

abbrev pub two_blocks : Blocks
two_blocks p = if p == 10 then some first else if p == 20 then some second else none

abbrev pub clock_at_100 : Sim
clock_at_100 = record {
  clock = 100;
  prios = [];
  sent = [];
  locked = false;
  signals = 0;
  mailbox = user_message;
}

abbrev pub two_tasks : World sim
two_tasks = record {
  kernel = clock_at_100;
  dtask_map = two_items;
  dtasks = two_blocks;
  live = 10 ∷ 11 ∷ 20 ∷ 21 ∷ [];
}

pub two-IsTable : IsTable two_tasks two_items two_entries
two-IsTable = record { listed = refl; apart = (refl, (refl, tt)); stored = (refl, (refl, tt)) }

pub two-ShortNames : ShortNames sim two_entries
two-ShortNames = omega arith

two-clean : (p : Ptr) → has p two_tasks.live ≡ false → two_tasks.dtasks p ≡ none
two-clean p h = ground arith

pub two-IsValid : IsValid two_tasks two_items two_entries
unfolding lookup name_eq
two-IsValid = record {
  table = two-IsTable;
  keys = (refl, (refl, tt));
  named = (refl, refl, (refl, refl, tt));
  single = (refl, (refl, (refl, (refl, tt))));
  not_null = refl;
  in_use = λ p h. h;
  clean = two-clean;
  once = (refl, (refl, (refl, (refl, tt))));
}

pub sim-Answers : (t : ℕ) (w : World sim) → Answers t w
unfolding total prio_in
sim-Answers t w = record {
  info = record { name = sim_name t; cprio = prio_in w.kernel.prios t };
  filled_in = refl;
  room = λ e. omega arith;
}

pub sim-Creatable : (t : ℕ) (w : World sim) → Creatable t w
unfolding total prio_in
sim-Creatable t w = record {
  info = record { name = sim_name t; cprio = prio_in w.kernel.prios t };
  filled_in = refl;
  room = λ e. omega arith;
}
