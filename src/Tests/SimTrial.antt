-- ===== src/Tests/SimTrial.antt =====
-- A skin with named tasks and a table of descriptors, for sporadic_test.c and periodic_test.c.
use edfomai.Base.{
  ℕ, suc, ◌≡◌, ◌≢◌, refl, true, false, List, [], ◌∷◌, ◌==◌, if◌then◌else◌, arith, ℤ, pos, negsuc,
  Name, has, release,
}
use edfomai.Message.{EdfMessage}
use edfomai.Platform.{RtTask, filled}
use edfomai.Dtask.Owned.{has-release}
use edfomai.App.{Skin, App}
use edfomai.App.Leak.{Descriptors}
use edfomai.Launch.{Native, Watch}
use edfomai.Trial.{Spawning, Image}
use edfomai.Trial.Creations.{Tracking, IsImage, Unseen, Knows}
use edfomai.Trial.Leaks.{LeavesOpen}
use edfomai.Tests.Sim.{total, fresh-unused}
use edfomai.Tests.SimLaunch.{total_room}

pub record TrialOs : Type 0 where
  pub log : List EdfMessage
  pub names : RtTask → Name
  pub opened : List ℕ

abbrev closed_fd : ℤ → List ℕ → List ℕ
closed_fd (pos fd) opened = release fd opened
closed_fd (negsuc n) opened = opened

abbrev pub trial_skin : Skin
trial_skin = record {
  State = TrialOs;
  rt_dev_open =
      λ s. (pos (suc (total s.opened)), record s { opened = suc (total s.opened) ∷ s.opened });
  rt_dev_write = λ fd m s. (pos 40, record s { log = m ∷ s.log });
  rt_dev_close = λ fd s. (pos 0, record s { opened = closed_fd fd s.opened });
  rt_task_self = λ s. 1;
  rt_task_inquire = λ t s. filled (record { name = s.names t; cprio = 25 });
  rt_task_start = λ t procedure arg s. (pos 0, s);
  rt_task_wait_period = λ overruns s. (pos 0, s);
  malloc = λ live s. suc (total live);
  malloc_fresh = λ live s. fresh-unused live;
}

abbrev pub trial_native : Native trial_skin
trial_native = record {
  rt_print_auto_init = λ s. s;
  mlockall = λ s. s;
  rt_sem_create = λ p name n s. s;
  rt_task_create = λ t name prio s. record s { names = λ u. if u == t then name else s.names u };
  signal = λ n f s. s;
  pause = λ s. s;
  rt_task_set_periodic = λ n s. s;
  rt_timer_spin = λ n s. s;
}

abbrev pub trial_spawning : Spawning trial_skin
trial_spawning = record { rt_task_shadow = λ t name prio s. s; rt_task_join = λ t s. s }

abbrev pub trial_watch : Watch trial_skin trial_native
trial_watch = record {
  sent = λ s. s.log;
  sent_write = λ fd m s. refl;
  sent_open = λ s. refl;
  sent_close = λ fd s. refl;
  sent_start = λ t f arg s. refl;
  sent_print_init = λ s. refl;
  sent_mlockall = λ s. refl;
  sent_sem = λ p name n s. refl;
  sent_create = λ t name prio s. refl;
  sent_signal = λ n f s. refl;
  sent_pause = λ s. refl;
  sent_wait = λ p s. refl;
  sent_periodic = λ n s. refl;
  sent_spin = λ n s. refl;
  room = λ live s. total_room live;
}

abbrev pub trial_unseen : Unseen trial_watch trial_spawning
trial_unseen = record { sent_shadow = λ t name prio s. refl; sent_join = λ t s. refl }

eq_self : (t : ℕ) → (t == t) ≡ true
eq_self t = ground arith

eq_apart : (t u : ℕ) → t ≢ u → (t == u) ≡ false
eq_apart t u ne = ground arith

pub just_created :
    (t : RtTask) (name : Name) (prio : ℕ) (s : TrialOs)
    → Knows trial_skin t name (trial_native.rt_task_create t name prio s)
just_created t name prio s =
    (record { name = if t == t then name else s.names t; cprio = 25 }, refl, rw (eq_self t))

pub still_created :
    (t u : RtTask) (name other : Name) (prio : ℕ) (s : TrialOs)
    → t ≢ u
    → Knows trial_skin t name s
    → Knows trial_skin t name (trial_native.rt_task_create u other prio s)
still_created t u name other prio s ne (i, known, named) = (i, rw (eq_apart t u ne) known, named)

abbrev pub trial_tracking : Tracking trial_skin trial_native
trial_tracking = record {
  created = just_created;
  create_keeps = still_created;
  write_keeps = λ t name fd m s k. k;
  start_keeps = λ t u name f arg s k. k;
}

pub opened_new :
    (fd : ℕ) (s s' : TrialOs)
    → trial_skin.rt_dev_open s ≡ (pos fd, s')
    → (has fd s.opened ≡ false) × (has fd s'.opened ≡ true)
opened_new fd s s' e = ground (arith, fresh-unused s.opened)

pub opened_more : (fd d : ℕ) (opened : List ℕ) → has d opened ≡ true → has d (fd ∷ opened) ≡ true
opened_more fd d opened held = ground (arith, held)

pub closed_other :
    (d : ℕ) (fd : ℤ) (s : TrialOs)
    → fd ≢ pos d
    → has d s.opened ≡ true
    → has d (closed_fd fd s.opened) ≡ true
closed_other d (pos fd) s other held = ground (arith, has-release fd d s.opened)
closed_other d (negsuc n) s other held = held

abbrev pub trial_descriptors : Descriptors trial_skin
trial_descriptors = record {
  is_open = λ d s. has d s.opened;
  open_new = opened_new;
  open_keeps = λ d s held. opened_more (suc (total s.opened)) d s.opened held;
  close_keeps = closed_other;
  write_keeps = λ d fd m s held. held;
  start_keeps = λ d t f arg s held. held;
  wait_keeps = λ d p s held. held;
}

abbrev pub trial_leaves : LeavesOpen trial_descriptors trial_native trial_spawning
trial_leaves = record {
  create_keeps = λ d t name prio s held. held;
  join_keeps = λ d t s held. held;
}

abbrev pub trial_image : Image
trial_image = record { spawner = 10; t1 = 11; t2 = 12; t3 = 13; demo = 500 }

pub trial_image-IsImage : IsImage trial_image
trial_image-IsImage = record {
  apart12 = λ e. omega arith;
  apart13 = λ e. omega arith;
  apart23 = λ e. omega arith;
}

abbrev pub trial_app : App trial_skin
trial_app = record {
  os = record { log = []; names = λ t. []; opened = [] };
  device = negsuc 0;
  live = [];
}
