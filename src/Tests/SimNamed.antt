-- ===== src/Tests/SimNamed.antt =====
-- A platform on which every proper name is that of a task: an RT_TASK is the number that its name spells
-- in base 256. The process keeps the name of the task that it created last beside its message.
use edfomai.Base.{
  ℕ, zero, suc, ◌+◌, ◌*◌, ◌/◌, ◌%◌, ◌≤◌, ◌<◌, ◌≡◌, ◌≢◌, refl, ap, false, [], ◌∷◌, ◌==◌, ltb,
  if◌then◌else◌, take, length, arith, pos, Name, NoNul, Bytes, null, Bool-cases, inl, inr,
}
use edfomai.Message.{EdfMessage, tname_len}
use edfomai.Platform.{Platform, Kernel, RtTask, TaskInfo, filled}
use edfomai.World.{World}
use edfomai.Driver.Served.{Steady}
use edfomai.Driver.Write.{task_named}
use edfomai.System.{Process, handed}
use edfomai.System.Enrolled.{Calls, Launching, IsProper, on_kernel}
use edfomai.Tests.Sim.{Sim, sim_kernel, sim_hash, sim_div, total, fresh-unused}
use edfomai.Tests.SimLaunch.{total_room}

unfoldable pub spelled : Name → ℕ
spelled [] = 1
spelled (c ∷ cs) = c + 256 * spelled cs

-- The characters of a number, the first fuel of them, up to a NUL.
unfoldable pub spells : ℕ → ℕ → Name
spells zero n = []
spells (suc fuel) n =
    if ltb n 256 then [] else if n % 256 == 0 then [] else (n % 256) ∷ spells fuel (n / 256)

spelled_pos : (cs : Name) → 0 < spelled cs
unfolding spelled
spelled_pos [] = omega arith
spelled_pos (c ∷ cs) = omega (arith, spelled_pos cs)

spells-spelled :
    (fuel : ℕ) (cs : Name) → length cs ≤ fuel → NoNul cs → Bytes cs → spells fuel (spelled cs) ≡ cs
unfolding spells spelled
spells-spelled zero [] short text bytes = refl
spells-spelled zero (c ∷ cs) short text bytes = absurd (omega arith)
spells-spelled (suc fuel) [] short text bytes = refl
spells-spelled (suc fuel) (c ∷ cs) short text bytes =
    let more : ltb (c + 256 * spelled cs) 256 ≡ false = ground (arith, spelled_pos cs) in
    let first : (c + 256 * spelled cs) % 256 ≡ c = omega (arith, bytes.0) in
    let rest : (c + 256 * spelled cs) / 256 ≡ spelled cs = omega (arith, bytes.0) in
    let char : (c == 0) ≡ false = ground (arith, text.0) in
    rw (more, first, char, rest) (ap (◌∷◌ c) (spells-spelled fuel cs (omega arith) text.1 bytes.1))

spells-length : (fuel n : ℕ) → length (spells fuel n) ≤ fuel
unfolding spells
spells-length zero n = omega arith
spells-length (suc fuel) n = ground (arith, spells-length fuel (n / 256))

spells-NoNul : (fuel n : ℕ) → NoNul (spells fuel n)
unfolding spells
spells-NoNul zero n = tt
spells-NoNul (suc fuel) n = elim (Bool-cases (ltb n 256)) [
  | inl e ↦ rw e tt
  | inr e ↦ elim (Bool-cases (n % 256 == 0)) [
    | inl z ↦ rw (e, z) tt
    | inr z ↦ rw (e, z) (ground arith, spells-NoNul fuel (n / 256))
  ]
]

take-short : (n : ℕ) (cs : Name) → length cs ≤ n → take n cs ≡ cs
take-short zero [] short = refl
take-short zero (c ∷ cs) short = absurd (omega arith)
take-short (suc n) [] short = refl
take-short (suc n) (c ∷ cs) short = ap (◌∷◌ c) (take-short n cs (omega arith))

abbrev pub own : RtTask → TaskInfo
own t = record { name = spells 23 t; cprio = 20 }

pub own-name :
    (t : RtTask) (s : Sim) (i : TaskInfo) → filled (own t) ≡ filled i → i.name ≡ spells 23 t
own-name t s i e = ground arith

pub own-NoNul : (t : RtTask) → NoNul (spells 23 t)
own-NoNul t = spells-NoNul 23 t

abbrev pub named_kernel : Kernel
named_kernel = record sim_kernel {
  rname = spells 23;
  rt_task_inquire = λ t s. filled (own t);
  xnregistry_bind = λ n s. (0, spelled n);
  rname_text = own-NoNul;
  inquire_name = own-name;
}

abbrev pub named_sim : Platform
named_sim = record { kernel = named_kernel; hash = sim_hash; div = sim_div }

pub named_short : (t : RtTask) → length (spells 23 t) < 24
named_short t = omega (arith, spells-length 23 t)

pub named-Steady : Steady named_sim
named-Steady = record {
  knows = λ t s. (own t, refl);
  room = λ live s. total_room live;
  short = λ t. named_short t;
}

abbrev pub named_process : Process named_sim
named_process = record {
  buffer = λ m s. (1, record s { mailbox = m });
  message_size = 40;
  rt_dev_open = λ s. (pos 3, s);
  rt_dev_close = λ fd s. (pos 0, s);
  rt_task_self = λ s. 1;
  rt_task_inquire = λ t s. filled (record { name = s.mailbox.task; cprio = 20 });
  rt_task_start = λ t f arg s. (pos 0, s);
  rt_task_wait_period = λ overruns s. (pos 0, s);
  malloc = λ live s. suc (total live);
  buffer_read = λ m s. refl;
  malloc_fresh = λ live s. fresh-unused live;
}

-- The name of a new task is noted where the next message will be.
abbrev pub named_calls : Calls named_sim
named_calls = record {
  rt_print_auto_init = λ s. s;
  mlockall = λ s. s;
  rt_sem_create = λ p name n s. s;
  rt_task_create =
      λ t name prio s. record s { mailbox = record { command = 0; task = name; deadline = 0 } };
  signal = λ n f s. s;
  pause = λ s. s;
  rt_task_set_periodic = λ n s. s;
  rt_timer_spin = λ n s. s;
}

registered_spelled :
    (t : RtTask) (name : Name) (prio : ℕ) (m : EdfMessage) (w : World named_sim)
    → IsProper name
    → (u : RtTask) × (task_named
          (take tname_len name)
          (handed named_process m (on_kernel (named_calls.rt_task_create t name prio) w))
        ≡ u)
      × (u ≢ null)
      × (named_sim.rname u ≡ name)
registered_spelled t name prio m w (short, text, bytes) =
    let whole : take tname_len name ≡ name = take-short 24 name (omega arith) in
    let some_task : (spelled name == null) ≡ false = ground (arith, spelled_pos name) in
    (
      spelled name,
      rw (whole, some_task),
      (λ e. omega (arith, spelled_pos name)),
      spells-spelled 23 name (omega arith) text bytes,
    )

pub named-Launching : Launching named_process named_calls
named-Launching = record {
  created = λ t name prio s proper. (20, refl);
  registered = registered_spelled;
  room = λ live s. total_room live;
}
