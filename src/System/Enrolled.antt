-- ===== src/System/Enrolled.antt =====
-- Several tasks started one after the other through edfomai-app.c: what the table of edfomai-drv-data.c
-- holds then.
use edfomai.Base.{
  ℕ, ◌<◌, ◌≡◌, ◌≢◌, refl, ap, ◌∙◌, false, none, some, List, [], ◌∷◌, ◌++◌, arith, take, ℤ, pos,
  Name, NoNul, Bytes, length, Ptr, null, Items, lookup, name_eq, pointers,
}
use edfomai.Message.{EdfMessage, tname_len}
use edfomai.Platform.{Platform, RtTask, filled}
use edfomai.World.{World, RtDeadlineTask, Blocks}
use edfomai.Dtask.Valid.{IsValid}
use edfomai.Driver.Served.{Steady, kernel-IsValid}
use edfomai.Driver.Served.Blocks.{Kept}
use edfomai.Driver.Write.{task_named}
use edfomai.App.{App}
use edfomai.Launch.{Native, creation, spawn}
use edfomai.System.{Process, joined, handed, start-Registered}

-- The calls of the native skin that the main programs make, on the kernel's state.
pub record Calls (P : Platform) : Type 0 where
  pub rt_print_auto_init : P.State → P.State
  pub mlockall : P.State → P.State
  pub rt_sem_create : Ptr → Name → ℕ → P.State → P.State
  pub rt_task_create : RtTask → Name → ℕ → P.State → P.State
  pub signal : ℕ → Ptr → P.State → P.State
  pub pause : P.State → P.State
  pub rt_task_set_periodic : ℕ → P.State → P.State
  pub rt_timer_spin : ℕ → P.State → P.State

abbrev pub on_kernel : {P : Platform} → (P.State → P.State) → World P → World P
on_kernel f w = record w { kernel = f w.kernel }

abbrev pub joined_native : {P : Platform} (U : Process P) → Calls P → Native (joined P U)
joined_native U K = record {
  rt_print_auto_init = on_kernel K.rt_print_auto_init;
  mlockall = on_kernel K.mlockall;
  rt_sem_create = λ p name n w. on_kernel (K.rt_sem_create p name n) w;
  rt_task_create = λ t name prio w. on_kernel (K.rt_task_create t name prio) w;
  signal = λ n f w. on_kernel (K.signal n f) w;
  pause = on_kernel K.pause;
  rt_task_set_periodic = λ n w. on_kernel (K.rt_task_set_periodic n) w;
  rt_timer_spin = λ n w. on_kernel (K.rt_timer_spin n) w;
}

-- A name that fits the messages: of fewer than 24 characters, which are bytes and not NUL.
abbrev pub IsProper : Name → Type 0
IsProper name = (length name < 24) × NoNul name × Bytes name

-- A task that was created has the name that it was given, and the registry finds it by that name, also
-- once the process has written its message. The process does not run out of memory.
pub record Launching {P : Platform} (U : Process P) (K : Calls P) : Type 0 where
  pub created :
      (t : RtTask) (name : Name) (prio : ℕ) (s : P.State)
      → IsProper name
      → (cprio : ℕ) × (U.rt_task_inquire t (K.rt_task_create t name prio s)
          ≡ filled (record { name = name; cprio = cprio }))
  pub registered :
      (t : RtTask) (name : Name) (prio : ℕ) (m : EdfMessage) (w : World P)
      → IsProper name
      → (u : RtTask) × (task_named
            (take tname_len name)
            (handed U m (on_kernel (K.rt_task_create t name prio) w))
          ≡ u)
        × (u ≢ null)
        × (P.rname u ≡ name)
  pub room : (live : List Ptr) (s : P.State) → U.malloc live s ≢ null

-- The items are entries of tasks of these names with these deadlines, in this order.
abbrev pub Enrolled : (P : Platform) → Blocks → Items → List (Name × ℕ) → Type 0
Enrolled P f [] [] = Unit
Enrolled P f [] (t ∷ ts) = ⊥
Enrolled P f (x ∷ xs) [] = ⊥
Enrolled P f ((n, p) ∷ xs) ((name, deadline) ∷ ts) =
    ((d : RtDeadlineTask) × (f p ≡ some d)
      × (n ≡ name)
      × (P.rname d.task ≡ name)
      × (d.relative_deadline ≡ deadline))
    × Enrolled P f xs ts

-- None of the tasks has this name.
abbrev pub IsNew : Name → List (Name × ℕ) → Type 0
IsNew name [] = Unit
IsNew name ((other, deadline) ∷ ts) = (name_eq other name ≡ false) × IsNew name ts

module _ (P : Platform) where
  Enrolled-lookup :
      (f : Blocks) (xs : Items) (ts : List (Name × ℕ)) (name : Name)
      → Enrolled P f xs ts
      → IsNew name ts
      → lookup name xs ≡ none
  unfolding lookup
  Enrolled-lookup f [] [] name h new = refl
  Enrolled-lookup f [] (t ∷ ts) name h new = refl
  Enrolled-lookup f (x ∷ xs) [] name h new = absurd h
  Enrolled-lookup f ((n, p) ∷ xs) ((other, deadline) ∷ ts) name ((d, at_p, same, _, _), h) new =
      rw (same, new.0) (Enrolled-lookup f xs ts name h new.1)

  Enrolled-append :
      (f g : Blocks) (xs : Items) (ts : List (Name × ℕ)) (name : Name) (deadline : ℕ) (p : Ptr)
      (d : RtDeadlineTask)
      → Enrolled P f xs ts
      → Kept (pointers xs) f g
      → g p ≡ some d
      → P.rname d.task ≡ name
      → d.relative_deadline ≡ deadline
      → Enrolled P g (xs ++ (name, p) ∷ []) (ts ++ (name, deadline) ∷ [])
  Enrolled-append f g [] [] name deadline p d h kept at_p named asked =
      ((d, at_p, refl, named, asked), tt)
  Enrolled-append f g [] (t ∷ ts) name deadline p d h kept at_p named asked = absurd h
  Enrolled-append f g (x ∷ xs) [] name deadline p d h kept at_p named asked = absurd h
  Enrolled-append f g ((n, q) ∷ xs) ((m, l) ∷ ts) name deadline p d ((e, at_q, same, of_m, dl), h)
        kept at_p named asked =
      let (e', at_q', same_task, same_deadline) = kept q e (ground arith) at_q in
      (
        (e', at_q', same, ap P.rname same_task ∙ of_m, same_deadline ∙ dl),
        Enrolled-append f g xs ts name deadline p d h (λ r x i. kept r x (ground arith)) at_p named
            asked,
      )

module _ {P : Platform} (U : Process P) where
  -- A program with an open device, whose driver has exactly these tasks.
  pub record Holding (a : App (joined P U)) (fd : ℕ) (ts : List (Name × ℕ)) : Type 0 where
    pub items : Items
    pub entries : List RtDeadlineTask
    pub valid : IsValid a.os items entries
    pub enrolled : Enrolled P a.os.dtasks items ts
    pub open_at : a.device ≡ pos fd

module _ {P : Platform} (U : Process P) (K : Calls P) (L : Launching U K) (st : Steady P) where
  pub spawn-Holding :
      {a : App (joined P U)} {fd : ℕ} {ts : List (Name × ℕ)} (task : RtTask) (name : Name)
      (prio deadline : ℕ) (procedure arg : Ptr)
      → Holding U a fd ts
      → IsProper name
      → IsNew name ts
      → (r : ℤ) × (b : App (joined P U)) × (spawn
            (joined_native U K)
            task
            name
            prio
            deadline
            procedure
            arg
            a
          ≡ some (r, b))
        × Holding U b fd (ts ++ (name, deadline) ∷ [])
  unfolding spawn
  spawn-Holding {a} {fd} {ts} task name prio deadline procedure arg h proper new =
      let s0 = K.rt_task_create task name prio a.os.kernel in
      let made : App (joined P U) = record a { os = record a.os { kernel = s0 } } in
      let (cprio, known) = L.created task name prio a.os.kernel proper in
      let (u, found, some_u, of_u) =
        L.registered task name prio (creation name deadline) a.os proper in
      let missing = Enrolled-lookup P a.os.dtasks h.items ts name h.enrolled new in
      let (b, s, ys, es, runs, valid, r, same) =
        start-Registered U made (kernel-IsValid s0 h.valid) st task u
          (record { name = name; cprio = cprio }) deadline fd procedure arg h.open_at
          (L.room a.live s0) known found some_u (rw of_u missing) in
      (
        (U.rt_task_start task procedure arg s).0,
        b,
        runs,
        record {
          items = ys;
          entries = es;
          valid = valid;
          enrolled =
              let listed = r.listed in
              let of_task = r.of_task in
              rw (listed, of_u)
                (Enrolled-append P a.os.dtasks b.os.dtasks h.items ts name deadline r.block r.entry
                  h.enrolled r.kept r.stored (rw (of_task, of_u)) r.asked);
          open_at = same ∙ h.open_at;
        },
      )
