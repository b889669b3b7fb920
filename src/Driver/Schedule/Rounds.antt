-- ===== src/Driver/Schedule/Rounds.antt =====
-- Rounds of rt_dtask_recalculateprio (edfomai-drv-data.c) on a valid table, and the service of
-- edfomai-drv.c: the kernel's priorities follow the deadlines.
use edfomai.Base.{
  ℕ, ◌≤◌, ◌≡◌, ◌≢◌, refl, sym, ap, ◌∙◌, true, none, some, List, [], ◌∷◌, map, arith, pos, Items,
  lookup, name_eq, name_eq_self, UniqueKeys, Bool-cases, inl, inr, pointers,
}
use edfomai.Platform.{Platform}
use edfomai.World.{World, RtDeadlineTask, Blocks}
use edfomai.Recalc.{is_active, is_ready, no_bounds, rt_dtask_recalculateprio}
use edfomai.Recalc.Holds.{Holds}
use edfomai.Recalc.Scan.{bounds_of, refreshed, info_after}
use edfomai.Recalc.Refine.{round, recalculateprio-empty, recalculateprio-round}
use edfomai.Recalc.Edf.{In, Near, round_prio, round_prio_edf, round_prio-earliest}
use edfomai.Dtask.Valid.{IsValid, Named}
use edfomai.Driver.{edf_service_turn, mtx_acquire, mtx_release}
use edfomai.Driver.Served.{Steady, all_short, kernel-IsValid}
use edfomai.Driver.Schedule.{Obedient, OneEach, all_calls-own}

In-map :
    (f : RtDeadlineTask → RtDeadlineTask) (d : RtDeadlineTask) (ds : List RtDeadlineTask)
    → In d ds
    → In (f d) (map f ds)
In-map f d [] i = i
In-map f d (e ∷ ds) (inl same) = inl (ap f same)
In-map f d (e ∷ ds) (inr i) = inr (In-map f d ds i)

In-map_inverse :
    (f : RtDeadlineTask → RtDeadlineTask) (x : RtDeadlineTask) (ds : List RtDeadlineTask)
    → In x (map f ds)
    → (d : RtDeadlineTask) × In d ds × (x ≡ f d)
In-map_inverse f x [] i = absurd i
In-map_inverse f x (e ∷ ds) (inl same) = (e, inl refl, same)
In-map_inverse f x (e ∷ ds) (inr i) = let (d, j, same) = In-map_inverse f x ds i in (d, inr j, same)

OneEach-map :
    (f : RtDeadlineTask → RtDeadlineTask) (ds : List RtDeadlineTask)
    → ((d : RtDeadlineTask) → (f d).task ≡ d.task)
    → OneEach ds
    → OneEach (map f ds)
OneEach-map f [] same one = tt
OneEach-map f (d ∷ ds) same one = (
  λ x i e.
      let (y, j, at_x) = In-map_inverse f x ds i in
      one.0 y j (sym (same y) ∙ ap (λ (z : RtDeadlineTask). z.task) (sym at_x) ∙ e ∙ same d),
  OneEach-map f ds same one.1,
)

-- A task of an entry is found under its name.
found_task :
    (P : Platform) (f : Blocks) (xs : Items) (ds : List RtDeadlineTask) (e : RtDeadlineTask)
    → Holds f (pointers xs) ds
    → Named P xs ds
    → In e ds
    → lookup (P.rname e.task) xs ≢ none
unfolding lookup
found_task P f xs [] e h named i gone = absurd i
found_task P f [] (d ∷ ds) e h named i gone = absurd h
found_task P f ((n, p) ∷ xs) (d ∷ ds) e h named (inl same) gone =
    let here : name_eq n (P.rname e.task) ≡ true = rw (same, named.1) (name_eq_self n) in
    cc (rw here at gone)
found_task P f ((n, p) ∷ xs) (d ∷ ds) e h named (inr i) gone =
    elim (Bool-cases (name_eq n (P.rname e.task))) [
      | inl hit ↦ cc (rw hit at gone)
      | inr miss ↦ found_task P f xs ds e h.1 named.2 i (rw miss at gone)
    ]

valid-OneEach :
    (P : Platform) (f : Blocks) (xs : Items) (ds : List RtDeadlineTask)
    → Holds f (pointers xs) ds
    → Named P xs ds
    → UniqueKeys xs
    → OneEach ds
valid-OneEach P f xs [] h named keys = tt
valid-OneEach P f [] (d ∷ ds) h named keys = absurd h
valid-OneEach P f ((n, p) ∷ xs) (d ∷ ds) h named keys = (
  λ e i same. found_task P f xs ds e h.1 named.2 i (rw (same, named.1) keys.0),
  valid-OneEach P f xs ds h.1 named.2 keys.1,
)

module _ {P : Platform} (O : Obedient P) where
  -- The kernel's priorities of the tasks of ready entries follow their deadlines.
  abbrev pub Follows : List RtDeadlineTask → P.State → Type 0
  Follows ds s =
      (d e : RtDeadlineTask)
      → In d ds
      → In e ds
      → is_ready d ≡ true
      → is_ready e ≡ true
      → d.deadline ≤ e.deadline
      → O.cprio e.task s ≤ O.cprio d.task s

module _ {P : Platform} (O : Obedient P) (st : Steady P) where
  refreshed-task :
      (now : ℕ) (s : P.State) (d : RtDeadlineTask) → (refreshed P now s d).task ≡ d.task
  refreshed-task now s d = ground arith

  refreshed-ready :
      (now : ℕ) (s : P.State) (d : RtDeadlineTask) → is_ready (refreshed P now s d) ≡ is_ready d
  unfolding is_ready
  refreshed-ready now s d = ground arith

  ready-active : (d : RtDeadlineTask) → is_ready d ≡ true → is_active d ≡ true
  unfolding is_ready is_active
  ready-active d ready = ground arith

  -- A ready entry knows the kernel's priority of its task after the first loop.
  refreshed-cprio :
      (now : ℕ) (s : P.State) (d : RtDeadlineTask)
      → is_ready d ≡ true
      → (refreshed P now s d).task_info.cprio ≡ O.cprio d.task s
  refreshed-cprio now s d ready =
      let active = ready-active d ready in
      let (i, known) = st.knows d.task s in
      rw (active, info_after, known) (O.inquired d.task s i known)

  module _ {w : World P} {xs : Items} {ds : List RtDeadlineTask} (v : IsValid w xs ds) where
    -- After a round, the task of a ready entry has the priority that was computed.
    round-cprio :
        (d : RtDeadlineTask)
        → Near (P.rt_timer_read w.kernel).0 ds
        → In d ds
        → is_ready d ≡ true
        → O.cprio d.task (round w (pointers xs) ds).kernel
          ≡ round_prio P (P.rt_timer_read w.kernel).0 (P.rt_timer_read w.kernel).1 ds d
    round-cprio d near i ready =
        let now = (P.rt_timer_read w.kernel).0 in
        let s = (P.rt_timer_read w.kernel).1 in
        let g = refreshed P now s in
        let one =
          OneEach-map g ds (refreshed-task now s)
            (valid-OneEach P w.dtasks xs ds v.table.stored v.named v.keys) in
        let small = (round_prio-earliest P now s ds near d i (ready-active d ready)).0 in
        ap (λ t. O.cprio t (round w (pointers xs) ds).kernel) (sym (refreshed-task now s d))
        ∙ all_calls-own O (bounds_of now ds no_bounds) (g d) (map g ds) s one (In-map g d ds i)
            (refreshed-ready now s d ∙ ready)
            (refreshed-cprio now s d ready ∙ ap (λ t. O.cprio t s) (sym (refreshed-task now s d)))
            (omega (arith, small))

  pub round-Follows :
      {w : World P} (xs : Items) (ds : List RtDeadlineTask)
      → IsValid w xs ds
      → Near (P.rt_timer_read w.kernel).0 ds
      → Follows O ds (round w (pointers xs) ds).kernel
  round-Follows {w} xs ds v near d e i j ready busy le =
      let s = (P.rt_timer_read w.kernel).1 in
      let ordered =
        round_prio_edf P (P.rt_timer_read w.kernel).0 s ds near d e i j (ready-active d ready)
          (ready-active e busy) le in
      rw (round-cprio v d near i ready, round-cprio v e near j busy) ordered

  recalculateprio-Follows :
      {w : World P} (xs : Items) (ds : List RtDeadlineTask)
      → IsValid w xs ds
      → Near (P.rt_timer_read w.kernel).0 ds
      → (w' : World P) × (rt_dtask_recalculateprio w ≡ some (pos 0, w')) × Follows O ds w'.kernel
  recalculateprio-Follows {w} [] [] v near =
      (w, recalculateprio-empty w v.table.listed, λ d e i. absurd i)
  recalculateprio-Follows {w} [] (d ∷ ds) v near = absurd v.table.stored
  recalculateprio-Follows {w} (x ∷ xs) ds v near = (
    round w (pointers (x ∷ xs)) ds,
    recalculateprio-round w (x ∷ xs) ds v.table (all_short st ds) (λ e. cc),
    round-Follows (x ∷ xs) ds v near,
  )

  -- From a valid table, with a kernel that knows its tasks, all with short names, has memory, and
  -- gives a task the priority that is set: when every active deadline is less than 2 ^ 64 / 50 ns after the
  -- reading of the clock, a turn of the service returns, and then of the tasks of any two entries
  -- that were running with a deadline not reported as missed, the kernel gives that with the earlier
  -- deadline no lower priority.
  pub turn-Follows :
      {w : World P} {xs : Items} {ds : List RtDeadlineTask}
      → IsValid w xs ds
      → Near (P.rt_timer_read (P.rtdm_lock_get w.kernel)).0 ds
      → (w' : World P) × (edf_service_turn w ≡ some (tt, w')) × Follows O ds w'.kernel
  unfolding edf_service_turn mtx_acquire mtx_release
  turn-Follows {w} {xs} {ds} v near =
      let (u, runs, follows) =
        recalculateprio-Follows xs ds (kernel-IsValid (P.rtdm_lock_get w.kernel) v) near in
      let s = P.rtdm_lock_put u.kernel in
      (
        record u { kernel = P.rtdm_event_clear s },
        rw runs,
        λ d e i j ready busy le.
            rw
              (
                O.cleared d.task s,
                O.cleared e.task s,
                O.unlocked d.task u.kernel,
                O.unlocked e.task u.kernel,
              )
              (follows d e i j ready busy le),
      )
