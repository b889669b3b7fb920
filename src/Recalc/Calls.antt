-- ===== src/Recalc/Calls.antt =====
-- Which calls a round of rt_dtask_recalculateprio makes (edfomai-drv-data.c).
use edfomai.Base.{
  ℕ, ◌≡◌, ◌≢◌, ◌↔◌, refl, subst, ◌⊎◌, inl, inr, some, List, [], ◌∷◌, ◌++◌, map, arith, pos, Items,
  pointers,
}
use edfomai.Platform.{Platform, RtTask}
use edfomai.Message.{deadline_not_set}
use edfomai.World.{World, RtDeadlineTask, ok, running}
use edfomai.Recalc.{Bounds, no_bounds, is_ready, rt_dtask_recalculateprio}
use edfomai.Recalc.Scan.{bounds_of, refreshed}
use edfomai.Recalc.Assign.{
  marked, Call, report, give, prio_of, calls_of, all_calls, run_calls, ShortNames,
}
use edfomai.Recalc.Refine.{IsTable, round, recalculateprio-round}
use edfomai.Recalc.Edf.{In}

abbrev pub Calls : Call → List Call → Type 0
Calls c [] = ⊥
Calls c (x ∷ cs) = (c ≡ x) ⊎ Calls c cs

Calls-append : (c : Call) (xs ys : List Call) → Calls c (xs ++ ys) ↔ (Calls c xs ⊎ Calls c ys)
Calls-append c [] ys = (inr, elim [ inl h ↦ absurd h | inr h ↦ h ])
Calls-append c (x ∷ xs) ys = (
  elim [
    | inl h ↦ inl (inl h)
    | inr h ↦ elim ((Calls-append c xs ys).0 h) [ inl i ↦ inl (inr i) | inr i ↦ inr i ]
  ],
  elim [
    | inl h ↦ elim h [ inl i ↦ inl i | inr i ↦ inr ((Calls-append c xs ys).1 (inl i)) ]
    | inr h ↦ inr ((Calls-append c xs ys).1 (inr h))
  ],
)

-- An entry with a deadline that it has not missed yet, and whose task runs.
abbrev pub Ready : RtDeadlineTask → Type 0
Ready d = (d.relative_deadline ≢ deadline_not_set) × (d.status ≡ ok) × (d.state ≡ running)

module _ (P : Platform) (b : Bounds) where
  -- The calls of a round are those of its entries.
  all_calls-In :
      (c : Call) (ds : List RtDeadlineTask)
      → Calls c (all_calls P b ds) ↔ ((d : RtDeadlineTask) × In d ds × Calls c (calls_of P b d))
  all_calls-In c [] = (λ h. absurd h, λ (d, i, h). absurd i)
  all_calls-In c (e ∷ ds) = (
    λ h. elim ((Calls-append c (calls_of P b e) (all_calls P b ds)).0 h) [
      | inl own ↦ (e, inl refl, own)
      | inr rest ↦ let (d, i, g) = (all_calls-In c ds).0 rest in (d, inr i, g)
    ],
    λ (d, i, g). (Calls-append c (calls_of P b e) (all_calls P b ds)).1 (elim i [
      | inl same ↦ inl (subst (λ x. Calls c (calls_of P b x)) same g)
      | inr rest ↦ inr ((all_calls-In c ds).1 (d, rest, g))
    ]),
  )

  -- The entry that asks for a priority, and what it needs for that.
  abbrev pub Given : RtTask → ℕ → RtDeadlineTask → Type 0
  Given t n d = Ready d × (d.task ≡ t) × (prio_of P b d ≡ n) × (d.task_info.cprio ≢ n)

  -- The entry that reports a missed deadline.
  abbrev pub Late : RtTask → RtDeadlineTask → Type 0
  Late t d = Ready d × (d.task ≡ t) × (d.remain ≡ 0)

  calls_of-Given :
      (t : RtTask) (n : ℕ) (d : RtDeadlineTask) → Calls (give t n) (calls_of P b d) ↔ Given t n d
  unfolding is_ready
  calls_of-Given t n d = (λ h. ground arith, λ g. ground arith)

  calls_of-Late : (t : RtTask) (d : RtDeadlineTask) → Calls (report t) (calls_of P b d) ↔ Late t d
  unfolding is_ready
  calls_of-Late t d = (λ h. ground arith, λ g. ground arith)

  all_calls_iff :
      (t : RtTask) (n : ℕ) (ds : List RtDeadlineTask)
      → (Calls (give t n) (all_calls P b ds) ↔ ((d : RtDeadlineTask) × In d ds × Given t n d))
        × (Calls (report t) (all_calls P b ds) ↔ ((d : RtDeadlineTask) × In d ds × Late t d))
  all_calls_iff t n ds = (
    (
      λ h. let (d, i, c) = (all_calls-In (give t n) ds).0 h in (d, i, (calls_of-Given t n d).0 c),
      λ (d, i, g). (all_calls-In (give t n) ds).1 (d, i, (calls_of-Given t n d).1 g),
    ),
    (
      λ h. let (d, i, c) = (all_calls-In (report t) ds).0 h in (d, i, (calls_of-Late t d).0 c),
      λ (d, i, l). (all_calls-In (report t) ds).1 (d, i, (calls_of-Late t d).1 l),
    ),
  )

  -- An entry that a round reports asks for nothing in the round after it, whenever that runs.
  pub calls_of-reported :
      (t : RtTask) (d : RtDeadlineTask) (now : ℕ) (s : P.State) (later : Bounds)
      → Calls (report t) (calls_of P b d)
      → calls_of P later (refreshed P now s (marked d)) ≡ []
  unfolding is_ready
  calls_of-reported t d now s later h = ground (arith, (calls_of-Late t d).0 h)

module _ {P : Platform} where
  open P use {rt_timer_read}

  -- On a table with items, whose entries have tasks with names of fewer than 24 characters, what
  -- rt_dtask_recalculateprio asks of the kernel after its reading of the clock is a list of calls, made
  -- in order. Once the first loop has renewed the remaining times and the known priorities, it
  -- sets the priority n of a task t exactly if an entry of t that has a deadline, has not missed it yet
  -- and runs has the computed priority n and another known one, and it reports t exactly if such an
  -- entry of t has no time left.
  pub recalculateprio-calls :
      (w : World P) (xs : Items) (ds : List RtDeadlineTask)
      → IsTable w xs ds
      → ShortNames P ds
      → xs ≢ []
      → (L : List Call) × (w' : World P) × (rt_dtask_recalculateprio w ≡ some (pos 0, w'))
        × (w'.kernel ≡ run_calls P L (rt_timer_read w.kernel).1)
        × ((t : RtTask) (n : ℕ)
            → (Calls (give t n) L ↔ (
                (d : RtDeadlineTask) × In d
                  (map (refreshed P (rt_timer_read w.kernel).0 (rt_timer_read w.kernel).1) ds)
                × Given P (bounds_of (rt_timer_read w.kernel).0 ds no_bounds) t n d))
              × (Calls (report t) L ↔ (
                  (d : RtDeadlineTask) × In d
                    (map (refreshed P (rt_timer_read w.kernel).0 (rt_timer_read w.kernel).1) ds)
                  × Late P (bounds_of (rt_timer_read w.kernel).0 ds no_bounds) t d)))
  recalculateprio-calls w xs ds is short full =
      let (now, s) = rt_timer_read w.kernel in
      let es = map (refreshed P now s) ds in
      let b = bounds_of now ds no_bounds in
      (
        all_calls P b es,
        round w (pointers xs) ds,
        recalculateprio-round w xs ds is short full,
        refl,
        λ t n. all_calls_iff P b t n es,
      )
