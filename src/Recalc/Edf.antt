-- ===== src/Recalc/Edf.antt =====
-- The earliest-deadline-first order of the priorities that rt_dtask_recalculateprio hands out
-- (edfomai-drv-data.c).
use edfomai.Base.{
  ℕ, ◌*◌, ◌^◌, ◌≤◌, ◌<◌, ◌≡◌, refl, true, ◌⊎◌, inl, inr, List, [], ◌∷◌, arith, if◌then◌else◌,
}
use edfomai.Platform.{Platform}
use edfomai.Prio.{max_prio}
use edfomai.Prio.Order.{Window, calculate_prio_bounds, calculate_prio_antitone}
use edfomai.World.{RtDeadlineTask}
use edfomai.Recalc.{Bounds, no_bounds, is_active, remaining, widen}
use edfomai.Recalc.Scan.{bounds_of, refreshed}
use edfomai.Recalc.Assign.{prio_of}

abbrev pub In : RtDeadlineTask → List RtDeadlineTask → Type 0
In d [] = ⊥
In d (e ∷ ds) = (d ≡ e) ⊎ In d ds

-- Every active deadline is less than 2 ^ 64 / 50 ns after `now`, some eleven years.
abbrev pub Near : ℕ → List RtDeadlineTask → Type 0
Near now [] = Unit
Near now (d ∷ ds) = (is_active d ≡ true → remaining now d * 50 < 2 ^ 64) × Near now ds

step_bounds : ℕ → RtDeadlineTask → Bounds → Bounds
step_bounds now d b = if is_active d then widen (remaining now d) b else b

bounds_of-widens :
    (now : ℕ) (ds : List RtDeadlineTask) (b : Bounds)
    → ((bounds_of now ds b).min_remain ≤ b.min_remain)
      × (b.max_remain ≤ (bounds_of now ds b).max_remain)
bounds_of-widens now [] b = (omega arith, omega arith)
bounds_of-widens now (d ∷ ds) b =
    ground (arith, bounds_of-widens now ds (if is_active d then widen (remaining now d) b else b))

-- The bounds hold for every active entry.
bounds_of-In :
    (now : ℕ) (ds : List RtDeadlineTask) (b : Bounds) (d : RtDeadlineTask)
    → In d ds
    → is_active d ≡ true
    → ((bounds_of now ds b).min_remain ≤ remaining now d)
      × (remaining now d ≤ (bounds_of now ds b).max_remain)
bounds_of-In now [] b d i active = absurd i
bounds_of-In now (e ∷ ds) b d (inl same) active =
    ground (arith, bounds_of-widens now ds (if is_active e then widen (remaining now e) b else b))
bounds_of-In now (e ∷ ds) b d (inr i) active =
    bounds_of-In now ds (if is_active e then widen (remaining now e) b else b) d i active

bounds_of-Near :
    (now : ℕ) (ds : List RtDeadlineTask) (b : Bounds)
    → Near now ds
    → b.max_remain * 50 < 2 ^ 64
    → (bounds_of now ds b).max_remain * 50 < 2 ^ 64
bounds_of-Near now [] b near h = h
bounds_of-Near now (d ∷ ds) b near h =
    bounds_of-Near now ds (if is_active d then widen (remaining now d) b else b) near.1
      (ground arith)

-- A time that is below the start and every active entry is below the least time.
bounds_of-below :
    (now x : ℕ) (ds : List RtDeadlineTask) (b : Bounds)
    → x ≤ b.min_remain
    → ((d : RtDeadlineTask) → In d ds → is_active d ≡ true → x ≤ remaining now d)
    → x ≤ (bounds_of now ds b).min_remain
bounds_of-below now x [] b h all = h
bounds_of-below now x (d ∷ ds) b h all =
    bounds_of-below now x ds (if is_active d then widen (remaining now d) b else b)
      (ground (arith, all d (inl refl))) (λ e i. all e (inr i))

remaining_mono :
    (now : ℕ) (d e : RtDeadlineTask) → d.deadline ≤ e.deadline → remaining now d ≤ remaining now e
unfolding remaining
remaining_mono now d e h = ground arith

module _ (P : Platform) (now : ℕ) (s : P.State) (ds : List RtDeadlineTask) where
  -- The priority of an entry in a round at the time `now`.
  abbrev pub round_prio : RtDeadlineTask → ℕ
  round_prio d = prio_of P (bounds_of now ds no_bounds) (refreshed P now s d)

  module _ (near : Near now ds) where
    window :
        (d : RtDeadlineTask)
        → In d ds
        → is_active d ≡ true
        → Window
            (bounds_of now ds no_bounds).min_remain
            (refreshed P now s d).remain
            (bounds_of now ds no_bounds).max_remain
    window d i active = rw active (
        omega (
          arith,
          bounds_of-In now ds no_bounds d i active,
          bounds_of-Near now ds no_bounds near (omega arith),
        ))

    -- When every active deadline is less than 2 ^ 64 / 50 ns away, then of two active tasks of a
    -- round the one with the earlier deadline gets no lower priority.
    pub round_prio_edf :
        (d e : RtDeadlineTask)
        → In d ds
        → In e ds
        → is_active d ≡ true
        → is_active e ≡ true
        → d.deadline ≤ e.deadline
        → round_prio e ≤ round_prio d
    round_prio_edf d e i j active busy le =
        calculate_prio_antitone P.div (window d i active) (window e j busy)
          (rw (active, busy) (remaining_mono now d e le))

    -- When every active deadline is less than 2 ^ 64 / 50 ns away, every active task of a round gets
    -- a priority of at most 50, and one whose deadline no active task precedes gets 50.
    pub round_prio-earliest :
        (d : RtDeadlineTask)
        → In d ds
        → is_active d ≡ true
        → (round_prio d ≤ max_prio)
          × (((e : RtDeadlineTask) → In e ds → is_active e ≡ true → d.deadline ≤ e.deadline)
              → round_prio d ≡ max_prio)
    round_prio-earliest d i active =
        let w = window d i active in
        let bounds = calculate_prio_bounds P.div w in
        let inside = bounds_of-In now ds no_bounds d i active in
        let far = bounds_of-Near now ds no_bounds near (omega arith) in
        (
          bounds.0,
          λ first. bounds.1 (
              rw active (
                omega (
                  arith,
                  inside,
                  bounds_of-below now (remaining now d) ds no_bounds (omega (arith, inside, far))
                      (λ e j busy. remaining_mono now d e (first e j busy)),
                ))),
        )
