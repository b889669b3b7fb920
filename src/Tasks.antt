-- ===== src/Tasks.antt =====
-- Tasks that interleave, as in mars_rover.c and the programs of exercise-xenomai: a step of the system
-- is a step of one of its actors, and a task that waits for a semaphore cannot step.
use edfomai.Base.{
  ℕ, zero, suc, ◌+◌, ◌<◌, ◌≤◌, ◌≡◌, refl, subst, Option, none, some, List, [], ◌∷◌, inl, inr,
  length, arith, Option-cases,
}

-- rt_sem_p without a timeout, on a semaphore's value: the task cannot go on at 0.
abbrev pub sem_p : {S : Type 0} → ℕ → (ℕ → S) → Option S
sem_p zero taken = none
sem_p (suc n) taken = some (taken n)

-- What holds of the state after a step, if there is one.
abbrev Then : {S : Type 0} → (S → Type 0) → Option S → Type 0
Then P none = Unit
Then P (some s) = P s

pub pos_suc : (n : ℕ) → 0 < n → (m : ℕ) × (n ≡ suc m)
pos_suc zero h = absurd (omega arith)
pos_suc (suc m) h = (m, refl)

module _ {S : Type 0} where
  -- A task that gets past rt_sem_p took one.
  pub sem_p_lem :
      (n : ℕ) (f : ℕ → S) (s : S)
      → sem_p n f ≡ some s
      → (m : ℕ) × (n ≡ suc m) × (some (f m) ≡ some s)
  sem_p_lem zero f s e = cc
  sem_p_lem (suc n) f s e = (n, refl, e)

  -- A fact about the state that a step is computed to.
  pub moved : (P : S → Type 0) {s t : S} → some s ≡ some t → P s → P t
  moved P e p = subst (Then P) e p

module _ {A S : Type 0} (step : A → S → Option S) where
  -- A run of the actors in the given order; `none` when one of them cannot step at its turn.
  unfoldable pub run : List A → S → Option S
  run [] s = some s
  run (a ∷ rest) s = elim (step a s) [ none ↦ none | some t ↦ run rest t ]

  -- The states that some interleaving reaches.
  pub data Reached (start : S) : S → Type 0 where
    at_start : Reached start start
    after : (s t : S) (a : A) → Reached start s → step a s ≡ some t → Reached start t

  pub Reached-trans : {r s t : S} → Reached r s → Reached s t → Reached r t
  Reached-trans first at_start = first
  Reached-trans first (after s t a rest e) = after s t a (Reached-trans first rest) e

  -- What holds at the start and is kept by every step holds in every reached state.
  pub Reached_ind :
      (P : S → Type 0)
      → ((a : A) (s t : S) → step a s ≡ some t → P s → P t)
      → {start s : S} → P start
      → Reached start s
      → P s
  Reached_ind P keep h at_start = h
  Reached_ind P keep h (after s t a r e) = keep a s t e (Reached_ind P keep h r)

  -- A run from a reached state ends in a reached one.
  pub run-Reached :
      (actors : List A) {start s t : S} → Reached start s → run actors s ≡ some t → Reached start t
  unfolding run
  run-Reached [] {start} r e = moved (Reached start) e r
  run-Reached (a ∷ rest) {start} {s} {t} r e = elim (Option-cases (step a s)) [
    | inl stuck ↦ absurd (let e' = rw (run, stuck) at e in cc)
    | inr (m, went) ↦ run-Reached rest (after s m a r went) (rw (run, went) at e)
  ]

  -- A measure that every step lowers by one counts the steps of a run.
  pub run_measure :
      (P : S → Type 0) (left : S → ℕ)
      → ((a : A) (s t : S) → step a s ≡ some t → P s → P t × (left t + 1 ≡ left s))
      → (actors : List A) (s t : S) → P s
      → run actors s ≡ some t
      → P t × (length actors + left t ≡ left s)
  unfolding run
  run_measure P left one [] s t v e = moved (λ t. P t × (0 + left t ≡ left s)) e (v, omega arith)
  run_measure P left one (a ∷ rest) s t v e = elim (Option-cases (step a s)) [
    | inl stuck ↦ absurd (let e' = rw (run, stuck) at e in cc)
    | inr (m, went) ↦
        let (v', lower) = one a s m went v in
        let (w, more) = run_measure P left one rest m t v' (rw (run, went) at e) in (w, omega arith)
  ]

  -- A measure that every step lowers bounds the length of a run.
  pub run_bound :
      (P : S → Type 0) (left : S → ℕ)
      → ((a : A) (s t : S) → step a s ≡ some t → P s → P t × (left t < left s))
      → (actors : List A) (s t : S) → P s
      → run actors s ≡ some t
      → P t × (length actors + left t ≤ left s)
  unfolding run
  run_bound P left less [] s t v e = moved (λ t. P t × (0 + left t ≤ left s)) e (v, omega arith)
  run_bound P left less (a ∷ rest) s t v e = elim (Option-cases (step a s)) [
    | inl stuck ↦ absurd (let e' = rw (run, stuck) at e in cc)
    | inr (m, went) ↦
        let (v', lower) = less a s m went v in
        let (w, more) = run_bound P left less rest m t v' (rw (run, went) at e) in (w, omega arith)
  ]
