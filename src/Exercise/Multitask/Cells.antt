-- ===== src/Exercise/Multitask/Cells.antt =====
-- What a write to one cell leaves in the others.
use edfomai.Base.{
  ℕ, zero, suc, ◌+◌, ◌<◌, ◌≡◌, refl, some, List, [], ◌∷◌, ◌⊎◌, inl, inr, arith, length, get_elem?,
  get_or, set, replicate,
}

module _ {ℓ} {A : Type ℓ} where
  pub get_elem?-set :
      (xs : List A) (i j : ℕ) (v w : A)
      → get_elem? (set xs i v) j ≡ some w
      → ((j ≡ i) × (w ≡ v)) ⊎ (get_elem? xs j ≡ some w)
  get_elem?-set [] i j v w e = inr e
  get_elem?-set (x ∷ xs) zero zero v w e = inl (refl, cc)
  get_elem?-set (x ∷ xs) zero (suc j) v w e = inr e
  get_elem?-set (x ∷ xs) (suc i) zero v w e = inr e
  get_elem?-set (x ∷ xs) (suc i) (suc j) v w e = elim (get_elem?-set xs i j v w e) [
    | inl (a, b) ↦ inl (omega arith, b)
    | inr c ↦ inr c
  ]

  pub get_elem?-set_self :
      (xs : List A) (i : ℕ) (v w : A) → get_elem? xs i ≡ some w → get_elem? (set xs i v) i ≡ some v
  get_elem?-set_self [] i v w e = cc
  get_elem?-set_self (x ∷ xs) zero v w e = refl
  get_elem?-set_self (x ∷ xs) (suc i) v w e = get_elem?-set_self xs i v w e

  pub get_elem?-some : (xs : List A) (i : ℕ) → i < length xs → (x : A) × (get_elem? xs i ≡ some x)
  get_elem?-some [] i h = absurd (omega arith)
  get_elem?-some (x ∷ xs) zero h = (x, refl)
  get_elem?-some (x ∷ xs) (suc i) h = get_elem?-some xs i (omega arith)

  pub get_elem?-replicate : (n k : ℕ) (v w : A) → get_elem? (replicate n v) k ≡ some w → w ≡ v
  get_elem?-replicate zero k v w e = cc
  get_elem?-replicate (suc n) zero v w e = cc
  get_elem?-replicate (suc n) (suc k) v w e = get_elem?-replicate n k v w e

  pub get_or-set : (xs : List A) (i : ℕ) (v d : A) → i < length xs → get_or (set xs i v) i d ≡ v
  get_or-set [] i v d h = absurd (omega arith)
  get_or-set (x ∷ xs) zero v d h = refl
  get_or-set (x ∷ xs) (suc i) v d h = get_or-set xs i v d (omega arith)

  -- Another cell keeps what it has.
  pub get_or-set_other :
      (xs : List A) (i j : ℕ) (v d : A)
      → (get_or (set xs i v) j d ≡ get_or xs j d) ⊎ ((j ≡ i) × (i < length xs))
  get_or-set_other [] i j v d = inl refl
  get_or-set_other (x ∷ xs) zero zero v d = inr (refl, omega arith)
  get_or-set_other (x ∷ xs) zero (suc j) v d = inl refl
  get_or-set_other (x ∷ xs) (suc i) zero v d = inl refl
  get_or-set_other (x ∷ xs) (suc i) (suc j) v d = elim (get_or-set_other xs i j v d) [
    | inl a ↦ inl a
    | inr (b, c) ↦ inr (omega arith, omega arith)
  ]

  -- The sum of a measure of the cells.
  abbrev pub sum_of : (A → ℕ) → List A → ℕ
  sum_of f [] = 0
  sum_of f (x ∷ xs) = f x + sum_of f xs

  pub sum_of-set :
      (f : A → ℕ) (xs : List A) (i : ℕ) (v w : A)
      → get_elem? xs i ≡ some w
      → sum_of f (set xs i v) + f w ≡ sum_of f xs + f v
  sum_of-set f [] i v w e = cc
  sum_of-set f (x ∷ xs) zero v w e = let same : x ≡ w = cc in rw same (omega arith)
  sum_of-set f (x ∷ xs) (suc i) v w e = omega (arith, sum_of-set f xs i v w e)

  pub sum_of-set_same :
      (f : A → ℕ) (xs : List A) (i : ℕ) (v : A)
      → ((w : A) → get_elem? xs i ≡ some w → f w ≡ f v)
      → sum_of f (set xs i v) ≡ sum_of f xs
  sum_of-set_same f [] i v h = refl
  sum_of-set_same f (x ∷ xs) zero v h = omega (arith, h x refl)
  sum_of-set_same f (x ∷ xs) (suc i) v h = omega (arith, sum_of-set_same f xs i v h)
