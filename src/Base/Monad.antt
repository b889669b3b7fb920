-- ===== src/Base/Monad.antt =====
-- State with failure: `none` is a fault, such as an access through NULL.
use mathlib.Core.Option.{Option, none, some}
use mathlib.Core.List.{List, [], ◌∷◌}

abbrev pub M : Type 0 → Type 0 → Type 0
M S A = S → Option (A × S)

module _ {S : Type 0} where
  abbrev pub pure : {A : Type 0} → A → M S A
  pure a s = some (a, s)

  abbrev pub fault : {A : Type 0} → M S A
  fault s = none

  abbrev pub and_then : {A B : Type 0} → Option (A × S) → (A → M S B) → Option (B × S)
  and_then none f = none
  and_then (some (a, s)) f = f a s

  infixl 5 ◌>>=◌ ◌>>◌
  abbrev pub ◌>>=◌ : {A B : Type 0} → M S A → (A → M S B) → M S B
  m >>= f = λ s. and_then (m s) f

  abbrev pub ◌>>◌ : {B : Type 0} → M S (Unit {0}) → M S B → M S B
  m >> k = m >>= λ _. k

  -- `HASH_ITER` and its like: the body at each element, in order.
  unfoldable pub for_each : {A : Type 0} → List A → (A → M S (Unit {0})) → M S (Unit {0})
  for_each [] body s = some (tt, s)
  for_each (a ∷ xs) body s = and_then (body a s) (λ _. for_each xs body)

  -- The same with variables that the body updates.
  unfoldable pub fold_each : {A B : Type 0} → List A → (A → B → M S B) → B → M S B
  fold_each [] body b s = some (b, s)
  fold_each (a ∷ xs) body b s = and_then (body a b s) (λ b'. fold_each xs body b')
