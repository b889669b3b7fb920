-- ===== src/Base/Names.antt =====
-- C strings as their characters, and tables from names to addresses.
use Prim.Native.Nat.{ℕ, ◌<◌}
use mathlib.Core.Path.{◌≡◌, refl}
use mathlib.Core.Bool.{Bool, true, false, ◌&&◌, ◌||◌}
use mathlib.Core.List.{List, [], ◌∷◌}
use mathlib.Core.Option.{Option, none, some}
use native.Mathlib.Omega.{arith}
use edfomai.Base.Tests.{◌==◌, if◌then◌else◌}

-- The characters before the terminating NUL.
abbrev pub Name : Type 0
Name = List ℕ

abbrev pub NoNul : Name → Type 0
NoNul [] = Unit
NoNul (c ∷ cs) = (0 < c) × NoNul cs

abbrev pub Bytes : Name → Type 0
Bytes [] = Unit
Bytes (c ∷ cs) = (c < 256) × Bytes cs

abbrev pub Ptr : Type 0
Ptr = ℕ

abbrev pub null : Ptr
null = 0

unfoldable pub name_eq : Name → Name → Bool
name_eq [] [] = true
name_eq [] (_ ∷ _) = false
name_eq (_ ∷ _) [] = false
name_eq (a ∷ xs) (b ∷ ys) = a == b && name_eq xs ys

pub name_eq_of_true : (xs ys : Name) → name_eq xs ys ≡ true → xs ≡ ys
unfolding name_eq
name_eq_of_true [] [] h = refl
name_eq_of_true [] (y ∷ ys) h = ground arith
name_eq_of_true (x ∷ xs) [] h = ground arith
name_eq_of_true (x ∷ xs) (y ∷ ys) h = ground (arith, name_eq_of_true xs ys)

pub name_eq_self : (xs : Name) → name_eq xs xs ≡ true
unfolding name_eq
name_eq_self [] = refl
name_eq_self (x ∷ xs) = ground (arith, name_eq_self xs)

abbrev pub Items : Type 0
Items = List (Name × Ptr)

unfoldable pub lookup : Name → Items → Option Ptr
lookup n [] = none
lookup n ((m, p) ∷ xs) = if name_eq m n then some p else lookup n xs

unfoldable pub remove : Ptr → Items → Items
remove q [] = []
remove q ((n, p) ∷ xs) = if p == q then xs else (n, p) ∷ remove q xs

abbrev pub has : Ptr → List Ptr → Bool
has q [] = false
has q (p ∷ ps) = p == q || has q ps

abbrev pub pointers : Items → List Ptr
pointers [] = []
pointers ((n, p) ∷ xs) = p ∷ pointers xs

abbrev pub Distinct : List Ptr → Type 0
Distinct [] = Unit
Distinct (p ∷ ps) = (has p ps ≡ false) × Distinct ps

-- Drops one occurrence of an address.
unfoldable pub release : Ptr → List Ptr → List Ptr
release q [] = []
release q (p ∷ ps) = if p == q then ps else p ∷ release q ps

-- No two items have the same name.
abbrev pub UniqueKeys : Items → Type 0
UniqueKeys [] = Unit
UniqueKeys ((n, p) ∷ xs) = (lookup n xs ≡ none) × UniqueKeys xs

pub has_self : (p : Ptr) (ps : List Ptr) → has p (p ∷ ps) ≡ true
has_self p ps = ground arith

pub release_self : (p : Ptr) (ps : List Ptr) → release p (p ∷ ps) ≡ ps
unfolding release
release_self p ps = ground arith
