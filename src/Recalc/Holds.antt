-- ===== src/Recalc/Holds.antt =====
-- The entries behind a list of addresses, and a change of all of them (edfomai-drv-data.c walks the
-- table by HASH_ITER and changes each entry in place).
use mathlib.Core.Path.{fun_ext}
use mathlib.Core.Option
use edfomai.Base.{
  ◌≡◌, true, false, Option, some, List, [], ◌∷◌, map, arith, if◌then◌else◌, Ptr, has,
}
use edfomai.World.{RtDeadlineTask, Blocks, update}

-- The addresses hold these entries, in order.
abbrev pub Holds : Blocks → List Ptr → List RtDeadlineTask → Type 0
Holds f [] [] = Unit
Holds f [] (d ∷ ds) = ⊥
Holds f (p ∷ ps) [] = ⊥
Holds f (p ∷ ps) (d ∷ ds) = (f p ≡ some d) × Holds f ps ds

-- Every entry at one of the addresses is changed by `g`, and no other.
abbrev pub touched : (RtDeadlineTask → RtDeadlineTask) → List Ptr → Blocks → Blocks
touched g ps f q = if has q ps then Option.map g (f q) else f q

pub Holds-update :
    (f : Blocks) (p : Ptr) (v : Option RtDeadlineTask) (ps : List Ptr) (ds : List RtDeadlineTask)
    → has p ps ≡ false
    → Holds f ps ds
    → Holds (update f p v) ps ds
Holds-update f p v [] [] out h = tt
Holds-update f p v [] (d ∷ ds) out h = h
Holds-update f p v (q ∷ ps) [] out h = h
Holds-update f p v (q ∷ ps) (d ∷ ds) out h =
    (ground arith, Holds-update f p v ps ds (ground arith) h.1)

pub update_self :
    (f : Blocks) (p : Ptr) (d : RtDeadlineTask) → f p ≡ some d → update f p (some d) ≡ f
update_self f p d e = fun_ext λ q. ground arith

pub touched-update :
    (g : RtDeadlineTask → RtDeadlineTask) (f : Blocks) (p : Ptr) (d : RtDeadlineTask)
    (ps : List Ptr)
    → f p ≡ some d
    → has p ps ≡ false
    → touched g ps (update f p (some (g d))) ≡ touched g (p ∷ ps) f
touched-update g f p d ps e out = fun_ext λ q. ground arith

pub touched-touched :
    (g h : RtDeadlineTask → RtDeadlineTask) (ps : List Ptr) (f : Blocks)
    → touched h ps (touched g ps f) ≡ touched (λ d. h (g d)) ps f
touched-touched g h ps f = fun_ext λ q. ground arith

pub Holds-touched :
    (g : RtDeadlineTask → RtDeadlineTask) (f : Blocks) (all : List Ptr) (ps : List Ptr)
    (ds : List RtDeadlineTask)
    → ((q : Ptr) → has q ps ≡ true → has q all ≡ true)
    → Holds f ps ds
    → Holds (touched g all f) ps (map g ds)
Holds-touched g f all [] [] sub h = tt
Holds-touched g f all [] (d ∷ ds) sub h = absurd h
Holds-touched g f all (p ∷ ps) [] sub h = absurd h
Holds-touched g f all (p ∷ ps) (d ∷ ds) sub h =
    (ground (arith, sub p), Holds-touched g f all ps ds (λ q i. sub q (ground arith)) h.1)
