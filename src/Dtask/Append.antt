-- ===== src/Dtask/Append.antt =====
-- The table of edfomai-drv-data.c with one more entry at its end, as HASH_ADD_STR leaves it.
use edfomai.Base.{
  ◌≡◌, ◌≢◌, refl, Bool, true, false, ◌&&◌, ◌||◌, not, none, some, List, [], ◌∷◌, ◌++◌, arith, ◌==◌,
  Ptr, null, Name, Items, lookup, has, Distinct, pointers, UniqueKeys, name_eq,
}
use edfomai.Platform.{Platform}
use edfomai.World.{RtDeadlineTask, Blocks}
use edfomai.Recalc.Holds.{Holds}
use edfomai.Recalc.Assign.{ShortNames}
use edfomai.Dtask.Valid.{Named, owned}
use edfomai.Dtask.Owned.{with_alarm-parts, with_alarm-Distinct}

has-pointers :
    (q p : Ptr) (n : Name) (xs : Items)
    → has q (pointers (xs ++ (n, p) ∷ [])) ≡ (has q (pointers xs) || p == q)
has-pointers q p n [] = ground arith
has-pointers q p n ((m, r) ∷ xs) = ground (arith, has-pointers q p n xs)

pub append-apart :
    (p : Ptr) (n : Name) (xs : Items)
    → has p (pointers xs) ≡ false
    → Distinct (pointers xs)
    → Distinct (pointers (xs ++ (n, p) ∷ []))
append-apart p n [] out h = (refl, tt)
append-apart p n ((m, r) ∷ xs) out h =
    (ground (arith, has-pointers r p n xs, h.0), append-apart p n xs (ground arith) h.1)

pub append-Holds :
    (f : Blocks) (p : Ptr) (n : Name) (d : RtDeadlineTask) (xs : Items) (ds : List RtDeadlineTask)
    → f p ≡ some d
    → Holds f (pointers xs) ds
    → Holds f (pointers (xs ++ (n, p) ∷ [])) (ds ++ d ∷ [])
append-Holds f p n d [] [] at_p h = (at_p, tt)
append-Holds f p n d [] (x ∷ ds) at_p h = absurd h
append-Holds f p n d ((m, r) ∷ xs) [] at_p h = absurd h
append-Holds f p n d ((m, r) ∷ xs) (x ∷ ds) at_p h = (h.0, append-Holds f p n d xs ds at_p h.1)

name_eq_sym : (xs ys : Name) → name_eq xs ys ≡ name_eq ys xs
unfolding name_eq
name_eq_sym [] [] = refl
name_eq_sym [] (y ∷ ys) = refl
name_eq_sym (x ∷ xs) [] = refl
name_eq_sym (x ∷ xs) (y ∷ ys) = ground (arith, name_eq_sym xs ys)

lookup-append :
    (m n : Name) (p : Ptr) (xs : Items)
    → lookup m xs ≡ none
    → name_eq n m ≡ false
    → lookup m (xs ++ (n, p) ∷ []) ≡ none
unfolding lookup
lookup-append m n p [] h e = ground arith
lookup-append m n p ((k, r) ∷ xs) h e = ground (arith, lookup-append m n p xs)

pub append-UniqueKeys :
    (n : Name) (p : Ptr) (xs : Items)
    → lookup n xs ≡ none
    → UniqueKeys xs
    → UniqueKeys (xs ++ (n, p) ∷ [])
unfolding lookup
append-UniqueKeys n p [] out h = (refl, tt)
append-UniqueKeys n p ((m, r) ∷ xs) out h = (
  lookup-append m n p xs h.0 (ground (arith, name_eq_sym n m)),
  append-UniqueKeys n p xs (ground arith) h.1,
)

pub append-Named :
    (P : Platform) (f : Blocks) (p : Ptr) (d : RtDeadlineTask) (xs : Items)
    (ds : List RtDeadlineTask)
    → d.task_info.name ≡ P.rname d.task
    → Holds f (pointers xs) ds
    → Named P xs ds
    → Named P (xs ++ (P.rname d.task, p) ∷ []) (ds ++ d ∷ [])
append-Named P f p d [] [] e h named = (e, refl, tt)
append-Named P f p d [] (x ∷ ds) e h named = absurd h
append-Named P f p d ((m, r) ∷ xs) [] e h named = absurd h
append-Named P f p d ((m, r) ∷ xs) (x ∷ ds) e h named =
    (named.0, named.1, append-Named P f p d xs ds e h.1 named.2)

pub append-ShortNames :
    (P : Platform) (d : RtDeadlineTask) (ds : List RtDeadlineTask)
    → ShortNames P ds
    → ShortNames P (d ∷ [])
    → ShortNames P (ds ++ d ∷ [])
append-ShortNames P d [] h last = last
append-ShortNames P d (x ∷ ds) h last = (h.0, append-ShortNames P d ds h.1 last)

-- The blocks of the new entry are owned in addition.
pub has-append :
    (f : Blocks) (q p : Ptr) (n : Name) (d : RtDeadlineTask) (xs : Items) (ds : List RtDeadlineTask)
    → Holds f (pointers xs) ds
    → has q (owned (xs ++ (n, p) ∷ []) (ds ++ d ∷ []))
      ≡ (has q (owned xs ds) || (p == q || (not (d.watchd == null) && d.watchd == q)))
has-append f q p n d [] [] h = ground arith
has-append f q p n d [] (x ∷ ds) h = absurd h
has-append f q p n d ((m, r) ∷ xs) [] h = absurd h
has-append f q p n d ((m, r) ∷ xs) (x ∷ ds) h = ground (arith, has-append f q p n d xs ds h.1)

-- A new entry is one whose blocks differ from those owned.
abbrev pub is_block : Ptr → RtDeadlineTask → Ptr → Bool
is_block p d q = p == q || (not (d.watchd == null) && d.watchd == q)

pub append-single :
    (f : Blocks) (p : Ptr) (n : Name) (d : RtDeadlineTask) (xs : Items) (ds : List RtDeadlineTask)
    → Holds f (pointers xs) ds
    → ((q : Ptr) → has q (owned xs ds) ≡ true → is_block p d q ≡ false)
    → (d.watchd ≢ null → (d.watchd == p) ≡ false)
    → Distinct (owned xs ds)
    → Distinct (owned (xs ++ (n, p) ∷ []) (ds ++ d ∷ []))
append-single f p n d [] [] h new alarm s =
    with_alarm-Distinct p d.watchd [] refl (λ ne. (refl, alarm ne)) tt
append-single f p n d [] (x ∷ ds) h new alarm s = absurd h
append-single f p n d ((m, r) ∷ xs) [] h new alarm s = absurd h
append-single f p n d ((m, r) ∷ xs) (x ∷ ds) h new alarm s =
    let (apart, apart_alarm, rest) = with_alarm-parts r x.watchd (owned xs ds) s in
    let also = λ (q : Ptr). has-append f q p n d xs ds h.1 in
    with_alarm-Distinct r x.watchd (owned (xs ++ (n, p) ∷ []) (ds ++ d ∷ []))
      (ground (arith, also r, apart, new r (ground arith)))
      (λ ne. (
        ground (arith, also x.watchd, apart_alarm ne, new x.watchd (ground arith)),
        (apart_alarm ne).1,
      ))
      (append-single f p n d xs ds h.1 (λ q i. new q (ground arith)) alarm rest)
