-- ===== src/Dtask/Owned.antt =====
-- The blocks that remain when an entry leaves the table of edfomai-drv-data.c.
use edfomai.Base.{
  ◌≡◌, ◌≢◌, refl, ap, ◌∙◌, has_self, true, false, none, some, List, [], ◌∷◌, arith, ◌==◌,
  if◌then◌else◌, Ptr, null, Name, Items, lookup, remove, release, has, Distinct, pointers,
  UniqueKeys, Bool-cases, inl, inr,
}
use edfomai.Platform.{Platform}
use edfomai.World.{RtDeadlineTask, Blocks}
use edfomai.Recalc.Holds.{Holds}
use edfomai.Dtask.Valid.{Named, owned}

-- The entries without that at `p`.
abbrev pub without : Ptr → Items → List RtDeadlineTask → List RtDeadlineTask
without p [] ds = []
without p ((n, q) ∷ xs) [] = []
without p ((n, q) ∷ xs) (d ∷ ds) = if q == p then ds else d ∷ without p xs ds

pub has-release : (p q : Ptr) (ps : List Ptr) → (p == q) ≡ false → has q (release p ps) ≡ has q ps
unfolding release
has-release p q [] ne = refl
has-release p q (x ∷ ps) ne = ground (arith, has-release p q ps)

pub release-Distinct : (p : Ptr) (ps : List Ptr) → Distinct ps → Distinct (release p ps)
unfolding release
release-Distinct p [] h = tt
release-Distinct p (x ∷ ps) h = elim (Bool-cases (x == p)) [
  | inl e ↦ rw e h.1
  | inr e ↦ rw e (ground (arith, has-release p x ps, h.0), release-Distinct p ps h.1)
]

pub release-gone : (p : Ptr) (ps : List Ptr) → Distinct ps → has p (release p ps) ≡ false
unfolding release
release-gone p [] h = refl
release-gone p (x ∷ ps) h = ground (arith, h, release-gone p ps)

remove-sub :
    (p q : Ptr) (xs : Items) → has q (pointers xs) ≡ false → has q (pointers (remove p xs)) ≡ false
unfolding remove
remove-sub p q [] h = refl
remove-sub p q ((n, r) ∷ xs) h = ground (arith, remove-sub p q xs)

pub remove-Distinct :
    (p : Ptr) (xs : Items) → Distinct (pointers xs) → Distinct (pointers (remove p xs))
unfolding remove
remove-Distinct p [] h = tt
remove-Distinct p ((n, q) ∷ xs) h = elim (Bool-cases (q == p)) [
  | inl e ↦ rw e h.1
  | inr e ↦ rw e (remove-sub p q xs h.0, remove-Distinct p xs h.1)
]

lookup-remove :
    (n : Name) (p : Ptr) (xs : Items) → lookup n xs ≡ none → lookup n (remove p xs) ≡ none
unfolding lookup remove
lookup-remove n p [] h = refl
lookup-remove n p ((m, q) ∷ xs) h = ground (arith, lookup-remove n p xs)

pub remove-UniqueKeys : (p : Ptr) (xs : Items) → UniqueKeys xs → UniqueKeys (remove p xs)
unfolding remove
remove-UniqueKeys p [] h = tt
remove-UniqueKeys p ((n, q) ∷ xs) h = elim (Bool-cases (q == p)) [
  | inl e ↦ rw e h.1
  | inr e ↦ rw e (lookup-remove n p xs h.0, remove-UniqueKeys p xs h.1)
]

Named-nil : (P : Platform) (xs : Items) → Named P xs []
Named-nil P [] = tt
Named-nil P (x ∷ xs) = tt

owned-nil : (xs : Items) (q : Ptr) → has q (owned xs []) ≡ false
owned-nil [] q = refl
owned-nil (x ∷ xs) q = refl

pub without-Named :
    (P : Platform) (p : Ptr) (xs : Items) (ds : List RtDeadlineTask)
    → Named P xs ds
    → Named P (remove p xs) (without p xs ds)
unfolding remove
without-Named P p [] ds h = tt
without-Named P p ((n, q) ∷ xs) [] h = elim (Bool-cases (q == p)) [
  | inl e ↦ rw e (Named-nil P xs)
  | inr e ↦ rw e tt
]
without-Named P p ((n, q) ∷ xs) (d ∷ ds) h = elim (Bool-cases (q == p)) [
  | inl e ↦ rw e h.2
  | inr e ↦ rw e (h.0, h.1, without-Named P p xs ds h.2)
]

-- What is owned afterwards was owned before.
pub owned-sub :
    (p q : Ptr) (xs : Items) (ds : List RtDeadlineTask)
    → has q (owned xs ds) ≡ false
    → has q (owned (remove p xs) (without p xs ds)) ≡ false
unfolding remove
owned-sub p q [] ds h = refl
owned-sub p q ((n, r) ∷ xs) [] h = owned-nil (remove p ((n, r) ∷ xs)) q
owned-sub p q ((n, r) ∷ xs) (d ∷ ds) h = ground (arith, owned-sub p q xs ds)

-- An entry owns its block and that of its alarm.
pub owned-entry :
    (f : Blocks) (p : Ptr) (d : RtDeadlineTask) (xs : Items) (ds : List RtDeadlineTask)
    → Holds f (pointers xs) ds
    → f p ≡ some d
    → has p (pointers xs) ≡ true
    → (has p (owned xs ds) ≡ true) × (d.watchd ≢ null → has d.watchd (owned xs ds) ≡ true)
owned-entry f p d [] ds h at_p i = ground arith
owned-entry f p d ((n, q) ∷ xs) [] h at_p i = absurd h
owned-entry f p d ((n, q) ∷ xs) (x ∷ ds) h at_p i = elim (Bool-cases (q == p)) [
  | inl e ↦ (ground arith, λ ne. ground arith)
  | inr e ↦
      let (own, alarm) = owned-entry f p d xs ds h.1 at_p (ground arith) in
      (ground arith, λ ne. ground (arith, alarm ne))
]

Holds-same :
    (f g : Blocks) (ps : List Ptr) (ds : List RtDeadlineTask)
    → Holds f ps ds
    → ((q : Ptr) → has q ps ≡ true → g q ≡ f q)
    → Holds g ps ds
Holds-same f g [] [] h same = tt
Holds-same f g [] (d ∷ ds) h same = absurd h
Holds-same f g (p ∷ ps) [] h same = absurd h
Holds-same f g (p ∷ ps) (d ∷ ds) h same =
    (same p (has_self p ps) ∙ h.0, Holds-same f g ps ds h.1 λ q i. same q (ground arith))

pub without-Holds :
    (f g : Blocks) (p : Ptr) (xs : Items) (ds : List RtDeadlineTask)
    → Holds f (pointers xs) ds
    → ((q : Ptr) → has q (pointers (remove p xs)) ≡ true → g q ≡ f q)
    → Distinct (pointers xs)
    → Holds g (pointers (remove p xs)) (without p xs ds)
unfolding remove
without-Holds f g p [] [] h same apart = tt
without-Holds f g p [] (d ∷ ds) h same apart = absurd h
without-Holds f g p ((n, q) ∷ xs) [] h same apart = absurd h
without-Holds f g p ((n, q) ∷ xs) (d ∷ ds) h same apart = elim (Bool-cases (q == p)) [
  | inl e ↦ rw e (Holds-same f g (pointers xs) ds h.1 λ r i. same r (rw e i))
  | inr e ↦ rw e (
    same q (rw e (has_self q (pointers (remove p xs)))) ∙ h.0,
    without-Holds f g p xs ds h.1 (λ r i. same r (rw e (ground arith))) apart.1,
  )
]

-- The blocks of one entry before the others.
abbrev pub with_alarm : Ptr → Ptr → List Ptr → List Ptr
with_alarm q a ps = q ∷ (if a == null then ps else a ∷ ps)

pub with_alarm-parts :
    (q a : Ptr) (ps : List Ptr)
    → Distinct (with_alarm q a ps)
    → (has q ps ≡ false) × (a ≢ null → (has a ps ≡ false) × ((a == q) ≡ false)) × Distinct ps
with_alarm-parts q a ps h = elim (Bool-cases (a == null)) [
  | inl e ↦ let k : Distinct (q ∷ ps) = rw e at h in (k.0, λ ne. ground arith, k.1)
  | inr e ↦
      let k : Distinct (q ∷ a ∷ ps) = rw e at h in
      (ground (arith, k.0), λ ne. (k.1.0, ground (arith, k.0)), k.1.1)
]

pub with_alarm-Distinct :
    (q a : Ptr) (ps : List Ptr)
    → has q ps ≡ false
    → (a ≢ null → (has a ps ≡ false) × ((a == q) ≡ false))
    → Distinct ps
    → Distinct (with_alarm q a ps)
with_alarm-Distinct q a ps out alarm s = elim (Bool-cases (a == null)) [
  | inl e ↦ rw e (out, s)
  | inr e ↦
      let ne : a ≢ null = λ z. ground arith in
      rw e (ground (arith, out, alarm ne), ((alarm ne).0, s))
]

-- The blocks of the entry that leaves are not owned afterwards.
pub owned-gone :
    (f : Blocks) (p : Ptr) (d : RtDeadlineTask) (xs : Items) (ds : List RtDeadlineTask)
    → Holds f (pointers xs) ds
    → f p ≡ some d
    → has p (pointers xs) ≡ true
    → Distinct (owned xs ds)
    → (has p (owned (remove p xs) (without p xs ds)) ≡ false)
      × (d.watchd ≢ null → has d.watchd (owned (remove p xs) (without p xs ds)) ≡ false)
      × Distinct (owned (remove p xs) (without p xs ds))
unfolding remove
owned-gone f p d [] ds h at_p i s = ground arith
owned-gone f p d ((n, q) ∷ xs) [] h at_p i s = absurd h
owned-gone f p d ((n, q) ∷ xs) (x ∷ ds) h at_p i s =
    let (out, alarm_out, rest) = with_alarm-parts q x.watchd (owned xs ds) s in
    elim (Bool-cases (q == p)) [
      | inl e ↦
          let same : d ≡ x = ground (arith, h.0) in
          let alarm_same : d.watchd ≡ x.watchd = ap (λ (y : RtDeadlineTask). y.watchd) same in
          rw e (ground arith, λ ne. rw alarm_same (alarm_out (rw alarm_same at ne)).0, rest)
      | inr e ↦
          let (own, alarm) = owned-entry f p d xs ds h.1 at_p (ground arith) in
          let (gone, alarm_gone, left) = owned-gone f p d xs ds h.1 at_p (ground arith) rest in
          rw e (
            ground (arith, alarm_out),
            λ ne. ground (arith, alarm_out, alarm ne, alarm_gone ne),
            with_alarm-Distinct q x.watchd (owned (remove p xs) (without p xs ds))
                (owned-sub p q xs ds out)
                (λ ne. (owned-sub p x.watchd xs ds (alarm_out ne).0, (alarm_out ne).1)) left,
          )
    ]

pub pointers-owned :
    (f : Blocks) (q : Ptr) (xs : Items) (ds : List RtDeadlineTask)
    → Holds f (pointers xs) ds
    → has q (pointers xs) ≡ true
    → has q (owned xs ds) ≡ true
pointers-owned f q [] ds h i = ground arith
pointers-owned f q ((n, p) ∷ xs) [] h i = absurd h
pointers-owned f q ((n, p) ∷ xs) (d ∷ ds) h i = ground (arith, pointers-owned f q xs ds h.1)

-- The alarm's block is not that of its entry.
pub alarm-apart :
    (f : Blocks) (p : Ptr) (d : RtDeadlineTask) (xs : Items) (ds : List RtDeadlineTask)
    → Holds f (pointers xs) ds
    → f p ≡ some d
    → has p (pointers xs) ≡ true
    → Distinct (owned xs ds)
    → d.watchd ≢ null
    → (d.watchd == p) ≡ false
alarm-apart f p d [] ds h at_p i s ne = ground arith
alarm-apart f p d ((n, q) ∷ xs) [] h at_p i s ne = absurd h
alarm-apart f p d ((n, q) ∷ xs) (x ∷ ds) h at_p i s ne =
    let (out, alarm_out, rest) = with_alarm-parts q x.watchd (owned xs ds) s in
    elim (Bool-cases (q == p)) [
      | inl e ↦
          let same : d ≡ x = ground (arith, h.0) in
          let alarm_same : d.watchd ≡ x.watchd = ap (λ (y : RtDeadlineTask). y.watchd) same in
          ground (arith, alarm_same, (alarm_out (rw alarm_same at ne)).1)
      | inr e ↦ alarm-apart f p d xs ds h.1 at_p (ground arith) rest ne
    ]
