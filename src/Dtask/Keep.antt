-- ===== src/Dtask/Keep.antt =====
-- Changes of entries that keep the invariant of the table of edfomai-drv-data.c.
use edfomai.Base.{
  ℕ, ◌≡◌, refl, sym, ap, ◌∙◌, true, none, some, List, [], ◌∷◌, map, arith, ◌==◌, Ptr, Name, Items,
  lookup, name_eq, name_eq_of_true, has, Distinct, pointers, Bool-cases, inl, inr,
}
use edfomai.Platform.{Platform, Inquiry, filled, refused}
use edfomai.World.{World, RtDeadlineTask, Blocks, update}
use edfomai.Recalc.Holds.{Holds, Holds-update, Holds-touched}
use edfomai.Recalc.Refine.{round}
use edfomai.Recalc.Scan.{refreshed, info_after}
use edfomai.Recalc.Assign.{marked}
use edfomai.Dtask.Valid.{Named, owned, IsValid}

-- The entries keep their tasks, their alarms and their names.
abbrev pub Same : List RtDeadlineTask → List RtDeadlineTask → Type 0
Same [] [] = Unit
Same [] (e ∷ es) = ⊥
Same (d ∷ ds) [] = ⊥
Same (d ∷ ds) (e ∷ es) =
    (e.task ≡ d.task) × (e.watchd ≡ d.watchd) × (e.task_info.name ≡ d.task_info.name) × Same ds es

pub Same-refl : (ds : List RtDeadlineTask) → Same ds ds
Same-refl [] = tt
Same-refl (d ∷ ds) = (refl, refl, refl, Same-refl ds)

pub Same-trans : (ds es fs : List RtDeadlineTask) → Same ds es → Same es fs → Same ds fs
Same-trans [] [] fs a b = b
Same-trans [] (e ∷ es) fs a b = absurd a
Same-trans (d ∷ ds) [] fs a b = absurd a
Same-trans (d ∷ ds) (e ∷ es) [] a b = absurd b
Same-trans (d ∷ ds) (e ∷ es) (f ∷ fs) a b =
    (b.0 ∙ a.0, b.1 ∙ a.1, b.2 ∙ a.2, Same-trans ds es fs a.3 b.3)

pub Same-owned : (xs : Items) (ds es : List RtDeadlineTask) → Same ds es → owned xs es ≡ owned xs ds
Same-owned [] ds es same = refl
Same-owned ((n, p) ∷ xs) [] [] same = refl
Same-owned ((n, p) ∷ xs) [] (e ∷ es) same = absurd same
Same-owned ((n, p) ∷ xs) (d ∷ ds) [] same = absurd same
Same-owned ((n, p) ∷ xs) (d ∷ ds) (e ∷ es) same = rw (same.1, Same-owned xs ds es same.3)

Same-Named :
    (P : Platform) (xs : Items) (ds es : List RtDeadlineTask)
    → Same ds es
    → Named P xs ds
    → Named P xs es
Same-Named P [] ds es same h = tt
Same-Named P ((n, p) ∷ xs) [] [] same h = tt
Same-Named P ((n, p) ∷ xs) [] (e ∷ es) same h = absurd same
Same-Named P ((n, p) ∷ xs) (d ∷ ds) [] same h = absurd same
Same-Named P ((n, p) ∷ xs) (d ∷ ds) (e ∷ es) same h =
    (same.2 ∙ h.0, ap P.rname same.0 ∙ h.1, Same-Named P xs ds es same.3 h.2)

module _ {P : Platform} where
  pub IsValid-Same :
      {w w' : World P} {xs : Items} {ds : List RtDeadlineTask} (es : List RtDeadlineTask)
      → IsValid w xs ds
      → w'.dtask_map ≡ w.dtask_map
      → w'.live ≡ w.live
      → Holds w'.dtasks (pointers xs) es
      → ((p : Ptr) → w.dtasks p ≡ none → w'.dtasks p ≡ none)
      → Same ds es
      → IsValid w' xs es
  IsValid-Same {w} {w'} {xs} {ds} es v map_same live_same holds none_new same =
      let owns = Same-owned xs ds es same in
      record {
        table = record {
          listed = ap P.items map_same ∙ v.table.listed;
          apart = v.table.apart;
          stored = holds;
        };
        keys = v.keys;
        named = Same-Named P xs ds es same v.named;
        single = rw owns v.single;
        not_null = rw owns v.not_null;
        in_use = λ p h. rw live_same (v.in_use p (rw owns at h));
        clean = λ p h. none_new p (v.clean p (rw live_same at h));
        once = rw live_same v.once;
      }

-- One entry is changed.
Holds-change :
    (f : Blocks) (p : Ptr) (d e : RtDeadlineTask) (ps : List Ptr) (ds : List RtDeadlineTask)
    → e.task ≡ d.task
    → e.watchd ≡ d.watchd
    → e.task_info.name ≡ d.task_info.name
    → Distinct ps
    → f p ≡ some d
    → Holds f ps ds
    → (es : List RtDeadlineTask) × Holds (update f p (some e)) ps es × Same ds es
Holds-change f p d e [] [] st sw sn apart at_p h = ([], tt, tt)
Holds-change f p d e [] (x ∷ ds) st sw sn apart at_p h = absurd h
Holds-change f p d e (q ∷ ps) [] st sw sn apart at_p h = absurd h
Holds-change f p d e (q ∷ ps) (x ∷ ds) st sw sn apart at_p h = elim (Bool-cases (p == q)) [
  | inl here ↦ (
    e ∷ ds,
    (rw here, Holds-update f p (some e) ps ds (ground (arith, apart.0)) h.1),
    (ground arith, ground arith, ground arith, Same-refl ds),
  )
  | inr there ↦
      let (es, holds, same) = Holds-change f p d e ps ds st sw sn apart.1 at_p h.1 in
      (x ∷ es, (rw there h.0, holds), (refl, refl, refl, same))
]

-- The entry that a lookup finds.
pub lookup-entry :
    (P : Platform) (f : Blocks) (n : Name) (p : Ptr) (xs : Items) (ds : List RtDeadlineTask)
    → Holds f (pointers xs) ds
    → Named P xs ds
    → lookup n xs ≡ some p
    → (d : RtDeadlineTask) × (f p ≡ some d) × (P.rname d.task ≡ n) × (has p (owned xs ds) ≡ true)
unfolding lookup
lookup-entry P f n p [] ds h named e = cc
lookup-entry P f n p ((m, q) ∷ xs) [] h named e = absurd h
lookup-entry P f n p ((m, q) ∷ xs) (d ∷ ds) h named e = elim (Bool-cases (name_eq m n)) [
  | inl hit ↦ (d, ground arith, ground (arith, name_eq_of_true m n hit, named.1), ground arith)
  | inr miss ↦
      let (x, at_p, of_n, own) = lookup-entry P f n p xs ds h.1 named.2 (rw miss at e) in
      (x, at_p, of_n, ground (arith, own))
]

info_after-name :
    (P : Platform) (s : P.State) (d : RtDeadlineTask)
    → P.rname d.task ≡ d.task_info.name
    → (info_after P s d).name ≡ d.task_info.name
info_after-name P s d h = go (P.rt_task_inquire d.task s) refl
  where
    go : (q : Inquiry) → P.rt_task_inquire d.task s ≡ q → (info_after P s d).name ≡ d.task_info.name
    go (filled i) e = rw (e, info_after) (P.inquire_name d.task s i e ∙ h)
    go (refused n) e = rw (e, info_after)

refreshed-Same :
    (P : Platform) (now : ℕ) (s : P.State) (f : Blocks) (xs : Items) (ds : List RtDeadlineTask)
    → Named P xs ds
    → Holds f (pointers xs) ds
    → Same ds (map (λ d. marked (refreshed P now s d)) ds)
refreshed-Same P now s f [] [] named h = tt
refreshed-Same P now s f [] (d ∷ ds) named h = absurd h
refreshed-Same P now s f ((n, p) ∷ xs) [] named h = tt
refreshed-Same P now s f ((n, p) ∷ xs) (d ∷ ds) named h = (
  ground arith,
  ground arith,
  ground (arith, info_after-name P s d (named.1 ∙ sym named.0)),
  refreshed-Same P now s f xs ds named.2 h.1,
)

-- A round of priorities keeps the invariant.
pub round-IsValid :
    {P : Platform} {w : World P} {xs : Items} {ds : List RtDeadlineTask}
    → IsValid w xs ds
    → (es : List RtDeadlineTask) × IsValid (round w (pointers xs) ds) xs es × Same ds es
round-IsValid {P} {w} {xs} {ds} v =
    let now = (P.rt_timer_read w.kernel).0 in
    let s = (P.rt_timer_read w.kernel).1 in
    let g = λ (d : RtDeadlineTask). marked (refreshed P now s d) in
    let same = refreshed-Same P now s w.dtasks xs ds v.named v.table.stored in
    (
      map g ds,
      IsValid-Same (map g ds) v refl refl
          (Holds-touched g w.dtasks (pointers xs) (pointers xs) ds (λ q i. i) v.table.stored)
          (λ p e. ground arith) same,
      same,
    )
