-- ===== src/Dtask/Change.antt =====
-- A change of the entry that an operation of edfomai-drv-data.c works on.
use edfomai.Base.{
  ◌≡◌, refl, Option, none, some, List, [], ◌∷◌, arith, ◌==◌, if◌then◌else◌, ℤ, pos, negsuc, Ptr,
  Option-cases, inl, inr, Items, lookup, pointers,
}
use edfomai.Platform.{Platform, RtTask}
use edfomai.World.{World, Cmd, RtDeadlineTask, Blocks, update}
use edfomai.Recalc.Holds.{Holds, touched, touched-update}
use edfomai.Dtask.{on_entry}
use edfomai.Dtask.Valid.{IsValid}
use edfomai.Dtask.Keep.{Same, IsValid-Same, lookup-entry}
use edfomai.Dtask.Entry.{Answers, block_of, with_block, on_entry-none, on_entry-some}

-- A change that leaves the task, the alarm and the name alone.
abbrev pub Keeps : (RtDeadlineTask → RtDeadlineTask) → Type 0
Keeps g =
    (d : RtDeadlineTask)
    → ((g d).task ≡ d.task) × ((g d).watchd ≡ d.watchd) × ((g d).task_info.name ≡ d.task_info.name)

-- The entries after the change of the one at `p`.
abbrev pub changed :
    (RtDeadlineTask → RtDeadlineTask) → Ptr → List Ptr → List RtDeadlineTask → List RtDeadlineTask
changed g p [] ds = ds
changed g p (q ∷ ps) [] = []
changed g p (q ∷ ps) (d ∷ ds) = (if p == q then g d else d) ∷ changed g p ps ds

pub changed-Same :
    (g : RtDeadlineTask → RtDeadlineTask) (p : Ptr) (f : Blocks) (ps : List Ptr)
    (ds : List RtDeadlineTask)
    → Keeps g
    → Holds f ps ds
    → Same ds (changed g p ps ds)
changed-Same g p f [] [] keeps h = tt
changed-Same g p f [] (d ∷ ds) keeps h = absurd h
changed-Same g p f (q ∷ ps) [] keeps h = tt
changed-Same g p f (q ∷ ps) (d ∷ ds) keeps h = (
  ground (arith, keeps d),
  ground (arith, keeps d),
  ground (arith, keeps d),
  changed-Same g p f ps ds keeps h.1,
)

changed-Holds :
    (g : RtDeadlineTask → RtDeadlineTask) (p : Ptr) (f : Blocks) (ps : List Ptr)
    (ds : List RtDeadlineTask)
    → Holds f ps ds
    → Holds (touched g (p ∷ []) f) ps (changed g p ps ds)
changed-Holds g p f [] [] h = tt
changed-Holds g p f [] (d ∷ ds) h = absurd h
changed-Holds g p f (q ∷ ps) [] h = absurd h
changed-Holds g p f (q ∷ ps) (d ∷ ds) h = (ground arith, changed-Holds g p f ps ds h.1)

module _ {P : Platform} where
  abbrev pub change : (RtDeadlineTask → RtDeadlineTask) → Ptr → World P → World P
  change g p w = record w { dtasks = touched g (p ∷ []) w.dtasks }

  -- What an operation leaves that returns 0 after its work on the entry found, and else -1.
  abbrev pub outcome : World P → Option Ptr → (Ptr → World P) → ℤ × World P
  outcome w none work = (negsuc 0, w)
  outcome w (some p) work = (pos 0, work p)

  pub change-IsValid :
      {w : World P} {xs : Items} {ds : List RtDeadlineTask} (g : RtDeadlineTask → RtDeadlineTask)
      (p : Ptr)
      → Keeps g
      → IsValid w xs ds
      → IsValid (change g p w) xs (changed g p (pointers xs) ds)
  change-IsValid {w} {xs} {ds} g p keeps v =
      IsValid-Same (changed g p (pointers xs) ds) v refl refl
        (changed-Holds g p w.dtasks (pointers xs) ds v.table.stored) (λ q e. ground arith)
        (changed-Same g p w.dtasks (pointers xs) ds keeps v.table.stored)

  -- A store of the changed entry.
  pub change_lem :
      (g : RtDeadlineTask → RtDeadlineTask) (p : Ptr) (d : RtDeadlineTask) (w : World P)
      → w.dtasks p ≡ some d
      → record w { dtasks = update w.dtasks p (some (g d)) } ≡ change g p w
  change_lem g p d w at_p =
      let same : update w.dtasks p (some (g d)) ≡ touched g (p ∷ []) w.dtasks =
        touched-update g w.dtasks p d [] at_p refl in
      rw same

  module _ {w : World P} {xs : Items} {ds : List RtDeadlineTask} {task : RtTask} where
    open P use {rname}

    -- The frame around work on an entry that leaves the block alone.
    pub on_entry-outcome :
        (work : Ptr → Cmd P ℤ) (f : Ptr → World P)
        → IsValid w xs ds
        → Answers task w
        → ((p : Ptr) (d : RtDeadlineTask)
            → lookup (rname task) xs ≡ some p
            → w.dtasks p ≡ some d
            → rname d.task ≡ rname task
            → (work p (with_block w)
                ≡ some (pos 0, record (f p) { live = block_of w ∷ (f p).live }))
              × ((f p).dtasks (block_of w) ≡ none))
        → on_entry task work w ≡ some (outcome w (lookup (rname task) xs) f)
    on_entry-outcome work f v a works = elim (Option-cases (lookup (rname task) xs)) [
      | inl missing ↦ rw missing (on_entry-none work v a missing)
      | inr (p, found) ↦
          let (d, at_p, of_n, own) =
            lookup-entry P w.dtasks (rname task) p xs ds v.table.stored v.named found in
          let (done, unused) = works p d found at_p of_n in
          let left : World P = record (f p) { live = block_of w ∷ (f p).live } in
          rw found (on_entry-some work p (pos 0) left (f p).live v a found done refl unused)
    ]
