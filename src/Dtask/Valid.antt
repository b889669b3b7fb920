-- ===== src/Dtask/Valid.antt =====
-- The invariant of the table of edfomai-drv-data.c: each entry is found under the name of its task,
-- and owns its blocks.
use edfomai.Base.{
  ◌≡◌, true, false, none, List, [], ◌∷◌, ◌==◌, if◌then◌else◌, Ptr, null, Items, has, Distinct,
  UniqueKeys,
}
use edfomai.Platform.{Platform}
use edfomai.World.{World, RtDeadlineTask}
use edfomai.Recalc.Refine.{IsTable}

-- The key of an item is the name in its entry, and the name of the entry's task.
abbrev pub Named : (P : Platform) → Items → List RtDeadlineTask → Type 0
Named P [] ds = Unit
Named P ((n, p) ∷ xs) [] = Unit
Named P ((n, p) ∷ xs) (d ∷ ds) = (d.task_info.name ≡ n) × (P.rname d.task ≡ n) × Named P xs ds

-- The blocks of the entries: their own, and that of the alarm if there is one.
abbrev pub owned : Items → List RtDeadlineTask → List Ptr
owned [] ds = []
owned ((n, p) ∷ xs) [] = []
owned ((n, p) ∷ xs) (d ∷ ds) =
    p ∷ (if d.watchd == null then owned xs ds else d.watchd ∷ owned xs ds)

module _ {P : Platform} where
  pub record IsValid (w : World P) (xs : Items) (ds : List RtDeadlineTask) : Type 0 where
    pub table : IsTable w xs ds
    pub keys : UniqueKeys xs
    pub named : Named P xs ds
    -- No block is owned twice, none is NULL, and all are in use.
    pub single : Distinct (owned xs ds)
    pub not_null : has null (owned xs ds) ≡ false
    pub in_use : (p : Ptr) → has p (owned xs ds) ≡ true → has p w.live ≡ true
    -- A block that is not in use holds no entry.
    pub clean : (p : Ptr) → has p w.live ≡ false → w.dtasks p ≡ none
    pub once : Distinct w.live
