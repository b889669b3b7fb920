-- ===== src/Dtask/Create.antt =====
-- rt_dtask_create of edfomai-drv-data.c.
use mathlib.Core.Path.{fun_ext}
use edfomai.Base.{
  ℕ, ◌<◌, ◌≡◌, ◌≢◌, ◌∙◌, true, false, none, some, List, [], ◌∷◌, ◌++◌, arith, ◌==◌, if◌then◌else◌,
  pos, negsuc, Ptr, null, Items, lookup, has, release, Distinct, pointers, length, Bool-cases, inl,
  inr, has_self, release_self,
}
use edfomai.Platform.{Platform, TaskInfo, RtTask, filled}
use edfomai.World.{World, RtDeadlineTask, Blocks, update, malloc, store}
use edfomai.World.Laws.{malloc_used-some, free_lem, inquire_filled}
use edfomai.Recalc.Assign.{ShortNames}
use edfomai.Recalc.Holds.{Holds-update}
use edfomai.Recalc.Refine.{round, recalculateprio-round}
use edfomai.Dtask.{rt_dtask_create, add_entry, new_dtask}
use edfomai.Dtask.Valid.{IsValid, owned}
use edfomai.Dtask.Owned.{pointers-owned}
use edfomai.Dtask.Append.{
  append-apart, append-Holds, append-UniqueKeys, append-Named, append-ShortNames, has-append,
  append-single, is_block,
}
use edfomai.Dtask.Entry.{block_of, with_block, block-clean}
use edfomai.Dtask.Restart.{lookup-ne-nil, clock_of, clocked}

append-ne-nil {ℓ} : {A : Type ℓ} (xs : List A) (x : A) → (xs ++ x ∷ []) ≢ []
append-ne-nil [] x e = cc
append-ne-nil (y ∷ xs) x e = cc

Distinct-block :
    (p : Ptr) (ps : List Ptr)
    → has p ps ≡ false
    → Distinct ps
    → Distinct (if p == null then ps else p ∷ ps)
Distinct-block p ps out h = elim (Bool-cases (p == null)) [ inl e ↦ rw e h | inr e ↦ rw e (out, h) ]

release-below :
    (a p : Ptr) (ps : List Ptr)
    → (a ≢ null → (a == p) ≡ false)
    → release p (if a == null then p ∷ ps else a ∷ p ∷ ps) ≡ (if a == null then ps else a ∷ ps)
unfolding release
release-below a p ps ne = elim (Bool-cases (a == null)) [
  | inl e ↦ rw e (release_self p ps)
  | inr e ↦ let apart = ne (λ z. ground arith) in rw (e, apart, release_self p ps)
]

update_back :
    (f : Blocks) (p : Ptr) (d : RtDeadlineTask)
    → f p ≡ none
    → update (update f p (some d)) p none ≡ f
update_back f p d e = fun_ext λ q. ground arith

module _ {P : Platform} where
  open P use {
    rname, rt_task_inquire, inquire_name, malloc_fresh, hash_add_str, items_add, find_lookup,
  }
  open P use {hash_find_str}

  -- The kernel knows the task once the clock was read, and has memory for one block.
  pub record Creatable (task : RtTask) (w : World P) : Type 0 where
    pub info : TaskInfo
    pub filled_in : rt_task_inquire task (clocked w).kernel ≡ filled info
    pub room : block_of w ≢ null

  -- The block of the alarm, or NULL, and the blocks in use with it.
  abbrev pub alarm_of : World P → Ptr
  alarm_of w = block_of (with_block w)

  abbrev pub with_alarm_block : World P → List Ptr → List Ptr
  with_alarm_block w live = if alarm_of w == null then live else alarm_of w ∷ live

  malloc_lem :
      (w : World P)
      → malloc w
        ≡ some (
          block_of w,
          record w { live = if block_of w == null then w.live else block_of w ∷ w.live },
        )
  unfolding malloc
  malloc_lem w = elim (Bool-cases (block_of w == null)) [
    | inl e ↦ let nothing : block_of w ≡ null = ground arith in rw (e, nothing)
    | inr e ↦ rw e
  ]

  module _ (w : World P) (task : RtTask) (deadline : ℕ) where
    abbrev pub created_entry : TaskInfo → RtDeadlineTask
    created_entry info = new_dtask task deadline (alarm_of w) (clock_of w) info

    -- The world with the new entry, before the round.
    abbrev pub created : TaskInfo → World P
    created info = record (clocked w) {
      dtask_map = hash_add_str info.name (block_of w) w.dtask_map;
      dtasks = update w.dtasks (block_of w) (some (created_entry info));
      live = with_alarm_block w (block_of w ∷ w.live);
    }

  module _ {w : World P} {xs : Items} {ds : List RtDeadlineTask} {task : RtTask} (deadline : ℕ)
      (v : IsValid w xs ds) (c : Creatable task w) where
    abbrev added : Items
    added = xs ++ (rname task, block_of w) ∷ []

    abbrev all_entries : List RtDeadlineTask
    all_entries = ds ++ created_entry w task deadline c.info ∷ []

    created-name : c.info.name ≡ rname task
    created-name = inquire_name task (clocked w).kernel c.info c.filled_in

    find_created : hash_find_str c.info.name w.dtask_map ≡ lookup (rname task) xs
    find_created =
        let listed = v.table.listed in
        rw (created-name, find_lookup (rname task) w.dtask_map (rw listed v.keys), listed)

    created-IsValid :
        lookup (rname task) xs ≡ none → IsValid (created w task deadline c.info) added all_entries
    created-IsValid missing =
        let e = created_entry w task deadline c.info in
        let fresh = malloc_fresh w.live w.kernel in
        let fresh_alarm = malloc_fresh (block_of w ∷ w.live) w.kernel in
        let new : (q : Ptr) → has q (owned xs ds) ≡ true → is_block (block_of w) e q ≡ false =
          λ q i. ground (arith, v.in_use q i) in
        let alarm : e.watchd ≢ null → (e.watchd == block_of w) ≡ false = λ ne. ground arith in
        let also =
          λ (q : Ptr). has-append w.dtasks q (block_of w) (rname task) e xs ds v.table.stored in
        let unlisted : has (block_of w) (pointers xs) ≡ false = ground (
          arith,
          pointers-owned w.dtasks (block_of w) xs ds v.table.stored,
          v.in_use (block_of w),
        ) in
        record {
          table = record {
            listed =
                let listed = v.table.listed in
                items_add c.info.name (block_of w) w.dtask_map ∙ rw (created-name, listed);
            apart = append-apart (block_of w) (rname task) xs unlisted v.table.apart;
            stored = append-Holds _ (block_of w) (rname task) e xs ds (ground arith) (
                Holds-update w.dtasks (block_of w) (some e) (pointers xs) ds unlisted
                  v.table.stored);
          };
          keys = append-UniqueKeys (rname task) (block_of w) xs missing v.keys;
          named = append-Named P w.dtasks (block_of w) e xs ds created-name v.table.stored v.named;
          single =
              append-single w.dtasks (block_of w) (rname task) e xs ds v.table.stored new alarm
                v.single;
          not_null = ground (arith, also null, v.not_null, c.room);
          in_use = λ q i. ground (arith, also q, v.in_use q);
          clean = λ q i. ground (arith, v.clean q);
          once = Distinct-block (alarm_of w) (block_of w ∷ w.live) fresh_alarm (fresh, v.once);
        }

    -- On a valid table without an entry of the task's name, for a task that the kernel knows and
    -- with a short name, create adds an entry at the end, after which the table is valid, runs one
    -- round over the longer table and returns 0.
    pub create-new :
        lookup (rname task) xs ≡ none
        → ShortNames P ds
        → length (rname task) < 24
        → IsValid (created w task deadline c.info) added all_entries
          × (rt_dtask_create task deadline w
              ≡ some (pos 0, round (created w task deadline c.info) (pointers added) all_entries))
    unfolding rt_dtask_create add_entry store
    create-new missing short short_name =
        let valid = created-IsValid missing in
        let w' : World P = record (clocked w) { live = with_alarm_block w (block_of w ∷ w.live) } in
        let short' =
          append-ShortNames P (created_entry w task deadline c.info) ds short (short_name, tt) in
        (
          valid,
          rw (
            malloc_used-some w c.room,
            malloc_lem (with_block w),
            inquire_filled task (P.stale_info (block_of w)) c.info w' c.filled_in,
            find_created,
            missing,
            recalculateprio-round (created w task deadline c.info) added all_entries valid.table
                short' (append-ne-nil xs (rname task, block_of w)),
          ),
        )

    -- On a valid table with an entry of the task's name, create adds none: it runs one round and
    -- returns -1, and the block that it allocated for the alarm stays in use.
    pub create-duplicate :
        (q : Ptr)
        → lookup (rname task) xs ≡ some q
        → ShortNames P ds
        → rt_dtask_create task deadline w
          ≡ some (
            negsuc 0,
            round (record (clocked w) { live = with_alarm_block w w.live }) (pointers xs) ds,
          )
    unfolding rt_dtask_create add_entry store
    create-duplicate q found short =
        let p = block_of w in
        let e = created_entry w task deadline c.info in
        let fresh_alarm = malloc_fresh (p ∷ w.live) w.kernel in
        let w' : World P = record (clocked w) { live = with_alarm_block w (p ∷ w.live) } in
        let stored : World P = record w' { dtasks = update w.dtasks p (some e) } in
        let left : World P = record (clocked w) { live = with_alarm_block w w.live } in
        rw (
          malloc_used-some w c.room,
          malloc_lem (with_block w),
          inquire_filled task (P.stale_info p) c.info w' c.filled_in,
          find_created,
          found,
          free_lem p stored c.room (ground (arith, has_self p w.live)),
          release-below (alarm_of w) p w.live (λ ne. ground arith),
          update_back w.dtasks p e (block-clean v),
          recalculateprio-round left xs ds
              (record { listed = v.table.listed; apart = v.table.apart; stored = v.table.stored })
              short (lookup-ne-nil xs (rname task) q found),
        )
