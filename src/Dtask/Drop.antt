-- ===== src/Dtask/Drop.antt =====
-- drop_entry, the end of an entry in rt_dtask_delete and rt_dtask_dispose of edfomai-drv-data.c.
use edfomai.Base.{
  ◌≡◌, ◌≢◌, refl, ap, ◌∙◌, true, false, none, some, List, arith, ◌==◌, if◌then◌else◌, Ptr, null,
  Items, remove, release, has, Distinct, pointers, Bool-cases, inl, inr,
}
use edfomai.Platform.{Platform}
use edfomai.World.{World, RtDeadlineTask, Blocks, update, free}
use edfomai.World.Laws.{load_lem, free_lem}
use edfomai.Dtask.{drop_entry}
use edfomai.Dtask.Valid.{IsValid, owned}
use edfomai.Dtask.Owned.{
  without, has-release, release-Distinct, remove-Distinct, remove-UniqueKeys, without-Named,
  without-Holds, owned-sub, owned-entry, owned-gone, alarm-apart, pointers-owned,
}

-- The blocks in use without one, which may be NULL.
abbrev pub release_block : Ptr → List Ptr → List Ptr
release_block p live = if p == null then live else release p live

abbrev pub clear_block : Ptr → Blocks → Blocks
clear_block p f = if p == null then f else update f p none

pub has-release_block :
    (p q : Ptr) (live : List Ptr)
    → (p ≢ null → (p == q) ≡ false)
    → has q (release_block p live) ≡ has q live
has-release_block p q live ne = elim (Bool-cases (p == null)) [
  | inl e ↦ rw e
  | inr e ↦ rw e (has-release p q live (ne λ z. ground arith))
]

pub release_block-Distinct :
    (p : Ptr) (live : List Ptr) → Distinct live → Distinct (release_block p live)
release_block-Distinct p live h = elim (Bool-cases (p == null)) [
  | inl e ↦ rw e h
  | inr e ↦ rw e (release-Distinct p live h)
]

clear-none :
    (f : Blocks) (live : List Ptr) (a p q : Ptr)
    → has q (release p (release_block a live)) ≡ false
    → ((r : Ptr) → has r live ≡ false → f r ≡ none)
    → update (clear_block a f) p none q ≡ none
clear-none f live a p q out clean = elim (Bool-cases (p == q)) [
  | inl e ↦ rw e
  | inr e ↦
      let left = has-release p q (release_block a live) e in
      elim (Bool-cases (a == q)) [
        | inl same ↦ ground (arith, left, clean q)
        | inr other ↦
            let kept = has-release_block a q live λ ne. other in ground (arith, left, kept, clean q)
      ]
]

module _ {P : Platform} where
  open P use {hash_del, items_del}

  -- The world without the entry `d` at `p`.
  abbrev pub dropped : World P → Ptr → RtDeadlineTask → World P
  dropped w p d = record w {
    dtask_map = hash_del p w.dtask_map;
    dtasks = update (clear_block d.watchd w.dtasks) p none;
    live = release p (release_block d.watchd w.live);
  }

  free-null :
      (p : Ptr) (w : World P)
      → (p ≢ null → has p w.live ≡ true)
      → free p w
        ≡ some (tt, record w { live = release_block p w.live; dtasks = clear_block p w.dtasks })
  unfolding free
  free-null p w held = elim (Bool-cases (p == null)) [
    | inl e ↦ rw e
    | inr e ↦ let some_block : has p w.live ≡ true = held (λ z. ground arith) in rw (e, some_block)
  ]

  drop_entry_lem :
      (w : World P) (p : Ptr) (d : RtDeadlineTask)
      → w.dtasks p ≡ some d
      → p ≢ null
      → has p w.live ≡ true
      → (d.watchd ≢ null → (has d.watchd w.live ≡ true) × ((d.watchd == p) ≡ false))
      → drop_entry p w ≡ some (tt, dropped w p d)
  unfolding drop_entry
  drop_entry_lem w p d at_p some_p held alarm =
      let gone : World P = record w { dtask_map = hash_del p w.dtask_map } in
      let left : has p (release_block d.watchd w.live) ≡ true =
        has-release_block d.watchd p w.live (λ ne. (alarm ne).1) ∙ held in
      rw (
        load_lem p d gone at_p,
        free-null d.watchd gone (λ ne. (alarm ne).0),
        free_lem p
            (record gone {
              live = release_block d.watchd w.live;
              dtasks = clear_block d.watchd w.dtasks;
            })
            some_p left,
      )

  -- On a valid table, once an entry was dropped with its block and that of its alarm, the table
  -- of the remaining entries is valid.
  pub dropped-IsValid :
      {w : World P} {xs : Items} {ds : List RtDeadlineTask} (p : Ptr) (d : RtDeadlineTask)
      → IsValid w xs ds
      → w.dtasks p ≡ some d
      → has p (pointers xs) ≡ true
      → IsValid (dropped w p d) (remove p xs) (without p xs ds)
  dropped-IsValid {w} {xs} {ds} p d v at_p i =
      let holds = v.table.stored in
      let (own, alarm) = owned-entry w.dtasks p d xs ds holds at_p i in
      let (gone, alarm_gone, single) = owned-gone w.dtasks p d xs ds holds at_p i v.single in
      let rest = without-Holds w.dtasks w.dtasks p xs ds holds (λ q j. refl) v.table.apart in
      let apart : (q : Ptr)
          → has q (owned (remove p xs) (without p xs ds)) ≡ true
          → ((p == q) ≡ false) × (d.watchd ≢ null → (d.watchd == q) ≡ false) =
        λ q j. (ground (arith, gone), λ ne. ground (arith, alarm_gone ne)) in
      record {
        table = record {
          listed = items_del p w.dtask_map ∙ ap (remove p) v.table.listed;
          apart = remove-Distinct p xs v.table.apart;
          stored =
              without-Holds w.dtasks _ p xs ds holds
                (λ q j.
                  let mine =
                    apart q (pointers-owned w.dtasks q (remove p xs) (without p xs ds) rest j) in
                  ground (arith, mine))
                v.table.apart;
        };
        keys = remove-UniqueKeys p xs v.keys;
        named = without-Named P p xs ds v.named;
        single = single;
        not_null = owned-sub p null xs ds v.not_null;
        in_use = λ q j.
            has-release p q (release_block d.watchd w.live) (apart q j).0
            ∙ has-release_block d.watchd q w.live (apart q j).1
            ∙ v.in_use q (ground (arith, owned-sub p q xs ds));
        clean = λ q j. clear-none w.dtasks w.live d.watchd p q j v.clean;
        once =
            release-Distinct p (release_block d.watchd w.live)
              (release_block-Distinct d.watchd w.live v.once);
      }

  -- An entry of a valid table can be dropped.
  pub drop_entry-IsValid :
      {w : World P} {xs : Items} {ds : List RtDeadlineTask} (p : Ptr) (d : RtDeadlineTask)
      → IsValid w xs ds
      → w.dtasks p ≡ some d
      → has p (pointers xs) ≡ true
      → drop_entry p w ≡ some (tt, dropped w p d)
  drop_entry-IsValid {w} {xs} {ds} p d v at_p i =
      let (own, alarm) = owned-entry w.dtasks p d xs ds v.table.stored at_p i in
      drop_entry_lem w p d at_p (λ z. ground (arith, v.not_null, rw z at own)) (v.in_use p own)
        λ ne. (
          v.in_use d.watchd (alarm ne),
          alarm-apart w.dtasks p d xs ds v.table.stored at_p i v.single ne,
        )
