-- ===== src/Driver/Served/Blocks.antt =====
-- The operations of edfomai-drv-data.c that allocate or free, as the driver uses them.
use edfomai.Base.{
  ℕ, ◌≡◌, Name, Ptr, true, false, none, some, refl, ap, ◌∙◌, List, [], ◌∷◌, ◌++◌, arith, ◌==◌, pos,
  negsuc, null, Items, lookup, remove, has, Bool-cases, Option-cases, inl, inr, pointers,
}
use edfomai.Platform.{Platform, RtTask}
use edfomai.World.{World, RtDeadlineTask, Blocks}
use edfomai.Recalc.Refine.{round}
use edfomai.Recalc.Scan.{refreshed}
use edfomai.Recalc.Assign.{marked}
use edfomai.Dtask.{rt_dtask_setdeadline, rt_dtask_delete, rt_dtask_create}
use edfomai.Dtask.Valid.{IsValid}
use edfomai.Dtask.Keep.{Same-refl, Same-owned, round-IsValid, lookup-entry}
use edfomai.Dtask.Entry.{block_of, with_block}
use edfomai.Dtask.Restart.{
  from_now, clock_of, clocked, clocked-IsValid, round_after, round_after-IsValid, setdeadline_lem,
}
use edfomai.Dtask.Owned.{without, owned-entry, owned-sub, has-release, pointers-owned}
use edfomai.Dtask.Append.{has-append}
use edfomai.Dtask.Drop.{dropped, dropped-IsValid, has-release_block, release_block}
use edfomai.Dtask.Delete.{delete_lem, dropped_at_lem, lookup-pointers}
use edfomai.Dtask.Create.{
  Creatable, created, created_entry, create-new, create-duplicate, alarm_of, with_alarm_block,
}
use edfomai.Driver.Served.{Steady, Served, all_short, answers, calm, more-IsValid}

pub last-listed : (n : Name) (p : Ptr) (xs : Items) → has p (pointers (xs ++ (n, p) ∷ [])) ≡ true
last-listed n p [] = ground arith
last-listed n p (x ∷ xs) = ground (arith, last-listed n p xs)

has-listed :
    (q : Ptr) (n : Name) (p : Ptr) (xs : Items)
    → has q (pointers xs) ≡ true
    → has q (pointers (xs ++ (n, p) ∷ [])) ≡ true
has-listed q n p [] h = ground arith
has-listed q n p (x ∷ xs) h = ground (arith, has-listed q n p xs)

-- The entries at these addresses still have their tasks and their relative deadlines.
abbrev pub Kept : List Ptr → Blocks → Blocks → Type 0
Kept ps f g =
    (p : Ptr) (d : RtDeadlineTask)
    → has p ps ≡ true
    → f p ≡ some d
    → (e : RtDeadlineTask) × (g p ≡ some e)
      × (e.task ≡ d.task)
      × (e.relative_deadline ≡ d.relative_deadline)

module _ (P : Platform) where
  -- What a round leaves of an entry.
  marked-task :
      (now : ℕ) (s : P.State) (d : RtDeadlineTask) → (marked (refreshed P now s d)).task ≡ d.task
  marked-task now s d = ground arith

  marked-relative :
      (now : ℕ) (s : P.State) (d : RtDeadlineTask)
      → (marked (refreshed P now s d)).relative_deadline ≡ d.relative_deadline
  marked-relative now s d = ground arith

module _ {P : Platform} where
  open P use {rname}

  -- The state of create for a task that has an entry.
  more-alarm :
      {w : World P} {xs : Items} {ds : List RtDeadlineTask}
      → IsValid w xs ds
      → IsValid (record (clocked w) { live = with_alarm_block w w.live }) xs ds
  more-alarm {w} v =
      let fresh = P.malloc_fresh (block_of w ∷ w.live) w.kernel in
      elim (Bool-cases (alarm_of w == null)) [
        | inl e ↦ rw e (clocked-IsValid v)
        | inr e ↦ rw e (more-IsValid (alarm_of w) (clocked-IsValid v) (ground arith))
      ]

  module _ {w : World P} {xs : Items} {ds : List RtDeadlineTask} (v : IsValid w xs ds)
      (st : Steady P) where
    pub setdeadline-Served :
        (t : RtTask) (newdeadline : ℕ) → Served (rt_dtask_setdeadline t newdeadline) w xs ds
    setdeadline-Served t r =
        let runs = setdeadline_lem v (answers st t w) (all_short st ds) r in
        let fresh = P.malloc_fresh w.live w.kernel in
        elim (Option-cases (lookup (rname t) xs)) [
          | inl missing ↦ record {
            result = negsuc 0;
            after = with_block w;
            items_after = xs;
            entries_after = ds;
            runs = rw missing at runs;
            valid = more-IsValid (block_of w) v fresh;
            spares = λ q i o. (ground arith, o);
          }
          | inr (p, found) ↦
              let g = from_now (clock_of w) r in
              let (es, valid, same) = round_after-IsValid v g p λ d. (refl, refl, refl) in
              record {
                result = pos 0;
                after = record (round_after g w xs ds p) { live = block_of w ∷ w.live };
                items_after = xs;
                entries_after = es;
                runs = rw found at runs;
                valid = more-IsValid (block_of w) valid fresh;
                spares = λ q i o. (ground arith, rw (Same-owned xs ds es same) o);
              }
        ]

    pub delete-Served : (t : RtTask) → Served (rt_dtask_delete t) w xs ds
    delete-Served t =
        let runs = delete_lem v (answers st t w) in
        elim (Option-cases (lookup (rname t) xs)) [
          | inl missing ↦ calm v st (negsuc 0) w ds (rw missing at runs) v (Same-refl ds) refl
          | inr (p, found) ↦
              let (d, at_p, of_n, own) =
                lookup-entry P w.dtasks (rname t) p xs ds v.table.stored v.named found in
              let i = lookup-pointers (rname t) p xs found in
              let (mine, alarm) = owned-entry w.dtasks p d xs ds v.table.stored at_p i in
              record {
                result = pos 0;
                after = dropped w p d;
                items_after = remove p xs;
                entries_after = without p xs ds;
                runs = rw (found, dropped_at_lem w p d at_p) at runs;
                valid = dropped-IsValid p d v at_p i;
                spares = λ q u o. (
                  has-release p q (release_block d.watchd w.live) (ground (arith, mine))
                      ∙ has-release_block d.watchd q w.live (λ ne. ground (arith, alarm ne))
                      ∙ u,
                  owned-sub p q xs ds o,
                );
              }
        ]

    -- Creating a task without an entry adds one with its relative deadline.
    pub create_new-Served :
        (t : RtTask) (deadline : ℕ)
        → lookup (rname t) xs ≡ none
        → (s : Served (rt_dtask_create t deadline) w xs ds) × (s.items_after
            ≡ xs ++ (rname t, block_of w) ∷ [])
          × (e : RtDeadlineTask) × (s.after.dtasks (block_of w) ≡ some e)
          × (e.task ≡ t)
          × (e.relative_deadline ≡ deadline)
          × Kept (pointers xs) w.dtasks s.after.dtasks
    create_new-Served t deadline missing =
        let s = (clocked w).kernel in
        let c : Creatable t w = record {
          info = (st.knows t s).0;
          filled_in = (st.knows t s).1;
          room = st.room w.live w.kernel;
        } in
        let e = created_entry w t deadline c.info in
        let fresh = P.malloc_fresh w.live w.kernel in
        let fresh_alarm = P.malloc_fresh (block_of w ∷ w.live) w.kernel in
        let (valid, runs) = create-new deadline v c missing (all_short st ds) (st.short t) in
        let (es, good, same) = round-IsValid valid in
        let u = created w t deadline c.info in
        let now = (P.rt_timer_read u.kernel).0 in
        let s' = (P.rt_timer_read u.kernel).1 in
        (
          record {
            result = pos 0;
            after = round u (pointers _) _;
            items_after = xs ++ (rname t, block_of w) ∷ [];
            entries_after = es;
            runs = runs;
            valid = good;
            spares = λ q u o. (
              ground (arith, u),
              ap (has q) (Same-owned (xs ++ (rname t, block_of w) ∷ []) (ds ++ e ∷ []) es same)
                  ∙ has-append w.dtasks q (block_of w) (rname t) e xs ds v.table.stored
                  ∙ ground (arith, o, u, fresh, fresh_alarm),
            );
          },
          refl,
          marked (refreshed P now s' e),
          let listed = last-listed (rname t) (block_of w) xs in ground (arith, listed),
          marked-task P now s' e,
          marked-relative P now s' e,
          λ p d i at_p.
              let new : (block_of w == p) ≡ false =
                ground (arith, fresh, v.in_use p, pointers-owned w.dtasks p xs ds v.table.stored) in
              (
                marked (refreshed P now s' d),
                let listed = has-listed p (rname t) (block_of w) xs i in rw (listed, new, at_p),
                marked-task P now s' d,
                marked-relative P now s' d,
              ),
        )

    pub create-Served : (t : RtTask) (deadline : ℕ) → Served (rt_dtask_create t deadline) w xs ds
    create-Served t deadline =
        let s = (clocked w).kernel in
        let c : Creatable t w = record {
          info = (st.knows t s).0;
          filled_in = (st.knows t s).1;
          room = st.room w.live w.kernel;
        } in
        elim (Option-cases (lookup (rname t) xs)) [
          | inl missing ↦ (create_new-Served t deadline missing).0
          | inr (p, found) ↦
              let runs = create-duplicate deadline v c p found (all_short st ds) in
              let (es, good, same) = round-IsValid (more-alarm v) in
              record {
                result = negsuc 0;
                after =
                    round (record (clocked w) { live = with_alarm_block w w.live }) (pointers xs)
                      ds;
                items_after = xs;
                entries_after = es;
                runs = runs;
                valid = good;
                spares = λ q u o. (ground arith, rw (Same-owned xs ds es same) o);
              }
        ]
