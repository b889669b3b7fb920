-- ===== src/Dtask/Restart.antt =====
-- rt_dtask_resetdeadline and rt_dtask_setdeadline of edfomai-drv-data.c.
use edfomai.Base.{
  ℕ, ◌+◌, ◌%◌, ◌^◌, ◌≡◌, ◌≢◌, refl, ap, some, Option-cases, inl, inr, List, [], ◌∷◌, arith, pos,
  Ptr, Name, Items, lookup, pointers,
}
use edfomai.Platform.{Platform, RtTask}
use edfomai.World.{World, RtDeadlineTask, store}
use edfomai.World.Laws.{load_lem}
use edfomai.Recalc.{rt_dtask_recalculateprio}
use edfomai.Recalc.Assign.{ShortNames}
use edfomai.Recalc.Refine.{round, recalculateprio-round}
use edfomai.Dtask.{rt_dtask_resetdeadline, rt_dtask_setdeadline}
use edfomai.Dtask.Valid.{IsValid}
use edfomai.Dtask.Keep.{Same, Same-refl, Same-trans, IsValid-Same, lookup-entry, round-IsValid}
use edfomai.Dtask.Entry.{Answers, block_of, with_block, block-clean, task_name_block_lem, find_lem}
use edfomai.Dtask.Change.{
  change, changed, change_lem, change-IsValid, changed-Same, Keeps, outcome, on_entry-outcome,
}

Same-ShortNames :
    (P : Platform) (ds es : List RtDeadlineTask) → Same ds es → ShortNames P ds → ShortNames P es
Same-ShortNames P [] [] same h = tt
Same-ShortNames P [] (e ∷ es) same h = absurd same
Same-ShortNames P (d ∷ ds) [] same h = absurd same
Same-ShortNames P (d ∷ ds) (e ∷ es) same h =
    (ground (arith, h.0, ap P.rname same.0), Same-ShortNames P ds es same.3 h.1)

-- What is asked of an entry that starts anew at the time `now`: it is due `relative` ns later, modulo the
-- width of a time, all that time is left, later restarts take the same time, no deadline is missed (0 is
-- OK) and the task runs (0 is RUNNING). The task, its alarm and what is known of it are as before.
abbrev pub from_now : ℕ → ℕ → RtDeadlineTask → RtDeadlineTask
from_now now relative d = record {
  deadline = (now + relative) % 2 ^ 64;
  remain = relative;
  relative_deadline = relative;
  status = 0;
  state = 0;
  task = d.task;
  watchd = d.watchd;
  task_info = d.task_info;
}

pub lookup-ne-nil : (xs : Items) (n : Name) (p : Ptr) → lookup n xs ≡ some p → xs ≢ []
unfolding lookup
lookup-ne-nil [] n p e = cc
lookup-ne-nil (x ∷ xs) n p e = λ h. cc

module _ {P : Platform} where
  open P use {rname, rt_timer_read, malloc_fresh}

  -- The world in which the clock was read.
  abbrev pub clocked : World P → World P
  clocked w = record w { kernel = (rt_timer_read w.kernel).1 }

  abbrev pub clock_of : World P → ℕ
  clock_of w = (rt_timer_read w.kernel).0

  pub clocked-IsValid :
      {w : World P} {xs : Items} {ds : List RtDeadlineTask}
      → IsValid w xs ds
      → IsValid (clocked w) xs ds
  clocked-IsValid {ds} v = IsValid-Same ds v refl refl v.table.stored (λ p e. e) (Same-refl ds)

  -- A round over the table whose entry at `p` was changed after the clock was read.
  abbrev pub round_after :
      (RtDeadlineTask → RtDeadlineTask) → World P → Items → List RtDeadlineTask → Ptr → World P
  round_after g w xs ds p =
      round (change g p (clocked w)) (pointers xs) (changed g p (pointers xs) ds)

  module _ {w : World P} {xs : Items} {ds : List RtDeadlineTask} (v : IsValid w xs ds) where
    -- The round runs, whatever other blocks are in use.
    round_after_lem :
        (g : RtDeadlineTask → RtDeadlineTask) (n : Name) (p : Ptr) (live : List Ptr)
        → Keeps g
        → ShortNames P ds
        → lookup n xs ≡ some p
        → rt_dtask_recalculateprio (record (change g p (clocked w)) { live = live })
          ≡ some (pos 0, record (round_after g w xs ds p) { live = live })
    round_after_lem g n p live keeps short found =
        let valid = change-IsValid g p keeps (clocked-IsValid v) in
        let same = changed-Same g p w.dtasks (pointers xs) ds keeps v.table.stored in
        recalculateprio-round (record (change g p (clocked w)) { live = live }) xs
          (changed g p (pointers xs) ds)
          (record {
            listed = valid.table.listed;
            apart = valid.table.apart;
            stored = valid.table.stored;
          })
          (Same-ShortNames P ds (changed g p (pointers xs) ds) same short)
          (lookup-ne-nil xs n p found)

    -- A change of one entry of a valid table that keeps its task, its alarm and its name, with a
    -- round after it, leaves a valid table of the same items, with entries of the same tasks, alarms
    -- and names.
    pub round_after-IsValid :
        (g : RtDeadlineTask → RtDeadlineTask) (p : Ptr)
        → Keeps g
        → (es : List RtDeadlineTask) × IsValid (round_after g w xs ds p) xs es × Same ds es
    round_after-IsValid g p keeps =
        let (es, valid, same) = round-IsValid (change-IsValid g p keeps (clocked-IsValid v)) in
        let first = changed-Same g p w.dtasks (pointers xs) ds keeps v.table.stored in
        (es, valid, Same-trans ds (changed g p (pointers xs) ds) es first same)

    module _ {task : RtTask} (a : Answers task w) (short : ShortNames P ds) where
      -- On a valid table, for a task that the kernel knows, resetdeadline reads the clock, starts
      -- the entry with the task's name anew with its own relative deadline (due that many ns later, modulo
      -- 2 ^ 64, all of them left, OK and RUNNING, all else as before), runs one round and returns
      -- 0; without such an entry it changes nothing and returns -1.
      pub resetdeadline_lem :
          rt_dtask_resetdeadline task w
          ≡ some (
              outcome w
                (lookup (rname task) xs)
                (round_after (λ d. from_now (clock_of w) d.relative_deadline d) w xs ds))
      unfolding rt_dtask_resetdeadline store
      resetdeadline_lem =
          let g = λ (d : RtDeadlineTask). from_now (clock_of w) d.relative_deadline d in
          let live = block_of w ∷ w.live in
          on_entry-outcome _ (round_after g w xs ds) v a λ p d found at_p of_n. (
            rw (
              load_lem p d (with_block w) at_p,
              change_lem g p d (clocked (with_block w)) at_p,
              round_after_lem g (rname task) p live (λ e. (refl, refl, refl)) short found,
            ),
            ground (arith, block-clean v),
          )

      -- On a valid table, for a task that the kernel knows, setdeadline reads the clock, starts the
      -- entry with the task's name anew with the given relative deadline (which it keeps, due that many ns
      -- later, modulo 2 ^ 64, all of them left, OK and RUNNING, all else as before), runs one round
      -- and returns 0; without such an entry it returns -1. In both cases the block that it
      -- allocated stays in use.
      pub setdeadline_lem :
          (newdeadline : ℕ)
          → rt_dtask_setdeadline task newdeadline w
            ≡ some (
                outcome (with_block w) (lookup (rname task) xs) λ p.
                  record (round_after (from_now (clock_of w) newdeadline) w xs ds p) {
                    live = block_of w ∷ w.live;
                  })
      unfolding rt_dtask_setdeadline store
      setdeadline_lem r = elim (Option-cases (lookup (rname task) xs)) [
        | inl missing ↦ rw (task_name_block_lem a, find_lem v a, missing)
        | inr (p, found) ↦
            let g = from_now (clock_of w) r in
            let (d, at_p, of_n, own) =
              lookup-entry P w.dtasks (rname task) p xs ds v.table.stored v.named found in
            rw (
              task_name_block_lem a,
              find_lem v a,
              found,
              load_lem p d (with_block w) at_p,
              change_lem g p d (clocked (with_block w)) at_p,
              round_after_lem g (rname task) p (block_of w ∷ w.live) (λ e. (refl, refl, refl)) short
                  found,
            )
      ]
