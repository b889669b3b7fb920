-- ===== src/Driver/Schedule/Requests.antt =====
-- A request of edfomai-drv.c that starts a deadline anew: the kernel's priorities follow the new
-- deadlines.
use edfomai.Base.{
  ℕ, ◌≡◌, ◌≢◌, refl, subst, ◌∙◌, Bool, true, false, none, some, List, ◌∷◌, arith, ◌==◌,
  if◌then◌else◌, ℤ, pos, Ptr, null, Items, has, has_self, release, lookup, ◌⊎◌, inl, inr, pointers,
}
use edfomai.Message.{EdfMessage, start_task, reset_deadline, set_deadline}
use edfomai.Platform.{Platform, RtTask}
use edfomai.World.{World, RtDeadlineTask, Cmd, update}
use edfomai.Recalc.Edf.{Near}
use edfomai.Dtask.{rt_dtask_setdeadline}
use edfomai.Dtask.Valid.{IsValid}
use edfomai.Dtask.Entry.{block_of}
use edfomai.Dtask.Change.{changed, change-IsValid}
use edfomai.Dtask.Restart.{
  from_now, clock_of, clocked, clocked-IsValid, round_after, resetdeadline_lem, setdeadline_lem,
}
use edfomai.Dtask.Waiting.{with_block-IsValid}
use edfomai.Driver.{locked, dispatch, edf_rtdm_write_nrt}
use edfomai.Driver.Served.{Steady, answers, all_short, kernel-IsValid}
use edfomai.Driver.Dispatch.{locked_lem, locked_world, unlocked}
use edfomai.Driver.Write.{write_lem, request, task_named}
use edfomai.Driver.Schedule.{Obedient}
use edfomai.Driver.Schedule.Rounds.{Follows, round-Follows}

-- The commands that give a task a new deadline.
abbrev pub Restarts : ℕ → Type 0
Restarts c = (c ≡ reset_deadline) ⊎ (c ≡ set_deadline) ⊎ (c ≡ start_task)

-- The entry after such a command: its own relative deadline, or that of the message, from now on.
abbrev pub anew : EdfMessage → ℕ → RtDeadlineTask → RtDeadlineTask
anew m now d =
    from_now now (if m.command == reset_deadline then d.relative_deadline else m.deadline) d

module _ {P : Platform} (O : Obedient P) (st : Steady P) where
  -- The entries after the request.
  abbrev pub entries_after :
      EdfMessage → Ptr → World P → Items → List RtDeadlineTask → List RtDeadlineTask
  entries_after m p w xs ds = changed (anew m (clock_of (locked_world w))) p (pointers xs) ds

  -- The clock is read again for the round.
  abbrev pub AllNear : EdfMessage → Ptr → World P → Items → List RtDeadlineTask → Type 0
  AllNear m p w xs ds = Near (clock_of (clocked (locked_world w))) (entries_after m p w xs ds)

  record Done (block : Ptr) (m : EdfMessage) (t : RtTask) (p : Ptr) (w : World P) (xs : Items)
      (ds : List RtDeadlineTask) : Type 0 where
    after : World P
    goes_on : (rest : Cmd P ℤ) → dispatch block m t rest w ≡ rest (unlocked after)
    keeps : (q : Ptr) → has q w.live ≡ true → has q after.live ≡ true
    follows : Follows O (entries_after m p w xs ds) after.kernel

  module _ {w : World P} {xs : Items} {ds : List RtDeadlineTask} (v : IsValid w xs ds) (t : RtTask)
      (p : Ptr) (found : lookup (P.rname t) xs ≡ some p) (block : Ptr) (m : EdfMessage)
      (near : AllNear m p w xs ds) where
    in_lock : IsValid (locked_world w) xs ds
    in_lock = kernel-IsValid (P.rtdm_lock_get w.kernel) v

    -- The state of the kernel after the round, by the outcome of the test of the command.
    abbrev after_round : Bool → P.State
    after_round is_reset =
        let w' = locked_world w in
        let g = λ (d : RtDeadlineTask).
          from_now (clock_of w') (if is_reset then d.relative_deadline else m.deadline) d in
        (round_after g w' xs ds p).kernel

    anew-Follows :
        (b : Bool)
        → (m.command == reset_deadline) ≡ b
        → Follows O (entries_after m p w xs ds) (after_round b)
    anew-Follows b is =
        let g = anew m (clock_of (locked_world w)) in
        let valid = change-IsValid g p (λ d. (refl, refl, refl)) (clocked-IsValid in_lock) in
        subst (λ b. Follows O (entries_after m p w xs ds) (after_round b)) is
          (round-Follows O st xs (changed g p (pointers xs) ds) valid near)

    -- The requests that carry the deadline.
    set-Done :
        (picks : (rest : Cmd P ℤ)
          → dispatch block m t rest w ≡ locked block (rt_dtask_setdeadline t m.deadline) rest w)
        → (m.command == reset_deadline) ≡ false
        → Done block m t p w xs ds
    set-Done picks other =
        let w' = locked_world w in
        let g = from_now (clock_of w') m.deadline in
        let u : World P = record (round_after g w' xs ds p) { live = block_of w' ∷ w.live } in
        let lem = setdeadline_lem in_lock (answers st t w') (all_short st ds) m.deadline in
        record {
          after = u;
          goes_on = λ rest. picks rest ∙ locked_lem block _ rest w (pos 0) u (rw found at lem);
          keeps = λ q h. ground arith;
          follows = anew-Follows false other;
        }

    restart-Done : Restarts m.command → Done block m t p w xs ds
    unfolding dispatch
    restart-Done (inl c) =
        let w' = locked_world w in
        let g = λ (d : RtDeadlineTask). from_now (clock_of w') d.relative_deadline d in
        let lem = resetdeadline_lem in_lock (answers st t w') (all_short st ds) in
        let is : (m.command == reset_deadline) ≡ true = rw c in
        record {
          after = round_after g w' xs ds p;
          goes_on = λ rest.
              rw (dispatch, c)
                (locked_lem block _ rest w (pos 0) (round_after g w' xs ds p) (rw found at lem));
          keeps = λ q h. h;
          follows = anew-Follows true is;
        }
    restart-Done (inr (inl c)) = set-Done (λ rest. rw (dispatch, c)) (rw c)
    restart-Done (inr (inr c)) = set-Done (λ rest. rw (dispatch, c)) (rw c)

  -- From a valid table, with a kernel that knows its tasks, all with short names, has memory, and
  -- gives a task the priority that is set: a START_TASK, RESET_DEADLINE or SET_DEADLINE request for
  -- a task that the registry knows and that has an entry returns the size of the request, when every
  -- active deadline, the new one in place of the old, is less than 2 ^ 64 / 50 ns after the second
  -- reading of the clock. Then, of the tasks of any two entries that are running with a deadline not
  -- reported as missed before the request, or are started anew by it, the kernel gives that with the
  -- earlier deadline no lower priority, the new deadline counted.
  pub write-Follows :
      {w : World P} {xs : Items} {ds : List RtDeadlineTask}
      → IsValid w xs ds
      → (buf : Ptr) (nbyte : ℕ) (t : RtTask) (p : Ptr) → Restarts (request w buf).command
      → task_named (request w buf).task w ≡ t
      → t ≢ null
      → lookup (P.rname t) xs ≡ some p
      → AllNear (request w buf) p w xs ds
      → (w' : World P) × (edf_rtdm_write_nrt buf nbyte w ≡ some (pos nbyte, w'))
        × Follows O (entries_after (request w buf) p w xs ds) w'.kernel
  write-Follows {w} {xs} {ds} v buf nbyte t p command named known found near =
      let block = block_of w in
      let m = request w buf in
      let done = restart-Done (with_block-IsValid v) t p found block m near command in
      let u = unlocked done.after in
      (
        record u { live = release block u.live; dtasks = update u.dtasks block none },
        write_lem st buf nbyte t w u named known done.goes_on
            (done.keeps block (has_self block w.live)),
        λ d e i j ready busy le.
            rw (O.unlocked d.task done.after.kernel, O.unlocked e.task done.after.kernel)
              (done.follows d e i j ready busy le),
      )
