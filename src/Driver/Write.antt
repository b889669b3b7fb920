-- ===== src/Driver/Write.antt =====
-- The write handler of edfomai-drv.c on a valid table.
use edfomai.Base.{
  ℕ, ◌≡◌, ◌≢◌, refl, ◌∙◌, true, false, none, some, List, arith, ◌==◌, if◌then◌else◌, ℤ, pos, negsuc,
  Ptr, null, Name, Items, has, release, Bool-cases, Option-cases, pred, inl, inr, has_self,
}
use edfomai.Message.{EdfMessage}
use edfomai.Platform.{Platform, RtTask}
use edfomai.World.{World, RtDeadlineTask, Cmd, update}
use edfomai.World.Laws.{malloc_used-some, free_lem}
use edfomai.Dtask.Valid.{IsValid, owned}
use edfomai.Dtask.Owned.{has-release}
use edfomai.Dtask.Entry.{block_of, with_block}
use edfomai.Dtask.Waiting.{with_block-IsValid}
use edfomai.Driver.{dispatch, efault, is_efault, get_handle, copy_message, edf_rtdm_write_nrt}
use edfomai.Driver.Served.{Steady, Served}
use edfomai.Driver.Dispatch.{freed-IsValid, dispatch-Dispatched}

module _ {P : Platform} where
  open P use {rtdm_lock_get, rtdm_lock_put, rtdm_copy_from_user, stale_message, malloc_fresh}
  open P use {xnregistry_bind, xnregistry_fetch, t_desc}

  -- The message that the handler works on: what was copied, or what the block held before.
  abbrev pub request : World P → Ptr → EdfMessage
  request w buf = elim (rtdm_copy_from_user buf w.kernel) [
    | none ↦ stale_message (block_of w)
    | some m ↦ m
  ]

  -- The task that the registry knows by that name, or NULL.
  abbrev pub task_named : Name → World P → RtTask
  task_named n w =
      let (status, handle) = xnregistry_bind n w.kernel in
      let task = xnregistry_fetch handle w.kernel in
      if status == 0 then (if task == null then null else t_desc task) else null

  pub get_handle_lem : (n : Name) (w : World P) → get_handle n w ≡ some (task_named n w, w)
  unfolding get_handle
  get_handle_lem n w = ground arith

  pub copy_lem :
      (w : World P) (buf : Ptr)
      → (status : ℤ) × (copy_message (block_of w) buf (with_block w)
          ≡ some ((status, request w buf), with_block w))
        × (is_efault status ≡ false)
  unfolding copy_message
  copy_lem w buf = elim (Option-cases (rtdm_copy_from_user buf w.kernel)) [
    | inl e ↦ (negsuc (pred efault), rw (e, request, copy_message), refl)
    | inr (m, e) ↦ (pos 0, rw (e, request, copy_message), refl)
  ]

  module _ {w : World P} {xs : Items} {ds : List RtDeadlineTask} (v : IsValid w xs ds)
      (st : Steady P) where
    -- The block of the message is freed at the end.
    pub end_with :
        (op : Cmd P ℤ) (r : ℤ) (w' : World P) (ys : Items) (es : List RtDeadlineTask)
        → IsValid w' ys es
        → ((q : Ptr)
            → has q (with_block w).live ≡ true
            → has q (owned xs ds) ≡ false
            → (has q w'.live ≡ true) × (has q (owned ys es) ≡ false))
        → (has (block_of w) w'.live ≡ true
            → op w
              ≡ some (
                r,
                record w' {
                  live = release (block_of w) w'.live;
                  dtasks = update w'.dtasks (block_of w) none;
                },
              ))
        → (s : Served op w xs ds) × (s.result ≡ r)
          × (s.items_after ≡ ys)
          × (s.after.dtasks ≡ update w'.dtasks (block_of w) none)
    end_with op r w' ys es valid spares runs =
        let fresh = malloc_fresh w.live w.kernel in
        let unowned : has (block_of w) (owned xs ds) ≡ false =
          ground (arith, v.in_use (block_of w)) in
        let (held, out) = spares (block_of w) (has_self (block_of w) w.live) unowned in
        (
          record {
            result = r;
            after = record w' {
              live = release (block_of w) w'.live;
              dtasks = update w'.dtasks (block_of w) none;
            };
            items_after = ys;
            entries_after = es;
            runs = runs held;
            valid = freed-IsValid (block_of w) valid out;
            spares = λ q i o.
                let (left, other) = spares q (ground (arith, i)) o in
                (has-release (block_of w) q w'.live (ground (arith, fresh, i)) ∙ left, other);
          },
          refl,
          refl,
          refl,
        )

    -- On a valid table, with a kernel that knows its tasks, all with short names, and has memory,
    -- the write handler never faults and leaves a valid table, whatever the message says. It
    -- returns -1 if the registry does not know the task, and else the size of the request, whatever
    -- the operation returned. A message that could not be copied counts as the old content of the
    -- block.
    pub write-Served :
        (buf : Ptr) (nbyte : ℕ)
        → (s : Served (edf_rtdm_write_nrt buf nbyte) w xs ds) × (s.result
            ≡ (if task_named (request w buf).task w == null then negsuc 0 else pos nbyte))
    unfolding edf_rtdm_write_nrt
    write-Served buf nbyte =
        let block = block_of w in
        let m = request w buf in
        let task = task_named m.task w in
        let room = st.room w.live w.kernel in
        let (status, copied, no_fault) = copy_lem w buf in
        let u = with_block-IsValid v in
        elim (Bool-cases (task == null)) [
          | inl unknown ↦ rw unknown (
              let (s, same, _, _) =
                end_with (edf_rtdm_write_nrt buf nbyte) (negsuc 0) (with_block w) xs ds u
                  (λ q i o. (i, o))
                  λ held. rw (
                    malloc_used-some w room,
                    copied,
                    no_fault,
                    get_handle_lem m.task (with_block w),
                    unknown,
                    free_lem block (with_block w) room held,
                  ) in
              (s, same))
          | inr known ↦
              let d = dispatch-Dispatched u st block m task in
              rw known (
                let (s, same, _, _) =
                  end_with (edf_rtdm_write_nrt buf nbyte) (pos nbyte) d.after d.items_after
                    d.entries_after d.valid d.spares
                    λ held. rw (
                      malloc_used-some w room,
                      copied,
                      no_fault,
                      get_handle_lem m.task (with_block w),
                      known,
                      d.goes_on,
                      free_lem block d.after room held,
                    ) in
                (s, same))
        ]

module _ {P : Platform} (st : Steady P) where
  -- The write handler around a request that is dispatched and keeps the block of the message.
  pub write_lem :
      (buf : Ptr) (nbyte : ℕ) (t : RtTask) (w u : World P)
      → task_named (request w buf).task w ≡ t
      → t ≢ null
      → ((rest : Cmd P ℤ) → dispatch (block_of w) (request w buf) t rest (with_block w) ≡ rest u)
      → has (block_of w) u.live ≡ true
      → edf_rtdm_write_nrt buf nbyte w
        ≡ some (
          pos nbyte,
          record u {
            live = release (block_of w) u.live;
            dtasks = update u.dtasks (block_of w) none;
          },
        )
  unfolding edf_rtdm_write_nrt
  write_lem buf nbyte t w u named known goes_on held =
      let room = st.room w.live w.kernel in
      let (status, copied, no_fault) = copy_lem w buf in
      let not_null : (t == null) ≡ false = ground arith in
      rw (
        malloc_used-some w room,
        copied,
        no_fault,
        get_handle_lem (request w buf).task (with_block w),
        named,
        not_null,
        goes_on,
        free_lem (block_of w) u room held,
      )
