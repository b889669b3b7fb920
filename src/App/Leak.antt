-- ===== src/App/Leak.antt =====
-- What becomes of the descriptors that edf_init of edfomai-app.c opens, when several tasks of one process
-- use the library. The calls of different tasks come one after the other here, each as a whole.
use edfomai.Base.{
  ℕ, M, Bool, ◌≡◌, ◌≢◌, refl, true, false, some, List, [], ◌∷◌, arith, pure, ◌>>=◌, ◌>>◌, for_each,
  ℤ, pos, negsuc, Ptr, null, Bool-cases, inl, inr,
}
use edfomai.Platform.{RtTask, Inquiry, filled, refused}
use edfomai.Message.{EdfMessage}
use edfomai.Driver.{failed}
use edfomai.App.{
  Skin, App, is_no_device, no_device, edf_init, edf_dispose, edf_task_start, edf_task_wait_period,
  mtx_create, mtx_delete, mtx_acquire,
}
use edfomai.App.Task.{started, waited, task_start_lem, task_wait_period_lem}

-- The open descriptors: a new one was not open before, a close concerns the descriptor that it is
-- given, and the other calls leave them alone.
pub record Descriptors (S : Skin) : Type 0 where
  pub is_open : ℕ → S.State → Bool
  pub open_new :
      (fd : ℕ) (s s' : S.State)
      → S.rt_dev_open s ≡ (pos fd, s')
      → (is_open fd s ≡ false) × (is_open fd s' ≡ true)
  pub open_keeps : (d : ℕ) (s : S.State) → is_open d s ≡ true → is_open d (S.rt_dev_open s).1 ≡ true
  pub close_keeps :
      (d : ℕ) (fd : ℤ) (s : S.State)
      → fd ≢ pos d
      → is_open d s ≡ true
      → is_open d (S.rt_dev_close fd s).1 ≡ true
  pub write_keeps :
      (d : ℕ) (fd : ℤ) (m : EdfMessage) (s : S.State)
      → is_open d s ≡ true
      → is_open d (S.rt_dev_write fd m s).1 ≡ true
  pub start_keeps :
      (d : ℕ) (t : RtTask) (f arg : Ptr) (s : S.State)
      → is_open d s ≡ true
      → is_open d (S.rt_task_start t f arg s).1 ≡ true
  pub wait_keeps :
      (d : ℕ) (p : Ptr) (s : S.State)
      → is_open d s ≡ true
      → is_open d (S.rt_task_wait_period p s).1 ≡ true

-- A call of the library.
pub data Use : Type 0 where
  initialises : Use
  disposes : Use
  starts : RtTask → ℕ → Ptr → Ptr → Use
  waits : Ptr → Use

module _ {S : Skin} where
  unfoldable pub use_library : Use → M (App S) (Unit {0})
  use_library initialises = do _ ← edf_init; pure tt
  use_library disposes = do _ ← edf_dispose; pure tt
  use_library (starts task deadline procedure arg) = do
    _ ← edf_task_start task deadline procedure arg
    pure tt
  use_library (waits overruns) = do _ ← edf_task_wait_period overruns; pure tt

module _ {S : Skin} (D : Descriptors S) (d : ℕ) where
  open S use {State, rt_dev_open, rt_dev_close, rt_dev_write, rt_task_start, rt_task_wait_period}
  open D use {is_open, open_new, open_keeps, close_keeps, write_keeps, start_keeps, wait_keeps}

  -- The descriptor d is open, and the library has forgotten it.
  abbrev pub Lost : App S → Type 0
  Lost a = (is_open d a.os ≡ true) × (a.device ≢ pos d)

  pub init-Lost :
      (a : App S)
      → is_open d a.os ≡ true
      → (r : ℤ) × (b : App S) × (edf_init a ≡ some (r, b)) × Lost b
  unfolding edf_init mtx_create
  init-Lost a held = go (rt_dev_open a.os).0 (rt_dev_open a.os).1 refl (open_keeps d a.os held)
    where
      go :
          (z : ℤ) (s : State)
          → rt_dev_open a.os ≡ (z, s)
          → is_open d s ≡ true
          → (r : ℤ) × (b : App S) × (edf_init a ≡ some (r, b)) × Lost b
      go (negsuc n) s e kept =
          (negsuc 0, record a { os = s; device = no_device }, rw e, (kept, λ x. cc))
      go (pos fd) s e kept =
          let fresh = (open_new fd a.os s e).0 in
          (
            pos 0,
            record a { os = s; device = pos fd },
            rw e,
            (kept, λ x. ground (arith, held, fresh, x)),
          )

  pub dispose-Lost :
      (a : App S) → Lost a → (r : ℤ) × (b : App S) × (edf_dispose a ≡ some (r, b)) × Lost b
  unfolding edf_dispose mtx_acquire mtx_delete
  dispose-Lost a (held, other) =
      let s = (rt_dev_close a.device a.os).1 in
      let kept = close_keeps d a.device a.os other held in
      elim (Bool-cases (is_no_device a.device)) [
        | inl e ↦ (negsuc 0, a, rw e, (held, other))
        | inr e ↦ elim (Bool-cases (failed (rt_dev_close a.device a.os).0)) [
          | inl k ↦ (negsuc 1, record a { os = s; device = no_device }, rw (e, k), (kept, λ x. cc))
          | inr k ↦ (pos 0, record a { os = s }, rw (e, k), (kept, other))
        ]
      ]

  pub started-open :
      (task : RtTask) (deadline : ℕ) (procedure arg : Ptr) (a : App S)
      → is_open d a.os ≡ true
      → (q : Inquiry)
      → (is_open d (started task deadline procedure arg a q).1.os ≡ true)
        × ((started task deadline procedure arg a q).1.device ≡ a.device)
  started-open task deadline procedure arg a held (refused n) = (held, refl)
  started-open task deadline procedure arg a held (filled info) =
      elim (Bool-cases (is_no_device a.device)) [
        | inl e ↦ rw e (held, refl)
        | inr e ↦
            rw e (start_keeps d task procedure arg _ (write_keeps d a.device _ a.os held), refl)
      ]

  waited-Lost : (overruns : Ptr) (a : App S) → Lost a → (q : Inquiry) → Lost (waited overruns a q).1
  waited-Lost overruns a l (refused n) = l
  waited-Lost overruns a (held, other) (filled info) =
      let kept = wait_keeps d overruns _ (write_keeps d a.device _ a.os held) in
      elim (Bool-cases (is_no_device a.device)) [
        | inl e ↦ rw e (kept, other)
        | inr e ↦ rw e (write_keeps d a.device _ _ kept, other)
      ]

  module _ (room : (live : List Ptr) (s : State) → S.malloc live s ≢ null)
      (in_task : (s : State) → S.rt_task_self s ≢ null) where
    use-Lost :
        (u : Use) (a : App S) → Lost a → (b : App S) × (use_library u a ≡ some (tt, b)) × Lost b
    unfolding use_library
    use-Lost initialises a l = let (r, b, e, l') = init-Lost a l.0 in (b, rw e, l')
    use-Lost disposes a l = let (r, b, e, l') = dispose-Lost a l in (b, rw e, l')
    use-Lost (starts task deadline procedure arg) a (held, other) =
        let q = S.rt_task_inquire task a.os in
        let (kept, same) = started-open task deadline procedure arg a held q in
        (
          (started task deadline procedure arg a q).1,
          rw (task_start_lem task deadline procedure arg a (room a.live a.os)),
          (kept, rw same other),
        )
    use-Lost (waits overruns) a l =
        let q = S.rt_task_inquire (S.rt_task_self a.os) a.os in
        (
          (waited overruns a q).1,
          rw (task_wait_period_lem overruns a (room a.live a.os) (in_task a.os)),
          waited-Lost overruns a l q,
        )

    pub uses-Lost :
        (us : List Use) (a : App S)
        → Lost a
        → (b : App S) × (for_each us use_library a ≡ some (tt, b)) × Lost b
    unfolding for_each
    uses-Lost [] a l = (a, refl, l)
    uses-Lost (u ∷ us) a l =
        let (b, e, l') = use-Lost u a l in let (c, e', l'') = uses-Lost us b l' in (c, rw e e', l'')

    -- Where memory is not exhausted and the callers are tasks: an edf_init when a descriptor is open,
    -- successful or not, and any calls of the library after it return, and that descriptor stays
    -- open, whatever the calls are.
    pub init-leaks :
        (a : App S) (us : List Use)
        → is_open d a.os ≡ true
        → (r : ℤ) × (b : App S) × ((edf_init >>= λ r. for_each us use_library >> pure r) a
            ≡ some (r, b))
          × (is_open d b.os ≡ true)
    init-leaks a us held =
        let (r, b, e, l) = init-Lost a held in
        let (c, e', l') = uses-Lost us b l in (r, c, rw (e, e'), l'.0)
