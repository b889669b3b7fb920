-- ===== src/App/Device.antt =====
-- edf_init and edf_dispose of edfomai-app.c: the descriptor of the device.
use edfomai.Base.{ℕ, ◌≡◌, refl, true, some, arith, ◌>>=◌, ℤ, pos, negsuc, Bool-cases, inl, inr}
use edfomai.Driver.{failed}
use edfomai.App.{
  Skin, App, no_device, is_no_device, is_negative, edf_init, edf_dispose, mtx_create, mtx_delete,
  mtx_acquire,
}

-- The descriptor is that of a device, or -1.
abbrev pub HasDevice : ℤ → Type 0
HasDevice d = is_negative d ≡ is_no_device d

module _ {S : Skin} where
  open S use {State, rt_dev_open, rt_dev_close}

  -- init always returns: 0 with the descriptor of the opened device, or -1 with the descriptor -1;
  -- no block is left in use.
  init-HasDevice :
      (a : App S)
      → (r : ℤ) × (b : App S) × (edf_init a ≡ some (r, b))
        × HasDevice b.device
        × (failed r ≡ is_no_device b.device)
        × (b.live ≡ a.live)
  unfolding edf_init mtx_create
  init-HasDevice a = elim (Bool-cases (is_negative (rt_dev_open a.os).0)) [
    | inl e ↦ (
      negsuc 0,
      record a { os = (rt_dev_open a.os).1; device = no_device },
      rw e,
      refl,
      refl,
      refl,
    )
    | inr e ↦ (
      pos 0,
      record a { os = (rt_dev_open a.os).1; device = (rt_dev_open a.os).0 },
      rw e,
      ground arith,
      ground arith,
      refl,
    )
  ]

  -- When the device opens and closes, init and then dispose return 0, each after its one call.
  init-dispose :
      (a : App S) (fd : ℕ) (s s' : State)
      → rt_dev_open a.os ≡ (pos fd, s)
      → rt_dev_close (pos fd) s ≡ (pos 0, s')
      → (edf_init >>= λ _. edf_dispose) a ≡ some (pos 0, record a { os = s'; device = pos fd })
  unfolding edf_init edf_dispose mtx_create mtx_delete mtx_acquire
  init-dispose a fd s s' opens closes = rw (opens, closes)

  -- After a dispose that returned 0 the descriptor is kept, so that a second dispose closes it again:
  -- when that fails, as it does on a closed descriptor, it returns -2 and only then forgets it.
  dispose_twice :
      (a : App S) (fd : ℕ) (r : ℤ) (s s' : State)
      → a.device ≡ pos fd
      → rt_dev_close (pos fd) a.os ≡ (pos 0, s)
      → rt_dev_close (pos fd) s ≡ (r, s')
      → failed r ≡ true
      → (edf_dispose >>= λ _. edf_dispose) a
        ≡ some (negsuc 1, record a { os = s'; device = no_device })
  unfolding edf_dispose mtx_delete mtx_acquire
  dispose_twice a fd r s s' open_at once again bad = rw (open_at, once, again, bad)
