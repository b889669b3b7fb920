-- ===== src/Tests/Sim.antt =====
-- A platform on which the model runs: a clock that stands still, and logs of the calls.
use native.Mathlib.Nat.{pow-suc}
use edfomai.Base.{
  pos, ℕ, zero, suc, ◌+◌, ◌-◌, ◌*◌, ◌/◌, ◌%◌, ◌^◌, ◌≤◌, ◌<◌, ◌≡◌, refl, Bool, true, false, none,
  some, List, [], ◌∷◌, ◌++◌, arith, ◌==◌, if◌then◌else◌, Ptr, Name, Items, lookup, remove, has,
  length, Bool-cases, inl, inr, replicate, NoNul,
}
use edfomai.Message.{EdfMessage}
use edfomai.Prio.{Div64}
use edfomai.Platform.{TaskInfo, filled, Kernel, Uthash, Platform}

-- The number of binary digits, of which fuel bounds the search.
unfoldable pub digits : ℕ → ℕ → ℕ
digits zero x = 0
digits (suc n) x = if x == 0 then 0 else suc (digits n (x / 2))

digits-above : (n x : ℕ) → x < 2 ^ n → x < 2 ^ digits n x
unfolding digits
digits-above zero x h = h
digits-above (suc n) x h = elim (Bool-cases (x == 0)) [
  | inl e ↦ rw e (ground arith)
  | inr e ↦
      rw (e, pow-suc 2 (digits n (x / 2)))
        (omega (arith, digits-above n (x / 2) (omega (arith, pow-suc 2 n))))
]

digits-zero : (n : ℕ) → digits n 0 ≡ 0
unfolding digits
digits-zero zero = refl
digits-zero (suc n) = refl

digits-below : (n x : ℕ) → 0 < x → x < 2 ^ n → 2 ^ digits n x ≤ 2 * x
unfolding digits
digits-below zero x some_x h = omega arith
digits-below (suc n) x some_x h =
    let more : (x == 0) ≡ false = ground arith in
    rw (more, pow-suc 2 (digits n (x / 2)))
      (elim (Bool-cases (x / 2 == 0)) [
        | inl e ↦
            let none_left : x / 2 ≡ 0 = ground arith in rw (none_left, digits-zero n) (omega arith)
        | inr e ↦
            let some_left : 0 < x / 2 = ground arith in
            omega (arith, digits-below n (x / 2) some_left (omega (arith, pow-suc 2 n)))
      ])

unfoldable pub total : List Ptr → ℕ
total [] = 0
total (p ∷ ps) = p + total ps

has-le-total : (q : Ptr) (ps : List Ptr) → has q ps ≡ true → q ≤ total ps
unfolding total
has-le-total q [] h = ground arith
has-le-total q (p ∷ ps) h = ground (arith, has-le-total q ps)

pub fresh-unused : (live : List Ptr) → has (suc (total live)) live ≡ false
fresh-unused live = elim (Bool-cases (has (suc (total live)) live)) [
  | inl used ↦ absurd (omega (arith, has-le-total (suc (total live)) live used))
  | inr free ↦ free
]

-- The clock, the current priorities (newest first), what went to the queue, and the message in the
-- user's buffer at address 1.
pub record Sim : Type 0 where
  pub clock : ℕ
  pub prios : List (ℕ × ℕ)
  pub sent : List (List ℕ)
  pub locked : Bool
  pub signals : ℕ
  pub mailbox : EdfMessage

unfoldable pub prio_in : List (ℕ × ℕ) → ℕ → ℕ
prio_in [] t = 20
prio_in ((u, n) ∷ ps) t = if u == t then n else prio_in ps t

-- Task t is called "T" and a character that depends on t.
abbrev pub sim_name : ℕ → Name
sim_name t = b'T' ∷ (b'0' + t) ∷ []

pub clock-word : (s : Sim) → s.clock % 2 ^ 64 < 2 ^ 64
clock-word s = omega arith

pub sim_name-inquire :
    (t : ℕ) (s : Sim) (i : TaskInfo)
    → filled (record { name = sim_name t; cprio = prio_in s.prios t }) ≡ filled i
    → i.name ≡ sim_name t
sim_name-inquire t s i e = ground arith

pub sim_name-NoNul : (t : ℕ) → NoNul (sim_name t)
sim_name-NoNul t = omega arith

pub div_div : (n d : ℕ) → 0 < d → d < 2 ^ 32 → n / d ≡ n / d
div_div n d some_x h = refl

pub below_33 : (x : ℕ) → x < 2 ^ 32 → x < 2 ^ digits 33 x
below_33 x h = digits-above 33 x (omega arith)

pub above_33 : (x : ℕ) → 0 < x → x < 2 ^ 32 → 2 ^ digits 33 x ≤ 2 * x
above_33 x some_x h = digits-below 33 x some_x (omega arith)

abbrev pub sim_div : Div64
sim_div = record {
  fls = digits 33;
  do_div = λ n d. n / d;
  fls_above = below_33;
  fls_below = above_33;
  do_div_quotient = div_div;
}

-- The message that is in the buffer at first. No other buffer can be read.
abbrev pub user_message : EdfMessage
user_message = record { command = 0; task = sim_name 1; deadline = 500 }

abbrev pub sim_kernel : Kernel
sim_kernel = record {
  State = Sim;
  rname = sim_name;
  rt_timer_read = λ s. (s.clock % 2 ^ 64, s);
  rt_task_inquire = λ t s. filled (record { name = sim_name t; cprio = prio_in s.prios t });
  rt_task_set_priority = λ t n s. record s { prios = (t, n) ∷ s.prios };
  rt_queue_write = λ m s. record s { sent = m ∷ s.sent };
  rtdm_malloc = λ live s. suc (total live);
  stale_info = λ p. record { name = []; cprio = 0 };
  stale_message = λ p. record { command = 1; task = sim_name 2; deadline = 7 };
  stale_chars = replicate 24 b'?';
  rtdm_copy_from_user = λ p s. if p == 1 then some s.mailbox else none;
  xnregistry_bind =
      λ n s. elim n [ [] ↦ (3, 0) | c ∷ cs ↦ elim cs [ [] ↦ (3, 0) | d ∷ ds ↦ (0, d - b'0') ] ];
  xnregistry_fetch = λ h s. h;
  t_desc = λ p. p;
  rtdm_lock_get = λ s. record s { locked = true };
  rtdm_lock_put = λ s. record s { locked = false };
  rtdm_event_signal = λ s. record s { signals = s.signals + 1 };
  rtdm_event_clear = λ s. record s { signals = 0 };
  rtdm_dev_register = λ s. (pos 0, s);
  rtdm_dev_unregister = λ s. s;
  rtdm_lock_init = λ s. record s { locked = false };
  rt_queue_create = λ s. record s { sent = [] };
  rt_queue_delete = λ s. record s { sent = [] };
  rtdm_event_init = λ s. record s { signals = 0 };
  rtdm_event_destroy = λ s. s;
  rtdm_task_init = λ s. s;
  rtdm_task_destroy = λ s. s;
  rt_task_add_hook = λ hooks s. (pos 0, s);
  rt_task_remove_hook = λ hooks s. s;
  timer_word = clock-word;
  rname_text = sim_name-NoNul;
  inquire_name = sim_name-inquire;
  malloc_fresh = λ live s. fresh-unused live;
  stale_length = refl;
}

abbrev pub sim_hash : Uthash
sim_hash = record {
  Table = Items;
  empty = [];
  hash_find_str = lookup;
  hash_add_str = λ n p t. t ++ (n, p) ∷ [];
  hash_del = remove;
  hash_count = length;
  items = λ t. t;
  items_empty = refl;
  items_add = λ n p t. refl;
  items_del = λ p t. refl;
  find_lookup = λ n t u. refl;
  count_length = λ t. refl;
}

abbrev pub sim : Platform
sim = record { kernel = sim_kernel; hash = sim_hash; div = sim_div }
