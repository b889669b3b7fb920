-- ===== src/Prio.antt =====
-- div64_64 and _calculate_prio of edfomai-drv-data.c: how a remaining time becomes a priority.
-- An `int` is its 32-bit pattern; uint64_t arithmetic wraps modulo 2 ^ 64.
pub mod Divide
pub mod Order
pub mod Overflow
use edfomai.Base.{ℕ, ◌+◌, ◌-◌, ◌*◌, ◌/◌, ◌%◌, ◌^◌, ◌≤◌, ◌<◌, ◌≡◌, Bool, ◌==◌, if◌then◌else◌}

-- The kernel's `fls` and `do_div`: the position of the last set bit, counted from 1, and the
-- quotient of a 64-bit number by a 32-bit one.
pub record Div64 : Type 0 where
  pub fls : ℕ → ℕ
  pub do_div : ℕ → ℕ → ℕ
  pub fls_above : (x : ℕ) → x < 2 ^ 32 → x < 2 ^ fls x
  pub fls_below : (x : ℕ) → 0 < x → x < 2 ^ 32 → 2 ^ fls x ≤ 2 * x
  pub do_div_quotient : (n d : ℕ) → 0 < d → d < 2 ^ 32 → do_div n d ≡ n / d

abbrev pub max_prio : ℕ
max_prio = 50

abbrev pub min_prio : ℕ
min_prio = 0

-- Unsigned 64-bit difference and product.
abbrev pub sub64 : ℕ → ℕ → ℕ
sub64 a b = (a + 2 ^ 64 - b) % 2 ^ 64

abbrev pub mul64 : ℕ → ℕ → ℕ
mul64 a b = (a * b) % 2 ^ 64

module _ (k : Div64) where
  open k use {fls, do_div}

  unfoldable pub div64_64 : ℕ → ℕ → ℕ
  div64_64 dividend divisor =
      let high = divisor / 2 ^ 32 % 2 ^ 32 in
      if high == 0
      then do_div dividend (divisor % 2 ^ 32)
      else do_div (dividend / 2 ^ fls high) (divisor / 2 ^ fls high % 2 ^ 32)

  -- The number b by which the scaled distance is divided.
  unfoldable pub divisor_of : ℕ → ℕ → ℕ → ℕ
  divisor_of remain min_remain max_remain =
      if sub64 max_remain min_remain == 0
      then (if remain == 0 then 1 else remain)
      else sub64 max_remain min_remain

  unfoldable pub calculate_prio : ℕ → ℕ → ℕ → ℕ
  unfolding divisor_of
  calculate_prio remain min_remain max_remain =
      let a = mul64 (sub64 remain min_remain) (max_prio - min_prio) in
      let b = divisor_of remain min_remain max_remain in
      let r = div64_64 a b in (max_prio + 2 ^ 32 - r % 2 ^ 32) % 2 ^ 32
