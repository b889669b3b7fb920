-- ===== src/Prio/Overflow.antt =====
-- What the 64-bit product in _calculate_prio of edfomai-drv-data.c does once it wraps.
use native.Mathlib.Nat.{le_trans, le-div_iff_mul-le}
use edfomai.Base.{ℕ, ◌+◌, ◌-◌, ◌*◌, ◌^◌, ◌≤◌, ◌<◌, ◌≡◌, arith}
use edfomai.Prio.{Div64, sub64, mul64, div64_64, divisor_of, calculate_prio}
use edfomai.Prio.Divide.{div64_64-close, div64_64-le}

module _ (k : Div64) {lo hi : ℕ} (word : hi < 2 ^ 64) where
  wide_divisor : (z : ℕ) → lo < hi → divisor_of k z lo hi ≡ hi - lo
  unfolding divisor_of
  wide_divisor z lt = ground arith

  -- Of two tasks, the first with less time left: when the product by 50 of the first one's distance
  -- from the least time does not wrap and is at least three times the span of the times, and that
  -- of the second one wraps by at most the span, the second gets the higher priority.
  pub calculate_prio_inverts :
      (x y : ℕ)
      → lo < x
      → x < y
      → y ≤ hi
      → (x - lo) * 50 < 2 ^ 64
      → 3 * (hi - lo) ≤ (x - lo) * 50
      → 2 ^ 64 ≤ (y - lo) * 50
      → (y - lo) * 50 ≤ 2 ^ 64 + (hi - lo)
      → calculate_prio k x lo hi < calculate_prio k y lo hi
  unfolding calculate_prio
  calculate_prio_inverts x y from lt to fits far wraps near =
      let b_pos : 0 < hi - lo = omega arith in
      let b_word : hi - lo < 2 ^ 64 = omega arith in
      let low =
        div64_64-le k (mul64 (sub64 y lo) 50) (hi - lo) 1 b_pos b_word (omega arith)
          (omega arith) in
      let high =
        div64_64-le k (mul64 (sub64 x lo) 50) (hi - lo) 50 b_pos b_word (omega arith)
          (omega arith) in
      let three : 3 ≤ div64_64 k (mul64 (sub64 x lo) 50) (hi - lo) =
        le_trans ((le-div_iff_mul-le b_pos).1 (omega arith))
          (div64_64-close k (mul64 (sub64 x lo) 50) (hi - lo) b_pos b_word (omega arith)).0 in
      rw (wide_divisor x (omega arith), wide_divisor y (omega arith)) (omega arith)
