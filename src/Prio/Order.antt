-- ===== src/Prio/Order.antt =====
-- What _calculate_prio of edfomai-drv-data.c guarantees of the priorities it hands out.
use native.Mathlib.Nat.{le_trans, le-div_iff_mul-le}
use native.Mathlib.Decide.{dec_lt}
use edfomai.Base.{ℕ, ◌+◌, ◌-◌, ◌*◌, ◌/◌, ◌^◌, ◌≤◌, ◌<◌, ◌≡◌, arith}
use edfomai.Prio.{Div64, max_prio, min_prio, sub64, mul64, div64_64, divisor_of, calculate_prio}
use edfomai.Prio.Divide.{div64_64-close, div64_64-le, div64_64_mono}

-- A remaining time between the least and the greatest one of a round, whose distances can be
-- scaled to the 50 priorities in 64 bits.
pub record Window (min_remain remain max_remain : ℕ) : Type 0 where
  pub above : min_remain ≤ remain
  pub below : remain ≤ max_remain
  pub word : max_remain < 2 ^ 64
  pub scaled : (max_remain - min_remain) * 50 < 2 ^ 64

module _ (k : Div64) where
  -- The share of the 50 priorities that a remaining time is away from the top.
  abbrev pub drop_of : ℕ → ℕ → ℕ → ℕ
  drop_of remain min_remain max_remain =
      div64_64 k (mul64 (sub64 remain min_remain) 50) (divisor_of k remain min_remain max_remain)

  module _ {lo x hi : ℕ} (w : Window lo x hi) where
    open w use {above, below, word, scaled}

    distance : mul64 (sub64 x lo) 50 ≡ (x - lo) * 50
    distance = omega arith

    divisor : (0 < divisor_of k x lo hi) × (divisor_of k x lo hi < 2 ^ 64)
    unfolding divisor_of
    divisor = ground arith

    divisor-ne : lo < hi → divisor_of k x lo hi ≡ hi - lo
    unfolding divisor_of
    divisor-ne lt = ground arith

    share : (x - lo) * 50 ≤ 50 * divisor_of k x lo hi
    unfolding divisor_of
    share = ground arith

    drop-le : drop_of x lo hi ≤ 50
    drop-le = rw distance (div64_64-le k _ _ 50 divisor.0 divisor.1 (omega arith) share)

    prio_lem : calculate_prio k x lo hi ≡ 50 - drop_of x lo hi
    unfolding calculate_prio
    prio_lem = omega (arith, drop-le)

  -- For a time between the least and the greatest one, whose distance times 50 fits in 64 bits, the
  -- priority is at most 50; the least time gets 50, and the greatest gets 0 if the two differ.
  pub calculate_prio_bounds :
      {lo x hi : ℕ} (w : Window lo x hi)
      → (calculate_prio k x lo hi ≤ max_prio)
        × (x ≡ lo → calculate_prio k x lo hi ≡ max_prio)
        × (x ≡ hi → lo < hi → calculate_prio k x lo hi ≡ min_prio)
  calculate_prio_bounds {lo} {x} {hi} w = (
    omega (arith, prio_lem w),
    λ e.
        let none_off : drop_of x lo hi ≤ 0 =
          rw (distance w)
            (div64_64-le k _ _ 0 (divisor w).0 (divisor w).1 (omega arith) (omega arith)) in
        omega (arith, prio_lem w),
    λ e lt.
        let all_off : 50 ≤ drop_of x lo hi =
          rw (distance w, divisor-ne w lt)
            (le_trans (whole (hi - lo) ((x - lo) * 50) (omega arith) (omega arith))
              (div64_64-close k _ _ (omega arith) (omega (arith, w.word)) (omega arith)).0) in
        omega (arith, prio_lem w),
  )
    where
      whole : (b a : ℕ) → 0 < b → 50 * b ≤ a → 50 ≤ a / b
      whole b a pos le = (le-div_iff_mul-le pos).1 le

  -- For two times between the least and the greatest one, whose distance times 50 fits in 64 bits,
  -- a task with no more time left than another has no lower priority.
  pub calculate_prio_antitone :
      {lo x y hi : ℕ}
      → Window lo x hi
      → Window lo y hi
      → x ≤ y
      → calculate_prio k y lo hi ≤ calculate_prio k x lo hi
  calculate_prio_antitone {lo} {x} {y} {hi} w v le = elim (dec_lt lo hi) [
    | yes lt ↦
        let more : drop_of x lo hi ≤ drop_of y lo hi =
          rw (distance w, distance v, divisor-ne w lt, divisor-ne v lt)
            (div64_64_mono k _ _ _ (omega arith) (omega (arith, w.word)) (omega arith)) in
        omega (arith, more, prio_lem w, prio_lem v)
    | no flat ↦
        let e : x ≡ y = omega (arith, w.above, w.below, v.above, v.below) in rw e (omega arith)
  ]

  -- For a time between the least and the greatest one, which differ, and whose distance times 50
  -- fits in 64 bits, the priority is 50 less the scaled distance from the least time, or one less
  -- than that; and it is exact if the times span less than 2 ^ 32.
  pub calculate_prio_close :
      {lo x hi : ℕ}
      → Window lo x hi
      → lo < hi
      → let exact = (x - lo) * 50 / (hi - lo) in
        (calculate_prio k x lo hi + exact ≤ 50)
        × (50 ≤ calculate_prio k x lo hi + exact + 1)
        × (hi - lo < 2 ^ 32 → calculate_prio k x lo hi + exact ≡ 50)
  calculate_prio_close {lo} {x} {hi} w lt =
      let close =
        div64_64-close k ((x - lo) * 50) (hi - lo) (omega arith) (omega (arith, w.word))
          (omega arith) in
      let same : drop_of x lo hi ≡ div64_64 k ((x - lo) * 50) (hi - lo) =
        rw (distance w, divisor-ne w lt) in
      (
        omega (arith, prio_lem w, drop-le w, same, close.0),
        omega (arith, prio_lem w, drop-le w, same, close.1),
        λ short. omega (arith, prio_lem w, drop-le w, same, close.2 short),
      )
