-- ===== src/Prio/Divide.antt =====
-- How close div64_64 of edfomai-drv-data.c comes to the true quotient.
use native.Mathlib.Nat.{
  le_trans, div-mul-le_self, le-div_iff_mul-le, div-lt_iff_lt-mul, lt-mul-div-succ,
  div-div-eq-div-mul, mod-eq_of_lt, lt-div-mul-add, mul-le-mul_left, mul-le-mul_right,
  div-le_of_le-mul, mul_comm,
}
use native.Mathlib.Decide.{dec_lt}
use edfomai.Base.{ℕ, zero, suc, ◌+◌, ◌*◌, ◌/◌, ◌%◌, ◌^◌, ◌≤◌, ◌<◌, ◌≡◌, true, false, arith, ◌==◌}
use edfomai.Prio.{Div64, div64_64}

div_antitone : (a m n : ℕ) → 0 < m → m ≤ n → a / n ≤ a / m
div_antitone a m n pos le = (le-div_iff_mul-le pos).1 (grind (arith, div-mul-le_self a n))

div_mono : (a b m : ℕ) → 0 < m → a ≤ b → a / m ≤ b / m
div_mono a b m pos le = (le-div_iff_mul-le pos).1 (le_trans (div-mul-le_self a m) le)

-- What rounding `b` down to `p * d` can add to a multiple of it.
scale-le : (k b p d : ℕ) → k ≤ d → b ≤ p * d + p → k * b ≤ k * (p * d) + p * d
scale-le k b p d small le =
    let spread : k * b ≤ k * (p * d + p) = mul-le-mul_left k le in
    let slack : k * p ≤ d * p = mul-le-mul_right p small in omega arith

scale-lt : (k b p d : ℕ) → k ≤ d → 0 < p * d → b < p * d + p → k * b < (k + 1) * (p * d)
scale-lt zero b p d small pos lt = omega arith
scale-lt (suc k) b p d small pos lt =
    let spread : suc k * suc b ≤ suc k * (p * d + p) = mul-le-mul_left (suc k) lt in
    let slack : suc k * p ≤ d * p = mul-le-mul_right p small in omega arith

-- A quotient by the leading bits of `b`, the rest of `b` being shifted out by `p`.
module _ (a b p : ℕ) (p_pos : 0 < p) (wide : 2 ^ 31 ≤ b / p) where
  lead_pos : 0 < p * (b / p)
  lead_pos = grind (arith, wide)

  shifted : a / p / (b / p) ≡ a / (p * (b / p))
  shifted = div-div-eq-div-mul a p (b / p)

  shift-le : p * (b / p) ≤ b
  shift-le = omega (arith, div-mul-le_self b p)

  lt-shift : b < p * (b / p) + p
  lt-shift = omega (arith, lt-div-mul-add {a = b} p_pos)

  lead-above : a / b ≤ a / p / (b / p)
  lead-above = rw shifted (div_antitone a (p * (b / p)) b lead_pos shift-le)

  lead-bounded : (k : ℕ) → k ≤ 2 ^ 31 → a ≤ k * b → a / p / (b / p) ≤ k
  lead-bounded k small le =
      let below : a / (p * (b / p)) < k + 1 =
        (div-lt_iff_lt-mul lead_pos).1
          (omega (arith, scale-lt k b p (b / p) (omega arith) lead_pos lt-shift)) in
      rw shifted (omega arith)

  lead-below : 0 < b → a < 2 ^ 31 * b → a / p / (b / p) ≤ a / b + 1
  lead-below b_pos small =
      let short : a / b < 2 ^ 31 = (div-lt_iff_lt-mul b_pos).1 small in
      let above : a < b * (a / b + 1) = lt-mul-div-succ a b_pos in
      let spread = scale-le (a / b + 1) b p (b / p) (omega arith) (omega (arith, lt-shift)) in
      let below : a / (p * (b / p)) < a / b + 1 + 1 =
        (div-lt_iff_lt-mul lead_pos).1 (omega (arith, spread, above)) in
      rw shifted (omega arith)

module _ (k : Div64) where
  open k use {fls, do_div, fls_above, fls_below, do_div_quotient}

  -- A divisor above 32 bits is shifted by the length of its high word.
  module _ (b : ℕ) (small : b < 2 ^ 64) (large : 2 ^ 32 ≤ b) where
    abbrev width : ℕ
    width = 2 ^ fls (b / 2 ^ 32 % 2 ^ 32)

    width_above : b < 2 ^ 32 * width
    width_above = omega (arith, fls_above (b / 2 ^ 32 % 2 ^ 32) (omega arith))

    width_below : 2 ^ 31 * width ≤ b
    width_below = omega (arith, fls_below (b / 2 ^ 32 % 2 ^ 32) (omega arith) (omega arith))

    width_pos : 0 < width
    width_pos = omega (arith, width_above)

    lead-wide : 2 ^ 31 ≤ b / width
    lead-wide = (le-div_iff_mul-le width_pos).1 width_below

    lead-short : b / width % 2 ^ 32 ≡ b / width
    lead-short = mod-eq_of_lt ((div-lt_iff_lt-mul width_pos).1 width_above)

    div64_64-wide : (a : ℕ) → div64_64 k a b ≡ a / width / (b / width)
    unfolding div64_64
    div64_64-wide a =
        let high : (b / 2 ^ 32 % 2 ^ 32 == 0) ≡ false = ground arith in
        rw (high, lead-short)
          (do_div_quotient _ _ (omega (arith, lead-wide))
            ((div-lt_iff_lt-mul width_pos).1 width_above))

  div64_64-narrow : (a b : ℕ) → 0 < b → b < 2 ^ 32 → div64_64 k a b ≡ a / b
  unfolding div64_64
  div64_64-narrow a b pos small =
      let high : (b / 2 ^ 32 % 2 ^ 32 == 0) ≡ true = ground arith in
      let low : b % 2 ^ 32 ≡ b = omega arith in rw (high, low) (do_div_quotient a b pos small)

  -- For a positive 64-bit divisor and a quotient below 2 ^ 31, div64_64 is the quotient or one
  -- more, and it is the quotient for a divisor of at most 32 bits.
  pub div64_64-close :
      (a b : ℕ)
      → 0 < b
      → b < 2 ^ 64
      → a < 2 ^ 31 * b
      → (a / b ≤ div64_64 k a b)
        × (div64_64 k a b ≤ a / b + 1)
        × (b < 2 ^ 32 → div64_64 k a b ≡ a / b)
  div64_64-close a b pos small below = elim (dec_lt b (2 ^ 32)) [
    | yes narrow ↦
        let same = div64_64-narrow a b pos narrow in
        (omega (arith, same), omega (arith, same), λ _. same)
    | no large ↦
        let wide : 2 ^ 32 ≤ b = omega arith in
        let same = div64_64-wide b small wide a in
        let p = width b small wide in
        let p_pos = width_pos b small wide in
        let lead = lead-wide b small wide in
        (
          rw same (lead-above a b p p_pos lead),
          rw same (lead-below a b p p_pos lead pos below),
          λ narrow. absurd (large narrow),
        )
  ]

  pub div64_64-le : (a b n : ℕ) → 0 < b → b < 2 ^ 64 → n ≤ 2 ^ 31 → a ≤ n * b → div64_64 k a b ≤ n
  div64_64-le a b n pos small few le = elim (dec_lt b (2 ^ 32)) [
    | yes narrow ↦
        rw (div64_64-narrow a b pos narrow) (div-le_of_le-mul b (omega (arith, mul_comm n b)))
    | no large ↦
        let wide : 2 ^ 32 ≤ b = omega arith in
        rw (div64_64-wide b small wide a) (
          lead-bounded a b (width b small wide) (width_pos b small wide) (lead-wide b small wide) n
            few le)
  ]

  pub div64_64_mono : (a a' b : ℕ) → 0 < b → b < 2 ^ 64 → a ≤ a' → div64_64 k a b ≤ div64_64 k a' b
  div64_64_mono a a' b pos small le = elim (dec_lt b (2 ^ 32)) [
    | yes narrow ↦
        rw (div64_64-narrow a b pos narrow, div64_64-narrow a' b pos narrow)
          (div_mono a a' b pos le)
    | no large ↦
        let wide : 2 ^ 32 ≤ b = omega arith in
        let p_pos = width_pos b small wide in
        let lead = lead-wide b small wide in
        rw (div64_64-wide b small wide a, div64_64-wide b small wide a')
          (div_mono _ _ _ (omega arith) (div_mono a a' _ p_pos le))
  ]
