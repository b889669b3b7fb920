-- ===== src/Tests/OfPrio.antt =====
-- The priorities of edfomai-drv-data.c at concrete times.
use edfomai.Base.{ℕ, ◌+◌, ◌-◌, ◌*◌, ◌/◌, ◌^◌, ◌≤◌, ◌<◌, ◌≡◌, refl, arith, none, replicate}
use edfomai.Prio.{max_prio, min_prio, div64_64, calculate_prio}
use edfomai.Prio.Divide.{div64_64-close}
use edfomai.Prio.Order.{Window, calculate_prio_bounds, calculate_prio_close}
use edfomai.Prio.Overflow.{calculate_prio_inverts}
use edfomai.Notify.{missed_message}
use edfomai.Notify.Message.{missed_message-long}
use edfomai.Tests.Sim.{sim_div, digits}

prio_runs : calculate_prio sim_div 250 100 400 ≡ 25
unfolding calculate_prio div64_64 digits
prio_runs = refl

wide_quotient : div64_64 sim_div (2 ^ 50) (2 ^ 40 + 1) ≡ 1024
unfolding div64_64 digits
wide_quotient = refl

div64_64-close_example :
    (2 ^ 50 / (2 ^ 40 + 1) ≤ div64_64 sim_div (2 ^ 50) (2 ^ 40 + 1))
    × (div64_64 sim_div (2 ^ 50) (2 ^ 40 + 1) ≤ 2 ^ 50 / (2 ^ 40 + 1) + 1)
    × (2 ^ 40 + 1 < 2 ^ 32 → div64_64 sim_div (2 ^ 50) (2 ^ 40 + 1) ≡ 2 ^ 50 / (2 ^ 40 + 1))
div64_64-close_example =
    div64_64-close sim_div (2 ^ 50) (2 ^ 40 + 1) (omega arith) (omega arith) (omega arith)

window : (x : ℕ) → 100 ≤ x → x ≤ 400 → Window 100 x 400
window x lo hi = record { above = lo; below = hi; word = omega arith; scaled = omega arith }

calculate_prio_bounds_example :
    (calculate_prio sim_div 400 100 400 ≤ max_prio)
    × (◌≡◌ {A = ℕ} 400 100 → calculate_prio sim_div 400 100 400 ≡ max_prio)
    × (◌≡◌ {A = ℕ} 400 400 → 100 < 400 → calculate_prio sim_div 400 100 400 ≡ min_prio)
calculate_prio_bounds_example =
    calculate_prio_bounds sim_div (window 400 (omega arith) (omega arith))

calculate_prio_close_example :
    (calculate_prio sim_div 250 100 400 + (250 - 100) * 50 / (400 - 100) ≤ 50)
    × (50 ≤ calculate_prio sim_div 250 100 400 + (250 - 100) * 50 / (400 - 100) + 1)
    × (400 - 100 < 2 ^ 32
        → calculate_prio sim_div 250 100 400 + (250 - 100) * 50 / (400 - 100) ≡ 50)
calculate_prio_close_example =
    calculate_prio_close sim_div (window 250 (omega arith) (omega arith)) (omega arith)

calculate_prio_inverts_example :
    calculate_prio sim_div (2 ^ 58) 0 (2 ^ 60) < calculate_prio sim_div (2 ^ 64 / 50 + 1) 0 (2 ^ 60)
calculate_prio_inverts_example =
    calculate_prio_inverts sim_div {lo = 0} {hi = 2 ^ 60} (omega arith) (2 ^ 58) (2 ^ 64 / 50 + 1)
      (omega arith) (omega arith) (omega arith) (omega arith) (omega arith) (omega arith)
      (omega arith)

missed_message-long_example : missed_message (replicate 24 b'x') (replicate 24 b'?') ≡ none
missed_message-long_example =
    missed_message-long (replicate 24 b'x') (replicate 24 b'?') (omega arith) refl (omega arith)
