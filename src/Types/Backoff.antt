-- ===== src/Types/Backoff.antt =====
-- types.rs, `BackoffStrategy::delay_for_attempt`, in a build without overflow checks (release).
use bullmq_rs.Prelude.{ℕ, zero, suc, ◌-◌, ◌*◌, ◌%◌, ◌^◌, ◌≤◌, ◌<◌, ◌≡◌, min, ap, arith}
use native.Mathlib.Nat.{mul-mod_left, mod-eq_of_lt, pow-le-pow_right}
use bullmq_rs.Types.Options.{Duration, as_millis, from_millis, BackoffStrategy, fixed, exponential}

-- `2u64.saturating_pow(attempt)`
unfoldable pub saturating_pow2 : ℕ → ℕ
saturating_pow2 attempt = min (2 ^ attempt) (2 ^ 64 - 1)

unfoldable pub delay_for_attempt : BackoffStrategy → ℕ → Duration
delay_for_attempt (fixed delay) attempt = delay
delay_for_attempt (exponential base max) attempt =
    let delay = as_millis base * saturating_pow2 attempt % 2 ^ 64 in
    let max_ms = as_millis max in from_millis (min delay max_ms)

-- An exponential delay never passes its cap.
exponential_capped : (base cap attempt : ℕ) → delay_for_attempt (exponential base cap) attempt ≤ cap
unfolding delay_for_attempt
exponential_capped base cap attempt = omega arith

saturating_pow2_exact :
    (b attempt : ℕ) → 0 < b → b * 2 ^ attempt < 2 ^ 64 → saturating_pow2 attempt ≡ 2 ^ attempt
unfolding saturating_pow2
saturating_pow2_exact zero attempt pos h = absurd (omega arith)
saturating_pow2_exact (suc b) attempt pos h = omega arith

product_exact :
    (b attempt : ℕ)
    → b * 2 ^ attempt < 2 ^ 64
    → b * saturating_pow2 attempt % 2 ^ 64 ≡ b * 2 ^ attempt
product_exact zero attempt h = omega arith
product_exact (suc b) attempt h =
    rw (saturating_pow2_exact (suc b) attempt (omega arith) h) (mod-eq_of_lt h)

-- While the product fits 64 bits, the delay is the base doubled once for each attempt, up to the cap.
exponential_exact :
    (base cap attempt : ℕ)
    → as_millis base * 2 ^ attempt < 2 ^ 64
    → delay_for_attempt (exponential base cap) attempt
      ≡ from_millis (min (as_millis base * 2 ^ attempt) (as_millis cap))
unfolding delay_for_attempt
exponential_exact base cap attempt h =
    ap (λ t. from_millis (min t (as_millis cap))) (product_exact (as_millis base) attempt h)

saturating_pow2_below : (attempt : ℕ) → attempt < 64 → saturating_pow2 attempt ≡ 2 ^ attempt
unfolding saturating_pow2
saturating_pow2_below attempt h =
    omega (arith, pow-le-pow_right {n = 2} (omega arith) {i = attempt} {j = 63} (omega arith))

-- Where the product is a multiple of 2 ^ 64 it wraps to nothing: the retry is not delayed at all,
-- whatever the base and the cap.
pub exponential_wraps :
    (base cap attempt k : ℕ)
    → attempt < 64
    → as_millis base * 2 ^ attempt ≡ k * 2 ^ 64
    → delay_for_attempt (exponential base cap) attempt ≡ 0
unfolding delay_for_attempt
exponential_wraps base cap attempt k h e =
    rw (saturating_pow2_below attempt h, e, mul-mod_left k (2 ^ 64)) (omega arith)
