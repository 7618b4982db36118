-- ===== src/Deletion/Jobs/Backoff.antt =====
-- The delay before a failed deletion is tried again.
use drivebound_storage.Base.{ℕ, zero, suc, ◌*◌, ◌-◌, ◌^◌, ◌≤◌, ◌≡◌, arith}
use drivebound_storage.Deletion.Jobs.{Pace, min, retry_delay}

two_pow_suc : (a : ℕ) → 2 ^ suc a ≡ 2 * 2 ^ a
two_pow_suc a = omega arith

two_pow_pos : (a : ℕ) → 1 ≤ 2 ^ a
two_pow_pos zero = omega arith
two_pow_pos (suc a) = omega (arith, two_pow_suc a, two_pow_pos a)

two_pow_mono : (a b : ℕ) → a ≤ b → 2 ^ a ≤ 2 ^ b
two_pow_mono zero b h = omega (arith, two_pow_pos b)
two_pow_mono (suc a) zero h = omega arith
two_pow_mono (suc a) (suc b) h =
    omega (arith, two_pow_suc a, two_pow_suc b, two_pow_mono a b (omega arith))

mul_mono : (k a b : ℕ) → a ≤ b → k * a ≤ k * b
mul_mono zero a b h = omega arith
mul_mono (suc k) a b h = ground (arith, mul_mono k a b h)

min_mono : (a b c : ℕ) → a ≤ b → min a c ≤ min b c
min_mono a b c h = ground arith

min-lower : (k a c : ℕ) → k ≤ a → k ≤ c → k ≤ min a c
min-lower k a c h i = ground arith

min-bounded : (a c : ℕ) → min a c ≤ c
min-bounded a c = ground arith

-- Where the base does not exceed the maximum, the delay lies between the two after any number of
-- attempts, and does not shrink from one attempt to a later one.
pub retry_delay_bounds :
    (c : Pace) (a b : ℕ)
    → c.retry_base_seconds ≤ c.retry_max_seconds
    → a ≤ b
    → (c.retry_base_seconds ≤ retry_delay c a)
      × (retry_delay c a ≤ retry_delay c b)
      × (retry_delay c b ≤ c.retry_max_seconds)
unfolding retry_delay
retry_delay_bounds c a b h le =
    let k = c.retry_base_seconds in
    let base = mul_mono k 1 (2 ^ min (a - 1) 10) (two_pow_pos (min (a - 1) 10)) in
    let grows = min_mono (a - 1) (b - 1) 10 (omega arith) in
    (
      min-lower _ _ _ (omega (arith, base)) h,
      min_mono _ _ c.retry_max_seconds
          (mul_mono k _ _ (two_pow_mono (min (a - 1) 10) (min (b - 1) 10) grows)),
      min-bounded _ _,
    )
