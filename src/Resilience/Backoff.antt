-- ===== src/Resilience/Backoff.antt =====
-- The bounds and the growth of the retry delay.
use native.Mathlib.Nat.{pow-suc}
use harness_golden_path.Prelude.{
  ℕ, zero, suc, ◌-◌, ◌*◌, ◌^◌, ◌≤◌, ◌≡◌, ◌≢◌, sym, ◌∙◌, min, max, refl, Option, or_else, arith,
}
use harness_golden_path.Contracts.{FailureClass, rate_limited}
use harness_golden_path.Resilience.{
  base_backoff_seconds, max_backoff_seconds, exponential, retry_delay_seconds,
}

pow_pos : (n : ℕ) → 1 ≤ 2 ^ n
pow_pos zero = omega arith
pow_pos (suc n) = omega (arith, pow_pos n, pow-suc 2 n)

doubles : (n : ℕ) → exponential (suc (suc n)) ≡ min (2 * exponential (suc n)) max_backoff_seconds
unfolding exponential
doubles n =
    let two_up : suc (suc n) - 1 ≡ suc n = omega arith in
    let one_up : suc n - 1 ≡ n = omega arith in rw (two_up, one_up, pow-suc) (omega arith)

-- The backoff of the first attempt is the base; each further attempt doubles it, up to the cap.
pub exponential_doubles :
    (exponential 0 ≡ base_backoff_seconds)
    × (exponential 1 ≡ base_backoff_seconds)
    × ((n : ℕ) → exponential (suc (suc n)) ≡ min (2 * exponential (suc n)) max_backoff_seconds)
unfolding exponential
exponential_doubles = (refl, refl, doubles)

delay_bounds :
    (c : FailureClass) (attempts : ℕ) (after : Option ℕ)
    → (base_backoff_seconds ≤ retry_delay_seconds c attempts after)
      × (retry_delay_seconds c attempts after ≤ max max_backoff_seconds (or_else after 0))
      × (c ≡ rate_limited → or_else after 0 ≤ retry_delay_seconds c attempts after)
unfolding retry_delay_seconds
delay_bounds c attempts after = grind (arith, pow_pos (attempts - 1))

plain_delay :
    (c : FailureClass) (attempts : ℕ) (after : Option ℕ)
    → c ≢ rate_limited
    → retry_delay_seconds c attempts after ≡ exponential attempts
unfolding retry_delay_seconds
plain_delay rate_limited attempts after other = absurd (other refl)
plain_delay _ attempts after other = refl

unasked :
    (c : FailureClass) (attempts : ℕ) (after : Option ℕ)
    → c ≢ rate_limited
    → retry_delay_seconds c attempts after ≤ max_backoff_seconds
unfolding exponential
unasked c attempts after other = rw (plain_delay c attempts after other) (omega arith)

same_delay :
    (c : FailureClass) (attempts : ℕ) (after : Option ℕ)
    → c ≢ rate_limited
    → (asked : Option ℕ)
    → retry_delay_seconds c attempts after ≡ retry_delay_seconds c attempts asked
same_delay c attempts after other asked =
    plain_delay c attempts after other ∙ sym (plain_delay c attempts asked other)

-- Every delay is at least the base. After any failure but a rate limit it is at most the cap, and what
-- the worker asks for does not count. After a rate limit it is not below what is asked for, and at most
-- the larger of that and of the cap.
pub retry_delay_bounds :
    (c : FailureClass) (attempts : ℕ) (after : Option ℕ)
    → (base_backoff_seconds ≤ retry_delay_seconds c attempts after)
      × (retry_delay_seconds c attempts after ≤ max max_backoff_seconds (or_else after 0))
      × (c ≡ rate_limited → or_else after 0 ≤ retry_delay_seconds c attempts after)
      × (c ≢ rate_limited
          → (retry_delay_seconds c attempts after ≤ max_backoff_seconds)
            × ((other : Option ℕ)
                → retry_delay_seconds c attempts after ≡ retry_delay_seconds c attempts other))
retry_delay_bounds c attempts after =
    let (least, most, asked) = delay_bounds c attempts after in
    (
      least,
      most,
      asked,
      λ other. (unasked c attempts after other, same_delay c attempts after other),
    )
