-- ===== src/Retry.antt =====
-- src/retry.rs: `download_with_retry`. The operation is a function from the number of its call to
-- what that call gives. A delay is a number (of nanoseconds). The floating-point product with
-- `backoff_multiplier` and the random jitter of the n-th wait are parameters. The multiplier is one
-- whose products are durations: `Duration::from_secs_f64` panics on a negative, an infinite or a too
-- large product.
pub mod Attempts
use usenet_dl.Base.{
  ℕ, zero, suc, ◌+◌, ◌⊎◌, inl, inr, min, Bool, true, false, ◌&&◌, Option, none, some, List, [], ◌∷◌,
  ltb, if◌then◌else◌,
}

-- `RetryConfig`
pub record RetryConfig : Type 0 where
  pub max_attempts : ℕ
  pub initial_delay : ℕ
  pub max_delay : ℕ
  pub jitter : Bool

module _ {T E : Type 0} (is_retryable : E → Bool) (scale : ℕ → ℕ) (add_jitter : ℕ → ℕ → ℕ)
    (config : RetryConfig) (operation : ℕ → E ⊎ T) where
  -- The error is retryable and attempts are left.
  abbrev pub tries_again : ℕ → E ⊎ T → Bool
  tries_again attempt (inl e) = is_retryable e && ltb attempt config.max_attempts
  tries_again attempt (inr t) = false

  -- The wait after a failed attempt, and the next delay.
  abbrev pub jittered_delay : ℕ → ℕ → ℕ
  jittered_delay attempt delay = if config.jitter then add_jitter attempt delay else delay

  abbrev pub next_delay : ℕ → ℕ
  next_delay delay = min (scale delay) config.max_delay

  -- The loop: what it returns, `none` where the fuel runs out, and the waits.
  unfoldable pub attempt_loop : ℕ → ℕ → ℕ → Option (E ⊎ T) × List ℕ
  attempt_loop zero attempt delay = (none, [])
  attempt_loop (suc fuel) attempt delay =
      let (result, waits) = attempt_loop fuel (suc attempt) (next_delay delay) in
      if tries_again attempt (operation attempt)
      then (result, jittered_delay attempt delay ∷ waits)
      else (some (operation attempt), [])

  unfoldable pub download_with_retry : Option (E ⊎ T) × List ℕ
  download_with_retry = attempt_loop (suc config.max_attempts) 0 config.initial_delay
