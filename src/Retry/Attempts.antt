-- ===== src/Retry/Attempts.antt =====
-- Which call `download_with_retry` ends with, and how long it waits.
use usenet_dl.Base.{
  ℕ, zero, suc, ◌+◌, ◌*◌, ◌≤◌, max, ◌≡◌, refl, ap, sym, ◌⊎◌, inl, inr, Bool, true, false, Option,
  some, List, [], ◌∷◌, ltb, if◌then◌else◌, length, All, arith, Bool-cases,
}
use usenet_dl.Retry.{
  RetryConfig, tries_again, jittered_delay, next_delay, attempt_loop, download_with_retry,
}

module _ {T E : Type 0} (is_retryable : E → Bool) (operation : ℕ → E ⊎ T) where
  -- The first call, from `start` on, that does not fail with a retryable error, or else the last
  -- of the `left` calls after `start`.
  abbrev pub last_call : (left start : ℕ) → ℕ
  last_call zero start = start
  last_call (suc left) start =
      if (elim (operation start) [ inl e ↦ is_retryable e | inr t ↦ false ])
      then last_call left (suc start)
      else start

module _ {T E : Type 0} (is_retryable : E → Bool) (scale : ℕ → ℕ) (add_jitter : ℕ → ℕ → ℕ)
    (config : RetryConfig) (operation : ℕ → E ⊎ T)
    (bounded : (n delay : ℕ) → add_jitter n delay ≤ 2 * delay) where
  -- The longest wait.
  abbrev pub longest : ℕ
  longest = 2 * max config.initial_delay config.max_delay

  jittered_delay-le :
      (attempt delay : ℕ)
      → delay ≤ max config.initial_delay config.max_delay
      → jittered_delay is_retryable scale add_jitter config operation attempt delay ≤ longest
  jittered_delay-le attempt delay h = ground (arith, bounded attempt delay)

  more :
      (left attempt : ℕ)
      → attempt + suc left ≡ config.max_attempts
      → ltb attempt config.max_attempts ≡ true
  more left attempt h = ground (arith, h)

  abbrev IsRun : ℕ → Option (E ⊎ T) × List ℕ → (last attempt : ℕ) → Type 0
  IsRun fuel (result, waits) last attempt =
      (result ≡ some (operation last))
      × (attempt + length waits ≡ last)
      × All (λ d. d ≤ longest) waits

  step-IsRun :
      (o : E ⊎ T) (left attempt delay last : ℕ) (rest : Option (E ⊎ T) × List ℕ)
      → operation attempt ≡ o
      → attempt + suc left ≡ config.max_attempts
      → delay ≤ max config.initial_delay config.max_delay
      → IsRun left rest last (suc attempt)
      → IsRun left
          (if tries_again is_retryable scale add_jitter config operation attempt o
            then (
              rest.0,
              jittered_delay is_retryable scale add_jitter config operation attempt delay ∷ rest.1,
            )
            else (some o, []))
          (if (elim o [ inl e ↦ is_retryable e | inr t ↦ false ]) then last else attempt)
          attempt
  step-IsRun (inr t) left attempt delay last rest e h d r = (ap some (sym e), omega arith, tt)
  step-IsRun (inl x) left attempt delay last rest e h d (r, n, b) =
      elim (Bool-cases (is_retryable x)) [
        | inl y ↦
            rw (y, more left attempt h)
              (r, omega (arith, n), (jittered_delay-le attempt delay d, b))
        | inr y ↦ rw y (ap some (sym e), omega arith, tt)
      ]

  none_left :
      (attempt : ℕ) → attempt ≡ config.max_attempts → ltb attempt config.max_attempts ≡ false
  none_left attempt h = ground (arith, h)

  last-IsRun :
      (o : E ⊎ T) (attempt delay : ℕ) (rest : Option (E ⊎ T) × List ℕ)
      → operation attempt ≡ o
      → attempt ≡ config.max_attempts
      → IsRun 0
          (if tries_again is_retryable scale add_jitter config operation attempt o
            then (
              rest.0,
              jittered_delay is_retryable scale add_jitter config operation attempt delay ∷ rest.1,
            )
            else (some o, []))
          attempt
          attempt
  last-IsRun (inr t) attempt delay rest e h = (ap some (sym e), omega arith, tt)
  last-IsRun (inl x) attempt delay rest e h = elim (Bool-cases (is_retryable x)) [
    | inl y ↦ rw (y, none_left attempt h) (ap some (sym e), omega arith, tt)
    | inr y ↦ rw y (ap some (sym e), omega arith, tt)
  ]

  attempt_loop-IsRun :
      (left attempt delay : ℕ)
      → attempt + left ≡ config.max_attempts
      → delay ≤ max config.initial_delay config.max_delay
      → IsRun left
          (attempt_loop is_retryable scale add_jitter config operation (suc left) attempt delay)
          (last_call is_retryable operation left attempt)
          attempt
  unfolding attempt_loop
  attempt_loop-IsRun zero attempt delay h d =
      last-IsRun (operation attempt) attempt delay _ refl (omega (arith, h))
  attempt_loop-IsRun (suc left) attempt delay h d =
      step-IsRun (operation attempt) left attempt delay
        (last_call is_retryable operation left (suc attempt)) _ refl h d
        (attempt_loop-IsRun left (suc attempt)
          (next_delay is_retryable scale add_jitter config operation delay) (omega (arith, h))
          (omega arith))

-- `download_with_retry` always returns: what the first call gives that does not fail with a retryable
-- error, or else what the call after `max_attempts` retries gives. It waits once before each call
-- but the first, and never longer than twice the larger one of the first delay and the longest
-- delay, where the jitter at most doubles a delay.
pub download_with_retry_lem :
    {T E : Type 0} (is_retryable : E → Bool) (scale : ℕ → ℕ) (add_jitter : ℕ → ℕ → ℕ)
    (config : RetryConfig) (operation : ℕ → E ⊎ T)
    → ((n delay : ℕ) → add_jitter n delay ≤ 2 * delay)
    → let (result, waits) = download_with_retry is_retryable scale add_jitter config operation in
      let last = last_call is_retryable operation config.max_attempts 0 in
      (result ≡ some (operation last))
      × (length waits ≡ last)
      × All (λ d. d ≤ 2 * max config.initial_delay config.max_delay) waits
unfolding download_with_retry
download_with_retry_lem is_retryable scale add_jitter config operation bounded =
    let (r, n, b) =
      attempt_loop-IsRun is_retryable scale add_jitter config operation bounded config.max_attempts
        0 config.initial_delay (omega arith) (omega arith) in
    (r, omega (arith, n), b)
