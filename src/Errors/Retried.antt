-- ===== src/Errors/Retried.antt =====
-- Which errors are tried again.
use usenet_dl.Base.{ℕ, ◌≡◌, ◌≤◌, ◌<◌, ◌⊎◌, refl, inl, inr, true, false, some, [], arith, Bool-cases}
use usenet_dl.Retry.{RetryConfig, download_with_retry, attempt_loop}
use usenet_dl.Errors.{Error, status_code, is_retryable}

-- An error that is tried again is never one of the client: its status is 500, 502 or 503.
pub is_retryable-status_code : (e : Error) → is_retryable e ≡ true → 500 ≤ status_code e
unfolding is_retryable status_code
is_retryable-status_code (Error.network t c) h = omega arith
is_retryable-status_code (Error.io kind) h = omega arith
is_retryable-status_code (Error.nntp message) h = omega arith
is_retryable-status_code (Error.external_tool message) h = omega arith
is_retryable-status_code (Error.config message key) h = absurd (cc h)
is_retryable-status_code _ h = absurd (cc h)

is_retryable-client : (e : Error) → status_code e < 500 → is_retryable e ≡ false
is_retryable-client e h = elim (Bool-cases (is_retryable e)) [
  | inl r ↦ absurd (omega (arith, is_retryable-status_code e r))
  | inr r ↦ r
]

-- An operation whose first call fails with an error of the client, one of status below 500, is called
-- once: `download_with_retry` returns this error and does not wait.
pub download_with_retry-client :
    {T : Type 0} (scale : ℕ → ℕ) (add_jitter : ℕ → ℕ → ℕ) (config : RetryConfig)
    (operation : ℕ → Error ⊎ T) (e : Error)
    → operation 0 ≡ inl e
    → status_code e < 500
    → download_with_retry is_retryable scale add_jitter config operation ≡ (some (inl e), [])
unfolding download_with_retry attempt_loop
download_with_retry-client scale add_jitter config operation e h s =
    rw (h, is_retryable-client e s) refl
