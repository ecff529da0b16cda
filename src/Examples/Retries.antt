-- ===== src/Examples/Retries.antt =====
-- An operation whose first two calls fail with a retryable error.
use usenet_dl.Base.{
  ℕ, ◌*◌, ◌≤◌, ◌≡◌, ◌⊎◌, inl, inr, true, Bool, some, length, All, ltb, arith, if◌then◌else◌,
}
use usenet_dl.Retry.{RetryConfig, download_with_retry}
use usenet_dl.Retry.Attempts.{download_with_retry_lem}

abbrev config : RetryConfig
config = record { max_attempts = 5; initial_delay = 10; max_delay = 30; jitter = true }

-- An error is its kind: 0 is retryable.
abbrev is_retryable : ℕ → Bool
is_retryable kind = ltb kind 1

abbrev third : ℕ → ℕ ⊎ ℕ
third n = if ltb n 2 then inl 0 else inr n

download_with_retry_example :
    let (result, waits) = download_with_retry is_retryable (λ d. 2 * d) (λ n d. d) config third in
    (result ≡ some (inr 2)) × (length waits ≡ 2) × All (λ d. d ≤ 60) waits
download_with_retry_example =
    download_with_retry_lem is_retryable (λ d. 2 * d) (λ n d. d) config third (λ n d. omega arith)
