-- ===== src/Examples/Limits.antt =====
-- The token bucket, with a product that is the exact one up to a cap.
use usenet_dl.Base.{ℕ, ◌+◌, ◌-◌, ◌*◌, ◌≤◌, min, ◌≡◌, ◌⊎◌, none, [], ◌∷◌, arith}
use usenet_dl.SpeedLimiter.{SpeedLimiter, refill_tokens, acquire, unwrap_or_zero}
use usenet_dl.SpeedLimiter.Bounds.{credit, refill_tokens_bounds, acquire-allowance}
use usenet_dl.SpeedLimiter.Progress.{acquire_returns}

abbrev product : ℕ → ℕ → ℕ
product limit nanos = min (limit * nanos) 1000

-- A limit of 10, with 4 tokens left at time 100.
abbrev bucket : SpeedLimiter
bucket = record { limit_bps = 10; tokens = 4; last_refill = 100 }

acquire_returns_example : (acquire product (101 ∷ 102 ∷ 103 ∷ []) 3 bucket).1 ≡ none
acquire_returns_example =
    acquire_returns product 1 1000 (101 ∷ 102 ∷ 103 ∷ []) 3 bucket (λ n h. omega (arith, h))
      (λ n. omega arith) (omega arith) (omega arith) (omega arith, (omega arith, (omega arith, tt)))
      (omega arith)

refill_example :
    let t = refill_tokens product 101 bucket in
    (t.tokens ≤ 4 + credit product 101 bucket)
    × (t.tokens ≤ 10)
    × (t.limit_bps ≡ 10)
    × ((t ≡ bucket) ⊎ (t.tokens ≤ 10))
refill_example = refill_tokens_bounds product 101 bucket

allowance_example :
    let (t, left) = acquire product (101 ∷ 105 ∷ []) 12 bucket in
    t.tokens + (12 - unwrap_or_zero left) ≤ 4 + 10 * (105 - 100)
allowance_example =
    acquire-allowance product (λ n. 10 * n) (101 ∷ 105 ∷ []) 12 bucket (λ h. ground (arith, h))
      (λ n. omega arith) (λ a b. omega arith) (omega arith, (omega arith, tt))
