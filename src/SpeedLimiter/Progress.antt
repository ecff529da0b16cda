-- ===== src/SpeedLimiter/Progress.antt =====
-- When `acquire` (src/speed_limiter.rs) returns.
use usenet_dl.Base.{ℕ, ◌+◌, ◌-◌, ◌^◌, ◌≤◌, ◌<◌, ◌≡◌, ◌⊎◌, none, List, [], ◌∷◌, arith, length}
use usenet_dl.SpeedLimiter.Bounds.{left_of}
use usenet_dl.SpeedLimiter.{SpeedLimiter, Pass, done, retry, acquire_pass, acquire_loop, acquire}

-- Clock readings at least `step` apart, the first of them `step` after `prev`.
abbrev pub Spaced : ℕ → ℕ → List ℕ → Type 0
Spaced step prev [] = Unit
Spaced step prev (now ∷ clock) = (prev + step ≤ now) × Spaced step now clock

module _ (tokens_for : ℕ → ℕ → ℕ) (limit step cap : ℕ)
    (grows : (nanos : ℕ) → step ≤ nanos → 0 < tokens_for limit nanos)
    (capped : (nanos : ℕ) → tokens_for limit nanos ≤ cap) where
  record Ready (prev : ℕ) (s : SpeedLimiter) : Type 0 where
    limited : s.limit_bps ≡ limit
    refilled : s.last_refill ≤ prev
    fits : s.tokens + limit + cap < 2 ^ 64

  -- A pass at the next reading ends the loop, or leaves less than before.
  Falls : ℕ → ℕ → SpeedLimiter × Pass → Type 0
  Falls now remaining (t, pass) =
      (pass ≡ done)
      ⊎ ((pass ≡ retry (left_of tokens_for pass))
          × (0 < left_of tokens_for pass)
          × (left_of tokens_for pass < remaining)
          × Ready now t)

  acquire_pass-Falls :
      (prev now remaining : ℕ) (s : SpeedLimiter)
      → 0 < limit
      → 0 < remaining
      → prev + step ≤ now
      → Ready prev s
      → Falls now remaining (acquire_pass tokens_for now remaining s)
  unfolding acquire_pass Falls
  acquire_pass-Falls prev now remaining s l r h ready = ground (
    arith,
    grows (now - s.last_refill) (omega (arith, ready.refilled)),
    capped (now - s.last_refill),
  )

  acquire_loop-returns :
      (clock : List ℕ) (prev remaining : ℕ) (s : SpeedLimiter)
      → 0 < limit
      → 0 < remaining
      → remaining ≤ length clock
      → Spaced step prev clock
      → Ready prev s
      → (acquire_loop tokens_for clock remaining s).1 ≡ none
  unfolding acquire_loop Falls
  acquire_loop-returns [] prev remaining s l r enough spaced ready = absurd (omega arith)
  acquire_loop-returns (now ∷ clock) prev remaining s l r enough spaced ready =
      let (t, pass) = acquire_pass tokens_for now remaining s in
      ground (
        arith,
        acquire_pass-Falls prev now remaining s l r spaced.0 ready,
        λ (p : 0 < left_of tokens_for pass) (f : left_of tokens_for pass < remaining)
              (again : Ready now t).
            acquire_loop-returns clock now (left_of tokens_for pass) t l p (omega arith) spaced.1
              again,
      )

-- Under a positive limit `acquire` returns, after at most as many passes of its loop as bytes are
-- asked for, if between two passes there is time for the float product to reach one token. `cap`
-- bounds what one refill credits, so that the sum of tokens does not overflow.
pub acquire_returns :
    (tokens_for : ℕ → ℕ → ℕ) (step cap : ℕ) (clock : List ℕ) (bytes : ℕ) (s : SpeedLimiter)
    → ((nanos : ℕ) → step ≤ nanos → 0 < tokens_for s.limit_bps nanos)
    → ((nanos : ℕ) → tokens_for s.limit_bps nanos ≤ cap)
    → 0 < s.limit_bps
    → s.tokens + s.limit_bps + cap < 2 ^ 64
    → Spaced step s.last_refill clock
    → bytes ≤ length clock
    → (acquire tokens_for clock bytes s).1 ≡ none
unfolding acquire
acquire_returns tokens_for step cap clock bytes s grows capped l fits spaced enough = ground (
  arith,
  acquire_loop-returns tokens_for s.limit_bps step cap grows capped clock s.last_refill bytes s,
)
