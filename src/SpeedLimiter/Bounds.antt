-- ===== src/SpeedLimiter/Bounds.antt =====
-- How many bytes the bucket lets through.
use usenet_dl.Base.{
  ℕ, ◌+◌, ◌-◌, ◌%◌, ◌^◌, ◌≤◌, ◌<◌, max, ◌≡◌, ◌≢◌, ◌⊎◌, Option, none, some, List, [], ◌∷◌, ltb, ◌==◌,
  if◌then◌else◌, arith, ap, sym, subst, ◌∙◌,
}
use usenet_dl.SpeedLimiter.{
  SpeedLimiter, Pass, done, retry, wait, set_limit, get_limit, refill_tokens, acquire_pass,
  acquire_loop, acquire, unwrap_or_zero,
}

module _ (tokens_for : ℕ → ℕ → ℕ) where
  -- What a refill at this time adds at most.
  abbrev pub credit : ℕ → SpeedLimiter → ℕ
  credit now s = tokens_for s.limit_bps (now - s.last_refill)

  -- A refill adds at most the credit, never lifts the bucket above its capacity (it lowers a bucket
  -- that is above), and keeps the limit.
  pub refill_tokens_bounds :
      (now : ℕ) (s : SpeedLimiter)
      → let t = refill_tokens tokens_for now s in
        (t.tokens ≤ s.tokens + credit now s)
        × (t.tokens ≤ max s.tokens s.limit_bps)
        × (t.limit_bps ≡ s.limit_bps)
        × ((t ≡ s) ⊎ (t.tokens ≤ s.limit_bps))
  unfolding refill_tokens
  refill_tokens_bounds now s = ground arith

  abbrev pub left_of : Pass → ℕ
  left_of done = 0
  left_of (retry left) = left
  left_of (wait left) = left

  acquire_pass-accounts :
      (now remaining : ℕ) (s : SpeedLimiter)
      → s.limit_bps ≢ 0
      → let (t, pass) = acquire_pass tokens_for now remaining s in
        (t.tokens + remaining ≤ s.tokens + credit now s + left_of pass)
        × (t.limit_bps ≡ s.limit_bps)
        × (left_of pass ≤ remaining)
  unfolding acquire_pass
  acquire_pass-accounts now remaining s h = ground arith

  -- What the passes of a run add at most.
  abbrev pub credits : List ℕ → ℕ → SpeedLimiter → ℕ
  credits [] remaining s = 0
  credits (now ∷ clock) remaining s =
      let (t, pass) = acquire_pass tokens_for now remaining s in
      credit now s + elim pass [
        | done ↦ 0
        | retry left ↦ credits clock left t
        | wait left ↦ credits clock left t
      ]

  acquire_loop-accounts :
      (clock : List ℕ) (remaining : ℕ) (s : SpeedLimiter)
      → s.limit_bps ≢ 0
      → let (t, left) = acquire_loop tokens_for clock remaining s in
        (t.tokens + remaining ≤ s.tokens + credits clock remaining s + unwrap_or_zero left)
        × (unwrap_or_zero left ≤ remaining)
  unfolding acquire_loop
  acquire_loop-accounts [] remaining s h = omega arith
  acquire_loop-accounts (now ∷ clock) remaining s h =
      let (t, pass) = acquire_pass tokens_for now remaining s in
      ground (
        arith,
        acquire_pass-accounts now remaining s h,
        acquire_loop-accounts clock (left_of pass) t,
      )

-- Under a limit the bytes that `acquire` has let through, with the tokens that remain, are at most
-- the tokens that were there and what the refills of the run credited; and it lets through no more
-- than was asked for.
pub acquire-accounts :
    (tokens_for : ℕ → ℕ → ℕ) (clock : List ℕ) (bytes : ℕ) (s : SpeedLimiter)
    → s.limit_bps ≢ 0
    → let (t, left) = acquire tokens_for clock bytes s in
      (t.tokens + (bytes - unwrap_or_zero left) ≤ s.tokens + credits tokens_for clock bytes s)
      × (unwrap_or_zero left ≤ bytes)
unfolding acquire
acquire-accounts tokens_for clock bytes s h =
    ground (arith, acquire_loop-accounts tokens_for clock bytes s h)

-- No reading is earlier than the one before it.
abbrev pub IsAscending : ℕ → List ℕ → Type 0
IsAscending from [] = Unit
IsAscending from (now ∷ clock) = (from ≤ now) × IsAscending now clock

abbrev pub last_reading : ℕ → List ℕ → ℕ
last_reading from [] = from
last_reading from (now ∷ clock) = last_reading now clock

last_reading-IsAscending :
    (from : ℕ) (clock : List ℕ) → IsAscending from clock → from ≤ last_reading from clock
last_reading-IsAscending from [] h = omega arith
last_reading-IsAscending from (now ∷ clock) (h, k) =
    omega (arith, h, last_reading-IsAscending now clock k)

module _ (tokens_for : ℕ → ℕ → ℕ) (allowance : ℕ → ℕ)
    (sums : (a b : ℕ) → allowance a + allowance b ≤ allowance (a + b)) where
  -- Credited or not, the time up to `now` counts once.
  refill_tokens-allowance :
      (now last : ℕ) (s : SpeedLimiter)
      → tokens_for s.limit_bps (now - s.last_refill) ≤ allowance (now - s.last_refill)
      → s.last_refill ≤ now
      → now ≤ last
      → let t = refill_tokens tokens_for now s in
        (t.tokens + allowance (last - t.last_refill) ≤ s.tokens + allowance (last - s.last_refill))
        × (t.last_refill ≤ now)
        × (t.limit_bps ≡ s.limit_bps)
  unfolding refill_tokens
  refill_tokens-allowance now last s f h k =
      let together : (now - s.last_refill) + (last - now) ≡ last - s.last_refill = omega arith in
      ground (arith, f, sums (now - s.last_refill) (last - now), ap allowance together)

  acquire_pass-allowance :
      (now last remaining : ℕ) (s : SpeedLimiter)
      → s.limit_bps ≢ 0
      → tokens_for s.limit_bps (now - s.last_refill) ≤ allowance (now - s.last_refill)
      → s.last_refill ≤ now
      → now ≤ last
      → let (t, pass) = acquire_pass tokens_for now remaining s in
        (t.tokens + remaining + allowance (last - t.last_refill)
          ≤ s.tokens + allowance (last - s.last_refill) + left_of tokens_for pass)
        × (t.last_refill ≤ now)
        × (t.limit_bps ≡ s.limit_bps)
  unfolding acquire_pass
  acquire_pass-allowance now last remaining s n f h k =
      ground (arith, n, refill_tokens-allowance now last s f h k)

  acquire_loop-allowance :
      (clock : List ℕ) (from remaining : ℕ) (s : SpeedLimiter)
      → s.limit_bps ≢ 0
      → ((n : ℕ) → tokens_for s.limit_bps n ≤ allowance n)
      → s.last_refill ≤ from
      → IsAscending from clock
      → let (t, left) = acquire_loop tokens_for clock remaining s in
        t.tokens + remaining
        ≤ s.tokens + allowance (last_reading from clock - s.last_refill) + unwrap_or_zero left
  unfolding acquire_loop
  acquire_loop-allowance [] from remaining s n f h k = omega arith
  acquire_loop-allowance (now ∷ clock) from remaining s n f h (k, l) =
      let last = last_reading now clock in
      let (t, pass) = acquire_pass tokens_for now remaining s in
      let (a, b, e) =
        acquire_pass-allowance now last remaining s n (f (now - s.last_refill))
          (omega (arith, h, k)) (last_reading-IsAscending now clock l) in
      let rest =
        acquire_loop-allowance clock now (left_of tokens_for pass) t (λ z. n (sym e ∙ z))
          (λ m. subst (λ b. tokens_for b m ≤ allowance m) (sym e) (f m)) b l in
      ground (arith, a, rest)

-- Under a limit whose product gives at most `allowance n` tokens for `n` nanoseconds, where the
-- allowances of two times are together at most that of their sum, and on a clock that does not go
-- back: the bytes that `acquire` has let through, with the tokens that remain, are at most the
-- tokens that were there and the allowance of the time from the last refill before to the last
-- reading. However many passes and refills there are, no time is credited twice.
pub acquire-allowance :
    (tokens_for : ℕ → ℕ → ℕ) (allowance : ℕ → ℕ) (clock : List ℕ) (bytes : ℕ) (s : SpeedLimiter)
    → s.limit_bps ≢ 0
    → ((n : ℕ) → tokens_for s.limit_bps n ≤ allowance n)
    → ((a b : ℕ) → allowance a + allowance b ≤ allowance (a + b))
    → IsAscending s.last_refill clock
    → let (t, left) = acquire tokens_for clock bytes s in
      t.tokens + (bytes - unwrap_or_zero left)
      ≤ s.tokens + allowance (last_reading s.last_refill clock - s.last_refill)
unfolding acquire
acquire-allowance tokens_for allowance clock bytes s n f sums k = ground (
  arith,
  acquire_loop-allowance tokens_for allowance sums clock s.last_refill bytes s n f (omega arith) k,
  acquire_loop-accounts tokens_for clock bytes s n,
)

-- Without a limit, and for no bytes, `acquire` returns at once and takes nothing.
pub acquire_unlimited :
    (tokens_for : ℕ → ℕ → ℕ) (clock : List ℕ) (bytes : ℕ) (s : SpeedLimiter)
    → (bytes ≡ 0) ⊎ (get_limit s ≡ none)
    → acquire tokens_for clock bytes s ≡ (s, none)
unfolding acquire get_limit
acquire_unlimited tokens_for clock bytes s h = ground arith

-- `set_limit` sets the limit that `get_limit` reports (`Some(0)` means no limit). A higher limit
-- adds the difference to the bucket, which wraps at 2^64; any other leaves it.
pub set_limit_lem :
    (s : SpeedLimiter) (limit : Option ℕ)
    → let t = set_limit s limit in
      (get_limit t ≡ (if unwrap_or_zero limit == 0 then none else limit))
      × (t.tokens ≡ (
          if ltb s.limit_bps (unwrap_or_zero limit)
          then (s.tokens + (unwrap_or_zero limit - s.limit_bps)) % 2 ^ 64
          else s.tokens))
unfolding set_limit get_limit
set_limit_lem s limit = ground arith

-- Lifting the limit and setting it again adds the whole limit to the bucket once more, so that a
-- bucket can hold more than its capacity.
pub set_limit_again :
    (s : SpeedLimiter) (limit : ℕ)
    → s.limit_bps ≡ limit
    → s.tokens + limit < 2 ^ 64
    → (set_limit (set_limit s none) (some limit)).tokens ≡ s.tokens + limit
unfolding set_limit
set_limit_again s limit h b = ground arith
