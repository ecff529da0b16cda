-- ===== src/SpeedLimiter.antt =====
-- src/speed_limiter.rs: the token bucket. The three atomics are the fields of a record; an operation
-- here is one uninterrupted run of the method, so each compare-exchange succeeds. The clock is an
-- argument: one reading for each call of `now_nanos`. `tokens_for limit nanos` stands for the
-- floating-point product `(limit * (nanos / 1e9)) as u64`.
pub mod Bounds
pub mod Progress
use usenet_dl.Base.{
  ℕ, zero, suc, ◌+◌, ◌-◌, ◌%◌, ◌^◌, min, Bool, Option, none, some, List, [], ◌∷◌, ltb, ◌==◌,
  if◌then◌else◌,
}

pub record SpeedLimiter : Type 0 where
  pub limit_bps : ℕ
  pub tokens : ℕ
  pub last_refill : ℕ

abbrev pub unwrap_or_zero : Option ℕ → ℕ
unwrap_or_zero none = 0
unwrap_or_zero (some n) = n

unfoldable pub new : Option ℕ → ℕ → SpeedLimiter
new limit_bps now = record {
  limit_bps = unwrap_or_zero limit_bps;
  tokens = unwrap_or_zero limit_bps;
  last_refill = now;
}

-- `fetch_add` wraps at 2^64.
unfoldable pub set_limit : SpeedLimiter → Option ℕ → SpeedLimiter
set_limit s limit_bps =
    let new_limit = unwrap_or_zero limit_bps in
    let old_limit = s.limit_bps in
    let t = record s { limit_bps = new_limit } in
    if ltb old_limit new_limit
    then record t { tokens = (t.tokens + (new_limit - old_limit)) % 2 ^ 64 }
    else t

unfoldable pub get_limit : SpeedLimiter → Option ℕ
get_limit s = if s.limit_bps == 0 then none else some s.limit_bps

-- How one pass through the loop of `acquire` ends.
pub data Pass : Type 0 where
  done : Pass
  retry wait : (remaining : ℕ) → Pass

module _ (tokens_for : ℕ → ℕ → ℕ) where
  -- `saturating_sub` is the truncated subtraction. The sum of two `u64` wraps.
  unfoldable pub refill_tokens : ℕ → SpeedLimiter → SpeedLimiter
  refill_tokens now s =
      let tokens_to_add = tokens_for s.limit_bps (now - s.last_refill) in
      if s.limit_bps == 0
      then s
      else if ltb 0 tokens_to_add
      then record s {
        last_refill = now;
        tokens = min ((s.tokens + tokens_to_add) % 2 ^ 64) s.limit_bps;
      }
      else s

  -- The body of the loop. `retry` is `continue`, and `wait` sleeps before the next pass.
  unfoldable pub acquire_pass : ℕ → ℕ → SpeedLimiter → SpeedLimiter × Pass
  unfolding refill_tokens
  acquire_pass now remaining s =
      if s.limit_bps == 0
      then (s, done)
      else let t = refill_tokens now s in
        let to_consume = min remaining t.tokens in
        let u = record t { tokens = t.tokens - to_consume } in
        let left = remaining - to_consume in
        if ltb 0 to_consume
        then (if left == 0 then (u, done) else (u, retry left))
        else (t, wait remaining)

  -- The loop, a pass for each clock reading. It returns the state and what is still to be acquired
  -- when the readings run out: `none` once it has returned.
  unfoldable pub acquire_loop : List ℕ → ℕ → SpeedLimiter → SpeedLimiter × Option ℕ
  acquire_loop [] remaining s = (s, some remaining)
  acquire_loop (now ∷ clock) remaining s =
      let (t, pass) = acquire_pass now remaining s in
      elim pass [
        | done ↦ (t, none)
        | retry left ↦ acquire_loop clock left t
        | wait left ↦ acquire_loop clock left t
      ]

  unfoldable pub acquire : List ℕ → ℕ → SpeedLimiter → SpeedLimiter × Option ℕ
  unfolding acquire_loop
  acquire clock bytes s =
      if bytes == 0
      then (s, none)
      else if s.limit_bps == 0
      then (s, none)
      else acquire_loop clock bytes s
