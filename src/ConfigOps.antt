-- ===== src/ConfigOps.antt =====
-- src/downloader/config_ops.rs: the schedule rules of the runtime configuration. The API's rule ids
-- are handed out by a counter and used as positions in the list. The rules are only stored and
-- compared by position, so their type is a parameter.
pub mod Ids
use usenet_dl.Base.{
  ℕ, zero, suc, ◌+◌, ◌-◌, ◌%◌, ◌^◌, Bool, true, false, List, [], ◌∷◌, ◌++◌, ltb, if◌then◌else◌,
  length,
}
use usenet_dl.Base.Int.{ℤ, pos, negsuc}

-- `next_schedule_rule_id` is an `AtomicI64` that starts at 0 and only grows.
pub record RuntimeRules (R : Type 0) : Type 0 where
  pub schedule_rules : List R
  pub next_schedule_rule_id : ℕ

-- `id as usize`, for an `i64`
unfoldable pub as_usize : ℤ → ℕ
as_usize (pos n) = n % 2 ^ 64
as_usize (negsuc n) = (2 ^ 64 - 1 - n) % 2 ^ 64

-- `rules[idx] = rule`, for an index in range
unfoldable pub set_at {ℓ} : {R : Type ℓ} → ℕ → R → List R → List R
set_at i x [] = []
set_at zero x (r ∷ rs) = x ∷ rs
set_at (suc i) x (r ∷ rs) = r ∷ set_at i x rs

-- `Vec::remove`, for an index in range
unfoldable pub remove_at {ℓ} : {R : Type ℓ} → ℕ → List R → List R
remove_at i [] = []
remove_at zero (r ∷ rs) = rs
remove_at (suc i) (r ∷ rs) = r ∷ remove_at i rs

module _ {R : Type 0} where
  unfoldable pub add_schedule_rule : RuntimeRules R → R → RuntimeRules R × ℤ
  add_schedule_rule s rule =
      let id = s.next_schedule_rule_id in
      (
        record s { schedule_rules = s.schedule_rules ++ rule ∷ []; next_schedule_rule_id = id + 1 },
        pos id,
      )

  unfoldable pub update_schedule_rule : RuntimeRules R → ℤ → R → RuntimeRules R × Bool
  unfolding as_usize set_at
  update_schedule_rule s id rule =
      let idx = as_usize id in
      if ltb idx (length s.schedule_rules)
      then (record s { schedule_rules = set_at idx rule s.schedule_rules }, true)
      else (s, false)

  unfoldable pub remove_schedule_rule : RuntimeRules R → ℤ → RuntimeRules R × Bool
  unfolding as_usize remove_at
  remove_schedule_rule s id =
      let idx = as_usize id in
      if ltb idx (length s.schedule_rules)
      then (record s { schedule_rules = remove_at idx s.schedule_rules }, true)
      else (s, false)
