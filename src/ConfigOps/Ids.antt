-- ===== src/ConfigOps/Ids.antt =====
-- What the ids of schedule rules refer to, before and after a removal.
use usenet_dl.Base.{
  ℕ, zero, suc, ◌+◌, ◌^◌, ◌≤◌, ◌<◌, ◌≡◌, refl, ap, true, false, List, [], ◌∷◌, ◌++◌, arith, length,
  length-append,
}
use mathlib.Core.List.{append_assoc}
use usenet_dl.Base.Int.{pos}
use usenet_dl.ConfigOps.{
  RuntimeRules, as_usize, set_at, remove_at, add_schedule_rule, update_schedule_rule,
  remove_schedule_rule,
}

module _ {R : Type 0} where
  set_at-append : (x y : R) (rs : List R) → set_at (length rs) x (rs ++ y ∷ []) ≡ rs ++ x ∷ []
  unfolding set_at
  set_at-append x y [] = refl
  set_at-append x y (r ∷ rs) = ap (◌∷◌ r) (set_at-append x y rs)

  -- As long as no rule has been removed, so that the counter equals the number of rules, the id
  -- that `add_schedule_rule` returns refers to the added rule: an update with it replaces this
  -- rule and no other. (A list has fewer than 2^63 rules.)
  pub update_schedule_rule-add :
      (s : RuntimeRules R) (rule rule' : R)
      → s.next_schedule_rule_id ≡ length s.schedule_rules
      → length s.schedule_rules < 2 ^ 63
      → let (t, id) = add_schedule_rule s rule in
        update_schedule_rule t id rule' ≡ (
          record {
            schedule_rules = s.schedule_rules ++ rule' ∷ [];
            next_schedule_rule_id = t.next_schedule_rule_id;
          },
          true,
        )
  unfolding add_schedule_rule update_schedule_rule as_usize
  update_schedule_rule-add s rule rule' h b =
      ground (
        arith,
        set_at-append rule' rule s.schedule_rules,
        length-append s.schedule_rules (rule ∷ []),
      )

  set_at-append_lt :
      (i : ℕ) (x : R) (rs ys : List R) → i < length rs → set_at i x (rs ++ ys) ≡ set_at i x rs ++ ys
  unfolding set_at
  set_at-append_lt i x [] ys h = absurd (omega arith)
  set_at-append_lt zero x (r ∷ rs) ys h = refl
  set_at-append_lt (suc i) x (r ∷ rs) ys h = ap (◌∷◌ r) (set_at-append_lt i x rs ys (omega arith))

  -- The counter starts at 0 also where the configuration brings rules along. While it is less than
  -- the number of rules, an update with the id that `add_schedule_rule` returned overwrites an
  -- older rule, and leaves the added one as it is.
  pub update_schedule_rule-add_behind :
      (s : RuntimeRules R) (rule rule' : R)
      → s.next_schedule_rule_id < length s.schedule_rules
      → length s.schedule_rules < 2 ^ 63
      → let (t, id) = add_schedule_rule s rule in
        update_schedule_rule t id rule' ≡ (
          record {
            schedule_rules = set_at s.next_schedule_rule_id rule' s.schedule_rules ++ rule ∷ [];
            next_schedule_rule_id = t.next_schedule_rule_id;
          },
          true,
        )
  unfolding add_schedule_rule update_schedule_rule as_usize
  update_schedule_rule-add_behind s rule rule' h b = ground (
    arith,
    set_at-append_lt s.next_schedule_rule_id rule' s.schedule_rules (rule ∷ []) h,
    length-append s.schedule_rules (rule ∷ []),
  )

  length-set_at : (k : ℕ) (x : R) (rs : List R) → length (set_at k x rs) ≡ length rs
  unfolding set_at
  length-set_at k x [] = refl
  length-set_at zero x (r ∷ rs) = refl
  length-set_at (suc k) x (r ∷ rs) = ap suc (length-set_at k x rs)

  length-remove_at : (k : ℕ) (rs : List R) → k < length rs → length (remove_at k rs) + 1 ≡ length rs
  unfolding remove_at
  length-remove_at k [] h = absurd (omega arith)
  length-remove_at zero (r ∷ rs) h = omega arith
  length-remove_at (suc k) (r ∷ rs) h = omega (arith, length-remove_at k rs (omega arith))

  remove_at-set_at :
      (j k : ℕ) (x : R) (rs : List R)
      → j ≤ k
      → remove_at j (set_at (suc k) x rs) ≡ set_at k x (remove_at j rs)
  unfolding remove_at set_at
  remove_at-set_at j k x [] h = refl
  remove_at-set_at zero k x (r ∷ rs) h = refl
  remove_at-set_at (suc j) zero x (r ∷ rs) h = absurd (omega arith)
  remove_at-set_at (suc j) (suc k) x (r ∷ rs) h =
      ap (◌∷◌ r) (remove_at-set_at j k x rs (omega arith))

  -- After a removal the ids no longer refer to the rules they were returned for. Once the rule with
  -- id `j` is removed, an update with a later id `k` overwrites the rule that had the id `k + 1`.
  pub update_schedule_rule-remove_schedule_rule :
      (s : RuntimeRules R) (j k : ℕ) (rule : R)
      → j ≤ k
      → suc k < length s.schedule_rules
      → length s.schedule_rules < 2 ^ 63
      → update_schedule_rule (remove_schedule_rule s (pos j)).0 (pos k) rule
        ≡ (remove_schedule_rule (update_schedule_rule s (pos (suc k)) rule).0 (pos j))
  unfolding remove_schedule_rule update_schedule_rule
  update_schedule_rule-remove_schedule_rule s j k rule h b m = ground (
    arith,
    remove_at-set_at j k rule s.schedule_rules h,
    length-remove_at j s.schedule_rules,
    length-set_at (suc k) rule s.schedule_rules,
  )

  remove_at-append :
      (x y : R) (rs : List R) → remove_at (length rs) (rs ++ x ∷ y ∷ []) ≡ rs ++ y ∷ []
  unfolding remove_at
  remove_at-append x y [] = refl
  remove_at-append x y (r ∷ rs) = ap (◌∷◌ r) (remove_at-append x y rs)

  abbrev one_more : RuntimeRules R → R → RuntimeRules R
  one_more s rule = record {
    schedule_rules = s.schedule_rules ++ rule ∷ [];
    next_schedule_rule_id = s.next_schedule_rule_id + 1 + 1;
  }

  remove_schedule_rule-added :
      (s : RuntimeRules R) (rule rule' : R)
      → s.next_schedule_rule_id ≡ length s.schedule_rules
      → suc (length s.schedule_rules) < 2 ^ 63
      → let (t, id) = add_schedule_rule s rule in
        (remove_schedule_rule (add_schedule_rule t rule').0 id).0 ≡ one_more s rule'
  unfolding add_schedule_rule remove_schedule_rule as_usize
  remove_schedule_rule-added s rule rule' h b = ground (
    arith,
    remove_at-append rule rule' s.schedule_rules,
    append_assoc s.schedule_rules (rule ∷ []) (rule' ∷ []),
    length-append s.schedule_rules (rule ∷ rule' ∷ []),
  )

  update_schedule_rule-one_more :
      (s : RuntimeRules R) (rule new : R)
      → s.next_schedule_rule_id ≡ length s.schedule_rules
      → suc (length s.schedule_rules) < 2 ^ 63
      → (update_schedule_rule (one_more s rule) (pos s.next_schedule_rule_id) new
          ≡ (one_more s new, true))
        × (update_schedule_rule (one_more s rule) (pos (s.next_schedule_rule_id + 1)) new
            ≡ (one_more s rule, false))
  unfolding update_schedule_rule as_usize
  update_schedule_rule-one_more s rule new h b = (
    ground (
      arith,
      set_at-append new rule s.schedule_rules,
      length-append s.schedule_rules (rule ∷ []),
    ),
    ground (arith, length-append s.schedule_rules (rule ∷ [])),
  )

  -- Two rules are added where the counter equals the number of rules (as where the configuration
  -- brings none), and the first of them is removed by the id that was returned for it. That id then
  -- refers to the second one, which an update with it replaces, and the id that was returned for
  -- the second is refused. (A list has fewer than 2^63 rules.)
  pub update_schedule_rule-removed :
      (s : RuntimeRules R) (rule rule' new : R)
      → s.next_schedule_rule_id ≡ length s.schedule_rules
      → suc (length s.schedule_rules) < 2 ^ 63
      → let (t, id) = add_schedule_rule s rule in
        let (u, id') = add_schedule_rule t rule' in
        let v = (remove_schedule_rule u id).0 in
        (v.schedule_rules ≡ s.schedule_rules ++ rule' ∷ [])
        × (update_schedule_rule v id new
            ≡ (record v { schedule_rules = s.schedule_rules ++ new ∷ [] }, true))
        × (update_schedule_rule v id' new ≡ (v, false))
  unfolding add_schedule_rule
  update_schedule_rule-removed s rule rule' new h b =
      let e = remove_schedule_rule-added s rule rule' h b in
      let (a, c) = update_schedule_rule-one_more s rule' new h b in
      (ap (λ v. v.schedule_rules) e, rw e a, rw e c)
