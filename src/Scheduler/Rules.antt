-- ===== src/Scheduler/Rules.antt =====
-- Removing and replacing rules by id (src/scheduler/mod.rs).
use usenet_dl.Base.{
  ◌+◌, ◌≡◌, refl, ◌≢◌, not, none, some, List, [], ◌∷◌, map, ltb, if◌then◌else◌, filter, find, arith,
  length,
}
use usenet_dl.Base.Int.{eqb_ℤ, eqb_ℤ_iff}
use usenet_dl.Scheduler.{RuleId, ScheduleRule, Scheduler, remove_rule, replace_first, update_rule}

-- The rules with an id.
abbrev pub with_id : RuleId → List ScheduleRule → List ScheduleRule
with_id j rules = filter (λ r. eqb_ℤ r.id j) rules

with_id-remove :
    (id j : RuleId) (rules : List ScheduleRule)
    → with_id j (filter (λ r. not (eqb_ℤ r.id id)) rules)
      ≡ (if eqb_ℤ j id then [] else with_id j rules)
with_id-remove id j [] = ground arith
with_id-remove id j (r ∷ rules) =
    ground (arith, with_id-remove id j rules, eqb_ℤ_iff r.id id, eqb_ℤ_iff r.id j, eqb_ℤ_iff j id)

length-remove :
    (id : RuleId) (rules : List ScheduleRule)
    → length (filter (λ r. not (eqb_ℤ r.id id)) rules) + length (with_id id rules) ≡ length rules
length-remove id [] = refl
length-remove id (r ∷ rules) = ground (arith, length-remove id rules)

-- `remove_rule` drops every rule with the id and no other, and returns true exactly if there was one.
pub remove_rule_lem :
    (s : Scheduler) (id j : RuleId)
    → (with_id j (remove_rule s id).0.rules ≡ (if eqb_ℤ j id then [] else with_id j s.rules))
      × ((remove_rule s id).1 ≡ ltb 0 (length (with_id id s.rules)))
unfolding remove_rule
remove_rule_lem s id j = (with_id-remove id j s.rules, ground (arith, length-remove id s.rules))

module _ (rule : ScheduleRule) where
  ids-replace_first :
      (rules : List ScheduleRule)
      → map (λ r. r.id) (replace_first rule rules).0 ≡ map (λ r. r.id) rules
  unfolding replace_first
  ids-replace_first [] = refl
  ids-replace_first (r ∷ rules) = ground (arith, ids-replace_first rules, eqb_ℤ_iff r.id rule.id)

  found-replace_first :
      (rules : List ScheduleRule)
      → (replace_first rule rules).1 ≡ ltb 0 (length (with_id rule.id rules))
  unfolding replace_first
  found-replace_first [] = ground arith
  found-replace_first (r ∷ rules) = ground (arith, found-replace_first rules)

  find-replace_first :
      (rules : List ScheduleRule)
      → find (λ r. eqb_ℤ r.id rule.id) (replace_first rule rules).0
        ≡ (if (replace_first rule rules).1 then some rule else none)
  unfolding replace_first
  find-replace_first [] = refl
  find-replace_first (r ∷ rules) =
      ground (arith, find-replace_first rules, eqb_ℤ_iff rule.id rule.id)

  with_id-replace_first :
      (j : RuleId) (rules : List ScheduleRule)
      → j ≢ rule.id
      → with_id j (replace_first rule rules).0 ≡ with_id j rules
  unfolding replace_first
  with_id-replace_first j [] h = refl
  with_id-replace_first j (r ∷ rules) h = ground (
    arith,
    with_id-replace_first j rules h,
    eqb_ℤ_iff r.id rule.id,
    eqb_ℤ_iff r.id j,
    eqb_ℤ_iff rule.id j,
  )

-- `update_rule` keeps the ids and their order, so each rule keeps its rank. It returns true exactly
-- if a rule had the id; then the first rule with that id is the given one, else no rule has it.
-- Rules with any other id `j` stay.
pub update_rule_lem :
    (s : Scheduler) (rule : ScheduleRule) (j : RuleId)
    → j ≢ rule.id
    → (map (λ r. r.id) (update_rule s rule).0.rules ≡ map (λ r. r.id) s.rules)
      × ((update_rule s rule).1 ≡ ltb 0 (length (with_id rule.id s.rules)))
      × (find (λ r. eqb_ℤ r.id rule.id) (update_rule s rule).0.rules
          ≡ (if (update_rule s rule).1 then some rule else none))
      × (with_id j (update_rule s rule).0.rules ≡ with_id j s.rules)
unfolding update_rule
update_rule_lem s rule j h = (
  ids-replace_first rule s.rules,
  found-replace_first rule s.rules,
  find-replace_first rule s.rules,
  with_id-replace_first rule j s.rules h,
)
