-- ===== src/Examples/Schedules.antt =====
-- The schedule rules, of the scheduler and of the runtime configuration.
use usenet_dl.Base.{ℕ, ◌≡◌, refl, true, false, none, some, List, [], ◌∷◌, arith}
use usenet_dl.Base.Int.{pos}
use usenet_dl.Scheduler.{
  ScheduleRule, Scheduler, ChronoWeekday, sunday, speed_limit, unlimited, get_current_action,
}
use usenet_dl.SchedulerTask.{Controls, Moment, run}
use usenet_dl.SchedulerTask.Limits.{from_start, actions, run-from_start}
use usenet_dl.Examples.Worlds.{calm, four}
use usenet_dl.ConfigOps.{
  RuntimeRules, add_schedule_rule, update_schedule_rule, remove_schedule_rule,
}
use usenet_dl.ConfigOps.Ids.{update_schedule_rule-removed}

-- From 22:00 to 6:00 on Sundays, and all day, in seconds.
abbrev night : ScheduleRule
night = record {
  id = pos 1;
  name = "night";
  days = sunday ∷ [];
  start_time = 79200;
  end_time = 21600;
  action = unlimited;
  enabled = true;
}

abbrev slow : ScheduleRule
slow = record {
  id = pos 2;
  name = "slow";
  days = [];
  start_time = 0;
  end_time = 86399;
  action = speed_limit 1000;
  enabled = true;
}

abbrev both : Scheduler
both = record { rules = night ∷ slow ∷ [] }

night_crosses : get_current_action both ChronoWeekday.sun 80000 ≡ some unlimited
unfolding get_current_action
night_crosses = refl

-- A list of rules, which are numbers here, with the counter.
abbrev runtime : List ℕ → ℕ → RuntimeRules ℕ
runtime rules n = record { schedule_rules = rules; next_schedule_rule_id = n }

-- The rules 6 and 7 are added behind 5, the rule 6 is removed, and the ids 1 and 2 are used.
removed_example :
    let (t, id) = add_schedule_rule (runtime (5 ∷ []) 1) 6 in
    let (u, id') = add_schedule_rule t 7 in
    let v = (remove_schedule_rule u id).0 in
    (v.schedule_rules ≡ 5 ∷ 7 ∷ [])
    × (update_schedule_rule v id 8 ≡ (record v { schedule_rules = 5 ∷ 8 ∷ [] }, true))
    × (update_schedule_rule v id' 8 ≡ (v, false))
removed_example = update_schedule_rule-removed (runtime (5 ∷ []) 1) 6 7 8 refl (omega arith)

-- Two looks at the clock on a Sunday night, with nothing else running.
abbrev looks : List Moment
looks =
    record { day = ChronoWeekday.sun; now = 70000; meanwhile = λ c. c }
    ∷ record { day = ChronoWeekday.sun; now = 80000; meanwhile = λ c. c }
    ∷ []

abbrev controls : Controls
controls = record {
  world = four;
  limiter = record { limit_bps = 500; tokens = 500; last_refill = 0 };
}

run-from_start_example :
    (run calm both looks none controls).limiter.limit_bps ≡ from_start 500 (actions calm both looks)
run-from_start_example =
    run-from_start calm both looks controls ((λ c. (refl, refl)), ((λ c. (refl, refl)), tt)) refl
