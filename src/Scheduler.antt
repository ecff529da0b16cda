-- ===== src/Scheduler.antt =====
-- src/scheduler/mod.rs: schedule rules and the action that they select. chrono's `NaiveTime` is
-- only compared here, and is the number of nanoseconds since midnight; `chrono::DateTime<Local>`
-- is the pair of its weekday and its time of day, which is all that the code reads of it.
pub mod Matching
pub mod Rules
use usenet_dl.Base.{
  ℕ, Bool, true, false, ◌&&◌, ◌||◌, not, Option, List, [], ◌∷◌, ◌++◌, ltb, leb, ◌==◌, if◌then◌else◌,
  filter, find, any, is_empty, length,
}
use usenet_dl.Base.Int.{ℤ, eqb_ℤ}
use mathlib.Core.Option
use Prim.Native.String.{String}

abbrev pub RuleId : Type 0
RuleId = ℤ

abbrev pub NaiveTime : Type 0
NaiveTime = ℕ

pub data Weekday : Type 0 where
  monday tuesday wednesday thursday friday saturday sunday : Weekday

-- chrono's own enumeration.
pub data ChronoWeekday : Type 0 where
  mon tue wed thu fri sat sun : ChronoWeekday

pub data ScheduleAction : Type 0 where
  speed_limit : ℕ → ScheduleAction
  unlimited pause : ScheduleAction

pub record ScheduleRule : Type 0 where
  pub id : RuleId
  pub name : String
  pub days : List Weekday
  pub start_time : NaiveTime
  pub end_time : NaiveTime
  pub action : ScheduleAction
  pub enabled : Bool

pub record Scheduler : Type 0 where
  pub rules : List ScheduleRule

-- `Weekday::from_chrono`
unfoldable pub from_chrono : ChronoWeekday → Weekday
from_chrono ChronoWeekday.mon = monday
from_chrono ChronoWeekday.tue = tuesday
from_chrono ChronoWeekday.wed = wednesday
from_chrono ChronoWeekday.thu = thursday
from_chrono ChronoWeekday.fri = friday
from_chrono ChronoWeekday.sat = saturday
from_chrono ChronoWeekday.sun = sunday

-- `Weekday::to_chrono`
unfoldable pub to_chrono : Weekday → ChronoWeekday
to_chrono monday = ChronoWeekday.mon
to_chrono tuesday = ChronoWeekday.tue
to_chrono wednesday = ChronoWeekday.wed
to_chrono thursday = ChronoWeekday.thu
to_chrono friday = ChronoWeekday.fri
to_chrono saturday = ChronoWeekday.sat
to_chrono sunday = ChronoWeekday.sun

-- The derived `PartialEq` of `Weekday`.
abbrev pub day_number : Weekday → ℕ
day_number monday = 0
day_number tuesday = 1
day_number wednesday = 2
day_number thursday = 3
day_number friday = 4
day_number saturday = 5
day_number sunday = 6

unfoldable pub new : List ScheduleRule → Scheduler
new rules = record { rules = rules }

unfoldable pub set_rules : Scheduler → List ScheduleRule → Scheduler
set_rules s rules = record s { rules = rules }

unfoldable pub add_rule : Scheduler → ScheduleRule → Scheduler
add_rule s rule = record s { rules = s.rules ++ rule ∷ [] }

-- `self.rules.retain(|r| r.id != id)`
unfoldable pub remove_rule : Scheduler → RuleId → Scheduler × Bool
remove_rule s id =
    let original_len = length s.rules in
    let s' = record s { rules = filter (λ r. not (eqb_ℤ r.id id)) s.rules } in
    (s', ltb (length s'.rules) original_len)

-- The first rule with the id is overwritten in place; the Boolean says whether there was one.
unfoldable pub replace_first : ScheduleRule → List ScheduleRule → List ScheduleRule × Bool
replace_first rule [] = ([], false)
replace_first rule (r ∷ rs) =
    let (rest, found) = replace_first rule rs in
    if eqb_ℤ r.id rule.id then (rule ∷ rs, true) else (r ∷ rest, found)

unfoldable pub update_rule : Scheduler → ScheduleRule → Scheduler × Bool
unfolding replace_first
update_rule s rule =
    let (rules, found) = replace_first rule s.rules in (record s { rules = rules }, found)

-- The window test: `start <= end` on one day, `start > end` across midnight.
unfoldable pub in_window : NaiveTime → NaiveTime → NaiveTime → Bool
in_window start end time =
    if leb start end then leb start time && ltb time end else leb start time || ltb time end

-- `r.days.contains(&weekday)`
unfoldable pub contains_day : List Weekday → Weekday → Bool
contains_day days day = any (λ d. day_number d == day_number day) days

-- The closure of `get_current_action`, with its early returns.
unfoldable pub matches_now : Weekday → NaiveTime → ScheduleRule → Bool
unfolding in_window contains_day
matches_now day time r =
    if not r.enabled
    then false
    else if not (is_empty r.days) && not (contains_day r.days day)
    then false
    else in_window r.start_time r.end_time time

unfoldable pub get_current_action : Scheduler → ChronoWeekday → NaiveTime → Option ScheduleAction
unfolding from_chrono matches_now
get_current_action s now_weekday time =
    Option.map (λ r. r.action) (find (matches_now (from_chrono now_weekday) time) s.rules)
