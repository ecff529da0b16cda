-- ===== src/Scheduler/Matching.antt =====
-- What `get_current_action` selects: the first rule that is active now.
use usenet_dl.Base.{
  ℕ, zero, suc, ◌≤◌, ◌<◌, ◌≡◌, refl, ◌≢◌, ◌⊎◌, Bool, true, not, Option, none, some, List, [], ◌∷◌,
  ◌++◌, find, All, Any, arith,
}
use mathlib.Core.Option
use usenet_dl.Scheduler.{
  Weekday, ChronoWeekday, NaiveTime, ScheduleAction, ScheduleRule, Scheduler, from_chrono,
  to_chrono, in_window, matches_now, get_current_action, add_rule, monday, tuesday, wednesday,
  thursday, friday, saturday, sunday,
}

-- The window as a proposition: the same day, or across midnight.
abbrev pub IsInWindow : NaiveTime → NaiveTime → NaiveTime → Type 0
IsInWindow start end time =
    ((start ≤ end) × (start ≤ time) × (time < end))
    ⊎ ((end < start) × ((start ≤ time) ⊎ (time < end)))

-- A rule that is enabled, for this day, and in its window.
pub record IsActive (day : Weekday) (time : NaiveTime) (r : ScheduleRule) : Type 0 where
  pub on : r.enabled ≡ true
  pub today : (r.days ≡ []) ⊎ Any (λ d. d ≡ day) r.days
  pub within : IsInWindow r.start_time r.end_time time

day_of_number : ℕ → Weekday
day_of_number zero = monday
day_of_number (suc zero) = tuesday
day_of_number (suc (suc zero)) = wednesday
day_of_number (suc (suc (suc zero))) = thursday
day_of_number (suc (suc (suc (suc zero)))) = friday
day_of_number (suc (suc (suc (suc (suc zero))))) = saturday
day_of_number _ = sunday

module _ (day : Weekday) (time : NaiveTime) where
  -- What the first match is: some rule is active and no earlier one is, or none is.
  abbrev pub FirstMatch : List ScheduleRule → Option ScheduleAction → Type 0
  FirstMatch rules none = All (λ r. ¬ IsActive day time r) rules
  FirstMatch rules (some a) =
      (before : List ScheduleRule) × (r : ScheduleRule) × (after : List ScheduleRule) × (rules
        ≡ before ++ r ∷ after)
      × All (λ q. ¬ IsActive day time q) before
      × IsActive day time r
      × (r.action ≡ a)

find-append :
    (p : ScheduleRule → Bool) (xs ys : List ScheduleRule)
    → find p (xs ++ ys) ≡ elim (find p xs) [ none ↦ find p ys | some x ↦ some x ]
find-append p [] ys = refl
find-append p (x ∷ xs) ys = ground (arith, find-append p xs ys)

-- A rule added last has the lowest priority: an action that was selected before is still selected,
-- and otherwise the new rule alone decides.
pub get_current_action-add_rule :
    (s : Scheduler) (rule : ScheduleRule) (now_weekday : ChronoWeekday) (time : NaiveTime)
    → get_current_action (add_rule s rule) now_weekday time
      ≡ elim (get_current_action s now_weekday time) [
        | none ↦ get_current_action (record { rules = rule ∷ [] }) now_weekday time
        | some a ↦ some a
      ]
unfolding get_current_action add_rule
get_current_action-add_rule s rule now_weekday time =
    ground (arith, find-append (matches_now (from_chrono now_weekday) time) s.rules (rule ∷ []))

-- If `start` and `end` differ, the windows `start..end` and `end..start` divide the day: at each
-- time exactly one of them is open.
pub in_window_split :
    (start end time : NaiveTime)
    → start ≢ end
    → in_window start end time ≡ not (in_window end start time)
unfolding in_window
in_window_split start end time h = ground arith

from_chrono-to_chrono : (d : Weekday) → from_chrono (to_chrono d) ≡ d
unfolding from_chrono to_chrono
from_chrono-to_chrono monday = refl
from_chrono-to_chrono _ = refl
