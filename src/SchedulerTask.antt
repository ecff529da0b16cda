-- ===== src/SchedulerTask.antt =====
-- src/scheduler_task.rs: the task that applies the scheduled actions, and `set_speed_limit` of
-- src/downloader/config_ops.rs. One pass of the loop is one `Moment`; a list of these that is used up
-- stands for a task that still runs.
pub mod Pausing
pub mod Limits
use usenet_dl.Base.{
  ℕ, Bool, true, false, not, Option, none, some, List, [], ◌∷◌, ◌==◌, if◌then◌else◌,
}
use usenet_dl.Types.{Event}
use usenet_dl.World.{World, Env}
use usenet_dl.Control.{pause_all}
use usenet_dl.SpeedLimiter.{SpeedLimiter, set_limit}
use usenet_dl.Scheduler.{
  ScheduleAction, speed_limit, unlimited, pause, Scheduler, ChronoWeekday, NaiveTime,
  get_current_action,
}

-- What the task acts on.
pub record Controls : Type 0 where
  pub world : World
  pub limiter : SpeedLimiter

-- When the task looks at the clock, and what anything else does while it sleeps afterwards.
pub record Moment : Type 0 where
  pub day : ChronoWeekday
  pub now : NaiveTime
  pub meanwhile : Controls → Controls

-- The derived `==`.
abbrev pub same_action : Option ScheduleAction → Option ScheduleAction → Bool
same_action none none = true
same_action (some (speed_limit a)) (some (speed_limit b)) = a == b
same_action (some unlimited) (some unlimited) = true
same_action (some pause) (some pause) = true
same_action _ _ = false

unfoldable pub set_speed_limit : Option ℕ → Controls → Controls
set_speed_limit limit_bps c = record {
  world = record c.world { events = Event.speed_limit_changed limit_bps ∷ c.world.events };
  limiter = set_limit c.limiter limit_bps;
}

module _ (env : Env) where
  -- An error of `pause_all` is only logged.
  unfoldable pub apply_action : ScheduleAction → Controls → Controls
  apply_action (speed_limit limit_bps) c = set_speed_limit (some limit_bps) c
  apply_action unlimited c = set_speed_limit none c
  apply_action pause c = record c { world = (pause_all env c.world).1 }

  unfoldable pub clear_schedule_actions : Controls → Controls
  clear_schedule_actions c = set_speed_limit none c

  unfoldable pub change_to : Option ScheduleAction → Controls → Controls
  change_to none c = clear_schedule_actions c
  change_to (some action) c = apply_action action c

  module _ (scheduler : Scheduler) where
    abbrev pub current_action : Moment → Option ScheduleAction
    current_action m = get_current_action scheduler m.day m.now

    unfoldable pub run : List Moment → Option ScheduleAction → Controls → Controls
    run [] last_action c = c
    run (m ∷ ms) last_action c =
        let changed =
          if same_action (current_action m) last_action
          then c
          else change_to (current_action m) c in
        let rest = run ms (current_action m) (m.meanwhile changed) in
        if c.world.accepting_new then rest else c
