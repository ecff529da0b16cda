-- ===== src/SchedulerTask/Limits.antt =====
-- The speed limit under the schedule.
use usenet_dl.Base.{
  ℕ, ◌≡◌, refl, ap, ◌∙◌, sym, subst, inl, inr, true, Option, none, some, List, [], ◌∷◌, ==_iff, map,
  if◌then◌else◌, All, arith, Bool-cases,
}
use usenet_dl.World.{Env}
use usenet_dl.SpeedLimiter.{SpeedLimiter, set_limit}
use usenet_dl.Scheduler.{ScheduleAction, speed_limit, unlimited, pause, Scheduler}
use usenet_dl.SchedulerTask.Pausing.{pause_all-accepting_new}
use usenet_dl.SchedulerTask.{
  Controls, Moment, same_action, set_speed_limit, apply_action, clear_schedule_actions, change_to,
  current_action, run,
}

-- The limit that a sequence of scheduled actions leaves, 0 for none, where `limit` was there before:
-- each action sets it, no action lifts it, and a pause leaves it.
abbrev pub lasting : ℕ → List (Option ScheduleAction) → ℕ
lasting limit [] = limit
lasting limit (some (speed_limit n) ∷ actions) = lasting n actions
lasting limit (some unlimited ∷ actions) = lasting 0 actions
lasting limit (some pause ∷ actions) = lasting limit actions
lasting limit (none ∷ actions) = lasting 0 actions

-- Until the first action, nothing is set.
abbrev pub from_start : ℕ → List (Option ScheduleAction) → ℕ
from_start limit [] = limit
from_start limit (none ∷ actions) = from_start limit actions
from_start limit (some action ∷ actions) = lasting limit (some action ∷ actions)

-- The limit is the one that the last action asks for.
abbrev Follows : Option ScheduleAction → ℕ → Type 0
Follows (some (speed_limit n)) limit = limit ≡ n
Follows (some unlimited) limit = limit ≡ 0
Follows (some pause) limit = Unit
Follows none limit = limit ≡ 0

-- The limit after one action.
abbrev next_limit : Option ScheduleAction → ℕ → ℕ
next_limit a limit = lasting limit (a ∷ [])

lasting-cons :
    (a : Option ScheduleAction) (limit : ℕ) (actions : List (Option ScheduleAction))
    → lasting limit (a ∷ actions) ≡ lasting (next_limit a limit) actions
lasting-cons none limit actions = refl
lasting-cons (some (speed_limit n)) limit actions = refl
lasting-cons (some unlimited) limit actions = refl
lasting-cons (some pause) limit actions = refl

next_limit-Follows : (a : Option ScheduleAction) (limit : ℕ) → Follows a (next_limit a limit)
next_limit-Follows none limit = refl
next_limit-Follows (some (speed_limit n)) limit = refl
next_limit-Follows (some unlimited) limit = refl
next_limit-Follows (some pause) limit = tt

-- An action that is in force already changes nothing.
same-next_limit :
    (a b : Option ScheduleAction) (limit : ℕ)
    → same_action a b ≡ true
    → Follows b limit
    → limit ≡ next_limit a limit
same-next_limit none none limit h f = f
same-next_limit (some (speed_limit m)) (some (speed_limit n)) limit h f = f ∙ sym ((==_iff m n).0 h)
same-next_limit (some unlimited) (some unlimited) limit h f = f
same-next_limit (some pause) b limit h f = refl
same-next_limit none (some b) limit h f = absurd (cc h)
same-next_limit (some (speed_limit m)) b limit h f = absurd (cc h)
same-next_limit (some unlimited) b limit h f = absurd (cc h)

set_limit-limit_bps : (s : SpeedLimiter) (n : ℕ) → (set_limit s (some n)).limit_bps ≡ n
unfolding set_limit
set_limit-limit_bps s n = ground arith

set_limit-none : (s : SpeedLimiter) → (set_limit s none).limit_bps ≡ 0
unfolding set_limit
set_limit-none s = ground arith

module _ (env : Env) where
  change_to-limit :
      (a : Option ScheduleAction) (c : Controls)
      → (change_to env a c).limiter.limit_bps ≡ next_limit a c.limiter.limit_bps
  unfolding change_to apply_action clear_schedule_actions set_speed_limit
  change_to-limit none c = set_limit-none c.limiter
  change_to-limit (some (speed_limit n)) c = set_limit-limit_bps c.limiter n
  change_to-limit (some unlimited) c = set_limit-none c.limiter
  change_to-limit (some pause) c = refl

  -- What else runs leaves the limit, and lets the task go on.
  abbrev pub IsQuiet : Moment → Type 0
  IsQuiet m =
      (c : Controls)
      → ((m.meanwhile c).limiter.limit_bps ≡ c.limiter.limit_bps)
        × ((m.meanwhile c).world.accepting_new ≡ c.world.accepting_new)

  module _ (scheduler : Scheduler) where
    change_to-accepting :
        (a : Option ScheduleAction) (c : Controls)
        → (change_to env a c).world.accepting_new ≡ c.world.accepting_new
    unfolding change_to apply_action clear_schedule_actions set_speed_limit
    change_to-accepting none c = refl
    change_to-accepting (some (speed_limit n)) c = refl
    change_to-accepting (some unlimited) c = refl
    change_to-accepting (some pause) c = pause_all-accepting_new env c.world

    abbrev pub actions : List Moment → List (Option ScheduleAction)
    actions ms = map (current_action env scheduler) ms

    -- The state after a pass whose action is `a`, where `last` is in force.
    abbrev passed : Option ScheduleAction → Option ScheduleAction → Controls → Controls
    passed a last c = if same_action a last then c else change_to env a c

    passed-limit :
        (a last : Option ScheduleAction) (c : Controls)
        → Follows last c.limiter.limit_bps
        → (passed a last c).limiter.limit_bps ≡ next_limit a c.limiter.limit_bps
    passed-limit a last c f = elim (Bool-cases (same_action a last)) [
      | inl e ↦ rw e (same-next_limit a last c.limiter.limit_bps e f)
      | inr e ↦ rw e (change_to-limit a c)
    ]

    passed-accepting :
        (a last : Option ScheduleAction) (c : Controls)
        → (passed a last c).world.accepting_new ≡ c.world.accepting_new
    passed-accepting a last c = elim (Bool-cases (same_action a last)) [
      | inl e ↦ rw e refl
      | inr e ↦ rw e (change_to-accepting a c)
    ]

    run-accepting :
        (m : Moment) (ms : List Moment) (last : Option ScheduleAction) (c : Controls)
        → c.world.accepting_new ≡ true
        → run env scheduler (m ∷ ms) last c
          ≡ run env scheduler ms
              (current_action env scheduler m)
              (m.meanwhile (passed (current_action env scheduler m) last c))
    unfolding run
    run-accepting m ms last c e =
        ap
          (λ b.
            if b
            then run env scheduler ms (current_action env scheduler m)
                (m.meanwhile (passed (current_action env scheduler m) last c))
            else c)
          e

    run-lasting :
        (ms : List Moment) (last : Option ScheduleAction) (c : Controls)
        → All IsQuiet ms
        → c.world.accepting_new ≡ true
        → Follows last c.limiter.limit_bps
        → (run env scheduler ms last c).limiter.limit_bps ≡ lasting c.limiter.limit_bps (actions ms)
    unfolding run
    run-lasting [] last c q e f = refl
    run-lasting (m ∷ ms) last c (q, qs) e f =
        let a = current_action env scheduler m in
        let next = passed a last c in
        let limit : (m.meanwhile next).limiter.limit_bps ≡ next_limit a c.limiter.limit_bps =
          (q next).0 ∙ passed-limit a last c f in
        ap (λ r. r.limiter.limit_bps) (run-accepting m ms last c e)
        ∙ run-lasting ms a (m.meanwhile next) qs ((q next).1 ∙ passed-accepting a last c ∙ e)
            (subst (Follows a) (sym limit) (next_limit-Follows a c.limiter.limit_bps))
        ∙ ap (λ l. lasting l (actions ms)) limit
        ∙ sym (lasting-cons a c.limiter.limit_bps (actions ms))

    first-passed :
        (action : ScheduleAction) (c : Controls)
        → passed (some action) none c ≡ change_to env (some action) c
    first-passed (speed_limit n) c = refl
    first-passed unlimited c = refl
    first-passed pause c = refl

    start-step :
        (a : Option ScheduleAction) (m : Moment) (ms : List Moment) (c : Controls)
        → ((d : Controls)
            → d.world.accepting_new ≡ true
            → (run env scheduler ms none d).limiter.limit_bps
              ≡ from_start d.limiter.limit_bps (actions ms))
        → IsQuiet m
        → All IsQuiet ms
        → c.world.accepting_new ≡ true
        → (run env scheduler ms a (m.meanwhile (passed a none c))).limiter.limit_bps
          ≡ from_start c.limiter.limit_bps (a ∷ actions ms)
    start-step none m ms c ih q qs e =
        ih (m.meanwhile c) ((q c).1 ∙ e) ∙ ap (λ l. from_start l (actions ms)) (q c).0
    start-step (some action) m ms c ih q qs e =
        let a = some action in
        let next = change_to env a c in
        let limit : (m.meanwhile next).limiter.limit_bps ≡ next_limit a c.limiter.limit_bps =
          (q next).0 ∙ change_to-limit a c in
        ap (λ d. (run env scheduler ms a (m.meanwhile d)).limiter.limit_bps) (first-passed action c)
        ∙ run-lasting ms a (m.meanwhile next) qs ((q next).1 ∙ change_to-accepting a c ∙ e)
            (subst (Follows a) (sym limit) (next_limit-Follows a c.limiter.limit_bps))
        ∙ ap (λ l. lasting l (actions ms)) limit
        ∙ sym (lasting-cons a c.limiter.limit_bps (actions ms))

    -- While new downloads are accepted and nothing else changes the limit or that flag, the limit
    -- after the task's passes is what the sequence of scheduled actions asks for: the last one but
    -- pauses, none lifting it, and the limit of before until the first action.
    pub run-from_start :
        (ms : List Moment) (c : Controls)
        → All IsQuiet ms
        → c.world.accepting_new ≡ true
        → (run env scheduler ms none c).limiter.limit_bps
          ≡ from_start c.limiter.limit_bps (actions ms)
    unfolding run
    run-from_start [] c q e = refl
    run-from_start (m ∷ ms) c (q, qs) e =
        ap (λ r. r.limiter.limit_bps) (run-accepting m ms none c e)
        ∙ start-step (current_action env scheduler m) m ms c (λ d k. run-from_start ms d qs k) q qs
            e
