-- ===== src/Lifecycle.antt =====
-- src/downloader/lifecycle.rs: the shutdown. What the tasks do while it waits for them is a function on
-- the state; the wait ends after 30 seconds in any case, and its outcome is only logged.
pub mod Persist
pub mod Shutdown
use usenet_dl.Base.{
  ℕ, Bool, true, false, ◌&&◌, ◌||◌, not, List, [], ◌∷◌, ◌++◌, map, if◌then◌else◌, any, ◌==◌,
}
use usenet_dl.Base.Int.{eqb_ℤ}
use usenet_dl.Types.{DownloadId, Event, downloading, paused, processing, status_to_i32}
use usenet_dl.World.{Download, World, Env, M, pure, modify, catch, emit_event, ◌>>=◌, ◌>>◌}
use usenet_dl.Db.Downloads.{get_all_downloads, update_status}
use usenet_dl.Db.State.{set_clean_shutdown}

unfoldable pub stop_accepting : M (Unit {0})
stop_accepting = modify (λ w. record w { accepting_new = false })

-- Every token is cancelled; the tasks stay in the map until they end.
unfoldable pub pause_graceful_all : M (Unit {0})
pause_graceful_all = modify (λ w. record w { cancelled = map (λ e. e.1) w.active ++ w.cancelled })

-- `active.contains_key(&id)`
abbrev pub is_active : DownloadId → World → Bool
is_active id w = any (λ e. e.0 == id) w.active

abbrev pub is_in_progress : Download → Bool
is_in_progress d =
    eqb_ℤ d.status (status_to_i32 downloading) || eqb_ℤ d.status (status_to_i32 processing)

module _ (env : Env) where
  unfoldable pub persist_one : Download → M (Unit {0})
  persist_one d w =
      if not (is_active d.id w) && is_in_progress d
      then update_status env d.id (status_to_i32 paused) w
      else pure tt w

  unfoldable pub persist_each : List Download → M (Unit {0})
  persist_each [] = pure tt
  persist_each (d ∷ ds) = do persist_one d; persist_each ds

  unfoldable pub persist_all_state : M (Unit {0})
  persist_all_state = do downloads ← get_all_downloads env; persist_each downloads

  -- An error of a step is logged, and the shutdown goes on.
  unfoldable pub shutdown : (World → World) → M (Unit {0})
  shutdown waited = do
    stop_accepting
    pause_graceful_all
    modify waited
    catch (persist_all_state) (λ _. pure tt) (λ _. pure tt)
    catch (set_clean_shutdown env) (λ _. pure tt) (λ _. pure tt)
    emit_event Event.shutdown
