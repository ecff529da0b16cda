-- ===== src/Control/Commands.antt =====
-- The commands that a user gives, in sequence, and the soundness of the queue.
use usenet_dl.Base.{suc, ap, inl, inr, Bool, true, false, List, [], ◌∷◌, if◌then◌else◌, Bool-cases}
use mathlib.Core.Option
use usenet_dl.Types.{DownloadId, Priority, Event, status_from_i32}
use usenet_dl.World.{
  Download, World, Env, M, Result, ok, err, pure, and_then, handle, query, emit_event, ◌>>=◌,
}
use usenet_dl.Db.Downloads.{list_downloads, list_downloads_by_status}
use usenet_dl.Control.{
  pause, resume, cancel, set_priority, is_pausable, pause_each, pause_all, resume_each, resume_all,
}
use usenet_dl.Control.Invariant.{QueueIsSound}
use usenet_dl.Control.Soundness.{
  get_existing-then, resume_in-Sound, pause_in-Sound, set_priority-Sound, cancel-Sound,
}

pub data Command : Type 0 where
  pause_one resume_one cancel_one : (id : DownloadId) → Command
  prioritise : (id : DownloadId) (priority : Priority) → Command
  pause_every resume_every : Command

unfoldable pub command : Env → Command → M (Unit {0})
command env (pause_one id) = pause env id
command env (resume_one id) = resume env id
command env (cancel_one id) = cancel env id
command env (prioritise id priority) = set_priority env id priority
command env pause_every = pause_all env
command env resume_every = resume_all env

-- The state after the commands, whether each succeeds or fails.
unfoldable pub run_commands : Env → List Command → World → World
run_commands env [] w = w
run_commands env (c ∷ cs) w = run_commands env cs (command env c w).1

module _ (env : Env) where
  pause-Sound : (id : DownloadId) (w : World) → QueueIsSound w → QueueIsSound (pause env id w).1
  unfolding pause
  pause-Sound id w h =
      get_existing-then env id QueueIsSound _ w h
        λ d e. pause_in-Sound env id (status_from_i32 d.status) (record w { calls = suc w.calls }) h

  resume-Sound : (id : DownloadId) (w : World) → QueueIsSound w → QueueIsSound (resume env id w).1
  unfolding resume
  resume-Sound id w h = get_existing-then env id QueueIsSound _ w h λ d e.
      resume_in-Sound env id (status_from_i32 d.status) (record w { calls = suc w.calls })
        (ap (Option.map (λ r. status_from_i32 r.status)) e) h

  -- A step whose error is passed over.
  catch-Sound :
      {A : Type 0} (r : Result A × World) (rest : M (Unit {0}))
      → QueueIsSound r.1
      → ((w : World) → QueueIsSound w → QueueIsSound (rest w).1)
      → QueueIsSound (handle r.0 (λ _. rest) (λ _. rest) r.1).1
  catch-Sound (ok a, w) rest h k = k w h
  catch-Sound (err e, w) rest h k = k w h

  pause_if-Sound :
      (b : Bool) (id : DownloadId) (w : World)
      → QueueIsSound w
      → QueueIsSound ((if b then pause env id else pure tt) w).1
  pause_if-Sound true id w h = pause-Sound id w h
  pause_if-Sound false id w h = h

  pause_each-Sound :
      (ds : List Download) (w : World) → QueueIsSound w → QueueIsSound (pause_each env ds w).1
  unfolding pause_each
  pause_each-Sound [] w h = h
  pause_each-Sound (d ∷ ds) w h =
      catch-Sound ((if is_pausable (status_from_i32 d.status) then pause env d.id else pure tt) w)
        (pause_each env ds) (pause_if-Sound (is_pausable (status_from_i32 d.status)) d.id w h)
        (pause_each-Sound ds)

  resume_each-Sound :
      (ds : List Download) (w : World) → QueueIsSound w → QueueIsSound (resume_each env ds w).1
  unfolding resume_each
  resume_each-Sound [] w h = h
  resume_each-Sound (d ∷ ds) w h =
      catch-Sound (resume env d.id w) (resume_each env ds) (resume-Sound d.id w h)
        (resume_each-Sound ds)

  last-Sound :
      (r : Result (Unit {0}) × World) (event : Event)
      → QueueIsSound r.1
      → QueueIsSound (and_then r.0 (λ _. emit_event event) r.1).1
  unfolding emit_event
  last-Sound (ok a, w) event h = h
  last-Sound (err e, w) event h = h

  -- Listing the downloads, a loop over them and an event.
  each-Sound :
      (list : World → List Download) (loop : List Download → M (Unit {0})) (event : Event)
      → ((ds : List Download) (w : World) → QueueIsSound w → QueueIsSound (loop ds w).1)
      → (w : World) → QueueIsSound w
      → QueueIsSound ((query env list >>= λ ds. loop ds >>= λ _. emit_event event) w).1
  unfolding query emit_event
  each-Sound list loop event k w h = elim (Bool-cases (env.outage w.calls)) [
    | inl e ↦ rw e h
    | inr e ↦ rw e (last-Sound (loop (list w) (record w { calls = suc w.calls })) event (k _ _ h))
  ]

  command-Sound : (c : Command) (w : World) → QueueIsSound w → QueueIsSound (command env c w).1
  unfolding command pause_all resume_all list_downloads list_downloads_by_status
  command-Sound (pause_one id) w h = pause-Sound id w h
  command-Sound (resume_one id) w h = resume-Sound id w h
  command-Sound (cancel_one id) w h = cancel-Sound env id w h
  command-Sound (prioritise id priority) w h = set_priority-Sound env id priority w h
  command-Sound pause_every w h =
      each-Sound _ (pause_each env) Event.queue_paused pause_each-Sound w h
  command-Sound resume_every w h =
      each-Sound _ (resume_each env) Event.queue_resumed resume_each-Sound w h

-- Whatever commands are given in whatever order, and whichever statements of the database fail, a
-- download has at most one item in the queue, and has one only while its row says queued.
pub run_commands-QueueIsSound :
    (env : Env) (commands : List Command) (w : World)
    → QueueIsSound w
    → QueueIsSound (run_commands env commands w)
unfolding run_commands
run_commands-QueueIsSound env [] w h = h
run_commands-QueueIsSound env (c ∷ cs) w h =
    run_commands-QueueIsSound env cs (command env c w).1 (command-Sound env c w h)
