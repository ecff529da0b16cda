-- ===== src/SchedulerTask/Pausing.antt =====
-- `pause_all` does not touch the flag `accepting_new`.
use usenet_dl.Base.{◌≡◌, refl, Bool, true, false, none, some, List, [], ◌∷◌, if◌then◌else◌, arith}
use usenet_dl.Types.{DownloadId, Event, Status, paused, status_from_i32, status_to_i32}
use usenet_dl.World.{World, Env, Download, M, pure, or_throw, Error, emit_event}
use usenet_dl.World.Hoare.{
  Ensures, >>=-Ensures, catch-Ensures, query-Ensures, execute-Ensures, Outcome-always,
}
use usenet_dl.Db.Downloads.{get_download, update_status, update_row, list_downloads}
use usenet_dl.Queue.{remove_from_queue}
use usenet_dl.Control.{
  stop_task, get_existing, pause_active, pause_in, pause, is_pausable, pause_each, pause_all,
}

module _ (env : Env) (b : Bool) where
  abbrev Same : World → Type 0
  Same w = w.accepting_new ≡ b

  abbrev Keeps : {A : Type 0} → M A → Type 0
  Keeps m = Ensures Same m (λ _. Same) Same

  stop_task-Keeps : (id : DownloadId) → Keeps (stop_task id)
  unfolding stop_task
  stop_task-Keeps id w h = ground (arith, h)

  remove_from_queue-Keeps : (id : DownloadId) → Keeps (remove_from_queue id)
  unfolding remove_from_queue
  remove_from_queue-Keeps id w h = h

  update_status-Keeps :
      (id : DownloadId) (s : Status) → Keeps (update_status env id (status_to_i32 s))
  unfolding update_status update_row
  update_status-Keeps id s = execute-Ensures env _ Same (λ _. Same) Same (λ w h. h) (λ w h. h)

  pause_active-Keeps : (id : DownloadId) → Keeps (pause_active env id)
  unfolding pause_active
  pause_active-Keeps id =
      >>=-Ensures (λ _. Same) (λ _. Same) Same Same _ _ (stop_task-Keeps id)
        λ _.
          >>=-Ensures (λ _. Same) (λ _. Same) Same Same _ _ (remove_from_queue-Keeps id)
            (λ _. update_status-Keeps id paused)

  pause_in-Keeps : (s : Status) (id : DownloadId) → Keeps (pause_in env s id)
  unfolding pause_in
  pause_in-Keeps Status.queued id = pause_active-Keeps id
  pause_in-Keeps Status.downloading id = pause_active-Keeps id
  pause_in-Keeps Status.processing id = pause_active-Keeps id
  pause_in-Keeps Status.paused id = λ w h. h
  pause_in-Keeps Status.complete id = λ w h. h
  pause_in-Keeps Status.failed id = λ w h. h

  or_throw-Keeps : {A : Type 0} (o : _) (e : Error) → Keeps {A = A} (or_throw o e)
  or_throw-Keeps none e = λ w h. h
  or_throw-Keeps (some a) e = λ w h. h

  pause-Keeps : (id : DownloadId) → Keeps (pause env id)
  unfolding pause get_existing get_download
  pause-Keeps id =
      >>=-Ensures (λ _. Same) (λ _. Same) Same Same _ _
        (>>=-Ensures (λ _. Same) (λ _. Same) Same Same _ _
          (query-Ensures env _ Same (λ _. Same) Same (λ w h. h) (λ w h. h))
          (λ o. or_throw-Keeps o _))
        (λ d. pause_in-Keeps (status_from_i32 d.status) id)

  pause_if-Keeps : (c : Bool) (id : DownloadId) → Keeps (if c then pause env id else pure tt)
  pause_if-Keeps true id = pause-Keeps id
  pause_if-Keeps false id = λ w h. h

  pause_each-Keeps : (ds : List Download) → Keeps (pause_each env ds)
  unfolding pause_each
  pause_each-Keeps [] = λ w h. h
  pause_each-Keeps (d ∷ ds) =
      catch-Ensures (λ _. Same) Same (λ _. Same) Same Same _ _ _
        (pause_if-Keeps (is_pausable (status_from_i32 d.status)) d.id) (λ _. pause_each-Keeps ds)
        (λ _. pause_each-Keeps ds)

  emit_event-Keeps : (e : Event) → Keeps (emit_event e)
  unfolding emit_event
  emit_event-Keeps e w h = h

  pause_all-Keeps : Keeps (pause_all env)
  unfolding pause_all list_downloads
  pause_all-Keeps =
      >>=-Ensures (λ _. Same) (λ _. Same) Same Same _ _
        (query-Ensures env _ Same (λ _. Same) Same (λ w h. h) (λ w h. h))
        λ ds.
          >>=-Ensures (λ _. Same) (λ _. Same) Same Same _ _ (pause_each-Keeps ds)
            (λ _. emit_event-Keeps Event.queue_paused)

pub pause_all-accepting_new :
    (env : Env) (w : World) → (pause_all env w).1.accepting_new ≡ w.accepting_new
pause_all-accepting_new env w =
    Outcome-always (λ v. v.accepting_new ≡ w.accepting_new) (pause_all env w)
      (pause_all-Keeps env w.accepting_new w refl)
