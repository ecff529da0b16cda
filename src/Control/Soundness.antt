-- ===== src/Control/Soundness.antt =====
-- The lemmas on the soundness of the queue for the single operations of src/downloader/control.rs.
use usenet_dl.Base.{
  suc, ◌≡◌, refl, ap, ◌∙◌, ◌≢◌, ◌⊎◌, inl, inr, Bool, true, false, none, some, if◌then◌else◌, arith,
  Bool-cases, Option-cases, select, select-update, select-delete,
}
use mathlib.Core.Option
use usenet_dl.Types.{DownloadId, Status, Priority, queued, status_from_i32, priority_to_i32}
use usenet_dl.World.{M, emit_event, query, execute, Download, World, Env, ◌>>=◌}
use usenet_dl.Db.Files.{get_pending_articles, has_any_pending_articles}
use usenet_dl.Db.Downloads.{
  row_id, update_row, get_download, update_status, update_priority, delete_download,
}
use usenet_dl.Queue.{without, remove_from_queue}
use usenet_dl.Control.{
  requeue_if_queued, cancel_existing, remove_temp_dir, resume_in, pause_in, settle, stop_task,
  get_existing, pause_active, requeue, resume_download, cancel, set_priority,
}
use usenet_dl.Control.Invariant.{
  status_of-update_row, status_of, QueueIsSound, items_of-without, set_status, Absent,
  update_status-Sound, add_to_queue-Absent, requeue-Absent,
}

module _ (env : Env) (id : DownloadId) where
  -- An operation that starts by reading the row keeps what its rest keeps.
  pub get_existing-then :
      {B : Type 0} (P : World → Type 0) (f : Download → M B) (w : World)
      → P (record w { calls = suc w.calls })
      → ((d : Download)
          → select row_id id w.downloads ≡ some d
          → P (f d (record w { calls = suc w.calls })).1)
      → P ((get_existing env id >>= f) w).1
  unfolding get_existing get_download query
  get_existing-then P f w h k = elim (Bool-cases (env.outage w.calls)) [
    | inl e ↦ rw e h
    | inr e ↦ elim (Option-cases (select row_id id w.downloads)) [
      | inl none_e ↦ rw (e, none_e) h
      | inr (d, some_e) ↦ rw (e, some_e) (k d some_e)
    ]
  ]

  Absent-of_status :
      (w : World) (s : Status) → status_of id w ≡ some s → s ≢ queued → QueueIsSound w → Absent id w
  Absent-of_status w s e n h = (h, ground (arith, h id))

  pub resume_in-Sound :
      (s : Status) (w : World)
      → status_of id w ≡ some s
      → QueueIsSound w
      → QueueIsSound (resume_in env s id w).1
  unfolding resume_in
  resume_in-Sound Status.paused w e h =
      requeue-Absent env id w (Absent-of_status w Status.paused e (λ q. cc) h)
  resume_in-Sound _ w e h = h

  pause_active-Sound : (w : World) → QueueIsSound w → QueueIsSound (pause_active env id w).1
  unfolding pause_active stop_task remove_from_queue update_status execute update_row
  pause_active-Sound w h j = ground (
    arith,
    h j,
    items_of-without j id w.queue,
    select-update row_id j id (set_status Status.paused) w.downloads (λ d. refl),
  )

  pub pause_in-Sound :
      (s : Status) (w : World) → QueueIsSound w → QueueIsSound (pause_in env s id w).1
  unfolding pause_in
  pause_in-Sound Status.queued w h = pause_active-Sound w h
  pause_in-Sound Status.downloading w h = pause_active-Sound w h
  pause_in-Sound Status.processing w h = pause_active-Sound w h
  pause_in-Sound _ w h = h

  without-Absent :
      (w : World) → QueueIsSound w → Absent id (record w { queue = without id w.queue })
  without-Absent w h = (
    λ j. ground (arith, h j, items_of-without j id w.queue),
    ground (arith, items_of-without id id w.queue),
  )

  -- An update that leaves the statuses.
  status_of-update_keep :
      (j : DownloadId) (f : Download → Download) (w : World)
      → ((d : Download) → (f d).id ≡ d.id)
      → ((d : Download) → (f d).status ≡ d.status)
      → status_of j (update_row id f w) ≡ status_of j w
  unfolding update_row
  status_of-update_keep j f w k s = status_of-update_row j id f w (λ d. (k d, s d))

  update_row-Sound :
      (f : Download → Download) (w : World)
      → ((d : Download) → (f d).id ≡ d.id)
      → ((d : Download) → (f d).status ≡ d.status)
      → QueueIsSound w
      → QueueIsSound (update_row id f w)
  unfolding update_row
  update_row-Sound f w k s h j = rw (status_of-update_keep j f w k s) (h j)

  reprioritise-Sound :
      (s : Status) (w : World)
      → (status_of id w ≡ none) ⊎ (status_of id w ≡ some s)
      → QueueIsSound w
      → QueueIsSound (requeue_if_queued env s id w).1
  unfolding requeue_if_queued remove_from_queue
  reprioritise-Sound Status.queued w e h =
      add_to_queue-Absent env id (record w { queue = without id w.queue }) (without-Absent w h) e
  reprioritise-Sound _ w e h = h

  pub set_priority-Sound :
      (priority : Priority) (w : World)
      → QueueIsSound w
      → QueueIsSound (set_priority env id priority w).1
  unfolding set_priority update_priority execute
  set_priority-Sound priority w h = get_existing-then QueueIsSound _ w h λ d e.
      let t = record w { calls = suc w.calls } in
      let f = λ (r : Download). record r { priority = priority_to_i32 priority } in
      elim (Bool-cases (env.outage (suc w.calls))) [
        | inl fails ↦ rw fails h
        | inr works ↦ rw works (
            reprioritise-Sound (status_from_i32 d.status)
              (record (update_row id f t) { calls = suc (suc w.calls) })
              (inr (
                status_of-update_keep id f t (λ r. refl) (λ r. refl)
                ∙ ap (Option.map (λ r. status_from_i32 r.status)) e))
              (update_row-Sound f t (λ r. refl) (λ r. refl) h))
      ]

  pub cancel-Sound : (w : World) → QueueIsSound w → QueueIsSound (cancel env id w).1
  unfolding cancel cancel_existing stop_task remove_from_queue remove_temp_dir delete_download
      execute emit_event
  cancel-Sound w h = get_existing-then QueueIsSound _ w h λ d e j.
      ground (arith, h j, items_of-without j id w.queue, select-delete row_id j id w.downloads)

  settle-Sound : (w : World) → Absent id w → QueueIsSound (settle env id w).1
  unfolding settle has_any_pending_articles query
  settle-Sound w a = elim (Bool-cases (env.outage w.calls)) [
    | inl e ↦ rw e a.0
    | inr e ↦ rw e (update_status-Sound env id _ (record w { calls = suc w.calls }) a)
  ]

  go_on-Sound :
      (more : Bool) (w : World)
      → Absent id w
      → QueueIsSound ((if more then requeue env id else settle env id) w).1
  go_on-Sound true w a = requeue-Absent env id w a
  go_on-Sound false w a = settle-Sound w a

  pub resume_download-Sound :
      (w : World)
      → status_of id w ≢ some queued
      → QueueIsSound w
      → QueueIsSound (resume_download env id w).1
  unfolding resume_download get_pending_articles query
  resume_download-Sound w n h = elim (Bool-cases (env.outage w.calls)) [
    | inl e ↦ rw e h
    | inr e ↦ rw e (go_on-Sound _ (record w { calls = suc w.calls }) (h, ground (arith, h id)))
  ]
