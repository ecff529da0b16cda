-- ===== src/Control/Restart.antt =====
-- What `reprocess` and `reextract` do, where the database answers.
use usenet_dl.Base.{
  suc, ◌≡◌, refl, ◌∙◌, Bool, true, false, Option, none, some, ◌∷◌, ◌==◌, any, select,
}
use usenet_dl.Types.{DownloadId, Event, processing}
use usenet_dl.World.{
  World, Env, Job, Download, Result, ok, err, query, emit_event, post_processing, re_extraction,
  not_found, files_not_found,
}
use usenet_dl.World.Hoare.{execute-ok}
use usenet_dl.Db.Downloads.{row_id, update_row, get_download, update_status, set_error}
use usenet_dl.Control.Effects.{IsUntouched}
use usenet_dl.Control.Reprocess.{require_files, spawn, begin_processing, reprocess, reextract}
use usenet_dl.Control.Invariant.{status_of-update_row, status_of, set_status}
use usenet_dl.Control.Continue.{status_of-marked}

-- The outcome for a download that has a row, or none, and a directory, or none.
abbrev pub RestartOutcome :
    DownloadId
    → Event
    → Job
    → World
    → (has_row has_files : Bool) → Result (Unit {0}) × World
    → Type 0
RestartOutcome id event job w false has_files (r, w') = (r ≡ err (not_found id)) × IsUntouched w w'
RestartOutcome id event job w true false (r, w') = (r ≡ err (files_not_found id)) × IsUntouched w w'
RestartOutcome id event job w true true (r, w') =
    (r ≡ ok tt)
    × (status_of id w' ≡ some processing)
    × (w'.events ≡ event ∷ w.events)
    × (w'.spawned ≡ job ∷ w.spawned)
    × (w'.queue ≡ w.queue)
    × (w'.active ≡ w.active)

abbrev pub has_row : DownloadId → World → Bool
has_row id w = elim (select row_id id w.downloads) [ none ↦ false | some d ↦ true ]

abbrev pub has_files : DownloadId → World → Bool
has_files id w = any (λ d. d == id) w.temp_dirs

module _ (env : Env) (id : DownloadId) (event : Event) (job : Job) (w : World)
    (a : env.outage w.calls ≡ false) (b : env.outage (suc w.calls) ≡ false)
    (c : env.outage (suc (suc w.calls)) ≡ false) where
  restarted :
      (o : Option Download) (f : Bool)
      → select row_id id w.downloads ≡ o
      → has_files id w ≡ f
      → RestartOutcome id event job w
          (elim o [ none ↦ false | some d ↦ true ])
          f
          (begin_processing env id event job w)
  unfolding begin_processing get_download query require_files update_status set_error emit_event
      spawn update_row
  restarted none f e h = rw (a, e) (refl, refl)
  restarted (some d) false e h = rw (a, e, h) (refl, refl)
  restarted (some d) true e h =
      rw (a, e, h)
        (rw
          (execute-ok env (update_row id (set_status processing)) (record w { calls = suc w.calls })
            b)
          (rw
            (execute-ok env (update_row id (λ r. record r { error_message = some "" }))
              (record (update_row id (set_status processing) w) { calls = suc (suc w.calls) }) c)
            (
              refl,
              status_of-update_row id id (λ r. record r { error_message = some "" })
                    (update_row id (set_status processing) w) (λ r. (refl, refl))
                  ∙ status_of-marked id processing w d e,
              refl,
              refl,
              refl,
              refl,
            )))

module _ (env : Env) (id : DownloadId) (w : World) where
  -- Where the database answers, both refuse a download without a row, and then one without its
  -- directory, and change nothing. Of any other they set the status to processing, whatever it was,
  -- announce it, start the job, and leave the queue and the running tasks.
  pub reprocess-reextract :
      env.outage w.calls ≡ false
      → env.outage (suc w.calls) ≡ false
      → env.outage (suc (suc w.calls)) ≡ false
      → RestartOutcome id
          (Event.verifying id)
          (post_processing id)
          w
          (has_row id w)
          (has_files id w)
          (reprocess env id w)
        × RestartOutcome id
            (Event.extracting id "")
            (re_extraction id)
            w
            (has_row id w)
            (has_files id w)
            (reextract env id w)
  unfolding reprocess reextract
  reprocess-reextract a b c = (
    restarted env id (Event.verifying id) (post_processing id) w a b c
        (select row_id id w.downloads) (has_files id w) refl refl,
    restarted env id (Event.extracting id "") (re_extraction id) w a b c
        (select row_id id w.downloads) (has_files id w) refl refl,
  )
