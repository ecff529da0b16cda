-- ===== src/Control/Resume.antt =====
-- `resume`, where the database answers.
use usenet_dl.Base.{
  ℕ, suc, ◌≡◌, refl, sym, subst, false, some, ◌∷◌, ◌==◌, if◌then◌else◌, arith, select,
  select-update,
}
use usenet_dl.Types.{
  DownloadId, Status, Priority, queued, paused, complete, failed, status_from_i32,
  priority_from_i32,
}
use usenet_dl.Types.Codes.{status_from_i32-to_i32}
use usenet_dl.World.{Download, QueuedDownload, World, Env, Result, ok, err, query, execute}
use usenet_dl.Db.Downloads.{row_id, update_row, get_download, update_status}
use usenet_dl.Queue.{items_of, add_to_queue}
use usenet_dl.Control.{refuse, resume, resume_in, requeue}
use usenet_dl.Control.Invariant.{status_of, set_status}
use usenet_dl.Control.Effects.{IsUntouched, get_existing-some}

-- The item that the queue gets for a row.
abbrev pub item_for : DownloadId → Priority → Download → QueuedDownload
item_for id priority d = record { id = id; priority = priority; created_at = d.created_at }

-- The outcome of `resume` for the row of `id`.
abbrev pub ResumeOutcome :
    (id j : DownloadId) → World → Download → Status → Result (Unit {0}) × World → Type 0
ResumeOutcome id j w d Status.paused (r, w') =
    (r ≡ ok tt)
    × (status_of j w' ≡ (if j == id then some queued else status_of j w))
    × (items_of j w'.queue ≡ (
        if j == id
        then item_for id (priority_from_i32 d.priority) d ∷ items_of id w.queue
        else items_of j w.queue))
    × (w'.active ≡ w.active)
ResumeOutcome id j w d Status.complete (r, w') =
    (r ≡ err (refuse id "resume" complete)) × IsUntouched w w'
ResumeOutcome id j w d Status.failed (r, w') =
    (r ≡ err (refuse id "resume" failed)) × IsUntouched w w'
ResumeOutcome id j w d _ (r, w') = (r ≡ ok tt) × IsUntouched w w'

module _ (env : Env) (id j : DownloadId) where
  requeue-outcome :
      (d : Download) (w : World) (c : ℕ)
      → env.outage c ≡ false
      → env.outage (suc c) ≡ false
      → select row_id id w.downloads ≡ some d
      → ResumeOutcome id j w d paused (requeue env id (record w { calls = c }))
  unfolding requeue update_status add_to_queue get_download query execute update_row
  requeue-outcome d w c a b e =
      let upd = λ (k : ℕ). select-update row_id k id (set_status queued) w.downloads (λ r. refl) in
      (
        ground (arith, upd id),
        ground (arith, upd j, upd id, status_from_i32-to_i32 queued),
        ground (arith, upd id),
        ground (arith, upd id),
      )

  resume_in-outcome :
      (s : Status) (d : Download) (w : World)
      → env.outage (suc w.calls) ≡ false
      → env.outage (suc (suc w.calls)) ≡ false
      → select row_id id w.downloads ≡ some d
      → ResumeOutcome id j w d s (resume_in env s id (record w { calls = suc w.calls }))
  unfolding resume_in
  resume_in-outcome Status.paused d w b c e = requeue-outcome d w (suc w.calls) b c e
  resume_in-outcome _ d w b c e = (refl, refl)

-- Where the database answers, `resume` of a download with the row `d` has this outcome: a complete
-- or failed one is an error, a paused one is marked as queued and gets an item with the row's
-- priority and age, and any other is left. No other download changes its status or its items.
pub resume_lem :
    (env : Env) (id j : DownloadId) (w : World) (d : Download)
    → env.outage w.calls ≡ false
    → env.outage (suc w.calls) ≡ false
    → env.outage (suc (suc w.calls)) ≡ false
    → select row_id id w.downloads ≡ some d
    → ResumeOutcome id j w d (status_from_i32 d.status) (resume env id w)
unfolding resume
resume_lem env id j w d a b c e =
    subst (ResumeOutcome id j w d (status_from_i32 d.status))
      (sym (get_existing-some env id w a _ d e))
      (resume_in-outcome env id j (status_from_i32 d.status) d w b c e)
