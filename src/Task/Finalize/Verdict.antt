-- ===== src/Task/Finalize/Verdict.antt =====
-- Which end a download comes to, where the database answers.
use usenet_dl.Base.{
  ℕ, suc, ◌+◌, ◌≡◌, refl, ap, ◌∙◌, Bool, true, false, ◌||◌, Option, none, some, List, [], ◌∷◌, ◌++◌,
  ltb, if◌then◌else◌, arith,
}
use mathlib.Core.Option
use Prim.Native.String.{String}
use usenet_dl.Types.{DownloadId, Event, Status, paused, complete, failed, status_to_i32}
use usenet_dl.World.Hoare.{Outcome, Ensures, >>=-Ensures, catch-Ensures, execute-Ensures}
use usenet_dl.World.{World, Env, Job, Download, query, execute, emit_event, post_processing}
use usenet_dl.Db.Downloads.{row_id, update_row, update_status, set_error, set_completed}
use usenet_dl.Db.Files.{has_any_pending_articles}
use usenet_dl.Control.Reprocess.{spawn}
use usenet_dl.Control.Invariant.{status_of-update_row, status_of, status_of-update}
use usenet_dl.Task.{DownloadResults}
use usenet_dl.Task.Finalize.{
  remove_from_active, ignore, total_failed, total, mark_failed_with_stats, is_failure,
  finish_failed, announce, finish_complete, finish_pending, finish_in_bounds, finalize_download,
}
use usenet_dl.Task.Finalize.Frames.{has_pending, too_many, is_failure-too_many}

-- The status that the results and the articles that are left decide.
abbrev pub verdict : (fails pending : Bool) → Status
verdict true pending = failed
verdict false true = paused
verdict false false = complete

-- What is sent with it.
abbrev pub events_for : DownloadId → String → DownloadResults → (fails pending : Bool) → List Event
events_for id text r true pending =
    Event.download_failed id text (some r.success_count)
      (some (r.failed_count + r.individually_failed)) (some r.total_articles)
    ∷ []
events_for id text r false true = []
events_for id text r false false =
    Event.download_complete id
      (if ltb 0 (r.failed_count + r.individually_failed)
        then some (r.failed_count + r.individually_failed)
        else none)
      (some r.total_articles)
    ∷ []

module _ (exceeds : ℕ → ℕ → Bool) (failure_text : ℕ → ℕ → Option String → String) where
  module _ (env : Env) (id : DownloadId) (r : DownloadResults) (w : World) where
    -- The status of `w`'s row, if it has one, has become `s`; the events and jobs are given.
    abbrev Ends : Status → List Event → List Job → World → Type 0
    Ends s events spawned v =
        (status_of id v ≡ Option.map (λ _. s) (status_of id w))
        × (v.events ≡ events)
        × (v.spawned ≡ spawned)

    abbrev Never : World → Type 0
    Never v = ⊥

    answered :
        (s : Status) (u : World)
        → env.outage u.calls ≡ false
        → (status_of id u ≡ status_of id w) × (u.events ≡ w.events) × (u.spawned ≡ w.spawned)
        → Outcome (λ _. Ends s w.events w.spawned) Never (update_status env id (status_to_i32 s) u)
    unfolding update_status execute update_row
    answered s u a (h, e, p) = rw a (ground (arith, status_of-update id id s u, h), e, p)

    kept :
        (f : Download → Download) (s : Status) (events : List Event) (spawned : List Job)
        → ((d : Download) → (row_id (f d) ≡ row_id d) × ((f d).status ≡ d.status))
        → Ensures
            (Ends s events spawned)
            (ignore (execute env (update_row id f)))
            (λ _. Ends s events spawned)
            Never
    unfolding update_row
    kept f s events spawned h =
        catch-Ensures (λ _. Ends s events spawned) (Ends s events spawned)
          (λ _. Ends s events spawned) Never (Ends s events spawned) _ _ _
          (execute-Ensures env (update_row id f) (Ends s events spawned)
            (λ _. Ends s events spawned) (Ends s events spawned) (λ v k. k)
            λ v (k, e, p). (status_of-update_row id id f v h ∙ k, e, p))
          (λ _ v k. k) (λ _ v k. k)

    -- What `w` still has of the start.
    abbrev IsLike : World → Type 0
    IsLike v = (status_of id v ≡ status_of id w) × (v.events ≡ w.events) × (v.spawned ≡ w.spawned)

    abbrev IsAt : ℕ → World → Type 0
    IsAt n v = IsLike v × (v.calls ≡ n)

    updated :
        (s : Status) (n : ℕ)
        → env.outage n ≡ false
        → Ensures
            (IsAt n)
            (update_status env id (status_to_i32 s))
            (λ _. Ends s w.events w.spawned)
            Never
    updated s n a u (h, e) = answered s u (ap env.outage e ∙ a) h

    ignored :
        (s : Status) (n : ℕ)
        → env.outage n ≡ false
        → Ensures
            (IsAt n)
            (ignore (update_status env id (status_to_i32 s)))
            (λ _. Ends s w.events w.spawned)
            Never
    ignored s n a =
        catch-Ensures (λ _. Ends s w.events w.spawned) Never (λ _. Ends s w.events w.spawned) Never
          (IsAt n) _ _ _ (updated s n a) (λ _ v k. k) (λ _ v k. elim k [ ])

    abbrev text : String
    text = failure_text (total_failed r) (total r) r.first_error

    abbrev Ended : (fails pending : Bool) → List Job → World → Type 0
    Ended f p = Ends (verdict f p) (events_for id text r f p ++ w.events)

    finish_failed-Ends :
        env.outage w.calls ≡ false
        → Ensures
            (IsAt w.calls)
            (finish_failed env exceeds failure_text id r)
            (λ _. Ended true true w.spawned)
            Never
    unfolding finish_failed mark_failed_with_stats emit_event remove_from_active set_error
    finish_failed-Ends a =
        >>=-Ensures (λ _. Ended true true w.spawned) (λ _. Ended true true w.spawned) Never
          (IsAt w.calls) _ _
          (>>=-Ensures (λ _. Ends failed w.events w.spawned) (λ _. Ended true true w.spawned) Never
            (IsAt w.calls) _ _ (ignored failed w.calls a)
            λ _.
              >>=-Ensures (λ _. Ends failed w.events w.spawned) (λ _. Ended true true w.spawned)
                Never (Ends failed w.events w.spawned) _ _
                (kept (λ d. record d { error_message = some text }) failed w.events w.spawned
                  (λ d. (refl, refl)))
                λ _ v (h, k, p). (h, ap (λ es. events_for id text r true true ++ es) k, p))
          (λ _ v k. k)

    completed_time :
        Ensures
          (Ends complete w.events w.spawned)
          (ignore (set_completed env id))
          (λ _. Ends complete w.events w.spawned)
          Never
    unfolding set_completed
    completed_time v k =
        kept (λ d. record d { completed_at = some (env.now v.calls) }) complete w.events w.spawned
          (λ d. (refl, refl)) v k

    announce-Ends :
        Ensures
          (Ends complete w.events w.spawned)
          (announce env exceeds failure_text id r)
          (λ _. Ended false false (post_processing id ∷ w.spawned))
          Never
    unfolding announce emit_event remove_from_active spawn
    announce-Ends =
        >>=-Ensures (λ _. Ends complete w.events w.spawned)
          (λ _. Ended false false (post_processing id ∷ w.spawned)) Never
          (Ends complete w.events w.spawned) _ _ completed_time
          λ _ u (h, e, p). (
            h,
            ap (λ es. events_for id text r false false ++ es) e,
            ap (◌∷◌ (post_processing id)) p,
          )

    finish_pending-Ends :
        (pending : Bool) (n : ℕ)
        → env.outage n ≡ false
        → Ensures
            (IsAt n)
            (finish_pending env exceeds failure_text id r pending)
            (λ _.
              Ended false pending (if pending then w.spawned else post_processing id ∷ w.spawned))
            Never
    unfolding finish_pending finish_complete remove_from_active
    finish_pending-Ends true n a =
        >>=-Ensures (λ _. Ended false true w.spawned) (λ _. Ended false true w.spawned) Never
          (IsAt n) _ _ (ignored paused n a) (λ _ v k. k)
    finish_pending-Ends false n a =
        catch-Ensures (λ _. Ends complete w.events w.spawned) Never
          (λ _. Ended false false (post_processing id ∷ w.spawned)) Never (IsAt n) _ _ _
          (updated complete n a) (λ _. announce-Ends) (λ _ v k. elim k [ ])

    finish_in_bounds-Ends :
        env.outage w.calls ≡ false
        → env.outage (suc w.calls) ≡ false
        → Outcome
            (λ _.
              Ended false
                (has_pending id w)
                (if has_pending id w then w.spawned else post_processing id ∷ w.spawned))
            Never
            (finish_in_bounds env exceeds failure_text id r w)
    unfolding finish_in_bounds has_any_pending_articles query
    finish_in_bounds-Ends a b = rw a (
        finish_pending-Ends (has_pending id w) (suc w.calls) b (record w { calls = suc w.calls })
          ((refl, refl, refl), refl))

    finalize_at :
        (f : Bool)
        → is_failure env exceeds failure_text r ≡ f
        → env.outage w.calls ≡ false
        → env.outage (suc w.calls) ≡ false
        → Outcome
            (λ _.
              Ended f
                (has_pending id w)
                (if f || has_pending id w then w.spawned else post_processing id ∷ w.spawned))
            Never
            (finalize_download env exceeds failure_text id r w)
    unfolding finalize_download
    finalize_at true e a b = rw e (finish_failed-Ends a w ((refl, refl, refl), refl))
    finalize_at false e a b = rw e (finish_in_bounds-Ends a b)

  -- Where the database answers the first two statements, `finalize_download` comes to its end, and
  -- marks the row, whatever its status was. With some failures, and no success or a ratio above the
  -- limit, it is failed; else, where an article is pending, paused; else complete. The event of this
  -- outcome is sent (none for paused), and post-processing is started exactly for a complete
  -- download.
  pub finalize_download_lem :
      (env : Env) (id : DownloadId) (r : DownloadResults) (w : World)
      → env.outage w.calls ≡ false
      → env.outage (suc w.calls) ≡ false
      → let failures = r.failed_count + r.individually_failed in
        let fails = too_many exceeds r.success_count failures in
        let text = failure_text failures (r.success_count + failures) r.first_error in
        Outcome
          (λ _ w'.
            (status_of id w' ≡ Option.map (λ _. verdict fails (has_pending id w)) (status_of id w))
            × (w'.events ≡ events_for id text r fails (has_pending id w) ++ w.events)
            × (w'.spawned ≡ (
                if fails || has_pending id w then w.spawned else post_processing id ∷ w.spawned)))
          (λ _. ⊥)
          (finalize_download env exceeds failure_text id r w)
  finalize_download_lem env id r w a b =
      finalize_at env id r w
        (too_many exceeds r.success_count (r.failed_count + r.individually_failed))
        (is_failure-too_many env exceeds failure_text r) a b
