-- ===== src/Task/Finalize/Outcome.antt =====
-- What `finalize_download` leaves behind.
use usenet_dl.Base.{
  ℕ, ◌+◌, ◌≡◌, refl, sym, ap, subst, ◌⊎◌, inl, inr, Bool, true, false, Option, none, some, ◌∷◌, ltb,
  filter, arith, Bool-cases, length,
}
use Prim.Native.String.{String}
use usenet_dl.Types.{DownloadId, Status, paused, complete, failed, status_to_i32}
use usenet_dl.World.Hoare.{Outcome, Ensures, >>=-Ensures, catch-Ensures, query-Ensures}
use usenet_dl.World.{World, Env, M, emit_event, post_processing}
use usenet_dl.Db.Downloads.{update_status, set_error, set_completed}
use usenet_dl.Db.Files.{is_pending, has_any_pending_articles}
use usenet_dl.Control.Reprocess.{spawn}
use usenet_dl.Control.Invariant.{status_of}
use usenet_dl.Task.{DownloadResults}
use usenet_dl.Task.Finalize.{
  remove_from_active, ignore, mark_failed_with_stats, is_failure, finish_failed, announce,
  finish_complete, finish_pending, finish_in_bounds, finalize_download,
}
use usenet_dl.Task.Finalize.Frames.{
  too_many, is_failure-too_many, OnlyMarks, IsMarked, IsRetired, has_pending, IsRightlyStarted,
  update_status-OnlyMarks, update_row-OnlyMarks, remove_from_active-IsRetired,
}

module _ (exceeds : ℕ → ℕ → Bool) (failure_text : ℕ → ℕ → Option String → String) (env : Env)
    (id j : DownloadId) (r : DownloadResults) (w : World) where
  -- What all the paths lead to.
  abbrev IsFinal : World → Type 0
  IsFinal v = IsRetired id j w v × IsRightlyStarted id (is_failure env exceeds failure_text r) w v

  abbrev Never : World → Type 0
  Never v = ⊥

  -- Only the row of `id` has changed, and its status is known to be as `P` says.
  abbrev Known : (Option Status → Type 0) → World → Type 0
  Known P v = OnlyMarks id j w v × P (status_of id v)

  abbrev Anyhow : World → Type 0
  Anyhow = Known (λ _. Unit)

  abbrev Marked : Option Status → Type 0
  Marked o = (o ≡ none) ⊎ (o ≡ some complete)

  abbrev Completed : World → Type 0
  Completed v =
      Known Marked v × (has_pending id w ≡ false) × (is_failure env exceeds failure_text r ≡ false)

  ignore-Ensures :
      (P Q R E : World → Type 0) (m : M Unit)
      → Ensures P m (λ _. Q) E
      → ((v : World) → Q v → R v)
      → ((v : World) → E v → R v)
      → Ensures P (ignore m) (λ _. R) Never
  ignore-Ensures P Q R E m h k l =
      catch-Ensures (λ _. Q) E (λ _. R) Never P m _ _ h (λ _. k) (λ _. l)

  retire : (v : World) → Anyhow v → Outcome (λ _. IsFinal) Never (remove_from_active id v)
  unfolding remove_from_active
  retire v (h, _) =
      let (_, _, _, p, _, _) = h in (remove_from_active-IsRetired env id j w v h, inl p)

  ignore-status :
      (s : Status)
      → Ensures Anyhow (ignore (update_status env id (status_to_i32 s))) (λ _. Anyhow) Never
  ignore-status s =
      ignore-Ensures Anyhow (Known (λ o. (o ≡ none) ⊎ (o ≡ some s))) Anyhow (OnlyMarks id j w) _
        (λ v (h, _). update_status-OnlyMarks env id j w s v h) (λ v (h, _). (h, tt))
        (λ v h. (h, tt))

  ignore-error : (e : String) → Ensures Anyhow (ignore (set_error env id e)) (λ _. Anyhow) Never
  unfolding set_error
  ignore-error e =
      ignore-Ensures Anyhow Anyhow Anyhow Anyhow _
        (update_row-OnlyMarks env id j w _ (λ _. Unit) (λ d. (refl, refl))) (λ v h. h) (λ v h. h)

  finish_failed-IsFinal :
      Ensures Anyhow (finish_failed env exceeds failure_text id r) (λ _. IsFinal) Never
  unfolding finish_failed mark_failed_with_stats emit_event
  finish_failed-IsFinal =
      >>=-Ensures (λ _. Anyhow) (λ _. IsFinal) Never Anyhow _ _
        (>>=-Ensures (λ _. Anyhow) (λ _. Anyhow) Never Anyhow _ _ (ignore-status failed)
          λ _. >>=-Ensures (λ _. Anyhow) (λ _. Anyhow) Never Anyhow _ _ (ignore-error _) λ _ v h. h)
        (λ _. retire)

  -- What is known after the status is set, through the update of the completion time.
  set_completed-Completed : Ensures Completed (ignore (set_completed env id)) (λ _. Completed) Never
  unfolding set_completed
  set_completed-Completed v (h, p, f) =
      ignore-Ensures (Known Marked) (Known Marked) Completed (Known Marked) _
        (update_row-OnlyMarks env id j w (λ d. record d { completed_at = some (env.now v.calls) })
          Marked (λ d. (refl, refl)))
        (λ u k. (k, p, f)) (λ u k. (k, p, f)) v h

  announce-IsFinal : Ensures Completed (announce env exceeds failure_text id r) (λ _. IsFinal) Never
  unfolding announce emit_event spawn remove_from_active
  announce-IsFinal =
      >>=-Ensures (λ _. Completed) (λ _. IsFinal) Never Completed _ _ set_completed-Completed
        λ _ v ((h, m), p, f).
          let (_, _, t, s, _, _) = h in
          let retired = remove_from_active-IsRetired env id j w v h in
          (
            record {
              tasks = retired.tasks;
              queue = retired.queue;
              articles = retired.articles;
              elsewhere = retired.elsewhere;
              statuses = retired.statuses;
            },
            inr (
              ap (◌∷◌ (post_processing id)) s,
              m,
              subst (λ a. ltb 0 (length (filter (is_pending id) a)) ≡ false) (sym t) p,
              f,
            ),
          )

  finish_complete-IsFinal :
      (v : World)
      → Anyhow v
      → has_pending id w ≡ false
      → is_failure env exceeds failure_text r ≡ false
      → Outcome (λ _. IsFinal) Never (finish_complete env exceeds failure_text id r v)
  unfolding finish_complete
  finish_complete-IsFinal v (h, _) p f =
      catch-Ensures (λ _ u. OnlyMarks id j w u × IsMarked id complete u) (OnlyMarks id j w)
        (λ _. IsFinal) Never (OnlyMarks id j w) _ _ _ (update_status-OnlyMarks env id j w complete)
        (λ _ u k. announce-IsFinal u (k, p, f)) (λ _ u k. retire u (k, tt)) v h

  finish_pending-IsFinal :
      (pending : Bool) (v : World)
      → Anyhow v
      → has_pending id w ≡ pending
      → is_failure env exceeds failure_text r ≡ false
      → Outcome (λ _. IsFinal) Never (finish_pending env exceeds failure_text id r pending v)
  unfolding finish_pending
  finish_pending-IsFinal true v h p f =
      >>=-Ensures (λ _. Anyhow) (λ _. IsFinal) Never Anyhow _ _ (ignore-status paused) (λ _. retire)
        v h
  finish_pending-IsFinal false v h p f = finish_complete-IsFinal v h p f

  start : Anyhow w
  start = (
    (
      refl,
      refl,
      refl,
      refl,
      (refl, refl, refl, refl, refl, refl, refl, refl, refl, refl),
      ground arith,
    ),
    tt,
  )

  finish_in_bounds-IsFinal :
      is_failure env exceeds failure_text r ≡ false
      → Outcome (λ _. IsFinal) Never (finish_in_bounds env exceeds failure_text id r w)
  unfolding finish_in_bounds has_any_pending_articles
  finish_in_bounds-IsFinal f =
      catch-Ensures (λ pending u. Anyhow u × (has_pending id w ≡ pending)) Anyhow (λ _. IsFinal)
        Never (λ u. u ≡ w) _ _ _
        (query-Ensures env _ _ _ _ (λ u e. subst Anyhow (sym e) start)
          (λ u e. (subst Anyhow (sym e) start, ap (has_pending id) (sym e))))
        (λ pending u (h, p). finish_pending-IsFinal pending u h p f) (λ _. retire) w refl

  always-IsFinal : Outcome (λ _. IsFinal) Never (finalize_download env exceeds failure_text id r w)
  unfolding finalize_download
  always-IsFinal = elim (Bool-cases (is_failure env exceeds failure_text r)) [
    | inl e ↦ rw e (finish_failed-IsFinal w start)
    | inr e ↦ rw e (finish_in_bounds-IsFinal e)
  ]

-- On every path, and whatever statements fail, `finalize_download` comes to its end, forgets the
-- task of the download, and leaves the queue, the articles, files, passwords and directories, the
-- tokens, and the task and status of any other download `j`. It starts post-processing at most
-- once, and only where no failure or some success with a ratio within the limit is counted, no
-- article is pending, and the row of the download, if there is one, is marked as complete.
pub finalize_download-IsFinal :
    (exceeds : ℕ → ℕ → Bool) (failure_text : ℕ → ℕ → Option String → String) (env : Env)
    (id j : DownloadId) (r : DownloadResults) (w : World)
    → Outcome
        (λ _ v.
          IsRetired id j w v
          × IsRightlyStarted id
              (too_many exceeds r.success_count (r.failed_count + r.individually_failed))
              w
              v)
        (λ _. ⊥)
        (finalize_download env exceeds failure_text id r w)
finalize_download-IsFinal exceeds failure_text env id j r w =
    subst
      (λ b.
        Outcome (λ _ v. IsRetired id j w v × IsRightlyStarted id b w v) (λ _. ⊥)
          (finalize_download env exceeds failure_text id r w))
      (is_failure-too_many env exceeds failure_text r)
      (always-IsFinal exceeds failure_text env id j r w)
