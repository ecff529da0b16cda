-- ===== src/Task/Run/Retires.antt =====
-- What the run of a task leaves of the running tasks and the queue.
use usenet_dl.Base.{
  ℕ, ◌+◌, ◌≢◌, subst, ◌≡◌, refl, ap, ◌∙◌, inl, inr, Bool, true, false, Option, none, some, List, [],
  ◌∷◌, ◌++◌, leb, length, ◌==◌, if◌then◌else◌, arith, Bool-cases, is_empty, chunks,
}
use usenet_dl.Base.Int.{ℤ}
use Prim.Native.String.{String}
use usenet_dl.Types.{DownloadId}
use usenet_dl.World.Hoare.{
  Outcome, Ensures, >>=-Ensures, catch-Ensures, query-Ensures, execute-Ensures,
}
use usenet_dl.Task.Finalize.Frames.{too_many, IsRetired, IsRightlyStarted}
use usenet_dl.World.{
  Result, ok, err, World, Env, M, Download, Article, DownloadFile, query, execute, pure, catch,
  ◌>>=◌, emit_event,
}
use usenet_dl.Db.Downloads.{get_download, update_row, update_status, set_started, set_error}
use usenet_dl.Db.Articles.{update_articles_status_batch, update_chunks, max_updates_per_batch}
use usenet_dl.Db.Files.{get_pending_articles, has_any_pending_articles, get_download_files}
use usenet_dl.Control.{token_of}
use usenet_dl.Control.Effects.{token_of-stopped}
use usenet_dl.Control.Reprocess.{spawn}
use usenet_dl.Task.{DownloadResults}
use usenet_dl.Task.Batches.{Config, sum_connections}
use usenet_dl.Task.Fetch.{Provider, Texts}
use usenet_dl.Task.Fetch.Sums.{download_articles-updates}
use usenet_dl.Task.Finalize.{
  remove_from_active, ignore, mark_failed, mark_failed_with_stats, finalize_download,
}
use usenet_dl.Task.Finalize.Outcome.{finalize_download-IsFinal}
use usenet_dl.Task.Updater.{
  Input, received, tick, cancelled, flush, batch_updater, article_batch_size,
}
use usenet_dl.Task.Run.{
  make_dir, give_up, begin_download, begin_existing, fetch_download_record, finish_empty, run_empty,
  Ending, ended, still_runs, await_unpack, finish_downloads, run_fetch, fail_task, or_fail,
  run_downloads, run_files, run_articles, run_fetched, run_download_task,
}

-- The running tasks and the queue are as in `w`.
abbrev pub Same : World → World → Type 0
Same w v = (v.active ≡ w.active) × (v.queue ≡ w.queue)

-- An operation that leaves both, whether it succeeds or fails.
abbrev pub Keeps : {A : Type 0} → M A → Type 0
Keeps m = (w : World) → Ensures (Same w) m (λ _. Same w) (Same w)

-- An operation that leaves both, and that has come to its end where it succeeds.
abbrev pub Ends : M Ending → Type 0
Ends m = (w : World) → Ensures (Same w) m (λ e v. (e ≡ ended) × Same w v) (Same w)

still_runs-ended : ¬ (still_runs ≡ ended)
still_runs-ended e = subst (λ x. elim x [ still_runs ↦ Unit | ended ↦ ⊥ ]) e tt

-- The task of `id` is gone, and any other is as it was.
abbrev pub IsGone : DownloadId → DownloadId → World → World → Type 0
IsGone id j w v =
    (token_of j v.active ≡ (if j == id then none else token_of j w.active)) × (v.queue ≡ w.queue)

abbrev Never : World → Type 0
Never v = ⊥

module _ (env : Env) where
  pub query-Keeps : {A : Type 0} (f : World → A) → Keeps (query env f)
  query-Keeps f w = query-Ensures env f (Same w) _ _ (λ v h. h) (λ v h. h)

  pub update_row-Keeps :
      (id : DownloadId) (f : Download → Download) → Keeps (execute env (update_row id f))
  unfolding update_row
  update_row-Keeps id f w = execute-Ensures env _ (Same w) _ _ (λ v h. h) (λ v h. h)

  set_started-Keeps : (id : DownloadId) → Keeps (set_started env id)
  unfolding set_started
  set_started-Keeps id w v h = update_row-Keeps id _ w v h

  update_chunks-Keeps : (time : ℕ) (cs : List (List (ℕ × ℤ))) → Keeps (update_chunks env time cs)
  unfolding update_chunks
  update_chunks-Keeps time [] w = λ v h. h
  update_chunks-Keeps time (c ∷ cs) w =
      >>=-Ensures (λ _. Same w) (λ _. Same w) (Same w) (Same w) _ _
        (execute-Ensures env _ (Same w) _ _ (λ v h. h) (λ v h. h))
        (λ _. update_chunks-Keeps time cs w)

  update_articles_status_batch-Keeps :
      (us : List (ℕ × ℤ)) → Keeps (update_articles_status_batch env us)
  unfolding update_articles_status_batch
  update_articles_status_batch-Keeps us w v h = elim (Bool-cases (is_empty us)) [
    | inl e ↦ rw e h
    | inr e ↦ rw e (update_chunks-Keeps (env.now v.calls) (chunks max_updates_per_batch us) w v h)
  ]

  -- An operation whose error is passed over.
  pub ignore-Keeps :
      {A : Type 0} (m : M A)
      → Keeps m
      → (w : World) → Ensures (Same w) (ignore m) (λ _. Same w) Never
  ignore-Keeps m h w =
      catch-Ensures (λ _. Same w) (Same w) (λ _. Same w) Never (Same w) m _ _ (h w) (λ _ v k. k)
        (λ _ v k. k)

  then-Same :
      {A B : Type 0} (w : World) (R : B → World → Type 0) (m : M A) (f : A → M B)
      → Ensures (Same w) m (λ _. Same w) Never
      → ((a : A) → Ensures (Same w) (f a) R Never)
      → Ensures (Same w) (m >>= f) R Never
  then-Same w R m f h k = >>=-Ensures (λ _. Same w) R Never (Same w) m f h k

  flush-Same : (us : List (ℕ × ℤ)) (w : World) → Ensures (Same w) (flush env us) (λ _. Same w) Never
  unfolding flush
  flush-Same us w v h = elim (Bool-cases (is_empty us)) [
    | inl e ↦ rw e h
    | inr e ↦ rw e (ignore-Keeps _ (update_articles_status_batch-Keeps us) w v h)
  ]

  batch_updater-Same :
      (buffer : List (ℕ × ℤ)) (inputs : List Input) (w : World)
      → Ensures (Same w) (batch_updater env buffer inputs) (λ _. Same w) Never
  unfolding batch_updater
  batch_updater-Same buffer [] w = flush-Same buffer w
  batch_updater-Same buffer (received u ∷ inputs) w =
      let full = buffer ++ u ∷ [] in
      λ v h. elim (Bool-cases (leb article_batch_size (length full))) [
        | inl e ↦ rw e (
            then-Same w (λ _. Same w) _ _ (flush-Same full w) (λ _. batch_updater-Same [] inputs w)
              v h)
        | inr e ↦ rw e (batch_updater-Same full inputs w v h)
      ]
  batch_updater-Same buffer (tick ∷ inputs) w =
      then-Same w (λ _. Same w) _ _ (flush-Same buffer w) (λ _. batch_updater-Same [] inputs w)
  batch_updater-Same buffer (cancelled ∷ inputs) w =
      then-Same w (λ _. Same w) _ _ (flush-Same buffer w) (λ _. flush-Same _ w)

module _ (env : Env) (id j : DownloadId) (w : World) where
  abbrev Gone : World → Type 0
  Gone = IsGone id j w

  remove_from_active-Gone : Ensures (Same w) (remove_from_active id) (λ _. Gone) Never
  unfolding remove_from_active
  remove_from_active-Gone v (a, q) = (ground (arith, a, token_of-stopped j id w.active), q)

  -- Nothing to fetch, and gone; or the articles to fetch, and as before.
  abbrev Fetched : Option (Download × List Article) → World → Type 0
  Fetched none v = Gone v
  Fetched (some x) v = Same w v

  give_up-Gone : Ensures (Same w) (give_up env id) Fetched Never
  unfolding give_up remove_from_active
  give_up-Gone v (a, q) = (ground (arith, a, token_of-stopped j id w.active), q)

  catch-Fetched :
      {A : Type 0} (m : M A) (f : A → M (Option (Download × List Article)))
      → Keeps m
      → ((a : A) → Ensures (Same w) (f a) Fetched Never)
      → Ensures (Same w) (catch m f (λ _. give_up env id)) Fetched Never
  catch-Fetched m f h k =
      catch-Ensures (λ _. Same w) (Same w) Fetched Never (Same w) m f _ (h w) k (λ _. give_up-Gone)

  begin_download-Fetched : (d : Download) → Ensures (Same w) (begin_download env id d) Fetched Never
  unfolding begin_download emit_event update_status get_pending_articles
  begin_download-Fetched d = catch-Fetched _ _ (update_row-Keeps env id _) λ _.
      catch-Fetched _ _ (set_started-Keeps env id)
        λ _ v h. catch-Fetched _ _ (query-Keeps env _) (λ _ u k. k) _ h

  begin_existing-Fetched :
      (o : Option Download) → Ensures (Same w) (begin_existing env id o) Fetched Never
  unfolding begin_existing
  begin_existing-Fetched none = give_up-Gone
  begin_existing-Fetched (some d) = begin_download-Fetched d

  fetch_download_record-Fetched : Ensures (Same w) (fetch_download_record env id) Fetched Never
  unfolding fetch_download_record get_download
  fetch_download_record-Fetched = catch-Fetched _ _ (query-Keeps env _) begin_existing-Fetched

  finish_empty-Gone : (b : Bool) → Ensures (Same w) (finish_empty env id b) (λ _. Gone) Never
  unfolding finish_empty update_status emit_event spawn remove_from_active
  finish_empty-Gone true =
      then-Same env w (λ _. Gone) _ _ (ignore-Keeps env _ (update_row-Keeps env id _) w)
        (λ _. remove_from_active-Gone)
  finish_empty-Gone false = λ v (a, q). (ground (arith, a, token_of-stopped j id w.active), q)

  -- The task has come to its end, and is gone.
  abbrev Done : Ending → World → Type 0
  Done e v = (e ≡ ended) × Gone v

  ended-Done :
      (m : M Unit)
      → Ensures (Same w) m (λ _. Gone) Never
      → Ensures (Same w) (m >>= λ _. pure ended) Done Never
  ended-Done m h = >>=-Ensures (λ _. Gone) Done Never (Same w) m _ h (λ _ v k. (refl, k))

  run_empty-Done : Ensures (Same w) (run_empty env id) Done Never
  unfolding run_empty has_any_pending_articles
  run_empty-Done =
      ended-Done
        (catch (has_any_pending_articles env id) (finish_empty env id) (λ _. remove_from_active id))
        (catch-Ensures (λ _. Same w) (Same w) (λ _. Gone) Never (Same w) _ _ _ (query-Keeps env _ w)
          finish_empty-Gone (λ _. remove_from_active-Gone))

  mark_failed-Same :
      (error : String) → Ensures (Same w) (mark_failed env id error) (λ _. Same w) Never
  unfolding mark_failed mark_failed_with_stats update_status set_error emit_event
  mark_failed-Same error =
      then-Same env w (λ _. Same w) _ _ (ignore-Keeps env _ (update_row-Keeps env id _) w)
        λ _.
          then-Same env w (λ _. Same w) _ _ (ignore-Keeps env _ (update_row-Keeps env id _) w)
            λ _ v h. h

  fail_task-Done : (error : String) → Ensures (Same w) (fail_task env id error) Done Never
  unfolding fail_task
  fail_task-Done error =
      then-Same env w Done _ _ (mark_failed-Same error)
        (λ _. ended-Done (remove_from_active id) remove_from_active-Gone)

  or_fail-Done :
      (o : Option String) (m : M Ending)
      → Ensures (Same w) m Done Never
      → Ensures (Same w) (or_fail env id o m) Done Never
  unfolding or_fail
  or_fail-Done none m h = h
  or_fail-Done (some error) m h = fail_task-Done error

  module _ (exceeds : ℕ → ℕ → Bool) (failure_text : ℕ → ℕ → Option String → String) where
    retired-Gone :
        (r : DownloadResults) (v : World) (x : Result Unit × World)
        → Same w v
        → Outcome
            (λ _ u.
              IsRetired id j v u
              × IsRightlyStarted id
                  (too_many exceeds r.success_count (r.failed_count + r.individually_failed))
                  v
                  u)
            (λ _. ⊥)
            x
        → Outcome (λ _. Gone) Never x
    retired-Gone r v (ok a, u) (e, q) (h, _) =
        (h.tasks ∙ ap (λ l. if j == id then none else token_of j l) e, h.queue ∙ q)
    retired-Gone r v (err e, u) h k = k

    finalize_download-Gone :
        (r : DownloadResults)
        → Ensures (Same w) (finalize_download env exceeds failure_text id r) (λ _. Gone) Never
    finalize_download-Gone r v h =
        retired-Gone r v _ h (finalize_download-IsFinal exceeds failure_text env id j r v)

    module _ (config : Config) (texts : Texts) (provider : Provider)
        (create_dir : DownloadId → Option String) (create_files : List DownloadFile → Option String)
        (get_files_text : String) (inputs : List (ℕ × ℤ) → List Input) (turns : List ℕ)
        (direct_unpack : DownloadId → M Ending) (connects : sum_connections config.servers ≢ 0)
        (ends : Ends (direct_unpack id)) where
      await_unpack-Ended :
          (b : Bool)
          → Ensures
              (Same w)
              (await_unpack env config texts provider create_dir create_files get_files_text inputs
                turns exceeds failure_text direct_unpack b id)
              (λ e v. (e ≡ ended) × Same w v)
              Never
      unfolding await_unpack
      await_unpack-Ended true =
          catch-Ensures (λ e v. (e ≡ ended) × Same w v) (Same w) (λ e v. (e ≡ ended) × Same w v)
            Never (Same w) _ _ _ (ends w) (λ _ v h. h) (λ _ v h. (refl, h))
      await_unpack-Ended false = λ v h. (refl, h)

      finish_downloads-Done :
          (r : DownloadResults) (e : Ending)
          → Ensures
              (λ v. (e ≡ ended) × Same w v)
              (finish_downloads env config texts provider create_dir create_files get_files_text
                inputs turns exceeds failure_text direct_unpack id r e)
              Done
              Never
      unfolding finish_downloads
      finish_downloads-Done r ended = λ v (_, h).
          ended-Done (finalize_download env exceeds failure_text id r) (finalize_download-Gone r) v
            h
      finish_downloads-Done r still_runs = λ v (e, h). absurd (still_runs-ended e)

      run_downloads-Done :
          (d : Download) (articles : List Article)
          → Ensures
              (Same w)
              (run_downloads env config texts provider create_dir create_files get_files_text inputs
                turns exceeds failure_text direct_unpack id d articles)
              Done
              Never
      unfolding run_downloads run_fetch
      run_downloads-Done d articles =
          let (r, c, e, _, _) =
            download_articles-updates texts provider config turns articles connects in
          rw e (
            then-Same env w Done _ _ (batch_updater-Same env [] (inputs c.updates) w) λ _.
              >>=-Ensures (λ e v. (e ≡ ended) × Same w v) Done Never (Same w) _ _
                (await_unpack-Ended _) (finish_downloads-Done r))

      run_files-Done :
          (d : Download) (articles : List Article) (files : List DownloadFile)
          → Ensures
              (Same w)
              (run_files env config texts provider create_dir create_files get_files_text inputs
                turns exceeds failure_text direct_unpack id d articles files)
              Done
              Never
      unfolding run_files
      run_files-Done d articles files =
          or_fail-Done (if is_empty files then none else create_files files) _
            (run_downloads-Done d articles)

      run_articles-Done :
          (d : Download) (articles : List Article)
          → Ensures
              (Same w)
              (run_articles env config texts provider create_dir create_files get_files_text inputs
                turns exceeds failure_text direct_unpack id d articles)
              Done
              Never
      unfolding run_articles make_dir get_download_files
      run_articles-Done d articles = or_fail-Done (create_dir id) _ λ v h.
          catch-Ensures (λ _. Same w) (Same w) Done Never (Same w) _ _ _ (query-Keeps env _ w)
            (run_files-Done d articles) (λ _. fail_task-Done get_files_text) _ h

      run_fetched-Done :
          (o : Option (Download × List Article))
          → Ensures
              (Fetched o)
              (run_fetched env config texts provider create_dir create_files get_files_text inputs
                turns exceeds failure_text direct_unpack id o)
              Done
              Never
      unfolding run_fetched
      run_fetched-Done none = λ v h. (refl, h)
      run_fetched-Done (some (d, articles)) = λ v h. elim (Bool-cases (is_empty articles)) [
        | inl e ↦ rw e (run_empty-Done v h)
        | inr e ↦ rw e (run_articles-Done d articles v h)
      ]

      run_download_task-Done :
          Ensures
            (Same w)
            (run_download_task env config texts provider create_dir create_files get_files_text
              inputs turns exceeds failure_text direct_unpack id)
            Done
            Never
      unfolding run_download_task
      run_download_task-Done =
          >>=-Ensures Fetched Done Never (Same w) _ _ fetch_download_record-Fetched run_fetched-Done

-- Where a server has connections, and the coordinator of the direct unpacking comes to its end and
-- leaves the running tasks and the queue, and whatever statements fail: the task of a download
-- comes to its end without an error, is then no longer among the running tasks, and leaves the
-- others and the queue.
pub run_download_task-IsGone :
    (env : Env) (config : Config) (texts : Texts) (provider : Provider)
    (create_dir : DownloadId → Option String) (create_files : List DownloadFile → Option String)
    (get_files_text : String) (inputs : List (ℕ × ℤ) → List Input) (turns : List ℕ)
    (exceeds : ℕ → ℕ → Bool) (failure_text : ℕ → ℕ → Option String → String)
    (direct_unpack : DownloadId → M Ending) (id j : DownloadId) (w : World)
    → sum_connections config.servers ≢ 0
    → Ends (direct_unpack id)
    → Outcome
        (λ e v. (e ≡ ended) × IsGone id j w v)
        (λ _. ⊥)
        (run_download_task env config texts provider create_dir create_files get_files_text inputs
          turns exceeds failure_text direct_unpack id w)
run_download_task-IsGone env config texts provider create_dir create_files get_files_text inputs
      turns exceeds failure_text direct_unpack id j w connects ends =
    run_download_task-Done env id j w exceeds failure_text config texts provider create_dir
      create_files get_files_text inputs turns direct_unpack connects ends w (refl, refl)
