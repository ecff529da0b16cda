-- ===== src/PostProcessing/Quiet.antt =====
-- The stages of the post-processing change nothing but the events, the cached passwords and the files
-- that are extracted.
use usenet_dl.Db.Passwords.{get_cached_password, set_correct_password, upsert_password}
use usenet_dl.Task.Finalize.{ignore}
use usenet_dl.Base.{
  ℕ, suc, ◌++◌, ◌==◌, filter, is_empty, inl, inr, Bool-cases, Bool, true, false, ◌&&◌, not, ◌-◌,
  List, [], ◌∷◌, if◌then◌else◌,
}
use Prim.Native.String.{String}
use usenet_dl.Types.{DownloadId, PostProcess, Event}
use usenet_dl.World.{
  World, Result, ok, err, M, emit_event, pure, throw, ◌>>=◌, ◌>>◌, not_supported,
  verification_failed, repair_failed,
}
use usenet_dl.World.Hoare.{Ensures, query-Ensures, >>=-Ensures, catch-Ensures}
use usenet_dl.PostProcessing.{
  Tools, VerifyResult, RepairResult, lift, join, find_par2_files, verify_first, after_verify,
  run_verify_stage, repair_first, repair_verified, after_repair, run_repair_stage, extract_archives,
  extract_found, run_extract_stage, run_move_stage, run_cleanup_stage, verify_and_repair,
  start_post_processing, run_move_and_cleanup, reextract_files, Extracted, extract_one,
  cache_passwords, keep_extracted, read_state, collect_extraction_passwords,
}

-- `P` depends on nothing that the stages change.
module _ (P : World → Type 0)
    (stable : (w : World) (events : List Event) (passwords : List (DownloadId × String))
        (extracted : List String) (calls : ℕ)
      → P w
      → P (record w {
        events = events;
        passwords = passwords;
        extracted = extracted;
        calls = calls;
      })) where
  -- An operation that keeps `P`.
  abbrev Quiet : {A : Type 0} → M A → Type 0
  Quiet m = Ensures P m (λ _. P) P

  bind :
      {A B : Type 0} (m : M A) (f : A → M B) → Quiet m → ((a : A) → Quiet (f a)) → Quiet (m >>= f)
  bind m f = >>=-Ensures (λ _. P) (λ _. P) P P m f

  emit_event-Quiet : (e : Event) → Quiet (emit_event e)
  unfolding emit_event
  emit_event-Quiet e w h = stable w (e ∷ w.events) w.passwords w.extracted w.calls h

  lift-Quiet : {A : Type 0} (r : Result A) → Quiet (lift r)
  unfolding lift
  lift-Quiet (ok a) = λ w h. h
  lift-Quiet (err e) = λ w h. h

  if-Quiet : {A : Type 0} (b : Bool) (m n : M A) → Quiet m → Quiet n → Quiet (if b then m else n)
  if-Quiet true m n h k = h
  if-Quiet false m n h k = k

  module _ (tools : Tools) (id : DownloadId) where
    find_par2_files-Quiet : (path : String) → Quiet (find_par2_files tools path)
    unfolding find_par2_files
    find_par2_files-Quiet path = bind _ _ (lift-Quiet _) (λ _ w h. h)

    after_verify-Quiet : (r : Result VerifyResult) → Quiet (after_verify tools id r)
    unfolding after_verify
    after_verify-Quiet (ok r) = bind _ _ (emit_event-Quiet _) λ _.
        if-Quiet {A = Bool} (not r.is_complete && not r.repairable)
          (throw (
            verification_failed id r.damaged_blocks
              (r.damaged_blocks - r.recovery_blocks_available)))
          (pure (not r.is_complete)) (λ w h. h) (λ w h. h)
    after_verify-Quiet (err (not_supported message)) = bind _ _ (emit_event-Quiet _) (λ _ w h. h)
    after_verify-Quiet (err e) = λ w h. h

    verify_first-Quiet : (files : List String) → Quiet (verify_first tools id files)
    unfolding verify_first
    verify_first-Quiet [] = bind _ _ (emit_event-Quiet _) (λ _ w h. h)
    verify_first-Quiet (f ∷ files) = after_verify-Quiet (tools.verify f)

    run_verify_stage-Quiet : (path : String) → Quiet (run_verify_stage tools id path)
    unfolding run_verify_stage
    run_verify_stage-Quiet path =
        bind _ _ (emit_event-Quiet _) λ _. bind _ _ (find_par2_files-Quiet path) verify_first-Quiet

    after_repair-Quiet : (r : Result RepairResult) → Quiet (after_repair tools id r)
    unfolding after_repair
    after_repair-Quiet (ok r) = bind _ _ (emit_event-Quiet _) λ _.
        if-Quiet {A = Unit} (not r.success) (throw (repair_failed id r.error)) (pure tt) (λ w h. h)
          (λ w h. h)
    after_repair-Quiet (err (not_supported message)) = emit_event-Quiet _
    after_repair-Quiet (err e) = λ w h. h

    repair_verified-Quiet :
        (f : String) (r : Result VerifyResult) → Quiet (repair_verified tools id f r)
    unfolding repair_verified
    repair_verified-Quiet f (ok r) =
        bind _ _ (emit_event-Quiet _) (λ _. after_repair-Quiet (tools.repair f))
    repair_verified-Quiet f (err (not_supported message)) = emit_event-Quiet _
    repair_verified-Quiet f (err e) = λ w h. h

    repair_first-Quiet : (files : List String) → Quiet (repair_first tools id files)
    unfolding repair_first
    repair_first-Quiet [] = λ w h. h
    repair_first-Quiet (f ∷ files) = repair_verified-Quiet f (tools.verify f)

    run_repair_stage-Quiet : (path : String) → Quiet (run_repair_stage tools id path)
    unfolding run_repair_stage
    run_repair_stage-Quiet path = bind _ _ (find_par2_files-Quiet path) repair_first-Quiet

    ignore-Quiet : {A : Type 0} (m : M A) → Quiet m → Quiet (ignore m)
    ignore-Quiet m h = catch-Ensures (λ _. P) P (λ _. P) P P m _ _ h (λ _ w k. k) (λ _ w k. k)

    collect_extraction_passwords-Quiet : Quiet (collect_extraction_passwords tools id)
    unfolding collect_extraction_passwords get_cached_password
    collect_extraction_passwords-Quiet =
        bind _ _
          (catch-Ensures (λ _. P) P (λ _. P) P P _ _ _
            (query-Ensures tools.db _ P (λ _. P) P
              (λ w h. stable w w.events w.passwords w.extracted (suc w.calls) h)
              (λ w h. stable w w.events w.passwords w.extracted (suc w.calls) h))
            (λ _ w h. h) (λ _ w h. h))
          (λ _ w h. h)

    set_correct_password-Quiet : (p : String) → Quiet (set_correct_password tools.db id p)
    unfolding set_correct_password
    set_correct_password-Quiet p w h =
        let missing = is_empty (filter (λ d. d.id == id) w.downloads) in
        let called = stable w w.events w.passwords w.extracted (suc w.calls) h in
        elim (Bool-cases (tools.db.outage w.calls)) [
          | inl e ↦ rw e called
          | inr e ↦ rw e (elim (Bool-cases missing) [
            | inl f ↦ rw f called
            | inr f ↦
                rw f
                  (stable w w.events (upsert_password id p w.passwords) w.extracted (suc w.calls) h)
          ])
        ]

    cache_passwords-Quiet : (ps : List String) → Quiet (cache_passwords tools id ps)
    unfolding cache_passwords
    cache_passwords-Quiet [] = λ w h. h
    cache_passwords-Quiet (p ∷ ps) =
        bind _ _ (ignore-Quiet _ (set_correct_password-Quiet p)) (λ _. cache_passwords-Quiet ps)

    keep_extracted-Quiet : (files : List String) → Quiet (keep_extracted files)
    unfolding keep_extracted
    keep_extracted-Quiet files w h = stable w w.events w.passwords (w.extracted ++ files) w.calls h

    extract_one-Quiet : (e : Extracted) → Quiet (extract_one tools id e)
    unfolding extract_one
    extract_one-Quiet e =
        bind (cache_passwords tools id e.opened_by)
          (λ _. keep_extracted e.written >>= λ _. lift e.result) (cache_passwords-Quiet e.opened_by)
          λ _.
            bind (keep_extracted e.written) (λ _. lift e.result) (keep_extracted-Quiet e.written)
              (λ _. lift-Quiet e.result)

    extract_archives-Quiet :
        (dest : String) (passwords archives : List String)
        → Quiet (extract_archives tools id dest passwords archives)
    unfolding extract_archives
    extract_archives-Quiet dest ps [] = λ w h. h
    extract_archives-Quiet dest ps (a ∷ archives) = bind _ _ (emit_event-Quiet _) λ _.
        catch-Ensures (λ _. P) P (λ _. P) P P _ _ _ (extract_one-Quiet _)
          (λ _. extract_archives-Quiet dest ps archives)
          (λ _. extract_archives-Quiet dest ps archives)

    extract_found-Quiet :
        (path : String) (archives : List String) → Quiet (extract_found tools id path archives)
    unfolding extract_found
    extract_found-Quiet path archives =
        if-Quiet _ _ _ (bind _ _ (emit_event-Quiet _) (λ _ w h. h)) (
          bind _ _ (lift-Quiet _) λ _. bind _ _ collect_extraction_passwords-Quiet λ passwords.
            bind _ _ (extract_archives-Quiet (join path "extracted") passwords archives)
              λ _. bind _ _ (emit_event-Quiet _) (λ _ w h. h))

    run_extract_stage-Quiet : (path : String) → Quiet (run_extract_stage tools id path)
    unfolding run_extract_stage
    run_extract_stage-Quiet path =
        bind _ _ (emit_event-Quiet _) λ _. bind _ _ (lift-Quiet _) (extract_found-Quiet path)

    read_state-Quiet : Quiet read_state
    unfolding read_state
    read_state-Quiet w h = h

    run_move_stage-Quiet :
        (path destination : String) → Quiet (run_move_stage tools id path destination)
    unfolding run_move_stage
    run_move_stage-Quiet path destination = bind _ _ (emit_event-Quiet _) λ _.
        bind read_state (λ w. lift (tools.move_files w.extracted path destination)) read_state-Quiet
          (λ w. lift-Quiet _)

    run_cleanup_stage-Quiet : Quiet (run_cleanup_stage tools id)
    unfolding run_cleanup_stage
    run_cleanup_stage-Quiet = emit_event-Quiet _

    verify_and_repair-Quiet : (path : String) → Quiet (verify_and_repair tools id path)
    unfolding verify_and_repair
    verify_and_repair-Quiet path = bind _ _ (run_verify_stage-Quiet path) (λ d.
        if-Quiet d (run_repair_stage tools id path) (pure tt) (run_repair_stage-Quiet path)
          (λ w h. h))

    move_and_cleanup-Quiet :
        (path destination : String)
        → Quiet (do
          final_path ← run_move_stage tools id path destination
          run_cleanup_stage tools id
          pure final_path)
    move_and_cleanup-Quiet path destination =
        bind _ _ (run_move_stage-Quiet path destination)
          λ _. bind _ _ run_cleanup_stage-Quiet (λ _ w h. h)

    pub start_post_processing-Quiet :
        (path : String) (mode : PostProcess) (destination : String)
        → Quiet (start_post_processing tools id path mode destination)
    unfolding start_post_processing
    start_post_processing-Quiet path PostProcess.none destination = λ w h. h
    start_post_processing-Quiet path PostProcess.verify destination =
        bind _ _ (run_verify_stage-Quiet path) (λ _ w h. h)
    start_post_processing-Quiet path PostProcess.repair destination =
        bind _ _ (verify_and_repair-Quiet path) (λ _ w h. h)
    start_post_processing-Quiet path PostProcess.unpack destination =
        bind _ _ (verify_and_repair-Quiet path) (λ _. run_extract_stage-Quiet path)
    start_post_processing-Quiet path PostProcess.unpack_and_cleanup destination =
        bind _ _ (verify_and_repair-Quiet path)
          λ _. bind _ _ (run_extract_stage-Quiet path) (λ p. move_and_cleanup-Quiet p destination)

    pub run_move_and_cleanup-Quiet :
        (path destination : String) → Quiet (run_move_and_cleanup tools id path destination)
    unfolding run_move_and_cleanup
    run_move_and_cleanup-Quiet path destination = move_and_cleanup-Quiet _ destination

    pub reextract_files-Quiet :
        (path destination : String) → Quiet (reextract_files tools id path destination)
    unfolding reextract_files
    reextract_files-Quiet path destination =
        bind _ _ (run_extract_stage-Quiet path)
          (λ extracted_path. run_move_stage-Quiet extracted_path destination)
