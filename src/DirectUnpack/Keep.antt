-- ===== src/DirectUnpack/Keep.antt =====
-- The coordinator leaves the running tasks and the queue.
use usenet_dl.Base.{
  filter, inl, inr, Bool-cases, ℕ, Bool, true, false, ◌&&◌, ◌||◌, not, Option, none, some, List, [],
  ◌∷◌, ◌++◌, is_empty, length, any, if◌then◌else◌, ltb, ◌==◌,
}
use usenet_dl.Base.Int.{ℤ, pos}
use Prim.Native.String.{String}
use text.Mathlib.Text.{◌==◌ as str_eq}
use usenet_dl.Types.{DownloadId, Event}
use usenet_dl.World.{
  Env, M, DownloadFile, Error, Result, ok, err, pure, catch, emit_event, ◌>>=◌, ◌>>◌,
}
use usenet_dl.World.Hoare.{>>=-Ensures, catch-Ensures, execute-Ensures}
use usenet_dl.Db.Files.{
  get_newly_completed_files, get_download_files, mark_file_completed, rename_download_file,
  update_file, update_direct_unpack_state, update_direct_unpack_extracted_count,
}
use usenet_dl.Db.Passwords.{get_cached_password, set_correct_password}
use usenet_dl.PostProcessing.{keep_extracted}
use usenet_dl.Task.Batches.{is_par2_name}
use usenet_dl.Task.Finalize.{ignore}
use usenet_dl.Task.Run.Retires.{Same, Keeps, query-Keeps, update_row-Keeps}
use usenet_dl.DirectUnpack.{
  set_db_state, set_db_extracted_count, Outside, Coordinator, ExtractAttempt, success, classify,
  try_extract, collect_passwords, new_name_of, rename_to, try_rename_file, rename_each,
  retroactive_rename, load_entries, handle_par2, handle_rename, current_filename, filename_in,
  keep_if_not_ready, extract_if_first, process_new, process_file, process_files, retry_volumes,
  retry_pending, Reading, Next, go_on, finished, stop_cancelled, stop_completed, end_pass, work,
  pass, passes, pass_on, cancelled, completed,
}

bind : {A B : Type 0} (m : M A) (f : A → M B) → Keeps m → ((a : A) → Keeps (f a)) → Keeps (m >>= f)
bind m f h k w = >>=-Ensures (λ _. Same w) (λ _. Same w) (Same w) (Same w) m f (h w) (λ a. k a w)

caught :
    {A B : Type 0} (m : M A) (f : A → M B) (g : Error → M B)
    → Keeps m
    → ((a : A) → Keeps (f a))
    → ((e : Error) → Keeps (g e))
    → Keeps (catch m f g)
caught m f g h k l w =
    catch-Ensures (λ _. Same w) (Same w) (λ _. Same w) (Same w) (Same w) m f g (h w) (λ a. k a w)
      (λ e. l e w)

if-Keeps : {A : Type 0} (b : Bool) (m n : M A) → Keeps m → Keeps n → Keeps (if b then m else n)
if-Keeps true m n h k = h
if-Keeps false m n h k = k

pure-Keeps : {A : Type 0} (a : A) → Keeps (pure a)
pure-Keeps a w v h = h

pub emit_event-Keeps : (e : Event) → Keeps (emit_event e)
unfolding emit_event
emit_event-Keeps e w v h = h

ignored : {A : Type 0} (m : M A) → Keeps m → Keeps (ignore m)
ignored m h = caught m (λ _. pure tt) (λ _. pure tt) h (λ _. pure-Keeps tt) (λ _. pure-Keeps tt)

module _ (env : Env) (id : DownloadId) where
  update_file-Keeps : (i : ℕ) (g : DownloadFile → DownloadFile) → Keeps (update_file env id i g)
  unfolding update_file
  update_file-Keeps i g w = execute-Ensures env _ (Same w) _ _ (λ v h. h) (λ v h. h)

  pub set_db_state-Keeps : (state : ℤ) → Keeps (set_db_state env id state)
  unfolding set_db_state update_direct_unpack_state
  set_db_state-Keeps state =
      ignored _ (update_row-Keeps env id (λ d. record d { direct_unpack_state = state }))

  set_db_extracted_count-Keeps : (n : ℤ) → Keeps (set_db_extracted_count env id n)
  unfolding set_db_extracted_count update_direct_unpack_extracted_count
  set_db_extracted_count-Keeps n =
      ignored _ (update_row-Keeps env id (λ d. record d { direct_unpack_extracted_count = n }))

  get_download_files-Keeps : Keeps (get_download_files env id)
  unfolding get_download_files
  get_download_files-Keeps = query-Keeps env _

  get_newly_completed_files-Keeps : Keeps (get_newly_completed_files env id)
  unfolding get_newly_completed_files
  get_newly_completed_files-Keeps = query-Keeps env _

  mark_file_completed-Keeps : (i : ℕ) → Keeps (mark_file_completed env id i)
  unfolding mark_file_completed
  mark_file_completed-Keeps i = update_file-Keeps i _

  rename_download_file-Keeps : (i : ℕ) (n : String) → Keeps (rename_download_file env id i n)
  unfolding rename_download_file
  rename_download_file-Keeps i n = update_file-Keeps i _

  set_correct_password-Keeps : (p : String) → Keeps (set_correct_password env id p)
  unfolding set_correct_password
  set_correct_password-Keeps p w v h =
      let missing = is_empty (filter (λ d. d.id == id) v.downloads) in
      elim (Bool-cases (env.outage v.calls)) [
        | inl e ↦ rw e h
        | inr e ↦ rw e (elim (Bool-cases missing) [ inl f ↦ rw f h | inr f ↦ rw f h ])
      ]

  get_cached_password-Keeps : Keeps (get_cached_password env id)
  unfolding get_cached_password
  get_cached_password-Keeps = query-Keeps env _

  module _ (o : Outside) where
    collect_passwords-Keeps : Keeps (collect_passwords env id o)
    unfolding collect_passwords
    collect_passwords-Keeps =
        bind (catch (get_cached_password env id) pure (λ _. pure none)) _
          (caught (get_cached_password env id) pure (λ _. pure none) get_cached_password-Keeps
            pure-Keeps (λ _ w v h. h))
          (λ _ w v h. h)

    classify-Keeps :
        (f : String) (c : Coordinator) (r : Result (List String × String))
        → Keeps (classify env id o f c r)
    unfolding classify keep_extracted
    classify-Keeps f c (ok (files, password)) =
        bind (ignore (set_correct_password env id password)) _
          (ignored (set_correct_password env id password) (set_correct_password-Keeps password))
          λ _.
            bind (keep_extracted files) _ (λ w v h. h)
              λ _.
                bind (emit_event (Event.direct_unpack_extracted id f files))
                  (λ _. pure (success, record c { extracted_files = c.extracted_files ++ files }))
                  (emit_event-Keeps _) (λ _ w v h. h)
    classify-Keeps f c (err e) = λ w v h. h

    try_extract-Keeps : (f : String) (c : Coordinator) → Keeps (try_extract env id o f c)
    unfolding try_extract
    try_extract-Keeps f c =
        if-Keeps (not (o.exists f)) (pure (ExtractAttempt.failed, c)) _ (λ w v h. h)
          (bind (emit_event (Event.direct_unpack_extracting id f))
            (λ _.
              collect_passwords env id o >>= λ ps. classify env id o f c (o.extract_archive ps f))
            (emit_event-Keeps _)
            (λ _.
              bind (collect_passwords env id o) _ collect_passwords-Keeps
                (λ ps. classify-Keeps f c _)))

    rename_to-Keeps : (i : ℕ) (f : String) (n : Option String) → Keeps (rename_to env id o i f n)
    unfolding rename_to
    rename_to-Keeps i f none = pure-Keeps tt
    rename_to-Keeps i f (some n) =
        if-Keeps (str_eq n f || not (o.rename_on_disk f n)) (pure tt) _ (pure-Keeps tt) (
          bind (ignore (rename_download_file env id i n))
            (λ _. emit_event (Event.direct_renamed id f n))
            (ignored (rename_download_file env id i n) (rename_download_file-Keeps i n))
            (λ _. emit_event-Keeps _))

    try_rename_file-Keeps :
        (c : Coordinator) (i : ℕ) (f : String) → Keeps (try_rename_file env id o c i f)
    unfolding try_rename_file
    try_rename_file-Keeps c i f = rename_to-Keeps i f (new_name_of env id o c f)

    rename_each-Keeps :
        (c : Coordinator) (files : List DownloadFile) → Keeps (rename_each env id o c files)
    unfolding rename_each
    rename_each-Keeps c [] = pure-Keeps tt
    rename_each-Keeps c (f ∷ files) =
        let renames =
          any (λ i. i == f.file_index) c.processed_indices && not (is_par2_name f.filename) in
        bind (if renames then try_rename_file env id o c f.file_index f.filename else pure tt)
          (λ _. rename_each env id o c files)
          (if-Keeps renames (try_rename_file env id o c f.file_index f.filename) (pure tt)
            (try_rename_file-Keeps c f.file_index f.filename) (pure-Keeps tt))
          (λ _. rename_each-Keeps c files)

    load_entries-Keeps :
        (c : Coordinator) (r : Result (List (String × String))) → Keeps (load_entries env id o c r)
    unfolding load_entries retroactive_rename
    load_entries-Keeps c (ok entries) =
        let loaded : Coordinator = record c {
          hash_to_name = entries ++ c.hash_to_name;
          metadata_loaded = true;
        } in
        bind (catch (get_download_files env id) (rename_each env id o loaded) (λ _. pure tt))
          (λ _. pure loaded)
          (caught (get_download_files env id) (rename_each env id o loaded) (λ _. pure tt)
            get_download_files-Keeps (rename_each-Keeps loaded) (λ _. pure-Keeps tt))
          (λ _. pure-Keeps loaded)
    load_entries-Keeps c (err e) = pure-Keeps c

    extract_if_first-Keeps : (f : String) (c : Coordinator) → Keeps (extract_if_first env id o f c)
    unfolding extract_if_first
    extract_if_first-Keeps f c =
        if-Keeps (o.is_first_rar_volume f)
          (try_extract env id o f c >>= λ t. pure (keep_if_not_ready env id o f t)) (pure c)
          (bind (try_extract env id o f c) (λ t. pure (keep_if_not_ready env id o f t))
            (try_extract-Keeps f c) (λ t w v h. h))
          (pure-Keeps c)

    handle_par2-Keeps :
        (b : Bool) (f : DownloadFile) (c : Coordinator) → Keeps (handle_par2 env id o b f c)
    unfolding handle_par2
    handle_par2-Keeps b f c =
        if-Keeps (b && is_par2_name f.filename)
          (load_entries env id o c (o.parse_par2_file_entries f.filename)) (pure c)
          (load_entries-Keeps c _) (pure-Keeps c)

    handle_rename-Keeps :
        (b : Bool) (f : DownloadFile) (c : Coordinator) → Keeps (handle_rename env id o b f c)
    unfolding handle_rename
    handle_rename-Keeps b f c =
        if-Keeps (b && (c.metadata_loaded && not (is_par2_name f.filename)))
          (try_rename_file env id o c f.file_index f.filename) (pure tt)
          (try_rename_file-Keeps c f.file_index f.filename) (pure-Keeps tt)

    current_filename-Keeps : (i : ℕ) (f : String) → Keeps (current_filename env id o i f)
    unfolding current_filename
    current_filename-Keeps i f =
        caught (get_download_files env id) (λ files. pure (filename_in env id o i f files))
          (λ _. pure f) get_download_files-Keeps (λ _ w v h. h) (λ _ w v h. h)

    -- A file, from its renaming on.
    after_par2-Keeps :
        (b : Bool) (f : DownloadFile) (c : Coordinator)
        → Keeps (do
          handle_rename env id o b f c
          filename ← current_filename env id o f.file_index f.filename
          extract_if_first env id o filename c)
    after_par2-Keeps b f c = bind (handle_rename env id o b f c) _ (handle_rename-Keeps b f c) λ _.
        bind (current_filename env id o f.file_index f.filename)
          (λ filename. extract_if_first env id o filename c)
          (current_filename-Keeps f.file_index f.filename)
          (λ filename. extract_if_first-Keeps filename c)

    process_file-Keeps :
        (b : Bool) (f : DownloadFile) (c : Coordinator) → Keeps (process_file env id o b f c)
    unfolding process_file process_new
    process_file-Keeps b f c =
        let marked : Coordinator = record c {
          processed_indices = f.file_index ∷ c.processed_indices;
        } in
        if-Keeps (any (λ i. i == f.file_index) c.processed_indices) (pure c) _ (pure-Keeps c) (
          bind (ignore (mark_file_completed env id f.file_index)) _
            (ignored (mark_file_completed env id f.file_index)
              (mark_file_completed-Keeps f.file_index))
            λ _.
              bind (emit_event (Event.file_completed id f.file_index f.filename)) _
                (emit_event-Keeps _)
                λ _.
                  bind (handle_par2 env id o b f marked) _ (handle_par2-Keeps b f marked)
                    (after_par2-Keeps b f))

    process_files-Keeps :
        (b : Bool) (files : List DownloadFile) (c : Coordinator)
        → Keeps (process_files env id o b files c)
    unfolding process_files
    process_files-Keeps b [] c = pure-Keeps c
    process_files-Keeps b (f ∷ files) c =
        bind (process_file env id o b f c) (process_files env id o b files)
          (process_file-Keeps b f c) (process_files-Keeps b files)

    retry_volumes-Keeps :
        (volumes : List String) (c : Coordinator) → Keeps (retry_volumes env id o volumes c)
    unfolding retry_volumes
    retry_volumes-Keeps [] c = pure-Keeps c
    retry_volumes-Keeps (v ∷ volumes) c =
        bind (try_extract env id o v c)
          (λ t. retry_volumes env id o volumes (keep_if_not_ready env id o v t))
          (try_extract-Keeps v c) (λ t. retry_volumes-Keeps volumes _)

module _ (env : Env) (id : DownloadId) (direct_rename : Bool) where
  stop_cancelled-Keeps :
      (reason : String) (c : Coordinator) → Keeps (stop_cancelled env id direct_rename reason c)
  unfolding stop_cancelled
  stop_cancelled-Keeps reason c =
      bind (set_db_state env id cancelled) _ (set_db_state-Keeps env id cancelled) λ _.
        bind (emit_event (Event.direct_unpack_cancelled id reason))
          (λ _. pure (finished cancelled c)) (emit_event-Keeps _) (λ _ w v h. h)

  stop_completed-Keeps : (c : Coordinator) → Keeps (stop_completed env id direct_rename c)
  unfolding stop_completed
  stop_completed-Keeps c =
      bind (set_db_state env id completed) _ (set_db_state-Keeps env id completed) λ _.
        bind (set_db_extracted_count env id (pos (length c.extracted_files))) _
          (set_db_extracted_count-Keeps env id _)
          λ _.
            bind (emit_event (Event.direct_unpack_complete id)) (λ _. pure (finished completed c))
              (emit_event-Keeps _) (λ _ w v h. h)

  end_pass-Keeps : (a b : Bool) (c : Coordinator) → Keeps (end_pass env id direct_rename a b c)
  unfolding end_pass
  end_pass-Keeps a b c =
      if-Keeps (a && (b && is_empty c.pending_first_volumes))
        (stop_completed env id direct_rename c) (pure (go_on c)) (stop_completed-Keeps c)
        (λ w v h. h)

  work-Keeps :
      (r : Reading) (c : Coordinator) (files : List DownloadFile)
      → Keeps (work env id direct_rename r c files)
  unfolding work retry_pending
  work-Keeps r c files =
      bind (process_files env id r.outside direct_rename files c) _
        (process_files-Keeps env id r.outside direct_rename files c)
        λ p.
          bind
            (retry_volumes env id r.outside p.pending_first_volumes
              (record p { pending_first_volumes = [] }))
            (end_pass env id direct_rename r.download_complete (is_empty files))
            (retry_volumes-Keeps env id r.outside p.pending_first_volumes _) (end_pass-Keeps _ _)

  pub pass-Keeps : (r : Reading) (c : Coordinator) → Keeps (pass env id direct_rename r c)
  unfolding pass
  pass-Keeps r c =
      if-Keeps r.is_cancelled
        (stop_cancelled env id direct_rename "Cancelled via cancellation token" c) _
        (stop_cancelled-Keeps _ c)
        (if-Keeps (ltb 0 r.failed_articles)
          (stop_cancelled env id direct_rename "Article failures detected" c) _
          (stop_cancelled-Keeps _ c)
          (caught (get_newly_completed_files env id) (work env id direct_rename r c)
            (λ _. pure (go_on c)) (get_newly_completed_files-Keeps env id) (work-Keeps r c)
            (λ _ w v h. h)))

  pass_on-Keeps :
      (rest : Coordinator → M Next) (next : Next)
      → ((c : Coordinator) → Keeps (rest c))
      → Keeps (pass_on env id direct_rename rest next)
  unfolding pass_on
  pass_on-Keeps rest (go_on c) k = k c
  pass_on-Keeps rest (finished state c) k = λ w v h. h

  passes-Keeps :
      (readings : List Reading) (c : Coordinator) → Keeps (passes env id direct_rename readings c)
  unfolding passes
  passes-Keeps [] c = λ w v h. h
  passes-Keeps (r ∷ readings) c =
      bind (pass env id direct_rename r c)
        (pass_on env id direct_rename (passes env id direct_rename readings)) (pass-Keeps r c)
        (λ next. pass_on-Keeps (passes env id direct_rename readings) next (passes-Keeps readings))
