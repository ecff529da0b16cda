-- ===== src/DirectUnpack/Waits.antt =====
-- The coordinator waits for a volume that does not come.
use usenet_dl.Base.{
  ℕ, ◌≡◌, refl, sym, subst, ◌⊎◌, inl, inr, Bool, true, false, ◌&&◌, ◌||◌, not, Option, none, some,
  List, [], ◌∷◌, ◌++◌, All, Any, is_empty, arith, any, if◌then◌else◌, ◌==◌,
}
use Prim.Native.String.{String}
use text.Mathlib.Text.{◌==◌ as str_eq}
use usenet_dl.Types.{DownloadId, Event}
use usenet_dl.World.{
  World, Env, M, DownloadFile, Error, Result, ok, err, pure, catch, handle, emit_event, ◌>>=◌, ◌>>◌,
}
use usenet_dl.World.Hoare.{Outcome, Ensures, >>=-Ensures}
use usenet_dl.Db.Files.{
  get_newly_completed_files, get_download_files, mark_file_completed, rename_download_file,
}
use usenet_dl.Db.Passwords.{get_cached_password, set_correct_password}
use usenet_dl.PostProcessing.{keep_extracted}
use usenet_dl.Task.Batches.{is_par2_name}
use usenet_dl.Task.Finalize.{ignore}
use usenet_dl.DirectUnpack.{
  Outside, Coordinator, ExtractAttempt, success, volume_not_ready, failed,
  is_volume_not_ready_error, classify, try_extract, collect_passwords, new_name_of, rename_to,
  try_rename_file, rename_each, retroactive_rename, load_entries, handle_par2, handle_rename,
  current_filename, filename_in, keep_if_not_ready, extract_if_first, process_new, process_file,
  process_files, retry_volumes, retry_pending, Reading, Next, go_on, finished, end_pass, work, pass,
  passes, pass_on,
}

-- Each extraction of the volume, with whatever passwords, fails for want of the next volume.
abbrev pub IsStuck : String → Outside → Type 0
IsStuck v o =
    (o.exists v ≡ true)
    × ((passwords : List String)
        → (e : Error) × (o.extract_archive passwords v ≡ err e)
          × (is_volume_not_ready_error (o.error_text e) ≡ true))

-- The pass is neither cancelled nor sees a failed article, and the volume is stuck.
abbrev pub IsIdle : String → Reading → Type 0
IsIdle v r = (r.is_cancelled ≡ false) × (r.failed_articles ≡ 0) × IsStuck v r.outside

abbrev pub IsAmong : String → List String → Type 0
IsAmong v xs = Any (λ x. x ≡ v) xs

abbrev pub Waits : String → Coordinator → Type 0
Waits v c = IsAmong v c.pending_first_volumes

-- The loop is still running, and the volume waits.
abbrev pub GoesOn : String → Next → Type 0
GoesOn v (go_on c) = Waits v c
GoesOn v (finished state c) = ⊥

-- An operation that gives what has `P`, in any state.
abbrev Gives : {A : Type 0} → (A → Type 0) → M A → Type 0
Gives P m = Ensures (λ _. Unit {0}) m (λ a _. P a) (λ _. ⊥)

Gives-bind :
    {A B : Type 0} (P : A → Type 0) (Q : B → Type 0) (m : M A) (f : A → M B)
    → Gives P m
    → ((a : A) → P a → Gives Q (f a))
    → Gives Q (m >>= f)
Gives-bind P Q m f h k =
    >>=-Ensures (λ a _. P a) (λ b _. Q b) (λ _. ⊥) (λ _. Unit {0}) m f h (λ a w p. k a p w tt)

abbrev Anything : {A : Type 0} → A → Type 0
Anything a = Unit {0}

handle-Gives :
    {A B : Type 0} (Q : B → Type 0) (r : Result A × World) (f : A → M B) (g : Error → M B)
    → ((a : A) → Gives Q (f a))
    → ((e : Error) → Gives Q (g e))
    → Outcome (λ b _. Q b) (λ _. ⊥) (handle r.0 f g r.1)
handle-Gives Q (ok a, w) f g h k = h a w tt
handle-Gives Q (err e, w) f g h k = k e w tt

catch-Gives :
    {A B : Type 0} (Q : B → Type 0) (m : M A) (f : A → M B) (g : Error → M B)
    → ((a : A) → Gives Q (f a))
    → ((e : Error) → Gives Q (g e))
    → Gives Q (catch m f g)
catch-Gives Q m f g h k w p = handle-Gives Q (m w) f g h k

ignore-Gives : {A : Type 0} (m : M A) → Gives Anything (ignore m)
ignore-Gives m = catch-Gives Anything m (λ _. pure tt) (λ _. pure tt) (λ _ w p. tt) (λ _ w p. tt)

if-Gives :
    {A : Type 0} (Q : A → Type 0) (b : Bool) (m n : M A)
    → Gives Q m
    → Gives Q n
    → Gives Q (if b then m else n)
if-Gives Q true m n h k = h
if-Gives Q false m n h k = k

module _ (env : Env) (id : DownloadId) (v : String) (o : Outside) where
  -- What an attempt on any volume leaves to wait, and what one on the stuck volume does.
  abbrev Left : Coordinator → ExtractAttempt × Coordinator → Type 0
  Left c (attempt, c') = c'.pending_first_volumes ≡ c.pending_first_volumes

  collect_passwords-Gives : Gives Anything (collect_passwords env id o)
  unfolding collect_passwords
  collect_passwords-Gives =
      Gives-bind Anything Anything (catch (get_cached_password env id) pure (λ _. pure none)) _
        (catch-Gives Anything (get_cached_password env id) pure (λ _. pure none) (λ _ w p. tt)
          (λ _ w p. tt))
        (λ _ _ w p. tt)

  classify-Left :
      (filename : String) (c : Coordinator) (r : Result (List String × String))
      → Gives (Left c) (classify env id o filename c r)
  unfolding classify emit_event keep_extracted
  classify-Left filename c (ok (files, password)) =
      Gives-bind Anything (Left c) (ignore (set_correct_password env id password)) _
        (ignore-Gives _) (λ _ _ w p. refl)
  classify-Left filename c (err e) = λ w p. refl

  try_extract-Left :
      (filename : String) (c : Coordinator) → Gives (Left c) (try_extract env id o filename c)
  unfolding try_extract emit_event
  try_extract-Left filename c =
      if-Gives (Left c) (not (o.exists filename)) (pure (failed, c)) _ (λ w p. refl)
        (λ w p.
          Gives-bind Anything (Left c) (collect_passwords env id o) _ collect_passwords-Gives
            (λ passwords _. classify-Left filename c (o.extract_archive passwords filename)) _ tt)

  abbrev IsNotReady : ExtractAttempt × Coordinator → Type 0
  IsNotReady (attempt, c) = attempt ≡ volume_not_ready

  classify-IsNotReady :
      (c : Coordinator) (r : Result (List String × String))
      → (e : Error) × (r ≡ err e) × (is_volume_not_ready_error (o.error_text e) ≡ true)
      → Gives IsNotReady (classify env id o v c r)
  unfolding classify
  classify-IsNotReady c r (e, y, z) w p = rw (y, z) refl

  try_extract-IsNotReady :
      (c : Coordinator) → IsStuck v o → Gives IsNotReady (try_extract env id o v c)
  unfolding try_extract emit_event
  try_extract-IsNotReady c (x, stuck) w p = rw x (
      Gives-bind Anything IsNotReady (collect_passwords env id o) _ collect_passwords-Gives
        (λ passwords _. classify-IsNotReady c _ (stuck passwords)) _ tt)

  IsAmong-append-left : (xs ys : List String) → IsAmong v xs → IsAmong v (xs ++ ys)
  IsAmong-append-left [] ys h = absurd h
  IsAmong-append-left (x ∷ xs) ys (inl e) = inl e
  IsAmong-append-left (x ∷ xs) ys (inr h) = inr (IsAmong-append-left xs ys h)

  IsAmong-last : (xs : List String) → IsAmong v (xs ++ v ∷ [])
  IsAmong-last [] = inl refl
  IsAmong-last (x ∷ xs) = inr (IsAmong-last xs)

  keep-Waits :
      (filename : String) (c : Coordinator) (t : ExtractAttempt × Coordinator)
      → Left c t
      → Waits v c
      → Waits v (keep_if_not_ready env id o filename t)
  unfolding keep_if_not_ready
  keep-Waits filename c (success, c') e h = subst (IsAmong v) (sym e) h
  keep-Waits filename c (failed, c') e h = subst (IsAmong v) (sym e) h
  keep-Waits filename c (volume_not_ready, c') e h =
      IsAmong-append-left c'.pending_first_volumes (filename ∷ []) (subst (IsAmong v) (sym e) h)

  keep-last :
      (t : ExtractAttempt × Coordinator) → IsNotReady t → Waits v (keep_if_not_ready env id o v t)
  unfolding keep_if_not_ready
  keep-last (success, c) e = absurd (ground (arith, e))
  keep-last (failed, c) e = absurd (ground (arith, e))
  keep-last (volume_not_ready, c) e = IsAmong-last c.pending_first_volumes

  -- The volume waits among those to be tried, or waits again.
  retry_volumes-Waits :
      (volumes : List String) (c : Coordinator)
      → IsStuck v o
      → IsAmong v volumes ⊎ Waits v c
      → Gives (Waits v) (retry_volumes env id o volumes c)
  unfolding retry_volumes
  retry_volumes-Waits [] c s (inl h) = absurd h
  retry_volumes-Waits [] c s (inr h) = λ w p. h
  retry_volumes-Waits (x ∷ volumes) c s (inl (inl e)) =
      Gives-bind IsNotReady (Waits v) _ _
        (subst (λ y. Gives IsNotReady (try_extract env id o y c)) (sym e)
          (try_extract-IsNotReady c s))
        λ t n.
          retry_volumes-Waits volumes _ s
            (inr (subst (λ y. Waits v (keep_if_not_ready env id o y t)) (sym e) (keep-last t n)))
  retry_volumes-Waits (x ∷ volumes) c s (inl (inr h)) =
      Gives-bind (Left c) (Waits v) _ _ (try_extract-Left x c)
        (λ t e. retry_volumes-Waits volumes _ s (inl h))
  retry_volumes-Waits (x ∷ volumes) c s (inr h) =
      Gives-bind (Left c) (Waits v) _ _ (try_extract-Left x c)
        (λ t e. retry_volumes-Waits volumes _ s (inr (keep-Waits x c t e h)))

  -- The renaming has no part in it.
  rename_to-any :
      (i : ℕ) (f : String) (n : Option String) → Gives Anything (rename_to env id o i f n)
  unfolding rename_to emit_event
  rename_to-any i f none = λ w p. tt
  rename_to-any i f (some n) =
      if-Gives Anything (str_eq n f || not (o.rename_on_disk f n)) (pure tt) _ (λ w p. tt)
        (Gives-bind Anything Anything (ignore (rename_download_file env id i n))
          (λ _. emit_event (Event.direct_renamed id f n))
          (ignore-Gives (rename_download_file env id i n)) (λ _ _ w p. tt))

  try_rename_file-any :
      (c : Coordinator) (i : ℕ) (f : String) → Gives Anything (try_rename_file env id o c i f)
  unfolding try_rename_file
  try_rename_file-any c i f = rename_to-any i f (new_name_of env id o c f)

  rename_each-any :
      (c : Coordinator) (files : List DownloadFile) → Gives Anything (rename_each env id o c files)
  unfolding rename_each
  rename_each-any c [] = λ w p. tt
  rename_each-any c (f ∷ files) =
      let renames =
        any (λ i. i == f.file_index) c.processed_indices && not (is_par2_name f.filename) in
      Gives-bind Anything Anything
        (if renames then try_rename_file env id o c f.file_index f.filename else pure tt)
        (λ _. rename_each env id o c files)
        (if-Gives Anything
          (any (λ i. i == f.file_index) c.processed_indices && not (is_par2_name f.filename))
          (try_rename_file env id o c f.file_index f.filename) (pure tt)
          (try_rename_file-any c f.file_index f.filename) (λ w p. tt))
        (λ _ _. rename_each-any c files)

  retroactive_rename-any : (c : Coordinator) → Gives Anything (retroactive_rename env id o c)
  unfolding retroactive_rename
  retroactive_rename-any c =
      catch-Gives Anything (get_download_files env id) (rename_each env id o c) (λ _. pure tt)
        (rename_each-any c) (λ _ w p. tt)

  load_entries-Waits :
      (c : Coordinator) (r : Result (List (String × String)))
      → Waits v c
      → Gives (Waits v) (load_entries env id o c r)
  unfolding load_entries
  load_entries-Waits c (ok entries) h =
      let loaded : Coordinator = record c {
        hash_to_name = entries ++ c.hash_to_name;
        metadata_loaded = true;
      } in
      Gives-bind Anything (Waits v) (retroactive_rename env id o loaded) (λ _. pure loaded)
        (retroactive_rename-any loaded) (λ _ _ w p. h)
  load_entries-Waits c (err e) h = λ w p. h

  handle_par2-Waits :
      (b : Bool) (f : DownloadFile) (c : Coordinator)
      → Waits v c
      → Gives (Waits v) (handle_par2 env id o b f c)
  unfolding handle_par2
  handle_par2-Waits b f c h =
      if-Gives (Waits v) (b && is_par2_name f.filename)
        (load_entries env id o c (o.parse_par2_file_entries f.filename)) (pure c)
        (load_entries-Waits c _ h) (λ w p. h)

  handle_rename-any :
      (b : Bool) (f : DownloadFile) (c : Coordinator)
      → Gives Anything (handle_rename env id o b f c)
  unfolding handle_rename
  handle_rename-any b f c =
      if-Gives Anything (b && (c.metadata_loaded && not (is_par2_name f.filename)))
        (try_rename_file env id o c f.file_index f.filename) (pure tt)
        (try_rename_file-any c f.file_index f.filename) (λ w p. tt)

  current_filename-any : (i : ℕ) (f : String) → Gives Anything (current_filename env id o i f)
  unfolding current_filename
  current_filename-any i f =
      catch-Gives Anything (get_download_files env id)
        (λ files. pure (filename_in env id o i f files)) (λ _. pure f) (λ _ w p. tt) (λ _ w p. tt)

  extract_if_first-Waits :
      (filename : String) (c : Coordinator)
      → Waits v c
      → Gives (Waits v) (extract_if_first env id o filename c)
  unfolding extract_if_first
  extract_if_first-Waits filename c h =
      if-Gives (Waits v) (o.is_first_rar_volume filename) _ (pure c)
        (Gives-bind (Left c) (Waits v) _ _ (try_extract-Left filename c)
          (λ t e w p. keep-Waits filename c t e h))
        (λ w p. h)

  process_new-Waits :
      (b : Bool) (f : DownloadFile) (c : Coordinator)
      → Waits v c
      → Gives (Waits v) (process_new env id o b f c)
  unfolding process_new emit_event
  process_new-Waits b f c h =
      let marked : Coordinator = record c {
        processed_indices = f.file_index ∷ c.processed_indices;
      } in
      let rest : Coordinator → M Coordinator = λ c'. (do
        handle_rename env id o b f c'
        filename ← current_filename env id o f.file_index f.filename
        extract_if_first env id o filename c') in
      Gives-bind Anything (Waits v) (ignore (mark_file_completed env id f.file_index))
        (λ _. do
          emit_event (Event.file_completed id f.file_index f.filename)
          c' ← handle_par2 env id o b f marked
          rest c')
        (ignore-Gives (mark_file_completed env id f.file_index))
        λ _ _ w p.
          Gives-bind (Waits v) (Waits v) (handle_par2 env id o b f marked) rest
            (handle_par2-Waits b f marked h)
            (λ c' k.
              Gives-bind Anything (Waits v) (handle_rename env id o b f c')
                (λ _. do
                  filename ← current_filename env id o f.file_index f.filename
                  extract_if_first env id o filename c')
                (handle_rename-any b f c')
                λ _ _.
                  Gives-bind Anything (Waits v) (current_filename env id o f.file_index f.filename)
                    (λ filename. extract_if_first env id o filename c')
                    (current_filename-any f.file_index f.filename)
                    (λ filename _. extract_if_first-Waits filename c' k))
            _ tt

  process_files-Waits :
      (b : Bool) (files : List DownloadFile) (c : Coordinator)
      → Waits v c
      → Gives (Waits v) (process_files env id o b files c)
  unfolding process_files process_file
  process_files-Waits b [] c h = λ w p. h
  process_files-Waits b (f ∷ files) c h =
      Gives-bind (Waits v) (Waits v) _ _
        (if-Gives (Waits v) (any (λ i. i == f.file_index) c.processed_indices) (pure c)
          (process_new env id o b f c) (λ w p. h) (process_new-Waits b f c h))
        (process_files-Waits b files)

module _ (env : Env) (id : DownloadId) (direct_rename : Bool) (v : String) where
  IsAmong-nonempty : (xs : List String) → IsAmong v xs → is_empty xs ≡ false
  IsAmong-nonempty [] h = absurd h
  IsAmong-nonempty (x ∷ xs) h = refl

  end_pass-GoesOn :
      (complete none_new : Bool) (c : Coordinator)
      → Waits v c
      → Gives (GoesOn v) (end_pass env id direct_rename complete none_new c)
  unfolding end_pass
  end_pass-GoesOn complete none_new c h =
      let e : (complete && (none_new && is_empty c.pending_first_volumes)) ≡ false =
        ground (arith, IsAmong-nonempty c.pending_first_volumes h) in
      λ w p. rw e h

  work-GoesOn :
      (r : Reading) (c : Coordinator) (files : List DownloadFile)
      → IsStuck v r.outside
      → Waits v c
      → Gives (GoesOn v) (work env id direct_rename r c files)
  unfolding work retry_pending
  work-GoesOn r c files s h =
      Gives-bind (Waits v) (GoesOn v) (process_files env id r.outside direct_rename files c)
        (λ processed. do
          retried ← retry_pending env id r.outside processed
          end_pass env id direct_rename r.download_complete (is_empty files) retried)
        (process_files-Waits env id v r.outside direct_rename files c h)
        λ processed k.
          Gives-bind (Waits v) (GoesOn v) (retry_pending env id r.outside processed)
            (λ retried. end_pass env id direct_rename r.download_complete (is_empty files) retried)
            (retry_volumes-Waits env id v r.outside processed.pending_first_volumes
              (record processed { pending_first_volumes = [] }) s (inl k))
            (end_pass-GoesOn r.download_complete (is_empty files))

  pass-GoesOn :
      (r : Reading) (c : Coordinator)
      → IsIdle v r
      → Waits v c
      → Gives (GoesOn v) (pass env id direct_rename r c)
  unfolding pass
  pass-GoesOn r c (a, b, s) h w p =
      rw (a, b)
        (catch-Gives (GoesOn v) (get_newly_completed_files env id)
          (work env id direct_rename (record r { is_cancelled = false; failed_articles = 0 }) c)
          (λ _. pure (go_on c))
          (λ files.
            work-GoesOn (record r { is_cancelled = false; failed_articles = 0 }) c files s h)
          (λ _ u q. h) w p)

  pass_on-GoesOn :
      (rest : Coordinator → M Next) (next : Next)
      → ((c : Coordinator) → Waits v c → Gives (GoesOn v) (rest c))
      → GoesOn v next
      → Gives (GoesOn v) (pass_on env id direct_rename rest next)
  unfolding pass_on
  pass_on-GoesOn rest (go_on c) k h = k c h
  pass_on-GoesOn rest (finished state c) k h = absurd h

-- While a first volume waits for a volume that never comes: the coordinator, if it is neither
-- cancelled nor told of a failed article, is still running after any number of passes, also after the
-- download has ended, and whatever statements of the database fail.
pub passes-GoesOn :
    (env : Env) (id : DownloadId) (direct_rename : Bool) (v : String) (readings : List Reading)
    (c : Coordinator)
    → All (IsIdle v) readings
    → Waits v c
    → (w : World)
    → Outcome (λ next _. GoesOn v next) (λ _. ⊥) (passes env id direct_rename readings c w)
unfolding passes
passes-GoesOn env id direct_rename v [] c i h w = h
passes-GoesOn env id direct_rename v (r ∷ readings) c (i, is) h w =
    Gives-bind (GoesOn v) (GoesOn v) (pass env id direct_rename r c)
      (pass_on env id direct_rename (passes env id direct_rename readings))
      (pass-GoesOn env id direct_rename v r c i h)
      (λ next k.
        pass_on-GoesOn env id direct_rename v (passes env id direct_rename readings) next
          (λ c' h' u q. passes-GoesOn env id direct_rename v readings c' is h' u) k)
      w tt
