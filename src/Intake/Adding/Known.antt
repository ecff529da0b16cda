-- ===== src/Intake/Adding/Known.antt =====
-- What does not depend on the state before an NZB is added, and what is known of its digest afterwards.
use usenet_dl.Base.{
  ℕ, suc, ◌≡◌, refl, ap, ◌∙◌, inl, inr, Bool, true, false, Option, none, some, List, [], ◌∷◌, ◌++◌,
  any, any-append, if◌then◌else◌, Bool-cases, Option-cases, arith, chunks, ltb, filter, is_empty,
  ◌==◌, select,
}
use Prim.Native.String.{String}
use text.Mathlib.TextEquality.{eq_iff}
use usenet_dl.Types.{DownloadId}
use usenet_dl.World.{Download, World, Env, M, Result, ok, err, and_then, query, emit_event, ◌>>=◌}
use usenet_dl.World.Hoare.{Ensures, >>=-Ensures, Ensures-weaken}
use usenet_dl.Db.Downloads.{insert_download, get_download, new_row, row_id}
use usenet_dl.Db.Duplicates.{has_text}
use usenet_dl.Db.Passwords.{set_correct_password}
use usenet_dl.Queue.{add_to_queue}
use usenet_dl.Intake.{
  Reader, Volume, Settings, DownloadOptions, Nzb, parse_and_validate_nzb, check_disk_space,
  check_space_at, compare_space,
}
use usenet_dl.Intake.Adding.{
  insert_articles_and_password, cache_password, finalize_nzb_addition, create_download_record,
  store_nzb, add_nzb_content, file_rows, article_rows, sqlite_batch_size, new_download,
}
use usenet_dl.Intake.Adding.Kept.{insert_each_chunk-Keeps, insert_files_batch-Keeps}
use usenet_dl.Intake.Adding.Checks.{check_nzb-Holds}

-- The result does not depend on the state, which stays.
abbrev pub IsPure : {A : Type 0} → M A → Type 0
IsPure m = (w v : World) → m v ≡ ((m w).0, v)

bind-IsPure :
    {A B : Type 0} (m : M A) (f : A → M B)
    → IsPure m
    → ((a : A) → IsPure (f a))
    → (w v : World) → (m >>= f) v ≡ (((m >>= f) w).0, v)
bind-IsPure m f h k w v = ap (λ p. and_then p.0 f p.1) (h w v) ∙ go (m w)
  where
    go : (r : Result _ × World) → and_then r.0 f v ≡ ((and_then r.0 f r.1).0, v)
    go (ok a, s) = k a s v
    go (err e, s) = refl

if-IsPure : {A : Type 0} (b : Bool) (m n : M A) → IsPure m → IsPure n → IsPure (if b then m else n)
if-IsPure true m n h k = h
if-IsPure false m n h k = k

module _ (reader : Reader) (volume : Volume) (settings : Settings) where
  compare_space-IsPure :
      (required : ℕ) (o : Option ℕ) → IsPure (compare_space reader volume settings required o)
  unfolding compare_space
  compare_space-IsPure required none w v = refl
  compare_space-IsPure required (some available) w v = elim (Bool-cases (ltb available required)) [
    | inl e ↦ rw e refl
    | inr e ↦ rw e refl
  ]

  check_space_at-IsPure :
      (required : ℕ) (o : Option String) → IsPure (check_space_at reader volume settings required o)
  unfolding check_space_at
  check_space_at-IsPure required none = λ w v. refl
  check_space_at-IsPure required (some path) =
      compare_space-IsPure required (volume.get_available_space path)

  check_disk_space-IsPure : (size : ℕ) → IsPure (check_disk_space reader volume settings size)
  unfolding check_disk_space
  check_disk_space-IsPure size =
      if-IsPure settings.disk_space_enabled _ _ (check_space_at-IsPure _ _) (λ w v. refl)

  pub parse_and_validate_nzb-IsPure :
      (content : List ℕ) → IsPure (parse_and_validate_nzb reader volume settings content)
  unfolding parse_and_validate_nzb
  parse_and_validate_nzb-IsPure content =
      bind-IsPure _ _ (λ w v. refl)
        (λ nzb. bind-IsPure _ _ (check_disk_space-IsPure (reader.total_bytes nzb)) (λ _ w v. refl))

  -- A row has the digest, and new downloads are accepted.
  abbrev pub knows : List ℕ → List Download → Bool
  knows content downloads = any (λ d. has_text (reader.sha256 content) d.nzb_hash) downloads

  abbrev pub Known : List ℕ → World → Type 0
  Known content w = (knows content w.downloads ≡ true) × (w.accepting_new ≡ true)

  abbrev pub Any : World → Type 0
  Any w = Unit {0}

  module _ (env : Env) (content : List ℕ) where
    cache_password-Known :
        (id : DownloadId) (password : Option String)
        → Ensures (Known content) (cache_password env id password) (λ _. Known content) Any
    unfolding cache_password set_correct_password
    cache_password-Known id none w h = h
    cache_password-Known id (some password) w h = elim (Bool-cases (env.outage w.calls)) [
      | inl o ↦ rw o tt
      | inr o ↦ elim (Bool-cases (is_empty (filter (λ d. d.id == id) w.downloads))) [
        | inl e ↦ rw (o, e) tt
        | inr e ↦ rw (o, e) h
      ]
    ]

    finalize_nzb_addition-Known :
        (id : DownloadId) (name : String)
        → Ensures (Known content) (finalize_nzb_addition env id name) (λ _. Known content) Any
    unfolding finalize_nzb_addition add_to_queue get_download query emit_event
    finalize_nzb_addition-Known id name w h = elim (Bool-cases (env.outage w.calls)) [
      | inl o ↦ rw o tt
      | inr o ↦ elim (Option-cases (select row_id id w.downloads)) [
        | inl s ↦ rw (o, s) tt
        | inr (d, s) ↦ rw (o, s) h
      ]
    ]

    insert_articles_and_password-Known :
        (hashed : String → String) (nzb : Nzb) (id : DownloadId) (password : Option String)
        → Ensures
            (Known content)
            (insert_articles_and_password env hashed nzb id password)
            (λ _. Known content)
            Any
    unfolding insert_articles_and_password
    insert_articles_and_password-Known hashed nzb id password =
        let K = Known content in
        let stays = λ (m : M (Unit {0})). Ensures-weaken (λ _. K) K Any (λ w h. tt) K m in
        >>=-Ensures (λ _. K) (λ _. K) Any K _ _
          (stays _ (
            insert_files_batch-Keeps K (λ w n h. h) (λ w r n h. h) (λ w r n h. h) env
              (file_rows hashed id 0 nzb.files)))
          λ _.
            >>=-Ensures (λ _. K) (λ _. K) Any K _ _
              (stays _ (
                insert_each_chunk-Keeps K (λ w n h. h) (λ w r n h. h) (λ w r n h. h) env
                  (chunks sqlite_batch_size (article_rows id 0 nzb.files))))
              (λ _. cache_password-Known id password)

    create_download_record-Known :
        (name : String) (nzb : Nzb) (options : DownloadOptions)
        → Ensures
            (λ w. w.accepting_new ≡ true)
            (create_download_record env reader volume settings content name nzb options)
            (λ _. Known content)
            Any
    unfolding create_download_record insert_download
    create_download_record-Known name nzb options w a = elim (Bool-cases (env.outage w.calls)) [
      | inl o ↦ rw o tt
      | inr o ↦ rw o (found, a)
    ]
      where
        row : Download
        row =
            new_row (suc w.last_download_id) (env.now w.calls)
              (new_download env reader volume settings content name nzb options)

        same : has_text (reader.sha256 content) (some (reader.sha256 content)) ≡ true
        same = (eq_iff (reader.sha256 content) (reader.sha256 content)).1 refl

        found : knows content (w.downloads ++ row ∷ []) ≡ true
        found = ground (
          arith,
          any-append (λ d. has_text (reader.sha256 content) d.nzb_hash) w.downloads (row ∷ []),
          same,
        )

    store_nzb-Known :
        (name : String) (nzb : Nzb) (options : DownloadOptions)
        → Ensures
            (λ w. w.accepting_new ≡ true)
            (store_nzb env reader volume settings content name nzb options)
            (λ _. Known content)
            Any
    unfolding store_nzb
    store_nzb-Known name nzb options =
        let K = Known content in
        >>=-Ensures (λ _. K) (λ _. K) Any (λ w. w.accepting_new ≡ true) _ _
          (create_download_record-Known name nzb options)
          λ id.
            >>=-Ensures (λ _. K) (λ _. K) Any K _ _
              (insert_articles_and_password-Known reader.hashed_name nzb id _)
              λ _.
                >>=-Ensures (λ _. K) (λ _. K) Any K _ _ (finalize_nzb_addition-Known id name)
                  (λ _ w h. h)

    pub add_nzb_content-Known :
        (name : String) (options : DownloadOptions)
        → Ensures
            (λ w. w.accepting_new ≡ true)
            (add_nzb_content env reader volume settings content name options)
            (λ _. Known content)
            Any
    unfolding add_nzb_content
    add_nzb_content-Known name options =
        let A : World → Type 0 = λ w. w.accepting_new ≡ true in
        >>=-Ensures (λ _. A) (λ _. Known content) Any A _ _
          (Ensures-weaken (λ _. A) A Any (λ w h. tt) A _
            (check_nzb-Holds A (λ w n h. h) (λ w es h. h) env reader volume settings content name))
          (λ nzb. store_nzb-Known name nzb options)
