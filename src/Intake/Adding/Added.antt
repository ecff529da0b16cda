-- ===== src/Intake/Adding/Added.antt =====
-- `add_nzb_content` as a whole, under any failures.
use usenet_dl.Base.{
  ℕ, suc, ◌≡◌, refl, subst, sym, inl, inr, Option, none, some, List, chunks, Bool-cases, is_empty,
  filter, ◌==◌,
}
use Prim.Native.String.{String}
use usenet_dl.Types.{DownloadId}
use usenet_dl.World.{World, Env, pure, ◌>>=◌}
use usenet_dl.World.Hoare.{Outcome, Ensures, >>=-Ensures, Ensures-weaken}
use usenet_dl.Db.Passwords.{set_correct_password}
use usenet_dl.Control.Invariant.{QueueIsSound}
use usenet_dl.Intake.{Reader, Volume, Settings, DownloadOptions, Nzb, or_option}
use usenet_dl.Intake.Adding.{
  cache_password, insert_articles_and_password, finalize_nzb_addition, create_download_record,
  store_nzb, add_nzb_content, file_rows, article_rows, sqlite_batch_size,
}
use usenet_dl.Intake.Adding.Kept.{insert_each_chunk-Keeps, insert_files_batch-Keeps}
use usenet_dl.Intake.Adding.Checks.{check_nzb-Holds}
use usenet_dl.Intake.Adding.Sound.{
  IsNumbered, IsKept, IsQueued, id, Before, Stored, insert_download-Stored,
  finalize_nzb_addition-Queued,
}

module _ (env : Env) (u : World) where
  set_correct_password-Stored :
      (password : String)
      → Ensures (Stored u) (set_correct_password env (id u) password) (λ _. Stored u) (Stored u)
  unfolding set_correct_password
  set_correct_password-Stored password w h = elim (Bool-cases (env.outage w.calls)) [
    | inl o ↦ rw o h
    | inr o ↦ elim (Bool-cases (is_empty (filter (λ d. d.id == id u) w.downloads))) [
      | inl e ↦ rw (o, e) h
      | inr e ↦ rw (o, e) h
    ]
  ]

  cache_password-Stored :
      (password : Option String)
      → Ensures (Stored u) (cache_password env (id u) password) (λ _. Stored u) (Stored u)
  unfolding cache_password
  cache_password-Stored none = λ w h. h
  cache_password-Stored (some password) = set_correct_password-Stored password

  insert_articles_and_password-Stored :
      (hashed : String → String) (nzb : Nzb) (password : Option String)
      → Ensures
          (Stored u)
          (insert_articles_and_password env hashed nzb (id u) password)
          (λ _. Stored u)
          (Stored u)
  unfolding insert_articles_and_password
  insert_articles_and_password-Stored hashed nzb password =
      >>=-Ensures (λ _. Stored u) (λ _. Stored u) (Stored u) (Stored u) _ _
        (insert_files_batch-Keeps (Stored u) (λ w n h. h) (λ w r n h. h) (λ w r n h. h) env
          (file_rows hashed (id u) 0 nzb.files))
        λ _.
          >>=-Ensures (λ _. Stored u) (λ _. Stored u) (Stored u) (Stored u) _ _
            (insert_each_chunk-Keeps (Stored u) (λ w n h. h) (λ w r n h. h) (λ w r n h. h) env
              (chunks sqlite_batch_size (article_rows (id u) 0 nzb.files)))
            (λ _. cache_password-Stored password)

  module _ (reader : Reader) (volume : Volume) (settings : Settings) where
    -- What holds once the download is added.
    abbrev Added : DownloadId → World → Type 0
    Added new v = (new ≡ id u) × IsKept u v × IsQueued 1 (id u) v

    after_row :
        (name : String) (nzb : Nzb) (options : DownloadOptions)
        → Ensures
            (Stored u)
            (insert_articles_and_password env reader.hashed_name nzb
                (id u)
                (or_option options.password nzb.password)
              >>= λ _. finalize_nzb_addition env (id u) name >>= λ _. pure (id u))
            Added
            (IsKept u)
    after_row name nzb options =
        >>=-Ensures (λ _. Stored u) Added (IsKept u) (Stored u) _ _
          (Ensures-weaken (λ _. Stored u) (Stored u) (IsKept u) (λ w h. h.0) (Stored u) _
            (insert_articles_and_password-Stored reader.hashed_name nzb _))
          λ _.
            >>=-Ensures (λ _ v. IsKept u v × IsQueued 1 (id u) v) Added (IsKept u) (Stored u) _ _
              (finalize_nzb_addition-Queued u env name) (λ _ v h. (refl, h.0, h.1))

    store_nzb-Added :
        (content : List ℕ) (name : String) (nzb : Nzb) (options : DownloadOptions)
        → Ensures
            (Before u)
            (store_nzb env reader volume settings content name nzb options)
            Added
            (IsKept u)
    unfolding store_nzb create_download_record
    store_nzb-Added content name nzb options =
        >>=-Ensures (λ new w. (new ≡ id u) × Stored u w) Added (IsKept u) (Before u) _ _
          (insert_download-Stored u env _ refl)
          λ new w (e, h).
            subst
              (λ k. Outcome Added (IsKept u) (
                (insert_articles_and_password env reader.hashed_name nzb k
                      (or_option options.password nzb.password)
                    >>= λ _. finalize_nzb_addition env k name >>= λ _. pure k)
                  w))
              (sym e) (after_row name nzb options w h)

-- Whichever statements fail and whatever the file holds, `add_nzb_content` keeps the queue sound and
-- the statuses and items of the downloads that there were. If it returns an id, that is the next one:
-- its row says queued, and it has exactly one item in the queue.
pub add_nzb_content-QueueIsSound :
    (env : Env) (reader : Reader) (volume : Volume) (settings : Settings) (content : List ℕ)
    (name : String) (options : DownloadOptions) (w : World)
    → QueueIsSound w
    → IsNumbered w
    → Outcome
        (λ new v.
          (new ≡ suc w.last_download_id) × IsKept w v × IsQueued 1 (suc w.last_download_id) v)
        (IsKept w)
        (add_nzb_content env reader volume settings content name options w)
unfolding add_nzb_content
add_nzb_content-QueueIsSound env reader volume settings content name options w sound numbered =
    >>=-Ensures (λ _. Before w) (Added env w reader volume settings) (IsKept w) (Before w) _ _
      (Ensures-weaken (λ _. Before w) (Before w) (IsKept w) (λ v h. h.0) (Before w) _
        (check_nzb-Holds (Before w) (λ v n h. h) (λ v es h. h) env reader volume settings content
          name))
      (λ nzb. store_nzb-Added env w reader volume settings content name nzb options) w
      ((sound, numbered, λ j l. (refl, refl)), refl)
