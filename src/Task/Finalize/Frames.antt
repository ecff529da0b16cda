-- ===== src/Task/Finalize/Frames.antt =====
-- What the statements of `finalize_download` leave of the state.
use usenet_dl.Base.{
  true, ℕ, zero, suc, ◌+◌, ◌&&◌, ◌||◌, ◌≡◌, sym, subst, ◌⊎◌, Bool, false, Option, none, some, ◌∷◌,
  ltb, ◌==◌, if◌then◌else◌, filter, arith, length,
}
use usenet_dl.Types.{DownloadId, Status, complete, status_to_i32}
use usenet_dl.World.Hoare.{Ensures, execute-Ensures}
use usenet_dl.World.{World, Env, Download, execute, post_processing}
use usenet_dl.Db.Downloads.{row_id, update_row, update_status}
use usenet_dl.Db.Files.{is_pending}
use usenet_dl.Control.{token_of}
use usenet_dl.Control.Invariant.{status_of, status_of-update, status_of-update_row}
use usenet_dl.Control.Effects.{token_of-stopped}
use Prim.Native.String.{String}
use usenet_dl.Task.{DownloadResults}
use usenet_dl.Task.Finalize.{remove_from_active, is_failure}

-- The failures are too many: there are some, and either nothing succeeded or the ratio is above the
-- limit.
abbrev pub too_many : (ℕ → ℕ → Bool) → (succeeded failures : ℕ) → Bool
too_many exceeds succeeded zero = false
too_many exceeds zero (suc failures) = true
too_many exceeds (suc succeeded) (suc failures) =
    exceeds (suc failures) (suc succeeded + suc failures)

too_many-cases :
    (exceeds : ℕ → ℕ → Bool) (s f : ℕ)
    → (ltb 0 f && (s == 0 || (ltb 0 (s + f) && exceeds f (s + f)))) ≡ too_many exceeds s f
too_many-cases exceeds s zero = ground arith
too_many-cases exceeds zero (suc f) = ground arith
too_many-cases exceeds (suc s) (suc f) = ground arith

pub is_failure-too_many :
    (env : Env) (exceeds : ℕ → ℕ → Bool) (failure_text : ℕ → ℕ → Option String → String)
    (r : DownloadResults)
    → is_failure env exceeds failure_text r
      ≡ too_many exceeds r.success_count (r.failed_count + r.individually_failed)
unfolding is_failure
is_failure-too_many env exceeds failure_text r =
    too_many-cases exceeds r.success_count (r.failed_count + r.individually_failed)

-- All but the rows, the articles, the queue, the running tasks, the events and the jobs.
abbrev pub SameElsewhere : World → World → Type 0
SameElsewhere w w' =
    (w'.files ≡ w.files)
    × (w'.passwords ≡ w.passwords)
    × (w'.temp_dirs ≡ w.temp_dirs)
    × (w'.extracted ≡ w.extracted)
    × (w'.cancelled ≡ w.cancelled)
    × (w'.clean_shutdown ≡ w.clean_shutdown)
    × (w'.accepting_new ≡ w.accepting_new)
    × (w'.last_download_id ≡ w.last_download_id)
    × (w'.last_article_id ≡ w.last_article_id)
    × (w'.last_file_id ≡ w.last_file_id)

-- Nothing of `w` is changed, but the row of `id`.
abbrev pub OnlyMarks : (id j : DownloadId) → World → World → Type 0
OnlyMarks id j w w' =
    (w'.active ≡ w.active)
    × (w'.queue ≡ w.queue)
    × (w'.articles ≡ w.articles)
    × (w'.spawned ≡ w.spawned)
    × SameElsewhere w w'
    × (status_of j w' ≡ (if j == id then status_of id w' else status_of j w))

-- The row of `id`, if there is one, has the status.
abbrev pub IsMarked : DownloadId → Status → World → Type 0
IsMarked id s w = (status_of id w ≡ none) ⊎ (status_of id w ≡ some s)

-- The task of `id` is no longer running, and any other is; no status of another download has changed,
-- and none of the articles, the queue and all else but the events and the jobs.
pub record IsRetired (id j : DownloadId) (w w' : World) : Type 0 where
  pub tasks : token_of j w'.active ≡ (if j == id then none else token_of j w.active)
  pub queue : w'.queue ≡ w.queue
  pub articles : w'.articles ≡ w.articles
  pub elsewhere : SameElsewhere w w'
  pub statuses : status_of j w' ≡ (if j == id then status_of id w' else status_of j w)

abbrev pub has_pending : DownloadId → World → Bool
has_pending id w = ltb 0 (length (filter (is_pending id) w.articles))

-- Post-processing was started once, and only for a download marked as complete, whose articles are
-- all settled and whose failures are within bounds.
abbrev pub IsRightlyStarted : DownloadId → Bool → World → World → Type 0
IsRightlyStarted id fails w w' =
    (w'.spawned ≡ w.spawned)
    ⊎ ((w'.spawned ≡ post_processing id ∷ w.spawned)
        × IsMarked id complete w'
        × (has_pending id w' ≡ false)
        × (fails ≡ false))

module _ (env : Env) (id j : DownloadId) (w : World) where
  pub update_status-OnlyMarks :
      (s : Status)
      → Ensures
          (OnlyMarks id j w)
          (update_status env id (status_to_i32 s))
          (λ _ v. OnlyMarks id j w v × IsMarked id s v)
          (OnlyMarks id j w)
  unfolding update_status update_row
  update_status-OnlyMarks s =
      execute-Ensures env _ (OnlyMarks id j w) _ _ (λ v h. h)
        λ v (a, q, t, p, r, o). (
          (a, q, t, p, r, ground (arith, o, status_of-update j id s v, status_of-update id id s v)),
          ground (arith, status_of-update id id s v),
        )

  -- An update that keeps the row's status keeps what is known of it.
  pub update_row-OnlyMarks :
      (f : Download → Download) (P : Option Status → Type 0)
      → ((d : Download) → (row_id (f d) ≡ row_id d) × ((f d).status ≡ d.status))
      → Ensures
          (λ v. OnlyMarks id j w v × P (status_of id v))
          (execute env (update_row id f))
          (λ _ v. OnlyMarks id j w v × P (status_of id v))
          (λ v. OnlyMarks id j w v × P (status_of id v))
  unfolding update_row
  update_row-OnlyMarks f P h =
      execute-Ensures env _ _ _ _ (λ v k. k)
        λ v ((a, q, t, p, r, o), m). (
          (
            a,
            q,
            t,
            p,
            r,
            ground (arith, o, status_of-update_row j id f v h, status_of-update_row id id f v h),
          ),
          subst P (sym (status_of-update_row id id f v h)) m,
        )

  pub remove_from_active-IsRetired :
      (v : World) → OnlyMarks id j w v → IsRetired id j w (remove_from_active id v).1
  unfolding remove_from_active
  remove_from_active-IsRetired v (a, q, t, p, r, o) = record {
    tasks = ground (arith, a, token_of-stopped j id w.active);
    queue = q;
    articles = t;
    elsewhere = r;
    statuses = o;
  }
