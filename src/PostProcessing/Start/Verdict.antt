-- ===== src/PostProcessing/Start/Verdict.antt =====
-- What the post-processing makes of the status of a download.
use usenet_dl.Base.{
  ℕ, suc, ◌≡◌, refl, ◌∙◌, Bool, true, false, Option, none, some, ◌==◌, arith, select,
}
use usenet_dl.Base.Int.{ℤ}
use mathlib.Core.Option
use Prim.Native.String.{String}
use usenet_dl.Types.{
  DownloadId, Status, processing, complete, failed, status_to_i32, status_from_i32,
}
use usenet_dl.World.{World, Env, Error, Download, emit_event, ◌>>=◌, or_throw, not_found}
use usenet_dl.World.Hoare.{Outcome, Ensures, >>=-Ensures, catch-Ensures, execute-calm, query-calm}
use usenet_dl.Db.Downloads.{row_id, update_status, set_error, get_download}
use usenet_dl.Db.Files.{
  get_direct_unpack_state, get_direct_unpack_extracted_count, fetch_one, field_of,
}
use usenet_dl.Control.Invariant.{status_of, status_of-update, status_of-update_row}
use usenet_dl.PostProcessing.{Tools}
use usenet_dl.PostProcessing.Quiet.{start_post_processing-Quiet, run_move_and_cleanup-Quiet}
use usenet_dl.PostProcessing.Start.{
  handle_post_process_success, handle_post_process_failure, or_default, run_pipeline,
  post_process_row, start_download_post_processing,
}

module _ (env : Env) (answers : (n : ℕ) → env.outage n ≡ false) (tools : Tools)
    (path_of : DownloadId → String) (text_of : Error → String) (id : DownloadId) (w : World) where
  -- The download has a row, and every other has its status in `w`.
  abbrev pub Known : World → Type 0
  Known v =
      ((s : Status) × (status_of id v ≡ some s))
      × ((j : DownloadId) → (j == id) ≡ false → status_of j v ≡ status_of j w)

  abbrev pub Became : Status → World → Type 0
  Became s v =
      (status_of id v ≡ some s)
      × ((j : DownloadId) → (j == id) ≡ false → status_of j v ≡ status_of j w)

  pub update_status-Became :
      (s : Status) (E : World → Type 0)
      → Ensures Known (update_status env id (status_to_i32 s)) (λ _. Became s) E
  unfolding update_status
  update_status-Became s E = execute-calm env answers _ Known (Became s) E λ v ((t, h), k). (
    ground (arith, h, status_of-update id id s v),
    λ j e. ground (arith, e, k j e, status_of-update j id s v),
  )

  pub set_error-Became :
      (s : Status) (text : String) (E : World → Type 0)
      → Ensures (Became s) (set_error env id text) (λ _. Became s) E
  unfolding set_error
  set_error-Became s text E = execute-calm env answers _ (Became s) (Became s) E λ v (h, k). (
    status_of-update_row id id (λ d. record d { error_message = some text }) v (λ d. (refl, refl))
        ∙ h,
    λ j e.
        status_of-update_row j id (λ d. record d { error_message = some text }) v
          (λ d. (refl, refl))
        ∙ k j e,
  )

  success-Became :
      (path : String)
      → Ensures Known
          (handle_post_process_success env tools path_of text_of id path)
          (λ _. Became complete)
          (Became failed)
  unfolding handle_post_process_success emit_event
  success-Became path =
      >>=-Ensures (λ _. Became complete) (λ _. Became complete) (Became failed) Known _ _
        (update_status-Became complete (Became failed)) (λ _ v h. h)

  failure-Became :
      (e : Error)
      → Ensures Known
          (handle_post_process_failure env tools path_of text_of id e)
          (λ _. Became complete)
          (Became failed)
  unfolding handle_post_process_failure emit_event
  failure-Became e =
      >>=-Ensures (λ _. Became failed) (λ _. Became complete) (Became failed) Known _ _
        (update_status-Became failed (Became failed))
        λ _.
          >>=-Ensures (λ _. Became failed) (λ _. Became complete) (Became failed) (Became failed) _
            _ (set_error-Became failed _ (Became failed)) (λ _ v h. h)

  run_pipeline-Known :
      (d : Download) (b : Bool)
      → Ensures Known (run_pipeline env tools path_of text_of id d b) (λ _. Known) Known
  unfolding run_pipeline
  run_pipeline-Known d true = run_move_and_cleanup-Quiet Known (λ v es ps fs n h. h) tools id _ _
  run_pipeline-Known d false =
      start_post_processing-Quiet Known (λ v es ps fs n h. h) tools id _ _ _

  field_of-Known :
      (field : Download → ℤ) (o : Option Download)
      → Ensures Known (field_of env field o) (λ _. Known) Known
  unfolding field_of
  field_of-Known field none = λ v h. h
  field_of-Known field (some d) = λ v h. h

  or_default-Known :
      (field : Download → ℤ) (z : ℤ)
      → Ensures Known
          (or_default env tools path_of text_of (fetch_one env field id) z)
          (λ _. Known)
          (Became failed)
  unfolding or_default fetch_one
  or_default-Known field z =
      catch-Ensures (λ _. Known) Known (λ _. Known) (Became failed) Known _ _ _
        (>>=-Ensures (λ _. Known) (λ _. Known) Known Known _ _
          (query-calm env answers _ Known (λ _. Known) Known (λ v h. h)) (field_of-Known field))
        (λ _ v h. h) (λ _ v h. h)

  row-Became :
      (d : Download)
      → Ensures Known
          (post_process_row env tools path_of text_of id d)
          (λ _. Became complete)
          (Became failed)
  unfolding post_process_row get_direct_unpack_state get_direct_unpack_extracted_count
  row-Became d =
      >>=-Ensures (λ _. Known) (λ _. Became complete) (Became failed) Known _ _
        (or_default-Known _ _)
        λ state.
          >>=-Ensures (λ _. Known) (λ _. Became complete) (Became failed) Known _ _
            (or_default-Known _ _)
            λ count.
              catch-Ensures (λ _. Known) Known (λ _. Became complete) (Became failed) Known _ _ _
                (run_pipeline-Known d _) success-Became failure-Became

  abbrev Exists : Option Download → World → Type 0
  Exists none v = ⊥
  Exists (some d) v = Known v

  row-Exists :
      (o : Option Download) (v : World)
      → Option.map (λ d. status_from_i32 d.status) o ≡ status_of id v
      → Known v
      → Exists o v
  row-Exists none v e ((s, h), k) = absurd (ground (arith, e, h))
  row-Exists (some d) v e k = k

  or_throw-Became :
      (o : Option Download)
      → Ensures
          (Exists o)
          (or_throw o (not_found id) >>= post_process_row env tools path_of text_of id)
          (λ _. Became complete)
          (Became failed)
  or_throw-Became none = λ v h. absurd h
  or_throw-Became (some d) = row-Became d

  start-Became :
      Ensures Known
        (start_download_post_processing env tools path_of text_of id)
        (λ _. Became complete)
        (Became failed)
  unfolding start_download_post_processing get_download
  start-Became =
      >>=-Ensures (λ _. Became processing) (λ _. Became complete) (Became failed) Known _ _
        (update_status-Became processing (Became failed))
        λ _.
          >>=-Ensures Exists (λ _. Became complete) (Became failed) (Became processing) _ _
            (query-calm env answers _ (Became processing) Exists (Became failed) (λ v (h, k).
              row-Exists (select row_id id v.downloads) (record v { calls = suc v.calls }) refl
                ((processing, h), k)))
            or_throw-Became

-- Where the database answers and the download has a row: whatever the stages give, the
-- post-processing ends, and it leaves the download as complete where it succeeds and as failed where
-- it gives an error, never as processing. No other download changes its status.
pub start_download_post_processing-Became :
    (env : Env) (tools : Tools) (path_of : DownloadId → String) (text_of : Error → String)
    (id : DownloadId) (s : Status) (w : World)
    → ((n : ℕ) → env.outage n ≡ false)
    → status_of id w ≡ some s
    → Outcome
        (λ _ v.
          (status_of id v ≡ some complete)
          × ((j : DownloadId) → (j == id) ≡ false → status_of j v ≡ status_of j w))
        (λ v.
          (status_of id v ≡ some failed)
          × ((j : DownloadId) → (j == id) ≡ false → status_of j v ≡ status_of j w))
        (start_download_post_processing env tools path_of text_of id w)
start_download_post_processing-Became env tools path_of text_of id s w answers h =
    start-Became env answers tools path_of text_of id w w ((s, h), λ j e. refl)
