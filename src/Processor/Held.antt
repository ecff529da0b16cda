-- ===== src/Processor/Held.antt =====
-- The item that the loop holds while it waits for a permit.
use usenet_dl.Base.{ℕ, suc, ◌≡◌, refl, ◌∙◌, subst, false, Option, none, some, ◌∷◌, select, arith}
use mathlib.Core.Option
use usenet_dl.Types.{DownloadId, Status, queued, status_from_i32, paused, downloading}
use usenet_dl.World.{QueuedDownload, World, Env, emit_event, Download, M, Error, catch}
use usenet_dl.World.Hoare.{Outcome, Ensures, catch-Ensures, query-calm, execute-calm}
use usenet_dl.Control.{pause}
use usenet_dl.Db.Downloads.{row_id, get_download, update_status, set_started}
use usenet_dl.Db.Files.{get_pending_articles}
use usenet_dl.Control.Invariant.{status_of, status_of-update, status_of-update_row}
use usenet_dl.Control.Pause.{PauseOutcome, pause_lem}
use usenet_dl.Task.Run.{fetch_download_record, begin_existing, begin_download}
use usenet_dl.Processor.{Processor, start_with, start_held_of, start_held, register}

abbrev Never : World → Type 0
Never v = ⊥

module _ (env : Env) (answers : (n : ℕ) → env.outage n ≡ false) where
  catch-calm :
      {A B : Type 0} (Q : A → World → Type 0) (R P : World → Type 0) (m : M A) (f : A → M B)
      (g : Error → M B)
      → Ensures P m Q Never
      → ((a : A) → Ensures (Q a) (f a) (λ _. R) Never)
      → Ensures P (catch m f g) (λ _. R) Never
  catch-calm Q R P m f g h k = catch-Ensures Q Never (λ _. R) Never P m f g h k (λ _ v e. absurd e)

  module _ (id : DownloadId) where
    abbrev Is : Status → World → Type 0
    Is s v = status_of id v ≡ some s

    abbrev Exists : World → Type 0
    Exists v = (s : Status) × Is s v

    set_started-Is : (s : Status) → Ensures (Is s) (set_started env id) (λ _. Is s) Never
    unfolding set_started
    set_started-Is s v h =
        execute-calm env answers _ (Is s) (Is s) Never
          (λ w k.
            status_of-update_row id id (λ d. record d { started_at = some (env.now v.calls) }) w
              (λ d. (refl, refl))
            ∙ k)
          v h

    begin_download-Is :
        (d : Download) → Ensures Exists (begin_download env id d) (λ _. Is downloading) Never
    unfolding begin_download update_status get_pending_articles emit_event
    begin_download-Is d =
        catch-calm (λ _. Is downloading) (Is downloading) Exists _ _ _
          (execute-calm env answers _ Exists (Is downloading) Never
            (λ w (s, h). ground (arith, h, status_of-update id id downloading w)))
          λ _.
            catch-calm (λ _. Is downloading) (Is downloading) (Is downloading) _ _ _
              (set_started-Is downloading)
              λ _ w h.
                catch-calm (λ _. Is downloading) (Is downloading) (Is downloading) _ _ _
                  (query-calm env answers _ (Is downloading) (λ _. Is downloading) Never (λ v k. k))
                  (λ _ v k. k) _ h

    abbrev IsSome : Option Download → Type 0
    IsSome none = ⊥
    IsSome (some d) = Unit

    row-IsSome :
        (o : Option Download) (s : Status)
        → Option.map (λ d. status_from_i32 d.status) o ≡ some s
        → IsSome o
    row-IsSome none s h = absurd (ground (arith, h))
    row-IsSome (some d) s h = tt

    begin_existing-Is :
        (o : Option Download)
        → Ensures (λ v. Exists v × IsSome o) (begin_existing env id o) (λ _. Is downloading) Never
    unfolding begin_existing
    begin_existing-Is none = λ v (_, h). absurd h
    begin_existing-Is (some d) = λ v (h, _). begin_download-Is d v h

    fetch_download_record-Is :
        Ensures Exists (fetch_download_record env id) (λ _. Is downloading) Never
    unfolding fetch_download_record get_download
    fetch_download_record-Is =
        catch-calm (λ o v. Exists v × IsSome o) (Is downloading) Exists _ _ _
          (query-calm env answers _ Exists (λ o v. Exists v × IsSome o) Never
            (λ v (s, h). ((s, h), row-IsSome (select row_id id v.downloads) s h)))
          begin_existing-Is

    -- What `pause` does to a download whose item is held: it marks it, whatever is then running.
    pause-Is : (w : World) → Is queued w → Is paused (pause env id w).1
    pause-Is w h =
        let (_, b) =
          subst (λ o. PauseOutcome id id w o (pause env id w)) h
            (pause_lem env id id w (answers w.calls) (answers (suc w.calls))) in
        ground (arith, b.marked)

-- A download is paused while the loop holds its item and waits for a permit. Where the database
-- answers, the row says paused after the command, and yet the loop starts a task for it as soon as a
-- permit is free, and the task marks the download as downloading.
pub start_held-pause :
    (env : Env) (p : Processor) (item : QueuedDownload) (free : ℕ)
    → ((n : ℕ) → env.outage n ≡ false)
    → p.held ≡ some item
    → p.free ≡ suc free
    → status_of item.id p.world ≡ some queued
    → let w = (pause env item.id p.world).1 in
      let q = start_held (record p { world = w }) in
      (status_of item.id w ≡ some paused)
      × (q.running ≡ (item.id, p.next_token) ∷ p.running)
      × Outcome
          (λ _ v. status_of item.id v ≡ some downloading)
          (λ _. ⊥)
          (fetch_download_record env item.id q.world)
unfolding start_held start_held_of start_with register
start_held-pause env p item free answers h f s =
    let w = (pause env item.id p.world).1 in
    let is_paused = pause-Is env answers item.id p.world s in
    rw (h, f)
      (
        is_paused,
        refl,
        fetch_download_record-Is env answers item.id (register item.id p.next_token w)
            (paused, is_paused),
      )
