-- ===== src/Task/Updater.antt =====
-- src/downloader/background_tasks.rs, `spawn_batch_updater`: the task that gathers the status updates
-- of the articles and writes them in batches.
pub mod Writes
use usenet_dl.Base.{ℕ, Bool, true, false, List, [], ◌∷◌, ◌++◌, leb, if◌then◌else◌, is_empty, length}
use usenet_dl.Base.Int.{ℤ}
use usenet_dl.World.{Env, M, pure, catch, ◌>>=◌, ◌>>◌}
use usenet_dl.Db.Articles.{update_articles_status_batch}
use usenet_dl.Task.Finalize.{ignore}

-- What the loop's `select!` takes: an update, a tick of the timer, or the cancellation. The list of
-- inputs ends where the channel is closed.
pub data Input : Type 0 where
  received : (update : ℕ × ℤ) → Input
  tick : Input
  cancelled : Input

-- `ARTICLE_BATCH_SIZE`
abbrev pub article_batch_size : ℕ
article_batch_size = 100

-- The updates that are still in the channel.
unfoldable pub drain : List Input → List (ℕ × ℤ)
drain [] = []
drain (received update ∷ inputs) = update ∷ drain inputs
drain (tick ∷ inputs) = drain inputs
drain (cancelled ∷ inputs) = drain inputs

module _ (env : Env) where
  -- An error is logged, and the updates are dropped.
  unfoldable pub flush : List (ℕ × ℤ) → M Unit
  flush buffer =
      if is_empty buffer then pure tt else ignore (update_articles_status_batch env buffer)

  unfoldable pub batch_updater : List (ℕ × ℤ) → List Input → M Unit
  batch_updater buffer [] = flush buffer
  batch_updater buffer (received update ∷ inputs) =
      let full = buffer ++ update ∷ [] in
      let go_on = batch_updater full inputs in
      let start_anew = batch_updater [] inputs in
      if leb article_batch_size (length full) then (do flush full; start_anew) else go_on
  batch_updater buffer (tick ∷ inputs) = do flush buffer; batch_updater [] inputs
  batch_updater buffer (cancelled ∷ inputs) = do flush buffer; flush (buffer ++ drain inputs)
