-- ===== src/Control/Effects.antt =====
-- How the effects of the operations are stated: on the download `id` and on any other one, `j`.
use usenet_dl.Base.{
  ℕ, suc, ◌≡◌, false, not, none, some, List, [], ◌∷◌, ◌==◌, if◌then◌else◌, filter, arith, select,
}
use mathlib.Core.Option
use usenet_dl.Types.{DownloadId, Status, status_from_i32, status_to_i32}
use usenet_dl.World.{Download, World, Env, M, err, query, ◌>>=◌, database_not_found}
use usenet_dl.Db.Downloads.{row_id, get_download}
use usenet_dl.Queue.{items_of, remove_from_queue}
use usenet_dl.Control.{token_of, stop_task, get_existing}
use usenet_dl.Control.Invariant.{status_of, items_of-without}

abbrev pub status_of_row : Download → Status
status_of_row d = status_from_i32 d.status

-- Nothing but the count of statements has changed.
abbrev pub IsUntouched : World → World → Type 0
IsUntouched w w' = w' ≡ record w { calls = w'.calls }

-- The parts of the state that only other operations change.
abbrev pub SameRest : World → World → Type 0
SameRest w w' =
    (w'.clean_shutdown ≡ w.clean_shutdown)
    × (w'.accepting_new ≡ w.accepting_new)
    × (w'.extracted ≡ w.extracted)
    × (w'.spawned ≡ w.spawned)
    × (w'.last_download_id ≡ w.last_download_id)
    × (w'.last_article_id ≡ w.last_article_id)
    × (w'.last_file_id ≡ w.last_file_id)

-- The articles, files and passwords, the directories and the events.
abbrev pub SameStored : World → World → Type 0
SameStored w w' =
    (w'.articles ≡ w.articles)
    × (w'.files ≡ w.files)
    × (w'.passwords ≡ w.passwords)
    × (w'.temp_dirs ≡ w.temp_dirs)
    × (w'.events ≡ w.events)

-- The row is read; the rest of the operation is for the status found.
module _ (env : Env) (id : DownloadId) (w : World) (answers : env.outage w.calls ≡ false) where
  abbrev pub read_once : World
  read_once = record w { calls = suc w.calls }

  pub get_existing-none :
      {B : Type 0} (f : Download → M B)
      → select row_id id w.downloads ≡ none
      → (get_existing env id >>= f) w ≡ (err (database_not_found id), read_once)
  unfolding get_existing get_download query
  get_existing-none f e = rw (answers, e)

  pub get_existing-some :
      {B : Type 0} (f : Download → M B) (d : Download)
      → select row_id id w.downloads ≡ some d
      → (get_existing env id >>= f) w ≡ f d read_once
  unfolding get_existing get_download query
  get_existing-some f d e = rw (answers, e)

-- The task of `id` was told to stop and is forgotten, and its items are gone from the queue; those
-- of any other download `j` are as before.
pub record IsStopped (id j : DownloadId) (w w' : World) : Type 0 where
  pub items : items_of j w'.queue ≡ (if j == id then [] else items_of j w.queue)
  pub tasks : token_of j w'.active ≡ (if j == id then none else token_of j w.active)
  pub told :
      w'.cancelled ≡ elim (token_of id w.active) [ none ↦ w.cancelled | some e ↦ e.1 ∷ w.cancelled ]

pub token_of-stopped :
    (j id : DownloadId) (active : List (DownloadId × ℕ))
    → token_of j (filter (λ e. not (e.0 == id)) active)
      ≡ (if j == id then none else token_of j active)
token_of-stopped j id [] = ground arith
token_of-stopped j id (e ∷ active) = ground (arith, token_of-stopped j id active)

stop_task-IsStopped :
    (id j : DownloadId) (w : World)
    → IsStopped id j w ((stop_task id >>= λ _. remove_from_queue id) w).1
unfolding stop_task remove_from_queue
stop_task-IsStopped id j w = record {
  items = ground (arith, items_of-without j id w.queue);
  tasks = ground (arith, token_of-stopped j id w.active);
  told = ground arith;
}

-- `id` is stopped, and its status has become `s`; any other row is as before, and so is all else.
pub record HasBecome (s : Status) (id j : DownloadId) (w w' : World) : Type 0 where
  pub halted : IsStopped id j w w'
  pub marked : status_of j w' ≡ (if j == id then some s else status_of j w)
  pub rows :
      select row_id j w'.downloads
      ≡ Option.map
          (λ d. if j == id then record d { status = status_to_i32 s } else d)
          (select row_id j w.downloads)
  pub stored : SameStored w w'
  pub rest : SameRest w w'
