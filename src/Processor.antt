-- ===== src/Processor.antt =====
-- src/downloader/queue_processor.rs: the loop that takes downloads from the queue and starts their
-- tasks, as a step relation. The semaphore is never closed (no code closes it).
pub mod Limit
pub mod Drains
pub mod Held
use usenet_dl.Base.{
  ℕ, zero, suc, ◌-◌, ◌≡◌, Bool, Option, none, some, List, [], ◌∷◌, ◌++◌, ◌==◌, not, filter,
}
use usenet_dl.Types.{DownloadId}
use usenet_dl.World.{QueuedDownload, World}
use usenet_dl.Queue.{pop}

-- The shared state, the item that the loop has popped and holds while it waits for a permit, the
-- free permits of the semaphore, and the tasks that were started and have not ended, each with its
-- token. `next_token` names the next `CancellationToken`.
pub record Processor : Type 0 where
  pub world : World
  pub held : Option QueuedDownload
  pub free : ℕ
  pub running : List (DownloadId × ℕ)
  pub next_token : ℕ

-- `active.insert(id, token)`: an entry that is there is replaced.
unfoldable pub register : DownloadId → ℕ → World → World
register id token w = record w { active = (id, token) ∷ filter (λ e. not (e.0 == id)) w.active }

unfoldable pub take_next_of : Processor → Option (QueuedDownload × List QueuedDownload) → Processor
take_next_of p none = p
take_next_of p (some (item, rest)) = record p {
  held = some item;
  world = record p.world { queue = rest };
}

-- `queue_guard.pop()`; with an empty queue the loop sleeps.
unfoldable pub take_next : Processor → Processor
take_next p = take_next_of p (pop p.world.queue)

unfoldable pub start_with : Processor → QueuedDownload → ℕ → Processor
start_with p item zero = p
start_with p item (suc free) = record {
  world = register item.id p.next_token p.world;
  held = none;
  free = free;
  running = (item.id, p.next_token) ∷ p.running;
  next_token = suc p.next_token;
}

unfoldable pub start_held_of : Processor → Option QueuedDownload → Processor
start_held_of p none = p
start_held_of p (some item) = start_with p item p.free

-- The loop from the permit to `tokio::spawn`; without a free permit it waits.
unfoldable pub start_held : Processor → Processor
start_held p = start_held_of p p.held

-- One pass of the loop.
unfoldable pub pass : Processor → Processor
pass p = start_held (take_next p)

-- Everything that may happen: the two halves of a pass, the end of a task, which frees its permit,
-- and a change of the shared state by a command or a running task.
pub data Step (p : Processor) : Processor → Type 0 where
  takes : (p.held ≡ none) → Step p (take_next p)
  starts : Step p (start_held p)
  ends :
      (before after : List (DownloadId × ℕ)) (task : DownloadId × ℕ)
      → p.running ≡ before ++ task ∷ after
      → Step p (record p { running = before ++ after; free = suc p.free })
  changes : (w : World) → Step p (record p { world = w })

-- The start of the program, with the permits that the configuration gives.
abbrev pub initial : ℕ → World → Processor
initial max_concurrent w = record {
  world = w;
  held = none;
  free = max_concurrent;
  running = [];
  next_token = 0;
}

pub data Reach (max_concurrent : ℕ) (w : World) : Processor → Type 0 where
  start : Reach max_concurrent w (initial max_concurrent w)
  later : {p q : Processor} → Reach max_concurrent w p → Step p q → Reach max_concurrent w q
