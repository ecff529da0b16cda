-- ===== src/Processor/Limit.antt =====
-- The limit on concurrent downloads.
use usenet_dl.Base.{ℕ, ◌+◌, ◌<◌, ◌≡◌, List, [], ◌∷◌, All, length}
use usenet_dl.Types.{DownloadId}
use usenet_dl.World.{World}
use usenet_dl.Processor.{Processor}

-- No two of the tasks have the same token.
abbrev pub AreDistinct : List (DownloadId × ℕ) → Type 0
AreDistinct [] = Unit
AreDistinct (t ∷ tasks) = All (λ u. ¬ (t.1 ≡ u.1)) tasks × AreDistinct tasks

-- The permits are free or held by a task, and each task has a token of its own.
abbrev pub IsLimited : ℕ → Processor → Type 0
IsLimited max_concurrent p =
    (length p.running + p.free ≡ max_concurrent)
    × All (λ t. t.1 < p.next_token) p.running
    × AreDistinct p.running
