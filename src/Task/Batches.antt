-- ===== src/Task/Batches.antt =====
-- src/downloader/download_task/batching.rs: how the pending articles are split into the batches that
-- are fetched.
pub mod Split
use usenet_dl.Base.{
  ℕ, zero, suc, ◌+◌, ◌-◌, max, Bool, true, false, ◌&&◌, ◌||◌, not, Option, none, some, List, [],
  ◌∷◌, map, any, filter, ◌==◌, is_empty, chunks, if◌then◌else◌,
}
use Prim.Native.String.{String, len, slice}
use text.Mathlib.Text.{◌==◌ as str_eq}
use usenet_dl.World.{Article, DownloadFile}
use usenet_dl.Db.Downloads.{sort_by}

-- The part of `ServerConfig` that is used here.
pub record Server : Type 0 where
  pub connections : ℕ
  pub pipeline_depth : ℕ

-- The part of `Config`: `servers`, and `direct_rename` and `enabled` of `processing.direct_unpack`.
pub record Config : Type 0 where
  pub servers : List Server
  pub direct_rename : Bool
  pub direct_unpack : Bool

-- `filename.to_lowercase().ends_with(".par2")`: the last five bytes are one of these.
abbrev pub par2_suffixes : List String
par2_suffixes = ".par2" ∷ ".paR2" ∷ ".pAr2" ∷ ".pAR2" ∷ ".Par2" ∷ ".PaR2" ∷ ".PAr2" ∷ ".PAR2" ∷ []

abbrev pub is_par2_name : String → Bool
is_par2_name name = any (λ s. str_eq (slice name (len name - 5) (len name)) s) par2_suffixes

abbrev pub par2_indices : List DownloadFile → List ℕ
par2_indices files = map (λ f. f.file_index) (filter (λ f. is_par2_name f.filename) files)

abbrev pub in_par2 : List ℕ → Article → Bool
in_par2 indices a = any (λ i. i == a.file_index) indices

-- `sort_by_key` with the key 0 for the articles of PAR2 files and 1 for the others.
abbrev pub before_by_key : (Article → Bool) → Article → Article → Bool
before_by_key is_first a b = is_first a && not (is_first b)

unfoldable pub prioritise : Config → Option (List DownloadFile) → List Article → List Article
prioritise config none articles = articles
prioritise config (some files) articles =
    if config.direct_rename && not (is_empty (par2_indices files))
    then sort_by (before_by_key (in_par2 (par2_indices files))) articles
    else articles

unfoldable pub sum_connections : List Server → ℕ
sum_connections [] = 0
sum_connections (s ∷ servers) = s.connections + sum_connections servers

unfoldable pub first_depth : List Server → ℕ
first_depth [] = 10
first_depth (s ∷ servers) = max s.pipeline_depth 1

-- The concurrency, the pipeline depth and the batches.
unfoldable pub prepare_batches :
    Config → List Article → Option (List DownloadFile) → ℕ × ℕ × List (List Article)
prepare_batches config pending_articles download_files =
    let pipeline_depth = first_depth config.servers in
    (
      sum_connections config.servers,
      pipeline_depth,
      chunks pipeline_depth (prioritise config download_files pending_articles),
    )
