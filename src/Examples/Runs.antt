-- ===== src/Examples/Runs.antt =====
-- The batches of a download, their status updates and the run of its task.
use usenet_dl.Base.{
  ◌≢◌, ℕ, suc, ◌≤◌, ◌≡◌, refl, Bool, true, false, Option, none, some, List, [], ◌∷◌, All, length,
  is_empty, flatten, ltb, ◌*◌, if◌then◌else◌, arith,
}
use usenet_dl.Base.Int.{ℤ, pos}
use Prim.Native.String.{String}
use usenet_dl.World.{Article, DownloadFile, ok}
use usenet_dl.World.Hoare.{Outcome}
use usenet_dl.Db.Articles.{downloaded}
use usenet_dl.Task.{Attempt, Counters, DownloadResults}
use usenet_dl.Task.Batches.{Config, prepare_batches, first_depth, sum_connections, prioritise}
use usenet_dl.Task.Batches.Split.{prioritised, prepare_batches_lem}
use usenet_dl.Task.Fetch.{Provider, Texts, Fetched, Decoded, download_articles, overlap, take_turn}
use usenet_dl.Task.Fetch.Sums.{ids, updated, downloads_in, occurrences, download_articles-updates}
use usenet_dl.Task.Updater.{Input, received, tick, drain, batch_updater}
use usenet_dl.Task.Updater.Writes.{statuses, apply_updates, batch_updater-apply_updates}
use usenet_dl.Task.Run.{run_download_task, ended}
use usenet_dl.Task.Run.Retires.{IsGone}
use usenet_dl.DirectUnpack.{Outside, Reading, coordinate}
use usenet_dl.DirectUnpack.Ends.{run_download_task-run-IsGone}
use usenet_dl.Examples.Worlds.{calm, stormy, article, four}

abbrev two_servers : Config
two_servers = record {
  servers =
      record { connections = 8; pipeline_depth = 2 }
      ∷ record { connections = 4; pipeline_depth = 5 }
      ∷ [];
  direct_rename = true;
  direct_unpack = true;
}

abbrev file : ℕ → String → DownloadFile
file index name = record {
  id = suc index;
  download_id = 4;
  file_index = index;
  filename = name;
  subject = none;
  total_segments = 1;
  paused = pos 0;
  completed = pos 0;
  original_filename = none;
}

abbrev in_file : ℕ → ℕ → Article
in_file id index = record (article id 4 (pos 0)) { file_index = index }

abbrev three : List Article
three = in_file 1 0 ∷ in_file 2 1 ∷ in_file 3 0 ∷ []

abbrev files : Option (List DownloadFile)
files = some (file 0 "a.rar" ∷ file 1 "a.PAR2" ∷ [])

prepare_batches_example :
    let (concurrency, depth, batches) = prepare_batches two_servers three files in
    (flatten batches ≡ prioritised two_servers files three)
    × All (λ b. length b ≤ depth) batches
    × All (λ b. is_empty b ≡ false) batches
    × (1 ≤ depth)
prepare_batches_example = prepare_batches_lem two_servers three files

-- The PAR2 file comes first.
batches_test :
    (prepare_batches two_servers three files).2
    ≡ (in_file 2 1 ∷ in_file 1 0 ∷ []) ∷ (in_file 3 0 ∷ []) ∷ []
unfolding prepare_batches usenet_dl.Base.chunks first_depth prioritise
    usenet_dl.Db.Downloads.sort_by usenet_dl.Db.Downloads.insert_by
batches_test = refl

abbrev texts : Texts
texts = record {
  fetch_failed = λ e. e;
  undecodable = λ e. e;
  missing = λ a. "missing";
  all_failed = "all failed";
  cancelled = "Download cancelled";
}

-- The second response of each batch does not decode.
abbrev provider : Provider
provider = record {
  is_cancelled = λ batch. false;
  fetch_articles = λ batch. Fetched.responses ("x" ∷ "y" ∷ []);
  decode_and_write =
      λ a content. if ltb a.id 2 then Decoded.decoded 5 else Decoded.undecodable "crc";
  retried = λ a. (false, Attempt.missing);
}

connected : sum_connections two_servers.servers ≢ 0
unfolding sum_connections
connected h = ground (arith, h)

download_articles_example :
    (r : DownloadResults) × (c : Counters) × (download_articles texts provider two_servers
        (1 ∷ 0 ∷ [])
        three
      ≡ some (r, c))
    × ((n : ℕ) → occurrences n (updated c.updates) ≤ occurrences n (ids three))
    × (c.downloaded_articles ≡ downloads_in c.updates)
download_articles_example =
    download_articles-updates texts provider two_servers (1 ∷ 0 ∷ []) three connected

-- Two batches at once: the third one comes when the second has left.
overlap_test :
    overlap {A = ℕ} 2 (1 ∷ 0 ∷ 1 ∷ 1 ∷ []) ((1 ∷ 2 ∷ []) ∷ (3 ∷ []) ∷ (4 ∷ []) ∷ [])
    ≡ 3 ∷ 1 ∷ 4 ∷ 2 ∷ []
unfolding overlap take_turn
overlap_test = refl

abbrev inputs : List (ℕ × ℤ) → List Input
inputs [] = []
inputs (u ∷ us) = received u ∷ tick ∷ inputs us

batch_updater_example :
    Outcome
      (λ _ v.
        statuses v.articles
        ≡ apply_updates ((3, downloaded) ∷ (1, downloaded) ∷ []) (statuses four.articles))
      (λ _. ⊥)
      (batch_updater calm [] (inputs ((3, downloaded) ∷ (1, downloaded) ∷ [])) four)
unfolding drain usenet_dl.Db.Articles.first_update
batch_updater_example =
    batch_updater-apply_updates calm (inputs ((3, downloaded) ∷ (1, downloaded) ∷ [])) four
      (λ n. refl) tt (refl, (refl, tt))

abbrev no_files : Outside
no_files = record {
  exists = λ f. false;
  password_file = none;
  try_empty_password = false;
  extract_archive = λ passwords f. ok ([], "");
  error_text = λ e. "";
  is_first_rar_volume = λ f. false;
  parse_par2_file_entries = λ f. ok [];
  compute_16k_md5 = λ f. none;
  rename_on_disk = λ a b. false;
}

-- The last article has failed.
abbrev last_reading : Reading
last_reading = record {
  is_cancelled = false;
  failed_articles = 1;
  download_complete = true;
  outside = no_files;
}

abbrev half : ℕ → ℕ → Bool
half failures all = ltb all (2 * failures)

abbrev text : ℕ → ℕ → Option String → String
text failures all first = "failed"

run_download_task_example :
    Outcome
      (λ e v. (e ≡ ended) × IsGone 3 1 four v)
      (λ _. ⊥)
      (run_download_task stormy two_servers texts provider
        (λ id. none)
        (λ fs. none)
        "no files"
        inputs
        (1 ∷ [])
        half
        text
        (coordinate stormy two_servers.direct_rename true (last_reading ∷ []))
        3
        four)
run_download_task_example =
    run_download_task-run-IsGone stormy two_servers texts provider (λ id. none) (λ fs. none)
      "no files" inputs (1 ∷ []) half text true [] last_reading 3 1 four connected refl
