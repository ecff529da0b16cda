-- ===== src/Examples/Worlds.antt =====
-- A small state: download 1 is paused, 2 is queued with an item, 3 is running, 4 was interrupted.
use usenet_dl.Base.{ℕ, true, false, none, [], ◌∷◌, ◌==◌}
use usenet_dl.Base.Int.{ℤ, pos, negsuc}
use usenet_dl.Types.{DownloadId, high}
use usenet_dl.World.{Download, QueuedDownload, Article, World, Env}

-- A database that always answers.
abbrev pub calm : Env
calm = record { outage = λ n. false; now = λ n. n; stuck_dir = λ id. false }

-- One whose second statement fails.
abbrev pub stormy : Env
stormy = record { outage = λ n. n == 1; now = λ n. n; stuck_dir = λ id. false }

abbrev pub row : DownloadId → ℤ → ℤ → ℕ → Download
row id status priority created_at = record {
  id = id;
  name = "a";
  nzb_path = "a.nzb";
  nzb_meta_name = none;
  nzb_hash = none;
  job_name = none;
  category = none;
  destination = "/d";
  post_process = pos 4;
  priority = priority;
  status = status;
  size_bytes = 10;
  error_message = none;
  created_at = created_at;
  started_at = none;
  completed_at = none;
  direct_unpack_state = pos 0;
  direct_unpack_extracted_count = pos 0;
}

abbrev pub article : ℕ → DownloadId → ℤ → Article
article id download_id status = record {
  id = id;
  download_id = download_id;
  message_id = "m";
  segment_number = id;
  file_index = 0;
  size_bytes = 5;
  status = status;
  downloaded_at = none;
}

abbrev pub item_2 : QueuedDownload
item_2 = record { id = 2; priority = high; created_at = 8 }

abbrev pub four : World
four = record {
  downloads =
      row 1 (pos 2) (pos 0) 7
      ∷ row 2 (pos 0) (pos 1) 8
      ∷ row 3 (pos 1) (negsuc 0) 9
      ∷ row 4 (pos 3) (pos 0) 10
      ∷ [];
  articles = article 1 1 (pos 0) ∷ article 2 3 (pos 1) ∷ article 3 4 (pos 0) ∷ [];
  files = [];
  passwords = [];
  clean_shutdown = none;
  queue = item_2 ∷ [];
  active = (3, 70) ∷ [];
  accepting_new = true;
  cancelled = [];
  temp_dirs = 2 ∷ 3 ∷ [];
  extracted = [];
  events = [];
  spawned = [];
  last_download_id = 4;
  last_article_id = 3;
  last_file_id = 0;
  calls = 0;
}

-- The same at the start of the program.
abbrev pub cold : World
cold = record four { queue = []; active = [] }
