-- ===== src/Db/Tables.antt =====
-- src/db/migrations.rs: the tables and the indexes as the statements declare them.
use usenet_dl.Base.{[], ◌∷◌}
use usenet_dl.Db.Schema.{Table, Index, asc, desc}

abbrev pub schema_version : Table
schema_version = record {
  name = "schema_version";
  columns = ("version", "INTEGER PRIMARY KEY") ∷ ("applied_at", "INTEGER NOT NULL") ∷ [];
  constraints = [];
}

abbrev pub downloads : Table
downloads = record {
  name = "downloads";
  columns =
      ("id", "INTEGER PRIMARY KEY AUTOINCREMENT")
      ∷ ("name", "TEXT NOT NULL")
      ∷ ("nzb_path", "TEXT NOT NULL")
      ∷ ("nzb_meta_name", "TEXT")
      ∷ ("nzb_hash", "TEXT")
      ∷ ("job_name", "TEXT")
      ∷ ("category", "TEXT")
      ∷ ("destination", "TEXT NOT NULL")
      ∷ ("post_process", "INTEGER NOT NULL")
      ∷ ("priority", "INTEGER NOT NULL DEFAULT 0")
      ∷ ("status", "INTEGER NOT NULL DEFAULT 0")
      ∷ ("progress", "REAL DEFAULT 0.0")
      ∷ ("speed_bps", "INTEGER DEFAULT 0")
      ∷ ("size_bytes", "INTEGER DEFAULT 0")
      ∷ ("downloaded_bytes", "INTEGER DEFAULT 0")
      ∷ ("error_message", "TEXT")
      ∷ ("created_at", "INTEGER NOT NULL")
      ∷ ("started_at", "INTEGER")
      ∷ ("completed_at", "INTEGER")
      ∷ [];
  constraints = [];
}

abbrev pub download_articles : Table
download_articles = record {
  name = "download_articles";
  columns =
      ("id", "INTEGER PRIMARY KEY AUTOINCREMENT")
      ∷ ("download_id", "INTEGER NOT NULL REFERENCES downloads(id) ON DELETE CASCADE")
      ∷ ("message_id", "TEXT NOT NULL")
      ∷ ("segment_number", "INTEGER NOT NULL")
      ∷ ("size_bytes", "INTEGER NOT NULL")
      ∷ ("status", "INTEGER NOT NULL DEFAULT 0")
      ∷ ("downloaded_at", "INTEGER")
      ∷ [];
  constraints = "UNIQUE(download_id, message_id)" ∷ [];
}

abbrev pub passwords : Table
passwords = record {
  name = "passwords";
  columns =
      ("download_id", "INTEGER PRIMARY KEY REFERENCES downloads(id) ON DELETE CASCADE")
      ∷ ("correct_password", "TEXT NOT NULL")
      ∷ [];
  constraints = [];
}

abbrev pub processed_nzbs : Table
processed_nzbs = record {
  name = "processed_nzbs";
  columns = ("path", "TEXT PRIMARY KEY") ∷ ("processed_at", "INTEGER NOT NULL") ∷ [];
  constraints = [];
}

abbrev pub history : Table
history = record {
  name = "history";
  columns =
      ("id", "INTEGER PRIMARY KEY AUTOINCREMENT")
      ∷ ("name", "TEXT NOT NULL")
      ∷ ("category", "TEXT")
      ∷ ("destination", "TEXT")
      ∷ ("status", "INTEGER NOT NULL")
      ∷ ("size_bytes", "INTEGER")
      ∷ ("download_time_secs", "INTEGER")
      ∷ ("completed_at", "INTEGER NOT NULL")
      ∷ [];
  constraints = [];
}

abbrev pub runtime_state : Table
runtime_state = record {
  name = "runtime_state";
  columns =
      ("key", "TEXT PRIMARY KEY")
      ∷ ("value", "TEXT NOT NULL")
      ∷ ("updated_at", "INTEGER NOT NULL")
      ∷ [];
  constraints = [];
}

abbrev pub rss_feeds : Table
rss_feeds = record {
  name = "rss_feeds";
  columns =
      ("id", "INTEGER PRIMARY KEY AUTOINCREMENT")
      ∷ ("name", "TEXT NOT NULL")
      ∷ ("url", "TEXT NOT NULL")
      ∷ ("check_interval_secs", "INTEGER NOT NULL DEFAULT 900")
      ∷ ("category", "TEXT")
      ∷ ("auto_download", "INTEGER NOT NULL DEFAULT 1")
      ∷ ("priority", "INTEGER NOT NULL DEFAULT 0")
      ∷ ("enabled", "INTEGER NOT NULL DEFAULT 1")
      ∷ ("last_check", "INTEGER")
      ∷ ("last_error", "TEXT")
      ∷ ("created_at", "INTEGER NOT NULL")
      ∷ [];
  constraints = [];
}

abbrev pub rss_filters : Table
rss_filters = record {
  name = "rss_filters";
  columns =
      ("id", "INTEGER PRIMARY KEY AUTOINCREMENT")
      ∷ ("feed_id", "INTEGER NOT NULL REFERENCES rss_feeds(id) ON DELETE CASCADE")
      ∷ ("name", "TEXT NOT NULL")
      ∷ ("include_patterns", "TEXT")
      ∷ ("exclude_patterns", "TEXT")
      ∷ ("min_size", "INTEGER")
      ∷ ("max_size", "INTEGER")
      ∷ ("max_age_secs", "INTEGER")
      ∷ [];
  constraints = [];
}

abbrev pub rss_seen : Table
rss_seen = record {
  name = "rss_seen";
  columns =
      ("feed_id", "INTEGER NOT NULL REFERENCES rss_feeds(id) ON DELETE CASCADE")
      ∷ ("guid", "TEXT NOT NULL")
      ∷ ("seen_at", "INTEGER NOT NULL")
      ∷ [];
  constraints = "PRIMARY KEY (feed_id, guid)" ∷ [];
}

abbrev pub download_files : Table
download_files = record {
  name = "download_files";
  columns =
      ("id", "INTEGER PRIMARY KEY AUTOINCREMENT")
      ∷ ("download_id", "INTEGER NOT NULL REFERENCES downloads(id) ON DELETE CASCADE")
      ∷ ("file_index", "INTEGER NOT NULL")
      ∷ ("filename", "TEXT NOT NULL")
      ∷ ("subject", "TEXT")
      ∷ ("total_segments", "INTEGER NOT NULL")
      ∷ [];
  constraints = "UNIQUE(download_id, file_index)" ∷ [];
}

abbrev pub idx_downloads_status : Index
idx_downloads_status = record {
  name = "idx_downloads_status";
  table = "downloads";
  columns = ("status", asc) ∷ [];
}

abbrev pub idx_downloads_priority : Index
idx_downloads_priority = record {
  name = "idx_downloads_priority";
  table = "downloads";
  columns = ("priority", desc) ∷ ("created_at", asc) ∷ [];
}

abbrev pub idx_downloads_nzb_hash : Index
idx_downloads_nzb_hash = record {
  name = "idx_downloads_nzb_hash";
  table = "downloads";
  columns = ("nzb_hash", asc) ∷ [];
}

abbrev pub idx_downloads_job_name : Index
idx_downloads_job_name = record {
  name = "idx_downloads_job_name";
  table = "downloads";
  columns = ("job_name", asc) ∷ [];
}

abbrev pub idx_articles_download : Index
idx_articles_download = record {
  name = "idx_articles_download";
  table = "download_articles";
  columns = ("download_id", asc) ∷ [];
}

abbrev pub idx_articles_status : Index
idx_articles_status = record {
  name = "idx_articles_status";
  table = "download_articles";
  columns = ("download_id", asc) ∷ ("status", asc) ∷ [];
}

abbrev pub idx_history_completed : Index
idx_history_completed = record {
  name = "idx_history_completed";
  table = "history";
  columns = ("completed_at", desc) ∷ [];
}

abbrev pub idx_download_files_download : Index
idx_download_files_download = record {
  name = "idx_download_files_download";
  table = "download_files";
  columns = ("download_id", asc) ∷ [];
}

abbrev pub idx_download_files_completed : Index
idx_download_files_completed = record {
  name = "idx_download_files_completed";
  table = "download_files";
  columns = ("download_id", asc) ∷ ("completed", asc) ∷ [];
}

abbrev pub idx_download_files_paused : Index
idx_download_files_paused = record {
  name = "idx_download_files_paused";
  table = "download_files";
  columns = ("download_id", asc) ∷ ("paused", asc) ∷ [];
}
