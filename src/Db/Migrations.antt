-- ===== src/Db/Migrations.antt =====
-- src/db/migrations.rs: the migrations, each in a transaction, and `run_migrations`. What `Display`
-- adds to the text of an error is left out.
pub mod Versions
pub mod Runs
pub mod Steps
pub mod Upgrade
use usenet_dl.Base.{ℕ, Bool, List, [], ◌∷◌, ltb, max, if◌then◌else◌, inr}
use Prim.Native.String.{String}
use usenet_dl.Db.Schema.{
  Index, Statement, Sql, Connection, create_table, create_table_if_not_exists, create_index,
  add_column, insert_version, insert_state, execute, query, in_transaction, ◌>>=◌, ◌>>◌, Schema,
}
use usenet_dl.Db.Tables.{
  schema_version, downloads, download_articles, passwords, processed_nzbs, history, runtime_state,
  rss_feeds, rss_filters, rss_seen, download_files, idx_downloads_status, idx_downloads_priority,
  idx_downloads_nzb_hash, idx_downloads_job_name, idx_articles_download, idx_articles_status,
  idx_history_completed, idx_download_files_download, idx_download_files_completed,
  idx_download_files_paused,
}

abbrev pub done : Sql (Unit {0})
done c = (inr tt, c)

-- `SELECT MAX(version)`; the NULL of no version is read as 0.
abbrev pub max_version : List ℕ → ℕ
max_version [] = 0
max_version (v ∷ vs) = max v (max_version vs)

module _ (outage : ℕ → Bool) where
  abbrev pub index : String → Index → Sql (Unit {0})
  index message i = execute outage message (create_index i)

  abbrev pub column : String → String → String × String → Sql (Unit {0})
  column message table c = execute outage message (add_column table c)

  unfoldable pub create_downloads_schema : Sql (Unit {0})
  create_downloads_schema = do
    execute outage "Failed to create downloads table" (create_table downloads)
    index "Failed to create index" idx_downloads_status
    index "Failed to create index" idx_downloads_priority
    index "Failed to create index" idx_downloads_nzb_hash
    index "Failed to create index" idx_downloads_job_name

  unfoldable pub create_articles_schema : Sql (Unit {0})
  create_articles_schema = do
    execute outage "Failed to create download_articles table" (create_table download_articles)
    index "Failed to create index" idx_articles_download
    index "Failed to create index" idx_articles_status

  unfoldable pub create_passwords_table : Sql (Unit {0})
  create_passwords_table =
      execute outage "Failed to create passwords table" (create_table passwords)

  unfoldable pub create_processed_nzbs_table : Sql (Unit {0})
  create_processed_nzbs_table =
      execute outage "Failed to create processed_nzbs table" (create_table processed_nzbs)

  unfoldable pub create_history_schema : Sql (Unit {0})
  create_history_schema = do
    execute outage "Failed to create history table" (create_table history)
    index "Failed to create index" idx_history_completed

  unfoldable pub record_migration : ℕ → Sql (Unit {0})
  record_migration version = execute outage "Failed to record migration" (insert_version version)

  unfoldable pub migrate_v1 : Sql (Unit {0})
  migrate_v1 = in_transaction outage "Failed to commit migration v1" (do
    create_downloads_schema
    create_articles_schema
    create_passwords_table
    create_processed_nzbs_table
    create_history_schema
    record_migration 1)

  unfoldable pub migrate_v2 : Sql (Unit {0})
  migrate_v2 = in_transaction outage "Failed to commit migration v2" (do
    execute outage "Failed to create runtime_state table" (create_table_if_not_exists runtime_state)
    execute outage "Failed to initialize runtime_state" (insert_state "clean_shutdown" "false")
    record_migration 2)

  unfoldable pub migrate_v3 : Sql (Unit {0})
  migrate_v3 = in_transaction outage "Failed to commit migration v3" (do
    execute outage "Failed to create rss_feeds table" (create_table_if_not_exists rss_feeds)
    execute outage "Failed to create rss_filters table" (create_table_if_not_exists rss_filters)
    execute outage "Failed to create rss_seen table" (create_table_if_not_exists rss_seen)
    record_migration 3)

  unfoldable pub migrate_v4 : Sql (Unit {0})
  migrate_v4 = in_transaction outage "Failed to commit migration v4" (do
    execute outage "Failed to create download_files table" (create_table download_files)
    index "Failed to create index" idx_download_files_download
    column "Failed to add file_index column" "download_articles"
        ("file_index", "INTEGER NOT NULL DEFAULT 0")
    record_migration 4)

  unfoldable pub migrate_v5 : Sql (Unit {0})
  migrate_v5 = in_transaction outage "Failed to commit migration v5" (do
    column "Failed to add direct_unpack_state column" "downloads"
        ("direct_unpack_state", "INTEGER NOT NULL DEFAULT 0")
    column "Failed to add completed column" "download_files"
        ("completed", "INTEGER NOT NULL DEFAULT 0")
    column "Failed to add original_filename column" "download_files" ("original_filename", "TEXT")
    index "Failed to create index" idx_download_files_completed
    record_migration 5)

  unfoldable pub migrate_v6 : Sql (Unit {0})
  migrate_v6 = in_transaction outage "Failed to commit migration v6" (do
    column "Failed to add direct_unpack_extracted_count column" "downloads"
        ("direct_unpack_extracted_count", "INTEGER NOT NULL DEFAULT 0")
    record_migration 6)

  unfoldable pub migrate_v7 : Sql (Unit {0})
  migrate_v7 = in_transaction outage "Failed to commit migration v7" (do
    column "Failed to add paused column" "download_files" ("paused", "INTEGER NOT NULL DEFAULT 0")
    index "Failed to create paused index" idx_download_files_paused
    record_migration 7)

  abbrev pub below : ℕ → ℕ → Sql (Unit {0}) → Sql (Unit {0})
  below current_version n migrate = if ltb current_version n then migrate else done

  unfoldable pub apply_migrations : ℕ → Sql (Unit {0})
  apply_migrations current_version = do
    below current_version 1 migrate_v1
    below current_version 2 migrate_v2
    below current_version 3 migrate_v3
    below current_version 4 migrate_v4
    below current_version 5 migrate_v5
    below current_version 6 migrate_v6
    below current_version 7 migrate_v7

  unfoldable pub run_migrations : Sql (Unit {0})
  run_migrations = do
    execute outage "Failed to create schema_version table"
        (create_table_if_not_exists schema_version)
    current_version ← query outage "Failed to query schema version" (λ s. max_version s.versions)
    apply_migrations current_version
