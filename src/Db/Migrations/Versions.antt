-- ===== src/Db/Migrations/Versions.antt =====
-- The schema of each version, as a table of its tables, its indexes and their columns.
use usenet_dl.Base.{ℕ, zero, suc, List, [], ◌∷◌, ◌++◌}
use Prim.Native.String.{String}
use usenet_dl.Db.Schema.{Table, Index, Schema}
use usenet_dl.Db.Tables.{
  schema_version, downloads, download_articles, passwords, processed_nzbs, history, runtime_state,
  rss_feeds, rss_filters, rss_seen, download_files, idx_downloads_status, idx_downloads_priority,
  idx_downloads_nzb_hash, idx_downloads_job_name, idx_articles_download, idx_articles_status,
  idx_history_completed, idx_download_files_download, idx_download_files_completed,
  idx_download_files_paused,
}

-- A table that has got more columns.
abbrev with : Table → List (String × String) → Table
with t columns = record t { columns = t.columns ++ columns }

abbrev flag : String → String × String
flag name = (name, "INTEGER NOT NULL DEFAULT 0")

-- `downloads` and `download_articles` have these columns, and these tables follow the first six.
abbrev first_tables : List (String × String) → List (String × String) → List Table → List Table
first_tables of_downloads of_articles later =
    schema_version
    ∷ with downloads of_downloads
    ∷ with download_articles of_articles
    ∷ passwords
    ∷ processed_nzbs
    ∷ history
    ∷ later

abbrev first_indexes : List Index → List Index
first_indexes later =
    idx_downloads_status ∷ idx_downloads_priority ∷ idx_downloads_nzb_hash ∷ idx_downloads_job_name
    ∷ idx_articles_download ∷ idx_articles_status ∷ idx_history_completed ∷ later

abbrev with_rss : List Table → List Table
with_rss later = runtime_state ∷ rss_feeds ∷ rss_filters ∷ rss_seen ∷ later

abbrev file_index : List (String × String)
file_index = flag "file_index" ∷ []

abbrev of_files_5 : List (String × String)
of_files_5 = flag "completed" ∷ ("original_filename", "TEXT") ∷ []

-- The database at a version, 0 before the first migration; `rows` are those of runtime_state, a table
-- of version 2.
abbrev pub database : ℕ → List (String × String) → Schema
database zero rows = record {
  tables = schema_version ∷ [];
  indexes = [];
  versions = [];
  runtime_state = [];
}
database (suc zero) rows = record {
  tables = first_tables [] [] [];
  indexes = first_indexes [];
  versions = 1 ∷ [];
  runtime_state = [];
}
database (suc (suc zero)) rows = record {
  tables = first_tables [] [] (runtime_state ∷ []);
  indexes = first_indexes [];
  versions = 1 ∷ 2 ∷ [];
  runtime_state = rows;
}
database (suc (suc (suc zero))) rows = record {
  tables = first_tables [] [] (with_rss []);
  indexes = first_indexes [];
  versions = 1 ∷ 2 ∷ 3 ∷ [];
  runtime_state = rows;
}
database (suc (suc (suc (suc zero)))) rows = record {
  tables = first_tables [] file_index (with_rss (download_files ∷ []));
  indexes = first_indexes (idx_download_files_download ∷ []);
  versions = 1 ∷ 2 ∷ 3 ∷ 4 ∷ [];
  runtime_state = rows;
}
database (suc (suc (suc (suc (suc zero))))) rows = record {
  tables =
      first_tables (flag "direct_unpack_state" ∷ []) file_index
        (with_rss (with download_files of_files_5 ∷ []));
  indexes = first_indexes (idx_download_files_download ∷ idx_download_files_completed ∷ []);
  versions = 1 ∷ 2 ∷ 3 ∷ 4 ∷ 5 ∷ [];
  runtime_state = rows;
}
database (suc (suc (suc (suc (suc (suc zero)))))) rows = record {
  tables =
      first_tables (flag "direct_unpack_state" ∷ flag "direct_unpack_extracted_count" ∷ [])
        file_index (with_rss (with download_files of_files_5 ∷ []));
  indexes = first_indexes (idx_download_files_download ∷ idx_download_files_completed ∷ []);
  versions = 1 ∷ 2 ∷ 3 ∷ 4 ∷ 5 ∷ 6 ∷ [];
  runtime_state = rows;
}
database (suc (suc (suc (suc (suc (suc (suc n))))))) rows = record {
  tables =
      first_tables (flag "direct_unpack_state" ∷ flag "direct_unpack_extracted_count" ∷ [])
        file_index (with_rss (with download_files (of_files_5 ++ flag "paused" ∷ []) ∷ []));
  indexes =
      first_indexes (
        idx_download_files_download ∷ idx_download_files_completed ∷ idx_download_files_paused
        ∷ []);
  versions = 1 ∷ 2 ∷ 3 ∷ 4 ∷ 5 ∷ 6 ∷ 7 ∷ [];
  runtime_state = rows;
}
