-- ===== src/Examples/Intake.antt =====
-- The intake and the shutdown at concrete inputs.
use usenet_dl.Base.{ap, ◌≡◌, refl, true, false, none, some, [], ◌∷◌, arith, ◌*◌}
use usenet_dl.Types.{status_from_i32, DownloadId, PostProcess, normal, nzb_hash}
use usenet_dl.World.{World, ok, err, query_failed, shutting_down}
use usenet_dl.World.Hoare.{Outcome}
use usenet_dl.Control.Invariant.{QueueIsSound, status_of}
use usenet_dl.Intake.{
  parse_and_validate_nzb, parse_text, check_disk_space, check_space_at, handle_duplicate_check,
  on_duplicate, check_duplicate, check_path, compare_space, required_with_buffer, Reader, Volume,
  Settings, block, DownloadOptions, Nzb, NzbFile,
}
use usenet_dl.Intake.Adding.{check_accepting, add_nzb_content, check_nzb}
use usenet_dl.Intake.Adding.Sound.{IsKept, IsQueued}
use usenet_dl.Intake.Adding.Added.{add_nzb_content-QueueIsSound}
use usenet_dl.Intake.Adding.Twice.{Blocked, add_nzb_content-duplicate}
use usenet_dl.Intake.Adding.Orphan.{add_nzb_content-orphan}
use usenet_dl.Lifecycle.{is_active, shutdown, persist_all_state}
use usenet_dl.Lifecycle.Persist.{after, persist_all_state-after}
use usenet_dl.Lifecycle.Shutdown.{shutdown-add_nzb_content}
use usenet_dl.Examples.Worlds.{calm, stormy, four}

abbrev film : NzbFile
film = record {
  subject = "[1/1] \"film.rar\" yEnc (1/2)";
  segments =
      record { message_id = "a@b"; number = 1; bytes = 700 }
      ∷ record { message_id = "c@d"; number = 2; bytes = 300 }
      ∷ [];
}

abbrev nzb : Nzb
nzb = record { title = some "Film"; password = some "secret"; files = film ∷ [] }

-- Every content is taken for this NZB.
abbrev reader : Reader
reader = record {
  from_utf8 = λ content. some "<nzb/>";
  parse_nzb = λ text. some nzb;
  validate = λ n. true;
  total_bytes = λ n. 1000;
  sha256 = λ content. "ff";
  hashed_name = λ subject. "file_1";
}

abbrev volume : Volume
volume = record {
  exists = λ path. true;
  parent = λ path. none;
  get_available_space = λ path. some 5000;
}

abbrev settings : Settings
settings = record {
  duplicate_enabled = true;
  duplicate_action = block;
  duplicate_methods = nzb_hash ∷ [];
  disk_space_enabled = true;
  scaled = λ n. 2 * n;
  min_free_space = 1000;
  download_dir = "/d";
  default_post_process = PostProcess.unpack;
  categories = [];
}

abbrev options : DownloadOptions
options = record {
  category = none;
  destination = none;
  post_process = none;
  priority = normal;
  password = none;
}

four-QueueIsSound : QueueIsSound four
unfolding status_from_i32
four-QueueIsSound j = ground arith

sound_example :
    Outcome
      (λ new v. (new ≡ 5) × IsKept four v × IsQueued 1 5 v)
      (IsKept four)
      (add_nzb_content calm reader volume settings (1 ∷ []) "film" options four)
sound_example =
    add_nzb_content-QueueIsSound calm reader volume settings (1 ∷ []) "film" options four
      four-QueueIsSound (omega arith)

-- Without the check for duplicates.
abbrev trusting : Settings
trusting = record settings { duplicate_enabled = false }

four-passes : check_nzb stormy reader volume trusting (1 ∷ []) "film" four ≡ (ok nzb, four)
unfolding check_nzb check_accepting parse_and_validate_nzb parse_text check_disk_space
    check_space_at handle_duplicate_check on_duplicate check_duplicate check_path compare_space
    required_with_buffer
four-passes = refl

orphan_example :
    let (r, t) = add_nzb_content stormy reader volume trusting (1 ∷ []) "film" options four in
    (r ≡ err query_failed) × IsQueued 0 5 t
orphan_example =
    add_nzb_content-orphan stormy reader volume trusting (1 ∷ []) "film" options nzb film [] four
      four four-passes refl four-QueueIsSound (omega arith) refl refl

persisted_example :
    Outcome
      (λ _ v.
        (v.active ≡ four.active)
        × ((j : DownloadId) → status_of j v ≡ after (is_active j four) (status_of j four)))
      (λ _. ⊥)
      (persist_all_state calm four)
persisted_example = persist_all_state-after calm (λ n. refl) four (ground arith)

refused_example :
    let (r, v) = shutdown calm (λ w. w) four in
    (r ≡ ok tt)
    × (add_nzb_content calm reader volume settings (1 ∷ []) "film" options v
        ≡ (err shutting_down, v))
refused_example =
    shutdown-add_nzb_content calm (λ w. w) reader volume settings (1 ∷ []) "film" options four
      (λ v. refl)

-- The state once the film is added.
abbrev with_film : World
with_film = (add_nzb_content calm reader volume settings (1 ∷ []) "film" options four).1

film_added : (add_nzb_content calm reader volume settings (1 ∷ []) "film" options four).0 ≡ ok 5
unfolding add_nzb_content check_nzb check_accepting parse_and_validate_nzb parse_text
    check_disk_space check_space_at check_path compare_space required_with_buffer
    handle_duplicate_check check_duplicate usenet_dl.Intake.check_methods
    usenet_dl.Intake.find_existing usenet_dl.Db.Duplicates.find_by_nzb_hash usenet_dl.World.query
    on_duplicate usenet_dl.Intake.Adding.store_nzb usenet_dl.Base.chunks
    usenet_dl.Db.Articles.insert_article_row usenet_dl.Db.Articles.insert_article_rows
    usenet_dl.Db.Articles.insert_articles_batch usenet_dl.Db.Articles.insert_chunks
    usenet_dl.Db.Articles.insert_statement usenet_dl.Db.Articles.violates
    usenet_dl.Db.Downloads.get_download usenet_dl.Db.Downloads.insert_download
    usenet_dl.Db.Files.insert_file_chunks usenet_dl.Db.Files.insert_file_row
    usenet_dl.Db.Files.insert_file_rows usenet_dl.Db.Files.insert_file_statement
    usenet_dl.Db.Files.insert_files_batch usenet_dl.Db.Passwords.set_correct_password
    usenet_dl.Db.Passwords.upsert_password usenet_dl.Intake.Adding.article_rows
    usenet_dl.Intake.Adding.cache_password usenet_dl.Intake.Adding.create_download_record
    usenet_dl.Intake.Adding.file_rows usenet_dl.Intake.Adding.finalize_nzb_addition
    usenet_dl.Intake.Adding.insert_articles_and_password usenet_dl.Intake.Adding.insert_each_chunk
    usenet_dl.Intake.category_config usenet_dl.Intake.resolve_destination_and_post_process
    usenet_dl.Intake.resolve_in usenet_dl.Queue.add_to_queue usenet_dl.Types.post_process_to_i32
    usenet_dl.Types.priority_from_i32 usenet_dl.Types.priority_to_i32 usenet_dl.Types.status_to_i32
    usenet_dl.World.emit_event
film_added = refl

second_try_example :
    Blocked calm reader volume settings
      (1 ∷ [])
      (λ n. refl)
      []
      refl
      refl
      refl
      "other"
      with_film
      (add_nzb_content calm reader volume settings (1 ∷ []) "other" options with_film)
second_try_example =
    add_nzb_content-duplicate calm reader volume settings (1 ∷ []) (λ n. refl) [] refl refl refl
      "film" "other" options options four with_film 5 (ap (λ r. (r, with_film)) film_added)
