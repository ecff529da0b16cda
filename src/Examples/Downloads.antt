-- ===== src/Examples/Downloads.antt =====
-- The operations on downloads and on the queue, at `four`.
use usenet_dl.Base.{◌≡◌, refl, true, false, none, [], ◌∷◌, ◌++◌, arith}
use usenet_dl.Base.Int.{pos}
use usenet_dl.Types.{
  status_from_i32, priority_from_i32, status_to_i32, priority_to_i32, PostProcess, Event, paused,
  low, high, force,
}
use usenet_dl.Types.Codes.{codes_round_trip}
use usenet_dl.Types.{post_process_from_i32, post_process_to_i32}
use usenet_dl.World.{World, post_processing, re_extraction, ok}
use usenet_dl.Db.Articles.{NewArticle, pending}
use usenet_dl.Db.Files.{is_file_active}
use usenet_dl.Queue.{pop}
use usenet_dl.Queue.Order.{IsPopOf, pop-IsPopOf}
use usenet_dl.Control.{resume, cancel, set_priority, resume_download}
use usenet_dl.Control.Invariant.{QueueIsSound}
use usenet_dl.Control.Commands.{
  resume_one, cancel_one, prioritise, pause_every, resume_every, run_commands,
  run_commands-QueueIsSound,
}
use usenet_dl.Control.Resume.{ResumeOutcome, resume_lem}
use usenet_dl.Control.Cancel.{IsCancelled, cancel_lem}
use usenet_dl.Control.Reprioritise.{IsReprioritised, set_priority_lem}
use usenet_dl.Control.Continue.{ContinueOutcome, resume_download_lem}
use usenet_dl.Control.Restart.{RestartOutcome, reprocess-reextract}
use usenet_dl.Control.Reprocess.{reprocess, reextract}
use usenet_dl.Control.Restore.{restore_queue}
use usenet_dl.Control.Restore.Sound.{restore_queue-QueueIsSound}
use usenet_dl.Examples.Worlds.{calm, stormy, row, item_2, four, cold}

four-QueueIsSound : QueueIsSound four
unfolding status_from_i32
four-QueueIsSound id = ground arith

run_commands_example : QueueIsSound (
    run_commands stormy
      (resume_one 1 ∷ prioritise 2 force ∷ pause_every ∷ resume_every ∷ cancel_one 2 ∷ [])
      four)
run_commands_example = run_commands-QueueIsSound stormy _ four four-QueueIsSound

restore_queue_example : QueueIsSound (restore_queue stormy cold).1
restore_queue_example =
    restore_queue-QueueIsSound stormy cold refl
      ((refl, (refl, (refl, tt))), ((refl, (refl, tt)), ((refl, tt), (tt, tt))))

resume_example : ResumeOutcome 1 2 four (row 1 (pos 2) (pos 0) 7) paused (resume calm 1 four)
unfolding status_from_i32
resume_example = resume_lem calm 1 2 four (row 1 (pos 2) (pos 0) 7) refl refl refl refl

cancel_example : ((cancel calm 2 four).0 ≡ ok tt) × IsCancelled calm 2 3 four (cancel calm 2 four).1
cancel_example = cancel_lem calm 2 3 four (row 2 (pos 0) (pos 1) 8) refl refl refl

set_priority_example :
    ((set_priority calm 2 force four).0 ≡ ok tt)
    × IsReprioritised calm 2 3 force
        (row 2 (pos 0) (pos 1) 8)
        four
        (set_priority calm 2 force four).1
set_priority_example =
    set_priority_lem calm 2 3 force four (row 2 (pos 0) (pos 1) 8) refl refl refl refl

resume_download_example :
    ContinueOutcome 4 four (row 4 (pos 3) (pos 0) 10) false (resume_download calm 4 four)
unfolding is_file_active
resume_download_example =
    resume_download_lem calm 4 four (row 4 (pos 3) (pos 0) 10) refl refl refl refl

reprocess-reextract_example :
    RestartOutcome 2 (Event.verifying 2) (post_processing 2) four true true (reprocess calm 2 four)
    × RestartOutcome 2
        (Event.extracting 2 "")
        (re_extraction 2)
        four
        true
        true
        (reextract calm 2 four)
reprocess-reextract_example = reprocess-reextract calm 2 four refl refl refl

pop_example :
    IsPopOf
      (record { id = 5; priority = low; created_at = 1 } ∷ item_2 ∷ [])
      (pop (record { id = 5; priority = low; created_at = 1 } ∷ item_2 ∷ []))
pop_example = pop-IsPopOf (record { id = 5; priority = low; created_at = 1 } ∷ item_2 ∷ [])

codes_example :
    (status_from_i32 (status_to_i32 paused) ≡ paused)
    × (priority_from_i32 (priority_to_i32 low) ≡ low)
    × (post_process_from_i32 (post_process_to_i32 PostProcess.unpack) ≡ PostProcess.unpack)
    × (true ≡ true)
unfolding priority_to_i32
codes_example = codes_round_trip paused low high PostProcess.unpack

abbrev new_article : NewArticle
new_article = record {
  download_id = 1;
  message_id = "n";
  segment_number = 9;
  file_index = 0;
  size_bytes = 5;
}

abbrev with_new_article : World
with_new_article = record four {
  articles =
      four.articles
      ++ record {
        id = 4;
        download_id = 1;
        message_id = "n";
        segment_number = 9;
        file_index = 0;
        size_bytes = 5;
        status = pending;
        downloaded_at = none;
      }
        ∷ [];
  last_article_id = 4;
}
