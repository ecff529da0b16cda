-- ===== src/Examples/Processing.antt =====
-- The queue processor, the post-processing and the direct unpacking at concrete inputs.
use usenet_dl.Base.{◌≡◌, refl, inl, true, false, none, some, arith, [], ◌∷◌, ◌==◌}
use usenet_dl.Types.{DownloadId, Status, PostProcess, paused, downloading, complete, failed}
use usenet_dl.World.{Error, ok, err, pure, ◌>>=◌}
use usenet_dl.World.Hoare.{Outcome}
use usenet_dl.Control.{pause}
use usenet_dl.Control.Invariant.{status_of}
use usenet_dl.Task.Run.{fetch_download_record}
use usenet_dl.Processor.{Processor, initial, take_next, start_held}
use usenet_dl.Processor.Drains.{passes, HasStarted, passes-HasStarted}
use usenet_dl.Processor.Held.{start_held-pause}
use usenet_dl.PostProcessing.{Tools, start_post_processing}
use usenet_dl.PostProcessing.Stages.{plan, run_stages, start_post_processing-plan}
use usenet_dl.PostProcessing.Start.{start_download_post_processing}
use usenet_dl.PostProcessing.Start.Verdict.{start_download_post_processing-Became}
use usenet_dl.DirectUnpack.{
  Outside, Coordinator, Reading, start_state, passes as unpack_passes, is_volume_not_ready_error,
}
use usenet_dl.DirectUnpack.Waits.{GoesOn, passes-GoesOn}
use usenet_dl.Examples.Worlds.{calm, four, item_2}

-- The item of download 2 is taken, and its task started.
abbrev one_started : Processor
one_started = start_held (take_next (initial 1 four))

drained_example : HasStarted 1 (initial 2 four) (passes 1 (initial 2 four))
drained_example = passes-HasStarted 1 (initial 2 four) refl (omega arith) (omega arith)

abbrev holding : Processor
holding = record { world = four; held = some item_2; free = 1; running = []; next_token = 71 }

held_example :
    let w = (pause calm 2 four).1 in
    let q = start_held (record holding { world = w }) in
    (status_of 2 w ≡ some paused)
    × (q.running ≡ (2, 71) ∷ [])
    × Outcome
        (λ _ v. status_of 2 v ≡ some downloading)
        (λ _. ⊥)
        (fetch_download_record calm 2 q.world)
unfolding usenet_dl.Types.status_from_i32
held_example = start_held-pause calm holding item_2 0 (λ n. refl) refl refl refl

-- A damaged download whose repair succeeds, and whose archive cannot be extracted.
abbrev tools : Tools
tools = record {
  db = calm;
  password_file = some ("pw" ∷ []);
  try_empty_password = true;
  read_dir = λ path. ok (("a.vol0+1.par2", true) ∷ ("a.par2", true) ∷ ("a.rar", true) ∷ []);
  verify = λ f. ok (record {
    is_complete = false;
    damaged_blocks = 2;
    recovery_blocks_available = 5;
    repairable = true;
  });
  repair = λ f. ok (record { success = true; error = "" });
  detect_all_archives = λ path. ok ("a.rar" ∷ []);
  create_dir_all = λ path. ok tt;
  extract_recursive = λ passwords archive dest. record {
    result = err (Error.other "corrupt");
    written = "a.txt" ∷ [];
    opened_by = "pw" ∷ [];
  };
  is_dir = λ path. true;
  move_files = λ extracted source destination. ok destination;
  unsupported_text = λ e. e;
}

plan_example :
    start_post_processing tools 4 "/t" PostProcess.unpack_and_cleanup "/d" four
    ≡ (run_stages tools 4 "/t" "/d"
            (plan PostProcess.unpack_and_cleanup)
            (record { path = "/t"; damaged = false })
          >>= λ p. pure p.path)
        four
plan_example = start_post_processing-plan tools 4 "/t" "/d" PostProcess.unpack_and_cleanup four

became_example :
    Outcome
      (λ _ v.
        (status_of 1 v ≡ some complete)
        × ((j : DownloadId) → (j == 1) ≡ false → status_of j v ≡ status_of j four))
      (λ v.
        (status_of 1 v ≡ some failed)
        × ((j : DownloadId) → (j == 1) ≡ false → status_of j v ≡ status_of j four))
      (start_download_post_processing calm tools (λ id. "/t") (λ e. "error") 1 four)
unfolding usenet_dl.Types.status_from_i32
became_example =
    start_download_post_processing-Became calm tools (λ id. "/t") (λ e. "error") 1 paused four
      (λ n. refl) refl

-- The second volume of the archive is never found.
abbrev stuck : Outside
stuck = record {
  exists = λ f. true;
  password_file = none;
  try_empty_password = true;
  extract_archive = λ passwords f. err (Error.other "cannot find volume a.part2.rar");
  error_text = λ e. "cannot find volume a.part2.rar";
  is_first_rar_volume = λ f. true;
  parse_par2_file_entries = λ f. ok [];
  compute_16k_md5 = λ f. none;
  rename_on_disk = λ a b. true;
}

abbrev idle : Reading
idle = record {
  is_cancelled = false;
  failed_articles = 0;
  download_complete = true;
  outside = stuck;
}

abbrev waiting : Coordinator
waiting = record start_state { pending_first_volumes = "a.part1.rar" ∷ [] }

waits_example :
    Outcome
      (λ next _. GoesOn "a.part1.rar" next)
      (λ _. ⊥)
      (unpack_passes calm 4 false (idle ∷ idle ∷ []) waiting four)
unfolding is_volume_not_ready_error
waits_example =
    passes-GoesOn calm 4 false "a.part1.rar" (idle ∷ idle ∷ []) waiting
      (
        (
          refl,
          refl,
          (refl, λ passwords. (Error.other "cannot find volume a.part2.rar", refl, refl)),
        ),
        (
          (
            refl,
            refl,
            (refl, λ passwords. (Error.other "cannot find volume a.part2.rar", refl, refl)),
          ),
          tt,
        ),
      )
      (inl refl) four
