-- ===== src/DirectUnpack/Ends.antt =====
-- The coordinator comes to its end, and with it the task of a download.
use usenet_dl.Base.{
  ◌≡◌, ◌≢◌, refl, subst, inl, inr, Bool-cases, ℕ, Bool, true, false, ◌||◌, Option, List, [], ◌∷◌,
  ◌++◌, ltb,
}
use usenet_dl.Base.Int.{ℤ}
use Prim.Native.String.{String}
use usenet_dl.Types.{DownloadId}
use usenet_dl.World.{World, Env, M, DownloadFile, emit_event}
use usenet_dl.World.Hoare.{Outcome, Ensures, >>=-Ensures, catch-Ensures}
use usenet_dl.Db.Files.{update_direct_unpack_state}
use usenet_dl.Task.Batches.{Config, sum_connections}
use usenet_dl.DirectUnpack.Keep.{set_db_state-Keeps, pass-Keeps}
use usenet_dl.Task.Fetch.{Provider, Texts}
use usenet_dl.Task.Updater.{Input}
use usenet_dl.Task.Run.{run_download_task, ended}
use usenet_dl.Task.Run.Retires.{Same, Ends, IsGone, update_row-Keeps, run_download_task-IsGone}
use usenet_dl.DirectUnpack.{
  set_db_state, Coordinator, Reading, Next, go_on, finished, stop_cancelled, pass, passes, pass_on,
  begin, run, ending, coordinate, start_state, cancelled, active,
}

-- The coordinator stops at this reading.
abbrev pub stops : Reading → Bool
stops r = r.is_cancelled || ltb 0 r.failed_articles

module _ (env : Env) (id : DownloadId) (direct_rename : Bool) where
  -- The coordinator has stopped.
  abbrev Stopped : World → Next → World → Type 0
  Stopped w next v = (ending next ≡ ended) × Same w v

  stop_cancelled-Stopped :
      (reason : String) (c : Coordinator) (w : World)
      → Ensures (Same w) (stop_cancelled env id direct_rename reason c) (Stopped w) (Same w)
  unfolding stop_cancelled emit_event
  stop_cancelled-Stopped reason c w =
      >>=-Ensures (λ _. Same w) (Stopped w) (Same w) (Same w) (set_db_state env id cancelled) _
        (set_db_state-Keeps env id cancelled w) (λ _ v h. (refl, h))

  -- A pass that reads a cancellation or a failed article is the last one.
  pass-Stopped :
      (r : Reading) (c : Coordinator) (w : World)
      → stops r ≡ true
      → Ensures (Same w) (pass env id direct_rename r c) (Stopped w) (Same w)
  unfolding pass
  pass-Stopped r c w h = elim (Bool-cases r.is_cancelled) [
    | inl e ↦ rw e (stop_cancelled-Stopped _ c w)
    | inr e ↦
        rw (e, subst (λ b. b || ltb 0 r.failed_articles ≡ true) e h) (stop_cancelled-Stopped _ c w)
  ]

  pass_on-Stopped :
      (rest : Coordinator → M Next) (next : Next) (w : World)
      → ((c : Coordinator) → Ensures (Same w) (rest c) (Stopped w) (Same w))
      → Ensures (Same w) (pass_on env id direct_rename rest next) (Stopped w) (Same w)
  unfolding pass_on
  pass_on-Stopped rest (go_on c) w k = k c
  pass_on-Stopped rest (finished state c) w k = λ v h. (refl, h)

  pass_on-last :
      (w : World) (next : Next)
      → Ensures
          (Stopped w next)
          (pass_on env id direct_rename (passes env id direct_rename []) next)
          (Stopped w)
          (Same w)
  unfolding pass_on passes
  pass_on-last w (go_on c) v k = k
  pass_on-last w (finished state c) v k = k

  passes-Stopped :
      (readings : List Reading) (last : Reading) (c : Coordinator) (w : World)
      → stops last ≡ true
      → Ensures
          (Same w)
          (passes env id direct_rename (readings ++ last ∷ []) c)
          (Stopped w)
          (Same w)
  unfolding passes
  passes-Stopped [] last c w h =
      >>=-Ensures (Stopped w) (Stopped w) (Same w) (Same w) (pass env id direct_rename last c) _
        (pass-Stopped last c w h) (pass_on-last w)
  passes-Stopped (r ∷ readings) last c w h =
      >>=-Ensures (λ _. Same w) (Stopped w) (Same w) (Same w) (pass env id direct_rename r c) _
        (pass-Keeps env id direct_rename r c w)
        (λ next. pass_on-Stopped _ next w (λ d. passes-Stopped readings last d w h))

  begin-Stopped :
      (dir_created : Bool) (readings : List Reading) (last : Reading) (w : World)
      → stops last ≡ true
      → Ensures
          (Same w)
          (begin env id direct_rename dir_created (readings ++ last ∷ []))
          (Stopped w)
          (Same w)
  unfolding begin emit_event
  begin-Stopped true readings last w h v k = passes-Stopped readings last start_state w h _ k
  begin-Stopped false readings last w h v k = stop_cancelled-Stopped _ start_state w _ k

  coordinate-Ends :
      (dir_created : Bool) (readings : List Reading) (last : Reading)
      → stops last ≡ true
      → Ends (coordinate env direct_rename dir_created (readings ++ last ∷ []) id)
  unfolding coordinate run update_direct_unpack_state
  coordinate-Ends dir_created readings last h w =
      >>=-Ensures (Stopped w) (λ e v. (e ≡ ended) × Same w v) (Same w) (Same w) _ _
        (catch-Ensures (λ _. Same w) (Same w) (Stopped w) (Same w) (Same w) _ _ _
          (update_row-Keeps env id (λ d. record d { direct_unpack_state = active }) w)
          (λ _. begin-Stopped dir_created readings last w h) (λ _ v k. (refl, k)))
        (λ next v k. k)

-- Under any failures, the task of a download, with the coordinator of its direct unpacking, comes
-- to its end without an error, is then no longer among the running tasks, and leaves the other
-- tasks and the queue. A server has connections, and the readings of the coordinator end with a
-- cancellation or a failed article. (Readings behind the pass in which it ends by itself are not
-- used.)
pub run_download_task-run-IsGone :
    (env : Env) (config : Config) (texts : Texts) (provider : Provider)
    (create_dir : DownloadId → Option String) (create_files : List DownloadFile → Option String)
    (get_files_text : String) (inputs : List (ℕ × ℤ) → List Input) (turns : List ℕ)
    (exceeds : ℕ → ℕ → Bool) (failure_text : ℕ → ℕ → Option String → String) (dir_created : Bool)
    (readings : List Reading) (last : Reading) (id j : DownloadId) (w : World)
    → sum_connections config.servers ≢ 0
    → stops last ≡ true
    → Outcome
        (λ e v. (e ≡ ended) × IsGone id j w v)
        (λ _. ⊥)
        (run_download_task env config texts provider create_dir create_files get_files_text inputs
          turns exceeds failure_text
          (coordinate env config.direct_rename dir_created (readings ++ last ∷ []))
          id
          w)
run_download_task-run-IsGone env config texts provider create_dir create_files get_files_text inputs
      turns exceeds failure_text dir_created readings last id j w connects h =
    run_download_task-IsGone env config texts provider create_dir create_files get_files_text inputs
      turns exceeds failure_text _ id j w connects
      (coordinate-Ends env id config.direct_rename dir_created readings last h)
