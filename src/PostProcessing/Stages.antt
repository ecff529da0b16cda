-- ===== src/PostProcessing/Stages.antt =====
-- The modes of the post-processing (`PostProcess` of src/config.rs) as lists of stages.
use usenet_dl.Base.{◌≡◌, refl, sym, ◌∙◌, Bool, false, List, [], ◌∷◌, if◌then◌else◌}
use Prim.Native.String.{String}
use usenet_dl.Types.{DownloadId, PostProcess}
use usenet_dl.World.{World, M, pure, ◌>>=◌, ◌>>◌}
use usenet_dl.World.Hoare.{>>=-cong, >>=-assoc, >>=-pure}
use usenet_dl.PostProcessing.{
  Tools, run_verify_stage, run_repair_stage, run_extract_stage, run_move_stage, run_cleanup_stage,
  verify_and_repair, start_post_processing,
}

pub data StageName : Type 0 where
  verify_it repair_it extract_it move_it cleanup_it : StageName

-- What each mode promises.
abbrev pub plan : PostProcess → List StageName
plan PostProcess.none = []
plan PostProcess.verify = verify_it ∷ []
plan PostProcess.repair = verify_it ∷ repair_it ∷ []
plan PostProcess.unpack = verify_it ∷ repair_it ∷ extract_it ∷ []
plan PostProcess.unpack_and_cleanup = verify_it ∷ repair_it ∷ extract_it ∷ move_it ∷ cleanup_it ∷ []

-- Where the files are, and whether the last verification found damage.
pub record Progress : Type 0 where
  pub path : String
  pub damaged : Bool

module _ (tools : Tools) (id : DownloadId) (download_path destination : String) where
  -- A repair is made only of damaged files; the first error of a stage ends the run.
  abbrev pub run_stage : StageName → Progress → M Progress
  run_stage verify_it p =
      run_verify_stage tools id download_path >>= λ d. pure (record p { damaged = d })
  run_stage repair_it p =
      (if p.damaged then run_repair_stage tools id download_path else pure tt) >>= λ _. pure p
  run_stage extract_it p =
      run_extract_stage tools id download_path >>= λ path. pure (record p { path = path })
  run_stage move_it p =
      run_move_stage tools id p.path destination >>= λ path. pure (record p { path = path })
  run_stage cleanup_it p = run_cleanup_stage tools id >>= λ _. pure p

  abbrev pub run_stages : List StageName → Progress → M Progress
  run_stages [] p = pure p
  run_stages (s ∷ stages) p = run_stage s p >>= run_stages stages

  abbrev path_of : Progress → M String
  path_of p = pure p.path

  -- A stage and the rest.
  stage-then :
      {A : Type 0} (m : M A) (k : A → Progress) (stages : List StageName) (w : World)
      → (((m >>= λ a. pure (k a)) >>= run_stages stages) >>= path_of) w
        ≡ (m >>= λ a. run_stages stages (k a) >>= path_of) w
  stage-then m k stages w =
      >>=-assoc (m >>= λ a. pure (k a)) (run_stages stages) path_of w
      ∙ >>=-assoc m (λ a. pure (k a)) (λ p. run_stages stages p >>= path_of) w

  -- The verification, the repair of damage and the rest.
  repaired-then :
      (rest : M String) (stages : List StageName)
      → ((d : Bool) (w : World)
          → rest w
            ≡ (run_stages stages (record { path = download_path; damaged = d }) >>= path_of) w)
      → (w : World)
      → (verify_and_repair tools id download_path >>= λ _. rest) w
        ≡ (run_stages
                (verify_it ∷ repair_it ∷ stages)
                (record { path = download_path; damaged = false })
              >>= path_of)
            w
  unfolding verify_and_repair
  repaired-then rest stages h w =
      >>=-assoc (run_verify_stage tools id download_path) _ (λ _. rest) w
      ∙ (>>=-cong (run_verify_stage tools id download_path) _ _
            (λ d v.
              >>=-cong (if d then run_repair_stage tools id download_path else pure tt) (λ _. rest)
                _ (λ _ u. h d u) v
              ∙ sym (
                  stage-then (if d then run_repair_stage tools id download_path else pure tt)
                    (λ _. record { path = download_path; damaged = d }) stages v))
            w
          ∙ sym (
              stage-then (run_verify_stage tools id download_path)
                (λ d. record { path = download_path; damaged = d }) (repair_it ∷ stages) w))

-- Each mode runs its stages in their order: a repair only if the verification found damage, and
-- nothing after the first error.
pub start_post_processing-plan :
    (tools : Tools) (id : DownloadId) (download_path destination : String) (mode : PostProcess)
    (w : World)
    → start_post_processing tools id download_path mode destination w
      ≡ (run_stages tools id download_path destination
              (plan mode)
              (record { path = download_path; damaged = false })
            >>= λ p. pure p.path)
          w
unfolding start_post_processing
start_post_processing-plan tools id download_path destination PostProcess.none w = refl
start_post_processing-plan tools id download_path destination PostProcess.verify w = sym (
    stage-then tools id download_path destination (run_verify_stage tools id download_path)
      (λ d. record { path = download_path; damaged = d }) [] w)
start_post_processing-plan tools id download_path destination PostProcess.repair w =
    repaired-then tools id download_path destination (pure download_path) [] (λ d v. refl) w
start_post_processing-plan tools id download_path destination PostProcess.unpack w =
    let extract = run_extract_stage tools id download_path in
    repaired-then tools id download_path destination extract (extract_it ∷ [])
      (λ d v.
        >>=-pure extract v
        ∙ sym (
            stage-then tools id download_path destination extract
              (λ path. record { path = path; damaged = d }) [] v))
      w
start_post_processing-plan tools id download_path destination PostProcess.unpack_and_cleanup w =
    let extract = run_extract_stage tools id download_path in
    repaired-then tools id download_path destination
      (do
        extracted_path ← extract
        final_path ← run_move_stage tools id extracted_path destination
        run_cleanup_stage tools id
        pure final_path)
      (extract_it ∷ move_it ∷ cleanup_it ∷ [])
      (λ d v.
        >>=-cong extract _ _
          (λ path u.
            let move = run_move_stage tools id path destination in
            >>=-cong move _ _
              (λ final x. sym (
                stage-then tools id download_path destination (run_cleanup_stage tools id)
                  (λ _. record { path = final; damaged = d }) [] x))
              u
            ∙ sym (
                stage-then tools id download_path destination move
                  (λ p. record { path = p; damaged = d }) (cleanup_it ∷ []) u))
          v
        ∙ sym (
            stage-then tools id download_path destination extract
              (λ p. record { path = p; damaged = d }) (move_it ∷ cleanup_it ∷ []) v))
      w
