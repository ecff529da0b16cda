-- ===== src/Paths.antt =====
-- src/utils.rs, `get_unique_path`: the path that a file is moved to, under each action for a file that
-- is there already. What `std::path` and the file system answer is a parameter.
pub mod Unique
pub mod Moving
use usenet_dl.Base.{ℕ, zero, suc, Bool, true, false, Option, none, some, if◌then◌else◌}
use Prim.Native.String.{String, ◌++◌}

-- `FileCollisionAction` of src/config.rs
pub data FileCollisionAction : Type 0 where
  rename overwrite skip : FileCollisionAction

-- What the code asks of `std::path` and the file system. `file_stem` and `extension` are those that
-- `to_str` can read, and `decimal` is the number as `format!` prints it.
pub record PathReader (P : Type 0) : Type 0 where
  pub exists : P → Bool
  pub file_stem : P → Option String
  pub extension : P → Option String
  pub parent : P → Option P
  pub join : P → String → P
  pub decimal : ℕ → String

-- `Result<PathBuf>`, with `PostProcessError::FileCollision` and `InvalidPath` for the errors.
pub data UniquePath (P : Type 0) : Type 0 where
  ok : (path : P) → UniquePath P
  file_collision invalid_path : (path : P) → (reason : String) → UniquePath P

abbrev pub max_rename_attempts : ℕ
max_rename_attempts = 9999

module _ {P : Type 0} (fs : PathReader P) where
  -- `format!("{} ({}).{}", stem, i, ext)`, or without the extension.
  unfoldable pub new_name : String → Option String → ℕ → String
  new_name stem (some ext) i = stem ++ (" (" ++ (fs.decimal i ++ (")." ++ ext)))
  new_name stem none i = stem ++ (" (" ++ (fs.decimal i ++ ")"))

  -- The candidate `i` beside `path`.
  abbrev pub new_path : P → String → P → ℕ → P
  new_path path stem dir i = fs.join dir (new_name stem (fs.extension path) i)

  -- The candidates from `i` on, as many as are left to try.
  unfoldable pub try_names : P → String → P → ℕ → ℕ → UniquePath P
  try_names path stem dir i zero =
      file_collision path "Could not find unique filename after 9999 attempts"
  try_names path stem dir i (suc left) =
      let rest = try_names path stem dir (suc i) left in
      if fs.exists (new_path path stem dir i) then rest else ok (new_path path stem dir i)

  unfoldable pub rename_parts : P → Option String → Option P → UniquePath P
  rename_parts path none dir = invalid_path path "Cannot extract file stem"
  rename_parts path (some stem) none = invalid_path path "Cannot extract parent directory"
  rename_parts path (some stem) (some dir) = try_names path stem dir 1 max_rename_attempts

  unfoldable pub get_unique_path : P → FileCollisionAction → UniquePath P
  get_unique_path path overwrite = ok path
  get_unique_path path skip =
      if fs.exists path
      then file_collision path "File already exists and collision action is Skip"
      else ok path
  get_unique_path path rename =
      if fs.exists path then rename_parts path (fs.file_stem path) (fs.parent path) else ok path
