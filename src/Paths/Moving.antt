-- ===== src/Paths/Moving.antt =====
-- src/post_processing/mod.rs, `move_files` and what it calls. The file system is a parameter, and what
-- it gives while a directory is read is data.
pub mod Spares
use usenet_dl.Base.{Option, none, some}
use Prim.Native.String.{String}
use usenet_dl.Paths.{
  FileCollisionAction, PathReader, UniquePath, ok, file_collision, invalid_path, get_unique_path,
}

-- `fs::rename`, `fs::create_dir_all` and `fs::remove_dir` on the states `S` of the file system, each
-- with its error.
pub record Disk (S P : Type 0) : Type 0 where
  pub reader : S → PathReader P
  pub rename_file : P → P → S → Option String × S
  pub create_dir_all : P → S → Option String × S
  pub remove_dir : P → S → Option String × S

-- What reading a directory gives, entry by entry: its end, an error, or an entry of some type and
-- the rest.
pub data Listing : Type 0 where
  finished : Listing
  unreadable : (error : String) → Listing
  file special : (name : String) → (rest : Listing) → Listing
  directory : (name : String) → (inside rest : Listing) → Listing

-- What the source is.
pub data Source : Type 0 where
  missing single neither : Source
  tree : (entries : Listing) → Source

-- `Result<PathBuf>`
pub data MoveResult (P : Type 0) : Type 0 where
  moved : (path : P) → MoveResult P
  collision invalid : (path : P) → (reason : String) → MoveResult P
  io : (error : String) → MoveResult P

-- The two uses of `?`: on the outcome of a move, and on that of a call of the file system.
unfoldable pub after : {S P : Type 0} → MoveResult P × S → (S → MoveResult P × S) → MoveResult P × S
after (moved p, s) next = next s
after (collision p reason, s) next = (collision p reason, s)
after (invalid p reason, s) next = (invalid p reason, s)
after (io e, s) next = (io e, s)

unfoldable pub after_io :
    {S P : Type 0} → Option String × S → (S → MoveResult P × S) → MoveResult P × S
after_io (none, s) next = next s
after_io (some e, s) next = (io e, s)

module _ {S P : Type 0} (disk : Disk S P) (action : FileCollisionAction) where
  unfoldable pub move_to : P → UniquePath P → S → MoveResult P × S
  move_to source_file (ok q) s = after_io (disk.rename_file source_file q s) (λ t. (moved q, t))
  move_to source_file (file_collision p reason) s = (collision p reason, s)
  move_to source_file (invalid_path p reason) s = (invalid p reason, s)

  unfoldable pub move_single_file : P → P → S → MoveResult P × S
  move_single_file source_file destination s =
      move_to source_file (get_unique_path (disk.reader s) destination action) s

  -- The loop over the entries.
  unfoldable pub move_entries : P → P → Listing → S → MoveResult P × S
  move_entries source_dir destination finished s = (moved destination, s)
  move_entries source_dir destination (unreadable e) s = (io e, s)
  move_entries source_dir destination (file name rest) s =
      after
        (move_single_file ((disk.reader s).join source_dir name)
          ((disk.reader s).join destination name) s)
        (move_entries source_dir destination rest)
  move_entries source_dir destination (special name rest) s =
      move_entries source_dir destination rest s
  move_entries source_dir destination (directory name inside rest) s =
      let from = (disk.reader s).join source_dir name in
      let to = (disk.reader s).join destination name in
      after (after_io (disk.create_dir_all to s) (move_entries from to inside))
        (λ t. after_io (disk.remove_dir from t) (move_entries source_dir destination rest))

  unfoldable pub move_directory_contents : P → P → Listing → S → MoveResult P × S
  move_directory_contents source_dir destination entries s =
      after_io (disk.create_dir_all destination s) (move_entries source_dir destination entries)

  unfoldable pub create_parent : Option P → S → Option String × S
  create_parent none s = (none, s)
  create_parent (some parent) s = disk.create_dir_all parent s

  -- After the parent of the destination is there.
  unfoldable pub move_source : P → P → Source → S → MoveResult P × S
  move_source source_path destination missing s =
      (invalid source_path "Source path does not exist", s)
  move_source source_path destination single s = move_single_file source_path destination s
  move_source source_path destination (tree entries) s =
      move_directory_contents source_path destination entries s
  move_source source_path destination neither s =
      (invalid source_path "Source is neither a file nor a directory", s)

  unfoldable pub move_existing : P → P → Source → S → MoveResult P × S
  move_existing source_path destination source s =
      after_io (create_parent ((disk.reader s).parent destination) s)
        (move_source source_path destination source)

  unfoldable pub move_files : P → P → Source → S → MoveResult P × S
  move_files source_path destination missing s =
      (invalid source_path "Source path does not exist", s)
  move_files source_path destination single s = move_existing source_path destination single s
  move_files source_path destination (tree entries) s =
      move_existing source_path destination (tree entries) s
  move_files source_path destination neither s = move_existing source_path destination neither s
