-- ===== src/Paths/Moving/Spares.antt =====
-- What moving leaves as it was.
use usenet_dl.Base.{◌≡◌, false, Option, none, some}
use Prim.Native.String.{String}
use usenet_dl.Paths.{FileCollisionAction, overwrite, UniquePath, ok, file_collision, invalid_path}
use usenet_dl.Paths.Unique.{IsVacant, get_unique_path-IsVacant}
use usenet_dl.Paths.Moving.{
  Disk, Listing, finished, unreadable, file, special, directory, Source, missing, single, neither,
  tree, MoveResult, moved, collision, invalid, io, after, after_io, move_to, move_single_file,
  move_entries, move_directory_contents, create_parent, move_source, move_existing, move_files,
}

module _ {S P : Type 0} (Q : S → Type 0) where
  after-keeps :
      (r : MoveResult P × S) (next : S → MoveResult P × S)
      → Q (r.1)
      → ((s : S) → Q s → Q ((next s).1))
      → Q ((after r next).1)
  unfolding after
  after-keeps (moved p, s) next q k = k s q
  after-keeps (collision p reason, s) next q k = q
  after-keeps (invalid p reason, s) next q k = q
  after-keeps (io e, s) next q k = q

  after_io-keeps :
      (r : Option String × S) (next : S → MoveResult P × S)
      → Q (r.1)
      → ((s : S) → Q s → Q ((next s).1))
      → Q ((after_io r next).1)
  unfolding after_io
  after_io-keeps (none, s) next q k = k s q
  after_io-keeps (some e, s) next q k = q

  module _ (disk : Disk S P) (action : FileCollisionAction) (h : ¬ (action ≡ overwrite))
      (renames : (s : S) (source target : P)
        → (disk.reader s).exists target ≡ false
        → Q s
        → Q ((disk.rename_file source target s).1))
      (creates : (s : S) (dir : P) → Q s → Q ((disk.create_dir_all dir s).1))
      (removes : (s : S) (dir : P) → Q s → Q ((disk.remove_dir dir s).1)) where
    move_to-keeps :
        (source_file : P) (u : UniquePath P) (s : S)
        → IsVacant (disk.reader s) u
        → Q s
        → Q ((move_to disk action source_file u s).1)
    unfolding move_to
    move_to-keeps source_file (ok p) s v q =
        after_io-keeps (disk.rename_file source_file p s) _ (renames s source_file p v q) (λ t k. k)
    move_to-keeps source_file (file_collision p reason) s v q = q
    move_to-keeps source_file (invalid_path p reason) s v q = q

    move_single_file-keeps :
        (source_file destination : P) (s : S)
        → Q s
        → Q ((move_single_file disk action source_file destination s).1)
    unfolding move_single_file
    move_single_file-keeps source_file destination s q =
        move_to-keeps source_file _ s
          (get_unique_path-IsVacant (disk.reader s) destination action h) q

    move_entries-keeps :
        (source_dir destination : P) (entries : Listing) (s : S)
        → Q s
        → Q ((move_entries disk action source_dir destination entries s).1)
    unfolding move_entries
    move_entries-keeps source_dir destination finished s q = q
    move_entries-keeps source_dir destination (unreadable e) s q = q
    move_entries-keeps source_dir destination (file name rest) s q =
        after-keeps _ _ (move_single_file-keeps _ _ s q)
          (move_entries-keeps source_dir destination rest)
    move_entries-keeps source_dir destination (special name rest) s q =
        move_entries-keeps source_dir destination rest s q
    move_entries-keeps source_dir destination (directory name inside rest) s q =
        after-keeps _ _
          (after_io-keeps _ _ (creates s _ q) (
            move_entries-keeps ((disk.reader s).join source_dir name)
              ((disk.reader s).join destination name) inside))
          (λ t r.
            after_io-keeps _ _ (removes t _ r) (move_entries-keeps source_dir destination rest))

    create_parent-keeps :
        (parent : Option P) (s : S) → Q s → Q ((create_parent disk action parent s).1)
    unfolding create_parent
    create_parent-keeps none s q = q
    create_parent-keeps (some parent) s q = creates s parent q

    move_source-keeps :
        (source_path destination : P) (source : Source) (s : S)
        → Q s
        → Q ((move_source disk action source_path destination source s).1)
    unfolding move_source move_directory_contents
    move_source-keeps source_path destination missing s q = q
    move_source-keeps source_path destination single s q =
        move_single_file-keeps source_path destination s q
    move_source-keeps source_path destination (tree entries) s q =
        after_io-keeps _ _ (creates s destination q)
          (move_entries-keeps source_path destination entries)
    move_source-keeps source_path destination neither s q = q

    move_existing-keeps :
        (source_path destination : P) (source : Source) (s : S)
        → Q s
        → Q ((move_existing disk action source_path destination source s).1)
    unfolding move_existing
    move_existing-keeps source_path destination source s q =
        after_io-keeps _ _ (create_parent-keeps _ s q)
          (move_source-keeps source_path destination source)

    -- Under every action but `overwrite`, `move_files` keeps each property of the file system that
    -- creating and removing a directory keep and that a rename keeps whose target does not exist:
    -- no file is renamed over another, whether the move succeeds or stops at an error.
    pub move_files-keeps :
        (source_path destination : P) (source : Source) (s : S)
        → Q s
        → Q ((move_files disk action source_path destination source s).1)
    unfolding move_files
    move_files-keeps source_path destination missing s q = q
    move_files-keeps source_path destination single s q =
        move_existing-keeps source_path destination single s q
    move_files-keeps source_path destination (tree entries) s q =
        move_existing-keeps source_path destination (tree entries) s q
    move_files-keeps source_path destination neither s q =
        move_existing-keeps source_path destination neither s q
