-- ===== src/Examples/Moves.antt =====
-- Files that are moved to where others are.
use usenet_dl.Base.{List, [], ◌∷◌, ℕ, none, false, if◌then◌else◌, ◌||◌, suc, ◌≡◌, refl, Bool, some}
use Prim.Native.String.{String, compare, slice, ◌++◌}
use text.Mathlib.Text.{is_eq}
use usenet_dl.Paths.{
  rename, skip, PathReader, ok, file_collision, get_unique_path, rename_parts, try_names, new_name,
}
use usenet_dl.Paths.Moving.{Disk, tree, file, directory, finished, move_files}
use usenet_dl.Paths.Moving.Spares.{move_files-keeps}
use usenet_dl.Paths.Unique.{IsFirstFree, get_unique_path-IsFirstFree}

-- A folder that holds `film.mkv` and `film (1).mkv`.
abbrev is_there : String → Bool
is_there path = is_eq (compare path "film.mkv") || is_eq (compare path "film (1).mkv")

-- The only stem, extension and folder here, and numbers of one digit.
abbrev folder : PathReader String
folder = record {
  exists = is_there;
  file_stem = λ path. some "film";
  extension = λ path. some "mkv";
  parent = λ path. some "";
  join = λ dir name. dir ++ name;
  decimal = λ n. slice "0123456789" n (suc n);
}

second_free : get_unique_path folder "film.mkv" rename ≡ ok "film (2).mkv"
unfolding get_unique_path rename_parts try_names new_name
second_free = refl

skipped :
    get_unique_path folder "film.mkv" skip
    ≡ file_collision "film.mkv" "File already exists and collision action is Skip"
unfolding get_unique_path
skipped = refl

least_example :
    IsFirstFree folder "film.mkv" "film" "" 1 9999 (get_unique_path folder "film.mkv" rename)
least_example = get_unique_path-IsFirstFree folder "film.mkv" "film" "" refl refl refl

-- A disk of the paths that are there, with the number of files that were renamed over.
abbrev has : String → List String → Bool
has path [] = false
has path (p ∷ paths) = is_eq (compare path p) || has path paths

abbrev without : String → List String → List String
without path [] = []
without path (p ∷ paths) =
    let rest = without path paths in if is_eq (compare path p) then rest else p ∷ rest

abbrev disk : Disk (List String × ℕ) String
disk = record {
  reader = λ s. record {
    exists = λ path. has path (s.0);
    file_stem = λ path. some "film";
    extension = λ path. some "mkv";
    parent = λ path. some "home";
    join = λ dir name. dir ++ ("/" ++ name);
    decimal = λ n. slice "0123456789" n (suc n);
  };
  rename_file = λ source target s.
      (none, (target ∷ without source (s.0), if has target (s.0) then suc (s.1) else s.1));
  create_dir_all = λ dir s. (none, s);
  remove_dir = λ dir s. (none, s);
}

spared_example :
    ((move_files disk rename "in" "out"
      (tree (file "film.mkv" (directory "cd" finished finished)))
      ("in/film.mkv" ∷ "out/film.mkv" ∷ [], 0)).1
    ).1
    ≡ 0
spared_example =
    move_files-keeps (λ s. s.1 ≡ 0) disk rename (λ p. cc p) (λ s source target e q. rw e q)
      (λ s dir q. q) (λ s dir q. q) "in" "out"
      (tree (file "film.mkv" (directory "cd" finished finished)))
      ("in/film.mkv" ∷ "out/film.mkv" ∷ [], 0) refl
