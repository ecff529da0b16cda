-- ===== src/Extraction.antt =====
-- src/extraction/password_list.rs: the passwords that are tried on an archive. `lines` are those of the
-- global file, each trimmed, if it can be read.
pub mod Passwords
use usenet_dl.Base.{
  Bool, true, false, ◌&&◌, not, Option, none, some, List, [], ◌∷◌, ◌++◌, if◌then◌else◌, any, length,
  is_empty, ℕ,
}
use Prim.Native.String.{String}
use text.Mathlib.Text.{◌==◌}

abbrev pub contains : List String → String → Bool
contains passwords pw = any (λ p. p == pw) passwords

-- `seen.insert(pw)` is true where `pw` is new.
unfoldable pub add_unseen : List String → List String → List (Option String) → List String
add_unseen seen passwords [] = passwords
add_unseen seen passwords (none ∷ rest) = add_unseen seen passwords rest
add_unseen seen passwords (some pw ∷ rest) =
    let skipped = add_unseen seen passwords rest in
    let added = add_unseen (seen ++ pw ∷ []) (passwords ++ pw ∷ []) rest in
    if contains seen pw then skipped else added

unfoldable pub add_lines : List String → List String → List String
add_lines passwords [] = passwords
add_lines passwords (pw ∷ lines) =
    add_lines
      (if not (pw == "") && not (contains passwords pw) then passwords ++ pw ∷ [] else passwords)
      lines

unfoldable pub add_file : List String → Option (List String) → List String
add_file passwords none = passwords
add_file passwords (some lines) = add_lines passwords lines

unfoldable pub add_empty : Bool → List String → List String
add_empty try_empty passwords =
    if try_empty && not (any (λ p. p == "") passwords) then passwords ++ "" ∷ [] else passwords

unfoldable pub collect :
    (cached_correct download_password nzb_meta_password : Option String)
    → Option (List String)
    → Bool
    → List String
collect cached_correct download_password nzb_meta_password lines try_empty = add_empty try_empty (
    add_file (add_unseen [] [] (cached_correct ∷ download_password ∷ nzb_meta_password ∷ [])) lines)
