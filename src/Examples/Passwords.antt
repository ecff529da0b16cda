-- ===== src/Examples/Passwords.antt =====
-- The passwords that are tried, at concrete inputs.
use usenet_dl.Base.{◌≡◌, refl, true, none, some, [], ◌∷◌, ◌++◌}
use usenet_dl.Extraction.{collect, add_empty, add_file, add_lines, add_unseen}
use usenet_dl.Extraction.Passwords.{unrepeated, given, usable, last_one, collect-unrepeated}

-- A password that was given twice, and an empty line.
two_given :
    collect (some "b") (some "a") (some "b") (some ("a" ∷ "" ∷ "c" ∷ [])) true
    ≡ "b" ∷ "a" ∷ "c" ∷ "" ∷ []
unfolding collect add_empty add_file add_lines add_unseen
two_given = refl

collect_example :
    collect none (some "a") (some "b") (some ("a" ∷ "" ∷ "c" ∷ [])) true
    ≡ unrepeated (
        given (none ∷ some "a" ∷ some "b" ∷ [])
        ++ (usable (some ("a" ∷ "" ∷ "c" ∷ [])) ++ last_one true))
collect_example = collect-unrepeated none (some "a") (some "b") (some ("a" ∷ "" ∷ "c" ∷ [])) true
