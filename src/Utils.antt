-- ===== src/Utils.antt =====
-- utils/mod.rs: the small helpers of the program.
use check_protocols.Prelude.{
  Bool, true, false, ◌&&◌, Option, none, some, List, [], ◌∷◌, ◌==◌, if◌then◌else◌,
}
use check_protocols.ArgumentParser.{newline}
use check_protocols.Prelude.Text.{Bytes}
use check_protocols.Result.{invalid_utf8, R, ok, err}
use check_protocols.TempFiles.{Fs, contents_at}
use check_protocols.Utf8.{to_string_lossy, is_utf8}

-- A path is read as a string, if it is one.
unfoldable pub path_to_string : Bytes → R Bytes
unfolding is_utf8
path_to_string path = if is_utf8 path then ok path else err (invalid_utf8 path)

up_to_newline : Bytes → Bytes
up_to_newline [] = []
up_to_newline (c ∷ s) = if c == newline then [] else c ∷ up_to_newline s

hashbang_of : Bytes → Option Bytes
unfolding up_to_newline
hashbang_of (c ∷ d ∷ s) =
    if c == b'#' && d == b'!' then some (to_string_lossy (up_to_newline (c ∷ d ∷ s))) else none
hashbang_of _ = none

unfoldable pub parse_hashbang : Fs → Bytes → Option Bytes
unfolding hashbang_of
parse_hashbang fs program = elim (contents_at fs program) [
  | none ↦ none
  | some contents ↦ if fs.unreadable program then none else hashbang_of contents
]

-- each element, and whether one follows
unfoldable pub with_has_more {ℓ} : {A : Type ℓ} → List A → List (A × Bool)
with_has_more [] = []
with_has_more (x ∷ []) = (x, false) ∷ []
with_has_more (x ∷ y ∷ xs) = (x, true) ∷ with_has_more (y ∷ xs)
