-- ===== src/Command.antt =====
-- test_spec/command.rs: `Command`, an executable and its arguments, and the text of a command.
pub mod Escaped
pub mod RoundTrip
pub mod Replay
pub mod Total
use check_protocols.Prelude.{
  ℕ, ◌≡◌, refl, Bool, true, false, ◌&&◌, Option, List, [], ◌∷◌, ◌++◌, map, ◌==◌, if◌then◌else◌, any,
}
use check_protocols.ArgumentParser.{space, quote, backslash, newline, parse_arguments}
use check_protocols.ExecutablePath.{canonicalize, compare_executables}
use check_protocols.Prelude.Text.{Bytes, equal, equal_refl}
use check_protocols.Result.{no_command, R, ok, err, ◌>>=◌}
use check_protocols.Utf8.{to_string_lossy}

pub record Command : Type 0 where
  pub executable : Bytes
  pub arguments : List Bytes

-- the local `escape_char` of `escape`
pub escape_char : ℕ → Bytes
escape_char c =
    if c == quote
    then backslash ∷ quote ∷ []
    else if c == newline
    then backslash ∷ b'n' ∷ []
    else if c == backslash
    then backslash ∷ backslash ∷ []
    else c ∷ []

pub escape : Bytes → Bytes
unfolding escape_char
escape [] = []
escape (c ∷ s) = escape_char c ++ escape s

pub add_quotes_if_needed : Bytes → Bytes
add_quotes_if_needed word =
    if any (λ c. c == space) word then quote ∷ (word ++ quote ∷ []) else word

-- `join(" ")`
unfoldable pub join_words : List Bytes → Bytes
join_words [] = []
join_words (w ∷ []) = w
join_words (w ∷ v ∷ ws) = w ++ (space ∷ join_words (v ∷ ws))

pub format_argument : Bytes → Bytes
unfolding escape add_quotes_if_needed
format_argument argument = add_quotes_if_needed (escape (to_string_lossy argument))

unfoldable pub format_arguments : List Bytes → Bytes
unfolding format_argument join_words
format_arguments arguments = join_words (map format_argument arguments)

-- the words of a command line as a command
from_words : Bytes → List Bytes → R Command
from_words line [] = err (no_command line)
from_words line (executable ∷ arguments) =
    ok (record { executable = executable; arguments = arguments })

unfoldable pub new : Bytes → R Command
unfolding from_words
new command = do words ← parse_arguments command; from_words command words

unfoldable pub same_texts : List Bytes → List Bytes → Bool
same_texts [] [] = true
same_texts (s ∷ ss) (t ∷ ts) = equal s t && same_texts ss ts
same_texts _ _ = false

pub same_texts_refl : (ss : List Bytes) → same_texts ss ss ≡ true
unfolding same_texts
same_texts_refl [] = refl
same_texts_refl (s ∷ ss) = rw (equal_refl s, same_texts_refl ss)

format_with : Bytes → List Bytes → Bytes
format_with executable [] = executable
format_with executable (a ∷ args) = executable ++ (space ∷ format_arguments (a ∷ args))

module _ (which : Bytes → Option Bytes) where
  unfoldable pub format : Command → Bytes
  unfolding format_with
  format c = format_with (to_string_lossy (canonicalize which c.executable)) c.arguments

  -- `==` on the argument vectors
  unfoldable pub compare : Command → Command → Bool
  compare a b =
      compare_executables which a.executable b.executable && same_texts a.arguments b.arguments
