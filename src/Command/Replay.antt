-- ===== src/Command/Replay.antt =====
-- A command that is written into a test file and read back.
use check_protocols.Prelude.{
  ℕ, ◌≡◌, refl, sym, ap, ◌∙◌, ◌≢◌, Bool, true, false, ◌||◌, Option, List, [], ◌∷◌, ◌++◌, map, arith,
  ◌==◌, any, All,
}
use check_protocols.ArgumentParser.{space, quote, backslash, newline}
use check_protocols.Command.{
  Command, escape, add_quotes_if_needed, join_words, format_arguments, new, same_texts_refl,
  format_with, format, compare,
}
use check_protocols.Command.RoundTrip.{
  format_word, drop_empty, map-format_argument, parse_arguments-join_words,
}
use check_protocols.ExecutablePath.{canonicalize, compare-canonicalize}
use check_protocols.Prelude.Text.{Bytes}
use check_protocols.Result.{ok}
use check_protocols.Utf8.{to_string_lossy, is_utf8, to_string_lossy-is_utf8}

abbrev pub is_special : ℕ → Bool
is_special c = c == space || (c == quote || (c == newline || c == backslash))

-- `Command::format` writes the executable as it is, with nothing quoted or escaped.
pub record IsPlain (e : Bytes) : Type 0 where
  pub not_empty : e ≢ []
  pub utf8 : is_utf8 e ≡ true
  pub unquoted : any is_special e ≡ false

abbrev pub IsArgument : Bytes → Type 0
IsArgument a = (a ≢ []) × (is_utf8 a ≡ true)

plain-escape : (e : Bytes) → any is_special e ≡ false → escape e ≡ e
unfolding escape
plain-escape [] h = refl
plain-escape (c ∷ e) h = ground (arith, plain-escape e)

plain_no_space : (e : Bytes) → any is_special e ≡ false → any (λ c. c == space) e ≡ false
plain_no_space [] h = refl
plain_no_space (c ∷ e) h = ground (arith, plain_no_space e)

plain-format_word : (e : Bytes) → any is_special e ≡ false → format_word e ≡ e
unfolding add_quotes_if_needed
plain-format_word e h = rw (plain-escape e h, plain_no_space e h)

pub drop_empty-All :
    (args : List Bytes) → All IsArgument args → drop_empty (map to_string_lossy args) ≡ args
drop_empty-All [] h = refl
drop_empty-All ([] ∷ args) ((ne, u), hs) = absurd (ne refl)
drop_empty-All ((c ∷ a) ∷ args) ((ne, u), hs) =
    rw (to_string_lossy-is_utf8 (c ∷ a) u) (rw (drop_empty-All args hs))

format_with-join_words :
    (e : Bytes) (args : List Bytes)
    → format_word e ≡ e
    → format_with e args ≡ join_words (map format_word (e ∷ map to_string_lossy args))
unfolding format_with join_words format_arguments
format_with-join_words e [] h = sym h
format_with-join_words e (a ∷ args) h =
    let words = map format_word (map to_string_lossy (a ∷ args)) in
    ap (λ x. e ++ (space ∷ join_words x)) (map-format_argument (a ∷ args))
    ∙ ap (λ x. join_words (x ∷ words)) (sym h)

drop_empty_first : (e : Bytes) (ws : List Bytes) → e ≢ [] → drop_empty (e ∷ ws) ≡ e ∷ drop_empty ws
drop_empty_first [] ws ne = absurd (ne refl)
drop_empty_first (c ∷ e) ws ne = refl

module _ (which : Bytes → Option Bytes) (c : Command) where
  -- A command with a plain executable and arguments that are valid UTF-8 and not empty is read back
  -- from its text with the canonical executable and the same arguments.
  pub new-format :
      IsPlain (canonicalize which c.executable)
      → All IsArgument c.arguments
      → new (format which c)
        ≡ ok (record { executable = canonicalize which c.executable; arguments = c.arguments })
  unfolding new format
  new-format plain args =
      let e = canonicalize which c.executable in
      rw (to_string_lossy-is_utf8 e plain.utf8) (
        rw (format_with-join_words e c.arguments (plain-format_word e plain.unquoted)) (
          rw (parse_arguments-join_words (e ∷ map to_string_lossy c.arguments)) (
            rw (drop_empty_first e (map to_string_lossy c.arguments) plain.not_empty)
              (rw (drop_empty-All c.arguments args)))))

  -- A command that was written is read back as a command that matches it, if its canonical
  -- executable is plain (not empty, valid UTF-8, without spaces, quotes, newlines and
  -- backslashes) and each argument is valid UTF-8 and not empty.
  pub compare-new-format :
      IsPlain (canonicalize which c.executable)
      → All IsArgument c.arguments
      → (d : Command) × (new (format which c) ≡ ok d) × (compare which d c ≡ true)
  compare-new-format plain args = (
    record { executable = canonicalize which c.executable; arguments = c.arguments },
    new-format plain args,
    unfold compare in rw (compare-canonicalize which c.executable) (same_texts_refl c.arguments),
  )
