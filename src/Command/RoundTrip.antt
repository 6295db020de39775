-- ===== src/Command/RoundTrip.antt =====
-- What `Command::format_arguments` writes is what `Parser::parse_arguments` reads.
use check_protocols.Prelude.{
  ℕ, zero, suc, ◌<◌, ◌≡◌, refl, ◌∙◌, inl, inr, false, some, List, [], ◌∷◌, ◌++◌, map, append_assoc,
  append-nil, arith, ◌==◌, Bool-cases, length, any, length-append,
}
use check_protocols.ArgumentParser.{
  space, quote, Parser, skip_spaces, skip_char, plain_word, parse_word, collect, parse_arguments,
}
use check_protocols.Command.{
  escape_char, escape, add_quotes_if_needed, join_words, format_argument, format_arguments,
}
use check_protocols.Command.Escaped.{
  IsTail, escape_char_pos, read_in_quotes, read_outside, peek_tail, any-escape,
}
use check_protocols.Prelude.Text.{Bytes}
use check_protocols.Result.{closing_quotes, opening_quotes, ok, ◌>>=◌}
use check_protocols.Utf8.{to_string_lossy}

abbrev pub format_word : Bytes → Bytes
format_word w = add_quotes_if_needed (escape w)

parse_word-quoted :
    (original w rest : Bytes)
    → IsTail rest
    → parse_word (record { original = original; input = quote ∷ (escape w ++ (quote ∷ rest)) })
      ≡ ok (some w, record { original = original; input = rest })
unfolding parse_word skip_char skip_spaces
parse_word-quoted original w rest t =
    simp (read_in_quotes, peek_tail closing_quotes original rest t)

-- an escaped character starts no quoted word and is no space
word_at-plain :
    (original : Bytes) (c : ℕ) (s : Bytes)
    → (c == space) ≡ false
    → parse_word (record { original = original; input = escape_char c ++ s })
      ≡ plain_word (record { original = original; input = escape_char c ++ s })
unfolding parse_word skip_spaces escape_char
word_at-plain original c s h = ground arith

plain_word-escape :
    (original w rest : Bytes)
    → any (λ d. d == space) w ≡ false
    → IsTail rest
    → plain_word (record { original = original; input = escape w ++ rest })
      ≡ ok (some w, record { original = original; input = rest })
unfolding plain_word
plain_word-escape original w rest h t =
    simp (read_outside original w rest h t, peek_tail opening_quotes original rest t)

parse_word-plain :
    (original : Bytes) (c : ℕ) (w rest : Bytes)
    → any (λ d. d == space) (c ∷ w) ≡ false
    → IsTail rest
    → parse_word (record { original = original; input = escape (c ∷ w) ++ rest })
      ≡ ok (some (c ∷ w), record { original = original; input = rest })
unfolding escape
parse_word-plain original c w rest h t = rw (append_assoc (escape_char c) (escape w) rest) (
    word_at-plain original c (escape w ++ rest) (ground arith)
    ∙ rw (← append_assoc (escape_char c) (escape w) rest)
        (plain_word-escape original (c ∷ w) rest h t))

-- A formatted word that is not empty is read back as it was.
parse_word-format_word :
    (original : Bytes) (c : ℕ) (w rest : Bytes)
    → IsTail rest
    → parse_word (record { original = original; input = format_word (c ∷ w) ++ rest })
      ≡ ok (some (c ∷ w), record { original = original; input = rest })
unfolding add_quotes_if_needed
parse_word-format_word original c w rest t = elim (Bool-cases (any (λ d. d == space) (c ∷ w))) [
  | inl e ↦
      rw (any-escape (c ∷ w), e)
        (rw (append_assoc (escape (c ∷ w)) (quote ∷ []) rest)
          (parse_word-quoted original (c ∷ w) rest t))
  | inr e ↦ rw (any-escape (c ∷ w), e) (parse_word-plain original c w rest e t)
]

format_word-nil : format_word [] ≡ []
unfolding escape add_quotes_if_needed
format_word-nil = refl

format_word_pos : (c : ℕ) (w : Bytes) → 0 < length (format_word (c ∷ w))
unfolding escape add_quotes_if_needed
format_word_pos c w = ground (arith, escape_char_pos c, length-append (escape_char c) (escape w))

-- The words that are not empty.
abbrev pub drop_empty : List Bytes → List Bytes
drop_empty [] = []
drop_empty ([] ∷ ws) = drop_empty ws
drop_empty ((c ∷ w) ∷ ws) = (c ∷ w) ∷ drop_empty ws

abbrev at : Bytes → Bytes → Parser
at original s = record { original = original; input = s }

-- a space in front of a word makes no difference
collect-space :
    (fuel : ℕ) (original s : Bytes)
    → collect fuel (at original (space ∷ s)) ≡ collect fuel (at original s)
unfolding collect parse_word skip_spaces
collect-space zero original s = refl
collect-space (suc fuel) original s = refl

collect-nil : (fuel : ℕ) (original : Bytes) → 0 < fuel → collect fuel (at original []) ≡ ok []
unfolding collect parse_word skip_spaces
collect-nil zero original h = elim h [ ]
collect-nil (suc fuel) original h = refl

-- with the fuel of a longer text
collect_word :
    (fuel : ℕ) (original : Bytes) (c : ℕ) (w rest : Bytes)
    → IsTail rest
    → collect (suc fuel) (at original (format_word (c ∷ w) ++ rest))
      ≡ (do words ← collect fuel (at original rest); ok ((c ∷ w) ∷ words))
unfolding collect
collect_word fuel original c w rest t = rw (parse_word-format_word original c w rest t)

collect-join_words :
    (fuel : ℕ) (original : Bytes) (ws : List Bytes)
    → length (join_words (map format_word ws)) < fuel
    → collect fuel (at original (join_words (map format_word ws))) ≡ ok (drop_empty ws)
unfolding join_words
collect-join_words zero original ws f = elim f [ ]
collect-join_words (suc fuel) original [] f = collect-nil (suc fuel) original (omega arith)
collect-join_words (suc fuel) original ([] ∷ []) f =
    rw format_word-nil (collect-nil (suc fuel) original (omega arith))
collect-join_words (suc fuel) original ((c ∷ w) ∷ []) f = rw (← append-nil (format_word (c ∷ w))) (
    collect_word fuel original c w [] tt
    ∙ rw (collect-nil fuel original (omega (arith, format_word_pos c w))))
collect-join_words (suc fuel) original ([] ∷ v ∷ ws) f =
    let shorter : suc (length (join_words (map format_word (v ∷ ws)))) < suc fuel =
      rw format_word-nil at f in
    rw (format_word-nil, collect-space (suc fuel) original)
      (collect-join_words (suc fuel) original (v ∷ ws) (omega arith))
collect-join_words (suc fuel) original ((c ∷ w) ∷ v ∷ ws) f =
    let tail = space ∷ join_words (map format_word (v ∷ ws)) in
    collect_word fuel original c w tail refl
    ∙ rw (collect-space fuel original) (
        rw (
          collect-join_words fuel original (v ∷ ws)
            (omega (arith, length-append (format_word (c ∷ w)) tail, format_word_pos c w))))

-- What `format_arguments` writes, on the words that it makes of its arguments.
pub map-format_argument :
    (args : List Bytes) → map format_argument args ≡ map format_word (map to_string_lossy args)
unfolding format_argument
map-format_argument [] = refl
map-format_argument (a ∷ args) = rw (map-format_argument args)

-- Words that are formatted and joined are read back, except for the empty ones.
pub parse_arguments-join_words :
    (ws : List Bytes) → parse_arguments (join_words (map format_word ws)) ≡ ok (drop_empty ws)
unfolding parse_arguments
parse_arguments-join_words ws = collect-join_words _ _ ws (omega arith)

-- The formatted arguments are read back as the arguments, in order, each with its broken UTF-8
-- replaced, except that the empty arguments are gone.
pub parse_arguments-format_arguments :
    (args : List Bytes)
    → parse_arguments (format_arguments args) ≡ ok (drop_empty (map to_string_lossy args))
unfolding format_arguments
parse_arguments-format_arguments args =
    rw map-format_argument (parse_arguments-join_words (map to_string_lossy args))
