-- ===== src/ArgumentParser.antt =====
-- test_spec/argument_parser.rs: `Parser`, which splits a command line into words. A method that
-- mutates the parser returns the parser beside its result.
pub mod Loops
pub mod Total
use check_protocols.Prelude.{
  ℕ, zero, suc, Bool, true, false, Option, none, some, List, [], ◌∷◌, ◌++◌, ◌==◌, if◌then◌else◌,
  length, any,
}
use check_protocols.Prelude.Text.{Bytes}
use check_protocols.Result.{
  ParseMessage, backslash_at_end, shouldnt_happen, unmatched_quotes, closing_quotes, opening_quotes,
  unknown_escaped, parse_error, R, ok, err, diverge, ◌>>=◌,
}

abbrev pub space : ℕ
space = b' '

abbrev pub quote : ℕ
quote = 34

abbrev pub backslash : ℕ
backslash = 92

abbrev pub newline : ℕ
newline = 10

pub record Parser : Type 0 where
  pub original : Bytes
  pub input : Bytes

unfoldable pub fail {ℓ} : {A : Type ℓ} → Parser → ParseMessage → R A
fail p message = err (parse_error message p.original)

unfoldable pub drop_spaces : Bytes → Bytes
drop_spaces [] = []
drop_spaces (c ∷ s) = if c == space then drop_spaces s else c ∷ s

unfoldable pub skip_spaces : Parser → Parser
unfolding drop_spaces
skip_spaces p = record p { input = drop_spaces p.input }

-- on the characters in front; the popped character is gone also where the call fails
pop_expected : ℕ → ParseMessage → Parser → Bytes → R Parser
unfolding fail
pop_expected expected message p [] = fail p message
pop_expected expected message p (c ∷ s) =
    if c == expected then ok (record p { input = s }) else fail p message

unfoldable pub skip_char : ℕ → ParseMessage → Parser → R Parser
unfolding pop_expected
skip_char expected message p = pop_expected expected message p p.input

is_next : Option ℕ → Bytes → Bool
is_next none [] = true
is_next (some e) (c ∷ s) = e == c
is_next _ _ = false

-- succeeds if the next character, or the end, is one of those expected
unfoldable pub peek_chars : List (Option ℕ) → ParseMessage → Parser → R Parser
unfolding is_next fail
peek_chars expected message p =
    if any (λ e. is_next e p.input) expected then ok p else fail p message

-- the character that a backslash and `c` stand for
unescape_char : ℕ → Option ℕ
unescape_char c =
    if c == quote
    then some quote
    else if c == b'n'
    then some newline
    else if c == space
    then some space
    else if c == backslash
    then some backslash
    else none

escaped_char : Parser → Bytes → R (Option ℕ × Parser)
unfolding unescape_char fail
escaped_char p [] = fail p backslash_at_end
escaped_char p (c ∷ s) = elim (unescape_char c) [
  | some d ↦ ok (some d, record p { input = s })
  | none ↦ fail p (unknown_escaped c)
]

next_char : List ℕ → Parser → Bytes → R (Option ℕ × Parser)
unfolding escaped_char
next_char excluded p [] = ok (none, p)
next_char excluded p (c ∷ s) =
    if c == backslash
    then escaped_char p s
    else if any (λ e. e == c) excluded
    then ok (none, p)
    else ok (some c, record p { input = s })

unfoldable pub parse_char : List ℕ → Parser → R (Option ℕ × Parser)
unfolding next_char
parse_char excluded p = next_char excluded p p.input

-- `while let Some(char) = self.parse_char(excluded)? { result.push(char); }`
unfoldable pub collect_loop : ℕ → List ℕ → Bytes → Parser → R (Bytes × Parser)
collect_loop zero excluded result p = diverge
collect_loop (suc fuel) excluded result p = do
  (char, q) ← parse_char excluded p
  elim char [ none ↦ ok (result, q) | some c ↦ collect_loop fuel excluded (result ++ c ∷ []) q ]

-- every round but the last pops a character
unfoldable pub collect_chars_until : List ℕ → Parser → R (Bytes × Parser)
collect_chars_until excluded p = collect_loop (suc (length p.input)) excluded [] p

abbrev pub word_ends : List (Option ℕ)
word_ends = some space ∷ none ∷ []

quoted_word : Parser → R (Option Bytes × Parser)
quoted_word p = do
  p₁ ← skip_char quote shouldnt_happen p
  (word, p₂) ← collect_chars_until (quote ∷ []) p₁
  p₃ ← skip_char quote unmatched_quotes p₂
  p₄ ← peek_chars word_ends closing_quotes p₃
  ok (some word, p₄)

unfoldable pub plain_word : Parser → R (Option Bytes × Parser)
plain_word p = do
  (word, p₁) ← collect_chars_until (space ∷ quote ∷ []) p
  p₂ ← peek_chars word_ends opening_quotes p₁
  ok (some word, p₂)

word_at : Parser → Bytes → R (Option Bytes × Parser)
unfolding quoted_word plain_word
word_at p [] = ok (none, p)
word_at p (c ∷ s) = if c == quote then quoted_word p else plain_word p

unfoldable pub parse_word : Parser → R (Option Bytes × Parser)
unfolding word_at
parse_word p = let q = skip_spaces p in word_at q q.input

-- `collect()` over the iterator: words until `None`, or the first error
unfoldable pub collect : ℕ → Parser → R (List Bytes)
collect zero p = diverge
collect (suc fuel) p = do
  (word, q) ← parse_word p
  elim word [ none ↦ ok [] | some w ↦ (do rest ← collect fuel q; ok (w ∷ rest)) ]

-- every word takes a character at least
unfoldable pub parse_arguments : Bytes → R (List Bytes)
parse_arguments arguments =
    collect (suc (length arguments)) (record { original = arguments; input = arguments })
