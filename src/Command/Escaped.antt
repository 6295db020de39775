-- ===== src/Command/Escaped.antt =====
-- How the parser reads the escaped characters of a word, in quotes and without.
use check_protocols.Prelude.{
  ℕ, zero, suc, ◌≤◌, ◌<◌, ◌≡◌, refl, ◌∙◌, false, ◌||◌, some, [], ◌∷◌, ◌++◌, append_assoc,
  append-nil, arith, ◌==◌, length, any, length-append,
}
use check_protocols.ArgumentParser.{
  space, quote, peek_chars, parse_char, collect_loop, collect_chars_until, word_ends,
}
use check_protocols.Command.{escape_char, escape}
use check_protocols.Prelude.Text.{Bytes}
use check_protocols.Result.{ParseMessage, ok}

-- An escaped character is read back, between quotes and outside of them.
escaped_in_quotes :
    (original : Bytes) (c : ℕ) (s : Bytes)
    → parse_char (quote ∷ []) (record { original = original; input = escape_char c ++ s })
      ≡ ok (some c, record { original = original; input = s })
unfolding parse_char escape_char
escaped_in_quotes original c s = ground arith

escaped_outside :
    (original : Bytes) (c : ℕ) (s : Bytes)
    → (c == space) ≡ false
    → parse_char (space ∷ quote ∷ []) (record { original = original; input = escape_char c ++ s })
      ≡ ok (some c, record { original = original; input = s })
unfolding parse_char escape_char
escaped_outside original c s h = ground arith

pub collect_loop-in_quotes :
    (fuel : ℕ) (original w rest word : Bytes)
    → length w < fuel
    → collect_loop fuel
        (quote ∷ [])
        word
        (record { original = original; input = escape w ++ (quote ∷ rest) })
      ≡ ok (word ++ w, record { original = original; input = quote ∷ rest })
unfolding collect_loop escape
collect_loop-in_quotes zero original w rest word f = elim f [ ]
collect_loop-in_quotes (suc fuel) original [] rest word f = unfold parse_char in rw append-nil
collect_loop-in_quotes (suc fuel) original (c ∷ w) rest word f =
    rw (append_assoc (escape_char c) (escape w) (quote ∷ rest)) (
      rw escaped_in_quotes (
        rw (collect_loop-in_quotes fuel original w rest (word ++ c ∷ []) (omega arith))
          (rw (append_assoc word (c ∷ []) w))))

-- what may follow a word
abbrev pub IsTail : Bytes → Type 0
IsTail [] = Unit
IsTail (c ∷ s) = c ≡ space

pub collect_loop-outside :
    (fuel : ℕ) (original w rest word : Bytes)
    → length w < fuel
    → any (λ c. c == space) w ≡ false
    → IsTail rest
    → collect_loop fuel
        (space ∷ quote ∷ [])
        word
        (record { original = original; input = escape w ++ rest })
      ≡ ok (word ++ w, record { original = original; input = rest })
unfolding collect_loop escape
collect_loop-outside zero original w rest word f h t = elim f [ ]
collect_loop-outside (suc fuel) original [] [] word f h t =
    unfold parse_char in rw (append-nil word)
collect_loop-outside (suc fuel) original [] (c ∷ rest) word f h t =
    unfold parse_char in rw t (rw (append-nil word))
collect_loop-outside (suc fuel) original (c ∷ w) rest word f h t =
    rw (append_assoc (escape_char c) (escape w) rest) (
      rw (escaped_outside original c _ (ground arith)) (
        rw
          (collect_loop-outside fuel original w rest (word ++ c ∷ []) (omega arith) (ground arith)
            t)
          (rw (append_assoc word (c ∷ []) w))))

pub escape_char_pos : (c : ℕ) → 0 < length (escape_char c)
unfolding escape_char
escape_char_pos c = ground arith

pub length-escape : (w : Bytes) → length w ≤ length (escape w)
unfolding escape
length-escape [] = omega arith
length-escape (c ∷ w) =
    omega (arith, length-append (escape_char c) (escape w), escape_char_pos c, length-escape w)

-- what `collect_chars_until` reads of an escaped word
pub read_in_quotes :
    (original w rest : Bytes)
    → collect_chars_until
        (quote ∷ [])
        (record { original = original; input = escape w ++ (quote ∷ rest) })
      ≡ ok (w, record { original = original; input = quote ∷ rest })
unfolding collect_chars_until
read_in_quotes original w rest =
    collect_loop-in_quotes _ original w rest []
      (omega (arith, length-append (escape w) (quote ∷ rest), length-escape w))

pub read_outside :
    (original w rest : Bytes)
    → any (λ c. c == space) w ≡ false
    → IsTail rest
    → collect_chars_until
        (space ∷ quote ∷ [])
        (record { original = original; input = escape w ++ rest })
      ≡ ok (w, record { original = original; input = rest })
unfolding collect_chars_until
read_outside original w rest h t =
    collect_loop-outside _ original w rest []
      (omega (arith, length-append (escape w) rest, length-escape w)) h t

pub peek_tail :
    (m : ParseMessage) (original rest : Bytes)
    → IsTail rest
    → peek_chars word_ends m (record { original = original; input = rest })
      ≡ ok (record { original = original; input = rest })
unfolding peek_chars
peek_tail m original [] t = refl
peek_tail m original (c ∷ rest) t = rw t

-- escaping adds no space
any-escape_char :
    (c : ℕ) (s : Bytes)
    → any (λ d. d == space) (escape_char c ++ s) ≡ ((c == space) || any (λ d. d == space) s)
unfolding escape_char
any-escape_char c s = ground arith

pub any-escape : (w : Bytes) → any (λ c. c == space) (escape w) ≡ any (λ c. c == space) w
unfolding escape
any-escape [] = refl
any-escape (c ∷ w) = any-escape_char c (escape w) ∙ rw (any-escape w)
