-- ===== src/ArgumentParser/Total.antt =====
-- Every loop of the parser ends within the fuel that `parse_arguments` gives it.
use check_protocols.Prelude.{
  ℕ, zero, suc, ◌≤◌, ◌<◌, ◌≡◌, refl, ◌≢◌, inl, inr, false, Option, none, some, List, [], ◌∷◌, arith,
  ◌==◌, Bool-cases, length,
}
use check_protocols.ArgumentParser.{
  space, quote, Parser, drop_spaces, skip_spaces, peek_chars, word_ends, quoted_word, plain_word,
  word_at, parse_word, collect, parse_arguments,
}
use check_protocols.ArgumentParser.Loops.{
  AtMost, skip_char-AtMost, peek_chars-AtMost, Within, collect_chars_until-Within,
  collect_chars_until_first,
}
use check_protocols.Prelude.Text.{Bytes}
use check_protocols.Result.{
  ParseMessage, shouldnt_happen, unmatched_quotes, closing_quotes, opening_quotes, R, ok, panic,
  diverge, ◌>>=◌, Ends, Ends-bind, Ends-weaken, ends,
}

abbrev WordMoves : ℕ → Option Bytes × Parser → Type 0
WordMoves n (none, q) = Unit
WordMoves n (some w, q) = AtMost n q

word_end-WordMoves :
    (m : ParseMessage) (word : Bytes) (p : Parser) (n : ℕ)
    → length p.input ≤ n
    → Ends (WordMoves n) (peek_chars word_ends m p >>= λ q. ok (some word, q))
word_end-WordMoves m word p n h =
    Ends-bind (AtMost n) (WordMoves n) _ _ (peek_chars-AtMost word_ends m p n h) (λ q k. k)

quoted_word-WordMoves :
    (p : Parser) (n : ℕ) → length p.input ≤ suc n → Ends (WordMoves n) (quoted_word p)
unfolding quoted_word
quoted_word-WordMoves p n h =
    Ends-bind (AtMost n) (WordMoves n) _ _ (skip_char-AtMost quote shouldnt_happen p n h) λ q k.
      Ends-bind (Within n) (WordMoves n) _ _ (collect_chars_until-Within (quote ∷ []) q n k) λ r l.
        Ends-bind (AtMost n) (WordMoves n) _ _
          (skip_char-AtMost quote unmatched_quotes r.1 n (omega arith))
          λ q' k'. word_end-WordMoves closing_quotes r.0 q' n k'

plain_word-WordMoves :
    (original : Bytes) (c : ℕ) (s : Bytes)
    → (c == quote) ≡ false
    → (c == space) ≡ false
    → Ends (WordMoves (length s)) (plain_word (record { original = original; input = c ∷ s }))
unfolding plain_word
plain_word-WordMoves original c s f g =
    Ends-bind (Within (length s)) (WordMoves (length s)) _ _
      (collect_chars_until_first (space ∷ quote ∷ []) original c s (ground arith))
      λ r l. word_end-WordMoves opening_quotes r.0 r.1 (length s) l

-- what is left behind the spaces is shorter by one at least when a word was read
drop_spaces-le : (s : Bytes) → length (drop_spaces s) ≤ length s
unfolding drop_spaces
drop_spaces-le [] = omega arith
drop_spaces-le (c ∷ s) = ground (arith, drop_spaces-le s)

drop_spaces_head : (s : Bytes) (c : ℕ) (r : Bytes) → drop_spaces s ≡ c ∷ r → (c == space) ≡ false
unfolding drop_spaces
drop_spaces_head [] c r h = cc
drop_spaces_head (d ∷ s) c r h = ground (arith, drop_spaces_head s c r)

WordMoves-mono : (m n : ℕ) → m ≤ n → (r : Option Bytes × Parser) → WordMoves m r → WordMoves n r
WordMoves-mono m n h (none, q) k = tt
WordMoves-mono m n h (some w, q) k = omega arith

word_at-WordMoves :
    (original : Bytes) (s : Bytes) (n : ℕ)
    → ((c : ℕ) (r : Bytes) → s ≡ c ∷ r → (c == space) ≡ false)
    → length s ≤ suc n
    → Ends (WordMoves n) (word_at (record { original = original; input = s }) s)
unfolding word_at
word_at-WordMoves original [] n g h = tt
word_at-WordMoves original (c ∷ s) n g h = elim (Bool-cases (c == quote)) [
  | inl e ↦ rw e (quoted_word-WordMoves _ n h)
  | inr e ↦ rw e (
      Ends-weaken (WordMoves (length s)) (WordMoves n) _
        (plain_word-WordMoves original c s e (g c s refl))
        (WordMoves-mono (length s) n (omega arith)))
]

parse_word-WordMoves :
    (p : Parser) (n : ℕ) → length p.input ≤ suc n → Ends (WordMoves n) (parse_word p)
unfolding parse_word skip_spaces
parse_word-WordMoves p n h =
    word_at-WordMoves p.original (drop_spaces p.input) n (drop_spaces_head p.input)
      (omega (arith, drop_spaces-le p.input))

next_words :
    (fuel n : ℕ)
    → ((q : Parser) → length q.input ≤ n → Ends (λ ws. Unit) (collect fuel q))
    → (r : Option Bytes × Parser) → WordMoves n r
    → Ends
        (λ ws. Unit)
        (elim r.0 as (λ x. R (List Bytes)) [
          | none ↦ ok []
          | some w ↦ (do rest ← collect fuel r.1; ok (w ∷ rest))
        ])
next_words fuel n ih (none, q) m = tt
next_words fuel n ih (some w, q) m = Ends-bind (λ ws. Unit) (λ ws. Unit) _ _ (ih q m) (λ ws _. tt)

collect-Ends :
    (fuel : ℕ) (original s : Bytes)
    → length s < fuel
    → Ends (λ ws. Unit) (collect fuel (record { original = original; input = s }))
unfolding collect
collect-Ends zero original s f = elim f [ ]
collect-Ends (suc fuel) original [] f = unfold parse_word skip_spaces in tt
collect-Ends (suc fuel) original (c ∷ s) f =
    Ends-bind (WordMoves (length s)) (λ ws. Unit) (parse_word _) _
      (parse_word-WordMoves _ (length s) (omega arith))
      (next_words fuel (length s) (λ q h. collect-Ends fuel q.original q.input (omega arith)))

pub parse_arguments-Ends : (arguments : Bytes) → Ends (λ ws. Unit) (parse_arguments arguments)
unfolding parse_arguments
parse_arguments-Ends arguments = collect-Ends _ arguments arguments (omega arith)

-- For every text the parser returns words or an error: no loop runs out of the fuel that it is
-- given, and nothing panics.
pub parse_arguments_total :
    (arguments : Bytes)
    → (parse_arguments arguments ≢ diverge) × (parse_arguments arguments ≢ panic)
parse_arguments_total arguments = ends _ (parse_arguments-Ends arguments)
