-- ===== src/ArgumentParser/Loops.antt =====
-- What one step of the parser takes from its input, and the loop that collects characters.
use check_protocols.Prelude.{
  ℕ, zero, suc, ◌-◌, ◌≤◌, ◌<◌, ◌≡◌, inl, inr, false, Option, none, some, List, [], ◌∷◌, ◌++◌, arith,
  ◌==◌, Bool-cases, Option-cases, length, any,
}
use check_protocols.ArgumentParser.{
  backslash, Parser, pop_expected, skip_char, is_next, peek_chars, unescape_char, escaped_char,
  next_char, parse_char, collect_loop, collect_chars_until,
}
use check_protocols.Prelude.Text.{Bytes}
use check_protocols.Result.{ParseMessage, R, ok, Ends, Ends-bind, Ends-weaken}

-- at most `n` characters are left
abbrev pub AtMost : ℕ → Parser → Type 0
AtMost n p = length p.input ≤ n

pop_expected-AtMost :
    (c : ℕ) (m : ParseMessage) (p : Parser) (s : Bytes) (n : ℕ)
    → length s ≤ suc n
    → Ends (AtMost n) (pop_expected c m p s)
unfolding pop_expected
pop_expected-AtMost c m p [] n h = tt
pop_expected-AtMost c m p (d ∷ s) n h = elim (Bool-cases (d == c)) [
  | inl e ↦ rw e (omega arith)
  | inr e ↦ rw e tt
]

pub skip_char-AtMost :
    (c : ℕ) (m : ParseMessage) (p : Parser) (n : ℕ)
    → length p.input ≤ suc n
    → Ends (AtMost n) (skip_char c m p)
unfolding skip_char
skip_char-AtMost c m p n h = pop_expected-AtMost c m p p.input n h

pub peek_chars-AtMost :
    (l : List (Option ℕ)) (m : ParseMessage) (p : Parser) (n : ℕ)
    → length p.input ≤ n
    → Ends (AtMost n) (peek_chars l m p)
unfolding peek_chars
peek_chars-AtMost l m p n h = elim (Bool-cases (any (λ e. is_next e p.input) l)) [
  | inl e ↦ rw e h
  | inr e ↦ rw e tt
]

-- Of at most `n` characters one was taken off, or none was.
abbrev pub Moves : ℕ → Option ℕ × Parser → Type 0
Moves n (none, q) = AtMost n q
Moves n (some c, q) = length q.input < n

-- Of at most `n` characters one was taken off.
abbrev pub Took : ℕ → Option ℕ × Parser → Type 0
Took n (none, q) = ⊥
Took n (some c, q) = length q.input < n

pub Took-Moves : (n : ℕ) (r : Option ℕ × Parser) → Took n r → Moves n r
Took-Moves n (none, q) h = absurd h
Took-Moves n (some c, q) h = h

escaped_char-Took :
    (p : Parser) (s : Bytes) (n : ℕ) → length s < n → Ends (Took n) (escaped_char p s)
unfolding escaped_char
escaped_char-Took p [] n h = tt
escaped_char-Took p (c ∷ s) n h = elim (Option-cases (unescape_char c)) [
  | inl e ↦ rw (e, escaped_char) tt
  | inr (d, e) ↦ rw (e, escaped_char) (omega arith)
]

next_char-Took :
    (excluded : List ℕ) (p : Parser) (c : ℕ) (s : Bytes) (n : ℕ)
    → any (λ x. x == c) excluded ≡ false
    → length s < n
    → Ends (Took n) (next_char excluded p (c ∷ s))
unfolding next_char
next_char-Took excluded p c s n f h = elim (Bool-cases (c == backslash)) [
  | inl e ↦ rw e (escaped_char-Took p s n h)
  | inr e ↦ rw (e, f) h
]

next_char-Moves :
    (excluded : List ℕ) (p : Parser) (s : Bytes) (n : ℕ)
    → length s ≤ n
    → length p.input ≤ n
    → Ends (Moves n) (next_char excluded p s)
unfolding next_char
next_char-Moves excluded p [] n h k = k
next_char-Moves excluded p (c ∷ s) n h k = elim (Bool-cases (c == backslash)) [
  | inl e ↦ rw e (Ends-weaken _ _ _ (escaped_char-Took p s n (omega arith)) (Took-Moves n))
  | inr e ↦ elim (Bool-cases (any (λ x. x == c) excluded)) [
    | inl f ↦ rw (e, f) k
    | inr f ↦ rw (e, f) (omega arith)
  ]
]

abbrev pub Within {ℓ} : {A : Type ℓ} → ℕ → A × Parser → Type 0
Within n (a, q) = AtMost n q

pub next_round :
    (fuel : ℕ) (excluded : List ℕ) (word : Bytes) (p : Parser) (n : ℕ)
    → ((word' : Bytes) (q : Parser)
        → length q.input < n
        → Ends (Within n) (collect_loop fuel excluded word' q))
    → (r : Option ℕ × Parser) → Moves n r
    → Ends (Within {A = Bytes} n) (elim r.0 as (λ x. R (Bytes × Parser)) [
      | none ↦ ok (word, r.1)
      | some c ↦ collect_loop fuel excluded (word ++ c ∷ []) r.1
    ])
next_round fuel excluded word p n ih (none, q) m = m
next_round fuel excluded word p n ih (some c, q) m = ih (word ++ c ∷ []) q m

pub collect_loop-Within :
    (fuel : ℕ) (excluded : List ℕ) (word : Bytes) (p : Parser) (n : ℕ)
    → length p.input ≤ n
    → n < fuel
    → Ends (Within n) (collect_loop fuel excluded word p)
unfolding collect_loop parse_char
collect_loop-Within zero excluded word p n h f = elim f [ ]
collect_loop-Within (suc fuel) excluded word p n h f =
    Ends-bind (Moves n) (Within n) (parse_char excluded p) _
      (next_char-Moves excluded p p.input n h h)
      (next_round fuel excluded word p n λ w q m.
        Ends-weaken (Within (n - 1)) (Within n) _
          (collect_loop-Within fuel excluded w q (n - 1) (omega arith) (omega arith))
          (λ r k. omega arith))

pub collect_chars_until-Within :
    (excluded : List ℕ) (p : Parser) (n : ℕ)
    → length p.input ≤ n
    → Ends (Within n) (collect_chars_until excluded p)
unfolding collect_chars_until
collect_chars_until-Within excluded p n h =
    Ends-weaken (Within (length p.input)) (Within n) _
      (collect_loop-Within (suc (length p.input)) excluded [] p (length p.input) (omega arith)
        (omega arith))
      (λ r k. omega arith)

pub later_rounds :
    (fuel : ℕ) (excluded : List ℕ) (word : Bytes) (n : ℕ)
    → n < fuel
    → (r : Option ℕ × Parser) → Took (suc n) r
    → Ends (Within {A = Bytes} n) (elim r.0 as (λ x. R (Bytes × Parser)) [
      | none ↦ ok (word, r.1)
      | some c ↦ collect_loop fuel excluded (word ++ c ∷ []) r.1
    ])
later_rounds fuel excluded word n f (none, q) m = absurd m
later_rounds fuel excluded word n f (some c, q) m =
    collect_loop-Within fuel excluded (word ++ c ∷ []) q n (omega arith) f

-- A first character that does not end the word is taken off.
pub collect_chars_until_first :
    (excluded : List ℕ) (original : Bytes) (c : ℕ) (s : Bytes)
    → any (λ x. x == c) excluded ≡ false
    → Ends
        (Within (length s))
        (collect_chars_until excluded (record { original = original; input = c ∷ s }))
unfolding collect_chars_until collect_loop parse_char
collect_chars_until_first excluded original c s f =
    Ends-bind (Took (suc (length s))) (Within (length s)) _ _
      (next_char-Took excluded _ c s (suc (length s)) f (omega arith))
      (later_rounds (suc (length s)) excluded [] (length s) (omega arith))

-- A word took a character off at most `suc n`, or there was none.
