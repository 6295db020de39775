-- ===== src/Memory/Strings.antt =====
-- `string_to_data` and `data_to_string` undo one another.
use Prim.Native.Nat.add
use native.Mathlib.Decide.{dec_lt}
use check_protocols.Prelude.{
  ℕ, zero, suc, ◌+◌, ◌-◌, ◌*◌, ◌/◌, ◌^◌, ◌≤◌, ◌<◌, ◌≡◌, refl, ap, ◌∙◌, inl, inr, Bool, true, false,
  some, List, [], ◌∷◌, ◌++◌, append_assoc, append-nil, arith, ◌==◌, Bool-cases, length, get_or,
  drop, take, All,
}
use check_protocols.Memory.{
  Iter, cast_to_eight_byte_word, push_until_zero, data_to_string, fill_word, string_words,
  string_to_data,
}
use check_protocols.Memory.Words.{IsByte, array-word, word-lt}
use check_protocols.Prelude.Text.{Bytes}
use check_protocols.Result.{R, ok}

-- a byte that can stand in a string that a zero byte ends
abbrev pub IsTextByte : ℕ → Type 0
IsTextByte b = (0 < b) × (b < 256)

push-All :
    (result bytes : Bytes)
    → All IsTextByte bytes
    → push_until_zero result bytes ≡ (result ++ bytes, false)
unfolding push_until_zero
push-All result [] h = rw append-nil
push-All result (c ∷ bytes) (h, hs) = elim (Bool-cases (c == 0)) [
  | inl e ↦ absurd (ground arith)
  | inr e ↦
      rw (e, push_until_zero)
        (push-All (result ++ c ∷ []) bytes hs ∙ rw (append_assoc result (c ∷ []) bytes))
]

push_to_zero :
    (result bytes rest : Bytes)
    → All IsTextByte bytes
    → push_until_zero result (bytes ++ (0 ∷ rest)) ≡ (result ++ bytes, true)
unfolding push_until_zero
push_to_zero result [] rest h = rw append-nil
push_to_zero result (c ∷ bytes) rest (h, hs) = elim (Bool-cases (c == 0)) [
  | inl e ↦ absurd (ground arith)
  | inr e ↦
      rw (e, push_until_zero)
        (push_to_zero (result ++ c ∷ []) bytes rest hs ∙ rw (append_assoc result (c ∷ []) bytes))
]

fill_long : (s : Bytes) → 8 ≤ length s → fill_word s 0 ≡ take 8 s
unfolding fill_word
fill_long (a ∷ b ∷ c ∷ d ∷ e ∷ f ∷ g ∷ h ∷ s) n = refl
fill_long _ n = absurd (omega arith)

fill_short : (s : Bytes) → length s < 8 → (zeros : Bytes) × (fill_word s 0 ≡ s ++ (0 ∷ zeros))
unfolding fill_word
fill_short [] n = (0 ∷ 0 ∷ 0 ∷ 0 ∷ 0 ∷ 0 ∷ 0 ∷ [], refl)
fill_short (a ∷ []) n = (0 ∷ 0 ∷ 0 ∷ 0 ∷ 0 ∷ 0 ∷ [], refl)
fill_short (a ∷ b ∷ []) n = (0 ∷ 0 ∷ 0 ∷ 0 ∷ 0 ∷ [], refl)
fill_short (a ∷ b ∷ c ∷ []) n = (0 ∷ 0 ∷ 0 ∷ 0 ∷ [], refl)
fill_short (a ∷ b ∷ c ∷ d ∷ []) n = (0 ∷ 0 ∷ 0 ∷ [], refl)
fill_short (a ∷ b ∷ c ∷ d ∷ e ∷ []) n = (0 ∷ 0 ∷ [], refl)
fill_short (a ∷ b ∷ c ∷ d ∷ e ∷ f ∷ []) n = (0 ∷ [], refl)
fill_short (a ∷ b ∷ c ∷ d ∷ e ∷ f ∷ g ∷ []) n = ([], refl)
fill_short (a ∷ b ∷ c ∷ d ∷ e ∷ f ∷ g ∷ h ∷ s) n = absurd (omega arith)

get_or-IsByte : (s : Bytes) (i : ℕ) → All IsTextByte s → IsByte (get_or s i 0)
get_or-IsByte [] i h = omega arith
get_or-IsByte (c ∷ s) zero h = omega arith
get_or-IsByte (c ∷ s) (suc i) (h, hs) = get_or-IsByte s i hs

fill_word-IsByte : (s : Bytes) (k : ℕ) → All IsTextByte s → All IsByte (fill_word s k)
unfolding fill_word
fill_word-IsByte s k h =
    let byte = λ (i : ℕ). get_or-IsByte s i h in
    (byte _, (byte _, (byte _, (byte _, (byte _, (byte _, (byte _, (byte _, tt))))))))

length-fill_word : (s : Bytes) (k : ℕ) → length (fill_word s k) ≡ 8
unfolding fill_word
length-fill_word s k = refl

pub string_words-lt :
    (n k : ℕ) (s : Bytes) → All IsTextByte s → All (λ w. w < 2 ^ 64) (string_words n k s)
unfolding string_words
string_words-lt zero k s h = tt
string_words-lt (suc n) k s h = (
  word-lt (fill_word s (k * 8)) (length-fill_word s (k * 8)) (fill_word-IsByte s (k * 8) h),
  string_words-lt n (k + 1) s h,
)

-- the same words, from the string that is left
words_of : ℕ → Bytes → List ℕ
words_of zero s = []
words_of (suc n) s = cast_to_eight_byte_word (fill_word s 0) ∷ words_of n (drop 8 s)

get_or-drop : (s : Bytes) (k i : ℕ) → get_or (drop k s) i 0 ≡ get_or s (k + i) 0
get_or-drop s zero i = rw add.zero
get_or-drop [] (suc k) i = refl
get_or-drop (c ∷ s) (suc k) i = rw add.suc (get_or-drop s k i)

drop-drop : (s : Bytes) (j k : ℕ) → drop j (drop k s) ≡ drop (k + j) s
drop-drop s j zero = rw add.zero
drop-drop [] zero (suc k) = rw add.suc
drop-drop [] (suc j) (suc k) = rw add.suc
drop-drop (c ∷ s) j (suc k) = rw add.suc (drop-drop s j k)

fill_word-drop : (s : Bytes) (k : ℕ) → fill_word (drop k s) 0 ≡ fill_word s k
unfolding fill_word
fill_word-drop s k = simp get_or-drop

string_words-drop : (n k : ℕ) (s : Bytes) → string_words n k s ≡ words_of n (drop (k * 8) s)
unfolding string_words words_of
string_words-drop zero k s = refl
string_words-drop (suc n) k s =
    let next : (k + 1) * 8 ≡ k * 8 + 8 = omega arith in
    rw (fill_word-drop s (k * 8), string_words-drop n (k + 1) s, drop-drop s 8 (k * 8), next)

-- the iterator gives these words from call `i` on
abbrev pub Gives : Iter → ℕ → List ℕ → Type 0
Gives words i [] = Unit
Gives words i (w ∷ ws) = (words i ≡ some (ok w)) × Gives words (suc i) ws

All-drop : (k : ℕ) (s : Bytes) → All IsTextByte s → All IsTextByte (drop k s)
All-drop zero s h = h
All-drop (suc k) [] h = h
All-drop (suc k) (c ∷ s) (h, hs) = All-drop k s hs

All-take : (k : ℕ) (s : Bytes) → All IsTextByte s → All IsTextByte (take k s)
All-take zero s h = tt
All-take (suc k) [] h = h
All-take (suc k) (c ∷ s) (h, hs) = (h, All-take k s hs)

take-append-drop : (k : ℕ) (s : Bytes) → take k s ++ drop k s ≡ s
take-append-drop zero s = refl
take-append-drop (suc k) [] = refl
take-append-drop (suc k) (c ∷ s) = rw (take-append-drop k s)

length-drop : (k : ℕ) (s : Bytes) → length (drop k s) ≡ length s - k
length-drop zero s = omega arith
length-drop (suc k) [] = omega arith
length-drop (suc k) (c ∷ s) = omega (arith, length-drop k s)

-- one round, on a word that holds the front of `s`
data_to_string_round :
    (fuel : ℕ) (words : Iter) (i : ℕ) (result s : Bytes) (pushed : Bytes × Bool)
    → All IsTextByte s
    → words i ≡ some (ok (cast_to_eight_byte_word (fill_word s 0)))
    → push_until_zero result (fill_word s 0) ≡ pushed
    → data_to_string (suc fuel) words i result
      ≡ (elim pushed.1 [ true ↦ ok pushed.0 | false ↦ data_to_string fuel words (suc i) pushed.0 ])
unfolding data_to_string
data_to_string_round fuel words i result s pushed h first e =
    let bytes = array-word (fill_word s 0) (length-fill_word s 0) (fill_word-IsByte s 0 h) in
    rw (first, data_to_string)
      (ap
        (λ (p : Bytes × Bool). elim p.1 as (λ b. R Bytes) [
          | true ↦ ok p.0
          | false ↦ data_to_string fuel words (suc i) p.0
        ])
        (ap (push_until_zero result) bytes ∙ e))

data_to_string-words_of :
    (n fuel : ℕ) (words : Iter) (i : ℕ) (result s : Bytes)
    → All IsTextByte s
    → length s / 8 + 1 ≡ n
    → n ≤ fuel
    → Gives words i (words_of n s)
    → data_to_string fuel words i result ≡ ok (result ++ s)
unfolding words_of
data_to_string-words_of zero fuel words i result s h e f g = absurd (omega arith)
data_to_string-words_of (suc n) zero words i result s h e f g = absurd (omega arith)
data_to_string-words_of (suc n) (suc fuel) words i result s h e f (first, later) =
    elim (dec_lt (length s) 8) [
      | yes short ↦
          let (zeros, filled) = fill_short s short in
          data_to_string_round fuel words i result s (result ++ s, true) h first
            (rw filled (push_to_zero result s zeros h))
      | no long ↦
          data_to_string_round fuel words i result s (result ++ take 8 s, false) h first
            (rw (fill_long s (omega arith)) (push-All result (take 8 s) (All-take 8 s h)))
          ∙ data_to_string-words_of n fuel words (suc i) (result ++ take 8 s) (drop 8 s)
              (All-drop 8 s h) (omega (arith, length-drop 8 s)) (omega arith) later
          ∙ rw (append_assoc result (take 8 s) (drop 8 s), take-append-drop 8 s)
    ]

string_to_data-words_of :
    (s : Bytes) (max_size : ℕ) (ws : List ℕ)
    → string_to_data s max_size ≡ ok ws
    → ws ≡ words_of (length s / 8 + 1) s
unfolding string_to_data
string_to_data-words_of s max_size ws e = ground (arith, string_words-drop (length s / 8 + 1) 0 s)

-- A string without zero bytes that fits is laid out in words from which it is read back, by an
-- iterator that gives these words and with fuel for each of them.
pub data_to_string-string_to_data :
    (s : Bytes) (max_size fuel : ℕ) (ws : List ℕ) (words : Iter)
    → All IsTextByte s
    → string_to_data s max_size ≡ ok ws
    → length s / 8 + 1 ≤ fuel
    → Gives words 0 ws
    → data_to_string fuel words 0 [] ≡ ok s
data_to_string-string_to_data s max_size fuel ws words h e f g =
    data_to_string-words_of (length s / 8 + 1) fuel words 0 [] s h refl f
      (rw (← string_to_data-words_of s max_size ws e) g)
