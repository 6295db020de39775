-- ===== src/Memory/Words.antt =====
-- The casts between words and byte arrays.
use check_protocols.Prelude.{ℕ, ◌^◌, ◌<◌, ◌≡◌, refl, [], ◌∷◌, arith, length, All}
use check_protocols.Memory.{cast_to_eight_byte_array, cast_to_eight_byte_word}
use check_protocols.Prelude.Text.{Bytes}

abbrev pub IsByte : ℕ → Type 0
IsByte b = b < 256

-- The bytes of a word are bytes, and they spell the word.
pub word-array : (x : ℕ) → x < 2 ^ 64 → cast_to_eight_byte_word (cast_to_eight_byte_array x) ≡ x
unfolding cast_to_eight_byte_word cast_to_eight_byte_array
word-array x h = omega arith

pub array-IsByte : (x : ℕ) → All IsByte (cast_to_eight_byte_array x)
unfolding cast_to_eight_byte_array
array-IsByte x = omega arith

pub length-array : (x : ℕ) → length (cast_to_eight_byte_array x) ≡ 8
unfolding cast_to_eight_byte_array
length-array x = refl

module _ (a b c d e f g h : ℕ) where
  abbrev eight : Bytes
  eight = a ∷ b ∷ c ∷ d ∷ e ∷ f ∷ g ∷ h ∷ []

  word_lt : All IsByte eight → cast_to_eight_byte_word eight < 2 ^ 64
  unfolding cast_to_eight_byte_word
  word_lt hs = omega arith

  array_of_word :
      All IsByte eight → cast_to_eight_byte_array (cast_to_eight_byte_word eight) ≡ eight
  unfolding cast_to_eight_byte_word cast_to_eight_byte_array
  array_of_word hs = ground arith

-- Eight bytes are the bytes of the word that they spell.
pub array-word :
    (bytes : Bytes)
    → length bytes ≡ 8
    → All IsByte bytes
    → cast_to_eight_byte_array (cast_to_eight_byte_word bytes) ≡ bytes
array-word (a ∷ b ∷ c ∷ d ∷ e ∷ f ∷ g ∷ h ∷ []) n hs = array_of_word a b c d e f g h hs
array-word _ n hs = absurd (omega arith)

pub word-lt :
    (bytes : Bytes) → length bytes ≡ 8 → All IsByte bytes → cast_to_eight_byte_word bytes < 2 ^ 64
word-lt (a ∷ b ∷ c ∷ d ∷ e ∷ f ∷ g ∷ h ∷ []) n hs = word_lt a b c d e f g h hs
word-lt _ n hs = absurd (omega arith)
