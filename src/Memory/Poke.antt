-- ===== src/Memory/Poke.antt =====
-- What `poke_string` and `poke_four_bytes` leave in a tracee's memory.
use check_protocols.Prelude.{
  ℕ, zero, suc, ◌+◌, ◌*◌, ◌/◌, ◌%◌, ◌^◌, ◌≤◌, ◌<◌, ◌≡◌, refl, ap, ◌∙◌, ◌⊎◌, inl, inr, true, some,
  List, [], ◌∷◌, ◌++◌, arith, leb, Bool-cases, length, drop, All,
}
use check_protocols.Memory.{
  cast_to_four_byte_array, cast_to_eight_byte_array, cast_to_eight_byte_word, string_words,
  string_to_data, peekdata, pokedata, peekdata_iter, peek_string, poke_four_bytes, poke_words,
  poke_string,
}
use check_protocols.Memory.Strings.{
  IsTextByte, string_words-lt, Gives, data_to_string-string_to_data,
}
use check_protocols.Memory.Words.{IsByte, array-word, word-lt}
use check_protocols.Prelude.Text.{Bytes}
use check_protocols.Ptrace.{Ptrace}
use check_protocols.Result.{string_too_long, ok, err}

length-string_words : (n k : ℕ) (s : Bytes) → length (string_words n k s) ≡ n
unfolding string_words
length-string_words zero k s = refl
length-string_words (suc n) k s = ap suc (length-string_words n (k + 1) s)

-- A string is refused exactly if it has no room for the zero byte. The words of one that is accepted
-- hold it with its zero byte, and at most eight bytes more than it.
pub string_to_data_bounds :
    (s : Bytes) (max_size : ℕ)
    → ((string_to_data s max_size ≡ err string_too_long) × (max_size ≤ length s))
      ⊎ ((ws : List ℕ) × (string_to_data s max_size ≡ ok ws)
          × (length s < max_size)
          × (length s < 8 * length ws)
          × (8 * length ws ≤ length s + 8))
unfolding string_to_data
string_to_data_bounds s max_size = elim (Bool-cases (leb max_size (length s))) [
  | inl e ↦ inl (rw e, ground arith)
  | inr e ↦
      let n = length-string_words (length s / 8 + 1) 0 s in
      inr (
        string_words (length s / 8 + 1) 0 s,
        rw e,
        ground arith,
        omega (arith, n),
        omega (arith, n),
      )
]

-- Where a buffer ends inside the last word of a string that has room in it, the words that are
-- written go beyond the `max_size` bytes of the buffer: the last word is written whole.
pub string_to_data_overrun :
    (s : Bytes) (max_size : ℕ)
    → length s < max_size
    → max_size < 8 * (length s / 8 + 1)
    → (ws : List ℕ) × (string_to_data s max_size ≡ ok ws) × (max_size < 8 * length ws)
unfolding string_to_data
string_to_data_overrun s max_size fits rest =
    let n = length-string_words (length s / 8 + 1) 0 s in
    (string_words (length s / 8 + 1) 0 s, ground arith, omega (arith, n))

string_to_data-string_words :
    (s : Bytes) (max_size : ℕ)
    → length s < max_size
    → string_to_data s max_size ≡ ok (string_words (length s / 8 + 1) 0 s)
unfolding string_to_data
string_to_data-string_words s max_size h = ground arith

-- the bytes of a word with its first four replaced
abbrev pub with_four_bytes : ℕ → ℕ → Bytes
with_four_bytes x v = cast_to_four_byte_array x ++ drop 4 (cast_to_eight_byte_array v)

with_four_bytes-IsByte : (x v : ℕ) → All IsByte (with_four_bytes x v)
unfolding cast_to_four_byte_array cast_to_eight_byte_array
with_four_bytes-IsByte x v = omega arith

length-with_four_bytes : (x v : ℕ) → length (with_four_bytes x v) ≡ 8
unfolding cast_to_four_byte_array cast_to_eight_byte_array
length-with_four_bytes x v = refl

module _ (P : Ptrace) where
  open P use {
    Memory, read, write, read_lt, read-write_self, read-write_other, writable, write_writable,
    writable_write,
  }

  -- `n` words can be written from `a` on
  abbrev pub Writable : ℕ → Memory → ℕ → Type 0
  Writable zero m a = Unit
  Writable (suc n) m a = (writable m a ≡ true) × Writable n m (a + 8)

  -- these words stand from `a` on
  abbrev pub Stored : Memory → ℕ → List ℕ → Type 0
  Stored m a [] = Unit
  Stored m a (w ∷ ws) = (read m a ≡ some w) × Stored m (a + 8) ws

  -- the words outside of these bytes are as they were
  abbrev pub Untouched : Memory → Memory → ℕ → ℕ → Type 0
  Untouched m m' a n = (b : ℕ) → (b + 8 ≤ a) ⊎ (a + n ≤ b) → read m' b ≡ read m b

  Writable-write :
      (n : ℕ) (m m' : Memory) (a w b : ℕ) → write m a w ≡ some m' → Writable n m b → Writable n m' b
  Writable-write zero m m' a w b h p = tt
  Writable-write (suc n) m m' a w b h (p, q) =
      (writable_write m a w m' b h ∙ p, Writable-write n m m' a w (b + 8) h q)

  pokedata-write :
      (m : Memory) (a w : ℕ) (m' : Memory) → write m a w ≡ some m' → pokedata P m a w ≡ ok m'
  unfolding pokedata
  pokedata-write m a w m' h = rw (h, pokedata)

  poke_words_step :
      (m m₁ m' : Memory) (a w : ℕ) (ws : List ℕ)
      → write m a w ≡ some m₁
      → a + 8 < 2 ^ 64
      → poke_words P m₁ (a + 8) ws ≡ ok m'
      → poke_words P m a (w ∷ ws) ≡ ok m'
  unfolding poke_words
  poke_words_step m m₁ m' a w ws written r later =
      let next : (a + 8) % 2 ^ 64 ≡ a + 8 = omega arith in
      rw (pokedata-write m a w m₁ written, next) later

  poke_words-Stored :
      (ws : List ℕ) (m : Memory) (a : ℕ)
      → All (λ w. w < 2 ^ 64) ws
      → a + 8 * length ws < 2 ^ 64
      → Writable (length ws) m a
      → (m' : Memory) × (poke_words P m a ws ≡ ok m')
        × Stored m' a ws
        × Untouched m m' a (8 * length ws)
  poke_words-Stored [] m a h r p = (m, (unfold poke_words in refl), tt, λ b _. refl)
  poke_words-Stored (w ∷ ws) m a (h, hs) r (p, q) =
      let (m₁, written) = write_writable m a w p in
      let kept : Untouched m m₁ a 8 = λ b s. read-write_other m a w m₁ b written (ground arith) in
      let (m', poked, stored, later) =
        poke_words-Stored ws m₁ (a + 8) hs (omega arith)
          (Writable-write (length ws) m m₁ a w (a + 8) written q) in
      (
        m',
        poke_words_step m m₁ m' a w ws written (omega arith) poked,
        (later a (inl (omega arith)) ∙ read-write_self m a w m₁ h written, stored),
        λ b s. later b (ground arith) ∙ kept b (ground arith),
      )

  Stored-Gives :
      (m : Memory) (a i : ℕ) (ws : List ℕ)
      → a + 8 * (i + length ws) < 2 ^ 64
      → Stored m (a + 8 * i) ws
      → Gives (peekdata_iter P m a) i ws
  unfolding peekdata_iter peekdata
  Stored-Gives m a i [] r s = tt
  Stored-Gives m a i (w ∷ ws) r (s, later) =
      let address : (a + 8 * i) % 2 ^ 64 ≡ a + 8 * i = omega arith in
      let next : a + 8 * i + 8 ≡ a + 8 * suc i = omega arith in
      (rw (address, peekdata, s), Stored-Gives m a (suc i) ws (omega arith) (rw next at later))

  -- A string without zero bytes that has room in the buffer is written, and read back as it was
  -- with fuel for its words, if the words that it takes can be written and are below 2 ^ 64; nothing
  -- outside of these words changes.
  pub peek_string-poke_string :
      (m : Memory) (a : ℕ) (s : Bytes) (max_size fuel : ℕ)
      → All IsTextByte s
      → length s < max_size
      → a + 8 * (length s / 8 + 1) < 2 ^ 64
      → Writable (length s / 8 + 1) m a
      → length s / 8 + 1 ≤ fuel
      → (m' : Memory) × (poke_string P m a s max_size ≡ ok m')
        × (peek_string P fuel m' a ≡ ok s)
        × Untouched m m' a (8 * (length s / 8 + 1))
  unfolding poke_string peek_string
  peek_string-poke_string m a s max_size fuel h fits r p f =
      let n = length s / 8 + 1 in
      let ws = string_words n 0 s in
      let count : length ws ≡ n = length-string_words n 0 s in
      let accepted = string_to_data-string_words s max_size fits in
      let (m', poked, stored, kept) =
        poke_words-Stored ws m a (string_words-lt n 0 s h) (rw count r) (rw count p) in
      let start : a + 8 * 0 ≡ a = omega arith in
      let gives = Stored-Gives m' a 0 ws (omega (arith, count)) (rw start stored) in
      (
        m',
        rw accepted poked,
        data_to_string-string_to_data s max_size fuel ws (peekdata_iter P m' a) h accepted f gives,
        rw count at kept,
      )

  -- A string that has no room for its zero byte is refused before anything is written.
  pub poke_string_too_long :
      (m : Memory) (a : ℕ) (s : Bytes) (max_size : ℕ)
      → max_size ≤ length s
      → poke_string P m a s max_size ≡ err string_too_long
  unfolding poke_string string_to_data
  poke_string_too_long m a s max_size h = ground arith

  -- If the word at an address can be read and written, four bytes are written over its first four; its other
  -- four stay, and so does the rest of the memory.
  pub poke_four_bytes_lem :
      (m : Memory) (a v x : ℕ)
      → read m a ≡ some v
      → writable m a ≡ true
      → (m' : Memory) × (v' : ℕ) × (poke_four_bytes P m a x ≡ ok m')
        × (read m' a ≡ some v')
        × (cast_to_eight_byte_array v' ≡ with_four_bytes x v)
        × Untouched m m' a 8
  unfolding poke_four_bytes
  poke_four_bytes_lem m a v x h can_write =
      let bytes = with_four_bytes x v in
      let (m', written) = write_writable m a (cast_to_eight_byte_word bytes) can_write in
      (
        m',
        cast_to_eight_byte_word bytes,
        unfold peekdata in rw (h, peekdata) (pokedata-write m a _ m' written),
        read-write_self m a _ m'
            (word-lt bytes (length-with_four_bytes x v) (with_four_bytes-IsByte x v)) written,
        array-word bytes (length-with_four_bytes x v) (with_four_bytes-IsByte x v),
        λ b s. read-write_other m a _ m' b written (ground arith),
      )
