-- ===== src/Memory.antt =====
-- tracer/tracee_memory.rs: words and byte arrays, and the strings in a tracee's memory. An iterator
-- is the function from the number of calls made to what `next` returns.
pub mod Words
pub mod Strings
pub mod Poke
use check_protocols.Prelude.{
  ℕ, zero, suc, ◌+◌, ◌*◌, ◌/◌, ◌%◌, ◌^◌, Bool, true, false, Option, none, some, List, [], ◌∷◌, ◌++◌,
  leb, ◌==◌, if◌then◌else◌, length, get_or, drop,
}
use check_protocols.Prelude.Text.{Bytes}
use check_protocols.Ptrace.{Ptrace}
use check_protocols.Result.{ptrace_failed, string_too_long, R, ok, err, diverge, ◌>>=◌}

abbrev pub Iter : Type 0
Iter = ℕ → Option (R ℕ)

-- (x >> shift) & 0xff
abbrev byte_at : ℕ → ℕ → ℕ
byte_at x shift = (x / 2 ^ shift) % 256

unfoldable pub cast_to_four_byte_array : ℕ → Bytes
cast_to_four_byte_array x = byte_at x 0 ∷ byte_at x 8 ∷ byte_at x 16 ∷ byte_at x 24 ∷ []

unfoldable pub cast_to_eight_byte_array : ℕ → Bytes
cast_to_eight_byte_array x =
    byte_at x 0
    ∷ byte_at x 8
    ∷ byte_at x 16
    ∷ byte_at x 24
    ∷ byte_at x 32
    ∷ byte_at x 40
    ∷ byte_at x 48
    ∷ byte_at x 56
    ∷ []

-- an array of eight bytes; the index is always below its length
abbrev index : Bytes → ℕ → ℕ
index bytes i = get_or bytes i 0

unfoldable pub cast_to_eight_byte_word : Bytes → ℕ
cast_to_eight_byte_word bytes =
    index bytes 0
    + index bytes 1 * 2 ^ 8
    + index bytes 2 * 2 ^ 16
    + index bytes 3 * 2 ^ 24
    + index bytes 4 * 2 ^ 32
    + index bytes 5 * 2 ^ 40
    + index bytes 6 * 2 ^ 48
    + index bytes 7 * 2 ^ 56

-- the bytes of one word up to a zero byte, behind `result`, and whether there was one
push_until_zero : Bytes → Bytes → Bytes × Bool
push_until_zero result [] = (result, false)
push_until_zero result (char ∷ chars) = elim (char == 0) [
  | true ↦ (result, true)
  | false ↦ push_until_zero (result ++ char ∷ []) chars
]

unfoldable pub data_to_string : ℕ → Iter → ℕ → Bytes → R Bytes
unfolding push_until_zero
data_to_string zero words i result = diverge
data_to_string (suc fuel) words i result = elim (words i) [
  | none ↦ ok result
  | some next ↦ do
    word ← next
    let (result', stop) = push_until_zero result (cast_to_eight_byte_array word)
    elim stop [ true ↦ ok result' | false ↦ data_to_string fuel words (suc i) result' ]
]

-- `string.get(k)` where there is one, and the zero that the word was filled with
fill_word : Bytes → ℕ → Bytes
fill_word string k =
    index string (k + 0)
    ∷ index string (k + 1)
    ∷ index string (k + 2)
    ∷ index string (k + 3)
    ∷ index string (k + 4)
    ∷ index string (k + 5)
    ∷ index string (k + 6)
    ∷ index string (k + 7)
    ∷ []

-- the words from `word_number` on, `rounds` of them
pub string_words : ℕ → ℕ → Bytes → List ℕ
unfolding fill_word
string_words zero word_number string = []
string_words (suc rounds) word_number string =
    cast_to_eight_byte_word (fill_word string (word_number * 8))
    ∷ string_words rounds (word_number + 1) string

unfoldable pub string_to_data : Bytes → ℕ → R (List ℕ)
unfolding string_words
string_to_data string max_size =
    if leb max_size (length string)
    then err string_too_long
    else ok (string_words (length string / 8 + 1) 0 string)

module _ (P : Ptrace) where
  open P use {Memory, read, write}

  unfoldable pub peekdata : Memory → ℕ → R ℕ
  peekdata m address = elim (read m address) [ some word ↦ ok word | none ↦ err ptrace_failed ]

  unfoldable pub pokedata : Memory → ℕ → ℕ → R Memory
  pokedata m address word = elim (write m address word) [
    | some m' ↦ ok m'
    | none ↦ err ptrace_failed
  ]

  -- the address is advanced by 8 in 64 bits at each call
  unfoldable pub peekdata_iter : Memory → ℕ → Iter
  peekdata_iter m address i = some (peekdata m ((address + 8 * i) % 2 ^ 64))

  unfoldable pub peek_string : ℕ → Memory → ℕ → R Bytes
  peek_string fuel m address = data_to_string fuel (peekdata_iter m address) 0 []

  -- the loop of `peek_string_array`; `skip(1)` starts it at the second word
  string_array_loop : ℕ → Memory → ℕ → ℕ → List Bytes → R (List Bytes)
  string_array_loop zero m address i result = diverge
  string_array_loop (suc fuel) m address i result = elim (peekdata_iter m address i) [
    | none ↦ ok result
    | some next ↦ do
      word ← next
      elim (word == 0) [
        | true ↦ ok result
        | false ↦ (do
          arg ← peek_string fuel m word
          string_array_loop fuel m address (suc i) (result ++ arg ∷ []))
      ]
  ]

  unfoldable pub peek_string_array : ℕ → Memory → ℕ → R (List Bytes)
  unfolding string_array_loop
  peek_string_array fuel m address = string_array_loop fuel m address 1 []

  unfoldable pub poke_four_bytes : Memory → ℕ → ℕ → R Memory
  poke_four_bytes m address small_word = do
    existing_word ← peekdata m address
    let overlapping =
        cast_to_four_byte_array small_word ++ drop 4 (cast_to_eight_byte_array existing_word)
    pokedata m address (cast_to_eight_byte_word overlapping)

  poke_words : Memory → ℕ → List ℕ → R Memory
  poke_words m address [] = ok m
  poke_words m address (word ∷ words) = do
    m' ← pokedata m address word
    poke_words m' ((address + 8) % 2 ^ 64) words

  unfoldable pub poke_string : Memory → ℕ → Bytes → ℕ → R Memory
  unfolding poke_words
  poke_string m address string max_size = do
    words ← string_to_data string max_size
    poke_words m address words

  unfoldable pub poke_single_word_string : Memory → ℕ → Bytes → R Memory
  poke_single_word_string m address string = poke_string m address string 8
