-- ===== src/Tests/Files.antt =====
-- Memory, temporary files and streams at concrete inputs.
use check_protocols.TempFiles
use check_protocols.Prelude.{
  ℕ, ◌+◌, ◌*◌, ◌%◌, ◌^◌, ◌≤◌, ◌<◌, ◌≡◌, refl, ◌⊎◌, Option, none, some, List, [], ◌∷◌, arith, ◌==◌,
  if◌then◌else◌, length, All,
}
use check_protocols.Memory.{
  cast_to_eight_byte_array, cast_to_eight_byte_word, data_to_string, string_to_data, peek_string,
  poke_four_bytes, poke_string,
}
use check_protocols.Memory.Poke.{
  string_to_data_bounds, string_to_data_overrun, with_four_bytes, Untouched,
  peek_string-poke_string, poke_four_bytes_lem,
}
use check_protocols.Memory.Strings.{IsTextByte, data_to_string-string_to_data}
use check_protocols.Prelude.Text.{Bytes, codes}
use check_protocols.Result.{string_too_long, R, ok, err}
use check_protocols.StdioRedirecting.{relay, concat, IsOpen, relay_lem}
use check_protocols.TempFiles.{Fs, create_new_file}
use check_protocols.TempFiles.AllNames.{all_names}
use check_protocols.TempFiles.Create.{first_free, create_at, create_new_file-first_free}
use check_protocols.Tests.Instances.{word_memory, zeros, small_files}

abbrev hi : Bytes
hi = codes "hi"

hi_text : All IsTextByte hi
hi_text = omega arith

abbrev hi_words : ℕ → Option (R ℕ)
hi_words i = if i == 0 then some (ok 26984) else none

data_to_string-string_to_data_example : data_to_string 1 hi_words 0 [] ≡ ok hi
unfolding cast_to_eight_byte_word
data_to_string-string_to_data_example =
    data_to_string-string_to_data hi 8 1 (26984 ∷ []) hi_words hi_text
      (unfold string_to_data in refl) (omega arith) (refl, tt)

string_to_data_bounds_example :
    ((string_to_data hi 2 ≡ err string_too_long) × (2 ≤ length hi))
    ⊎ ((ws : List ℕ) × (string_to_data hi 2 ≡ ok ws)
        × (length hi < 2)
        × (length hi < 8 * length ws)
        × (8 * length ws ≤ length hi + 8))
string_to_data_bounds_example = string_to_data_bounds hi 2

string_to_data_overrun_example : (ws : List ℕ) × (string_to_data hi 3 ≡ ok ws) × (3 < 8 * length ws)
string_to_data_overrun_example = string_to_data_overrun hi 3 (omega arith) (omega arith)

peek_string-poke_string_example :
    (m' : ℕ → ℕ) × (poke_string word_memory zeros 64 hi 8 ≡ ok m')
    × (peek_string word_memory 1 m' 64 ≡ ok hi)
    × Untouched word_memory zeros m' 64 8
peek_string-poke_string_example =
    peek_string-poke_string word_memory zeros 64 hi 8 1 hi_text (omega arith) (omega arith)
      (refl, tt) (omega arith)

poke_four_bytes_lem_example :
    (m' : ℕ → ℕ) × (v' : ℕ) × (poke_four_bytes word_memory zeros 64 5 ≡ ok m')
    × (some (m' 64 % 2 ^ 64) ≡ some v')
    × (cast_to_eight_byte_array v' ≡ with_four_bytes 5 0)
    × Untouched word_memory zeros m' 64 8
poke_four_bytes_lem_example = poke_four_bytes_lem word_memory zeros 64 0 5 refl refl

create_new_file-first_free_example :
    create_new_file (codes "/tmp") small_files
    ≡ create_at (codes "/tmp") small_files (first_free (codes "/tmp") small_files all_names)
create_new_file-first_free_example = create_new_file-first_free (codes "/tmp") small_files

abbrev small_files_after : Fs
small_files_after = record small_files {
  files = (codes "/tmp/aa", hi) ∷ (codes "/bin/scriptkeeper", codes "x") ∷ [];
}

relay_lem_example :
    relay (hi ∷ hi ∷ [] ∷ codes "x" ∷ []) [] (some [])
    ≡ (concat (hi ∷ hi ∷ []), some (concat (hi ∷ hi ∷ [])))
relay_lem_example =
    relay_lem (hi ∷ hi ∷ []) (codes "x" ∷ []) [] [] (unfold IsOpen in ((λ e. cc), ((λ e. cc), tt)))
