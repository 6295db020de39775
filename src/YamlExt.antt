-- ===== src/YamlExt.antt =====
-- test_spec/yaml.rs: what the parser of test files expects of YAML values, and how they are written.
pub mod Integers
pub mod Total
use check_protocols.Prelude.{
  ℕ, ◌-◌, ◌%◌, ◌^◌, Bool, false, Option, none, some, List, [], ◌∷◌, ◌++◌, ltb, if◌then◌else◌, drop,
  any,
}
use check_protocols.ArgumentParser.{newline}
use check_protocols.Prelude.Int.{ℤ, pos, negsuc}
use check_protocols.Prelude.Text.{Bytes, equal}
use check_protocols.Result.{
  Error, expected_string, expected_array, expected_object, expected_integer, integer_too_large,
  expected_field, unexpected_field, emit_failed, R, ok, err, ◌>>=◌,
}
use check_protocols.Yaml.{
  Yaml, string, Yamls, Hash, empty_hash, entry, hash_get, as_str, as_i64, as_vec, as_hash,
}

-- `expected: …, got: …`
expect {ℓ} : {A : Type ℓ} → (Yaml → Error) → Yaml → Option A → R A
expect mismatch yaml none = err (mismatch yaml)
expect mismatch yaml (some a) = ok a

unfoldable pub expect_str : Yaml → R Bytes
unfolding expect as_str
expect_str yaml = expect expected_string yaml (as_str yaml)

unfoldable pub expect_bytes : Yaml → R Bytes
unfolding expect_str
expect_bytes yaml = do str ← expect_str yaml; ok str

unfoldable pub expect_array : Yaml → R Yamls
unfolding expect as_vec
expect_array yaml = expect expected_array yaml (as_vec yaml)

unfoldable pub expect_object : Yaml → R Hash
unfolding expect as_hash
expect_object yaml = expect expected_object yaml (as_hash yaml)

-- `as i32` on a 64-bit integer: the low 32 bits, read with a sign
low_bits : ℤ → ℕ
low_bits (pos n) = n % 2 ^ 32
low_bits (negsuc n) = 2 ^ 32 - 1 - n % 2 ^ 32

unfoldable pub to_i32 : ℤ → ℤ
unfolding low_bits
to_i32 n = if ltb (low_bits n) (2 ^ 31) then pos (low_bits n) else negsuc (2 ^ 32 - 1 - low_bits n)

-- `result > i64::from(i32::max_value())`
above_i32 : ℤ → Bool
above_i32 (pos n) = ltb (2 ^ 31 - 1) n
above_i32 (negsuc n) = false

unfoldable pub expect_integer : Yaml → R ℤ
unfolding expect as_i64 above_i32
expect_integer yaml = do
  result ← expect expected_integer yaml (as_i64 yaml)
  if above_i32 result then err (integer_too_large yaml) else ok (to_i32 result)

unfoldable pub expect_field : Bytes → Hash → R Yaml
expect_field field object = elim (hash_get (string field) object) [
  | some yaml ↦ ok yaml
  | none ↦ err (expected_field field object)
]

-- `contains`
unfoldable pub is_known : List Bytes → Bytes → Bool
is_known known_keys key = any (λ known. equal known key) known_keys

unfoldable pub check_keys : List Bytes → Hash → R (Unit {0})
unfolding expect_str
check_keys known_keys empty_hash = ok tt
check_keys known_keys (entry key value object) = do
  text ← expect_str key
  let rest = check_keys known_keys object
  if is_known known_keys text then rest else err (unexpected_field text known_keys)

-- The first four bytes are the `---` line of the emitter.
unfoldable pub adjust_yaml_output : Bytes → Bytes
adjust_yaml_output input = drop 4 input ++ newline ∷ []

-- The emitter is that of yaml_rust: a parameter. The result is the stream with what was written.
unfoldable pub write_yaml : (Yaml → Option Bytes) → Bytes → Yaml → R Bytes
unfolding adjust_yaml_output
write_yaml dump output_stream yaml = elim (dump yaml) [
  | some text ↦ ok (output_stream ++ adjust_yaml_output text)
  | none ↦ err emit_failed
]
