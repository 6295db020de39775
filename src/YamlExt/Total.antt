-- ===== src/YamlExt/Total.antt =====
-- What is expected of a YAML value is found, or an error is returned.
use check_protocols.Prelude.{inl, inr, Option, none, some, List, Bool-cases, Option-cases}
use check_protocols.Prelude.Text.{Bytes}
use check_protocols.Result.{
  Error, expected_string, expected_array, expected_object, expected_integer, Ends, Ends-bind,
}
use check_protocols.Yaml.{
  Yaml, string, Hash, empty_hash, entry, hash_get, as_str, as_i64, as_vec, as_hash,
}
use check_protocols.YamlExt.{
  expect, expect_str, expect_bytes, expect_array, expect_object, above_i32, expect_integer,
  expect_field, is_known, check_keys,
}
use check_protocols.YamlExt.Integers.{InI32, to_i32-InI32}

expect-Ends :
    {A : Type 0} (mismatch : Yaml → Error) (yaml : Yaml) (o : Option A)
    → Ends (λ a. Unit) (expect mismatch yaml o)
unfolding expect
expect-Ends mismatch yaml none = tt
expect-Ends mismatch yaml (some a) = tt

pub expect_str-Ends : (yaml : Yaml) → Ends (λ s. Unit) (expect_str yaml)
unfolding expect_str
expect_str-Ends yaml = expect-Ends expected_string yaml (as_str yaml)

pub expect_bytes-Ends : (yaml : Yaml) → Ends (λ s. Unit) (expect_bytes yaml)
unfolding expect_bytes
expect_bytes-Ends yaml =
    Ends-bind (λ s. Unit) (λ s. Unit) (expect_str yaml) _ (expect_str-Ends yaml) (λ s _. tt)

pub expect_array-Ends : (yaml : Yaml) → Ends (λ s. Unit) (expect_array yaml)
unfolding expect_array
expect_array-Ends yaml = expect-Ends expected_array yaml (as_vec yaml)

pub expect_object-Ends : (yaml : Yaml) → Ends (λ s. Unit) (expect_object yaml)
unfolding expect_object
expect_object-Ends yaml = expect-Ends expected_object yaml (as_hash yaml)

pub expect_integer-Ends : (yaml : Yaml) → Ends InI32 (expect_integer yaml)
unfolding expect_integer
expect_integer-Ends yaml =
    Ends-bind (λ n. Unit) InI32 (expect expected_integer yaml (as_i64 yaml)) _
      (expect-Ends expected_integer yaml (as_i64 yaml))
      λ n _. elim (Bool-cases (above_i32 n)) [ inl e ↦ rw e tt | inr e ↦ rw e (to_i32-InI32 n) ]

pub expect_field-Ends :
    (field : Bytes) (object : Hash) → Ends (λ y. Unit) (expect_field field object)
unfolding expect_field
expect_field-Ends field object = elim (Option-cases (hash_get (string field) object)) [
  | inl e ↦ rw (e, Ends) tt
  | inr (yaml, e) ↦ rw (e, Ends) tt
]

pub check_keys-Ends :
    (known : List Bytes) (object : Hash) → Ends (λ u. Unit) (check_keys known object)
unfolding check_keys
check_keys-Ends known empty_hash = tt
check_keys-Ends known (entry key value object) =
    Ends-bind (λ s. Unit) (λ u. Unit) (expect_str key) _ (expect_str-Ends key)
      λ text _. elim (Bool-cases (is_known known text)) [
        | inl e ↦ rw e (check_keys-Ends known object)
        | inr e ↦ rw e tt
      ]
