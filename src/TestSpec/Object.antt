-- ===== src/TestSpec/Object.antt =====
-- The object that is written for a test.
use check_protocols.Prelude.{◌≡◌, refl, ◌∙◌, Option, none, some, List, [], ◌∷◌, map}
use check_protocols.CheckerResult.{exitcode}
use check_protocols.Command.{format_arguments}
use check_protocols.Platform.{Platform}
use check_protocols.Prelude.Int.{ℤ}
use check_protocols.Prelude.Text.{Bytes, codes, equal}
use check_protocols.Result.{ok}
use check_protocols.TestSpec.{Step}
use check_protocols.TestSpec.Parse.{test_keys}
use check_protocols.TestSpec.Serialize.{
  serialize_step, serialize_entries, serialize_env, serialize_arguments, serialize_exitcode,
}
use check_protocols.TestSpec.Written.{
  check_keys-string, optional, hash_insert-optional, check_keys-optional,
}
use check_protocols.Yaml.{
  Yaml, integer, string, array, hash, Hash, empty_hash, entry, yaml_eq, hash_push_back,
  hash_without, hash_insert, array_of, YamlCrate,
}
use check_protocols.YamlExt.{is_known, check_keys}

unfoldable pub arguments_yaml : List Bytes → Option Yaml
arguments_yaml [] = none
arguments_yaml (a ∷ args) = some (string (format_arguments (a ∷ args)))

unfoldable pub exitcode_yaml : Option ℤ → Option Yaml
exitcode_yaml none = none
exitcode_yaml (some n) = some (integer n)

unfoldable pub test_object : Option Yaml → Option Yaml → Yaml → Option Yaml → Hash
test_object arguments env steps exitcode = optional (codes "arguments") arguments (
    optional (codes "env") env
      (entry (string (codes "steps")) steps (optional (codes "exitcode") exitcode empty_hash)))

pub test_object_known :
    (arguments env : Option Yaml) (steps : Yaml) (exitcode : Option Yaml)
    → check_keys test_keys (test_object arguments env steps exitcode) ≡ ok tt
unfolding test_object is_known equal
test_object_known arguments env steps exitcode =
    let last = optional (codes "exitcode") exitcode empty_hash in
    let middle = entry (string (codes "steps")) steps last in
    check_keys-optional test_keys (codes "arguments") arguments (optional (codes "env") env middle)
      refl
    ∙ check_keys-optional test_keys (codes "env") env middle refl
    ∙ check_keys-string test_keys (codes "steps") steps last refl
    ∙ check_keys-optional test_keys (codes "exitcode") exitcode empty_hash refl
    ∙ unfold check_keys in refl

module _ (E : Platform) (Y : YamlCrate) where
  open Y use {from_str, from_str-field}

  unfoldable pub env_yaml : List (Bytes × Bytes) → Option Yaml
  env_yaml [] = none
  env_yaml (e ∷ env) = some (hash (serialize_entries E Y (e ∷ env) empty_hash))

  unfoldable pub steps_yaml : List Step → Yaml
  steps_yaml steps = array (array_of (map (serialize_step E Y) steps))

  serialize_arguments-optional :
      (arguments : List Bytes)
      → serialize_arguments E Y arguments empty_hash
        ≡ optional (codes "arguments") (arguments_yaml arguments) empty_hash
  unfolding serialize_arguments arguments_yaml hash_insert hash_push_back hash_without
  serialize_arguments-optional [] = refl
  serialize_arguments-optional (a ∷ args) =
      let (command, (exitcode, (arguments, rest))) = from_str-field in rw arguments refl

  serialize_env-optional :
      (env : List (Bytes × Bytes)) (arguments : Option Yaml)
      → serialize_env E Y env (optional (codes "arguments") arguments empty_hash)
        ≡ optional (codes "arguments") arguments (optional (codes "env") (env_yaml env) empty_hash)
  unfolding serialize_env env_yaml
  serialize_env-optional [] arguments = refl
  serialize_env-optional (e ∷ env) arguments =
      let (command, (exitcode, (arguments', (environment, rest)))) = from_str-field in
      rw environment (
        hash_insert-optional (codes "env") (codes "arguments") _ arguments empty_hash
          (unfold equal in refl)
        ∙ unfold hash_insert hash_push_back hash_without in refl)

  insert_steps :
      (arguments env : Option Yaml) (steps : Yaml)
      → hash_insert
          (from_str (codes "steps"))
          steps
          (optional (codes "arguments") arguments (optional (codes "env") env empty_hash))
        ≡ test_object arguments env steps none
  unfolding test_object equal hash_insert hash_push_back hash_without yaml_eq
  insert_steps arguments env steps =
      let (command, (exitcode, (arguments', (environment, (steps', rest))))) = from_str-field in
      rw
        (
          steps',
          hash_insert-optional (codes "steps") (codes "arguments") steps arguments
              (optional (codes "env") env empty_hash) refl,
          hash_insert-optional (codes "steps") (codes "env") steps env empty_hash refl,
        )
        refl

  serialize_exitcode-test_object :
      (arguments env : Option Yaml) (steps : Yaml) (exitcode : Option ℤ)
      → serialize_exitcode E Y exitcode (test_object arguments env steps none)
        ≡ test_object arguments env steps (exitcode_yaml exitcode)
  unfolding serialize_exitcode test_object exitcode_yaml equal hash_insert hash_push_back
      hash_without yaml_eq
  serialize_exitcode-test_object arguments env steps none = refl
  serialize_exitcode-test_object arguments env steps (some n) =
      let (command, (exitcode, rest)) = from_str-field in
      rw
        (
          exitcode,
          hash_insert-optional (codes "exitcode") (codes "arguments") (integer n) arguments
              (optional (codes "env") env (entry (string (codes "steps")) steps empty_hash)) refl,
          hash_insert-optional (codes "exitcode") (codes "env") (integer n) env
              (entry (string (codes "steps")) steps empty_hash) refl,
        )
        refl

  pub serialize_fields :
      (arguments : List Bytes) (env : List (Bytes × Bytes)) (steps : Yaml) (exitcode : Option ℤ)
      → serialize_exitcode E Y exitcode (
          hash_insert
            (from_str (codes "steps"))
            steps
            (serialize_env E Y env (serialize_arguments E Y arguments empty_hash)))
        ≡ test_object (arguments_yaml arguments) (env_yaml env) steps (exitcode_yaml exitcode)
  serialize_fields arguments env steps exitcode =
      rw
        (
          serialize_arguments-optional arguments,
          serialize_env-optional env (arguments_yaml arguments),
          insert_steps (arguments_yaml arguments) (env_yaml env) steps,
        )
        (serialize_exitcode-test_object (arguments_yaml arguments) (env_yaml env) steps exitcode)
