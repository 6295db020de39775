-- ===== src/TestSpec/RoundTrip.antt =====
-- A test that is written and read back.
use check_protocols.Prelude.{◌≡◌, refl, ap, ◌∙◌, Option, none, some, List, [], ◌∷◌, map, All}
use check_protocols.Command.{format_arguments}
use check_protocols.Command.Replay.{IsArgument, drop_empty-All}
use check_protocols.Command.RoundTrip.{parse_arguments-format_arguments}
use check_protocols.Platform.{Platform}
use check_protocols.Prelude.Int.{ℤ}
use check_protocols.Prelude.Text.{Bytes, codes, equal}
use check_protocols.Result.{ok}
use check_protocols.TestSpec.{Test, new_test}
use check_protocols.TestSpec.Object.{
  arguments_yaml, exitcode_yaml, test_object, test_object_known, env_yaml, steps_yaml,
  serialize_fields,
}
use check_protocols.TestSpec.Parse.{
  test_keys, add_arguments, add_env, add_cwd, add_stdout, add_stderr, add_exitcode,
  add_mocked_files, test_from_object,
}
use check_protocols.TestSpec.Serialize.{serialize_entries, serialize_test}
use check_protocols.TestSpec.Steps.{forget_step, IsWritableStep, test_from_array-serialize_step}
use check_protocols.TestSpec.Written.{
  Fresh, IsTextEntry, insert_entries-serialize_entries, or_else-none, hash_get-optional,
  expect_field-some, if_field-none, if_field-some,
}
use check_protocols.Yaml.{integer, string, hash, Hash, empty_hash, yaml_eq, hash_get, YamlCrate}
use check_protocols.YamlExt.{expect_str, expect_array, expect_object, check_keys}
use check_protocols.YamlExt.Integers.{InI32, expect_integer-integer}

-- What is left of a test: the outputs, the working directory, the mocked files and the hole are lost.
unfoldable pub forget_test : (Bytes → Option Bytes) → Test → Test
forget_test which test = record (new_test (map (forget_step which) test.steps)) {
  arguments = test.arguments;
  env = test.env;
  exitcode = test.exitcode;
}

abbrev pub InRange : Option ℤ → Type 0
InRange none = Unit
InRange (some n) = InI32 n

-- A test whose steps, arguments and environment are read back as they are.
pub record IsWritable (which : Bytes → Option Bytes) (Y : YamlCrate) (test : Test) : Type 0 where
  pub steps : All (IsWritableStep which) test.steps
  pub arguments : All IsArgument test.arguments
  pub keys : Fresh [] test.env
  pub texts : All (IsTextEntry Y) test.env
  pub in_range : InRange test.exitcode

module _ (E : Platform) (Y : YamlCrate) where
  open E use {which, compile_regex}
  open Y use {from_str, from_str-field}

  -- the fields of an object that was written for a test
  record Fields (h : Hash) (test : Test) : Type 0 where
    known : check_keys test_keys h ≡ ok tt
    steps : hash_get (string (codes "steps")) h ≡ some (steps_yaml E Y test.steps)
    arguments : hash_get (string (codes "arguments")) h ≡ arguments_yaml test.arguments
    env : hash_get (string (codes "env")) h ≡ env_yaml E Y test.env
    exitcode : hash_get (string (codes "exitcode")) h ≡ exitcode_yaml test.exitcode
    cwd : hash_get (string (codes "cwd")) h ≡ none
    stdout : hash_get (string (codes "stdout")) h ≡ none
    stderr : hash_get (string (codes "stderr")) h ≡ none
    mocked_files : hash_get (string (codes "mockedFiles")) h ≡ none

  test_object-Fields :
      (test : Test)
      → Fields
          (test_object
            (arguments_yaml test.arguments)
            (env_yaml E Y test.env)
            (steps_yaml E Y test.steps)
            (exitcode_yaml test.exitcode))
          test
  unfolding test_object hash_get yaml_eq equal
  test_object-Fields test = record {
    known =
        test_object_known (arguments_yaml test.arguments) (env_yaml E Y test.env)
          (steps_yaml E Y test.steps) (exitcode_yaml test.exitcode);
    steps = simp hash_get-optional;
    arguments = simp (hash_get-optional, or_else-none);
    env = simp (hash_get-optional, or_else-none);
    exitcode = simp (hash_get-optional, or_else-none);
    cwd = simp hash_get-optional;
    stdout = simp hash_get-optional;
    stderr = simp hash_get-optional;
    mocked_files = simp hash_get-optional;
  }

  add_arguments-written :
      (arguments : List Bytes) (h : Hash) (test : Test)
      → hash_get (string (codes "arguments")) h ≡ arguments_yaml arguments
      → All IsArgument arguments
      → test.arguments ≡ []
      → add_arguments h test ≡ ok (record test { arguments = arguments })
  unfolding add_arguments arguments_yaml expect_str
  add_arguments-written [] h test found good start =
      if_field-none (codes "arguments") h test _ found
      ∙ ap (λ l. ok (record test { arguments = l })) start
  add_arguments-written (a ∷ args) h test found good start =
      if_field-some (codes "arguments") h test _ (string (format_arguments (a ∷ args))) found
      ∙ rw (parse_arguments-format_arguments (a ∷ args), drop_empty-All (a ∷ args) good) refl

  add_env-written :
      (env : List (Bytes × Bytes)) (h : Hash) (test : Test)
      → hash_get (string (codes "env")) h ≡ env_yaml E Y env
      → Fresh [] env
      → All (IsTextEntry Y) env
      → test.env ≡ []
      → add_env h test ≡ ok (record test { env = env })
  unfolding add_env env_yaml expect_object
  add_env-written [] h test found keys texts start =
      if_field-none (codes "env") h test _ found ∙ ap (λ l. ok (record test { env = l })) start
  add_env-written (e ∷ env) h test found keys texts start =
      if_field-some (codes "env") h test _ (hash (serialize_entries E Y (e ∷ env) empty_hash)) found
      ∙ rw (start, insert_entries-serialize_entries E Y (e ∷ env) keys texts) refl

  add_exitcode-written :
      (exitcode : Option ℤ) (h : Hash) (test : Test)
      → hash_get (string (codes "exitcode")) h ≡ exitcode_yaml exitcode
      → InRange exitcode
      → test.exitcode ≡ none
      → add_exitcode h test ≡ ok (record test { exitcode = exitcode })
  unfolding add_exitcode exitcode_yaml
  add_exitcode-written none h test found range start =
      if_field-none (codes "exitcode") h test _ found
      ∙ ap (λ l. ok (record test { exitcode = l })) start
  add_exitcode-written (some n) h test found range start =
      if_field-some (codes "exitcode") h test _ (integer n) found
      ∙ rw (expect_integer-integer n range) refl

  add_cwd-absent :
      (h : Hash) (test : Test) → hash_get (string (codes "cwd")) h ≡ none → add_cwd h test ≡ ok test
  unfolding add_cwd
  add_cwd-absent h test absent = if_field-none (codes "cwd") h test _ absent

  add_stdout-absent :
      (h : Hash) (test : Test)
      → hash_get (string (codes "stdout")) h ≡ none
      → add_stdout h test ≡ ok test
  unfolding add_stdout
  add_stdout-absent h test absent = if_field-none (codes "stdout") h test _ absent

  add_stderr-absent :
      (h : Hash) (test : Test)
      → hash_get (string (codes "stderr")) h ≡ none
      → add_stderr h test ≡ ok test
  unfolding add_stderr
  add_stderr-absent h test absent = if_field-none (codes "stderr") h test _ absent

  add_mocked_files-absent :
      (h : Hash) (test : Test)
      → hash_get (string (codes "mockedFiles")) h ≡ none
      → add_mocked_files h test ≡ ok test
  unfolding add_mocked_files
  add_mocked_files-absent h test absent = if_field-none (codes "mockedFiles") h test _ absent

  test_from_object-Fields :
      (h : Hash) (test : Test)
      → Fields h test
      → IsWritable which Y test
      → test_from_object compile_regex h ≡ ok (forget_test which test)
  unfolding test_from_object expect_array
  test_from_object-Fields h test f w =
      let t₀ = new_test (map (forget_step which) test.steps) in
      let t₁ = record t₀ { arguments = test.arguments } in
      let t₂ = record t₁ { env = test.env } in
      let t₃ = record t₂ { exitcode = test.exitcode } in
      rw (f.known, expect_field-some (codes "steps") h (steps_yaml E Y test.steps) f.steps)
        (unfold steps_yaml in
          rw
            (
              test_from_array-serialize_step E Y test.steps w.steps,
              add_arguments-written test.arguments h t₀ f.arguments w.arguments
                  (unfold new_test in refl),
              add_env-written test.env h t₁ f.env w.keys w.texts (unfold new_test in refl),
              add_cwd-absent h t₂ f.cwd,
              add_stdout-absent h t₂ f.stdout,
              add_stderr-absent h t₂ f.stderr,
              add_exitcode-written test.exitcode h t₂ f.exitcode w.in_range
                  (unfold new_test in refl),
              add_mocked_files-absent h t₃ f.mocked_files,
            )
            (unfold forget_test in refl))

  -- A test that is written and read back keeps its steps, with the executables in their canonical
  -- form, its arguments, its environment and its exit code.
  pub test_from_object-serialize_test :
      (test : Test)
      → IsWritable which Y test
      → (h : Hash) × (serialize_test E Y test ≡ hash h)
        × (test_from_object compile_regex h ≡ ok (forget_test which test))
  unfolding serialize_test steps_yaml
  test_from_object-serialize_test test w = (
    test_object (arguments_yaml test.arguments) (env_yaml E Y test.env) (steps_yaml E Y test.steps)
        (exitcode_yaml test.exitcode),
    ap hash
        (serialize_fields E Y test.arguments test.env (steps_yaml E Y test.steps) test.exitcode),
    test_from_object-Fields _ test (test_object-Fields test) w,
  )
