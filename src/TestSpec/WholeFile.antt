-- ===== src/TestSpec/WholeFile.antt =====
-- The tests of a file that are written and read back.
use check_protocols.Prelude.{
  ◌≡◌, refl, sym, ap, ◌∙◌, true, Option, none, some, List, [], ◌∷◌, ◌++◌, map, append_assoc,
  append-nil, All,
}
use check_protocols.Platform.{Platform}
use check_protocols.Prelude.Text.{Bytes, codes, equal}
use check_protocols.Result.{ok, ◌>>=◌}
use check_protocols.TestSpec.{Test, Tests, new_tests}
use check_protocols.TestSpec.Parse.{expect_strs}
use check_protocols.TestSpec.ParseTests.{
  tests_keys, add_interpreter, add_unmocked_commands, from_elements, tests_from_array, parse_object,
  parse,
}
use check_protocols.TestSpec.RoundTrip.{forget_test, IsWritable, test_from_object-serialize_test}
use check_protocols.TestSpec.Serialize.{
  serialize_test, serialize_paths, serialize_unmocked_commands, serialize_tests,
}
use check_protocols.TestSpec.Steps.{items-array_of}
use check_protocols.TestSpec.Written.{
  check_keys-string, optional, or_else-none, hash_get-optional, hash_insert-optional,
  check_keys-optional, expect_field-some, if_field-none, if_field-some,
}
use check_protocols.Utf8.{is_utf8}
use check_protocols.Utils.{path_to_string}
use check_protocols.Yaml.{
  Yaml, string, array, hash, Hash, empty_hash, entry, yaml_eq, hash_get, hash_push_back,
  hash_without, hash_insert, array_of, YamlCrate,
}
use check_protocols.YamlExt.{expect_str, expect_array, expect_object, is_known, check_keys}

-- What is left of the tests of a file: the interpreter is lost.
unfoldable pub forget_tests : (Bytes → Option Bytes) → Tests → Tests
forget_tests which tests = record {
  tests = map (forget_test which) tests.tests;
  unmocked_commands = tests.unmocked_commands;
  interpreter = none;
}

abbrev pub IsPath : Bytes → Type 0
IsPath path = is_utf8 path ≡ true

module _ (E : Platform) (Y : YamlCrate) where
  open E use {which, compile_regex}
  open Y use {from_str, from_str-field}

  serialize_paths-IsPath :
      (paths : List Bytes) → All IsPath paths → serialize_paths E Y paths ≡ ok (map string paths)
  unfolding serialize_paths path_to_string
  serialize_paths-IsPath [] h = refl
  serialize_paths-IsPath (p ∷ paths) (u, h) = rw (u, serialize_paths-IsPath paths h) refl

  expect_strs-string :
      (texts before : List Bytes) → expect_strs (map string texts) before ≡ ok (before ++ texts)
  unfolding expect_strs expect_str
  expect_strs-string [] before = ap ok (sym (append-nil before))
  expect_strs-string (t ∷ texts) before =
      expect_strs-string texts (before ++ t ∷ []) ∙ ap ok (append_assoc before (t ∷ []) texts)

  abbrev pub commands_yaml : List Bytes → Option Yaml
  commands_yaml [] = none
  commands_yaml (c ∷ commands) = some (array (array_of (map string (c ∷ commands))))

  serialize_unmocked_commands-optional :
      (commands : List Bytes)
      → All IsPath commands
      → serialize_unmocked_commands E Y commands empty_hash
        ≡ ok (optional (codes "unmockedCommands") (commands_yaml commands) empty_hash)
  unfolding serialize_unmocked_commands hash_insert hash_push_back hash_without
  serialize_unmocked_commands-optional [] h = refl
  serialize_unmocked_commands-optional (c ∷ commands) h =
      let (k₁, (k₂, (k₃, (k₄, (k₅, (unmocked, rest)))))) = from_str-field in
      rw (serialize_paths-IsPath (c ∷ commands) h, unmocked) refl

  unfoldable pub file_object : List Bytes → List Test → Hash
  file_object commands tests = optional (codes "unmockedCommands") (commands_yaml commands) (
      entry (string (codes "tests")) (array (array_of (map (serialize_test E Y) tests))) empty_hash)

  pub serialize_tests-file_object :
      (tests : Tests)
      → All IsPath tests.unmocked_commands
      → serialize_tests E Y tests ≡ ok (hash (file_object tests.unmocked_commands tests.tests))
  unfolding serialize_tests file_object
  serialize_tests-file_object tests h =
      let (k₁, (k₂, (k₃, (k₄, (k₅, (k₆, (key, rest))))))) = from_str-field in
      rw (serialize_unmocked_commands-optional tests.unmocked_commands h, key)
        (ap (λ o. ok (hash o))
          (hash_insert-optional (codes "tests") (codes "unmockedCommands") _
              (commands_yaml tests.unmocked_commands) empty_hash (unfold equal in refl)
            ∙ unfold hash_insert hash_push_back hash_without in refl))

  from_elements-serialize_test :
      (tests before : List Test)
      → All (IsWritable which Y) tests
      → from_elements compile_regex (map (serialize_test E Y) tests) before
        ≡ ok (before ++ map (forget_test which) tests)
  unfolding from_elements expect_object
  from_elements-serialize_test [] before h = ap ok (sym (append-nil before))
  from_elements-serialize_test (t ∷ tests) before (w, h) =
      let (object, written, read) = test_from_object-serialize_test E Y t w in
      rw (written, read)
        (from_elements-serialize_test tests (before ++ forget_test which t ∷ []) h
          ∙ ap ok (append_assoc before (forget_test which t ∷ []) (map (forget_test which) tests)))

  add_unmocked_commands-written :
      (commands : List Bytes) (h : Hash) (tests : Tests)
      → hash_get (string (codes "unmockedCommands")) h ≡ commands_yaml commands
      → tests.unmocked_commands ≡ []
      → add_unmocked_commands h tests ≡ ok (record tests { unmocked_commands = commands })
  unfolding add_unmocked_commands expect_array
  add_unmocked_commands-written [] h tests found start =
      if_field-none (codes "unmockedCommands") h tests _ found
      ∙ ap (λ l. ok (record tests { unmocked_commands = l })) start
  add_unmocked_commands-written (c ∷ commands) h tests found start =
      if_field-some (codes "unmockedCommands") h tests _ _ found
      ∙ rw (start, items-array_of (map string (c ∷ commands)), expect_strs-string (c ∷ commands) [])
          refl

  add_interpreter-absent :
      (h : Hash) (tests : Tests)
      → hash_get (string (codes "interpreter")) h ≡ none
      → add_interpreter h tests ≡ ok tests
  unfolding add_interpreter
  add_interpreter-absent h tests absent = if_field-none (codes "interpreter") h tests _ absent

  file_object_known :
      (commands : List Bytes) (tests : List Test)
      → check_keys tests_keys (file_object commands tests) ≡ ok tt
  unfolding file_object is_known equal
  file_object_known commands tests =
      let rest =
        entry (string (codes "tests")) (array (array_of (map (serialize_test E Y) tests)))
          empty_hash in
      check_keys-optional tests_keys (codes "unmockedCommands") (commands_yaml commands) rest refl
      ∙ check_keys-string tests_keys (codes "tests") _ empty_hash refl
      ∙ unfold check_keys in refl

  -- A file of tests that is written and read back has the same tests in order, each with its steps in
  -- canonical form, its arguments, its environment and its exit code, and the same unmocked commands;
  -- all else is gone. The tests are writable: plain commands with arguments of valid UTF-8 that are
  -- not empty, no command `_`, exit codes of 32 bits, and an environment of texts with distinct keys.
  -- The paths of the unmocked commands are valid UTF-8.
  pub parse-serialize_tests :
      (tests : Tests)
      → All (IsWritable which Y) tests.tests
      → All IsPath tests.unmocked_commands
      → (serialize_tests E Y tests >>= parse compile_regex) ≡ ok (forget_tests which tests)
  unfolding parse parse_object tests_from_array forget_tests expect_array new_tests
  parse-serialize_tests tests writable paths =
      let h = file_object tests.unmocked_commands tests.tests in
      let elements = array (array_of (map (serialize_test E Y) tests.tests)) in
      let read : Tests = record {
        tests = map (forget_test which) tests.tests;
        unmocked_commands = [];
        interpreter = none;
      } in
      let found : hash_get (string (codes "tests")) h ≡ some elements =
        unfold file_object hash_get yaml_eq equal in simp hash_get-optional in
      let commands : hash_get (string (codes "unmockedCommands")) h
          ≡ commands_yaml tests.unmocked_commands =
        unfold file_object hash_get yaml_eq equal in simp (hash_get-optional, or_else-none) in
      let absent : hash_get (string (codes "interpreter")) h ≡ none =
        unfold file_object hash_get yaml_eq equal in simp hash_get-optional in
      rw
        (
          serialize_tests-file_object tests paths,
          expect_field-some (codes "tests") h elements found,
          file_object_known tests.unmocked_commands tests.tests,
          items-array_of (map (serialize_test E Y) tests.tests),
          from_elements-serialize_test tests.tests [] writable,
        )
        (rw
          (
            add_unmocked_commands-written tests.unmocked_commands h read commands refl,
            add_interpreter-absent h (record read { unmocked_commands = tests.unmocked_commands })
                absent,
          )
          refl)
