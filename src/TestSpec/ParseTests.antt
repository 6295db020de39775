-- ===== src/TestSpec/ParseTests.antt =====
-- test_spec/mod.rs: how the tests of a file are read from a YAML value.
use check_protocols.Prelude.{Bool, Option, some, List, [], ◌∷◌, ◌++◌}
use check_protocols.Prelude.Text.{Bytes, codes}
use check_protocols.Result.{expected_tests, no_tests_or_steps, R, ok, err, ◌>>=◌, ◌>>◌}
use check_protocols.TestSpec.{Test, Tests, new_tests}
use check_protocols.TestSpec.Parse.{if_field, expect_strs, test_from_object}
use check_protocols.Yaml.{Yaml, array, hash, Yamls, Hash, items}
use check_protocols.YamlExt.{expect_str, expect_array, expect_object, expect_field, check_keys}

abbrev pub tests_keys : List Bytes
tests_keys = codes "tests" ∷ codes "interpreter" ∷ codes "unmockedCommands" ∷ []

unfoldable pub add_interpreter : Hash → Tests → R Tests
unfolding if_field
add_interpreter object tests =
    if_field (codes "interpreter") object tests
      (λ yaml. do text ← expect_str yaml; ok (record tests { interpreter = some text }))

unfoldable pub add_unmocked_commands : Hash → Tests → R Tests
unfolding if_field
add_unmocked_commands object tests = if_field (codes "unmockedCommands") object tests (λ yaml. do
  listed ← expect_array yaml
  commands ← expect_strs (items listed) tests.unmocked_commands
  ok (record tests { unmocked_commands = commands }))

module _ (compile : Bytes → Option (Bytes → Bool)) where
  unfoldable pub from_elements : List Yaml → List Test → R (List Test)
  from_elements [] result = ok result
  from_elements (element ∷ elements) result = do
    object ← expect_object element
    test ← test_from_object compile object
    from_elements elements (result ++ test ∷ [])

  unfoldable pub tests_from_array : Yamls → R Tests
  unfolding from_elements
  tests_from_array listed = do result ← from_elements (items listed) []; ok (new_tests result)

  -- the `match` on the fields `tests` and `steps` of a top-level object
  unfoldable pub parse_object : Hash → R Yaml → R Yaml → R Tests
  unfolding add_interpreter add_unmocked_commands
  parse_object object (ok yaml) steps = do
    check_keys tests_keys object
    listed ← expect_array yaml
    tests₀ ← tests_from_array listed
    tests₁ ← add_unmocked_commands object tests₀
    add_interpreter object tests₁
  parse_object object _ (ok steps) = do
    test ← test_from_object compile object
    ok (new_tests (test ∷ []))
  parse_object object _ _ = err (no_tests_or_steps (hash object))

  unfoldable pub parse : Yaml → R Tests
  unfolding parse_object
  parse (array elements) = tests_from_array elements
  parse (hash object) =
      parse_object object (expect_field (codes "tests") object)
        (expect_field (codes "steps") object)
  parse yaml = err (expected_tests yaml)
