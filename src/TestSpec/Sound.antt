-- ===== src/TestSpec/Sound.antt =====
-- What every test file that was read satisfies.
use check_protocols.Prelude.{◌≢◌, Bool, Option, List, [], ◌∷◌, ◌++◌, All, All-append}
use check_protocols.Prelude.Text.{Bytes, codes}
use check_protocols.Result.{
  R, ok, err, panic, diverge, Returns, Ends, Ends-bind, Ends-weaken, Ends-Returns, ends,
}
use check_protocols.TestSpec.{Test, Tests, new_tests}
use check_protocols.TestSpec.Parse.{expect_strs, test_from_object}
use check_protocols.TestSpec.ParseTests.{
  tests_keys, add_interpreter, add_unmocked_commands, from_elements, tests_from_array, parse_object,
  parse,
}
use check_protocols.TestSpec.SoundFields.{IsSound, AllSound, expect_strs-Ends, if_field-Ends}
use check_protocols.TestSpec.SoundSteps.{test_from_object-Ends}
use check_protocols.Yaml.{
  Yaml, real, integer, string, boolean, array, hash, alias, null, bad_value, Yamls, Hash, items,
}
use check_protocols.YamlExt.{expect_str, expect_array, expect_object, check_keys}
use check_protocols.YamlExt.Total.{
  expect_str-Ends, expect_array-Ends, expect_object-Ends, expect_field-Ends, check_keys-Ends,
}

module _ (compile : Bytes → Option (Bytes → Bool)) where
  from_elements-Ends :
      (elements : List Yaml) (result : List Test)
      → All IsSound result
      → Ends (All IsSound) (from_elements compile elements result)
  unfolding from_elements
  from_elements-Ends [] result h = h
  from_elements-Ends (element ∷ elements) result h =
      Ends-bind (λ o. Unit) (All IsSound) (expect_object element) _ (expect_object-Ends element)
        λ object _.
          Ends-bind IsSound (All IsSound) (test_from_object compile object) _
            (test_from_object-Ends compile object)
            λ test k.
              from_elements-Ends elements (result ++ test ∷ [])
                (All-append IsSound result (test ∷ []) h (k, tt))

  tests_from_array-Ends : (listed : Yamls) → Ends AllSound (tests_from_array compile listed)
  unfolding tests_from_array new_tests
  tests_from_array-Ends listed =
      Ends-bind (All IsSound) AllSound (from_elements compile (items listed) []) _
        (from_elements-Ends (items listed) [] tt) (λ tests h. h)

  add_unmocked_commands-Ends :
      (object : Hash) (tests : Tests)
      → AllSound tests
      → Ends AllSound (add_unmocked_commands object tests)
  unfolding add_unmocked_commands
  add_unmocked_commands-Ends object tests h =
      if_field-Ends AllSound (codes "unmockedCommands") object tests _ h λ yaml.
        Ends-bind (λ a. Unit) AllSound (expect_array yaml) _ (expect_array-Ends yaml)
          λ listed _.
            Ends-bind (λ s. Unit) AllSound (expect_strs (items listed) tests.unmocked_commands) _
              (expect_strs-Ends (items listed) tests.unmocked_commands) (λ commands _. h)

  add_interpreter-Ends :
      (object : Hash) (tests : Tests)
      → AllSound tests
      → Ends AllSound (add_interpreter object tests)
  unfolding add_interpreter
  add_interpreter-Ends object tests h =
      if_field-Ends AllSound (codes "interpreter") object tests _ h λ yaml.
        Ends-bind (λ s. Unit) AllSound (expect_str yaml) _ (expect_str-Ends yaml) (λ text _. h)

  parse_object-Ends :
      (object : Hash) (tests steps : R Yaml)
      → Ends (λ y. Unit) tests
      → Ends (λ y. Unit) steps
      → Ends AllSound (parse_object compile object tests steps)
  unfolding parse_object new_tests
  parse_object-Ends object (ok yaml) steps h k =
      Ends-bind (λ u. Unit) AllSound (check_keys tests_keys object) _
        (check_keys-Ends tests_keys object)
        λ u _.
          Ends-bind (λ a. Unit) AllSound (expect_array yaml) _ (expect_array-Ends yaml)
            λ listed _.
              Ends-bind AllSound AllSound (tests_from_array compile listed) _
                (tests_from_array-Ends listed)
                λ t₀ h₀.
                  Ends-bind AllSound AllSound (add_unmocked_commands object t₀) _
                    (add_unmocked_commands-Ends object t₀ h₀)
                    (λ t₁ h₁. add_interpreter-Ends object t₁ h₁)
  parse_object-Ends object (err e) (ok steps) h k =
      Ends-bind IsSound AllSound (test_from_object compile object) _
        (test_from_object-Ends compile object) (λ test s. (s, tt))
  parse_object-Ends object (err e) (err f) h k = tt
  parse_object-Ends object panic steps h k = absurd h
  parse_object-Ends object diverge steps h k = absurd h
  parse_object-Ends object tests panic h k = absurd k
  parse_object-Ends object tests diverge h k = absurd k

  parse-Ends : (yaml : Yaml) → Ends AllSound (parse compile yaml)
  unfolding parse
  parse-Ends (array elements) = tests_from_array-Ends elements
  parse-Ends (hash object) =
      parse_object-Ends object _ _ (expect_field-Ends (codes "tests") object)
        (expect_field-Ends (codes "steps") object)
  parse-Ends (real t) = tt
  parse-Ends (integer n) = tt
  parse-Ends (string t) = tt
  parse-Ends (boolean b) = tt
  parse-Ends (alias n) = tt
  parse-Ends null = tt
  parse-Ends bad_value = tt

  -- Whatever a test file has in it, its parser returns tests or an error: it does not panic, and no
  -- loop is cut short.
  pub parse_total : (yaml : Yaml) → (parse compile yaml ≢ diverge) × (parse compile yaml ≢ panic)
  parse_total yaml =
      ends (parse compile yaml) (Ends-weaken AllSound (λ t. Unit) _ (parse-Ends yaml) (λ t _. tt))

  -- Every test that was read has an absolute working directory, if it has one, and exit codes of 32
  -- bits, its own and those of its steps.
  pub parse-AllSound : (yaml : Yaml) → Returns AllSound (parse compile yaml)
  parse-AllSound yaml = Ends-Returns AllSound (parse compile yaml) (parse-Ends yaml)
