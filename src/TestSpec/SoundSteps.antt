-- ===== src/TestSpec/SoundSteps.antt =====
-- The steps of a test that was read, and the test itself.
use check_protocols.Prelude.{
  inl, inr, Bool, true, false, Option, List, [], ◌∷◌, arith, Bool-cases, All-append,
}
use check_protocols.CommandMatcher.{new_regex}
use check_protocols.Prelude.Text.{Bytes, codes}
use check_protocols.Result.{R, ok, err, panic, diverge, Ends, Ends-bind}
use check_protocols.TestSpec.{new_step, Test, new_test}
use check_protocols.TestSpec.Parse.{
  add_step_stdout, step_keys, test_keys, add_arguments, add_env, add_cwd, add_stdout, add_stderr,
  add_exitcode, StepOrHole, step_item, hole_item, is_hole, push_item, step_from_regex, step_of,
  parse_step, parse_step_or_hole, from_items, test_from_array, test_from_object,
}
use check_protocols.TestSpec.SoundFields.{
  IsSoundStep, IsSound, step_from_string-Ends, new_regex-Ends, add_step_exitcode-Ends,
  add_step_stdout-Ends, add_arguments-Ends, add_env-Ends, add_cwd-Ends, add_stdout-Ends,
  add_stderr-Ends, add_exitcode-Ends, add_mocked_files-Ends,
}
use check_protocols.Yaml.{
  Yaml, real, integer, string, boolean, array, hash, alias, null, bad_value, Yamls, Hash,
}
use check_protocols.YamlExt.{expect_str, expect_array, expect_field, check_keys}
use check_protocols.YamlExt.Total.{
  expect_str-Ends, expect_array-Ends, expect_field-Ends, check_keys-Ends,
}

module _ (compile : Bytes → Option (Bytes → Bool)) where
  step_from_regex-Ends : (yaml : Yaml) → Ends IsSoundStep (step_from_regex compile yaml)
  unfolding step_from_regex new_step
  step_from_regex-Ends yaml =
      Ends-bind (λ s. Unit) IsSoundStep (expect_str yaml) _ (expect_str-Ends yaml)
        λ text _.
          Ends-bind (λ r. Unit) IsSoundStep (new_regex compile text) _ (new_regex-Ends compile text)
            (λ r _. ground arith)

  step_of-Ends :
      (command regex : R Yaml)
      → Ends (λ y. Unit) command
      → Ends (λ y. Unit) regex
      → Ends IsSoundStep (step_of compile command regex)
  unfolding step_of
  step_of-Ends (ok c) (err e) h k =
      Ends-bind (λ s. Unit) IsSoundStep (expect_str c) _ (expect_str-Ends c)
        (λ text _. step_from_string-Ends text)
  step_of-Ends (err e) (ok r) h k = step_from_regex-Ends r
  step_of-Ends (ok c) (ok r) h k = tt
  step_of-Ends (err e) (err f) h k = tt
  step_of-Ends panic r h k = absurd h
  step_of-Ends diverge r h k = absurd h
  step_of-Ends c panic h k = absurd k
  step_of-Ends c diverge h k = absurd k

  parse_hash_step-Ends : (object : Hash) → Ends IsSoundStep (parse_step compile (hash object))
  unfolding parse_step
  parse_hash_step-Ends object =
      Ends-bind (λ u. Unit) IsSoundStep (check_keys step_keys object) _
        (check_keys-Ends step_keys object)
        λ u _.
          Ends-bind IsSoundStep IsSoundStep (step_of compile _ _) _
            (step_of-Ends _ _ (expect_field-Ends (codes "command") object)
              (expect_field-Ends (codes "regex") object))
            λ step h.
              Ends-bind IsSoundStep IsSoundStep (add_step_stdout object step) _
                (add_step_stdout-Ends object step h)
                (λ step' h'. add_step_exitcode-Ends object step' h')

  parse_step-Ends : (yaml : Yaml) → Ends IsSoundStep (parse_step compile yaml)
  unfolding parse_step
  parse_step-Ends (string text) = step_from_string-Ends text
  parse_step-Ends (hash object) = parse_hash_step-Ends object
  parse_step-Ends (real t) = tt
  parse_step-Ends (integer n) = tt
  parse_step-Ends (boolean b) = tt
  parse_step-Ends (array a) = tt
  parse_step-Ends (alias n) = tt
  parse_step-Ends null = tt
  parse_step-Ends bad_value = tt

  abbrev IsSoundItem : StepOrHole → Type 0
  IsSoundItem (step_item step) = IsSoundStep step
  IsSoundItem hole_item = Unit

  parse_step_or_hole-Ends : (yaml : Yaml) → Ends IsSoundItem (parse_step_or_hole compile yaml)
  unfolding parse_step_or_hole
  parse_step_or_hole-Ends yaml = elim (Bool-cases (is_hole yaml)) [
    | inl e ↦ rw e tt
    | inr e ↦ rw e (
        Ends-bind IsSoundStep IsSoundItem (parse_step compile yaml) _ (parse_step-Ends yaml)
          (λ step h. h))
  ]

  push_item-Ends :
      (step_or_hole : StepOrHole) (has_more : Bool) (test : Test)
      → IsSoundItem step_or_hole
      → IsSound test
      → Ends IsSound (push_item step_or_hole has_more test)
  unfolding push_item
  push_item-Ends (step_item step) has_more test h k = record {
    steps = All-append IsSoundStep test.steps (step ∷ []) k.steps (h, tt);
    cwd = k.cwd;
    exitcode = k.exitcode;
  }
  push_item-Ends hole_item true test h k = tt
  push_item-Ends hole_item false test h k = record {
    steps = k.steps;
    cwd = k.cwd;
    exitcode = k.exitcode;
  }

  from_items-Ends :
      (l : List (Yaml × Bool)) (test : Test)
      → IsSound test
      → Ends IsSound (from_items compile l test)
  unfolding from_items
  from_items-Ends [] test h = h
  from_items-Ends ((yaml, has_more) ∷ rest) test h =
      Ends-bind IsSoundItem IsSound (parse_step_or_hole compile yaml) _
        (parse_step_or_hole-Ends yaml)
        λ step_or_hole k.
          Ends-bind IsSound IsSound (push_item step_or_hole has_more test) _
            (push_item-Ends step_or_hole has_more test k h)
            (λ test' h'. from_items-Ends rest test' h')

  test_from_array-Ends : (steps : Yamls) → Ends IsSound (test_from_array compile steps)
  unfolding test_from_array new_test
  test_from_array-Ends steps =
      from_items-Ends _ (new_test []) (record { steps = tt; cwd = tt; exitcode = tt })

  pub test_from_object-Ends : (object : Hash) → Ends IsSound (test_from_object compile object)
  unfolding test_from_object
  test_from_object-Ends object =
      Ends-bind (λ u. Unit) IsSound (check_keys test_keys object) _
        (check_keys-Ends test_keys object)
        λ u _.
          Ends-bind (λ y. Unit) IsSound (expect_field (codes "steps") object) _
            (expect_field-Ends (codes "steps") object)
            λ steps _.
              Ends-bind (λ a. Unit) IsSound (expect_array steps) _ (expect_array-Ends steps)
                λ listed _.
                  Ends-bind IsSound IsSound (test_from_array compile listed) _
                    (test_from_array-Ends listed)
                    λ t₀ h₀.
                      Ends-bind IsSound IsSound (add_arguments object t₀) _
                        (add_arguments-Ends object t₀ h₀)
                        λ t₁ h₁.
                          Ends-bind IsSound IsSound (add_env object t₁) _
                            (add_env-Ends object t₁ h₁)
                            λ t₂ h₂.
                              Ends-bind IsSound IsSound (add_cwd object t₂) _
                                (add_cwd-Ends object t₂ h₂)
                                λ t₃ h₃.
                                  Ends-bind IsSound IsSound (add_stdout object t₃) _
                                    (add_stdout-Ends object t₃ h₃)
                                    λ t₄ h₄.
                                      Ends-bind IsSound IsSound (add_stderr object t₄) _
                                        (add_stderr-Ends object t₄ h₄)
                                        λ t₅ h₅.
                                          Ends-bind IsSound IsSound (add_exitcode object t₅) _
                                            (add_exitcode-Ends object t₅ h₅)
                                            (λ t₆ h₆. add_mocked_files-Ends object t₆ h₆)
