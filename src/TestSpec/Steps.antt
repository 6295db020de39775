-- ===== src/TestSpec/Steps.antt =====
-- A step that is written and read back.
use check_protocols.Command
use check_protocols.CommandMatcher
use check_protocols.Prelude.{
  ◌≡◌, refl, sym, ap, ◌∙◌, ◌≢◌, inl, inr, Bool, true, false, Option, List, [], ◌∷◌, ◌++◌, map,
  append_assoc, append-nil, Bool-cases, All,
}
use check_protocols.CheckerResult.{exitcode}
use check_protocols.Command.{Command, format}
use check_protocols.Command.Replay.{IsPlain, IsArgument, new-format}
use check_protocols.CommandMatcher.{CommandMatcher, exact_match, regex_match}
use check_protocols.ExecutablePath.{canonicalize}
use check_protocols.Platform.{Platform}
use check_protocols.Prelude.Int.{ℤ, pos, int_eq, int_eq_iff}
use check_protocols.Prelude.Text.{Bytes, codes, equal, equal_ne}
use check_protocols.Result.{ok}
use check_protocols.TestSpec.{Step, new_step, Test, new_test}
use check_protocols.TestSpec.Parse.{
  step_from_string, step_item, is_hole, push_item, parse_step, parse_step_or_hole, from_items,
  test_from_array,
}
use check_protocols.TestSpec.Serialize.{serialize_step}
use check_protocols.Utils.{with_has_more}
use check_protocols.Yaml.{
  Yaml, integer, string, hash, Hash, empty_hash, entry, yaml_eq, hash_get, hash_push_back,
  hash_without, hash_insert, items, array_of, YamlCrate,
}
use check_protocols.YamlExt.{expect_str, expect_field, is_known, check_keys}
use check_protocols.YamlExt.Integers.{InI32, expect_integer-integer}

-- What is left of a step: the executable in its canonical form, and no output.
pub forget_matcher : (Bytes → Option Bytes) → CommandMatcher → CommandMatcher
forget_matcher which (exact_match c) =
    exact_match (record { executable = canonicalize which c.executable; arguments = c.arguments })
forget_matcher which (regex_match regex) = regex_match regex

unfoldable pub forget_step : (Bytes → Option Bytes) → Step → Step
unfolding forget_matcher
forget_step which step = record {
  command_matcher = forget_matcher which step.command_matcher;
  stdout = [];
  exitcode = step.exitcode;
}

-- A step for one command, whose text is read back as this command.
pub record IsWritableStep (which : Bytes → Option Bytes) (step : Step) : Type 0 where
  pub command : Command
  pub exact : step.command_matcher ≡ exact_match command
  pub plain : IsPlain (canonicalize which command.executable)
  pub arguments : All IsArgument command.arguments
  pub in_range : InI32 step.exitcode
  pub not_hole : Command.format which command ≢ codes "_"

pub items-array_of : (yamls : List Yaml) → items (array_of yamls) ≡ yamls
unfolding items array_of
items-array_of [] = refl
items-array_of (y ∷ ys) = ap (λ l. y ∷ l) (items-array_of ys)

module _ (E : Platform) (Y : YamlCrate) where
  open E use {which, compile_regex}
  open Y use {from_str, from_str-field}

  step_from_string-format :
      (c : Command)
      → IsPlain (canonicalize which c.executable)
      → All IsArgument c.arguments
      → step_from_string (Command.format which c)
        ≡ ok (new_step (forget_matcher which (exact_match c)))
  unfolding step_from_string forget_matcher
  step_from_string-format c plain arguments = rw (new-format which c plain arguments)

  step_hash : Bytes → ℤ → Hash
  step_hash text n =
      entry (string (codes "command")) (string text)
        (entry (string (codes "exitcode")) (integer n) empty_hash)

  parse_step-step_hash :
      (c : Command) (n : ℤ)
      → IsPlain (canonicalize which c.executable)
      → All IsArgument c.arguments
      → InI32 n
      → parse_step compile_regex (hash (step_hash (Command.format which c) n))
        ≡ ok (record {
          command_matcher = forget_matcher which (exact_match c);
          stdout = [];
          exitcode = n;
        })
  unfolding parse_step step_hash check_keys is_known expect_field hash_get expect_str new_step equal
      yaml_eq
  parse_step-step_hash c n plain arguments range =
      rw (step_from_string-format c plain arguments, expect_integer-integer n range) refl

  serialize_step-hash :
      (step : Step)
      → int_eq step.exitcode (pos 0) ≡ false
      → serialize_step E Y step
        ≡ hash (step_hash (CommandMatcher.format which step.command_matcher) step.exitcode)
  unfolding serialize_step step_hash hash_insert hash_push_back hash_without equal yaml_eq
  serialize_step-hash step nonzero =
      let (command, (exitcode, rest)) = from_str-field in rw (nonzero, command, exitcode) refl

  serialize_step-string :
      (step : Step)
      → int_eq step.exitcode (pos 0) ≡ true
      → serialize_step E Y step ≡ string (CommandMatcher.format which step.command_matcher)
  unfolding serialize_step
  serialize_step-string step z = rw z refl

  pub parse_step-serialize_step :
      (step : Step)
      → IsWritableStep which step
      → parse_step compile_regex (serialize_step E Y step) ≡ ok (forget_step which step)
  unfolding forget_step
  parse_step-serialize_step step w = elim (Bool-cases (int_eq step.exitcode (pos 0))) [
    | inl z ↦
        let no_code : step.exitcode ≡ pos 0 = (int_eq_iff step.exitcode (pos 0)).0 z in
        rw (serialize_step-string step z, w.exact, no_code)
          (unfold parse_step CommandMatcher.format new_step in
            step_from_string-format w.command w.plain w.arguments)
    | inr z ↦
        rw (serialize_step-hash step z, w.exact)
          (unfold CommandMatcher.format in
            parse_step-step_hash w.command step.exitcode w.plain w.arguments w.in_range)
  ]

  is_hole-serialize_step :
      (step : Step) → IsWritableStep which step → is_hole (serialize_step E Y step) ≡ false
  unfolding is_hole
  is_hole-serialize_step step w = elim (Bool-cases (int_eq step.exitcode (pos 0))) [
    | inl z ↦
        rw (serialize_step-string step z, w.exact)
          (unfold CommandMatcher.format in
            equal_ne (Command.format which w.command) (codes "_") w.not_hole)
    | inr z ↦ rw (serialize_step-hash step z) refl
  ]

  parse_step_or_hole-serialize_step :
      (step : Step)
      → IsWritableStep which step
      → parse_step_or_hole compile_regex (serialize_step E Y step)
        ≡ ok (step_item (forget_step which step))
  unfolding parse_step_or_hole
  parse_step_or_hole-serialize_step step w =
      rw (is_hole-serialize_step step w, parse_step-serialize_step step w) refl

  push_step_item :
      (step : Step) (has_more : Bool) (rest : List (Yaml × Bool)) (test : Test)
      → IsWritableStep which step
      → from_items compile_regex ((serialize_step E Y step, has_more) ∷ rest) test
        ≡ from_items compile_regex rest
            (record test { steps = test.steps ++ forget_step which step ∷ [] })
  unfolding from_items push_item
  push_step_item step has_more rest test w = rw (parse_step_or_hole-serialize_step step w) refl

  push_steps :
      (steps : List Step) (test : Test)
      → All (IsWritableStep which) steps
      → from_items compile_regex (with_has_more (map (serialize_step E Y) steps)) test
        ≡ ok (record test { steps = test.steps ++ map (forget_step which) steps })
  unfolding from_items with_has_more
  push_steps [] test h = ap (λ s. ok (record test { steps = s })) (sym (append-nil test.steps))
  push_steps (s ∷ []) test (w, h) = push_step_item s false [] test w
  push_steps (s ∷ s' ∷ steps) test (w, h) =
      push_step_item s true (with_has_more (map (serialize_step E Y) (s' ∷ steps))) test w
      ∙ push_steps (s' ∷ steps) (record test { steps = test.steps ++ forget_step which s ∷ [] }) h
      ∙ ap (λ l. ok (record test { steps = l }))
          (append_assoc test.steps (forget_step which s ∷ [])
            (map (forget_step which) (s' ∷ steps)))

  -- The steps of a test are read back in order, and no hole is found among them.
  pub test_from_array-serialize_step :
      (steps : List Step)
      → All (IsWritableStep which) steps
      → test_from_array compile_regex (array_of (map (serialize_step E Y) steps))
        ≡ ok (new_test (map (forget_step which) steps))
  unfolding test_from_array new_test
  test_from_array-serialize_step steps h =
      rw (items-array_of (map (serialize_step E Y) steps)) (push_steps steps (new_test []) h)
