-- ===== src/TestSpec.antt =====
-- test_spec/mod.rs: the steps that a script is expected to make, a test, and the tests of a file. The
-- children read them from YAML values and write them there.
pub mod Parse
pub mod ParseTests
pub mod Serialize
pub mod Load
pub mod Steps
pub mod Written
pub mod Object
pub mod RoundTrip
pub mod WholeFile
pub mod SoundFields
pub mod SoundSteps
pub mod Sound
pub mod Refused
use check_protocols.Prelude.{Bool, false, Option, none, some, List, [], ◌∷◌, ◌++◌, if◌then◌else◌}
use check_protocols.CheckerResult.{exitcode}
use check_protocols.CommandMatcher.{CommandMatcher}
use check_protocols.Prelude.Int.{ℤ, pos}
use check_protocols.Prelude.Text.{Bytes, equal}

pub record Step : Type 0 where
  pub command_matcher : CommandMatcher
  pub stdout : Bytes
  pub exitcode : ℤ

unfoldable pub new_step : CommandMatcher → Step
new_step m = record { command_matcher = m; stdout = []; exitcode = pos 0 }

pub record Test : Type 0 where
  pub steps : List Step
  pub ends_with_hole : Bool
  pub arguments : List Bytes
  pub env : List (Bytes × Bytes)
  pub cwd : Option Bytes
  pub stdout : Option Bytes
  pub stderr : Option Bytes
  pub exitcode : Option ℤ
  pub mocked_files : List Bytes

unfoldable pub new_test : List Step → Test
new_test steps = record {
  steps = steps;
  ends_with_hole = false;
  arguments = [];
  env = [];
  cwd = none;
  stdout = none;
  stderr = none;
  exitcode = none;
  mocked_files = [];
}

-- `unwrap_or(0)`
abbrev pub get_or_zero : Option ℤ → ℤ
get_or_zero none = pos 0
get_or_zero (some n) = n

pub record Tests : Type 0 where
  pub tests : List Test
  pub unmocked_commands : List Bytes
  pub interpreter : Option Bytes

unfoldable pub new_tests : List Test → Tests
new_tests tests = record { tests = tests; unmocked_commands = []; interpreter = none }

-- `HashMap::insert` on the environment, which has one entry for each key
env_without : Bytes → List (Bytes × Bytes) → List (Bytes × Bytes)
env_without key [] = []
env_without key ((k, v) ∷ env) =
    let rest = env_without key env in if equal k key then rest else (k, v) ∷ rest

unfoldable pub env_insert : Bytes → Bytes → List (Bytes × Bytes) → List (Bytes × Bytes)
unfolding env_without
env_insert key value env = env_without key env ++ (key, value) ∷ []
