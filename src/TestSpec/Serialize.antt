-- ===== src/TestSpec/Serialize.antt =====
-- test_spec/mod.rs: how steps, tests and the tests of a file are written as YAML values. The entries of
-- the environment are written in the order in which the hash map gives them: the order of the list.
use check_protocols.CommandMatcher
use check_protocols.Prelude.{Option, none, some, List, [], ◌∷◌, map, if◌then◌else◌, is_empty}
use check_protocols.CheckerResult.{exitcode}
use check_protocols.Command.{format_arguments}
use check_protocols.CommandMatcher.{CommandMatcher}
use check_protocols.Platform.{Platform}
use check_protocols.Prelude.Int.{ℤ, pos, int_eq}
use check_protocols.Prelude.Text.{Bytes, codes}
use check_protocols.Result.{R, ok, ◌>>=◌}
use check_protocols.TestSpec.{Step, Test, Tests}
use check_protocols.Utils.{path_to_string}
use check_protocols.Yaml.{
  Yaml, integer, string, array, hash, Hash, empty_hash, hash_insert, array_of, YamlCrate,
}

module _ (E : Platform) (Y : YamlCrate) where
  open E use {which}
  open Y use {from_str}

  unfoldable pub serialize_step : Step → Yaml
  serialize_step step =
      let command = string (CommandMatcher.format which step.command_matcher) in
      if int_eq step.exitcode (pos 0)
      then command
      else hash (
          hash_insert (from_str (codes "exitcode")) (integer step.exitcode)
            (hash_insert (from_str (codes "command")) command empty_hash))

  unfoldable pub serialize_entries : List (Bytes × Bytes) → Hash → Hash
  serialize_entries [] env = env
  serialize_entries ((key, value) ∷ entries) env =
      serialize_entries entries (hash_insert (from_str key) (from_str value) env)

  unfoldable pub serialize_env : List (Bytes × Bytes) → Hash → Hash
  unfolding serialize_entries
  serialize_env env object =
      if is_empty env
      then object
      else hash_insert (from_str (codes "env")) (hash (serialize_entries env empty_hash)) object

  unfoldable pub serialize_arguments : List Bytes → Hash → Hash
  serialize_arguments arguments object =
      if is_empty arguments
      then object
      else hash_insert (from_str (codes "arguments")) (string (format_arguments arguments)) object

  unfoldable pub serialize_exitcode : Option ℤ → Hash → Hash
  serialize_exitcode none object = object
  serialize_exitcode (some exitcode) object =
      hash_insert (from_str (codes "exitcode")) (integer exitcode) object

  unfoldable pub serialize_test : Test → Yaml
  unfolding serialize_env serialize_arguments serialize_exitcode
  serialize_test test =
      let steps = array (array_of (map serialize_step test.steps)) in
      hash (
        serialize_exitcode test.exitcode (
          hash_insert (from_str (codes "steps")) steps
            (serialize_env test.env (serialize_arguments test.arguments empty_hash))))

  -- `collect::<R<Vec<Yaml>>>`
  unfoldable pub serialize_paths : List Bytes → R (List Yaml)
  serialize_paths [] = ok []
  serialize_paths (path ∷ paths) = do
    text ← path_to_string path
    yamls ← serialize_paths paths
    ok (string text ∷ yamls)

  unfoldable pub serialize_unmocked_commands : List Bytes → Hash → R Hash
  unfolding serialize_paths
  serialize_unmocked_commands [] object = ok object
  serialize_unmocked_commands (command ∷ commands) object = do
    yamls ← serialize_paths (command ∷ commands)
    ok (hash_insert (from_str (codes "unmockedCommands")) (array (array_of yamls)) object)

  unfoldable pub serialize_tests : Tests → R Yaml
  unfolding serialize_unmocked_commands
  serialize_tests tests = do
    object ← serialize_unmocked_commands tests.unmocked_commands empty_hash
    ok (
        hash (
          hash_insert (from_str (codes "tests")) (array (array_of (map serialize_test tests.tests)))
            object))
