-- ===== src/Tests/Specs.antt =====
-- The theorems on test files and on the program at concrete inputs.
use check_protocols.ArgumentParser
use check_protocols.Command
use check_protocols.Prelude.{
  ◌^◌, ◌≡◌, refl, ◌≢◌, true, none, some, List, [], ◌∷◌, ◌++◌, arith, ltb, if◌then◌else◌, All,
}
use check_protocols.ArgumentParser.{
  skip_spaces, peek_chars, parse_char, collect_loop, collect_chars_until, parse_word, collect,
  parse_arguments,
}
use check_protocols.Command.{Command, new, format}
use check_protocols.CommandMatcher.{exact_match}
use check_protocols.ExecutablePath.{canonicalize}
use check_protocols.FilePath.{file_name}
use check_protocols.Prelude.Int.{ℤ, pos, negsuc}
use check_protocols.Prelude.Text.{codes, equal}
use check_protocols.Recorder.{recorded_step}
use check_protocols.Recorder.ReadBack.{recorded_test, conforms-read_back}
use check_protocols.Recorder.Replay.{
  ProcessEvent, entered_command, exited_with, entered_commands, runs_of, recorded_steps,
}
use check_protocols.Result.{
  integer_too_large, hole_not_last, ok, err, panic, diverge, ◌>>=◌, Returns,
}
use check_protocols.StdioRedirecting.{stdout_stream, stderr_stream, Redirector}
use check_protocols.TestChecker.Sound.{conforms}
use check_protocols.TestSpec.{Step, new_step, Test, new_test, Tests, new_tests}
use check_protocols.TestSpec.Parse.{step_from_string, is_hole, parse_step, test_from_array}
use check_protocols.TestSpec.ParseTests.{parse}
use check_protocols.TestSpec.Refused.{AreRead, test_from_array_hole}
use check_protocols.TestSpec.RoundTrip.{IsWritable}
use check_protocols.TestSpec.Serialize.{serialize_tests}
use check_protocols.TestSpec.Sound.{parse_total, parse-AllSound}
use check_protocols.TestSpec.SoundFields.{AllSound}
use check_protocols.TestSpec.Steps.{IsWritableStep}
use check_protocols.TestSpec.WholeFile.{forget_tests, IsPath, parse-serialize_tests}
use check_protocols.Tests.Instances.{plain_platform, false_command, yaml_crate}
use check_protocols.Tests.Words.{IsPlain-executable, one-IsArgument}
use check_protocols.Utf8.{to_string_lossy, is_utf8}
use check_protocols.Yaml.{
  Yaml, integer, string, array, hash, null, Hash, empty_hash, entry, array_of, YamlCrate,
}
use check_protocols.YamlExt.{expect_integer}
use check_protocols.YamlExt.Integers.{InI32, expect_integer_bounds, expect_integer_wraps}

abbrev one_command : List ProcessEvent
one_command = entered_command false_command ∷ exited_with (pos 3) ∷ exited_with (pos 7) ∷ []

abbrev pub plain_yaml : YamlCrate
plain_yaml = yaml_crate null

abbrev one_run : List (Command × ℤ)
one_run = (false_command, pos 3) ∷ []

false_command_not_hole : Command.format (λ p. none) false_command ≢ codes "_"
unfolding Command.format canonicalize file_name to_string_lossy
false_command_not_hole e = cc

one_step-IsWritableStep : All (IsWritableStep plain_platform.which) (recorded_steps one_run)
unfolding recorded_steps recorded_step
one_step-IsWritableStep = (
  record {
    command = false_command;
    exact = refl;
    plain = IsPlain-executable;
    arguments = one-IsArgument;
    in_range = ground arith;
    not_hole = false_command_not_hole;
  },
  tt,
)

abbrev pub one_test : Test
one_test = record (new_test (recorded_steps one_run)) {
  arguments = codes "x" ∷ [];
  env = (codes "A", codes "b") ∷ [];
  exitcode = some (pos 2);
}

pub one_test-IsWritable : (yaml : Yaml) → IsWritable plain_platform.which (yaml_crate yaml) one_test
unfolding new_test
one_test-IsWritable yaml = record {
  steps = one_step-IsWritableStep;
  arguments = ((λ e. cc, unfold is_utf8 in refl), tt);
  keys = (tt, tt);
  texts = ((refl, refl), tt);
  in_range = ground arith;
}

abbrev one_file : Tests
one_file = record { tests = one_test ∷ []; unmocked_commands = codes "ls" ∷ []; interpreter = none }

ls-IsPath : All IsPath (codes "ls" ∷ [])
unfolding is_utf8
ls-IsPath = (refl, tt)

parse-serialize_tests_example :
    (serialize_tests plain_platform plain_yaml one_file >>= parse plain_platform.compile_regex)
    ≡ ok (forget_tests plain_platform.which one_file)
parse-serialize_tests_example =
    parse-serialize_tests plain_platform plain_yaml one_file (one_test-IsWritable null, tt)
      ls-IsPath

abbrev any_redirector : Redirector
any_redirector = record {
  stdout = record { stream_type = stdout_stream; captured = some (codes "out") };
  stderr = record { stream_type = stderr_stream; captured = none };
}

conforms-read_back_example :
    (test : Test) × ((serialize_tests plain_platform plain_yaml
          (new_tests (recorded_test plain_platform plain_yaml one_command (pos 2) ∷ []))
        >>= parse plain_platform.compile_regex)
      ≡ ok (new_tests (test ∷ [])))
    × (conforms plain_platform test (entered_commands one_command) (pos 2) any_redirector ≡ true)
conforms-read_back_example =
    conforms-read_back plain_platform plain_yaml one_command (pos 2) any_redirector tt
      (unfold runs_of in one_step-IsWritableStep) (ground arith)

parse_total_example :
    (parse plain_platform.compile_regex null ≢ diverge)
    × (parse plain_platform.compile_regex null ≢ panic)
parse_total_example = parse_total plain_platform.compile_regex null

abbrev ls_steps : Yaml
ls_steps = array (array_of (string (codes "ls") ∷ []))

abbrev one_object : Hash
one_object =
    entry (string (codes "steps")) ls_steps
      (entry (string (codes "cwd")) (string (codes "/tmp")) empty_hash)

parse-AllSound_example : Returns AllSound (parse plain_platform.compile_regex (hash one_object))
parse-AllSound_example = parse-AllSound plain_platform.compile_regex (hash one_object)

abbrev ls_step : Step
ls_step = new_step (exact_match (record { executable = codes "ls"; arguments = [] }))

ls-AreRead : AreRead plain_platform.compile_regex (string (codes "ls") ∷ []) (ls_step ∷ [])
unfolding is_hole parse_step step_from_string equal Command.new ArgumentParser.parse_arguments
    ArgumentParser.collect ArgumentParser.parse_word ArgumentParser.skip_spaces
    ArgumentParser.collect_chars_until ArgumentParser.collect_loop ArgumentParser.parse_char
    ArgumentParser.peek_chars
ls-AreRead = (refl, refl, tt)

test_from_array_hole_example :
    test_from_array plain_platform.compile_regex
      (array_of ((string (codes "ls") ∷ []) ++ string (codes "_") ∷ null ∷ []))
    ≡ err hole_not_last
test_from_array_hole_example =
    test_from_array_hole plain_platform.compile_regex (string (codes "ls") ∷ []) (null ∷ [])
      (ls_step ∷ []) ls-AreRead

expect_integer_bounds_example :
    Returns InI32 (expect_integer null)
    × (expect_integer (integer (pos 7))
        ≡ (if ltb 7 (2 ^ 31) then ok (pos 7) else err (integer_too_large (integer (pos 7)))))
expect_integer_bounds_example = expect_integer_bounds null 7

expect_integer_wraps_example :
    (m : ℤ) × (expect_integer (integer (negsuc 4294967295)) ≡ ok m) × (m ≢ negsuc 4294967295)
expect_integer_wraps_example = expect_integer_wraps 4294967295 (ground arith)
