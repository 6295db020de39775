-- ===== src/Recorder/Results.antt =====
-- recorder/result.rs and recorder/hole_recorder.rs: all tests of a file are run one after the other, and
-- the file is written again where holes were filled. The runs of the scripts are a list: one
-- for each `fork`.
use check_protocols.Prelude.{
  ℕ, true, false, not, ◌&&◌, ◌||◌, Option, none, some, List, [], ◌∷◌, ◌++◌, map, if◌then◌else◌, any,
}
use check_protocols.CheckerResult.{CheckerResults, all_pass, exitcode}
use check_protocols.CheckerResult.Report.{format_results}
use check_protocols.ExecutableMock.{Context, exists}
use check_protocols.Platform.{Platform}
use check_protocols.Prelude.Int.{ℤ}
use check_protocols.Prelude.Text.{Bytes, codes}
use check_protocols.Ptrace.{Ptrace}
use check_protocols.Recorder.{
  new_hole_recorder, RecorderResult, checked, recorded, is_recorded, get_test,
}
use check_protocols.Result.{io_failed, fork_failed, R, ok, err, ◌>>=◌}
use check_protocols.StdioRedirecting.{Capture}
use check_protocols.Syscall.{Syscall}
use check_protocols.TempFiles.{Fs, put_file, write_all}
use check_protocols.TestChecker.{new_checker}
use check_protocols.TestSpec.{Test, Tests}
use check_protocols.TestSpec.Serialize.{serialize_tests}
use check_protocols.Tracer.Mocks.{checker_mock, checker_end, hole_recorder_mock, hole_recorder_end}
use check_protocols.Tracer.Run.{Output, Run, run_against_mock}
use check_protocols.Utf8.{to_string_lossy}
use check_protocols.Yaml.{YamlCrate}
use check_protocols.YamlExt.{write_yaml}

-- `OpenOptions::new().write(true).truncate(true).open`
unfoldable pub open_truncated : Bytes → Fs → R Fs
unfolding exists put_file
open_truncated path fs =
    if not (exists fs path) || fs.unwritable path
    then err (io_failed path)
    else ok (put_file path [] fs)

-- the `filter_map` on the results
unfoldable pub checker_results_of : List RecorderResult → CheckerResults
checker_results_of [] = []
checker_results_of (checked test result ∷ results) = result ∷ checker_results_of results
checker_results_of (recorded test ∷ results) = checker_results_of results

unfoldable pub capture_of : Test → Capture
capture_of test = record {
  stdout = elim test.stdout [ some expected ↦ true | none ↦ false ];
  stderr = elim test.stderr [ some expected ↦ true | none ↦ false ];
}

module _ (E : Platform) (Y : YamlCrate) where
  -- What is written where holes were filled: the files and the streams behind it.
  unfoldable pub fill_holes :
      Bytes → List Bytes → List RecorderResult → Fs → Output → R (Fs × Output)
  fill_holes test_file unmocked_commands results fs output = do
    fs₁ ← open_truncated test_file fs
    yaml ← serialize_tests E Y (record {
      tests = map get_test results;
      unmocked_commands = unmocked_commands;
      interpreter = none;
    })
    text ← write_yaml Y.dump [] yaml
    fs₂ ← write_all test_file text fs₁
    ok (
      fs₂,
      record output {
        stdout =
            output.stdout
            ++ (codes "Test holes filled in " ++ (to_string_lossy test_file ++ codes ".\n"));
      },
    )

  unfoldable pub handle_recorded :
      Bytes → List Bytes → List RecorderResult → CheckerResults → Fs → Output → R (Fs × Output)
  unfolding fill_holes
  handle_recorded test_file unmocked_commands results checker_results fs output =
      if all_pass checker_results && any is_recorded results
      then fill_holes test_file unmocked_commands results fs output
      else ok (fs, output)

  unfoldable pub handle_results :
      Bytes → List Bytes → List RecorderResult → Fs → Output → R (ℤ × Fs × Output)
  unfolding checker_results_of
  handle_results test_file unmocked_commands results fs output = do
    let checker_results = checker_results_of results
    (fs', output') ← handle_recorded test_file unmocked_commands results checker_results fs output
    report ← format_results checker_results
    ok (exitcode checker_results, fs', record output' { stdout = output'.stdout ++ report })

module _ (E : Platform) (Y : YamlCrate) (P : Ptrace) (number : Syscall → ℕ) (fuel : ℕ) where
  unfoldable pub run_against_test :
      Context
      → Run P
      → Option Bytes
      → Bytes
      → List Bytes
      → Test
      → Fs
      → Output
      → R (RecorderResult × Fs × Output)
  run_against_test context script_run interpreter program unmocked_commands test fs output =
      let filled =
        run_against_mock P (hole_recorder_mock E P) number fuel script_run interpreter program
          test.arguments test.env (capture_of test)
          (new_hole_recorder context unmocked_commands test) (hole_recorder_end E P) fs output in
      let tested = (do
        (result, fs', output') ←
            run_against_mock P (checker_mock E P) number fuel script_run interpreter program
              test.arguments test.env (capture_of test) (new_checker context test unmocked_commands)
              (checker_end E P) fs output
        ok (checked test result, fs', output')) in
      if test.ends_with_hole then filled else tested

  unfoldable pub collect_results :
      Context
      → List (Run P)
      → Option Bytes
      → Bytes
      → List Test
      → List Bytes
      → Fs
      → Output
      → R (List RecorderResult × Fs × Output)
  collect_results context runs interpreter program [] unmocked_commands fs output =
      ok ([], fs, output)
  collect_results context [] interpreter program (test ∷ tests) unmocked_commands fs output =
      err fork_failed
  collect_results context (script_run ∷ runs) interpreter program (test ∷ tests) unmocked_commands
        fs output =
      do
        (result, fs', output') ←
            run_against_test context script_run interpreter program unmocked_commands test fs output
        (results, fs'', output'') ←
            collect_results context runs interpreter program tests unmocked_commands fs' output'
        ok (result ∷ results, fs'', output'')

  unfoldable pub run_against_tests :
      Context → List (Run P) → Bytes → Bytes → Tests → Fs → Output → R (ℤ × Fs × Output)
  run_against_tests context runs program test_file tests fs output = do
    (results, fs', output') ←
        collect_results context runs tests.interpreter program tests.tests tests.unmocked_commands
          fs output
    handle_results E Y test_file tests.unmocked_commands results fs' output'
