-- ===== src/Main.antt =====
-- lib.rs: the program: a mock is run, or a script is recorded or tested. The result of a main function
-- is the exit code, the files and the streams of the program.
pub mod Report
pub mod Filled
pub mod Verdict
use check_protocols.ExecutableMock
use check_protocols.Prelude.{ℕ, false, not, none, List, [], ◌∷◌, ◌++◌, if◌then◌else◌}
use check_protocols.ArgumentParser.{newline}
use check_protocols.CheckerResult.{exitcode}
use check_protocols.Cli.{Args, executable_mock_args, scriptkeeper_args}
use check_protocols.ExecutableMock.{Context, exists, run}
use check_protocols.Platform.{Platform}
use check_protocols.Prelude.Int.{ℤ, pos}
use check_protocols.Prelude.Text.{Bytes, codes}
use check_protocols.Ptrace.{Ptrace}
use check_protocols.Recorder.{empty}
use check_protocols.Recorder.Results.{run_against_tests}
use check_protocols.Result.{
  Error, executable_not_found, fork_failed, R, ok, err, panic, diverge, ◌>>=◌,
}
use check_protocols.StdioRedirecting.{Capture}
use check_protocols.Syscall.{Syscall}
use check_protocols.TempFiles.{Fs}
use check_protocols.TestSpec.{new_tests}
use check_protocols.TestSpec.Load.{load}
use check_protocols.TestSpec.Serialize.{serialize_tests}
use check_protocols.Tracer.Mocks.{recorder_end, recorder_mock}
use check_protocols.Tracer.Run.{Output, Run, run_against_mock}
use check_protocols.Yaml.{YamlCrate}
use check_protocols.YamlExt.{write_yaml}

-- `eprintln!` and the exit code with which `exit` is called
unfoldable pub wrap_main : (Error → Bytes) → R (ℤ × Output) → Output → R (ℤ × Output)
wrap_main description (ok (exitcode, output')) output = ok (exitcode, output')
wrap_main description (err e) output = ok (
  pos 1,
  record output { stderr = output.stderr ++ (codes "error: " ++ (description e ++ newline ∷ [])) },
)
wrap_main description panic output = panic
wrap_main description diverge output = diverge

module _ (E : Platform) (Y : YamlCrate) (P : Ptrace) (number : Syscall → ℕ) (fuel : ℕ) where
  unfoldable pub run_scriptkeeper :
      Context → List (Run P) → Bytes → Fs → Output → R (ℤ × Fs × Output)
  run_scriptkeeper context runs script fs output =
      let found = (do
        (test_file_path, tests) ← load E Y fs script
        run_against_tests E Y P number fuel context runs script test_file_path tests fs output) in
      if not (exists fs script) then err (executable_not_found script) else found

  no_capture : Capture
  no_capture = record { stdout = false; stderr = false }

  record_script : Run P → Bytes → Fs → Output → R (ℤ × Fs × Output)
  unfolding no_capture
  record_script script_run program fs output = do
    (test, fs', output') ←
        run_against_mock P (recorder_mock E P) number fuel script_run none program [] [] no_capture
          empty (recorder_end) fs output
    yaml ← serialize_tests E Y (new_tests (test ∷ []))
    text ← write_yaml Y.dump output'.stdout yaml
    ok (pos 0, fs', record output' { stdout = text })

  unfoldable pub print_recorded_test : List (Run P) → Bytes → Fs → Output → R (ℤ × Fs × Output)
  unfolding record_script
  print_recorded_test [] program fs output = err fork_failed
  print_recorded_test (script_run ∷ runs) program fs output =
      record_script script_run program fs output

  run_mock : Bytes → Fs → Output → R (ℤ × Fs × Output)
  run_mock path fs output = do
    (stdout, exitcode) ← ExecutableMock.run E fs output.stdout path
    ok (exitcode, fs, record output { stdout = stdout })

  unfoldable pub run_main : Context → List (Run P) → Args → Fs → Output → R (ℤ × Fs × Output)
  unfolding run_mock
  run_main context runs (executable_mock_args path) fs output = run_mock path fs output
  run_main context runs (scriptkeeper_args script_path record_flag) fs output =
      let recorded_run = print_recorded_test runs script_path fs output in
      if record_flag then recorded_run else run_scriptkeeper context runs script_path fs output
