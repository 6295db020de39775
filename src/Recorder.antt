-- ===== src/Recorder.antt =====
-- recorder/mod.rs, recorder/hole_recorder.rs and recorder/result.rs: `Recorder`, which writes down the
-- commands of a script as the steps of a test, and `HoleRecorder`, which first checks the steps that
-- a test has and records from there on.
pub mod Replay
pub mod ReadBack
pub mod Results
use check_protocols.Prelude.{
  Bool, true, false, Option, none, some, List, [], ◌∷◌, ◌++◌, if◌then◌else◌, is_empty,
}
use check_protocols.CheckerResult.{CheckerResult, pass, failure, exitcode}
use check_protocols.Command.{Command}
use check_protocols.CommandMatcher.{exact_match}
use check_protocols.ExecutableMock.{Context}
use check_protocols.Platform.{Platform}
use check_protocols.Prelude.Int.{ℤ, pos, int_eq}
use check_protocols.Prelude.Text.{Bytes}
use check_protocols.Ptrace.{Ptrace}
use check_protocols.Result.{R, ok, ◌>>=◌}
use check_protocols.TempFiles.{Fs, drop_files}
use check_protocols.TestChecker.{TestChecker, new_checker, Registers, is_unmocked_command}
use check_protocols.TestChecker.Handlers.{handle_execve_enter}
use check_protocols.TestSpec.{Step, Test, new_test}

pub record Recorder : Type 0 where
  pub test : Test
  pub command : Option Command
  pub unmocked_commands : List Bytes

unfoldable pub empty : Recorder
empty = record { test = new_test []; command = none; unmocked_commands = [] }

unfoldable pub new_recorder : Test → List Bytes → Recorder
new_recorder test unmocked_commands = record {
  test = test;
  command = none;
  unmocked_commands = unmocked_commands;
}

unfoldable pub recorded_step : Command → ℤ → Step
recorded_step command exitcode = record {
  command_matcher = exact_match command;
  stdout = [];
  exitcode = exitcode;
}

-- `steps.push_back`
push_step : Step → Test → Test
push_step step test = record test { steps = test.steps ++ step ∷ [] }

-- on the `command` that was seen last
record_command : Recorder → Option Command → ℤ → Recorder
unfolding push_step recorded_step
record_command recorder none exitcode = recorder
record_command recorder (some command) exitcode = record recorder {
  command = none;
  test = push_step (recorded_step command exitcode) recorder.test;
}

unfoldable pub record_exited : Recorder → ℤ → Recorder
unfolding record_command
record_exited recorder exitcode = record_command recorder recorder.command exitcode

unfoldable pub record_end : Recorder → ℤ → Test
record_end recorder exitcode =
    if int_eq exitcode (pos 0)
    then recorder.test
    else record (recorder.test) { exitcode = some exitcode }

module _ (E : Platform) where
  unfoldable pub record_execve : Recorder → Command → Recorder
  record_execve recorder received =
      if is_unmocked_command E recorder.unmocked_commands received.executable
      then recorder
      else record recorder { command = some received }

pub data HoleRecorder : Type 0 where
  checking : TestChecker → Test → HoleRecorder
  recording : Recorder → HoleRecorder

unfoldable pub new_hole_recorder : Context → List Bytes → Test → HoleRecorder
new_hole_recorder context unmocked_commands test =
    checking (new_checker context test unmocked_commands) test

pub data RecorderResult : Type 0 where
  checked : Test → CheckerResult → RecorderResult
  recorded : Test → RecorderResult

unfoldable pub is_recorded : RecorderResult → Bool
is_recorded (recorded test) = true
is_recorded (checked test result) = false

unfoldable pub get_test : RecorderResult → Test
get_test (checked test result) = test
get_test (recorded test) = test

unfoldable pub get_test_result : RecorderResult → Option CheckerResult
get_test_result (checked test result) = some result
get_test_result (recorded test) = none

module _ (E : Platform) (P : Ptrace) where
  open P use {Memory}

  -- what is done with a command in each of the two phases: the checker is dropped, and its temporary
  -- files with it, where the recording starts
  hole_execve_checking :
      TestChecker → Test → Fs → Memory → Registers → Command → R (HoleRecorder × Fs × Memory)
  hole_execve_checking checker original fs m registers received = do
    (checker', fs', m') ←
        handle_execve_enter E P checker fs m registers received.executable received.arguments
    ok (checking checker' original, fs', m')

  hole_execve_done :
      CheckerResult
      → TestChecker
      → Test
      → Fs
      → Memory
      → Registers
      → Command
      → R (HoleRecorder × Fs × Memory)
  unfolding hole_execve_checking
  hole_execve_done (failure error) checker original fs m registers received =
      hole_execve_checking checker original fs m registers received
  hole_execve_done pass checker original fs m registers received =
      let recorder = new_recorder original checker.unmocked_commands in
      let switched = do
        fs' ← drop_files checker.temporary_executables fs
        ok (recording (record_execve E recorder received), fs', m)
      in switched

  unfoldable pub hole_execve_enter :
      HoleRecorder → Fs → Memory → Registers → Command → R (HoleRecorder × Fs × Memory)
  unfolding hole_execve_done
  hole_execve_enter (checking checker original) fs m registers received =
      let busy = hole_execve_checking checker original fs m registers received in
      let done = hole_execve_done checker.result checker original fs m registers received in
      if is_empty checker.test.steps then done else busy
  hole_execve_enter (recording recorder) fs m registers received =
      ok (recording (record_execve E recorder received), fs, m)

unfoldable pub hole_exited : HoleRecorder → ℤ → HoleRecorder
hole_exited (checking checker original) exitcode = checking checker original
hole_exited (recording recorder) exitcode = recording (record_exited recorder exitcode)

hole_end_checking : CheckerResult → TestChecker → Test → ℤ → RecorderResult
hole_end_checking pass checker original exitcode = recorded (
    record_end (new_recorder (record original { ends_with_hole = false }) checker.unmocked_commands)
      exitcode)
hole_end_checking (failure error) checker original exitcode = checked original (failure error)

unfoldable pub hole_end : HoleRecorder → ℤ → RecorderResult
unfolding hole_end_checking
hole_end (checking checker original) exitcode =
    hole_end_checking checker.result checker original exitcode
hole_end (recording recorder) exitcode = recorded (record_end recorder exitcode)
