-- ===== src/TestChecker.antt =====
-- test_checker/mod.rs: `TestChecker`, which runs a script against the steps of a test: each command
-- is replaced by a mock, and the first deviation from the test is kept as the result.
pub mod Handlers
pub mod Conforms
pub mod Sound
pub mod Complete
pub mod Substitute
use check_protocols.Command
use check_protocols.CommandMatcher
use check_protocols.TempFiles
use check_protocols.Prelude.{
  ℕ, Bool, false, Option, none, some, List, [], ◌∷◌, ◌++◌, ◌==◌, if◌then◌else◌, any,
}
use check_protocols.CheckerResult.{
  CheckerResult, pass, register_error, register_step_error, exitcode,
}
use check_protocols.Command.{Command, new, format}
use check_protocols.CommandMatcher.{CommandMatcher, matches}
use check_protocols.ExecutableMock.{Context, create_mock_executable}
use check_protocols.ExecutablePath.{compare_executables}
use check_protocols.Platform.{Config, Platform}
use check_protocols.Prelude.Int.{ℤ, pos, int_eq, show}
use check_protocols.Prelude.Text.{Bytes, codes, equal}
use check_protocols.Result.{R, ok, panic, ◌>>=◌}
use check_protocols.StdioRedirecting.{StreamType, stream_name, Redirect, Redirector}
use check_protocols.TempFiles.{Fs, ShortTempFile}
use check_protocols.TestSpec.{Step, Test, get_or_zero}
use check_protocols.Utf8.{to_string_lossy}

pub record TestChecker : Type 0 where
  pub context : Context
  pub test : Test
  pub unmocked_commands : List Bytes
  pub result : CheckerResult
  pub temporary_executables : List ShortTempFile

unfoldable pub new_checker : Context → Test → List Bytes → TestChecker
new_checker context test unmocked_commands = record {
  context = context;
  test = test;
  unmocked_commands = unmocked_commands;
  result = pass;
  temporary_executables = [];
}

-- the registers of a stopped tracee that the program reads or writes
pub record Registers : Type 0 where
  pub rdi : ℕ
  pub rsi : ℕ
  pub rax : ℕ
  pub orig_rax : ℕ

allow_failing_scripts_to_continue : Config
allow_failing_scripts_to_continue = record { stdout = []; exitcode = pos 0 }

pub ends_with : ℕ → Bytes → Bool
ends_with c [] = false
ends_with c (d ∷ []) = c == d
ends_with c (d ∷ e ∷ s) = ends_with c (e ∷ s)

module _ (E : Platform) where
  open E use {which, trim_margin, debug, st_mode_offset, s_ifdir, s_ifreg}

  pub with_step_error : Bytes → Bytes → TestChecker → R TestChecker
  with_step_error expected received tc = do
    result ← register_step_error trim_margin expected received tc.result
    ok (record tc { result = result })

  -- the `match` on the next step: the mock for the command, and the checker behind it
  pub next_mock : List Step → Command → TestChecker → R (Config × TestChecker)
  unfolding with_step_error allow_failing_scripts_to_continue
  next_mock [] received tc = do
    tc' ← with_step_error (codes "<script termination>") (Command.format which received) tc
    ok (allow_failing_scripts_to_continue, tc')
  next_mock (step ∷ steps) received tc =
      let popped = record tc { test = record (tc.test) { steps = steps } } in
      let config : Config = record { stdout = step.stdout; exitcode = step.exitcode } in
      if matches which step.command_matcher received then ok (config, popped) else (do
        tc' ←
            with_step_error (CommandMatcher.format which step.command_matcher)
              (Command.format which received) popped
        ok (config, tc'))

  unfoldable pub handle_step : TestChecker → Fs → Command → R (Bytes × TestChecker × Fs)
  unfolding next_mock
  handle_step tc fs received = do
    (mock_config, tc') ← next_mock tc.test.steps received tc
    mock_executable_contents ← create_mock_executable E tc'.context fs mock_config
    (temp_executable, fs') ← TempFiles.new mock_executable_contents fs
    ok (
      temp_executable.path,
      record tc' { temporary_executables = tc'.temporary_executables ++ temp_executable ∷ [] },
      fs',
    )

  output_error : StreamType → Bytes → Bytes → Bytes
  output_error t expected received =
      codes "\n                                |  expected output to "
      ++ (stream_name t
          ++ (codes ": "
              ++ (debug (to_string_lossy expected)
                  ++ (codes "\n                                |  received output to "
                      ++ (stream_name t
                          ++ (codes ": "
                              ++ (debug (to_string_lossy received)
                                  ++ codes
                                      "\n                                |\n                            ")))))))

  pub compare_output : StreamType → Bytes → Option Bytes → TestChecker → R TestChecker
  unfolding output_error
  compare_output t expected none tc = panic
  compare_output t expected (some captured) tc =
      if equal captured expected
      then ok tc
      else elim (trim_margin (output_error t expected captured)) [
        | none ↦ panic
        | some message ↦ ok (record tc { result = register_error message tc.result })
      ]

  unfoldable pub check_expected_output_stream : Redirect → Bytes → TestChecker → R TestChecker
  unfolding compare_output
  check_expected_output_stream redirect expected tc =
      compare_output redirect.stream_type expected redirect.captured tc

  -- `if let Some(expected) = …`
  pub check_output : Redirect → Option Bytes → TestChecker → R TestChecker
  check_output redirect none tc = ok tc
  check_output redirect (some expected) tc = check_expected_output_stream redirect expected tc

  unfoldable pub is_unmocked_command : List Bytes → Bytes → Bool
  is_unmocked_command unmocked_commands executable =
      any (λ unmocked. compare_executables which unmocked executable) unmocked_commands

  pub check_steps : List Step → TestChecker → R TestChecker
  unfolding with_step_error
  check_steps [] tc = ok tc
  check_steps (step ∷ steps) tc =
      with_step_error (CommandMatcher.format which step.command_matcher)
        (codes "<script terminated>") (record tc { test = record (tc.test) { steps = steps } })

  exitcode_text : ℤ → Bytes
  exitcode_text code = codes "<exitcode " ++ (show code ++ codes ">")

  pub check_exitcode : ℤ → TestChecker → R TestChecker
  unfolding with_step_error exitcode_text
  check_exitcode exitcode tc =
      let expected = get_or_zero tc.test.exitcode in
      if int_eq exitcode expected
      then ok tc
      else with_step_error (exitcode_text expected) (exitcode_text exitcode) tc

  unfoldable pub handle_end : TestChecker → ℤ → Redirector → R CheckerResult
  unfolding check_steps check_exitcode check_output
  handle_end tc exitcode redirector = do
    tc₁ ← check_steps tc.test.steps tc
    tc₂ ← check_exitcode exitcode tc₁
    tc₃ ← check_output redirector.stdout tc₂.test.stdout tc₂
    tc₄ ← check_output redirector.stderr tc₃.test.stderr tc₃
    ok tc₄.result
