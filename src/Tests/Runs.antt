-- ===== src/Tests/Runs.antt =====
-- The theorem on whole runs at a concrete input.
use check_protocols.Command
use check_protocols.TempFiles
use check_protocols.Prelude.{
  ℕ, ◌≡◌, refl, true, false, none, some, List, [], ◌∷◌, ◌++◌, if◌then◌else◌,
}
use check_protocols.CheckerResult.{pass, is_pass, all_pass, exitcode}
use check_protocols.CheckerResult.Report.{format_results}
use check_protocols.Command.{Command, new, format}
use check_protocols.CommandMatcher.{regex_match, is_match, matches}
use check_protocols.ExecutableMock.{exists, mock_contents, create_mock_executable}
use check_protocols.ExecutablePath.{canonicalize}
use check_protocols.FilePath.{file_name}
use check_protocols.Main.Verdict.{AllChecked, run_against_tests-AllChecked}
use check_protocols.Memory.{
  cast_to_four_byte_array, cast_to_eight_byte_array, cast_to_eight_byte_word, data_to_string,
  string_to_data, peekdata, pokedata, peekdata_iter, peek_string, peek_string_array, poke_string,
  poke_single_word_string,
}
use check_protocols.Prelude.Int.{ℤ, pos}
use check_protocols.Prelude.Text.{codes, equal}
use check_protocols.Recorder.{is_recorded}
use check_protocols.Recorder.Results.{
  checker_results_of, capture_of, handle_recorded, handle_results, run_against_test,
  collect_results, run_against_tests,
}
use check_protocols.Result.{ok}
use check_protocols.StdioRedirecting.{Capture, new_redirector, relay}
use check_protocols.Syscall.{Syscall, sys_execve}
use check_protocols.Syscall.Code.{discriminant, same}
use check_protocols.Syscall.Named.{from}
use check_protocols.Syscall.Place.{table}
use check_protocols.Syscall.Table.{first_arms, middle_arms, last_arms}
use check_protocols.TempFiles.{
  contents_at, put_file, remove_file, drop_files, mk_digit_iter, new_names, next, join,
  try_create_new_file, create_new_file, overwrite, written_over, write_all, new_internal,
}
use check_protocols.TestChecker.{
  TestChecker, new_checker, handle_step, check_expected_output_stream, is_unmocked_command,
  handle_end,
}
use check_protocols.TestChecker.Handlers.{handle_execve_enter}
use check_protocols.TestChecker.Sound.{conforms}
use check_protocols.TestSpec.{new_step, Test, new_test, Tests, new_tests}
use check_protocols.Tests.Instances.{
  plain_platform, word_memory, zeros, small_files, small_context, small_registers,
}
use check_protocols.Tests.Program.{quiet}
use check_protocols.Tests.Specs.{plain_yaml}
use check_protocols.Tracer.{
  new_tracer, entered, update_syscall_state, exited, ptrace_syscall, World, default_mock,
  get_registers, resume, handle_syscall, handle_wait_status, trace,
}
use check_protocols.Tracer.Followed.{mocked_commands, ByOthers}
use check_protocols.Tracer.Logged.{logged}
use check_protocols.Tracer.Mocks.{checker_execve_enter, checker_mock, checker_end}
use check_protocols.Tracer.Run.{
  c_string, c_strings, execve_params, child_error, fork_with_child_errors, Output, Run, start_world,
  relay_streams, run_against_mock,
}
use check_protocols.Tracer.Sound.{run_against_mock-conforms}
use check_protocols.Utf8.{to_string_lossy}

-- the number of execve is 0
abbrev only_execve : Syscall → ℕ
only_execve s = if same s sys_execve then 0 else 1

-- process 2 executes a command, and then the script exits
abbrev one_command : Run word_memory
one_command = record {
  tracee_pid = 1;
  events = (λ w. w, ptrace_syscall 2) ∷ (λ w. w, exited 1 (pos 0)) ∷ [];
  memory = λ pid. zeros;
  registers = λ pid. small_registers;
  stdout_chunks = codes "hi" ∷ [] ∷ [];
  stderr_chunks = [] ∷ [];
  failed = none;
  failing = λ request pid. false;
}

abbrev any_command : Test
any_command =
    record (new_test
      (new_step (regex_match (record { original_string = codes ".*"; regex = λ s. true })) ∷ [])) {
        stdout = some (codes "hi");
      }

abbrev capture_stdout : Capture
capture_stdout = record { stdout = true; stderr = false }

one_command_passes :
    run_against_mock word_memory
      (checker_mock plain_platform word_memory)
      only_execve
      3
      one_command
      none
      (codes "/script")
      []
      []
      capture_stdout
      (new_checker small_context any_command [])
      (checker_end plain_platform word_memory)
      small_files
      quiet
    ≡ ok (pass, small_files, record quiet { stdout = quiet.stdout ++ codes "hi" })
unfolding written_over overwrite run_against_mock trace get_registers resume handle_wait_status
    update_syscall_state new_tracer handle_syscall same discriminant from peek_string data_to_string
    peekdata_iter peekdata cast_to_eight_byte_array peek_string_array checker_mock
    handle_execve_enter is_unmocked_command create_mock_executable exists mock_contents
    cast_to_eight_byte_word cast_to_four_byte_array poke_single_word_string poke_string pokedata
    string_to_data equal new_redirector relay contents_at create_new_file join mk_digit_iter
    TempFiles.new new_internal new_names TempFiles.next put_file try_create_new_file write_all
    handle_step checker_execve_enter c_string c_strings child_error execve_params
    fork_with_child_errors relay_streams default_mock entered table first_arms middle_arms last_arms
    new_checker checker_end handle_end drop_files remove_file matches is_match new_step new_test
    check_expected_output_stream is_pass Command.format to_string_lossy canonicalize file_name
one_command_passes = refl

run_against_mock-conforms_example :
    (code : ℤ) × (tc : TestChecker) × (log : List (ℕ × Command)) × (world' : World word_memory)
    × (trace word_memory
          (logged word_memory (checker_mock plain_platform word_memory))
          only_execve
          3
          (new_tracer 1)
          (new_checker small_context any_command [], [])
          (start_world word_memory one_command small_files)
          one_command.events
        ≡ ok (code, (tc, log), world'))
    × (conforms plain_platform any_command
          (mocked_commands plain_platform [] log)
          code
          (relay_streams word_memory one_command capture_stdout quiet).0
        ≡ true)
    × ByOthers one_command.tracee_pid log
run_against_mock-conforms_example =
    run_against_mock-conforms plain_platform word_memory only_execve 3 small_context one_command
      none (codes "/script") [] [] capture_stdout any_command [] small_files small_files quiet
      (record quiet { stdout = quiet.stdout ++ codes "hi" }) one_command_passes

abbrev one_test_file : Tests
one_test_file = new_tests (any_command ∷ [])

abbrev quiet_after : Output
quiet_after = record quiet { stdout = quiet.stdout ++ (codes "hi" ++ codes "All tests passed.\n") }

one_test_file_passes :
    run_against_tests plain_platform plain_yaml word_memory only_execve 3 small_context
      (one_command ∷ [])
      (codes "/script")
      (codes "/script.test.yaml")
      one_test_file
      small_files
      quiet
    ≡ ok (pos 0, small_files, quiet_after)
unfolding written_over overwrite run_against_tests collect_results run_against_test capture_of
    handle_results handle_recorded checker_results_of all_pass is_recorded exitcode format_results
    new_tests run_against_mock trace get_registers resume handle_wait_status update_syscall_state
    new_tracer handle_syscall same discriminant from peek_string data_to_string peekdata_iter
    peekdata cast_to_eight_byte_array peek_string_array checker_mock handle_execve_enter
    is_unmocked_command create_mock_executable exists mock_contents cast_to_eight_byte_word
    cast_to_four_byte_array poke_single_word_string poke_string pokedata string_to_data equal
    new_redirector relay contents_at create_new_file join mk_digit_iter TempFiles.new new_internal
    new_names TempFiles.next put_file try_create_new_file write_all handle_step checker_execve_enter
    c_string c_strings child_error execve_params fork_with_child_errors relay_streams default_mock
    entered table first_arms middle_arms last_arms new_checker checker_end handle_end drop_files
    remove_file matches is_match new_step new_test check_expected_output_stream is_pass
    Command.format to_string_lossy canonicalize file_name
one_test_file_passes = refl

run_against_tests-AllChecked_example :
    AllChecked plain_platform plain_yaml word_memory only_execve 3 small_context
      one_test_file.unmocked_commands
      (one_command ∷ [])
      one_test_file.tests
run_against_tests-AllChecked_example =
    run_against_tests-AllChecked plain_platform plain_yaml word_memory only_execve 3 small_context
      (one_command ∷ []) (codes "/script") (codes "/script.test.yaml") one_test_file small_files
      small_files quiet quiet_after one_test_file_passes
