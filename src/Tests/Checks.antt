-- ===== src/Tests/Checks.antt =====
-- The checker, the recorder, the tracer and the mocks at concrete inputs.
use check_protocols.TempFiles
use check_protocols.Prelude.{
  ℕ, ◌≡◌, refl, inl, inr, true, none, some, List, [], ◌∷◌, ◌++◌, arith, ◌==◌, ==_refl, Bool-cases,
}
use check_protocols.CheckerResult.{pass, failure}
use check_protocols.CheckerResult.Report.{format_results, format_results_total}
use check_protocols.Command.{same_texts, compare}
use check_protocols.CommandMatcher.{exact_match, matches}
use check_protocols.ExecutableMock.{
  exists, mock_contents, create_mock_executable, run, run-create_mock_executable,
}
use check_protocols.ExecutablePath.{canonicalize, compare_executables}
use check_protocols.FilePath.{file_name, path_eq}
use check_protocols.Platform.{Config}
use check_protocols.Prelude.Int.{pos}
use check_protocols.Prelude.Text.{Bytes, codes, equal}
use check_protocols.Recorder.{Recorder, empty, recorded_step, record_end, checking, recording}
use check_protocols.Recorder.Replay.{
  ProcessEvent, entered_command, exited_with, record_events, entered_commands, runs_of, commands_of,
  recorded_steps, conforms-record_events, hole_events, hole_events-filled,
}
use check_protocols.Result.{ok, Returns}
use check_protocols.StdioRedirecting.{stdout_stream, stderr_stream, Redirector}
use check_protocols.Syscall.{Syscall, sys_read, sys_stat}
use check_protocols.Syscall.Code.{discriminant, same}
use check_protocols.Syscall.Named.{from, same_sound, from-number}
use check_protocols.TempFiles.{
  Fs, contents_at, remove_file, drop_files, mk_digit_iter, new_names, next, join,
  try_create_new_file, create_new_file, overwrite, written_over, new_internal,
}
use check_protocols.TestChecker.{TestChecker, new_checker, is_unmocked_command}
use check_protocols.TestChecker.Complete.{Roomy, check_complete}
use check_protocols.TestChecker.Conforms.{consume}
use check_protocols.TestChecker.Handlers.{handle_execve_enter}
use check_protocols.TestChecker.Sound.{output_conforms, all_consumed, conforms, check, check_sound}
use check_protocols.TestChecker.Substitute.{Redirected, handle_execve_enter-Redirected}
use check_protocols.TestSpec.{Test, new_test}
use check_protocols.Tests.Instances.{
  plain_platform, word_memory, zeros, true_command, false_command, small_files, small_context,
  small_registers,
}
use check_protocols.Tracer.{SyscallStop, enter, exit, new_tracer, entered}
use check_protocols.Tracer.Accepts.{PairUp, stops_accepted}
use check_protocols.Tracer.Alternation.{stops, of_process, in_front, turns, Turns, stops-Turns}

abbrev small_test : Test
small_test = record (new_test (recorded_step true_command (pos 0) ∷ [])) {
  stdout = some (codes "ok");
}

abbrev small_redirector : Redirector
small_redirector = record {
  stdout = record { stream_type = stdout_stream; captured = some (codes "ok") };
  stderr = record { stream_type = stderr_stream; captured = none };
}

small_conforms :
    conforms plain_platform small_test (true_command ∷ []) (pos 0) small_redirector ≡ true
unfolding conforms consume matches compare compare_executables canonicalize file_name path_eq
    same_texts equal new_test recorded_step output_conforms all_consumed
small_conforms = refl

small-Roomy : Roomy 1 small_files
unfolding written_over overwrite Roomy TempFiles.new new_internal create_new_file new_names next
    mk_digit_iter try_create_new_file join contents_at equal
small-Roomy contents = (
  record { path = codes "/tmp/aa" },
  record small_files {
    files = (codes "/tmp/aa", contents) ∷ (codes "/bin/scriptkeeper", codes "x") ∷ [];
  },
  refl,
  tt,
)

check_complete_example :
    check plain_platform
      (new_checker small_context small_test [])
      small_files
      (true_command ∷ [])
      (pos 0)
      small_redirector
    ≡ ok pass
unfolding new_checker
check_complete_example =
    check_complete plain_platform (new_checker small_context small_test []) small_files
      (true_command ∷ []) (pos 0) small_redirector refl small_conforms
      (unfold exists contents_at equal in refl) small-Roomy

true-matches : matches (λ p. none) (exact_match true_command) true_command ≡ true
unfolding matches compare compare_executables canonicalize file_name path_eq same_texts equal
true-matches = refl

handle_execve_enter-Redirected_example :
    (tc' : TestChecker) × (fs' : Fs) × (m' : ℕ → ℕ) × (handle_execve_enter plain_platform
        word_memory
        (new_checker small_context small_test [])
        small_files
        zeros
        small_registers
        (codes "true")
        []
      ≡ ok (tc', fs', m'))
    × Redirected plain_platform word_memory (recorded_step true_command (pos 0)) zeros 64 fs' m'
unfolding new_checker new_test
handle_execve_enter-Redirected_example =
    handle_execve_enter-Redirected plain_platform word_memory
      (new_checker small_context small_test []) small_files zeros small_registers true_command
      (recorded_step true_command (pos 0)) [] refl (unfold recorded_step in true-matches)
      (unfold is_unmocked_command in refl) (unfold exists contents_at equal in refl) refl
      small-Roomy (omega arith) (refl, tt)

check_sound_example :
    conforms plain_platform small_test (true_command ∷ []) (pos 0) small_redirector ≡ true
unfolding new_checker
check_sound_example =
    check_sound plain_platform (new_checker small_context small_test []) small_files
      (true_command ∷ []) (pos 0) small_redirector check_complete_example

-- Two commands, and a process that exits behind the first of them without a command of its own.
abbrev two_commands : List ProcessEvent
two_commands =
    entered_command true_command
    ∷ exited_with (pos 0)
    ∷ exited_with (pos 7)
    ∷ entered_command false_command
    ∷ exited_with (pos 1)
    ∷ []

conforms-record_events_example :
    conforms plain_platform
      (record_end (record_events plain_platform empty two_commands) (pos 2))
      (entered_commands two_commands)
      (pos 2)
      small_redirector
    ≡ true
conforms-record_events_example =
    conforms-record_events plain_platform two_commands (pos 2) small_redirector tt

abbrev finished_checker : TestChecker
finished_checker = new_checker small_context (new_test []) []

abbrev mocked_files : Fs
mocked_files = record small_files { files = (codes "/tmp/aa", codes "x") ∷ small_files.files }

abbrev mocked_checker : TestChecker
mocked_checker = record finished_checker {
  temporary_executables = record { path = codes "/tmp/aa" } ∷ [];
}

abbrev hole_commands : List ProcessEvent
hole_commands =
    exited_with (pos 3)
    ∷ exited_with (pos 7)
    ∷ entered_command false_command
    ∷ exited_with (pos 1)
    ∷ []

hole_events-filled_example :
    (recorder : Recorder) × (hole_events plain_platform word_memory
        (checking mocked_checker small_test)
        mocked_files
        zeros
        small_registers
        (entered_command true_command ∷ hole_commands)
      ≡ ok (recording recorder, small_files, zeros))
    × (recorder.test ≡ record small_test {
      steps = small_test.steps ++ recorded_steps (runs_of (some true_command) hole_commands);
    })
    × (commands_of (runs_of (some true_command) hole_commands)
        ≡ true_command ∷ entered_commands hole_commands)
hole_events-filled_example =
    hole_events-filled plain_platform word_memory mocked_checker small_test mocked_files small_files
      zeros small_registers true_command hole_commands (unfold new_checker new_test in refl)
      (unfold new_checker in refl) (unfold new_checker in refl)
      (unfold drop_files remove_file contents_at equal new_checker in refl) tt

abbrev small_stops : List (ℕ × Syscall)
small_stops = (1, sys_read) ∷ (2, sys_stat) ∷ (1, sys_read) ∷ (2, sys_stat) ∷ []

stops-Turns_example :
    Returns (Turns 2 (new_tracer 1) small_stops) (stops (new_tracer 1) small_stops)
stops-Turns_example = stops-Turns 2 small_stops (new_tracer 1)

abbrev one_process : List (ℕ × Syscall)
one_process = (2, sys_read) ∷ (2, sys_read) ∷ []

one_process-PairUp : PairUp (new_tracer 1) one_process
unfolding PairUp of_process turns in_front new_tracer entered same discriminant
one_process-PairUp p = elim (Bool-cases (2 == p)) [
  | inl q ↦ (enter ∷ exit ∷ [], rw (q, of_process) refl)
  | inr q ↦ ([], rw (q, of_process) refl)
]

stops_accepted_example :
    (found : List (ℕ × SyscallStop)) × (stops (new_tracer 1) one_process ≡ ok found)
stops_accepted_example = stops_accepted one_process (new_tracer 1) one_process-PairUp

format_results_total_example :
    (text : Bytes) × (format_results (pass ∷ failure (codes "x") ∷ []) ≡ ok text)
format_results_total_example = format_results_total (pass ∷ failure (codes "x") ∷ [])

from-number_example : from discriminant (discriminant sys_stat) ≡ sys_stat
from-number_example =
    from-number discriminant sys_stat
      (λ s t hs ht e. same_sound s t (unfold same in rw e (==_refl _)))
      (unfold discriminant in omega arith)

abbrev mock_config : Config
mock_config = record { stdout = codes "out"; exitcode = pos 3 }

abbrev mock_files : Fs
mock_files = record small_files {
  files = (codes "/tmp/aa", mock_contents plain_platform small_context mock_config) ∷ [];
}

run-create_mock_executable_example :
    run plain_platform mock_files (codes "before") (codes "/tmp/aa") ≡ ok (codes "beforeout", pos 3)
run-create_mock_executable_example =
    run-create_mock_executable plain_platform small_context mock_config small_files mock_files
      (codes "/tmp/aa") (mock_contents plain_platform small_context mock_config) (codes "before")
      refl (unfold create_mock_executable exists contents_at equal in refl)
      (unfold contents_at equal in refl)
