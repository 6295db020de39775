-- ===== src/Tests/Program.antt =====
-- The theorems on the program at concrete inputs.
use check_protocols.Prelude.{ℕ, ◌+◌, ◌≡◌, refl, none, some, List, [], ◌∷◌, ◌++◌, map}
use check_protocols.CheckerResult.{pass, failure}
use check_protocols.CheckerResult.Report.{format_results}
use check_protocols.Cli.{parse_args_safe}
use check_protocols.ExecutableMock.{exists, mock_contents, create_mock_executable}
use check_protocols.Main.{run_main}
use check_protocols.Main.Filled.{load-handle_results}
use check_protocols.Main.Report.{handle_results-failure, run_main-create_mock_executable}
use check_protocols.Platform.{Config}
use check_protocols.Prelude.Int.{pos}
use check_protocols.Prelude.Text.{Bytes, codes, equal}
use check_protocols.Recorder.{RecorderResult, checked, recorded, is_recorded, get_test}
use check_protocols.Recorder.Results.{checker_results_of, handle_results}
use check_protocols.Result.{R, ok, ◌>>=◌}
use check_protocols.Syscall.{sys_write}
use check_protocols.TempFiles.{Fs, contents_at}
use check_protocols.TestSpec.{Tests}
use check_protocols.TestSpec.Load.{find_test_file, load}
use check_protocols.TestSpec.Serialize.{
  serialize_step, serialize_entries, serialize_env, serialize_arguments, serialize_exitcode,
  serialize_test, serialize_tests,
}
use check_protocols.TestSpec.WholeFile.{forget_tests, file_object, serialize_tests-file_object}
use check_protocols.Tests.Instances.{
  plain_platform, word_memory, zeros, small_files, small_context, yaml_crate,
}
use check_protocols.Tests.Specs.{plain_yaml, one_test, one_test-IsWritable}
use check_protocols.Tracer.{enter}
use check_protocols.Tracer.Debug.{LoggedRegisters, Texts, enabled, log_syscall}
use check_protocols.Tracer.Debugged.{Agrees, log_syscall-Agrees}
use check_protocols.Tracer.Run.{Output}
use check_protocols.Utf8.{is_utf8}
use check_protocols.Yaml.{Yaml, hash}
use check_protocols.YamlExt.{adjust_yaml_output}

abbrev pub quiet : Output
quiet = record { stdout = codes "before"; stderr = [] }

abbrev filled_results : List RecorderResult
filled_results = recorded one_test ∷ checked one_test pass ∷ []

handle_results-failure_example :
    (report : Bytes) × (format_results (
        checker_results_of
          ((recorded one_test ∷ []) ++ checked one_test (failure (codes "wrong")) ∷ []))
      ≡ ok report)
    × (handle_results plain_platform plain_yaml
          (codes "a.test.yaml")
          []
          ((recorded one_test ∷ []) ++ checked one_test (failure (codes "wrong")) ∷ [])
          small_files
          quiet
        ≡ ok (pos 1, small_files, record quiet { stdout = quiet.stdout ++ report }))
handle_results-failure_example =
    handle_results-failure plain_platform plain_yaml (codes "a.test.yaml") []
      (recorded one_test ∷ []) [] one_test (codes "wrong") small_files quiet

abbrev mock_config : Config
mock_config = record { stdout = codes "out"; exitcode = pos 3 }

abbrev mock_files : Fs
mock_files = record small_files {
  files = (codes "/tmp/aa", mock_contents plain_platform small_context mock_config) ∷ [];
}

run_main-create_mock_executable_example :
    (parse_args_safe
        (λ args. none)
        (codes "/bin/scriptkeeper" ∷ codes "--executable-mock" ∷ codes "/tmp/aa" ∷ codes "-l" ∷ [])
      >>= λ args.
          run_main plain_platform plain_yaml word_memory
            (λ s. 0)
            0
            small_context
            []
            args
            mock_files
            quiet)
    ≡ ok (pos 3, mock_files, record quiet { stdout = quiet.stdout ++ codes "out" })
run_main-create_mock_executable_example =
    run_main-create_mock_executable plain_platform plain_yaml word_memory (λ s. 0) 0 (λ args. none)
      small_context mock_config small_files mock_files (codes "/bin/scriptkeeper") (codes "/tmp/aa")
      (mock_contents plain_platform small_context mock_config) (codes "-l" ∷ []) quiet
      (unfold is_utf8 in (refl, (refl, (refl, tt)))) refl
      (unfold create_mock_executable exists contents_at equal in refl)
      (unfold contents_at equal in refl)

abbrev filled_tests : Tests
filled_tests = record {
  tests = map get_test filled_results;
  unmocked_commands = [];
  interpreter = none;
}

abbrev filled_yaml : Yaml
filled_yaml = hash (file_object plain_platform plain_yaml [] (one_test ∷ one_test ∷ []))

abbrev filled_files : Fs
filled_files = record small_files { files = (codes "a.test.yaml", codes "old") ∷ [] }

filled_yaml-serialize_tests :
    serialize_tests plain_platform (yaml_crate filled_yaml) filled_tests ≡ ok filled_yaml
unfolding get_test file_object serialize_test serialize_arguments serialize_env serialize_entries
    serialize_exitcode serialize_step
filled_yaml-serialize_tests =
    serialize_tests-file_object plain_platform (yaml_crate filled_yaml) filled_tests tt

load-handle_results_example :
    (fs' : Fs) × (output' : Output) × (handle_results plain_platform
        (yaml_crate filled_yaml)
        (find_test_file (codes "a"))
        []
        filled_results
        filled_files
        quiet
      ≡ ok (pos 0, fs', output'))
    × (load plain_platform (yaml_crate filled_yaml) fs' (codes "a")
        ≡ ok (find_test_file (codes "a"), forget_tests plain_platform.which filled_tests))
load-handle_results_example =
    load-handle_results plain_platform (yaml_crate filled_yaml) (codes "a") [] filled_results
      filled_files quiet filled_yaml (codes "---\ntests") (tt, (refl, tt))
      (unfold is_recorded in refl)
      (unfold get_test in (one_test-IsWritable filled_yaml, (one_test-IsWritable filled_yaml, tt)))
      tt (unfold exists contents_at find_test_file equal in refl) refl refl
      filled_yaml-serialize_tests refl (unfold adjust_yaml_output is_utf8 in refl) refl

abbrev no_texts : Texts
no_texts = record { syscall = λ s. codes "Write"; error = λ e. codes "error"; errno = λ n. [] }

abbrev write_registers : LoggedRegisters
write_registers = record { rdi = 1; rsi = 64; rdx = 3; r8 = 0; rax = 3 }

abbrev add_one : ℕ → R ℕ
add_one n = ok (n + 1)

log_syscall-Agrees_example :
    Agrees
      (log_syscall plain_platform word_memory no_texts 3
        (λ n pid. zeros)
        (λ n pid. some write_registers)
        (enabled [])
        2
        enter
        sys_write
        add_one
        5
        [])
      (add_one 5)
log_syscall-Agrees_example =
    log_syscall-Agrees plain_platform word_memory no_texts 3 (λ n pid. zeros)
      (λ n pid. some write_registers) (enabled []) 2 enter sys_write add_one 5 []
      (λ n. (write_registers, refl))
