-- ===== src/Main/Report.antt =====
-- What the program does with the results of the tests, and how it runs as a mock.
use check_protocols.Prelude.{
  ℕ, ◌≡◌, refl, true, false, Option, some, List, [], ◌∷◌, ◌++◌, ◌==◌, any, All,
}
use check_protocols.ArgumentParser.{newline}
use check_protocols.CheckerResult.{pass, failure, is_pass, all_pass, exitcode}
use check_protocols.CheckerResult.Report.{format_results, format_results_total}
use check_protocols.Cli.{Matches, get_arg, is_mock_flag, env_args, args_from, parse_args_safe}
use check_protocols.ExecutableMock.{Context, create_mock_executable, run-create_mock_executable}
use check_protocols.Main.{run_mock, run_main}
use check_protocols.Platform.{Config, Platform}
use check_protocols.Prelude.Int.{pos}
use check_protocols.Prelude.Text.{Bytes, codes, equal}
use check_protocols.Ptrace.{Ptrace}
use check_protocols.Recorder.{RecorderResult, checked, recorded}
use check_protocols.Recorder.Results.{checker_results_of, handle_recorded, handle_results}
use check_protocols.Result.{ok, ◌>>=◌}
use check_protocols.Syscall.{Syscall}
use check_protocols.TempFiles.{Fs, contents_at}
use check_protocols.TestSpec.{Test}
use check_protocols.Tracer.Run.{Output}
use check_protocols.Utf8.{is_utf8}
use check_protocols.Yaml.{YamlCrate}

all_pass_failed :
    (before after : List RecorderResult) (test : Test) (error : Bytes)
    → all_pass (checker_results_of (before ++ checked test (failure error) ∷ after)) ≡ false
unfolding all_pass checker_results_of is_pass
all_pass_failed [] after test error = refl
all_pass_failed (checked t pass ∷ before) after test error = all_pass_failed before after test error
all_pass_failed (checked t (failure e) ∷ before) after test error = refl
all_pass_failed (recorded t ∷ before) after test error = all_pass_failed before after test error

-- every test that was checked has passed
abbrev pub Passed : RecorderResult → Type 0
Passed (checked test result) = result ≡ pass
Passed (recorded test) = Unit

pub all_pass-Passed :
    (results : List RecorderResult)
    → All Passed results
    → all_pass (checker_results_of results) ≡ true
unfolding all_pass checker_results_of is_pass
all_pass-Passed [] h = refl
all_pass-Passed (checked t r ∷ results) (p, h) = rw p (all_pass-Passed results h)
all_pass-Passed (recorded t ∷ results) (p, h) = all_pass-Passed results h

env_args-utf8 :
    (args : List Bytes) → All (λ argument. is_utf8 argument ≡ true) args → env_args args ≡ ok args
unfolding env_args
env_args-utf8 [] h = refl
env_args-utf8 (a ∷ args) (utf8, h) = rw (utf8, env_args-utf8 args h) refl

flag-utf8 : is_utf8 (codes "--executable-mock") ≡ true
unfolding is_utf8
flag-utf8 = refl

module _ (E : Platform) (Y : YamlCrate) where
  -- One test that failed is enough: the program exits with 1 and prints the report on all checked
  -- tests, which there always is, and the holes that
  -- other tests have filled are not written, nor is any other file.
  pub handle_results-failure :
      (test_file : Bytes) (unmocked_commands : List Bytes) (before after : List RecorderResult)
      (test : Test) (error : Bytes) (fs : Fs) (output : Output)
      → (report : Bytes) × (format_results
            (checker_results_of (before ++ checked test (failure error) ∷ after))
          ≡ ok report)
        × (handle_results E Y test_file unmocked_commands
              (before ++ checked test (failure error) ∷ after)
              fs
              output
            ≡ ok (pos 1, fs, record output { stdout = output.stdout ++ report }))
  unfolding handle_results handle_recorded exitcode
  handle_results-failure test_file unmocked_commands before after test error fs output =
      let results = before ++ checked test (failure error) ∷ after in
      let (report, formatted) = format_results_total (checker_results_of results) in
      (report, formatted, rw (all_pass_failed before after test error, formatted) refl)

module _ (E : Platform) (Y : YamlCrate) (P : Ptrace) (number : Syscall → ℕ) (fuel : ℕ) where
  -- The file that replaces a command is run by the kernel with the flag `--executable-mock`, its own
  -- path and the arguments of the command: the program then prints the output of the step and
  -- exits with its exit code, whatever these arguments are, as long as they, the path and the name
  -- of the program are valid UTF-8.
  pub run_main-create_mock_executable :
      (get_matches : List Bytes → Option Matches) (context : Context) (config : Config)
      (fs fs' : Fs) (self path contents : Bytes) (arguments : List Bytes) (output : Output)
      → All (λ argument. is_utf8 argument ≡ true) (self ∷ path ∷ arguments)
      → any (λ c. c == newline) context.scriptkeeper_executable ≡ false
      → create_mock_executable E context fs config ≡ ok contents
      → contents_at fs' path ≡ some contents
      → (parse_args_safe get_matches (self ∷ codes "--executable-mock" ∷ path ∷ arguments)
          >>= λ args. run_main E Y P number fuel context [] args fs' output)
        ≡ ok (config.exitcode, fs', record output { stdout = output.stdout ++ config.stdout })
  unfolding parse_args_safe args_from is_mock_flag get_arg run_main run_mock equal
  run_main-create_mock_executable get_matches context config fs fs' self path contents arguments
        output utf8 plain created there =
      rw
        (
          env_args-utf8 (self ∷ codes "--executable-mock" ∷ path ∷ arguments)
              (utf8.0, (flag-utf8, utf8.1)),
          run-create_mock_executable E context config fs fs' path contents output.stdout plain
              created there,
        )
        refl
