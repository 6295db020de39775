-- ===== src/Main/Verdict.antt =====
-- What the exit code 0 of the program says of the tests of a file.
use check_protocols.Prelude.{
  ℕ, ◌≡◌, refl, sym, ap, subst, ◌∙◌, ◌⊎◌, inl, inr, Bool, true, false, Option, List, [], ◌∷◌,
  if◌then◌else◌, Bool-cases, All,
}
use check_protocols.CheckerResult.{
  CheckerResult, pass, failure, is_pass, CheckerResults, all_pass, exitcode,
}
use check_protocols.CheckerResult.Report.{format_results}
use check_protocols.Command.{Command}
use check_protocols.ExecutableMock.{Context}
use check_protocols.Main.Report.{Passed}
use check_protocols.Platform.{Platform}
use check_protocols.Prelude.Int.{ℤ, pos}
use check_protocols.Prelude.Text.{Bytes}
use check_protocols.Ptrace.{Ptrace}
use check_protocols.Recorder.{RecorderResult, checked, recorded}
use check_protocols.Recorder.Results.{
  checker_results_of, capture_of, handle_recorded, handle_results, run_against_test,
  collect_results, run_against_tests,
}
use check_protocols.Result.{R, ok, ok-injective, bind_inversion}
use check_protocols.Syscall.{Syscall}
use check_protocols.TempFiles.{Fs}
use check_protocols.TestChecker.{TestChecker, new_checker}
use check_protocols.TestChecker.Sound.{conforms}
use check_protocols.TestSpec.{Test, Tests}
use check_protocols.Tracer.{new_tracer, World, trace}
use check_protocols.Tracer.Followed.{mocked_commands, ByOthers}
use check_protocols.Tracer.Logged.{logged}
use check_protocols.Tracer.Mocks.{checker_mock, checker_end}
use check_protocols.Tracer.Run.{Output, Run, start_world, relay_streams, run_against_mock}
use check_protocols.Tracer.Sound.{run_against_mock-conforms}
use check_protocols.Yaml.{YamlCrate}

exitcode-all_pass : (results : CheckerResults) → exitcode results ≡ pos 0 → all_pass results ≡ true
unfolding exitcode
exitcode-all_pass results h = elim (Bool-cases (all_pass results)) [
  | inl e ↦ e
  | inr e ↦ absurd (cc (rw e at h))
]

Passed-all_pass :
    (results : List RecorderResult)
    → all_pass (checker_results_of results) ≡ true
    → All Passed results
unfolding all_pass checker_results_of is_pass
Passed-all_pass [] h = tt
Passed-all_pass (checked t pass ∷ results) h = (refl, Passed-all_pass results h)
Passed-all_pass (checked t (failure e) ∷ results) h = absurd (cc)
Passed-all_pass (recorded t ∷ results) h = (tt, Passed-all_pass results h)

if_false {ℓ} : {A : Type ℓ} (b : Bool) (x y z : A) → b ≡ false → (if b then x else y) ≡ z → y ≡ z
if_false true x y z e h = absurd (cc)
if_false false x y z e h = h

module _ (E : Platform) (Y : YamlCrate) (P : Ptrace) (number : Syscall → ℕ) (fuel : ℕ) where
  -- The commands in the log of the run, its exit code and its captured streams are those of the test.
  pub record IsChecked (context : Context) (unmocked_commands : List Bytes) (script_run : Run P)
      (test : Test) : Type 0 where
    files : Fs
    output : Output
    code : ℤ
    checker : TestChecker
    log : List (ℕ × Command)
    world : World P
    traced :
        trace P
          (logged P (checker_mock E P))
          number
          fuel
          (new_tracer script_run.tracee_pid)
          (new_checker context test unmocked_commands, [])
          (start_world P script_run files)
          script_run.events
        ≡ ok (code, (checker, log), world)
    conforming :
        conforms E test
          (mocked_commands E unmocked_commands log)
          code
          (relay_streams P script_run (capture_of test) output).0
        ≡ true
    by_others : ByOthers script_run.tracee_pid log

  -- each test has a run, and either a hole or a run that was checked
  abbrev pub AllChecked : Context → List Bytes → List (Run P) → List Test → Type 0
  AllChecked context unmocked_commands runs [] = Unit
  AllChecked context unmocked_commands [] (test ∷ tests) = ⊥
  AllChecked context unmocked_commands (script_run ∷ runs) (test ∷ tests) =
      ((test.ends_with_hole ≡ true) ⊎ IsChecked context unmocked_commands script_run test)
      × AllChecked context unmocked_commands runs tests

  abbrev with_test : Test → CheckerResult × Fs × Output → R (RecorderResult × Fs × Output)
  with_test test x = ok (checked test x.0, x.1, x.2)

  run_against_test-IsChecked :
      (context : Context) (script_run : Run P) (interpreter : Option Bytes) (program : Bytes)
      (unmocked_commands : List Bytes) (test : Test) (fs : Fs) (output : Output)
      (x : RecorderResult × Fs × Output)
      → run_against_test E Y P number fuel context script_run interpreter program unmocked_commands
          test fs output
        ≡ ok x
      → Passed x.0
      → (test.ends_with_hole ≡ true) ⊎ IsChecked context unmocked_commands script_run test
  unfolding run_against_test
  run_against_test-IsChecked context script_run interpreter program unmocked_commands test fs output
        x h p =
      elim (Bool-cases test.ends_with_hole) [
        | inl e ↦ inl e
        | inr e ↦
            let (y, ran, is_x) =
              bind_inversion
                (run_against_mock P (checker_mock E P) number fuel script_run interpreter program
                  test.arguments test.env (capture_of test)
                  (new_checker context test unmocked_commands) (checker_end E P) fs output)
                (with_test test) x (if_false test.ends_with_hole _ _ (ok x) e h) in
            let passed : y.0 ≡ pass =
              subst (λ (r : RecorderResult × Fs × Output). Passed r.0) (sym (ok-injective _ x is_x))
                p in
            let (code, checker, log, world, traced, conforming, by_others) =
              run_against_mock-conforms E P number fuel context script_run interpreter program
                test.arguments test.env (capture_of test) test unmocked_commands fs y.1 output y.2
                (ran ∙ ap (λ (r : CheckerResult). ok (r, y.1, y.2)) passed) in
            inr (record {
              files = fs;
              output = output;
              code = code;
              checker = checker;
              log = log;
              world = world;
              traced = traced;
              conforming = conforming;
              by_others = by_others;
            })
      ]

  abbrev with_result :
      RecorderResult → List RecorderResult × Fs × Output → R (List RecorderResult × Fs × Output)
  with_result result y = ok (result ∷ y.0, y.1, y.2)

  collect_results-AllChecked :
      (context : Context) (runs : List (Run P)) (interpreter : Option Bytes) (program : Bytes)
      (tests : List Test) (unmocked_commands : List Bytes) (fs : Fs) (output : Output)
      (x : List RecorderResult × Fs × Output)
      → collect_results E Y P number fuel context runs interpreter program tests unmocked_commands
          fs output
        ≡ ok x
      → All Passed x.0
      → AllChecked context unmocked_commands runs tests
  unfolding collect_results
  collect_results-AllChecked context runs interpreter program [] unmocked_commands fs output x h p =
      tt
  collect_results-AllChecked context [] interpreter program (test ∷ tests) unmocked_commands fs
        output x h p =
      absurd (cc)
  collect_results-AllChecked context (script_run ∷ runs) interpreter program (test ∷ tests)
        unmocked_commands fs output x h p =
      let (y, ran, rest) =
        bind_inversion
          (run_against_test E Y P number fuel context script_run interpreter program
            unmocked_commands test fs output)
          _ x h in
      let (z, collected, is_x) =
        bind_inversion
          (collect_results E Y P number fuel context runs interpreter program tests
            unmocked_commands y.1 y.2)
          (with_result y.0) x rest in
      let (passed, all_passed) : All Passed (y.0 ∷ z.0) =
        subst (λ (r : List RecorderResult × Fs × Output). All Passed r.0)
          (sym (ok-injective _ x is_x)) p in
      (
        run_against_test-IsChecked context script_run interpreter program unmocked_commands test fs
            output y ran passed,
        collect_results-AllChecked context runs interpreter program tests unmocked_commands y.1 y.2
            z collected all_passed,
      )

  handle_results-Passed :
      (test_file : Bytes) (unmocked_commands : List Bytes) (results : List RecorderResult)
      (fs fs' : Fs) (output output' : Output)
      → handle_results E Y test_file unmocked_commands results fs output ≡ ok (pos 0, fs', output')
      → All Passed results
  unfolding handle_results
  handle_results-Passed test_file unmocked_commands results fs fs' output output' h =
      let (x, written, rest) =
        bind_inversion
          (handle_recorded E Y test_file unmocked_commands results (checker_results_of results) fs
            output)
          _ (pos 0, fs', output') h in
      let (report, formatted, is_zero) =
        bind_inversion (format_results (checker_results_of results)) _ (pos 0, fs', output') rest in
      Passed-all_pass results (
        exitcode-all_pass (checker_results_of results)
          (ap (λ (r : ℤ × Fs × Output). r.0) (ok-injective _ _ is_zero)))

  -- If the program exits with 0 on the tests of a file, every test without a hole was checked on a run
  -- of the script that conforms to it: the commands in the log of the run that are not exempted,
  -- its exit code and its captured streams are those of the test.
  pub run_against_tests-AllChecked :
      (context : Context) (runs : List (Run P)) (program test_file : Bytes) (tests : Tests)
      (fs fs' : Fs) (output output' : Output)
      → run_against_tests E Y P number fuel context runs program test_file tests fs output
        ≡ ok (pos 0, fs', output')
      → AllChecked context tests.unmocked_commands runs tests.tests
  unfolding run_against_tests
  run_against_tests-AllChecked context runs program test_file tests fs fs' output output' h =
      let (x, collected, handled) =
        bind_inversion
          (collect_results E Y P number fuel context runs tests.interpreter program tests.tests
            tests.unmocked_commands fs output)
          _ (pos 0, fs', output') h in
      collect_results-AllChecked context runs tests.interpreter program tests.tests
        tests.unmocked_commands fs output x collected
        (handle_results-Passed test_file tests.unmocked_commands x.0 x.1 fs' x.2 output' handled)
