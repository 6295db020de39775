-- ===== src/TestChecker/Sound.antt =====
-- When a test passes: a description of the scripts that conform to it, which a pass implies.
use check_protocols.Prelude.{
  ◌≡◌, refl, ap, inl, inr, Bool, true, false, ◌&&◌, Option, none, some, List, [], ◌∷◌, Bool-cases,
  Option-cases,
}
use check_protocols.CheckerResult.{CheckerResult, pass, is_pass, register_error}
use check_protocols.Command.{Command}
use check_protocols.Platform.{Platform}
use check_protocols.Prelude.Int.{ℤ, int_eq}
use check_protocols.Prelude.Text.{Bytes, equal}
use check_protocols.Result.{R, ok, ◌>>=◌, Returns, Returns-bind, Returns-weaken, Returns-ok}
use check_protocols.StdioRedirecting.{StreamType, Redirect, Redirector}
use check_protocols.TempFiles.{Fs}
use check_protocols.TestChecker.{
  TestChecker, output_error, compare_output, check_expected_output_stream, check_output,
  check_steps, check_exitcode, handle_end,
}
use check_protocols.TestChecker.Conforms.{
  consume, run_commands, Advances, register_error_fails, Failed, with_step_error_fails, AfterRun,
  run_commands-Advances,
}
use check_protocols.TestSpec.{Step, Test, get_or_zero}

-- what the test says of a stream, of which this was captured
unfoldable pub output_conforms : Option Bytes → Option Bytes → Bool
output_conforms none captured = true
output_conforms (some expected) none = false
output_conforms (some expected) (some captured) = equal captured expected

unfoldable pub all_consumed : Option (List Step) → Bool
all_consumed none = false
all_consumed (some []) = true
all_consumed (some (s ∷ ss)) = false

module _ (E : Platform) where
  open E use {which, trim_margin}

  -- The commands match the steps of the test one by one and to the end, and the exit code and the
  -- captured streams are those of the test.
  unfoldable pub conforms : Test → List Command → ℤ → Redirector → Bool
  unfolding output_conforms all_consumed
  conforms test commands code redirector =
      all_consumed (consume E test.steps commands)
      && (int_eq code (get_or_zero test.exitcode)
          && (output_conforms test.stdout redirector.stdout.captured
              && output_conforms test.stderr redirector.stderr.captured))

  -- a script that runs these commands and ends with this exit code
  unfoldable pub check : TestChecker → Fs → List Command → ℤ → Redirector → R CheckerResult
  check tc fs commands code redirector = do
    (tc', fs') ← run_commands E tc fs commands
    handle_end E tc' code redirector

  -- If `tc'` has no error then `tc` had none and the condition holds.
  pub record Checked (tc : TestChecker) (Condition : Type 0) (tc' : TestChecker) : Type 0 where
    pub passing : is_pass tc'.result ≡ true → (is_pass tc.result ≡ true) × Condition
    pub exitcode : tc'.test.exitcode ≡ tc.test.exitcode
    pub stdout : tc'.test.stdout ≡ tc.test.stdout
    pub stderr : tc'.test.stderr ≡ tc.test.stderr

  failed-Checked :
      (tc tc' : TestChecker) (C : Type 0)
      → is_pass tc'.result ≡ false
      → tc'.test.exitcode ≡ tc.test.exitcode
      → tc'.test.stdout ≡ tc.test.stdout
      → tc'.test.stderr ≡ tc.test.stderr
      → Checked tc C tc'
  failed-Checked tc tc' C f e o r = record {
    passing = λ h. absurd (cc);
    exitcode = e;
    stdout = o;
    stderr = r;
  }

  holds-Checked : (tc : TestChecker) (C : Type 0) → C → Checked tc C tc
  holds-Checked tc C c = record {
    passing = λ h. (h, c);
    exitcode = refl;
    stdout = refl;
    stderr = refl;
  }

  check_steps-Checked :
      (steps : List Step) (tc : TestChecker)
      → Returns (Checked tc (steps ≡ [])) (check_steps E steps tc)
  unfolding check_steps
  check_steps-Checked [] tc = holds-Checked tc ([] ≡ []) refl
  check_steps-Checked (s ∷ steps) tc =
      let popped = record tc { test = record (tc.test) { steps = steps } } in
      Returns-weaken (Failed E popped) (Checked tc ((s ∷ steps) ≡ [])) _
        (with_step_error_fails E _ _ popped)
        λ tc' failed.
          failed-Checked tc tc' ((s ∷ steps) ≡ []) failed.0 (ap (λ (t : Test). t.exitcode) failed.1)
            (ap (λ (t : Test). t.stdout) failed.1) (ap (λ (t : Test). t.stderr) failed.1)

  check_exitcode-Checked :
      (code : ℤ) (tc : TestChecker)
      → Returns
          (Checked tc (int_eq code (get_or_zero tc.test.exitcode) ≡ true))
          (check_exitcode E code tc)
  unfolding check_exitcode
  check_exitcode-Checked code tc =
      let C : Type 0 = false ≡ true in
      elim (Bool-cases (int_eq code (get_or_zero tc.test.exitcode))) [
        | inl e ↦ rw (e, check_exitcode) (holds-Checked tc (true ≡ true) refl)
        | inr e ↦
            rw (e, check_exitcode)
              (Returns-weaken (Failed E tc) (Checked tc C) _ (with_step_error_fails E _ _ tc)
                λ tc' failed.
                  failed-Checked tc tc' C failed.0 (ap (λ (t : Test). t.exitcode) failed.1)
                    (ap (λ (t : Test). t.stdout) failed.1) (ap (λ (t : Test). t.stderr) failed.1))
      ]

  compare_output-Checked :
      (t : StreamType) (expected : Bytes) (captured : Option Bytes) (tc : TestChecker)
      → Returns
          (Checked tc (output_conforms (some expected) captured ≡ true))
          (compare_output E t expected captured tc)
  unfolding compare_output output_conforms
  compare_output-Checked t expected none tc = tt
  compare_output-Checked t expected (some captured) tc =
      elim (Bool-cases (equal captured expected)) [
        | inl e ↦ rw (e, compare_output) (holds-Checked tc (true ≡ true) refl)
        | inr e ↦ elim (Option-cases (trim_margin (output_error E t expected captured))) [
          | inl n ↦ rw (e, compare_output, n) tt
          | inr (message, n) ↦
              rw (e, compare_output, n)
                (failed-Checked tc (record tc { result = register_error message tc.result })
                  (false ≡ true) (register_error_fails E message tc.result) refl refl refl)
        ]
      ]

  check_output-Checked :
      (redirect : Redirect) (expected : Option Bytes) (tc : TestChecker)
      → Returns
          (Checked tc (output_conforms expected redirect.captured ≡ true))
          (check_output E redirect expected tc)
  unfolding check_output check_expected_output_stream output_conforms
  check_output-Checked redirect none tc = holds-Checked tc (true ≡ true) refl
  check_output-Checked redirect (some expected) tc =
      compare_output-Checked redirect.stream_type expected redirect.captured tc

  abbrev pub Outcome : TestChecker → ℤ → Redirector → CheckerResult → Type 0
  Outcome tc code redirector r =
      is_pass r ≡ true
      → (is_pass tc.result ≡ true)
        × (tc.test.steps ≡ [])
        × (int_eq code (get_or_zero tc.test.exitcode) ≡ true)
        × (output_conforms tc.test.stdout redirector.stdout.captured ≡ true)
        × (output_conforms tc.test.stderr redirector.stderr.captured ≡ true)

  -- the conditions of the four checks, one behind the other, on the test at the start
  collect :
      (tc a b c d : TestChecker) (code : ℤ) (redirector : Redirector)
      → Checked tc (tc.test.steps ≡ []) a
      → Checked a (int_eq code (get_or_zero a.test.exitcode) ≡ true) b
      → Checked b (output_conforms b.test.stdout redirector.stdout.captured ≡ true) c
      → Checked c (output_conforms c.test.stderr redirector.stderr.captured ≡ true) d
      → Outcome tc code redirector d.result
  collect tc a b c d code redirector p q r s h =
      let (hc, err_ok) = s.passing h in
      let (hb, out_ok) = r.passing hc in
      let (ha, code_ok) = q.passing hb in
      let (h₀, steps_ok) = p.passing ha in
      (
        h₀,
        steps_ok,
        (rw (← p.exitcode) code_ok),
        (rw (← p.stdout, ← q.stdout) out_ok),
        (rw (← p.stderr, ← q.stderr, ← r.stderr) err_ok),
      )

  pub handle_end-Outcome :
      (tc : TestChecker) (code : ℤ) (redirector : Redirector)
      → Returns (Outcome tc code redirector) (handle_end E tc code redirector)
  unfolding handle_end
  handle_end-Outcome tc code redirector =
      let Q = Outcome tc code redirector in
      Returns-bind (Checked tc (tc.test.steps ≡ [])) Q (check_steps E tc.test.steps tc) _
        (check_steps-Checked tc.test.steps tc)
        λ a p.
          Returns-bind (Checked a (int_eq code (get_or_zero a.test.exitcode) ≡ true)) Q
            (check_exitcode E code a) _ (check_exitcode-Checked code a)
            λ b q.
              Returns-bind
                (Checked b (output_conforms b.test.stdout redirector.stdout.captured ≡ true)) Q
                (check_output E redirector.stdout b.test.stdout b) _
                (check_output-Checked redirector.stdout b.test.stdout b)
                λ c r.
                  Returns-bind
                    (Checked c (output_conforms c.test.stderr redirector.stderr.captured ≡ true)) Q
                    (check_output E redirector.stderr c.test.stderr c) _
                    (check_output-Checked redirector.stderr c.test.stderr c)
                    λ d s. collect tc a b c d code redirector p q r s

  abbrev pub Verdict : TestChecker → List Command → ℤ → Redirector → CheckerResult → Type 0
  Verdict tc commands code redirector r =
      is_pass r ≡ true
      → (is_pass tc.result ≡ true) × (conforms tc.test commands code redirector ≡ true)

  pub conforms-Verdict :
      (tc tc' : TestChecker) (commands : List Command) (code : ℤ) (redirector : Redirector)
      (r : CheckerResult)
      → Advances E tc commands tc'
      → Outcome tc' code redirector r
      → Verdict tc commands code redirector r
  unfolding conforms all_consumed
  conforms-Verdict tc tc' commands code redirector r a o h =
      let (passing, steps_ok, code_ok, out_ok, err_ok) = o h in
      (
        a.passing passing,
        (rw (
          a.expected passing,
          steps_ok,
          all_consumed,
          ← a.exitcode,
          code_ok,
          ← a.stdout,
          out_ok,
          ← a.stderr,
          err_ok,
        )),
      )

  check-Verdict :
      (tc : TestChecker) (fs : Fs) (commands : List Command) (code : ℤ) (redirector : Redirector)
      → Returns (Verdict tc commands code redirector) (check tc fs commands code redirector)
  unfolding check
  check-Verdict tc fs commands code redirector =
      Returns-bind (AfterRun E tc commands) (Verdict tc commands code redirector)
        (run_commands E tc fs commands) _ (run_commands-Advances E commands tc fs)
        λ s a.
          Returns-weaken (Outcome s.0 code redirector) (Verdict tc commands code redirector)
            (handle_end E s.0 code redirector) (handle_end-Outcome s.0 code redirector)
            λ r o. conforms-Verdict tc s.0 commands code redirector r a o

  -- Only scripts that conform to a test pass it: if the check of a script ends with `pass`, its
  -- commands match the steps of the test in order and exhaust them, its exit code is the expected
  -- one, and each stream that the test mentions was captured as the test says.
  pub check_sound :
      (tc : TestChecker) (fs : Fs) (commands : List Command) (code : ℤ) (redirector : Redirector)
      → check tc fs commands code redirector ≡ ok pass
      → conforms tc.test commands code redirector ≡ true
  unfolding is_pass
  check_sound tc fs commands code redirector h =
      let (passing, c) =
        Returns-ok (Verdict tc commands code redirector) _ pass
          (check-Verdict tc fs commands code redirector) h refl in
      c
