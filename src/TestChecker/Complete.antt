-- ===== src/TestChecker/Complete.antt =====
-- The scripts that conform to a test pass it, if the mocks of their commands can be written.
use check_protocols.TempFiles
use mathlib.Core.Bool.{false≢true}
use mathlib.Core.Option.{some-injective}
use check_protocols.Prelude.{
  ℕ, zero, suc, ◌≡◌, refl, sym, ap, ◌∙◌, inl, inr, Bool, true, false, ◌&&◌, Option, none, some,
  List, [], ◌∷◌, ◌++◌, Bool-cases, length,
}
use check_protocols.CheckerResult.{pass}
use check_protocols.Command.{Command}
use check_protocols.CommandMatcher.{matches}
use check_protocols.ExecutableMock.{exists, mock_contents, create_mock_executable, run}
use check_protocols.Platform.{Config, Platform}
use check_protocols.Prelude.Int.{ℤ, int_eq}
use check_protocols.Prelude.Text.{Bytes, equal, equal_sound, equal_refl}
use check_protocols.Result.{ok}
use check_protocols.StdioRedirecting.{StreamType, Redirect, Redirector}
use check_protocols.Syscall.Code.{same}
use check_protocols.TempFiles.{Fs, ShortTempFile}
use check_protocols.TempFiles.Create.{new_lem}
use check_protocols.TestChecker.{
  TestChecker, next_mock, handle_step, compare_output, check_expected_output_stream, check_output,
  check_steps, check_exitcode, handle_end,
}
use check_protocols.TestChecker.Conforms.{consume, run_commands}
use check_protocols.TestChecker.Sound.{output_conforms, all_consumed, conforms, check}
use check_protocols.TestSpec.{Step, Test, get_or_zero}

-- so many temporary files can be written, one after the other
unfoldable pub Roomy : ℕ → Fs → Type 0
Roomy zero fs = Unit
Roomy (suc n) fs =
    (contents : Bytes)
    → (file : ShortTempFile) × (fs' : Fs) × (TempFiles.new contents fs ≡ ok (file, fs'))
      × Roomy n fs'

exists-new :
    (contents p : Bytes) (fs fs' : Fs) (file : ShortTempFile)
    → TempFiles.new contents fs ≡ ok (file, fs')
    → exists fs p ≡ true
    → exists fs' p ≡ true
unfolding exists
exists-new contents p fs fs' file h e =
    let (short, free, written, others) = new_lem contents fs fs' file h in
    elim (Bool-cases (equal p file.path)) [
      | inl q ↦ rw (equal_sound p file.path q, written, exists)
      | inr q ↦ rw (others p (λ r. false≢true (sym q ∙ rw r (equal_refl file.path))), exists) e
    ]

and_true : (a b : Bool) → (a && b) ≡ true → (a ≡ true) × (b ≡ true)
and_true true b h = (refl, h)
and_true false b h = absurd (cc)

module _ (E : Platform) where
  open E use {which}

  -- a checker that still passes and has these steps left
  abbrev pub Ready : TestChecker → List Step → TestChecker → Type 0
  Ready tc steps tc' =
      (tc'.result ≡ tc.result)
      × (tc'.context ≡ tc.context)
      × (tc'.test ≡ record (tc.test) { steps = steps })

  pub handle_step-match :
      (s : Step) (steps : List Step) (tc : TestChecker) (fs fs' : Fs) (c : Command)
      (file : ShortTempFile)
      → tc.test.steps ≡ s ∷ steps
      → matches which s.command_matcher c ≡ true
      → exists fs tc.context.scriptkeeper_executable ≡ true
      → TempFiles.new
          (mock_contents E tc.context (record { stdout = s.stdout; exitcode = s.exitcode }))
          fs
        ≡ ok (file, fs')
      → (tc' : TestChecker) × (handle_step E tc fs c ≡ ok (file.path, tc', fs'))
        × Ready tc steps tc'
  unfolding handle_step next_mock create_mock_executable
  handle_step-match s steps tc fs fs' c file left m e n =
      let popped = record tc { test = record (tc.test) { steps = steps } } in
      (
        record popped { temporary_executables = tc.temporary_executables ++ file ∷ [] },
        (rw (left, next_mock, m, e, n)),
        (refl, refl, refl),
      )

  abbrev Ran : TestChecker → Fs → List Command → TestChecker → Type 0
  Ran tc fs cs tc' = (fs' : Fs) × (run_commands E tc fs cs ≡ ok (tc', fs')) × Ready tc [] tc'

  run_commands-consume :
      (cs : List Command) (steps : List Step) (tc : TestChecker) (fs : Fs)
      → tc.test.steps ≡ steps
      → consume E steps cs ≡ some []
      → exists fs tc.context.scriptkeeper_executable ≡ true
      → Roomy (length cs) fs
      → (tc' : TestChecker) × Ran tc fs cs tc'
  unfolding run_commands consume Roomy
  run_commands-consume [] steps tc fs left c e room =
      let all : steps ≡ [] = some-injective steps [] c in
      (tc, (fs, refl, (refl, refl, ap (λ s. record (tc.test) { steps = s }) (left ∙ all))))
  run_commands-consume (c ∷ cs) [] tc fs left e₁ e room = absurd (cc)
  run_commands-consume (c ∷ cs) (s ∷ ss) tc fs left e₁ e room =
      elim (Bool-cases (matches which s.command_matcher c)) [
        | inr m ↦ absurd (cc (rw (m, consume) at e₁))
        | inl m ↦
            let config : Config = record { stdout = s.stdout; exitcode = s.exitcode } in
            let (file, fs', written, more) = room (mock_contents E tc.context config) in
            let (tc', step, (same, context, test)) =
              handle_step-match s ss tc fs fs' c file left m e written in
            let (tc'', (fs'', rest, (same', context', test'))) =
              run_commands-consume cs ss tc' fs' (ap (λ (t : Test). t.steps) test)
                (rw (m, consume) at e₁) (rw context (exists-new _ _ fs fs' file written e)) more in
            (
              tc'',
              (
                fs'',
                (rw (step, run_commands) rest),
                (
                  same' ∙ same,
                  context' ∙ context,
                  test' ∙ ap (λ (t : Test). record t { steps = [] }) test,
                ),
              ),
            )
      ]

  compare_output-conforms :
      (t : StreamType) (expected : Bytes) (captured : Option Bytes) (tc : TestChecker)
      → output_conforms (some expected) captured ≡ true
      → compare_output E t expected captured tc ≡ ok tc
  unfolding compare_output output_conforms
  compare_output-conforms t expected none tc h = absurd (cc)
  compare_output-conforms t expected (some captured) tc h = rw h

  check_output-conforms :
      (redirect : Redirect) (expected : Option Bytes) (tc : TestChecker)
      → output_conforms expected redirect.captured ≡ true
      → check_output E redirect expected tc ≡ ok tc
  unfolding check_output
  check_output-conforms redirect none tc h = refl
  check_output-conforms redirect (some expected) tc h =
      unfold check_expected_output_stream in
      compare_output-conforms redirect.stream_type expected redirect.captured tc h

  check_steps-done :
      (steps : List Step) (tc : TestChecker) → steps ≡ [] → check_steps E steps tc ≡ ok tc
  unfolding check_steps
  check_steps-done [] tc done = refl
  check_steps-done (s ∷ ss) tc done = absurd (cc)

  check_exitcode-conforms :
      (code : ℤ) (tc : TestChecker)
      → int_eq code (get_or_zero tc.test.exitcode) ≡ true
      → check_exitcode E code tc ≡ ok tc
  unfolding check_exitcode
  check_exitcode-conforms code tc h = rw h

  handle_end-conforms :
      (tc : TestChecker) (code : ℤ) (redirector : Redirector)
      → tc.test.steps ≡ []
      → int_eq code (get_or_zero tc.test.exitcode) ≡ true
      → output_conforms tc.test.stdout redirector.stdout.captured ≡ true
      → output_conforms tc.test.stderr redirector.stderr.captured ≡ true
      → handle_end E tc code redirector ≡ ok tc.result
  unfolding handle_end
  handle_end-conforms tc code redirector done code_ok out_ok err_ok = rw (
    check_steps-done tc.test.steps tc done,
    check_exitcode-conforms code tc code_ok,
    check_output-conforms redirector.stdout tc.test.stdout tc out_ok,
    check_output-conforms redirector.stderr tc.test.stderr tc err_ok,
  )

  all_consumed-cases : (o : Option (List Step)) → all_consumed o ≡ true → o ≡ some []
  unfolding all_consumed
  all_consumed-cases none h = absurd (cc)
  all_consumed-cases (some []) h = refl
  all_consumed-cases (some (s ∷ ss)) h = absurd (cc)

  -- Every script that conforms to a test passes it: if no error is registered yet, the commands
  -- match the steps of the test in order and exhaust them, the exit code and the captured streams
  -- are as the test says, the scriptkeeper executable exists, and a temporary file can be written
  -- for each command, then the check ends with `pass`.
  pub check_complete :
      (tc : TestChecker) (fs : Fs) (commands : List Command) (code : ℤ) (redirector : Redirector)
      → tc.result ≡ pass
      → conforms E tc.test commands code redirector ≡ true
      → exists fs tc.context.scriptkeeper_executable ≡ true
      → Roomy (length commands) fs
      → check E tc fs commands code redirector ≡ ok pass
  unfolding check conforms
  check_complete tc fs commands code redirector fresh c e room =
      let (steps_ok, c₁) = and_true (all_consumed _) _ c in
      let (code_ok, c₂) = and_true (int_eq code (get_or_zero tc.test.exitcode)) _ c₁ in
      let (out_ok, err_ok) =
        and_true (output_conforms tc.test.stdout redirector.stdout.captured)
          (output_conforms tc.test.stderr redirector.stderr.captured) c₂ in
      let (tc', (fs', run, (same, context, test))) =
        run_commands-consume commands tc.test.steps tc fs refl (all_consumed-cases _ steps_ok) e
          room in
      rw (
        run,
        check,
        handle_end-conforms tc' code redirector (ap (λ (t : Test). t.steps) test) (rw test code_ok)
            (rw test out_ok) (rw test err_ok),
        same,
        fresh,
      )
