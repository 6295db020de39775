-- ===== src/TestChecker/Conforms.antt =====
-- A run of the commands of a script against the steps of a test, and what an error-free run has done.
use check_protocols.TempFiles
use check_protocols.Prelude.{
  ◌≡◌, refl, sym, ap, ◌∙◌, inl, inr, true, false, Option, none, some, List, [], ◌∷◌, ◌++◌, arith,
  if◌then◌else◌, Bool-cases, Option-cases,
}
use check_protocols.CheckerResult.{
  CheckerResult, pass, failure, is_pass, register_error, step_error, register_step_error,
}
use check_protocols.Command.{Command}
use check_protocols.CommandMatcher.{matches}
use check_protocols.ExecutableMock.{create_mock_executable}
use check_protocols.Platform.{Config, Platform}
use check_protocols.Prelude.Text.{Bytes}
use check_protocols.Result.{R, ok, ◌>>=◌, Returns, Returns-bind, Returns-weaken, Returns-any}
use check_protocols.Syscall.Code.{same}
use check_protocols.TempFiles.{Fs, ShortTempFile, next}
use check_protocols.TestChecker.{TestChecker, with_step_error, next_mock, handle_step}
use check_protocols.TestSpec.{Step, Test}

module _ (E : Platform) where
  open E use {which, trim_margin}

  -- the steps that are left when these commands were run, if each was expected
  unfoldable pub consume : List Step → List Command → Option (List Step)
  consume steps [] = some steps
  consume [] (c ∷ cs) = none
  consume (s ∷ ss) (c ∷ cs) = if matches which s.command_matcher c then consume ss cs else none

  -- the commands of a script, one after the other
  unfoldable pub run_commands : TestChecker → Fs → List Command → R (TestChecker × Fs)
  run_commands tc fs [] = ok (tc, fs)
  run_commands tc fs (c ∷ cs) = do (path, tc', fs') ← handle_step E tc fs c; run_commands tc' fs' cs

  -- If `tc'` has no error then `tc` had none, and between them these commands were expected and run.
  pub record Advances (tc : TestChecker) (cs : List Command) (tc' : TestChecker) : Type 0 where
    pub passing : is_pass tc'.result ≡ true → is_pass tc.result ≡ true
    pub expected : is_pass tc'.result ≡ true → consume tc.test.steps cs ≡ some tc'.test.steps
    pub exitcode : tc'.test.exitcode ≡ tc.test.exitcode
    pub stdout : tc'.test.stdout ≡ tc.test.stdout
    pub stderr : tc'.test.stderr ≡ tc.test.stderr
    pub unmocked : tc'.unmocked_commands ≡ tc.unmocked_commands

  pub register_error_fails : (m : Bytes) (r : CheckerResult) → is_pass (register_error m r) ≡ false
  unfolding register_error is_pass
  register_error_fails m pass = refl
  register_error_fails m (failure e) = refl

  abbrev pub Failed : TestChecker → TestChecker → Type 0
  Failed tc tc' =
      (is_pass tc'.result ≡ false)
      × (tc'.test ≡ tc.test)
      × (tc'.unmocked_commands ≡ tc.unmocked_commands)

  -- a registered error changes the result alone, and leaves a failure
  pub with_step_error_fails :
      (expected received : Bytes) (tc : TestChecker)
      → Returns (Failed tc) (with_step_error E expected received tc)
  unfolding with_step_error register_step_error
  with_step_error_fails expected received tc =
      elim (Option-cases (trim_margin (step_error expected received))) [
        | inl e ↦ rw (e, register_step_error) tt
        | inr (message, e) ↦
            rw (e, register_step_error) (register_error_fails message tc.result, refl, refl)
      ]

  -- a checker that failed advances over anything, if the expected outcomes stay
  failed-Advances :
      (tc tc' : TestChecker) (cs : List Command) (steps : List Step)
      → is_pass tc'.result ≡ false
      → tc'.test ≡ record (tc.test) { steps = steps }
      → tc'.unmocked_commands ≡ tc.unmocked_commands
      → Advances tc cs tc'
  failed-Advances tc tc' cs steps f same unmocked = record {
    passing = λ h. absurd (cc);
    expected = λ h. absurd (cc);
    exitcode = ap (λ (t : Test). t.exitcode) same;
    stdout = ap (λ (t : Test). t.stdout) same;
    stderr = ap (λ (t : Test). t.stderr) same;
    unmocked = unmocked;
  }

  next_mock-Advances :
      (steps : List Step) (c : Command) (tc : TestChecker)
      → steps ≡ tc.test.steps
      → Returns (λ r. Advances tc (c ∷ []) r.1) (next_mock E steps c tc)
  unfolding next_mock consume
  next_mock-Advances [] c tc same =
      let after : TestChecker → Type 0 = Failed tc in
      Returns-bind after (λ r. Advances tc (c ∷ []) r.1) _ _ (with_step_error_fails _ _ tc)
        λ tc' failed.
          failed-Advances tc tc' (c ∷ []) [] failed.0
            (failed.1 ∙ ap (λ s. record (tc.test) { steps = s }) (sym same)) failed.2
  next_mock-Advances (s ∷ steps) c tc same =
      let popped = record tc { test = record (tc.test) { steps = steps } } in
      elim (Bool-cases (matches which s.command_matcher c)) [
        | inl e ↦ rw e (record {
          passing = λ h. h;
          expected = λ h. rw (← same) (rw e);
          exitcode = refl;
          stdout = refl;
          stderr = refl;
          unmocked = refl;
        })
        | inr e ↦ rw e (
            Returns-bind (Failed popped) (λ r. Advances tc (c ∷ []) r.1) _ _
              (with_step_error_fails _ _ popped)
              λ tc' failed. failed-Advances tc tc' (c ∷ []) steps failed.0 failed.1 failed.2)
      ]

  abbrev AfterMock : TestChecker → Command → Config × TestChecker → Type 0
  AfterMock tc c (config, tc') = Advances tc (c ∷ []) tc'

  abbrev pub AfterStep : TestChecker → Command → Bytes × TestChecker × Fs → Type 0
  AfterStep tc c (path, tc', fs') = Advances tc (c ∷ []) tc'

  adding-Advances :
      (tc tc' : TestChecker) (c : Command) (file : ShortTempFile)
      → Advances tc (c ∷ []) tc'
      → Advances tc
          (c ∷ [])
          (record tc' { temporary_executables = tc'.temporary_executables ++ file ∷ [] })
  adding-Advances tc tc' c file adv = record {
    passing = adv.passing;
    expected = adv.expected;
    exitcode = adv.exitcode;
    stdout = adv.stdout;
    stderr = adv.stderr;
    unmocked = adv.unmocked;
  }

  pub handle_step-Advances :
      (tc : TestChecker) (fs : Fs) (c : Command) → Returns (AfterStep tc c) (handle_step E tc fs c)
  unfolding handle_step
  handle_step-Advances tc fs c =
      Returns-bind (AfterMock tc c) (AfterStep tc c) _ _
        (next_mock-Advances tc.test.steps c tc refl)
        λ r adv.
          Returns-bind (λ (b : Bytes). Unit) (AfterStep tc c)
            (create_mock_executable E r.1.context fs r.0) _ (Returns-any _)
            λ contents _.
              Returns-bind (λ (b : ShortTempFile × Fs). Unit) (AfterStep tc c)
                (TempFiles.new contents fs) _ (Returns-any _)
                λ file _. adding-Advances tc r.1 c file.0 adv

  consume-cons :
      (steps next : List Step) (c : Command) (cs : List Command)
      → consume steps (c ∷ []) ≡ some next
      → consume steps (c ∷ cs) ≡ consume next cs
  unfolding consume
  consume-cons [] next c cs h = absurd (cc)
  consume-cons (s ∷ ss) next c cs h = ground arith

  Advances-trans :
      (tc tc' tc'' : TestChecker) (c : Command) (cs : List Command)
      → Advances tc (c ∷ []) tc'
      → Advances tc' cs tc''
      → Advances tc (c ∷ cs) tc''
  Advances-trans tc tc' tc'' c cs a b = record {
    passing = λ h. a.passing (b.passing h);
    expected = λ h.
        consume-cons tc.test.steps tc'.test.steps c cs (a.expected (b.passing h)) ∙ b.expected h;
    exitcode = b.exitcode ∙ a.exitcode;
    stdout = b.stdout ∙ a.stdout;
    stderr = b.stderr ∙ a.stderr;
    unmocked = b.unmocked ∙ a.unmocked;
  }

  abbrev pub AfterRun : TestChecker → List Command → TestChecker × Fs → Type 0
  AfterRun tc cs (tc', fs') = Advances tc cs tc'

  pub run_commands-Advances :
      (cs : List Command) (tc : TestChecker) (fs : Fs)
      → Returns (AfterRun tc cs) (run_commands tc fs cs)
  unfolding run_commands consume
  run_commands-Advances [] tc fs = record {
    passing = λ h. h;
    expected = λ h. refl;
    exitcode = refl;
    stdout = refl;
    stderr = refl;
    unmocked = refl;
  }
  run_commands-Advances (c ∷ cs) tc fs =
      Returns-bind (AfterStep tc c) (AfterRun tc (c ∷ cs)) _ _ (handle_step-Advances tc fs c) λ r a.
        Returns-weaken (AfterRun r.1 cs) (AfterRun tc (c ∷ cs)) (run_commands r.1 r.2 cs)
          (run_commands-Advances cs r.1 r.2)
          λ (s : TestChecker × Fs) b. Advances-trans tc r.1 s.0 c cs a b
