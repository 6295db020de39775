-- ===== src/Tracer/Sound.antt =====
-- A run of a script under the test checker that passes has made the commands of the test.
use check_protocols.Prelude.{ℕ, ◌≡◌, refl, ap, ◌∙◌, true, Option, none, some, List, []}
use check_protocols.CheckerResult.{CheckerResult, pass, is_pass}
use check_protocols.Command.{Command}
use check_protocols.ExecutableMock.{Context}
use check_protocols.Platform.{Platform}
use check_protocols.Prelude.Int.{ℤ}
use check_protocols.Prelude.Text.{Bytes}
use check_protocols.Ptrace.{Ptrace}
use check_protocols.Result.{
  Error, R, ok, err, panic, diverge, ◌>>=◌, ok-injective, Returns-ok, bind_inversion,
}
use check_protocols.StdioRedirecting.{Redirector, Capture}
use check_protocols.Syscall.{Syscall}
use check_protocols.TempFiles.{Fs, drop_files}
use check_protocols.TestChecker.{TestChecker, new_checker, handle_end}
use check_protocols.TestChecker.Conforms.{consume, Advances}
use check_protocols.TestChecker.Sound.{conforms, Outcome, handle_end-Outcome, conforms-Verdict}
use check_protocols.TestSpec.{Test}
use check_protocols.Tracer.{Tracer, new_tracer, World, resume, Event, trace}
use check_protocols.Tracer.Followed.{mocked_commands, ByOthers, FollowsOthers, checker_mock-Keeps}
use check_protocols.Tracer.Kept.{HoldsAtEnd, trace-Holds}
use check_protocols.Tracer.Logged.{logged, forget_log, trace-logged}
use check_protocols.Tracer.Mocks.{checker_mock, checker_end}
use check_protocols.Tracer.Run.{
  child_error, fork_with_child_errors, Output, Run, start_world, relay_streams, run_against_mock,
}

module _ (E : Platform) (P : Ptrace) where
  open P use {Memory}

  Advances-start : (tc : TestChecker) → Advances E tc [] tc
  unfolding consume
  Advances-start tc = record {
    passing = λ h. h;
    expected = λ h. refl;
    exitcode = refl;
    stdout = refl;
    stderr = refl;
    unmocked = refl;
  }

  fork_inversion :
      {A : Type 0} (child : Option Error) (m : R A) (a : A)
      → fork_with_child_errors child m ≡ ok a
      → m ≡ ok a
  unfolding fork_with_child_errors
  fork_inversion none (ok b) a h = h
  fork_inversion none (err e) a h = absurd (cc)
  fork_inversion (some e) (ok b) a h = absurd (cc)
  fork_inversion (some e) (err f) a h = absurd (cc)
  fork_inversion child panic a h = absurd (cc)
  fork_inversion child diverge a h = absurd (cc)

  -- the end of a checked run: the result is that of `handle_end`
  checker_end_inversion :
      (tc : TestChecker) (fs fs' : Fs) (code : ℤ) (redirector : Redirector) (result : CheckerResult)
      → checker_end E P tc fs code redirector ≡ ok (result, fs')
      → handle_end E tc code redirector ≡ ok result
  unfolding checker_end
  checker_end_inversion tc fs fs' code redirector result h =
      let (r, ended, rest) = bind_inversion (handle_end E tc code redirector) _ (result, fs') h in
      let (fs'', dropped, same_result) =
        bind_inversion (drop_files tc.temporary_executables fs) _ (result, fs') rest in
      ended ∙ ap (λ p. ok p.0) (ok-injective _ _ same_result)

  abbrev with_output : Output → CheckerResult × Fs → R (CheckerResult × Fs × Output)
  with_output output x = ok (x.0, x.1, output)

  finished-pass :
      (r : ℤ × TestChecker × World P) (redirector : Redirector) (fs' : Fs)
      (relayed output' : Output)
      → (checker_end E P r.1 r.2.files r.0 redirector >>= with_output relayed)
        ≡ ok (pass, fs', output')
      → handle_end E r.1 r.0 redirector ≡ ok pass
  finished-pass r redirector fs' relayed output' h =
      let (x, ended, is_x) =
        bind_inversion (checker_end E P r.1 r.2.files r.0 redirector) _ (pass, fs', output') h in
      checker_end_inversion r.1 r.2.files x.1 r.0 redirector pass
        (ended ∙ ap (λ (p : CheckerResult × Fs × Output). ok (p.0, x.1)) (ok-injective _ _ is_x))

  -- the conclusion, for the log of a run
  logged_run-conforms :
      (start tc : TestChecker) (log : List (ℕ × Command)) (world world' : World P)
      (events : List (Event P)) (tracer : Tracer) (number : Syscall → ℕ) (fuel : ℕ) (code : ℤ)
      (redirector : Redirector)
      → trace P (logged P (checker_mock E P)) number fuel tracer (start, []) world events
        ≡ ok (code, (tc, log), world')
      → handle_end E tc code redirector ≡ ok pass
      → (conforms E start.test (mocked_commands E start.unmocked_commands log) code redirector
          ≡ true)
        × ByOthers tracer.tracee_pid log
  unfolding is_pass mocked_commands
  logged_run-conforms start tc log world world' events tracer number fuel code redirector traced
        ended =
      let M = logged P (checker_mock E P) in
      let (follows, by_others) : FollowsOthers E P start tracer.tracee_pid (tc, log) =
        Returns-ok (HoldsAtEnd P M number fuel (FollowsOthers E P start tracer.tracee_pid)) _
          (code, (tc, log), world')
          (trace-Holds P M number fuel tracer.tracee_pid (FollowsOthers E P start tracer.tracee_pid)
            (checker_mock-Keeps E P start tracer.tracee_pid number fuel) events tracer (start, [])
            world refl (Advances-start start, tt))
          traced in
      let outcome =
        Returns-ok (Outcome E tc code redirector) _ pass (handle_end-Outcome E tc code redirector)
          ended in
      let (passing, c) =
        conforms-Verdict E start tc (mocked_commands E start.unmocked_commands log) code redirector
          pass follows outcome refl in
      (c, by_others)

  -- A run of a script that passes has made the commands of the test: of the commands that the checker
  -- is called with, which stand in the log with their processes in the order of the events of the
  -- run, those that are not exempted match the steps one by one and to the end. None is of the
  -- process of the script itself. The exit code of the script and its captured streams are those of
  -- the test.
  pub run_against_mock-conforms :
      (number : Syscall → ℕ) (fuel : ℕ) (context : Context) (script_run : Run P)
      (interpreter : Option Bytes) (program : Bytes) (args : List Bytes)
      (env : List (Bytes × Bytes)) (capture : Capture) (test : Test)
      (unmocked_commands : List Bytes) (fs fs' : Fs) (output output' : Output)
      → run_against_mock P
          (checker_mock E P)
          number
          fuel
          script_run
          interpreter
          program
          args
          env
          capture
          (new_checker context test unmocked_commands)
          (checker_end E P)
          fs
          output
        ≡ ok (pass, fs', output')
      → (code : ℤ) × (tc : TestChecker) × (log : List (ℕ × Command)) × (world' : World P) × (trace P
            (logged P (checker_mock E P))
            number
            fuel
            (new_tracer script_run.tracee_pid)
            (new_checker context test unmocked_commands, [])
            (start_world P script_run fs)
            script_run.events
          ≡ ok (code, (tc, log), world'))
        × (conforms E test
              (mocked_commands E unmocked_commands log)
              code
              (relay_streams P script_run capture output).0
            ≡ true)
        × ByOthers script_run.tracee_pid log
  unfolding run_against_mock new_checker new_tracer
  run_against_mock-conforms number fuel context script_run interpreter program args env capture test
        unmocked_commands fs fs' output output' h =
      let start = new_checker context test unmocked_commands in
      let world = start_world P script_run fs in
      let tracer = new_tracer script_run.tracee_pid in
      let parent =
        fork_inversion (child_error fs script_run.failed interpreter program args env) _ _ h in
      let (u, resumed, followed) =
        bind_inversion (resume P world script_run.tracee_pid) _ _ parent in
      let (r, traced, rest) =
        bind_inversion (trace P (checker_mock E P) number fuel tracer start world script_run.events)
          _ _ followed in
      let (s, logged_trace, is_r) =
        bind_inversion
          (trace P (logged P (checker_mock E P)) number fuel tracer (start, []) world
            script_run.events)
          (forget_log P (checker_mock E P) number fuel) r
          (trace-logged P (checker_mock E P) number fuel script_run.events tracer start [] world
            ∙ traced) in
      let same_end = ok-injective _ r is_r in
      let (redirector, relayed) = relay_streams P script_run capture output in
      let ended : handle_end E s.1.0 s.0 redirector ≡ ok pass =
        ap (λ (q : ℤ × TestChecker × World P). handle_end E q.1 q.0 redirector) same_end
        ∙ finished-pass r redirector fs' relayed output' rest in
      let (conforming, by_others) =
        logged_run-conforms start s.1.0 s.1.1 world s.2 script_run.events tracer number fuel s.0
          redirector logged_trace ended in
      (s.0, s.1.0, s.1.1, s.2, logged_trace, conforming, by_others)
