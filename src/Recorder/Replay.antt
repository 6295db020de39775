-- ===== src/Recorder/Replay.antt =====
-- A recorded test accepts the run that it was recorded from, and the check of a test with a hole.
use check_protocols.Prelude.{
  ◌≡◌, refl, sym, ap, ◌∙◌, inl, inr, Bool, true, false, Option, none, some, List, [], ◌∷◌, ◌++◌,
  append_assoc, append-nil, Bool-cases,
}
use check_protocols.CheckerResult.{pass}
use check_protocols.Command.{Command, same_texts_refl, compare}
use check_protocols.CommandMatcher.{matches}
use check_protocols.ExecutablePath.{compare_executables_refl}
use check_protocols.Platform.{Platform}
use check_protocols.Prelude.Int.{ℤ, pos, int_eq, int_eq_iff}
use check_protocols.Ptrace.{Ptrace}
use check_protocols.Recorder.{
  Recorder, empty, new_recorder, recorded_step, push_step, record_command, record_exited,
  record_end, record_execve, HoleRecorder, checking, recording, hole_execve_done, hole_execve_enter,
  hole_exited,
}
use check_protocols.Result.{R, ok, ◌>>=◌}
use check_protocols.StdioRedirecting.{Redirector}
use check_protocols.TempFiles.{Fs, drop_files}
use check_protocols.TestChecker.{TestChecker, Registers, is_unmocked_command}
use check_protocols.TestChecker.Conforms.{consume}
use check_protocols.TestChecker.Sound.{output_conforms, all_consumed, conforms}
use check_protocols.TestSpec.{Step, Test, new_test}

-- What a recorder is told of a run: a command is about to be executed, or a process has exited. The
-- processes of a script may run at the same time.
pub data ProcessEvent : Type 0 where
  entered_command : Command → ProcessEvent
  exited_with : ℤ → ProcessEvent

unfoldable pub record_events : Platform → Recorder → List ProcessEvent → Recorder
record_events E recorder [] = recorder
record_events E recorder (entered_command command ∷ events) =
    record_events E (record_execve E recorder command) events
record_events E recorder (exited_with code ∷ events) =
    record_events E (record_exited recorder code) events

unfoldable pub entered_commands : List ProcessEvent → List Command
entered_commands [] = []
entered_commands (entered_command command ∷ events) = command ∷ entered_commands events
entered_commands (exited_with code ∷ events) = entered_commands events

-- The command that was entered last, and has no exit code yet, has that of the next exit.
unfoldable pub runs_of : Option Command → List ProcessEvent → List (Command × ℤ)
runs_of pending [] = []
runs_of pending (entered_command command ∷ events) = runs_of (some command) events
runs_of none (exited_with code ∷ events) = runs_of none events
runs_of (some command) (exited_with code ∷ events) = (command, code) ∷ runs_of none events

-- Behind each command a process exits before the next command and before the end. The Boolean says
-- that a command waits for this. Processes that execute nothing may exit at any time.
abbrev pub NoOverlap : Bool → List ProcessEvent → Type 0
NoOverlap false [] = Unit
NoOverlap true [] = ⊥
NoOverlap false (entered_command command ∷ events) = NoOverlap true events
NoOverlap true (entered_command command ∷ events) = ⊥
NoOverlap _ (exited_with code ∷ events) = NoOverlap false events

unfoldable pub commands_of : List (Command × ℤ) → List Command
commands_of [] = []
commands_of ((command, code) ∷ rest) = command ∷ commands_of rest

unfoldable pub recorded_steps : List (Command × ℤ) → List Step
recorded_steps [] = []
recorded_steps ((command, code) ∷ rest) = recorded_step command code ∷ recorded_steps rest

commands_of-runs :
    (events : List ProcessEvent)
    → (NoOverlap false events → commands_of (runs_of none events) ≡ entered_commands events)
      × ((command : Command)
          → NoOverlap true events
          → commands_of (runs_of (some command) events) ≡ command ∷ entered_commands events)
unfolding commands_of runs_of entered_commands
commands_of-runs [] = (λ apart. refl, λ command apart. absurd apart)
commands_of-runs (entered_command c ∷ events) =
    ((commands_of-runs events).1 c, λ command apart. absurd apart)
commands_of-runs (exited_with code ∷ events) =
    let (idle, pending) = commands_of-runs events in
    (idle, λ command apart. ap (λ l. command ∷ l) (idle apart))

pub commands_of-runs_of :
    (events : List ProcessEvent)
    → NoOverlap false events
    → commands_of (runs_of none events) ≡ entered_commands events
commands_of-runs_of events = (commands_of-runs events).0

commands_of-pending :
    (command : Command) (events : List ProcessEvent)
    → NoOverlap true events
    → commands_of (runs_of (some command) events) ≡ command ∷ entered_commands events
commands_of-pending command events = (commands_of-runs events).1 command

module _ (E : Platform) where
  open E use {which}

  compare_refl : (c : Command) → compare which c c ≡ true
  unfolding compare
  compare_refl c = rw (compare_executables_refl which c.executable) (same_texts_refl c.arguments)

  consume-recorded_steps :
      (runs : List (Command × ℤ)) → consume E (recorded_steps runs) (commands_of runs) ≡ some []
  unfolding consume recorded_steps commands_of recorded_step matches
  consume-recorded_steps [] = refl
  consume-recorded_steps ((c, code) ∷ runs) = rw (compare_refl c) (consume-recorded_steps runs)

  -- a recorder of all commands, with the command that has no exit code yet
  abbrev pub waiting : Test → Option Command → Recorder
  waiting test pending = record { test = test; command = pending; unmocked_commands = [] }

  pub record_events-steps :
      (events : List ProcessEvent) (test : Test) (pending : Option Command)
      → (record_events E (waiting test pending) events).test
        ≡ record test { steps = test.steps ++ recorded_steps (runs_of pending events) }
  unfolding record_events record_exited record_execve is_unmocked_command record_command push_step
      recorded_steps runs_of
  record_events-steps [] test pending =
      ap (λ s. record test { steps = s }) (sym (append-nil test.steps))
  record_events-steps (entered_command c ∷ events) test pending =
      record_events-steps events test (some c)
  record_events-steps (exited_with code ∷ events) test none = record_events-steps events test none
  record_events-steps (exited_with code ∷ events) test (some c) =
      record_events-steps events (push_step (recorded_step c code) test) none
      ∙ ap (λ s. record test { steps = s })
          (append_assoc test.steps (recorded_step c code ∷ [])
            (recorded_steps (runs_of none events)))

  conforms-record_end :
      (recorder : Recorder) (runs : List (Command × ℤ)) (code : ℤ) (redirector : Redirector)
      → recorder.test ≡ record (new_test []) { steps = recorded_steps runs }
      → conforms E (record_end recorder code) (commands_of runs) code redirector ≡ true
  unfolding conforms record_end output_conforms all_consumed new_test
  conforms-record_end recorder runs code redirector same_test =
      elim (Bool-cases (int_eq code (pos 0))) [
        | inl z ↦ rw (z, record_end, same_test, consume-recorded_steps runs, all_consumed, z)
        | inr z ↦ rw (
          z,
          record_end,
          same_test,
          consume-recorded_steps runs,
          all_consumed,
          (int_eq_iff code code).1 refl,
        )
      ]

  -- A test that was recorded from scratch accepts the script again: it conforms to the commands and
  -- the exit code that it was recorded from, whatever was captured of the outputs. Behind each
  -- command a process must exit before the next command is entered and before the script ends.
  pub conforms-record_events :
      (events : List ProcessEvent) (code : ℤ) (redirector : Redirector)
      → NoOverlap false events
      → conforms E
          (record_end (record_events E empty events) code)
          (entered_commands events)
          code
          redirector
        ≡ true
  unfolding empty new_test
  conforms-record_events events code redirector apart = rw (← commands_of-runs_of events apart) (
      conforms-record_end (record_events E empty events) (runs_of none events) code redirector
        (record_events-steps events (new_test []) none))

module _ (E : Platform) (P : Ptrace) where
  open P use {Memory}

  -- the same of a recorder of a test with a hole
  unfoldable pub hole_events :
      HoleRecorder → Fs → Memory → Registers → List ProcessEvent → R (HoleRecorder × Fs × Memory)
  hole_events recorder fs m registers [] = ok (recorder, fs, m)
  hole_events recorder fs m registers (entered_command command ∷ events) = do
    (recorder', fs', m') ← hole_execve_enter E P recorder fs m registers command
    hole_events recorder' fs' m' registers events
  hole_events recorder fs m registers (exited_with code ∷ events) =
      hole_events (hole_exited recorder code) fs m registers events

  hole_events-recording :
      (events : List ProcessEvent) (recorder : Recorder) (fs : Fs) (m : Memory)
      (registers : Registers)
      → hole_events (recording recorder) fs m registers events
        ≡ ok (recording (record_events E recorder events), fs, m)
  unfolding hole_events record_events hole_execve_enter hole_exited
  hole_events-recording [] recorder fs m registers = refl
  hole_events-recording (entered_command c ∷ events) recorder fs m registers =
      hole_events-recording events (record_execve E recorder c) fs m registers
  hole_events-recording (exited_with code ∷ events) recorder fs m registers =
      hole_events-recording events (record_exited recorder code) fs m registers

  -- Where the steps of a test with a hole are used up without an error and no command is
  -- exempted, the hole is filled with the commands that follow: they are recorded behind all
  -- steps of the original test, each with the exit code of the next process that exits. Behind each
  -- command a process must exit before the next command is entered and before the script ends. The
  -- mocks of the steps are removed, which must succeed; no other file and no memory of the
  -- processes is touched.
  pub hole_events-filled :
      (checker : TestChecker) (original : Test) (fs fs' : Fs) (m : Memory) (registers : Registers)
      (command : Command) (events : List ProcessEvent)
      → checker.test.steps ≡ []
      → checker.result ≡ pass
      → checker.unmocked_commands ≡ []
      → drop_files checker.temporary_executables fs ≡ ok fs'
      → NoOverlap true events
      → (recorder : Recorder) × (hole_events
            (checking checker original)
            fs
            m
            registers
            (entered_command command ∷ events)
          ≡ ok (recording recorder, fs', m))
        × (recorder.test ≡ record original {
          steps = original.steps ++ recorded_steps (runs_of (some command) events);
        })
        × (commands_of (runs_of (some command) events) ≡ command ∷ entered_commands events)
  unfolding hole_events hole_execve_enter hole_execve_done record_execve is_unmocked_command
      new_recorder
  hole_events-filled checker original fs fs' m registers command events done passing none_unmocked
        dropped apart =
      let recorder = record_events E (waiting E original (some command)) events in
      (
        recorder,
        rw (done, passing, hole_execve_done, dropped, none_unmocked)
            (hole_events-recording events (waiting E original (some command)) fs' m registers),
        record_events-steps E events original (some command),
        commands_of-pending command events apart,
      )
