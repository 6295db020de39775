-- ===== src/Recorder/ReadBack.antt =====
-- A test that was recorded, written and read back.
use check_protocols.Prelude.{
  ◌≡◌, refl, ap, ◌∙◌, inl, inr, true, false, none, some, List, [], ◌∷◌, map, if◌then◌else◌,
  Bool-cases, All,
}
use check_protocols.Command.{Command, same_texts_refl, compare}
use check_protocols.CommandMatcher.{matches}
use check_protocols.ExecutablePath.{canonicalize, compare-canonicalize}
use check_protocols.Platform.{Platform}
use check_protocols.Prelude.Int.{ℤ, pos, int_eq, int_eq_iff}
use check_protocols.Recorder.{Recorder, empty, recorded_step, record_end}
use check_protocols.Recorder.Replay.{
  ProcessEvent, record_events, entered_commands, runs_of, NoOverlap, commands_of, recorded_steps,
  commands_of-runs_of, record_events-steps,
}
use check_protocols.Result.{ok, ◌>>=◌}
use check_protocols.StdioRedirecting.{Redirector}
use check_protocols.TestChecker.Conforms.{consume}
use check_protocols.TestChecker.Sound.{output_conforms, all_consumed, conforms}
use check_protocols.TestSpec.{Test, new_test, new_tests}
use check_protocols.TestSpec.ParseTests.{parse}
use check_protocols.TestSpec.RoundTrip.{forget_test, InRange, IsWritable}
use check_protocols.TestSpec.Serialize.{serialize_tests}
use check_protocols.TestSpec.Steps.{forget_step, IsWritableStep}
use check_protocols.TestSpec.WholeFile.{forget_tests, parse-serialize_tests}
use check_protocols.Yaml.{YamlCrate}
use check_protocols.YamlExt.Integers.{InI32}

module _ (E : Platform) (Y : YamlCrate) where
  open E use {which, compile_regex}

  compare-canonical :
      (c : Command)
      → compare which
          (record { executable = canonicalize which c.executable; arguments = c.arguments })
          c
        ≡ true
  unfolding compare
  compare-canonical c = rw (compare-canonicalize which c.executable) (same_texts_refl c.arguments)

  consume-forget_step :
      (runs : List (Command × ℤ))
      → consume E (map (forget_step which) (recorded_steps runs)) (commands_of runs) ≡ some []
  unfolding consume recorded_steps commands_of recorded_step matches forget_step
  consume-forget_step [] = refl
  consume-forget_step ((c, code) ∷ runs) = rw (compare-canonical c) (consume-forget_step runs)

  -- the test of a script with these events
  pub recorded_test : List ProcessEvent → ℤ → Test
  recorded_test events code = record_end (record_events E empty events) code

  recorded_test_exitcode :
      (recorder : Recorder) (code : ℤ) (test : Test)
      → recorder.test ≡ test
      → test.exitcode ≡ none
      → record_end recorder code
        ≡ record test { exitcode = if int_eq code (pos 0) then none else some code }
  unfolding record_end
  recorded_test_exitcode recorder code test is_test no_code =
      elim (Bool-cases (int_eq code (pos 0))) [
        | inl z ↦ rw (z, is_test) (ap (λ o. record test { exitcode = o }) no_code)
        | inr z ↦ rw (z, is_test) refl
      ]

  recorded_test_fields :
      (events : List ProcessEvent) (code : ℤ)
      → recorded_test events code ≡ record (new_test (recorded_steps (runs_of none events))) {
        exitcode = if int_eq code (pos 0) then none else some code;
      }
  unfolding recorded_test empty new_test
  recorded_test_fields events code =
      recorded_test_exitcode (record_events E empty events) code
        (new_test (recorded_steps (runs_of none events)))
        (record_events-steps E events (new_test []) none) refl

  InRange_exitcode :
      (code : ℤ) → InI32 code → InRange (if int_eq code (pos 0) then none else some code)
  InRange_exitcode code h = elim (Bool-cases (int_eq code (pos 0))) [
    | inl z ↦ rw z tt
    | inr z ↦ rw z h
  ]

  recorded_test-IsWritable :
      (events : List ProcessEvent) (code : ℤ)
      → All (IsWritableStep which) (recorded_steps (runs_of none events))
      → InI32 code
      → IsWritable which Y (recorded_test events code)
  recorded_test-IsWritable events code steps range = rw (recorded_test_fields events code) (record {
    steps = unfold new_test in steps;
    arguments = unfold new_test in tt;
    keys = unfold new_test in tt;
    texts = unfold new_test in tt;
    in_range = unfold new_test in InRange_exitcode code range;
  })

  conforms-forget_test :
      (events : List ProcessEvent) (code : ℤ) (redirector : Redirector)
      → conforms E
          (forget_test which (recorded_test events code))
          (commands_of (runs_of none events))
          code
          redirector
        ≡ true
  unfolding conforms output_conforms all_consumed forget_test new_test
  conforms-forget_test events code redirector =
      rw (recorded_test_fields events code) (elim (Bool-cases (int_eq code (pos 0))) [
        | inl z ↦ rw (z, consume-forget_step (runs_of none events), all_consumed, z)
        | inr z ↦ rw (
          z,
          consume-forget_step (runs_of none events),
          all_consumed,
          (int_eq_iff code code).1 refl,
        )
      ])

  -- A script is recorded, and the test is written and read back: the test that is read accepts the
  -- commands and the exit code that were recorded, whatever was captured of the outputs. Each
  -- command can be written, the exit code has 32 bits, and behind each command a process exits before
  -- the next command is entered and before the script ends.
  pub conforms-read_back :
      (events : List ProcessEvent) (code : ℤ) (redirector : Redirector)
      → NoOverlap false events
      → All (IsWritableStep which) (recorded_steps (runs_of none events))
      → InI32 code
      → (test : Test) × ((serialize_tests E Y (new_tests (recorded_test events code ∷ []))
            >>= parse compile_regex)
          ≡ ok (new_tests (test ∷ [])))
        × (conforms E test (entered_commands events) code redirector ≡ true)
  conforms-read_back events code redirector apart steps range = (
    forget_test which (recorded_test events code),
    parse-serialize_tests E Y (new_tests (recorded_test events code ∷ []))
          (unfold new_tests in (recorded_test-IsWritable events code steps range, tt))
          (unfold new_tests in tt)
        ∙ unfold forget_tests new_tests in refl,
    rw (← commands_of-runs_of events apart) (conforms-forget_test events code redirector),
  )
