-- ===== src/TestChecker/Substitute.antt =====
-- The command that a process executes in place of its own: the mock of the step.
use check_protocols.TempFiles
use check_protocols.Prelude.{
  ℕ, ◌+◌, ◌/◌, ◌^◌, ◌<◌, ◌≡◌, refl, true, false, List, ◌∷◌, ◌++◌, arith, ◌==◌, length, any, All,
}
use check_protocols.ArgumentParser.{newline}
use check_protocols.Command.{Command}
use check_protocols.CommandMatcher.{matches}
use check_protocols.ExecutableMock.{
  Context, exists, mock_contents, create_mock_executable, run, run-create_mock_executable,
}
use check_protocols.Memory.{peek_string, poke_single_word_string}
use check_protocols.Memory.Poke.{Writable, Untouched, peek_string-poke_string}
use check_protocols.Memory.Strings.{IsTextByte}
use check_protocols.Platform.{Config, Platform}
use check_protocols.Prelude.Text.{Bytes}
use check_protocols.Ptrace.{Ptrace}
use check_protocols.Result.{ok}
use check_protocols.Syscall.Code.{same}
use check_protocols.TempFiles.{Fs, ShortTempFile, mk_digit_iter}
use check_protocols.TempFiles.Characters.{new-All}
use check_protocols.TempFiles.Create.{new_lem}
use check_protocols.TestChecker.{TestChecker, Registers, is_unmocked_command}
use check_protocols.TestChecker.Complete.{Roomy, handle_step-match}
use check_protocols.TestChecker.Handlers.{handle_execve_enter}
use check_protocols.TestSpec.{Step}

module _ (E : Platform) (P : Ptrace) where
  open E use {which}
  open P use {Memory}

  -- What the kernel finds when it goes on with the execve of the process.
  pub record Redirected (s : Step) (m : Memory) (rdi : ℕ) (fs' : Fs) (m' : Memory) : Type 0 where
    pub path : Bytes
    pub read_back : peek_string P 1 m' rdi ≡ ok path
    pub mocks : (stdout : Bytes) → run E fs' stdout path ≡ ok (stdout ++ s.stdout, s.exitcode)
    pub untouched : Untouched P m m' rdi 8

  poke-Redirected :
      (s : Step) (m : Memory) (rdi : ℕ) (contents : Bytes) (fs fs' : Fs) (file : ShortTempFile)
      (context : Context)
      → any (λ c. c == newline) context.scriptkeeper_executable ≡ false
      → create_mock_executable E context fs (record { stdout = s.stdout; exitcode = s.exitcode })
        ≡ ok contents
      → TempFiles.new contents fs ≡ ok (file, fs')
      → rdi + 8 < 2 ^ 64
      → Writable P 1 m rdi
      → (m' : Memory) × (poke_single_word_string P m rdi file.path ≡ ok m')
        × Redirected s m rdi fs' m'
  unfolding poke_single_word_string mk_digit_iter
  poke-Redirected s m rdi contents fs fs' file context plain created written high writable =
      let (short, free, there, others) = new_lem contents fs fs' file written in
      let text : All IsTextByte file.path =
        new-All IsTextByte contents fs fs' file (omega arith) (omega arith) written in
      let one : length file.path / 8 + 1 ≡ 1 = rw short refl in
      let (m', poked, read, same) =
        peek_string-poke_string P m rdi file.path 8 1 text (omega (arith, short))
          (rw one (omega (arith, high))) (rw one writable) (rw one (omega arith)) in
      (
        m',
        poked,
        record {
          path = file.path;
          read_back = read;
          mocks = λ stdout.
              run-create_mock_executable E context
                (record { stdout = s.stdout; exitcode = s.exitcode }) fs fs' file.path contents
                stdout plain created there;
          untouched = (rw one at same);
        },
      )

  -- A command that matches the next step is replaced by its mock: when the process goes on with
  -- its execve, the path that it finds in its memory is that of a file whose run adds the output
  -- of the step to standard output and exits with its exit code, and no other word of the memory
  -- changed. This holds where the command is not exempted, the scriptkeeper executable exists and
  -- has no newline in its path, a temporary file can be written, and the word at `rdi` can be written
  -- and below 2 ^ 64.
  pub handle_execve_enter-Redirected :
      (tc : TestChecker) (fs : Fs) (m : Memory) (registers : Registers) (received : Command)
      (s : Step) (steps : List Step)
      → tc.test.steps ≡ s ∷ steps
      → matches which s.command_matcher received ≡ true
      → is_unmocked_command E tc.unmocked_commands received.executable ≡ false
      → exists fs tc.context.scriptkeeper_executable ≡ true
      → any (λ c. c == newline) tc.context.scriptkeeper_executable ≡ false
      → Roomy 1 fs
      → registers.rdi + 8 < 2 ^ 64
      → Writable P 1 m registers.rdi
      → (tc' : TestChecker) × (fs' : Fs) × (m' : Memory) × (handle_execve_enter E P tc fs m
            registers received.executable received.arguments
          ≡ ok (tc', fs', m'))
        × Redirected s m registers.rdi fs' m'
  unfolding handle_execve_enter Roomy
  handle_execve_enter-Redirected tc fs m registers received s steps left matching mocked there plain
        room high writable =
      let config : Config = record { stdout = s.stdout; exitcode = s.exitcode } in
      let (file, fs', written, more) = room (mock_contents E tc.context config) in
      let (tc', step, ready) =
        handle_step-match E s steps tc fs fs' received file left matching there written in
      let created : create_mock_executable E tc.context fs config
          ≡ ok (mock_contents E tc.context config) =
        unfold create_mock_executable in rw there refl in
      let (m', poked, redirected) =
        poke-Redirected s m registers.rdi (mock_contents E tc.context config) fs fs' file tc.context
          plain created written high writable in
      (tc', fs', m', rw (mocked, step, poked) refl, redirected)
