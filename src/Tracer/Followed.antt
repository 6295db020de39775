-- ===== src/Tracer/Followed.antt =====
-- The log of the test checker is what the checker has seen.
use mathlib.Core.Option.{some-injective}
use check_protocols.Prelude.{
  ℕ, ◌≡◌, refl, ap, ◌∙◌, ◌≢◌, inl, inr, Bool, true, false, some, List, [], ◌∷◌, ◌++◌, append-nil,
  arith, ◌==◌, if◌then◌else◌, Bool-cases, All,
}
use check_protocols.Command.{Command}
use check_protocols.Memory.{poke_single_word_string}
use check_protocols.Platform.{Platform}
use check_protocols.Prelude.Text.{Bytes}
use check_protocols.Ptrace.{Ptrace}
use check_protocols.Result.{Returns, Returns-bind, Returns-any}
use check_protocols.Syscall.{Syscall}
use check_protocols.TempFiles.{Fs, next}
use check_protocols.TestChecker.{TestChecker, Registers, handle_step, is_unmocked_command}
use check_protocols.TestChecker.Conforms.{consume, Advances, AfterStep, handle_step-Advances}
use check_protocols.TestChecker.Handlers.{handle_execve_enter}
use check_protocols.TestSpec.{Step}
use check_protocols.Tracer.{World, default_mock}
use check_protocols.Tracer.Kept.{Keeps}
use check_protocols.Tracer.Logged.{logged}
use check_protocols.Tracer.Mocks.{checker_execve_enter, checker_mock}

-- the commands of a log that are not exempted from mocking
unfoldable pub mocked_commands : Platform → List Bytes → List (ℕ × Command) → List Command
mocked_commands E unmocked_commands [] = []
mocked_commands E unmocked_commands ((pid, c) ∷ log) =
    let rest = mocked_commands E unmocked_commands log in
    if is_unmocked_command E unmocked_commands c.executable then rest else c ∷ rest

-- no command of the log is that of this process
abbrev pub ByOthers : ℕ → List (ℕ × Command) → Type 0
ByOthers tracee log = All (λ one. one.0 ≢ tracee) log

ByOthers-append :
    (tracee pid : ℕ) (command : Command) (log : List (ℕ × Command))
    → (tracee == pid) ≡ false
    → ByOthers tracee log
    → ByOthers tracee (log ++ (pid, command) ∷ [])
ByOthers-append tracee pid command [] apart h = (ground arith, tt)
ByOthers-append tracee pid command (one ∷ log) apart (h, hs) =
    (h, ByOthers-append tracee pid command log apart hs)

module _ (E : Platform) where
  consume-append :
      (steps next : List Step) (cs ds : List Command)
      → consume E steps cs ≡ some next
      → consume E steps (cs ++ ds) ≡ consume E next ds
  unfolding consume
  consume-append steps next [] ds h = ap (λ t. consume E t ds) (some-injective steps next h)
  consume-append [] next (c ∷ cs) ds h = absurd (cc)
  consume-append (s ∷ ss) next (c ∷ cs) ds h = ground (arith, consume-append ss next cs ds)

  Advances-append :
      (tc tc' tc'' : TestChecker) (cs ds : List Command)
      → Advances E tc cs tc'
      → Advances E tc' ds tc''
      → Advances E tc (cs ++ ds) tc''
  Advances-append tc tc' tc'' cs ds a b = record {
    passing = λ h. a.passing (b.passing h);
    expected = λ h.
        consume-append tc.test.steps tc'.test.steps cs ds (a.expected (b.passing h)) ∙ b.expected h;
    exitcode = b.exitcode ∙ a.exitcode;
    stdout = b.stdout ∙ a.stdout;
    stderr = b.stderr ∙ a.stderr;
    unmocked = b.unmocked ∙ a.unmocked;
  }

  mocked_commands-append :
      (unmocked : List Bytes) (cs ds : List (ℕ × Command))
      → mocked_commands E unmocked (cs ++ ds)
        ≡ mocked_commands E unmocked cs ++ mocked_commands E unmocked ds
  unfolding mocked_commands
  mocked_commands-append unmocked [] ds = refl
  mocked_commands-append unmocked ((pid, c) ∷ cs) ds =
      elim (Bool-cases (is_unmocked_command E unmocked c.executable)) [
        | inl e ↦ rw e (mocked_commands-append unmocked cs ds)
        | inr e ↦ rw e (ap (λ l. c ∷ l) (mocked_commands-append unmocked cs ds))
      ]

  -- what the log of a checker tells about the checker
  abbrev pub Follows : TestChecker → TestChecker × List (ℕ × Command) → Type 0
  Follows start s = Advances E start (mocked_commands E start.unmocked_commands s.1) s.0

  same_exemption :
      (tc start : TestChecker) (executable : Bytes) (b : Bool)
      → tc.unmocked_commands ≡ start.unmocked_commands
      → is_unmocked_command E start.unmocked_commands executable ≡ b
      → is_unmocked_command E tc.unmocked_commands executable ≡ b
  same_exemption tc start executable b e h = ap (λ l. is_unmocked_command E l executable) e ∙ h

  handle_execve_enter-Advances :
      (P : Ptrace) (start tc : TestChecker) (pid : ℕ) (fs : Fs) (m : P.Memory)
      (registers : Registers) (executable : Bytes) (arguments : List Bytes)
      (log : List (ℕ × Command))
      → Follows start (tc, log)
      → Returns
          (λ (r : TestChecker × Fs × P.Memory).
            Follows start
              (r.0, log ++ (pid, record { executable = executable; arguments = arguments }) ∷ []))
          (handle_execve_enter E P tc fs m registers executable arguments)
  unfolding handle_execve_enter mocked_commands
  handle_execve_enter-Advances P start tc pid fs m registers executable arguments log follows =
      let c : Command = record { executable = executable; arguments = arguments } in
      let Q : TestChecker × Fs × P.Memory → Type 0 =
        λ r. Follows start (r.0, log ++ (pid, c) ∷ []) in
      elim (Bool-cases (is_unmocked_command E start.unmocked_commands executable)) [
        | inl e ↦ rw (same_exemption tc start executable true follows.unmocked e) (
            rw
              (
                mocked_commands-append start.unmocked_commands log ((pid, c) ∷ []),
                mocked_commands,
                e,
              )
              (rw (append-nil (mocked_commands E start.unmocked_commands log)) follows))
        | inr e ↦ rw (same_exemption tc start executable false follows.unmocked e) (
            Returns-bind (AfterStep E tc c) Q (handle_step E tc fs c) _
              (handle_step-Advances E tc fs c)
              λ r a.
                Returns-bind (λ m. Unit) Q (poke_single_word_string P m registers.rdi r.0) _
                  (Returns-any _)
                  λ m' _.
                    rw
                      (
                        mocked_commands-append start.unmocked_commands log ((pid, c) ∷ []),
                        mocked_commands,
                        e,
                      )
                      (Advances-append start tc r.1 (mocked_commands E start.unmocked_commands log)
                        (c ∷ []) follows a))
      ]

module _ (E : Platform) (P : Ptrace) where
  open P use {Memory}

  checker_execve_enter-Follows :
      (start tc : TestChecker) (world : World P) (pid : ℕ) (registers : Registers)
      (executable : Bytes) (arguments : List Bytes) (log : List (ℕ × Command))
      → Follows E start (tc, log)
      → Returns
          (λ (r : TestChecker × World P).
            Follows E start
              (r.0, log ++ (pid, record { executable = executable; arguments = arguments }) ∷ []))
          (checker_execve_enter E P tc world pid registers executable arguments)
  unfolding checker_execve_enter
  checker_execve_enter-Follows start tc world pid registers executable arguments log follows =
      let c : Command = record { executable = executable; arguments = arguments } in
      Returns-bind (λ (r : TestChecker × Fs × Memory). Follows E start (r.0, log ++ (pid, c) ∷ []))
        (λ (r : TestChecker × World P). Follows E start (r.0, log ++ (pid, c) ∷ []))
        (handle_execve_enter E P tc world.files (world.memory pid) registers executable arguments) _
        (handle_execve_enter-Advances E P start tc pid world.files (world.memory pid) registers
          executable arguments log follows)
        (λ r f. f)

  -- what the log of a checker tells, where the script is this process
  abbrev pub FollowsOthers :
      (start : TestChecker) (tracee : ℕ) → TestChecker × List (ℕ × Command) → Type 0
  FollowsOthers start tracee s = Follows E start s × ByOthers tracee s.1

  pub checker_mock-Keeps :
      (start : TestChecker) (tracee : ℕ) (number : Syscall → ℕ) (fuel : ℕ)
      → Keeps P (logged P (checker_mock E P)) number fuel tracee (FollowsOthers start tracee)
  unfolding logged checker_mock default_mock
  checker_mock-Keeps start tracee number fuel = record {
    execve = λ s world pid registers executable arguments apart follows.
        let c : Command = record { executable = executable; arguments = arguments } in
        Returns-bind (λ (r : TestChecker × World P). Follows E start (r.0, s.1 ++ (pid, c) ∷ []))
          (λ (r : (TestChecker × List (ℕ × Command)) × World P). FollowsOthers start tracee r.0)
          (checker_execve_enter E P s.0 world pid registers executable arguments) _
          (checker_execve_enter-Follows start s.0 world pid registers executable arguments s.1
            follows.0)
          (λ r f. (f, ByOthers-append tracee pid c s.1 apart follows.1));
    exited = λ s world pid code follows. follows;
  }
