-- ===== src/Tracer/Kept.antt =====
-- What the loop of the tracer keeps of a mock.
use check_protocols.Prelude.{
  ℕ, ◌≡◌, refl, sym, ap, ◌∙◌, inl, inr, Bool, true, false, not, ◌&&◌, none, some, List, [], ◌∷◌,
  ◌==◌, Bool-cases, Option-cases,
}
use check_protocols.CheckerResult.{exitcode}
use check_protocols.Memory.{peek_string, peek_string_array}
use check_protocols.Prelude.Int.{ℤ}
use check_protocols.Prelude.Text.{Bytes}
use check_protocols.Ptrace.{Ptrace}
use check_protocols.Result.{Returns, Returns-bind, Returns-any}
use check_protocols.Syscall.{Syscall, sys_stat, sys_execve, sys_getcwd}
use check_protocols.Syscall.Code.{same}
use check_protocols.Syscall.Named.{from}
use check_protocols.TestChecker.{Registers}
use check_protocols.Tracer.{
  SyscallStop, enter, exit, Tracer, entered, update_syscall_state, WaitStatus, exited,
  ptrace_syscall, other, World, SyscallMock, get_registers, resume, Event, execve_entered,
  getcwd_exited, stat_exited, handle_syscall, handle_wait_status, trace,
}

second_guard : (b c : Bool) → (b && not c) ≡ true → c ≡ false
second_guard true true h = absurd (cc)
second_guard true false h = refl
second_guard false c h = absurd (cc)

abbrev SameTracee : Tracer → SyscallStop × Tracer → Type 0
SameTracee tracer t = t.1.tracee_pid ≡ tracer.tracee_pid

update_syscall_state-SameTracee :
    (tracer : Tracer) (pid : ℕ) (syscall : Syscall)
    → Returns (SameTracee tracer) (update_syscall_state tracer pid syscall)
unfolding update_syscall_state
update_syscall_state-SameTracee tracer pid syscall =
    elim (Option-cases (entered tracer.entered_syscalls pid)) [
      | inl e ↦ rw (e, Returns) refl
      | inr (old, e) ↦ elim (Bool-cases (same old syscall)) [
        | inl f ↦ rw (e, f, Returns) refl
        | inr f ↦ rw (e, f, Returns) tt
      ]
    ]

module _ (P : Ptrace) where
  open P use {Memory}

  module _ {Mock : Type 0} (M : SyscallMock P Mock) (number : Syscall → ℕ) (fuel : ℕ) where
    -- what holds of the mock in these results
    abbrev Holds : (Mock → Type 0) → Mock × World P → Type 0
    Holds I s = I s.0

    abbrev HoldsBehind : ℕ → (Mock → Type 0) → Tracer × Mock × World P → Type 0
    HoldsBehind tracee I s = (s.0.tracee_pid ≡ tracee) × I s.1

    abbrev pub HoldsAtEnd : (Mock → Type 0) → ℤ × Mock × World P → Type 0
    HoldsAtEnd I s = I s.1

    -- The two handlers that change a mock keep `I`, where no command is that of the process `tracee`.
    pub record Keeps (tracee : ℕ) (I : Mock → Type 0) : Type 0 where
      pub execve :
          (mock : Mock) (world : World P) (pid : ℕ) (registers : Registers) (executable : Bytes)
          (arguments : List Bytes)
          → (tracee == pid) ≡ false
          → I mock
          → Returns
              (λ (s : Mock × World P). I s.0)
              (M.handle_execve_enter mock world pid registers executable arguments)
      pub exited :
          (mock : Mock) (world : World P) (pid : ℕ) (exitcode : ℤ)
          → I mock
          → Returns (λ (s : Mock × World P). I s.0) (M.handle_exited mock world pid exitcode)

    module _ (tracee : ℕ) (I : Mock → Type 0) (keeps : Keeps tracee I) where
      execve_entered-Holds :
          (mock : Mock) (world : World P) (pid : ℕ) (registers : Registers)
          → (tracee == pid) ≡ false
          → I mock
          → Returns (Holds I) (execve_entered P M number fuel mock world pid registers)
      unfolding execve_entered
      execve_entered-Holds mock world pid registers apart h =
          Returns-bind (λ b. Unit) (Holds I) (peek_string P fuel (world.memory pid) registers.rdi) _
            (Returns-any _)
            λ executable _.
              Returns-bind (λ b. Unit) (Holds I)
                (peek_string_array P fuel (world.memory pid) registers.rsi) _ (Returns-any _)
                λ arguments _. keeps.execve mock world pid registers executable arguments apart h

      stat_exited-Holds :
          (mock : Mock) (world : World P) (pid : ℕ) (registers : Registers)
          → I mock
          → Returns (Holds I) (stat_exited P M number fuel mock world pid registers)
      unfolding stat_exited
      stat_exited-Holds mock world pid registers h =
          Returns-bind (λ b. Unit) (Holds I) (peek_string P fuel (world.memory pid) registers.rdi) _
            (Returns-any _)
            λ filename _.
              Returns-bind (λ w. Unit) (Holds I)
                (M.handle_stat_exit mock world pid registers filename) _ (Returns-any _) (λ w _. h)

      getcwd_exited-Holds :
          (mock : Mock) (world : World P) (pid : ℕ) (registers : Registers)
          → I mock
          → Returns (Holds I) (getcwd_exited P M number fuel mock world pid registers)
      unfolding getcwd_exited
      getcwd_exited-Holds mock world pid registers h =
          Returns-bind (λ w. Unit) (Holds I) (M.handle_getcwd_exit mock world pid registers) _
            (Returns-any _) (λ w _. h)

      handle_syscall-Holds :
          (tracer : Tracer) (mock : Mock) (world : World P) (pid : ℕ) (stop : SyscallStop)
          (syscall : Syscall) (registers : Registers)
          → tracer.tracee_pid ≡ tracee
          → I mock
          → Returns
              (Holds I)
              (handle_syscall P M number fuel tracer mock world pid stop syscall registers)
      unfolding handle_syscall
      handle_syscall-Holds tracer mock world pid enter syscall registers script h =
          elim (Bool-cases (same syscall sys_execve && not (tracer.tracee_pid == pid))) [
            | inl e ↦ rw e (
                execve_entered-Holds mock world pid registers
                  (ap (λ n. n == pid) (sym script) ∙ second_guard (same syscall sys_execve) _ e) h)
            | inr e ↦ rw e h
          ]
      handle_syscall-Holds tracer mock world pid exit syscall registers script h =
          elim (Bool-cases (same syscall sys_getcwd)) [
            | inl e ↦ rw e (getcwd_exited-Holds mock world pid registers h)
            | inr e ↦ elim (Bool-cases (same syscall sys_stat)) [
              | inl f ↦ rw (e, f) (stat_exited-Holds mock world pid registers h)
              | inr f ↦ rw (e, f) h
            ]
          ]

      handle_wait_status-Holds :
          (tracer : Tracer) (mock : Mock) (world : World P) (status : WaitStatus)
          → tracer.tracee_pid ≡ tracee
          → I mock
          → Returns
              (HoldsBehind tracee I)
              (handle_wait_status P M number fuel tracer mock world status)
      unfolding handle_wait_status
      handle_wait_status-Holds tracer mock world (exited pid exitcode) script h = (script, h)
      handle_wait_status-Holds tracer mock world (other pid) script h = (script, h)
      handle_wait_status-Holds tracer mock world (ptrace_syscall pid) script h =
          Returns-bind (λ r. Unit) (HoldsBehind tracee I) (get_registers P world pid) _
            (Returns-any _)
            λ registers _.
              Returns-bind (SameTracee tracer) (HoldsBehind tracee I)
                (update_syscall_state tracer pid (from number registers.orig_rax)) _
                (update_syscall_state-SameTracee tracer pid (from number registers.orig_rax))
                λ t kept.
                  Returns-bind (Holds I) (HoldsBehind tracee I)
                    (handle_syscall P M number fuel _ _ _ _ _ _ _) _
                    (handle_syscall-Holds t.1 mock world pid t.0 (from number registers.orig_rax)
                      registers (kept ∙ script) h)
                    (λ s k. (kept ∙ script, k))

      -- Whatever the handlers of a mock keep, the loop of the tracer keeps, and it gives them no command
      -- of the script itself.
      pub trace-Holds :
          (events : List (Event P)) (tracer : Tracer) (mock : Mock) (world : World P)
          → tracer.tracee_pid ≡ tracee
          → I mock
          → Returns (HoldsAtEnd I) (trace P M number fuel tracer mock world events)
      unfolding trace
      trace-Holds [] tracer mock world script h = tt
      trace-Holds ((before, exited pid exitcode) ∷ events) tracer mock world script h =
          Returns-bind (HoldsBehind tracee I) (HoldsAtEnd I)
            (handle_wait_status P M number fuel tracer mock (before world) (exited pid exitcode)) _
            (handle_wait_status-Holds tracer mock (before world) (exited pid exitcode) script h)
            λ s k. (elim (Bool-cases (s.0.tracee_pid == pid)) [
              | inl e ↦ rw (e, Returns) k.1
              | inr e ↦
                  rw (e, Returns)
                    (Returns-bind (Holds I) (HoldsAtEnd I) (M.handle_exited s.1 s.2 pid exitcode) _
                      (keeps.exited s.1 s.2 pid exitcode k.1)
                      λ t l. trace-Holds events s.0 t.0 t.1 k.0 l)
            ])
      trace-Holds ((before, ptrace_syscall pid) ∷ events) tracer mock world script h =
          Returns-bind (HoldsBehind tracee I) (HoldsAtEnd I)
            (handle_wait_status P M number fuel tracer mock (before world) (ptrace_syscall pid)) _
            (handle_wait_status-Holds tracer mock (before world) (ptrace_syscall pid) script h)
            λ s k.
              Returns-bind (λ u. Unit) (HoldsAtEnd I) (resume P s.2 pid) _ (Returns-any _)
                λ u _. trace-Holds events s.0 s.1 s.2 k.0 k.1
      trace-Holds ((before, other (some pid)) ∷ events) tracer mock world script h =
          Returns-bind (HoldsBehind tracee I) (HoldsAtEnd I)
            (handle_wait_status P M number fuel tracer mock (before world) (other (some pid))) _
            (handle_wait_status-Holds tracer mock (before world) (other (some pid)) script h)
            λ s k.
              Returns-bind (λ u. Unit) (HoldsAtEnd I) (resume P s.2 pid) _ (Returns-any _)
                λ u _. trace-Holds events s.0 s.1 s.2 k.0 k.1
      trace-Holds ((before, other none) ∷ events) tracer mock world script h = tt
