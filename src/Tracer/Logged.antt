-- ===== src/Tracer/Logged.antt =====
-- A log of the commands that a mock is called with.
use check_protocols.Prelude.{
  ℕ, ◌≡◌, refl, sym, ap, ◌∙◌, inl, inr, Bool, true, false, not, ◌&&◌, none, some, List, [], ◌∷◌,
  ◌++◌, ◌==◌, Bool-cases,
}
use check_protocols.CheckerResult.{exitcode}
use check_protocols.Command.{Command}
use check_protocols.Memory.{peek_string, peek_string_array}
use check_protocols.Prelude.Int.{ℤ}
use check_protocols.Ptrace.{Ptrace}
use check_protocols.Result.{R, ok, ◌>>=◌, bind_assoc, bind_ext, bind_ok}
use check_protocols.Syscall.{Syscall, sys_stat, sys_execve, sys_getcwd}
use check_protocols.Syscall.Code.{same}
use check_protocols.Syscall.Named.{from}
use check_protocols.TestChecker.{Registers}
use check_protocols.Tracer.{
  SyscallStop, enter, exit, Tracer, update_syscall_state, WaitStatus, exited, ptrace_syscall, other,
  World, SyscallMock, get_registers, resume, Event, execve_entered, getcwd_exited, stat_exited,
  handle_syscall, handle_wait_status, trace,
}

bind_elim {ℓ κ} :
    {A : Type ℓ} {B : Type κ} (b : Bool) (x y : R A) (x' y' : R B) (f : A → R B)
    → (x >>= f) ≡ x'
    → (y >>= f) ≡ y'
    → ((elim b [ true ↦ x | false ↦ y ]) >>= f) ≡ (elim b [ true ↦ x' | false ↦ y' ])
bind_elim true x y x' y' f h k = h
bind_elim false x y x' y' f h k = k

module _ (P : Ptrace) where
  open P use {Memory}

  -- a mock that also writes down each command that it handles, and the process
  unfoldable pub logged :
      {Mock : Type 0} → SyscallMock P Mock → SyscallMock P (Mock × List (ℕ × Command))
  logged M = record {
    handle_execve_enter = λ s world pid registers executable arguments. do
      (mock', world') ← M.handle_execve_enter s.0 world pid registers executable arguments
      ok (
        (mock', s.1 ++ (pid, record { executable = executable; arguments = arguments }) ∷ []),
        world',
      );
    handle_exited = λ s world pid exitcode. do
      (mock', world') ← M.handle_exited s.0 world pid exitcode
      ok ((mock', s.1), world');
    handle_getcwd_exit = λ s world pid registers. M.handle_getcwd_exit s.0 world pid registers;
    handle_stat_exit =
        λ s world pid registers filename. M.handle_stat_exit s.0 world pid registers filename;
  }

  module _ {Mock : Type 0} (M : SyscallMock P Mock) (number : Syscall → ℕ) (fuel : ℕ) where
    without_log : (Mock × List (ℕ × Command)) × World P → R (Mock × World P)
    without_log s = ok (s.0.0, s.1)

    abbrev pub forget_log : ℤ × (Mock × List (ℕ × Command)) × World P → R (ℤ × Mock × World P)
    forget_log s = ok (s.0, s.1.0, s.2)

    execve_entered-logged :
        (mock : Mock) (log : List (ℕ × Command)) (world : World P) (pid : ℕ) (registers : Registers)
        → (execve_entered P (logged M) number fuel (mock, log) world pid registers >>= without_log)
          ≡ execve_entered P M number fuel mock world pid registers
    unfolding execve_entered logged without_log
    execve_entered-logged mock log world pid registers =
        bind_assoc (peek_string P fuel (world.memory pid) registers.rdi) _ without_log
        ∙ bind_ext (peek_string P fuel (world.memory pid) registers.rdi) _ _ λ executable.
          bind_assoc (peek_string_array P fuel (world.memory pid) registers.rsi) _ without_log
          ∙ bind_ext (peek_string_array P fuel (world.memory pid) registers.rsi) _ _ λ arguments.
            bind_assoc (M.handle_execve_enter mock world pid registers executable arguments) _
              without_log
            ∙ bind_ok (M.handle_execve_enter mock world pid registers executable arguments)

    getcwd_exited-logged :
        (mock : Mock) (log : List (ℕ × Command)) (world : World P) (pid : ℕ) (registers : Registers)
        → (getcwd_exited P (logged M) number fuel (mock, log) world pid registers >>= without_log)
          ≡ getcwd_exited P M number fuel mock world pid registers
    unfolding getcwd_exited logged without_log
    getcwd_exited-logged mock log world pid registers =
        bind_assoc (M.handle_getcwd_exit mock world pid registers) _ without_log

    stat_exited-logged :
        (mock : Mock) (log : List (ℕ × Command)) (world : World P) (pid : ℕ) (registers : Registers)
        → (stat_exited P (logged M) number fuel (mock, log) world pid registers >>= without_log)
          ≡ stat_exited P M number fuel mock world pid registers
    unfolding stat_exited logged without_log
    stat_exited-logged mock log world pid registers =
        bind_assoc (peek_string P fuel (world.memory pid) registers.rdi) _ without_log
        ∙ bind_ext (peek_string P fuel (world.memory pid) registers.rdi) _ _ λ filename.
          bind_assoc (M.handle_stat_exit mock world pid registers filename) _ without_log

    handle_syscall-logged :
        (tracer : Tracer) (mock : Mock) (log : List (ℕ × Command)) (world : World P) (pid : ℕ)
        (stop : SyscallStop) (syscall : Syscall) (registers : Registers)
        → (handle_syscall P
              (logged M)
              number
              fuel
              tracer
              (mock, log)
              world
              pid
              stop
              syscall
              registers
            >>= without_log)
          ≡ handle_syscall P M number fuel tracer mock world pid stop syscall registers
    unfolding handle_syscall without_log
    handle_syscall-logged tracer mock log world pid enter syscall registers =
        elim (Bool-cases (same syscall sys_execve && not (tracer.tracee_pid == pid))) [
          | inl e ↦ rw e (execve_entered-logged mock log world pid registers)
          | inr e ↦ rw e refl
        ]
    handle_syscall-logged tracer mock log world pid exit syscall registers =
        elim (Bool-cases (same syscall sys_getcwd)) [
          | inl e ↦ rw e (getcwd_exited-logged mock log world pid registers)
          | inr e ↦ elim (Bool-cases (same syscall sys_stat)) [
            | inl f ↦ rw (e, f) (stat_exited-logged mock log world pid registers)
            | inr f ↦ rw (e, f) refl
          ]
        ]

    behind_log : Tracer × (Mock × List (ℕ × Command)) × World P → R (Tracer × Mock × World P)
    behind_log s = ok (s.0, s.1.0, s.2)

    handle_wait_status-logged :
        (tracer : Tracer) (mock : Mock) (log : List (ℕ × Command)) (world : World P)
        (status : WaitStatus)
        → (handle_wait_status P (logged M) number fuel tracer (mock, log) world status
            >>= behind_log)
          ≡ handle_wait_status P M number fuel tracer mock world status
    unfolding handle_wait_status behind_log without_log
    handle_wait_status-logged tracer mock log world (exited pid exitcode) = refl
    handle_wait_status-logged tracer mock log world (other pid) = refl
    handle_wait_status-logged tracer mock log world (ptrace_syscall pid) =
        bind_assoc (get_registers P world pid) _ behind_log
        ∙ bind_ext (get_registers P world pid) _ _ λ registers.
          let syscall = from number registers.orig_rax in
          bind_assoc (update_syscall_state tracer pid syscall) _ behind_log
          ∙ bind_ext (update_syscall_state tracer pid syscall) _ _ λ t.
            bind_assoc
              (handle_syscall P (logged M) number fuel t.1 (mock, log) world pid t.0 syscall
                registers)
              _ behind_log
            ∙ sym (
                bind_assoc
                  (handle_syscall P (logged M) number fuel t.1 (mock, log) world pid t.0 syscall
                    registers)
                  without_log _)
            ∙ ap (λ m. m >>= λ s. ok (t.1, s.0, s.1))
                (handle_syscall-logged t.1 mock log world pid t.0 syscall registers)

    -- one round of the loop, if the rounds behind it agree
    round-logged :
        (tracer : Tracer) (mock : Mock) (log : List (ℕ × Command)) (world : World P)
        (status : WaitStatus)
        (k : Tracer × (Mock × List (ℕ × Command)) × World P
          → R (ℤ × (Mock × List (ℕ × Command)) × World P))
        (l : Tracer × Mock × World P → R (ℤ × Mock × World P))
        → ((s : Tracer × (Mock × List (ℕ × Command)) × World P)
            → (k s >>= forget_log) ≡ l (s.0, s.1.0, s.2))
        → ((handle_wait_status P (logged M) number fuel tracer (mock, log) world status >>= k)
            >>= forget_log)
          ≡ (handle_wait_status P M number fuel tracer mock world status >>= l)
    unfolding behind_log
    round-logged tracer mock log world status k l h =
        let step = handle_wait_status P (logged M) number fuel tracer (mock, log) world status in
        bind_assoc step k forget_log
        ∙ bind_ext step _ _ h
        ∙ sym (bind_assoc step behind_log l)
        ∙ ap (λ m. m >>= l) (handle_wait_status-logged tracer mock log world status)

    handle_exited-logged :
        (mock : Mock) (log : List (ℕ × Command)) (world : World P) (pid : ℕ) (code : ℤ)
        (k : (Mock × List (ℕ × Command)) × World P → R (ℤ × (Mock × List (ℕ × Command)) × World P))
        (l : Mock × World P → R (ℤ × Mock × World P))
        → ((t : Mock × World P) → (k ((t.0, log), t.1) >>= forget_log) ≡ l t)
        → (((logged M).handle_exited (mock, log) world pid code >>= k) >>= forget_log)
          ≡ (M.handle_exited mock world pid code >>= l)
    unfolding logged
    handle_exited-logged mock log world pid code k l h =
        let handled = M.handle_exited mock world pid code in
        let add_log : Mock × World P → R ((Mock × List (ℕ × Command)) × World P) =
          λ t. ok ((t.0, log), t.1) in
        bind_assoc (handled >>= add_log) k forget_log
        ∙ bind_assoc handled add_log (λ a. k a >>= forget_log)
        ∙ bind_ext handled _ l h

    -- The log changes nothing: without it, the result of the loop is that of the mock alone.
    pub trace-logged :
        (events : List (Event P)) (tracer : Tracer) (mock : Mock) (log : List (ℕ × Command))
        (world : World P)
        → (trace P (logged M) number fuel tracer (mock, log) world events >>= forget_log)
          ≡ trace P M number fuel tracer mock world events
    unfolding trace logged
    trace-logged [] tracer mock log world = refl
    trace-logged ((before, exited pid exitcode) ∷ events) tracer mock log world =
        round-logged tracer mock log (before world) (exited pid exitcode) _ _ λ s.
          bind_elim (s.0.tracee_pid == pid) _ _ _ _ forget_log refl (
            handle_exited-logged s.1.0 s.1.1 s.2 pid exitcode _ _
              (λ t. trace-logged events s.0 t.0 s.1.1 t.1))
    trace-logged ((before, ptrace_syscall pid) ∷ events) tracer mock log world =
        round-logged tracer mock log (before world) (ptrace_syscall pid) _ _ λ s.
          bind_assoc (resume P s.2 pid) _ forget_log
          ∙ bind_ext (resume P s.2 pid) _ _ (λ u. trace-logged events s.0 s.1.0 s.1.1 s.2)
    trace-logged ((before, other (some pid)) ∷ events) tracer mock log world =
        round-logged tracer mock log (before world) (other (some pid)) _ _ λ s.
          bind_assoc (resume P s.2 pid) _ forget_log
          ∙ bind_ext (resume P s.2 pid) _ _ (λ u. trace-logged events s.0 s.1.0 s.1.1 s.2)
    trace-logged ((before, other none) ∷ events) tracer mock log world = refl
