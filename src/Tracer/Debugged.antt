-- ===== src/Tracer/Debugged.antt =====
-- The debug output changes nothing but the log.
use check_protocols.Prelude.{ℕ, ◌≡◌, refl, inl, inr, Option, some, ◌==◌, Bool-cases}
use check_protocols.Memory.{peek_string, peek_string_array}
use check_protocols.Platform.{Platform}
use check_protocols.Prelude.Text.{Bytes}
use check_protocols.Ptrace.{Ptrace}
use check_protocols.Result.{R, ok, err, panic, diverge, ◌>>=◌}
use check_protocols.Syscall.{
  Syscall, sys_read, sys_write, sys_open, sys_stat, sys_access, sys_execve, sys_openat,
}
use check_protocols.Tracer.{SyscallStop, enter, exit}
use check_protocols.Tracer.Debug.{
  LoggedRegisters, Texts, Debugger, disabled, enabled, or_error, debug_string, debug_string_array,
  syscall_arguments, log_registers, log_syscall_details, log_syscall,
}
use check_protocols.Utf8.{to_string_lossy}

-- no error was returned
abbrev NoError {ℓ} : {A : Type ℓ} → R A → Type 0
NoError (ok a) = Unit
NoError (err e) = ⊥
NoError panic = Unit
NoError diverge = Unit

NoError-bind {ℓ κ} :
    {A : Type ℓ} {B : Type κ} (m : R A) (f : A → R B)
    → NoError m
    → ((a : A) → NoError (f a))
    → NoError (m >>= f)
NoError-bind (ok a) f h k = k a
NoError-bind (err e) f h k = absurd h
NoError-bind panic f h k = tt
NoError-bind diverge f h k = tt

module _ {S : Type 0} where
  -- What was returned with a log is what was returned without it. Nothing is said of a panic and of
  -- fuel that ran out.
  abbrev pub Agrees : R (Debugger × S × Bytes) → R S → Type 0
  Agrees (ok r) m = m ≡ ok r.1
  Agrees (err e) m = m ≡ err e
  Agrees panic m = Unit
  Agrees diverge m = Unit

  Agrees-after :
      (d : R (Debugger × Bytes)) (m : R S)
      → NoError d
      → Agrees (d >>= λ x. m >>= λ s. ok (x.0, s, x.1)) m
  Agrees-after (ok x) (ok s) h = refl
  Agrees-after (ok x) (err e) h = refl
  Agrees-after (ok x) panic h = tt
  Agrees-after (ok x) diverge h = tt
  Agrees-after (err e) m h = absurd h
  Agrees-after panic m h = tt
  Agrees-after diverge m h = tt

  Agrees-logged :
      (s : S) (d : R (Debugger × Bytes)) → NoError d → Agrees (d >>= λ x. ok (x.0, s, x.1)) (ok s)
  Agrees-logged s (ok x) h = refl
  Agrees-logged s (err e) h = absurd h
  Agrees-logged s panic h = tt
  Agrees-logged s diverge h = tt

  Agrees-before :
      (m : R S) (d : S → R (Debugger × Bytes))
      → ((s : S) → NoError (d s))
      → Agrees (m >>= λ s. d s >>= λ x. ok (x.0, s, x.1)) m
  Agrees-before (ok s) d h = Agrees-logged s (d s) (h s)
  Agrees-before (err e) d h = refl
  Agrees-before panic d h = tt
  Agrees-before diverge d h = tt

module _ (E : Platform) (P : Ptrace) (T : Texts) (fuel : ℕ) where
  open P use {Memory}

  or_error-NoError :
      {A : Type 0} (text : A → Bytes) (m : R A) → NoError (or_error E P T fuel text m)
  unfolding or_error
  or_error-NoError text (ok a) = tt
  or_error-NoError text (err e) = tt
  or_error-NoError text panic = tt
  or_error-NoError text diverge = tt

  debug_string-NoError : (m : Memory) (address : ℕ) → NoError (debug_string E P T fuel m address)
  unfolding debug_string
  debug_string-NoError m address =
      NoError-bind (or_error E P T fuel to_string_lossy (peek_string P fuel m address)) _
        (or_error-NoError to_string_lossy (peek_string P fuel m address)) (λ t. tt)

  debug_string_array-NoError :
      (m : Memory) (address : ℕ) → NoError (debug_string_array E P T fuel m address)
  unfolding debug_string_array
  debug_string_array-NoError m address = elim (Bool-cases (address == 0)) [
    | inl e ↦ rw (e, NoError) tt
    | inr e ↦ rw (e, NoError) (or_error-NoError _ (peek_string_array P fuel m address))
  ]

  syscall_arguments-NoError :
      (m : Memory) (syscall : Syscall) (r : LoggedRegisters)
      → NoError (syscall_arguments E P T fuel m syscall r)
  unfolding syscall_arguments
  syscall_arguments-NoError m sys_read r = tt
  syscall_arguments-NoError m sys_write r =
      NoError-bind (debug_string E P T fuel m r.rsi) _ (debug_string-NoError m r.rsi) (λ t. tt)
  syscall_arguments-NoError m sys_open r =
      NoError-bind (debug_string E P T fuel m r.rdi) _ (debug_string-NoError m r.rdi) (λ t. tt)
  syscall_arguments-NoError m sys_stat r =
      NoError-bind (debug_string E P T fuel m r.rdi) _ (debug_string-NoError m r.rdi) (λ t. tt)
  syscall_arguments-NoError m sys_access r =
      NoError-bind (debug_string E P T fuel m r.rdi) _ (debug_string-NoError m r.rdi) (λ t. tt)
  syscall_arguments-NoError m sys_execve r =
      NoError-bind (debug_string E P T fuel m r.rdi) _ (debug_string-NoError m r.rdi) λ filename.
        NoError-bind (debug_string_array E P T fuel m r.rsi) _ (debug_string_array-NoError m r.rsi)
          λ argv.
            NoError-bind (debug_string_array E P T fuel m r.rdx) _
              (debug_string_array-NoError m r.rdx) (λ envp. tt)
  syscall_arguments-NoError m sys_openat r =
      NoError-bind (debug_string E P T fuel m r.rsi) _ (debug_string-NoError m r.rsi) (λ t. tt)
  syscall_arguments-NoError m _ r = tt

  log_registers-NoError :
      (debugger : Debugger) (m : Memory) (r : LoggedRegisters) (pid : ℕ) (stop : SyscallStop)
      (syscall : Syscall) (stderr : Bytes)
      → NoError (log_registers E P T fuel debugger m r pid stop syscall stderr)
  unfolding log_registers
  log_registers-NoError disabled m r pid stop syscall stderr = tt
  log_registers-NoError (enabled messages) m r pid enter syscall stderr =
      NoError-bind (syscall_arguments E P T fuel m syscall r) _
        (syscall_arguments-NoError m syscall r) (λ a. tt)
  log_registers-NoError (enabled messages) m r pid exit syscall stderr = tt

  log_syscall_details-NoError :
      (debugger : Debugger) (m : Memory) (registers : Option LoggedRegisters) (pid : ℕ)
      (stop : SyscallStop) (syscall : Syscall) (stderr : Bytes)
      → (r : LoggedRegisters) × (registers ≡ some r)
      → NoError (log_syscall_details E P T fuel debugger m registers pid stop syscall stderr)
  unfolding log_syscall_details
  log_syscall_details-NoError debugger m registers pid stop syscall stderr (r, readable) =
      rw (readable, NoError) (log_registers-NoError debugger m r pid stop syscall stderr)

  -- The debugger changes nothing but the log: whether it is on or off, where the handling of a system
  -- call returns or fails with the log around it, it does so without the log, with the same
  -- state or the same error. The registers of the process can be read in every state; arguments that
  -- cannot be read from its memory are no error.
  pub log_syscall-Agrees :
      {S : Type 0} (memory : S → ℕ → Memory) (registers : S → ℕ → Option LoggedRegisters)
      (debugger : Debugger) (pid : ℕ) (stop : SyscallStop) (syscall : Syscall)
      (make_syscall : S → R S) (s : S) (stderr : Bytes)
      → ((s' : S) → (r : LoggedRegisters) × (registers s' pid ≡ some r))
      → Agrees
          (log_syscall E P T fuel memory registers debugger pid stop syscall make_syscall s stderr)
          (make_syscall s)
  unfolding log_syscall
  log_syscall-Agrees memory registers debugger pid enter syscall make_syscall s stderr readable =
      Agrees-after
        (log_syscall_details E P T fuel debugger (memory s pid) (registers s pid) pid enter syscall
          stderr)
        (make_syscall s)
        (log_syscall_details-NoError debugger (memory s pid) (registers s pid) pid enter syscall
          stderr (readable s))
  log_syscall-Agrees memory registers debugger pid exit syscall make_syscall s stderr readable =
      Agrees-before (make_syscall s)
        (λ s'.
          log_syscall_details E P T fuel debugger (memory s' pid) (registers s' pid) pid exit
            syscall stderr)
        (λ s'.
          log_syscall_details-NoError debugger (memory s' pid) (registers s' pid) pid exit syscall
            stderr (readable s'))
