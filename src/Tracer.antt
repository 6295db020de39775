-- ===== src/Tracer.antt =====
-- tracer/mod.rs: `Tracer`, which follows the system calls of all processes of a script and calls a
-- `SyscallMock` on those that matter. A process is its pid, and the map of the entered system calls
-- is a list with one entry for each pid.
-- The tracees run between two calls of `wait`: an event says what they did to the world (their
-- memories and registers, and the files), which requests to them fail from then on, and which status
-- `wait` then returns. Debug output (tracer/debugging.rs) is left out: it is off unless DEBUG is set.
-- Where it is off, the debugger only reads the registers a second time, which would fail here where
-- the first read has failed. `fuel` bounds the words of a string that is read from a tracee.
pub mod Alternation
pub mod Accepts
pub mod Run
pub mod Mocks
pub mod Kept
pub mod Logged
pub mod Followed
pub mod Sound
pub mod Debug
pub mod Debugged
use check_protocols.Prelude.{
  ℕ, Bool, true, false, not, ◌&&◌, Option, none, some, List, [], ◌∷◌, ◌==◌, if◌then◌else◌,
}
use check_protocols.CheckerResult.{exitcode}
use check_protocols.Memory.{peek_string, peek_string_array}
use check_protocols.Prelude.Int.{ℤ}
use check_protocols.Prelude.Text.{Bytes}
use check_protocols.Ptrace.{Ptrace}
use check_protocols.Result.{ptrace_failed, wrong_syscall, wait_failed, R, ok, err, panic, ◌>>=◌}
use check_protocols.Syscall.{Syscall, sys_stat, sys_execve, sys_getcwd}
use check_protocols.Syscall.Code.{same}
use check_protocols.Syscall.Named.{from}
use check_protocols.TempFiles.{Fs}
use check_protocols.TestChecker.{Registers}
use check_protocols.TestChecker.Handlers.{handle_execve_enter, handle_getcwd_exit, handle_stat_exit}

pub data SyscallStop : Type 0 where
  enter exit : SyscallStop

pub record Tracer : Type 0 where
  pub tracee_pid : ℕ
  pub entered_syscalls : List (ℕ × Syscall)

unfoldable pub new_tracer : ℕ → Tracer
new_tracer pid = record { tracee_pid = pid; entered_syscalls = [] }

-- `HashMap::get`, `HashMap::remove` and `HashMap::insert`
unfoldable pub entered : List (ℕ × Syscall) → ℕ → Option Syscall
entered [] pid = none
entered ((p, s) ∷ rest) pid = if p == pid then some s else entered rest pid

pub remove : ℕ → List (ℕ × Syscall) → List (ℕ × Syscall)
remove pid [] = []
remove pid ((p, s) ∷ rest) =
    let others = remove pid rest in if p == pid then others else (p, s) ∷ others

pub insert : ℕ → Syscall → List (ℕ × Syscall) → List (ℕ × Syscall)
unfolding remove
insert pid s syscalls = (pid, s) ∷ remove pid syscalls

unfoldable pub update_syscall_state : Tracer → ℕ → Syscall → R (SyscallStop × Tracer)
unfolding entered insert remove
update_syscall_state tracer pid syscall = elim (entered tracer.entered_syscalls pid) [
  | none ↦
      ok (enter, record tracer { entered_syscalls = insert pid syscall tracer.entered_syscalls })
  | some old ↦
      if same old syscall
      then ok (exit, record tracer { entered_syscalls = remove pid tracer.entered_syscalls })
      else err wrong_syscall
]

-- What `wait` returns: the source tells two statuses apart. `other` has the pid, if there is one.
pub data WaitStatus : Type 0 where
  exited : ℕ → ℤ → WaitStatus
  ptrace_syscall : ℕ → WaitStatus
  other : Option ℕ → WaitStatus

-- the requests of `ptrace` to a process that may fail: the last one is `ptrace::syscall`
pub data PtraceRequest : Type 0 where
  getregs setregs restart : PtraceRequest

module _ (P : Ptrace) where
  open P use {Memory}

  pub record World : Type 0 where
    pub memory : ℕ → Memory
    pub registers : ℕ → Registers
    pub files : Fs
    pub failing : PtraceRequest → ℕ → Bool

  -- The trait, but for `handle_end`, which is called behind the loop. `Mock` is the type of `self`.
  pub record SyscallMock (Mock : Type 0) : Type 0 where
    pub handle_execve_enter : Mock → World → ℕ → Registers → Bytes → List Bytes → R (Mock × World)
    pub handle_exited : Mock → World → ℕ → ℤ → R (Mock × World)
    pub handle_getcwd_exit : Mock → World → ℕ → Registers → R World
    pub handle_stat_exit : Mock → World → ℕ → Registers → Bytes → R World

  -- the methods that the trait itself defines
  unfoldable pub default_mock : {Mock : Type 0} → SyscallMock Mock
  default_mock = record {
    handle_execve_enter = λ mock world pid registers executable arguments. ok (mock, world);
    handle_exited = λ mock world pid exitcode. ok (mock, world);
    handle_getcwd_exit = λ mock world pid registers. ok world;
    handle_stat_exit = λ mock world pid registers filename. ok world;
  }

  unfoldable pub get_registers : World → ℕ → R Registers
  get_registers world pid =
      if world.failing getregs pid then err ptrace_failed else ok (world.registers pid)

  -- A process that was stopped goes on, up to its next stop.
  unfoldable pub resume : World → ℕ → R (Unit {0})
  resume world pid = if world.failing restart pid then err ptrace_failed else ok tt

  abbrev pub Event : Type 0
  Event = (World → World) × WaitStatus

  module _ {Mock : Type 0} (M : SyscallMock Mock) (number : Syscall → ℕ) (fuel : ℕ) where
    open M use {handle_execve_enter, handle_exited, handle_getcwd_exit, handle_stat_exit}

    pub execve_entered : Mock → World → ℕ → Registers → R (Mock × World)
    execve_entered mock world pid registers = do
      executable ← peek_string P fuel (world.memory pid) registers.rdi
      arguments ← peek_string_array P fuel (world.memory pid) registers.rsi
      handle_execve_enter mock world pid registers executable arguments

    pub getcwd_exited : Mock → World → ℕ → Registers → R (Mock × World)
    getcwd_exited mock world pid registers = do
      world' ← handle_getcwd_exit mock world pid registers
      ok (mock, world')

    pub stat_exited : Mock → World → ℕ → Registers → R (Mock × World)
    stat_exited mock world pid registers = do
      filename ← peek_string P fuel (world.memory pid) registers.rdi
      world' ← handle_stat_exit mock world pid registers filename
      ok (mock, world')

    unfoldable pub handle_syscall :
        Tracer → Mock → World → ℕ → SyscallStop → Syscall → Registers → R (Mock × World)
    unfolding execve_entered getcwd_exited stat_exited
    handle_syscall tracer mock world pid enter syscall registers =
        if same syscall sys_execve && not (tracer.tracee_pid == pid)
        then execve_entered mock world pid registers
        else ok (mock, world)
    handle_syscall tracer mock world pid exit syscall registers =
        let stat = stat_exited mock world pid registers in
        if same syscall sys_getcwd
        then getcwd_exited mock world pid registers
        else if same syscall sys_stat
        then stat
        else ok (mock, world)

    unfoldable pub handle_wait_status :
        Tracer → Mock → World → WaitStatus → R (Tracer × Mock × World)
    handle_wait_status tracer mock world (exited pid exitcode) = ok (tracer, mock, world)
    handle_wait_status tracer mock world (other pid) = ok (tracer, mock, world)
    handle_wait_status tracer mock world (ptrace_syscall pid) = do
      registers ← get_registers world pid
      let syscall = from number registers.orig_rax
      (syscall_stop, tracer') ← update_syscall_state tracer pid syscall
      (mock', world') ← handle_syscall tracer' mock world pid syscall_stop syscall registers
      ok (tracer', mock', world')

    -- `wait` fails where there is no event left.
    unfoldable pub trace : Tracer → Mock → World → List Event → R (ℤ × Mock × World)
    trace tracer mock world [] = err wait_failed
    trace tracer mock world ((before, exited pid exitcode) ∷ events) = do
      (tracer', mock', world') ← handle_wait_status tracer mock (before world) (exited pid exitcode)
      elim (tracer'.tracee_pid == pid) [
        | true ↦ ok (exitcode, mock', world')
        | false ↦ do
          (mock'', world'') ← handle_exited mock' world' pid exitcode
          trace tracer' mock'' world'' events
      ]
    trace tracer mock world ((before, ptrace_syscall pid) ∷ events) = do
      (tracer', mock', world') ← handle_wait_status tracer mock (before world) (ptrace_syscall pid)
      _ ← resume world' pid
      trace tracer' mock' world' events
    trace tracer mock world ((before, other (some pid)) ∷ events) = do
      (tracer', mock', world') ← handle_wait_status tracer mock (before world) (other (some pid))
      _ ← resume world' pid
      trace tracer' mock' world' events
    trace tracer mock world ((before, other none) ∷ events) = panic
