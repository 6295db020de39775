-- ===== src/Tracer/Debug.antt =====
-- tracer/debugging.rs: what is logged of the system calls. The texts that `derive(Debug)` makes of the
-- system calls, those of the errors and those of errno are parameters, as is whether DEBUG is
-- set. `ptrace::getregs` fails where there are no registers.
use check_protocols.Prelude.{
  ℕ, ◌-◌, ◌%◌, ◌^◌, Bool, true, false, Option, none, some, List, [], ◌∷◌, ◌++◌, map, ltb, ◌==◌,
  if◌then◌else◌, is_empty,
}
use check_protocols.Memory.{peek_string, peek_string_array}
use check_protocols.Platform.{Platform}
use check_protocols.Prelude.Int.{ℤ, pos, negsuc, show}
use check_protocols.Prelude.Text.{Bytes, codes}
use check_protocols.Ptrace.{Ptrace}
use check_protocols.Result.{Error, ptrace_failed, R, ok, err, panic, diverge, ◌>>=◌}
use check_protocols.Syscall.{
  Syscall, sys_read, sys_write, sys_open, sys_close, sys_stat, sys_fstat, sys_mmap, sys_access,
  sys_dup2, sys_execve, sys_fcntl, sys_openat,
}
use check_protocols.Tracer.{SyscallStop, enter, exit}
use check_protocols.Utf8.{to_string_lossy}

-- the registers that the log shows
pub record LoggedRegisters : Type 0 where
  pub rdi : ℕ
  pub rsi : ℕ
  pub rdx : ℕ
  pub r8 : ℕ
  pub rax : ℕ

pub record Texts : Type 0 where
  pub syscall : Syscall → Bytes
  pub error : Error → Bytes
  pub errno : ℤ → Bytes

-- The messages of the entered system calls have one entry for each pid.
pub data Debugger : Type 0 where
  disabled : Debugger
  enabled : List (ℕ × Bytes) → Debugger

new_debugger : Bool → Debugger
new_debugger true = enabled []
new_debugger false = disabled

-- the maps of the messages: `get`, `remove` and `insert`
pub message_of : List (ℕ × Bytes) → ℕ → Option Bytes
message_of [] pid = none
message_of ((p, m) ∷ messages) pid = if p == pid then some m else message_of messages pid

pub without_message : ℕ → List (ℕ × Bytes) → List (ℕ × Bytes)
without_message pid [] = []
without_message pid ((p, m) ∷ messages) =
    let rest = without_message pid messages in if p == pid then rest else (p, m) ∷ rest

-- the derived `Debug` of `FcntlCmd`
pub fcntl_cmd : ℕ → Bytes
fcntl_cmd command =
    if command == 0
    then codes "F_DUPFD"
    else if command == 1
    then codes "F_GETFD"
    else if command == 2
    then codes "F_SETFD"
    else if command == 3
    then codes "F_GETFL"
    else if command == 4
    then codes "F_SETFL"
    else codes "Unknown(" ++ (show (pos command) ++ codes ")")

-- `-(return_value as i32)`, with the wrap at the least number
errno_of : ℕ → ℤ
errno_of return_value =
    let low = return_value % 2 ^ 32 in
    if low == 0
    then pos 0
    else if ltb low (2 ^ 31)
    then negsuc (low - 1)
    else if low == 2 ^ 31
    then negsuc (2 ^ 31 - 1)
    else pos (2 ^ 32 - low)

-- the arguments, with their names, separated by commas
pub arguments_string : List (Bytes × Bytes) → Bytes → Bytes
arguments_string [] text = text
arguments_string ((name, value) ∷ arguments) text =
    let separated = if is_empty text then text else text ++ codes ", " in
    arguments_string arguments (separated ++ (name ++ (codes ": " ++ value)))

-- how `{:?}` shows a vector of strings
pub debug_list : (Bytes → Bytes) → List Bytes → Bytes
debug_list debug [] = []
debug_list debug (t ∷ []) = debug t
debug_list debug (t ∷ u ∷ ts) = debug t ++ (codes ", " ++ debug_list debug (u ∷ ts))

module _ (E : Platform) (P : Ptrace) (T : Texts) (fuel : ℕ) where
  open P use {Memory}

  -- an error of the tracee's memory is shown in place of the text
  unfoldable pub or_error : {A : Type 0} → (A → Bytes) → R A → R Bytes
  or_error text (ok a) = ok (text a)
  or_error text (err e) = ok (T.error e)
  or_error text panic = panic
  or_error text diverge = diverge

  unfoldable pub debug_string : Memory → ℕ → R Bytes
  debug_string m address = do
    text ← or_error to_string_lossy (peek_string P fuel m address)
    ok (E.debug text)

  unfoldable pub debug_string_array : Memory → ℕ → R Bytes
  unfolding debug_list
  debug_string_array m address =
      let texts =
        or_error (λ l. codes "[" ++ (debug_list E.debug (map to_string_lossy l) ++ codes "]"))
          (peek_string_array P fuel m address) in
      if address == 0 then ok (codes "NULL") else texts

  pub number_text : ℕ → Bytes
  number_text n = show (pos n)

  unfoldable pub syscall_arguments : Memory → Syscall → LoggedRegisters → R (List (Bytes × Bytes))
  unfolding number_text
  syscall_arguments m sys_read r = ok ((codes "fd", number_text r.rdi) ∷ [])
  syscall_arguments m sys_write r = do
    buf ← debug_string m r.rsi
    ok (
        (codes "fd", number_text r.rdi)
        ∷ (codes "buf", buf)
        ∷ (codes "count", number_text r.rdx)
        ∷ [])
  syscall_arguments m sys_open r = do
    filename ← debug_string m r.rdi
    ok ((codes "filename", filename) ∷ [])
  syscall_arguments m sys_close r = ok ((codes "fd", number_text r.rdi) ∷ [])
  syscall_arguments m sys_stat r = do
    filename ← debug_string m r.rdi
    ok ((codes "filename", filename) ∷ [])
  syscall_arguments m sys_fstat r = ok ((codes "fd", number_text r.rdi) ∷ [])
  syscall_arguments m sys_mmap r = ok ((codes "fd", number_text r.r8) ∷ [])
  syscall_arguments m sys_access r = do
    filename ← debug_string m r.rdi
    ok ((codes "filename", filename) ∷ (codes "mode", number_text r.rsi) ∷ [])
  syscall_arguments m sys_dup2 r =
      ok ((codes "oldfd", number_text r.rdi) ∷ (codes "newfd", number_text r.rsi) ∷ [])
  syscall_arguments m sys_execve r = do
    filename ← debug_string m r.rdi
    argv ← debug_string_array m r.rsi
    envp ← debug_string_array m r.rdx
    ok ((codes "filename", filename) ∷ (codes "argv", argv) ∷ (codes "envp", envp) ∷ [])
  syscall_arguments m sys_fcntl r =
      ok ((codes "fd", number_text r.rdi) ∷ (codes "cmd", fcntl_cmd r.rsi) ∷ [])
  syscall_arguments m sys_openat r = do
    filename ← debug_string m r.rsi
    ok ((codes "filename", filename) ∷ [])
  syscall_arguments m _ r = ok []

  pub format_return_value : LoggedRegisters → Bytes
  format_return_value r = if ltb r.rax (2 ^ 63) then show (pos r.rax) else T.errno (errno_of r.rax)

  -- on the message of the system call that was entered
  log_exit : Option Bytes → List (ℕ × Bytes) → ℕ → LoggedRegisters → Bytes → Debugger × Bytes
  log_exit none messages pid r stderr =
      (enabled messages, stderr ++ codes "error: exit without enter\n")
  log_exit (some message) messages pid r stderr = (
    enabled (without_message pid messages),
    stderr
        ++ (show (pos pid)
            ++ (codes ": "
                ++ (message ++ (codes " -> " ++ (format_return_value r ++ codes "\n"))))),
  )

  unfoldable pub log_registers :
      Debugger → Memory → LoggedRegisters → ℕ → SyscallStop → Syscall → Bytes → R (Debugger × Bytes)
  unfolding log_exit arguments_string
  log_registers disabled m r pid stop syscall stderr = ok (disabled, stderr)
  log_registers (enabled messages) m r pid enter syscall stderr = do
    arguments ← syscall_arguments m syscall r
    let message = T.syscall syscall ++ (codes "(" ++ (arguments_string arguments [] ++ codes ")"))
    ok (enabled ((pid, message) ∷ without_message pid messages), stderr)
  log_registers (enabled messages) m r pid exit syscall stderr =
      ok (log_exit (message_of messages pid) messages pid r stderr)

  -- The registers are read also where the debugger is disabled.
  unfoldable pub log_syscall_details :
      Debugger
      → Memory
      → Option LoggedRegisters
      → ℕ
      → SyscallStop
      → Syscall
      → Bytes
      → R (Debugger × Bytes)
  log_syscall_details debugger m none pid stop syscall stderr = err ptrace_failed
  log_syscall_details debugger m (some r) pid stop syscall stderr =
      log_registers debugger m r pid stop syscall stderr

  -- `make_syscall` changes a state that has the memory and the registers of the tracees.
  module _ {S : Type 0} (memory : S → ℕ → Memory) (registers : S → ℕ → Option LoggedRegisters) where
    unfoldable pub log_syscall :
        Debugger → ℕ → SyscallStop → Syscall → (S → R S) → S → Bytes → R (Debugger × S × Bytes)
    log_syscall debugger pid enter syscall make_syscall s stderr = do
      (debugger', stderr') ←
          log_syscall_details debugger (memory s pid) (registers s pid) pid enter syscall stderr
      s' ← make_syscall s
      ok (debugger', s', stderr')
    log_syscall debugger pid exit syscall make_syscall s stderr = do
      s' ← make_syscall s
      (debugger', stderr') ←
          log_syscall_details debugger (memory s' pid) (registers s' pid) pid exit syscall stderr
      ok (debugger', s', stderr')
