-- ===== src/Tracer/Run.antt =====
-- tracer/mod.rs: `run_against_mock`, one run of a script under a `SyscallMock`. What the operating system
-- does in the run is a parameter: the events that `wait` reports, the memory and the registers
-- of the tracees, the chunks of their streams, the requests that fail, and whether `execve` failed.
use check_protocols.Prelude.{
  ℕ, Bool, Option, none, some, List, [], ◌∷◌, ◌++◌, map, ◌==◌, if◌then◌else◌, any,
}
use check_protocols.CheckerResult.{exitcode}
use check_protocols.Prelude.Int.{ℤ}
use check_protocols.Prelude.Text.{Bytes, codes}
use check_protocols.Ptrace.{Ptrace}
use check_protocols.Result.{Error, interior_nul, execve_failed, R, ok, err, panic, diverge, ◌>>=◌}
use check_protocols.StdioRedirecting.{Redirector, Capture, new_redirector, relay}
use check_protocols.Syscall.{Syscall}
use check_protocols.TempFiles.{Fs}
use check_protocols.TestChecker.{Registers}
use check_protocols.Tracer.{new_tracer, PtraceRequest, World, SyscallMock, resume, Event, trace}
use check_protocols.Utf8.{to_string_lossy}
use check_protocols.Utils.{parse_hashbang}

-- `CString::new`, which refuses a zero byte
unfoldable pub c_string : Bytes → R Bytes
c_string text = if any (λ c. c == 0) text then err (interior_nul text) else ok text

unfoldable pub c_strings : List Bytes → R (List Bytes)
unfolding c_string
c_strings [] = ok []
c_strings (text ∷ texts) = do c_text ← c_string text; rest ← c_strings texts; ok (c_text ∷ rest)

-- `format!("{}={}", key, value)`
unfoldable pub env_text : Bytes × Bytes → Bytes
env_text (key, value) = key ++ (b'=' ∷ value)

-- on the interpreter
with_interpreter :
    Option Bytes → Bytes → List Bytes → List Bytes → R (Bytes × List Bytes × List Bytes)
unfolding c_string
with_interpreter none c_executable c_args c_env = ok (c_executable, c_args, c_env)
with_interpreter (some interpreter) c_executable c_args c_env = do
  c_interpreter ← c_string interpreter
  ok (c_interpreter, c_interpreter ∷ c_args, c_env)

unfoldable pub execve_params :
    Option Bytes → Bytes → List Bytes → List (Bytes × Bytes) → R (Bytes × List Bytes × List Bytes)
unfolding c_string c_strings env_text with_interpreter
execve_params interpreter program args env = do
  c_executable ← c_string program
  c_args ← c_strings args
  c_env ← c_strings (map env_text env)
  with_interpreter interpreter c_executable (c_executable ∷ c_args) c_env

-- the interpreter that the message names
interpreter_name : Fs → Option Bytes → Bytes → Bytes
interpreter_name fs (some interpreter) program = to_string_lossy interpreter
interpreter_name fs none program = elim (parse_hashbang fs program) [
  | some line ↦ line
  | none ↦ codes "your interpreter"
]

unfoldable pub format_execve_error : Fs → Bytes → Option Bytes → Bytes → Bytes
unfolding interpreter_name
format_execve_error fs error interpreter program =
    codes "execve'ing "
    ++ (to_string_lossy program
        ++ (codes " failed with error: "
            ++ (error
                ++ (codes "\nDoes "
                    ++ (interpreter_name fs interpreter program ++ codes " exist?")))))

-- The end of the child's action: `none` where `execve` succeeds and the script runs in its place.
-- `failed` is the error of the system call, if it fails.
unfoldable pub child_error :
    Fs → Option Bytes → Option Bytes → Bytes → List Bytes → List (Bytes × Bytes) → Option Error
unfolding execve_params format_execve_error
child_error fs failed interpreter program args env =
    elim (execve_params interpreter program args env) [
      | err e ↦ some e
      | ok params ↦ elim failed [
        | none ↦ none
        | some error ↦ some (execve_failed (format_execve_error fs error interpreter program))
      ]
      | panic ↦ none
      | diverge ↦ none
    ]

-- The parent reads the file of errors behind its own action: an error of the child comes first.
unfoldable pub fork_with_child_errors {ℓ} : {A : Type ℓ} → Option Error → R A → R A
fork_with_child_errors child panic = panic
fork_with_child_errors child diverge = diverge
fork_with_child_errors none result = result
fork_with_child_errors (some e) _ = err e

-- the streams of the program itself, with what was written to them
pub record Output : Type 0 where
  pub stdout : Bytes
  pub stderr : Bytes

module _ (P : Ptrace) where
  open P use {Memory}

  pub record Run : Type 0 where
    pub tracee_pid : ℕ
    pub events : List (Event P)
    pub memory : ℕ → Memory
    pub registers : ℕ → Registers
    pub stdout_chunks : List Bytes
    pub stderr_chunks : List Bytes
    pub failed : Option Bytes
    pub failing : PtraceRequest → ℕ → Bool

  -- the world when the script starts
  abbrev pub start_world : Run → Fs → World P
  start_world script_run fs = record {
    memory = script_run.memory;
    registers = script_run.registers;
    files = fs;
    failing = script_run.failing;
  }

  -- both relay threads, up to their end
  unfoldable pub relay_streams : Run → Capture → Output → Redirector × Output
  relay_streams script_run capture output =
      let redirector = new_redirector capture in
      let out = relay script_run.stdout_chunks output.stdout redirector.stdout.captured in
      let errors = relay script_run.stderr_chunks output.stderr redirector.stderr.captured in
      (
        record {
          stdout = record (redirector.stdout) { captured = out.1 };
          stderr = record (redirector.stderr) { captured = errors.1 };
        },
        record { stdout = out.0; stderr = errors.0 },
      )

  module _ {Mock Result : Type 0} (M : SyscallMock P Mock) (number : Syscall → ℕ) (fuel : ℕ) where
    -- The last argument but two is the `handle_end` of the mock, with the files that it drops.
    unfoldable pub run_against_mock :
        Run
        → Option Bytes
        → Bytes
        → List Bytes
        → List (Bytes × Bytes)
        → Capture
        → Mock
        → (Mock → Fs → ℤ → Redirector → R (Result × Fs))
        → Fs
        → Output
        → R (Result × Fs × Output)
    unfolding relay_streams fork_with_child_errors child_error
    run_against_mock script_run interpreter program args env capture mock finish fs output =
        let (redirector, output') = relay_streams script_run capture output in
        let parent = do
          _ ← resume P (start_world script_run fs) script_run.tracee_pid
          (exitcode, mock', world') ←
              trace P M number fuel (new_tracer script_run.tracee_pid) mock
                (start_world script_run fs) script_run.events
          (result, fs') ← finish mock' world'.files exitcode redirector
          ok (result, fs', output')
        in fork_with_child_errors (child_error fs script_run.failed interpreter program args env)
          parent
