-- ===== src/Tracer/Mocks.antt =====
-- test_checker/mod.rs, recorder/mod.rs and recorder/hole_recorder.rs: the three implementations of
-- `SyscallMock`, on the world of the tracees. Where a mock ends, the temporary files that it
-- still owns are dropped.
use check_protocols.Prelude.{ℕ, List, [], ◌==◌, if◌then◌else◌}
use check_protocols.CheckerResult.{CheckerResult, exitcode}
use check_protocols.Platform.{Platform}
use check_protocols.Prelude.Int.{ℤ}
use check_protocols.Prelude.Text.{Bytes}
use check_protocols.Ptrace.{Ptrace}
use check_protocols.Recorder.{
  Recorder, record_exited, record_end, record_execve, HoleRecorder, checking, recording,
  RecorderResult, hole_execve_enter, hole_exited, hole_end,
}
use check_protocols.Result.{R, ok, ◌>>=◌}
use check_protocols.StdioRedirecting.{Redirector}
use check_protocols.TempFiles.{Fs, ShortTempFile, drop_files}
use check_protocols.TestChecker.{TestChecker, Registers, handle_end}
use check_protocols.TestChecker.Handlers.{handle_execve_enter, handle_getcwd_exit, handle_stat_exit}
use check_protocols.TestSpec.{Test}
use check_protocols.Tracer.{setregs, World, SyscallMock, default_mock}

unfoldable pub recorder_end : Recorder → Fs → ℤ → Redirector → R (Test × Fs)
recorder_end recorder fs exitcode redirector = ok (record_end recorder exitcode, fs)

module _ (E : Platform) (P : Ptrace) where
  set_memory : World P → ℕ → P.Memory → World P
  set_memory world pid m = record world { memory = λ p. if p == pid then m else world.memory p }

  set_registers : World P → ℕ → Registers → World P
  set_registers world pid registers = record world {
    registers = λ p. if p == pid then registers else world.registers p;
  }

  unfoldable pub checker_execve_enter :
      TestChecker → World P → ℕ → Registers → Bytes → List Bytes → R (TestChecker × World P)
  unfolding set_memory
  checker_execve_enter checker world pid registers executable arguments = do
    (checker', fs', m') ←
        handle_execve_enter E P checker world.files (world.memory pid) registers executable
          arguments
    ok (checker', record (set_memory world pid m') { files = fs' })

  checker_getcwd_exit : TestChecker → World P → ℕ → Registers → R (World P)
  unfolding set_memory set_registers
  checker_getcwd_exit checker world pid registers = do
    (m', registers') ←
        handle_getcwd_exit E P checker (world.memory pid) registers (world.failing setregs pid)
    ok (set_registers (set_memory world pid m') pid registers')

  checker_stat_exit : TestChecker → World P → ℕ → Registers → Bytes → R (World P)
  unfolding set_memory set_registers
  checker_stat_exit checker world pid registers filename = do
    (m', registers') ←
        handle_stat_exit E P checker (world.memory pid) registers filename
          (world.failing setregs pid)
    ok (set_registers (set_memory world pid m') pid registers')

  unfoldable pub checker_mock : SyscallMock P TestChecker
  unfolding default_mock checker_execve_enter checker_getcwd_exit checker_stat_exit
  checker_mock = record (default_mock P) {
    handle_execve_enter = checker_execve_enter;
    handle_getcwd_exit = checker_getcwd_exit;
    handle_stat_exit = checker_stat_exit;
  }

  unfoldable pub checker_end : TestChecker → Fs → ℤ → Redirector → R (CheckerResult × Fs)
  checker_end checker fs exitcode redirector = do
    result ← handle_end E checker exitcode redirector
    fs' ← drop_files checker.temporary_executables fs
    ok (result, fs')

  unfoldable pub recorder_mock : SyscallMock P Recorder
  unfolding default_mock
  recorder_mock = record (default_mock P) {
    handle_execve_enter = λ recorder world pid registers executable arguments. ok (
      record_execve E recorder (record { executable = executable; arguments = arguments }),
      world,
    );
    handle_exited = λ recorder world pid exitcode. ok (record_exited recorder exitcode, world);
  }

  hole_recorder_execve_enter :
      HoleRecorder → World P → ℕ → Registers → Bytes → List Bytes → R (HoleRecorder × World P)
  unfolding set_memory
  hole_recorder_execve_enter recorder world pid registers executable arguments = do
    (recorder', fs', m') ←
        hole_execve_enter E P recorder world.files (world.memory pid) registers
          (record { executable = executable; arguments = arguments })
    ok (recorder', record (set_memory world pid m') { files = fs' })

  -- `handle_getcwd_exit` and `handle_stat_exit` are those of the trait: nothing is mocked.
  unfoldable pub hole_recorder_mock : SyscallMock P HoleRecorder
  unfolding default_mock hole_recorder_execve_enter
  hole_recorder_mock = record (default_mock P) {
    handle_execve_enter = hole_recorder_execve_enter;
    handle_exited = λ recorder world pid exitcode. ok (hole_exited recorder exitcode, world);
  }

  hole_recorder_files : HoleRecorder → List ShortTempFile
  hole_recorder_files (checking checker original) = checker.temporary_executables
  hole_recorder_files (recording recorder) = []

  unfoldable pub hole_recorder_end : HoleRecorder → Fs → ℤ → Redirector → R (RecorderResult × Fs)
  unfolding hole_recorder_files
  hole_recorder_end recorder fs exitcode redirector = do
    fs' ← drop_files (hole_recorder_files recorder) fs
    ok (hole_end recorder exitcode, fs')
