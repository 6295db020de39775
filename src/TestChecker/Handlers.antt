-- ===== src/TestChecker/Handlers.antt =====
-- The `SyscallMock` of `TestChecker`: what is done to the registers and the memory of a tracee.
use check_protocols.Prelude.{
  ◌+◌, ◌%◌, ◌^◌, Bool, Option, none, some, List, if◌then◌else◌, length, any,
}
use check_protocols.FilePath.{slash, path_eq}
use check_protocols.Memory.{poke_four_bytes, poke_string, poke_single_word_string}
use check_protocols.Platform.{Platform}
use check_protocols.Prelude.Text.{Bytes}
use check_protocols.Ptrace.{Ptrace}
use check_protocols.Result.{ptrace_failed, R, ok, err, ◌>>=◌}
use check_protocols.TempFiles.{Fs}
use check_protocols.TestChecker.{
  TestChecker, Registers, ends_with, handle_step, is_unmocked_command,
}

module _ (E : Platform) (P : Ptrace) where
  open E use {st_mode_offset, s_ifdir, s_ifreg}
  open P use {Memory}

  unfoldable pub handle_execve_enter :
      TestChecker → Fs → Memory → Registers → Bytes → List Bytes → R (TestChecker × Fs × Memory)
  handle_execve_enter tc fs m registers executable arguments =
      let mocked = do
        (mock_executable_path, tc', fs') ←
            handle_step E tc fs (record { executable = executable; arguments = arguments })
        m' ← poke_single_word_string P m registers.rdi mock_executable_path
        ok (tc', fs', m')
      in if is_unmocked_command E tc.unmocked_commands executable then ok (tc, fs, m) else mocked

  -- `ptrace::setregs`, which may fail
  put_registers : Bool → Registers → R Registers
  put_registers fails registers = if fails then err ptrace_failed else ok registers

  -- on the `cwd` of the test
  mock_getcwd : Option Bytes → Memory → Registers → Bool → R (Memory × Registers)
  unfolding put_registers
  mock_getcwd none m registers fails = ok (m, registers)
  mock_getcwd (some mock_cwd) m registers fails = do
    m' ← poke_string P m registers.rdi mock_cwd registers.rsi
    registers' ← put_registers fails (record registers { rax = length mock_cwd + 1 })
    ok (m', registers')

  unfoldable pub handle_getcwd_exit :
      TestChecker → Memory → Registers → Bool → R (Memory × Registers)
  unfolding mock_getcwd
  handle_getcwd_exit tc m registers setregs_fails =
      mock_getcwd tc.test.cwd m registers setregs_fails

  unfoldable pub handle_stat_exit :
      TestChecker → Memory → Registers → Bytes → Bool → R (Memory × Registers)
  unfolding put_registers
  handle_stat_exit tc m registers filename setregs_fails =
      let mock_mode = if ends_with slash filename then s_ifdir else s_ifreg in
      let mocked = do
        m' ← poke_four_bytes P m ((registers.rsi + st_mode_offset) % 2 ^ 64) (mock_mode % 2 ^ 32)
        registers' ← put_registers setregs_fails (record registers { rax = 0 })
        ok (m', registers')
      in if any (λ file. path_eq file filename) tc.test.mocked_files
        then mocked
        else ok (m, registers)
