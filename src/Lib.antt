-- ===== src/Lib.antt =====
-- scriptkeeper: tests for scripts. A script is run under ptrace; the commands that it starts are
-- replaced by mocks, and what it does is checked against a test file, or recorded into one.
--
-- The parts, and how they work together:
--
-- A test file holds tests, and a test holds the steps that a script is expected to make (TestSpec.antt
-- for src/test_spec/mod.rs: its children Parse and ParseTests read tests from YAML values, Serialize
-- writes them there, and Load is `Tests::load`). Yaml.antt has the values of the crate yaml_rust,
-- and YamlExt.antt is src/test_spec/yaml.rs, what is expected of them. A step has a matcher for a command
-- (CommandMatcher.antt for src/test_spec/command_matcher.rs), an output and an exit code. Commands
-- (Command.antt for src/test_spec/command.rs) are written as one line and read back by the parser of
-- arguments (ArgumentParser.antt for src/test_spec/argument_parser.rs); their executables are compared
-- in a canonical form (ExecutablePath.antt for src/test_spec/executable_path.rs, on the paths of
-- FilePath.antt). Texts are lists of bytes; Utf8.antt is the lossy conversion of the standard library
-- that the formatting applies.
--
-- The tracer (Tracer.antt for src/tracer/mod.rs) waits for the processes of a script. On each stop it
-- reads the system call from the registers (Syscall.antt for src/tracer/syscall.rs), decides whether
-- the process enters or leaves it, and calls a `SyscallMock`, which is a record of handlers here. It
-- reads strings from the memory of a process, and the handlers write there (Memory.antt for
-- src/tracer/tracee_memory.rs, over the interface Ptrace.antt). The outputs of the script are relayed
-- and captured (StdioRedirecting.antt for src/tracer/stdio_redirecting.rs).
--
-- There are three implementations of `SyscallMock`. `TestChecker` (TestChecker.antt for
-- src/test_checker/mod.rs, with CheckerResult.antt for src/test_checker/checker_result.rs) takes the
-- next step of the test for each command and has the process execute a mock in its place: a file with
-- a short path (TempFiles.antt for src/utils/short_temp_files.rs) that starts scriptkeeper itself on
-- the output and the exit code of the step (ExecutableMock.antt for
-- src/test_checker/executable_mock.rs). `Recorder` and `HoleRecorder` (Recorder.antt for
-- src/recorder/mod.rs, src/recorder/hole_recorder.rs and src/recorder/result.rs) write the commands
-- into a test. Tracer/Mocks.antt has the three as records of handlers, and Tracer/Run.antt is one run of
-- a script under one of them (`run_against_mock`): what the operating system does in it, the events
-- that `wait` reports and the requests of ptrace that fail among it, is an argument. Recorder/Results.antt runs all tests of a file
-- (src/recorder/result.rs) and writes the file again where holes were filled. Main.antt is
-- src/lib.rs and Cli.antt is src/cli.rs; Utils.antt is src/utils/mod.rs. What the crates and libc give is
-- the record Platform.antt; Result.antt is the result type of src/lib.rs; Prelude.antt has the shared
-- helpers; Tests.antt has the concrete inputs.
--
-- State is passed on explicitly: the files, the memory of a process and its registers are arguments
-- and results. A Rust panic is the result `panic`. Machine words are natural numbers; where the source
-- computes on 64 bits the wrap is written out. Exit codes are integers: those of a test file are cut to
-- 32 bits as in the source, and nothing else is computed on them.
--
-- Fuel: the loops of the argument parser have the length of the text plus one, and the loop on the
-- names of temporary files has 4357 rounds for 4356 names; both are enough for every input. Reading a
-- string from a process has a bound on its words that the caller gives, as memory without a zero byte
-- need not end.
--
-- Not modelled: fork, execve, pipes and threads, which are calls of the operating system; the loader and
-- the emitter of YAML, which are those of the crate yaml_rust; the parser of the command line,
-- which is that of the crate clap. The loop of the tracer has the debugger off: that the debugger
-- then still reads the registers a second time is left out, and Tracer/Debug.antt is
-- src/tracer/debugging.rs on its own. Of the calls that start a run, `waitpid` and
-- `ptrace::setoptions` are taken to succeed, and a mock can be read by the program that runs it. The
-- mode of a temporary file is left out. The entries of a hash map are a list in one order. The fields
-- of an error message are kept as values, and its text is not.
pub mod Prelude
pub mod Yaml
pub mod Result
pub mod YamlExt
pub mod Utils
pub mod ArgumentParser
pub mod Utf8
pub mod Command
pub mod FilePath
pub mod ExecutablePath
pub mod CommandMatcher
pub mod Ptrace
pub mod Memory
pub mod TempFiles
pub mod Platform
pub mod ExecutableMock
pub mod StdioRedirecting
pub mod Syscall
pub mod TestSpec
pub mod CheckerResult
pub mod TestChecker
pub mod Tracer
pub mod Recorder
pub mod Cli
pub mod Main
pub mod Tests
