-- ===== src/Main/Filled.antt =====
-- A test file whose holes were filled, and that is loaded again.
use check_protocols.Prelude.{
  ◌≡◌, refl, ◌∙◌, true, false, Option, none, some, List, [], ◌∷◌, ◌++◌, map, any, All,
}
use check_protocols.CheckerResult.{exitcode}
use check_protocols.CheckerResult.Report.{format_results_total}
use check_protocols.ExecutableMock.{exists}
use check_protocols.Main.Report.{Passed, all_pass-Passed}
use check_protocols.Platform.{Platform}
use check_protocols.Prelude.Int.{pos}
use check_protocols.Prelude.Text.{Bytes, codes, equal_refl}
use check_protocols.Recorder.{RecorderResult, is_recorded, get_test}
use check_protocols.Recorder.Results.{
  open_truncated, checker_results_of, fill_holes, handle_recorded, handle_results,
}
use check_protocols.Result.{ok}
use check_protocols.TempFiles.{Fs, contents_at, put_file}
use check_protocols.TempFiles.Create.{put_twice, write_all-put_file}
use check_protocols.TestSpec.{Tests}
use check_protocols.TestSpec.Load.{find_test_file, read_test_file, one_document, in_file, load}
use check_protocols.TestSpec.ParseTests.{parse}
use check_protocols.TestSpec.RoundTrip.{IsWritable}
use check_protocols.TestSpec.Serialize.{serialize_tests}
use check_protocols.TestSpec.WholeFile.{forget_tests, IsPath, parse-serialize_tests}
use check_protocols.Tracer.Run.{Output}
use check_protocols.Utf8.{to_string_lossy, is_utf8}
use check_protocols.Yaml.{Yaml, YamlCrate}
use check_protocols.YamlExt.{adjust_yaml_output, write_yaml}

written_twice :
    (p contents : Bytes) (fs : Fs)
    → contents_at (put_file p contents (put_file p [] fs)) p ≡ some contents
written_twice p contents fs = put_twice p contents p fs ∙ rw (equal_refl p)

read_test_file-utf8 :
    (fs : Fs) (file contents : Bytes)
    → contents_at fs file ≡ some contents
    → fs.unreadable file ≡ false
    → is_utf8 contents ≡ true
    → read_test_file fs file ≡ ok contents
unfolding read_test_file
read_test_file-utf8 fs file contents there readable utf8 =
    rw (there, read_test_file, readable, utf8) refl

write_yaml-dumped :
    (dump : Yaml → Option Bytes) (stream : Bytes) (yaml : Yaml) (text : Bytes)
    → dump yaml ≡ some text
    → write_yaml dump stream yaml ≡ ok (stream ++ adjust_yaml_output text)
unfolding write_yaml
write_yaml-dumped dump stream yaml text dumped = rw (dumped, write_yaml) refl

module _ (E : Platform) (Y : YamlCrate) where
  open E use {which}
  open Y use {dump, load_from_str}

  load-written :
      (script contents : Bytes) (fs : Fs) (yaml : Yaml) (tests : Tests)
      → contents_at fs (find_test_file script) ≡ some contents
      → fs.unreadable (find_test_file script) ≡ false
      → is_utf8 contents ≡ true
      → load_from_str contents ≡ some (yaml ∷ [])
      → parse E.compile_regex yaml ≡ ok tests
      → load E Y fs script ≡ ok (find_test_file script, tests)
  unfolding load one_document in_file
  load-written script contents fs yaml tests there readable utf8 one parsed =
      rw (read_test_file-utf8 fs (find_test_file script) contents there readable utf8, one, parsed)
        refl

  fill_holes-written :
      (script : Bytes) (unmocked_commands : List Bytes) (results : List RecorderResult) (fs : Fs)
      (output : Output) (yaml : Yaml) (text : Bytes)
      → exists fs (find_test_file script) ≡ true
      → fs.unwritable (find_test_file script) ≡ false
      → serialize_tests E Y (record {
        tests = map get_test results;
        unmocked_commands = unmocked_commands;
        interpreter = none;
      })
        ≡ ok yaml
      → dump yaml ≡ some text
      → (output' : Output) × (fill_holes E Y
            (find_test_file script)
            unmocked_commands
            results
            fs
            output
          ≡ ok (
            put_file
                (find_test_file script)
                (adjust_yaml_output text)
                (put_file (find_test_file script) [] fs),
            output',
          ))
  unfolding fill_holes open_truncated
  fill_holes-written script unmocked_commands results fs output yaml text there writable written
        dumped =
      (
        record output {
          stdout =
              output.stdout
              ++ (codes "Test holes filled in "
                  ++ (to_string_lossy (find_test_file script) ++ codes ".\n"));
        },
        rw
            (
              there,
              writable,
              written,
              write_yaml-dumped dump [] yaml text dumped,
              write_all-put_file (find_test_file script) (adjust_yaml_output text) fs writable,
            )
            refl,
      )

  -- Where every checked test has passed and a hole was filled, the program exits with 0, and the test
  -- file is loaded again with the tests of the results, up to what is lost when tests are
  -- written. The test file is there and can be written and read, the tests are writable, the
  -- paths of the unmocked commands are valid UTF-8, and the text that the emitter gives is UTF-8
  -- and is read as the value that was written.
  pub load-handle_results :
      (script : Bytes) (unmocked_commands : List Bytes) (results : List RecorderResult) (fs : Fs)
      (output : Output) (yaml : Yaml) (text : Bytes)
      → All Passed results
      → any is_recorded results ≡ true
      → All (IsWritable which Y) (map get_test results)
      → All IsPath unmocked_commands
      → exists fs (find_test_file script) ≡ true
      → fs.unwritable (find_test_file script) ≡ false
      → fs.unreadable (find_test_file script) ≡ false
      → serialize_tests E Y (record {
        tests = map get_test results;
        unmocked_commands = unmocked_commands;
        interpreter = none;
      })
        ≡ ok yaml
      → dump yaml ≡ some text
      → is_utf8 (adjust_yaml_output text) ≡ true
      → load_from_str (adjust_yaml_output text) ≡ some (yaml ∷ [])
      → (fs' : Fs) × (output' : Output) × (handle_results E Y
            (find_test_file script)
            unmocked_commands
            results
            fs
            output
          ≡ ok (pos 0, fs', output'))
        × (load E Y fs' script
            ≡ ok (
              find_test_file script,
              forget_tests which (record {
                tests = map get_test results;
                unmocked_commands = unmocked_commands;
                interpreter = none;
              }),
            ))
  unfolding handle_results handle_recorded exitcode put_file
  load-handle_results script unmocked_commands results fs output yaml text passed some_recorded
        writable paths there can_write can_read written dumped utf8 loaded =
      let file = find_test_file script in
      let contents = adjust_yaml_output text in
      let fs' = put_file file contents (put_file file [] fs) in
      let (output₁, filled) =
        fill_holes-written script unmocked_commands results fs output yaml text there can_write
          written dumped in
      let (report, formatted) = format_results_total (checker_results_of results) in
      let tests : Tests = record {
        tests = map get_test results;
        unmocked_commands = unmocked_commands;
        interpreter = none;
      } in
      let read : parse E.compile_regex yaml ≡ ok (forget_tests which tests) =
        rw (written) at (parse-serialize_tests E Y tests writable paths) in
      (
        fs',
        record output₁ { stdout = output₁.stdout ++ report },
        rw (all_pass-Passed results passed, some_recorded, filled, formatted) refl,
        load-written script contents fs' yaml (forget_tests which tests)
            (written_twice file contents fs) can_read utf8 loaded read,
      )
