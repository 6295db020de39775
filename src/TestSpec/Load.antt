-- ===== src/TestSpec/Load.antt =====
-- test_spec/mod.rs: the test file of a script, and `Tests::load`.
use check_protocols.Prelude.{none, some, List, [], ◌∷◌, ◌++◌, if◌then◌else◌}
use check_protocols.Platform.{Platform}
use check_protocols.Prelude.Text.{Bytes, codes}
use check_protocols.Result.{
  io_failed, invalid_utf8, test_file_not_found, invalid_yaml, multiple_documents, no_documents,
  in_test_file, R, ok, err, panic, diverge, ◌>>=◌,
}
use check_protocols.TempFiles.{Fs, contents_at}
use check_protocols.TestSpec.{Tests}
use check_protocols.TestSpec.ParseTests.{parse}
use check_protocols.Utf8.{is_utf8}
use check_protocols.Utils.{path_to_string}
use check_protocols.Yaml.{Yaml, YamlCrate}

unfoldable pub find_test_file : Bytes → Bytes
find_test_file executable = executable ++ (codes "." ++ codes "test.yaml")

unfoldable pub read_test_file : Fs → Bytes → R Bytes
read_test_file fs test_file = elim (contents_at fs test_file) [
  | none ↦ err (test_file_not_found test_file)
  | some contents ↦
      if fs.unreadable test_file
      then (do name ← path_to_string test_file; err (io_failed name))
      else if is_utf8 contents
      then ok contents
      else err (invalid_utf8 contents)
]

-- the only document of the file
unfoldable pub one_document : Bytes → List Yaml → R Yaml
one_document test_file [] = err (no_documents test_file)
one_document test_file (yaml ∷ []) = ok yaml
one_document test_file (yaml ∷ yaml' ∷ yamls) = err (multiple_documents test_file)

-- `map_err`
unfoldable pub in_file {ℓ} : {A : Type ℓ} → Bytes → R A → R A
in_file test_file (ok a) = ok a
in_file test_file (err e) = err (in_test_file test_file e)
in_file test_file panic = panic
in_file test_file diverge = diverge

module _ (E : Platform) (Y : YamlCrate) where
  unfoldable pub load : Fs → Bytes → R (Bytes × Tests)
  unfolding one_document in_file
  load fs executable_path = do
    let test_file = find_test_file executable_path
    file_contents ← read_test_file fs test_file
    yaml ← elim (Y.load_from_str file_contents) [
      | none ↦ err (invalid_yaml test_file)
      | some yamls ↦ one_document test_file yamls
    ]
    tests ← in_file test_file (parse E.compile_regex yaml)
    ok (test_file, tests)
