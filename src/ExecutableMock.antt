-- ===== src/ExecutableMock.antt =====
-- test_checker/executable_mock.rs: the file that is run in place of a command, and the run of it.
use check_protocols.Prelude.{
  ◌≡◌, refl, inl, inr, Bool, true, false, Option, none, some, [], ◌∷◌, ◌++◌, append_assoc, arith,
  ◌==◌, if◌then◌else◌, Bool-cases, any,
}
use check_protocols.ArgumentParser.{newline}
use check_protocols.Platform.{Config, Platform}
use check_protocols.Prelude.Int.{ℤ}
use check_protocols.Prelude.Text.{Bytes, codes}
use check_protocols.Result.{io_failed, no_scriptkeeper, bad_mock, R, ok, err, ok-injective}
use check_protocols.TempFiles.{Fs, contents_at}

-- `Context::Context` of context.rs
pub record Context : Type 0 where
  pub scriptkeeper_executable : Bytes

-- `Path::exists`
unfoldable pub exists : Fs → Bytes → Bool
exists fs p = elim (contents_at fs p) [ some _ ↦ true | none ↦ false ]

-- up to the first newline and without it
unfoldable pub skip_hashbang_line : Bytes → Bytes
skip_hashbang_line [] = []
skip_hashbang_line (c ∷ s) = if c == newline then s else skip_hashbang_line s

module _ (E : Platform) where
  open E use {serialize, deserialize, deserialize-serialize}

  unfoldable pub mock_contents : Context → Config → Bytes
  mock_contents context config =
      codes "#!"
      ++ (context.scriptkeeper_executable ++ (codes " --executable-mock\n" ++ serialize config))

  unfoldable pub create_mock_executable : Context → Fs → Config → R Bytes
  unfolding exists
  create_mock_executable context fs config =
      if exists fs context.scriptkeeper_executable
      then ok (mock_contents context config)
      else err (no_scriptkeeper context.scriptkeeper_executable)

  run_config : Bytes → Bytes → Option Config → R (Bytes × ℤ)
  run_config path stdout none = err (bad_mock path)
  run_config path stdout (some config) = ok (stdout ++ config.stdout, config.exitcode)

  -- The result is standard output with what the mock wrote, and the exit code.
  unfoldable pub run : Fs → Bytes → Bytes → R (Bytes × ℤ)
  unfolding run_config
  run fs stdout executable_mock_path = elim (contents_at fs executable_mock_path) [
    | none ↦ err (io_failed executable_mock_path)
    | some contents ↦
        run_config executable_mock_path stdout (deserialize (skip_hashbang_line contents))
  ]

  skip-append :
      (line rest : Bytes)
      → any (λ c. c == newline) line ≡ false
      → skip_hashbang_line (line ++ (newline ∷ rest)) ≡ rest
  unfolding skip_hashbang_line
  skip-append [] rest h = refl
  skip-append (c ∷ line) rest h = ground (arith, skip-append line rest)

  any-append :
      (a b : Bytes)
      → any (λ c. c == newline) a ≡ false
      → any (λ c. c == newline) b ≡ false
      → any (λ c. c == newline) (a ++ b) ≡ false
  any-append [] b h k = k
  any-append (x ∷ a) b h k = ground (arith, any-append a b)

  skip-mock_contents :
      (context : Context) (config : Config)
      → any (λ c. c == newline) context.scriptkeeper_executable ≡ false
      → skip_hashbang_line (mock_contents context config) ≡ serialize config
  unfolding mock_contents skip_hashbang_line
  skip-mock_contents context config plain =
      rw
        (← append_assoc context.scriptkeeper_executable (codes " --executable-mock")
          (newline ∷ serialize config))
        (skip-append (context.scriptkeeper_executable ++ codes " --executable-mock")
          (serialize config) (any-append context.scriptkeeper_executable _ plain refl))

  -- A mock does what its step says: the file that stands for a command, if it was created and is
  -- run, adds the output of the step to standard output and exits with the exit code of the step.
  -- The path of the scriptkeeper executable must have no newline.
  pub run-create_mock_executable :
      (context : Context) (config : Config) (fs fs' : Fs) (path contents stdout : Bytes)
      → any (λ c. c == newline) context.scriptkeeper_executable ≡ false
      → create_mock_executable context fs config ≡ ok contents
      → contents_at fs' path ≡ some contents
      → run fs' stdout path ≡ ok (stdout ++ config.stdout, config.exitcode)
  unfolding run create_mock_executable run_config
  run-create_mock_executable context config fs fs' path contents stdout plain created there =
      elim (Bool-cases (exists fs context.scriptkeeper_executable)) [
        | inr e ↦ absurd (cc (rw e at created))
        | inl e ↦
            let same : mock_contents context config ≡ contents =
              ok-injective _ contents (rw e at created) in
            let read : deserialize (skip_hashbang_line contents) ≡ some config =
              rw (← same, skip-mock_contents context config plain) (deserialize-serialize config) in
            rw (there, run) (rw (read, run_config))
      ]
