-- ===== src/TestSpec/SoundFields.antt =====
-- What every step and every test that was read satisfies, kept by each of the fields.
use check_protocols.Command
use check_protocols.Prelude.{
  ◌≡◌, inl, inr, Bool, true, Option, none, some, List, [], ◌∷◌, ◌++◌, arith, Bool-cases,
  Option-cases, All,
}
use check_protocols.ArgumentParser.{parse_arguments}
use check_protocols.ArgumentParser.Total.{parse_arguments-Ends}
use check_protocols.Command.{Command, new}
use check_protocols.Command.Total.{new-Ends}
use check_protocols.CommandMatcher.{new_regex}
use check_protocols.FilePath.{starts_with_slash}
use check_protocols.Prelude.Text.{Bytes, codes}
use check_protocols.Result.{R, Ends, Ends-bind}
use check_protocols.TestSpec.{Step, new_step, Test, Tests, env_insert}
use check_protocols.TestSpec.Parse.{
  if_field, step_from_string, add_step_exitcode, add_step_stdout, add_arguments, insert_entries,
  add_env, add_cwd, add_stdout, add_stderr, add_exitcode, expect_strs, add_mocked_files,
}
use check_protocols.TestSpec.RoundTrip.{InRange}
use check_protocols.Yaml.{Yaml, string, Hash, empty_hash, entry, hash_get, items}
use check_protocols.YamlExt.{
  expect_str, expect_bytes, expect_array, expect_object, expect_integer, expect_field,
}
use check_protocols.YamlExt.Integers.{InI32}
use check_protocols.YamlExt.Total.{
  expect_str-Ends, expect_bytes-Ends, expect_array-Ends, expect_object-Ends, expect_integer-Ends,
}

-- The exit codes have 32 bits, and a working directory is an absolute path.
abbrev pub IsSoundStep : Step → Type 0
IsSoundStep step = InI32 step.exitcode

abbrev pub IsAbsolute : Option Bytes → Type 0
IsAbsolute none = Unit
IsAbsolute (some path) = starts_with_slash path ≡ true

pub record IsSound (test : Test) : Type 0 where
  pub steps : All IsSoundStep test.steps
  pub cwd : IsAbsolute test.cwd
  pub exitcode : InRange test.exitcode

abbrev pub AllSound : Tests → Type 0
AllSound tests = All IsSound tests.tests

pub expect_strs-Ends :
    (yamls : List Yaml) (texts : List Bytes) → Ends (λ s. Unit) (expect_strs yamls texts)
unfolding expect_strs
expect_strs-Ends [] texts = tt
expect_strs-Ends (y ∷ yamls) texts =
    Ends-bind (λ s. Unit) (λ s. Unit) (expect_str y) _ (expect_str-Ends y)
      λ s _. expect_strs-Ends yamls (texts ++ s ∷ [])

insert_entries-Ends :
    (object : Hash) (env : List (Bytes × Bytes)) → Ends (λ e. Unit) (insert_entries object env)
unfolding insert_entries
insert_entries-Ends empty_hash env = tt
insert_entries-Ends (entry key value object) env =
    Ends-bind (λ s. Unit) (λ e. Unit) (expect_str key) _ (expect_str-Ends key)
      λ k _.
        Ends-bind (λ s. Unit) (λ e. Unit) (expect_str value) _ (expect_str-Ends value)
          λ v _. insert_entries-Ends object (env_insert k v env)

-- A field that may be missing keeps what holds of a test or a step.
pub if_field-Ends :
    {A : Type 0} (P : A → Type 0) (field : Bytes) (object : Hash) (a : A) (use_field : Yaml → R A)
    → P a
    → ((yaml : Yaml) → Ends P (use_field yaml))
    → Ends P (if_field field object a use_field)
unfolding if_field expect_field
if_field-Ends P field object a use_field h k =
    elim (Option-cases (hash_get (string field) object)) [
      | inl e ↦ rw (e, Ends) h
      | inr (yaml, e) ↦ rw (e, Ends) (k yaml)
    ]

pub step_from_string-Ends : (text : Bytes) → Ends IsSoundStep (step_from_string text)
unfolding step_from_string new_step
step_from_string-Ends text =
    Ends-bind (λ c. Unit) IsSoundStep (Command.new text) _ (new-Ends text) (λ c _. ground arith)

pub new_regex-Ends :
    (compile : Bytes → Option (Bytes → Bool)) (text : Bytes)
    → Ends (λ r. Unit) (new_regex compile text)
unfolding new_regex
new_regex-Ends compile text = elim (Option-cases (compile (b'^' ∷ (text ++ b'$' ∷ [])))) [
  | inl e ↦ rw (e, Ends) tt
  | inr (regex, e) ↦ rw (e, Ends) tt
]

pub add_step_exitcode-Ends :
    (object : Hash) (step : Step)
    → IsSoundStep step
    → Ends IsSoundStep (add_step_exitcode object step)
unfolding add_step_exitcode
add_step_exitcode-Ends object step h =
    if_field-Ends IsSoundStep (codes "exitcode") object step _ h λ yaml.
      Ends-bind InI32 IsSoundStep (expect_integer yaml) _ (expect_integer-Ends yaml) (λ n k. k)

pub add_step_stdout-Ends :
    (object : Hash) (step : Step)
    → IsSoundStep step
    → Ends IsSoundStep (add_step_stdout object step)
unfolding add_step_stdout
add_step_stdout-Ends object step h =
    if_field-Ends IsSoundStep (codes "stdout") object step _ h λ yaml.
      Ends-bind (λ s. Unit) IsSoundStep (expect_bytes yaml) _ (expect_bytes-Ends yaml) (λ s _. h)

pub add_arguments-Ends :
    (object : Hash) (test : Test) → IsSound test → Ends IsSound (add_arguments object test)
unfolding add_arguments
add_arguments-Ends object test h = if_field-Ends IsSound (codes "arguments") object test _ h λ yaml.
    Ends-bind (λ s. Unit) IsSound (expect_str yaml) _ (expect_str-Ends yaml)
      λ text _.
        Ends-bind (λ ws. Unit) IsSound (parse_arguments text) _ (parse_arguments-Ends text)
          λ ws _. record { steps = h.steps; cwd = h.cwd; exitcode = h.exitcode }

pub add_env-Ends : (object : Hash) (test : Test) → IsSound test → Ends IsSound (add_env object test)
unfolding add_env
add_env-Ends object test h = if_field-Ends IsSound (codes "env") object test _ h λ yaml.
    Ends-bind (λ s. Unit) IsSound (expect_object yaml) _ (expect_object-Ends yaml)
      λ entries _.
        Ends-bind (λ e. Unit) IsSound (insert_entries entries test.env) _
          (insert_entries-Ends entries test.env)
          λ env _. record { steps = h.steps; cwd = h.cwd; exitcode = h.exitcode }

pub add_cwd-Ends : (object : Hash) (test : Test) → IsSound test → Ends IsSound (add_cwd object test)
unfolding add_cwd
add_cwd-Ends object test h = if_field-Ends IsSound (codes "cwd") object test _ h λ yaml.
    Ends-bind (λ s. Unit) IsSound (expect_str yaml) _ (expect_str-Ends yaml)
      λ path _. elim (Bool-cases (starts_with_slash path)) [
        | inl e ↦ rw e (record { steps = h.steps; cwd = e; exitcode = h.exitcode })
        | inr e ↦ rw e tt
      ]

pub add_stdout-Ends :
    (object : Hash) (test : Test) → IsSound test → Ends IsSound (add_stdout object test)
unfolding add_stdout
add_stdout-Ends object test h = if_field-Ends IsSound (codes "stdout") object test _ h λ yaml.
    Ends-bind (λ s. Unit) IsSound (expect_bytes yaml) _ (expect_bytes-Ends yaml)
      λ text _. record { steps = h.steps; cwd = h.cwd; exitcode = h.exitcode }

pub add_stderr-Ends :
    (object : Hash) (test : Test) → IsSound test → Ends IsSound (add_stderr object test)
unfolding add_stderr
add_stderr-Ends object test h = if_field-Ends IsSound (codes "stderr") object test _ h λ yaml.
    Ends-bind (λ s. Unit) IsSound (expect_bytes yaml) _ (expect_bytes-Ends yaml)
      λ text _. record { steps = h.steps; cwd = h.cwd; exitcode = h.exitcode }

pub add_exitcode-Ends :
    (object : Hash) (test : Test) → IsSound test → Ends IsSound (add_exitcode object test)
unfolding add_exitcode
add_exitcode-Ends object test h = if_field-Ends IsSound (codes "exitcode") object test _ h λ yaml.
    Ends-bind InI32 IsSound (expect_integer yaml) _ (expect_integer-Ends yaml)
      λ n k. record { steps = h.steps; cwd = h.cwd; exitcode = k }

pub add_mocked_files-Ends :
    (object : Hash) (test : Test) → IsSound test → Ends IsSound (add_mocked_files object test)
unfolding add_mocked_files
add_mocked_files-Ends object test h =
    if_field-Ends IsSound (codes "mockedFiles") object test _ h λ yaml.
      Ends-bind (λ s. Unit) IsSound (expect_array yaml) _ (expect_array-Ends yaml)
        λ paths _.
          Ends-bind (λ s. Unit) IsSound (expect_strs (items paths) test.mocked_files) _
            (expect_strs-Ends (items paths) test.mocked_files)
            λ files _. record { steps = h.steps; cwd = h.cwd; exitcode = h.exitcode }
