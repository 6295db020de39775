-- ===== src/TestSpec/Parse.antt =====
-- test_spec/mod.rs: how a step and a test are read from YAML values.
use check_protocols.Command
use check_protocols.Prelude.{Bool, true, false, Option, some, List, [], ◌∷◌, ◌++◌, if◌then◌else◌}
use check_protocols.ArgumentParser.{parse_arguments}
use check_protocols.Command.{Command, new}
use check_protocols.CommandMatcher.{exact_match, regex_match, new_regex}
use check_protocols.FilePath.{starts_with_slash}
use check_protocols.Prelude.Text.{Bytes, codes, equal}
use check_protocols.Result.{
  expected_step, command_or_regex, hole_not_last, relative_cwd, R, ok, err, ◌>>=◌, ◌>>◌,
}
use check_protocols.TestSpec.{Step, new_step, Test, new_test, env_insert}
use check_protocols.Utils.{with_has_more}
use check_protocols.Yaml.{Yaml, string, hash, Yamls, Hash, empty_hash, entry, items}
use check_protocols.YamlExt.{
  expect_str, expect_bytes, expect_array, expect_object, expect_integer, expect_field, check_keys,
}

-- `if let Ok(yaml) = object.expect_field(field)`
unfoldable pub if_field {ℓ} : {A : Type ℓ} → Bytes → Hash → A → (Yaml → R A) → R A
if_field field object otherwise use_field = elim (expect_field field object) [
  | ok yaml ↦ use_field yaml
  | _ ↦ ok otherwise
]

unfoldable pub step_from_string : Bytes → R Step
step_from_string text = do command ← Command.new text; ok (new_step (exact_match command))

unfoldable pub add_step_exitcode : Hash → Step → R Step
unfolding if_field
add_step_exitcode object step =
    if_field (codes "exitcode") object step
      (λ yaml. do n ← expect_integer yaml; ok (record step { exitcode = n }))

unfoldable pub add_step_stdout : Hash → Step → R Step
unfolding if_field
add_step_stdout object step =
    if_field (codes "stdout") object step
      (λ yaml. do text ← expect_bytes yaml; ok (record step { stdout = text }))

abbrev pub step_keys : List Bytes
step_keys = codes "command" ∷ codes "stdout" ∷ codes "exitcode" ∷ codes "regex" ∷ []

abbrev pub test_keys : List Bytes
test_keys =
    codes "steps"
    ∷ codes "mockedFiles"
    ∷ codes "arguments"
    ∷ codes "env"
    ∷ codes "exitcode"
    ∷ codes "stdout"
    ∷ codes "stderr"
    ∷ codes "cwd"
    ∷ []

-- `add_arguments` and the others on a test, each on a field that may be missing
unfoldable pub add_arguments : Hash → Test → R Test
unfolding if_field
add_arguments object test = if_field (codes "arguments") object test (λ yaml. do
  text ← expect_str yaml
  arguments ← parse_arguments text
  ok (record test { arguments = arguments }))

unfoldable pub insert_entries : Hash → List (Bytes × Bytes) → R (List (Bytes × Bytes))
insert_entries empty_hash env = ok env
insert_entries (entry key value object) env = do
  k ← expect_str key
  v ← expect_str value
  insert_entries object (env_insert k v env)

unfoldable pub add_env : Hash → Test → R Test
unfolding if_field insert_entries
add_env object test = if_field (codes "env") object test (λ yaml. do
  entries ← expect_object yaml
  env ← insert_entries entries test.env
  ok (record test { env = env }))

unfoldable pub add_cwd : Hash → Test → R Test
unfolding if_field
add_cwd object test = if_field (codes "cwd") object test (λ yaml. do
  cwd ← expect_str yaml
  if starts_with_slash cwd then ok (record test { cwd = some cwd }) else err (relative_cwd cwd))

unfoldable pub add_stdout : Hash → Test → R Test
unfolding if_field
add_stdout object test =
    if_field (codes "stdout") object test
      (λ yaml. do text ← expect_bytes yaml; ok (record test { stdout = some text }))

unfoldable pub add_stderr : Hash → Test → R Test
unfolding if_field
add_stderr object test =
    if_field (codes "stderr") object test
      (λ yaml. do text ← expect_bytes yaml; ok (record test { stderr = some text }))

unfoldable pub add_exitcode : Hash → Test → R Test
unfolding if_field
add_exitcode object test =
    if_field (codes "exitcode") object test
      (λ yaml. do n ← expect_integer yaml; ok (record test { exitcode = some n }))

-- the loop of `add_mocked_files` and `add_unmocked_commands`: a `push` for each of these values
unfoldable pub expect_strs : List Yaml → List Bytes → R (List Bytes)
expect_strs [] texts = ok texts
expect_strs (yaml ∷ yamls) texts = do text ← expect_str yaml; expect_strs yamls (texts ++ text ∷ [])

unfoldable pub add_mocked_files : Hash → Test → R Test
unfolding if_field
add_mocked_files object test = if_field (codes "mockedFiles") object test (λ yaml. do
  paths ← expect_array yaml
  files ← expect_strs (items paths) test.mocked_files
  ok (record test { mocked_files = files }))

pub data StepOrHole : Type 0 where
  step_item : Step → StepOrHole
  hole_item : StepOrHole

unfoldable pub is_hole : Yaml → Bool
is_hole (string text) = equal text (codes "_")
is_hole _ = false

-- what is done with one item of the steps
unfoldable pub push_item : StepOrHole → Bool → Test → R Test
push_item (step_item step) has_more test = ok (record test { steps = test.steps ++ step ∷ [] })
push_item hole_item true test = err hole_not_last
push_item hole_item false test = ok (record test { ends_with_hole = true })

module _ (compile : Bytes → Option (Bytes → Bool)) where
  unfoldable pub step_from_regex : Yaml → R Step
  step_from_regex yaml = do
    text ← expect_str yaml
    regex ← new_regex compile text
    ok (new_step (regex_match regex))

  -- the `match` on the fields `command` and `regex`
  unfoldable pub step_of : R Yaml → R Yaml → R Step
  unfolding step_from_regex
  step_of (ok command) (err e) = do text ← expect_str command; step_from_string text
  step_of (err e) (ok regex) = step_from_regex regex
  step_of _ _ = err command_or_regex

  unfoldable pub parse_step : Yaml → R Step
  unfolding step_of add_step_stdout add_step_exitcode
  parse_step (string text) = step_from_string text
  parse_step (hash object) = do
    check_keys step_keys object
    step ← step_of (expect_field (codes "command") object) (expect_field (codes "regex") object)
    step' ← add_step_stdout object step
    add_step_exitcode object step'
  parse_step yaml = err (expected_step yaml)

  unfoldable pub parse_step_or_hole : Yaml → R StepOrHole
  unfolding is_hole
  parse_step_or_hole yaml =
      let parsed = (do step ← parse_step yaml; ok (step_item step)) in
      if is_hole yaml then ok hole_item else parsed

  unfoldable pub from_items : List (Yaml × Bool) → Test → R Test
  unfolding push_item
  from_items [] test = ok test
  from_items ((yaml, has_more) ∷ rest) test = do
    step_or_hole ← parse_step_or_hole yaml
    test' ← push_item step_or_hole has_more test
    from_items rest test'

  unfoldable pub test_from_array : Yamls → R Test
  unfolding from_items
  test_from_array steps = from_items (with_has_more (items steps)) (new_test [])

  unfoldable pub test_from_object : Hash → R Test
  unfolding add_arguments add_env add_cwd add_stdout add_stderr add_exitcode add_mocked_files
  test_from_object object = do
    check_keys test_keys object
    steps ← expect_field (codes "steps") object
    listed ← expect_array steps
    test₀ ← test_from_array listed
    test₁ ← add_arguments object test₀
    test₂ ← add_env object test₁
    test₃ ← add_cwd object test₂
    test₄ ← add_stdout object test₃
    test₅ ← add_stderr object test₄
    test₆ ← add_exitcode object test₅
    add_mocked_files object test₆
