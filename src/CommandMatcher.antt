-- ===== src/CommandMatcher.antt =====
-- test_spec/command_matcher.rs: what a step of a test expects. The crate `regex` is a parameter:
-- `Regex::new` gives the test that a pattern stands for, or fails.
use check_protocols.Command
use check_protocols.Prelude.{Bool, Option, none, some, [], ◌∷◌, ◌++◌}
use check_protocols.Command.{Command, compare}
use check_protocols.Prelude.Text.{Bytes}
use check_protocols.Result.{bad_regex, R, ok, err}

pub record AnchoredRegex : Type 0 where
  pub original_string : Bytes
  pub regex : Bytes → Bool

pub data CommandMatcher : Type 0 where
  exact_match : Command → CommandMatcher
  regex_match : AnchoredRegex → CommandMatcher

-- `format!("^{}$", raw_regex)`
anchor : Bytes → Bytes
anchor raw_regex = b'^' ∷ (raw_regex ++ b'$' ∷ [])

unfoldable pub new_regex : (Bytes → Option (Bytes → Bool)) → Bytes → R AnchoredRegex
unfolding anchor
new_regex compile raw_regex = elim (compile (anchor raw_regex)) [
  | some regex ↦ ok (record { original_string = raw_regex; regex = regex })
  | none ↦ err (bad_regex raw_regex)
]

unfoldable pub is_match : AnchoredRegex → Bytes → Bool
is_match r other = r.regex other

module _ (which : Bytes → Option Bytes) where
  unfoldable pub matches : CommandMatcher → Command → Bool
  matches (exact_match command) other = Command.compare which command other
  matches (regex_match regex) other = is_match regex (Command.format which other)

  unfoldable pub format : CommandMatcher → Bytes
  format (exact_match command) = Command.format which command
  format (regex_match regex) = regex.original_string
