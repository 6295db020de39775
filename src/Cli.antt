-- ===== src/Cli.antt =====
-- cli.rs: the command line. The crate clap is a parameter: what its `App` for this program finds in the
-- arguments, or nothing where it refuses them.
use check_protocols.Prelude.{
  ℕ, zero, suc, Bool, false, Option, none, some, List, [], ◌∷◌, if◌then◌else◌,
}
use check_protocols.Prelude.Text.{Bytes, codes, equal}
use check_protocols.Result.{usage, R, ok, err, panic, ◌>>=◌}
use check_protocols.Utf8.{is_utf8}

pub data Args : Type 0 where
  executable_mock_args : Bytes → Args
  scriptkeeper_args : Bytes → Bool → Args

pub record Matches : Type 0 where
  pub program : Option Bytes
  pub record_flag : Bool

-- `args.get(i)`
unfoldable pub get_arg : List Bytes → ℕ → Option Bytes
get_arg [] i = none
get_arg (a ∷ args) zero = some a
get_arg (a ∷ args) (suc i) = get_arg args i

-- on the file of the mock
mock_args : Option Bytes → R Args
mock_args none = panic
mock_args (some path) = ok (executable_mock_args path)

-- on what clap finds; the program is a required argument, and `unwrap` panics without it
script_args : Option Matches → R Args
script_args none = err usage
script_args (some m) = elim m.program [
  | none ↦ panic
  | some program ↦ ok (scriptkeeper_args program m.record_flag)
]

unfoldable pub is_mock_flag : Option Bytes → Bool
is_mock_flag none = false
is_mock_flag (some arg) = equal arg (codes "--executable-mock")

-- `std::env::args()`, when it is collected: an argument that is not UTF-8 panics
unfoldable pub env_args : List Bytes → R (List Bytes)
env_args [] = ok []
env_args (arg ∷ args) =
    let rest = (do args' ← env_args args; ok (arg ∷ args')) in if is_utf8 arg then rest else panic

unfoldable pub args_from : (List Bytes → Option Matches) → List Bytes → R Args
unfolding get_arg mock_args script_args is_mock_flag
args_from get_matches args =
    if is_mock_flag (get_arg args 1)
    then mock_args (get_arg args 2)
    else script_args (get_matches args)

-- on the arguments that the kernel passes on
unfoldable pub parse_args_safe : (List Bytes → Option Matches) → List Bytes → R Args
unfolding env_args args_from
parse_args_safe get_matches arguments = do args ← env_args arguments; args_from get_matches args
