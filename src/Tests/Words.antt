-- ===== src/Tests/Words.antt =====
-- Command lines, executables and memory at concrete inputs.
use check_protocols.Command
use check_protocols.Prelude.{◌≡◌, refl, ◌≢◌, true, Option, none, some, [], ◌∷◌, map, All}
use check_protocols.ArgumentParser.{parse_arguments}
use check_protocols.ArgumentParser.Total.{parse_arguments_total}
use check_protocols.Command.{Command, format_arguments, new, format, compare}
use check_protocols.Command.Replay.{IsPlain, IsArgument, compare-new-format}
use check_protocols.Command.RoundTrip.{drop_empty, parse_arguments-format_arguments}
use check_protocols.ExecutablePath.{
  canonicalize, compare_executables, FoundAs, KnownAs, compare_executables-KnownAs,
  compare_executables-FoundAs,
}
use check_protocols.FilePath.{file_name, path_eq}
use check_protocols.Prelude.Text.{Bytes, codes}
use check_protocols.Result.{ok, panic, diverge}
use check_protocols.Tests.Instances.{false_command}
use check_protocols.Utf8.{to_string_lossy, is_utf8}

parse_arguments_total_example :
    (parse_arguments (codes "ls \"a") ≢ diverge) × (parse_arguments (codes "ls \"a") ≢ panic)
parse_arguments_total_example = parse_arguments_total (codes "ls \"a")

parse_arguments-format_arguments_example :
    parse_arguments (format_arguments (codes "ls" ∷ [] ∷ codes "a b" ∷ []))
    ≡ ok (drop_empty (map to_string_lossy (codes "ls" ∷ [] ∷ codes "a b" ∷ [])))
parse_arguments-format_arguments_example =
    parse_arguments-format_arguments (codes "ls" ∷ [] ∷ codes "a b" ∷ [])

pub IsPlain-executable : IsPlain (canonicalize (λ p. none) (codes "false"))
unfolding canonicalize file_name is_utf8
IsPlain-executable = record { not_empty = λ e. cc; utf8 = refl; unquoted = refl }

pub one-IsArgument : All IsArgument (codes "a b" ∷ [])
unfolding is_utf8
one-IsArgument = ((λ e. cc, refl), tt)

compare-new-format_example :
    (d : Command) × (Command.new (Command.format (λ p. none) false_command) ≡ ok d)
    × (compare (λ p. none) d false_command ≡ true)
compare-new-format_example =
    compare-new-format (λ p. none) false_command IsPlain-executable one-IsArgument

abbrev bin_ls : Bytes → Option Bytes
bin_ls p = some (codes "/bin/ls")

bin_ls-FoundAs : FoundAs bin_ls (codes "ls") (codes "/bin/ls")
unfolding file_name path_eq
bin_ls-FoundAs = (refl, codes "/bin/ls", refl, refl)

slashes-FoundAs : FoundAs bin_ls (codes "ls") (codes "/bin//ls")
unfolding file_name path_eq
slashes-FoundAs = (refl, codes "/bin/ls", refl, refl)

bin_ls-ls : compare_executables bin_ls (codes "/bin/ls") (codes "ls") ≡ true
unfolding compare_executables canonicalize file_name path_eq
bin_ls-ls = refl

compare_executables-KnownAs_example :
    (p' : Bytes) × (q' : Bytes) × KnownAs bin_ls p' (codes "/bin/ls")
    × KnownAs bin_ls q' (codes "ls")
    × (path_eq p' q' ≡ true)
compare_executables-KnownAs_example =
    compare_executables-KnownAs bin_ls (codes "/bin/ls") (codes "ls") bin_ls-ls

compare_executables-FoundAs_example :
    (compare_executables bin_ls (codes "/bin/ls") (codes "ls") ≡ true)
    × (compare_executables bin_ls (codes "/bin/ls") (codes "/bin//ls") ≡ true)
compare_executables-FoundAs_example =
    compare_executables-FoundAs bin_ls (codes "ls") (codes "/bin/ls") (codes "/bin//ls")
      bin_ls-FoundAs slashes-FoundAs
