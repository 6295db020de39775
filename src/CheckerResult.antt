-- ===== src/CheckerResult.antt =====
-- test_checker/checker_result.rs: the outcome of a test, and the report on all tests.
pub mod Report
use check_protocols.Prelude.{
  Bool, true, false, ◌&&◌, Option, none, some, List, [], ◌∷◌, ◌++◌, if◌then◌else◌,
}
use check_protocols.Prelude.Int.{ℤ, pos}
use check_protocols.Prelude.Text.{Bytes, codes}
use check_protocols.Result.{R, ok, panic}

pub data CheckerResult : Type 0 where
  pass : CheckerResult
  failure : Bytes → CheckerResult

unfoldable pub is_pass : CheckerResult → Bool
is_pass pass = true
is_pass (failure error) = false

-- The first error is kept.
unfoldable pub register_error : Bytes → CheckerResult → CheckerResult
register_error message pass = failure message
register_error message (failure error) = failure error

-- the text before `trim_margin`
pub step_error : Bytes → Bytes → Bytes
step_error expected received =
    codes "\n                  |  expected: "
    ++ (expected
        ++ (codes "\n                  |  received: "
            ++ (received ++ codes "\n                  |\n                ")))

-- `trim_margin().unwrap()` panics where the text has no margin to trim.
unfoldable pub register_step_error :
    (Bytes → Option Bytes) → Bytes → Bytes → CheckerResult → R CheckerResult
unfolding step_error
register_step_error trim_margin expected received result =
    elim (trim_margin (step_error expected received)) [
      | none ↦ panic
      | some message ↦ ok (register_error message result)
    ]

abbrev pub CheckerResults : Type 0
CheckerResults = List CheckerResult

unfoldable pub all_pass : CheckerResults → Bool
unfolding is_pass
all_pass [] = true
all_pass (r ∷ rs) = is_pass r && all_pass rs

unfoldable pub exitcode : CheckerResults → ℤ
unfolding all_pass
exitcode results = if all_pass results then pos 0 else pos 1
