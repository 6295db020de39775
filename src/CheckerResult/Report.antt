-- ===== src/CheckerResult/Report.antt =====
-- The report on all tests: `CheckerResult::format` and `CheckerResults::format`.
use check_protocols.Prelude.{
  ℕ, ◌+◌, ◌≡◌, refl, inl, inr, false, Option, none, some, [], ◌∷◌, ◌++◌, if◌then◌else◌, Bool-cases,
}
use check_protocols.CheckerResult.{CheckerResult, pass, failure, is_pass, CheckerResults, all_pass}
use check_protocols.Prelude.Int.{pos, show}
use check_protocols.Prelude.Text.{Bytes, codes}
use check_protocols.Result.{R, ok, panic, ◌>>=◌}

header : Option ℕ → Bytes
header none = codes "error"
header (some number) = codes "error in test " ++ show (pos number)

-- `number` is missing where a result stands alone: the code expects it to be a failure then.
unfoldable pub format_result : CheckerResult → Option ℕ → R Bytes
unfolding header
format_result (failure error) number = ok (header number ++ (codes ":\n" ++ error))
format_result pass none = panic
format_result pass (some number) =
    ok (codes "test " ++ (show (pos number) ++ codes ":\n  Tests passed.\n"))

-- the formatted results from number `i + 1` on, joined
format_from : ℕ → CheckerResults → R Bytes
format_from i [] = ok []
format_from i (result ∷ results) = do
  text ← format_result result (some (i + 1))
  rest ← format_from (i + 1) results
  ok (text ++ rest)

format_many : CheckerResults → R Bytes
unfolding format_from
format_many (result ∷ []) = format_result result none
format_many results = format_from 0 results

unfoldable pub format_results : CheckerResults → R Bytes
unfolding format_many
format_results results =
    let report = format_many results in
    if all_pass results then ok (codes "All tests passed.\n") else report

format_result_numbered :
    (result : CheckerResult) (number : ℕ)
    → (text : Bytes) × (format_result result (some number) ≡ ok text)
unfolding format_result
format_result_numbered (failure error) number = (_, refl)
format_result_numbered pass number = (_, refl)

format_from_total :
    (i : ℕ) (results : CheckerResults) → (text : Bytes) × (format_from i results ≡ ok text)
unfolding format_from
format_from_total i [] = ([], refl)
format_from_total i (result ∷ results) =
    let (text, e) = format_result_numbered result (i + 1) in
    let (rest, f) = format_from_total (i + 1) results in (text ++ rest, rw (e, f) refl)

format_many_total :
    (results : CheckerResults)
    → all_pass results ≡ false
    → (text : Bytes) × (format_many results ≡ ok text)
unfolding format_many format_result all_pass is_pass
format_many_total [] h = absurd (cc)
format_many_total (pass ∷ []) h = absurd (cc)
format_many_total (failure error ∷ []) h = (_, refl)
format_many_total (r ∷ r' ∷ results) h = format_from_total 0 (r ∷ r' ∷ results)

-- Every list of results has a report: the panic for a passing result that stands alone is not
-- reached, since such a list is reported as passed.
pub format_results_total :
    (results : CheckerResults) → (text : Bytes) × (format_results results ≡ ok text)
unfolding format_results
format_results_total results = elim (Bool-cases (all_pass results)) [
  | inl e ↦ (codes "All tests passed.\n", rw e refl)
  | inr e ↦ let (text, t) = format_many_total results e in (text, rw (e, t) refl)
]
