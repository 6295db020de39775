-- ===== src/YamlExt/Integers.antt =====
-- The bounds of the integers in a test file.
use check_protocols.Prelude.{
  ℕ, ◌-◌, ◌^◌, ◌≤◌, ◌<◌, ◌≡◌, refl, ap, subst, ◌≢◌, inl, inr, true, false, arith, ltb,
  if◌then◌else◌, Bool-cases,
}
use check_protocols.Prelude.Int.{ℤ, pos, negsuc}
use check_protocols.Result.{
  expected_integer, integer_too_large, ok, err, Returns, Returns-bind, Returns-any,
}
use check_protocols.Yaml.{Yaml, integer, as_i64}
use check_protocols.YamlExt.{expect, low_bits, to_i32, above_i32, expect_integer}

-- the values of `i32`
abbrev pub InI32 : ℤ → Type 0
InI32 (pos n) = n < 2 ^ 31
InI32 (negsuc n) = n < 2 ^ 31

pub to_i32-InI32 : (n : ℤ) → InI32 (to_i32 n)
unfolding to_i32 low_bits
to_i32-InI32 (pos n) = ground arith
to_i32-InI32 (negsuc n) = ground arith

pub to_i32_id : (n : ℤ) → InI32 n → to_i32 n ≡ n
unfolding to_i32 low_bits
to_i32_id (pos n) h = ground arith
to_i32_id (negsuc n) h = ground arith

pub expect_integer-integer : (n : ℤ) → InI32 n → expect_integer (integer n) ≡ ok n
unfolding expect_integer
expect_integer-integer (pos n) h =
    let small : ltb (2 ^ 31 - 1) n ≡ false = ground arith in rw small (ap ok (to_i32_id (pos n) h))
expect_integer-integer (negsuc n) h = ap ok (to_i32_id (negsuc n) h)

-- An integer that is not negative is read as it is if it fits into 32 bits, and otherwise it is an
-- error. What is read is in the range of `i32` for every value.
pub expect_integer_bounds :
    (yaml : Yaml) (n : ℕ)
    → Returns InI32 (expect_integer yaml)
      × (expect_integer (integer (pos n))
          ≡ (if ltb n (2 ^ 31) then ok (pos n) else err (integer_too_large (integer (pos n)))))
unfolding expect_integer
expect_integer_bounds yaml n = (
  Returns-bind (λ (k : ℤ). Unit) InI32 (expect expected_integer yaml (as_i64 yaml)) _
      (Returns-any _)
      λ k _. elim (Bool-cases (above_i32 k)) [ inl e ↦ rw e tt | inr e ↦ rw e (to_i32-InI32 k) ],
  elim (Bool-cases (ltb n (2 ^ 31))) [
    | inl small ↦ rw small (expect_integer-integer (pos n) (ground arith))
    | inr large ↦ let above : ltb (2 ^ 31 - 1) n ≡ true = ground arith in rw (large, above) refl
  ],
)

-- There is no lower bound: an integer below the range of `i32` is read as another one.
pub expect_integer_wraps :
    (n : ℕ) → 2 ^ 31 ≤ n → (m : ℤ) × (expect_integer (integer (negsuc n)) ≡ ok m) × (m ≢ negsuc n)
unfolding expect_integer
expect_integer_wraps n h =
    (to_i32 (negsuc n), refl, λ e. absurd (omega (arith, subst InI32 e (to_i32-InI32 (negsuc n)))))
