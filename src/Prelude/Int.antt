-- ===== src/Prelude/Int.antt =====
-- Signed integers over the native numbers.
use Prim.Native.Nat.{ℕ, zero, suc, ◌+◌, ◌/◌, ◌%◌}
use mathlib.Core.List.{[], ◌∷◌}
use mathlib.Core.Path.{◌≡◌}
use mathlib.Core.Logic.{◌↔◌}
use mathlib.Core.Bool.{Bool, true, false}
use native.Mathlib.Omega.{arith}
use check_protocols.Prelude.Tests.{◌==◌, if◌then◌else◌}
use check_protocols.Prelude.Text.{Bytes}

-- `negsuc n` is -(n + 1).
pub data ℤ : Type 0 where
  pos : ℕ → ℤ
  negsuc : ℕ → ℤ

-- `==` on i32
abbrev pub int_eq : ℤ → ℤ → Bool
int_eq (pos a) (pos b) = a == b
int_eq (negsuc a) (negsuc b) = a == b
int_eq _ _ = false

pub int_eq_iff : (a b : ℤ) → (int_eq a b ≡ true) ↔ (a ≡ b)
int_eq_iff a b = ground arith

-- Decimal digits of `n`, with as much fuel as `n` has.
digits : ℕ → ℕ → Bytes → Bytes
digits zero n rest = rest
digits (suc fuel) n rest =
    let d = (b'0' + n % 10) ∷ rest in
    let more = digits fuel (n / 10) d in if n / 10 == 0 then d else more

-- `{}` on an integer
unfoldable pub show : ℤ → Bytes
unfolding digits
show (pos n) = digits (suc n) n []
show (negsuc n) = b'-' ∷ digits (suc (suc n)) (suc n) []
