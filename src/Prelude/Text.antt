-- ===== src/Prelude/Text.antt =====
-- Texts: `String`, `OsString`, `PathBuf` and `Vec<u8>` are their bytes.
use Prim.Native.Char.{code}
use Prim.Native.String.{String}
use Prim.Native.Nat.{ℕ}
use mathlib.Core.Path.{◌≡◌, refl, subst}
use mathlib.Core.Logic.{◌↔◌, ◌≢◌}
use mathlib.Core.Bool.{Bool, true, false, ◌&&◌}
use mathlib.Core.List.{List, [], ◌∷◌}
use native.Mathlib.Omega.{arith}
use check_protocols.Prelude.Tests.{◌==◌}

abbrev pub Bytes : Type 0
Bytes = List ℕ

-- The code points of a literal; these are its bytes, since every literal here is ASCII.
abbrev pub codes : String → Bytes
codes String.[] = []
codes (String.◌∷◌ c s) = code c ∷ codes s

-- `==` on strings, paths and byte vectors.
unfoldable pub equal : Bytes → Bytes → Bool
equal [] [] = true
equal (a ∷ s) (b ∷ t) = (a == b) && equal s t
equal _ _ = false

pub equal_sound : (s t : Bytes) → equal s t ≡ true → s ≡ t
unfolding equal
equal_sound [] [] h = refl
equal_sound [] (b ∷ t) h = cc
equal_sound (a ∷ s) [] h = cc
equal_sound (a ∷ s) (b ∷ t) h = ground (arith, equal_sound s t)

pub equal_refl : (s : Bytes) → equal s s ≡ true
unfolding equal
equal_refl [] = refl
equal_refl (a ∷ s) = ground (arith, equal_refl s)

pub equal_iff : (s t : Bytes) → (equal s t ≡ true) ↔ (s ≡ t)
equal_iff s t = (equal_sound s t, λ e. subst (λ u. equal s u ≡ true) e (equal_refl s))

pub equal_ne : (s t : Bytes) → s ≢ t → equal s t ≡ false
equal_ne s t h = ground (arith, equal_iff s t)
