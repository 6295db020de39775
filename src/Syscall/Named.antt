-- ===== src/Syscall/Named.antt =====
-- `Syscall::from` on the registers of a tracee, and the equality of system calls.
-- The constants `libc::SYS_*` are a parameter: the number of each name. They are natural numbers
-- below 2 ^ 63, so the cast to `i64` does not change what they are compared with.
use mathlib.Core.Option.{some-injective, none-ne-some}
use check_protocols.Prelude.{
  ℕ, zero, suc, ◌+◌, ◌≤◌, ◌<◌, ◌≡◌, refl, sym, ap, ◌∙◌, inl, inr, Bool, true, false, not, ◌||◌,
  none, some, List, [], ◌∷◌, arith, ltb, ◌==◌, if◌then◌else◌, ==_refl, Bool-cases, length,
  get_elem?, any,
}
use check_protocols.Syscall.{Syscall, unknown}
use check_protocols.Syscall.Code.{discriminant, same}
use check_protocols.Syscall.Place.{table, place}
use check_protocols.Syscall.Table.{first_arms, middle_arms, last_arms}

-- An arm has the name of a constant and the system call that it gives.
first_arm : (Syscall → ℕ) → ℕ → List (Syscall × Syscall) → Syscall
first_arm number orig_rax [] = unknown orig_rax
first_arm number orig_rax ((constant, syscall) ∷ arms) =
    let rest = first_arm number orig_rax arms in
    if orig_rax == number constant then syscall else rest

unfoldable pub from : (Syscall → ℕ) → ℕ → Syscall
unfolding first_arm table
from number orig_rax = first_arm number orig_rax table

beyond : {A : Type 0} (xs : List A) (k : ℕ) → length xs ≤ k → get_elem? xs k ≡ none
beyond [] k h = refl
beyond (x ∷ xs) zero h = absurd (omega arith)
beyond (x ∷ xs) (suc k) h = beyond xs k (omega arith)

table-discriminant-unknown : (n : ℕ) → get_elem? table (discriminant (unknown n)) ≡ none
unfolding table first_arms middle_arms last_arms discriminant
table-discriminant-unknown n = beyond table (332 + n) (omega arith)

equal_codes-same : (s t : Syscall) → same s t ≡ true → discriminant s ≡ discriminant t
unfolding same
equal_codes-same s t h = ground (arith, h)

named_place : (s : Syscall) → discriminant s < 332 → get_elem? table (discriminant s) ≡ some (s, s)
unfolding discriminant
named_place s named = elim (place s) [
  | inl e ↦ e
  | inr (n, e) ↦ absurd (omega (arith, rw (e, discriminant) at named))
]

-- System calls compare equal only if they are the same.
pub same_sound : (s t : Syscall) → same s t ≡ true → s ≡ t
unfolding discriminant
same_sound s t h =
    let equal_codes : discriminant s ≡ discriminant t = equal_codes-same s t h in
    elim (place s) [
      | inl e ↦ elim (place t) [
        | inl f ↦
            ap (λ (arm : Syscall × Syscall). arm.0)
              (some-injective (s, s) (t, t) (sym e ∙ ap (get_elem? table) equal_codes ∙ f))
        | inr (n, f) ↦ absurd (
            none-ne-some (s, s)
              (sym (table-discriminant-unknown n)
                ∙ sym (ap (get_elem? table) (equal_codes ∙ ap discriminant f))
                ∙ e))
      ]
      | inr (m, e) ↦ elim (place t) [
        | inl f ↦ absurd (
            none-ne-some (t, t)
              (sym (table-discriminant-unknown m)
                ∙ sym (ap (get_elem? table) (sym equal_codes ∙ ap discriminant e))
                ∙ f))
        | inr (n, f) ↦
            let numbers : 332 + m ≡ 332 + n =
              sym (ap discriminant e) ∙ equal_codes ∙ ap discriminant f in
            e ∙ ap unknown (omega (arith, numbers)) ∙ sym f
      ]
    ]

-- The numbers of libc are different for different names.
abbrev pub AreDistinct : (Syscall → ℕ) → Type 0
AreDistinct number =
    (s t : Syscall) → discriminant s < 332 → discriminant t < 332 → number s ≡ number t → s ≡ t

-- an arm of no constant, or one that gives another system call than its constant says
abbrev mislabelled : Syscall × Syscall → Bool
mislabelled (constant, syscall) = ltb 331 (discriminant constant) || not (same constant syscall)

all_labelled : any mislabelled table ≡ false
unfolding table first_arms middle_arms last_arms discriminant same
all_labelled = refl

labelled_first :
    (arm : Syscall × Syscall) (arms : List (Syscall × Syscall))
    → any mislabelled (arm ∷ arms) ≡ false
    → (discriminant arm.0 < 332) × (arm.0 ≡ arm.1) × (any mislabelled arms ≡ false)
labelled_first (constant, syscall) arms h =
    (ground arith, same_sound constant syscall (ground arith), ground arith)

first_arm-number :
    (number : Syscall → ℕ) (s : Syscall) (arms : List (Syscall × Syscall)) (k : ℕ)
    → AreDistinct number
    → discriminant s < 332
    → any mislabelled arms ≡ false
    → get_elem? arms k ≡ some (s, s)
    → first_arm number (number s) arms ≡ s
unfolding first_arm
first_arm-number number s [] k distinct named labelled h = absurd (none-ne-some (s, s) h)
first_arm-number number s ((constant, syscall) ∷ arms) zero distinct named labelled h =
    let first = some-injective (constant, syscall) (s, s) h in
    let first_constant : constant ≡ s = ap (λ (arm : Syscall × Syscall). arm.0) first in
    let first_syscall : syscall ≡ s = ap (λ (arm : Syscall × Syscall). arm.1) first in
    rw (first_constant, ==_refl (number s)) first_syscall
first_arm-number number s ((constant, syscall) ∷ arms) (suc k) distinct named labelled h =
    let (named', same_name, labelled') = labelled_first (constant, syscall) arms labelled in
    elim (Bool-cases (number s == number constant)) [
      | inl e ↦
          rw (e, first_arm) (sym (distinct s constant named named' (ground (arith, e)) ∙ same_name))
      | inr e ↦ rw (e, first_arm) (first_arm-number number s arms k distinct named labelled' h)
    ]

-- The table of system calls has every name of the enumeration, and no arm is shadowed by an
-- earlier one: where the numbers of libc are distinct, the number of a name is read as that name.
pub from-number :
    (number : Syscall → ℕ) (s : Syscall)
    → AreDistinct number
    → discriminant s < 332
    → from number (number s) ≡ s
unfolding from
from-number number s distinct named =
    first_arm-number number s table (discriminant s) distinct named all_labelled
      (named_place s named)
