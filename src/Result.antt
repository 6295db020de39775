-- ===== src/Result.antt =====
-- `R<A>` of lib.rs: a result or a boxed error. An error is a constructor of `Error` for each message
-- of the source, with the values that the message quotes. `panic` is a Rust panic, and `diverge`
-- says that the fuel of a loop ran out.
use check_protocols.Prelude.{ℕ, ◌≡◌, refl, ap, subst, ◌≢◌, List}
use check_protocols.Prelude.Text.{Bytes}
use check_protocols.Yaml.{Yaml, Hash}

-- What `Parser::parse_error` is called with.
pub data ParseMessage : Type 0 where
  backslash_at_end shouldnt_happen unmatched_quotes closing_quotes opening_quotes : ParseMessage
  unknown_escaped : ℕ → ParseMessage

pub data Error : Type 0 where
  parse_error : ParseMessage → Bytes → Error
  no_command bad_regex : Bytes → Error
  ptrace_failed string_too_long out_of_file_names wrong_syscall wait_failed : Error
  io_failed no_scriptkeeper bad_mock : Bytes → Error
  -- of the test files
  expected_string expected_array expected_object expected_integer : Yaml → Error
  integer_too_large expected_step expected_tests no_tests_or_steps : Yaml → Error
  expected_field : Bytes → Hash → Error
  unexpected_field : Bytes → List Bytes → Error
  command_or_regex hole_not_last emit_failed : Error
  relative_cwd invalid_utf8 : Bytes → Error
  test_file_not_found invalid_yaml multiple_documents no_documents : Bytes → Error
  in_test_file : Bytes → Error → Error
  -- of a run
  interior_nul execve_failed executable_not_found : Bytes → Error
  fork_failed usage : Error

pub data R {ℓ} (A : Type ℓ) : Type ℓ where
  ok : A → R A
  err : Error → R A
  panic : R A
  diverge : R A

infixl 5 ◌>>=◌ ◌>>◌
abbrev pub ◌>>=◌ {ℓ κ} : {A : Type ℓ} {B : Type κ} → R A → (A → R B) → R B
ok a >>= f = f a
err e >>= f = err e
panic >>= f = panic
diverge >>= f = diverge

abbrev pub ◌>>◌ {ℓ} : {B : Type ℓ} → R (Unit {0}) → R B → R B
m >> k = m >>= λ _. k

module _ {ℓ} {A : Type ℓ} where
  value_or : A → R A → A
  value_or d (ok a) = a
  value_or d (err e) = d
  value_or d panic = d
  value_or d diverge = d

  pub ok-injective : (a b : A) → ok a ≡ ok b → a ≡ b
  unfolding value_or
  ok-injective a b e = ap (value_or a) e

-- If the computation returns, `P` holds of what it returns.
abbrev pub Returns {ℓ} : {A : Type ℓ} → (A → Type 0) → R A → Type 0
Returns P (ok a) = P a
Returns P (err e) = Unit
Returns P panic = Unit
Returns P diverge = Unit

pub Returns-bind {ℓ κ} :
    {A : Type ℓ} {B : Type κ} (P : A → Type 0) (Q : B → Type 0) (m : R A) (f : A → R B)
    → Returns P m
    → ((a : A) → P a → Returns Q (f a))
    → Returns Q (m >>= f)
Returns-bind P Q (ok a) f h k = k a h
Returns-bind P Q (err e) f h k = tt
Returns-bind P Q panic f h k = tt
Returns-bind P Q diverge f h k = tt

pub Returns-weaken {ℓ} :
    {A : Type ℓ} (P Q : A → Type 0) (m : R A) → Returns P m → ((a : A) → P a → Q a) → Returns Q m
Returns-weaken P Q (ok a) h k = k a h
Returns-weaken P Q (err e) h k = tt
Returns-weaken P Q panic h k = tt
Returns-weaken P Q diverge h k = tt

pub Returns-any {ℓ} : {A : Type ℓ} (m : R A) → Returns (λ a. Unit) m
Returns-any (ok a) = tt
Returns-any (err e) = tt
Returns-any panic = tt
Returns-any diverge = tt

pub Returns-ok {ℓ} : {A : Type ℓ} (P : A → Type 0) (m : R A) (a : A) → Returns P m → m ≡ ok a → P a
Returns-ok P m a h e = subst (Returns P) e h

-- The computation returns or fails, and `P` holds of what it returns: it neither panics nor is it cut
-- short.
abbrev pub Ends {ℓ} : {A : Type ℓ} → (A → Type 0) → R A → Type 0
Ends P (ok a) = P a
Ends P (err e) = Unit
Ends P panic = ⊥
Ends P diverge = ⊥

pub Ends-bind {ℓ κ} :
    {A : Type ℓ} {B : Type κ} (P : A → Type 0) (Q : B → Type 0) (m : R A) (f : A → R B)
    → Ends P m
    → ((a : A) → P a → Ends Q (f a))
    → Ends Q (m >>= f)
Ends-bind P Q (ok a) f h k = k a h
Ends-bind P Q (err e) f h k = tt
Ends-bind P Q panic f h k = h
Ends-bind P Q diverge f h k = h

pub Ends-weaken {ℓ} :
    {A : Type ℓ} (P Q : A → Type 0) (m : R A) → Ends P m → ((a : A) → P a → Q a) → Ends Q m
Ends-weaken P Q (ok a) h k = k a h
Ends-weaken P Q (err e) h k = tt
Ends-weaken P Q panic h k = h
Ends-weaken P Q diverge h k = h

pub Ends-Returns {ℓ} : {A : Type ℓ} (P : A → Type 0) (m : R A) → Ends P m → Returns P m
Ends-Returns P (ok a) h = h
Ends-Returns P (err e) h = tt
Ends-Returns P panic h = tt
Ends-Returns P diverge h = tt

pub ends {ℓ} : {A : Type ℓ} (m : R A) → Ends (λ a. Unit) m → (m ≢ diverge) × (m ≢ panic)
ends (ok a) h = (cc, cc)
ends (err e) h = (cc, cc)
ends panic h = absurd h
ends diverge h = absurd h

pub bind_assoc {ℓ κ μ} :
    {A : Type ℓ} {B : Type κ} {C : Type μ} (m : R A) (f : A → R B) (g : B → R C)
    → ((m >>= f) >>= g) ≡ (m >>= λ a. f a >>= g)
bind_assoc (ok a) f g = refl
bind_assoc (err e) f g = refl
bind_assoc panic f g = refl
bind_assoc diverge f g = refl

pub bind_ext {ℓ κ} :
    {A : Type ℓ} {B : Type κ} (m : R A) (f g : A → R B)
    → ((a : A) → f a ≡ g a)
    → (m >>= f) ≡ (m >>= g)
bind_ext (ok a) f g h = h a
bind_ext (err e) f g h = refl
bind_ext panic f g h = refl
bind_ext diverge f g h = refl

pub bind_ok {ℓ} : {A : Type ℓ} (m : R A) → (m >>= λ a. ok a) ≡ m
bind_ok (ok a) = refl
bind_ok (err e) = refl
bind_ok panic = refl
bind_ok diverge = refl

-- What returns behind a computation has what this computation returned.
pub bind_inversion {ℓ κ} :
    {A : Type ℓ} {B : Type κ} (m : R A) (f : A → R B) (b : B)
    → (m >>= f) ≡ ok b
    → (a : A) × (m ≡ ok a) × (f a ≡ ok b)
bind_inversion (ok a) f b h = (a, refl, h)
bind_inversion (err e) f b h = absurd (cc)
bind_inversion panic f b h = absurd (cc)
bind_inversion diverge f b h = absurd (cc)
