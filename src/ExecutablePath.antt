-- ===== src/ExecutablePath.antt =====
-- test_spec/executable_path.rs: an executable that the search path finds is known by its file name.
-- `which` of the crate `quale`, which looks a name up in `PATH`, is a parameter.
use check_protocols.Prelude.{
  ◌≡◌, refl, ◌⊎◌, inl, inr, Bool, true, Option, none, some, arith, if◌then◌else◌, Bool-cases,
  Option-cases,
}
use check_protocols.FilePath.{file_name, path_eq, path_eq_refl, file_name_idem}
use check_protocols.Prelude.Text.{Bytes}

module _ (which : Bytes → Option Bytes) where
  unfoldable pub canonicalize : Bytes → Bytes
  canonicalize executable = elim (file_name executable) [
    | none ↦ executable
    | some name ↦ elim (which name) [
      | some resolved ↦ if path_eq resolved executable then name else executable
      | none ↦ executable
    ]
  ]

  unfoldable pub compare_executables : Bytes → Bytes → Bool
  compare_executables a b = path_eq (canonicalize a) (canonicalize b)

  -- The search path finds an executable under its file name.
  abbrev pub FoundAs : Bytes → Bytes → Type 0
  FoundAs name p =
      (file_name p ≡ some name)
      × (resolved : Bytes) × (which name ≡ some resolved)
      × (path_eq resolved p ≡ true)

  canonicalize-cases : (p : Bytes) → (canonicalize p ≡ p) ⊎ FoundAs (canonicalize p) p
  unfolding canonicalize
  canonicalize-cases p = elim (Option-cases (file_name p)) [
    | inl e ↦ inl (rw (e, canonicalize))
    | inr (name, e) ↦ elim (Option-cases (which name)) [
      | inl f ↦ inl (rw (e, canonicalize, f))
      | inr (resolved, f) ↦ elim (Bool-cases (path_eq resolved p)) [
        | inl g ↦ inr (rw (e, canonicalize, f, g) (refl, resolved, f, g))
        | inr g ↦ inl (rw (e, canonicalize, f, g))
      ]
    ]
  ]

  canonicalize-FoundAs : (name p : Bytes) → FoundAs name p → canonicalize p ≡ name
  unfolding canonicalize
  canonicalize-FoundAs name p (named, resolved, found, equals) =
      rw (named, canonicalize, found, equals)

  canonicalize-file_name : (name : Bytes) → file_name name ≡ some name → canonicalize name ≡ name
  unfolding canonicalize
  canonicalize-file_name name h = ground arith

  pub canonicalize_idem : (p : Bytes) → canonicalize (canonicalize p) ≡ canonicalize p
  canonicalize_idem p = elim (canonicalize-cases p) [
    | inl unchanged ↦ rw unchanged unchanged
    | inr found ↦
        canonicalize-file_name (canonicalize p) (file_name_idem p (canonicalize p) found.0)
  ]

  pub compare-canonicalize : (p : Bytes) → compare_executables (canonicalize p) p ≡ true
  unfolding compare_executables
  compare-canonicalize p = rw (canonicalize_idem p) (path_eq_refl _)

  -- the path itself, or the name under which the search path finds it
  abbrev pub KnownAs : Bytes → Bytes → Type 0
  KnownAs name p = (name ≡ p) ⊎ FoundAs name p

  -- Two executables that compare as equal are the same path, where each of them is first replaced by
  -- its file name or not, and is replaced only if the search path finds that very executable
  -- under the name.
  pub compare_executables-KnownAs :
      (p q : Bytes)
      → compare_executables p q ≡ true
      → (p' : Bytes) × (q' : Bytes) × KnownAs p' p × KnownAs q' q × (path_eq p' q' ≡ true)
  unfolding compare_executables
  compare_executables-KnownAs p q equals =
      (canonicalize p, canonicalize q, canonicalize-cases p, canonicalize-cases q, equals)

  -- An executable compares as equal to every name under which the search path finds it, and two
  -- executables that are found under one name compare as equal.
  pub compare_executables-FoundAs :
      (name p q : Bytes)
      → FoundAs name p
      → FoundAs name q
      → (compare_executables p name ≡ true) × (compare_executables p q ≡ true)
  unfolding compare_executables
  compare_executables-FoundAs name p q found found' = (
    rw
        (
          canonicalize-FoundAs name p found,
          canonicalize-file_name name (file_name_idem p name found.0),
        )
        (path_eq_refl _),
    rw (canonicalize-FoundAs name p found, canonicalize-FoundAs name q found') (path_eq_refl _),
  )

  pub compare_executables_refl : (p : Bytes) → compare_executables p p ≡ true
  unfolding compare_executables
  compare_executables_refl p = path_eq_refl _
