-- ===== src/TestSpec/Refused.antt =====
-- What is refused in a test: a hole that is not the last of the steps, and a field that is not known.
use check_protocols.Prelude.{
  ◌≡◌, refl, sym, ap, ◌∙◌, ◌⊎◌, Bool, true, false, not, Option, List, [], ◌∷◌, ◌++◌, append_assoc,
  append-nil, if◌then◌else◌, is_empty,
}
use check_protocols.Prelude.Text.{Bytes, codes, equal}
use check_protocols.Result.{hole_not_last, ok, err}
use check_protocols.TestSpec.{Step, Test, new_test}
use check_protocols.TestSpec.Parse.{
  is_hole, push_item, parse_step, parse_step_or_hole, from_items, test_from_array,
}
use check_protocols.TestSpec.Steps.{items-array_of}
use check_protocols.Utils.{with_has_more}
use check_protocols.Yaml.{Yaml, string, Hash, empty_hash, entry, array_of}
use check_protocols.YamlExt.{is_known}

-- The first key of the object that is not one of these is `s`.
abbrev pub FirstUnknown : List Bytes → Bytes → Hash → Type 0
FirstUnknown known s empty_hash = ⊥
FirstUnknown known s (entry key value object) =
    ((key ≡ string s) × (is_known known s ≡ false))
    ⊎ ((t : Bytes) × (key ≡ string t) × (is_known known t ≡ true) × FirstUnknown known s object)

with_has_more-cons {ℓ} :
    {A : Type ℓ} (x : A) (xs : List A)
    → with_has_more (x ∷ xs) ≡ (x, not (is_empty xs)) ∷ with_has_more xs
unfolding with_has_more
with_has_more-cons x [] = refl
with_has_more-cons x (y ∷ xs) = refl

module _ (compile : Bytes → Option (Bytes → Bool)) where
  -- these values are no holes, and are read as these steps
  abbrev pub AreRead : List Yaml → List Step → Type 0
  AreRead [] [] = Unit
  AreRead (y ∷ ys) (s ∷ ss) = (is_hole y ≡ false) × (parse_step compile y ≡ ok s) × AreRead ys ss
  AreRead _ _ = ⊥

  from_items_hole :
      (before after : List Yaml) (steps : List Step) (test : Test)
      → AreRead before steps
      → from_items compile (with_has_more (before ++ string (codes "_") ∷ after)) test ≡ (
          if is_empty after
          then ok (record test { steps = test.steps ++ steps; ends_with_hole = true })
          else err hole_not_last)
  unfolding from_items with_has_more parse_step_or_hole is_hole push_item equal
  from_items_hole [] [] [] test h =
      ap (λ l. ok (record test { steps = l; ends_with_hole = true })) (sym (append-nil test.steps))
  from_items_hole [] (y ∷ after) [] test h = refl
  from_items_hole (y ∷ before) after (s ∷ steps) test (plain, reads, h) =
      rw (with_has_more-cons y (before ++ string (codes "_") ∷ after), plain, reads)
        (from_items_hole before after steps (record test { steps = test.steps ++ s ∷ [] }) h
          ∙ rw (append_assoc test.steps (s ∷ []) steps))
  from_items_hole [] after (s ∷ steps) test h = absurd h
  from_items_hole (y ∷ before) after [] test h = absurd h

  -- A hole behind steps that are read ends the test, and anything behind it is an error.
  pub test_from_array_hole :
      (before after : List Yaml) (steps : List Step)
      → AreRead before steps
      → test_from_array compile (array_of (before ++ string (codes "_") ∷ after)) ≡ (
          if is_empty after
          then ok (record (new_test steps) { ends_with_hole = true })
          else err hole_not_last)
  unfolding test_from_array new_test
  test_from_array_hole before after steps h =
      rw (items-array_of (before ++ string (codes "_") ∷ after))
        (from_items_hole before after steps (new_test []) h)
