-- ===== src/TempFiles/Characters.antt =====
-- The characters of the path of a new temporary file.
use check_protocols.Prelude.{ℕ, ◌≡◌, subst, inl, inr, Bool-cases, Option-cases, All}
use check_protocols.Prelude.Text.{Bytes, codes}
use check_protocols.Result.{ok, ok-injective}
use check_protocols.TempFiles.{Fs, ShortTempFile, mk_digit_iter, join, write_all, new_internal, new}
use check_protocols.TempFiles.AllNames.{all_names, all_names-All}
use check_protocols.TempFiles.Create.{
  first_free, create_at, create_new_file-first_free, first_free_sound, write_all-put_file,
}

-- What holds of the characters of "/tmp/" and of the digits holds of the path of a new file.
pub new-All :
    (P : ℕ → Type 0) (contents : Bytes) (fs fs' : Fs) (file : ShortTempFile)
    → All P (codes "/tmp/")
    → All P mk_digit_iter
    → new contents fs ≡ ok (file, fs')
    → All P file.path
unfolding new new_internal create_at join
new-All P contents fs fs' file prefix digits h =
    elim (Option-cases (first_free (codes "/tmp") fs all_names)) [
      | inl e ↦ absurd (cc (rw (create_new_file-first_free, e) at h))
      | inr (name, e) ↦
          let path = join (codes "/tmp") name in
          let (good, free) =
            first_free_sound (All P) (codes "/tmp") fs all_names name (all_names-All P digits) e in
          let (h₁, (h₂, (h₃, (h₄, (h₅, rest))))) = prefix in
          let good_path : All P path = (h₁, (h₂, (h₃, (h₄, (h₅, good))))) in
          elim (Bool-cases (fs.denied path)) [
            | inl d ↦ absurd (cc (rw (create_new_file-first_free, e, d) at h))
            | inr d ↦ elim (Bool-cases (fs.unwritable path)) [
              | inl w ↦ absurd (cc (rw (create_new_file-first_free, e, d, write_all, w) at h))
              | inr w ↦
                  let written = write_all-put_file path contents fs w in
                  subst (λ (r : ShortTempFile × Fs). All P r.0.path)
                    (ok-injective _ (file, fs')
                      (rw (create_new_file-first_free, e, d, written) at h))
                    good_path
            ]
          ]
    ]
