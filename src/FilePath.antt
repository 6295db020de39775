-- ===== src/FilePath.antt =====
-- `std::path::Path` on Unix, as far as the program uses it: components, `file_name` and `==`, which
-- compares components, so that `/usr//bin/./ls/` and `/usr/bin/ls` are equal.
use mathlib.Core.Bool.{false≢true}
use mathlib.Core.Option.{some-injective, none-ne-some}
use check_protocols.Prelude.{
  ℕ, ◌≡◌, refl, sym, ◌∙◌, inl, inr, Bool, true, false, not, ◌&&◌, ◌||◌, Option, none, some, List,
  [], ◌∷◌, ◌++◌, append_assoc, append-nil, arith, ◌==◌, if◌then◌else◌, Bool-cases, is_empty, any,
  All,
}
use check_protocols.Prelude.Text.{Bytes, codes, equal, equal_refl}

abbrev pub slash : ℕ
slash = b'/'

-- the parts between slashes, behind the characters `cur` of the current one
segments : Bytes → Bytes → List Bytes
segments cur [] = cur ∷ []
segments cur (c ∷ s) = elim (c == slash) [
  | true ↦ cur ∷ segments [] s
  | false ↦ segments (cur ++ c ∷ []) s
]

is_dot : Bytes → Bool
is_dot s = equal s (codes ".")

is_dots : Bytes → Bool
is_dots s = equal s (codes "..")

-- empty parts and `.` are no components
parts_of : List Bytes → List Bytes
unfolding is_dot
parts_of [] = []
parts_of (s ∷ ss) = if is_empty s || is_dot s then parts_of ss else s ∷ parts_of ss

pub starts_with_slash : Bytes → Bool
starts_with_slash [] = false
starts_with_slash (c ∷ s) = c == slash

-- a `.` in front of a relative path is a component
starts_with_dot : List Bytes → Bool
unfolding is_dot
starts_with_dot [] = false
starts_with_dot (s ∷ ss) = is_dot s

-- The file name is the last component, unless that is `/`, `.` or `..`.
last_part : List Bytes → Option Bytes
unfolding is_dots
last_part [] = none
last_part (s ∷ []) = if is_dots s then none else some s
last_part (s ∷ t ∷ ss) = last_part (t ∷ ss)

unfoldable pub file_name : Bytes → Option Bytes
unfolding segments parts_of last_part equal
file_name p = last_part (parts_of (segments [] p))

same_parts : List Bytes → List Bytes → Bool
same_parts [] [] = true
same_parts (s ∷ ss) (t ∷ ts) = equal s t && same_parts ss ts
same_parts _ _ = false

abbrev same : Bool → Bool → Bool
same true b = b
same false b = not b

unfoldable pub path_eq : Bytes → Bytes → Bool
unfolding segments parts_of starts_with_slash starts_with_dot same_parts equal
path_eq p q =
    let ps = segments [] p in
    let qs = segments [] q in
    same (starts_with_slash p) (starts_with_slash q)
    && (same (starts_with_dot ps) (starts_with_dot qs) && same_parts (parts_of ps) (parts_of qs))

same_refl : (b : Bool) → same b b ≡ true
same_refl true = refl
same_refl false = refl

same_parts_refl : (ss : List Bytes) → same_parts ss ss ≡ true
unfolding same_parts
same_parts_refl [] = refl
same_parts_refl (s ∷ ss) = rw (equal_refl s, same_parts_refl ss)

pub path_eq_refl : (p : Bytes) → path_eq p p ≡ true
unfolding path_eq
path_eq_refl p = simp (same_refl, same_parts_refl)

abbrev NoSlash : Bytes → Type 0
NoSlash s = any (λ c. c == slash) s ≡ false

NoSlash-append : (s : Bytes) (c : ℕ) → NoSlash s → (c == slash) ≡ false → NoSlash (s ++ c ∷ [])
NoSlash-append [] c h e = ground arith
NoSlash-append (d ∷ s) c h e = ground (arith, NoSlash-append s c)

segments-NoSlash : (cur s : Bytes) → NoSlash cur → All NoSlash (segments cur s)
unfolding segments
segments-NoSlash cur [] h = (h, tt)
segments-NoSlash cur (c ∷ s) h = elim (Bool-cases (c == slash)) [
  | inl e ↦ rw (e, segments) (h, segments-NoSlash [] s refl)
  | inr e ↦ rw (e, segments) (segments-NoSlash (cur ++ c ∷ []) s (NoSlash-append cur c h e))
]

segments_plain : (cur s : Bytes) → NoSlash s → segments cur s ≡ (cur ++ s) ∷ []
unfolding segments
segments_plain cur [] h = rw append-nil
segments_plain cur (c ∷ s) h = elim (Bool-cases (c == slash)) [
  | inl e ↦ absurd (false≢true (sym h ∙ rw e))
  | inr e ↦
      rw (e, segments)
        (segments_plain (cur ++ c ∷ []) s (rw e at h) ∙ rw (append_assoc cur (c ∷ []) s))
]

-- a component that can be a file name
abbrev IsName : Bytes → Type 0
IsName s = NoSlash s × ((is_empty s || is_dot s) ≡ false)

parts_of-IsName : (ss : List Bytes) → All NoSlash ss → All IsName (parts_of ss)
unfolding parts_of
parts_of-IsName [] h = tt
parts_of-IsName (s ∷ ss) (h, hs) = elim (Bool-cases (is_empty s || is_dot s)) [
  | inl e ↦ rw e (parts_of-IsName ss hs)
  | inr e ↦ rw e ((h, e), parts_of-IsName ss hs)
]

last_part-IsName :
    (ss : List Bytes) (f : Bytes)
    → All IsName ss
    → last_part ss ≡ some f
    → IsName f × (is_dots f ≡ false)
unfolding last_part
last_part-IsName [] f h e = cc
last_part-IsName (s ∷ []) f (h, hs) e = elim (Bool-cases (is_dots s)) [
  | inl d ↦ absurd (none-ne-some f (rw d at e))
  | inr d ↦ let same_name : s ≡ f = some-injective s f (rw d at e) in rw (← same_name) (h, d)
]
last_part-IsName (s ∷ t ∷ ss) f (h, hs) e = last_part-IsName (t ∷ ss) f hs e

IsName-file_name : (f : Bytes) → IsName f → is_dots f ≡ false → file_name f ≡ some f
unfolding file_name
IsName-file_name f (h, e) d = rw (segments_plain [] f h) (simp (e, d))

-- A file name is its own file name.
pub file_name_idem : (p f : Bytes) → file_name p ≡ some f → file_name f ≡ some f
file_name_idem p f h =
    let (name, d) =
      last_part-IsName (parts_of (segments [] p)) f (parts_of-IsName _ (segments-NoSlash [] p refl))
        (unfold file_name in h) in
    IsName-file_name f name d
