-- ===== src/TempFiles/AllNames.antt =====
-- The names in the order in which the iterator gives them.
use check_protocols.Prelude.{
  ℕ, zero, suc, ◌*◌, ◌<◌, ◌≡◌, refl, ap, ◌∙◌, ◌≢◌, ◌⊎◌, inl, inr, Bool, true, false, not, ◌&&◌,
  none, some, List, [], ◌∷◌, ◌++◌, arith, ◌==◌, length, any, length-append, All, All-append,
}
use check_protocols.Prelude.Text.{Bytes}
use check_protocols.Result.{R, ok, diverge, ◌>>=◌}
use check_protocols.TempFiles.{mk_digit_iter, Names, first_names, new_names, next_from, next}

names_with : ℕ → Bytes → List Bytes
names_with a [] = []
names_with a (c ∷ b) = (a ∷ c ∷ []) ∷ names_with a b

-- all names that begin with one of these characters
names_from : Bytes → List Bytes
unfolding names_with
names_from [] = []
names_from (c ∷ a) = names_with c mk_digit_iter ++ names_from a

-- what an iterator has still to give
pub remaining : Names → List Bytes
unfolding names_with names_from
remaining names = names_with names.old_a names.b ++ names_from names.a

pub all_names : List Bytes
unfolding names_from
all_names = names_from mk_digit_iter

next_from-remaining :
    (a : Bytes) (old_a : ℕ) (b : Bytes)
    → ((next_from a old_a b ≡ none) × (names_with old_a b ++ names_from a ≡ []))
      ⊎ ((name : Bytes) × (names' : Names) × (next_from a old_a b ≡ some (name, names'))
          × (names_with old_a b ++ names_from a ≡ name ∷ remaining names'))
unfolding next_from remaining
next_from-remaining [] old_a [] = inl (refl, refl)
next_from-remaining (c ∷ a) old_a [] = next_from-remaining a c mk_digit_iter
next_from-remaining a old_a (c ∷ b) =
    inr (old_a ∷ c ∷ [], record { a = a; old_a = old_a; b = b }, refl, refl)

-- The iterator gives the remaining names one by one.
pub next-remaining :
    (names : Names)
    → ((next names ≡ none) × (remaining names ≡ []))
      ⊎ ((name : Bytes) × (names' : Names) × (next names ≡ some (name, names'))
          × (remaining names ≡ name ∷ remaining names'))
unfolding next remaining
next-remaining names = next_from-remaining names.a names.old_a names.b

first_names-remaining :
    (s : Bytes)
    → s ≢ []
    → (names : Names) × (first_names s ≡ ok names) × (remaining names ≡ names_from s)
unfolding first_names remaining
first_names-remaining [] ne = absurd (ne refl)
first_names-remaining (c ∷ s) ne = (record { a = s; old_a = c; b = mk_digit_iter }, refl, refl)

-- The fresh iterator gives all names.
pub new_names-all_names : (names : Names) × (new_names ≡ ok names) × (remaining names ≡ all_names)
unfolding new_names all_names
new_names-all_names = first_names-remaining mk_digit_iter (unfold mk_digit_iter in cc)

length-names_with : (a : ℕ) (b : Bytes) → length (names_with a b) ≡ length b
unfolding names_with
length-names_with a [] = refl
length-names_with a (c ∷ b) = ap suc (length-names_with a b)

length-names_from : (a : Bytes) → length (names_from a) ≡ 66 * length a
unfolding names_from mk_digit_iter
length-names_from [] = refl
length-names_from (c ∷ a) = omega (
  arith,
  length-append (names_with c mk_digit_iter) (names_from a),
  length-names_with c mk_digit_iter,
  length-names_from a,
)

-- No two elements are equal.
abbrev pub Distinct {ℓ} : {A : Type ℓ} → List A → Type ℓ
Distinct [] = Unit
Distinct (x ∷ xs) = All (λ y. x ≢ y) xs × Distinct xs

all_distinct : Bytes → Bool
all_distinct [] = true
all_distinct (c ∷ s) = not (any (λ d. c == d) s) && all_distinct s

not_any-All : (c : ℕ) (s : Bytes) → any (λ d. c == d) s ≡ false → All (λ d. c ≢ d) s
not_any-All c [] h = tt
not_any-All c (d ∷ s) h = (ground arith, not_any-All c s (ground arith))

all_distinct-Distinct : (s : Bytes) → all_distinct s ≡ true → Distinct s
unfolding all_distinct
all_distinct-Distinct [] h = tt
all_distinct-Distinct (c ∷ s) h =
    (not_any-All c s (ground arith), all_distinct-Distinct s (ground arith))

digits-Distinct : Distinct mk_digit_iter
unfolding mk_digit_iter all_distinct
digits-Distinct = all_distinct-Distinct mk_digit_iter refl

Distinct-append {ℓ} :
    {A : Type ℓ} (xs ys : List A)
    → Distinct xs
    → Distinct ys
    → All (λ x. All (λ y. x ≢ y) ys) xs
    → Distinct (xs ++ ys)
Distinct-append [] ys hx hy h = hy
Distinct-append (x ∷ xs) ys (p, hx) hy (q, h) =
    (All-append _ xs ys p q, Distinct-append xs ys hx hy h)

same_first :
    (a : ℕ) (c : ℕ) (b : Bytes) → All (λ d. c ≢ d) b → All (λ y. a ∷ c ∷ [] ≢ y) (names_with a b)
unfolding names_with
same_first a c [] h = tt
same_first a c (d ∷ b) (h, hs) = (λ e. h (ground arith), same_first a c b hs)

names_with-Distinct : (a : ℕ) (b : Bytes) → Distinct b → Distinct (names_with a b)
unfolding names_with
names_with-Distinct a [] h = tt
names_with-Distinct a (c ∷ b) (h, hs) = (same_first a c b h, names_with-Distinct a b hs)

other_first : (a c e : ℕ) (b : Bytes) → a ≢ e → All (λ y. a ∷ c ∷ [] ≢ y) (names_with e b)
unfolding names_with
other_first a c e [] h = tt
other_first a c e (d ∷ b) h = (λ p. h (ground arith), other_first a c e b h)

other_names : (a c : ℕ) (s : Bytes) → All (λ e. a ≢ e) s → All (λ y. a ∷ c ∷ [] ≢ y) (names_from s)
unfolding names_from
other_names a c [] h = tt
other_names a c (e ∷ s) (h, hs) =
    All-append _ (names_with e mk_digit_iter) (names_from s) (other_first a c e mk_digit_iter h)
      (other_names a c s hs)

apart :
    (a : ℕ) (b s : Bytes)
    → All (λ e. a ≢ e) s
    → All (λ x. All (λ y. x ≢ y) (names_from s)) (names_with a b)
unfolding names_with
apart a [] s h = tt
apart a (c ∷ b) s h = (other_names a c s h, apart a b s h)

names_from-Distinct : (s : Bytes) → Distinct s → Distinct (names_from s)
unfolding names_from
names_from-Distinct [] h = tt
names_from-Distinct (c ∷ s) (h, hs) =
    Distinct-append (names_with c mk_digit_iter) (names_from s)
      (names_with-Distinct c mk_digit_iter digits-Distinct) (names_from-Distinct s hs)
      (apart c mk_digit_iter s h)

-- A name of two characters.
abbrev pub IsShort : Bytes → Type 0
IsShort name = length name ≡ 2

names_with-IsShort : (a : ℕ) (b : Bytes) → All IsShort (names_with a b)
unfolding names_with
names_with-IsShort a [] = tt
names_with-IsShort a (c ∷ b) = (refl, names_with-IsShort a b)

names_from-IsShort : (s : Bytes) → All IsShort (names_from s)
unfolding names_from
names_from-IsShort [] = tt
names_from-IsShort (c ∷ s) =
    All-append _ (names_with c mk_digit_iter) (names_from s) (names_with-IsShort c mk_digit_iter)
      (names_from-IsShort s)

-- `collect` over the iterator
pub iterate : ℕ → Names → R (List Bytes)
iterate zero names = diverge
iterate (suc fuel) names = elim (next names) [
  | none ↦ ok []
  | some (name, names') ↦ (do rest ← iterate fuel names'; ok (name ∷ rest))
]

iterate-remaining :
    (fuel : ℕ) (names : Names)
    → length (remaining names) < fuel
    → iterate fuel names ≡ ok (remaining names)
unfolding iterate
iterate-remaining zero names f = elim f [ ]
iterate-remaining (suc fuel) names f = elim (next-remaining names) [
  | inl (e, none_left) ↦ rw (e, iterate) (rw none_left)
  | inr (name, names', e, more) ↦
      let fewer : length (name ∷ remaining names') < suc fuel = rw more at f in
      rw (e, iterate) (rw (iterate-remaining fuel names' (omega arith)) (rw more))
]

pub length-all_names : length all_names ≡ 4356
unfolding all_names
length-all_names = length-names_from mk_digit_iter ∙ unfold mk_digit_iter in refl

pub all_names-IsShort : All IsShort all_names
unfolding all_names
all_names-IsShort = names_from-IsShort mk_digit_iter

names_with-All : (P : ℕ → Type 0) (a : ℕ) (b : Bytes) → P a → All P b → All (All P) (names_with a b)
unfolding names_with
names_with-All P a [] h hb = tt
names_with-All P a (c ∷ b) h (hc, hb) = ((h, (hc, tt)), names_with-All P a b h hb)

names_from-All :
    (P : ℕ → Type 0) (s : Bytes) → All P s → All P mk_digit_iter → All (All P) (names_from s)
unfolding names_from
names_from-All P [] h digits = tt
names_from-All P (c ∷ s) (hc, hs) digits =
    All-append (All P) (names_with c mk_digit_iter) (names_from s)
      (names_with-All P c mk_digit_iter hc digits) (names_from-All P s hs digits)

-- What holds of all digits holds of the characters of all names.
pub all_names-All : (P : ℕ → Type 0) → All P mk_digit_iter → All (All P) all_names
unfolding all_names
all_names-All P digits = names_from-All P mk_digit_iter digits digits

-- The iterator gives 4356 names, no two of them equal, and each has two characters.
pub new_names-iterate :
    (names : List Bytes) × ((new_names >>= iterate 4357) ≡ ok names)
    × (length names ≡ 4356)
    × Distinct names
    × All IsShort names
new_names-iterate =
    let (start, fresh, all) = new_names-all_names in
    let few : length (remaining start) < 4357 = rw all (omega (arith, length-all_names)) in
    (
      all_names,
      rw fresh (rw (iterate-remaining 4357 start few) (rw all)),
      length-all_names,
      (unfold all_names in names_from-Distinct mk_digit_iter digits-Distinct),
      all_names-IsShort,
    )
