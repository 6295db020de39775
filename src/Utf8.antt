-- ===== src/Utf8.antt =====
-- `OsStr::to_string_lossy` and `OsStr::to_str` of the standard library, which the program calls on
-- the bytes of paths and arguments: the UTF-8 decoder, one byte at a time.
use mathlib.Core.Bool.{false≢true}
use check_protocols.Prelude.{
  ℕ, ◌≡◌, refl, sym, ◌∙◌, inl, inr, Bool, true, false, ◌&&◌, List, [], ◌∷◌, ◌++◌, append_assoc,
  append-nil, arith, ltb, leb, ◌==◌, if◌then◌else◌, Bool-cases,
}
use check_protocols.Prelude.Text.{Bytes}

-- The bytes of a character that is not complete, and the ranges that the next bytes have to be in.
pub record Decoder : Type 0 where
  pub pending : Bytes
  pub wanted : List (ℕ × ℕ)

abbrev idle : Decoder
idle = record { pending = []; wanted = [] }

-- U+FFFD
abbrev replacement : Bytes
replacement = 0xEF ∷ 0xBF ∷ 0xBD ∷ []

abbrev within : ℕ → ℕ → ℕ → Bool
within lo hi b = leb lo b && leb b hi

abbrev tail_range : ℕ × ℕ
tail_range = (0x80, 0xBF)

-- what has to follow a first byte from 0x80 on; nothing, if the byte begins no character
followers : ℕ → List (ℕ × ℕ)
followers b =
    if within 0xC2 0xDF b
    then tail_range ∷ []
    else if b == 0xE0
    then (0xA0, 0xBF) ∷ tail_range ∷ []
    else if b == 0xED
    then (0x80, 0x9F) ∷ tail_range ∷ []
    else if within 0xE1 0xEF b
    then tail_range ∷ tail_range ∷ []
    else if b == 0xF0
    then (0x90, 0xBF) ∷ tail_range ∷ tail_range ∷ []
    else if within 0xF1 0xF3 b
    then tail_range ∷ tail_range ∷ tail_range ∷ []
    else if b == 0xF4
    then (0x80, 0x8F) ∷ tail_range ∷ tail_range ∷ []
    else []

-- what a byte puts out, the decoder behind it, and whether the text is well-formed so far
abbrev Decoded : Type 0
Decoded = Bytes × Decoder × Bool

start : ℕ → List (ℕ × ℕ) → Decoded
start b [] = (replacement, idle, false)
start b (r ∷ rs) = ([], record { pending = b ∷ []; wanted = r ∷ rs }, true)

begin : ℕ → Decoded
unfolding followers start
begin b = if ltb b 0x80 then (b ∷ [], idle, true) else start b (followers b)

-- the byte is in range: the character is complete, or goes on
continue : Bytes → List (ℕ × ℕ) → Decoded
continue done [] = (done, idle, true)
continue done (r ∷ rs) = ([], record { pending = done; wanted = r ∷ rs }, true)

step_in : Bytes → List (ℕ × ℕ) → ℕ → Decoded
unfolding begin continue
step_in pending [] b = begin b
step_in pending ((lo, hi) ∷ rs) b =
    if within lo hi b
    then continue (pending ++ b ∷ []) rs
    else let (out, d, _) = begin b in (replacement ++ out, d, false)

step : Decoder → ℕ → Decoded
unfolding step_in
step d b = step_in d.pending d.wanted b

at_end : List (ℕ × ℕ) → Bytes × Bool
at_end [] = ([], true)
at_end (r ∷ rs) = (replacement, false)

-- the text with every broken part replaced, and whether there was none
decode : Decoder → Bytes → Bytes × Bool
unfolding step at_end
decode d [] = at_end d.wanted
decode d (b ∷ s) =
    let (out, d', fits) = step d b in let (rest, good) = decode d' s in (out ++ rest, fits && good)

unfoldable pub to_string_lossy : Bytes → Bytes
unfolding decode
to_string_lossy s = (decode idle s).0

unfoldable pub is_utf8 : Bytes → Bool
unfolding decode
is_utf8 s = (decode idle s).1

-- What a step has read is what it puts out and what is pending, and an idle decoder has nothing
-- pending.
abbrev Accounts : Decoded → Bytes → Type 0
Accounts (out, d, _) read = (out ++ d.pending ≡ read) × (d.wanted ≡ [] → d.pending ≡ [])

start-Accounts :
    (b : ℕ) (rs : List (ℕ × ℕ)) → (start b rs).2 ≡ true → Accounts (start b rs) (b ∷ [])
unfolding start
start-Accounts b [] good = cc
start-Accounts b (r ∷ rs) good = (refl, λ e. cc)

begin-Accounts : (b : ℕ) → (begin b).2 ≡ true → Accounts (begin b) (b ∷ [])
unfolding begin
begin-Accounts b good = elim (Bool-cases (ltb b 0x80)) [
  | inl e ↦ rw e (refl, λ _. refl)
  | inr e ↦ rw e (start-Accounts b (followers b) (rw e at good))
]

continue-Accounts : (s : Bytes) (rs : List (ℕ × ℕ)) → Accounts (continue s rs) s
unfolding continue
continue-Accounts s [] = (append-nil s, λ _. refl)
continue-Accounts s (r ∷ rs) = (refl, λ e. cc)

step_in-Accounts :
    (pending : Bytes) (wanted : List (ℕ × ℕ)) (b : ℕ)
    → (wanted ≡ [] → pending ≡ [])
    → (step_in pending wanted b).2 ≡ true
    → Accounts (step_in pending wanted b) (pending ++ b ∷ [])
unfolding step_in
step_in-Accounts pending [] b h good = rw (h refl) (begin-Accounts b good)
step_in-Accounts pending ((lo, hi) ∷ rs) b h good = elim (Bool-cases (within lo hi b)) [
  | inl e ↦ rw e (continue-Accounts (pending ++ b ∷ []) rs)
  | inr e ↦ absurd (false≢true (rw e at good))
]

at_end-good :
    (wanted : List (ℕ × ℕ)) (pending : Bytes)
    → (wanted ≡ [] → pending ≡ [])
    → (at_end wanted).1 ≡ true
    → (at_end wanted).0 ≡ pending ++ []
unfolding at_end
at_end-good [] pending h good = rw (h refl)
at_end-good (r ∷ rs) pending h good = absurd (false≢true good)

decode-is_good :
    (d : Decoder) (s : Bytes)
    → (d.wanted ≡ [] → d.pending ≡ [])
    → (decode d s).1 ≡ true
    → (decode d s).0 ≡ d.pending ++ s
unfolding decode
decode-is_good d [] h good = at_end-good d.wanted d.pending h good
decode-is_good d (b ∷ s) h good =
    let fits : (step d b).2 ≡ true = ground arith in
    let rest_good : (decode (step d b).1 s).1 ≡ true = ground arith in
    let (spelled, idle_empty) = step_in-Accounts d.pending d.wanted b h fits in
    let ih = decode-is_good (step d b).1 s idle_empty rest_good in
    rw ih (sym (append_assoc _ _ s) ∙ rw spelled (append_assoc d.pending (b ∷ []) s))

-- On valid UTF-8 the lossy conversion changes nothing.
pub to_string_lossy-is_utf8 : (s : Bytes) → is_utf8 s ≡ true → to_string_lossy s ≡ s
unfolding to_string_lossy is_utf8
to_string_lossy-is_utf8 s good = decode-is_good idle s (λ _. refl) good
