-- ===== src/TempFiles.antt =====
-- utils/short_temp_files.rs: temporary files with names of at most two characters, and the part of a
-- file system that they use.
pub mod AllNames
pub mod Create
pub mod Characters
use mathlib.Core.Option.{some-injective}
use check_protocols.Prelude.{
  ℕ, zero, suc, ◌≡◌, refl, Bool, true, Option, none, some, List, [], ◌∷◌, ◌++◌, ◌==◌, if◌then◌else◌,
}
use check_protocols.FilePath.{slash}
use check_protocols.Prelude.Text.{Bytes, codes, equal}
use check_protocols.Result.{out_of_file_names, io_failed, R, ok, err, panic, diverge, ◌>>=◌}

-- The files with their contents. An open, a read or a write may fail for reasons of its own.
pub record Fs : Type 0 where
  pub files : List (Bytes × Bytes)
  pub denied : Bytes → Bool
  pub unreadable : Bytes → Bool
  pub unwritable : Bytes → Bool

lookup_in : List (Bytes × Bytes) → Bytes → Option Bytes
lookup_in [] p = none
lookup_in ((q, contents) ∷ files) p = if equal q p then some contents else lookup_in files p

unfoldable pub contents_at : Fs → Bytes → Option Bytes
unfolding lookup_in
contents_at fs p = lookup_in fs.files p

without : Bytes → List (Bytes × Bytes) → List (Bytes × Bytes)
without p [] = []
without p ((q, contents) ∷ files) =
    let rest = without p files in if equal q p then rest else (q, contents) ∷ rest

unfoldable pub put_file : Bytes → Bytes → Fs → Fs
unfolding without
put_file p contents fs = record fs { files = (p, contents) ∷ without p fs.files }

-- `fs::remove_file`; the caller panics where there is none
unfoldable pub remove_file : Bytes → Fs → R Fs
unfolding without contents_at
remove_file p fs = elim (contents_at fs p) [
  | none ↦ panic
  | some _ ↦ ok (record fs { files = without p fs.files })
]

pub record ShortTempFile : Type 0 where
  pub path : Bytes

-- `drop` on the elements of a vector, in order
unfoldable pub drop_files : List ShortTempFile → Fs → R Fs
unfolding remove_file
drop_files [] fs = ok fs
drop_files (file ∷ files) fs = do fs' ← remove_file file.path fs; drop_files files fs'

unfoldable pub mk_digit_iter : Bytes
mk_digit_iter = codes "abcdefghijklmnopqrstuvwxyzABCDEFGHIJKLMNOPQRSTUVWXYZ1234567890-_+="

-- What the iterators `a` and `b` have left, and the first character of the name.
pub record Names : Type 0 where
  pub a : Bytes
  pub old_a : ℕ
  pub b : Bytes

-- `next().unwrap()` on a fresh iterator
first_names : Bytes → R Names
first_names [] = panic
first_names (c ∷ s) = ok (record { a = s; old_a = c; b = mk_digit_iter })

unfoldable pub new_names : R Names
unfolding first_names mk_digit_iter
new_names = first_names mk_digit_iter

next_from : Bytes → ℕ → Bytes → Option (Bytes × Names)
next_from a old_a (c ∷ b) = some (old_a ∷ c ∷ [], record { a = a; old_a = old_a; b = b })
next_from [] old_a [] = none
next_from (c ∷ a) old_a [] = next_from a c mk_digit_iter

unfoldable pub next : Names → Option (Bytes × Names)
unfolding next_from mk_digit_iter
next names = next_from names.a names.old_a names.b

-- `Path::join` with a relative name
ends_with_slash : Bytes → Bool
ends_with_slash [] = true
ends_with_slash (c ∷ []) = c == slash
ends_with_slash (c ∷ d ∷ s) = ends_with_slash (d ∷ s)

unfoldable pub join : Bytes → Bytes → Bytes
unfolding ends_with_slash
join directory name =
    if ends_with_slash directory then directory ++ name else directory ++ (slash ∷ name)

-- `create_new`: a file that exists already is no error
unfoldable pub try_create_new_file : Bytes → Fs → R (Option Fs)
unfolding put_file
try_create_new_file path fs = elim (contents_at fs path) [
  | some _ ↦ ok none
  | none ↦ if fs.denied path then err (io_failed path) else ok (some (put_file path [] fs))
]

create_loop : ℕ → Bytes → Names → Fs → R (Bytes × Fs)
create_loop zero directory names fs = diverge
create_loop (suc fuel) directory names fs = elim (next names) [
  | none ↦ err out_of_file_names
  | some (name, names') ↦ do
    created ← try_create_new_file (join directory name) fs
    elim created [
      | some fs' ↦ ok (join directory name, fs')
      | none ↦ create_loop fuel directory names' fs
    ]
]

-- There are 66 * 66 names.
unfoldable pub create_new_file : Bytes → Fs → R (Bytes × Fs)
unfolding create_loop
create_new_file directory fs = do names ← new_names; create_loop 4357 directory names fs

-- A write from the start of a file leaves what stands behind it.
unfoldable pub overwrite : Bytes → Bytes → Bytes
overwrite contents [] = contents
overwrite [] (o ∷ old) = o ∷ old
overwrite (c ∷ contents) (o ∷ old) = c ∷ overwrite contents old

unfoldable pub written_over : Bytes → Option Bytes → Bytes
unfolding overwrite
written_over contents none = contents
written_over contents (some old) = overwrite contents old

-- `write_all` and `flush` on the file that was opened, at its start
unfoldable pub write_all : Bytes → Bytes → Fs → R Fs
unfolding put_file
write_all path contents fs =
    if fs.unwritable path
    then err (io_failed path)
    else ok (put_file path (written_over contents (contents_at fs path)) fs)

pub written_over-empty :
    (contents : Bytes) (there : Option Bytes)
    → there ≡ some []
    → written_over contents there ≡ contents
unfolding written_over overwrite
written_over-empty contents none h = refl
written_over-empty contents (some []) h = refl
written_over-empty contents (some (o ∷ old)) h = absurd (cc)

unfoldable pub new_internal : Bytes → Bytes → Fs → R (ShortTempFile × Fs)
unfolding write_all
new_internal directory contents fs = do
  (path, fs₁) ← create_new_file directory fs
  fs₂ ← write_all path contents fs₁
  ok (record { path = path }, fs₂)

unfoldable pub new : Bytes → Fs → R (ShortTempFile × Fs)
new contents fs = new_internal (codes "/tmp") contents fs
