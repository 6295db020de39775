-- ===== src/TempFiles/Create.antt =====
-- What a new temporary file is: the first name that is free.
use mathlib.Core.Option.{some-injective}
use check_protocols.Prelude.{
  ℕ, zero, suc, ◌<◌, ◌≡◌, refl, sym, subst, ◌∙◌, ◌≢◌, inl, inr, false, Option, none, some, List, [],
  ◌∷◌, arith, if◌then◌else◌, Bool-cases, Option-cases, length, All,
}
use check_protocols.Prelude.Text.{Bytes, codes, equal, equal_refl, equal_iff, equal_ne}
use check_protocols.Result.{out_of_file_names, io_failed, R, ok, err, ok-injective}
use check_protocols.TempFiles.{
  Fs, lookup_in, contents_at, without, put_file, ShortTempFile, Names, next, join,
  try_create_new_file, create_loop, create_new_file, write_all, written_over-empty, new_internal,
  new,
}
use check_protocols.TempFiles.AllNames.{
  remaining, all_names, next-remaining, new_names-all_names, IsShort, length-all_names,
  all_names-IsShort,
}

-- the first of these names that no file has in the directory
pub first_free : Bytes → Fs → List Bytes → Option Bytes
first_free directory fs [] = none
first_free directory fs (name ∷ names) = elim (contents_at fs (join directory name)) [
  | some _ ↦ first_free directory fs names
  | none ↦ some name
]

-- what is to be done at the first free name
unfoldable pub create_at : Bytes → Fs → Option Bytes → R (Bytes × Fs)
create_at directory fs none = err out_of_file_names
create_at directory fs (some name) =
    if fs.denied (join directory name)
    then err (io_failed (join directory name))
    else ok (join directory name, put_file (join directory name) [] fs)

create_loop-taken :
    (fuel : ℕ) (directory : Bytes) (names names' : Names) (fs : Fs) (name old : Bytes)
    → next names ≡ some (name, names')
    → contents_at fs (join directory name) ≡ some old
    → create_loop (suc fuel) directory names fs ≡ create_loop fuel directory names' fs
unfolding create_loop try_create_new_file
create_loop-taken fuel directory names names' fs name old e taken =
    rw (e, create_loop) (rw (taken, try_create_new_file))

create_loop-free :
    (fuel : ℕ) (directory : Bytes) (names names' : Names) (fs : Fs) (name : Bytes)
    → next names ≡ some (name, names')
    → contents_at fs (join directory name) ≡ none
    → create_loop (suc fuel) directory names fs ≡ create_at directory fs (some name)
unfolding create_loop try_create_new_file create_at join
create_loop-free fuel directory names names' fs name e free =
    rw (e, create_loop)
      (rw (free, try_create_new_file)
        (elim (Bool-cases (fs.denied (join directory name))) [
          | inl d ↦ rw (d, create_at)
          | inr d ↦ rw (d, create_at)
        ]))

create_loop-first_free :
    (fuel : ℕ) (directory : Bytes) (names : Names) (fs : Fs)
    → length (remaining names) < fuel
    → create_loop fuel directory names fs
      ≡ create_at directory fs (first_free directory fs (remaining names))
unfolding first_free
create_loop-first_free zero directory names fs f = elim f [ ]
create_loop-first_free (suc fuel) directory names fs f = elim (next-remaining names) [
  | inl (e, none_left) ↦ rw none_left (unfold create_loop create_at in rw (e, create_loop))
  | inr (name, names', e, more) ↦
      let fewer : length (name ∷ remaining names') < suc fuel = rw more at f in
      elim (Option-cases (contents_at fs (join directory name))) [
        | inl free ↦
            create_loop-free fuel directory names names' fs name e free
            ∙ rw more (rw (free, first_free))
        | inr (old, taken) ↦
            create_loop-taken fuel directory names names' fs name old e taken
            ∙ create_loop-first_free fuel directory names' fs (omega arith)
            ∙ rw more (rw (taken, first_free))
      ]
]

-- A new file is created under the first name that is free in the directory, and fails if the 4356
-- names are taken or the operating system refuses that file.
pub create_new_file-first_free :
    (directory : Bytes) (fs : Fs)
    → create_new_file directory fs ≡ create_at directory fs (first_free directory fs all_names)
unfolding create_new_file
create_new_file-first_free directory fs =
    let (start, fresh, all) = new_names-all_names in
    rw fresh (
      create_loop-first_free 4357 directory start fs (rw all (omega (arith, length-all_names)))
      ∙ rw all)

lookup_in-without :
    (p q : Bytes) (files : List (Bytes × Bytes))
    → lookup_in (without p files) q ≡ (if equal p q then none else lookup_in files q)
unfolding lookup_in without
lookup_in-without p q [] = ground arith
lookup_in-without p q ((r, c) ∷ files) =
    ground (arith, lookup_in-without p q files, equal_iff r p, equal_iff r q, equal_iff p q)

pub contents_at-put_file :
    (p q contents : Bytes) (fs : Fs)
    → contents_at (put_file p contents fs) q
      ≡ (if equal p q then some contents else contents_at fs q)
unfolding contents_at put_file lookup_in
contents_at-put_file p q contents fs = ground (arith, lookup_in-without p q fs.files)

pub first_free_sound :
    (P : Bytes → Type 0) (directory : Bytes) (fs : Fs) (names : List Bytes) (name : Bytes)
    → All P names
    → first_free directory fs names ≡ some name
    → P name × (contents_at fs (join directory name) ≡ none)
unfolding first_free
first_free_sound P directory fs [] name h e = cc
first_free_sound P directory fs (n ∷ names) name (h, hs) e =
    elim (Option-cases (contents_at fs (join directory n))) [
      | inl free ↦
          let same : n ≡ name = some-injective n name (rw (free, first_free) at e) in
          rw (← same) (h, free)
      | inr (old, taken) ↦
          first_free_sound P directory fs names name hs (rw (taken, first_free) at e)
    ]

-- What holds of a new file at `path`.
abbrev IsNewFile : Bytes → Fs → ShortTempFile × Fs → Type 0
IsNewFile contents fs (file, fs') =
    (length file.path ≡ 7)
    × (contents_at fs file.path ≡ none)
    × (contents_at fs' file.path ≡ some contents)
    × ((q : Bytes) → q ≢ file.path → contents_at fs' q ≡ contents_at fs q)

pub put_twice :
    (p contents q : Bytes) (fs : Fs)
    → contents_at (put_file p contents (put_file p [] fs)) q
      ≡ (if equal p q then some contents else contents_at fs q)
put_twice p contents q fs =
    contents_at-put_file p q contents (put_file p [] fs)
    ∙ ground (arith, contents_at-put_file p q [] fs)

written-IsNewFile :
    (contents name : Bytes) (fs : Fs)
    → IsShort name
    → contents_at fs (join (codes "/tmp") name) ≡ none
    → (let path = join (codes "/tmp") name in
        IsNewFile contents fs
          (record { path = path }, put_file path contents (put_file path [] fs)))
written-IsNewFile contents name fs short free =
    let path = join (codes "/tmp") name in
    (
      (unfold join in omega arith),
      free,
      put_twice path contents path fs ∙ rw (equal_refl path),
      λ q ne. put_twice path contents q fs ∙ (rw (equal_ne path q (λ e. ne (sym e)))),
    )

-- A file that was emptied holds what is written to it.
pub write_all-put_file :
    (path contents : Bytes) (fs : Fs)
    → fs.unwritable path ≡ false
    → write_all path contents (put_file path [] fs)
      ≡ ok (put_file path contents (put_file path [] fs))
unfolding write_all put_file
write_all-put_file path contents fs writable =
    let emptied = contents_at-put_file path path [] fs ∙ rw (equal_refl path) in
    rw (writable, written_over-empty contents _ emptied) refl

pub new_lem :
    (contents : Bytes) (fs fs' : Fs) (file : ShortTempFile)
    → new contents fs ≡ ok (file, fs')
    → (length file.path ≡ 7)
      × (contents_at fs file.path ≡ none)
      × (contents_at fs' file.path ≡ some contents)
      × ((q : Bytes) → q ≢ file.path → contents_at fs' q ≡ contents_at fs q)
unfolding new new_internal create_at
new_lem contents fs fs' file h = elim (Option-cases (first_free (codes "/tmp") fs all_names)) [
  | inl e ↦ absurd (cc (rw (create_new_file-first_free, e) at h))
  | inr (name, e) ↦
      let path = join (codes "/tmp") name in
      let (short, free) =
        first_free_sound IsShort (codes "/tmp") fs all_names name all_names-IsShort e in
      elim (Bool-cases (fs.denied path)) [
        | inl d ↦ absurd (cc (rw (create_new_file-first_free, e, d) at h))
        | inr d ↦ elim (Bool-cases (fs.unwritable path)) [
          | inl w ↦ absurd (cc (rw (create_new_file-first_free, e, d, write_all, w) at h))
          | inr w ↦
              let written = write_all-put_file path contents fs w in
              subst (IsNewFile contents fs)
                (ok-injective _ (file, fs') (rw (create_new_file-first_free, e, d, written) at h))
                (written-IsNewFile contents name fs short free)
        ]
      ]
]
