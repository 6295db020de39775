-- ===== src/TestSpec/Written.antt =====
-- The environment of a test, and the fields of an object that may be missing.
use check_protocols.Prelude.{
  ◌≡◌, refl, sym, ap, ◌∙◌, true, false, Option, none, some, List, [], ◌∷◌, ◌++◌, append_assoc,
  append-nil, arith, if◌then◌else◌, All,
}
use check_protocols.Platform.{Platform}
use check_protocols.Prelude.Text.{Bytes, equal}
use check_protocols.Result.{expected_field, R, ok, err}
use check_protocols.TestSpec.{env_without, env_insert}
use check_protocols.TestSpec.Parse.{if_field, insert_entries}
use check_protocols.TestSpec.Serialize.{serialize_entries}
use check_protocols.Yaml.{
  Yaml, string, Hash, empty_hash, entry, yaml_eq, hash_get, hash_push_back, hash_without,
  hash_insert, YamlCrate,
}
use check_protocols.YamlExt.{expect_str, expect_field, is_known, check_keys}

pub check_keys-string :
    (known : List Bytes) (s : Bytes) (w : Yaml) (h : Hash)
    → is_known known s ≡ true
    → check_keys known (entry (string s) w h) ≡ check_keys known h
unfolding check_keys expect_str
check_keys-string known s w h k = rw k

-- No entry has the key.
abbrev pub HasNoKey : Bytes → List (Bytes × Bytes) → Type 0
HasNoKey key [] = Unit
HasNoKey key ((k, v) ∷ env) = (equal k key ≡ false) × HasNoKey key env

-- The keys of the second list are different from each other and from those of the first.
abbrev pub Fresh : List (Bytes × Bytes) → List (Bytes × Bytes) → Type 0
Fresh before [] = Unit
Fresh before ((k, v) ∷ env) = HasNoKey k before × Fresh (before ++ (k, v) ∷ []) env

env_without-HasNoKey :
    (key : Bytes) (env : List (Bytes × Bytes)) → HasNoKey key env → env_without key env ≡ env
unfolding env_without
env_without-HasNoKey key [] h = refl
env_without-HasNoKey key ((k, v) ∷ env) (ne, h) = rw (ne, env_without-HasNoKey key env h) refl

entries_of : List (Bytes × Bytes) → Hash
entries_of [] = empty_hash
entries_of ((k, v) ∷ env) = entry (string k) (string v) (entries_of env)

insert_entries-entries_of :
    (env before : List (Bytes × Bytes))
    → Fresh before env
    → insert_entries (entries_of env) before ≡ ok (before ++ env)
unfolding insert_entries entries_of expect_str env_insert
insert_entries-entries_of [] before h = ap ok (sym (append-nil before))
insert_entries-entries_of ((k, v) ∷ env) before (fresh, h) =
    rw (env_without-HasNoKey k before fresh) (
      insert_entries-entries_of env (before ++ (k, v) ∷ []) h
      ∙ ap ok (append_assoc before ((k, v) ∷ []) env))

hash_without-entries_of :
    (key : Bytes) (env : List (Bytes × Bytes))
    → HasNoKey key env
    → hash_without (string key) (entries_of env) ≡ entries_of env
unfolding hash_without entries_of yaml_eq
hash_without-entries_of key [] h = refl
hash_without-entries_of key ((k, v) ∷ env) (ne, h) = rw (ne, hash_without-entries_of key env h) refl

hash_push_back-entries_of :
    (k v : Bytes) (env : List (Bytes × Bytes))
    → hash_push_back (string k) (string v) (entries_of env) ≡ entries_of (env ++ (k, v) ∷ [])
unfolding hash_push_back entries_of
hash_push_back-entries_of k v [] = refl
hash_push_back-entries_of k v ((l, w) ∷ env) =
    ap (entry (string l) (string w)) (hash_push_back-entries_of k v env)

-- an entry that `Yaml::from_str` reads as two strings
abbrev pub IsTextEntry : YamlCrate → Bytes × Bytes → Type 0
IsTextEntry Y (k, v) = (Y.from_str k ≡ string k) × (Y.from_str v ≡ string v)

module _ (E : Platform) (Y : YamlCrate) where
  serialize_entries-entries_of :
      (env before : List (Bytes × Bytes))
      → Fresh before env
      → All (IsTextEntry Y) env
      → serialize_entries E Y env (entries_of before) ≡ entries_of (before ++ env)
  unfolding serialize_entries hash_insert
  serialize_entries-entries_of [] before h texts = ap entries_of (sym (append-nil before))
  serialize_entries-entries_of ((k, v) ∷ env) before (fresh, h) ((key_text, value_text), texts) =
      rw
        (
          key_text,
          value_text,
          hash_without-entries_of k before fresh,
          hash_push_back-entries_of k v before,
        )
        (serialize_entries-entries_of env (before ++ (k, v) ∷ []) h texts
          ∙ ap entries_of (append_assoc before ((k, v) ∷ []) env))

  -- The entries of an environment are read back in their order.
  pub insert_entries-serialize_entries :
      (env : List (Bytes × Bytes))
      → Fresh [] env
      → All (IsTextEntry Y) env
      → insert_entries (serialize_entries E Y env empty_hash) [] ≡ ok env
  unfolding entries_of
  insert_entries-serialize_entries env h texts =
      ap (λ o. insert_entries o []) (serialize_entries-entries_of env [] h texts)
      ∙ insert_entries-entries_of env [] h

-- a field that may be missing
abbrev pub optional : Bytes → Option Yaml → Hash → Hash
optional name none object = object
optional name (some yaml) object = entry (string name) yaml object

abbrev pub or_else : Option Yaml → Option Yaml → Option Yaml
or_else none o = o
or_else (some yaml) o = some yaml

pub or_else-none : (o : Option Yaml) → or_else o none ≡ o
or_else-none none = refl
or_else-none (some yaml) = refl

pub hash_get-optional :
    (s name : Bytes) (o : Option Yaml) (h : Hash)
    → hash_get (string s) (optional name o h)
      ≡ (if equal name s then or_else o (hash_get (string s) h) else hash_get (string s) h)
unfolding hash_get yaml_eq
hash_get-optional s name none h = ground arith
hash_get-optional s name (some yaml) h = refl

pub hash_insert-optional :
    (s name : Bytes) (v : Yaml) (o : Option Yaml) (h : Hash)
    → equal name s ≡ false
    → hash_insert (string s) v (optional name o h) ≡ optional name o (hash_insert (string s) v h)
unfolding hash_insert hash_push_back hash_without yaml_eq
hash_insert-optional s name v none h ne = refl
hash_insert-optional s name v (some yaml) h ne = rw ne refl

pub check_keys-optional :
    (known : List Bytes) (name : Bytes) (o : Option Yaml) (h : Hash)
    → is_known known name ≡ true
    → check_keys known (optional name o h) ≡ check_keys known h
check_keys-optional known name none h k = refl
check_keys-optional known name (some yaml) h k = check_keys-string known name yaml h k

pub expect_field-some :
    (name : Bytes) (h : Hash) (yaml : Yaml)
    → hash_get (string name) h ≡ some yaml
    → expect_field name h ≡ ok yaml
unfolding expect_field
expect_field-some name h yaml e = rw (e, expect_field) refl

pub expect_field-none :
    (name : Bytes) (h : Hash)
    → hash_get (string name) h ≡ none
    → expect_field name h ≡ err (expected_field name h)
unfolding expect_field
expect_field-none name h e = rw (e, expect_field) refl

pub if_field-none {ℓ} :
    {A : Type ℓ} (name : Bytes) (h : Hash) (a : A) (f : Yaml → R A)
    → hash_get (string name) h ≡ none
    → if_field name h a f ≡ ok a
if_field-none name h a f e = unfold if_field in rw (expect_field-none name h e, if_field) refl

pub if_field-some {ℓ} :
    {A : Type ℓ} (name : Bytes) (h : Hash) (a : A) (f : Yaml → R A) (yaml : Yaml)
    → hash_get (string name) h ≡ some yaml
    → if_field name h a f ≡ f yaml
if_field-some name h a f yaml e =
    unfold if_field in rw (expect_field-some name h yaml e, if_field) refl
