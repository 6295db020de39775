-- ===== src/Yaml.antt =====
-- The values of the crate yaml_rust, with the public constructors of its type `Yaml`, and the maps of
-- the crate linked_hash_map that its hashes are. An array and a hash are lists of their own.
use check_protocols.Prelude.{
  ℕ, ◌≡◌, Bool, true, false, not, ◌&&◌, Option, none, some, List, [], ◌∷◌, ◌==◌, if◌then◌else◌, All,
}
use check_protocols.Prelude.Int.{ℤ, int_eq}
use check_protocols.Prelude.Text.{Bytes, codes, equal}

mutual
  pub data Yaml : Type 0 where
    real : Bytes → Yaml
    integer : ℤ → Yaml
    string : Bytes → Yaml
    boolean : Bool → Yaml
    array : Yamls → Yaml
    hash : Hash → Yaml
    alias : ℕ → Yaml
    null bad_value : Yaml

  pub data Yamls : Type 0 where
    end : Yamls
    item : Yaml → Yamls → Yamls

  -- the entries in their order
  pub data Hash : Type 0 where
    empty_hash : Hash
    entry : Yaml → Yaml → Hash → Hash

-- `==` of these types
unfoldable mutual
  pub yaml_eq : Yaml → Yaml → Bool
  yaml_eq (real s) (real t) = equal s t
  yaml_eq (integer m) (integer n) = int_eq m n
  yaml_eq (string s) (string t) = equal s t
  yaml_eq (boolean true) (boolean b) = b
  yaml_eq (boolean false) (boolean b) = not b
  yaml_eq (array a) (array b) = yamls_eq a b
  yaml_eq (hash g) (hash h) = hash_eq g h
  yaml_eq (alias m) (alias n) = m == n
  yaml_eq null null = true
  yaml_eq bad_value bad_value = true
  yaml_eq _ _ = false

  yamls_eq : Yamls → Yamls → Bool
  yamls_eq end end = true
  yamls_eq (item a as') (item b bs) = yaml_eq a b && yamls_eq as' bs
  yamls_eq _ _ = false

  hash_eq : Hash → Hash → Bool
  hash_eq empty_hash empty_hash = true
  hash_eq (entry k v g) (entry l w h) = yaml_eq k l && (yaml_eq v w && hash_eq g h)
  hash_eq _ _ = false

-- `LinkedHashMap::get`
unfoldable pub hash_get : Yaml → Hash → Option Yaml
hash_get key empty_hash = none
hash_get key (entry k v h) = if yaml_eq k key then some v else hash_get key h

unfoldable pub hash_push_back : Yaml → Yaml → Hash → Hash
hash_push_back key value empty_hash = entry key value empty_hash
hash_push_back key value (entry k v h) = entry k v (hash_push_back key value h)

unfoldable pub hash_without : Yaml → Hash → Hash
hash_without key empty_hash = empty_hash
hash_without key (entry k v h) =
    let rest = hash_without key h in if yaml_eq k key then rest else entry k v rest

-- `LinkedHashMap::insert`: an old entry of the key is removed, and the new one is the last.
unfoldable pub hash_insert : Yaml → Yaml → Hash → Hash
unfolding hash_push_back hash_without
hash_insert key value h = hash_push_back key value (hash_without key h)

-- `as_str`, `as_i64`, `as_vec` and `as_hash`
unfoldable pub as_str : Yaml → Option Bytes
as_str (string s) = some s
as_str _ = none

unfoldable pub as_i64 : Yaml → Option ℤ
as_i64 (integer n) = some n
as_i64 _ = none

unfoldable pub as_vec : Yaml → Option Yamls
as_vec (array a) = some a
as_vec _ = none

unfoldable pub as_hash : Yaml → Option Hash
as_hash (hash h) = some h
as_hash _ = none

-- the items of an array, and an array of these items
unfoldable pub items : Yamls → List Yaml
items end = []
items (item yaml yamls) = yaml ∷ items yamls

unfoldable pub array_of : List Yaml → Yamls
array_of [] = end
array_of (yaml ∷ yamls) = item yaml (array_of yamls)

-- the fields that the program writes through `Yaml::from_str`
abbrev pub written_fields : List Bytes
written_fields =
    codes "command"
    ∷ codes "exitcode"
    ∷ codes "arguments"
    ∷ codes "env"
    ∷ codes "steps"
    ∷ codes "unmockedCommands"
    ∷ codes "tests"
    ∷ []

-- What the program calls in yaml_rust.
pub record YamlCrate : Type 0 where
  -- `Yaml::from_str`: a plain scalar as the value that it stands for
  pub from_str : Bytes → Yaml
  -- `YamlLoader::load_from_str` and `YamlEmitter::dump`
  pub load_from_str : Bytes → Option (List Yaml)
  pub dump : Yaml → Option Bytes
  -- these words are no numbers and no keywords
  pub from_str-field : All (λ s. from_str s ≡ string s) written_fields
