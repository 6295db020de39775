-- ===== src/Platform.antt =====
-- What the program takes from crates and from libc: parameters of the model.
use check_protocols.Prelude.{ℕ, ◌≡◌, Bool, Option, some}
use check_protocols.Prelude.Int.{ℤ}
use check_protocols.Prelude.Text.{Bytes}

-- What a mocked executable prints and how it exits.
pub record Config : Type 0 where
  pub stdout : Bytes
  pub exitcode : ℤ

pub record Platform : Type 0 where
  -- `quale::which`
  pub which : Bytes → Option Bytes
  -- `regex::Regex::new`, as the test that it gives
  pub compile_regex : Bytes → Option (Bytes → Bool)
  -- `trim_margin`
  pub trim_margin : Bytes → Option Bytes
  -- how `{:?}` shows a string
  pub debug : Bytes → Bytes
  -- `bincode::serialize` and `bincode::deserialize`
  pub serialize : Config → Bytes
  pub deserialize : Bytes → Option Config
  pub deserialize-serialize : (c : Config) → deserialize (serialize c) ≡ some c
  -- constants of libc: the place of `st_mode` in `stat`, and the modes of folders and files
  pub st_mode_offset : ℕ
  pub s_ifdir : ℕ
  pub s_ifreg : ℕ
