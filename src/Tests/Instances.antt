-- ===== src/Tests/Instances.antt =====
-- Concrete functions for the parameters of the model.
use mathlib.Core.Option.{some-injective}
use check_protocols.Prelude.{
  ℕ, ◌+◌, ◌%◌, ◌^◌, ◌≤◌, ◌<◌, ◌≡◌, refl, ap, ◌⊎◌, true, false, Option, none, some, [], ◌∷◌, arith,
  ◌==◌, if◌then◌else◌, ==_refl,
}
use check_protocols.Command.{Command}
use check_protocols.ExecutableMock.{Context}
use check_protocols.Platform.{Config, Platform}
use check_protocols.Prelude.Int.{ℤ, pos, negsuc}
use check_protocols.Prelude.Text.{Bytes, codes}
use check_protocols.Ptrace.{Ptrace}
use check_protocols.TempFiles.{Fs}
use check_protocols.TestChecker.{Registers}
use check_protocols.Yaml.{Yaml, string, YamlCrate}

-- a mock as bytes: the sign and the size of the exit code, and then the output
abbrev pub serialize_config : Bytes → ℤ → Bytes
serialize_config stdout (pos n) = 0 ∷ n ∷ stdout
serialize_config stdout (negsuc n) = 1 ∷ n ∷ stdout

abbrev pub deserialize_config : Bytes → Option Config
deserialize_config [] = none
deserialize_config (sign ∷ []) = none
deserialize_config (sign ∷ n ∷ stdout) =
    some (record { stdout = stdout; exitcode = if sign == 0 then pos n else negsuc n })

pub deserialize-serialize_config :
    (stdout : Bytes) (exitcode : ℤ)
    → deserialize_config (serialize_config stdout exitcode)
      ≡ some (record { stdout = stdout; exitcode = exitcode })
deserialize-serialize_config stdout (pos n) = refl
deserialize-serialize_config stdout (negsuc n) = refl

-- no program is in PATH, and no regular expression compiles
abbrev pub plain_platform : Platform
plain_platform = record {
  which = λ p. none;
  compile_regex = λ s. none;
  trim_margin = λ s. some s;
  debug = λ s. s;
  serialize = λ c. serialize_config c.stdout c.exitcode;
  deserialize = deserialize_config;
  deserialize-serialize = λ c. deserialize-serialize_config c.stdout c.exitcode;
  st_mode_offset = 24;
  s_ifdir = 16384;
  s_ifreg = 32768;
}

abbrev set_word : (ℕ → ℕ) → ℕ → ℕ → ℕ → ℕ
set_word m a w b = if a == b then w else m b

pub set_word_self : (m : ℕ → ℕ) (a w : ℕ) → w < 2 ^ 64 → set_word m a w a % 2 ^ 64 ≡ w
set_word_self m a w h = rw (==_refl a) (omega (arith, h))

pub set_word_other : (m : ℕ → ℕ) (a w b : ℕ) → (a + 8 ≤ b) ⊎ (b + 8 ≤ a) → set_word m a w b ≡ m b
set_word_other m a w b apart = ground arith

-- a memory of words in which every address is mapped and can be written
abbrev pub word_memory : Ptrace
word_memory = record {
  Memory = ℕ → ℕ;
  read = λ m a. some (m a % 2 ^ 64);
  write = λ m a w. some (set_word m a w);
  read_lt = λ m a w e. rw (← some-injective _ w e) (omega arith);
  read-write_self = λ m a w m' h e. rw (← some-injective _ m' e) (ap some (set_word_self m a w h));
  read-write_other = λ m a w m' b e apart.
      rw (← some-injective _ m' e) (ap (λ n. some (n % 2 ^ 64)) (set_word_other m a w b apart));
  writable = λ m a. true;
  write_writable = λ m a w h. (set_word m a w, refl);
  writable_write = λ m a w m' b h. refl;
}

abbrev pub zeros : ℕ → ℕ
zeros a = 0

abbrev pub true_command : Command
true_command = record { executable = codes "true"; arguments = [] }

abbrev pub false_command : Command
false_command = record { executable = codes "false"; arguments = codes "a b" ∷ [] }

-- a file system with a scriptkeeper in it
abbrev pub small_files : Fs
small_files = record {
  files = (codes "/bin/scriptkeeper", codes "x") ∷ [];
  denied = λ p. false;
  unreadable = λ p. false;
  unwritable = λ p. false;
}

abbrev pub small_context : Context
small_context = record { scriptkeeper_executable = codes "/bin/scriptkeeper" }

abbrev pub small_registers : Registers
small_registers = record { rdi = 64; rsi = 8; rax = 0; orig_rax = 0 }

-- every scalar is a string, every text is read as this value, and every value is written as one text
abbrev pub yaml_crate : Yaml → YamlCrate
yaml_crate yaml = record {
  from_str = string;
  load_from_str = λ s. some (yaml ∷ []);
  dump = λ y. some (codes "---\ntests");
  from_str-field = (refl, (refl, (refl, (refl, (refl, (refl, (refl, tt)))))));
}
