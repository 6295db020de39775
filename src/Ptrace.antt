-- ===== src/Ptrace.antt =====
-- The operating system's `ptrace` on the memory of a stopped tracee, through the crate `nix`: a
-- parameter of the model, with the documented behaviour of PTRACE_PEEKDATA and PTRACE_POKEDATA that
-- the program relies on. Words have eight bytes.
use check_protocols.Prelude.{ℕ, ◌+◌, ◌^◌, ◌≤◌, ◌<◌, ◌≡◌, ◌⊎◌, Bool, true, Option, some}

pub record Ptrace : Type 1 where
  pub Memory : Type 0
  -- `ptrace::read` and `ptrace::write`; `none` is an error, such as an address that is not mapped
  pub read : Memory → ℕ → Option ℕ
  pub write : Memory → ℕ → ℕ → Option Memory
  pub read_lt : (m : Memory) (a w : ℕ) → read m a ≡ some w → w < 2 ^ 64
  pub read-write_self :
      (m : Memory) (a w : ℕ) (m' : Memory) → w < 2 ^ 64 → write m a w ≡ some m' → read m' a ≡ some w
  pub read-write_other :
      (m : Memory) (a w : ℕ) (m' : Memory) (b : ℕ)
      → write m a w ≡ some m'
      → (a + 8 ≤ b) ⊎ (b + 8 ≤ a)
      → read m' b ≡ read m b
  -- whether a word lies in pages that may be written; a write does not change this
  pub writable : Memory → ℕ → Bool
  pub write_writable :
      (m : Memory) (a w : ℕ) → writable m a ≡ true → (m' : Memory) × (write m a w ≡ some m')
  pub writable_write :
      (m : Memory) (a w : ℕ) (m' : Memory) (b : ℕ)
      → write m a w ≡ some m'
      → writable m' b ≡ writable m b
