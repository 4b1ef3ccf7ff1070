-- ===== src/Tracee/Process.antt =====
-- What is used of the kernel to reach the memory of a tracee: ptrace(2), process_vm_readv(2) and
-- process_vm_writev(2), with their documented behaviour. A word is the list of its eight bytes, in
-- the order in which they stand in memory.
use abyss.Base.{
  ℕ, zero, suc, ◌+◌, ◌-◌, ◌≡◌, Bool, false, ◌&&◌, Option, some, List, [], ◌∷◌, ltb, leb,
  if◌then◌else◌, length, get_or,
}

abbrev pub word_size : ℕ
word_size = 8

-- The bytes from an address on.
unfoldable pub bytes : (ℕ → ℕ) → ℕ → ℕ → List ℕ
bytes f a zero = []
bytes f a (suc n) = f a ∷ bytes f (a + 1) n

abbrev pub within : ℕ → ℕ → ℕ → Bool
within a n j = leb a j && ltb j (a + n)

-- A memory with bytes written over it.
unfoldable pub splice : (ℕ → ℕ) → ℕ → List ℕ → ℕ → ℕ
splice f a w j = if within a (length w) j then get_or w (j - a) 0 else f j

-- How a transfer ended: all bytes, some of them, or an error with its errno.
pub data Transfer {ℓ} (A : Type ℓ) : Type ℓ where
  whole : A → Transfer A
  partial : Transfer A
  failed : ℕ → Transfer A

pub record Process (Memory : Type 0) : Type 0 where
  -- The byte at an address.
  pub byte : Memory → ℕ → ℕ
  -- PTRACE_PEEKDATA and PTRACE_POKEDATA; `none` on an error.
  pub peek : ℕ → Memory → Option (List ℕ)
  pub poke : ℕ → List ℕ → Memory → Option Memory
  pub vm_readv : ℕ → ℕ → Memory → Transfer (List ℕ)
  pub vm_writev : ℕ → List ℕ → Memory → Transfer (Unit {0}) × Memory
  pub peek_bytes :
      (a : ℕ) (m : Memory) {w : List ℕ} → peek a m ≡ some w → w ≡ bytes (byte m) a word_size
  pub poke_bytes :
      (a : ℕ) (w : List ℕ) (m : Memory) {m' : Memory}
      → length w ≡ word_size
      → poke a w m ≡ some m'
      → (j : ℕ) → byte m' j ≡ splice (byte m) a w j
  pub readv_bytes :
      (a n : ℕ) (m : Memory) {w : List ℕ} → vm_readv a n m ≡ whole w → w ≡ bytes (byte m) a n
  pub writev_bytes :
      (a : ℕ) (w : List ℕ) (m : Memory)
      → (vm_writev a w m).0 ≡ whole tt
      → (j : ℕ) → byte (vm_writev a w m).1 j ≡ splice (byte m) a w j
  pub writev_outside :
      (a : ℕ) (w : List ℕ) (m : Memory) (j : ℕ)
      → within a (length w) j ≡ false
      → byte (vm_writev a w m).1 j ≡ byte m j
