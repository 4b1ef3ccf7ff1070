-- ===== src/Tracee/Mem.antt =====
-- Access to the memory of a tracee: tracee/mem.c, with HAVE_PROCESS_VM. `errno` is its value when a
-- function is called; ptrace(2) leaves it as it is when PTRACE_PEEKDATA succeeds.
pub mod Bytes
pub mod Fallback
pub mod Reads
pub mod Vectors
pub mod Writes
use abyss.Base.{
  ℕ, zero, suc, ◌+◌, ◌-◌, ◌*◌, ◌/◌, ◌%◌, ◌^◌, Bool, not, Option, none, some, List, [], ◌∷◌, ◌++◌,
  ltb, leb, ◌==◌, if◌then◌else◌, length, take, drop, Result, ok, err, efault,
}
use abyss.Tracee.Process.{word_size, Transfer, whole, partial, failed, Process}

-- `dest + 1` on a pointer to words.
abbrev pub next_word : ℕ → ℕ
next_word address = (address + word_size) % 2 ^ 64

-- `if (status < 0) return status;`
abbrev pub on_success :
    {Memory : Type 0}
    → Result (Unit {0}) × Memory
    → (Memory → Result (Unit {0}) × Memory)
    → Result (Unit {0}) × Memory
on_success (err e, m) next = (err e, m)
on_success (ok _, m) next = next m

-- `if (status < 0) return -EFAULT;` behind PTRACE_POKEDATA.
abbrev pub on_poke :
    {Memory : Type 0}
    → Option Memory
    → Memory
    → (Memory → Result (Unit {0}) × Memory)
    → Result (Unit {0}) × Memory
on_poke none m next = (err efault, m)
on_poke (some m') m next = next m'

-- `if (errno != 0) return -EFAULT;` behind PTRACE_PEEKDATA, where `out` is what is left.
abbrev pub on_peek {ℓ} : {A : Type ℓ} → ℕ → Option (List ℕ) → A → (List ℕ → A) → A
on_peek errno none out next = out
on_peek errno (some word) out next = if not (errno == 0) then out else next word

-- The full words, and the trailing bytes behind them.
abbrev pub followed_by :
    Result (Unit {0}) × List ℕ → Result (Unit {0}) × List ℕ → Result (Unit {0}) × List ℕ
followed_by (err e, out) tail = (err e, out)
followed_by (ok _, out) tail = (tail.0, out ++ tail.1)

module _ {Memory : Type 0} (p : Process Memory) where
  -- The loop over the full words of the buffer.
  unfoldable pub write_words : ℕ → ℕ → List ℕ → Memory → Result (Unit {0}) × Memory
  write_words zero dest src m = (ok tt, m)
  write_words (suc n) dest src m =
      on_poke (p.poke dest (take word_size src) m) m
        (write_words n (next_word dest) (drop word_size src))

  -- The last word, of which only the bytes of `src` are overwritten.
  unfoldable pub write_tail : ℕ → ℕ → List ℕ → Memory → Result (Unit {0}) × Memory
  write_tail errno dest [] m = (ok tt, m)
  write_tail errno dest (c ∷ src) m =
      on_peek errno (p.peek dest m) (err efault, m)
        (λ word.
          on_poke (p.poke dest (c ∷ (src ++ drop (length (c ∷ src)) word)) m) m (λ m'. (ok tt, m')))

  -- The fallback to ptrace(2).
  unfoldable pub ptrace_write : ℕ → ℕ → List ℕ → Memory → Result (Unit {0}) × Memory
  unfolding write_words write_tail
  ptrace_write errno dest src m =
      let nb_trailing_bytes = length src % word_size in
      let nb_full_words = (length src - nb_trailing_bytes) / word_size in
      on_success (write_words nb_full_words dest src m) (
        write_tail errno ((dest + nb_full_words * word_size) % 2 ^ 64)
          (drop (nb_full_words * word_size) src))

  unfoldable pub write_data : ℕ → ℕ → List ℕ → Memory → Result (Unit {0}) × Memory
  unfolding ptrace_write
  write_data errno dest src m =
      let (status, m') = p.vm_writev dest src m in
      elim status [
        | whole _ ↦ (ok tt, m')
        | partial ↦ ptrace_write errno dest src m'
        | failed e ↦ ptrace_write e dest src m'
      ]

  -- The loop over the full words: the status, and what has been stored in the buffer.
  unfoldable pub read_words : ℕ → ℕ → ℕ → Memory → Result (Unit {0}) × List ℕ
  read_words errno zero src m = (ok tt, [])
  read_words errno (suc n) src m =
      on_peek errno (p.peek src m) (err efault, [])
        (λ word. let rest = read_words errno n (next_word src) m in (rest.0, word ++ rest.1))

  unfoldable pub read_tail : ℕ → ℕ → ℕ → Memory → Result (Unit {0}) × List ℕ
  read_tail errno zero src m = (ok tt, [])
  read_tail errno (suc n) src m =
      on_peek errno (p.peek src m) (err efault, []) (λ word. (ok tt, take (suc n) word))

  -- The bytes that the tail adds to those of the full words.
  unfoldable pub ptrace_read : ℕ → ℕ → ℕ → Memory → Result (Unit {0}) × List ℕ
  unfolding read_words read_tail
  ptrace_read errno src size m =
      let nb_trailing_bytes = size % word_size in
      let nb_full_words = (size - nb_trailing_bytes) / word_size in
      followed_by (read_words errno nb_full_words src m)
        (read_tail errno nb_trailing_bytes ((src + nb_full_words * word_size) % 2 ^ 64) m)

  unfoldable pub read_data : ℕ → ℕ → ℕ → Memory → Result (Unit {0}) × List ℕ
  unfolding ptrace_read
  read_data errno src size m = elim (p.vm_readv src size m) [
    | whole dest ↦ (ok tt, dest)
    | partial ↦ ptrace_read errno src size m
    | failed e ↦ ptrace_read e src size m
  ]
