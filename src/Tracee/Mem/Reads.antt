-- ===== src/Tracee/Mem/Reads.antt =====
-- What `read_data` finds in the memory.
use mathlib.Core.Path.{subst}
use abyss.Base.{
  ℕ, zero, suc, ◌+◌, ◌-◌, ◌*◌, ◌/◌, ◌%◌, ◌^◌, ◌<◌, ◌≤◌, ◌≡◌, refl, sym, ◌∙◌, inl, inr, Option, none,
  some, List, [], ◌++◌, arith, ◌==◌, length, Result, ok, err, efault, Bool-cases,
}
use abyss.Tracee.Process.{word_size, bytes, Transfer, whole, partial, failed, Process}
use abyss.Tracee.Mem.{
  next_word, on_peek, followed_by, read_words, read_tail, ptrace_read, read_data, write_data,
}
use abyss.Tracee.Mem.Bytes.{bytes-append, take-bytes, bytes-splice}
use abyss.Tracee.Mem.Writes.{write_data-bytes}

module _ {Memory : Type 0} (p : Process Memory) where
  -- Unless it fails, a step has read the `n` bytes at `a`.
  abbrev Finds : ℕ → ℕ → Memory → Result (Unit {0}) × List ℕ → Type 0
  Finds a n m (err e, out) = Unit
  Finds a n m (ok _, out) = out ≡ bytes (p.byte m) a n

  Finds-on_peek :
      (a n : ℕ) (m : Memory) (errno : ℕ) (o : Option (List ℕ)) (out : List ℕ)
      (next : List ℕ → Result (Unit {0}) × List ℕ)
      → ((word : List ℕ) → o ≡ some word → Finds a n m (next word))
      → Finds a n m (on_peek errno o (err efault, out) next)
  Finds-on_peek a n m errno none out next h = tt
  Finds-on_peek a n m errno (some word) out next h = elim (Bool-cases (errno == 0)) [
    | inl e ↦ rw e (h word refl)
    | inr e ↦ rw e tt
  ]

  Finds-then :
      (a b n k : ℕ) (m : Memory) (u : List ℕ) (r : Result (Unit {0}) × List ℕ)
      → a + n ≡ b
      → u ≡ bytes (p.byte m) a n
      → Finds b k m r
      → Finds a (n + k) m (r.0, u ++ r.1)
  Finds-then a b n k m u (err e, out) h first then_ = tt
  Finds-then a b n k m u (ok _, out) h first then_ =
      rw (first, then_, ← h) (sym (bytes-append (p.byte m) a n k))

  read_words-Finds :
      (errno n src : ℕ) (m : Memory)
      → src + n * word_size < 2 ^ 64
      → Finds src (n * word_size) m (read_words p errno n src m)
  unfolding read_words bytes
  read_words-Finds errno zero src m fits = refl
  read_words-Finds errno (suc n) src m fits =
      Finds-on_peek src (suc n * word_size) m errno (p.peek src m) [] _ (λ word is.
        let e : word_size + n * word_size ≡ suc n * word_size = omega arith in
        subst
          (λ k. Finds src k m (
            (read_words p errno n (next_word src) m).0,
            word ++ (read_words p errno n (next_word src) m).1,
          ))
          e
          (Finds-then src (next_word src) word_size (n * word_size) m word
            (read_words p errno n (next_word src) m) (omega arith) (p.peek_bytes src m is)
            (read_words-Finds errno n (next_word src) m (omega arith))))

  read_tail-Finds :
      (errno n src : ℕ) (m : Memory) → n ≤ word_size → Finds src n m (read_tail p errno n src m)
  unfolding read_tail bytes
  read_tail-Finds errno zero src m h = refl
  read_tail-Finds errno (suc n) src m h =
      Finds-on_peek src (suc n) m errno (p.peek src m) [] _
        (λ word is. rw (p.peek_bytes src m is) (take-bytes (p.byte m) src (suc n) word_size h))

  -- The words, and the tail behind them.
  Finds-words :
      (a b n k : ℕ) (m : Memory) (words tail : Result (Unit {0}) × List ℕ)
      → a + n ≡ b
      → Finds a n m words
      → Finds b k m tail
      → Finds a (n + k) m (followed_by words tail)
  Finds-words a b n k m (err e, out) tail h first then_ = tt
  Finds-words a b n k m (ok _, out) tail h first then_ = Finds-then a b n k m out tail h first then_

  ptrace_read-Finds :
      (errno src size : ℕ) (m : Memory)
      → src + size < 2 ^ 64
      → Finds src size m (ptrace_read p errno src size m)
  unfolding ptrace_read
  ptrace_read-Finds errno src size m fits =
      let n = (size - size % word_size) / word_size in
      let e : n * word_size + size % word_size ≡ size = omega arith in
      subst (λ k. Finds src k m (ptrace_read p errno src size m)) e
        (Finds-words src ((src + n * word_size) % 2 ^ 64) (n * word_size) (size % word_size) m
          (read_words p errno n src m) _ (omega arith)
          (read_words-Finds errno n src m (omega arith))
          (read_tail-Finds errno (size % word_size) _ m (omega arith)))

  Finds-transfer :
      (errno src size : ℕ) (m : Memory) (t : Transfer (List ℕ))
      → src + size < 2 ^ 64
      → ((w : List ℕ) → t ≡ whole w → w ≡ bytes (p.byte m) src size)
      → Finds src size m (elim t [
        | whole dest ↦ (ok tt, dest)
        | partial ↦ ptrace_read p errno src size m
        | failed e ↦ ptrace_read p e src size m
      ])
  Finds-transfer errno src size m (whole w) fits all = all w refl
  Finds-transfer errno src size m partial fits all = ptrace_read-Finds errno src size m fits
  Finds-transfer errno src size m (failed e) fits all = ptrace_read-Finds e src size m fits

  -- When `read_data` answers 0 for bytes that do not pass the end of the address space, by
  -- whichever of the two ways, the buffer holds the bytes of the tracee's memory, all of them and
  -- no others.
  pub read_data-bytes :
      (errno src size : ℕ) (m : Memory) (dest : List ℕ)
      → src + size < 2 ^ 64
      → read_data p errno src size m ≡ (ok tt, dest)
      → dest ≡ bytes (p.byte m) src size
  unfolding read_data
  read_data-bytes errno src size m dest fits is =
      subst (Finds src size m) is (
        Finds-transfer errno src size m (p.vm_readv src size m) fits
          (λ w. p.readv_bytes src size m))

  -- What `write_data` has written `read_data` reads back at the same address, whatever the errno
  -- and the ways of the two transfers, when both answer 0.
  pub read_data-write_data :
      (errno errno' dest : ℕ) (src : List ℕ) (m m' : Memory) (found : List ℕ)
      → dest + length src < 2 ^ 64
      → write_data p errno dest src m ≡ (ok tt, m')
      → read_data p errno' dest (length src) m' ≡ (ok tt, found)
      → found ≡ src
  read_data-write_data errno errno' dest src m m' found fits written read =
      read_data-bytes errno' dest (length src) m' found fits read
      ∙ bytes-splice (p.byte m') (p.byte m) dest src
          (λ j. write_data-bytes p errno dest src m m' j fits written)
