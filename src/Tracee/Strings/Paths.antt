-- ===== src/Tracee/Strings/Paths.antt =====
-- What `read_string` and `read_path` find.
use mathlib.Core.Path.{subst}
use native.Mathlib.Nat.{add-zero, sub-zero}
use abyss.Base.{
  ℕ, zero, suc, ◌+◌, ◌-◌, ◌*◌, ◌/◌, ◌%◌, ◌^◌, ◌<◌, ◌≤◌, ◌≡◌, refl, sym, ap, ◌∙◌, inl, inr, Option,
  none, some, List, [], ◌++◌, arith, ltb, leb, ◌==◌, if◌then◌else◌, take, Result, ok, err, efault,
  enametoolong, Bool-cases,
}
use abyss.Path.Str.{path_max}
use abyss.Tracee.Process.{word_size, bytes, Transfer, whole, partial, failed, Process}
use abyss.Tracee.Mem.{next_word, on_peek}
use abyss.Tracee.Mem.Bytes.{take-bytes}
use abyss.Tracee.Strings.{
  strnlen, chunk_size_of, up_to_next_chunk, Chunks, returned, fallback, on_chunk, behind,
  read_chunks, ptrace_string, read_string, read_path,
}
use abyss.Tracee.Strings.Prefix.{take-take, chunk_in_range, Reads, Reads-found, Reads-then}

module _ {Memory : Type 0} (p : Process Memory) where
  Reads-on_peek :
      (k a n : ℕ) (m : Memory) (errno : ℕ) (o : Option (List ℕ)) (next : List ℕ → Result ℕ × List ℕ)
      → ((word : List ℕ) → o ≡ some word → Reads (p.byte m) k a n (next word))
      → Reads (p.byte m) k a n (on_peek errno o (err efault, []) next)
  Reads-on_peek k a n m errno none next h = tt
  Reads-on_peek k a n m errno (some word) next h = elim (Bool-cases (errno == 0)) [
    | inl e ↦ rw e (h word refl)
    | inr e ↦ rw e tt
  ]

  -- The test on a word in the loop over the full words.
  Reads-word :
      (i a q t : ℕ) (m : Memory) (word : List ℕ) (rest : Result ℕ × List ℕ)
      → word_size + q ≡ t
      → word ≡ bytes (p.byte m) a word_size
      → a + word_size < 2 ^ 64
      → Reads (p.byte m) (suc i * word_size) (next_word a) q rest
      → Reads (p.byte m) (i * word_size) a t (
          if ltb (strnlen word) word_size
          then (ok (i * word_size + strnlen word + 1), word)
          else (rest.0, word ++ rest.1))
  Reads-word i a q t m word rest sum is fits next =
      elim (Bool-cases (ltb (strnlen word) word_size)) [
        | inl e ↦
            rw e (Reads-found (p.byte m) (i * word_size) a word_size q t word sum is (ground arith))
        | inr e ↦ rw e (
            Reads-then (p.byte m) (i * word_size) a (next_word a) (suc i * word_size) word_size q t
              word rest (omega arith) (omega arith) sum is (ground arith) next)
      ]

  ptrace_string-Reads :
      (errno n nb i src : ℕ) (m : Memory)
      → nb < word_size
      → src + n * word_size + nb < 2 ^ 64
      → Reads
          (p.byte m)
          (i * word_size)
          src
          (n * word_size + nb)
          (ptrace_string p errno n nb i src m)
  unfolding ptrace_string
  ptrace_string-Reads errno zero nb i src m h fits =
      let none_left : nb ≡ zero * word_size + nb = omega arith in
      subst (λ q. Reads (p.byte m) (i * word_size) src q (ptrace_string p errno zero nb i src m))
        none_left
        (Reads-on_peek (i * word_size) src nb m errno (p.peek src m) _ (λ word is.
          let e : take nb word ≡ bytes (p.byte m) src nb =
            ap (take nb) (p.peek_bytes src m is)
            ∙ take-bytes (p.byte m) src nb word_size (omega arith) in
          rw e (
            omega arith,
            take-take (suc (strnlen (bytes (p.byte m) src nb))) (bytes (p.byte m) src nb),
          )))
  ptrace_string-Reads errno (suc n) nb i src m h fits =
      Reads-on_peek (i * word_size) src (suc n * word_size + nb) m errno (p.peek src m) _
        (λ word is.
          Reads-word i src (n * word_size + nb) (suc n * word_size + nb) m word
            (ptrace_string p errno n nb (suc i) (next_word src) m) (omega arith)
            (p.peek_bytes src m is) (omega arith)
            (ptrace_string-Reads errno n nb (suc i) (next_word src) m h (omega arith)))

  -- How the loop over the chunks ends, at `offset`.
  abbrev ReadsChunks : ℕ → ℕ → ℕ → Memory → Chunks → Type 0
  ReadsChunks offset a n m (returned size out) = Reads (p.byte m) offset a n (ok size, out)
  ReadsChunks offset a n m (fallback errno) = Unit

  Reads-behind :
      (k a b k' n q t : ℕ) (m : Memory) (w : List ℕ) (rest : Chunks)
      → a + n ≡ b
      → k + n ≡ k'
      → n + q ≡ t
      → w ≡ bytes (p.byte m) a n
      → n ≤ strnlen w
      → ReadsChunks k' b q m rest
      → ReadsChunks k a t m (behind w rest)
  Reads-behind k a b k' n q t m w (returned size out) at_ offset sum is h next =
      Reads-then (p.byte m) k a b k' n q t w (ok size, out) at_ offset sum is h next
  Reads-behind k a b k' n q t m w (fallback errno) at_ offset sum is h next = tt

  on_chunk-Reads :
      (errno offset a b size q total max_size : ℕ) (m : Memory) (t : Transfer (List ℕ))
      (rest : Chunks)
      → a + size ≡ b
      → size + q ≡ total
      → ((w : List ℕ) → t ≡ whole w → w ≡ bytes (p.byte m) a size)
      → ReadsChunks (offset + size) b q m rest
      → ReadsChunks offset a total m (on_chunk errno offset size max_size t rest)
  on_chunk-Reads errno offset a b size q total max_size m partial rest at_ sum all next = tt
  on_chunk-Reads errno offset a b size q total max_size m (failed e) rest at_ sum all next = tt
  on_chunk-Reads errno offset a b size q total max_size m (whole w) rest at_ sum all next =
      elim (Bool-cases (ltb (strnlen w) size)) [
        | inl e ↦
            rw e (Reads-found (p.byte m) offset a size q total w sum (all w refl) (ground arith))
        | inr e ↦ rw e (elim (Bool-cases (ltb (offset + size) max_size)) [
          | inl f ↦ rw f (
              Reads-behind offset a b (offset + size) size q total m w rest at_ refl sum
                (all w refl) (ground arith) next)
          | inr f ↦ rw f tt
        ])
      ]

  read_chunks-Reads :
      (n errno chunk_size src offset max_size : ℕ) (m : Memory)
      → offset ≤ max_size
      → src + max_size < 2 ^ 64
      → ReadsChunks offset
          (src + offset)
          (max_size - offset)
          m
          (read_chunks p n errno chunk_size src offset max_size m)
  unfolding read_chunks
  read_chunks-Reads zero errno chunk_size src offset max_size m h fits = tt
  read_chunks-Reads (suc n) errno chunk_size src offset max_size m h fits =
      let address = (src + offset) % 2 ^ 64 in
      let next = up_to_next_chunk chunk_size address in
      let size = if ltb next (max_size - offset) then next else max_size - offset in
      let small : size ≤ max_size - offset = chunk_in_range next (max_size - offset) in
      let same : address ≡ src + offset = omega arith in
      on_chunk-Reads errno offset (src + offset) (src + (offset + size)) size
        (max_size - (offset + size)) (max_size - offset) max_size m (p.vm_readv address size m)
        (read_chunks p n errno chunk_size src (offset + size) max_size m) (omega arith)
        (omega arith)
        (λ w is. p.readv_bytes address size m is ∙ ap (λ a. bytes (p.byte m) a size) same)
        (read_chunks-Reads n errno chunk_size src (offset + size) max_size m (omega arith) fits)

  -- The way over the chunks, or else the one over ptrace(2).
  Reads-string :
      (src max_size n nb : ℕ) (m : Memory) (c : Chunks)
      → nb < word_size
      → n * word_size + nb ≡ max_size
      → src + max_size < 2 ^ 64
      → ReadsChunks 0 src max_size m c
      → Reads (p.byte m) 0 src max_size (elim c [
        | returned size out ↦ (ok size, out)
        | fallback e ↦ ptrace_string p e n nb 0 src m
      ])
  Reads-string src max_size n nb m (returned size out) small sum fits h = h
  Reads-string src max_size n nb m (fallback e) small sum fits h =
      subst (λ q. Reads (p.byte m) 0 src q (ptrace_string p e n nb 0 src m)) sum
        (ptrace_string-Reads e n nb 0 src m small (omega arith))

  ReadsChunks-start :
      (src max_size : ℕ) (m : Memory) (c : Chunks)
      → ReadsChunks 0 (src + 0) (max_size - 0) m c
      → ReadsChunks 0 src max_size m c
  ReadsChunks-start src max_size m c h =
      subst (λ a. ReadsChunks 0 a max_size m c) (add-zero src)
        (subst (λ n. ReadsChunks 0 (src + 0) n m c) (sub-zero max_size) h)

  pub read_string-Reads :
      (errno page_bits src max_size : ℕ) (m : Memory)
      → src + max_size < 2 ^ 64
      → Reads (p.byte m) 0 src max_size (read_string p errno page_bits src max_size m)
  unfolding read_string
  read_string-Reads errno page_bits src max_size m fits =
      let nb = max_size % word_size in
      Reads-string src max_size ((max_size - nb) / word_size) nb m
        (read_chunks p (suc max_size) errno (chunk_size_of page_bits) src 0 max_size m)
        (omega arith) (omega arith) fits
        (ReadsChunks-start src max_size m _ (
          read_chunks-Reads (suc max_size) errno (chunk_size_of page_bits) src 0 max_size m
            (omega arith) fits))

  -- When `read_string` does not fail, and the bytes do not pass the end of the address space, its
  -- answer is one more than the number of bytes in front of the first '\0' among the `max_size`
  -- first ones, thus `max_size + 1` where there is none, and up to there the buffer holds the
  -- tracee's bytes, whether they were read by chunks, by words, or first so and then so.
  pub read_string-ends :
      (errno page_bits src max_size size : ℕ) (m : Memory) (out : List ℕ)
      → src + max_size < 2 ^ 64
      → read_string p errno page_bits src max_size m ≡ (ok size, out)
      → (size ≡ suc (strnlen (bytes (p.byte m) src max_size)))
        × (take size out ≡ take size (bytes (p.byte m) src max_size))
  read_string-ends errno page_bits src max_size size m out fits is =
      let h =
        subst (Reads (p.byte m) 0 src max_size) is
          (read_string-Reads errno page_bits src max_size m fits) in
      let e : suc (strnlen (bytes (p.byte m) src max_size)) ≡ size = omega (arith, h.0) in
      (sym e, subst (λ s. take s out ≡ take s (bytes (p.byte m) src max_size)) e h.1)

  -- The answers of `read_path`.
  Ends : ℕ → Memory → Result ℕ × List ℕ → Type 0
  Ends src m (err e, out) = Unit
  Ends src m (ok size, out) =
      (size < path_max)
      × (size ≡ suc (strnlen (bytes (p.byte m) src path_max)))
      × (take size out ≡ bytes (p.byte m) src size)

  read_path-Ends :
      (src : ℕ) (m : Memory) (r : Result ℕ × List ℕ)
      → Reads (p.byte m) 0 src path_max r
      → Ends src m (elim r.0 [
        | err e ↦ (err e, r.1)
        | ok size ↦ if leb path_max size then (err enametoolong, r.1) else (ok size, r.1)
      ])
  unfolding Ends
  read_path-Ends src m (err e, out) h = tt
  read_path-Ends src m (ok size, out) h = elim (Bool-cases (leb path_max size)) [
    | inl e ↦ rw e tt
    | inr e ↦
        let s : suc (strnlen (bytes (p.byte m) src path_max)) ≡ size = omega (arith, h.0) in
        let short : size < path_max = ground arith in
        rw e (
          short,
          sym s,
          subst (λ s. take s out ≡ take s (bytes (p.byte m) src path_max)) s h.1
              ∙ take-bytes (p.byte m) src size path_max (omega arith),
        )
  ]

  -- When `read_path` answers a size, it is less than PATH_MAX, the string in the tracee's memory
  -- ends at its last byte and not before, and the buffer starts with the whole string and its
  -- '\0'.
  pub read_path-ends :
      (errno page_bits src size : ℕ) (m : Memory) (out : List ℕ)
      → src + path_max < 2 ^ 64
      → read_path p errno page_bits src m ≡ (ok size, out)
      → (size < path_max)
        × (size ≡ suc (strnlen (bytes (p.byte m) src path_max)))
        × (take size out ≡ bytes (p.byte m) src size)
  unfolding read_path Ends
  read_path-ends errno page_bits src size m out fits is = subst (Ends src m) is (
      read_path-Ends src m (read_string p errno page_bits src path_max m)
        (read_string-Reads errno page_bits src path_max m fits))
