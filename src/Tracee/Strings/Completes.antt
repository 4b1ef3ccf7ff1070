-- ===== src/Tracee/Strings/Completes.antt =====
-- Strings that `read_string` reads without a fallback.
use mathlib.Core.Path.{subst}
use native.Mathlib.Nat.{add-zero, sub-zero}
use abyss.Base.{
  ℕ, zero, suc, ◌+◌, ◌-◌, ◌/◌, ◌%◌, ◌^◌, ◌<◌, ◌≤◌, ◌≡◌, sym, ap, ◌∙◌, true, inl, inr, List, arith,
  ltb, if◌then◌else◌, Bool-cases, length, Result, ok,
}
use abyss.Tracee.Process.{word_size, bytes, whole, Process}
use abyss.Tracee.Mem.Bytes.{bytes-append, length-bytes}
use abyss.Tracee.Strings.{
  strnlen, chunk_size_of, up_to_next_chunk, Chunks, returned, fallback, behind, on_chunk,
  read_chunks, ptrace_string, read_string,
}
use abyss.Tracee.Strings.Prefix.{Reads, strnlen-append, chunk_in_range}
use abyss.Tracee.Strings.Paths.{read_string-Reads}
use abyss.Tracee.Strings.Fuel.{size_pos, up_to_next_chunk_pos, chunk_size_of_bounds}

IsReturned : Chunks → Type 0
IsReturned (returned size out) = Unit
IsReturned (fallback errno) = ⊥

IsReturned-behind : (w : List ℕ) (c : Chunks) → IsReturned c → IsReturned (behind w c)
unfolding IsReturned
IsReturned-behind w (returned size out) h = tt
IsReturned-behind w (fallback errno) h = h

-- The string ends in the chunk, or there are bytes left and it ends in these.
on_chunk-IsReturned :
    (f : ℕ → ℕ) (errno offset a size q max_size : ℕ) (rest : Chunks)
    → offset + size + q ≡ max_size
    → strnlen (bytes f a (size + q)) < size + q
    → (0 < q → strnlen (bytes f (a + size) q) < q → IsReturned rest)
    → IsReturned (on_chunk errno offset size max_size (whole (bytes f a size)) rest)
unfolding IsReturned
on_chunk-IsReturned f errno offset a size q max_size rest sum short h =
    let w = bytes f a size in
    let n = strnlen (bytes f (a + size) q) in
    let e : strnlen (bytes f a (size + q))
        ≡ (if ltb (strnlen w) (length w) then strnlen w else length w + n) =
      ap strnlen (bytes-append f a size q) ∙ strnlen-append w (bytes f (a + size) q) in
    let len = length-bytes f a size in
    elim (Bool-cases (ltb (strnlen w) size)) [
      | inl d ↦ rw d tt
      | inr d ↦
          let less : n < q = ground arith in
          let more : ltb (offset + size) max_size ≡ true = ground arith in
          rw (d, more) (IsReturned-behind w rest (h (omega arith) less))
    ]

module _ {Memory : Type 0} (p : Process Memory) where
  read_chunks-IsReturned :
      (n errno page_bits src offset max_size : ℕ) (m : Memory)
      → offset < max_size
      → src + max_size < 2 ^ 64
      → max_size - offset < n
      → ((a n : ℕ) → p.vm_readv a n m ≡ whole (bytes (p.byte m) a n))
      → strnlen (bytes (p.byte m) (src + offset) (max_size - offset)) < max_size - offset
      → IsReturned (read_chunks p n errno (chunk_size_of page_bits) src offset max_size m)
  unfolding read_chunks
  read_chunks-IsReturned zero errno page_bits src offset max_size m h fits enough all short =
      absurd (omega arith)
  read_chunks-IsReturned (suc n) errno page_bits src offset max_size m h fits enough all short =
      let address = (src + offset) % 2 ^ 64 in
      let next = up_to_next_chunk (chunk_size_of page_bits) address in
      let size = if ltb next (max_size - offset) then next else max_size - offset in
      let pos : 0 < size =
        size_pos next (max_size - offset)
          (up_to_next_chunk_pos (chunk_size_of page_bits) address (chunk_size_of_bounds page_bits).0
            (chunk_size_of_bounds page_bits).1 (omega arith))
          (omega arith) in
      let small : size ≤ max_size - offset = chunk_in_range next (max_size - offset) in
      let q = max_size - (offset + size) in
      let sum : size + q ≡ max_size - offset = omega arith in
      let same : address ≡ src + offset = omega arith in
      let rest = read_chunks p n errno (chunk_size_of page_bits) src (offset + size) max_size m in
      let is : p.vm_readv address size m ≡ whole (bytes (p.byte m) (src + offset) size) =
        all address size ∙ ap (λ a. whole (bytes (p.byte m) a size)) same in
      subst (λ t. IsReturned (on_chunk errno offset size max_size t rest)) (sym is)
        (on_chunk-IsReturned (p.byte m) errno offset (src + offset) size q max_size rest
          (omega arith)
          (subst (λ k. strnlen (bytes (p.byte m) (src + offset) k) < k) (sym sum) short)
          (λ left less.
            read_chunks-IsReturned n errno page_bits src (offset + size) max_size m (omega arith)
              fits (omega arith) all
              (subst (λ a. strnlen (bytes (p.byte m) a q) < q) {x = src + offset + size}
                (omega arith) less)))

  ReadsReturned :
      (src max_size n nb : ℕ) (m : Memory) (c : Chunks)
      → IsReturned c
      → Reads (p.byte m) 0 src max_size (elim c [
        | returned size out ↦ (ok size, out)
        | fallback e ↦ ptrace_string p e n nb 0 src m
      ])
      → (elim c as (λ _. Result ℕ × List ℕ) [
        | returned size out ↦ (ok size, out)
        | fallback e ↦ ptrace_string p e n nb 0 src m
      ]).0
        ≡ ok (suc (strnlen (bytes (p.byte m) src max_size)))
  unfolding IsReturned
  ReadsReturned src max_size n nb m (returned size out) h reads = ap ok (omega (arith, reads.0))
  ReadsReturned src max_size n nb m (fallback errno) h reads = absurd h

  -- Where process_vm_readv moves every byte that it is asked for and the string ends before
  -- `max_size` bytes, which do not pass the end of the address space, `read_string` answers the size
  -- of the string with its '\0', for every page size and whatever the errno.
  pub read_string-completes :
      (errno page_bits src max_size : ℕ) (m : Memory)
      → src + max_size < 2 ^ 64
      → ((a n : ℕ) → p.vm_readv a n m ≡ whole (bytes (p.byte m) a n))
      → strnlen (bytes (p.byte m) src max_size) < max_size
      → (read_string p errno page_bits src max_size m).0
        ≡ ok (suc (strnlen (bytes (p.byte m) src max_size)))
  unfolding read_string
  read_string-completes errno page_bits src max_size m fits all short =
      let nb = max_size % word_size in
      let f = p.byte m in
      let here : strnlen (bytes f (src + 0) (max_size - 0)) < max_size - 0 =
        rw (add-zero, sub-zero) short in
      ReadsReturned src max_size ((max_size - nb) / word_size) nb m
        (read_chunks p (suc max_size) errno (chunk_size_of page_bits) src 0 max_size m)
        (read_chunks-IsReturned (suc max_size) errno page_bits src 0 max_size m (omega arith) fits
          (omega arith) all here)
        (read_string-Reads p errno page_bits src max_size m fits)
