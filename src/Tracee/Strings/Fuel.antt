-- ===== src/Tracee/Strings/Fuel.antt =====
-- The loop of `read_string` over the chunks ends.
use native.Mathlib.Nat.{mod-lt, mod-le, pow-suc}
use abyss.Base.{
  ℕ, zero, suc, ◌+◌, ◌-◌, ◌%◌, ◌^◌, ◌<◌, ◌≤◌, ◌≡◌, refl, inl, inr, List, arith, ltb, if◌then◌else◌,
  Bool-cases,
}
use abyss.Tracee.Process.{Transfer, whole, partial, failed, Process}
use abyss.Tracee.Strings.{chunk_size_of, up_to_next_chunk, Chunks, on_chunk, read_chunks}

pow_pos : (n : ℕ) → 0 < 2 ^ n
pow_pos zero = omega arith
pow_pos (suc n) = omega (arith, pow_pos n, pow-suc 2 n)

pub chunk_size_of_bounds :
    (page_bits : ℕ) → (0 < chunk_size_of page_bits) × (chunk_size_of page_bits ≤ 1024)
unfolding chunk_size_of
chunk_size_of_bounds page_bits = (ground (arith, pow_pos page_bits), ground arith)

wrap :
    (c r size a : ℕ)
    → c + r ≡ a
    → r < size
    → size ≤ 1024
    → a < 2 ^ 64
    → 0 < ((c + size) % 2 ^ 64 + 2 ^ 64 - a) % 2 ^ 64
wrap c r size a sum less small fits = omega arith

-- A chunk never ends where it starts.
pub up_to_next_chunk_pos :
    (chunk_size address : ℕ)
    → 0 < chunk_size
    → chunk_size ≤ 1024
    → address < 2 ^ 64
    → 0 < up_to_next_chunk chunk_size address
unfolding up_to_next_chunk
up_to_next_chunk_pos chunk_size address h small fits =
    let r = address % chunk_size in
    let less : r < chunk_size = mod-lt address h in
    let low : r ≤ address = mod-le address chunk_size in
    wrap (address - r) r chunk_size address (omega arith) less small fits

on_chunk-same :
    (errno offset size max_size : ℕ) (t : Transfer (List ℕ)) (rest rest' : Chunks)
    → (offset + size < max_size → rest ≡ rest')
    → on_chunk errno offset size max_size t rest ≡ on_chunk errno offset size max_size t rest'
on_chunk-same errno offset size max_size partial rest rest' h = refl
on_chunk-same errno offset size max_size (failed e) rest rest' h = refl
on_chunk-same errno offset size max_size (whole w) rest rest' h =
    elim (Bool-cases (ltb (offset + size) max_size)) [
      | inl e ↦ rw (h (ground arith)) refl
      | inr e ↦ rw e refl
    ]

pub size_pos : (next left : ℕ) → 0 < next → 0 < left → 0 < (if ltb next left then next else left)
size_pos next left h g = ground arith

module _ {Memory : Type 0} (p : Process Memory) where
  enough :
      (n n' errno page_bits src offset max_size : ℕ) (m : Memory)
      → offset ≤ max_size
      → max_size - offset < n
      → max_size - offset < n'
      → read_chunks p n errno (chunk_size_of page_bits) src offset max_size m
        ≡ read_chunks p n' errno (chunk_size_of page_bits) src offset max_size m
  unfolding read_chunks
  enough zero n' errno page_bits src offset max_size m h g g' = absurd (omega arith)
  enough (suc n) zero errno page_bits src offset max_size m h g g' = absurd (omega arith)
  enough (suc n) (suc n') errno page_bits src offset max_size m h g g' =
      let address = (src + offset) % 2 ^ 64 in
      let next = up_to_next_chunk (chunk_size_of page_bits) address in
      let size = if ltb next (max_size - offset) then next else max_size - offset in
      on_chunk-same errno offset size max_size (p.vm_readv address size m) _ _ (λ more.
        let pos : 0 < size =
          size_pos next (max_size - offset)
            (up_to_next_chunk_pos (chunk_size_of page_bits) address
              (chunk_size_of_bounds page_bits).0 (chunk_size_of_bounds page_bits).1 (omega arith))
            (omega arith) in
        enough n n' errno page_bits src (offset + size) max_size m (omega arith) (omega arith)
          (omega arith))

  -- The loop over the chunks ends: `max_size + 1` iterations are enough for every size, place,
  -- page size and memory, as more of them never change what the loop gives.
  pub read_chunks-enough :
      (n errno page_bits src max_size : ℕ) (m : Memory)
      → max_size < n
      → read_chunks p n errno (chunk_size_of page_bits) src 0 max_size m
        ≡ read_chunks p (suc max_size) errno (chunk_size_of page_bits) src 0 max_size m
  read_chunks-enough n errno page_bits src max_size m h =
      enough n (suc max_size) errno page_bits src 0 max_size m (omega arith) (omega arith)
        (omega arith)
