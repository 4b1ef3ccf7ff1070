-- ===== src/Tracee/Strings.antt =====
-- Reading strings from the memory of a tracee: `read_string` of tracee/mem.c, with HAVE_PROCESS_VM,
-- and `read_path` of tracee/mem.h. Strings are read for sizes below 2 ^ 31.
pub mod Completes
pub mod Fuel
pub mod Prefix
pub mod Paths
use abyss.Base.{
  ℕ, zero, suc, ◌+◌, ◌-◌, ◌*◌, ◌/◌, ◌%◌, ◌^◌, Bool, not, Option, none, some, List, [], ◌∷◌, ◌++◌,
  ltb, leb, ◌==◌, if◌then◌else◌, length, take, drop, Result, ok, err, efault, enametoolong,
}
use abyss.Path.Str.{path_max}
use abyss.Tracee.Process.{word_size, Transfer, whole, partial, failed, Process}
use abyss.Tracee.Mem.{next_word, on_peek}

-- How many bytes stand before the first '\0', all of them when there is none.
unfoldable pub strnlen : List ℕ → ℕ
strnlen [] = 0
strnlen (c ∷ w) = if c == 0 then 0 else suc (strnlen w)

-- The size of a chunk, for pages of `2 ^ page_bits` bytes.
unfoldable pub chunk_size_of : ℕ → ℕ
chunk_size_of page_bits = if ltb (2 ^ page_bits) 1024 then 2 ^ page_bits else 1024

-- The number of bytes up to the next chunk; `address & chunk_mask` is the start of a chunk, whose
-- size is a power of two.
unfoldable pub up_to_next_chunk : ℕ → ℕ → ℕ
up_to_next_chunk chunk_size address =
    let current_chunk = address - address % chunk_size in
    let next_chunk = (current_chunk + chunk_size) % 2 ^ 64 in
    (next_chunk + 2 ^ 64 - address) % 2 ^ 64

-- How the loop over the chunks ends: with the answer of `read_string` and the bytes in the buffer,
-- or at the label `fallback` with the errno at that point.
pub data Chunks : Type 0 where
  returned : ℕ → List ℕ → Chunks
  fallback : ℕ → Chunks

-- The bytes of a chunk stand in front of those of the chunks behind it.
abbrev pub behind : List ℕ → Chunks → Chunks
behind w (returned size out) = returned size (w ++ out)
behind w (fallback errno) = fallback errno

-- The body of the loop behind process_vm_readv, where `rest` are the iterations behind it.
abbrev pub on_chunk : ℕ → ℕ → ℕ → ℕ → Transfer (List ℕ) → Chunks → Chunks
on_chunk errno offset size max_size partial rest = fallback errno
on_chunk errno offset size max_size (failed e) rest = fallback e
on_chunk errno offset size max_size (whole w) rest =
    let status = strnlen w in
    if ltb status size
    then returned (offset + status + 1) w
    else (if ltb (offset + size) max_size then behind w rest else fallback errno)

module _ {Memory : Type 0} (p : Process Memory) where
  -- The loop over the chunks, on fuel.
  unfoldable pub read_chunks : ℕ → ℕ → ℕ → ℕ → ℕ → ℕ → Memory → Chunks
  unfolding up_to_next_chunk
  read_chunks zero errno chunk_size src offset max_size m = fallback errno
  read_chunks (suc n) errno chunk_size src offset max_size m =
      let address = (src + offset) % 2 ^ 64 in
      let next = up_to_next_chunk chunk_size address in
      let size = if ltb next (max_size - offset) then next else max_size - offset in
      on_chunk errno offset size max_size (p.vm_readv address size m)
        (read_chunks n errno chunk_size src (offset + size) max_size m)

  -- The fallback to ptrace(2), from the word `i` on, of which `n` are full words.
  unfoldable pub ptrace_string : ℕ → ℕ → ℕ → ℕ → ℕ → Memory → Result ℕ × List ℕ
  unfolding strnlen
  ptrace_string errno zero nb_trailing_bytes i src m =
      on_peek errno (p.peek src m) (err efault, [])
        (λ word.
          let j = strnlen (take nb_trailing_bytes word) in
          (ok (i * word_size + j + 1), take (suc j) (take nb_trailing_bytes word)))
  ptrace_string errno (suc n) nb_trailing_bytes i src m =
      let rest = ptrace_string errno n nb_trailing_bytes (suc i) (next_word src) m in
      on_peek errno (p.peek src m) (err efault, [])
        (λ word.
          let j = strnlen word in
          if ltb j word_size then (ok (i * word_size + j + 1), word) else (rest.0, word ++ rest.1))

  -- The answer, and the bytes that the way which gave it has stored in the buffer.
  unfoldable pub read_string : ℕ → ℕ → ℕ → ℕ → Memory → Result ℕ × List ℕ
  unfolding chunk_size_of read_chunks ptrace_string
  read_string errno page_bits src max_size m =
      let nb_trailing_bytes = max_size % word_size in
      let nb_full_words = (max_size - nb_trailing_bytes) / word_size in
      elim (read_chunks (suc max_size) errno (chunk_size_of page_bits) src 0 max_size m) [
        | returned size out ↦ (ok size, out)
        | fallback e ↦ ptrace_string e nb_full_words nb_trailing_bytes 0 src m
      ]

  unfoldable pub read_path : ℕ → ℕ → ℕ → Memory → Result ℕ × List ℕ
  unfolding read_string
  read_path errno page_bits src m =
      let (status, dest) = read_string errno page_bits src path_max m in
      elim status [
        | err e ↦ (err e, dest)
        | ok size ↦ if leb path_max size then (err enametoolong, dest) else (ok size, dest)
      ]
