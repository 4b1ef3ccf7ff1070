-- ===== src/Tracee/Tests/Memory.antt =====
-- The theorems on memory at a concrete one: every byte holds 7 but for a string at 100.
use abyss.Base.{
  ℕ, suc, ◌-◌, ◌<◌, ◌≡◌, refl, some, none, List, [], ◌∷◌, if◌then◌else◌, leb, ◌==◌, arith, take, ok,
  err, efault,
}
use abyss.Path.Str.{path_max}
use abyss.Tracee.Process.{bytes, splice, whole, failed}
use abyss.Tracee.Flat.{flat, by_words, not_whole}
use abyss.Tracee.Mem.{
  write_data, read_data, ptrace_write, write_words, write_tail, ptrace_read, read_words, read_tail,
}
use abyss.Tracee.Mem.Writes.{write_data-bytes}
use abyss.Tracee.Mem.Reads.{read_data-write_data}
use abyss.Tracee.Mem.Fallback.{read_data-stale}
use abyss.Tracee.Strings.{
  strnlen, chunk_size_of, up_to_next_chunk, read_chunks, read_string, read_path,
}
use abyss.Tracee.Strings.Paths.{read_path-ends}
use abyss.Tracee.Strings.Completes.{read_string-completes}

abbrev memory : ℕ → ℕ
memory j = if leb 100 j then (if j == 103 then 0 else j - 3) else 7

abbrev ten_bytes : List ℕ
ten_bytes = 0 ∷ 1 ∷ 2 ∷ 3 ∷ 4 ∷ 5 ∷ 6 ∷ 7 ∷ 8 ∷ 9 ∷ []

abbrev a_word_over : ℕ → ℕ
a_word_over = (write_data (by_words none) 0 50 ten_bytes memory).1

words_written : write_data (by_words none) 0 50 ten_bytes memory ≡ (ok tt, a_word_over)
unfolding write_data ptrace_write write_words write_tail by_words not_whole
words_written = refl

words_read : read_data (by_words none) 0 50 10 a_word_over ≡ (ok tt, ten_bytes)
unfolding write_data ptrace_write write_words write_tail read_data ptrace_read read_words read_tail
    by_words not_whole bytes splice
words_read = refl

write_data-bytes_example :
    (by_words none).byte a_word_over 60 ≡ splice ((by_words none).byte memory) 50 ten_bytes 60
write_data-bytes_example =
    write_data-bytes (by_words none) 0 50 ten_bytes memory a_word_over 60 (omega arith)
      words_written

read_data-write_data_example : ten_bytes ≡ ten_bytes
read_data-write_data_example =
    read_data-write_data (by_words none) 0 0 50 ten_bytes memory a_word_over ten_bytes (omega arith)
      words_written words_read

refused : (by_words (some 1)).vm_readv 50 10 memory ≡ failed 1
unfolding by_words not_whole
refused = refl

read_data-stale_example : (read_data (by_words (some 1)) 0 50 10 memory).0 ≡ err efault
read_data-stale_example =
    read_data-stale (by_words (some 1)) 0 1 50 10 memory (omega arith) (λ e. omega arith) refused

abbrev name : List ℕ
name = 97 ∷ 98 ∷ 99 ∷ 0 ∷ []

abbrev buffer : List ℕ
buffer = (read_path flat 0 12 100 memory).1

path_read : read_path flat 0 12 100 memory ≡ (ok 4, buffer)
unfolding read_path read_string read_chunks chunk_size_of up_to_next_chunk strnlen flat bytes
path_read = refl

read_path-ends_example :
    (4 < path_max)
    × (4 ≡ suc (strnlen (bytes (flat.byte memory) 100 path_max)))
    × (take 4 buffer ≡ bytes (flat.byte memory) 100 4)
read_path-ends_example = read_path-ends flat 0 12 100 4 memory buffer (omega arith) path_read

all_moved : (a n : ℕ) → flat.vm_readv a n memory ≡ whole (bytes (flat.byte memory) a n)
unfolding flat
all_moved a n = refl

three : strnlen (bytes (flat.byte memory) 100 6) ≡ 3
unfolding flat strnlen bytes
three = refl

ends_in_six : strnlen (bytes (flat.byte memory) 100 6) < 6
ends_in_six = omega (arith, three)

read_string-completes_example :
    (read_string flat 9 12 100 6 memory).0 ≡ ok (suc (strnlen (bytes (flat.byte memory) 100 6)))
read_string-completes_example =
    read_string-completes flat 9 12 100 6 memory (omega arith) all_moved ends_in_six
