-- ===== src/Tracee/Mem/Fallback.antt =====
-- The errno that the fallback to ptrace(2) of `read_data` and `write_data` starts from.
use abyss.Base.{
  ℕ, zero, suc, ◌+◌, ◌-◌, ◌*◌, ◌/◌, ◌%◌, ◌<◌, ◌≡◌, ◌≢◌, refl, ap, inl, inr, Option, none, some,
  List, [], arith, Result, ok, err, efault, Option-cases,
}
use abyss.Tracee.Process.{word_size, partial, failed, Process}
use abyss.Tracee.Mem.{
  next_word, on_peek, followed_by, read_words, read_tail, ptrace_read, read_data,
}

module _ {Memory : Type 0} (p : Process Memory) where
  -- An errno from before makes a word that was read look like an error.
  on_peek-stale :
      {A : Type 0} (errno : ℕ) (o : Option (List ℕ)) (out : A) (next : List ℕ → A)
      → errno ≢ 0
      → on_peek errno o out next ≡ out
  on_peek-stale errno none out next h = refl
  on_peek-stale errno (some word) out next h = ground arith

  read_words-stale :
      (errno n src : ℕ) (m : Memory)
      → errno ≢ 0
      → read_words p errno (suc n) src m ≡ (err efault, [])
  unfolding read_words
  read_words-stale errno n src m stale = on_peek-stale errno (p.peek src m) _ _ stale

  read_tail-stale :
      (errno n src : ℕ) (m : Memory)
      → errno ≢ 0
      → read_tail p errno (suc n) src m ≡ (err efault, [])
  unfolding read_tail
  read_tail-stale errno n src m stale = on_peek-stale errno (p.peek src m) _ _ stale

  stale-then :
      (errno k t src behind : ℕ) (m : Memory)
      → errno ≢ 0
      → 0 < k * word_size + t
      → (followed_by (read_words p errno k src m) (read_tail p errno t behind m)).0 ≡ err efault
  unfolding read_words
  stale-then errno zero zero src behind m stale h = absurd (omega arith)
  stale-then errno zero (suc t) src behind m stale h =
      ap (λ r. r.0) (read_tail-stale errno t behind m stale)
  stale-then errno (suc k) t src behind m stale h =
      ap (λ r. (followed_by r (read_tail p errno t behind m)).0)
        (read_words-stale errno k src m stale)

  ptrace_read-stale :
      (errno src size : ℕ) (m : Memory)
      → errno ≢ 0
      → 0 < size
      → (ptrace_read p errno src size m).0 ≡ err efault
  unfolding ptrace_read
  ptrace_read-stale errno src size m stale h =
      stale-then errno ((size - size % word_size) / word_size) (size % word_size) src _ m stale
        (omega arith)

  -- Once process_vm_readv has failed with an errno, `read_data` of at least one byte answers
  -- -EFAULT, even where every PTRACE_PEEKDATA succeeds: the loop tests the errno that was left.
  pub read_data-stale :
      (errno e src size : ℕ) (m : Memory)
      → 0 < size
      → e ≢ 0
      → p.vm_readv src size m ≡ failed e
      → (read_data p errno src size m).0 ≡ err efault
  unfolding read_data
  read_data-stale errno e src size m h stale is =
      rw (is, read_data) (ptrace_read-stale e src size m stale h)

  read_words-ok :
      (n src : ℕ) (m : Memory) → ((a : ℕ) → p.peek a m ≢ none) → (read_words p 0 n src m).0 ≡ ok tt
  unfolding read_words
  read_words-ok zero src m h = refl
  read_words-ok (suc n) src m h = elim (Option-cases (p.peek src m)) [
    | inl is ↦ absurd (h src is)
    | inr (word, is) ↦ rw is (read_words-ok n (next_word src) m h)
  ]

  read_tail-ok : (n src : ℕ) (m : Memory) → p.peek src m ≢ none → (read_tail p 0 n src m).0 ≡ ok tt
  unfolding read_tail
  read_tail-ok zero src m h = refl
  read_tail-ok (suc n) src m h = elim (Option-cases (p.peek src m)) [
    | inl is ↦ absurd (h is)
    | inr (word, is) ↦ rw is refl
  ]

  followed_by-ok :
      (r tail : Result (Unit {0}) × List ℕ)
      → r.0 ≡ ok tt
      → tail.0 ≡ ok tt
      → (followed_by r tail).0 ≡ ok tt
  followed_by-ok (err e, out) tail h g = h
  followed_by-ok (ok _, out) tail h g = g

  -- When process_vm_readv moves only some of the bytes, which leaves errno at the 0 that it had,
  -- and every PTRACE_PEEKDATA succeeds, `read_data` answers 0.
  pub read_data-completes :
      (src size : ℕ) (m : Memory)
      → p.vm_readv src size m ≡ partial
      → ((a : ℕ) → p.peek a m ≢ none)
      → (read_data p 0 src size m).0 ≡ ok tt
  unfolding read_data ptrace_read
  read_data-completes src size m is h =
      rw (is, read_data)
        (followed_by-ok _ _ (read_words-ok ((size - size % word_size) / word_size) src m h)
          (read_tail-ok (size % word_size) _ m (h _)))
