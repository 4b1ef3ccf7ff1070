-- ===== src/Tracee/Mem/Writes.antt =====
-- What `write_data` leaves in the memory.
use mathlib.Core.Path.{subst}
use abyss.Base.{
  ℕ, zero, suc, ◌+◌, ◌-◌, ◌*◌, ◌/◌, ◌%◌, ◌^◌, ◌<◌, ◌≤◌, ◌≡◌, refl, sym, ap, ◌∙◌, false, inl, inr,
  Option, none, some, List, [], ◌∷◌, ◌++◌, arith, ◌==◌, length, take, drop, length-append,
  length-drop, length-take, Result, ok, err, efault, Bool-cases,
}
use abyss.Tracee.Process.{word_size, splice, within, Transfer, whole, partial, failed, Process}
use abyss.Tracee.Mem.{
  next_word, on_success, on_poke, on_peek, write_words, write_tail, ptrace_write, write_data,
}
use abyss.Tracee.Mem.Bytes.{
  splice-append, splice-pointwise, splice-kept, take-append-drop, take-more, length-bytes,
}

module _ {Memory : Type 0} (p : Process Memory) where
  -- Unless it fails, a step leaves `w` at `a`, over what stood there.
  abbrev pub Leaves : ℕ → List ℕ → Memory → Result (Unit {0}) × Memory → Type 0
  Leaves a w m (err e, m') = Unit
  Leaves a w m (ok _, m') = (j : ℕ) → p.byte m' j ≡ splice (p.byte m) a w j

  pub splice-nil : (f : ℕ → ℕ) (a j : ℕ) → splice f a [] j ≡ f j
  unfolding splice
  splice-nil f a j = ground arith

  -- Two steps, the second behind the first.
  Leaves-then :
      (a b : ℕ) (u v : List ℕ) (m m1 : Memory) (r : Result (Unit {0}) × Memory)
      → a + length u ≡ b
      → ((j : ℕ) → p.byte m1 j ≡ splice (p.byte m) a u j)
      → Leaves b v m1 r
      → Leaves a (u ++ v) m r
  Leaves-then a b u v m m1 (err e, m') h first then_ = tt
  Leaves-then a b u v m m1 (ok _, m') h first then_ = λ j.
      then_ j
      ∙ splice-pointwise (p.byte m1) (splice (p.byte m) a u) b v j (λ _. first j)
      ∙ splice-append (p.byte m) a b u v j h

  Leaves-on_poke :
      (a : ℕ) (w : List ℕ) (m : Memory) (o : Option Memory)
      (next : Memory → Result (Unit {0}) × Memory)
      → ((m1 : Memory) → o ≡ some m1 → Leaves a w m (next m1))
      → Leaves a w m (on_poke o m next)
  Leaves-on_poke a w m none next h = tt
  Leaves-on_poke a w m (some m1) next h = h m1 refl

  Leaves-on_peek :
      (a : ℕ) (w : List ℕ) (m : Memory) (errno : ℕ) (o : Option (List ℕ))
      (next : List ℕ → Result (Unit {0}) × Memory)
      → ((word : List ℕ) → o ≡ some word → Leaves a w m (next word))
      → Leaves a w m (on_peek errno o (err efault, m) next)
  Leaves-on_peek a w m errno none next h = tt
  Leaves-on_peek a w m errno (some word) next h = elim (Bool-cases (errno == 0)) [
    | inl e ↦ rw e (h word refl)
    | inr e ↦ rw e tt
  ]

  write_words-Leaves :
      (n dest : ℕ) (src : List ℕ) (m : Memory)
      → n * word_size ≤ length src
      → dest + length src < 2 ^ 64
      → Leaves dest (take (n * word_size) src) m (write_words p n dest src m)
  unfolding write_words
  write_words-Leaves zero dest src m h fits = λ j. sym (splice-nil (p.byte m) dest j)
  write_words-Leaves (suc n) dest src m h fits =
      let size : length (take word_size src) ≡ word_size =
        length-take word_size src ∙ ground arith in
      let left : length (drop word_size src) ≡ length src - word_size = length-drop word_size src in
      rw (take-more n src) (
        Leaves-on_poke dest _ m (p.poke dest (take word_size src) m)
          (write_words p n (next_word dest) (drop word_size src))
          (λ m1 good.
            Leaves-then dest (next_word dest) (take word_size src)
              (take (n * word_size) (drop word_size src)) m m1
              (write_words p n (next_word dest) (drop word_size src) m1) (omega arith)
              (p.poke_bytes dest (take word_size src) m size good)
              (write_words-Leaves n (next_word dest) (drop word_size src) m1 (omega arith)
                (omega arith))))

  write_tail-Leaves :
      (errno dest : ℕ) (src : List ℕ) (m : Memory)
      → length src ≤ word_size
      → Leaves dest src m (write_tail p errno dest src m)
  unfolding write_tail
  write_tail-Leaves errno dest [] m h = λ j. sym (splice-nil (p.byte m) dest j)
  write_tail-Leaves errno dest (c ∷ src) m h =
      Leaves-on_peek dest (c ∷ src) m errno (p.peek dest m) _ (λ word is.
        let whole_word = c ∷ (src ++ drop (length (c ∷ src)) word) in
        let len : length whole_word ≡ word_size = omega (
          arith,
          length-append src (drop (length (c ∷ src)) word),
          length-drop (length (c ∷ src)) word,
          ap length (p.peek_bytes dest m is),
          length-bytes (p.byte m) dest word_size,
          h,
        ) in
        Leaves-on_poke dest (c ∷ src) m (p.poke dest whole_word m) _ (λ m1 good j.
          p.poke_bytes dest whole_word m len good j
          ∙ rw (p.peek_bytes dest m is) (splice-kept (p.byte m) dest word_size (c ∷ src) j h)))

  pub Leaves-on_success :
      (a b : ℕ) (u v : List ℕ) (m : Memory) (r : Result (Unit {0}) × Memory)
      (next : Memory → Result (Unit {0}) × Memory)
      → a + length u ≡ b
      → Leaves a u m r
      → ((m1 : Memory) → Leaves b v m1 (next m1))
      → Leaves a (u ++ v) m (on_success r next)
  Leaves-on_success a b u v m (err e, m1) next h first then_ = tt
  Leaves-on_success a b u v m (ok _, m1) next h first then_ =
      Leaves-then a b u v m m1 (next m1) h first (then_ m1)

  ptrace_write-Leaves :
      (errno dest : ℕ) (src : List ℕ) (m : Memory)
      → dest + length src < 2 ^ 64
      → Leaves dest src m (ptrace_write p errno dest src m)
  unfolding ptrace_write
  ptrace_write-Leaves errno dest src m fits =
      let n = (length src - length src % word_size) / word_size in
      let fewer : n * word_size ≤ length src = omega arith in
      let rest : length (drop (n * word_size) src) ≤ word_size =
        omega (arith, length-drop (n * word_size) src) in
      subst (λ w. Leaves dest w m (ptrace_write p errno dest src m))
        (take-append-drop (n * word_size) src)
        (Leaves-on_success dest ((dest + n * word_size) % 2 ^ 64) (take (n * word_size) src)
          (drop (n * word_size) src) m (write_words p n dest src m) _
          (omega (arith, length-take (n * word_size) src))
          (write_words-Leaves n dest src m fewer fits)
          (λ m1. write_tail-Leaves errno _ (drop (n * word_size) src) m1 rest))

  -- What a first try has left inside of the bytes to be written makes no difference.
  pub Leaves-retry :
      (a : ℕ) (w : List ℕ) (m m1 : Memory) (r : Result (Unit {0}) × Memory)
      → ((j : ℕ) → within a (length w) j ≡ false → p.byte m1 j ≡ p.byte m j)
      → Leaves a w m1 r
      → Leaves a w m r
  Leaves-retry a w m m1 (err e, m') same h = tt
  Leaves-retry a w m m1 (ok _, m') same h =
      λ j. h j ∙ splice-pointwise (p.byte m1) (p.byte m) a w j (same j)

  Leaves-transfer :
      (errno dest : ℕ) (src : List ℕ) (m m1 : Memory) (status : Transfer (Unit {0}))
      → dest + length src < 2 ^ 64
      → (status ≡ whole tt → (j : ℕ) → p.byte m1 j ≡ splice (p.byte m) dest src j)
      → ((j : ℕ) → within dest (length src) j ≡ false → p.byte m1 j ≡ p.byte m j)
      → Leaves dest src m (elim status [
        | whole _ ↦ (ok tt, m1)
        | partial ↦ ptrace_write p errno dest src m1
        | failed e ↦ ptrace_write p e dest src m1
      ])
  Leaves-transfer errno dest src m m1 (whole _) fits all outside = all refl
  Leaves-transfer errno dest src m m1 partial fits all outside =
      Leaves-retry dest src m m1 _ outside (ptrace_write-Leaves errno dest src m1 fits)
  Leaves-transfer errno dest src m m1 (failed e) fits all outside =
      Leaves-retry dest src m m1 _ outside (ptrace_write-Leaves e dest src m1 fits)

  pub write_data-Leaves :
      (errno dest : ℕ) (src : List ℕ) (m : Memory)
      → dest + length src < 2 ^ 64
      → Leaves dest src m (write_data p errno dest src m)
  unfolding write_data
  write_data-Leaves errno dest src m fits =
      Leaves-transfer errno dest src m (p.vm_writev dest src m).1 (p.vm_writev dest src m).0 fits
        (p.writev_bytes dest src m) (p.writev_outside dest src m)

  -- When `write_data` answers 0 for bytes that do not pass the end of the address space, by
  -- whichever of the two ways they went, every byte of the tracee's memory is the one written
  -- there, and outside of the written bytes the one that was there before.
  pub write_data-bytes :
      (errno dest : ℕ) (src : List ℕ) (m m' : Memory) (j : ℕ)
      → dest + length src < 2 ^ 64
      → write_data p errno dest src m ≡ (ok tt, m')
      → p.byte m' j ≡ splice (p.byte m) dest src j
  write_data-bytes errno dest src m m' j fits is =
      subst (Leaves dest src m) is (write_data-Leaves errno dest src m fits) j
