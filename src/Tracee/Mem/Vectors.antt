-- ===== src/Tracee/Mem/Vectors.antt =====
-- Several buffers, and zeros: `writev_data` and `clear_mem` of tracee/mem.c.
use mathlib.Core.Path.{subst}
use abyss.Base.{
  ℕ, zero, suc, ◌+◌, ◌-◌, ◌%◌, ◌^◌, ◌<◌, ◌≡◌, refl, sym, ap, ◌∙◌, false, List, [], ◌∷◌, ◌++◌, arith,
  if◌then◌else◌, length, get_or, length-append, Result, ok, err,
}
use abyss.Tracee.Process.{splice, within, Transfer, whole, partial, failed, Process}
use abyss.Tracee.Mem.{on_success, write_data}
use abyss.Tracee.Mem.Writes.{Leaves, splice-nil, Leaves-on_success, write_data-Leaves, Leaves-retry}

-- The bytes of the buffers, one behind the other.
unfoldable pub gathered : List (List ℕ) → List ℕ
gathered [] = []
gathered (w ∷ ws) = w ++ gathered ws

-- The errno behind a transfer.
abbrev pub errno_after {ℓ} : {A : Type ℓ} → ℕ → Transfer A → ℕ
errno_after errno (whole _) = errno
errno_after errno partial = errno
errno_after errno (failed e) = e

-- The pages that mmap(2) gives.
unfoldable pub zeros : ℕ → List ℕ
zeros zero = []
zeros (suc n) = 0 ∷ zeros n

module _ {Memory : Type 0} (p : Process Memory) where
  -- The fallback: one buffer after the other.
  unfoldable pub write_each : ℕ → ℕ → List (List ℕ) → Memory → Result (Unit {0}) × Memory
  write_each errno dest [] m = (ok tt, m)
  write_each errno dest (src ∷ srcs) m = on_success (write_data p errno dest src m) (
      write_each (errno_after errno (p.vm_writev dest src m).0) ((dest + length src) % 2 ^ 64) srcs)

  unfoldable pub writev_data : ℕ → ℕ → List (List ℕ) → Memory → Result (Unit {0}) × Memory
  unfolding write_each gathered
  writev_data errno dest srcs m =
      let (status, m') = p.vm_writev dest (gathered srcs) m in
      elim status [
        | whole _ ↦ (ok tt, m')
        | partial ↦ write_each errno dest srcs m'
        | failed e ↦ write_each e dest srcs m'
      ]

  -- What mmap(2) answers is the first argument.
  unfoldable pub clear_mem : Result (Unit {0}) → ℕ → ℕ → ℕ → Memory → Result (Unit {0}) × Memory
  unfolding zeros
  clear_mem (err e) errno address size m = (err e, m)
  clear_mem (ok _) errno address size m = write_data p errno address (zeros size) m

  write_each-Leaves :
      (errno dest : ℕ) (srcs : List (List ℕ)) (m : Memory)
      → dest + length (gathered srcs) < 2 ^ 64
      → Leaves p dest (gathered srcs) m (write_each errno dest srcs m)
  unfolding write_each gathered
  write_each-Leaves errno dest [] m fits = λ j. sym (splice-nil p (p.byte m) dest j)
  write_each-Leaves errno dest (src ∷ srcs) m fits =
      let sum = length-append src (gathered srcs) in
      Leaves-on_success p dest ((dest + length src) % 2 ^ 64) src (gathered srcs) m
        (write_data p errno dest src m) _ (omega arith)
        (write_data-Leaves p errno dest src m (omega arith))
        (λ m1.
          write_each-Leaves (errno_after errno (p.vm_writev dest src m).0)
            ((dest + length src) % 2 ^ 64) srcs m1 (omega arith))

  Leaves-gathered :
      (errno dest : ℕ) (srcs : List (List ℕ)) (m m1 : Memory) (status : Transfer (Unit {0}))
      → dest + length (gathered srcs) < 2 ^ 64
      → (status ≡ whole tt → (j : ℕ) → p.byte m1 j ≡ splice (p.byte m) dest (gathered srcs) j)
      → ((j : ℕ) → within dest (length (gathered srcs)) j ≡ false → p.byte m1 j ≡ p.byte m j)
      → Leaves p dest (gathered srcs) m (elim status [
        | whole _ ↦ (ok tt, m1)
        | partial ↦ write_each errno dest srcs m1
        | failed e ↦ write_each e dest srcs m1
      ])
  Leaves-gathered errno dest srcs m m1 (whole _) fits all outside = all refl
  Leaves-gathered errno dest srcs m m1 partial fits all outside =
      Leaves-retry p dest (gathered srcs) m m1 _ outside (write_each-Leaves errno dest srcs m1 fits)
  Leaves-gathered errno dest srcs m m1 (failed e) fits all outside =
      Leaves-retry p dest (gathered srcs) m m1 _ outside (write_each-Leaves e dest srcs m1 fits)

  -- When `writev_data` answers 0 for buffers that do not pass the end of the address space, at once
  -- or buffer by buffer, the tracee's memory is the one before with the buffers, one behind the
  -- other, written over it.
  pub writev_data-bytes :
      (errno dest : ℕ) (srcs : List (List ℕ)) (m m' : Memory) (j : ℕ)
      → dest + length (gathered srcs) < 2 ^ 64
      → writev_data errno dest srcs m ≡ (ok tt, m')
      → p.byte m' j ≡ splice (p.byte m) dest (gathered srcs) j
  unfolding writev_data
  writev_data-bytes errno dest srcs m m' j fits is =
      subst (Leaves p dest (gathered srcs) m) is
        (Leaves-gathered errno dest srcs m (p.vm_writev dest (gathered srcs) m).1
          (p.vm_writev dest (gathered srcs) m).0 fits (p.writev_bytes dest (gathered srcs) m)
          (p.writev_outside dest (gathered srcs) m))
        j

  length-zeros : (n : ℕ) → length (zeros n) ≡ n
  unfolding zeros
  length-zeros zero = refl
  length-zeros (suc n) = ap suc (length-zeros n)

  get_or-zeros : (n i : ℕ) → get_or (zeros n) i 0 ≡ 0
  unfolding zeros
  get_or-zeros zero i = refl
  get_or-zeros (suc n) zero = refl
  get_or-zeros (suc n) (suc i) = get_or-zeros n i

  splice-zeros :
      (f : ℕ → ℕ) (a n j : ℕ) → splice f a (zeros n) j ≡ (if within a n j then 0 else f j)
  unfolding splice
  splice-zeros f a n j = rw (length-zeros n, get_or-zeros n (j - a)) refl

  clear_mem-Leaves :
      (mapped : Result (Unit {0})) (errno address size : ℕ) (m : Memory)
      → address + size < 2 ^ 64
      → Leaves p address (zeros size) m (clear_mem mapped errno address size m)
  unfolding clear_mem
  clear_mem-Leaves (err e) errno address size m fits = tt
  clear_mem-Leaves (ok _) errno address size m fits =
      write_data-Leaves p errno address (zeros size) m (omega (arith, length-zeros size))

  -- When `clear_mem` answers 0 for bytes that do not pass the end of the address space, these bytes
  -- of the tracee's memory are 0 and all others are as before.
  pub clear_mem-zero :
      (mapped : Result (Unit {0})) (errno address size : ℕ) (m m' : Memory) (j : ℕ)
      → address + size < 2 ^ 64
      → clear_mem mapped errno address size m ≡ (ok tt, m')
      → p.byte m' j ≡ (if within address size j then 0 else p.byte m j)
  clear_mem-zero mapped errno address size m m' j fits is =
      subst (Leaves p address (zeros size) m) is (clear_mem-Leaves mapped errno address size m fits)
        j
      ∙ splice-zeros (p.byte m) address size j
