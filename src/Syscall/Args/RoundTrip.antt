-- ===== src/Syscall/Args/RoundTrip.antt =====
-- What `set_sysarg_data` and `set_sysarg_path` leave, and what `get_sysarg_path` finds then.
use mathlib.Core.Path.{subst}
use abyss.Base.{
  ℕ, ◌+◌, ◌-◌, ◌^◌, ◌<◌, ◌≤◌, ◌≡◌, ◌≢◌, refl, sym, ap, ◌∙◌, inl, inr, List, [], ◌∷◌, ◌++◌, arith,
  ◌==◌, if◌then◌else◌, Bool-cases, length, take, length-append, append_assoc, Result, ok, err,
  efault,
}
use abyss.Path.Str.{path_max}
use abyss.Tracee.State.{current, Tracee}
use abyss.Tracee.Reg.{Reg, stack_pointer, peek_reg, poke_reg}
use abyss.Tracee.Process.{Process, bytes, splice}
use abyss.Tracee.Mem.{write_data}
use abyss.Tracee.Mem.Bytes.{bytes-splice, bytes-append}
use abyss.Tracee.Mem.Writes.{write_data-Leaves, Leaves}
use abyss.Tracee.Strings.{strnlen, read_path}
use abyss.Tracee.Strings.Prefix.{strnlen-append}
use abyss.Tracee.Strings.Paths.{read_path-ends}
use abyss.Tracee.Alloc.{alloc_mem, alloc_mem-block}
use abyss.Syscall.Args.{get_sysarg_path, set_sysarg_data, set_sysarg_path}

module _ {Memory : Type 0} (p : Process Memory) where
  -- Unless there was an error, the register points to the bytes, which lie in the stack.
  Passed : List ℕ → Reg → Tracee → Memory → Result (Unit {0}) × Tracee × Memory → Type 0
  Passed w reg tracee m (err e, tracee', m') = Unit
  Passed w reg tracee m (ok _, tracee', m') =
      let address = peek_reg tracee' current reg in
      (address ≢ 0)
      × (address + length w ≤ peek_reg tracee current stack_pointer)
      × ((j : ℕ) → p.byte m' j ≡ splice (p.byte m) address w j)

  Passed-write :
      (errno ptr : ℕ) (w : List ℕ) (reg : Reg) (tracee tracee' : Tracee) (m : Memory)
      → peek_reg tracee current stack_pointer < 2 ^ 64
      → ptr ≢ 0
      → (ptr + length w ≤ peek_reg tracee current stack_pointer)
        × (peek_reg (poke_reg reg ptr tracee') current reg ≡ ptr)
      → (r : Result (Unit {0}) × Memory) → r ≡ write_data p errno ptr w m
      → Passed w reg tracee m (elim r.0 [
        | err e ↦ (err e, tracee', r.1)
        | ok _ ↦ (ok tt, poke_reg reg ptr tracee', r.1)
      ])
  unfolding Passed
  Passed-write errno ptr w reg tracee tracee' m fits h block (err e, m') is = tt
  Passed-write errno ptr w reg tracee tracee' m fits h (low, points) (ok _, m') is =
      rw points (
        h,
        low,
        subst (Leaves p ptr w m) (sym is) (write_data-Leaves p errno ptr w m (omega arith)),
      )

  Passed-alloc :
      (errno ptr : ℕ) (w : List ℕ) (reg : Reg) (tracee tracee' : Tracee) (m : Memory)
      → peek_reg tracee current stack_pointer < 2 ^ 64
      → (ptr ≢ 0
          → (ptr + length w ≤ peek_reg tracee current stack_pointer)
            × (peek_reg (poke_reg reg ptr tracee') current reg ≡ ptr))
      → (r : Result (Unit {0}) × Memory) → r ≡ write_data p errno ptr w m
      → Passed w reg tracee m (
          if ptr == 0 then (err efault, tracee', m) else (elim r.0 [
            | err e ↦ (err e, tracee', r.1)
            | ok _ ↦ (ok tt, poke_reg reg ptr tracee', r.1)
          ]))
  unfolding Passed
  Passed-alloc errno ptr w reg tracee tracee' m fits h r is = elim (Bool-cases (ptr == 0)) [
    | inl e ↦ rw e tt
    | inr e ↦
        rw e (
          Passed-write errno ptr w reg tracee tracee' m fits (ground arith) (h (ground arith)) r is)
  ]

  set_sysarg_data-Passed :
      (errno : ℕ) (w : List ℕ) (reg : Reg) (tracee : Tracee) (m : Memory)
      → peek_reg tracee current stack_pointer < 2 ^ 64
      → Passed w reg tracee m (set_sysarg_data p errno w reg tracee m)
  unfolding set_sysarg_data
  set_sysarg_data-Passed errno w reg tracee m fits =
      Passed-alloc errno (alloc_mem (length w) tracee).0 w reg tracee
        (alloc_mem (length w) tracee).1 m fits (alloc_mem-block (length w) reg tracee fits)
        (write_data p errno (alloc_mem (length w) tracee).0 w m) refl

  -- When `set_sysarg_data` answers 0, the register of the argument points to a block, not at 0,
  -- which lies in the tracee's stack below the old stack pointer, and the tracee's memory is the one
  -- before with the data written over that block.
  pub set_sysarg_data-passes :
      (errno : ℕ) (w : List ℕ) (reg : Reg) (tracee tracee' : Tracee) (m m' : Memory)
      → peek_reg tracee current stack_pointer < 2 ^ 64
      → set_sysarg_data p errno w reg tracee m ≡ (ok tt, tracee', m')
      → (peek_reg tracee' current reg ≢ 0)
        × (peek_reg tracee' current reg + length w ≤ peek_reg tracee current stack_pointer)
        × ((j : ℕ) → p.byte m' j ≡ splice (p.byte m) (peek_reg tracee' current reg) w j)
  unfolding Passed
  set_sysarg_data-passes errno w reg tracee tracee' m m' fits is =
      subst (Passed w reg tracee m) is (set_sysarg_data-Passed errno w reg tracee m fits)

  -- Where a string ends that stands in memory.
  ends :
      (f : ℕ → ℕ) (a k n : ℕ) (path : List ℕ)
      → strnlen path ≡ length path
      → length path + 1 + k ≡ n
      → bytes f a (length path + 1) ≡ path ++ (0 ∷ [])
      → strnlen (bytes f a n) ≡ length path
  unfolding strnlen
  ends f a k n path whole_ sum is =
      let rest = bytes f (a + (length path + 1)) k in
      let e : bytes f a n ≡ (path ++ (0 ∷ [])) ++ rest =
        ap (bytes f a) (sym sum) ∙ bytes-append f a (length path + 1) k ∙ ap (λ t. t ++ rest) is in
      ap strnlen e
      ∙ ground (
        arith,
        strnlen-append (path ++ (0 ∷ [])) rest,
        strnlen-append path (0 ∷ []),
        length-append path (0 ∷ []),
      )

  -- What `get_sysarg_path` answers for a path that stands in memory.
  Got : List ℕ → Result ℕ × List ℕ → Type 0
  Got path (err e, out) = Unit
  Got path (ok size, out) = (size ≡ length path + 1) × (out ≡ path ++ (0 ∷ 0 ∷ []))

  Got-read :
      (errno page_bits a : ℕ) (m : Memory) (path : List ℕ) (r : Result ℕ × List ℕ)
      → a + path_max < 2 ^ 64
      → strnlen path ≡ length path
      → length path + 1 ≤ path_max
      → bytes (p.byte m) a (length path + 1) ≡ path ++ (0 ∷ [])
      → read_path p errno page_bits a m ≡ r
      → Got path
          (elim r.0 [ err e ↦ (err e, r.1) | ok size ↦ (ok size, take size r.1 ++ (0 ∷ [])) ])
  unfolding Got
  Got-read errno page_bits a m path (err e, out) fits whole_ short is read = tt
  Got-read errno page_bits a m path (ok size, out) fits whole_ short is read =
      let (less, size_, found) = read_path-ends p errno page_bits a size m out fits read in
      let e : size ≡ length path + 1 = omega (
        arith,
        size_,
        ends (p.byte m) a (path_max - (length path + 1)) path_max path whole_ (omega arith) is,
      ) in
      (
        e,
        ap (λ w. w ++ (0 ∷ [])) (found ∙ ap (bytes (p.byte m) a) e ∙ is)
            ∙ append_assoc path (0 ∷ []) (0 ∷ []),
      )

  Got-pointer :
      (path : List ℕ) (a : ℕ)
      → a ≢ 0
      → (r r' : Result ℕ × List ℕ) → Got path r'
      → Got path (if a == 0 then r else r')
  Got-pointer path a h r r' got = elim (Bool-cases (a == 0)) [
    | inl e ↦ absurd (h (ground arith))
    | inr e ↦ rw e got
  ]

  get_sysarg_path-Got :
      (errno page_bits : ℕ) (reg : Reg) (tracee : Tracee) (m : Memory) (path : List ℕ)
      → peek_reg tracee current reg + path_max < 2 ^ 64
      → strnlen path ≡ length path
      → length path + 1 ≤ path_max
      → peek_reg tracee current reg ≢ 0
      → bytes (p.byte m) (peek_reg tracee current reg) (length path + 1) ≡ path ++ (0 ∷ [])
      → Got path (get_sysarg_path p errno page_bits reg tracee m)
  unfolding get_sysarg_path
  get_sysarg_path-Got errno page_bits reg tracee m path fits whole_ short h is =
      Got-pointer path (peek_reg tracee current reg) h _ _
        (Got-read errno page_bits (peek_reg tracee current reg) m path _ fits whole_ short is refl)

  -- A path without '\0' that `set_sysarg_path` has put into an argument is the one that
  -- `get_sysarg_path` finds there, with its size, and followed by its '\0' and a second one, when
  -- both succeed.
  pub get_sysarg_path-set_sysarg_path :
      (errno errno' page_bits size : ℕ) (path out : List ℕ) (reg : Reg) (tracee tracee' : Tracee)
      (m m' : Memory)
      → peek_reg tracee current stack_pointer + path_max < 2 ^ 64
      → strnlen path ≡ length path
      → length path + 1 ≤ path_max
      → set_sysarg_path p errno path reg tracee m ≡ (ok tt, tracee', m')
      → get_sysarg_path p errno' page_bits reg tracee' m' ≡ (ok size, out)
      → (size ≡ length path + 1) × (out ≡ path ++ (0 ∷ 0 ∷ []))
  unfolding set_sysarg_path Got
  get_sysarg_path-set_sysarg_path errno errno' page_bits size path out reg tracee tracee' m m' fits
        whole_ short set get =
      let w = path ++ (0 ∷ []) in
      let (set_at, low, over) =
        set_sysarg_data-passes errno w reg tracee tracee' m m' (omega arith) set in
      let len : length w ≡ length path + 1 = length-append path (0 ∷ []) in
      let is : bytes (p.byte m') (peek_reg tracee' current reg) (length path + 1) ≡ w =
        ap (bytes (p.byte m') (peek_reg tracee' current reg)) (sym len)
        ∙ bytes-splice (p.byte m') (p.byte m) (peek_reg tracee' current reg) w over in
      subst (Got path) get (
        get_sysarg_path-Got errno' page_bits reg tracee' m' path (omega arith) whole_ short set_at
          is)
