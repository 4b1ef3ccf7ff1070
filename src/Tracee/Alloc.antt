-- ===== src/Tracee/Alloc.antt =====
-- Memory for the tracer in the stack of a tracee: `alloc_mem` of tracee/mem.c, for sizes at or above
-- 0, with the constants that arch.h has for arm64. Its assertion on the stage is left to the
-- callers.
use mathlib.Core.Path.{subst}
use abyss.Base.{
  ◌&&◌, ℕ, ◌+◌, ◌-◌, ◌*◌, ◌/◌, ◌%◌, ◌^◌, ◌<◌, ◌≤◌, ◌≡◌, ◌≢◌, refl, sym, ap, ◌∙◌, true, inl, inr,
  arith, ltb, leb, ◌==◌, if◌then◌else◌, Bool-cases,
}
use abyss.Tracee.State.{RegVersion, current, original, Tracee}
use abyss.Tracee.Reg.{Reg, stack_pointer, slot, peek_reg, poke_reg}
use abyss.Tracee.Reg.Pokes.{peek_reg-poke_reg, peek_reg-poke_reg_other}

abbrev pub red_zone_size : ℕ
red_zone_size = 0

abbrev pub stack_alignment : ℕ
stack_alignment = 16

-- What is taken of the stack for `size` bytes.
unfoldable pub aligned_size : ℕ → Tracee → ℕ
unfolding peek_reg
aligned_size size tracee =
    let size' =
      if peek_reg tracee current stack_pointer == peek_reg tracee original stack_pointer
      then size + red_zone_size
      else size in
    ((size' - 1) / stack_alignment + 1) * stack_alignment

-- The address, 0 on an error, and the tracee.
unfoldable pub alloc_mem : ℕ → Tracee → ℕ × Tracee
unfolding aligned_size poke_reg
alloc_mem size tracee =
    let pointer = peek_reg tracee current stack_pointer in
    let aligned = aligned_size size tracee in
    if ltb 0 aligned && leb pointer aligned
    then (0, tracee)
    else (pointer - aligned, poke_reg stack_pointer (pointer - aligned) tracee)

aligned_size_bounds :
    (size : ℕ) (tracee : Tracee)
    → (size ≤ aligned_size size tracee)
      × (aligned_size size tracee ≤ size + stack_alignment)
      × (aligned_size size tracee % stack_alignment ≡ 0)
      × (0 < aligned_size size tracee)
unfolding aligned_size
aligned_size_bounds size tracee = (ground arith, ground arith, ground arith, ground arith)

-- An address has been taken of the stack.
pub Taken : ℕ → Tracee → ℕ × Tracee → Type 0
Taken size tracee r =
    let aligned = aligned_size size tracee in
    let pointer = peek_reg tracee current stack_pointer in
    (aligned < pointer) × (r.0 + aligned ≡ pointer) × (r.1 ≡ poke_reg stack_pointer r.0 tracee)

alloc_mem-Taken :
    (size : ℕ) (tracee : Tracee)
    → (alloc_mem size tracee).0 ≢ 0
    → Taken size tracee (alloc_mem size tracee)
unfolding alloc_mem Taken
alloc_mem-Taken size tracee h =
    let aligned = aligned_size size tracee in
    let pointer = peek_reg tracee current stack_pointer in
    let pos : 0 < aligned = (aligned_size_bounds size tracee).3 in
    elim (Bool-cases (ltb 0 aligned && leb pointer aligned)) [
      | inl e ↦ absurd (h (rw e refl))
      | inr e ↦ let less : aligned < pointer = ground arith in rw e (less, omega arith, refl)
    ]

poke_reg_mode :
    (reg : Reg) (value : ℕ) (tracee : Tracee)
    → (poke_reg reg value tracee).is_aarch32 ≡ tracee.is_aarch32
unfolding poke_reg
poke_reg_mode reg value tracee = ground arith

peek_reg_bound :
    (version : RegVersion) (reg : Reg) (tracee : Tracee)
    → tracee.is_aarch32 ≡ true
    → peek_reg tracee version reg < 2 ^ 32
unfolding peek_reg
peek_reg_bound version reg tracee h = rw h (omega arith)

-- A value that is not above that of a register fits into one.
mode_keeps :
    (value : ℕ) (reg : Reg) (tracee : Tracee)
    → value ≤ peek_reg tracee current reg
    → (if tracee.is_aarch32 then value % 2 ^ 32 else value) ≡ value
mode_keeps value reg tracee h = ground (arith, peek_reg_bound current reg tracee)

poke_below :
    (reg other : Reg) (value : ℕ) (tracee : Tracee)
    → peek_reg tracee current other < 2 ^ 64
    → value ≤ peek_reg tracee current other
    → peek_reg (poke_reg reg value tracee) current reg ≡ value
poke_below reg other value tracee fits h =
    peek_reg-poke_reg reg value tracee (omega arith) ∙ mode_keeps value other tracee h

-- The block lies in the stack, and a register can hold its address.
pub alloc_mem-block :
    (size : ℕ) (reg : Reg) (tracee : Tracee)
    → peek_reg tracee current stack_pointer < 2 ^ 64
    → (alloc_mem size tracee).0 ≢ 0
    → ((alloc_mem size tracee).0 + size ≤ peek_reg tracee current stack_pointer)
      × (peek_reg (poke_reg reg (alloc_mem size tracee).0 (alloc_mem size tracee).1) current reg
          ≡ (alloc_mem size tracee).0)
unfolding Taken
alloc_mem-block size reg tracee fits h =
    let (less, sum, new) = alloc_mem-Taken size tracee h in
    let address = (alloc_mem size tracee).0 in
    let (small, near, aligned, pos) = aligned_size_bounds size tracee in
    let mode : (alloc_mem size tracee).1.is_aarch32 ≡ tracee.is_aarch32 =
      ap (λ t. t.is_aarch32) new ∙ poke_reg_mode stack_pointer address tracee in
    (
      omega arith,
      peek_reg-poke_reg reg address (alloc_mem size tracee).1 (omega arith)
          ∙ rw mode (mode_keeps address stack_pointer tracee (omega arith)),
    )

-- When `alloc_mem` gives an address, the block of `size` bytes there lies in the stack below the
-- stack pointer, the new stack pointer, which is where it starts, is at most 16 bytes further down
-- than it must be and stays aligned to 16 bytes where the old one was; and no register with another
-- place changes.
pub alloc_mem-stack :
    (size address : ℕ) (tracee tracee' : Tracee) (reg : Reg)
    → peek_reg tracee current stack_pointer < 2 ^ 64
    → slot tracee.is_aarch32 stack_pointer ≢ slot tracee.is_aarch32 reg
    → alloc_mem size tracee ≡ (address, tracee')
    → address ≢ 0
    → (address + size ≤ peek_reg tracee current stack_pointer)
      × (peek_reg tracee current stack_pointer ≤ address + size + stack_alignment)
      × (peek_reg tracee current stack_pointer % stack_alignment ≡ 0
          → address % stack_alignment ≡ 0)
      × (peek_reg tracee' current stack_pointer ≡ address)
      × (peek_reg tracee' current reg ≡ peek_reg tracee current reg)
unfolding Taken
alloc_mem-stack size address tracee tracee' reg fits apart is h =
    let taken =
      subst (Taken size tracee) is
        (alloc_mem-Taken size tracee (λ e. h (ap (λ r. r.0) (sym is) ∙ e))) in
    let (small, near, aligned, pos) = aligned_size_bounds size tracee in
    let (less, sum, new) = taken in
    (
      omega arith,
      omega arith,
      λ e. omega arith,
      ap (λ t. peek_reg t current stack_pointer) new
          ∙ poke_below stack_pointer stack_pointer address tracee fits (omega arith),
      ap (λ t. peek_reg t current reg) new
          ∙ peek_reg-poke_reg_other stack_pointer reg address current tracee apart,
    )
