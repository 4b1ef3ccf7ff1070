-- ===== src/Tracees/Safe/Allocates.antt =====
-- A structure that the allocator gives out keeps the invariant.
use abyss.Base.{ℕ, ◌+◌, ◌≡◌, inl, inr, Bool-cases, List, arith}
use abyss.Tracee.State.{new_dummy_tracee}
use abyss.Tracees.Store.{null, World, Cmd, Kernel, and_then, set_cell, new_dummy}
use abyss.Tracees.Post.{Post}
use abyss.Tracees.Counts.{mult, mult-nil}
use abyss.Tracees.Valid.{IsValid, Same-valid}
use abyss.Tracees.Valid.Lists

module _ {Memory : Type 0} where
  pub new_dummy-then :
      {B : Type 0} {R : B → World Memory → Type 0} (kernel : Kernel Memory) (w : World Memory)
      (next : ℕ → Cmd Memory B)
      → Post R (
          next w.next
            (record w { cell = set_cell w.cell w.next new_dummy_tracee; next = w.next + 1 }))
      → Post R (next null w)
      → Post R (and_then (new_dummy kernel w) next)
  unfolding new_dummy
  new_dummy-then kernel w next h k = elim (Bool-cases (kernel.calloc_granted w.memory)) [
    | inl e ↦ rw e h
    | inr e ↦ rw e k
  ]

  pub allocated-IsValid :
      {leaving : List ℕ} (w : World Memory)
      → IsValid leaving w
      → IsValid leaving
          (record w { cell = set_cell w.cell w.next new_dummy_tracee; next = w.next + 1 })
  unfolding set_cell new_dummy_tracee
  allocated-IsValid w v =
      Same-valid
        (record {
          ptracer = λ b. ground arith;
          nb = λ b. ground arith;
          zombies = λ b. ground arith;
          dead = λ b. ground arith;
          zombified = λ b. ground arith;
        })
        (Lists.allocated-IsValidAt v)

  -- What the allocator gives out is in no list.
  pub fresh_zombies :
      {leaving : List ℕ} (w : World Memory) (q : ℕ)
      → IsValid leaving w
      → mult w.next (set_cell w.cell w.next new_dummy_tracee q).as_ptracer.zombies ≡ 0
  unfolding set_cell new_dummy_tracee
  fresh_zombies w q v = ground (arith, v.zombie_known q w.next, mult-nil w.next)
