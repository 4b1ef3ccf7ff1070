-- ===== src/Tracees/Safe.antt =====
-- Commands that keep the invariant of the links: the rules for one command after the other.
pub mod Quiet
pub mod Commands
pub mod Allocates
use abyss.Base.{
  ℕ, ◌+◌, ◌<◌, ◌≡◌, ◌≢◌, refl, sym, ap, ◌∙◌, Bool, true, false, inl, inr, Bool-cases, Option, none,
  some, List, arith, ◌==◌, if◌then◌else◌,
}
use mathlib.Core.Path.{subst}
use abyss.Tracee.State.{Tracee}
use abyss.Tracees.Store.{null, World, Cmd, and_then, set_cell, load, modify, assert}
use abyss.Tracees.Post.{Post, faults, ends, bind}
use abyss.Tracees.Counts.{mult}
use abyss.Tracees.Valid.{Links, IsValidAt, links, IsValid}

module _ {Memory : Type 0} where
  pub listed_once :
      {leaving : List ℕ} (a : ℕ) (w : World Memory)
      → IsValid leaving w
      → 0 < mult a w.tracees
      → mult a leaving + mult a w.tracees ≡ 1
  listed_once a w v i = omega (arith, v.once a)

  -- The links, the list of tracees and the allocator are as before.
  pub record Still (w w' : World Memory) : Type 0 where
    pub same_links : links w' ≡ links w
    pub same_tracees : w'.tracees ≡ w.tracees
    pub same_next : w'.next ≡ w.next

  pub Still-refl : (w : World Memory) → Still w w
  Still-refl w = record { same_links = refl; same_tracees = refl; same_next = refl }

  pub Still-trans : {u v w : World Memory} → Still u v → Still v w → Still u w
  Still-trans s t = record {
    same_links = t.same_links ∙ s.same_links;
    same_tracees = t.same_tracees ∙ s.same_tracees;
    same_next = t.same_next ∙ s.same_next;
  }

  pub Still-IsValid :
      {leaving : List ℕ} {w w' : World Memory} → Still w w' → IsValid leaving w → IsValid leaving w'
  Still-IsValid {leaving} {w} {w'} s v =
      subst (λ n. IsValidAt (links w') leaving w'.tracees n) (sym s.same_next)
        (subst (λ ts. IsValidAt (links w') leaving ts w.next) (sym s.same_tracees)
          (subst (λ l. IsValidAt l leaving w.tracees w.next) (sym s.same_links) v))

  -- The tracees are still listed.
  abbrev pub Grows : World Memory → World Memory → Type 0
  Grows w w' = (a : ℕ) → 0 < mult a w.tracees → 0 < mult a w'.tracees

  -- The invariant holds, and all tracees are still listed.
  pub record Good (leaving : List ℕ) (w w' : World Memory) : Type 0 where
    pub valid : IsValid leaving w'
    pub grows : Grows w w'

  pub Still-Good :
      {leaving : List ℕ} {w w' : World Memory} → Still w w' → IsValid leaving w → Good leaving w w'
  Still-Good s v = record {
    valid = Still-IsValid s v;
    grows = λ a i. subst (λ ts. 0 < mult a ts) (sym s.same_tracees) i;
  }

  pub Good-trans :
      {leaving : List ℕ} {u v w : World Memory}
      → Good leaving u v
      → Good leaving v w
      → Good leaving u w
  Good-trans g h = record { valid = h.valid; grows = λ a i. h.grows a (g.grows a i) }

  module _ {B : Type 0} {R : B → World Memory → Type 0} (w : World Memory) where
    pub load-then :
        (a : ℕ) (next : Tracee → Cmd Memory B)
        → (a ≢ 0 → Post R (next (w.cell a) w))
        → Post R (and_then (load a w) next)
    unfolding load
    load-then a next h = elim (Bool-cases (a == null)) [
      | inl e ↦ rw e faults
      | inr e ↦ rw e (h (ground arith))
    ]

    pub modify-then :
        (a : ℕ) (f : Tracee → Tracee) (next : Unit {0} → Cmd Memory B)
        → (a ≢ 0 → Post R (next tt (record w { cell = set_cell w.cell a (f (w.cell a)) })))
        → Post R (and_then (modify a f w) next)
    unfolding modify
    modify-then a f next h = elim (Bool-cases (a == null)) [
      | inl e ↦ rw e faults
      | inr e ↦ rw e (h (ground arith))
    ]

    pub assert-then :
        (b : Bool) (next : Unit {0} → Cmd Memory B)
        → (b ≡ true → Post R (next tt w))
        → Post R (and_then (assert b w) next)
    assert-then true next h = h refl
    assert-then false next h = faults

  pub modify-ends :
      {R : Unit {0} → World Memory → Type 0} (w : World Memory) (a : ℕ) (f : Tracee → Tracee)
      → (a ≢ 0 → R tt (record w { cell = set_cell w.cell a (f (w.cell a)) }))
      → Post R (modify a f w)
  unfolding modify
  modify-ends w a f h = elim (Bool-cases (a == null)) [
    | inl e ↦ rw e faults
    | inr e ↦ rw e (ends (h (ground arith)))
  ]
