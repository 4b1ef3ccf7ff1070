-- ===== src/Tracees/Valid.antt =====
-- The invariant of the links between ptracers, ptracees and zombies: the counters `nb_ptracees` are
-- right. `leaving` lists the structures that are unlinked and not yet detached.
pub mod Steps
pub mod Lists
use mathlib.Core.Path.{subst, fun_ext}
use abyss.Base.{
  ℕ, suc, ◌+◌, ◌-◌, ◌%◌, ◌^◌, ◌≤◌, ◌<◌, ◌≡◌, ◌≢◌, refl, sym, ap, ◌∙◌, Bool, true, false, List, [],
  ◌∷◌, arith, ◌==◌, if◌then◌else◌, length,
}
use abyss.Tracee.State.{Tracee}
use abyss.Tracees.Store.{World, set_cell}
use abyss.Tracees.Remove.{list_remove}
use abyss.Tracees.Counts.{
  put, mult, owns, count, count-put_out, count-put_once, count_zero, mult-list_remove_self,
  mult-list_remove_other, list_remove_out, count-list_remove, length-list_remove,
}

-- The fields that link the structures, by address.
pub record Links : Type 0 where
  pub ptracer : ℕ → ℕ
  pub nb : ℕ → ℕ
  pub zombies : ℕ → List ℕ
  pub dead : ℕ → Bool
  pub zombified : ℕ → Bool

-- The structures of the tracees are different, known to the allocator, have known ptracers and are
-- not marked as zombies. A zombie is in the list of its ptracer, once, and not among the tracees;
-- and a counter is the number of the tracees of a ptracer and of its zombies, as a 64-bit word.
pub record IsValidAt (l : Links) (leaving tracees : List ℕ) (next : ℕ) : Type 0 where
  pub start : 0 < next
  pub not_null : mult 0 leaving + mult 0 tracees ≡ 0
  pub once : (a : ℕ) → mult a leaving + mult a tracees ≤ 1
  pub known : (a : ℕ) → next ≤ a → mult a leaving + mult a tracees ≡ 0
  pub linked : (a : ℕ) → 0 < mult a leaving + mult a tracees → l.ptracer a < next
  pub alive : (a : ℕ) → 0 < mult a leaving + mult a tracees → l.zombified a ≡ false
  pub zombie_once : (p z : ℕ) → mult z (l.zombies p) ≤ 1
  pub zombie_linked : (p z : ℕ) → 0 < mult z (l.zombies p) → l.ptracer z ≡ p
  pub zombie_apart : (p z : ℕ) → 0 < mult z (l.zombies p) → mult z leaving + mult z tracees ≡ 0
  pub zombie_known : (p z : ℕ) → 0 < mult z (l.zombies p) → z < next
  pub zombie_dead : (p z : ℕ) → 0 < mult z (l.zombies p) → l.dead z ≡ true
  pub zombie_marked : (p z : ℕ) → 0 < mult z (l.zombies p) → l.zombified z ≡ true
  pub counted :
      (p : ℕ)
      → 0 < mult p tracees
      → l.nb p
        ≡ (count l.ptracer p leaving + count l.ptracer p tracees + length (l.zombies p)) % 2 ^ 64

module _ {Memory : Type 0} where
  abbrev pub links : World Memory → Links
  links w = record {
    ptracer = λ a. (w.cell a).as_ptracee.ptracer;
    nb = λ a. (w.cell a).as_ptracer.nb_ptracees;
    zombies = λ a. (w.cell a).as_ptracer.zombies;
    dead = λ a. (w.cell a).is_zombie;
    zombified = λ a. (w.cell a).as_ptracee.zombified;
  }

  abbrev pub IsValid : List ℕ → World Memory → Type 0
  IsValid leaving w = IsValidAt (links w) leaving w.tracees w.next

-- Links that are the same at every address.
pub record Same (l l' : Links) : Type 0 where
  pub ptracer : (a : ℕ) → l'.ptracer a ≡ l.ptracer a
  pub nb : (a : ℕ) → l'.nb a ≡ l.nb a
  pub zombies : (a : ℕ) → l'.zombies a ≡ l.zombies a
  pub dead : (a : ℕ) → l'.dead a ≡ l.dead a
  pub zombified : (a : ℕ) → l'.zombified a ≡ l.zombified a

pub Same-path : {l l' : Links} → Same l l' → l ≡ l'
Same-path {l} {l'} s = λ i. record {
  ptracer = fun_ext (λ a. sym (s.ptracer a)) i;
  nb = fun_ext (λ a. sym (s.nb a)) i;
  zombies = fun_ext (λ a. sym (s.zombies a)) i;
  dead = fun_ext (λ a. sym (s.dead a)) i;
  zombified = fun_ext (λ a. sym (s.zombified a)) i;
}

pub Same-valid :
    {l l' : Links} {leaving tracees : List ℕ} {next : ℕ}
    → Same l l'
    → IsValidAt l leaving tracees next
    → IsValidAt l' leaving tracees next
Same-valid {leaving} {tracees} {next} s v =
    subst (λ l. IsValidAt l leaving tracees next) (Same-path s) v
