-- ===== src/Tracees/Safe/Quiet.antt =====
-- Commands that leave the links alone.
use abyss.Base.{
  ℕ, ◌≡◌, refl, sym, ap, Bool, true, false, inl, inr, Bool-cases, none, some, List, arith, ◌==◌,
  if◌then◌else◌,
}
use abyss.Tracee.State.{Tracee}
use abyss.Tracees.Store.{
  null, World, Cmd, pure, and_then, set_cell, Call, load, modify, log, ask, assert,
}
use abyss.Tracees.Post.{Post, faults, ends, bind, mono}
use abyss.Tracees.Valid.{IsValid, Same-path}
use abyss.Tracees.Safe.{Still, Still-refl, Still-trans, Still-Good, Good, modify-ends}

abbrev pub link_part : Tracee → ℕ × ℕ × List ℕ × Bool × Bool
link_part t = (
  t.as_ptracee.ptracer, t.as_ptracer.nb_ptracees, t.as_ptracer.zombies, t.is_zombie,
  t.as_ptracee.zombified,
)

-- An update of a structure that leaves its links alone.
abbrev pub LeavesLinks : (Tracee → Tracee) → Type 0
LeavesLinks f = (t : Tracee) → link_part (f t) ≡ link_part t

module _ {Memory : Type 0} where
  pub record Quiet {A : Type 0} (m : Cmd Memory A) : Type 0 where
    pub post : (w : World Memory) → Post (λ _ w'. Still w w') (m w)

  module _ {A : Type 0} where
    pub Quiet-bind :
        {B : Type 0} (m : Cmd Memory A) (f : A → Cmd Memory B)
        → Quiet m
        → ((a : A) → Quiet (f a))
        → Quiet (λ w. and_then (m w) f)
    Quiet-bind m f q r = record {
      post = λ w. bind (q.post w) (λ a w' s. mono ((r a).post w') (λ b w'' s'. Still-trans s s'));
    }

    pub Quiet-pure : (a : A) → Quiet (pure a)
    Quiet-pure a = record { post = λ w. ends (Still-refl w) }

    pub Quiet-ask : (f : Memory → A) → Quiet (ask f)
    Quiet-ask f = record { post = λ w. ends (Still-refl w) }

    pub Quiet-fault : Quiet {A = A} (λ w. none)
    Quiet-fault = record { post = λ w. faults }

    pub Quiet-if : (b : Bool) (x y : Cmd Memory A) → Quiet x → Quiet y → Quiet (if b then x else y)
    Quiet-if true x y q r = q
    Quiet-if false x y q r = r

    -- A command that only takes the memory to another state.
    pub Quiet-memory :
        (answer : Memory → A) (after : Memory → Memory)
        → Quiet (λ w. some (answer w.memory, record w { memory = after w.memory }))
    Quiet-memory answer after = record {
      post = λ w. ends (record { same_links = refl; same_tracees = refl; same_next = refl });
    }

  pub Quiet-load : (a : ℕ) → Quiet (load a)
  unfolding load
  Quiet-load a = record {
    post = λ w. elim (Bool-cases (a == null)) [
      | inl e ↦ rw e faults
      | inr e ↦ rw e (ends (Still-refl w))
    ];
  }

  pub Quiet-log : (call : Call) → Quiet (log call)
  unfolding log
  Quiet-log call = record {
    post = λ w. ends (record { same_links = refl; same_tracees = refl; same_next = refl });
  }

  pub Quiet-assert : (b : Bool) → Quiet (assert b)
  Quiet-assert true = record { post = λ w. ends (Still-refl w) }
  Quiet-assert false = record { post = λ w. faults }

  pub Quiet-modify : (a : ℕ) (f : Tracee → Tracee) → LeavesLinks f → Quiet (modify a f)
  unfolding set_cell
  Quiet-modify a f apart = record {
    post = λ w. modify-ends w a f (λ ne. record {
      same_links = sym (
          Same-path (record {
            ptracer = λ b. ground (arith, ap (λ p. p.0) (apart (w.cell a)));
            nb = λ b. ground (arith, ap (λ p. p.1) (apart (w.cell a)));
            zombies = λ b. ground (arith, ap (λ p. p.2) (apart (w.cell a)));
            dead = λ b. ground (arith, ap (λ p. p.3) (apart (w.cell a)));
            zombified = λ b. ground (arith, ap (λ p. p.4) (apart (w.cell a)));
          }));
      same_tracees = refl;
      same_next = refl;
    });
  }

  pub Quiet-Good :
      {A : Type 0} {leaving : List ℕ} (m : Cmd Memory A)
      → Quiet m
      → (w : World Memory) → IsValid leaving w
      → Post (λ _ w'. Good leaving w w') (m w)
  Quiet-Good m q w v = mono (q.post w) (λ _ w' s. Still-Good s v)
