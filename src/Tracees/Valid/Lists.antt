-- ===== src/Tracees/Valid/Lists.antt =====
-- What allocation and the insertion into the list of tracees do to the invariant.
use mathlib.Core.Path.{subst}
use abyss.Base.{
  inl, inr, Bool-cases, ℕ, ◌+◌, ◌%◌, ◌^◌, ◌<◌, ◌≡◌, ◌≢◌, false, List, [], ◌∷◌, arith, ◌==◌, length,
}
use abyss.Tracees.Counts.{put, mult, mult-nil, owns, count, count-put_out, count_zero}
use abyss.Tracees.Valid.{Links, IsValidAt}
use abyss.Tracees.Valid.Steps

module _ {l : Links} {leaving tracees : List ℕ} {next : ℕ}
    (v : IsValidAt l leaving tracees next) where
  -- The allocator gives out a cleared structure.
  abbrev pub allocated : Links
  allocated = record {
    ptracer = put l.ptracer next 0;
    nb = put l.nb next 0;
    zombies = put l.zombies next [];
    dead = put l.dead next false;
    zombified = put l.zombified next false;
  }

  pub allocated-IsValidAt : IsValidAt allocated leaving tracees (next + 1)
  allocated-IsValidAt = record {
    start = ground arith;
    not_null = v.not_null;
    once = v.once;
    known = λ a h. v.known a (omega arith);
    linked = λ b i. ground (arith, v.linked b, v.start);
    alive = λ b i. ground (arith, v.alive b);
    zombie_once = λ p z. ground (arith, mult-nil z, v.zombie_once p z);
    zombie_linked = λ q z i. ground (arith, mult-nil z, v.zombie_linked q z, v.zombie_known q z);
    zombie_apart = λ q z i. ground (arith, mult-nil z, v.zombie_apart q z);
    zombie_known = λ q z i. ground (arith, mult-nil z, v.zombie_known q z);
    zombie_dead = λ q z i. ground (arith, mult-nil z, v.zombie_dead q z, v.zombie_known q z);
    zombie_marked = λ q z i. ground (arith, mult-nil z, v.zombie_marked q z, v.zombie_known q z);
    counted = λ q i. ground (
      arith,
      v.counted q i,
      v.known next,
      count-put_out l.ptracer next 0 q leaving,
      count-put_out l.ptracer next 0 q tracees,
      v.known q,
    );
  }

  -- A tracee is put at the head of the list.
  pub inserted-IsValidAt :
      (a : ℕ)
      → Steps.listed v a ≡ 0
      → a ≢ 0
      → a < next
      → l.ptracer a ≡ 0
      → l.nb a ≡ 0
      → l.zombies a ≡ []
      → l.zombified a ≡ false
      → ((b : ℕ) → 0 < Steps.listed v b → l.ptracer b ≢ a)
      → ((p : ℕ) → mult a (l.zombies p) ≡ 0)
      → IsValidAt l leaving (a ∷ tracees) next
  unfolding mult count
  inserted-IsValidAt a out not_null below free none_counted no_zombies unmarked unknown apart =
      record {
        start = v.start;
        not_null = ground (arith, v.not_null);
        once = λ b. ground (arith, v.once b);
        known = λ b h. ground (arith, v.known b h);
        linked = λ b i. ground (arith, v.linked b, v.start);
        alive = λ b i. ground (arith, v.alive b);
        zombie_once = v.zombie_once;
        zombie_linked = v.zombie_linked;
        zombie_apart = λ q z i. ground (arith, v.zombie_apart q z i, apart q);
        zombie_known = v.zombie_known;
        zombie_dead = v.zombie_dead;
        zombie_marked = v.zombie_marked;
        counted = λ q i. elim (Bool-cases (a == q)) [
          | inl e ↦
              let same : a ≡ q = ground arith in
              subst
                (λ x.
                  l.nb x
                  ≡ (count l.ptracer x leaving
                      + (owns (l.ptracer a) x + count l.ptracer x tracees)
                      + length (l.zombies x))
                    % 2 ^ 64)
                same
                (rw (none_counted, no_zombies)
                  (ground (
                    arith,
                    count_zero l.ptracer a leaving (λ b h. unknown b (omega arith)),
                    count_zero l.ptracer a tracees (λ b h. unknown b (omega arith)),
                  )))
          | inr e ↦ ground (arith, v.counted q, v.not_null)
        ];
      }
