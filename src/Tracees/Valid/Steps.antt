-- ===== src/Tracees/Valid/Steps.antt =====
-- What the writes to the links do to the invariant.

use abyss.Base.{ℕ, ◌+◌, ◌-◌, ◌%◌, ◌^◌, ◌<◌, ◌≡◌, ◌≢◌, false, List, arith}
use abyss.Tracees.Remove.{list_remove}
use abyss.Tracees.Counts.{
  put, mult, owns, count, count-put_out, count-put_once, mult-list_remove_self,
  mult-list_remove_other, list_remove_out, length-list_remove,
}
use abyss.Tracees.Valid.{Links, IsValidAt}

module _ {l : Links} {leaving tracees : List ℕ} {next : ℕ}
    (v : IsValidAt l leaving tracees next) where
  abbrev pub listed : ℕ → ℕ
  listed a = mult a leaving + mult a tracees

  -- A change of one ptracer, from one count to the other.
  pub count-moved :
      (a q p : ℕ)
      → listed a ≡ 1
      → count (put l.ptracer a q) p leaving
          + count (put l.ptracer a q) p tracees
          + owns (l.ptracer a) p
        ≡ count l.ptracer p leaving + count l.ptracer p tracees + owns q p
  count-moved a q p h = ground (
    arith,
    count-put_out l.ptracer a q p leaving,
    count-put_once l.ptracer a q p leaving,
    count-put_out l.ptracer a q p tracees,
    count-put_once l.ptracer a q p tracees,
  )

  abbrev pub attached : ℕ → ℕ → Links
  attached a p = record l {
    ptracer = put l.ptracer a p;
    nb = put l.nb p ((l.nb p + 1) % 2 ^ 64);
    zombified = put l.zombified a false;
  }

  pub attached-IsValidAt :
      (a p : ℕ)
      → listed a ≡ 1
      → l.ptracer a ≡ 0
      → p ≢ 0
      → p < next
      → IsValidAt (attached a p) leaving tracees next
  attached-IsValidAt a p h free not_null below = record {
    start = v.start;
    not_null = v.not_null;
    once = v.once;
    known = v.known;
    linked = λ b i. ground (arith, v.linked b);
    alive = λ b i. ground (arith, v.alive b i);
    zombie_once = v.zombie_once;
    zombie_linked = λ q z i. ground (arith, v.zombie_linked q z i, v.zombie_apart q z i);
    zombie_apart = v.zombie_apart;
    zombie_known = v.zombie_known;
    zombie_dead = v.zombie_dead;
    zombie_marked = λ q z i. ground (arith, v.zombie_marked q z i, v.zombie_apart q z i);
    counted = λ q i. ground (arith, v.counted q i, count-moved a p q h, v.not_null);
  }

  abbrev pub detached : ℕ → Links
  detached a = record l {
    ptracer = put l.ptracer a 0;
    nb = put l.nb (l.ptracer a) (l.nb (l.ptracer a) - 1);
  }

  pub detached-IsValidAt :
      (a : ℕ)
      → listed a ≡ 1
      → l.ptracer a ≢ 0
      → 0 < l.nb (l.ptracer a)
      → IsValidAt (detached a) leaving tracees next
  detached-IsValidAt a h bound counts = record {
    start = v.start;
    not_null = v.not_null;
    once = v.once;
    known = v.known;
    linked = λ b i. ground (arith, v.linked b, v.start);
    alive = λ b i. ground (arith, v.alive b i);
    zombie_once = v.zombie_once;
    zombie_linked = λ q z i. ground (arith, v.zombie_linked q z i, v.zombie_apart q z i);
    zombie_apart = v.zombie_apart;
    zombie_known = v.zombie_known;
    zombie_dead = v.zombie_dead;
    zombie_marked = v.zombie_marked;
    counted = λ q i. ground (arith, v.counted q i, count-moved a 0 q h, v.not_null);
  }

  -- A zombie is detached and taken out of the list that it is in.
  abbrev pub reaped : ℕ → Links
  reaped z = record l {
    ptracer = put l.ptracer z 0;
    nb = put l.nb (l.ptracer z) (l.nb (l.ptracer z) - 1);
    zombies = λ p. list_remove z (l.zombies p);
  }

  reaped_same : (z p : ℕ) → l.ptracer z ≢ p → list_remove z (l.zombies p) ≡ l.zombies p
  reaped_same z p apart = list_remove_out z (l.zombies p) (ground (arith, v.zombie_linked p z))

  mult-reaped :
      (z p y : ℕ) → 0 < mult y (list_remove z (l.zombies p)) → (y ≢ z) × (0 < mult y (l.zombies p))
  mult-reaped z p y h = ground (
    arith,
    mult-list_remove_self z (l.zombies p) (v.zombie_once p z),
    mult-list_remove_other y z (l.zombies p),
  )

  pub reaped-IsValidAt :
      (z : ℕ)
      → 0 < mult z (l.zombies (l.ptracer z))
      → 0 < l.nb (l.ptracer z)
      → IsValidAt (reaped z) leaving tracees next
  reaped-IsValidAt z h counts = record {
    start = v.start;
    not_null = v.not_null;
    once = v.once;
    known = v.known;
    linked = λ b i. ground (arith, v.linked b, v.start);
    alive = λ b i. ground (arith, v.alive b i);
    zombie_once = λ p y. ground (
      arith,
      v.zombie_once p y,
      mult-list_remove_self z (l.zombies p),
      mult-list_remove_other y z (l.zombies p),
    );
    zombie_linked = λ q y i. ground (arith, v.zombie_linked q y, mult-reaped z q y i);
    zombie_apart = λ q y i. ground (arith, v.zombie_apart q y, mult-reaped z q y i);
    zombie_known = λ q y i. ground (arith, v.zombie_known q y, mult-reaped z q y i);
    zombie_dead = λ q y i. ground (arith, v.zombie_dead q y, mult-reaped z q y i);
    zombie_marked = λ q y i. ground (arith, v.zombie_marked q y, mult-reaped z q y i);
    counted = λ q i. ground (
      arith,
      v.counted q i,
      v.zombie_apart (l.ptracer z) z h,
      count-put_out l.ptracer z 0 q leaving,
      count-put_out l.ptracer z 0 q tracees,
      length-list_remove z (l.zombies q),
      reaped_same z q,
    );
  }
