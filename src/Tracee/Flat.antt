-- ===== src/Tracee/Flat.antt =====
-- A process whose memory is a function from addresses to bytes, of which every access succeeds.
use abyss.Base.{ℕ, ◌≡◌, refl, sym, ap, false, Option, some, none, List, length}
use abyss.Tracee.Process.{
  word_size, bytes, splice, within, Transfer, whole, partial, failed, Process,
}

from_some : List ℕ → Option (List ℕ) → List ℕ
from_some d none = d
from_some d (some w) = w

pub some-inj : (u v : List ℕ) → some u ≡ some v → v ≡ u
unfolding from_some
some-inj u v e = sym (ap (from_some u) e)

from_whole : List ℕ → Transfer (List ℕ) → List ℕ
from_whole d (whole w) = w
from_whole d partial = d
from_whole d (failed e) = d

pub whole-inj : (u v : List ℕ) → whole u ≡ whole v → v ≡ u
unfolding from_whole
whole-inj u v e = sym (ap (from_whole u) e)

from_memory : (ℕ → ℕ) → Option (ℕ → ℕ) → ℕ → ℕ
from_memory d none = d
from_memory d (some m) = m

pub written : (m m' : ℕ → ℕ) (j : ℕ) → some m ≡ some m' → m' j ≡ m j
unfolding from_memory
written m m' j e = sym (ap (λ o. from_memory m o j) e)

pub splice_outside :
    (m : ℕ → ℕ) (a : ℕ) (w : List ℕ) (j : ℕ) → within a (length w) j ≡ false → splice m a w j ≡ m j
unfolding splice
splice_outside m a w j h = rw h refl

unfoldable pub flat : Process (ℕ → ℕ)
flat = record {
  byte = λ m. m;
  peek = λ a m. some (bytes m a word_size);
  poke = λ a w m. some (splice m a w);
  vm_readv = λ a n m. whole (bytes m a n);
  vm_writev = λ a w m. (whole tt, splice m a w);
  peek_bytes = λ a m e. some-inj _ _ e;
  poke_bytes = λ a w m h e j. written _ _ j e;
  readv_bytes = λ a n m e. whole-inj _ _ e;
  writev_bytes = λ a w m e j. refl;
  writev_outside = λ a w m j. splice_outside m a w j;
}

-- The same with transfers that move nothing, and fail where they are given an errno.
unfoldable pub not_whole {ℓ} : {A : Type ℓ} → Option ℕ → Transfer A
not_whole none = partial
not_whole (some e) = failed e

pub not_whole-whole {ℓ} : {A : Type ℓ} (o : Option ℕ) (a : A) → not_whole o ≡ whole a → ⊥
unfolding not_whole
not_whole-whole none a e = cc
not_whole-whole (some n) a e = cc

unfoldable pub by_words : Option ℕ → Process (ℕ → ℕ)
unfolding not_whole
by_words o = record {
  byte = λ m. m;
  peek = λ a m. some (bytes m a word_size);
  poke = λ a w m. some (splice m a w);
  vm_readv = λ a n m. not_whole o;
  vm_writev = λ a w m. (not_whole o, m);
  peek_bytes = λ a m e. some-inj _ _ e;
  poke_bytes = λ a w m h e j. written _ _ j e;
  readv_bytes = λ a n m e. absurd (not_whole-whole o _ e);
  writev_bytes = λ a w m e j. absurd (not_whole-whole o _ e);
  writev_outside = λ a w m j h. refl;
}
