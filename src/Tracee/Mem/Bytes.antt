-- ===== src/Tracee/Mem/Bytes.antt =====
-- Bytes in memory, and bytes written over others.
use native.Mathlib.Nat.{add-zero, zero-add, suc-add}
use abyss.Base.{
  ℕ, zero, suc, ◌+◌, ◌-◌, ◌*◌, ◌<◌, ◌≤◌, ◌≡◌, refl, sym, ap, ◌∙◌, false, List, [], ◌∷◌, ◌++◌, arith,
  ltb, if◌then◌else◌, length, take, drop, get_or, length-append, length-drop,
}
use abyss.Tracee.Process.{word_size, bytes, splice, within}

pub length-bytes : (f : ℕ → ℕ) (a n : ℕ) → length (bytes f a n) ≡ n
unfolding bytes
length-bytes f a zero = refl
length-bytes f a (suc n) = omega (arith, length-bytes f (a + 1) n)

-- The bytes from an address on, up to `k` further ones.
pub bytes-append : (f : ℕ → ℕ) (a n k : ℕ) → bytes f a (n + k) ≡ bytes f a n ++ bytes f (a + n) k
unfolding bytes
bytes-append f a zero k = rw (zero-add, add-zero) refl
bytes-append f a (suc n) k =
    let e : a + 1 + n ≡ a + suc n = omega arith in
    rw (suc-add, ← e) (ap (◌∷◌ (f a)) (bytes-append f (a + 1) n k))

pub take-bytes : (f : ℕ → ℕ) (a n k : ℕ) → n ≤ k → take n (bytes f a k) ≡ bytes f a n
unfolding bytes
take-bytes f a zero k h = refl
take-bytes f a (suc n) zero h = absurd (omega arith)
take-bytes f a (suc n) (suc k) h = ap (◌∷◌ (f a)) (take-bytes f (a + 1) n k (omega arith))

pub get_or-bytes : (f : ℕ → ℕ) (a n i : ℕ) → i < n → get_or (bytes f a n) i 0 ≡ f (a + i)
unfolding bytes
get_or-bytes f a zero i h = absurd (omega arith)
get_or-bytes f a (suc n) zero h = ap f (omega arith)
get_or-bytes f a (suc n) (suc i) h = get_or-bytes f (a + 1) n i (omega arith) ∙ ap f (omega arith)

pub take-append-drop : (n : ℕ) (w : List ℕ) → take n w ++ drop n w ≡ w
take-append-drop zero w = refl
take-append-drop (suc n) [] = refl
take-append-drop (suc n) (c ∷ w) = ap (◌∷◌ c) (take-append-drop n w)

get_or-append :
    (u v : List ℕ) (i : ℕ)
    → get_or (u ++ v) i 0 ≡ (if ltb i (length u) then get_or u i 0 else get_or v (i - length u) 0)
get_or-append [] v i = ground arith
get_or-append (c ∷ u) v zero = ground arith
get_or-append (c ∷ u) v (suc i) = ground (arith, get_or-append u v i)

-- Two writes one behind the other.
pub splice-append :
    (f : ℕ → ℕ) (a b : ℕ) (u v : List ℕ) (j : ℕ)
    → a + length u ≡ b
    → splice (splice f a u) b v j ≡ splice f a (u ++ v) j
unfolding splice
splice-append f a b u v j h = ground (arith, get_or-append u v (j - a), length-append u v)

pub get_or-take : (w : List ℕ) (n i : ℕ) → i < n → get_or (take n w) i 0 ≡ get_or w i 0
get_or-take w zero i h = absurd (omega arith)
get_or-take [] (suc n) i h = refl
get_or-take (c ∷ w) (suc n) zero h = refl
get_or-take (c ∷ w) (suc n) (suc i) h = get_or-take w n i (omega arith)

pub get_or-drop : (w : List ℕ) (n i : ℕ) → get_or (drop n w) i 0 ≡ get_or w (n + i) 0
get_or-drop w zero i = rw zero-add refl
get_or-drop [] (suc n) i = refl
get_or-drop (c ∷ w) (suc n) i = rw suc-add (get_or-drop w n i)

-- Bytes written over equal bytes.
pub splice-pointwise :
    (f g : ℕ → ℕ) (a : ℕ) (w : List ℕ) (j : ℕ)
    → (within a (length w) j ≡ false → f j ≡ g j)
    → splice f a w j ≡ splice g a w j
unfolding splice
splice-pointwise f g a w j h = ground arith

get_or-drop-bytes :
    (f : ℕ → ℕ) (a n k j : ℕ)
    → a + k ≤ j
    → j < a + n
    → get_or (drop k (bytes f a n)) (j - a - k) 0 ≡ f j
get_or-drop-bytes f a n k j h g =
    get_or-drop (bytes f a n) k (j - a - k)
    ∙ get_or-bytes f a n (k + (j - a - k)) (omega arith)
    ∙ ap f (omega arith)

-- The last bytes of a word put back as they were.
pub splice-kept :
    (f : ℕ → ℕ) (a n : ℕ) (w : List ℕ) (j : ℕ)
    → length w ≤ n
    → splice f a (w ++ drop (length w) (bytes f a n)) j ≡ splice f a w j
unfolding splice
splice-kept f a n w j h = ground (
  arith,
  get_or-append w (drop (length w) (bytes f a n)) (j - a),
  get_or-drop-bytes f a n (length w) j,
  length-append w (drop (length w) (bytes f a n)),
  length-drop (length w) (bytes f a n),
  length-bytes f a n,
)

take_add : (k n : ℕ) (w : List ℕ) → take (k + n) w ≡ take k w ++ take n (drop k w)
take_add zero n w = rw zero-add refl
take_add (suc k) zero [] = rw suc-add refl
take_add (suc k) (suc n) [] = rw suc-add refl
take_add (suc k) n (c ∷ w) = rw suc-add (ap (◌∷◌ c) (take_add k n w))

pub take-more :
    (n : ℕ) (w : List ℕ)
    → take (suc n * word_size) w ≡ take word_size w ++ take (n * word_size) (drop word_size w)
take-more n w =
    ap (λ t. take t w) {y = word_size + n * word_size} (omega arith)
    ∙ take_add word_size (n * word_size) w

bytes-pointwise :
    (f g : ℕ → ℕ) (a n : ℕ) → ((j : ℕ) → a ≤ j → j < a + n → f j ≡ g j) → bytes f a n ≡ bytes g a n
unfolding bytes
bytes-pointwise f g a zero h = refl
bytes-pointwise f g a (suc n) h =
    rw (h a (omega arith) (omega arith))
      (ap (◌∷◌ (g a)) (bytes-pointwise f g (a + 1) n (λ j u v. h j (omega arith) (omega arith))))

get_or-head : (c : ℕ) (w : List ℕ) (i : ℕ) → i ≡ 0 → get_or (c ∷ w) i 0 ≡ c
get_or-head c w i h = rw h refl

-- Bytes that have been written over others.
pub bytes-splice :
    (f g : ℕ → ℕ) (a : ℕ) (w : List ℕ) → ((j : ℕ) → f j ≡ splice g a w j) → bytes f a (length w) ≡ w
unfolding bytes splice
bytes-splice f g a [] h = refl
bytes-splice f g a (c ∷ w) h =
    let first : f a ≡ c = ground (arith, h a, get_or-head c w (a - a)) in
    rw first (
      ap (◌∷◌ c) (
        bytes-splice f (splice g a (c ∷ [])) (a + 1) w
          (λ j. h j ∙ sym (splice-append g a (a + 1) (c ∷ []) w j refl))))
