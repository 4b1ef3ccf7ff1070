-- ===== src/Tracee/Strings/Prefix.antt =====
-- Where strings end in memory.
use abyss.Base.{
  ℕ, zero, suc, ◌+◌, ◌<◌, ◌≤◌, ◌≡◌, refl, sym, ap, ◌∙◌, List, [], ◌∷◌, ◌++◌, arith, ltb,
  if◌then◌else◌, length, take, Result, ok, err,
}
use abyss.Tracee.Process.{bytes}
use abyss.Tracee.Mem.Bytes.{length-bytes, bytes-append}
use abyss.Tracee.Strings.{strnlen}

pub strnlen_bound : (w : List ℕ) → strnlen w ≤ length w
unfolding strnlen
strnlen_bound [] = omega arith
strnlen_bound (c ∷ w) = ground (arith, strnlen_bound w)

pub strnlen-append :
    (u v : List ℕ)
    → strnlen (u ++ v) ≡ (if ltb (strnlen u) (length u) then strnlen u else length u + strnlen v)
unfolding strnlen
strnlen-append [] v = ground arith
strnlen-append (c ∷ u) v = ground (arith, strnlen-append u v)

pub take-append-left : (n : ℕ) (u v : List ℕ) → n ≤ length u → take n (u ++ v) ≡ take n u
take-append-left zero u v h = refl
take-append-left (suc n) [] v h = absurd (omega arith)
take-append-left (suc n) (c ∷ u) v h = ap (◌∷◌ c) (take-append-left n u v (omega arith))

pub take-append-right :
    (u v : List ℕ) (n k : ℕ) → k ≡ length u + n → take k (u ++ v) ≡ u ++ take n v
take-append-right [] v n k h = ap (λ t. take t v) (omega arith)
take-append-right (c ∷ u) v n zero h = absurd (omega arith)
take-append-right (c ∷ u) v n (suc k) h = ap (◌∷◌ c) (take-append-right u v n k (omega arith))

pub take-take : (n : ℕ) (w : List ℕ) → take n (take n w) ≡ take n w
take-take zero w = refl
take-take (suc n) [] = refl
take-take (suc n) (c ∷ w) = ap (◌∷◌ c) (take-take n w)

-- Unless it fails, a step that starts `k` bytes behind the start of the string answers where the
-- bytes at `a` end, of which there are `n`, and has stored them up to there.
abbrev pub Reads : (ℕ → ℕ) → ℕ → ℕ → ℕ → Result ℕ × List ℕ → Type 0
Reads f k a n (err e, out) = Unit
Reads f k a n (ok size, out) =
    let s = strnlen (bytes f a n) in
    (size ≡ k + suc s) × (take (suc s) out ≡ take (suc s) (bytes f a n))

-- The string ends in the first `n` bytes.
pub Reads-found :
    (f : ℕ → ℕ) (k a n q t : ℕ) (w : List ℕ)
    → n + q ≡ t
    → w ≡ bytes f a n
    → strnlen w < n
    → Reads f k a t (ok (k + strnlen w + 1), w)
Reads-found f k a n q t w sum is h =
    let len : length w ≡ n = ap length is ∙ length-bytes f a n in
    let e : bytes f a t ≡ w ++ bytes f (a + n) q =
      ap (bytes f a) (sym sum) ∙ bytes-append f a n q ∙ ap (λ t. t ++ bytes f (a + n) q) (sym is) in
    let s : strnlen (w ++ bytes f (a + n) q) ≡ strnlen w =
      ground (arith, strnlen-append w (bytes f (a + n) q)) in
    rw (e, s)
      (omega arith, sym (take-append-left (suc (strnlen w)) w (bytes f (a + n) q) (omega arith)))

-- It ends behind them.
pub Reads-then :
    (f : ℕ → ℕ) (k a b k' n q t : ℕ) (w : List ℕ) (r : Result ℕ × List ℕ)
    → a + n ≡ b
    → k + n ≡ k'
    → n + q ≡ t
    → w ≡ bytes f a n
    → n ≤ strnlen w
    → Reads f k' b q r
    → Reads f k a t (r.0, w ++ r.1)
Reads-then f k a b k' n q t w (err e, out) at_ size sum is h next = tt
Reads-then f k a b k' n q t w (ok s, out) at_ size sum is h next =
    let len : length w ≡ n = ap length is ∙ length-bytes f a n in
    let e : bytes f a t ≡ w ++ bytes f b q =
      ap (bytes f a) (sym sum) ∙ bytes-append f a n q ∙ rw (← is, at_) refl in
    let ends : strnlen (w ++ bytes f b q) ≡ n + strnlen (bytes f b q) =
      ground (arith, strnlen-append w (bytes f b q)) in
    let l : suc (n + strnlen (bytes f b q)) ≡ length w + suc (strnlen (bytes f b q)) =
      omega arith in
    rw (e, ends)
      (
        omega (arith, next.0),
        take-append-right w out _ _ l
            ∙ ap (λ o. w ++ o) next.1
            ∙ sym (take-append-right w (bytes f b q) _ _ l),
      )

-- A chunk does not pass the end of the buffer.
pub chunk_in_range : (next left : ℕ) → (if ltb next left then next else left) ≤ left
chunk_in_range next left = ground arith
