-- ===== src/Path/Prefix/Rebases.antt =====
-- `substitute_path_prefix` on canonical paths.
use abyss.Base.{
  ℕ, ◌+◌, ◌-◌, ◌<◌, ◌≤◌, ◌≡◌, ◌≢◌, ◌⊎◌, inl, inr, refl, sym, ap, ◌∙◌, List, [], ◌∷◌, ◌++◌,
  append_assoc, append-nil, arith, length, length-append, length_pos, take-length, drop-append_left,
}
use abyss.Path.Str.{Str, path_max, slash}
use abyss.Path.Compare.Equivalent.{AllNames, body, path_of}
use abyss.Path.Prefix.{sub_size, substitute_path_prefix}

body-append : (a c : List Str) → body (a ++ c) ≡ body a ++ body c
unfolding body
body-append [] c = refl
body-append (x ∷ a) c =
    ap (◌∷◌ slash) (rw (body-append a c) (sym (append_assoc x (body a) (body c))))

length-body : (x : Str) (a : List Str) → AllNames (x ∷ a) → 1 < length (body (x ∷ a))
unfolding body
length-body x a h = omega (arith, length_pos x h.0.0, length-append x (body a))

length-path_of : (a : List Str) → 0 < length (path_of a)
unfolding path_of
length-path_of [] = omega arith
length-path_of (x ∷ a) = omega arith

sub_size_lem : (a b : ℕ) → b ≤ a → a < path_max → sub_size a b ≡ a - b
sub_size_lem a b h k = omega arith

to_root :
    (s t new : Str)
    → t ≢ []
    → length s + length t < path_max
    → substitute_path_prefix (s ++ t) (length s) new 1 ≡ (length t, t)
unfolding substitute_path_prefix
to_root s t new ne h = ground (
  arith,
  length-append s t,
  length_pos t ne,
  drop-append_left s t,
  take-length t,
  sub_size_lem (length (s ++ t)) (length s),
)

to_root_self :
    (s new : Str)
    → length s < path_max
    → substitute_path_prefix s (length s) new 1 ≡ (1, slash ∷ [])
unfolding substitute_path_prefix
to_root_self s new h = ground (arith, sub_size_lem (length s) (length s))

from_root :
    (t new : Str)
    → 1 < length t
    → 1 < length new
    → length t + length new < path_max
    → substitute_path_prefix t 1 new (length new) ≡ (length (new ++ t), new ++ t)
unfolding substitute_path_prefix
from_root t new a b h = ground (arith, take-length new, length-append new t)

from_root_self :
    (new : Str)
    → 1 < length new
    → length new + 1 < path_max
    → substitute_path_prefix (slash ∷ []) 1 new (length new) ≡ (length new, new)
unfolding substitute_path_prefix
from_root_self new b h = ground (arith, take-length new)

between :
    (s t new : Str)
    → 1 < length s
    → 1 < length new
    → length s + length t + length new < path_max
    → substitute_path_prefix (s ++ t) (length s) new (length new) ≡ (length (new ++ t), new ++ t)
unfolding substitute_path_prefix
between s t new a b h = ground (
  arith,
  length-append s t,
  length-append new t,
  take-length new,
  drop-append_left s t,
  sub_size_lem (length (s ++ t)) (length s),
)

abbrev measured : Str → ℕ × Str
measured s = (length s, s)

-- A path below the directory `a`, moved below the directory `b`: the components below stay. At most
-- one of the two directories is the root, and the paths fit in PATH_MAX together.
pub substitute_path_prefix-path_of :
    (a b c : List Str)
    → AllNames a
    → AllNames b
    → AllNames c
    → (a ≢ []) ⊎ (b ≢ [])
    → length (path_of (a ++ c)) + length (path_of b) < path_max
    → substitute_path_prefix
        (path_of (a ++ c))
        (length (path_of a))
        (path_of b)
        (length (path_of b))
      ≡ (length (path_of (b ++ c)), path_of (b ++ c))
unfolding path_of
substitute_path_prefix-path_of [] [] c na nb nc (inl ne) fits = absurd (ne refl)
substitute_path_prefix-path_of [] [] c na nb nc (inr ne) fits = absurd (ne refl)
substitute_path_prefix-path_of (x ∷ a) [] [] na nb nc d fits = rw append-nil (
    to_root_self (body (x ∷ a)) (slash ∷ [])
      (omega (arith, ap (λ l. length (body l)) (append-nil (x ∷ a)))))
substitute_path_prefix-path_of (x ∷ a) [] (z ∷ c) na nb nc d fits =
    let whole = body-append (x ∷ a) (z ∷ c) in
    rw whole (
      to_root (body (x ∷ a)) (body (z ∷ c)) (slash ∷ []) (unfold body in λ e. cc)
        (omega (arith, ap length whole, length-append (body (x ∷ a)) (body (z ∷ c)))))
substitute_path_prefix-path_of [] (y ∷ b) [] na nb nc d fits =
    rw append-nil (from_root_self (body (y ∷ b)) (length-body y b nb) (omega arith))
substitute_path_prefix-path_of [] (y ∷ b) (z ∷ c) na nb nc d fits =
    from_root (body (z ∷ c)) (body (y ∷ b)) (length-body z c nc) (length-body y b nb) fits
    ∙ ap measured (sym (body-append (y ∷ b) (z ∷ c)))
substitute_path_prefix-path_of (x ∷ a) (y ∷ b) c na nb nc d fits =
    let whole = body-append (x ∷ a) c in
    rw whole (
      between (body (x ∷ a)) (body c) (body (y ∷ b)) (length-body x a na) (length-body y b nb)
        (omega (arith, ap length whole, length-append (body (x ∷ a)) (body c))))
    ∙ ap measured (sym (body-append (y ∷ b) c))
