-- ===== src/Tracees/Counts.antt =====
-- How often an address is in a list, and how many of the listed structures have a ptracer.
use abyss.Base.{
  ℕ, suc, ◌+◌, ◌≤◌, ◌<◌, ◌≡◌, ◌≢◌, refl, List, [], ◌∷◌, arith, ◌==◌, if◌then◌else◌, length,
}
use abyss.Tracees.Remove.{list_remove}

-- A function with another value at one place.
abbrev pub put {ℓ} : {A : Type ℓ} → (ℕ → A) → ℕ → A → ℕ → A
put f a v b = if b == a then v else f b

unfoldable pub mult : ℕ → List ℕ → ℕ
mult a [] = 0
mult a (b ∷ bs) = (if b == a then 1 else 0) + mult a bs

pub mult-nil : (a : ℕ) → mult a [] ≡ 0
unfolding mult
mult-nil a = refl

pub mult-head : (a : ℕ) (xs : List ℕ) → mult a (a ∷ xs) ≡ suc (mult a xs)
unfolding mult
mult-head a xs = ground arith

pub mult-tail : (a b : ℕ) (xs : List ℕ) → a ≢ b → mult a (b ∷ xs) ≡ mult a xs
unfolding mult
mult-tail a b xs h = ground arith

abbrev pub owns : (ptracer p : ℕ) → ℕ
owns ptracer p = if ptracer == p then 1 else 0

unfoldable pub count : (ptracer : ℕ → ℕ) → ℕ → List ℕ → ℕ
count ptracer p [] = 0
count ptracer p (a ∷ xs) = owns (ptracer a) p + count ptracer p xs

pub count-put_out :
    (ptracer : ℕ → ℕ) (a q p : ℕ) (xs : List ℕ)
    → mult a xs ≡ 0
    → count (put ptracer a q) p xs ≡ count ptracer p xs
unfolding mult count
count-put_out ptracer a q p [] h = refl
count-put_out ptracer a q p (b ∷ xs) h = ground (arith, count-put_out ptracer a q p xs)

pub count-put_once :
    (ptracer : ℕ → ℕ) (a q p : ℕ) (xs : List ℕ)
    → mult a xs ≡ 1
    → count (put ptracer a q) p xs + owns (ptracer a) p ≡ count ptracer p xs + owns q p
unfolding mult count
count-put_once ptracer a q p [] h = cc
count-put_once ptracer a q p (b ∷ xs) h =
    ground (arith, count-put_once ptracer a q p xs, count-put_out ptracer a q p xs)

-- No structure has a ptracer that none of them names.
pub count_zero :
    (ptracer : ℕ → ℕ) (p : ℕ) (xs : List ℕ)
    → ((a : ℕ) → 0 < mult a xs → ptracer a ≢ p)
    → count ptracer p xs ≡ 0
unfolding mult count
count_zero ptracer p [] h = refl
count_zero ptracer p (b ∷ xs) h =
    ground (arith, h b, count_zero ptracer p xs (λ a i. h a (ground arith)))

pub mult-list_remove_self : (a : ℕ) (xs : List ℕ) → mult a xs ≤ 1 → mult a (list_remove a xs) ≡ 0
unfolding mult list_remove
mult-list_remove_self a [] h = refl
mult-list_remove_self a (b ∷ xs) h = ground (arith, mult-list_remove_self a xs)

pub mult-list_remove_other : (a b : ℕ) (xs : List ℕ) → a ≢ b → mult a (list_remove b xs) ≡ mult a xs
unfolding mult list_remove
mult-list_remove_other a b [] h = refl
mult-list_remove_other a b (c ∷ xs) h = ground (arith, mult-list_remove_other a b xs)

pub list_remove_out : (a : ℕ) (xs : List ℕ) → mult a xs ≡ 0 → list_remove a xs ≡ xs
unfolding mult list_remove
list_remove_out a [] h = refl
list_remove_out a (b ∷ xs) h = ground (arith, list_remove_out a xs)

pub count-list_remove :
    (ptracer : ℕ → ℕ) (a p : ℕ) (xs : List ℕ)
    → 0 < mult a xs
    → count ptracer p (list_remove a xs) + owns (ptracer a) p ≡ count ptracer p xs
unfolding mult count list_remove
count-list_remove ptracer a p [] h = absurd (omega arith)
count-list_remove ptracer a p (b ∷ xs) h = ground (arith, count-list_remove ptracer a p xs)

pub length-list_remove :
    (a : ℕ) (xs : List ℕ) → 0 < mult a xs → suc (length (list_remove a xs)) ≡ length xs
unfolding mult list_remove
length-list_remove a [] h = absurd (omega arith)
length-list_remove a (b ∷ xs) h = ground (arith, length-list_remove a xs)
