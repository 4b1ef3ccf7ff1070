-- ===== src/Path/Canon/Pop.antt =====
-- `pop_component` on components.
use abyss.Base.{
  ℕ, zero, suc, ◌-◌, ◌<◌, ◌≤◌, ◌≡◌, ◌≢◌, ◌⊎◌, inl, inr, refl, sym, ap, ◌∙◌, true, false, ◌&&◌, [],
  ◌∷◌, ◌++◌, append_assoc, append-nil, arith, ◌==◌, ==_iff, ltb, Bool-cases, length, take,
  drop_last, take-suc, take-length, drop_last-concat,
}
use abyss.Path.Str.{Str, slash, char_at}
use abyss.Path.Components.{
  components, components-append, components-concat, components-nil, components-slash,
  components_trailing, components-NoSlash, NoSlash,
}
use abyss.Path.Canon.{skip_separators, skip_name, pop_component}

-- The byte at the cut moves to the text behind it.
take-suc_append :
    (o : ℕ) (p t : Str) → o < length p → take (suc o) p ++ t ≡ take o p ++ (char_at p o ∷ t)
take-suc_append o p t h = rw (take-suc o p 0 h) (append_assoc (take o p) (char_at p o ∷ []) t)

components_root : (p : Str) → char_at p 0 ≡ slash → components (take 1 p) ≡ []
unfolding components
components_root [] e = refl
components_root (c ∷ p) e = rw e

drop_last_root :
    (p t : Str) → char_at p 0 ≡ slash → NoSlash t → drop_last (components (take 1 p ++ t)) ≡ []
drop_last_root [] t e h = absurd (omega arith)
drop_last_root (d ∷ p) [] e h = rw (e, components-append [] [], components-nil)
drop_last_root (d ∷ p) (c ∷ t) e h =
    rw (e, components-append [] (c ∷ t), components-NoSlash (c ∷ t) h, components-nil)

skip_name_sep :
    (p : Str) (n : ℕ) → (char_at p (suc n) == slash) ≡ true → skip_name p (suc n) ≡ suc n
unfolding skip_name
skip_name_sep p n h = ground arith

skip_name_more :
    (p : Str) (n : ℕ)
    → (char_at p (suc n) == slash) ≡ false
    → 0 < n
    → skip_name p (suc n) ≡ skip_name p n
unfolding skip_name
skip_name_more p n h pos = ground arith

skip_name-one : (p : Str) → skip_name p 1 ≡ 1
unfolding skip_name
skip_name-one p = refl

skip_name_stop :
    (m : ℕ) (p t : Str)
    → suc m < length p
    → NoSlash t
    → t ≢ []
    → (char_at p (suc m) == slash) ≡ true
    → drop_last (components (take (suc (suc m)) p ++ t)) ≡ components (take (skip_name p (suc m)) p)
skip_name_stop m p t h n ne sep =
    rw
      (
        skip_name_sep p m sep,
        take-suc_append (suc m) p t h,
        (==_iff _ _).0 sep,
        components-concat (take (suc m) p) t n ne,
      )
      (drop_last-concat (components (take (suc m) p)) t)

-- The name at the end of `take (suc o) p ++ t` is the component that is dropped.
skip_name-components :
    (o : ℕ) (p t : Str)
    → char_at p 0 ≡ slash
    → o < length p
    → 0 < o
    → NoSlash t
    → (t ≢ []) ⊎ ((char_at p o == slash) ≡ false)
    → drop_last (components (take (suc o) p ++ t)) ≡ components (take (skip_name p o) p)
skip_name-components zero p t e h pos n d = absurd (omega arith)
skip_name-components (suc zero) p t e h pos n d = elim (Bool-cases (char_at p 1 == slash)) [
  | inl sep ↦ skip_name_stop zero p t h n (ground arith) sep
  | inr name ↦
      rw (skip_name-one p, take-suc_append 1 p t h, components_root p e)
        (drop_last_root p (char_at p 1 ∷ t) e (name, n))
]
skip_name-components (suc (suc m)) p t e h pos n d =
    elim (Bool-cases (char_at p (suc (suc m)) == slash)) [
      | inl sep ↦ skip_name_stop (suc m) p t h n (ground arith) sep
      | inr name ↦
          rw (skip_name_more p (suc m) name (omega arith), take-suc_append (suc (suc m)) p t h)
            (skip_name-components (suc m) p (char_at p (suc (suc m)) ∷ t) e (omega arith)
              (omega arith) (name, n) (inl (λ q. cc)))
    ]

skip_separators-components :
    (o : ℕ) (p : Str)
    → o < length p
    → components (take (suc (skip_separators p o)) p) ≡ components (take (suc o) p)
unfolding skip_separators
skip_separators-components zero p h = refl
skip_separators-components (suc n) p h =
    elim (Bool-cases (ltb 1 (suc n) && char_at p (suc n) == slash)) [
      | inl sep ↦
          rw
            (
              sep,
              take-suc (suc n) p 0 h,
              (==_iff (char_at p (suc n)) slash).0 (ground arith),
              components_trailing (take (suc n) p),
            )
            (skip_separators-components n p (omega arith))
      | inr name ↦ rw name
    ]

-- Where the first loop stops.
skip_separators_bounds :
    (o : ℕ) (p : Str)
    → 0 < o
    → (0 < skip_separators p o)
      × (skip_separators p o ≤ o)
      × ((skip_separators p o ≡ 1) ⊎ ((char_at p (skip_separators p o) == slash) ≡ false))
unfolding skip_separators
skip_separators_bounds zero p h = absurd (omega arith)
skip_separators_bounds (suc n) p h = ground (arith, skip_separators_bounds n p)

skip_name_cut :
    (k : ℕ) (p : Str)
    → char_at p 0 ≡ slash
    → k < length p
    → 0 < k
    → (k ≡ 1) ⊎ ((char_at p k == slash) ≡ false)
    → drop_last (components (take (suc k) p)) ≡ components (take (skip_name p k) p)
skip_name_cut k p e h pos (inr name) =
    rw append-nil at (skip_name-components k p [] e h pos tt (inr name))
skip_name_cut k p e h pos (inl one) = elim (Bool-cases (char_at p 1 == slash)) [
  | inl sep ↦ rw (
    one,
    skip_name-one p,
    take-suc 1 p 0 (omega arith),
    (==_iff _ _).0 sep,
    components_trailing (take 1 p),
    components_root p e,
  )
  | inr name ↦
      rw one
        (rw append-nil at (skip_name-components 1 p [] e (omega arith) (omega arith) tt (inr name)))
]

-- `pop_component` drops the last component of an absolute path, if it has one.
pub pop_component-components :
    (p : Str) → char_at p 0 ≡ slash → components (pop_component p) ≡ drop_last (components p)
unfolding pop_component
pop_component-components [] e = absurd (omega arith)
pop_component-components (c ∷ []) e = rw (e, components-slash [], components-nil)
pop_component-components (c ∷ d ∷ p) e =
    let s : Str = c ∷ d ∷ p in
    let o : ℕ = length s - 1 in
    let (pos, le, stop) = skip_separators_bounds o s (omega arith) in
    let whole : components (take (suc (skip_separators s o)) s) ≡ components s =
      skip_separators-components o s (omega arith)
      ∙ ap (λ n. components (take n s)) {x = suc o} {y = length s} (omega arith)
      ∙ ap components (take-length s) in
    let cut = skip_name_cut (skip_separators s o) s e (omega arith) pos stop in
    let open' : (o == 0) ≡ false = ground arith in rw open' (sym cut ∙ ap drop_last whole)

skip_name_pos : (o : ℕ) (p : Str) → 0 < o → 0 < skip_name p o
unfolding skip_name
skip_name_pos zero p h = h
skip_name_pos (suc n) p h = ground (arith, skip_name_pos n p)

take-root : (k : ℕ) (p : Str) → 0 < k → char_at p 0 ≡ slash → char_at (take k p) 0 ≡ slash
take-root zero p h e = absurd (omega arith)
take-root (suc k) [] h e = e
take-root (suc k) (c ∷ p) h e = e

-- `pop_component` leaves an absolute path absolute.
pub pop_component-root : (p : Str) → char_at p 0 ≡ slash → char_at (pop_component p) 0 ≡ slash
unfolding pop_component
pop_component-root p e = elim (Bool-cases (length p - 1 == 0)) [
  | inl root ↦ rw root e
  | inr more ↦
      let (pos, _, _) = skip_separators_bounds (length p - 1) p (ground arith) in
      rw more (take-root _ p (skip_name_pos (skip_separators p (length p - 1)) p pos) e)
]
