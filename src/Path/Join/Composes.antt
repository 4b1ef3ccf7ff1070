-- ===== src/Path/Join/Composes.antt =====
-- `join_paths` on components.
use abyss.Base.{
  ◌+◌, ◌-◌, ◌≡◌, ◌≢◌, refl, sym, ap, ◌∙◌, ◌<◌, Option, none, some, List, [], ◌∷◌, ◌++◌,
  append_assoc, append-nil, length, take, drop, take-last, Option-cases, inl, inr, arith, Result,
  ok, err,
}
use abyss.Path.Str.{Str, path_max, slash, char_at, last_char}
use abyss.Path.Components.{components, components-append, components-slash, components_trailing}
use abyss.Path.Join.{join_path, join_onto, join_paths, checked, join_two}

-- A separator at the end of the first part, or at the start of the second, separates.
components-append_ends :
    (a t : Str)
    → 0 < length a
    → last_char a ≡ slash
    → components (a ++ t) ≡ components a ++ components t
components-append_ends a t h e =
    let front = take (length a - 1) a in
    let cut : a ≡ front ++ (slash ∷ []) = rw e at (take-last a 0 h) in
    rw cut (
      ap components (append_assoc front (slash ∷ []) t)
      ∙ components-append front t
      ∙ ap (λ (l : List Str). l ++ components t) (sym (components_trailing front)))

components-append_starts :
    (a t : Str) → char_at t 0 ≡ slash → components (a ++ t) ≡ components a ++ components t
components-append_starts a [] e = absurd (omega arith)
components-append_starts a (c ∷ t) e =
    rw e (components-append a t ∙ ap (λ l. components a ++ l) (sym (components-slash t)))

components-drop : (t : Str) → char_at t 0 ≡ slash → components (drop 1 t) ≡ components t
components-drop [] e = refl
components-drop (c ∷ t) e = rw e (sym (components-slash t))

components-nil_left : (t : Str) → components t ≡ components [] ++ components t
unfolding components
components-nil_left t = refl

pub join_path-components :
    (result path : Str) {longer : Str}
    → join_path result path ≡ some longer
    → components longer ≡ components result ++ components path
unfolding join_path
join_path-components [] path h = ground (arith, components-nil_left path)
join_path-components (c ∷ s) path h = ground (
  arith,
  components-append (c ∷ s) path,
  components-append_ends (c ∷ s) path,
  components-append_ends (c ∷ s) (drop 1 path),
  components-append_starts (c ∷ s) path,
  components-drop path,
)

-- The components of the arguments that are not NULL, in order.
pub all_components : List (Option Str) → List Str
all_components [] = []
all_components (none ∷ paths) = all_components paths
all_components (some path ∷ paths) = components path ++ all_components paths

join_onto-components :
    (paths : List (Option Str)) (result : Str) {joined : Str}
    → join_onto result paths ≡ (ok tt, joined)
    → components joined ≡ components result ++ all_components paths
unfolding join_onto all_components
join_onto-components [] result h = cc (append-nil (components result))
join_onto-components (none ∷ paths) result h = join_onto-components paths result h
join_onto-components (some path ∷ paths) result h = elim (Option-cases (join_path result path)) [
  | inl full ↦ cc (rw (full, join_onto) at h)
  | inr (longer, fits) ↦
      join_onto-components paths longer (rw (fits, join_onto) at h)
      ∙ rw (join_path-components result path fits) (append_assoc (components result) _ _)
]

-- When `join_paths` succeeds, the components of its result are the components of its arguments,
-- one argument after the other, with those that are NULL left out.
pub join_paths-components :
    (paths : List (Option Str)) {joined : Str}
    → join_paths paths ≡ (ok tt, joined)
    → components joined ≡ all_components paths
unfolding join_paths components
join_paths-components paths h = join_onto-components paths [] h

checked-eq-ok : (r : Result (Unit {0}) × Str) {s : Str} → checked r ≡ ok s → r ≡ (ok tt, s)
checked-eq-ok (ok u, t) h = cc
checked-eq-ok (err e, t) h = cc

pub join_two-components :
    (a b : Str) {joined : Str}
    → join_two a b ≡ ok joined
    → components joined ≡ components a ++ components b
unfolding join_two all_components
join_two-components a b h =
    join_paths-components (some a ∷ some b ∷ []) (checked-eq-ok _ h)
    ∙ rw (append-nil (components b))

join_path-nil : (a : Str) → length a + 1 < path_max → join_path [] a ≡ some a
unfolding join_path
join_path-nil a h = ground arith

join_path-ne-none : (a b : Str) → length a + length b + 2 < path_max → join_path a b ≢ none
unfolding join_path
join_path-ne-none a b h = ground arith

join_path-root :
    (a b : Str) {joined : Str}
    → join_path a b ≡ some joined
    → char_at a 0 ≡ slash
    → char_at joined 0 ≡ slash
unfolding join_path
join_path-root [] b h e = absurd (omega arith)
join_path-root (c ∷ a) b h e = ground arith

join_path-eq_nil : (a : Str) {joined : Str} → join_path [] a ≡ some joined → joined ≡ a
unfolding join_path
join_path-eq_nil a h = ground arith

-- What is joined to an absolute path is absolute.
pub join_two-root :
    (a b : Str) {joined : Str}
    → join_two a b ≡ ok joined
    → char_at a 0 ≡ slash
    → char_at joined 0 ≡ slash
unfolding join_two join_onto
join_two-root a b {joined} h e = elim (Option-cases (join_path [] a)) [
  | inl full ↦ cc (rw (full, join_onto) at h)
  | inr (a', first) ↦ elim (Option-cases (join_path a' b)) [
    | inl full ↦ cc (rw (first, join_onto, full, join_onto) at h)
    | inr (longer, second) ↦
        let same : longer ≡ joined = cc (rw (first, join_onto, second, join_onto) at h) in
        rw (← same) (join_path-root a' b second (rw (join_path-eq_nil a first) e))
  ]
]

-- Two paths that fit in PATH_MAX together with a separator and the terminator are joined.
pub join_two_total :
    (a b : Str) → length a + length b + 2 < path_max → (joined : Str) × (join_two a b ≡ ok joined)
unfolding join_two join_onto
join_two_total a b h = elim (Option-cases (join_path a b)) [
  | inl full ↦ absurd (join_path-ne-none a b h full)
  | inr (longer, fits) ↦ (longer, rw (join_path-nil a (omega arith), join_onto, fits, join_onto))
]
