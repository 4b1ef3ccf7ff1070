-- ===== src/Path/Canon/Next.antt =====
-- `next_component` on components, and the length of what it leaves.
use mathlib.Core.Path.{subst}
use abyss.Base.{
  ℕ, ◌+◌, ◌<◌, ◌≤◌, ◌≡◌, ◌≢◌, ◌⊎◌, inl, inr, refl, sym, ap, ◌∙◌, Bool, true, false, List, [], ◌∷◌,
  ◌++◌, append-nil, arith, ◌==◌, ==_iff, leb, Bool-cases, length, length_pos, length-append, Result,
  ok, err,
}
use abyss.Path.Str.{
  Str, name_max, slash, char_at, Finality, not_final, final_normal, final_slash, final_dot,
}
use abyss.Path.Components.{
  components, components-append, components-slash, components-NoSlash, components-nil, NoSlash,
  flush,
}
use abyss.Path.Canon.{skip_slashes, name_of, after_name, finality_of, next_component}

skip_slashes-components : (s : Str) → components (skip_slashes s) ≡ components s
unfolding skip_slashes
skip_slashes-components [] = refl
skip_slashes-components (c ∷ s) = elim (Bool-cases (c == slash)) [
  | inl sep ↦
      rw (sep, (==_iff c slash).0 sep) (skip_slashes-components s ∙ sym (components-slash s))
  | inr name ↦ rw name
]

skip_slashes-length : (s : Str) → length (skip_slashes s) ≤ length s
unfolding skip_slashes
skip_slashes-length [] = omega arith
skip_slashes-length (c ∷ s) = ground (arith, skip_slashes-length s)

-- Behind the separators stands a name or the end.
skip_slashes_start : (s : Str) → (char_at (skip_slashes s) 0 == slash) ≡ false
unfolding skip_slashes
skip_slashes_start [] = refl
skip_slashes_start (c ∷ s) = ground (arith, skip_slashes_start s)

name_of-NoSlash : (s : Str) → NoSlash (name_of s)
unfolding name_of
name_of-NoSlash [] = tt
name_of-NoSlash (c ∷ s) = elim (Bool-cases (c == slash)) [
  | inl sep ↦ rw sep tt
  | inr name ↦ rw name (name, name_of-NoSlash s)
]

name_of-after_name : (s : Str) → name_of s ++ after_name s ≡ s
unfolding name_of after_name
name_of-after_name [] = refl
name_of-after_name (c ∷ s) = ground (arith, name_of-after_name s)

after_name_start : (s : Str) → (after_name s ≡ []) ⊎ ((t : Str) × (after_name s ≡ slash ∷ t))
unfolding after_name
after_name_start [] = inl refl
after_name_start (c ∷ s) = elim (Bool-cases (c == slash)) [
  | inl sep ↦ rw (sep, (==_iff c slash).0 sep) (inr (s, refl))
  | inr name ↦ rw name (after_name_start s)
]

name_of-components : (s : Str) → components s ≡ flush (name_of s) ++ components (after_name s)
name_of-components s =
    let named = components-NoSlash (name_of s) (name_of-NoSlash s) in
    ap components (sym (name_of-after_name s)) ∙ elim (after_name_start s) [
      | inl end ↦ rw (end, append-nil (name_of s), named, components-nil) (sym (append-nil _))
      | inr (t, more) ↦ rw (more, components-append (name_of s) t, named, components-slash t)
    ]

-- A name is read, unless the cursor is at the end.
name_of-ne-nil : (s : Str) → (char_at s 0 == slash) ≡ false → s ≢ [] → name_of s ≢ []
unfolding name_of
name_of-ne-nil [] h ne = absurd (ne refl)
name_of-ne-nil (c ∷ s) h ne = rw h (λ e. cc)

name_of-length : (s : Str) → length (name_of s) + length (after_name s) ≡ length s
name_of-length s = sym (length-append (name_of s) (after_name s)) ∙ ap length (name_of-after_name s)

-- What a call leaves: nothing behind a final component, and a shorter cursor behind another.
abbrev pub Leaves : Str → Finality → Str → Str → Type 0
Leaves cursor not_final component rest = (length rest < length cursor) × (components rest ≢ [])
Leaves cursor final_normal component rest = rest ≡ []
Leaves cursor final_slash component rest = rest ≡ []
Leaves cursor final_dot component rest = ⊥

finality_of-Leaves :
    (want_dir : Bool) (cursor component rest : Str)
    → ((c : ℕ) (s : Str) → rest ≡ c ∷ s → (length rest < length cursor) × (components rest ≢ []))
    → Leaves cursor (finality_of want_dir rest) component rest
unfolding finality_of
finality_of-Leaves true cursor component [] h = refl
finality_of-Leaves false cursor component [] h = refl
finality_of-Leaves want_dir cursor component (c ∷ s) h = h c s refl

-- Where a name starts there is a component.
components-ne-nil : (s : Str) → (char_at s 0 == slash) ≡ false → s ≢ [] → components s ≢ []
components-ne-nil s h ne e =
    let named = name_of-ne-nil s h ne in
    flush-ne-nil (name_of s) (components (after_name s)) named (sym (name_of-components s) ∙ e)
  where
    flush-ne-nil : (n : Str) (l : List Str) → n ≢ [] → flush n ++ l ≢ []
    flush-ne-nil [] l m e = m refl
    flush-ne-nil (c ∷ n) l m e = cc

after_shorter :
    (cursor : Str) {c : ℕ} {s : Str}
    → skip_slashes (after_name (skip_slashes cursor)) ≡ c ∷ s
    → (length (skip_slashes (after_name (skip_slashes cursor))) < length cursor)
      × (components (skip_slashes (after_name (skip_slashes cursor))) ≢ [])
unfolding skip_slashes after_name
after_shorter cursor e =
    let start = skip_slashes cursor in
    let ne : start ≢ [] = λ q. cc (rw q at e) in
    let named = name_of-ne-nil start (skip_slashes_start cursor) ne in
    (
      omega (
        arith,
        length_pos (name_of start) named,
        name_of-length start,
        skip_slashes-length cursor,
        skip_slashes-length (after_name start),
      ),
      components-ne-nil (skip_slashes (after_name start)) (skip_slashes_start (after_name start))
          (λ q. cc),
    )

pub record IsNext (cursor : Str) (f : Finality) (component rest : Str) : Type 0 where
  pub no_slash : NoSlash component
  pub splits : components cursor ≡ flush component ++ components rest
  pub leaves : Leaves cursor f component rest

abbrev NextResult : Str → Result (Finality × Str × Str) → Type 0
NextResult cursor (ok t) = IsNext cursor t.0 t.1 t.2
NextResult cursor (err e) = Unit

next_component-NextResult : (cursor : Str) → NextResult cursor (next_component cursor)
unfolding next_component
next_component-NextResult cursor =
    let start = skip_slashes cursor in
    let rest = after_name start in
    elim (Bool-cases (leb name_max (length (name_of start)))) [
      | inl long ↦ rw long tt
      | inr fits ↦ rw fits (record {
        no_slash = name_of-NoSlash start;
        splits =
            sym (skip_slashes-components cursor)
            ∙ name_of-components start
            ∙ ap (λ (l : List Str). flush (name_of start) ++ l)
                (sym (skip_slashes-components rest));
        leaves =
            finality_of-Leaves (char_at rest 0 == slash) cursor (name_of start) (skip_slashes rest)
              (λ c s e. after_shorter cursor e);
      })
    ]

-- When `next_component` succeeds, its component has no separator; with the components of the rest it
-- makes up those of the cursor, to which an empty component adds nothing; and the rest is empty when
-- the ending type is FINAL_NORMAL or FINAL_SLASH, and shorter than the cursor, with a component in
-- it, when it is NOT_FINAL. The ending type is never FINAL_DOT.
pub next_component-IsNext :
    (cursor : Str) {f : Finality} {component rest : Str}
    → next_component cursor ≡ ok (f, component, rest)
    → IsNext cursor f component rest
next_component-IsNext cursor h = subst (NextResult cursor) h (next_component-NextResult cursor)
