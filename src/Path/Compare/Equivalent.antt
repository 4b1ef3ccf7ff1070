-- ===== src/Path/Compare/Equivalent.antt =====
-- `compare_paths` and the lists of components of canonical paths.
use abyss.Base.{
  ◌≡◌, ◌≢◌, ◌⊎◌, inl, inr, refl, sym, ◌∙◌, Bool, true, false, ◌&&◌, List, [], ◌∷◌, ◌++◌, append-nil,
  append_assoc, arith, ◌==◌, if◌then◌else◌, length,
}
use abyss.Path.Str.{
  Str, slash, char_at, last_char, Comparison, paths_are_equal, path1_is_prefix, path2_is_prefix,
  paths_are_not_comparable,
}
use abyss.Path.Strings.{last_char-append, last_char-NoSlash}
use abyss.Path.Components.{NoSlash}
use abyss.Path.Compare.{trimmed, compare_trimmed, compare_paths2, compare_paths}

-- No byte of `s` is the terminator.
abbrev pub NoZero : Str → Type 0
NoZero [] = Unit
NoZero (c ∷ s) = ((c == 0) ≡ false) × NoZero s

-- A directory entry's name: not empty, with neither a separator nor a terminator in it.
abbrev pub IsName : Str → Type 0
IsName c = (c ≢ []) × NoSlash c × NoZero c

abbrev pub AllNames : List Str → Type 0
AllNames [] = Unit
AllNames (c ∷ cs) = IsName c × AllNames cs

-- A separator before each component.
unfoldable pub body : List Str → Str
body [] = []
body (c ∷ cs) = slash ∷ (c ++ body cs)

-- The canonical path with these components.
unfoldable pub path_of : List Str → Str
unfolding body
path_of [] = slash ∷ []
path_of (c ∷ cs) = body (c ∷ cs)

unfoldable pub str_eq : Str → Str → Bool
str_eq [] [] = true
str_eq [] (d ∷ t) = false
str_eq (c ∷ s) [] = false
str_eq (c ∷ s) (d ∷ t) = c == d && str_eq s t

-- The comparison of two lists of components.
unfoldable pub compare_components : List Str → List Str → Comparison
compare_components [] [] = paths_are_equal
compare_components [] (y ∷ ys) = path1_is_prefix
compare_components (x ∷ xs) [] = path2_is_prefix
compare_components (x ∷ xs) (y ∷ ys) =
    let rest = compare_components xs ys in if str_eq x y then rest else paths_are_not_comparable

-- The same, byte by byte.
compare_bytes : Str → Str → Comparison
compare_bytes [] [] = paths_are_equal
compare_bytes [] (d ∷ t) = if d == slash then path1_is_prefix else paths_are_not_comparable
compare_bytes (c ∷ s) [] = if c == slash then path2_is_prefix else paths_are_not_comparable
compare_bytes (c ∷ s) (d ∷ t) =
    let rest = compare_bytes s t in if c == d then rest else paths_are_not_comparable

-- What stands behind a trimmed path: nothing or the separator.
abbrev IsRest : Str → Type 0
IsRest u = (char_at u 0 ≡ 0) ⊎ (char_at u 0 ≡ slash)

compare_trimmed-bytes :
    (s u t v : Str)
    → NoZero s
    → NoZero t
    → IsRest u
    → IsRest v
    → compare_trimmed (s ++ u) (length s) (t ++ v) (length t) ≡ compare_bytes s t
unfolding compare_trimmed compare_bytes
compare_trimmed-bytes [] u [] v zs zt ru rv = ground arith
compare_trimmed-bytes [] u (d ∷ t) v zs zt ru rv = ground arith
compare_trimmed-bytes (c ∷ s) u [] v zs zt ru rv = ground arith
compare_trimmed-bytes (c ∷ s) u (d ∷ t) v zs zt ru rv =
    ground (arith, compare_trimmed-bytes s u t v zs.1 zt.1 ru rv)

-- Text that starts with a separator, if it has a first byte.
abbrev StartsBody : Str → Type 0
StartsBody [] = Unit
StartsBody (c ∷ s) = c ≡ slash

compare_bytes-append :
    (x y s t : Str)
    → NoSlash x
    → NoSlash y
    → StartsBody s
    → StartsBody t
    → compare_bytes (x ++ s) (y ++ t)
      ≡ (if str_eq x y then compare_bytes s t else paths_are_not_comparable)
unfolding compare_bytes str_eq
compare_bytes-append [] [] s t nx ny bs bt = refl
compare_bytes-append [] (d ∷ y) [] t nx ny bs bt = ground arith
compare_bytes-append [] (d ∷ y) (c ∷ s) t nx ny bs bt = ground arith
compare_bytes-append (c ∷ x) [] s [] nx ny bs bt = ground arith
compare_bytes-append (c ∷ x) [] s (d ∷ t) nx ny bs bt = ground arith
compare_bytes-append (c ∷ x) (d ∷ y) s t nx ny bs bt =
    ground (arith, compare_bytes-append x y s t nx.1 ny.1 bs bt)

body-StartsBody : (cs : List Str) → StartsBody (body cs)
unfolding body
body-StartsBody [] = tt
body-StartsBody (c ∷ cs) = refl

compare_bytes-body :
    (a b : List Str)
    → AllNames a
    → AllNames b
    → compare_bytes (body a) (body b) ≡ compare_components a b
unfolding compare_bytes compare_components body
compare_bytes-body [] [] na nb = refl
compare_bytes-body [] (y ∷ ys) na nb = refl
compare_bytes-body (x ∷ xs) [] na nb = refl
compare_bytes-body (x ∷ xs) (y ∷ ys) na nb =
    compare_bytes-append x y (body xs) (body ys) na.0.1 nb.0.1 (body-StartsBody xs)
      (body-StartsBody ys)
    ∙ rw (compare_bytes-body xs ys na.1 nb.1)

NoZero-append : (s t : Str) → NoZero s → NoZero t → NoZero (s ++ t)
NoZero-append [] t h g = g
NoZero-append (c ∷ s) t h g = (h.0, NoZero-append s t h.1 g)

body-NoZero : (cs : List Str) → AllNames cs → NoZero (body cs)
unfolding body
body-NoZero [] h = tt
body-NoZero (c ∷ cs) h = (refl, NoZero-append c (body cs) h.0.2 (body-NoZero cs h.1))

last_char-body :
    (c : Str) (cs : List Str) → AllNames (c ∷ cs) → (last_char (body (c ∷ cs)) == slash) ≡ false
unfolding body
last_char-body c [] h =
    rw (append-nil c, last_char-append (slash ∷ []) c h.0.0) (last_char-NoSlash c h.0.0 h.0.1)
last_char-body c (d ∷ cs) h =
    rw
      (
        ← append_assoc (slash ∷ []) c (body (d ∷ cs)),
        last_char-append (slash ∷ c) (body (d ∷ cs)) (λ e. cc),
      )
      (last_char-body d cs h.1)

record IsTrimmed (path : Str) (s : Str) : Type 0 where
  rest : Str
  splits : path ≡ s ++ rest
  is_rest : IsRest rest
  length_is : trimmed path (length path) ≡ length s
  pos : (length path == 0) ≡ false

path_of-IsTrimmed : (cs : List Str) → AllNames cs → IsTrimmed (path_of cs) (body cs)
unfolding path_of trimmed
path_of-IsTrimmed [] h = record {
  rest = slash ∷ [];
  splits = refl;
  is_rest = inr refl;
  length_is = refl;
  pos = refl;
}
path_of-IsTrimmed (c ∷ cs) h = record {
  rest = [];
  splits = sym (append-nil (body (c ∷ cs)));
  is_rest = inl refl;
  length_is = rw (last_char-body c cs h);
  pos = ground arith;
}

-- On the canonical paths of two lists of names, `compare_paths` says exactly how the lists compare:
-- equal, the first a proper prefix of the second, the second of the first, or neither.
pub compare_paths-components :
    (a b : List Str)
    → AllNames a
    → AllNames b
    → compare_paths (path_of a) (path_of b) ≡ compare_components a b
unfolding compare_paths compare_paths2
compare_paths-components a b na nb =
    let p = path_of-IsTrimmed a na in
    let q = path_of-IsTrimmed b nb in
    rw (p.pos, q.pos, p.length_is, q.length_is, p.splits, q.splits)
      (compare_trimmed-bytes (body a) p.rest (body b) q.rest (body-NoZero a na) (body-NoZero b nb)
          p.is_rest q.is_rest
        ∙ compare_bytes-body a b na nb)
