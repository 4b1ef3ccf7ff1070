-- ===== src/Path/Compare.antt =====
-- `compare_paths2` and `compare_paths` of library/src/main/jni/path/path.c.
pub mod Equivalent
use abyss.Base.{
  ℕ, zero, suc, ◌-◌, Bool, true, false, not, ◌&&◌, ◌||◌, [], ◌∷◌, ltb, ◌==◌, if◌then◌else◌, length,
}
use abyss.Path.Str.{
  Str, slash, char_at, Comparison, paths_are_equal, path1_is_prefix, path2_is_prefix,
  paths_are_not_comparable,
}

-- `strncmp(s, t, n) == 0`
pub strncmp_eq : ℕ → Str → Str → Bool
strncmp_eq zero s t = true
strncmp_eq (suc n) [] [] = true
strncmp_eq (suc n) [] (d ∷ t) = false
strncmp_eq (suc n) (c ∷ s) [] = false
strncmp_eq (suc n) (c ∷ s) (d ∷ t) = c == d && strncmp_eq n s t

-- The length without a trailing separator.
pub trimmed : Str → ℕ → ℕ
trimmed path length' = if char_at path (length' - 1) == slash then length' - 1 else length'

-- What follows the two trimmings.
pub compare_trimmed : Str → ℕ → Str → ℕ → Comparison
unfolding strncmp_eq
compare_trimmed path1 length1 path2 length2 =
    let length_min = if ltb length1 length2 then length1 else length2 in
    let sentinel =
      if ltb length1 length2 then char_at path2 length_min else char_at path1 length_min in
    if not (sentinel == slash) && not (sentinel == 0)
    then paths_are_not_comparable
    else if not (strncmp_eq length_min path1 path2)
    then paths_are_not_comparable
    else if length1 == length2
    then paths_are_equal
    else if ltb length1 length2
    then path1_is_prefix
    else path2_is_prefix

pub compare_paths2 : Str → ℕ → Str → ℕ → Comparison
unfolding trimmed compare_trimmed
compare_paths2 path1 length1 path2 length2 =
    if length1 == 0 || length2 == 0
    then paths_are_not_comparable
    else compare_trimmed path1 (trimmed path1 length1) path2 (trimmed path2 length2)

unfoldable pub compare_paths : Str → Str → Comparison
unfolding compare_paths2
compare_paths path1 path2 = compare_paths2 path1 (length path1) path2 (length path2)
