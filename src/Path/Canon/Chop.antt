-- ===== src/Path/Canon/Chop.antt =====
-- `chop_finality`.
use abyss.Base.{ℕ, ◌<◌, ◌≡◌, [], ◌∷◌, ◌++◌, arith, length, length-append, take-append_left}
use abyss.Path.Str.{Str, slash, dot}
use abyss.Path.Strings.{char_at-append}
use abyss.Path.Canon.{chop_finality}

-- A path of at least two bytes loses a trailing "/". A path of at least three bytes that ends in
-- "." loses the two bytes at its end, whatever the byte before the "." is.
pub chop_finality_cuts :
    (path : Str) (c : ℕ)
    → 0 < length path
    → (chop_finality (path ++ (slash ∷ [])) ≡ path)
      × (chop_finality (path ++ (c ∷ dot ∷ [])) ≡ path)
unfolding chop_finality
chop_finality_cuts path c h = (
  ground (
    arith,
    length-append path (slash ∷ []),
    char_at-append path (slash ∷ []) 0,
    take-append_left path (slash ∷ []),
  ),
  ground (
    arith,
    length-append path (c ∷ dot ∷ []),
    char_at-append path (c ∷ dot ∷ []) 1,
    take-append_left path (c ∷ dot ∷ []),
  ),
)
