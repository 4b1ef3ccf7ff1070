-- ===== src/Path/Strings.antt =====
-- Facts on the bytes of C strings.
use abyss.Base.{
  ℕ, suc, ◌+◌, ◌-◌, ◌≡◌, ◌≢◌, refl, ap, ◌∙◌, false, [], ◌∷◌, ◌++◌, arith, ◌==◌, length, length_pos,
  length-append,
}
use abyss.Path.Str.{Str, slash, char_at, last_char}
use abyss.Path.Components.{NoSlash}

pub char_at-append : (p s : Str) (i : ℕ) → char_at (p ++ s) (length p + i) ≡ char_at s i
char_at-append [] s i = ap (char_at s) (omega arith)
char_at-append (c ∷ p) s i =
    ap (char_at (c ∷ (p ++ s))) {x = length (c ∷ p) + i} {y = suc (length p + i)} (omega arith)
    ∙ char_at-append p s i

pub last_char-append : (s t : Str) → t ≢ [] → last_char (s ++ t) ≡ last_char t
last_char-append s t ne =
    let pos = length_pos t ne in
    ap (char_at (s ++ t)) {x = length (s ++ t) - 1} {y = length s + (length t - 1)}
      (omega (arith, length-append s t))
    ∙ char_at-append s t (length t - 1)

pub last_char-NoSlash : (s : Str) → s ≢ [] → NoSlash s → (last_char s == slash) ≡ false
last_char-NoSlash [] ne h = absurd (ne refl)
last_char-NoSlash (c ∷ []) ne h = h.0
last_char-NoSlash (c ∷ d ∷ s) ne h =
    rw (last_char-append (c ∷ []) (d ∷ s) (λ e. cc)) (last_char-NoSlash (d ∷ s) (λ e. cc) h.1)
