-- ===== src/Path/Components.antt =====
-- The abstract view of a path: its components, the non-empty runs of bytes between slashes.
use abyss.Base.{
  ◌≡◌, ◌≢◌, refl, ap, ◌∙◌, Bool, List, [], ◌∷◌, ◌++◌, append_assoc, append-nil, arith, ◌==◌,
  if◌then◌else◌,
}
use abyss.Path.Str.{Str, slash}

-- The run read so far, as a list of at most one component.
abbrev pub flush : Str → List Str
flush [] = []
flush (c ∷ cs) = (c ∷ cs) ∷ []

-- The components of `s`, where `run` is the unfinished component before it.
pub split : Str → Str → List Str
split [] run = flush run
split (c ∷ s) run =
    let next = split s [] in
    let more = split s (run ++ (c ∷ [])) in if c == slash then flush run ++ next else more

unfoldable pub components : Str → List Str
unfolding split
components s = split s []

split-append : (s t run : Str) → split (s ++ (slash ∷ t)) run ≡ split s run ++ split t []
unfolding split
split-append [] t run = refl
split-append (c ∷ s) t run = ground (
  arith,
  split-append s t [],
  split-append s t (run ++ (c ∷ [])),
  append_assoc (flush run) (split s []) (split t []),
)

-- A slash separates: the components on its two sides are those of the whole.
pub components-append : (s t : Str) → components (s ++ (slash ∷ t)) ≡ components s ++ components t
unfolding components
components-append s t = split-append s t []

pub components-slash : (t : Str) → components (slash ∷ t) ≡ components t
unfolding components
components-slash t = components-append [] t

pub components_trailing : (s : Str) → components (s ++ (slash ∷ [])) ≡ components s
unfolding components
components_trailing s = components-append s [] ∙ append-nil (components s)

-- No byte of `s` is a slash.
abbrev pub NoSlash : Str → Type 0
NoSlash [] = Unit
NoSlash (c ∷ s) = ((c == slash) ≡ Bool.false) × NoSlash s

split-NoSlash : (s run : Str) → NoSlash s → split s run ≡ flush (run ++ s)
unfolding split
split-NoSlash [] run h = rw append-nil
split-NoSlash (c ∷ s) run h =
    rw h.0 (split-NoSlash s (run ++ (c ∷ [])) h.1 ∙ ap flush (append_assoc run (c ∷ []) s))

pub components-NoSlash : (s : Str) → NoSlash s → components s ≡ flush s
unfolding components
components-NoSlash s = split-NoSlash s []

pub components-nil : components [] ≡ []
unfolding components
components-nil = refl

-- A name behind a separator is one more component.
pub components-concat :
    (s n : Str) → NoSlash n → n ≢ [] → components (s ++ (slash ∷ n)) ≡ components s ++ (n ∷ [])
components-concat s [] h ne = absurd (ne refl)
components-concat s (c ∷ n) h ne = components-append s (c ∷ n) ∙ rw (components-NoSlash (c ∷ n) h)
