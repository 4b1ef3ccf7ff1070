-- ===== src/Path/Canon/Normal.antt =====
-- `canonicalize` against the lexical normal form of a list of components.
use mathlib.Core.Path.{subst}
use abyss.Base.{
  ℕ, zero, suc, ◌<◌, ◌≡◌, ◌≢◌, refl, sym, ap, ◌∙◌, Bool, true, false, inl, inr, List, [], ◌∷◌, ◌++◌,
  append-nil, arith, Bool-cases, if◌then◌else◌, length, drop_last, Option, some, none, Result,
  Errno, ok, err, ◌⊎◌,
}
use abyss.Path.Str.{Str, slash, char_at, Finality, not_final, final_normal, final_slash, final_dot}
use abyss.Path.Components.{components, components-nil, components-NoSlash, NoSlash, flush}
use abyss.Path.Join.{join_two}
use abyss.Path.Join.Composes.{join_two-components, join_two-root}
use abyss.Path.Canon.{is_dot, is_dot_dot, is_final, round, rounds, next_component}
use abyss.Path.Canon.Next.{Leaves, next_component-IsNext}
use abyss.Path.Canon.Pop.{pop_component-components, pop_component-root}

-- One component after those of `stack`: "." stays, ".." goes up, and "/.." is "/".
unfoldable pub walk : List Str → Str → List Str
walk stack c =
    if is_dot c then stack else if is_dot_dot c then drop_last stack else stack ++ (c ∷ [])

unfoldable pub normalize : List Str → List Str → List Str
normalize stack [] = stack
normalize stack (c ∷ cs) = normalize (walk stack c) cs

-- Whether the last component is ".".
unfoldable pub ends_in_dot : List Str → Bool
ends_in_dot [] = false
ends_in_dot (c ∷ []) = is_dot c
ends_in_dot (c ∷ d ∷ cs) = ends_in_dot (d ∷ cs)

normalize-append :
    (a b stack : List Str) → normalize stack (a ++ b) ≡ normalize (normalize stack a) b
unfolding normalize
normalize-append [] b stack = refl
normalize-append (c ∷ a) b stack = normalize-append a b (walk stack c)

ends_in_dot-flush : (n : Str) (l : List Str) → l ≢ [] → ends_in_dot (flush n ++ l) ≡ ends_in_dot l
unfolding ends_in_dot
ends_in_dot-flush [] l ne = refl
ends_in_dot-flush (c ∷ n) [] ne = absurd (ne refl)
ends_in_dot-flush (c ∷ n) (d ∷ l) ne = refl

-- The ending type behind a round.
ending : Finality → Str → Finality
ending f c =
    if is_dot c
    then (if is_final f then final_dot else f)
    else if is_dot_dot c
    then (if is_final f then final_slash else f)
    else f

abbrev RoundResult : Str → Finality → Str → Result (Finality × Str) → Type 0
RoundResult c f guest (err e) = Unit
RoundResult c f guest (ok r) =
    (r.0 ≡ ending f c)
    × (char_at r.1 0 ≡ slash)
    × (components r.1 ≡ normalize (components guest) (flush c))

normalize_stay : (stack : List Str) (c : Str) → is_dot c ≡ true → normalize stack (flush c) ≡ stack
unfolding normalize walk is_dot
normalize_stay stack [] a = refl
normalize_stay stack (c ∷ s) a = rw a

normalize_up :
    (stack : List Str) (c : Str)
    → is_dot c ≡ false
    → is_dot_dot c ≡ true
    → normalize stack (flush c) ≡ drop_last stack
unfolding normalize walk is_dot_dot
normalize_up stack [] a b = cc
normalize_up stack (c ∷ s) a b = rw (a, b)

normalize_down :
    (stack : List Str) (c : Str)
    → is_dot c ≡ false
    → is_dot_dot c ≡ false
    → normalize stack (flush c) ≡ stack ++ flush c
unfolding normalize walk
normalize_down stack [] a b = sym (append-nil stack)
normalize_down stack (c ∷ s) a b = rw (a, b)

pub Result-cases {ℓ} :
    {A : Type ℓ} (r : Result A) → ((e : Errno) × (r ≡ err e)) ⊎ ((a : A) × (r ≡ ok a))
Result-cases (ok a) = inr (a, refl)
Result-cases (err e) = inl (e, refl)

round-RoundResult :
    (c : Str) (f : Finality) (guest : Str)
    → char_at guest 0 ≡ slash
    → NoSlash c
    → RoundResult c f guest (round c f guest)
unfolding round ending
round-RoundResult c f guest e n = elim (Bool-cases (is_dot c)) [
  | inl a ↦ rw a ((rw (ending, a)), e, sym (normalize_stay (components guest) c a))
  | inr a ↦ elim (Bool-cases (is_dot_dot c)) [
    | inl b ↦
        rw (a, b)
          (
            (rw (ending, a, b)),
            pop_component-root guest e,
            pop_component-components guest e ∙ sym (normalize_up (components guest) c a b),
          )
    | inr b ↦ elim (Result-cases (join_two guest c)) [
      | inl (_, long) ↦ rw (a, b, long) tt
      | inr (joined, fits) ↦
          rw (a, b, fits)
            (
              (rw (ending, a, b)),
              join_two-root guest c fits e,
              join_two-components guest c fits
                  ∙ ap (λ l. components guest ++ l) (components-NoSlash c n)
                  ∙ sym (normalize_down (components guest) c a b),
            )
    ]
  ]
]

unfoldable pub is_final_dot : Finality → Bool
is_final_dot final_dot = true
is_final_dot _ = false

-- What the loop must give back: never `none`, and on success the normal form.
abbrev pub RoundsResult : Str → Str → Option (Result (Finality × Str)) → Type 0
RoundsResult cursor guest none = ⊥
RoundsResult cursor guest (some (err e)) = Unit
RoundsResult cursor guest (some (ok r)) =
    (char_at r.1 0 ≡ slash)
    × (components r.1 ≡ normalize (components guest) (components cursor))
    × (is_final_dot r.0 ≡ ends_in_dot (components cursor))

RoundsResult-next :
    (o : Option (Result (Finality × Str))) (cursor guest rest guest' c : Str)
    → components cursor ≡ flush c ++ components rest
    → components rest ≢ []
    → components guest' ≡ normalize (components guest) (flush c)
    → RoundsResult rest guest' o
    → RoundsResult cursor guest o
RoundsResult-next none cursor guest rest guest' c s ne g h = h
RoundsResult-next (some (err e)) cursor guest rest guest' c s ne g h = tt
RoundsResult-next (some (ok r)) cursor guest rest guest' c s ne g h = (
  h.0,
  rw (s, normalize-append (flush c) (components rest) (components guest), ← g) h.1,
  rw (s, ends_in_dot-flush c (components rest) ne) h.2,
)

ending_more : (c : Str) → is_final (ending not_final c) ≡ false
unfolding ending is_final
ending_more c = ground arith

ends_in_dot-one :
    (f : Finality) (c : Str)
    → is_final f ≡ true
    → is_final_dot f ≡ false
    → is_final_dot (ending f c) ≡ ends_in_dot (flush c)
unfolding ending is_final ends_in_dot is_dot is_final_dot
ends_in_dot-one f [] a b = ground (arith)
ends_in_dot-one f (x ∷ c) a b = ground (arith)

ending_final : (f : Finality) (c : Str) → is_final f ≡ true → is_final (ending f c) ≡ true
unfolding ending is_final
ending_final f c a = ground arith

-- Neither ending type that a final call gives is the one for ".".
Leaves-final :
    (f : Finality) (cursor c rest : Str)
    → is_final f ≡ true
    → Leaves cursor f c rest
    → (rest ≡ []) × (is_final_dot f ≡ false)
unfolding is_final is_final_dot
Leaves-final not_final cursor c rest a l = cc
Leaves-final final_normal cursor c rest a l = (l, refl)
Leaves-final final_slash cursor c rest a l = (l, refl)
Leaves-final final_dot cursor c rest a l = absurd l

Leaves-more :
    (f : Finality) (cursor c rest : Str)
    → is_final f ≡ false
    → Leaves cursor f c rest
    → (length rest < length cursor) × (components rest ≢ []) × (f ≡ not_final)
unfolding is_final
Leaves-more not_final cursor c rest a l = (l.0, l.1, refl)
Leaves-more final_normal cursor c rest a l = cc
Leaves-more final_slash cursor c rest a l = cc
Leaves-more final_dot cursor c rest a l = cc

pub rounds-RoundsResult :
    (fuel : ℕ) (cursor guest : Str)
    → char_at guest 0 ≡ slash
    → length cursor < fuel
    → RoundsResult cursor guest (rounds fuel cursor guest)
unfolding rounds
rounds-RoundsResult zero cursor guest e h = elim h [ ]
rounds-RoundsResult (suc fuel) cursor guest e h = elim (Result-cases (next_component cursor)) [
  | inl (_, long) ↦ rw (long, rounds) tt
  | inr (t, got) ↦
      let x = next_component-IsNext cursor got in
      elim (Result-cases (round t.1 t.0 guest)) [
        | inl (_, bad) ↦ rw (got, rounds, bad) tt
        | inr (r, done) ↦
            let made =
              subst (RoundResult t.1 t.0 guest) done
                (round-RoundResult t.1 t.0 guest e x.no_slash) in
            elim (Bool-cases (is_final t.0)) [
              | inl final ↦
                  let (end, plain) = Leaves-final t.0 cursor t.1 t.2 final x.leaves in
                  let whole : components cursor ≡ flush t.1 =
                    x.splits ∙ rw (end, components-nil) (append-nil (flush t.1)) in
                  rw (got, rounds, done, made.0, ending_final t.0 t.1 final)
                    (made.1, rw whole made.2, rw whole (ends_in_dot-one t.0 t.1 final plain))
              | inr more ↦
                  let (shorter, ne, same) = Leaves-more t.0 cursor t.1 t.2 more x.leaves in
                  let stays : is_final r.0 ≡ false = rw (made.0, same) (ending_more t.1) in
                  rw (got, rounds, done, stays)
                    (RoundsResult-next _ cursor guest t.2 r.1 t.1 x.splits ne made.2
                      (rounds-RoundsResult fuel t.2 r.1 made.1 (omega arith)))
            ]
      ]
]
