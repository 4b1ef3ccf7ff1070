-- ===== src/Path/Canon/Refines.antt =====
-- `canonicalize` as a whole, against the lexical normal form.
use mathlib.Core.Path.{subst}
use abyss.Base.{
  ℕ, suc, ◌≡◌, ◌≢◌, refl, sym, ap, ◌∙◌, false, inl, inr, List, [], ◌∷◌, ◌++◌, append-nil, arith,
  ◌==◌, leb, Bool-cases, if◌then◌else◌, length, drop_last, Option, some, none, Result, ok, err,
}
use abyss.Path.Str.{Str, path_max, slash, dot, char_at, Finality, final_slash, final_dot}
use abyss.Path.Components.{components, components-slash, components-nil}
use abyss.Path.Join.{join_two}
use abyss.Path.Join.Composes.{join_two-components, join_two-root}
use abyss.Path.Canon.{is_dot, is_dot_dot, finish, base_of, leave, enter, canonicalize}
use abyss.Path.Canon.Normal.{
  walk, normalize, ends_in_dot, is_final_dot, RoundsResult, rounds-RoundsResult, Result-cases,
}

-- The components that a walk starts from.
unfoldable pub base_components : Str → Str → List Str
base_components user_path guest_path =
    if char_at user_path 0 == slash then [] else components guest_path

-- The "." that keeps the meaning of a `user_path` that ends in one.
unfoldable pub final_component : Str → List Str
final_component user_path = if ends_in_dot (components user_path) then (dot ∷ []) ∷ [] else []

abbrev Refines : Str → Str → Option (Result Str) → Type 0
Refines user_path guest_path none = ⊥
Refines user_path guest_path (some (err e)) = Unit
Refines user_path guest_path (some (ok r)) =
    (char_at r 0 ≡ slash)
    × (components r
        ≡ normalize (base_components user_path guest_path) (components user_path)
          ++ final_component user_path)

abbrev Finished : Finality → Str → Result Str → Type 0
Finished f g (err e) = Unit
Finished f g (ok r) =
    (char_at r 0 ≡ slash)
    × (components r ≡ components g ++ (if is_final_dot f then (dot ∷ []) ∷ [] else []))

join_two-Finished :
    (f : Finality) (g last : Str)
    → char_at g 0 ≡ slash
    → components last ≡ (if is_final_dot f then (dot ∷ []) ∷ [] else [])
    → Finished f g (join_two g last)
join_two-Finished f g last e h = elim (Result-cases (join_two g last)) [
  | inl (_, long) ↦ rw long tt
  | inr (r, fits) ↦
      rw fits (
        join_two-root g last fits e,
        join_two-components g last fits ∙ ap (λ l. components g ++ l) h,
      )
]

finish-Finished : (f : Finality) (g : Str) → char_at g 0 ≡ slash → Finished f g (finish f g)
unfolding finish is_final_dot
finish-Finished final_slash g e =
    join_two-Finished final_slash g [] e (unfold is_final_dot components in refl)
finish-Finished final_dot g e =
    join_two-Finished final_dot g (dot ∷ []) e (unfold is_final_dot components in refl)
finish-Finished _ g e = (e, sym (append-nil (components g)))

-- What the code does behind the two checks at its top.
base_of-root :
    (user guest base : Str)
    → base_of user guest ≡ ok base
    → (char_at base 0 ≡ slash) × (components base ≡ base_components user guest)
unfolding base_of base_components
base_of-root user guest base h = ground (arith, components-slash [], components-nil)

Finished-Refines :
    (f : Finality) (g user guest base : Str)
    → components base ≡ base_components user guest
    → RoundsResult user base (some (ok (f, g)))
    → (r : Result Str) → Finished f g r
    → Refines user guest (some r)
unfolding final_component
Finished-Refines f g user guest base b h (err e) done = tt
Finished-Refines f g user guest base b h (ok r) done = (done.0, done.1 ∙ rw (h.1, h.2, b))

leave-Refines :
    (user guest base : Str)
    → components base ≡ base_components user guest
    → (o : Option (Result (Finality × Str))) → RoundsResult user base o
    → Refines user guest (leave 0 o)
unfolding leave
leave-Refines user guest base b none h = h
leave-Refines user guest base b (some (err e)) h = tt
leave-Refines user guest base b (some (ok r)) h =
    Finished-Refines r.0 r.1 user guest base b h (finish r.0 r.1) (finish-Finished r.0 r.1 h.0)

canonicalize-Refines : (user guest : Str) → Refines user guest (canonicalize 0 user guest)
unfolding canonicalize enter
canonicalize-Refines user guest = elim (Bool-cases (leb path_max (length guest))) [
  | inl long ↦ rw long tt
  | inr short ↦ elim (Result-cases (base_of user guest)) [
    | inl (_, bad) ↦ rw (short, bad, enter) tt
    | inr (base, good) ↦
        let (root, same) = base_of-root user guest base good in
        rw (short, good, enter)
          (leave-Refines user guest base same _
            (rounds-RoundsResult (suc (length user)) user base root (omega arith)))
  ]
]

-- When `canonicalize` succeeds at the first level of recursion, its result is an absolute path
-- whose components are those of the base with the components of `user_path` walked lexically: "."
-- skipped, ".." going up and staying at the root, any other name going down. The base is the root
-- for an absolute `user_path` and `guest_path` otherwise. If the last component of `user_path` is
-- ".", the result has one "." behind these.
pub canonicalize-normalize :
    (user_path guest_path : Str) {r : Str}
    → canonicalize 0 user_path guest_path ≡ some (ok r)
    → (char_at r 0 ≡ slash)
      × (components r
          ≡ normalize (base_components user_path guest_path) (components user_path)
            ++ final_component user_path)
canonicalize-normalize user_path guest_path h =
    subst (Refines user_path guest_path) h (canonicalize-Refines user_path guest_path)

leave-ne-none :
    (level : ℕ) (cursor guest : Str) (o : Option (Result (Finality × Str)))
    → RoundsResult cursor guest o
    → leave level o ≢ none
unfolding leave
leave-ne-none level cursor guest none h = absurd h
leave-ne-none level cursor guest (some (err e)) h = λ q. cc
leave-ne-none level cursor guest (some (ok r)) h = λ q. cc

-- `canonicalize` ends: the fuel of its loop is never used up, at any level of recursion and for any
-- two paths.
pub canonicalize-ne-none :
    (recursion_level : ℕ) (user_path guest_path : Str)
    → canonicalize recursion_level user_path guest_path ≢ none
unfolding canonicalize enter
canonicalize-ne-none level user guest = elim (Result-cases (base_of user guest)) [
  | inl (_, bad) ↦ rw (bad, enter) (ground arith)
  | inr (base, good) ↦
      let (root, _) = base_of-root user guest base good in
      let ends =
        leave-ne-none level user base _
          (rounds-RoundsResult (suc (length user)) user base root (omega arith)) in
      rw (good, enter) (ground (arith, ends))
]

-- No component of the list is "..".
abbrev pub NoDotDot : List Str → Type 0
NoDotDot [] = Unit
NoDotDot (c ∷ cs) = (is_dot_dot c ≡ false) × NoDotDot cs

NoDotDot-drop_last : (cs : List Str) → NoDotDot cs → NoDotDot (drop_last cs)
NoDotDot-drop_last [] h = tt
NoDotDot-drop_last (c ∷ []) h = tt
NoDotDot-drop_last (c ∷ d ∷ cs) h = (h.0, NoDotDot-drop_last (d ∷ cs) h.1)

NoDotDot-append : (cs ds : List Str) → NoDotDot cs → NoDotDot ds → NoDotDot (cs ++ ds)
NoDotDot-append [] ds h g = g
NoDotDot-append (c ∷ cs) ds h g = (h.0, NoDotDot-append cs ds h.1 g)

NoDotDot-normalize : (cs stack : List Str) → NoDotDot stack → NoDotDot (normalize stack cs)
unfolding normalize walk
NoDotDot-normalize [] stack h = h
NoDotDot-normalize (c ∷ cs) stack h = elim (Bool-cases (is_dot c)) [
  | inl a ↦ rw a (NoDotDot-normalize cs stack h)
  | inr a ↦ elim (Bool-cases (is_dot_dot c)) [
    | inl b ↦ rw (a, b) (NoDotDot-normalize cs (drop_last stack) (NoDotDot-drop_last stack h))
    | inr b ↦
        rw (a, b)
          (NoDotDot-normalize cs (stack ++ (c ∷ [])) (NoDotDot-append stack (c ∷ []) h (b, tt)))
  ]
]

final_component-NoDotDot : (user : Str) → NoDotDot (final_component user)
unfolding final_component is_dot_dot
final_component-NoDotDot user = elim (Bool-cases (ends_in_dot (components user))) [
  | inl a ↦ rw a (refl, tt)
  | inr a ↦ rw a tt
]

-- No component of a canonical path is "..", so it does not climb out of its root, provided that no
-- component of `guest_path` is ".." (which matters for a relative `user_path` only).
pub canonicalize-NoDotDot :
    (user_path guest_path : Str) {r : Str}
    → NoDotDot (components guest_path)
    → canonicalize 0 user_path guest_path ≡ some (ok r)
    → NoDotDot (components r)
unfolding base_components
canonicalize-NoDotDot user guest clean h = rw (canonicalize-normalize user guest h).1 (
    NoDotDot-append _ (final_component user)
      (NoDotDot-normalize (components user) (base_components user guest)
        (elim (Bool-cases (char_at user 0 == slash)) [ inl a ↦ rw a tt | inr a ↦ rw a clean ]))
      (final_component-NoDotDot user))
