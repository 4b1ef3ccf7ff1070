-- ===== src/Tracees/Find/Sound.antt =====
-- What the searches find.
use mathlib.Core.Path.{subst}
use abyss.Base.{
  ◌⊎◌, ℕ, ◌+◌, ◌<◌, ◌≡◌, ◌≢◌, refl, sym, ◌∙◌, Bool, true, false, not, ◌||◌, inl, inr, Option-cases,
  none, some, List, [], ◌∷◌, arith,
}
use abyss.Tracee.State.{Tracee}
use abyss.Tracees.Store.{null, World}
use abyss.Tracees.Find.{
  is_wanted, find_zombie, find_ptracee, get_ptracee, has_ptracees, find_tracee,
}
use abyss.Tracees.Counts.{mult}

-- What `get_ptracee` is asked for: a zombie; or a tracee of the ptracer that is stopped, if only
-- these are asked for, and has an event for its ptracer, if only these are.
pub record IsFound (cell : ℕ → Tracee) (tracees : List ℕ) (ptracer pid options : ℕ)
    (only_stopped only_with_pevent : Bool) (a : ℕ) : Type 0 where
  pub wanted : is_wanted pid options (cell a) ≡ true
  pub linked :
      (0 < mult a (cell ptracer).as_ptracer.zombies)
      ⊎ ((0 < mult a tracees)
          × ((cell a).as_ptracee.ptracer ≡ ptracer)
          × (only_stopped ≡ true
              → ((cell a).running ≡ false)
                × ((cell a).as_ptracee.event_ptracer.pending || not only_with_pevent ≡ true)))

module _ (cell : ℕ → Tracee) (pid options : ℕ) where
  find_zombie-found :
      (xs : List ℕ) {a : ℕ}
      → find_zombie cell pid options xs ≡ some a
      → (is_wanted pid options (cell a) ≡ true) × (0 < mult a xs)
  unfolding find_zombie mult
  find_zombie-found [] e = cc
  find_zombie-found (b ∷ xs) {a} e = ground (arith, find_zombie-found xs {a = a})

  module _ (ptracer : ℕ) (only_stopped only_with_pevent : Bool) where
    find_ptracee-found :
        (xs : List ℕ) (a : ℕ)
        → find_ptracee cell pid options ptracer only_stopped only_with_pevent xs ≡ a
        → a ≢ null
        → (is_wanted pid options (cell a) ≡ true)
          × (0 < mult a xs)
          × ((cell a).as_ptracee.ptracer ≡ ptracer)
          × (only_stopped ≡ true
              → ((cell a).running ≡ false)
                × ((cell a).as_ptracee.event_ptracer.pending || not only_with_pevent ≡ true))
    unfolding find_ptracee mult
    find_ptracee-found [] a e ne = absurd (ne (sym e))
    find_ptracee-found (b ∷ xs) a e ne = ground (arith, find_ptracee-found xs a)

  find_zombie_complete :
      (xs : List ℕ) (a : ℕ)
      → find_zombie cell pid options xs ≡ none
      → 0 < mult a xs
      → is_wanted pid options (cell a) ≡ false
  unfolding find_zombie mult
  find_zombie_complete [] a e i = ground arith
  find_zombie_complete (b ∷ xs) a e i = ground (arith, find_zombie_complete xs a)

  -- With nothing asked but the ptracer, all of its tracees are looked at.
  find_ptracee_complete :
      (ptracer : ℕ) (xs : List ℕ) (a : ℕ)
      → mult null xs ≡ 0
      → find_ptracee cell pid options ptracer false false xs ≡ null
      → 0 < mult a xs
      → (cell a).as_ptracee.ptracer ≡ ptracer
      → is_wanted pid options (cell a) ≡ false
  unfolding find_ptracee mult
  find_ptracee_complete ptracer [] a apart e i owned = ground arith
  find_ptracee_complete ptracer (b ∷ xs) a apart e i owned =
      ground (arith, find_ptracee_complete ptracer xs a)

module _ {Memory : Type 0} (w : World Memory) (ptracer pid : ℕ)
    (only_stopped only_with_pevent : Bool) (options : ℕ) where
  get_ptracee-no_zombie :
      find_zombie w.cell pid options (w.cell ptracer).as_ptracer.zombies ≡ none
      → get_ptracee w ptracer pid only_stopped only_with_pevent options
        ≡ find_ptracee w.cell pid options ptracer only_stopped only_with_pevent w.tracees
  unfolding get_ptracee
  get_ptracee-no_zombie e = rw (e, get_ptracee) refl

  get_ptracee-zombie :
      {z : ℕ}
      → find_zombie w.cell pid options (w.cell ptracer).as_ptracer.zombies ≡ some z
      → get_ptracee w ptracer pid only_stopped only_with_pevent options ≡ z
  unfolding get_ptracee
  get_ptracee-zombie e = rw (e, get_ptracee) refl

module _ {Memory : Type 0} (w : World Memory) where
  -- Where no structure has the address NULL, `has_ptracees` answers false only if every zombie and
  -- every tracee of the ptracer is of another pid or kind than those asked for.
  pub has_ptracees_complete :
      (ptracer pid options a : ℕ)
      → mult null w.tracees + mult null (w.cell ptracer).as_ptracer.zombies ≡ 0
      → has_ptracees w ptracer pid options ≡ false
      → (0 < mult a (w.cell ptracer).as_ptracer.zombies)
        ⊎ ((0 < mult a w.tracees) × ((w.cell a).as_ptracee.ptracer ≡ ptracer))
      → is_wanted pid options (w.cell a) ≡ false
  unfolding get_ptracee
  has_ptracees_complete ptracer pid options a apart e held =
      let zombies = (w.cell ptracer).as_ptracer.zombies in
      elim (Option-cases (find_zombie w.cell pid options zombies)) [
        | inl absent ↦
            let searched : find_ptracee w.cell pid options ptracer false false w.tracees ≡ null =
              sym (get_ptracee-no_zombie w ptracer pid false false options absent) ∙ ground arith in
            elim held [
              | inl i ↦ find_zombie_complete w.cell pid options zombies a absent i
              | inr (i, owned) ↦
                  find_ptracee_complete w.cell pid options ptracer w.tracees a
                    (omega (arith, apart)) searched i owned
            ]
        | inr (z, is) ↦
            let found = find_zombie-found w.cell pid options zombies {a = z} is in
            let same = get_ptracee-zombie w ptracer pid false false options is in
            let is_null : z ≡ null = sym same ∙ ground arith in
            let listed : 0 < mult null zombies = subst (λ y. 0 < mult y zombies) is_null found.1 in
            absurd (omega (arith, apart, listed))
      ]

  -- What `get_ptracee` answers, other than NULL, has the pid and the kind that are asked for, and is
  -- a zombie of the ptracer or a listed tracee of it; the latter is stopped and has an event for
  -- its ptracer where only such tracees are asked for.
  pub get_ptracee-IsFound :
      (ptracer pid : ℕ) (only_stopped only_with_pevent : Bool) (options a : ℕ)
      → get_ptracee w ptracer pid only_stopped only_with_pevent options ≡ a
      → a ≢ null
      → IsFound w.cell w.tracees ptracer pid options only_stopped only_with_pevent a
  unfolding get_ptracee
  get_ptracee-IsFound ptracer pid only_stopped only_with_pevent options a e ne =
      elim (Option-cases (find_zombie w.cell pid options (w.cell ptracer).as_ptracer.zombies)) [
        | inl none_found ↦
            let found =
              find_ptracee-found w.cell pid options ptracer only_stopped only_with_pevent w.tracees
                a (sym (rw (none_found, get_ptracee) refl) ∙ e) ne in
            record { wanted = found.0; linked = inr (found.1, found.2, found.3) }
        | inr (z, is) ↦
            let found = find_zombie-found w.cell pid options _ is in
            let same : z ≡ a = sym (rw (is, get_ptracee) refl) ∙ e in
            subst (IsFound w.cell w.tracees ptracer pid options only_stopped only_with_pevent) same
              (record { wanted = found.0; linked = inl found.1 })
      ]

pub find_tracee-found :
    (cell : ℕ → Tracee) (pid : ℕ) (xs : List ℕ) {a : ℕ}
    → find_tracee cell pid xs ≡ some a
    → 0 < mult a xs
unfolding find_tracee mult
find_tracee-found cell pid [] e = cc
find_tracee-found cell pid (b ∷ xs) {a} e = ground (arith, find_tracee-found cell pid xs {a = a})
