-- ===== src/Seccomp/Merge/Flags.antt =====
-- The flags of a number in the merged list.
use Prim.Native.Nat.{bit_or}
use abyss.Base.{
  ℕ, ◌+◌, ◌≡◌, refl, ap, ◌∙◌, Bool, true, false, ◌||◌, inl, inr, Option, none, some, List, [], ◌∷◌,
  ◌++◌, arith, ◌==◌, ==_iff, Bool-cases, if◌then◌else◌, length, ok,
}
use abyss.Seccomp.Filter.{FilteredSysnum}
use abyss.Seccomp.Merge.{
  array_size, has_sysnum, merge_sysnum, merge_sysnums, merge_filtered_sysnums, not_added,
  internal_sysnums, filtered_add_internal_sysnums,
}

-- The flags of the first entry for a number.
unfoldable pub flags_of : ℕ → List FilteredSysnum → Option ℕ
flags_of value [] = none
flags_of value (s ∷ sysnums) =
    let rest = flags_of value sysnums in if s.value == value then some s.flags else rest

-- Flags, with others merged in.
abbrev pub or_flags : Option ℕ → ℕ → Option ℕ
or_flags none flags = some flags
or_flags (some old) flags = some (bit_or old flags)

-- The flags of a number, with those merged in that a list gives it.
unfoldable pub merged_flags : ℕ → Option ℕ → List FilteredSysnum → Option ℕ
merged_flags value old [] = old
merged_flags value old (s ∷ sysnums) =
    merged_flags value (if s.value == value then or_flags old s.flags else old) sysnums

abbrev none_or : Option (List FilteredSysnum) → List FilteredSysnum
none_or none = []
none_or (some sysnums) = sysnums

flags_of-merge_sysnum :
    (value : ℕ) (new : FilteredSysnum) (sysnums : List FilteredSysnum)
    → flags_of value (merge_sysnum new sysnums) ≡ (
        if new.value == value
        then or_flags (flags_of value sysnums) new.flags
        else flags_of value sysnums)
unfolding flags_of merge_sysnum
flags_of-merge_sysnum value new [] = ground arith
flags_of-merge_sysnum value new (s ∷ sysnums) =
    ground (arith, flags_of-merge_sysnum value new sysnums)

merge_sysnums-flags :
    (grants : ℕ → Bool) (value : ℕ) (sysnums new : List FilteredSysnum)
    {merged : List FilteredSysnum}
    → merge_sysnums grants sysnums new ≡ ok merged
    → flags_of value merged ≡ merged_flags value (flags_of value sysnums) new
unfolding merge_sysnums merged_flags
merge_sysnums-flags grants value sysnums [] h = cc
merge_sysnums-flags grants value sysnums (s ∷ new) h =
    elim (Bool-cases (has_sysnum s.value sysnums || grants (array_size (length sysnums + 2)))) [
      | inl granted ↦
          merge_sysnums-flags grants value (merge_sysnum s sysnums) new (rw granted at h)
          ∙ ap (λ old. merged_flags value old new) (flags_of-merge_sysnum value s sysnums)
      | inr refused ↦ absurd (cc (rw refused at h))
    ]

-- When `merge_filtered_sysnums` succeeds, each number has the flags that it had in the old list, with
-- the flags of all its entries in the new list merged in; a number that is in neither list has none.
pub merge_filtered_sysnums-flags :
    (grants : ℕ → Bool) (sysnums : Option (List FilteredSysnum)) (new_sysnums : List FilteredSysnum)
    {merged : List FilteredSysnum} (value : ℕ)
    → merge_filtered_sysnums grants sysnums new_sysnums ≡ ok merged
    → flags_of value merged ≡ merged_flags value (flags_of value (none_or sysnums)) new_sysnums
unfolding merge_filtered_sysnums
merge_filtered_sysnums-flags grants none new value h = elim (Bool-cases (grants (array_size 1))) [
  | inl granted ↦ merge_sysnums-flags grants value [] new (rw granted at h)
  | inr refused ↦ absurd (cc (rw refused at h))
]
merge_filtered_sysnums-flags grants (some sysnums) new value h =
    merge_sysnums-flags grants value sysnums new h

merged_flags-append :
    (value : ℕ) (a b : List FilteredSysnum) (old : Option ℕ)
    → merged_flags value old (a ++ b) ≡ merged_flags value (merged_flags value old a) b
unfolding merged_flags
merged_flags-append value [] b old = refl
merged_flags-append value (s ∷ a) b old = merged_flags-append value a b _

merged_flags_absent :
    (value : ℕ) (old : Option ℕ) (a : List FilteredSysnum)
    → has_sysnum value a ≡ false
    → merged_flags value old a ≡ old
unfolding merged_flags has_sysnum
merged_flags_absent value old [] h = refl
merged_flags_absent value old (s ∷ a) h = elim (Bool-cases (s.value == value)) [
  | inl here ↦ absurd (cc (rw here at h))
  | inr off ↦ rw off (merged_flags_absent value old a (rw off at h))
]

cons_here :
    (value : ℕ) (old : Option ℕ) (s : FilteredSysnum) (rest : List FilteredSysnum)
    → (s.value == value) ≡ true
    → merged_flags value old (s ∷ rest) ≡ merged_flags value (or_flags old s.flags) rest
unfolding merged_flags
cons_here value old s rest here = rw here refl

cons_off :
    (value : ℕ) (old : Option ℕ) (s : FilteredSysnum) (rest : List FilteredSysnum)
    → (s.value == value) ≡ false
    → merged_flags value old (s ∷ rest) ≡ merged_flags value old rest
unfolding merged_flags
cons_off value old s rest off = rw off refl

merged_flags-not_added :
    (value : ℕ) (added internal : List FilteredSysnum) (old : Option ℕ)
    → merged_flags value old (not_added added internal)
      ≡ (if has_sysnum value added then old else merged_flags value old internal)
unfolding not_added merged_flags
merged_flags-not_added value added [] old = ground arith
merged_flags-not_added value added (s ∷ internal) old = elim (Bool-cases (s.value == value)) [
  | inl here ↦
      let same : has_sysnum s.value added ≡ has_sysnum value added =
        ap (λ v. has_sysnum v added) ((==_iff s.value value).0 here) in
      elim (Bool-cases (has_sysnum value added)) [
        | inl asked ↦
            rw (same, asked) (rw asked at (merged_flags-not_added value added internal old))
        | inr other ↦
            rw (same, other, here)
              (cons_here value old s (not_added added internal) here
                ∙ rw other at (merged_flags-not_added value added internal (or_flags old s.flags)))
      ]
  | inr off ↦ elim (Bool-cases (has_sysnum s.value added)) [
    | inl asked ↦ rw (asked, off) (merged_flags-not_added value added internal old)
    | inr other ↦
        rw (other, off)
          (cons_off value old s (not_added added internal) off
            ∙ merged_flags-not_added value added internal old)
  ]
]

-- In the list that `enable_syscall_filtering` filters, a number that the caller adds has the flags of
-- its entries there, all merged, and nothing of the internal ones; any other number has the flags of
-- the internal entries.
pub enable_syscall_filtering-flags :
    (grants : ℕ → Bool) (added : List FilteredSysnum) {sysnums : List FilteredSysnum} (value : ℕ)
    → merge_filtered_sysnums grants none (filtered_add_internal_sysnums added) ≡ ok sysnums
    → flags_of value sysnums ≡ (
        if has_sysnum value added
        then merged_flags value none added
        else merged_flags value none internal_sysnums)
unfolding filtered_add_internal_sysnums flags_of
enable_syscall_filtering-flags grants added value h =
    merge_filtered_sysnums-flags grants none (filtered_add_internal_sysnums added) value h
    ∙ merged_flags-append value added (not_added added internal_sysnums) none
    ∙ merged_flags-not_added value added internal_sysnums (merged_flags value none added)
    ∙ elim (Bool-cases (has_sysnum value added)) [
      | inl asked ↦ rw asked refl
      | inr other ↦ rw (other, merged_flags_absent value none added other) refl
    ]
