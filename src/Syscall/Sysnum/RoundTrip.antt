-- ===== src/Syscall/Sysnum/RoundTrip.antt =====
-- `detranslate_sysnum` and `translate_sysnum` against each other.
use abyss.Base.{
  ℕ, suc, ◌+◌, ◌-◌, ◌<◌, ◌≡◌, ◌≢◌, inl, inr, ◌↔◌, refl, ap, ◌∙◌, List, [], ◌∷◌, arith, ◌==◌, ==_iff,
  Bool-cases, length, get_elem?, get_elem?_in, get_elem?_out, none, some,
}
use abyss.Syscall.Sysnum.{
  Abi, Headers, Sysnums, translate_in, pr_void, syscall_avoider, get_sysnums, translate_sysnum,
  search_table, detranslate_sysnum,
}

-- Where the loop stops: the first index that holds the number.
search_table_found :
    (sysnum : ℕ) (table : List ℕ) (offset i : ℕ)
    → i + offset + length table < syscall_avoider
    → search_table sysnum table offset i ≢ syscall_avoider
    → (j : ℕ) × (search_table sysnum table offset i ≡ i + j + offset)
      × (get_elem? table j ≡ some sysnum)
      × (j < length table)
unfolding search_table
search_table_found sysnum [] offset i small found = absurd (found refl)
search_table_found sysnum (x ∷ table) offset i small found = elim (Bool-cases (x == sysnum)) [
  | inl hit ↦ (0, rw hit (omega arith), ap some ((==_iff x sysnum).0 hit), omega arith)
  | inr miss ↦
      let (j, at, is, lt) =
        search_table_found sysnum table offset (suc i) (omega arith) (λ e. found (rw miss e)) in
      (suc j, rw miss (at ∙ omega arith), is, omega arith)
]

translate_in_at :
    (sysnums : Sysnums) (j x : ℕ)
    → get_elem? sysnums.table j ≡ some x
    → j < length sysnums.table
    → translate_in sysnums (j + sysnums.offset) ≡ some x
unfolding translate_in
translate_in_at sysnums j x is lt =
    let e : j + sysnums.offset - sysnums.offset ≡ j = omega arith in rw e (ground arith)

translate_in-eq_none :
    (sysnums : Sysnums) (sysnum : ℕ)
    → (translate_in sysnums sysnum ≡ none) ↔ (sysnum ≡ sysnums.offset + length sysnums.table)
unfolding translate_in
translate_in-eq_none sysnums sysnum = (
  λ e. ground (arith, get_elem?_in sysnums.table (sysnum - sysnums.offset)),
  λ e. ground (arith, get_elem?_out sysnums.table (sysnum - sysnums.offset)),
)

-- A number that has an architecture value is the neutral number of that value, in tables that end
-- below the value that stands for "none".
pub translate_sysnum-detranslate_sysnum :
    (headers : Headers) (abi : Abi) (sysnum : ℕ)
    → (get_sysnums headers abi).offset + length (get_sysnums headers abi).table < syscall_avoider
    → detranslate_sysnum headers abi sysnum ≢ syscall_avoider
    → translate_sysnum headers abi (detranslate_sysnum headers abi sysnum) ≡ some sysnum
unfolding translate_sysnum detranslate_sysnum
translate_sysnum-detranslate_sysnum headers abi sysnum small found =
    let sysnums : Sysnums = get_sysnums headers abi in
    elim (Bool-cases (sysnum == pr_void)) [
      | inl void ↦ absurd (found (rw void))
      | inr real ↦
          let (j, at, is, lt) =
            search_table_found sysnum sysnums.table sysnums.offset 0 (omega arith)
              (λ e. found (rw real e)) in
          let here : search_table sysnum sysnums.table sysnums.offset 0 ≡ j + sysnums.offset =
            at ∙ omega arith in
          rw (real, here) (translate_in_at sysnums j sysnum is lt)
    ]

-- `translate_sysnum` reads outside its table exactly at the number one past the end.
pub translate_sysnum-eq_none :
    (headers : Headers) (abi : Abi) (sysnum : ℕ)
    → (translate_sysnum headers abi sysnum ≡ none)
      ↔ (sysnum ≡ (get_sysnums headers abi).offset + length (get_sysnums headers abi).table)
unfolding translate_sysnum
translate_sysnum-eq_none headers abi sysnum = translate_in-eq_none (get_sysnums headers abi) sysnum

-- A number past the table is taken for PR_void.
pub translate_sysnum_past :
    (headers : Headers) (abi : Abi) (sysnum : ℕ)
    → (get_sysnums headers abi).offset + length (get_sysnums headers abi).table < sysnum
    → translate_sysnum headers abi sysnum ≡ some pr_void
unfolding translate_sysnum translate_in
translate_sysnum_past headers abi sysnum h = ground arith

-- A value that is found lies in the table.
pub detranslate_sysnum-lt :
    (headers : Headers) (abi : Abi) (sysnum : ℕ)
    → (get_sysnums headers abi).offset + length (get_sysnums headers abi).table < syscall_avoider
    → detranslate_sysnum headers abi sysnum ≢ syscall_avoider
    → detranslate_sysnum headers abi sysnum
      < (get_sysnums headers abi).offset + length (get_sysnums headers abi).table
unfolding detranslate_sysnum
detranslate_sysnum-lt headers abi sysnum small found = elim (Bool-cases (sysnum == pr_void)) [
  | inl void ↦ absurd (found (rw void))
  | inr real ↦
      let sysnums = get_sysnums headers abi in
      let (j, at, is, lt) =
        search_table_found sysnum sysnums.table sysnums.offset 0 (omega arith)
          (λ e. found (rw real e)) in
      rw (real, at) (omega arith)
]
