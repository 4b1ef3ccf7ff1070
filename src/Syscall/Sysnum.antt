-- ===== src/Syscall/Sysnum.antt =====
-- System call numbers: library/src/main/jni/syscall/sysnum.c. The tables of the headers
-- syscall/sysnums-*.h, which the build selects, are the argument `headers`.
pub mod RoundTrip
use abyss.Base.{
  ℕ, zero, suc, ◌+◌, ◌-◌, ◌%◌, ◌^◌, Bool, List, [], ◌∷◌, ltb, ◌==◌, if◌then◌else◌, length,
  get_elem?, Option, none, some,
}

pub data Abi : Type 0 where
  abi_default abi_2 abi_3 : Abi

-- `SYSNUMS_ABI1`, `SYSNUMS_ABI2` and `SYSNUMS_ABI3`: the neutral number at each index.
pub record Headers : Type 0 where
  pub abi1 : List ℕ
  pub abi2 : List ℕ
  pub abi3 : List ℕ

pub record Sysnums : Type 0 where
  pub table : List ℕ
  pub offset : ℕ

abbrev pub pr_void : ℕ
pr_void = 0

-- `((word_t) -1)`
abbrev pub syscall_avoider : ℕ
syscall_avoider = 2 ^ 64 - 1

abbrev pub get_sysnums : Headers → Abi → Sysnums
get_sysnums headers abi_default = record { table = headers.abi1; offset = 0 }
get_sysnums headers abi_2 = record { table = headers.abi2; offset = 0 }
get_sysnums headers abi_3 = record { table = headers.abi3; offset = 0x40000000 }

-- What `translate_sysnum` reads in `sysnums`.
unfoldable pub translate_in : Sysnums → ℕ → Option ℕ
translate_in sysnums sysnum =
    if ltb sysnum sysnums.offset
    then some pr_void
    else (let index = sysnum - sysnums.offset in
        if ltb (length sysnums.table) index then some pr_void else get_elem? sysnums.table index)

-- The neutral number of `sysnum`, or `none` where the read is outside the table.
unfoldable pub translate_sysnum : Headers → Abi → ℕ → Option ℕ
unfolding translate_in
translate_sysnum headers abi sysnum = translate_in (get_sysnums headers abi) sysnum

-- The loop of `detranslate_sysnum`, at index `i`.
unfoldable pub search_table : ℕ → List ℕ → ℕ → ℕ → ℕ
search_table sysnum [] offset i = syscall_avoider
search_table sysnum (x ∷ table) offset i =
    let rest = search_table sysnum table offset (suc i) in
    if x == sysnum then (i + offset) % 2 ^ 64 else rest

unfoldable pub detranslate_sysnum : Headers → Abi → ℕ → ℕ
unfolding search_table
detranslate_sysnum headers abi sysnum =
    if sysnum == pr_void
    then syscall_avoider
    else (let sysnums = get_sysnums headers abi in
        search_table sysnum sysnums.table sysnums.offset 0)
