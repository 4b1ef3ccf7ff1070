-- ===== src/Seccomp/Merge.antt =====
-- The list of filtered numbers: `merge_filtered_sysnums` and `enable_syscall_filtering`.
pub mod Flags
use Prim.Native.Nat.{bit_or}
use abyss.Base.{
  ℕ, ◌+◌, ◌*◌, Bool, true, false, ◌||◌, Option, none, some, List, [], ◌∷◌, ◌++◌, ◌==◌,
  if◌then◌else◌, length, Result, ok, err, ◌>>=◌, enomem,
}
use abyss.Seccomp.Filter.{FilteredSysnum, SeccompArch, SockFprog, LibcRange, set_seccomp_filters}
use abyss.Syscall.Sysnum.{Headers}

-- The bytes of an array of `count` entries, with the head that carries its length.
abbrev pub array_size : ℕ → ℕ
array_size count = 16 * count + 4

-- Whether the search ends at an entry and not at the terminator.
unfoldable pub has_sysnum : ℕ → List FilteredSysnum → Bool
has_sysnum value [] = false
has_sysnum value (s ∷ sysnums) =
    let rest = has_sysnum value sysnums in if s.value == value then true else rest

-- What is done where the search ends: the flags merged into the entry, or a new entry.
unfoldable pub merge_sysnum : FilteredSysnum → List FilteredSysnum → List FilteredSysnum
merge_sysnum new [] = new ∷ []
merge_sysnum new (s ∷ sysnums) =
    let rest = merge_sysnum new sysnums in
    if s.value == new.value
    then record s { flags = bit_or s.flags new.flags } ∷ sysnums
    else s ∷ rest

-- Whether malloc(3) and realloc(3) grant so many bytes. The lists stand before their terminators.
module _ (grants : ℕ → Bool) where
  unfoldable pub merge_sysnums :
      List FilteredSysnum → List FilteredSysnum → Result (List FilteredSysnum)
  unfolding has_sysnum merge_sysnum
  merge_sysnums sysnums [] = ok sysnums
  merge_sysnums sysnums (new ∷ rest) =
      let merged = merge_sysnums (merge_sysnum new sysnums) rest in
      if has_sysnum new.value sysnums || grants (array_size (length sysnums + 2))
      then merged
      else err enomem

  -- `none` for a list that is NULL.
  unfoldable pub merge_filtered_sysnums :
      Option (List FilteredSysnum) → List FilteredSysnum → Result (List FilteredSysnum)
  unfolding merge_sysnums
  merge_filtered_sysnums none new_sysnums =
      if grants (array_size 1) then merge_sysnums [] new_sysnums else err enomem
  merge_filtered_sysnums (some sysnums) new_sysnums = merge_sysnums sysnums new_sysnums

-- PR_ptrace, PR_wait4, PR_waitpid, PR_execve, PR_execveat and PR_readlinkat, numbered as in
-- syscall/sysnums.list; FILTER_SYSEXIT.
abbrev pub filter_sysexit : ℕ
filter_sysexit = 1

abbrev pub internal_sysnums : List FilteredSysnum
internal_sysnums =
    record { value = 237; flags = filter_sysexit }
    ∷ record { value = 400; flags = filter_sysexit }
    ∷ record { value = 402; flags = filter_sysexit }
    ∷ record { value = 58; flags = filter_sysexit }
    ∷ record { value = 59; flags = filter_sysexit }
    ∷ record { value = 247; flags = filter_sysexit }
    ∷ []

-- Those of the list `internal` that are not in `sysnum_map`, the numbers below 512 of `added`.
unfoldable pub not_added : List FilteredSysnum → List FilteredSysnum → List FilteredSysnum
not_added added [] = []
not_added added (s ∷ internal) =
    let rest = not_added added internal in if has_sysnum s.value added then rest else s ∷ rest

unfoldable pub filtered_add_internal_sysnums : List FilteredSysnum → List FilteredSysnum
unfolding not_added
filtered_add_internal_sysnums added = added ++ not_added added internal_sysnums

-- `maps` is what `find_libc_exec_maps` leaves in `libc_start` and `libc_end`; `none` where the code
-- writes through NULL.
unfoldable pub enable_syscall_filtering :
    (ℕ → Bool)
    → Headers
    → ℕ × ℕ
    → List SeccompArch
    → Result (Unit {0})
    → (SockFprog → Result (Unit {0}))
    → List FilteredSysnum
    → Bool
    → Option (Result SockFprog)
unfolding filtered_add_internal_sysnums merge_filtered_sysnums set_seccomp_filters
enable_syscall_filtering grants headers maps archs privs install added exclude_libc =
    let libc : LibcRange = record {
      s_exclude_libc = exclude_libc;
      libc_start = maps.0;
      libc_end = maps.1;
    } in
    if grants (array_size (length added + length internal_sysnums + 1))
    then some (
        merge_filtered_sysnums grants none (filtered_add_internal_sysnums added) >>= λ sysnums.
        set_seccomp_filters grants headers sysnums libc archs privs install)
    else none
