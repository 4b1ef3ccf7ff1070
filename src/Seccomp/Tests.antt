-- ===== src/Seccomp/Tests.antt =====
-- A machine that runs the filters, and filters run on it.
use abyss.Base.{
  take, ◌+◌, ℕ, zero, suc, ◌%◌, ◌^◌, ◌<◌, ◌≡◌, refl, Bool, true, false, List, [], ◌∷◌, ◌++◌, arith,
  ltb, leb, ◌==◌, if◌then◌else◌, drop, length, Option, none, some, Result, ok,
}
use abyss.Seccomp.Bpf.{
  ld_w_abs, jmp_jeq, jmp_jgt, jmp_jge, jmp_ja, ret_k, SockFilter, bpf_stmt, SeccompData, Machine,
  nr_offset, arch_offset,
}
use abyss.Seccomp.Filter.{
  SockFprog, FilteredSysnum, SeccompArch, LibcRange, set_seccomp_filters, seccomp_ret_allow,
  seccomp_ret_kill, seccomp_ret_trace,
}
use abyss.Seccomp.Filter.Shape.{
  traced_abis, trace_statements, start_statements, section_of, sections_of,
  set_seccomp_filters-filter,
}
use abyss.Seccomp.Verdict.{traced_verdict, filter_verdict, in_libc, ArchsFit}
use abyss.Seccomp.Verdict.Run.{run-set_seccomp_filters, run-set_seccomp_filters_exclude}
use abyss.Seccomp.Merge.{merge_filtered_sysnums, filtered_add_internal_sysnums, has_sysnum}
use abyss.Seccomp.Merge.Flags.{
  flags_of, merged_flags, merge_filtered_sysnums-flags, enable_syscall_filtering-flags,
}
use abyss.Seccomp.Installs.{set_seccomp_filters_total}
use abyss.Syscall.Sysnum.{Headers, detranslate_sysnum, abi_default, abi_2}

abbrev load : ℕ → SeccompData → ℕ
load k d =
    if k == nr_offset
    then d.nr
    else if k == arch_offset
    then d.arch
    else d.instruction_pointer % 2 ^ 32

-- `n` statements are still to be skipped.
unfoldable exec : List SockFilter → SeccompData → ℕ → ℕ → Option ℕ
exec [] d a n = none
exec (s ∷ p) d a (suc n) = exec p d a n
exec (s ∷ p) d a zero = elim s.code [
  | ld_w_abs ↦ exec p d (load s.k d) 0
  | jmp_jeq ↦ exec p d a (if a == s.k then s.jt else s.jf)
  | jmp_jgt ↦ exec p d a (if ltb s.k a then s.jt else s.jf)
  | jmp_jge ↦ exec p d a (if leb s.k a then s.jt else s.jf)
  | jmp_ja ↦ exec p d a s.k
  | ret_k ↦ some s.k
]

exec-drop : (p : List SockFilter) (d : SeccompData) (a n : ℕ) → exec p d a n ≡ exec (drop n p) d a 0
unfolding exec
exec-drop [] d a zero = refl
exec-drop [] d a (suc n) = refl
exec-drop (s ∷ p) d a zero = refl
exec-drop (s ∷ p) d a (suc n) = exec-drop p d a n

abbrev machine : Machine
machine = record {
  run = λ p d a. exec p d a 0;
  run_nr = λ p d a. unfold exec in refl;
  run_arch = λ p d a. unfold exec in refl;
  run_instruction_pointer = λ p d a. unfold exec in refl;
  run_jeq = λ k jt jf p d a. unfold exec in exec-drop p d a _;
  run_jgt = λ k jt jf p d a. unfold exec in exec-drop p d a _;
  run_jge = λ k jt jf p d a. unfold exec in exec-drop p d a _;
  run_ja = λ k p d a. unfold exec in exec-drop p d a _;
  run_ret = λ k p d a. unfold exec in refl;
}

-- Two architectures; in their table, `openat` has the number 2 and `execve` the number 3.
abbrev headers : Headers
headers = record { abi1 = 0 ∷ 11 ∷ 12 ∷ 13 ∷ []; abi2 = 0 ∷ 0 ∷ 0 ∷ 0 ∷ 12 ∷ []; abi3 = [] }

abbrev sysnums : List FilteredSysnum
sysnums = record { value = 12; flags = 0 } ∷ record { value = 13; flags = 1 } ∷ []

abbrev archs : List SeccompArch
archs =
    record { value = 0xC00000B7; abis = abi_default ∷ [] }
    ∷ record { value = 0x40000028; abis = abi_2 ∷ [] }
    ∷ []

abbrev everywhere : LibcRange
everywhere = record { s_exclude_libc = false; libc_start = 0; libc_end = 0 }

abbrev but_libc : LibcRange
but_libc = record { s_exclude_libc = true; libc_start = 0x1000; libc_end = 0x2000 }

abbrev memory : ℕ → Bool
memory n = true

abbrev accepts : SockFprog → Result (Unit {0})
accepts program = ok tt

abbrev filter_of : LibcRange → List SockFilter
filter_of libc = sections_of headers sysnums libc archs ++ (bpf_stmt ret_k seccomp_ret_kill ∷ [])

abbrev first_call : SeccompData
first_call = record { nr = 3; arch = 0xC00000B7; instruction_pointer = 0x5000 }

abbrev second_call : SeccompData
second_call = record { nr = 4; arch = 0x40000028; instruction_pointer = 0x5000 }

section_lengths : ArchsFit headers sysnums archs
unfolding traced_abis detranslate_sysnum
section_lengths = (
  (omega arith, omega arith, (omega arith, omega arith, (omega arith, omega arith, tt))),
  ((omega arith, omega arith, (omega arith, omega arith, tt)), tt),
)

abbrev installed : LibcRange → SockFprog
installed libc = record { len = length (filter_of libc) % 2 ^ 16; filter = filter_of libc }

installs_everywhere :
    set_seccomp_filters memory headers sysnums everywhere archs (ok tt) accepts
    ≡ ok (installed everywhere)
unfolding set_seccomp_filters sections_of section_of start_statements traced_abis trace_statements
    detranslate_sysnum
installs_everywhere = refl

installs_but_libc :
    set_seccomp_filters memory headers sysnums but_libc archs (ok tt) accepts
    ≡ ok (installed but_libc)
unfolding set_seccomp_filters sections_of section_of start_statements traced_abis trace_statements
    detranslate_sysnum
installs_but_libc = refl

-- The filter is of use: `openat` in the second architecture is traced, without libc excluded ...
traces_second : machine.run (filter_of everywhere) second_call 0 ≡ some seccomp_ret_trace
unfolding exec sections_of section_of start_statements traced_abis trace_statements
    detranslate_sysnum
traces_second = refl

-- ... and is let through with it.
allows_second : machine.run (filter_of but_libc) second_call 0 ≡ some seccomp_ret_allow
unfolding exec sections_of section_of start_statements traced_abis trace_statements
    detranslate_sysnum
allows_second = refl

set_seccomp_filters-filter_example :
    ((installed everywhere).filter
      ≡ sections_of headers sysnums everywhere archs ++ (bpf_stmt ret_k seccomp_ret_kill ∷ []))
    × ((installed everywhere).len ≡ length (filter_of everywhere) % 2 ^ 16)
set_seccomp_filters-filter_example =
    set_seccomp_filters-filter memory headers sysnums everywhere archs (ok tt) accepts
      installs_everywhere

short_filter : length (sections_of headers sysnums but_libc archs) < 2 ^ 16
unfolding sections_of section_of start_statements traced_abis trace_statements detranslate_sysnum
short_filter = omega arith

set_seccomp_filters_total_example :
    (program : SockFprog) × (set_seccomp_filters memory headers sysnums but_libc archs
        (ok tt)
        accepts
      ≡ ok program)
set_seccomp_filters_total_example =
    set_seccomp_filters_total memory (λ n. refl) headers sysnums but_libc archs accepts
      (λ program. refl) section_lengths short_filter

room_everywhere : length (sections_of headers sysnums everywhere archs) + 1 < 2 ^ 16
unfolding sections_of section_of start_statements traced_abis trace_statements detranslate_sysnum
room_everywhere = omega arith

room_but_libc : length (sections_of headers sysnums but_libc archs) + 1 < 2 ^ 16
unfolding sections_of section_of start_statements traced_abis trace_statements detranslate_sysnum
room_but_libc = omega arith

run-set_seccomp_filters_example :
    machine.run (take (installed everywhere).len (installed everywhere).filter) second_call 0
    ≡ some (filter_verdict headers sysnums archs second_call)
run-set_seccomp_filters_example =
    run-set_seccomp_filters machine memory headers sysnums everywhere archs (ok tt) accepts
      second_call refl section_lengths room_everywhere installs_everywhere

run-set_seccomp_filters_exclude_example :
    machine.run (take (installed but_libc).len (installed but_libc).filter) first_call 0
    ≡ some (traced_verdict 3 (traced_abis headers sysnums (abi_default ∷ [])))
unfolding in_libc
run-set_seccomp_filters_exclude_example =
    run-set_seccomp_filters_exclude machine memory headers sysnums but_libc
      (record { value = 0xC00000B7; abis = abi_default ∷ [] })
      (record { value = 0x40000028; abis = abi_2 ∷ [] } ∷ []) (ok tt) accepts first_call refl
      section_lengths.0 room_but_libc installs_but_libc

-- The caller asks for `execve` (58) without FILTER_SYSEXIT, and twice for the number 12.
abbrev asked : List FilteredSysnum
asked =
    record { value = 58; flags = 0 }
    ∷ record { value = 12; flags = 2 }
    ∷ record { value = 12; flags = 4 }
    ∷ []

abbrev filtered : List FilteredSysnum
filtered =
    record { value = 58; flags = 0 }
    ∷ record { value = 12; flags = 6 }
    ∷ record { value = 237; flags = 1 }
    ∷ record { value = 400; flags = 1 }
    ∷ record { value = 402; flags = 1 }
    ∷ record { value = 59; flags = 1 }
    ∷ record { value = 247; flags = 1 }
    ∷ []

merges_asked :
    merge_filtered_sysnums memory none (filtered_add_internal_sysnums asked) ≡ ok filtered
unfolding merge_filtered_sysnums filtered_add_internal_sysnums
merges_asked = refl

merge_filtered_sysnums-flags_example :
    flags_of 12 filtered ≡ merged_flags 12 none (filtered_add_internal_sysnums asked)
unfolding flags_of
merge_filtered_sysnums-flags_example =
    merge_filtered_sysnums-flags memory none (filtered_add_internal_sysnums asked) 12 merges_asked

-- An internal number that the caller adds keeps the caller's flags alone.
enable_syscall_filtering-flags_example : flags_of 58 filtered ≡ some 0
unfolding has_sysnum merged_flags
enable_syscall_filtering-flags_example = enable_syscall_filtering-flags memory asked 58 merges_asked
