-- ===== src/Seccomp/Filter.antt =====
-- The construction of the filter, from `new_program_filter` to `set_seccomp_filters`.
pub mod Shape
use abyss.Base.{
  ℕ, zero, suc, ◌+◌, ◌-◌, ◌*◌, ◌%◌, ◌^◌, Bool, not, List, [], ◌∷◌, ◌++◌, ltb, leb, ◌==◌,
  if◌then◌else◌, length, Result, ok, err, ◌>>=◌, erange, enomem,
}
use abyss.Seccomp.Bpf.{
  Code, ld_w_abs, jmp_jeq, jmp_jgt, jmp_jge, jmp_ja, ret_k, SockFilter, bpf_stmt, bpf_jump,
  nr_offset, arch_offset, instruction_pointer_offset,
}
use abyss.Syscall.Sysnum.{Abi, Headers, pr_void, syscall_avoider, detranslate_sysnum}

-- `struct sock_fprog`, with its 16-bit `len`. The array carries its length, as those of
-- cmn/cmn_vlarray.c do.
pub record SockFprog : Type 0 where
  pub len : ℕ
  pub filter : List SockFilter

-- `FilteredSysnum`
pub record FilteredSysnum : Type 0 where
  pub value : ℕ
  pub flags : ℕ

-- `SeccompArch`, with the `nb_abis` first of its `abis`.
pub record SeccompArch : Type 0 where
  pub value : ℕ
  pub abis : List Abi

-- The static variables `s_exclude_libc`, `libc_start` and `libc_end`.
pub record LibcRange : Type 0 where
  pub s_exclude_libc : Bool
  pub libc_start : ℕ
  pub libc_end : ℕ

abbrev pub seccomp_ret_kill : ℕ
seccomp_ret_kill = 0

abbrev pub seccomp_ret_trace : ℕ
seccomp_ret_trace = 0x7ff00000

abbrev pub seccomp_ret_allow : ℕ
seccomp_ret_allow = 0x7fff0000

abbrev pub uint32_max : ℕ
uint32_max = 2 ^ 32 - 1

abbrev pub length_trace_syscall : ℕ
length_trace_syscall = 2

abbrev pub length_end_section : ℕ
length_end_section = 1

abbrev pub section_length : ℕ → ℕ
section_length nb_traced_syscalls = length_end_section + nb_traced_syscalls * length_trace_syscall

-- The head of a section when the calls from libc are left out.
abbrev pub exclude_statements : ℕ → ℕ → LibcRange → List SockFilter
exclude_statements arch nb_traced_syscalls libc =
    bpf_stmt ld_w_abs arch_offset
    ∷ bpf_jump jmp_jeq arch 1 0
    ∷ bpf_stmt jmp_ja 4
    ∷ bpf_stmt ld_w_abs instruction_pointer_offset
    ∷ bpf_jump jmp_jgt libc.libc_end 0 1
    ∷ bpf_stmt jmp_ja 2
    ∷ bpf_jump jmp_jge libc.libc_start 0 1
    ∷ bpf_stmt jmp_ja (section_length nb_traced_syscalls)
    ∷ bpf_stmt ld_w_abs nr_offset
    ∷ []

abbrev pub plain_statements : ℕ → ℕ → List SockFilter
plain_statements arch nb_traced_syscalls =
    bpf_stmt ld_w_abs arch_offset
    ∷ bpf_jump jmp_jeq arch 1 0
    ∷ bpf_stmt jmp_ja (section_length nb_traced_syscalls + 1)
    ∷ bpf_stmt ld_w_abs nr_offset
    ∷ []

-- The first loops over the ABIs of an architecture and the filtered numbers (those before the
-- terminator).
module _ (headers : Headers) (sysnums : List FilteredSysnum) where
  unfoldable pub count_sysnums : Abi → List FilteredSysnum → ℕ
  count_sysnums abi [] = 0
  count_sysnums abi (s ∷ rest) =
      (if detranslate_sysnum headers abi s.value == syscall_avoider then 0 else 1)
      + count_sysnums abi rest

  unfoldable pub count_abis : List Abi → ℕ
  unfolding count_sysnums
  count_abis [] = 0
  count_abis (abi ∷ abis) = count_sysnums abi sysnums + count_abis abis

-- Whether malloc(3) and realloc(3) grant so many bytes.
module _ (grants : ℕ → Bool) where
  unfoldable pub new_program_filter : Result SockFprog
  new_program_filter = if grants 4 then ok (record { len = 0; filter = [] }) else err enomem

  unfoldable pub add_statements : SockFprog → List SockFilter → Result SockFprog
  add_statements program statements =
      if grants (8 * (length program.filter + length statements) + 4)
      then ok (record program { filter = program.filter ++ statements })
      else err enomem

  unfoldable pub add_trace_syscall : SockFprog → ℕ → ℕ → Result SockFprog
  unfolding add_statements
  add_trace_syscall program syscall flag =
      if ltb uint32_max syscall
      then err erange
      else add_statements program
          (bpf_jump jmp_jeq syscall 0 1 ∷ bpf_stmt ret_k (seccomp_ret_trace + flag) ∷ [])

  unfoldable pub end_arch_section : SockFprog → ℕ → Result SockFprog
  unfolding add_statements
  end_arch_section program nb_traced_syscalls = do
    program ← add_statements program (bpf_stmt ret_k seccomp_ret_allow ∷ [])
    if not (
          length program.filter - program.len
          == length_end_section + nb_traced_syscalls * length_trace_syscall)
        then err erange
        else ok program

  unfoldable pub start_arch_section : LibcRange → SockFprog → ℕ → ℕ → Result SockFprog
  unfolding add_statements
  start_arch_section libc program arch nb_traced_syscalls =
      if ltb (uint32_max - 1) (section_length nb_traced_syscalls)
      then err erange
      else (add_statements program (
            if libc.s_exclude_libc
            then exclude_statements arch nb_traced_syscalls libc
            else plain_statements arch nb_traced_syscalls)
          >>= λ program'. ok (record program' { len = length program'.filter % 2 ^ 16 }))

  unfoldable pub finalize_program_filter : SockFprog → Result SockFprog
  unfolding add_statements
  finalize_program_filter program =
      add_statements program (bpf_stmt ret_k seccomp_ret_kill ∷ []) >>= λ program'.
      ok (record program' { len = length program'.filter % 2 ^ 16 })

  -- The second loops.
  module _ (headers : Headers) (sysnums : List FilteredSysnum) where
    unfoldable pub trace_sysnum : Abi → FilteredSysnum → SockFprog → Result SockFprog
    unfolding add_trace_syscall
    trace_sysnum abi s program =
        let syscall = detranslate_sysnum headers abi s.value in
        if syscall == syscall_avoider then ok program else add_trace_syscall program syscall s.flags

    unfoldable pub trace_sysnums : Abi → List FilteredSysnum → SockFprog → Result SockFprog
    unfolding trace_sysnum
    trace_sysnums abi [] program = ok program
    trace_sysnums abi (s ∷ rest) program = trace_sysnum abi s program >>= trace_sysnums abi rest

    unfoldable pub trace_abis : List Abi → SockFprog → Result SockFprog
    unfolding trace_sysnums
    trace_abis [] program = ok program
    trace_abis (abi ∷ abis) program = trace_sysnums abi sysnums program >>= trace_abis abis

    -- One round of the loop over the architectures.
    unfoldable pub add_arch : LibcRange → SeccompArch → SockFprog → Result SockFprog
    unfolding count_abis start_arch_section trace_abis end_arch_section
    add_arch libc arch program =
        let nb_traced_syscalls = count_abis headers sysnums arch.abis in
        start_arch_section libc program arch.value nb_traced_syscalls
        >>= trace_abis arch.abis
        >>= λ program'. end_arch_section program' nb_traced_syscalls

    unfoldable pub add_archs : LibcRange → List SeccompArch → SockFprog → Result SockFprog
    unfolding add_arch
    add_archs libc [] program = ok program
    add_archs libc (arch ∷ archs) program = add_arch libc arch program >>= add_archs libc archs

    -- The two calls of prctl(2) at the end, with their results `privs` and `install`.
    unfoldable pub hand_over :
        Result (Unit {0}) → (SockFprog → Result (Unit {0})) → SockFprog → Result SockFprog
    hand_over privs install program = privs >>= λ _. install program >>= λ _. ok program

    -- The filter that the kernel has been given.
    unfoldable pub set_seccomp_filters :
        LibcRange
        → List SeccompArch
        → Result (Unit {0})
        → (SockFprog → Result (Unit {0}))
        → Result SockFprog
    unfolding new_program_filter add_archs finalize_program_filter hand_over
    set_seccomp_filters libc seccomp_archs privs install =
        new_program_filter
        >>= add_archs libc seccomp_archs
        >>= finalize_program_filter
        >>= hand_over privs install
