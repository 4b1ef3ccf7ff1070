-- ===== src/Seccomp/Filter/Shape.antt =====
-- What the filter looks like when its construction succeeds.
use mathlib.Core.Path.{subst}
use abyss.Base.{
  ◌%◌, ◌^◌, ◌<◌, ap, take, take-length, ℕ, ◌+◌, ◌≡◌, refl, sym, ◌∙◌, Bool, List, [], ◌∷◌, ◌++◌,
  append_assoc, append-nil, arith, ◌==◌, if◌then◌else◌, length, length-append, Result, ok, err,
  ◌>>=◌,
}
use abyss.Seccomp.Bpf.{SockFilter, bpf_stmt, bpf_jump, jmp_jeq, ret_k}
use abyss.Syscall.Sysnum.{Abi, Headers, syscall_avoider, detranslate_sysnum}
use abyss.Seccomp.Filter.{
  SockFprog, FilteredSysnum, SeccompArch, LibcRange, seccomp_ret_trace, seccomp_ret_allow,
  seccomp_ret_kill, exclude_statements, plain_statements, add_statements, add_trace_syscall,
  end_arch_section, start_arch_section, finalize_program_filter, count_sysnums, count_abis,
  trace_sysnum, trace_sysnums, trace_abis, add_arch, add_archs, new_program_filter, hand_over,
  set_seccomp_filters,
}

-- The architecture values to trace, with their flags, in the order of the loops.
module _ (headers : Headers) (sysnums : List FilteredSysnum) where
  unfoldable pub traced_sysnums : Abi → List FilteredSysnum → List (ℕ × ℕ)
  traced_sysnums abi [] = []
  traced_sysnums abi (s ∷ rest) =
      let syscall = detranslate_sysnum headers abi s.value in
      let more = traced_sysnums abi rest in
      if syscall == syscall_avoider then more else (syscall, s.flags) ∷ more

  unfoldable pub traced_abis : List Abi → List (ℕ × ℕ)
  unfolding traced_sysnums
  traced_abis [] = []
  traced_abis (abi ∷ abis) = traced_sysnums abi sysnums ++ traced_abis abis

-- The pair of statements for each of them.
unfoldable pub trace_statements : List (ℕ × ℕ) → List SockFilter
trace_statements [] = []
trace_statements ((syscall, flag) ∷ rest) =
    bpf_jump jmp_jeq syscall 0 1 ∷ bpf_stmt ret_k (seccomp_ret_trace + flag) ∷ trace_statements rest

unfoldable pub start_statements : LibcRange → ℕ → ℕ → List SockFilter
start_statements libc arch nb =
    if libc.s_exclude_libc then exclude_statements arch nb libc else plain_statements arch nb

-- A whole section.
unfoldable pub section_of : LibcRange → ℕ → List (ℕ × ℕ) → List SockFilter
section_of libc arch traced =
    start_statements libc arch (length traced)
    ++ (trace_statements traced ++ (bpf_stmt ret_k seccomp_ret_allow ∷ []))

unfoldable pub sections_of :
    Headers → List FilteredSysnum → LibcRange → List SeccompArch → List SockFilter
sections_of headers sysnums libc [] = []
sections_of headers sysnums libc (arch ∷ archs) =
    section_of libc arch.value (traced_abis headers sysnums arch.abis)
    ++ sections_of headers sysnums libc archs

-- A step that, unless it fails, appends `added`.
abbrev pub Appends : SockFprog → List SockFilter → Result SockFprog → Type 0
Appends program added (err e) = Unit
Appends program added (ok program') = program'.filter ≡ program.filter ++ added

-- A program of which the length has been set.
abbrev HasLength : Result SockFprog → Type 0
HasLength (err e) = Unit
HasLength (ok program) = program.len ≡ length program.filter % 2 ^ 16

HasLength-bind :
    (r : Result SockFprog) (k : SockFprog → Result SockFprog)
    → HasLength r
    → ((program : SockFprog) → HasLength (ok program) → HasLength (k program))
    → HasLength (r >>= k)
HasLength-bind (err e) k h g = tt
HasLength-bind (ok program) k h g = g program h

HasLength-last :
    (r : Result SockFprog) (k : SockFprog → Result SockFprog)
    → ((program : SockFprog) → HasLength (k program))
    → HasLength (r >>= k)
HasLength-last (err e) k g = tt
HasLength-last (ok program) k g = g program

Appends-bind :
    (program : SockFprog) (a b : List SockFilter) (r : Result SockFprog)
    (k : SockFprog → Result SockFprog)
    → Appends program a r
    → ((program' : SockFprog) → Appends program' b (k program'))
    → Appends program (a ++ b) (r >>= k)
Appends-bind program a b (err e) k h g = tt
Appends-bind program a b (ok program') k h g = go (k program') (g program')
  where
    go : (r : Result SockFprog) → Appends program' b r → Appends program (a ++ b) r
    go (err e) x = tt
    go (ok last) x = x ∙ rw h (append_assoc program.filter a b)

Appends-ok : (program : SockFprog) → Appends program [] (ok program)
Appends-ok program = sym (append-nil program.filter)

module _ (grants : ℕ → Bool) where
  add_statements-Appends :
      (program : SockFprog) (added : List SockFilter)
      → Appends program added (add_statements grants program added)
  unfolding add_statements
  add_statements-Appends program added = ground arith

  start_arch_section-Appends :
      (libc : LibcRange) (program : SockFprog) (arch nb : ℕ)
      → Appends program
          (start_statements libc arch nb)
          (start_arch_section grants libc program arch nb)
  unfolding start_arch_section start_statements add_statements
  start_arch_section-Appends libc program arch nb = ground arith

  end_arch_section-Appends :
      (program : SockFprog) (nb : ℕ)
      → Appends program (bpf_stmt ret_k seccomp_ret_allow ∷ []) (end_arch_section grants program nb)
  unfolding end_arch_section add_statements
  end_arch_section-Appends program nb = ground arith

  finalize-Appends :
      (program : SockFprog)
      → Appends program
          (bpf_stmt ret_k seccomp_ret_kill ∷ [])
          (finalize_program_filter grants program)
  unfolding finalize_program_filter add_statements
  finalize-Appends program = ground arith

pub trace_statements-append :
    (a b : List (ℕ × ℕ)) → trace_statements (a ++ b) ≡ trace_statements a ++ trace_statements b
unfolding trace_statements
trace_statements-append [] b = refl
trace_statements-append (x ∷ a) b = simp (trace_statements-append a b)

module _ (grants : ℕ → Bool) (headers : Headers) (sysnums : List FilteredSysnum) where
  trace_sysnum-Appends :
      (abi : Abi) (s : FilteredSysnum) (program : SockFprog)
      → Appends program
          (trace_statements (traced_sysnums headers sysnums abi (s ∷ [])))
          (trace_sysnum grants headers sysnums abi s program)
  unfolding trace_sysnum add_trace_syscall add_statements traced_sysnums trace_statements
  trace_sysnum-Appends abi s program = ground (arith, append-nil program.filter)

  pub traced_sysnums-cons :
      (abi : Abi) (s : FilteredSysnum) (rest : List FilteredSysnum)
      → traced_sysnums headers sysnums abi (s ∷ rest)
        ≡ traced_sysnums headers sysnums abi (s ∷ []) ++ traced_sysnums headers sysnums abi rest
  unfolding traced_sysnums
  traced_sysnums-cons abi s rest = ground arith

  trace_sysnums-Appends :
      (abi : Abi) (rest : List FilteredSysnum) (program : SockFprog)
      → Appends program
          (trace_statements (traced_sysnums headers sysnums abi rest))
          (trace_sysnums grants headers sysnums abi rest program)
  unfolding trace_sysnums
  trace_sysnums-Appends abi [] program =
      unfold traced_sysnums trace_statements in Appends-ok program
  trace_sysnums-Appends abi (s ∷ rest) program =
      rw (traced_sysnums-cons abi s rest, trace_statements-append)
        (Appends-bind program _ _ (trace_sysnum grants headers sysnums abi s program) _
          (trace_sysnum-Appends abi s program) (trace_sysnums-Appends abi rest))

  trace_abis-Appends :
      (abis : List Abi) (program : SockFprog)
      → Appends program
          (trace_statements (traced_abis headers sysnums abis))
          (trace_abis grants headers sysnums abis program)
  unfolding trace_abis traced_abis
  trace_abis-Appends [] program = unfold trace_statements in Appends-ok program
  trace_abis-Appends (abi ∷ abis) program = rw trace_statements-append (
      Appends-bind program _ _ (trace_sysnums grants headers sysnums abi sysnums program) _
        (trace_sysnums-Appends abi sysnums program) (trace_abis-Appends abis))

  count_sysnums-length :
      (abi : Abi) (rest : List FilteredSysnum)
      → count_sysnums headers sysnums abi rest ≡ length (traced_sysnums headers sysnums abi rest)
  unfolding count_sysnums traced_sysnums
  count_sysnums-length abi [] = refl
  count_sysnums-length abi (s ∷ rest) = ground (arith, count_sysnums-length abi rest)

  pub count_abis-length :
      (abis : List Abi)
      → count_abis headers sysnums abis ≡ length (traced_abis headers sysnums abis)
  unfolding count_abis traced_abis
  count_abis-length [] = refl
  count_abis-length (abi ∷ abis) = omega (
    arith,
    count_sysnums-length abi sysnums,
    count_abis-length abis,
    length-append (traced_sysnums headers sysnums abi sysnums) (traced_abis headers sysnums abis),
  )

  pub add_arch-Appends :
      (libc : LibcRange) (arch : SeccompArch) (program : SockFprog)
      → Appends program
          (section_of libc arch.value (traced_abis headers sysnums arch.abis))
          (add_arch grants headers sysnums libc arch program)
  unfolding add_arch section_of
  add_arch-Appends libc arch program =
      let nb = count_abis headers sysnums arch.abis in
      let traced = trace_statements (traced_abis headers sysnums arch.abis) in
      rw
        (
          ← count_abis-length arch.abis,
          ← append_assoc (start_statements libc arch.value nb) traced
              (bpf_stmt ret_k seccomp_ret_allow ∷ []),
        )
        (Appends-bind program (start_statements libc arch.value nb ++ traced) _
          (start_arch_section grants libc program arch.value nb
            >>= trace_abis grants headers sysnums arch.abis)
          (λ p. end_arch_section grants p nb)
          (Appends-bind program _ _ (start_arch_section grants libc program arch.value nb) _
            (start_arch_section-Appends grants libc program arch.value nb)
            (trace_abis-Appends arch.abis))
          (λ q. end_arch_section-Appends grants q nb))

  add_archs-Appends :
      (libc : LibcRange) (archs : List SeccompArch) (program : SockFprog)
      → Appends program
          (sections_of headers sysnums libc archs)
          (add_archs grants headers sysnums libc archs program)
  unfolding add_archs sections_of
  add_archs-Appends libc [] program = Appends-ok program
  add_archs-Appends libc (arch ∷ archs) program =
      Appends-bind program _ _ (add_arch grants headers sysnums libc arch program) _
        (add_arch-Appends libc arch program) (add_archs-Appends libc archs)

  abbrev empty : SockFprog
  empty = record { len = 0; filter = [] }

  hand_over-Appends :
      (privs : Result (Unit {0})) (install : SockFprog → Result (Unit {0})) (program : SockFprog)
      → Appends program [] (hand_over grants headers sysnums privs install program)
  unfolding hand_over
  hand_over-Appends (err e) install program = tt
  hand_over-Appends (ok u) install program = ground (arith, append-nil program.filter)

  new_program_filter-Appends : Appends empty [] (new_program_filter grants)
  unfolding new_program_filter
  new_program_filter-Appends = ground arith

  built-filter :
      (libc : LibcRange) (archs : List SeccompArch) (privs : Result (Unit {0}))
      (install : SockFprog → Result (Unit {0})) {program : SockFprog}
      → set_seccomp_filters grants headers sysnums libc archs privs install ≡ ok program
      → program.filter
        ≡ sections_of headers sysnums libc archs ++ (bpf_stmt ret_k seccomp_ret_kill ∷ [])
  unfolding set_seccomp_filters
  built-filter libc archs privs install h =
      let sections = sections_of headers sysnums libc archs in
      let kill = bpf_stmt ret_k seccomp_ret_kill ∷ [] in
      let start = new_program_filter grants in
      let built = start >>= add_archs grants headers sysnums libc archs in
      rw append-nil at (
        subst (Appends empty ((sections ++ kill) ++ [])) h (
          Appends-bind empty (sections ++ kill) [] (built >>= finalize_program_filter grants)
            (hand_over grants headers sysnums privs install)
            (Appends-bind empty sections kill built (finalize_program_filter grants)
              (Appends-bind empty [] sections start (add_archs grants headers sysnums libc archs)
                new_program_filter-Appends (add_archs-Appends libc archs))
              (finalize-Appends grants))
            (hand_over-Appends privs install)))

  finalize-HasLength : (program : SockFprog) → HasLength (finalize_program_filter grants program)
  unfolding finalize_program_filter add_statements
  finalize-HasLength program = ground arith

  hand_over-HasLength :
      (privs : Result (Unit {0})) (install : SockFprog → Result (Unit {0})) (program : SockFprog)
      → HasLength (ok program)
      → HasLength (hand_over grants headers sysnums privs install program)
  unfolding hand_over
  hand_over-HasLength (err e) install program h = tt
  hand_over-HasLength (ok u) install program h = ground arith

  built-length :
      (libc : LibcRange) (archs : List SeccompArch) (privs : Result (Unit {0}))
      (install : SockFprog → Result (Unit {0}))
      → HasLength (set_seccomp_filters grants headers sysnums libc archs privs install)
  unfolding set_seccomp_filters
  built-length libc archs privs install =
      HasLength-bind
        (new_program_filter grants
          >>= add_archs grants headers sysnums libc archs
          >>= finalize_program_filter grants)
        (hand_over grants headers sysnums privs install)
        (HasLength-last (new_program_filter grants >>= add_archs grants headers sysnums libc archs)
          (finalize_program_filter grants) finalize-HasLength)
        (hand_over-HasLength privs install)

  -- When `set_seccomp_filters` succeeds, the array that the kernel has been given is one section for
  -- each architecture, in order, and then the statement that kills; and the length that goes with
  -- it, which says how many statements are taken, is that of the array, cut to 16 bits.
  pub set_seccomp_filters-filter :
      (libc : LibcRange) (archs : List SeccompArch) (privs : Result (Unit {0}))
      (install : SockFprog → Result (Unit {0})) {program : SockFprog}
      → set_seccomp_filters grants headers sysnums libc archs privs install ≡ ok program
      → (program.filter
          ≡ sections_of headers sysnums libc archs ++ (bpf_stmt ret_k seccomp_ret_kill ∷ []))
        × (program.len ≡ length program.filter % 2 ^ 16)
  set_seccomp_filters-filter libc archs privs install h = (
    built-filter libc archs privs install h,
    subst HasLength h (built-length libc archs privs install),
  )

  -- What the kernel takes, when the statements fit in the length.
  pub installed-taken :
      (libc : LibcRange) (archs : List SeccompArch) (privs : Result (Unit {0}))
      (install : SockFprog → Result (Unit {0})) {program : SockFprog}
      → length (sections_of headers sysnums libc archs) + 1 < 2 ^ 16
      → set_seccomp_filters grants headers sysnums libc archs privs install ≡ ok program
      → take program.len program.filter
        ≡ sections_of headers sysnums libc archs ++ (bpf_stmt ret_k seccomp_ret_kill ∷ [])
  installed-taken libc archs privs install {program} room h =
      let sections = sections_of headers sysnums libc archs in
      let kill = bpf_stmt ret_k seccomp_ret_kill ∷ [] in
      let (is, counted) = set_seccomp_filters-filter libc archs privs install h in
      let size : length program.filter ≡ length sections + 1 =
        ap length is ∙ length-append sections kill in
      let whole : program.len ≡ length program.filter = omega (arith, counted, size, room) in
      ap (λ n. take n program.filter) whole ∙ take-length program.filter ∙ is
