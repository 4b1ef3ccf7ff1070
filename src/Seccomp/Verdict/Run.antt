-- ===== src/Seccomp/Verdict/Run.antt =====
-- Running the filter, statement by statement.
use abyss.Base.{
  take, ℕ, ◌+◌, ◌*◌, ◌%◌, ◌^◌, ◌<◌, ◌≡◌, refl, sym, ap, ◌∙◌, Bool, true, false, not, ◌&&◌, inl, inr,
  List, [], ◌∷◌, ◌++◌, append_assoc, arith, ltb, leb, ◌==◌, Bool-cases, if◌then◌else◌, length, drop,
  length-append, drop-append_left, some, Result, ok,
}
use abyss.Seccomp.Bpf.{
  SockFilter, bpf_stmt, ld_w_abs, jmp_ja, ret_k, nr_offset, SeccompData, Machine,
}
use abyss.Seccomp.Filter.{
  SockFprog, FilteredSysnum, SeccompArch, LibcRange, seccomp_ret_trace, seccomp_ret_allow,
  seccomp_ret_kill, section_length, plain_statements, exclude_statements, set_seccomp_filters,
}
use abyss.Seccomp.Filter.Shape.{
  traced_abis, trace_statements, start_statements, section_of, sections_of, installed-taken,
}
use abyss.Seccomp.Verdict.{traced_verdict, filter_verdict, in_libc, AllFit, ArchFits, ArchsFit}
use abyss.Syscall.Sysnum.{Headers}

abbrev allow : SockFilter
allow = bpf_stmt ret_k seccomp_ret_allow

pub length-trace_statements :
    (traced : List (ℕ × ℕ)) → length (trace_statements traced) ≡ length traced * 2
unfolding trace_statements
length-trace_statements [] = refl
length-trace_statements (x ∷ traced) = omega (arith, length-trace_statements traced)

mod_small : (n : ℕ) → n < 2 ^ 32 → n % 2 ^ 32 ≡ n
mod_small n h = omega arith

-- The jump over a section, to its last statement, and the jump past it.
drop_to_allow :
    (s : SockFilter) (traced : List (ℕ × ℕ)) (rest : List SockFilter)
    → length traced < 2 ^ 30
    → drop (section_length (length traced) % 2 ^ 32) (s ∷ (trace_statements traced ++ rest)) ≡ rest
drop_to_allow s traced rest short =
    ap (λ n. drop n (s ∷ (trace_statements traced ++ rest)))
      {y = length (s ∷ trace_statements traced)} (omega (arith, length-trace_statements traced))
    ∙ drop-append_left (s ∷ trace_statements traced) rest

drop_past :
    (s : SockFilter) (traced : List (ℕ × ℕ)) (rest : List SockFilter)
    → length traced < 2 ^ 30
    → drop
        ((section_length (length traced) + 1) % 2 ^ 32)
        (s ∷ (trace_statements traced ++ (allow ∷ rest)))
      ≡ rest
drop_past s traced rest short =
    let body : List SockFilter = s ∷ (trace_statements traced ++ (allow ∷ [])) in
    ap (λ (l : List SockFilter). drop ((section_length (length traced) + 1) % 2 ^ 32) (s ∷ l))
      (sym (append_assoc (trace_statements traced) (allow ∷ []) rest))
    ∙ ap (λ n. drop n (body ++ rest)) {y = length body}
        (omega (
          arith,
          length-trace_statements traced,
          length-append (trace_statements traced) (allow ∷ []),
        ))
    ∙ drop-append_left body rest

module _ (libc : LibcRange) (d : SeccompData) where
  in_libc_above :
      ltb (libc.libc_end % 2 ^ 32) (d.instruction_pointer % 2 ^ 32) ≡ true → in_libc libc d ≡ false
  unfolding in_libc
  in_libc_above h = ground arith

  in_libc_before :
      leb (libc.libc_start % 2 ^ 32) (d.instruction_pointer % 2 ^ 32) ≡ false
      → in_libc libc d ≡ false
  unfolding in_libc
  in_libc_before h = ground arith

  in_libc_inside :
      ltb (libc.libc_end % 2 ^ 32) (d.instruction_pointer % 2 ^ 32) ≡ false
      → leb (libc.libc_start % 2 ^ 32) (d.instruction_pointer % 2 ^ 32) ≡ true
      → in_libc libc d ≡ true
  unfolding in_libc
  in_libc_inside h g = ground arith

start_plain :
    (libc : LibcRange) (arch nb : ℕ)
    → libc.s_exclude_libc ≡ false
    → start_statements libc arch nb ≡ plain_statements arch nb
unfolding start_statements
start_plain libc arch nb off = rw off

start_exclude :
    (libc : LibcRange) (arch nb : ℕ)
    → libc.s_exclude_libc ≡ true
    → start_statements libc arch nb ≡ exclude_statements arch nb libc
unfolding start_statements
start_exclude libc arch nb on = rw on

section_of-append :
    (libc : LibcRange) (arch : ℕ) (traced : List (ℕ × ℕ)) (a b : List SockFilter)
    → (section_of libc arch traced ++ a) ++ b
      ≡ start_statements libc arch (length traced)
        ++ (trace_statements traced ++ (allow ∷ (a ++ b)))
unfolding section_of
section_of-append libc arch traced a b = simp append_assoc

module _ (m : Machine) where
  -- Behind the head of a section the accumulator holds the number.
  run-trace_statements :
      (traced : List (ℕ × ℕ)) (rest : List SockFilter) (d : SeccompData)
      → AllFit traced
      → m.run (trace_statements traced ++ (allow ∷ rest)) d d.nr ≡ some (traced_verdict d.nr traced)
  unfolding trace_statements traced_verdict
  run-trace_statements [] rest d fit = m.run_ret seccomp_ret_allow rest d d.nr
  run-trace_statements ((syscall, flag) ∷ traced) rest d fit =
      m.run_jeq syscall 0 1 _ d d.nr ∙ elim (Bool-cases (d.nr == syscall)) [
        | inl hit ↦
            rw (mod_small syscall fit.0, hit)
              (m.run_ret (seccomp_ret_trace + flag) _ d d.nr ∙ ap some (omega arith))
        | inr miss ↦ rw (mod_small syscall fit.0, miss) (run-trace_statements traced rest d fit.2)
      ]

  run-plain :
      (arch : ℕ) (traced : List (ℕ × ℕ)) (rest : List SockFilter) (d : SeccompData) (a : ℕ)
      → arch < 2 ^ 32
      → length traced < 2 ^ 30
      → AllFit traced
      → m.run
          (plain_statements arch (length traced) ++ (trace_statements traced ++ (allow ∷ rest)))
          d
          a
        ≡ (if d.arch == arch then some (traced_verdict d.nr traced) else m.run rest d d.arch)
  run-plain arch traced rest d a small short fit =
      m.run_arch _ d a ∙ m.run_jeq arch 1 0 _ d d.arch ∙ elim (Bool-cases (d.arch == arch)) [
        | inl hit ↦
            rw (mod_small arch small, hit)
              (m.run_nr _ d d.arch ∙ run-trace_statements traced rest d fit)
        | inr miss ↦
            rw (mod_small arch small, miss)
              (m.run_ja (section_length (length traced) + 1) _ d d.arch
                ∙ ap (λ p. m.run p d d.arch)
                    (drop_past (bpf_stmt ld_w_abs nr_offset) traced rest short))
      ]

  -- With libc left out, no path through a section leads to what follows it.
  run-exclude :
      (libc : LibcRange) (arch : ℕ) (traced : List (ℕ × ℕ)) (rest : List SockFilter)
      (d : SeccompData) (a : ℕ)
      → arch < 2 ^ 32
      → length traced < 2 ^ 30
      → AllFit traced
      → m.run
          (exclude_statements arch (length traced) libc
            ++ (trace_statements traced ++ (allow ∷ rest)))
          d
          a
        ≡ some (
            if d.arch == arch && not (in_libc libc d)
            then traced_verdict d.nr traced
            else seccomp_ret_allow)
  run-exclude libc arch traced rest d a small short fit =
      let ip = d.instruction_pointer % 2 ^ 32 in
      let skip : (x : ℕ)
          → m.run
              (bpf_stmt jmp_ja (section_length (length traced))
                ∷ bpf_stmt ld_w_abs nr_offset
                ∷ (trace_statements traced ++ (allow ∷ rest)))
              d x
            ≡ some seccomp_ret_allow =
        λ x.
          m.run_ja (section_length (length traced)) _ d x
          ∙ ap (λ p. m.run p d x)
              (drop_to_allow (bpf_stmt ld_w_abs nr_offset) traced (allow ∷ rest) short)
          ∙ m.run_ret seccomp_ret_allow rest d x in
      let match : (x : ℕ)
          → m.run (bpf_stmt ld_w_abs nr_offset ∷ (trace_statements traced ++ (allow ∷ rest))) d x
            ≡ some (traced_verdict d.nr traced) =
        λ x. m.run_nr _ d x ∙ run-trace_statements traced rest d fit in
      m.run_arch _ d a ∙ m.run_jeq arch 1 0 _ d d.arch ∙ elim (Bool-cases (d.arch == arch)) [
        | inr miss ↦ rw (mod_small arch small, miss) (m.run_ja 4 _ d d.arch ∙ skip d.arch)
        | inl hit ↦
            rw (mod_small arch small, hit)
              (m.run_instruction_pointer _ d d.arch
                ∙ m.run_jgt libc.libc_end 0 1 _ d ip
                ∙ elim (Bool-cases (ltb (libc.libc_end % 2 ^ 32) ip)) [
                  | inl above ↦
                      rw (above, in_libc_above libc d above) (m.run_ja 2 _ d ip ∙ match ip)
                  | inr below ↦ rw below (
                      m.run_jge libc.libc_start 0 1 _ d ip
                      ∙ elim (Bool-cases (leb (libc.libc_start % 2 ^ 32) ip)) [
                        | inl inside ↦ rw (inside, in_libc_inside libc d below inside) (skip ip)
                        | inr before ↦ rw (before, in_libc_before libc d before) (match ip)
                      ])
                ])
      ]

  run-sections_plain :
      (headers : Headers) (sysnums : List FilteredSysnum) (libc : LibcRange)
      (archs : List SeccompArch) (d : SeccompData) (a : ℕ)
      → libc.s_exclude_libc ≡ false
      → ArchsFit headers sysnums archs
      → m.run (sections_of headers sysnums libc archs ++ (bpf_stmt ret_k seccomp_ret_kill ∷ [])) d a
        ≡ some (filter_verdict headers sysnums archs d)
  unfolding sections_of filter_verdict
  run-sections_plain headers sysnums libc [] d a off fit = m.run_ret seccomp_ret_kill [] d a
  run-sections_plain headers sysnums libc (arch ∷ archs) d a off fit =
      let traced = traced_abis headers sysnums arch.abis in
      let rest = sections_of headers sysnums libc archs ++ (bpf_stmt ret_k seccomp_ret_kill ∷ []) in
      let (small, short, fits) = fit.0 in
      ap (λ p. m.run p d a)
        (section_of-append libc arch.value traced _ _
          ∙ ap (λ (l : List SockFilter). l ++ (trace_statements traced ++ (allow ∷ rest)))
              (start_plain libc arch.value (length traced) off))
      ∙ run-plain arch.value traced rest d a small short fits
      ∙ elim (Bool-cases (d.arch == arch.value)) [
        | inl hit ↦ rw hit
        | inr miss ↦ rw miss (run-sections_plain headers sysnums libc archs d d.arch off fit.1)
      ]

  -- With every call filtered: the filter that `set_seccomp_filters` installs answers TRACE with the
  -- flags of the first entry for the number in the section of the data's architecture, ALLOW for
  -- a number that is not traced there, and KILL for an architecture that is not handled. The
  -- architecture values, the numbers, the flags and the lengths of the sections fit in the
  -- statements, and the statements are fewer than 2^16, so that the 16-bit length that goes with the
  -- array, by which the kernel takes them, is theirs.
  pub run-set_seccomp_filters :
      (grants : ℕ → Bool) (headers : Headers) (sysnums : List FilteredSysnum) (libc : LibcRange)
      (archs : List SeccompArch) (privs : Result (Unit {0}))
      (install : SockFprog → Result (Unit {0})) {program : SockFprog} (d : SeccompData)
      → libc.s_exclude_libc ≡ false
      → ArchsFit headers sysnums archs
      → length (sections_of headers sysnums libc archs) + 1 < 2 ^ 16
      → set_seccomp_filters grants headers sysnums libc archs privs install ≡ ok program
      → m.run (take program.len program.filter) d 0 ≡ some (filter_verdict headers sysnums archs d)
  run-set_seccomp_filters grants headers sysnums libc archs privs install d off fit room h =
      rw (installed-taken grants headers sysnums libc archs privs install room h)
        (run-sections_plain headers sysnums libc archs d 0 off fit)

  -- With the calls from libc left out: the section of the first architecture decides alone. It
  -- traces as without the exclusion when the architecture is its own and the instruction pointer
  -- is outside libc; it answers ALLOW otherwise, for every other architecture too, so that the
  -- later sections and the KILL are never reached. The statements are fewer than 2^16, so that the
  -- length by which the kernel takes them is theirs.
  pub run-set_seccomp_filters_exclude :
      (grants : ℕ → Bool) (headers : Headers) (sysnums : List FilteredSysnum) (libc : LibcRange)
      (arch : SeccompArch) (archs : List SeccompArch) (privs : Result (Unit {0}))
      (install : SockFprog → Result (Unit {0})) {program : SockFprog} (d : SeccompData)
      → libc.s_exclude_libc ≡ true
      → ArchFits headers sysnums arch
      → length (sections_of headers sysnums libc (arch ∷ archs)) + 1 < 2 ^ 16
      → set_seccomp_filters grants headers sysnums libc (arch ∷ archs) privs install ≡ ok program
      → m.run (take program.len program.filter) d 0
        ≡ some (
            if d.arch == arch.value && not (in_libc libc d)
            then traced_verdict d.nr (traced_abis headers sysnums arch.abis)
            else seccomp_ret_allow)
  unfolding sections_of
  run-set_seccomp_filters_exclude grants headers sysnums libc arch archs privs install d on fit room
        h =
      rw (installed-taken grants headers sysnums libc (arch ∷ archs) privs install room h) (
        let traced = traced_abis headers sysnums arch.abis in
        let (small, short, fits) = fit in
        ap (λ p. m.run p d 0)
          (section_of-append libc arch.value traced _ _
            ∙ ap
                (λ (l : List SockFilter).
                  l
                  ++ (trace_statements traced
                      ++ (allow
                          ∷ (sections_of headers sysnums libc archs
                              ++ (bpf_stmt ret_k seccomp_ret_kill ∷ [])))))
                (start_exclude libc arch.value (length traced) on))
        ∙ run-exclude libc arch.value traced _ d 0 small short fits)
