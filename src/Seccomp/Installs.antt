-- ===== src/Seccomp/Installs.antt =====
-- When the construction of the filter succeeds.
use mathlib.Core.Path.{subst}
use abyss.Base.{
  ℕ, ◌+◌, ◌-◌, ◌*◌, ◌%◌, ◌^◌, ◌<◌, ◌≡◌, refl, sym, ap, ◌∙◌, Bool, true, false, inl, inr, List, [],
  ◌∷◌, ◌++◌, append_assoc, append-nil, arith, ltb, ◌==◌, Bool-cases, length, length-append, Result,
  ok, ◌>>=◌,
}
use abyss.Seccomp.Bpf.{SockFilter, bpf_stmt, ret_k}
use abyss.Syscall.Sysnum.{Abi, Headers, syscall_avoider, detranslate_sysnum}
use abyss.Seccomp.Filter.{
  SockFprog, FilteredSysnum, SeccompArch, LibcRange, seccomp_ret_allow, seccomp_ret_kill,
  add_statements, add_trace_syscall, end_arch_section, start_arch_section, finalize_program_filter,
  count_abis, trace_sysnum, trace_sysnums, trace_abis, add_arch, add_archs, new_program_filter,
  hand_over, set_seccomp_filters, uint32_max,
}
use abyss.Seccomp.Filter.Shape.{
  traced_sysnums, traced_abis, Appends, add_arch-Appends, section_of, sections_of, trace_statements,
  start_statements, trace_statements-append, traced_sysnums-cons, count_abis-length,
}
use abyss.Seccomp.Verdict.{AllFit, ArchsFit}
use abyss.Seccomp.Verdict.Run.{length-trace_statements}

-- A step that succeeds, appends `added` and leaves `len`.
record Steps (program : SockFprog) (added : List SockFilter) (r : Result SockFprog) : Type 0 where
  after : SockFprog
  succeeds : r ≡ ok after
  appends : after.filter ≡ program.filter ++ added
  same_len : after.len ≡ program.len

Steps-bind :
    (program : SockFprog) (a b : List SockFilter) (r : Result SockFprog)
    (k : SockFprog → Result SockFprog)
    → Steps program a r
    → ((program' : SockFprog) → Steps program' b (k program'))
    → Steps program (a ++ b) (r >>= k)
Steps-bind program a b r k s t = record {
  after = next.after;
  succeeds = ap (λ (x : Result SockFprog). x >>= k) s.succeeds ∙ next.succeeds;
  appends = next.appends ∙ rw s.appends (append_assoc program.filter a b);
  same_len = next.same_len ∙ s.same_len;
}
  where
    next : Steps s.after b (k s.after)
    next = t s.after

AllFit-left : (a b : List (ℕ × ℕ)) → AllFit (a ++ b) → AllFit a
AllFit-left [] b h = tt
AllFit-left (x ∷ a) b h = (h.0, h.1, AllFit-left a b h.2)

AllFit-right : (a b : List (ℕ × ℕ)) → AllFit (a ++ b) → AllFit b
AllFit-right [] b h = h
AllFit-right (x ∷ a) b h = AllFit-right a b h.2

-- Memory is granted whenever it is asked for.
module _ (grants : ℕ → Bool) (granted : (n : ℕ) → grants n ≡ true) where
  add_statements-Steps :
      (program : SockFprog) (added : List SockFilter)
      → Steps program added (add_statements grants program added)
  unfolding add_statements
  add_statements-Steps program added = record {
    after = record program { filter = program.filter ++ added };
    succeeds = rw granted;
    appends = refl;
    same_len = refl;
  }

  module _ (headers : Headers) (sysnums : List FilteredSysnum) where
    trace_sysnum-Steps :
        (abi : Abi) (s : FilteredSysnum) (program : SockFprog)
        → AllFit (traced_sysnums headers sysnums abi (s ∷ []))
        → Steps program
            (trace_statements (traced_sysnums headers sysnums abi (s ∷ [])))
            (trace_sysnum grants headers sysnums abi s program)
    unfolding trace_sysnum add_trace_syscall traced_sysnums trace_statements
    trace_sysnum-Steps abi s program fit =
        elim (Bool-cases (detranslate_sysnum headers abi s.value == syscall_avoider)) [
          | inl void ↦ rw void (record {
            after = program;
            succeeds = refl;
            appends = sym (append-nil program.filter);
            same_len = refl;
          })
          | inr real ↦
              let (small, _, _) = (rw real at fit) in
              let guard : ltb uint32_max (detranslate_sysnum headers abi s.value) ≡ false =
                ground arith in
              rw (real, guard) (add_statements-Steps program _)
        ]

    trace_sysnums-Steps :
        (abi : Abi) (rest : List FilteredSysnum) (program : SockFprog)
        → AllFit (traced_sysnums headers sysnums abi rest)
        → Steps program
            (trace_statements (traced_sysnums headers sysnums abi rest))
            (trace_sysnums grants headers sysnums abi rest program)
    unfolding trace_sysnums
    trace_sysnums-Steps abi [] program fit =
        unfold traced_sysnums trace_statements in
        record {
          after = program;
          succeeds = refl;
          appends = sym (append-nil program.filter);
          same_len = refl;
        }
    trace_sysnums-Steps abi (s ∷ rest) program fit =
        let one = traced_sysnums headers sysnums abi (s ∷ []) in
        let more = traced_sysnums headers sysnums abi rest in
        let both : AllFit (one ++ more) =
          rw (traced_sysnums-cons grants headers sysnums abi s rest) at fit in
        rw (traced_sysnums-cons grants headers sysnums abi s rest, trace_statements-append one more)
          (Steps-bind program _ _ _ _ (trace_sysnum-Steps abi s program (AllFit-left one more both))
            (λ p. trace_sysnums-Steps abi rest p (AllFit-right one more both)))

    trace_abis-Steps :
        (abis : List Abi) (program : SockFprog)
        → AllFit (traced_abis headers sysnums abis)
        → Steps program
            (trace_statements (traced_abis headers sysnums abis))
            (trace_abis grants headers sysnums abis program)
    unfolding trace_abis traced_abis
    trace_abis-Steps [] program fit =
        unfold trace_statements in
        record {
          after = program;
          succeeds = refl;
          appends = sym (append-nil program.filter);
          same_len = refl;
        }
    trace_abis-Steps (abi ∷ abis) program fit =
        let one = traced_sysnums headers sysnums abi sysnums in
        let more = traced_abis headers sysnums abis in
        rw (trace_statements-append one more) (
          Steps-bind program _ _ _ _
            (trace_sysnums-Steps abi sysnums program (AllFit-left one more fit))
            (λ p. trace_abis-Steps abis p (AllFit-right one more fit)))

    -- The length that `end_arch_section` checks is the one that the loops have appended.
    end_arch_section_total :
        (traced : List (ℕ × ℕ)) (started : SockFprog) (r : Result SockFprog)
        → started.len ≡ length started.filter
        → Steps started (trace_statements traced) r
        → (after : SockFprog) × ((r >>= λ program. end_arch_section grants program (length traced))
            ≡ ok after)
    unfolding end_arch_section add_statements
    end_arch_section_total traced started r counted s =
        let ends = bpf_stmt ret_k seccomp_ret_allow ∷ [] in
        let grown : length (s.after.filter ++ ends) - s.after.len ≡ 1 + length traced * 2 =
          rw (s.appends, s.same_len, counted)
            (omega (
              arith,
              length-append (started.filter ++ trace_statements traced) ends,
              length-append started.filter (trace_statements traced),
              length-trace_statements traced,
            )) in
        (
          record s.after { filter = s.after.filter ++ ends },
          rw (s.succeeds, granted, grown) (ground arith),
        )

    add_arch_total :
        (libc : LibcRange) (arch : SeccompArch) (program : SockFprog)
        → length (traced_abis headers sysnums arch.abis) < 2 ^ 30
        → AllFit (traced_abis headers sysnums arch.abis)
        → length program.filter
            + length (section_of libc arch.value (traced_abis headers sysnums arch.abis))
          < 2 ^ 16
        → (after : SockFprog) × (add_arch grants headers sysnums libc arch program ≡ ok after)
    unfolding add_arch start_arch_section add_statements section_of start_statements
    add_arch_total libc arch program short fit room =
        let traced = traced_abis headers sysnums arch.abis in
        let nb = count_abis headers sysnums arch.abis in
        let counted : nb ≡ length traced = count_abis-length grants headers sysnums arch.abis in
        let guard : ltb (uint32_max - 1) (1 + length traced * 2) ≡ false = ground arith in
        let start = start_statements libc arch.value (length traced) in
        let started : SockFprog = record {
          len = length (program.filter ++ start) % 2 ^ 16;
          filter = program.filter ++ start;
        } in
        let whole : started.len ≡ length started.filter = omega (
          arith,
          length-append program.filter start,
          length-append start (trace_statements traced ++ (bpf_stmt ret_k seccomp_ret_allow ∷ [])),
        ) in
        rw (counted, guard, granted)
          (end_arch_section_total traced started _ whole (trace_abis-Steps arch.abis started fit))

    add_archs_total :
        (libc : LibcRange) (archs : List SeccompArch) (program : SockFprog)
        → ArchsFit headers sysnums archs
        → length program.filter + length (sections_of headers sysnums libc archs) < 2 ^ 16
        → (after : SockFprog) × (add_archs grants headers sysnums libc archs program ≡ ok after)
    unfolding add_archs sections_of
    add_archs_total libc [] program fit room = (program, refl)
    add_archs_total libc (arch ∷ archs) program fit room =
        let (_, short, fits) = fit.0 in
        let one = section_of libc arch.value (traced_abis headers sysnums arch.abis) in
        let more = sections_of headers sysnums libc archs in
        let (next, done) =
          add_arch_total libc arch program short fits
            (omega (arith, room, length-append one more)) in
        let grown : next.filter ≡ program.filter ++ one =
          subst (Appends program one) done
            (add_arch-Appends grants headers sysnums libc arch program) in
        let size : length next.filter ≡ length program.filter + length one =
          rw grown (length-append program.filter one) in
        rw done (
          add_archs_total libc archs next fit.1 (omega (arith, room, size, length-append one more)))

    -- When memory is granted whenever it is asked for and both calls of prctl(2) succeed,
    -- `set_seccomp_filters` succeeds on every list of architectures whose values, numbers, flags
    -- and section lengths fit in the statements and whose sections together fit in the 16 bits
    -- of the program's length: neither the bound on the length of a section nor the check at the
    -- end of a section refuses.
    pub set_seccomp_filters_total :
        (libc : LibcRange) (archs : List SeccompArch) (install : SockFprog → Result (Unit {0}))
        → ((program : SockFprog) → install program ≡ ok tt)
        → ArchsFit headers sysnums archs
        → length (sections_of headers sysnums libc archs) < 2 ^ 16
        → (program : SockFprog) × (set_seccomp_filters grants headers sysnums libc archs
              (ok tt)
              install
            ≡ ok program)
    unfolding set_seccomp_filters new_program_filter finalize_program_filter add_statements
        hand_over
    set_seccomp_filters_total libc archs install installs fit room =
        let (last, done) =
          add_archs_total libc archs (record { len = 0; filter = [] }) fit (omega arith) in
        let ended = last.filter ++ (bpf_stmt ret_k seccomp_ret_kill ∷ []) in
        (
          record { len = length ended % 2 ^ 16; filter = ended },
          rw (granted, done, granted, installs) refl,
        )
