-- ===== src/Seccomp/Verdict.antt =====
-- What the kernel is to answer when it runs the filter, described without the statements.
pub mod Run
use abyss.Base.{
  ℕ, ◌+◌, ◌*◌, ◌%◌, ◌^◌, ◌<◌, Bool, not, ◌&&◌, List, [], ◌∷◌, leb, ◌==◌, if◌then◌else◌, length,
}
use abyss.Seccomp.Bpf.{SeccompData}
use abyss.Seccomp.Filter.{
  FilteredSysnum, SeccompArch, LibcRange, seccomp_ret_trace, seccomp_ret_allow, seccomp_ret_kill,
}
use abyss.Seccomp.Filter.Shape.{traced_abis}
use abyss.Syscall.Sysnum.{Headers}

-- The first entry for the number decides.
unfoldable pub traced_verdict : ℕ → List (ℕ × ℕ) → ℕ
traced_verdict nr [] = seccomp_ret_allow
traced_verdict nr ((syscall, flag) ∷ traced) =
    let rest = traced_verdict nr traced in if nr == syscall then seccomp_ret_trace + flag else rest

-- The first architecture of that value decides; there is none for the others.
unfoldable pub filter_verdict : Headers → List FilteredSysnum → List SeccompArch → SeccompData → ℕ
filter_verdict headers sysnums [] d = seccomp_ret_kill
filter_verdict headers sysnums (arch ∷ archs) d =
    let rest = filter_verdict headers sysnums archs d in
    if d.arch == arch.value
    then traced_verdict d.nr (traced_abis headers sysnums arch.abis)
    else rest

-- Whether the low half of the instruction pointer lies between the low halves of the two bounds,
-- both included.
unfoldable pub in_libc : LibcRange → SeccompData → Bool
in_libc libc d =
    leb (libc.libc_start % 2 ^ 32) (d.instruction_pointer % 2 ^ 32)
    && leb (d.instruction_pointer % 2 ^ 32) (libc.libc_end % 2 ^ 32)

-- The numbers and flags fit in the fields of a statement.
abbrev pub AllFit : List (ℕ × ℕ) → Type 0
AllFit [] = Unit
AllFit ((syscall, flag) ∷ traced) = (syscall < 2 ^ 32) × (flag < 2 ^ 16) × AllFit traced

-- So do the architecture's value and the length of its section.
abbrev pub ArchFits : Headers → List FilteredSysnum → SeccompArch → Type 0
ArchFits headers sysnums arch =
    (arch.value < 2 ^ 32)
    × (length (traced_abis headers sysnums arch.abis) < 2 ^ 30)
    × AllFit (traced_abis headers sysnums arch.abis)

abbrev pub ArchsFit : Headers → List FilteredSysnum → List SeccompArch → Type 0
ArchsFit headers sysnums [] = Unit
ArchsFit headers sysnums (arch ∷ archs) =
    ArchFits headers sysnums arch × ArchsFit headers sysnums archs
