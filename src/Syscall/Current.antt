-- ===== src/Syscall/Current.antt =====
-- The number of a tracee's system call: `get_abi` of tracee/abi.h for arm64, `get_sysnum` and
-- `set_sysnum` of syscall/sysnum.c.
pub mod RoundTrip
use abyss.Base.{ℕ, Option, if◌then◌else◌}
use abyss.Tracee.State.{RegVersion, Tracee}
use abyss.Tracee.Reg.{peek_reg, poke_reg, sysarg_num}
use abyss.Syscall.Sysnum.{Abi, abi_default, abi_2, Headers, translate_sysnum, detranslate_sysnum}

abbrev pub get_abi : Tracee → Abi
get_abi tracee = if tracee.is_aarch32 then abi_2 else abi_default

abbrev pub get_sysnum : Headers → RegVersion → Tracee → Option ℕ
get_sysnum headers version tracee =
    translate_sysnum headers (get_abi tracee) (peek_reg tracee version sysarg_num)

abbrev pub set_sysnum : Headers → ℕ → Tracee → Tracee
set_sysnum headers sysnum tracee =
    poke_reg sysarg_num (detranslate_sysnum headers (get_abi tracee) sysnum) tracee
