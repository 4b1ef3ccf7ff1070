-- ===== src/Tracee/Reg.antt =====
-- The cached registers of a tracee: tracee/reg.c.
pub mod Keeps
pub mod Pokes
pub mod Pushes
pub mod Sequences
use abyss.Base.{
  ℕ, ◌+◌, ◌*◌, ◌/◌, ◌%◌, ◌^◌, Bool, true, false, not, List, [], ◌∷◌, ◌==◌, if◌then◌else◌, Result,
  ok, err, Errno,
}
use abyss.Tracee.State.{RegVersion, current, original, modified, Bank, Tracee}

-- The registers that have an offset on arm64.
pub data Reg : Type 0 where
  sysarg_num sysarg_1 sysarg_2 sysarg_3 sysarg_4 sysarg_5 sysarg_6 sysarg_result : Reg
  stack_pointer instr_pointer userarg_1 : Reg

-- `reg_offset_armeabi` and `reg_offset`, counted in 32-bit words.
abbrev pub reg_offset_armeabi : Reg → ℕ
reg_offset_armeabi sysarg_num = 7
reg_offset_armeabi sysarg_1 = 0
reg_offset_armeabi sysarg_2 = 1
reg_offset_armeabi sysarg_3 = 2
reg_offset_armeabi sysarg_4 = 3
reg_offset_armeabi sysarg_5 = 4
reg_offset_armeabi sysarg_6 = 5
reg_offset_armeabi sysarg_result = 0
reg_offset_armeabi stack_pointer = 13
reg_offset_armeabi instr_pointer = 15
reg_offset_armeabi userarg_1 = 0

abbrev pub reg_offset : Reg → ℕ
reg_offset sysarg_num = 16
reg_offset sysarg_1 = 0
reg_offset sysarg_2 = 2
reg_offset sysarg_3 = 4
reg_offset sysarg_4 = 6
reg_offset sysarg_5 = 8
reg_offset sysarg_6 = 10
reg_offset sysarg_result = 0
reg_offset stack_pointer = 62
reg_offset instr_pointer = 64
reg_offset userarg_1 = 0

-- The place that the macro `REG` designates.
abbrev pub slot : Bool → Reg → ℕ
slot is_aarch32 reg = if is_aarch32 then reg_offset_armeabi reg else reg_offset reg

-- A read and the writes of a `word_t` and of a `uint32_t` there.
abbrev pub get_word : Bank → ℕ → ℕ
get_word bank i = bank i + bank (i + 1) * 2 ^ 32

unfoldable pub set_half : ℕ → ℕ → Bank → Bank
set_half i value bank j = if j == i then value % 2 ^ 32 else bank j

unfoldable pub set_word : ℕ → ℕ → Bank → Bank
unfolding set_half
set_word i value bank = set_half (i + 1) (value / 2 ^ 32) (set_half i value bank)

abbrev pub set_bank : RegVersion → Bank → (RegVersion → Bank) → RegVersion → Bank
set_bank current bank regs current = bank
set_bank current bank regs original = regs original
set_bank current bank regs modified = regs modified
set_bank original bank regs current = regs current
set_bank original bank regs original = bank
set_bank original bank regs modified = regs modified
set_bank modified bank regs current = regs current
set_bank modified bank regs original = regs original
set_bank modified bank regs modified = bank

unfoldable pub peek_reg : Tracee → RegVersion → Reg → ℕ
peek_reg tracee version reg =
    let result = get_word (tracee.regs version) (slot tracee.is_aarch32 reg) in
    if tracee.is_aarch32 then result % 2 ^ 32 else result

unfoldable pub poke_reg : Reg → ℕ → Tracee → Tracee
unfolding peek_reg set_half set_word
poke_reg reg value tracee = if peek_reg tracee current reg == value then tracee else record tracee {
  regs =
      set_bank current
        (if tracee.is_aarch32
          then set_half (slot tracee.is_aarch32 reg) value (tracee.regs current)
          else set_word (slot tracee.is_aarch32 reg) value (tracee.regs current))
        tracee.regs;
  regs_were_changed = true;
}

unfoldable pub is_original : RegVersion → Bool
is_original original = true
is_original _ = false

unfoldable pub save_current_regs : RegVersion → Tracee → Tracee
unfolding is_original
save_current_regs version tracee = record tracee {
  regs_were_changed = if is_original version then false else tracee.regs_were_changed;
  regs = set_bank version (tracee.regs current) tracee.regs;
}

-- What ptrace(2) answers to PTRACE_GETREGSET is the argument.
unfoldable pub fetch_regs : Result Bank → Tracee → Result Tracee
fetch_regs (err e) tracee = err e
fetch_regs (ok bank) tracee = ok (record tracee { regs = set_bank current bank tracee.regs })

-- The requests that `push_regs` makes of ptrace(2), both PTRACE_SETREGSET: for NT_ARM_SYSTEM_CALL
-- and for NT_PRSTATUS.
pub data Request : Type 0 where
  arm_system_call : ℕ → Request
  prstatus : Bank → Request

-- The macro `RESTORE`.
unfoldable pub restore : Reg → Tracee → Tracee
unfolding set_word
restore sysarg tracee =
    if not (reg_offset sysarg_result == reg_offset sysarg)
    then record tracee {
      regs =
          set_bank current
            (set_word (slot tracee.is_aarch32 sysarg)
              (get_word (tracee.regs original) (slot tracee.is_aarch32 sysarg))
              (tracee.regs current))
            tracee.regs;
    }
    else tracee

unfoldable pub restore_all : Tracee → Tracee
unfolding restore
restore_all tracee = restore stack_pointer (
    restore sysarg_6 (
      restore sysarg_5 (
        restore sysarg_4
          (restore sysarg_3 (restore sysarg_2 (restore sysarg_1 (restore sysarg_num tracee)))))))

-- The requests for the tracee with its registers restored.
unfoldable pub requests : Tracee → List Request
requests tracee =
    let current_sysnum = get_word (tracee.regs current) (slot tracee.is_aarch32 sysarg_num) in
    let push = prstatus (tracee.regs current) in
    if not (current_sysnum == get_word (tracee.regs original) (slot tracee.is_aarch32 sysarg_num))
    then arm_system_call current_sysnum ∷ push ∷ []
    else push ∷ []

-- The tracee and the requests made; `status` is the answer to the last one.
unfoldable pub push_regs : Result (Unit {0}) → Tracee → Result (Unit {0}) × Tracee × List Request
unfolding restore_all requests
push_regs status tracee =
    if tracee.regs_were_changed
    then (let restored = if tracee.restore_original_regs then restore_all tracee else tracee in
        (status, restored, requests restored))
    else (ok tt, tracee, [])
