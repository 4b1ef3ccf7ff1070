-- ===== src/Tracee/Reg/Pushes.antt =====
-- What `push_regs` hands to the kernel.
use abyss.Base.{ℕ, ◌+◌, ◌^◌, ◌<◌, ◌≡◌, Bool, true, false, [], ◌∷◌, arith, if◌then◌else◌, Result}
use abyss.Tracee.State.{current, original, Tracee}
use abyss.Tracee.Reg.{
  Reg, sysarg_num, sysarg_2, sysarg_3, sysarg_4, sysarg_5, sysarg_6, stack_pointer, slot, get_word,
  peek_reg, restore, restore_all, set_word, set_half, prstatus, requests, push_regs,
}

-- The registers that are restored at the end of a system call.
unfoldable pub is_restored : Reg → Bool
is_restored sysarg_num = true
is_restored sysarg_2 = true
is_restored sysarg_3 = true
is_restored sysarg_4 = true
is_restored sysarg_5 = true
is_restored sysarg_6 = true
is_restored stack_pointer = true
is_restored _ = false

-- The sysarg registers at the places of either mode.
module _ (tracee : Tracee) (small : (j : ℕ) → tracee.regs original j < 2 ^ 32) where
  abbrev in_mode : Bool → Tracee
  in_mode is_aarch32 = record tracee { is_aarch32 = is_aarch32 }

  whole : (i : ℕ) → get_word (tracee.regs original) i < 2 ^ 64
  whole i = omega (arith, small i, small (i + 1))

  restored_in_mode :
      (is_aarch32 : Bool) (reg : Reg)
      → peek_reg (restore_all (in_mode is_aarch32)) current reg ≡ (
          if is_restored reg
          then peek_reg (in_mode is_aarch32) original reg
          else peek_reg (in_mode is_aarch32) current reg)
  unfolding peek_reg restore_all restore set_word set_half is_restored
  restored_in_mode true sysarg_num = omega arith
  restored_in_mode true _ = omega arith
  restored_in_mode false sysarg_num = omega (arith, whole 16)
  restored_in_mode false _ = omega (arith, whole 2, whole 4, whole 6, whole 8, whole 10, whole 62)

  sysnum_in_mode :
      (is_aarch32 : Bool)
      → get_word ((restore_all (in_mode is_aarch32)).regs current) (slot is_aarch32 sysarg_num)
        ≡ get_word (tracee.regs original) (slot is_aarch32 sysarg_num)
  unfolding restore_all restore set_word set_half
  sysnum_in_mode true = omega (arith, whole 7)
  sysnum_in_mode false = omega (arith, whole 16)

pub restore_all-peek :
    (tracee : Tracee)
    → ((j : ℕ) → tracee.regs original j < 2 ^ 32)
    → (reg : Reg)
    → peek_reg (restore_all tracee) current reg
      ≡ (if is_restored reg then peek_reg tracee original reg else peek_reg tracee current reg)
restore_all-peek tracee small reg = restored_in_mode tracee small tracee.is_aarch32 reg

requests_same :
    (tracee : Tracee)
    → get_word (tracee.regs current) (slot tracee.is_aarch32 sysarg_num)
      ≡ get_word (tracee.regs original) (slot tracee.is_aarch32 sysarg_num)
    → requests tracee ≡ prstatus (tracee.regs current) ∷ []
unfolding requests
requests_same tracee same = ground arith

pub requests-restore_all :
    (tracee : Tracee)
    → ((j : ℕ) → tracee.regs original j < 2 ^ 32)
    → requests (restore_all tracee) ≡ prstatus ((restore_all tracee).regs current) ∷ []
unfolding restore_all restore
requests-restore_all tracee small =
    requests_same (restore_all tracee) (sysnum_in_mode tracee small tracee.is_aarch32)

pub push_regs-changed :
    (status : Result (Unit {0})) (tracee : Tracee)
    → tracee.regs_were_changed ≡ true
    → tracee.restore_original_regs ≡ true
    → push_regs status tracee ≡ (status, restore_all tracee, requests (restore_all tracee))
unfolding push_regs
push_regs-changed status tracee changed on = simp (changed, on)

-- At the end of a system call, when registers were changed, `push_regs` gives the kernel the
-- registers as the caller had them at the start (the number, the arguments but the first, the stack
-- pointer), and, of those that PRoot may change, only the result and the instruction pointer as they
-- are now. It makes one request, without one for the number, which has been restored as well.
pub push_regs-restores :
    (status : Result (Unit {0})) (tracee : Tracee)
    → tracee.regs_were_changed ≡ true
    → tracee.restore_original_regs ≡ true
    → ((j : ℕ) → tracee.regs original j < 2 ^ 32)
    → ((reg : Reg)
        → peek_reg (push_regs status tracee).1 current reg
          ≡ (if is_restored reg then peek_reg tracee original reg else peek_reg tracee current reg))
      × ((push_regs status tracee).2 ≡ prstatus ((push_regs status tracee).1.regs current) ∷ [])
push_regs-restores status tracee changed on small =
    rw (push_regs-changed status tracee changed on)
      (restore_all-peek tracee small, requests-restore_all tracee small)
