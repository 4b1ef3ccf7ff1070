-- ===== src/Tracee/Tests.antt =====
-- Registers of a concrete tracee.
mod Memory
use abyss.Base.{
  none, ℕ, ◌+◌, ◌≤◌, ◌<◌, ◌==◌, ◌%◌, ◌^◌, ◌≡◌, ◌≢◌, refl, true, false, [], ◌∷◌, arith,
  if◌then◌else◌, ok,
}
use abyss.Tracee.Alloc.{stack_alignment, aligned_size, alloc_mem, alloc_mem-stack}
use abyss.Tracee.State.{
  no_ptracees, no_ptracer, restart_unset, seccomp_disabled, sigstop_ignored, current, original,
  Bank, Tracee, no_syscalls,
}
use abyss.Tracee.Reg.{
  Reg, stack_pointer, sysarg_num, sysarg_2, sysarg_3, slot, peek_reg, poke_reg, save_current_regs,
  push_regs, prstatus,
}
use abyss.Tracee.Reg.Pokes.{
  peek_reg-poke_reg, peek_reg-poke_reg_other, poke_all, poke_all_unchanged,
}
use abyss.Tracee.Reg.Sequences.{AllWords, peek_reg-poke_all}
use abyss.Tracee.Reg.Pushes.{is_restored, push_regs-restores}

-- The word at place `j` holds `j`.
abbrev bank : Bank
bank j = j % 2 ^ 32

abbrev tracee : Tracee
tracee = record {
  regs = λ version. bank;
  regs_were_changed = false;
  restore_original_regs = true;
  is_aarch32 = true;
  chain = record { syscalls = no_syscalls; force_final_result = false; final_result = 0 };
  pid = 1;
  parent_pid = none;
  status = 0;
  restart_how = restart_unset;
  running = false;
  user_context_data = 0;
  seccomp = seccomp_disabled;
  sysexit_pending = false;
  seccomp_detected = false;
  seccomp_enabled = false;
  is_root = false;
  deliver_sigtrap = false;
  sigstop = sigstop_ignored;
  vpid = 0;
  terminated = false;
  killall_on_exit = false;
  parent = 0;
  clone = false;
  as_ptracer = no_ptracees;
  as_ptracee = no_ptracer;
  is_zombie = false;
}

abbrev changed_tracee : Tracee
changed_tracee = record tracee { regs_were_changed = true }

poke_number : peek_reg (poke_reg sysarg_num 0x1_0000_0005 tracee) current sysarg_num ≡ 5
unfolding peek_reg poke_reg
poke_number = refl

-- A value that is there already does not set the flag.
poke_same : (poke_reg sysarg_2 1 tracee).regs_were_changed ≡ false
unfolding poke_reg peek_reg
poke_same = refl

apart : slot true sysarg_2 ≢ slot true sysarg_3
apart e = omega arith

same_writes :
    (poke_all ((sysarg_2, 1) ∷ []) (save_current_regs original tracee)).regs_were_changed ≡ false
unfolding poke_all save_current_regs poke_reg peek_reg
same_writes = refl

poke_all_unchanged_example :
    (poke_all ((sysarg_2, 1) ∷ []) (save_current_regs original tracee)).regs current 1
    ≡ (poke_all ((sysarg_2, 1) ∷ []) (save_current_regs original tracee)).regs original 1
poke_all_unchanged_example = poke_all_unchanged ((sysarg_2, 1) ∷ []) tracee same_writes 1

push_regs-restores_example :
    ((reg : Reg)
      → peek_reg (push_regs (ok tt) changed_tracee).1 current reg ≡ (
          if is_restored reg
          then peek_reg changed_tracee original reg
          else peek_reg changed_tracee current reg))
    × ((push_regs (ok tt) changed_tracee).2
        ≡ prstatus ((push_regs (ok tt) changed_tracee).1.regs current) ∷ [])
push_regs-restores_example = push_regs-restores (ok tt) changed_tracee refl refl (λ j. omega arith)

two_writes-AllWords : AllWords ((sysarg_2, 9) ∷ (sysarg_2, 0x1_0000_0008) ∷ [])
two_writes-AllWords = (omega arith, (omega arith, tt))

peek_reg-poke_all_example :
    peek_reg (poke_all ((sysarg_2, 9) ∷ (sysarg_2, 0x1_0000_0008) ∷ []) tracee) current sysarg_2 ≡ 8
peek_reg-poke_all_example =
    peek_reg-poke_all ((sysarg_2, 9) ∷ (sysarg_2, 0x1_0000_0008) ∷ []) sysarg_2 tracee
      two_writes-AllWords

low_stack : slot true stack_pointer ≢ slot true sysarg_2
low_stack e = omega arith

-- The stack pointer is at 13.
abbrev stacked : Tracee
stacked = record tracee { regs = λ version j. if j == 13 then 0x1000 else 0 }

abbrev below : Tracee
below = (alloc_mem 20 stacked).1

taken : alloc_mem 20 stacked ≡ (4064, below)
unfolding alloc_mem peek_reg
taken = refl

in_stack : peek_reg stacked current stack_pointer < 2 ^ 64
unfolding peek_reg
in_stack = omega arith

not_null : ◌≢◌ {A = ℕ} 4064 0
not_null e = omega arith

alloc_mem-stack_example :
    (4064 + 20 ≤ peek_reg stacked current stack_pointer)
    × (peek_reg stacked current stack_pointer ≤ 4064 + 20 + stack_alignment)
    × (peek_reg stacked current stack_pointer % stack_alignment ≡ 0 → 4064 % stack_alignment ≡ 0)
    × (peek_reg below current stack_pointer ≡ 4064)
    × (peek_reg below current sysarg_2 ≡ peek_reg stacked current sysarg_2)
alloc_mem-stack_example =
    alloc_mem-stack 20 4064 stacked below sysarg_2 in_stack low_stack taken not_null
