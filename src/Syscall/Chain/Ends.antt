-- ===== src/Syscall/Chain/Ends.antt =====
-- The end of a chain, and the restart of the original system call.
use abyss.Base.{
  Option, ℕ, ◌+◌, ◌-◌, ◌%◌, ◌^◌, ◌<◌, ◌≡◌, refl, ap, ◌∙◌, Bool, inl, inr, Bool-cases, none, some,
  List, [], ◌∷◌, ◌++◌, map, arith, if◌then◌else◌,
}
use abyss.Tracee.State.{current, original, ChainedSyscall, queued, Tracee}
use abyss.Tracee.Reg.{
  Reg, slot, sysarg_num, sysarg_1, sysarg_2, sysarg_3, sysarg_4, sysarg_5, sysarg_6, sysarg_result,
  instr_pointer, peek_reg,
}
use abyss.Tracee.Reg.Pokes.{poke_all, peek_reg-poke_reg}
use abyss.Tracee.Reg.Sequences.{value_after, peek_reg-poke_all}
use abyss.Syscall.Sysnum.{Headers}
use abyss.Syscall.Chain.{
  systrap_size, register_chained_syscall, chain_next_syscall, end_chain, restart_original_syscall,
}
use abyss.Syscall.Chain.Order.{calls_with, cut, values_in_mode}

end_chain-result :
    (tracee : Tracee)
    → tracee.chain.final_result < 2 ^ 64
    → peek_reg (end_chain tracee) current sysarg_result ≡ (
        if tracee.chain.force_final_result
        then (if tracee.is_aarch32
            then tracee.chain.final_result % 2 ^ 32
            else tracee.chain.final_result)
        else peek_reg tracee current sysarg_result)
unfolding end_chain peek_reg
end_chain-result tracee h = elim (Bool-cases tracee.chain.force_final_result) [
  | inl on ↦ simp on (peek_reg-poke_reg sysarg_result tracee.chain.final_result tracee h)
  | inr off ↦ simp off
]

-- When the queue is empty, `chain_next_syscall` puts the forced result, if there is one, in the
-- result register. It leaves the tracee with the queue that it has freed: every later call of
-- `register_chained_syscall` or `chain_next_syscall` on that tracee reads freed memory.
pub chain_next_syscall_ends :
    (headers : Headers) (tracee : Tracee)
    → tracee.chain.syscalls ≡ queued []
    → tracee.chain.final_result < 2 ^ 64
    → (next : Tracee) × (chain_next_syscall headers tracee ≡ some next)
      × (peek_reg next current sysarg_result ≡ (
          if tracee.chain.force_final_result
          then (if tracee.is_aarch32
              then tracee.chain.final_result % 2 ^ 32
              else tracee.chain.final_result)
          else peek_reg tracee current sysarg_result))
      × ((head : Bool) (element : Option ℕ) (syscall : ChainedSyscall)
          → register_chained_syscall head element syscall next ≡ none)
      × (chain_next_syscall headers next ≡ none)
unfolding chain_next_syscall register_chained_syscall
chain_next_syscall_ends headers tracee q h =
    (end_chain tracee, rw q refl, end_chain-result tracee h, (λ head element syscall. refl), refl)

module _ (tracee : Tracee) (small : (j : ℕ) → tracee.regs original j < 2 ^ 32) where
  original_word : (reg : Reg) → peek_reg tracee original reg < 2 ^ 64
  unfolding peek_reg
  original_word reg =
      ground (arith, small (slot tracee.is_aarch32 reg), small (slot tracee.is_aarch32 reg + 1))

  cut_original :
      (reg : Reg)
      → cut tracee.is_aarch32 (peek_reg tracee original reg) ≡ peek_reg tracee original reg
  unfolding peek_reg
  cut_original reg = ground arith

  map-cut_original :
      (regs : List Reg)
      → map (cut tracee.is_aarch32) (map (peek_reg tracee original) regs)
        ≡ map (peek_reg tracee original) regs
  map-cut_original [] = refl
  map-cut_original (reg ∷ regs) = rw (cut_original reg, map-cut_original regs) refl

  abbrev as_call : ChainedSyscall
  as_call = record {
    sysnum = 0;
    sysarg_1 = peek_reg tracee original sysarg_1;
    sysarg_2 = peek_reg tracee original sysarg_2;
    sysarg_3 = peek_reg tracee original sysarg_3;
    sysarg_4 = peek_reg tracee original sysarg_4;
    sysarg_5 = peek_reg tracee original sysarg_5;
    sysarg_6 = peek_reg tracee original sysarg_6;
  }

  abbrev original_writes : List (Reg × ℕ)
  original_writes =
      (sysarg_1, peek_reg tracee original sysarg_1)
      ∷ (sysarg_2, peek_reg tracee original sysarg_2)
      ∷ (sysarg_3, peek_reg tracee original sysarg_3)
      ∷ (sysarg_4, peek_reg tracee original sysarg_4)
      ∷ (sysarg_5, peek_reg tracee original sysarg_5)
      ∷ (sysarg_6, peek_reg tracee original sysarg_6)
      ∷ (sysarg_num, peek_reg tracee original sysarg_num)
      ∷ []

  abbrev back : ℕ
  back =
      (peek_reg (poke_all original_writes tracee) current instr_pointer + 2 ^ 64 - systrap_size)
      % 2 ^ 64

  restart-poke_all :
      restart_original_syscall tracee
      ≡ poke_all (original_writes ++ ((instr_pointer, back) ∷ [])) tracee
  unfolding restart_original_syscall poke_all
  restart-poke_all = refl

  restart-value :
      (reg : Reg)
      → peek_reg (restart_original_syscall tracee) current reg
        ≡ value_after tracee.is_aarch32
            (original_writes ++ ((instr_pointer, back) ∷ []))
            reg
            (peek_reg tracee current reg)
  restart-value reg =
      ap (λ t. peek_reg t current reg) restart-poke_all
      ∙ peek_reg-poke_all (original_writes ++ ((instr_pointer, back) ∷ [])) reg tracee (
        original_word sysarg_1,
        (
          original_word sysarg_2,
          (
            original_word sysarg_3,
            (
              original_word sysarg_4,
              (
                original_word sysarg_5,
                (original_word sysarg_6, (original_word sysarg_num, (omega arith, tt))),
              ),
            ),
          ),
        ),
      )

  -- `restart_original_syscall` puts back the number and the six arguments of the original system
  -- call, when the words of the original bank are 32 bits wide.
  pub restart_original_syscall-calls_with :
      calls_with (restart_original_syscall tracee)
      ≡ map
          (peek_reg tracee original)
          (sysarg_num ∷ sysarg_1 ∷ sysarg_2 ∷ sysarg_3 ∷ sysarg_4 ∷ sysarg_5 ∷ sysarg_6 ∷ [])
  restart_original_syscall-calls_with =
      let numbers : List Reg =
        sysarg_num ∷ sysarg_1 ∷ sysarg_2 ∷ sysarg_3 ∷ sysarg_4 ∷ sysarg_5 ∷ sysarg_6 ∷ [] in
      let forged : calls_with (restart_original_syscall tracee)
          ≡ map (cut tracee.is_aarch32) (map (peek_reg tracee original) numbers) =
        rw
          (
            restart-value sysarg_num,
            restart-value sysarg_1,
            restart-value sysarg_2,
            restart-value sysarg_3,
            restart-value sysarg_4,
            restart-value sysarg_5,
            restart-value sysarg_6,
          )
          (values_in_mode as_call tracee.is_aarch32 _ back (peek_reg tracee current)) in
      forged ∙ map-cut_original numbers
