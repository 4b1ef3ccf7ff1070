-- ===== src/Syscall/Translate/Refused.antt =====
-- The answer to a system call that was refused at its entry.

use abyss.Base.{
  ◌+◌, ◌∷◌, [], sym, inl, inr, Bool-cases, ℕ, ◌%◌, ◌^◌, ◌<◌, Bool, true, false, Option, none, some,
  List, arith, ◌≡◌, refl, ap, ◌∙◌, ◌==◌, if◌then◌else◌, Result, ok,
}
use abyss.Tracee.State.{current, original, Bank, Tracee}
use abyss.Tracee.Reg.{
  restore, slot, get_word, arm_system_call, prstatus, Reg, sysarg_result, Request, peek_reg,
  poke_reg, push_regs, set_bank, restore_all,
}
use abyss.Tracee.Reg.Keeps.{part-poke_reg, part-push_regs, if-cases}
use abyss.Tracee.Reg.Pokes.{peek_reg-poke_reg}
use abyss.Tracee.Reg.Pushes.{is_restored, restore_all-peek, requests-restore_all, push_regs-changed}
use abyss.Tracee.Process.{Process}
use abyss.Syscall.Sysnum.{Headers}
use abyss.Syscall.Stages.{Handlers, Answers, is_negative, word_of, give, translate_syscall_exit}
use abyss.Syscall.Translate.{
  no_chain, exit_stage, next_chained, call_sysexit, exit_requested, translate_syscall,
}

-- The registers that the kernel gives a process that had `bank`, once the requests are granted.
unfoldable pub registers_after : Bank → List Request → Bank
registers_after bank [] = bank
registers_after bank (arm_system_call sysnum ∷ rest) = registers_after bank rest
registers_after bank (prstatus pushed ∷ rest) = registers_after pushed rest

-- A register of a bank.
abbrev pub word_at : Bool → Bank → Reg → ℕ
word_at is_aarch32 bank reg =
    let word = get_word bank (slot is_aarch32 reg) in if is_aarch32 then word % 2 ^ 32 else word

if-true : {A : Type 0} (b : Bool) (x y : A) → b ≡ true → (if b then x else y) ≡ x
if-true b x y e = rw e refl

if-false : {A : Type 0} (b : Bool) (x y : A) → b ≡ false → (if b then x else y) ≡ y
if-false b x y e = rw e refl

-- The register of the result is not restored.
push_regs-result :
    (answer : Result (Unit {0})) (t : Tracee)
    → ((j : ℕ) → t.regs original j < 2 ^ 32)
    → peek_reg (push_regs answer t).1 current sysarg_result ≡ peek_reg t current sysarg_result
unfolding push_regs is_restored
push_regs-result answer t small =
    if-cases (λ (r : Result (Unit {0}) × Tracee × List Request). peek_reg r.1 current sysarg_result)
      t.regs_were_changed _ _ (peek_reg t current sysarg_result)
      (if-cases (λ (u : Tracee). peek_reg u current sysarg_result) t.restore_original_regs
        (restore_all t) t (peek_reg t current sysarg_result)
        (restore_all-peek t small sysarg_result) refl)
      refl

same_word :
    (is_aarch32 : Bool) (bank bank' : Bank) (reg : Reg)
    → ((j : ℕ) → bank' j ≡ bank j)
    → word_at is_aarch32 bank reg ≡ word_at is_aarch32 bank' reg
same_word is_aarch32 bank bank' reg same =
    let i = slot is_aarch32 reg in rw (same i, same (i + 1)) refl

restored_result :
    (v : Tracee)
    → ((j : ℕ) → v.regs original j < 2 ^ 32)
    → word_at v.is_aarch32 ((restore_all v).regs current) sysarg_result
      ≡ peek_reg v current sysarg_result
unfolding is_restored restore_all restore peek_reg
restored_result v small = restore_all-peek v small sysarg_result

pushed_registers :
    (answer : Result (Unit {0})) (v : Tracee) (bank : Bank)
    → v.regs_were_changed ≡ true
    → v.restore_original_regs ≡ true
    → ((j : ℕ) → v.regs original j < 2 ^ 32)
    → registers_after bank (push_regs answer v).2 ≡ (restore_all v).regs current
unfolding registers_after
pushed_registers answer v bank changed on small =
    ap (λ (r : Result (Unit {0}) × Tracee × List Request). registers_after bank r.2)
      (push_regs-changed answer v changed on)
    ∙ ap (registers_after bank) (requests-restore_all v small)

kept_registers :
    (answer : Result (Unit {0})) (v : Tracee) (bank : Bank)
    → v.regs_were_changed ≡ false
    → registers_after bank (push_regs answer v).2 ≡ bank
unfolding registers_after push_regs
kept_registers answer v bank kept = rw (kept, push_regs) refl

-- The result that the caller finds, when a register that is not pushed is as the kernel has it.
caller-result :
    (answer : Result (Unit {0})) (v : Tracee) (bank : Bank)
    → v.restore_original_regs ≡ true
    → ((j : ℕ) → v.regs original j < 2 ^ 32)
    → (v.regs_were_changed ≡ false → (j : ℕ) → v.regs current j ≡ bank j)
    → word_at v.is_aarch32 (registers_after bank (push_regs answer v).2) sysarg_result
      ≡ peek_reg v current sysarg_result
unfolding peek_reg
caller-result answer v bank on small same = elim (Bool-cases v.regs_were_changed) [
  | inl changed ↦
      ap (λ b. word_at v.is_aarch32 b sysarg_result)
        (pushed_registers answer v bank changed on small)
      ∙ restored_result v small
  | inr kept ↦
      ap (λ b. word_at v.is_aarch32 b sysarg_result) (kept_registers answer v bank kept)
      ∙ same_word v.is_aarch32 bank (v.regs current) sysarg_result (same kept)
]

poke_reg-unchanged :
    (reg : Reg) (value : ℕ) (t : Tracee)
    → (poke_reg reg value t).regs_were_changed ≡ false
    → (j : ℕ) → (poke_reg reg value t).regs current j ≡ t.regs current j
unfolding poke_reg
poke_reg-unchanged reg value t kept j = ground arith

bind-some :
    {A B : Type 0} (o : Option A) (a : A) (next : A → Option B)
    → o ≡ some a
    → elim o [ none ↦ none | some b ↦ next b ] ≡ next a
bind-some o a next e = rw e refl

not_zero : (status : ℕ) → is_negative status ≡ true → (status == 0) ≡ false
not_zero status h = ground arith

word_of_bound : (status : ℕ) → status < 2 ^ 32 → word_of status < 2 ^ 64
word_of_bound status h = ground arith

poke_reg-original :
    (reg : Reg) (value : ℕ) (t : Tracee) (j : ℕ)
    → (poke_reg reg value t).regs original j ≡ t.regs original j
unfolding poke_reg
poke_reg-original reg value t j =
    if-cases (λ (u : Tracee). u.regs original j) (peek_reg t current reg == value) t _
      (t.regs original j) refl refl

module _ {Memory : Type 0} (p : Process Memory) (headers : Headers) (handlers : Handlers Memory)
    (errno page_bits : ℕ) where
  no_call :
      (t : Tracee) (m : Memory)
      → handlers.on_sysexit ≡ none
      → call_sysexit p headers handlers errno page_bits t m ≡ some (t, m)
  unfolding call_sysexit
  no_call t m e = rw (e, call_sysexit) refl

  -- The tracee with the error in the register of the result.
  answered : Tracee → Tracee
  answered t = poke_reg sysarg_result (word_of t.status) (record t { restore_original_regs = true })

  exit_requested-refused :
      (t : Tracee) (m : Memory)
      → is_negative t.status ≡ true
      → no_chain t.chain.syscalls ≡ true
      → exit_requested p headers handlers errno page_bits
          (record t { restore_original_regs = true })
          m
        ≡ some (answered t, m)
  unfolding exit_requested translate_syscall_exit give answered
  exit_requested-refused t m negative unchained =
      if-true (no_chain t.chain.syscalls) _ _ unchained
      ∙ if-true (is_negative t.status) _ _ negative

  next_chained-refused :
      (t : Tracee) (m : Memory)
      → no_chain t.chain.syscalls ≡ true
      → next_chained p headers handlers errno page_bits (answered t, m)
        ≡ some (record (answered t) { status = 0 }, m)
  unfolding next_chained answered
  next_chained-refused t m unchained = if-true (no_chain (answered t).chain.syscalls) _ _ (
      ap no_chain (part-poke_reg (λ u. u.chain.syscalls) (λ u r c. refl) sysarg_result _ _)
      ∙ unchained)

  exit_stage-refused :
      (t : Tracee) (m : Memory)
      → is_negative t.status ≡ true
      → no_chain t.chain.syscalls ≡ true
      → handlers.on_sysexit ≡ none
      → exit_stage p headers handlers errno page_bits t m
        ≡ some (record (answered t) { status = 0 }, m)
  unfolding exit_stage
  exit_stage-refused t m negative unchained no_callback =
      let start = record t { restore_original_regs = true } in
      bind-some (call_sysexit p headers handlers errno page_bits start m) (start, m) _
        (no_call start m no_callback)
      ∙ bind-some (exit_requested p headers handlers errno page_bits start m) (answered t, m)
          (λ s. next_chained p headers handlers errno page_bits s)
          (exit_requested-refused t m negative unchained)
      ∙ next_chained-refused t m unchained

  answered-mode : (t : Tracee) → (answered t).is_aarch32 ≡ t.is_aarch32
  unfolding answered
  answered-mode t = part-poke_reg (λ u. u.is_aarch32) (λ u r c. refl) sysarg_result _ _

  answered-restores : (t : Tracee) → (answered t).restore_original_regs ≡ true
  unfolding answered
  answered-restores t =
      part-poke_reg (λ u. u.restore_original_regs) (λ u r c. refl) sysarg_result _
        (record t { restore_original_regs = true })

  answered-kept :
      (t : Tracee)
      → (answered t).regs_were_changed ≡ false
      → (j : ℕ) → (answered t).regs current j ≡ t.regs current j
  unfolding answered
  answered-kept t kept j =
      poke_reg-unchanged sysarg_result _ (record t { restore_original_regs = true }) kept j

  answered-original : (t : Tracee) (j : ℕ) → (answered t).regs original j ≡ t.regs original j
  unfolding answered
  answered-original t j =
      poke_reg-original sysarg_result _ (record t { restore_original_regs = true }) j

  answered-result :
      (t : Tracee)
      → t.status < 2 ^ 32
      → peek_reg (record (answered t) { status = 0 }) current sysarg_result
        ≡ (if t.is_aarch32 then word_of t.status % 2 ^ 32 else word_of t.status)
  unfolding answered peek_reg
  answered-result t fits =
      peek_reg-poke_reg sysarg_result (word_of t.status) (record t { restore_original_regs = true })
        (word_of_bound t.status fits)

  pushing :
      (answer : Result (Unit {0})) (o : Option (Tracee × Memory)) (s : Tracee × Memory)
      → o ≡ some s
      → elim o as (λ _. Option (Tracee × Memory × List Request)) [
        | none ↦ none
        | some (after, m') ↦ some ((push_regs answer after).1, m', (push_regs answer after).2)
      ]
        ≡ some ((push_regs answer s.0).1, s.1, (push_regs answer s.0).2)
  pushing answer o s e = rw e refl

  -- At the exit of a system call that was refused at its entry, of which the status is an error,
  -- when the registers can be read, no call is chained and no callback is set: by the requests that
  -- are made of the kernel, once they are granted, the register of the result gets the error, cut to
  -- the width of a register, whatever the kernel has left there; the register cache has it as well,
  -- the memory is left alone, and the tracee expects the next entry.
  pub translate_syscall-refused :
      (answers : Answers) (bank : Bank) (t : Tracee) (m : Memory)
      → answers.getregset ≡ ok bank
      → is_negative t.status ≡ true
      → t.status < 2 ^ 32
      → no_chain t.chain.syscalls ≡ true
      → handlers.on_sysexit ≡ none
      → ((j : ℕ) → t.regs original j < 2 ^ 32)
      → (after : Tracee) × (requests : List Request) × (translate_syscall p headers handlers errno
            page_bits answers t m
          ≡ some (after, m, requests))
        × (word_at t.is_aarch32 (registers_after bank requests) sysarg_result
            ≡ (if t.is_aarch32 then word_of t.status % 2 ^ 32 else word_of t.status))
        × (peek_reg after current sysarg_result
            ≡ (if t.is_aarch32 then word_of t.status % 2 ^ 32 else word_of t.status))
        × (after.status ≡ 0)
  unfolding translate_syscall
  translate_syscall-refused answers bank t m fetched negative fits unchained no_callback small =
      let u = record t { regs = set_bank current bank t.regs } in
      let v = record (answered u) { status = 0 } in
      let pushed = push_regs answers.setregset v in
      let smalls : (j : ℕ) → v.regs original j < 2 ^ 32 =
        λ j. rw (answered-original u j) (small j) in
      (
        pushed.1,
        pushed.2,
        rw (fetched, translate_syscall)
            (pushing answers.setregset _ (v, m)
              (if-false (t.status == 0) _ _ (not_zero t.status negative)
                ∙ exit_stage-refused u m negative unchained no_callback)),
        ap (λ mode. word_at mode (registers_after bank pushed.2) sysarg_result)
              (sym (answered-mode u))
            ∙ caller-result answers.setregset v bank (answered-restores u) smalls
                (λ kept j. answered-kept u kept j)
            ∙ answered-result u fits,
        push_regs-result answers.setregset v smalls ∙ answered-result u fits,
        part-push_regs (λ w. w.status) (λ w r c. refl) answers.setregset v,
      )
