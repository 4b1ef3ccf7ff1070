-- ===== src/Syscall/Current/RoundTrip.antt =====
-- `get_sysnum` behind `set_sysnum`.
use abyss.Base.{
  ℕ, ◌+◌, ◌-◌, ◌%◌, ◌^◌, ◌<◌, ◌≡◌, ◌≢◌, Bool, inl, inr, ◌==◌, ==_iff, Bool-cases, arith,
  if◌then◌else◌, length, some,
}
use abyss.Tracee.State.{current, Tracee}
use abyss.Tracee.Reg.{poke_reg, sysarg_num}
use abyss.Tracee.Reg.Pokes.{peek_reg-poke_reg}
use abyss.Syscall.Sysnum.{
  Abi, Headers, get_sysnums, pr_void, syscall_avoider, translate_sysnum, detranslate_sysnum,
}
use abyss.Syscall.Sysnum.RoundTrip.{
  translate_sysnum-detranslate_sysnum, translate_sysnum_past, detranslate_sysnum-lt,
}
use abyss.Syscall.Current.{get_abi, get_sysnum, set_sysnum}

poke_reg-is_aarch32 :
    (value : ℕ) (tracee : Tracee)
    → (poke_reg sysarg_num value tracee).is_aarch32 ≡ tracee.is_aarch32
unfolding poke_reg
poke_reg-is_aarch32 value tracee = ground arith

-- A value cut to 32 bits is translated like the value.
translate_sysnum_cut :
    (headers : Headers) (abi : Abi) (sysnum : ℕ) (narrow : Bool)
    → (get_sysnums headers abi).offset + length (get_sysnums headers abi).table < 2 ^ 32 - 1
    → translate_sysnum headers abi (
        if narrow
        then detranslate_sysnum headers abi sysnum % 2 ^ 32
        else detranslate_sysnum headers abi sysnum)
      ≡ some (if detranslate_sysnum headers abi sysnum == syscall_avoider then pr_void else sysnum)
translate_sysnum_cut headers abi sysnum narrow small =
    let value = detranslate_sysnum headers abi sysnum in
    elim (Bool-cases (value == syscall_avoider)) [
      | inl none ↦
          let is : value ≡ syscall_avoider = (==_iff value syscall_avoider).0 none in
          rw (
            none,
            translate_sysnum_past headers abi (if narrow then value % 2 ^ 32 else value)
                (ground arith),
          )
      | inr found ↦
          let is : value ≢ syscall_avoider =
            λ e. cc (rw found at (==_iff value syscall_avoider).1 e) in
          let lt = detranslate_sysnum-lt headers abi sysnum (omega arith) is in
          let same : (if narrow then value % 2 ^ 32 else value) ≡ value = ground arith in
          rw (found, same) (translate_sysnum-detranslate_sysnum headers abi sysnum (omega arith) is)
    ]

pub detranslate_sysnum-small :
    (headers : Headers) (abi : Abi) (sysnum : ℕ)
    → (get_sysnums headers abi).offset + length (get_sysnums headers abi).table < 2 ^ 32 - 1
    → detranslate_sysnum headers abi sysnum < 2 ^ 64
detranslate_sysnum-small headers abi sysnum small =
    let value = detranslate_sysnum headers abi sysnum in
    elim (Bool-cases (value == syscall_avoider)) [
      | inl none ↦ rw ((==_iff value syscall_avoider).0 none) (omega arith)
      | inr found ↦ omega (
        arith,
        detranslate_sysnum-lt headers abi sysnum (omega arith)
            (λ e. cc (rw found at (==_iff value syscall_avoider).1 e)),
      )
    ]

-- After `set_sysnum`, `get_sysnum` gives the number back if it has a value on the tracee's
-- architecture, and PR_void if it has none, provided that the table and the offset of its numbers
-- end below the largest 32-bit value.
pub get_sysnum-set_sysnum :
    (headers : Headers) (sysnum : ℕ) (tracee : Tracee)
    → (get_sysnums headers (get_abi tracee)).offset
        + length (get_sysnums headers (get_abi tracee)).table
      < 2 ^ 32 - 1
    → get_sysnum headers current (set_sysnum headers sysnum tracee)
      ≡ some (
          if detranslate_sysnum headers (get_abi tracee) sysnum == syscall_avoider
          then pr_void
          else sysnum)
get_sysnum-set_sysnum headers sysnum tracee small =
    let value = detranslate_sysnum headers (get_abi tracee) sysnum in
    rw
      (
        peek_reg-poke_reg sysarg_num value tracee
            (detranslate_sysnum-small headers (get_abi tracee) sysnum small),
        poke_reg-is_aarch32 value tracee,
      )
      (translate_sysnum_cut headers (get_abi tracee) sysnum tracee.is_aarch32 small)
