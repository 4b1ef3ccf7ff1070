-- ===== src/Syscall/Tests.antt =====
-- Number tables, and the theorems on them.
mod Stages
use abyss.Path.Str.{path_max}
use abyss.Tracee.Process.{bytes, splice}
use abyss.Tracee.Flat.{flat}
use abyss.Tracee.Alloc.{aligned_size, alloc_mem}
use abyss.Tracee.Mem.{write_data}
use abyss.Tracee.Strings.{
  strnlen, chunk_size_of, up_to_next_chunk, read_chunks, read_string, read_path,
}
use abyss.Syscall.Args.{get_sysarg_path, set_sysarg_data, set_sysarg_path}
use abyss.Syscall.Args.RoundTrip.{get_sysarg_path-set_sysarg_path}
use abyss.Base.{
  Option, ℕ, List, length, ok, ◌++◌, ◌<◌, ◌^◌, Bool, true, false, if◌then◌else◌, ◌==◌, ◌+◌, ◌≡◌,
  ◌≢◌, ◌↔◌, refl, [], ◌∷◌, arith, none, some,
}
use abyss.Tracee.State.{
  no_ptracees, no_ptracer, restart_unset, seccomp_disabled, sigstop_ignored, current, original,
  ChainedSyscall, queued, Tracee, no_syscalls,
}
use abyss.Tracee.Reg.{
  stack_pointer, poke_reg, set_half, peek_reg, sysarg_num, sysarg_1, sysarg_2, sysarg_3, sysarg_4,
  sysarg_5, sysarg_6, sysarg_result,
}
use abyss.Syscall.Chain.{register_chained_syscall, chain_next_syscall, restart_original_syscall}
use abyss.Syscall.Chain.Order.{calls_with}
use abyss.Syscall.Chain.Ends.{chain_next_syscall_ends, restart_original_syscall-calls_with}
use abyss.Syscall.Current.{get_sysnum, set_sysnum}
use abyss.Syscall.Current.RoundTrip.{get_sysnum-set_sysnum}
use abyss.Syscall.Sysnum.{
  Headers, pr_void, abi_default, abi_3, syscall_avoider, translate_sysnum, detranslate_sysnum,
}
use abyss.Syscall.Sysnum.RoundTrip.{translate_sysnum-detranslate_sysnum, translate_sysnum-eq_none}

abbrev headers : Headers
headers = record { abi1 = 5 ∷ 0 ∷ 7 ∷ []; abi2 = []; abi3 = 8 ∷ 5 ∷ [] }

detranslate_found : detranslate_sysnum headers abi_3 5 ≡ 0x40000001
unfolding detranslate_sysnum
detranslate_found = refl

detranslate_is_found : detranslate_sysnum headers abi_3 5 ≢ syscall_avoider
detranslate_is_found e = omega (arith, detranslate_found, e)

translate_sysnum-detranslate_sysnum_example :
    translate_sysnum headers abi_3 (detranslate_sysnum headers abi_3 5) ≡ some 5
translate_sysnum-detranslate_sysnum_example =
    translate_sysnum-detranslate_sysnum headers abi_3 5 (omega arith) detranslate_is_found

translate_sysnum-eq_none_example : (translate_sysnum headers abi_default 3 ≡ none) ↔ (3 ≡ 0 + 3)
translate_sysnum-eq_none_example = translate_sysnum-eq_none headers abi_default 3

abbrev tracee : Tracee
tracee = record {
  regs = λ version j. 0;
  regs_were_changed = false;
  restore_original_regs = true;
  is_aarch32 = false;
  chain = record { syscalls = no_syscalls; force_final_result = false; final_result = 0 };
  pid = 1;
  parent_pid = none;
  status = 0;
  restart_how = restart_unset;
  running = false;
  user_context_data = 0;
  seccomp = seccomp_disabled;
  sysexit_pending = false;
  seccomp_detected = false;
  seccomp_enabled = false;
  is_root = false;
  deliver_sigtrap = false;
  sigstop = sigstop_ignored;
  vpid = 0;
  terminated = false;
  killall_on_exit = false;
  parent = 0;
  clone = false;
  as_ptracer = no_ptracees;
  as_ptracee = no_ptracer;
  is_zombie = false;
}

get_sysnum-set_sysnum_example :
    get_sysnum headers current (set_sysnum headers 7 tracee)
    ≡ some (if detranslate_sysnum headers abi_default 7 == syscall_avoider then pr_void else 7)
get_sysnum-set_sysnum_example = get_sysnum-set_sysnum headers 7 tracee (omega arith)

-- Two chained system calls: `7` with six arguments, then `5`.
abbrev first : ChainedSyscall
first = record {
  sysnum = 7;
  sysarg_1 = 1;
  sysarg_2 = 2;
  sysarg_3 = 3;
  sysarg_4 = 4;
  sysarg_5 = 5;
  sysarg_6 = 6;
}

abbrev second : ChainedSyscall
second = record first { sysnum = 5 }

abbrev done : Tracee
done = record tracee {
  chain = record { syscalls = queued []; force_final_result = true; final_result = 9 };
}

chain_next_syscall_ends_example :
    (next : Tracee) × (chain_next_syscall headers done ≡ some next)
    × (peek_reg next current sysarg_result ≡ 9)
    × ((head : Bool) (element : Option ℕ) (syscall : ChainedSyscall)
        → register_chained_syscall head element syscall next ≡ none)
    × (chain_next_syscall headers next ≡ none)
chain_next_syscall_ends_example = chain_next_syscall_ends headers done refl (omega arith)

-- The stack pointer of a 32-bit tracee is at 13.
abbrev stacked : Tracee
stacked = record tracee { is_aarch32 = true; regs = λ version j. if j == 13 then 0x1000 else 0 }

abbrev path : List ℕ
path = 47 ∷ 97 ∷ []

abbrev passed : Tracee × (ℕ → ℕ)
passed = let r = set_sysarg_path flat 0 path sysarg_2 stacked (λ j. 7) in (r.1, r.2)

path_set : set_sysarg_path flat 0 path sysarg_2 stacked (λ j. 7) ≡ (ok tt, passed.0, passed.1)
unfolding set_sysarg_path set_sysarg_data alloc_mem aligned_size peek_reg poke_reg set_half flat
    write_data
path_set = refl

abbrev path_found : List ℕ
path_found = (get_sysarg_path flat 0 12 sysarg_2 passed.0 passed.1).1

path_got : get_sysarg_path flat 0 12 sysarg_2 passed.0 passed.1 ≡ (ok 3, path_found)
unfolding set_sysarg_path set_sysarg_data alloc_mem aligned_size peek_reg poke_reg set_half flat
    write_data get_sysarg_path read_path read_string read_chunks chunk_size_of up_to_next_chunk
    strnlen bytes splice
path_got = refl

stack_low : peek_reg stacked current stack_pointer + path_max < 2 ^ 64
unfolding peek_reg
stack_low = omega arith

no_nul : strnlen path ≡ length path
unfolding strnlen
no_nul = refl

get_sysarg_path-set_sysarg_path_example :
    (3 ≡ length path + 1) × (path_found ≡ path ++ (0 ∷ 0 ∷ []))
get_sysarg_path-set_sysarg_path_example =
    get_sysarg_path-set_sysarg_path flat 0 0 12 3 path path_found sysarg_2 stacked passed.0 (λ j. 7)
      passed.1 stack_low no_nul (omega arith) path_set path_got
