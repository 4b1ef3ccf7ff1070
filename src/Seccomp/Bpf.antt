-- ===== src/Seccomp/Bpf.antt =====
-- The statements of <linux/filter.h> that the filter is made of, and what is used of the machine
-- that runs them in the kernel: its documented behaviour, one law for each kind of statement.
use abyss.Base.{ℕ, ◌%◌, ◌^◌, ◌≡◌, List, ◌∷◌, ltb, leb, ◌==◌, if◌then◌else◌, drop, Option, some}

-- BPF_LD + BPF_W + BPF_ABS; BPF_JMP + BPF_JEQ, BPF_JGT, BPF_JGE (all + BPF_K) and BPF_JA;
-- BPF_RET + BPF_K.
pub data Code : Type 0 where
  ld_w_abs jmp_jeq jmp_jgt jmp_jge jmp_ja ret_k : Code

-- `struct sock_filter`
pub record SockFilter : Type 0 where
  pub code : Code
  pub jt : ℕ
  pub jf : ℕ
  pub k : ℕ

-- The macros BPF_STMT and BPF_JUMP; `k` is a 32-bit field.
abbrev pub bpf_stmt : Code → ℕ → SockFilter
bpf_stmt code k = record { code = code; jt = 0; jf = 0; k = k % 2 ^ 32 }

abbrev pub bpf_jump : Code → ℕ → ℕ → ℕ → SockFilter
bpf_jump code k jt jf = record { code = code; jt = jt; jf = jf; k = k % 2 ^ 32 }

-- `struct seccomp_data`: the fields that are read.
pub record SeccompData : Type 0 where
  pub nr : ℕ
  pub arch : ℕ
  pub instruction_pointer : ℕ

-- The offsets of these fields, and the 32-bit words at them on a little-endian machine.
abbrev pub nr_offset : ℕ
nr_offset = 0

abbrev pub arch_offset : ℕ
arch_offset = 4

abbrev pub instruction_pointer_offset : ℕ
instruction_pointer_offset = 8

-- `run p d a` is what the program `p` returns for the data `d`, started with `a` in the
-- accumulator; a jump skips statements.
pub record Machine : Type 0 where
  pub run : List SockFilter → SeccompData → ℕ → Option ℕ
  pub run_nr :
      (p : List SockFilter) (d : SeccompData) (a : ℕ)
      → run (bpf_stmt ld_w_abs nr_offset ∷ p) d a ≡ run p d d.nr
  pub run_arch :
      (p : List SockFilter) (d : SeccompData) (a : ℕ)
      → run (bpf_stmt ld_w_abs arch_offset ∷ p) d a ≡ run p d d.arch
  pub run_instruction_pointer :
      (p : List SockFilter) (d : SeccompData) (a : ℕ)
      → run (bpf_stmt ld_w_abs instruction_pointer_offset ∷ p) d a
        ≡ run p d (d.instruction_pointer % 2 ^ 32)
  pub run_jeq :
      (k jt jf : ℕ) (p : List SockFilter) (d : SeccompData) (a : ℕ)
      → run (bpf_jump jmp_jeq k jt jf ∷ p) d a
        ≡ run (drop (if a == k % 2 ^ 32 then jt else jf) p) d a
  pub run_jgt :
      (k jt jf : ℕ) (p : List SockFilter) (d : SeccompData) (a : ℕ)
      → run (bpf_jump jmp_jgt k jt jf ∷ p) d a
        ≡ run (drop (if ltb (k % 2 ^ 32) a then jt else jf) p) d a
  pub run_jge :
      (k jt jf : ℕ) (p : List SockFilter) (d : SeccompData) (a : ℕ)
      → run (bpf_jump jmp_jge k jt jf ∷ p) d a
        ≡ run (drop (if leb (k % 2 ^ 32) a then jt else jf) p) d a
  pub run_ja :
      (k : ℕ) (p : List SockFilter) (d : SeccompData) (a : ℕ)
      → run (bpf_stmt jmp_ja k ∷ p) d a ≡ run (drop (k % 2 ^ 32) p) d a
  pub run_ret :
      (k : ℕ) (p : List SockFilter) (d : SeccompData) (a : ℕ)
      → run (bpf_stmt ret_k k ∷ p) d a ≡ some (k % 2 ^ 32)
