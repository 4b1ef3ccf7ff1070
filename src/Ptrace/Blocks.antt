-- ===== src/Ptrace/Blocks.antt =====
-- The requests of ptrace/ptrace.c that move a block of bytes between a ptracee and the memory of its
-- ptracer, with the sizes of arm64. The conversion of 32-bit registers, ptrace/user.h, is a failing
-- assertion there.
use Prim.Native.Nat.{min}
use abyss.Base.{ℕ, ◌+◌, ◌%◌, ◌^◌, none, some, List, [], ◌∷◌, ◌==◌, if◌then◌else◌, length, take}
use abyss.Tracee.Mem.{write_data, read_data}
use abyss.Tracee.Mem.Vectors.{writev_data}
use abyss.Syscall.Stages.{minus}
use abyss.Tracees.Store.{Cmd, Platform, Reply, pure, ◌>>=◌, load, ask, on_reply}
use abyss.Ptrace.Wait.{minus_errno}
use abyss.Ptrace.Words.{is_32on64_mode, sizeof_word, peek_word, poke_word, negated, negated_reply}

-- `sizeof(siginfo_t)`, `sizeof(struct user_regs_struct)` and `sizeof(struct user_fpsimd_struct)`.
abbrev pub siginfo_size : ℕ
siginfo_size = 128

abbrev pub regs_size : ℕ
regs_size = 272

abbrev pub fpregs_size : ℕ
fpregs_size = 528

abbrev pub request_getregset : ℕ
request_getregset = 0x4204

abbrev pub request_setregset : ℕ
request_setregset = 0x4205

abbrev pub errno_enomem : ℕ
errno_enomem = 12

abbrev pub enotsup : ℕ
enotsup = 95

module _ {Memory : Type 0} (platform : Platform Memory) where
  -- `write_data`, `writev_data` of one buffer and `read_data` on the memory of a tracee: the status
  -- is 0 or -errno.
  unfoldable pub write_block : (a dest : ℕ) → List ℕ → Cmd Memory ℕ
  unfolding write_data
  write_block a dest bytes w =
      let written =
        write_data (platform.kernel.process (w.cell a).pid) platform.errno dest bytes w.memory in
      some (minus_errno written.0, record w { memory = written.1 })

  unfoldable pub writev_block : (a dest : ℕ) → List ℕ → Cmd Memory ℕ
  unfolding writev_data
  writev_block a dest bytes w =
      let written =
        writev_data (platform.kernel.process (w.cell a).pid) platform.errno dest (bytes ∷ [])
          w.memory in
      some (minus_errno written.0, record w { memory = written.1 })

  unfoldable pub read_block : (a src size : ℕ) → Cmd Memory (ℕ × List ℕ)
  unfolding read_data
  read_block a src size w =
      let (status, bytes) =
        read_data (platform.kernel.process (w.cell a).pid) platform.errno src size w.memory in
      some ((minus_errno status, bytes), w)

  unfoldable pub set_block : (request pid address : ℕ) → List ℕ → Cmd Memory (Reply (Unit {0}))
  set_block request pid address bytes w =
      let (answer, m') = platform.kernel.set_block request pid address bytes w.memory in
      some (answer, record w { memory = m' })

  -- A block of the ptracee for the ptracer: PTRACE_GETSIGINFO, and PTRACE_GETREGS and
  -- PTRACE_GETFPREGS of a 64-bit tracee.
  unfoldable pub get_request : (ptracer request pid argument size : ℕ) → Cmd Memory ℕ
  unfolding write_block
  get_request ptracer request pid dest size = do
    answer ← ask (platform.kernel.get_block request pid 0 size)
    on_reply answer (λ errno. pure (minus errno)) (λ bytes. write_block ptracer dest bytes)

  unfoldable pub set_request : (ptracer request pid argument size : ℕ) → Cmd Memory ℕ
  unfolding read_block set_block
  set_request ptracer request pid src size = do
    read ← read_block ptracer src size
    if read.0 == 0
        then (do answer ← set_block request pid 0 read.1; pure (negated_reply answer))
        else pure read.0

  -- PTRACE_GETREGS.
  unfoldable pub getregs_request : (ptracer request pid argument : ℕ) → Cmd Memory ℕ
  unfolding load get_request
  getregs_request ptracer request pid dest = do
    r ← load ptracer
    if is_32on64_mode r
        then (do
          answer ← ask (platform.kernel.get_block request pid 0 regs_size)
          on_reply answer (λ errno. pure (minus errno)) (λ _. λ w. none))
        else get_request ptracer request pid dest regs_size

  -- PTRACE_SETREGS, where a 32-bit tracee has no registers.
  unfoldable pub setregs_request : (ptracer request pid argument : ℕ) → Cmd Memory ℕ
  unfolding load read_block set_request
  setregs_request ptracer request pid src = do
    r ← load ptracer
    if is_32on64_mode r
        then (do read ← read_block ptracer src 0; if read.0 == 0 then (λ w. none) else pure read.0)
        else set_request ptracer request pid src regs_size

  -- PTRACE_GETFPREGS and PTRACE_SETFPREGS.
  unfoldable pub getfpregs_request : (ptracer request pid argument : ℕ) → Cmd Memory ℕ
  unfolding load get_request write_block
  getfpregs_request ptracer request pid dest = do
    r ← load ptracer
    if is_32on64_mode r
        then (do
          answer ← ask (platform.kernel.get_block request pid 0 fpregs_size)
          on_reply answer (λ errno. pure (minus errno)) (λ _. write_block ptracer dest []))
        else get_request ptracer request pid dest fpregs_size

  unfoldable pub setfpregs_request : (ptracer request pid argument : ℕ) → Cmd Memory ℕ
  unfolding load read_block set_request
  setfpregs_request ptracer request pid src = do
    r ← load ptracer
    if is_32on64_mode r
        then (do
          read ← read_block ptracer src 0
          pure (if read.0 == 0 then minus enotsup else read.0))
        else set_request ptracer request pid src fpregs_size

  -- The vector of the ptracer that PTRACE_GETREGSET and PTRACE_SETREGSET read first, with its base
  -- and its length.
  unfoldable pub remote_iovec : (ptracer argument : ℕ) → (ℕ → ℕ → Cmd Memory ℕ) → Cmd Memory ℕ
  unfolding load peek_word
  remote_iovec ptracer vector next = do
    r ← load ptracer
    base ← peek_word platform ptracer vector
    on_reply base (λ errno. pure (minus errno))
        (λ remote_base. do
          len ← peek_word platform ptracer ((vector + sizeof_word r) % 2 ^ 64)
          on_reply len (λ errno. pure (minus errno))
              (λ remote_len. do
                granted ← ask platform.kernel.calloc_granted
                if granted then next remote_base remote_len else pure (minus errno_enomem)))

  -- The content of the vector, then its length.
  unfoldable pub give_vector : (ptracer vector base len : ℕ) → List ℕ → Cmd Memory ℕ
  unfolding load writev_block poke_word
  give_vector ptracer vector base len bytes = do
    r ← load ptracer
    status ← writev_block ptracer base (take len bytes)
    if status == 0
        then (do
          errno ←
              poke_word platform ptracer ((vector + sizeof_word r) % 2 ^ 64)
                (min len (length bytes))
          pure (negated errno))
        else pure status

  -- The status of a failed request is -1.
  unfoldable pub getregset_request : (ptracer pid address argument : ℕ) → Cmd Memory ℕ
  unfolding remote_iovec give_vector
  getregset_request ptracer pid address vector = remote_iovec ptracer vector λ base len. do
    answer ← ask (platform.kernel.get_block request_getregset pid address len)
    on_reply answer (λ _. pure (minus 1)) (λ bytes. give_vector ptracer vector base len bytes)

  unfoldable pub setregset_request : (ptracer pid address argument : ℕ) → Cmd Memory ℕ
  unfolding remote_iovec read_block set_block
  setregset_request ptracer pid address vector = remote_iovec ptracer vector λ base len. do
    read ← read_block ptracer base len
    if read.0 == 0
        then (do
          answer ← set_block request_setregset pid address read.1
          on_reply answer (λ _. pure (minus 1)) (λ _. pure 0))
        else pure read.0
