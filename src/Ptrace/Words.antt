-- ===== src/Ptrace/Words.antt =====
-- Words in the memory of a tracee, `peek_word` and `poke_word` of tracee/mem.c, and the requests of
-- ptrace/ptrace.c that move one word. The tracee is on a 64-bit kernel; on arm64 the conversion of a
-- 32-bit "user" area, ptrace/user.h, is a failing assertion.
use Prim.Native.Nat.{bit_or}
use abyss.Base.{
  ℕ, zero, suc, ◌+◌, ◌*◌, ◌/◌, ◌%◌, ◌^◌, Bool, none, some, List, [], ◌∷◌, ◌==◌, if◌then◌else◌,
}
use abyss.Tracee.State.{Tracee}
use abyss.Tracee.Process.{Transfer}
use abyss.Syscall.Stages.{minus}
use abyss.Tracees.Store.{
  Cmd, Platform, Reply, reply, failure, pure, ◌>>=◌, load, ask, on_reply, on_transfer,
}

-- The requests of sys/ptrace.h.
abbrev pub request_peekuser : ℕ
request_peekuser = 3

abbrev pub request_peekdata : ℕ
request_peekdata = 2

abbrev pub request_pokedata : ℕ
request_pokedata = 5

abbrev pub request_pokeuser : ℕ
request_pokeuser = 6

abbrev pub eio : ℕ
eio = 5

abbrev pub errno_efault : ℕ
errno_efault = 14

-- `if (errno == EIO) errno = EFAULT;`
abbrev pub no_eio : ℕ → ℕ
no_eio errno = if errno == eio then errno_efault else errno

-- `is_32on64_mode` and `sizeof_word` of tracee/abi.h.
abbrev pub is_32on64_mode : Tracee → Bool
is_32on64_mode t = t.is_aarch32

abbrev pub sizeof_word : Tracee → ℕ
sizeof_word t = if is_32on64_mode t then 4 else 8

-- A word from its bytes, and the bytes of a word.
unfoldable pub word_from : List ℕ → ℕ
word_from [] = 0
word_from (b ∷ bytes) = b + 2 ^ 8 * word_from bytes

unfoldable pub bytes_of : (size : ℕ) → ℕ → List ℕ
bytes_of zero word = []
bytes_of (suc n) word = word % 2 ^ 8 ∷ bytes_of n (word / 2 ^ 8)

-- `tmp & 0xFFFFFFFF00000000`
abbrev pub high_half : ℕ → ℕ
high_half word = word / 2 ^ 32 * 2 ^ 32

-- `if (errno != 0) return -errno; return 0;`
abbrev pub negated : ℕ → ℕ
negated errno = if errno == 0 then 0 else minus errno

-- A status of ptrace(2) that is only tested.
abbrev pub negated_reply : {A : Type 0} → Reply A → ℕ
negated_reply (reply _) = 0
negated_reply (failure errno) = minus errno

module _ {Memory : Type 0} (platform : Platform Memory) where
  -- A request of ptrace(2) that is passed on.
  unfoldable pub ptrace : (request pid address argument : ℕ) → Cmd Memory (Reply ℕ)
  ptrace request pid address word w =
      let (answer, m') = platform.kernel.request request pid address word w.memory in
      some (answer, record w { memory = m' })

  -- The word; or the errno that the caller tests.
  unfoldable pub peek_word : (a address : ℕ) → Cmd Memory (Reply ℕ)
  unfolding load ptrace word_from
  peek_word a address = do
    t ← load a
    transfer ← ask ((platform.kernel.process t.pid).vm_readv address (sizeof_word t))
    on_transfer transfer (λ bytes. pure (reply (word_from bytes)))
        (do word ← ask (platform.kernel.partial_word address); pure (reply word))
        (λ _. do
          answer ← ptrace request_peekdata t.pid address 0
          on_reply answer (λ errno. pure (failure (no_eio errno)))
              (λ word. pure (reply (if is_32on64_mode t then word % 2 ^ 32 else word))))

  -- The value with the half that is not to be overwritten.
  unfoldable pub with_high_half : Tracee → (address value : ℕ) → Cmd Memory (Reply ℕ)
  unfolding ptrace
  with_high_half t address value =
      if is_32on64_mode t
      then (do
        tmp ← ptrace request_peekdata t.pid address 0
        on_reply tmp (λ errno. pure (failure errno))
            (λ word. pure (reply (bit_or value (high_half word)))))
      else pure (reply value)

  -- `process_vm_writev` of a word.
  unfoldable pub writev_word : Tracee → (address value : ℕ) → Cmd Memory (Transfer (Unit {0}))
  unfolding bytes_of
  writev_word t address value w =
      let (status, m') =
        (platform.kernel.process t.pid).vm_writev address (bytes_of (sizeof_word t) value)
          w.memory in
      some (status, record w { memory = m' })

  -- What errno is left at.
  unfoldable pub poke_word : (a address value : ℕ) → Cmd Memory ℕ
  unfolding load ptrace writev_word with_high_half
  poke_word a address value = do
    t ← load a
    status ← writev_word t address value
    on_transfer status (λ _. pure 0) (pure 0)
        (λ _. do
          merged ← with_high_half t address value
          on_reply merged (λ errno. pure errno)
              (λ word. do
                answer ← ptrace request_pokedata t.pid address word
                on_reply answer (λ errno. pure (no_eio errno)) (λ _. pure 0)))

  -- A word of the ptracee for the ptracer: PTRACE_PEEKTEXT, PTRACE_PEEKDATA and PTRACE_GETEVENTMSG.
  unfoldable pub give_word : (ptracer argument : ℕ) → Reply ℕ → Cmd Memory ℕ
  unfolding poke_word
  give_word ptracer word_address answer =
      on_reply answer (λ errno. pure (minus errno))
        (λ word. do errno ← poke_word ptracer word_address word; pure (negated errno))

  unfoldable pub peek_request : (ptracer request pid address argument : ℕ) → Cmd Memory ℕ
  unfolding ptrace give_word
  peek_request ptracer request pid address word_address = do
    answer ← ptrace request pid address 0
    give_word ptracer word_address answer

  -- PTRACE_PEEKUSER and PTRACE_POKEUSER, of which the conversion of the offset fails on arm64.
  unfoldable pub peekuser_request : (ptracer pid address argument : ℕ) → Cmd Memory ℕ
  unfolding load peek_request
  peekuser_request ptracer pid address word_address = do
    r ← load ptracer
    if is_32on64_mode r
        then (λ w. none)
        else peek_request ptracer request_peekuser pid address word_address

  unfoldable pub plain_request : (request pid address argument : ℕ) → Cmd Memory ℕ
  unfolding ptrace
  plain_request request pid address word = do
    answer ← ptrace request pid address word
    pure (negated_reply answer)

  unfoldable pub pokeuser_request : (ptracer pid address argument : ℕ) → Cmd Memory ℕ
  unfolding load plain_request
  pokeuser_request ptracer pid address word = do
    r ← load ptracer
    if is_32on64_mode r then (λ w. none) else plain_request request_pokeuser pid address word

  -- PTRACE_POKETEXT and PTRACE_POKEDATA.
  unfoldable pub poke_request : (ptracer ptracee request pid address argument : ℕ) → Cmd Memory ℕ
  unfolding load ptrace plain_request
  poke_request ptracer ptracee request pid address word = do
    r ← load ptracer
    t ← load ptracee
    if is_32on64_mode r
        then (do
          tmp ← ptrace request_peekdata t.pid address 0
          on_reply tmp (λ errno. pure (minus errno))
              (λ old. plain_request request pid address (bit_or word (high_half old))))
        else plain_request request pid address word
