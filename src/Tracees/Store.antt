-- ===== src/Tracees/Store.antt =====
-- The structures of the tracees and the list that they stand in: tracee/tracee.c and its use of
-- calloc(3). A structure is named by its address, of which 0 is NULL; an address is not given out
-- again. A command is `none` where the C code goes through NULL or fails an assertion.
use abyss.Base.{
  ℕ, ◌+◌, ◌%◌, ◌^◌, Bool, true, false, Option, none, some, List, ◌∷◌, ◌==◌, if◌then◌else◌, Result,
}
use abyss.Tracee.State.{Bank, Tracee, RestartHow, new_dummy_tracee}
use abyss.Tracee.Reg.{Request}
use abyss.Tracee.Process.{Process, Transfer, whole, partial, failed}
use abyss.Syscall.Sysnum.{Headers}

abbrev pub null : ℕ
null = 0

-- What is asked of the kernel: kill(2), the restart of a tracee, and the registers of `push_regs`.
pub data Call : Type 0 where
  kill_call : (pid : ℕ) → (signal : ℕ) → Call
  restart_call : (pid : ℕ) → RestartHow → (signal : ℕ) → Call
  registers_call : (pid : ℕ) → List Request → Call

-- `tracees` and `next_vpid` are the static variables; `next` is the next address of calloc(3), and
-- the last call comes first.
pub record World (Memory : Type 0) : Type 0 where
  pub cell : ℕ → Tracee
  pub tracees : List ℕ
  pub next : ℕ
  pub next_vpid : ℕ
  pub memory : Memory
  pub calls : List Call

abbrev pub Cmd : Type 0 → Type 0 → Type 0
Cmd Memory A = World Memory → Option (A × World Memory)

-- What ptrace(2) answers: its result, or an errno.
pub data Reply (A : Type 0) : Type 0 where
  reply : A → Reply A
  failure : ℕ → Reply A

-- The kernel and the C library, of which `Memory` is the state: the memory of the process with a
-- pid, whether kill(2), a restart and calloc(3) are granted, the registers, the message of
-- PTRACE_GETEVENTMSG, and the requests of ptrace(2) that are passed on, with a word or a block of
-- bytes. `partial_word` is what a partial transfer leaves in a word.
pub record Kernel (Memory : Type 0) : Type 0 where
  pub process : ℕ → Process Memory
  pub kill_granted : ℕ → ℕ → Memory → Bool
  pub restart_granted : ℕ → RestartHow → ℕ → Memory → Bool
  pub calloc_granted : Memory → Bool
  pub getregset : ℕ → Memory → Result Bank
  pub geteventmsg : ℕ → Memory → Reply ℕ
  pub request : ℕ → ℕ → ℕ → ℕ → Memory → Reply ℕ × Memory
  pub get_block : ℕ → ℕ → ℕ → ℕ → Memory → Reply (List ℕ)
  pub set_block : ℕ → ℕ → ℕ → List ℕ → Memory → Reply (Unit {0}) × Memory
  pub partial_word : ℕ → Memory → ℕ

-- What the emulation stands on: the kernel, the tables of system call numbers, the value of errno
-- when the memory of a tracee is accessed, and `handle_tracee_event`, which is given the status and
-- the tracee.
pub record Platform (Memory : Type 0) : Type 0 where
  pub kernel : Kernel Memory
  pub headers : Headers
  pub errno : ℕ
  pub handle_tracee_event : ℕ → ℕ → Cmd Memory ℕ

unfoldable pub set_cell : (ℕ → Tracee) → ℕ → Tracee → ℕ → Tracee
set_cell cell a t b = if b == a then t else cell b

-- What is done with an answer, and with the end of a transfer.
abbrev pub on_reply {ℓ} : {A : Type 0} {B : Type ℓ} → Reply A → (ℕ → B) → (A → B) → B
on_reply (failure errno) otherwise next = otherwise errno
on_reply (reply a) otherwise next = next a

abbrev pub on_transfer {ℓ} : {A : Type 0} {B : Type ℓ} → Transfer A → (A → B) → B → (ℕ → B) → B
on_transfer (whole a) all some_bytes fallback = all a
on_transfer partial all some_bytes fallback = some_bytes
on_transfer (failed errno) all some_bytes fallback = fallback errno

module _ {Memory : Type 0} where
  abbrev pub pure : {A : Type 0} → A → Cmd Memory A
  pure a w = some (a, w)

  abbrev pub and_then :
      {A B : Type 0} → Option (A × World Memory) → (A → Cmd Memory B) → Option (B × World Memory)
  and_then none next = none
  and_then (some (a, w)) next = next a w

  infixl 5 ◌>>=◌ ◌>>◌
  abbrev pub ◌>>=◌ : {A B : Type 0} → Cmd Memory A → (A → Cmd Memory B) → Cmd Memory B
  ◌>>=◌ m f = λ w. and_then (m w) f

  abbrev pub ◌>>◌ : {A B : Type 0} → Cmd Memory A → Cmd Memory B → Cmd Memory B
  m >> k = λ w. and_then (m w) (λ _. k)

  -- `*a`
  unfoldable pub load : ℕ → Cmd Memory Tracee
  load a w = if a == null then none else some (w.cell a, w)

  -- An assignment to fields of `*a`.
  unfoldable pub modify : ℕ → (Tracee → Tracee) → Cmd Memory (Unit {0})
  unfolding set_cell
  modify a f w =
      if a == null then none else some (tt, record w { cell = set_cell w.cell a (f (w.cell a)) })

  abbrev pub assert : Bool → Cmd Memory (Unit {0})
  assert true w = some (tt, w)
  assert false w = none

  -- A call, with what is answered.
  unfoldable pub log : Call → Cmd Memory (Unit {0})
  log call w = some (tt, record w { calls = call ∷ w.calls })

  abbrev pub ask : {A : Type 0} → (Memory → A) → Cmd Memory A
  ask f w = some (f w.memory, w)

  -- `new_dummy_tracee`: NULL when there is no memory.
  unfoldable pub new_dummy : Kernel Memory → Cmd Memory ℕ
  unfolding set_cell new_dummy_tracee
  new_dummy kernel w =
      if kernel.calloc_granted w.memory
      then some
          (w.next, record w { cell = set_cell w.cell w.next new_dummy_tracee; next = w.next + 1 })
      else some (null, w)

  -- `LIST_INSERT_HEAD(&tracees, tracee, link)`
  unfoldable pub insert_head : ℕ → Cmd Memory (Unit {0})
  insert_head a w = some (tt, record w { tracees = a ∷ w.tracees })

  unfoldable pub take_vpid : Cmd Memory ℕ
  take_vpid w = some (w.next_vpid, record w { next_vpid = (w.next_vpid + 1) % 2 ^ 64 })

  unfoldable pub new_tracee : Kernel Memory → ℕ → Cmd Memory ℕ
  unfolding new_dummy modify insert_head take_vpid
  new_tracee kernel pid = do
    tracee ← new_dummy kernel
    if tracee == null then pure null else do
      vpid ← take_vpid
      modify tracee (λ t. record t { pid = pid; vpid = vpid })
      insert_head tracee
      pure tracee
