-- ===== src/Ptrace/Requests/Quiet.antt =====
-- The requests that only move words and blocks leave the links alone.
use Prim.Native.Nat.{bit_or}
use abyss.Base.{ℕ, ◌%◌, ◌^◌, refl, if◌then◌else◌}
use abyss.Tracee.State.{Tracee}
use abyss.Tracee.Process.{Transfer, whole, partial, failed}
use abyss.Syscall.Stages.{minus}
use abyss.Tracees.Store.{Cmd, Platform, Reply, reply, failure, on_reply, on_transfer}
use abyss.Tracees.Post.{ends}
use abyss.Tracees.Safe.Quiet.{
  Quiet, Quiet-bind, Quiet-pure, Quiet-ask, Quiet-fault, Quiet-load, Quiet-if,
}
use abyss.Ptrace.Words.{
  request_peekdata, request_pokedata, request_peekuser, request_pokeuser, no_eio, is_32on64_mode,
  sizeof_word, word_from, high_half, negated, negated_reply, ptrace, peek_word, with_high_half,
  writev_word, poke_word, give_word, peek_request, peekuser_request, plain_request,
  pokeuser_request, poke_request,
}

module _ {Memory : Type 0} where
  pub Quiet-on_reply :
      {A B : Type 0} (answer : Reply A) (f : ℕ → Cmd Memory B) (g : A → Cmd Memory B)
      → ((errno : ℕ) → Quiet (f errno))
      → ((a : A) → Quiet (g a))
      → Quiet (on_reply answer f g)
  Quiet-on_reply (reply a) f g q r = r a
  Quiet-on_reply (failure errno) f g q r = q errno

  Quiet-on_transfer :
      {A B : Type 0} (transfer : Transfer A) (f : A → Cmd Memory B) (g : Cmd Memory B)
      (h : ℕ → Cmd Memory B)
      → ((a : A) → Quiet (f a))
      → Quiet g
      → ((errno : ℕ) → Quiet (h errno))
      → Quiet (on_transfer transfer f g h)
  Quiet-on_transfer (whole a) f g h q r s = q a
  Quiet-on_transfer partial f g h q r s = r
  Quiet-on_transfer (failed errno) f g h q r s = s errno

  module _ (platform : Platform Memory) where
    pub Quiet-ptrace :
        (request pid address argument : ℕ) → Quiet (ptrace platform request pid address argument)
    unfolding ptrace
    Quiet-ptrace request pid address argument = record {
      post = λ w. ends (record { same_links = refl; same_tracees = refl; same_next = refl });
    }

    pub Quiet-peek_word : (a address : ℕ) → Quiet (peek_word platform a address)
    unfolding peek_word
    Quiet-peek_word a address = Quiet-bind _ _ (Quiet-load a) λ t.
        Quiet-bind _ _
          (Quiet-ask ((platform.kernel.process t.pid).vm_readv address (sizeof_word t)))
          λ transfer.
            Quiet-on_transfer transfer _ _ _ (λ bytes. Quiet-pure (reply (word_from bytes)))
              (Quiet-bind _ _ (Quiet-ask (platform.kernel.partial_word address))
                λ word. Quiet-pure (reply word))
              (λ _. Quiet-bind _ _ (Quiet-ptrace request_peekdata t.pid address 0) λ answer.
                Quiet-on_reply answer _ _ (λ errno. Quiet-pure (failure (no_eio errno)))
                  (λ word. Quiet-pure (reply (if is_32on64_mode t then word % 2 ^ 32 else word))))

    Quiet-with_high_half :
        (t : Tracee) (address value : ℕ) → Quiet (with_high_half platform t address value)
    unfolding with_high_half
    Quiet-with_high_half t address value =
        Quiet-if (is_32on64_mode t) _ _
          (Quiet-bind _ _ (Quiet-ptrace request_peekdata t.pid address 0) λ tmp.
            Quiet-on_reply tmp _ _ (λ errno. Quiet-pure (failure errno))
              (λ word. Quiet-pure (reply (bit_or value (high_half word)))))
          (Quiet-pure (reply value))

    Quiet-writev_word :
        (t : Tracee) (address value : ℕ) → Quiet (writev_word platform t address value)
    unfolding writev_word
    Quiet-writev_word t address value = record {
      post = λ w. ends (record { same_links = refl; same_tracees = refl; same_next = refl });
    }

    pub Quiet-poke_word : (a address value : ℕ) → Quiet (poke_word platform a address value)
    unfolding poke_word
    Quiet-poke_word a address value = Quiet-bind _ _ (Quiet-load a) λ t.
        Quiet-bind {A = Transfer (Unit {0})} _ _ (Quiet-writev_word t address value) λ status.
          Quiet-on_transfer status _ _ _ (λ _. Quiet-pure 0) (Quiet-pure 0)
            (λ _. Quiet-bind _ _ (Quiet-with_high_half t address value) λ merged.
              Quiet-on_reply merged _ _ (λ errno. Quiet-pure errno)
                (λ word. Quiet-bind _ _ (Quiet-ptrace request_pokedata t.pid address word) λ answer.
                  Quiet-on_reply answer _ _ (λ errno. Quiet-pure (no_eio errno))
                    (λ _. Quiet-pure 0)))

    pub Quiet-give_word :
        (ptracer argument : ℕ) (answer : Reply ℕ)
        → Quiet (give_word platform ptracer argument answer)
    unfolding give_word
    Quiet-give_word ptracer argument answer =
        Quiet-on_reply answer _ _ (λ errno. Quiet-pure (minus errno))
          (λ word.
            Quiet-bind _ _ (Quiet-poke_word ptracer argument word)
              λ errno. Quiet-pure (negated errno))

    pub Quiet-peek_request :
        (ptracer request pid address argument : ℕ)
        → Quiet (peek_request platform ptracer request pid address argument)
    unfolding peek_request
    Quiet-peek_request ptracer request pid address argument =
        Quiet-bind _ _ (Quiet-ptrace request pid address 0)
          λ answer. Quiet-give_word ptracer argument answer

    pub Quiet-peekuser_request :
        (ptracer pid address argument : ℕ)
        → Quiet (peekuser_request platform ptracer pid address argument)
    unfolding peekuser_request
    Quiet-peekuser_request ptracer pid address argument = Quiet-bind _ _ (Quiet-load ptracer) λ r.
        Quiet-if (is_32on64_mode r) _ _ Quiet-fault
          (Quiet-peek_request ptracer request_peekuser pid address argument)

    pub Quiet-plain_request :
        (request pid address argument : ℕ)
        → Quiet (plain_request platform request pid address argument)
    unfolding plain_request
    Quiet-plain_request request pid address argument =
        Quiet-bind _ _ (Quiet-ptrace request pid address argument)
          λ answer. Quiet-pure (negated_reply answer)

    pub Quiet-pokeuser_request :
        (ptracer pid address argument : ℕ)
        → Quiet (pokeuser_request platform ptracer pid address argument)
    unfolding pokeuser_request
    Quiet-pokeuser_request ptracer pid address argument = Quiet-bind _ _ (Quiet-load ptracer) λ r.
        Quiet-if (is_32on64_mode r) _ _ Quiet-fault
          (Quiet-plain_request request_pokeuser pid address argument)

    pub Quiet-poke_request :
        (ptracer ptracee request pid address argument : ℕ)
        → Quiet (poke_request platform ptracer ptracee request pid address argument)
    unfolding poke_request
    Quiet-poke_request ptracer ptracee request pid address argument =
        Quiet-bind _ _ (Quiet-load ptracer) λ r. Quiet-bind _ _ (Quiet-load ptracee) λ t.
          Quiet-if (is_32on64_mode r) _ _
            (Quiet-bind _ _ (Quiet-ptrace request_peekdata t.pid address 0) λ tmp.
              Quiet-on_reply tmp _ _ (λ errno. Quiet-pure (minus errno))
                (λ old. Quiet-plain_request request pid address (bit_or argument (high_half old))))
            (Quiet-plain_request request pid address argument)
