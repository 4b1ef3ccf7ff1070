-- ===== src/Ptrace/Requests/QuietBlocks.antt =====
-- The requests that move blocks of bytes leave the links alone.
use Prim.Native.Nat.{min}
use abyss.Base.{ℕ, ◌+◌, ◌%◌, ◌^◌, refl, List, [], ◌==◌, if◌then◌else◌, length, take}
use abyss.Syscall.Stages.{minus}
use abyss.Tracees.Store.{Cmd, Platform, Reply}
use abyss.Tracees.Post.{ends}
use abyss.Tracees.Safe.Quiet.{
  Quiet, Quiet-bind, Quiet-pure, Quiet-ask, Quiet-fault, Quiet-load, Quiet-if,
}
use abyss.Ptrace.Words.{is_32on64_mode, sizeof_word, negated, negated_reply}
use abyss.Ptrace.Blocks.{
  regs_size, fpregs_size, request_getregset, request_setregset, errno_enomem, enotsup, write_block,
  writev_block, read_block, set_block, get_request, set_request, getregs_request, setregs_request,
  getfpregs_request, setfpregs_request, remote_iovec, give_vector, getregset_request,
  setregset_request,
}
use abyss.Ptrace.Requests.Quiet.{Quiet-on_reply, Quiet-peek_word, Quiet-poke_word}

module _ {Memory : Type 0} (platform : Platform Memory) where
  Quiet-write_block : (a dest : ℕ) (bytes : List ℕ) → Quiet (write_block platform a dest bytes)
  unfolding write_block
  Quiet-write_block a dest bytes = record {
    post = λ w. ends (record { same_links = refl; same_tracees = refl; same_next = refl });
  }

  Quiet-writev_block : (a dest : ℕ) (bytes : List ℕ) → Quiet (writev_block platform a dest bytes)
  unfolding writev_block
  Quiet-writev_block a dest bytes = record {
    post = λ w. ends (record { same_links = refl; same_tracees = refl; same_next = refl });
  }

  Quiet-read_block : (a src size : ℕ) → Quiet (read_block platform a src size)
  unfolding read_block
  Quiet-read_block a src size = record {
    post = λ w. ends (record { same_links = refl; same_tracees = refl; same_next = refl });
  }

  Quiet-set_block :
      (request pid address : ℕ) (bytes : List ℕ)
      → Quiet (set_block platform request pid address bytes)
  unfolding set_block
  Quiet-set_block request pid address bytes = record {
    post = λ w. ends (record { same_links = refl; same_tracees = refl; same_next = refl });
  }

  pub Quiet-get_request :
      (ptracer request pid argument size : ℕ)
      → Quiet (get_request platform ptracer request pid argument size)
  unfolding get_request
  Quiet-get_request ptracer request pid dest size =
      Quiet-bind _ _ (Quiet-ask (platform.kernel.get_block request pid 0 size)) λ answer.
        Quiet-on_reply answer _ _ (λ errno. Quiet-pure (minus errno))
          (λ bytes. Quiet-write_block ptracer dest bytes)

  pub Quiet-set_request :
      (ptracer request pid argument size : ℕ)
      → Quiet (set_request platform ptracer request pid argument size)
  unfolding set_request
  Quiet-set_request ptracer request pid src size =
      Quiet-bind {A = ℕ × List ℕ} _ _ (Quiet-read_block ptracer src size) λ read.
        Quiet-if (read.0 == 0) _ _
          (Quiet-bind {A = Reply (Unit {0})} _ _ (Quiet-set_block request pid 0 read.1)
            λ answer. Quiet-pure (negated_reply answer))
          (Quiet-pure read.0)

  pub Quiet-getregs_request :
      (ptracer request pid argument : ℕ)
      → Quiet (getregs_request platform ptracer request pid argument)
  unfolding getregs_request
  Quiet-getregs_request ptracer request pid dest = Quiet-bind _ _ (Quiet-load ptracer) λ r.
      Quiet-if (is_32on64_mode r) _ _
        (Quiet-bind _ _ (Quiet-ask (platform.kernel.get_block request pid 0 regs_size)) λ answer.
          Quiet-on_reply answer _ _ (λ errno. Quiet-pure (minus errno)) (λ _. Quiet-fault))
        (Quiet-get_request ptracer request pid dest regs_size)

  pub Quiet-setregs_request :
      (ptracer request pid argument : ℕ)
      → Quiet (setregs_request platform ptracer request pid argument)
  unfolding setregs_request
  Quiet-setregs_request ptracer request pid src = Quiet-bind _ _ (Quiet-load ptracer) λ r.
      Quiet-if (is_32on64_mode r) _ _
        (Quiet-bind {A = ℕ × List ℕ} _ _ (Quiet-read_block ptracer src 0)
          λ read. Quiet-if (read.0 == 0) _ _ Quiet-fault (Quiet-pure read.0))
        (Quiet-set_request ptracer request pid src regs_size)

  pub Quiet-getfpregs_request :
      (ptracer request pid argument : ℕ)
      → Quiet (getfpregs_request platform ptracer request pid argument)
  unfolding getfpregs_request
  Quiet-getfpregs_request ptracer request pid dest = Quiet-bind _ _ (Quiet-load ptracer) λ r.
      Quiet-if (is_32on64_mode r) _ _
        (Quiet-bind _ _ (Quiet-ask (platform.kernel.get_block request pid 0 fpregs_size)) λ answer.
          Quiet-on_reply answer _ _ (λ errno. Quiet-pure (minus errno))
            (λ _. Quiet-write_block ptracer dest []))
        (Quiet-get_request ptracer request pid dest fpregs_size)

  pub Quiet-setfpregs_request :
      (ptracer request pid argument : ℕ)
      → Quiet (setfpregs_request platform ptracer request pid argument)
  unfolding setfpregs_request
  Quiet-setfpregs_request ptracer request pid src = Quiet-bind _ _ (Quiet-load ptracer) λ r.
      Quiet-if (is_32on64_mode r) _ _
        (Quiet-bind {A = ℕ × List ℕ} _ _ (Quiet-read_block ptracer src 0)
          λ read. Quiet-pure (if read.0 == 0 then minus enotsup else read.0))
        (Quiet-set_request ptracer request pid src fpregs_size)

  Quiet-remote_iovec :
      (ptracer argument : ℕ) (next : ℕ → ℕ → Cmd Memory ℕ)
      → ((base len : ℕ) → Quiet (next base len))
      → Quiet (remote_iovec platform ptracer argument next)
  unfolding remote_iovec
  Quiet-remote_iovec ptracer vector next q = Quiet-bind _ _ (Quiet-load ptracer) λ r.
      Quiet-bind _ _ (Quiet-peek_word platform ptracer vector) λ base.
        Quiet-on_reply base _ _ (λ errno. Quiet-pure (minus errno))
          λ remote_base.
            Quiet-bind _ _ (Quiet-peek_word platform ptracer ((vector + sizeof_word r) % 2 ^ 64))
              λ len.
                Quiet-on_reply len _ _ (λ errno. Quiet-pure (minus errno))
                  λ remote_len. Quiet-bind _ _ (Quiet-ask platform.kernel.calloc_granted) λ granted.
                    Quiet-if granted _ _ (q remote_base remote_len)
                      (Quiet-pure (minus errno_enomem))

  Quiet-give_vector :
      (ptracer vector base len : ℕ) (bytes : List ℕ)
      → Quiet (give_vector platform ptracer vector base len bytes)
  unfolding give_vector
  Quiet-give_vector ptracer vector base len bytes = Quiet-bind _ _ (Quiet-load ptracer) λ r.
      Quiet-bind {A = ℕ} _ _ (Quiet-writev_block ptracer base (take len bytes)) λ status.
        Quiet-if (status == 0) _ _
          (Quiet-bind _ _
            (Quiet-poke_word platform ptracer ((vector + sizeof_word r) % 2 ^ 64)
              (min len (length bytes)))
            λ errno. Quiet-pure (negated errno))
          (Quiet-pure status)

  pub Quiet-getregset_request :
      (ptracer pid address argument : ℕ)
      → Quiet (getregset_request platform ptracer pid address argument)
  unfolding getregset_request
  Quiet-getregset_request ptracer pid address vector =
      Quiet-remote_iovec ptracer vector _ λ base len.
        Quiet-bind _ _ (Quiet-ask (platform.kernel.get_block request_getregset pid address len))
          λ answer.
            Quiet-on_reply answer _ _ (λ _. Quiet-pure (minus 1))
              (λ bytes. Quiet-give_vector ptracer vector base len bytes)

  pub Quiet-setregset_request :
      (ptracer pid address argument : ℕ)
      → Quiet (setregset_request platform ptracer pid address argument)
  unfolding setregset_request
  Quiet-setregset_request ptracer pid address vector =
      Quiet-remote_iovec ptracer vector _ λ base len.
        Quiet-bind {A = ℕ × List ℕ} _ _ (Quiet-read_block ptracer base len) λ read.
          Quiet-if (read.0 == 0) _ _
            (Quiet-bind {A = Reply (Unit {0})} _ _
              (Quiet-set_block request_setregset pid address read.1)
              λ answer. Quiet-on_reply answer _ _ (λ _. Quiet-pure (minus 1)) (λ _. Quiet-pure 0))
            (Quiet-pure read.0)
