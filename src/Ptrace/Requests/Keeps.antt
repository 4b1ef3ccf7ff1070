-- ===== src/Ptrace/Requests/Keeps.antt =====
-- The emulated ptrace(2) keeps the invariant of the links, with every request.
use abyss.Base.{ℕ, refl, ◌||◌, arith, ◌==◌}
use abyss.Syscall.Stages.{minus}
use abyss.Tracees.Store.{Platform}
use abyss.Tracees.Safe.Quiet.{
  LeavesLinks, Quiet, Quiet-bind, Quiet-pure, Quiet-ask, Quiet-modify, Quiet-if,
}
use abyss.Ptrace.Request
use abyss.Ptrace.Words.{request_peekdata, request_peekuser, request_pokedata, request_pokeuser}
use abyss.Ptrace.Blocks.{siginfo_size, request_getregset, request_setregset, enotsup}
use abyss.Ptrace.Requests.{
  errno_einval, traces_seccomp, set_options, disable_seccomp, setoptions_request,
  geteventmsg_request, other_request,
}
use abyss.Ptrace.Requests.Quiet.{
  Quiet-give_word, Quiet-peek_request, Quiet-peekuser_request, Quiet-plain_request,
  Quiet-pokeuser_request, Quiet-poke_request,
}
use abyss.Ptrace.Requests.QuietBlocks.{
  Quiet-get_request, Quiet-set_request, Quiet-getregs_request, Quiet-setregs_request,
  Quiet-getfpregs_request, Quiet-setfpregs_request, Quiet-getregset_request,
  Quiet-setregset_request,
}

pub disable_seccomp-LeavesLinks : LeavesLinks disable_seccomp
unfolding disable_seccomp
disable_seccomp-LeavesLinks t = ground arith

module _ {Memory : Type 0} (platform : Platform Memory) where
  Quiet-geteventmsg_request :
      (ptracer pid argument : ℕ) → Quiet (geteventmsg_request platform ptracer pid argument)
  unfolding geteventmsg_request
  Quiet-geteventmsg_request ptracer pid argument =
      Quiet-bind _ _ (Quiet-ask (platform.kernel.geteventmsg pid))
        λ answer. Quiet-give_word platform ptracer argument answer

  Quiet-setoptions_request :
      (ptracee options : ℕ) → Quiet (setoptions_request platform ptracee options)
  unfolding setoptions_request set_options
  Quiet-setoptions_request ptracee options =
      Quiet-if (traces_seccomp options) _ _ (Quiet-pure (minus errno_einval))
        (Quiet-bind _ _ (Quiet-modify ptracee (set_options options) (λ t. refl)) λ _. Quiet-pure 0)

  pub Quiet-other_request :
      (ptracer ptracee request pid address argument : ℕ)
      → Quiet (other_request platform ptracer ptracee request pid address argument)
  unfolding other_request
  Quiet-other_request ptracer ptracee request pid address argument =
      Quiet-if (request == Request.setoptions) _ _ (Quiet-setoptions_request ptracee argument) (
        Quiet-if (request == Request.geteventmsg) _ _
          (Quiet-geteventmsg_request ptracer pid argument)
          (Quiet-if (request == request_peekuser) _ _
            (Quiet-peekuser_request platform ptracer pid address argument)
            (Quiet-if (request == Request.peektext || request == request_peekdata) _ _
              (Quiet-peek_request platform ptracer request pid address argument)
              (Quiet-if (request == request_pokeuser) _ _
                (Quiet-pokeuser_request platform ptracer pid address argument)
                (Quiet-if (request == Request.poketext || request == request_pokedata) _ _
                  (Quiet-poke_request platform ptracer ptracee request pid address argument)
                  (Quiet-if (request == Request.getsiginfo) _ _
                    (Quiet-get_request platform ptracer request pid argument siginfo_size)
                    (Quiet-if (request == Request.setsiginfo) _ _
                      (Quiet-set_request platform ptracer request pid argument siginfo_size)
                      (Quiet-if (request == Request.getregs) _ _
                        (Quiet-getregs_request platform ptracer request pid argument)
                        (Quiet-if (request == Request.setregs) _ _
                          (Quiet-setregs_request platform ptracer request pid argument)
                          (Quiet-if (request == Request.getfpregs) _ _
                            (Quiet-getfpregs_request platform ptracer request pid argument)
                            (Quiet-if (request == Request.setfpregs) _ _
                              (Quiet-setfpregs_request platform ptracer request pid argument)
                              (Quiet-if (request == request_getregset) _ _
                                (Quiet-getregset_request platform ptracer pid address argument)
                                (Quiet-if (request == request_setregset) _ _
                                  (Quiet-setregset_request platform ptracer pid address argument)
                                  (Quiet-if (request == Request.set_syscall) _ _
                                    (Quiet-plain_request platform request pid address argument)
                                    (Quiet-pure (minus enotsup))))))))))))))))
