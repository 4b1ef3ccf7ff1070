-- ===== src/Syscall/Args.antt =====
-- Paths and data that system calls point to: `get_sysarg_path`, `set_sysarg_data` and
-- `set_sysarg_path` of syscall/syscall.c.
pub mod RoundTrip
use abyss.Base.{
  ℕ, zero, suc, ◌+◌, ◌-◌, ◌*◌, ◌^◌, Bool, List, [], ◌∷◌, ◌++◌, ◌==◌, if◌then◌else◌, length, take,
  Result, ok, err, efault,
}
use abyss.Tracee.State.{RegVersion, current, Tracee}
use abyss.Tracee.Reg.{Reg, peek_reg, poke_reg}
use abyss.Tracee.Process.{Process}
use abyss.Tracee.Mem.{write_data}
use abyss.Tracee.Strings.{read_path}
use abyss.Tracee.Alloc.{alloc_mem}

module _ {Memory : Type 0} (p : Process Memory) where
  -- The answer, and the bytes in `path` up to the '\0' that is put there in the end.
  unfoldable pub get_sysarg_path : ℕ → ℕ → Reg → Tracee → Memory → Result ℕ × List ℕ
  unfolding peek_reg read_path
  get_sysarg_path errno page_bits reg tracee m =
      let src = peek_reg tracee current reg in
      if src == 0
      then (ok 0, 0 ∷ [])
      else (let (status, path) = read_path p errno page_bits src m in
          elim status [ err e ↦ (err e, path) | ok size ↦ (ok size, take size path ++ (0 ∷ [])) ])

  unfoldable pub set_sysarg_data :
      ℕ → List ℕ → Reg → Tracee → Memory → Result (Unit {0}) × Tracee × Memory
  unfolding alloc_mem write_data poke_reg
  set_sysarg_data errno tracer_ptr reg tracee m =
      let (tracee_ptr, tracee') = alloc_mem (length tracer_ptr) tracee in
      if tracee_ptr == 0
      then (err efault, tracee', m)
      else (let (status, m') = write_data p errno tracee_ptr tracer_ptr m in
          elim status [
            | err e ↦ (err e, tracee', m')
            | ok _ ↦ (ok tt, poke_reg reg tracee_ptr tracee', m')
          ])

  unfoldable pub set_sysarg_path :
      ℕ → List ℕ → Reg → Tracee → Memory → Result (Unit {0}) × Tracee × Memory
  unfolding set_sysarg_data
  set_sysarg_path errno path reg tracee m = set_sysarg_data errno (path ++ (0 ∷ [])) reg tracee m
