-- ===== src/Ptrace/Request.antt =====
-- The requests of ptrace(2) that ptrace/ptrace.c tells apart, with the numbers of sys/ptrace.h and
-- compat.h.
use abyss.Base.{ℕ}

abbrev pub traceme : ℕ
traceme = 0

abbrev pub peektext : ℕ
peektext = 1

abbrev pub poketext : ℕ
poketext = 4

abbrev pub cont : ℕ
cont = 7

abbrev pub kill : ℕ
kill = 8

abbrev pub singlestep : ℕ
singlestep = 9

abbrev pub getregs : ℕ
getregs = 12

abbrev pub setregs : ℕ
setregs = 13

abbrev pub getfpregs : ℕ
getfpregs = 14

abbrev pub setfpregs : ℕ
setfpregs = 15

abbrev pub attach : ℕ
attach = 16

abbrev pub detach : ℕ
detach = 17

abbrev pub set_syscall : ℕ
set_syscall = 23

abbrev pub syscall : ℕ
syscall = 24

abbrev pub singleblock : ℕ
singleblock = 33

abbrev pub setoptions : ℕ
setoptions = 0x4200

abbrev pub geteventmsg : ℕ
geteventmsg = 0x4201

abbrev pub getsiginfo : ℕ
getsiginfo = 0x4202

abbrev pub setsiginfo : ℕ
setsiginfo = 0x4203
