-- ===== src/Base/Errors.antt =====
-- The values of errno that the modelled functions return, negated in C.
pub data Errno : Type 0 where
  efault einval eloop enametoolong enoent enoexec enomem erange : Errno

-- A status: `ok` for a value at or above 0, `err` for -errno.
pub data Result {ℓ} (A : Type ℓ) : Type ℓ where
  ok : A → Result A
  err : Errno → Result A

infixl 5 ◌>>=◌
abbrev pub ◌>>=◌ {ℓ κ} : {A : Type ℓ} {B : Type κ} → Result A → (A → Result B) → Result B
ok a >>= f = f a
err e >>= f = err e
