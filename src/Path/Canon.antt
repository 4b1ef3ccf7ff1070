-- ===== src/Path/Canon.antt =====
-- library/src/main/jni/path/canon.c, and `chop_finality` of path/path.c.
pub mod Pop
pub mod Next
pub mod Chop
pub mod Normal
pub mod Refines
use abyss.Base.{
  ℕ, zero, suc, ◌+◌, ◌-◌, Bool, not, ◌&&◌, List, [], ◌∷◌, ltb, leb, ◌==◌, if◌then◌else◌, length,
  take, Option, none, some, Result, ok, err, ◌>>=◌, eloop, einval, enametoolong,
}
use abyss.Path.Str.{
  Str, path_max, name_max, slash, dot, char_at, Finality, not_final, final_normal, final_slash,
  final_dot,
}
use abyss.Path.Join.{join_two}

-- `while (offset > 1 && path[offset] == '/') offset--;`
pub skip_separators : Str → ℕ → ℕ
skip_separators path zero = zero
skip_separators path (suc n) =
    if ltb 1 (suc n) && char_at path (suc n) == slash then skip_separators path n else suc n

-- `while (offset > 1 && path[offset] != '/') offset--;`
pub skip_name : Str → ℕ → ℕ
skip_name path zero = zero
skip_name path (suc n) =
    if ltb 1 (suc n) && not (char_at path (suc n) == slash) then skip_name path n else suc n

-- The path with its last component cut off.
unfoldable pub pop_component : Str → Str
unfolding skip_separators skip_name
pop_component path =
    let offset = length path - 1 in
    if offset == 0 then path else take (skip_name path (skip_separators path offset)) path

-- `while (**cursor != '\0' && **cursor == '/') (*cursor)++;`
pub skip_slashes : Str → Str
skip_slashes [] = []
skip_slashes (c ∷ s) = let rest = skip_slashes s in if c == slash then rest else (c ∷ s)

-- The bytes up to the next separator.
pub name_of : Str → Str
name_of [] = []
name_of (c ∷ s) = let rest = name_of s in if c == slash then [] else (c ∷ rest)

-- What `cursor` points to behind them.
pub after_name : Str → Str
after_name [] = []
after_name (c ∷ s) = let rest = after_name s in if c == slash then (c ∷ s) else rest

-- `if (**cursor == '\0') return (want_dir ? FINAL_SLASH : FINAL_NORMAL); return NOT_FINAL;`
pub finality_of : Bool → Str → Finality
finality_of want_dir [] = if want_dir then final_slash else final_normal
finality_of want_dir (c ∷ s) = not_final

-- The ending type, the component, and the cursor behind the call.
unfoldable pub next_component : Str → Result (Finality × Str × Str)
unfolding skip_slashes name_of after_name finality_of
next_component cursor =
    let start = skip_slashes cursor in
    let component = name_of start in
    let rest = after_name start in
    if leb name_max (length component)
    then err enametoolong
    else ok
        (finality_of (char_at rest 0 == slash) (skip_slashes rest), component, skip_slashes rest)

-- `IS_FINAL`
pub is_final : Finality → Bool
is_final not_final = Bool.false
is_final _ = Bool.true

-- `strcmp(component, ".") == 0` and `strcmp(component, "..") == 0`
unfoldable pub is_dot : Str → Bool
is_dot (a ∷ []) = a == dot
is_dot _ = Bool.false

unfoldable pub is_dot_dot : Str → Bool
is_dot_dot (a ∷ b ∷ []) = a == dot && b == dot
is_dot_dot _ = Bool.false

-- What one round does to `finality` and `guest_path`. `join_paths` returns 0 or a negative status,
-- so behind the check of its status the test `status <= 0` holds, and the round ends there: the
-- part of the body that dereferences a link is not reached.
pub round : Str → Finality → Str → Result (Finality × Str)
round component finality guest_path =
    if is_dot component
    then ok (if is_final finality then final_dot else finality, guest_path)
    else if is_dot_dot component
    then ok (if is_final finality then final_slash else finality, pop_component guest_path)
    else (join_two guest_path component >>= λ scratch_path.
        join_two guest_path component >>= λ guest_path'. ok (finality, guest_path'))

-- The loop, with fuel for its rounds; `none` when the fuel runs out.
pub rounds : ℕ → Str → Str → Option (Result (Finality × Str))
unfolding next_component round
rounds zero cursor guest_path = none
rounds (suc fuel) cursor guest_path = elim (next_component cursor) [
  | err e ↦ some (err e)
  | ok t ↦ elim (round t.1 t.0 guest_path) [
    | err e ↦ some (err e)
    | ok r ↦ let more = rounds fuel t.2 r.1 in if is_final r.0 then some (ok r) else more
  ]
]

-- The exit stage of the first level of recursion.
pub finish : Finality → Str → Result Str
finish final_slash guest_path = join_two guest_path []
finish final_dot guest_path = join_two guest_path (dot ∷ [])
finish _ guest_path = ok guest_path

-- MAXSYMLINKS of sys/param.h.
abbrev maxsymlinks : ℕ
maxsymlinks = 20

-- `guest_path` as it enters the loop: the base of a relative path, or "/".
pub base_of : Str → Str → Result Str
base_of user_path guest_path =
    if not (char_at user_path 0 == slash)
    then (if not (char_at guest_path 0 == slash) then err einval else ok guest_path)
    else ok (slash ∷ [])

-- What follows the loop.
pub leave : ℕ → Option (Result (Finality × Str)) → Option (Result Str)
unfolding finish
leave recursion_level none = none
leave recursion_level (some (err e)) = some (err e)
leave recursion_level (some (ok r)) = some (if recursion_level == 0 then finish r.0 r.1 else ok r.1)

-- The loop behind the choice of its base. Each round but the last takes at least one byte off the
-- cursor, so the length of `user_path` bounds the rounds.
pub enter : ℕ → Str → Result Str → Option (Result Str)
unfolding rounds leave is_final is_dot is_dot_dot pop_component join_two
enter recursion_level user_path (err e) = some (err e)
enter recursion_level user_path (ok base) =
    leave recursion_level (rounds (suc (length user_path)) user_path base)

unfoldable pub canonicalize : ℕ → Str → Str → Option (Result Str)
unfolding enter base_of
canonicalize recursion_level user_path guest_path =
    if ltb maxsymlinks recursion_level
    then some (err eloop)
    else if leb path_max (length guest_path)
    then some (err enametoolong)
    else enter recursion_level user_path (base_of user_path guest_path)

-- Remove the trailing "/" or "/.", for a path that is not empty.
unfoldable pub chop_finality : Str → Str
chop_finality path =
    let length' = length path in
    if char_at path (length' - 1) == dot
    then (if length' == 2 then take 1 path else take (length' - 2) path)
    else if char_at path (length' - 1) == slash
    then (if ltb 1 length' then take (length' - 1) path else path)
    else path
