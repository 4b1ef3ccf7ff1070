-- ===== src/Path/Join.antt =====
-- `join_paths` of path/path.c: concatenation with one separator in between. A NULL argument is
-- `none`; the buffer is returned with the status, also on an error.
pub mod Bounds
pub mod Composes
use abyss.Base.{
  ℕ, ◌+◌, ◌-◌, ◌≡◌, Bool, not, ◌&&◌, Option, none, some, List, [], ◌∷◌, ◌++◌, ltb, leb, ◌==◌,
  if◌then◌else◌, length, drop, Result, ok, err, Errno, enametoolong,
}
use abyss.Path.Str.{Str, path_max, slash, char_at, last_char}

-- The new contents of `result` when `path` is appended, or `none` on -ENAMETOOLONG.
pub join_path : Str → Str → Option Str
join_path result path =
    let is_open = ltb 0 (length result) in
    let ends = last_char result == slash in
    let starts = char_at path 0 == slash in
    if is_open && not ends && not starts
    then (if leb path_max (length result + length path + 1 + 1)
        then none
        else some (result ++ (slash ∷ path)))
    else if is_open && ends && starts
    then (if leb path_max (length result + length path - 1 + 1)
        then none
        else some (result ++ drop 1 path))
    else (if leb path_max (length result + length path + 1) then none else some (result ++ path))

-- The loop over the arguments.
pub join_onto : Str → List (Option Str) → Result (Unit {0}) × Str
join_onto result [] = (ok tt, result)
join_onto result (none ∷ paths) = join_onto result paths
join_onto result (some path ∷ paths) = elim (join_path result path) [
  | none ↦ (err enametoolong, result)
  | some longer ↦ join_onto longer paths
]

unfoldable pub join_paths : List (Option Str) → Result (Unit {0}) × Str
unfolding join_onto join_path
join_paths paths = join_onto [] paths

-- What a caller goes on with after `if (status < 0) return status;`
abbrev pub checked : Result (Unit {0}) × Str → Result Str
checked (ok _, result) = ok result
checked (err e, _) = err e

-- A call `join_paths(2, result, a, b)` and its check.
unfoldable pub join_two : Str → Str → Result Str
unfolding join_paths
join_two a b = checked (join_paths (some a ∷ some b ∷ []))
