-- ===== src/Path/Prefix.antt =====
-- `substitute_path_prefix` of library/src/main/jni/path/path.c.
pub mod Rebases
use abyss.Base.{
  ℕ, ◌+◌, ◌-◌, ◌%◌, ◌^◌, [], ◌∷◌, ◌++◌, ltb, leb, ◌==◌, if◌then◌else◌, length, take, drop,
}
use abyss.Path.Str.{Str, path_max, slash}

-- `a - b` on size_t.
abbrev pub sub_size : ℕ → ℕ → ℕ
sub_size a b = (a + 2 ^ 64 - b) % 2 ^ 64

-- `-ENAMETOOLONG`, converted to the size_t that the function returns.
abbrev pub enametoolong_size : ℕ
enametoolong_size = 2 ^ 64 - 36

-- The value returned and the contents of `path`.
unfoldable pub substitute_path_prefix : Str → ℕ → Str → ℕ → ℕ × Str
substitute_path_prefix path old_prefix_length new_prefix new_prefix_length =
    let path_length = length path in
    if new_prefix_length == 1
    then (let new_length = sub_size path_length old_prefix_length in
        if new_length == 0
        then (1, slash ∷ [])
        else (new_length, take new_length (drop old_prefix_length path)))
    else if old_prefix_length == 1
    then (let new_length = new_prefix_length + path_length in
        if leb path_max new_length
        then (enametoolong_size, path)
        else if ltb 1 path_length
        then (new_length, take new_prefix_length new_prefix ++ path)
        else (new_prefix_length, take new_prefix_length new_prefix))
    else (let new_length = sub_size path_length old_prefix_length + new_prefix_length in
        if leb path_max new_length
        then (enametoolong_size, path)
        else (new_length, take new_prefix_length new_prefix ++ drop old_prefix_length path))
