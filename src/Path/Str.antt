-- ===== src/Path/Str.antt =====
-- C strings (the bytes before the terminator), the limits of limits.h, and the two enumerations of
-- library/src/main/jni/path/path.h.
use abyss.Base.{ℕ, ◌-◌, List, length, get_or}

abbrev pub Str : Type 0
Str = List ℕ

-- PATH_MAX and NAME_MAX of limits.h.
abbrev pub path_max : ℕ
path_max = 4096

abbrev pub name_max : ℕ
name_max = 255

abbrev pub slash : ℕ
slash = b'/'

abbrev pub dot : ℕ
dot = b'.'

-- `s[i]`, which is the terminator at the length.
abbrev pub char_at : Str → ℕ → ℕ
char_at s i = get_or s i 0

-- `s[strlen(s) - 1]`, for a string that is not empty.
abbrev pub last_char : Str → ℕ
last_char s = char_at s (length s - 1)

-- Path ending type.
pub data Finality : Type 0 where
  not_final final_normal final_slash final_dot : Finality

-- Comparison between two paths.
pub data Comparison : Type 0 where
  paths_are_equal path1_is_prefix path2_is_prefix paths_are_not_comparable : Comparison
