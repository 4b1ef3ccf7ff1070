-- ===== src/Path/Join/Bounds.antt =====
-- The bounds of the buffer of `join_paths`.
use abyss.Base.{
  ◌+◌, ◌≡◌, ◌<◌, Option, none, some, List, [], ◌∷◌, length, drop, length-append, length-drop,
  Option-cases, inl, inr, arith,
}
use abyss.Path.Str.{Str, path_max}
use abyss.Path.Join.{join_path, join_onto, join_paths}

pub join_path-lt :
    (result path : Str) {longer : Str}
    → join_path result path ≡ some longer
    → length longer + 1 < path_max
unfolding join_path
join_path-lt result path h = ground (
  arith,
  length-append result path,
  length-append result (b'/' ∷ path),
  length-append result (drop 1 path),
  length-drop 1 path,
)

join_onto-lt :
    (paths : List (Option Str)) (result : Str)
    → length result + 1 < path_max
    → length (join_onto result paths).1 + 1 < path_max
unfolding join_onto
join_onto-lt [] result h = h
join_onto-lt (none ∷ paths) result h = join_onto-lt paths result h
join_onto-lt (some path ∷ paths) result h = elim (Option-cases (join_path result path)) [
  | inl full ↦ rw (full, join_onto) h
  | inr (longer, fits) ↦
      rw (fits, join_onto) (join_onto-lt paths longer (join_path-lt result path fits))
]

-- Whatever is joined, and also when the call fails, what `join_paths` leaves in `result` fits in
-- PATH_MAX bytes with its terminator, with at least one byte to spare.
pub join_paths_in_bounds : (paths : List (Option Str)) → length (join_paths paths).1 + 1 < path_max
unfolding join_paths
join_paths_in_bounds paths = join_onto-lt paths [] (omega arith)
