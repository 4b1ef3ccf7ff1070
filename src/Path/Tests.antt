-- ===== src/Path/Tests.antt =====
-- Runs of the path functions at concrete paths, and the theorems at concrete inputs.
use Prim.Native.Char.{code}
use Prim.Native.String.{String}
use abyss.Base.{
  ◌+◌, ◌<◌, ◌≡◌, ◌≢◌, refl, inl, none, some, List, [], ◌∷◌, ◌++◌, arith, ok, err, einval, length,
  drop_last,
}
use abyss.Path.Str.{
  Str, path_max, slash, dot, char_at, paths_are_equal, path1_is_prefix, paths_are_not_comparable,
  not_final,
}
use abyss.Path.Components.{components}
use abyss.Path.Join.{join_paths}
use abyss.Path.Join.Bounds.{join_paths_in_bounds}
use abyss.Path.Join.Composes.{all_components, join_paths-components}
use abyss.Path.Canon.{is_dot_dot, canonicalize, chop_finality, pop_component, next_component}
use abyss.Path.Canon.Pop.{pop_component-components}
use abyss.Path.Canon.Normal.{normalize}
use abyss.Path.Canon.Refines.{
  base_components, final_component, NoDotDot, canonicalize-normalize, canonicalize-ne-none,
  canonicalize-NoDotDot,
}
use abyss.Path.Canon.Chop.{chop_finality_cuts}
use abyss.Path.Compare.{compare_paths}
use abyss.Path.Compare.Equivalent.{AllNames, path_of, compare_components, compare_paths-components}
use abyss.Path.Prefix.{substitute_path_prefix}
use abyss.Path.Prefix.Rebases.{substitute_path_prefix-path_of}

-- The bytes of an ASCII text.
abbrev codes : String → Str
codes String.[] = []
codes (String.◌∷◌ c s) = code c ∷ codes s

join_dir :
    join_paths (some (codes "/a/") ∷ none ∷ some (codes "b") ∷ some (codes "/c") ∷ [])
    ≡ (ok tt, codes "/a/b/c")
unfolding join_paths
join_dir = refl

canonicalize_up : canonicalize 0 (codes "../x//./y/") (codes "/a/b") ≡ some (ok (codes "/a/x/y/"))
unfolding canonicalize
canonicalize_up = refl

canonicalize_dot : canonicalize 0 (codes "/u/../../v/.") [] ≡ some (ok (codes "/v/."))
unfolding canonicalize
canonicalize_dot = refl

canonicalize_relative : canonicalize 0 (codes "a") (codes "b") ≡ some (err einval)
unfolding canonicalize
canonicalize_relative = refl

chop_name : chop_finality (codes "/usr/lib.") ≡ codes "/usr/li"
unfolding chop_finality
chop_name = refl

compare_tests :
    (compare_paths (codes "/usr/") (codes "/usr/lib") ≡ path1_is_prefix)
    × (compare_paths (codes "/usr") (codes "/usrlib") ≡ paths_are_not_comparable)
    × (compare_paths (codes "/") (codes "/") ≡ paths_are_equal)
unfolding compare_paths
compare_tests = (refl, refl, refl)

-- Both directories may not be the root: the separator is lost.
substitute_root_root : substitute_path_prefix (codes "/bin") 1 (codes "/") 1 ≡ (3, codes "bin")
unfolding substitute_path_prefix
substitute_root_root = refl

next_usr : next_component (codes "//usr/lib") ≡ ok (not_final, codes "usr", codes "lib")
unfolding next_component
next_usr = refl

join_paths_in_bounds_example :
    length (join_paths (some (codes "/a") ∷ some (codes "b") ∷ [])).1 + 1 < path_max
join_paths_in_bounds_example = join_paths_in_bounds (some (codes "/a") ∷ some (codes "b") ∷ [])

join_paths-components_example :
    components (codes "/a/b/c")
    ≡ all_components (some (codes "/a/") ∷ none ∷ some (codes "b") ∷ some (codes "/c") ∷ [])
join_paths-components_example =
    join_paths-components (some (codes "/a/") ∷ none ∷ some (codes "b") ∷ some (codes "/c") ∷ [])
      join_dir

pop_component-components_example :
    components (pop_component (codes "/a/b//")) ≡ drop_last (components (codes "/a/b//"))
pop_component-components_example = pop_component-components (codes "/a/b//") refl

canonicalize-normalize_example :
    (char_at (codes "/a/x/y/") 0 ≡ slash)
    × (components (codes "/a/x/y/")
        ≡ normalize
            (base_components (codes "../x//./y/") (codes "/a/b"))
            (components (codes "../x//./y/"))
          ++ final_component (codes "../x//./y/"))
canonicalize-normalize_example =
    canonicalize-normalize (codes "../x//./y/") (codes "/a/b") canonicalize_up

canonicalize-ne-none_example : canonicalize 0 (codes "../x//./y/") (codes "/a/b") ≢ none
canonicalize-ne-none_example = canonicalize-ne-none 0 (codes "../x//./y/") (codes "/a/b")

base_clean : NoDotDot (components (codes "/a/b"))
unfolding components is_dot_dot
base_clean = (refl, (refl, tt))

canonicalize-NoDotDot_example : NoDotDot (components (codes "/a/x/y/"))
canonicalize-NoDotDot_example =
    canonicalize-NoDotDot (codes "../x//./y/") (codes "/a/b") base_clean canonicalize_up

chop_finality_cuts_example :
    (chop_finality (codes "/usr/li" ++ (slash ∷ [])) ≡ codes "/usr/li")
    × (chop_finality (codes "/usr/li" ++ (b'b' ∷ dot ∷ [])) ≡ codes "/usr/li")
chop_finality_cuts_example = chop_finality_cuts (codes "/usr/li") b'b' (omega arith)

abbrev usr_lib : List Str
usr_lib = codes "usr" ∷ codes "usr" ∷ []

abbrev usr : List Str
usr = codes "usr" ∷ []

usr-AllNames : AllNames usr
usr-AllNames = (((λ e. cc), (refl, (refl, (refl, tt))), (refl, (refl, (refl, tt)))), tt)

usr_lib-AllNames : AllNames usr_lib
usr_lib-AllNames = (usr-AllNames.0, usr-AllNames)

compare_paths-components_example :
    compare_paths (path_of usr) (path_of usr_lib) ≡ compare_components usr usr_lib
compare_paths-components_example =
    compare_paths-components usr usr_lib usr-AllNames usr_lib-AllNames

rebase_fits : length (path_of (usr ++ usr)) + length (path_of usr_lib) < path_max
unfolding path_of
rebase_fits = omega arith

substitute_path_prefix-path_of_example :
    substitute_path_prefix
      (path_of (usr ++ usr))
      (length (path_of usr))
      (path_of usr_lib)
      (length (path_of usr_lib))
    ≡ (length (path_of (usr_lib ++ usr)), path_of (usr_lib ++ usr))
substitute_path_prefix-path_of_example =
    substitute_path_prefix-path_of usr usr_lib usr usr-AllNames usr_lib-AllNames usr-AllNames
      (inl (λ e. cc)) rebase_fits
