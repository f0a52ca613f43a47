-- ===== src/FilePath/Parts.antt =====
-- The parts of a path: what get_next_path_part leaves, and where get_super_dir splits.
use model_lib.Prelude.{◌≤◌, ◌<◌, [], ◌∷◌, arith, length}
use model_lib.Env.{Bytes}
use model_lib.FilePath.{skip_slashes, skip_name, get_next_path_part}

length-skip_slashes-le : (path : Bytes) → length (skip_slashes path) ≤ length path
unfolding skip_slashes
length-skip_slashes-le [] = omega arith
length-skip_slashes-le (c ∷ cs) = ground (arith, length-skip_slashes-le cs)

length-skip_name-le : (path : Bytes) → length (skip_name path) ≤ length path
unfolding skip_name
length-skip_name-le [] = omega arith
length-skip_name-le (c ∷ cs) = ground (arith, length-skip_name-le cs)

-- Each call of get_next_path_part that leaves something leaves less than it was given.
pub length-get_next_path_part-lt :
    (path : Bytes)
    → 0 < length (get_next_path_part path)
    → length (get_next_path_part path) < length path
unfolding get_next_path_part
length-get_next_path_part-lt [] h = elim h [ ]
length-get_next_path_part-lt (c ∷ cs) h = ground (
  arith,
  length-skip_slashes-le cs,
  length-skip_slashes-le (skip_name cs),
  length-skip_name-le cs,
)
