-- ===== src/FilePath/Ends.antt =====
-- The walk along a path ends: each step leaves a shorter path.
use model_lib.Prelude.{
  Bool, true, false, ℕ, zero, suc, ◌+◌, ◌<◌, inl, inr, Option, none, some, ◌==◌, Bool-cases, not,
  arith, length,
}
use model_lib.Prelude.Int.{negsuc, pos, ℤ}
use model_lib.Env.{Env, Bytes, Ptr}
use model_lib.Machine.{Sys, copy_from}
use model_lib.Machine.Ends.{Ends, ends_ok, ends_fault, Ends-bind, Ends-if}
use model_lib.Buffer.Ends.{buffer_rules, get_i-Ends, read_inode-Ends}
use model_lib.Dir.Ends.{get_dir_entry-Ends}
use model_lib.FilePath.{
  c_string, or_crash, read_text, get_proc_path, get_next_path_part, is_directory, entry_inum, walk,
  get_path_i_num, containing_dir, split_path, get_super_dir,
}
use model_lib.FilePath.Parts.{length-get_next_path_part-lt}

or_crash-Ends : (unread : Bool) (text : Option Bytes) (s : Sys) → Ends (or_crash unread text s)
or_crash-Ends true none s = ends_ok
or_crash-Ends false none s = ends_fault
or_crash-Ends unread (some t) s = ends_ok

module _ ⦃env : Env⦄ where
  pub read_text-Ends :
      (unread : Bool) (copied : Option Bytes) (s : Sys) → Ends (read_text unread copied s)
  unfolding read_text
  read_text-Ends unread none s = ends_ok
  read_text-Ends unread (some bytes) s = or_crash-Ends unread (c_string bytes) s

  pub get_proc_path-Ends :
      (pid : ℕ) (a : Ptr) (len : ℤ) (s : Sys) → Ends (get_proc_path pid a len s)
  unfolding get_proc_path copy_from
  get_proc_path-Ends pid a (negsuc n) s = ends_ok
  get_proc_path-Ends pid a (pos len) s = ends_ok

  entry_inum-Ends : (found : Option ℕ × ℕ) (s : Sys) → Ends (entry_inum found s)
  unfolding entry_inum
  entry_inum-Ends (none, b) s = ends_ok
  entry_inum-Ends (some off, b) s = search buffer_rules

  module _ (size : 0 < env.entry_size) where
    walk-Ends :
        (fuel : ℕ) (path : Bytes) (i : ℕ) (s : Sys) → length path < fuel → Ends (walk fuel path i s)
    unfolding walk
    walk-Ends zero path i s room = elim room [ ]
    walk-Ends (suc fuel) path i s room = Ends-bind (get_i-Ends i s) λ p s₁.
        Ends-bind (read_inode-Ends p s₁) λ inode s₂.
          Ends-if (not (is_directory inode.type)) _ _ s₂ ends_ok (
            Ends-bind (get_dir_entry-Ends path i _ s₂ size) λ found s₃.
              Ends-bind (entry_inum-Ends found s₃) λ next s₄.
                elim (Bool-cases (length (get_next_path_part path) == 0)) [
                  | inl e ↦ rw e (Ends-bind (get_i-Ends next s₄) λ q s₅. ends_ok)
                  | inr e ↦ rw e (
                      walk-Ends fuel (get_next_path_part path) next s₄
                        (ground (arith, length-get_next_path_part-lt path)))
                ])

    pub get_path_i_num-Ends : (path : Bytes) (i : ℕ) (s : Sys) → Ends (get_path_i_num path i s)
    unfolding get_path_i_num
    get_path_i_num-Ends path i s = walk-Ends (length path + 1) path i s (omega arith)

    containing_dir-Ends : (path : Bytes) (i : ℤ) (s : Sys) → Ends (containing_dir path i s)
    unfolding containing_dir
    containing_dir-Ends path i s = search (buffer_rules, get_path_i_num-Ends)

    split_path-Ends : (path : Bytes × ℤ) (s : Sys) → Ends (split_path path s)
    unfolding split_path
    split_path-Ends (path, i) s = search (buffer_rules, containing_dir-Ends)

    pub get_super_dir-Ends : (path : Bytes) (i : ℤ) (s : Sys) → Ends (get_super_dir path i s)
    unfolding get_super_dir
    get_super_dir-Ends path i s = search (buffer_rules, split_path-Ends)
