-- ===== src/Folders/Ends.antt =====
-- handle_mkdir and handle_rmdir end.
use model_lib.Prelude.{ℕ, ◌<◌, Option, inl, inr, Option-cases}
use model_lib.Prelude.Int.{ℤ}
use model_lib.Env.{Env, Bytes, Ptr}
use model_lib.Machine.{Sys}
use model_lib.Machine.Ends.{Ends, ends_ok, Ends-bind}
use model_lib.Buffer.Ends.{buffer_rules, get_b-Ends, inode_num-Ends}
use model_lib.File.Ends.{
  get_next_inum_free-Ends, get_next_free_bnum-Ends, add_free_i_list-Ends, clear_file-Ends,
}
use model_lib.Dir.Ends.{get_dir_entry-Ends}
use model_lib.FilePath.Ends.{get_path_i_num-Ends, get_super_dir-Ends}
use model_lib.Lookup.{update_path_i}
use model_lib.Create.Ends.{entry_address-Ends, set_inum-Ends}
use model_lib.Folders.{
  update_dir_entry, init_directory, set_direct, write_dots, make_directory, mkdir_in, handle_mkdir,
  rmdir_entry, rmdir_path, handle_rmdir,
}

module _ ⦃env : Env⦄ where
  update_dir_entry-Ends :
      (b : Ptr) (off : ℕ) (name : Bytes) (i : ℕ) (s : Sys) → Ends (update_dir_entry b off name i s)
  unfolding update_dir_entry
  update_dir_entry-Ends b off name i s = search buffer_rules

  init_directory-Ends : (p : Ptr) (s : Sys) → Ends (init_directory p s)
  unfolding init_directory
  init_directory-Ends p s = search buffer_rules

  set_direct-Ends : (p : Ptr) (n b : ℕ) (s : Sys) → Ends (set_direct p n b s)
  unfolding set_direct
  set_direct-Ends p n b s = search buffer_rules

  write_dots-Ends : (head : Ptr) (i dir : ℕ) (s : Sys) → Ends (write_dots head i dir s)
  unfolding write_dots
  write_dots-Ends head i dir s = search buffer_rules depth 7

  make_directory-Ends : (i dir : ℕ) (s : Sys) → Ends (make_directory i dir s)
  unfolding make_directory
  make_directory-Ends i dir s =
      search
        (
          buffer_rules, init_directory-Ends, get_next_free_bnum-Ends, set_direct-Ends,
          write_dots-Ends,
        )
        depth 12

  module _ (size : 0 < env.entry_size) where
    mkdir_in-Ends : (dir : ℤ × Bytes) (s : Sys) → Ends (mkdir_in dir s)
    unfolding mkdir_in
    mkdir_in-Ends (dir, name) s = Ends-bind (inode_num-Ends dir s) λ n s₁.
        Ends-bind (get_dir_entry-Ends name n _ s₁ size) λ (found, b) s₂.
          Ends-bind (get_b-Ends b s₂) λ block s₃. Ends-bind (entry_address-Ends found s₃) λ off s₄.
            search
              (buffer_rules, get_next_inum_free-Ends, update_dir_entry-Ends, make_directory-Ends)
              depth 10

    pub handle_mkdir-Ends : (path : Option Bytes) (i : ℤ) (s : Sys) → Ends (handle_mkdir path i s)
    unfolding handle_mkdir
    handle_mkdir-Ends path i s = elim (Option-cases (update_path_i path i)) [
      | inl e ↦ rw (e, handle_mkdir) ends_ok
      | inr ((p, j), e) ↦
          rw (e, handle_mkdir)
            (Ends-bind (get_super_dir-Ends size p j s) λ dir s₁. mkdir_in-Ends dir s₁)
    ]

    rmdir_entry-Ends : (dir : ℤ × Bytes) (s : Sys) → Ends (rmdir_entry dir s)
    unfolding rmdir_entry
    rmdir_entry-Ends (dir, name) s = Ends-bind (inode_num-Ends dir s) λ n s₁.
        Ends-bind (get_dir_entry-Ends name n _ s₁ size) λ (found, b) s₂.
          Ends-bind (get_b-Ends b s₂) λ block s₃.
            Ends-bind (entry_address-Ends found s₃) λ off s₄. search (buffer_rules, set_inum-Ends)

    rmdir_path-Ends : (path : Bytes) (i : ℤ) (s : Sys) → Ends (rmdir_path path i s)
    unfolding rmdir_path
    rmdir_path-Ends path i s =
        search
          (
            buffer_rules,
            get_path_i_num-Ends size,
            clear_file-Ends,
            add_free_i_list-Ends,
            get_super_dir-Ends size,
            rmdir_entry-Ends,
          )
          depth 13

    pub handle_rmdir-Ends : (path : Option Bytes) (i : ℤ) (s : Sys) → Ends (handle_rmdir path i s)
    unfolding handle_rmdir
    handle_rmdir-Ends path i s = elim (Option-cases (update_path_i path i)) [
      | inl e ↦ rw (e, handle_rmdir) ends_ok
      | inr ((p, j), e) ↦ rw (e, handle_rmdir) (rmdir_path-Ends p j s)
    ]
