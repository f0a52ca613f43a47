-- ===== src/Create/Ends.antt =====
-- handle_create, handle_link and handle_unlink end.
use model_lib.Prelude.{Bool, ℕ, ◌<◌, Option, none, some}
use model_lib.Prelude.Int.{ℤ}
use model_lib.Env.{Env, Bytes, Ptr}
use model_lib.Machine.{Sys}
use model_lib.Machine.Ends.{Ends, ends_ok, ends_fault, Ends-bind}
use model_lib.Buffer.Ends.{buffer_rules, get_b-Ends}
use model_lib.File.Ends.{get_next_inum_free-Ends, clear_file-Ends, zero_file-Ends}
use model_lib.Dir.Ends.{get_dir_entry-Ends}
use model_lib.FilePath.Ends.{get_path_i_num-Ends, get_super_dir-Ends}
use model_lib.Create.{
  entry_address, set_inum, init_regular, make_file, reuse_file, get_create_file, create_in,
  create_path, handle_create, link_to, link_from, handle_link, unlink_entry, unlink_found,
  unlink_in, handle_unlink,
}

pub entry_address-Ends : (found : Option ℕ) (s : Sys) → Ends (entry_address found s)
entry_address-Ends none s = ends_fault
entry_address-Ends (some off) s = ends_ok

module _ ⦃env : Env⦄ where
  pub set_inum-Ends : (b : Ptr) (off i : ℕ) (s : Sys) → Ends (set_inum b off i s)
  unfolding set_inum
  set_inum-Ends b off i s = search buffer_rules

  init_regular-Ends : (i : ℕ) (s : Sys) → Ends (init_regular i s)
  unfolding init_regular
  init_regular-Ends i s = search buffer_rules depth 7

  make_file-Ends :
      (name : Bytes) (b : Ptr) (off : ℕ) (new : ℤ) (s : Sys) → Ends (make_file name b off new s)
  unfolding make_file
  make_file-Ends name b off new s =
      search (buffer_rules, get_next_inum_free-Ends, set_inum-Ends, init_regular-Ends) depth 9

  reuse_file-Ends : (i b : ℕ) (new : ℤ) (s : Sys) → Ends (reuse_file i b new s)
  unfolding reuse_file
  reuse_file-Ends i b new s = search (buffer_rules, zero_file-Ends)

  module _ (size : 0 < env.entry_size) where
    get_create_file-Ends :
        (name : Bytes) (dir : ℕ) (new : ℤ) (s : Sys) → Ends (get_create_file name dir new s)
    unfolding get_create_file
    get_create_file-Ends name dir new s =
        Ends-bind (get_dir_entry-Ends name dir _ s size) λ (found, b) s₁.
          Ends-bind (get_b-Ends b s₁) λ block s₂.
            Ends-bind (entry_address-Ends found s₂)
              λ off s₃. search (buffer_rules, make_file-Ends, reuse_file-Ends)

    create_in-Ends : (dir : ℤ × Bytes) (new : ℤ) (s : Sys) → Ends (create_in dir new s)
    unfolding create_in
    create_in-Ends (dir, name) new s = search (buffer_rules, get_create_file-Ends) depth 8

    create_path-Ends : (path : Option Bytes) (i new : ℤ) (s : Sys) → Ends (create_path path i new s)
    unfolding create_path
    create_path-Ends none i new s = ends_ok
    create_path-Ends (some path) i new s =
        search (buffer_rules, get_super_dir-Ends size, create_in-Ends)

    pub handle_create-Ends :
        (path : Option Bytes) (i new : ℤ) (s : Sys) → Ends (handle_create path i new s)
    unfolding handle_create
    handle_create-Ends path i new s = search (buffer_rules, create_path-Ends)

    link_to-Ends : (old : ℕ) (p : Ptr) (name : Bytes × ℤ) (s : Sys) → Ends (link_to old p name s)
    unfolding link_to
    link_to-Ends old p (name, i) s = search (buffer_rules, handle_create-Ends) depth 8

    link_from-Ends : (old : Bytes × ℤ) (new : Bytes) (s : Sys) → Ends (link_from old new s)
    unfolding link_from
    link_from-Ends (old, i) new s =
        search (buffer_rules, get_path_i_num-Ends size, link_to-Ends) depth 8

    pub handle_link-Ends :
        (old new : Option Bytes) (i : ℤ) (s : Sys) → Ends (handle_link old new i s)
    unfolding handle_link
    handle_link-Ends none new i s = ends_ok
    handle_link-Ends (some old) none i s = ends_ok
    handle_link-Ends (some old) (some new) i s = search (buffer_rules, link_from-Ends)

    unlink_entry-Ends : (b : Ptr) (off n : ℕ) (s : Sys) → Ends (unlink_entry b off n s)
    unfolding unlink_entry
    unlink_entry-Ends b off n s = search (buffer_rules, clear_file-Ends, set_inum-Ends) depth 14

    unlink_found-Ends : (found : Option ℕ × ℕ) (s : Sys) → Ends (unlink_found found s)
    unfolding unlink_found
    unlink_found-Ends (none, b) s = ends_ok
    unlink_found-Ends (some off, b) s = search (buffer_rules, unlink_entry-Ends)

    unlink_in-Ends : (dir : ℤ × Bytes) (s : Sys) → Ends (unlink_in dir s)
    unfolding unlink_in
    unlink_in-Ends (dir, name) s =
        search
          (
            buffer_rules,
            λ (b : Bool) (n : ℕ) (s' : Sys). get_dir_entry-Ends name n b s' size,
            unlink_found-Ends,
          )
          depth 8

    pub handle_unlink-Ends : (path : Option Bytes) (i : ℤ) (s : Sys) → Ends (handle_unlink path i s)
    unfolding handle_unlink
    handle_unlink-Ends none i s = ends_ok
    handle_unlink-Ends (some path) i s =
        search (buffer_rules, get_super_dir-Ends size, unlink_in-Ends) depth 7
