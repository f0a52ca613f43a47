-- ===== src/Lookup/Ends.antt =====
-- handle_open, handle_chdir, handle_stat and handle_seek end.
use model_lib.Prelude.{ℕ, ◌<◌, Option, none, some, inl, inr, Option-cases}
use model_lib.Prelude.Int.{ℤ}
use model_lib.Env.{Env, Bytes, Ptr}
use model_lib.Machine.{Sys}
use model_lib.Machine.Ends.{Ends, ends_ok, add_int-Ends, copy_to-Ends}
use model_lib.Buffer.Ends.{buffer_rules}
use model_lib.FilePath.Ends.{get_path_i_num-Ends}
use model_lib.Lookup.{
  update_path_i, open_path, handle_open, handle_chdir, stat_path, handle_stat, seek_set, seek_cur,
  seek_end, seek_from, handle_seek,
}

module _ ⦃env : Env⦄ where
  seek_from-Ends :
      (size offset whence cur : ℤ) (s : Sys) → Ends (seek_from size offset whence cur s)
  unfolding seek_from seek_set seek_cur seek_end
  seek_from-Ends size offset whence cur s = search (buffer_rules, add_int-Ends) depth 8

  pub handle_seek-Ends :
      (i offset whence cur : ℤ) (s : Sys) → Ends (handle_seek i offset whence cur s)
  unfolding handle_seek
  handle_seek-Ends i offset whence cur s = search (buffer_rules, seek_from-Ends)

  module _ (size : 0 < env.entry_size) where
    open_path-Ends : (path : Bytes × ℤ) (s : Sys) → Ends (open_path path s)
    unfolding open_path
    open_path-Ends (path, i) s = search (buffer_rules, get_path_i_num-Ends size)

    pub handle_open-Ends : (path : Option Bytes) (i : ℤ) (s : Sys) → Ends (handle_open path i s)
    unfolding handle_open
    handle_open-Ends none i s = ends_ok
    handle_open-Ends (some path) i s = search (buffer_rules, open_path-Ends)

    pub handle_chdir-Ends : (path : Option Bytes) (i : ℤ) (s : Sys) → Ends (handle_chdir path i s)
    unfolding handle_chdir
    handle_chdir-Ends path i s = elim (Option-cases (update_path_i path i)) [
      | inl e ↦ rw (e, handle_chdir) ends_ok
      | inr (found, e) ↦ rw (e, handle_chdir) (open_path-Ends found s)
    ]

    stat_path-Ends :
        (path : Bytes × ℤ) (buf : Ptr) (pid : ℕ) (s : Sys) → Ends (stat_path path buf pid s)
    unfolding stat_path
    stat_path-Ends (path, i) buf pid s =
        search (buffer_rules, get_path_i_num-Ends size, copy_to-Ends) depth 9

    pub handle_stat-Ends :
        (path : Option Bytes) (i : ℤ) (buf : Ptr) (pid : ℕ) (s : Sys)
        → Ends (handle_stat path i buf pid s)
    unfolding handle_stat
    handle_stat-Ends none i buf pid s = ends_ok
    handle_stat-Ends (some path) i buf pid s = search (buffer_rules, stat_path-Ends)
