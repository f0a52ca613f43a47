-- ===== src/Server/Ends.antt =====
-- Every request is answered but those that walk the queues of the caches.
use model_lib.Prelude.{ℕ, ◌<◌, ◌≡◌, ◌≢◌, Option, none, some, not, ◌||◌, ◌&&◌, Bool, true, false}
use model_lib.Prelude.Int.{ℤ, pos, negsuc}
use model_lib.Env.{Env, Bytes, Ptr}
use model_lib.Machine.{read_memory, Sys, Run, out_of_fuel}
use model_lib.Machine.Ends.{Ends, ends_ok, ends_exited, ends_fault, Ends-bind}
use model_lib.FilePath.{c_string}
use model_lib.FilePath.Ends.{get_proc_path-Ends, read_text-Ends}
use model_lib.Lookup.Ends.{handle_open-Ends, handle_chdir-Ends, handle_stat-Ends, handle_seek-Ends}
use model_lib.Transfer.Ends.{handle_read-Ends, handle_write-Ends}
use model_lib.Create.Ends.{handle_create-Ends, handle_link-Ends, handle_unlink-Ends}
use model_lib.Folders.Ends.{handle_mkdir-Ends, handle_rmdir-Ends}
use model_lib.Server.{
  PathOp, yfs_open, yfs_create, yfs_unlink, yfs_mkdir, yfs_rmdir, yfs_chdir, yfs_read, yfs_write,
  Request, m_path, m_file, m_seek, m_link, m_stat, m_sync, m_shutdown, other, on_path, handle,
}

abbrev pub is_some : {A : Type 0} → Option A → Bool
is_some none = false
is_some (some a) = true

-- the requests whose loops do not run along a queue
abbrev pub is_bounded : Request → Bool
is_bounded m_sync = false
is_bounded m_shutdown = false
is_bounded (m_path op cur_i pathname len) = true
is_bounded (m_file op i_num buf size offset) = true
is_bounded (m_seek i_num offset whence cur_pos) = true
is_bounded (m_link cur_i old_name new_name old_len new_len) = true
is_bounded (m_stat cur_i pathname len stat_buffer) = true
is_bounded (other num) = true

module _ ⦃env : Env⦄ (size : 0 < env.entry_size) where
  on_path-Ends : (op : PathOp) (i : ℤ) (path : Option Bytes) (s : Sys) → Ends (on_path op i path s)
  unfolding on_path
  on_path-Ends yfs_open i path s = handle_open-Ends size path i s
  on_path-Ends yfs_create i path s = handle_create-Ends size path i _ s
  on_path-Ends yfs_unlink i path s = handle_unlink-Ends size path i s
  on_path-Ends yfs_mkdir i path s = handle_mkdir-Ends size path i s
  on_path-Ends yfs_rmdir i path s = handle_rmdir-Ends size path i s
  on_path-Ends yfs_chdir i path s = handle_chdir-Ends size path i s

  handle-Ends : (pid : ℕ) (r : Request) (s : Sys) → is_bounded r ≡ true → Ends (handle pid r s)
  unfolding handle
  handle-Ends pid (m_path op i a len) s h =
      Ends-bind (get_proc_path-Ends pid a len s)
        λ copied s₁. Ends-bind (read_text-Ends _ copied s₁) λ path s₂. on_path-Ends op i path s₂
  handle-Ends pid (m_file yfs_read i buf n off) s h = handle_read-Ends i buf n off pid s
  handle-Ends pid (m_file yfs_write i buf n off) s h = handle_write-Ends i buf n off pid s
  handle-Ends pid (m_seek i off whence cur) s h = handle_seek-Ends i off whence cur s
  handle-Ends pid (m_link i a b m n) s h = Ends-bind (get_proc_path-Ends pid a m s) λ old s₁.
      Ends-bind (get_proc_path-Ends pid b n s₁) λ new s₂.
        Ends-bind (read_text-Ends _ old s₂) λ old_path s₃.
          Ends-bind (read_text-Ends _ new s₃)
            λ new_path s₄. handle_link-Ends size old_path new_path i s₄
  handle-Ends pid (m_stat i a len buf) s h = Ends-bind (get_proc_path-Ends pid a len s) λ copied s₁.
      Ends-bind (read_text-Ends _ copied s₁) λ path s₂. handle_stat-Ends size path i buf pid s₂
  handle-Ends pid m_sync s h = cc
  handle-Ends pid m_shutdown s h = cc
  handle-Ends pid (other num) s h = ends_ok

Ends-ne-out_of_fuel : {A : Type 0} {r : Run A} → Ends r → r ≢ out_of_fuel
Ends-ne-out_of_fuel ends_ok e = cc
Ends-ne-out_of_fuel ends_exited e = cc
Ends-ne-out_of_fuel ends_fault e = cc

module _ ⦃env : Env⦄ where
  -- whether a path that is copied from a process has a NUL within its length
  abbrev pub is_text : Sys → ℕ → Ptr → ℤ → Bool
  is_text s pid a (negsuc n) = true
  is_text s pid a (pos len) =
      not (env.readable pid a len) || is_some (c_string (read_memory (s.user pid) a len))

  -- the paths of a request have their NUL
  abbrev pub has_texts : Sys → ℕ → Request → Bool
  has_texts s pid (m_path op cur_i pathname len) = is_text s pid pathname len
  has_texts s pid (m_link cur_i old_name new_name old_len new_len) =
      is_text s pid old_name old_len && is_text s pid new_name new_len
  has_texts s pid (m_stat cur_i pathname len stat_buffer) = is_text s pid pathname len
  has_texts s pid (m_file op i_num buf size offset) = true
  has_texts s pid (m_seek i_num offset whence cur_pos) = true
  has_texts s pid m_sync = true
  has_texts s pid m_shutdown = true
  has_texts s pid (other num) = true

-- In every state, consistent or not, the switch of main comes to an end on every request but Sync
-- and Shutdown whose paths have a NUL within their lengths: the loops over paths, directories, files
-- and transfers all stop within their fuel, given that a directory entry is not empty.
pub handle-ne-out_of_fuel :
    ⦃env : Env⦄
    → 0 < env.entry_size
    → (pid : ℕ) (request : Request) (s : Sys) → is_bounded request ≡ true
    → has_texts s pid request ≡ true
    → handle pid request s ≢ out_of_fuel
handle-ne-out_of_fuel size pid request s h texts =
    Ends-ne-out_of_fuel (handle-Ends size pid request s h)
