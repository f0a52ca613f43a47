-- ===== src/Server.antt =====
-- The server loop of yfs.c: the requests that iolib.c sends, the switch of main, handle_shutdown
-- and init.
pub mod Ends
pub mod Shutdown
pub mod Saved
pub mod Reads
use model_lib.Prelude.{
  ◌==◌, ◌||◌, leb, length, ℕ, Option, none, some, List, [], ◌∷◌, Bool, true, false,
}
use model_lib.Prelude.Int.{ℤ, pos, negsuc, leb_ℤ}
use model_lib.Env.{Env, Bytes, Ptr, null}
use model_lib.Machine.{M, exited, pure, ◌>>=◌, ◌>>◌}
use model_lib.Buffer.{handle_sync}
use model_lib.FilePath.{get_proc_path, read_text}
use model_lib.Lookup.{handle_open, handle_chdir, handle_stat, handle_seek}
use model_lib.Transfer.{handle_read, handle_write}
use model_lib.Create.{handle_create, handle_link, handle_unlink}
use model_lib.Folders.{handle_mkdir, handle_rmdir}
use model_lib.Boot.{make_free_lists}

-- the codes of iolib.h that come with a `struct m_path`
pub data PathOp : Type 0 where
  yfs_open yfs_create yfs_unlink yfs_mkdir yfs_rmdir yfs_chdir : PathOp

-- and with a `struct m_file`
pub data FileOp : Type 0 where
  yfs_read yfs_write : FileOp

-- A message by its code, with the fields of the structure that the code goes with. `other` is a
-- code that is none of them.
pub data Request : Type 0 where
  m_path : PathOp → (cur_i : ℤ) → (pathname : Ptr) → (len : ℤ) → Request
  m_file : FileOp → (i_num : ℤ) → (buf : Ptr) → (size offset : ℤ) → Request
  m_seek : (i_num offset whence cur_pos : ℤ) → Request
  m_link : (cur_i : ℤ) → (old_name new_name : Ptr) → (old_len new_len : ℤ) → Request
  m_stat : (cur_i : ℤ) → (pathname : Ptr) → (len : ℤ) → (stat_buffer : Ptr) → Request
  m_sync m_shutdown : Request
  other : ℤ → Request

abbrev pub is_null : Option Bytes → Bool
is_null none = true
is_null (some path) = false

module _ ⦃env : Env⦄ where
  -- Exit(0) does not return
  unfoldable pub handle_shutdown : M ℤ
  handle_shutdown = do handle_sync; λ s. exited 0 s

  unfoldable pub on_path : PathOp → ℤ → Option (List ℕ) → M ℤ
  on_path yfs_open cur_i pathname = handle_open pathname cur_i
  on_path yfs_create cur_i pathname = handle_create pathname cur_i (negsuc 0)
  on_path yfs_unlink cur_i pathname = handle_unlink pathname cur_i
  on_path yfs_mkdir cur_i pathname = handle_mkdir pathname cur_i
  on_path yfs_rmdir cur_i pathname = handle_rmdir pathname cur_i
  on_path yfs_chdir cur_i pathname = handle_chdir pathname cur_i

  -- Whether the handler returns ERROR before it reads past the end of the path, if that has no NUL:
  -- isPathnameValid reads at most MAXPATHNAMELEN characters, and the others test `cur_i` first.
  abbrev pub is_unread : PathOp → ℤ → Option Bytes → Bool
  is_unread yfs_create cur_i none = true
  is_unread yfs_create cur_i (some path) = leb env.max_path_name_len (length path)
  is_unread yfs_open cur_i copied = leb_ℤ cur_i (pos 0)
  is_unread yfs_unlink cur_i copied = leb_ℤ cur_i (pos 0)
  is_unread yfs_mkdir cur_i copied = leb_ℤ cur_i (pos 0)
  is_unread yfs_rmdir cur_i copied = leb_ℤ cur_i (pos 0)
  is_unread yfs_chdir cur_i copied = leb_ℤ cur_i (pos 0)

  -- the switch, for a message of process `pid`
  unfoldable pub handle : ℕ → Request → M ℤ
  handle pid (m_path op cur_i pathname len) = do
    copied ← get_proc_path pid pathname len
    path ← read_text (is_unread op cur_i copied) copied
    on_path op cur_i path
  handle pid (m_file yfs_read i_num buf size offset) = handle_read i_num buf size offset pid
  handle pid (m_file yfs_write i_num buf size offset) = handle_write i_num buf size offset pid
  handle pid (m_seek i_num offset whence cur_pos) = handle_seek i_num offset whence cur_pos
  handle pid (m_link cur_i old_name new_name old_len new_len) = do
    old_copied ← get_proc_path pid old_name old_len
    new_copied ← get_proc_path pid new_name new_len
    old_path ← read_text (leb_ℤ cur_i (pos 0) || is_null new_copied) old_copied
    new_path ← read_text (leb_ℤ cur_i (pos 0) || is_null old_copied) new_copied
    handle_link old_path new_path cur_i
  handle pid (m_stat cur_i pathname len stat_buffer) = do
    copied ← get_proc_path pid pathname len
    path ← read_text (leb_ℤ cur_i (pos 0) || stat_buffer == null) copied
    handle_stat path cur_i stat_buffer pid
  handle pid m_sync = handle_sync
  handle pid m_shutdown = handle_shutdown
  handle pid (other num) = pure env.error

  -- What Receive returns: the sender and its message, or ERROR as `none`.
  abbrev pub Received : Type 0
  Received = Option (ℕ × Request)

  -- The rounds of the loop, with the replies. After an error handle_shutdown does not return.
  unfoldable pub serve : List Received → M (List (ℕ × ℤ))
  serve [] = pure []
  serve (none ∷ later) = do handle_shutdown; pure []
  serve (some (pid, request) ∷ later) = do
    ret ← handle pid request
    replies ← serve later
    pure ((pid, ret) ∷ replies)

  -- `registered` is whether Register(FILE_SERVER) returns 0
  unfoldable pub init : Bool → M (Unit {0})
  init true = make_free_lists
  init false = do make_free_lists; λ s. exited 1 s
