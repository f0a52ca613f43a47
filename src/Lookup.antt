-- ===== src/Lookup.antt =====
-- The requests of yfs.c that look a path up and change no file: handle_open, handle_chdir,
-- handle_stat and handle_seek, with update_path_i.
pub mod Ends
pub mod Seek
pub mod Resolve
use model_lib.Prelude.{ℕ, Option, none, some, ◌==◌, ◌||◌, if◌then◌else◌}
use model_lib.Prelude.Int.{ℤ, pos, ltb_ℤ, leb_ℤ, eqb_ℤ}
use model_lib.Env.{Env, Bytes, Ptr, null, Stat}
use model_lib.Machine.{M, pure, ◌>>=◌, copy_to, add_int}
use model_lib.Buffer.{read_inode, get_i, inode_num}
use model_lib.FilePath.{get_path_i_num, from_root}

module _ ⦃env : Env⦄ where
  -- The path without its leading slashes and the directory that it starts from; `none` is ERROR.
  unfoldable pub update_path_i : Option Bytes → ℤ → Option (Bytes × ℤ)
  update_path_i none curr_i = none
  update_path_i (some pathname) curr_i =
      if leb_ℤ curr_i (pos 0) then none else some (from_root pathname curr_i)

  unfoldable pub open_path : Bytes × ℤ → M ℤ
  open_path (pathname, curr_i) = do
    start_i ← inode_num curr_i
    i_num ← get_path_i_num pathname start_i
    pure (if i_num == 0 then env.error else pos i_num)

  unfoldable pub handle_open : Option Bytes → ℤ → M ℤ
  handle_open none curr_i = pure env.error
  handle_open (some pathname) curr_i =
      if leb_ℤ curr_i (pos 0) then pure env.error else open_path (from_root pathname curr_i)

  unfoldable pub handle_chdir : Option Bytes → ℤ → M ℤ
  handle_chdir pathname curr_i = elim (update_path_i pathname curr_i) [
    | none ↦ pure env.error
    | some (path, start_i) ↦ open_path (path, start_i)
  ]

  unfoldable pub stat_path : Bytes × ℤ → Ptr → ℕ → M ℤ
  stat_path (pathname, curr_i) stat_buffer pid = do
    start_i ← inode_num curr_i
    i_num ← get_path_i_num pathname start_i
    if i_num == 0 then pure env.error else do
      p ← get_i i_num
      inode ← read_inode p
      let stat : Stat = record {
        inum = i_num;
        type = inode.type;
        size = inode.size;
        nlink = inode.nlink;
      }
      copied ← copy_to pid stat_buffer (env.encode_stat stat)
      pure (if copied then pos 0 else env.error)

  unfoldable pub handle_stat : Option Bytes → ℤ → Ptr → ℕ → M ℤ
  handle_stat none curr_i stat_buffer pid = pure env.error
  handle_stat (some pathname) curr_i stat_buffer pid =
      if leb_ℤ curr_i (pos 0) || stat_buffer == null
      then pure env.error
      else stat_path (from_root pathname curr_i) stat_buffer pid

  unfoldable pub seek_set : ℤ → ℤ → M ℤ
  seek_set size offset =
      pure (if ltb_ℤ offset (pos 0) || ltb_ℤ size offset then env.error else offset)

  unfoldable pub seek_cur : ℤ → ℤ → ℤ → M ℤ
  seek_cur size offset cur_pos = do
    new_pos ← add_int cur_pos offset
    pure (if ltb_ℤ size new_pos || ltb_ℤ new_pos (pos 0) then env.error else new_pos)

  unfoldable pub seek_end : ℤ → ℤ → M ℤ
  seek_end size offset = do
    new_pos ← add_int size offset
    pure (if ltb_ℤ (pos 0) offset || ltb_ℤ new_pos (pos 0) then env.error else new_pos)

  -- the part of handle_seek behind its reading of the size
  unfoldable pub seek_from : (size offset whence cur_pos : ℤ) → M ℤ
  seek_from size offset whence cur_pos =
      if ltb_ℤ size cur_pos || ltb_ℤ cur_pos (pos 0)
      then pure env.error
      else if eqb_ℤ whence env.seek_set
      then seek_set size offset
      else if eqb_ℤ whence env.seek_cur
      then seek_cur size offset cur_pos
      else if eqb_ℤ whence env.seek_end
      then seek_end size offset
      else pure env.error

  unfoldable pub handle_seek : (i_num offset whence cur_pos : ℤ) → M ℤ
  handle_seek i_num offset whence cur_pos = do
    n ← inode_num i_num
    p ← get_i n
    inode ← read_inode p
    seek_from (pos inode.size) offset whence cur_pos
