-- ===== src/Create.antt =====
-- New files and names in yfs.c: handle_create, handle_link, handle_unlink and their helpers
-- get_create_file, make_file and adj_path_i.
pub mod Ends
pub mod Link
pub mod Refused
use model_lib.Prelude.{
  ℕ, Option, none, some, ◌++◌, true, false, not, ◌==◌, ◌||◌, if◌then◌else◌, take, replicate,
}
use model_lib.Prelude.Int.{ℤ, pos, negsuc, ◌+ℤ◌, ◌-ℤ◌, leb_ℤ, eqb_ℤ}
use model_lib.Env.{Env, Bytes, Ptr, inode_regular}
use model_lib.Machine.{M, pure, ◌>>=◌, ◌>>◌, when, crash}
use model_lib.Buffer.{
  read_inode, write_inode, read_entry, write_entry, mark_b_dirty, mark_i_dirty, get_b, get_i,
  inode_num,
}
use model_lib.File.{get_next_inum_free, clear_file, zero_file}
use model_lib.Dir.{head_char, tail_chars, slash, get_dir_entry}
use model_lib.FilePath.{is_directory, is_pathname_valid, get_path_i_num, get_super_dir}

-- `strncpy`: at most `n` characters, and NUL behind them
unfoldable pub strncpy : ℕ → Bytes → Bytes
strncpy n src = take n (src ++ replicate n 0)

-- the address of an entry at the offset that get_dir_entry returned: -1 lies before the block
abbrev pub entry_address : Option ℕ → M ℕ
entry_address none = crash
entry_address (some offset) = pure offset

module _ ⦃env : Env⦄ where
  -- `dir_entry->inum = i_num`
  unfoldable pub set_inum : Ptr → ℕ → ℕ → M (Unit {0})
  set_inum block offset i_num = do
    entry ← read_entry block offset
    write_entry block offset (record entry { inum = i_num })

  unfoldable pub init_regular : ℕ → M (Unit {0})
  init_regular i_num = do
    p ← get_i i_num
    inode ← read_inode p
    write_inode p (record inode { type = inode_regular; size = 0; nlink = pos 1 })
    mark_i_dirty i_num

  unfoldable pub make_file : Bytes → Ptr → ℕ → ℤ → M ℤ
  make_file filename block offset new_i_num = do
    entry ← read_entry block offset
    write_entry block offset (record entry { name = strncpy env.dir_name_len filename })
    if eqb_ℤ new_i_num (negsuc 0)
        then (do
          i_num ← get_next_inum_free
          set_inum block offset i_num
          init_regular i_num
          pure (pos i_num))
        else (do i_num ← inode_num new_i_num; set_inum block offset i_num; pure new_i_num)

  -- the file that has the name already
  unfoldable pub reuse_file : ℕ → ℕ → ℤ → M ℤ
  reuse_file i_num b_num new_i_num =
      if eqb_ℤ new_i_num (negsuc 0)
      then (do zero_file i_num; mark_b_dirty b_num; pure (pos i_num))
      else pure env.error

  unfoldable pub get_create_file : Bytes → ℕ → ℤ → M ℤ
  get_create_file filename dir_i_num new_i_num = do
    (found, b_num) ← get_dir_entry filename dir_i_num true
    block ← get_b b_num
    offset ← entry_address found
    entry ← read_entry block offset
    if entry.inum == 0
        then (do i_num ← make_file filename block offset new_i_num; mark_b_dirty b_num; pure i_num)
        else reuse_file entry.inum b_num new_i_num

  unfoldable pub create_in : ℤ × Bytes → ℤ → M ℤ
  create_in (dir_i_num, filename) new_i_num =
      if eqb_ℤ dir_i_num env.error then pure env.error else do
        n ← inode_num dir_i_num
        p ← get_i n
        dir_i ← read_inode p
        if not (is_directory dir_i.type)
            then pure env.error
            else get_create_file filename n new_i_num

  unfoldable pub create_path : Option Bytes → ℤ → ℤ → M ℤ
  create_path none curr_i new_i_num = pure env.error
  create_path (some pathname) curr_i new_i_num = do
    dir ← get_super_dir pathname curr_i
    create_in dir new_i_num

  unfoldable pub handle_create : Option Bytes → ℤ → ℤ → M ℤ
  handle_create pathname curr_i new_i_num =
      if not (is_pathname_valid pathname) || leb_ℤ curr_i (pos 0)
      then pure env.error
      else create_path pathname curr_i new_i_num

  unfoldable pub adj_path_i : Bytes × ℤ → Bytes × ℤ
  adj_path_i (name, curr_i) =
      if head_char name == slash then (tail_chars name, pos env.root_inode) else (name, curr_i)

  -- `inode` is used again after handle_create: a fault if its item was evicted
  unfoldable pub link_to : ℕ → Ptr → Bytes × ℤ → M ℤ
  link_to old_i_num p (new_name, curr_i) = do
    created ← handle_create (some new_name) curr_i (pos old_i_num)
    if eqb_ℤ created env.error then pure env.error else do
      inode ← read_inode p
      write_inode p (record inode { nlink = env.nlink_value (inode.nlink +ℤ pos 1) })
      mark_i_dirty old_i_num
      pure (pos 0)

  -- `curr_i` is the one that the old name has left
  unfoldable pub link_from : Bytes × ℤ → Bytes → M ℤ
  link_from (old_name, curr_i) new_name = do
    start_i ← inode_num curr_i
    old_i_num ← get_path_i_num old_name start_i
    p ← get_i old_i_num
    inode ← read_inode p
    if is_directory inode.type || old_i_num == 0
        then pure env.error
        else link_to old_i_num p (adj_path_i (new_name, curr_i))

  unfoldable pub handle_link : Option Bytes → Option Bytes → ℤ → M ℤ
  handle_link none new_name curr_i = pure env.error
  handle_link (some old_name) none curr_i = pure env.error
  handle_link (some old_name) (some new_name) curr_i =
      if leb_ℤ curr_i (pos 0)
      then pure env.error
      else link_from (adj_path_i (old_name, curr_i)) new_name

  unfoldable pub unlink_entry : Ptr → ℕ → ℕ → M ℤ
  unlink_entry block offset b_num = do
    entry ← read_entry block offset
    p ← get_i entry.inum
    inode ← read_inode p
    let nlink = env.nlink_value (inode.nlink -ℤ pos 1)
    write_inode p (record inode { nlink = nlink })
    when (eqb_ℤ nlink (pos 0)) (clear_file p)
    mark_i_dirty entry.inum
    set_inum block offset 0
    mark_b_dirty b_num
    pure (pos 0)

  unfoldable pub unlink_found : Option ℕ × ℕ → M ℤ
  unlink_found (none, b_num) = pure env.error
  unlink_found (some offset, b_num) = do block ← get_b b_num; unlink_entry block offset b_num

  unfoldable pub unlink_in : ℤ × Bytes → M ℤ
  unlink_in (dir_i_num, filename) = do
    n ← inode_num dir_i_num
    p ← get_i n
    dir_i ← read_inode p
    if not (is_directory dir_i.type)
        then pure env.error
        else do found ← get_dir_entry filename n false; unlink_found found

  unfoldable pub handle_unlink : Option Bytes → ℤ → M ℤ
  handle_unlink none curr_i = pure env.error
  handle_unlink (some pathname) curr_i =
      if leb_ℤ curr_i (pos 0)
      then pure env.error
      else do dir ← get_super_dir pathname curr_i; unlink_in dir
