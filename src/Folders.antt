-- ===== src/Folders.antt =====
-- Directories made and removed in yfs.c: handle_mkdir with update_dir_entry, and handle_rmdir.
pub mod Ends
pub mod Refused
use model_lib.Prelude.{
  ℕ, ◌-◌, ◌*◌, Option, none, some, ◌++◌, true, ◌==◌, ltb, if◌then◌else◌, length, replicate, set,
}
use model_lib.Prelude.Int.{ℤ, pos, eqb_ℤ}
use model_lib.Env.{Env, Bytes, Ptr, inode_directory}
use model_lib.Machine.{M, pure, ◌>>=◌, ◌>>◌, crash}
use model_lib.Buffer.{
  read_inode, write_inode, read_entry, write_entry, mark_b_dirty, mark_i_dirty, get_b, get_i,
  inode_num, inode_block,
}
use model_lib.File.{get_next_inum_free, get_next_free_bnum, add_free_i_list, clear_file}
use model_lib.Dir.{get_dir_entry}
use model_lib.FilePath.{get_path_i_num, get_super_dir}
use model_lib.Lookup.{update_path_i}
use model_lib.Create.{entry_address, set_inum}

abbrev pub dot : ℕ
dot = b'.'

module _ ⦃env : Env⦄ where
  -- The name is cleared and copied whole: past DIRNAMELEN the copy leaves the array.
  unfoldable pub update_dir_entry : Ptr → ℕ → Bytes → ℕ → M (Unit {0})
  update_dir_entry block offset filename i_num =
      if ltb env.dir_name_len (length filename) then crash else do
        entry ← read_entry block offset
        write_entry block offset (record entry {
          name = filename ++ replicate (env.dir_name_len - length filename) 0;
          inum = i_num;
        })

  unfoldable pub init_directory : Ptr → M (Unit {0})
  init_directory p = do
    inode ← read_inode p
    write_inode p
        (record inode { type = inode_directory; size = 2 * env.entry_size; nlink = pos 1 })

  -- `inode->direct[0] = b_num`
  unfoldable pub set_direct : Ptr → ℕ → ℕ → M (Unit {0})
  set_direct p n b_num = do
    inode ← read_inode p
    write_inode p (record inode { direct = set inode.direct n b_num })

  -- `.` and `..`: the characters behind them stay as the block has them
  unfoldable pub write_dots : Ptr → (i_num dir_i_num : ℕ) → M (Unit {0})
  write_dots head i_num dir_i_num = do
    dir1 ← read_entry head 0
    write_entry head 0 (record dir1 { inum = i_num; name = set dir1.name 0 dot })
    dir2 ← read_entry head env.entry_size
    write_entry head env.entry_size
        (record dir2 { inum = dir_i_num; name = set (set dir2.name 0 dot) 1 dot })

  unfoldable pub make_directory : (i_num dir_i_num : ℕ) → M (Unit {0})
  make_directory i_num dir_i_num = do
    get_b (inode_block i_num)
    p ← get_i i_num
    init_directory p
    head_dir_b_num ← get_next_free_bnum
    head ← get_b head_dir_b_num
    set_direct p 0 head_dir_b_num
    write_dots head i_num dir_i_num
    mark_b_dirty head_dir_b_num
    mark_i_dirty i_num

  unfoldable pub mkdir_in : ℤ × Bytes → M ℤ
  mkdir_in (dir_i_num, filename) = do
    n ← inode_num dir_i_num
    (found, b_num) ← get_dir_entry filename n true
    block ← get_b b_num
    offset ← entry_address found
    entry ← read_entry block offset
    if entry.inum == 0
        then (do
          i_num ← get_next_inum_free
          update_dir_entry block offset filename i_num
          mark_b_dirty b_num
          make_directory i_num n
          pure (pos 0))
        else pure env.error

  unfoldable pub handle_mkdir : Option Bytes → ℤ → M ℤ
  handle_mkdir pathname curr_i = elim (update_path_i pathname curr_i) [
    | none ↦ pure env.error
    | some (path, start_i) ↦ do dir ← get_super_dir path start_i; mkdir_in dir
  ]

  -- the name of the removed directory in its parent
  unfoldable pub rmdir_entry : ℤ × Bytes → M ℤ
  rmdir_entry (dir_i_num, filename) = do
    n ← inode_num dir_i_num
    (found, b_num) ← get_dir_entry filename n true
    block ← get_b b_num
    offset ← entry_address found
    set_inum block offset 0
    mark_b_dirty b_num
    pure (pos 0)

  unfoldable pub rmdir_path : Bytes → ℤ → M ℤ
  rmdir_path path curr_i = do
    start_i ← inode_num curr_i
    i_num ← get_path_i_num path start_i
    if eqb_ℤ (pos i_num) env.error then pure env.error else do
      p ← get_i i_num
      inode ← read_inode p
      if ltb (2 * env.entry_size) inode.size then pure env.error else do
        clear_file p
        add_free_i_list i_num
        dir ← get_super_dir path curr_i
        rmdir_entry dir

  unfoldable pub handle_rmdir : Option Bytes → ℤ → M ℤ
  handle_rmdir pathname curr_i = elim (update_path_i pathname curr_i) [
    | none ↦ pure env.error
    | some (path, start_i) ↦ rmdir_path path start_i
  ]
