-- ===== src/Dir.antt =====
-- Directories in yfs.c: get_dir_entry, its loops and its comparison of names.
pub mod Ends
pub mod Names
pub mod Entries
pub mod ScanBlock
pub mod Steps
pub mod Answer
pub mod ScanBlocks
pub mod GetEntry
use model_lib.Prelude.{
  ℕ, zero, suc, ◌+◌, ◌%◌, Option, none, some, [], ◌∷◌, Bool, true, false, ◌==◌, ltb, leb, not, ◌&&◌,
  ◌||◌, if◌then◌else◌,
}
use model_lib.Env.{Env, Bytes, Ptr, null, DirEntry}
use model_lib.Machine.{M, out_of_fuel, pure, ◌>>=◌, ◌>>◌}
use model_lib.Buffer.{
  read_inode, write_inode, read_entry, write_entry, mark_b_dirty, mark_i_dirty, get_b, get_i,
}
use model_lib.File.{get_nth_b, max_blocks}

-- A C string is the list of its characters before the NUL.
abbrev pub head_char : Bytes → ℕ
head_char [] = 0
head_char (c ∷ cs) = c

abbrev pub tail_chars : Bytes → Bytes
tail_chars [] = []
tail_chars (c ∷ cs) = cs

abbrev pub slash : ℕ
slash = b'/'

-- The loop over `j`, with the rest of `pathname` and of `cur_entry->name`: `k` is DIRNAMELEN - j.
unfoldable pub name_eq : ℕ → Bytes → Bytes → Bool
name_eq zero pathname name = true
name_eq (suc k) pathname name =
    let rest = name_eq k (tail_chars pathname) (tail_chars name) in
    if (head_char pathname == slash || head_char pathname == 0) && (head_char name == 0)
    then true
    else (if head_char pathname == head_char name then rest else false)

-- The variables of the loops. `cur_entry` is kept as its offset in `cur_b`, and `entry_offset` is
-- `none` for -1.
pub record Scan : Type 0 where
  pub i : ℕ
  pub b_num : ℕ
  pub curr_b_num : ℕ
  pub cur_b : Ptr
  pub cur_entry : ℕ
  pub total_size : ℕ
  pub entry_offset : Option ℕ
  pub entry_b_num : ℕ
  pub found : Bool

-- the first free entry is remembered
unfoldable pub note_free : Scan → DirEntry → Scan
note_free sc entry = elim sc.entry_offset [
  | some _ ↦ sc
  | none ↦
      if entry.inum == 0
      then record sc { entry_offset = some sc.cur_entry; entry_b_num = sc.b_num }
      else sc
]

-- what get_dir_entry returns: the offset (`none` for -1), and the number behind `b_numPtr`
abbrev pub Entry : Type 0
Entry = Option ℕ × ℕ

module _ ⦃env : Env⦄ where
  unfoldable pub next_entry : Scan → Scan
  next_entry sc = record sc {
    cur_entry = sc.cur_entry + env.entry_size;
    total_size = sc.total_size + env.entry_size;
  }

  -- the inner loop, over the entries of a block
  unfoldable pub scan_block : ℕ → Bytes → Ptr → Scan → M Scan
  scan_block zero pathname p sc = λ s. out_of_fuel
  scan_block (suc fuel) pathname p sc = do
    inode ← read_inode p
    if not (leb sc.total_size inode.size && ltb sc.cur_entry env.block_size) then pure sc else do
      entry ← read_entry sc.cur_b sc.cur_entry
      let sc' = note_free sc entry
      let hit = name_eq env.dir_name_len pathname entry.name
      if hit
          then pure (record sc' { found = true })
          else scan_block fuel pathname p (next_entry sc')

  -- the outer loop, over the blocks of the directory
  unfoldable pub scan_blocks : ℕ → Bytes → Ptr → Scan → M Scan
  scan_blocks zero pathname p sc = λ s. out_of_fuel
  scan_blocks (suc fuel) pathname p sc = if sc.b_num == 0 then pure sc else do
    cur_b ← get_b sc.b_num
    sc' ← scan_block (env.block_size + 1) pathname p (record sc { cur_b = cur_b; cur_entry = 0 })
    if sc'.found then pure sc' else do
      b_num ← get_nth_b p (sc.i + 1) false
      scan_blocks fuel pathname p
          (record sc' { i = sc.i + 1; b_num = b_num; curr_b_num = sc.b_num })

  unfoldable pub grow_dir : Ptr → M (Unit {0})
  grow_dir p = do
    inode ← read_inode p
    write_inode p (record inode { size = inode.size + env.entry_size })

  unfoldable pub clear_inum : Ptr → ℕ → M (Unit {0})
  clear_inum b off = do entry ← read_entry b off; write_entry b off (record entry { inum = 0 })

  -- a new entry in a new block
  unfoldable pub new_block_entry : Ptr → ℕ → ℕ → M Entry
  new_block_entry p start_i i = do
    b_num ← get_nth_b p i true
    cur_b ← get_b b_num
    grow_dir p
    clear_inum cur_b 0
    mark_b_dirty b_num
    mark_i_dirty start_i
    pure (some 0, b_num)

  -- a new entry behind the last one
  unfoldable pub new_entry : Ptr → ℕ → Scan → M Entry
  new_entry p start_i sc = do
    grow_dir p
    mark_i_dirty start_i
    clear_inum sc.cur_b sc.cur_entry
    mark_b_dirty sc.curr_b_num
    pure (some sc.cur_entry, sc.curr_b_num)

  unfoldable pub append_entry : Ptr → ℕ → Scan → M Entry
  append_entry p start_i sc = do
    inode ← read_inode p
    let full = inode.size % env.block_size == 0
    if full then new_block_entry p start_i sc.i else new_entry p start_i sc

  unfoldable pub make_entry : Ptr → ℕ → Scan → M Entry
  make_entry p start_i sc =
      if sc.entry_b_num == 0
      then append_entry p start_i sc
      else pure (sc.entry_offset, sc.entry_b_num)

  unfoldable pub start_scan : ℕ → Scan
  start_scan b_num = record {
    i = 0;
    b_num = b_num;
    curr_b_num = 0;
    cur_b = null;
    cur_entry = 0;
    total_size = env.entry_size;
    entry_offset = none;
    entry_b_num = 0;
    found = false;
  }

  unfoldable pub finish_scan : Ptr → ℕ → Bool → Scan → M Entry
  finish_scan p start_i should_make_dir sc =
      if sc.found
      then pure (some sc.cur_entry, sc.b_num)
      else (if should_make_dir then make_entry p start_i sc else pure (none, sc.b_num))

  unfoldable pub get_dir_entry : Bytes → ℕ → Bool → M Entry
  get_dir_entry pathname start_i should_make_dir = do
    p ← get_i start_i
    b_num ← get_nth_b p 0 false
    sc ← scan_blocks (max_blocks + 1) pathname p (start_scan b_num)
    finish_scan p start_i should_make_dir sc
