-- ===== src/Boot.antt =====
-- The start of the server in yfs.c: make_free_lists, which reads the inodes from the disk and
-- builds the two free lists.
pub mod Free
use model_lib.Prelude.{
  ℕ, zero, suc, ◌+◌, ◌-◌, ◌*◌, List, [], ◌∷◌, Bool, true, false, ltb, leb, ◌==◌, if◌then◌else◌,
  length, get_or, set, replicate,
}
use model_lib.Env.{
  Env, Bytes, Ptr, InodeType, inode_free, inode_directory, inode_regular, inode_other,
}
use model_lib.Cache
use model_lib.Cache.{empty_cache}
use model_lib.Machine.{Sys, M, out_of_fuel, pure, ◌>>=◌, ◌>>◌, crash, on_blocks}
use model_lib.Buffer.{read_inode, get_b, get_i, inodes_per_block}
use model_lib.File.{add_b_freelist, add_free_i_list, max_blocks, read_indirect}

-- `used_b_list`
abbrev pub Used : Type 0
Used = List Bool

-- `used_b_list[b_num] = true`
unfoldable pub mark_used : Used → ℕ → M Used
mark_used used b_num = if ltb b_num (length used) then pure (set used b_num true) else crash

-- the last loop, over all blocks
unfoldable pub push_free : ℕ → Used → M (Unit {0})
push_free i [] = pure tt
push_free i (true ∷ used) = push_free (i + 1) used
push_free i (false ∷ used) = do add_b_freelist i; push_free (i + 1) used

abbrev pub is_free : InodeType → Bool
is_free inode_free = true
is_free inode_directory = false
is_free inode_regular = false
is_free (inode_other _) = false

module _ ⦃env : Env⦄ where
  -- the state before main: nothing is cached
  unfoldable pub start_state : (ℕ → Bytes) → (ℕ → Ptr → ℕ) → Sys
  start_state disk user = record {
    disk = disk;
    blocks = empty_cache env.block_cache_size;
    inodes = empty_cache env.inode_cache_size;
    i_head = [];
    b_head = [];
    free_i_count = 0;
    free_b_count = 0;
    user = user;
  }

  -- the number of an inode's block `i`, with no look at the inode's size
  unfoldable pub block_pointer : Ptr → ℕ → M ℕ
  block_pointer p i = do
    inode ← read_inode p
    if ltb i env.num_direct
        then pure (get_or inode.direct i 0)
        else (do b_indir ← get_b inode.indirect; read_indirect b_indir (i - env.num_direct))

  -- `while (1)`, which marks the blocks of an inode up to the first 0
  unfoldable pub mark_blocks : ℕ → Ptr → ℕ → Used → M Used
  mark_blocks zero p i used = λ s. out_of_fuel
  mark_blocks (suc fuel) p i used = if leb max_blocks i then pure used else do
    b_num ← block_pointer p i
    if b_num == 0
        then pure used
        else do used' ← mark_used used b_num; mark_blocks fuel p (i + 1) used'

  unfoldable pub scan_inode : ℕ → Used → M Used
  scan_inode i_num used = do
    p ← get_i i_num
    inode ← read_inode p
    if is_free inode.type
        then (do add_free_i_list i_num; pure used)
        else mark_blocks (max_blocks + 1) p 0 used

  -- the inner loop, over the inodes below `bound`; the next inode number is the first result
  unfoldable pub scan_inodes : ℕ → (bound i_num : ℕ) → Used → M (ℕ × Used)
  scan_inodes zero bound i_num used = λ s. out_of_fuel
  scan_inodes (suc fuel) bound i_num used =
      if leb bound i_num
      then pure (i_num, used)
      else do used' ← scan_inode i_num used; scan_inodes fuel bound (i_num + 1) used'

  -- the outer loop, over the blocks of inodes
  unfoldable pub scan_table : ℕ → (num_inodes b_num i_num : ℕ) → Used → M Used
  scan_table zero num_inodes b_num i_num used = λ s. out_of_fuel
  scan_table (suc fuel) num_inodes b_num i_num used = if leb num_inodes i_num then pure used else do
    let bound = inodes_per_block * b_num
    (i_num', used') ← scan_inodes (bound + 1) bound i_num used
    get_b (b_num + 1)
    scan_table fuel num_inodes (b_num + 1) i_num' used'

  -- The header is read from block 1. A round of the outer loop for each inode is enough.
  unfoldable pub make_free_lists : M (Unit {0})
  make_free_lists = do
    block ← get_b 1
    bytes ← on_blocks (Cache.get_addr block)
    let header = env.decode_header bytes
    used ← mark_used (replicate header.num_blocks false) 0
    used' ← scan_table (header.num_inodes + 1) header.num_inodes 1 env.root_inode used
    push_free 0 used'
