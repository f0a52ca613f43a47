-- ===== src/Buffer.antt =====
-- The caches over the disk: get_b, evict_b, get_i, evict_i and handle_sync of yfs.c, and the reads
-- and writes through the pointers that get_b and get_i return.
pub mod Ends
pub mod Evict
pub mod Blocks
pub mod Sync
pub mod Slots
pub mod Pieces
pub mod Put
pub mod Table
pub mod Inodes
pub mod LoadInode
pub mod GetInode
pub mod MarkInode
pub mod FlushInode
pub mod SyncInodes
pub mod Durable
pub mod Kept
pub mod HasInode
use model_lib.Prelude.{
  ℕ, zero, suc, ◌+◌, ◌-◌, ◌*◌, ◌/◌, ◌%◌, ltb, ◌++◌, true, false, ◌==◌, leb, if◌then◌else◌, take,
  drop, length,
}
use model_lib.Prelude.Int.{ℤ, pos, negsuc}
use model_lib.Env.{Env, Bytes, Ptr, null, Inode, DirEntry}
use model_lib.Queue.{load}
use model_lib.Cache
use model_lib.Cache.{on_queue}
use model_lib.Machine.{
  int_limit, M, out_of_fuel, pure, ◌>>=◌, ◌>>◌, when, get, crash, on_blocks, on_inodes, read_sector,
  write_sector,
}

-- `n` bytes of a buffer at an offset
unfoldable pub slice : ℕ → ℕ → Bytes → Bytes
slice off n bytes = take n (drop off bytes)

-- a buffer with the bytes at an offset replaced
unfoldable pub splice : ℕ → Bytes → Bytes → Bytes
splice off new bytes = take off bytes ++ (new ++ drop (off + length new) bytes)

module _ ⦃env : Env⦄ where
  -- Accesses to the buffer of a block. A fault is an access outside the BLOCKSIZE bytes.
  unfoldable pub read_block : Ptr → ℕ → ℕ → M Bytes
  read_block p off n =
      if leb (off + n) env.block_size
      then (do bytes ← on_blocks (Cache.get_addr p); pure (slice off n bytes))
      else crash

  unfoldable pub write_block : Ptr → ℕ → Bytes → M (Unit {0})
  write_block p off new =
      if leb (off + length new) env.block_size
      then (do
        bytes ← on_blocks (Cache.get_addr p)
        on_blocks (Cache.set_addr p (splice off new bytes)))
      else crash

  unfoldable pub read_inode : Ptr → M Inode
  read_inode p = on_inodes (Cache.get_addr p)

  unfoldable pub write_inode : Ptr → Inode → M (Unit {0})
  write_inode p inode = on_inodes (Cache.set_addr p inode)

  unfoldable pub read_entry : Ptr → ℕ → M DirEntry
  read_entry p off = do bytes ← read_block p off env.entry_size; pure (env.decode_entry bytes)

  unfoldable pub write_entry : Ptr → ℕ → DirEntry → M (Unit {0})
  write_entry p off entry = write_block p off (env.encode_entry entry)

  unfoldable pub mark_b_dirty : ℕ → M (Unit {0})
  mark_b_dirty b_num = on_blocks (Cache.mark_dirty b_num)

  unfoldable pub mark_i_dirty : ℕ → M (Unit {0})
  mark_i_dirty i_num = on_inodes (Cache.mark_dirty i_num)

  unfoldable pub evict_b : M (Unit {0})
  evict_b = do
    (p, lru) ← on_blocks Cache.dequeue_lru
    write_sector lru.c_item_num lru.addr
    on_blocks (Cache.drop_entry lru.c_item_num)
    on_blocks (Cache.free p)

  -- the rest of get_b, if the block is not cached
  unfoldable pub fetch_b : ℕ → M Ptr
  fetch_b b_num = do
    s ← get
    when (s.blocks.size == env.block_cache_size) evict_b
    block ← read_sector b_num
    s' ← get
    on_blocks (
        Cache.add true (record {
          c_item_num = b_num;
          dirty = false;
          addr = block;
          prev_c_item = env.fresh_next s'.blocks.brk;
          next_c_item = env.fresh_next s'.blocks.brk;
        }))

  unfoldable pub get_b : ℕ → M Ptr
  get_b b_num = do
    p ← on_blocks (Cache.query b_num)
    if p == null then fetch_b b_num else do on_blocks (Cache.touch true p); pure p

  abbrev pub inodes_per_block : ℕ
  inodes_per_block = env.block_size / env.inode_size

  -- the block that holds an inode, and the inode's offset in it
  unfoldable pub inode_block : ℕ → ℕ
  inode_block i_num = i_num / inodes_per_block + 1

  unfoldable pub inode_offset : ℕ → ℕ
  inode_offset i_num = (i_num - (inode_block i_num - 1) * inodes_per_block) * env.inode_size

  -- The same for the number of a cached inode. An int is written as its 32 bits, which the hash table
  -- reads as an unsigned number: from 2^31 on the number is negative, a multiple of `inodes_per_block`
  -- by inode_num, and `/` rounds to 0.
  unfoldable pub item_block : ℕ → ℕ
  item_block i_num =
      if ltb i_num int_limit
      then inode_block i_num
      else (2 * int_limit + 1 - (2 * int_limit - i_num) / inodes_per_block) % (2 * int_limit)

  unfoldable pub item_offset : ℕ → ℕ
  item_offset i_num = if ltb i_num int_limit then inode_offset i_num else 0

  unfoldable pub evict_i : M (Unit {0})
  evict_i = do
    (p, lru) ← on_inodes Cache.dequeue_lru
    on_inodes (Cache.drop_entry lru.c_item_num)
    lru_b ← get_b (item_block lru.c_item_num)
    write_block lru_b (item_offset lru.c_item_num) (env.encode_inode lru.addr)
    mark_b_dirty (item_block lru.c_item_num)
    on_inodes (Cache.free p)

  -- the rest of get_i, if the inode is not cached; `dirty` and `next_c_item` are not set
  unfoldable pub fetch_i : ℕ → M Ptr
  fetch_i i_num = do
    s ← get
    when (s.inodes.size == env.inode_cache_size) evict_i
    b_addr ← get_b (item_block i_num)
    bytes ← read_block b_addr (item_offset i_num) env.inode_size
    s' ← get
    on_inodes (
        Cache.add false (record {
          c_item_num = i_num;
          dirty = env.fresh_dirty s'.inodes.brk;
          addr = env.decode_inode bytes;
          prev_c_item = env.fresh_next s'.inodes.brk;
          next_c_item = env.fresh_next s'.inodes.brk;
        }))

  unfoldable pub get_i : ℕ → M Ptr
  get_i i_num = do
    p ← on_inodes (Cache.query i_num)
    if p == null then fetch_i i_num else do on_inodes (Cache.touch false p); pure p

  -- An inode number as an `int`, which get_i takes by its 32 bits. From a negative number that is no
  -- multiple of `inodes_per_block` get_i computes an address before the buffer of a block.
  unfoldable pub inode_num : ℤ → M ℕ
  inode_num (pos i_num) = pure i_num
  inode_num (negsuc n) =
      if (n + 1) % inodes_per_block == 0 then pure (2 * int_limit - (n + 1)) else crash

  -- the two loops of handle_sync
  unfoldable pub sync_blocks : ℕ → Ptr → M (Unit {0})
  sync_blocks zero cur = λ s. out_of_fuel
  sync_blocks (suc fuel) cur = if cur == null then pure tt else do
    it ← on_blocks (on_queue (load cur))
    when it.dirty (write_sector it.c_item_num it.addr)
    sync_blocks fuel it.next_c_item

  unfoldable pub sync_inode : ℕ → Inode → M (Unit {0})
  sync_inode i_num inode = do
    block ← get_b (item_block i_num)
    write_block block (item_offset i_num) (env.encode_inode inode)
    bytes ← on_blocks (Cache.get_addr block)
    write_sector (item_block i_num) bytes

  unfoldable pub sync_inodes : ℕ → Ptr → M (Unit {0})
  sync_inodes zero cur = λ s. out_of_fuel
  sync_inodes (suc fuel) cur = if cur == null then pure tt else do
    it ← on_inodes (on_queue (load cur))
    when it.dirty (sync_inode it.c_item_num it.addr)
    sync_inodes fuel it.next_c_item

  -- Each loop is given a round for each item and one for the test at the end.
  unfoldable pub handle_sync : M ℤ
  handle_sync = do
    s ← get
    sync_blocks (s.blocks.size + 1) s.blocks.queue.q_first
    sync_inodes (s.inodes.size + 1) s.inodes.queue.q_first
    pure (pos 0)
