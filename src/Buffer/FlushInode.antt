-- ===== src/Buffer/FlushInode.antt =====
-- sync_inode: one inode is written to its block in the cache, and the block to the disk.
use model_lib.Prelude.{
  ℕ, ◌+◌, ◌≤◌, ◌<◌, ◌≡◌, refl, ap, List, [], ◌∷◌, ◌++◌, true, ltb, arith, length,
}
use model_lib.Env.{Env, Bytes, Inode, IsLayout}
use model_lib.Queue.Seg.{Cell}
use model_lib.Cache.Cells.{change, addr_of-change, length-change}
use model_lib.Cache.Access.{get_addr-some}
use model_lib.Machine.{Sys, ok, on_blocks, write_sector, update, ◌>>=◌, ◌>>◌}
use model_lib.Buffer.{splice, inode_block, inode_offset, get_b, sync_inode}
use model_lib.Buffer.Slots.{inode_offset-le}
use model_lib.Buffer.Evict.{content, Synced}
use model_lib.Buffer.Blocks.{Got}
use model_lib.Buffer.Put.{with_blocks, write_block-Accessed, Got-addr}
use model_lib.Buffer.Table.{Written}
use model_lib.Buffer.Inodes.{in_table, in_table-int}
use model_lib.Cache.Steps.{IsCache}

module _ ⦃env : Env⦄ where
  -- The block cache holds these items, is not over its size, shows blocks of full length, and the disk
  -- holds what it shows.
  pub record OnDisk (s : Sys) (bs : List (Cell Bytes)) : Type 0 where
    pub cache : IsCache s.blocks bs
    pub fits : length bs ≤ env.block_cache_size
    pub sized : (b : ℕ) → b < env.num_sectors → length (content bs s.disk b) ≡ env.block_size
    pub synced : Synced s bs

  -- one block with a piece replaced, in the cache and on the disk
  pub record Flush (s : Sys) (bs : List (Cell Bytes)) (x : Cell Inode) : Type 0 where
    pub state : Sys
    pub cells : List (Cell Bytes)
    pub returns : sync_inode x.num x.addr s ≡ ok tt state
    pub cache : IsCache state.blocks cells
    pub fits : length cells ≤ env.block_cache_size
    pub synced : Synced state cells
    pub written : Written (content bs s.disk) (content cells state.disk) x.num x.addr
    pub others : state ≡ record s { blocks = state.blocks; disk = state.disk }

  module _ (layout : IsLayout env) (last : ℕ) (table : inode_block last < env.num_sectors)
      (pos : 0 < env.block_cache_size) where
    pub Got-Flush :
        (s : Sys) (bs before : List (Cell Bytes)) (x : Cell Inode)
        → OnDisk s bs
        → x.num ≤ last
        → Got s bs before (inode_block x.num) (get_b (inode_block x.num) s)
        → Flush s bs x
    unfolding sync_inode write_sector on_blocks
    Got-Flush s bs before x v le g =
        let b = inode_block x.num in
        let off = inode_offset x.num in
        let enc = env.encode_inode x.addr in
        let lt = in_table layout last table pos x.num le in
        let room : off + length enc ≤ env.block_size = omega (
          arith,
          (inode_offset-le x.num x.num layout.inode_size_pos layout.inode_size-le).0,
          layout.length-encode x.addr,
        ) in
        let y = g.last in
        let s₁ = g.step.state in
        let w = write_block-Accessed s₁ before y [] g.step.valid off enc room in
        let new = splice off enc y.addr in
        let y₁ = change y y.dirty new in
        let s₂ = with_blocks s₁ w.cache in
        let inside : ltb b env.num_sectors ≡ true = ground (arith, lt) in
        let held = Got-addr s bs before b (get_b b s) g lt in
        record {
          state = record s₂ { disk = update s₁.disk b new };
          cells = before ++ y₁ ∷ [];
          returns =
              rw
                (
                  (in_table-int layout last table pos x.num le).0,
                  (in_table-int layout last table pos x.num le).1,
                  g.step.returns,
                  w.returns,
                  get_addr-some w.cache before y₁ [] w.valid,
                  inside,
                  sync_inode,
                  write_sector,
                  on_blocks,
                  ◌>>=◌,
                  ◌>>◌,
                )
                refl;
          cache = w.valid;
          fits = rw (length-change y y.dirty new before []) g.fits;
          synced = λ k k_lt. ground (
            arith,
            g.num,
            g.step.synced v.synced k k_lt,
            addr_of-change y y.dirty new before [] k (update s₁.disk b new k) g.step.valid.unique,
          );
          written = λ k k_lt. ground (
            arith,
            g.num,
            held,
            g.step.same k k_lt,
            addr_of-change y y.dirty new before [] k (update s₁.disk b new k) g.step.valid.unique,
          );
          others =
              ap {A = Sys} (λ z. record z { blocks = w.cache; disk = update s₁.disk b new })
                g.step.others;
        }
