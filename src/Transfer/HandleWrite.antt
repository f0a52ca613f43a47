-- ===== src/Transfer/HandleWrite.antt =====
-- handle_write where it replaces bytes that the file has.
use model_lib.Prelude.{ℕ, ◌+◌, ◌≤◌, ◌<◌, ◌≡◌, sym, ap, List, [], ◌∷◌, ◌++◌, arith}
use model_lib.Prelude.Int.{pos, negsuc}
use model_lib.Env.{Env, Bytes, Ptr, null, Inode, IsLayout}
use model_lib.Queue.Seg.{Cell}
use model_lib.Machine.{Sys, read_memory, ◌>>=◌}
use model_lib.Buffer.{inode_block, inode_num, get_i}
use model_lib.Buffer.Evict.{content}
use model_lib.Buffer.Inodes.{inode_content, IsSys}
use model_lib.Buffer.LoadInode.{GotInode}
use model_lib.Buffer.GetInode.{get_i-GotInode}
use model_lib.File.Contents.{IsFile, IsFile-same}
use model_lib.File.Locate.{Cached, read_inode-Held}
use model_lib.File.Overwrite.{IsApart, IsApart-same}
use model_lib.Transfer.{is_valid_i, handle_write}
use model_lib.Transfer.Rounds.{IsStored}
use model_lib.Transfer.ReadFile.{GotInode-Held, no_test}
use model_lib.Transfer.Store.{Readable}
use model_lib.Transfer.WriteFile.{
  write_at-WroteAt, HasWritten, WroteAt-HasWritten, HasWritten-after,
}

module _ ⦃env : Env⦄ where
  module _ (layout : IsLayout env) (last : ℕ) (table : inode_block last < env.num_sectors)
      (pos_cache : 0 < env.block_cache_size) where
    GotInode-HasWritten :
        (pid i : ℕ) (buf : Ptr) (size off : ℕ) (s : Sys) (bs : List (Cell Bytes))
        (is before : List (Cell Inode))
        → GotInode last s bs is before i (get_i i s)
        → i ≤ last
        → env.error ≡ negsuc 0
        → IsFile last (inode_content bs s.disk is i) (content bs s.disk)
        → IsApart (inode_content bs s.disk is i) (content bs s.disk)
        → off + size ≤ (inode_content bs s.disk is i).size
        → Readable pid buf size
        → HasWritten last
            (inode_content bs s.disk is i)
            off
            (read_memory (s.user pid) buf size)
            s
            bs
            is
            (pos size)
            (handle_write (pos i) buf (pos size) (pos off) pid s)
    unfolding handle_write inode_num
    GotInode-HasWritten pid i buf size off s bs is before g i_le code file apart inside ok_user =
        let inode = inode_content bs s.disk is i in
        let view = content bs s.disk in
        let s₁ = g.step.state in
        let bs₁ = g.step.cells in
        let is₁ = before ++ g.cell ∷ [] in
        let view₁ = content bs₁ s₁.disk in
        let same : (b : ℕ) → inode_block last < b → b < env.num_sectors → view b ≡ view₁ b =
          λ b behind lt. sym (g.step.same.blocks b behind lt) in
        let held = GotInode-Held layout last table pos_cache s bs is before i (get_i i s) g i_le in
        let file₁ = IsFile-same last inode view view₁ same file in
        let stored : IsStored last inode view₁ = record {
          file = file₁;
          sized = g.step.valid.sized;
        } in
        let cached : Cached s₁ bs₁ = record {
          cache = g.step.valid.blocks;
          fits = g.step.valid.blocks_fit;
          room = pos_cache;
        } in
        let w =
          write_at-WroteAt last pid i g.cell.at inode off size buf s₁ bs₁ cached held stored
            (IsApart-same last inode view view₁ same file apart)
            (omega (arith, layout.inode_size_pos, layout.inode_size-le)) inside ok_user in
        let h =
          WroteAt-HasWritten layout last table pos_cache pid i inode off size buf s₁ bs₁ before
            g.cell g.step.valid file₁ g.num w in
        let same_user : s₁.user ≡ s.user = ap {A = Sys} (λ z. z.user) g.step.others in
        let bytes = ap (λ (u : ℕ → Ptr → ℕ). read_memory (u pid) buf size) same_user in
        rw
          (
            g.step.returns,
            read_inode-Held g.cell.at inode s₁ held,
            no_test (is_valid_i inode) code,
            handle_write,
            inode_num,
            ◌>>=◌,
          )
          (HasWritten-after layout last table pos_cache inode off
            (read_memory (s.user pid) buf size) s s₁ bs bs₁ is is₁ (pos size) _ file g.step.same
            g.step.settled g.step.others (rw (sym bytes) h))

    -- On well-formed caches that are not over their sizes, with room for two inodes or more, let i
    -- be a number of the table of inodes, whose inode names blocks behind the table for all its
    -- bytes, each for one piece of the file and none the block of block numbers. If the bytes that
    -- are written lie within the file's size, and the process may be read where they come from,
    -- handle_write answers `size`; the file's bytes from the offset on are those of the process at
    -- `buf`, and its other bytes are as before, also where items of the caches were evicted. No
    -- inode of the table changes, the file keeps its blocks, no block behind the table changes but
    -- the file's, the memory of the processes and the free lists stay, and the caches stay well
    -- formed and within their sizes. ERROR is -1; if the inode cache is empty, malloc has to leave
    -- NULL in next_c_item. If before every item of the caches that is not dirty holds what is on
    -- the disk, or in the block of the inode, then so it is afterwards.
    pub handle_write-HasWritten :
        (pid i : ℕ) (buf : Ptr) (size off : ℕ) (s : Sys) (bs : List (Cell Bytes))
        (is : List (Cell Inode))
        → IsSys last s bs is
        → i ≤ last
        → (is ≡ [] → env.fresh_next s.inodes.brk ≡ null)
        → 1 < env.inode_cache_size
        → env.error ≡ negsuc 0
        → IsFile last (inode_content bs s.disk is i) (content bs s.disk)
        → IsApart (inode_content bs s.disk is i) (content bs s.disk)
        → off + size ≤ (inode_content bs s.disk is i).size
        → Readable pid buf size
        → HasWritten last
            (inode_content bs s.disk is i)
            off
            (read_memory (s.user pid) buf size)
            s
            bs
            is
            (pos size)
            (handle_write (pos i) buf (pos size) (pos off) pid s)
    handle_write-HasWritten pid i buf size off s bs is v i_le clean two code file apart inside
          ok_user =
        GotInode-HasWritten pid i buf size off s bs is _
          (get_i-GotInode layout last table pos_cache s bs is i v i_le clean two) i_le code file
          apart inside ok_user
