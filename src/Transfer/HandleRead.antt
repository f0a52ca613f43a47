-- ===== src/Transfer/HandleRead.antt =====
-- handle_read on a file: the bytes that the process gets, and what stays the same.
use model_lib.Prelude.{
  ap, length, length-append, ℕ, ◌+◌, ◌≤◌, ◌<◌, ◌≡◌, refl, sym, List, [], ◌∷◌, ◌++◌, false, arith,
}
use model_lib.Prelude.Int.{pos, negsuc, eqb_ℤ, ltb_ℤ}
use model_lib.Env.{Env, Bytes, Ptr, null, Inode, IsLayout}
use model_lib.Queue.Seg.{Cell}
use model_lib.Machine.{Sys, int_limit, ◌>>=◌}
use model_lib.Buffer.{inode_block, inode_num, get_i}
use model_lib.Buffer.Evict.{content}
use model_lib.Buffer.Inodes.{inode_content, IsSys}
use model_lib.Buffer.LoadInode.{GotInode}
use model_lib.Buffer.GetInode.{get_i-GotInode}
use model_lib.File.Contents.{bytes_from, IsFile, IsFile-same, bytes_from_same}
use model_lib.File.Locate.{read_inode-Held}
use model_lib.Transfer.{int_of_bool, is_valid_inputs, read_at, handle_read}
use model_lib.Transfer.Rounds.{Shows, IsStored}
use model_lib.Transfer.Copy.{Writable}
use model_lib.Transfer.ReadFile.{
  count, no_test, get_num_bytes_left_lem, read_at-Copied, HasRead, GotInode-Held, Copied-HasRead,
  HasRead-after,
}

module _ ⦃env : Env⦄ where
  module _ (layout : IsLayout env) (last : ℕ) (table : inode_block last < env.num_sectors)
      (pos_cache : 0 < env.block_cache_size) where
    GotInode-HasRead :
        (pid : ℕ) (i : ℕ) (buf : Ptr) (size off : ℕ) (s : Sys) (bs : List (Cell Bytes))
        (is before : List (Cell Inode))
        → GotInode last s bs is before i (get_i i s)
        → i ≤ last
        → env.error ≡ negsuc 0
        → IsFile last (inode_content bs s.disk is i) (content bs s.disk)
        → off ≤ (inode_content bs s.disk is i).size
        → (inode_content bs s.disk is i).size < int_limit
        → Writable pid buf (count (inode_content bs s.disk is i) size off)
        → HasRead last pid buf
            (bytes_from
              (inode_content bs s.disk is i)
              (content bs s.disk)
              off
              (count (inode_content bs s.disk is i) size off))
            s
            bs
            is
            (pos (count (inode_content bs s.disk is i) size off))
            (handle_read (pos i) buf (pos size) (pos off) pid s)
    unfolding handle_read inode_num
    GotInode-HasRead pid i buf size off s bs is before g i_le code file off_le small ok_user =
        let inode = inode_content bs s.disk is i in
        let view = content bs s.disk in
        let s₁ = g.step.state in
        let bs₁ = g.step.cells in
        let is₁ = before ++ g.cell ∷ [] in
        let view₁ = content bs₁ s₁.disk in
        let left = count inode size off in
        let same : (b : ℕ) → inode_block last < b → b < env.num_sectors → view b ≡ view₁ b =
          λ b behind lt. sym (g.step.same.blocks b behind lt) in
        let held = GotInode-Held layout last table pos_cache s bs is before i (get_i i s) g i_le in
        let stored : IsStored last inode view₁ = record {
          file = IsFile-same last inode view view₁ same file;
          sized = g.step.valid.sized;
        } in
        let shows : Shows g.cell.at inode view₁ s₁ bs₁ = record {
          cached = record {
            cache = g.step.valid.blocks;
            fits = g.step.valid.blocks_fit;
            room = pos_cache;
          };
          held = held;
          agree = λ b lt. refl;
        } in
        let inside : off + left ≤ inode.size = ground (arith, off_le) in
        let c =
          read_at-Copied last pid g.cell.at inode view₁ stored buf off left s₁ bs₁ shows
            (omega (arith, layout.inode_size_pos, layout.inode_size-le)) inside ok_user in
        let h =
          Copied-HasRead layout last table pos_cache pid g.cell.at inode buf
            (bytes_from inode view₁ off left) s₁ bs₁ is₁ (pos left)
            (read_at pid g.cell.at (pos off) (pos left) buf s₁) g.step.valid c in
        let valid_code : eqb_ℤ (int_of_bool (is_valid_inputs (pos i) buf (pos size) (pos off)))
              env.error
            ≡ false =
          no_test (is_valid_inputs (pos i) buf (pos size) (pos off)) code in
        let in_file : ltb_ℤ (pos inode.size) (pos off) ≡ false = ground (arith, off_le) in
        rw
          (
            valid_code,
            g.step.returns,
            read_inode-Held g.cell.at inode s₁ held,
            in_file,
            get_num_bytes_left_lem inode size off s₁ off_le small,
            handle_read,
            inode_num,
            ◌>>=◌,
          )
          (HasRead-after layout last table pos_cache pid buf _ _ s s₁ bs bs₁ is is₁ (pos left) _
            g.step.same
            (λ clean empty.
              absurd (omega (arith, ap length empty, length-append before (g.cell ∷ []))))
            g.step.settled g.step.others
            (sym (bytes_from_same last inode view view₁ same file off left inside)) h)

    -- On well-formed caches that are not over their sizes, with room for two inodes or more, let i
    -- be a number of the table of inodes, whose inode names blocks behind the table for all its
    -- bytes, and whose size is an int. If the offset is at most that size, and the process may be
    -- written at the bytes that are asked for, handle_read answers the smaller one of `size` and
    -- of the number of bytes behind the offset; that many bytes of the file from the offset on,
    -- through direct and indirect blocks, are in the process's memory at `buf`, which is the same
    -- elsewhere. Every inode of the table and every block behind it holds what it held, also where
    -- items of the caches were evicted, and the caches stay well formed and within their sizes.
    -- ERROR is -1; if the inode cache is empty, malloc has to leave NULL in next_c_item. If before
    -- every item of the caches that is not dirty holds what is on the disk, or in the block of the
    -- inode, then so it is afterwards.
    pub handle_read-HasRead :
        (pid : ℕ) (i : ℕ) (buf : Ptr) (size off : ℕ) (s : Sys) (bs : List (Cell Bytes))
        (is : List (Cell Inode))
        → IsSys last s bs is
        → i ≤ last
        → (is ≡ [] → env.fresh_next s.inodes.brk ≡ null)
        → 1 < env.inode_cache_size
        → env.error ≡ negsuc 0
        → IsFile last (inode_content bs s.disk is i) (content bs s.disk)
        → off ≤ (inode_content bs s.disk is i).size
        → (inode_content bs s.disk is i).size < int_limit
        → Writable pid buf (count (inode_content bs s.disk is i) size off)
        → HasRead last pid buf
            (bytes_from
              (inode_content bs s.disk is i)
              (content bs s.disk)
              off
              (count (inode_content bs s.disk is i) size off))
            s
            bs
            is
            (pos (count (inode_content bs s.disk is i) size off))
            (handle_read (pos i) buf (pos size) (pos off) pid s)
    handle_read-HasRead pid i buf size off s bs is v i_le clean two code file off_le small ok_user =
        GotInode-HasRead pid i buf size off s bs is _
          (get_i-GotInode layout last table pos_cache s bs is i v i_le clean two) i_le code file
          off_le small ok_user
