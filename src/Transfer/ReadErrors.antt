-- ===== src/Transfer/ReadErrors.antt =====
-- handle_read behind the end of a file.
use model_lib.Prelude.{
  length, length-append, ℕ, ◌≤◌, ◌<◌, ◌≡◌, refl, sym, ap, ◌∙◌, List, [], ◌∷◌, ◌++◌, true, false,
  arith,
}
use model_lib.Prelude.Int.{pos, negsuc, eqb_ℤ, ltb_ℤ}
use model_lib.Env.{Env, Bytes, Ptr, null, Inode, IsLayout}
use model_lib.Queue.Seg.{Cell}
use model_lib.Machine.{Sys, ◌>>=◌}
use model_lib.Machine.Memory.{write_memory_nil}
use model_lib.Buffer.{inode_block, inode_num, get_i}
use model_lib.Buffer.Inodes.{inode_content, IsSys}
use model_lib.Buffer.LoadInode.{GotInode}
use model_lib.Buffer.GetInode.{get_i-GotInode}
use model_lib.File.Locate.{read_inode-Held}
use model_lib.Transfer.{int_of_bool, is_valid_inputs, handle_read}
use model_lib.Transfer.ReadFile.{HasRead, GotInode-Held, no_test}

module _ ⦃env : Env⦄ (layout : IsLayout env) (last : ℕ) (table : inode_block last < env.num_sectors)
    (pos_cache : 0 < env.block_cache_size) where
  GotInode-past :
      (pid : ℕ) (i : ℕ) (buf : Ptr) (size off : ℕ) (s : Sys) (bs : List (Cell Bytes))
      (is before : List (Cell Inode))
      → GotInode last s bs is before i (get_i i s)
      → i ≤ last
      → env.error ≡ negsuc 0
      → (inode_content bs s.disk is i).size < off
      → HasRead last pid buf [] s bs is env.error
          (handle_read (pos i) buf (pos size) (pos off) pid s)
  unfolding handle_read inode_num
  GotInode-past pid i buf size off s bs is before g i_le code past =
      let inode = inode_content bs s.disk is i in
      let s₁ = g.step.state in
      let held = GotInode-Held layout last table pos_cache s bs is before i (get_i i s) g i_le in
      let accepted : eqb_ℤ (int_of_bool (is_valid_inputs (pos i) buf (pos size) (pos off)))
            env.error
          ≡ false =
        no_test (is_valid_inputs (pos i) buf (pos size) (pos off)) code in
      let behind : ltb_ℤ (pos inode.size) (pos off) ≡ true = ground (arith, past) in
      let same_user : s₁.user ≡ s.user = ap {A = Sys} (λ z. z.user) g.step.others in
      record {
        state = s₁;
        cells = g.step.cells;
        items = before ++ g.cell ∷ [];
        returns =
            rw
              (
                accepted,
                g.step.returns,
                read_inode-Held g.cell.at inode s₁ held,
                behind,
                handle_read,
                inode_num,
                ◌>>=◌,
              )
              refl;
        valid = g.step.valid;
        warm = λ clean empty.
            absurd (omega (arith, ap length empty, length-append before (g.cell ∷ [])));
        same = g.step.same;
        settled = g.step.settled;
        user = λ q a.
            ap (λ (u : ℕ → Ptr → ℕ). u q a) same_user ∙ sym (write_memory_nil s.user pid buf q a);
        others =
            g.step.others
            ∙ ap
                (λ u. record s { blocks = s₁.blocks; inodes = s₁.inodes; disk = s₁.disk; user = u })
                (sym same_user);
      }

  -- On well-formed caches that are not over their sizes, with room for two inodes or more,
  -- handle_read of an inode of the table from an offset above the inode's size answers ERROR,
  -- whatever the buffer and the number of bytes: no memory of a process changes, every inode of
  -- the table and every block behind it holds what it held, and the caches stay well formed and
  -- within their sizes. ERROR is -1; if the inode cache is empty, malloc has to leave NULL in
  -- next_c_item. If before every item of the caches that is not dirty holds what is on the disk,
  -- or in the block of the inode, then so it is afterwards.
  pub handle_read-error :
      (pid : ℕ) (i : ℕ) (buf : Ptr) (size off : ℕ) (s : Sys) (bs : List (Cell Bytes))
      (is : List (Cell Inode))
      → IsSys last s bs is
      → i ≤ last
      → (is ≡ [] → env.fresh_next s.inodes.brk ≡ null)
      → 1 < env.inode_cache_size
      → env.error ≡ negsuc 0
      → (inode_content bs s.disk is i).size < off
      → HasRead last pid buf [] s bs is env.error
          (handle_read (pos i) buf (pos size) (pos off) pid s)
  handle_read-error pid i buf size off s bs is v i_le clean two code past =
      GotInode-past pid i buf size off s bs is _
        (get_i-GotInode layout last table pos_cache s bs is i v i_le clean two) i_le code past
