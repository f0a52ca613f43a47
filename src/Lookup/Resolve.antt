-- ===== src/Lookup/Resolve.antt =====
-- handle_open and handle_stat on the tree of directories.
use model_lib.Prelude.{
  ℕ, ◌≤◌, ◌<◌, ◌≡◌, refl, ap, inl, inr, Bool-cases, some, List, true, false, ◌==◌, ◌||◌,
  if◌then◌else◌, arith, length,
}
use model_lib.Prelude.Int.{ℤ, pos, leb_ℤ}
use model_lib.Env.{Env, Bytes, Ptr, null, Inode, Stat, IsLayout}
use model_lib.Queue.Seg.{Cell}
use model_lib.Machine.{Sys, Run, pure, copy_to, write_memory, ◌>>=◌}
use model_lib.Buffer.{inode_block, inode_num, get_i, read_inode}
use model_lib.Buffer.Evict.{content}
use model_lib.Buffer.Inodes.{inode_content, IsSys}
use model_lib.Buffer.Kept.{IsWarm, Kept, Kept-ends}
use model_lib.Buffer.HasInode.{get_i-HasInode}
use model_lib.Dir.Entries.{IsDivided}
use model_lib.File.Locate.{read_inode-Held}
use model_lib.FilePath.{from_root, get_path_i_num}
use model_lib.FilePath.Tree.{IsTree, Leads}
use model_lib.FilePath.Walk.{Resolved, get_path_i_num-Resolved}
use model_lib.Lookup.{stat_path, handle_stat}
use model_lib.Transfer.ReadFile.{HasRead, HasRead-after}

module _ ⦃env : Env⦄ where
  -- The path leads to one inode, and the run answers its number, or ERROR for 0, and changes no file.
  pub record Located (last : ℕ) (path : Bytes) (i : ℕ) (s : Sys) (bs : List (Cell Bytes))
      (is : List (Cell Inode)) (run : Run ℤ) : Type 0 where
    pub inum : ℕ
    pub leads : Leads (inode_content bs s.disk is) (content bs s.disk) path i inum
    pub only : (r : ℕ) → Leads (inode_content bs s.disk is) (content bs s.disk) path i r → r ≡ inum
    pub kept : Kept last s bs is (if inum == 0 then env.error else pos inum) run

  -- what handle_stat tells of an inode
  abbrev pub stat_of : (inum : ℕ) → Inode → Stat
  stat_of inum inode = record {
    inum = inum;
    type = inode.type;
    size = inode.size;
    nlink = inode.nlink;
  }

  -- The path leads to one inode, and the run copies what is known of it, or answers ERROR for 0.
  pub data IsTold (last pid : ℕ) (buf : Ptr) (path : Bytes) (i : ℕ) (s : Sys)
      (bs : List (Cell Bytes)) (is : List (Cell Inode)) (run : Run ℤ) : Type 0 where
    missing :
        Leads (inode_content bs s.disk is) (content bs s.disk) path i 0
        → Kept last s bs is env.error run
        → IsTold last pid buf path i s bs is run
    told :
        (inum : ℕ)
        → Leads (inode_content bs s.disk is) (content bs s.disk) path i inum
        → 0 < inum
        → HasRead last pid buf
            (env.encode_stat (stat_of inum (inode_content bs s.disk is inum)))
            s
            bs
            is
            (pos 0)
            run
        → IsTold last pid buf path i s bs is run

  module _ (layout : IsLayout env) (last : ℕ) (table : inode_block last < env.num_sectors)
      (pos_cache : 0 < env.block_cache_size) (two : 1 < env.inode_cache_size)
      (divided : IsDivided env) where
    resolve :
        (s : Sys) (bs : List (Cell Bytes)) (is : List (Cell Inode)) (path : Bytes) (i : ℕ)
        → IsSys last s bs is
        → IsWarm s is
        → IsTree last (inode_content bs s.disk is) (content bs s.disk)
        → i ≤ last
        → Resolved last
            (inode_content bs s.disk is)
            (content bs s.disk)
            path
            i
            s
            bs
            is
            (get_path_i_num path i s)
    resolve s bs is path i v warm tree le =
        get_path_i_num-Resolved last (inode_content bs s.disk is) (content bs s.disk) layout table
          pos_cache two divided tree path i s bs is
          (record { valid = v; warm = warm; inodes = λ j j_le. refl; blocks = λ b behind lt. refl })
          le

    -- the copy of what is known of an inode
    stat-HasRead :
        (pid : ℕ) (buf : Ptr) (s : Sys) (bs : List (Cell Bytes)) (is : List (Cell Inode)) (r : ℕ)
        (run : Run ℕ)
        → (k : Kept last s bs is r run) → r ≤ last
        → ((stat : Stat) → env.writable pid buf (length (env.encode_stat stat)) ≡ true)
        → HasRead last pid buf
            (env.encode_stat (stat_of r (inode_content bs s.disk is r)))
            s
            bs
            is
            (pos 0)
            ((do
              p ← get_i r
              inode ← read_inode p
              copied ← copy_to pid buf (env.encode_stat (stat_of r inode))
              pure (if copied then pos 0 else env.error))
              k.state)
    unfolding copy_to
    stat-HasRead pid buf s bs is r run k le ok_user =
        let g =
          get_i-HasInode layout last table pos_cache k.state k.cells k.items r k.valid k.warm two
            le in
        let j = g.kept in
        let inode = inode_content k.cells k.state.disk k.items r in
        let stat = stat_of r inode in
        let bytes = env.encode_stat stat in
        let read = read_inode-Held g.at inode j.state g.held in
        HasRead-after layout last table pos_cache pid buf bytes
          (env.encode_stat (stat_of r (inode_content bs s.disk is r))) s k.state bs k.cells is
          k.items (pos 0) _ k.same (λ clean. k.warm) k.settled k.others
          (ap (λ z. env.encode_stat (stat_of r z)) (k.same.inodes r le))
          (record {
            state = record (j.state) { user = write_memory j.state.user pid buf bytes };
            cells = j.cells;
            items = j.items;
            returns = rw (j.returns, read, ok_user stat, copy_to, ◌>>=◌) refl;
            valid = record {
              blocks = j.valid.blocks;
              inodes = j.valid.inodes;
              blocks_fit = j.valid.blocks_fit;
              inodes_fit = j.valid.inodes_fit;
              sized = j.valid.sized;
              known = j.valid.known;
            };
            warm = λ clean. j.warm;
            same = record { inodes = j.same.inodes; blocks = j.same.blocks };
            settled = λ on_disk.
                let r = j.settled on_disk in record { blocks = r.blocks; inodes = r.inodes };
            user = λ q a.
                ap (λ (u : ℕ → Ptr → ℕ). write_memory u pid buf bytes q a)
                  (ap {A = Sys} (λ z. z.user) j.others);
            others =
                ap {A = Sys} (λ z. record z { user = write_memory j.state.user pid buf bytes })
                  j.others;
          })

    -- Under the same conditions on the caches, the directories and the path, for a buffer that is
    -- not NULL and that may be written, handle_stat answers ERROR and changes no memory if the
    -- path leads to 0; if it leads to another inode, it answers 0, and the number, type, size and
    -- count of links of that inode are in the process's memory at the buffer, which is the same
    -- elsewhere. No file is changed, and the caches stay well formed and within their sizes. If
    -- before every item of the caches that is not dirty holds what is on the disk, or in the block
    -- of the inode, then so it is afterwards.
    pub handle_stat-IsTold :
        (pid : ℕ) (buf : Ptr) (s : Sys) (bs : List (Cell Bytes)) (is : List (Cell Inode))
        (pathname path : Bytes) (dir i : ℕ)
        → IsSys last s bs is
        → IsWarm s is
        → IsTree last (inode_content bs s.disk is) (content bs s.disk)
        → 0 < dir
        → from_root pathname (pos dir) ≡ (path, pos i)
        → i ≤ last
        → 0 < buf
        → ((stat : Stat) → env.writable pid buf (length (env.encode_stat stat)) ≡ true)
        → IsTold last pid buf path i s bs is (handle_stat (some pathname) (pos dir) buf pid s)
    unfolding handle_stat stat_path inode_num
    handle_stat-IsTold pid buf s bs is pathname path dir i v warm tree some_dir start le some_buf
          ok_user =
        let w = resolve s bs is path i v warm tree le in
        let k = w.kept in
        let known : (leb_ℤ (pos dir) (pos 0) || (buf == null)) ≡ false =
          ground (arith, some_dir, some_buf) in
        elim (Bool-cases (w.inum == 0)) [
          | inl gone ↦
              let zero : w.inum ≡ 0 = ground (arith, gone) in
              missing (rw⁻¹ zero w.leads) (
                Kept-ends last s bs is _ _ _ _ k (
                  rw (known, start, k.returns, gone, handle_stat, stat_path, inode_num, ◌>>=◌)
                    refl))
          | inr some_inode ↦ told w.inum w.leads (ground (arith, some_inode)) (
              rw (known, start, k.returns, some_inode, handle_stat, stat_path, inode_num, ◌>>=◌)
                (stat-HasRead pid buf s bs is w.inum _ k w.le ok_user))
        ]
