-- ===== src/Buffer/Durable.antt =====
-- handle_sync as a whole: what is on the disk behind it.
use model_lib.Prelude.{
  ℕ, ◌+◌, ◌≤◌, ◌<◌, ◌≡◌, refl, sym, ap, ◌∙◌, inl, inr, some, none, Option, Bool-cases, List, [],
  ◌∷◌, true, false, ◌==◌, ◌&&◌, if◌then◌else◌, arith, length,
}
use model_lib.Prelude.Int.{ℤ, pos}
use model_lib.Env.{Env, Bytes, null, Inode, IsLayout}
use model_lib.Queue.Seg.{Cell}
use model_lib.Cache.Cells.{find, addr_of, Unique}
use model_lib.Machine.{Sys, Run, ok, ◌>>=◌, ◌>>◌}
use model_lib.Buffer.{inode_block, inode_offset, slice, handle_sync, sync_blocks, sync_inodes}
use model_lib.Buffer.Evict.{content}
use model_lib.Buffer.Table.{inode_at}
use model_lib.Buffer.Inodes.{inode_content, IsSys, SameFiles, CleanInodes, in_table}
use model_lib.Buffer.Sync.{Clean, sync_blocks-content}
use model_lib.Buffer.FlushInode.{OnDisk}
use model_lib.Buffer.SyncInodes.{Flushed, flushed, sync_inodes-Flushed}

module _ {A : Type 0} where
  -- what the item holds does not depend on the rest
  addr_of_twice : (z : A) (o : Option (Cell A)) → addr_of (addr_of z o) o ≡ addr_of z o
  addr_of_twice z none = refl
  addr_of_twice z (some c) = refl

module _ ⦃env : Env⦄ where
  inode_at_same :
      (view view' : ℕ → Bytes) (i : ℕ)
      → view (inode_block i) ≡ view' (inode_block i)
      → inode_at view i ≡ inode_at view' i
  inode_at_same view view' i e =
      ap (λ t. env.decode_inode (slice (inode_offset i) env.inode_size t)) e

  flushed_absent :
      (cs : List (Cell Inode)) (i : ℕ) (z : Inode) → find cs i ≡ none → flushed cs i z ≡ z
  flushed_absent [] i z h = refl
  flushed_absent (c ∷ cs) i z h =
      let other : (c.num == i) ≡ false = ground arith in
      ap (flushed cs i) (ground arith) ∙ flushed_absent cs i z (rw other at h)

  flushed_self :
      (c : Cell Inode) (i : ℕ) (z : Inode)
      → (c.num == i) ≡ true
      → (c.dirty ≡ false → c.addr ≡ z)
      → (if c.dirty && (c.num == i) then c.addr else z) ≡ c.addr
  flushed_self c i z self clean = ground arith

  flushed-find :
      (cs : List (Cell Inode)) (i : ℕ) (z : Inode)
      → Unique cs
      → ((c : Cell Inode) → find cs i ≡ some c → c.dirty ≡ false → c.addr ≡ z)
      → flushed cs i z ≡ addr_of z (find cs i)
  flushed-find [] i z u clean = refl
  flushed-find (c ∷ cs) i z u clean = elim (Bool-cases (c.num == i)) [
    | inl self ↦
        let num : c.num ≡ i = ground arith in
        let here : find (c ∷ cs) i ≡ some c = rw self refl in
        ap (flushed cs i) (flushed_self c i z self (clean c here))
        ∙ flushed_absent cs i c.addr (rw num at u.0)
        ∙ sym (ap (addr_of z) here)
    | inr other ↦
        let there : find (c ∷ cs) i ≡ find cs i = rw other refl in
        let same : (if c.dirty && (c.num == i) then c.addr else z) ≡ z = ground arith in
        ap (flushed cs i) same
        ∙ flushed-find cs i z u.1 (λ d found. clean d (there ∙ found))
        ∙ sym (ap (addr_of z) there)
  ]

  -- The call ended, and the disk alone holds what the inodes and the blocks hold.
  pub record IsDurable (last : ℕ) (s : Sys) (bs : List (Cell Bytes)) (is : List (Cell Inode))
      (run : Run ℤ) : Type 0 where
    pub state : Sys
    pub cells : List (Cell Bytes)
    pub returns : run ≡ ok (pos 0) state
    pub valid : IsSys last state cells is
    pub inodes : (i : ℕ) → i ≤ last → inode_at state.disk i ≡ inode_content bs s.disk is i
    pub blocks :
        (b : ℕ) → inode_block last < b → b < env.num_sectors → state.disk b ≡ content bs s.disk b
    pub same : SameFiles last s state bs cells is is
    pub others : state ≡ record s { blocks = state.blocks; disk = state.disk }

  module _ (layout : IsLayout env) (last : ℕ) (table : inode_block last < env.num_sectors)
      (pos_cache : 0 < env.block_cache_size) where
    Flushed-IsDurable :
        (s : Sys) (bs : List (Cell Bytes)) (is : List (Cell Inode)) (disk : ℕ → Bytes)
        → IsSys last s bs is
        → CleanInodes is (content bs s.disk)
        → sync_blocks (s.blocks.size + 1) s.blocks.queue.q_first s
          ≡ ok tt (record s { disk = disk })
        → ((b : ℕ) → b < env.num_sectors → content bs disk b ≡ content bs s.disk b)
        → Flushed layout last table pos_cache
            (record s { disk = disk })
            bs
            is
            (sync_inodes (s.inodes.size + 1) s.inodes.queue.q_first (record s { disk = disk }))
        → IsDurable last s bs is (handle_sync s)
    unfolding handle_sync
    Flushed-IsDurable s bs is disk v clean_i ran same₁ f =
        let view = content bs s.disk in
        let view' = content f.cells f.state.disk in
        let same_inodes : f.state.inodes ≡ s.inodes = ap {A = Sys} (λ z. z.inodes) f.others in
        let lt = in_table layout last table pos_cache in
        let now : (i : ℕ) → i ≤ last → inode_at view' i ≡ inode_content bs s.disk is i = λ i le.
          f.inodes i le
          ∙ ap (flushed is i)
              (inode_at_same (content bs disk) view i (same₁ (inode_block i) (lt i le)))
          ∙ flushed-find is i (inode_at view i) v.inodes.unique
              (λ c found d. clean_i i c found d) in
        record {
          state = f.state;
          cells = f.cells;
          returns = rw (ran, f.returns, handle_sync, ◌>>=◌, ◌>>◌) refl;
          valid = record {
            blocks = f.valid.cache;
            inodes = rw same_inodes v.inodes;
            blocks_fit = f.valid.fits;
            inodes_fit = v.inodes_fit;
            sized = f.valid.sized;
            known = v.known;
          };
          inodes = λ i le.
              inode_at_same f.state.disk view' i (f.valid.synced (inode_block i) (lt i le))
              ∙ now i le;
          blocks = λ b behind b_lt. f.valid.synced b b_lt ∙ f.blocks b behind b_lt ∙ same₁ b b_lt;
          same = record {
            inodes = λ i le.
                ap (λ z. addr_of z (find is i)) (now i le)
                ∙ addr_of_twice (inode_at view i) (find is i);
            blocks = λ b behind b_lt. f.blocks b behind b_lt ∙ same₁ b b_lt;
          };
          others = f.others;
        }

    -- On well-formed caches that are not over their sizes, where an item that is not dirty holds what
    -- is on the disk, or in the block of the inode, handle_sync ends within its fuel and answers 0. Then
    -- the disk alone, without the caches, holds every inode of the table and every block behind it, as
    -- the caches and the disk held them before; what the caches show is the same, they stay well formed
    -- and within their sizes, and the rest of the state is unchanged.
    pub handle_sync-IsDurable :
        (s : Sys) (bs : List (Cell Bytes)) (is : List (Cell Inode))
        → IsSys last s bs is
        → ((b : ℕ) → b < env.num_sectors → Clean bs s.disk b)
        → CleanInodes is (content bs s.disk)
        → IsDurable last s bs is (handle_sync s)
    unfolding handle_sync
    handle_sync-IsDurable s bs is v clean clean_i =
        let (disk, ran, written) = sync_blocks-content s bs v.blocks in
        let s₁ = record s { disk = disk } in
        let view = content bs s.disk in
        let q = s.inodes.queue in
        let same₁ : (b : ℕ) → b < env.num_sectors → content bs disk b ≡ view b = λ b lt.
          ap (λ z. addr_of z (find bs b)) (written b lt (clean b lt))
          ∙ addr_of_twice (s.disk b) (find bs b) in
        let on_disk : OnDisk s₁ bs = record {
          cache = v.blocks;
          fits = v.blocks_fit;
          sized = λ b lt. ap length (same₁ b lt) ∙ v.sized b lt;
          synced = λ b lt. written b lt (clean b lt) ∙ sym (same₁ b lt);
        } in
        let f =
          sync_inodes-Flushed layout last table pos_cache (s.inodes.size + 1) is null q.q_first
            q.q_last s₁ bs on_disk v.known v.inodes.unique v.inodes.queue.chain
            (omega (arith, v.inodes.counted)) in
        Flushed-IsDurable s bs is disk v clean_i ran same₁ f
