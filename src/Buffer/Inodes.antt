-- ===== src/Buffer/Inodes.antt =====
-- get_i on the lists of cached inodes and cached blocks: what an inode holds, in its cache, in its
-- block's item or on the disk, stays the same.
use model_lib.Prelude.{
  ℕ, ◌+◌, ◌-◌, ◌≤◌, ◌<◌, ◌≡◌, refl, sym, ap, ◌∙◌, none, some, List, ◌∷◌, true, false, ◌==◌, ltb,
  arith, length,
}
use native.Mathlib.Decide.{ℕ_discrete}
use model_lib.Env.{Env, Bytes, Inode, IsLayout}
use model_lib.Queue.Seg.{Cell}
use model_lib.Cache.Cells.{find, addr_of}
use model_lib.Cache.Steps.{IsCache, lru-Evicted}
use model_lib.Machine.{int_limit, Sys, Run, ok, on_inodes, ◌>>=◌, ◌>>◌}
use model_lib.Buffer.{inode_block, inode_offset, item_block, item_offset, evict_i}
use model_lib.Buffer.Evict.{content, Tracked}
use model_lib.Buffer.Put.{get_b-Put}
use model_lib.Buffer.Slots.{inode-lt, inode_offset-le}
use model_lib.Buffer.Table.{
  inode_at, inode_at_self, inode_at_other, length-written, inode_block_mono, Written,
}

module _ ⦃env : Env⦄ where
  -- what an inode holds
  abbrev pub inode_content : List (Cell Bytes) → (ℕ → Bytes) → List (Cell Inode) → ℕ → Inode
  inode_content bs disk is i = addr_of (inode_at (content bs disk) i) (find is i)

  -- The two caches hold these items and are not over their sizes; every block of the disk has its full
  -- length; the cached inodes are numbered at most `last` and can be written to the table.
  pub record IsSys (last : ℕ) (s : Sys) (bs : List (Cell Bytes)) (is : List (Cell Inode))
      : Type 0 where
    pub blocks : IsCache s.blocks bs
    pub inodes : IsCache s.inodes is
    pub blocks_fit : length bs ≤ env.block_cache_size
    pub inodes_fit : length is ≤ env.inode_cache_size
    pub sized : (b : ℕ) → b < env.num_sectors → length (content bs s.disk b) ≡ env.block_size
    pub known :
        (i : ℕ) (c : Cell Inode) → find is i ≡ some c → (i ≤ last) × (env.fits c.addr ≡ true)

  -- what the inodes hold is the same, and what the blocks behind the table hold
  pub record SameFiles (last : ℕ) (s s' : Sys) (bs bs' : List (Cell Bytes))
      (is is' : List (Cell Inode)) : Type 0 where
    pub inodes : (i : ℕ) → i ≤ last → inode_content bs' s'.disk is' i ≡ inode_content bs s.disk is i
    pub blocks :
        (b : ℕ)
        → inode_block last < b
        → b < env.num_sectors
        → content bs' s'.disk b ≡ content bs s.disk b

  -- An inode of the cache that is not dirty is the one of the table.
  abbrev pub CleanInodes : List (Cell Inode) → (ℕ → Bytes) → Type 0
  CleanInodes is view =
      (i : ℕ) (c : Cell Inode) → find is i ≡ some c → c.dirty ≡ false → c.addr ≡ inode_at view i

  -- What is not dirty in the caches is on the disk, or in the block of the inode.
  pub record IsSettled (s : Sys) (bs : List (Cell Bytes)) (is : List (Cell Inode)) : Type 0 where
    pub blocks : Tracked s bs
    pub inodes : CleanInodes is (content bs s.disk)

  -- a step that changed at most the two caches and the disk
  pub record Inodes {R : Type 0} (last : ℕ) (s : Sys) (bs : List (Cell Bytes))
      (is is' : List (Cell Inode)) (r : R) (run : Run R) : Type 0 where
    pub state : Sys
    pub cells : List (Cell Bytes)
    pub returns : run ≡ ok r state
    pub valid : IsSys last state cells is'
    pub same : SameFiles last s state bs cells is is'
    pub settled : IsSettled s bs is → IsSettled state cells is'
    pub others :
        state ≡ record s { blocks = state.blocks; inodes = state.inodes; disk = state.disk }

  module _ (layout : IsLayout env) (last : ℕ) (table : inode_block last < env.num_sectors)
      (pos : 0 < env.block_cache_size) where
    pub in_table : (i : ℕ) → i ≤ last → inode_block i < env.num_sectors
    in_table i le = omega (arith, inode_block_mono layout i last le, table)

    -- the number of an inode of the table is an int
    pub in_table-int :
        (i : ℕ) → i ≤ last → (item_block i ≡ inode_block i) × (item_offset i ≡ inode_offset i)
    unfolding item_block item_offset
    in_table-int i le =
        let small : ltb i int_limit ≡ true = ground (arith, inode-lt layout i (in_table i le)) in
        (rw small refl, rw small refl)

    -- the inode that is written leaves the cache, and none changes
    evicted_content :
        (view view' : ℕ → Bytes) (x : Cell Inode) (is : List (Cell Inode)) (i : ℕ)
        → Written view view' x.num x.addr
        → ((b : ℕ) → b < env.num_sectors → length (view b) ≡ env.block_size)
        → find is x.num ≡ none
        → env.fits x.addr ≡ true
        → x.num ≤ last
        → i ≤ last
        → addr_of (inode_at view' i) (find is i) ≡ addr_of (inode_at view i) (find (x ∷ is) i)
    evicted_content view view' x is i w sized absent ok_x x_le i_le = elim (ℕ_discrete x.num i) [
      | yes self ↦
          let here : (x.num == i) ≡ true = ground arith in
          let gone : find is i ≡ none = rw self at absent in
          let written =
            inode_at_self layout view view' x.num x.addr w sized (in_table x.num x_le) ok_x in
          rw (here, gone) (ap (inode_at view') (sym self) ∙ written)
      | no other ↦
          let there : (x.num == i) ≡ false = ground arith in
          rw there (
            ap (λ z. addr_of z (find is i))
              (inode_at_other layout view view' x.num x.addr w sized i (in_table x.num x_le)
                (in_table i i_le) other))
    ]

    -- those that stay in the cache and are not dirty are the ones of the table
    evicted_clean :
        (view view' : ℕ → Bytes) (x : Cell Inode) (is : List (Cell Inode))
        → Written view view' x.num x.addr
        → ((b : ℕ) → b < env.num_sectors → length (view b) ≡ env.block_size)
        → find is x.num ≡ none
        → x.num ≤ last
        → ((i : ℕ) (c : Cell Inode)
            → find (x ∷ is) i ≡ some c
            → (i ≤ last) × (env.fits c.addr ≡ true))
        → CleanInodes (x ∷ is) view
        → CleanInodes is view'
    evicted_clean view view' x is w sized absent x_le known clean i y found d =
        let apart : (x.num == i) ≡ false = ground (arith, absent, found) in
        let there : find (x ∷ is) i ≡ some y = rw apart found in
        let le = (known i y there).0 in
        clean i y there d
        ∙ sym (
            inode_at_other layout view view' x.num x.addr w sized i (in_table x.num x_le)
              (in_table i le) (λ e. ground (arith, apart, e)))

    pub evict_i-Inodes :
        (s : Sys) (bs : List (Cell Bytes)) (x : Cell Inode) (is : List (Cell Inode))
        → IsSys last s bs (x ∷ is)
        → Inodes last s bs (x ∷ is) is tt (evict_i s)
    unfolding evict_i on_inodes
    evict_i-Inodes s bs x is v =
        let e = lru-Evicted s.inodes x is v.inodes in
        let (le, ok_x) = v.known x.num x (ground arith) in
        let c = record (s.inodes) { queue = e.queue; ht = e.ht; size = s.inodes.size - 1 } in
        let s₁ = record s { inodes = c } in
        let off = inode_offset x.num in
        let enc = env.encode_inode x.addr in
        let lt = in_table x.num le in
        let room : off + length enc ≤ env.block_size = omega (
          arith,
          (inode_offset-le x.num x.num layout.inode_size_pos layout.inode_size-le).0,
          layout.length-encode x.addr,
        ) in
        let w = get_b-Put s₁ bs (inode_block x.num) off enc v.blocks v.blocks_fit pos lt room in
        let freed_inodes : w.state.inodes ≡ c = ap {A = Sys} (λ z. z.inodes) w.others in
        let view = content bs s.disk in
        let view' = content w.cells w.state.disk in
        let find_tail : (i : ℕ) (y : Cell Inode) → find is i ≡ some y → find (x ∷ is) i ≡ some y =
          λ i y found. ground (arith, v.inodes.unique.0) in
        record {
          state = record (w.state) { inodes = e.freed.cache };
          cells = w.cells;
          returns = rw (
            e.dequeued,
            e.dropped,
            (in_table-int x.num le).0,
            (in_table-int x.num le).1,
            w.got,
            w.wrote,
            w.marked,
            freed_inodes,
            e.freed.returns,
            on_inodes,
            ◌>>=◌,
            ◌>>◌,
          );
          valid = record {
            blocks = w.valid;
            inodes = e.freed.valid;
            blocks_fit = w.fits;
            inodes_fit = omega (arith, v.inodes_fit);
            sized =
                λ b lt'. length-written layout view view' x.num x.addr w.contents v.sized b lt lt';
            known = λ i y found. v.known i y (find_tail i y found);
          };
          same = record {
            inodes = λ i i_le.
                evicted_content view view' x is i w.contents v.sized v.inodes.unique.0 ok_x le i_le;
            blocks = λ b behind b_lt.
                let apart : (inode_block x.num == b) ≡ false =
                  let order = inode_block_mono layout x.num last le in ground arith in
                w.contents b b_lt ∙ rw apart refl;
          };
          settled = λ on_disk. record {
            blocks = w.tracked on_disk.blocks;
            inodes = λ i y found d.
                evicted_clean view view' x is w.contents v.sized v.inodes.unique.0 le v.known
                  on_disk.inodes i y found d;
          };
          others = ap {A = Sys} (λ z. record z { inodes = e.freed.cache }) w.others;
        }
