-- ===== src/Buffer/LoadInode.antt =====
-- What get_i promises, and the end of fetch_i, with room in the cache.
use model_lib.Prelude.{
  some_inj, ℕ, ◌≤◌, ◌<◌, ◌≡◌, refl, sym, ap, ◌∙◌, inl, inr, none, some, Bool-cases, List, [], ◌∷◌,
  ◌++◌, true, false, ◌==◌, arith, length, length-append,
}
use model_lib.Env.{Env, Bytes, Ptr, null, Inode, IsLayout}
use model_lib.Queue.{CacheItem}
use model_lib.Queue.Seg.{Cell}
use model_lib.Queue.Moves.{cell_of}
use model_lib.Cache
use model_lib.Cache.Cells.{find, addr_of, find-snoc}
use model_lib.Cache.Steps.{add-Stepped}
use model_lib.Machine.{get, Sys, Run, M, on_inodes, ◌>>=◌}
use model_lib.Buffer.{slice, get_b, read_block, inode_block, inode_offset, item_block, item_offset}
use model_lib.Buffer.Slots.{inode_offset-le}
use model_lib.Buffer.Evict.{content, Blocks}
use model_lib.Buffer.Blocks.{get_b-Got}
use model_lib.Buffer.Put.{Got-addr, read_block-slice}
use model_lib.Buffer.Table.{inode_at}
use model_lib.Buffer.Inodes.{
  IsSys, SameFiles, IsSettled, CleanInodes, Inodes, in_table, in_table-int,
}

module _ ⦃env : Env⦄ where
  -- What get_i promises: a pointer to the inode's item, which is now the most recently used, behind
  -- the items `before`.
  pub record GotInode (last : ℕ) (s : Sys) (bs : List (Cell Bytes)) (is before : List (Cell Inode))
      (i : ℕ) (run : Run Ptr) : Type 0 where
    pub cell : Cell Inode
    pub step : Inodes last s bs is (before ++ cell ∷ []) cell.at run
    pub num : cell.num ≡ i

  pub GotInode-after :
      {last : ℕ} {s s₁ : Sys} {bs bs₁ : List (Cell Bytes)} {is is₁ ys : List (Cell Inode)} {i : ℕ}
      {run : Run Ptr}
      → SameFiles last s s₁ bs bs₁ is is₁
      → (IsSettled s bs is → IsSettled s₁ bs₁ is₁)
      → s₁ ≡ record s { blocks = s₁.blocks; inodes = s₁.inodes; disk = s₁.disk }
      → GotInode last s₁ bs₁ is₁ ys i run
      → GotInode last s bs is ys i run
  GotInode-after same settled others g = record {
    cell = g.cell;
    step = record {
      state = g.step.state;
      cells = g.step.cells;
      returns = g.step.returns;
      valid = g.step.valid;
      same = record {
        inodes = λ i le. g.step.same.inodes i le ∙ same.inodes i le;
        blocks = λ b behind lt. g.step.same.blocks b behind lt ∙ same.blocks b behind lt;
      };
      settled = λ on_disk. g.step.settled (settled on_disk);
      others =
          g.step.others
          ∙ ap {A = Sys}
              (λ z. record z {
                blocks = g.step.state.blocks;
                inodes = g.step.state.inodes;
                disk = g.step.state.disk;
              })
              others;
    };
    num = g.num;
  }

  abbrev Known : ℕ → List (Cell Inode) → Type 0
  Known last is =
      (i : ℕ) (c : Cell Inode) → find is i ≡ some c → (i ≤ last) × (env.fits c.addr ≡ true)

  Known-snoc :
      (last : ℕ) (is : List (Cell Inode)) (x : Cell Inode)
      → find is x.num ≡ none
      → x.num ≤ last
      → env.fits x.addr ≡ true
      → Known last is
      → Known last (is ++ x ∷ [])
  Known-snoc last is x absent le ok_x known i c found = elim (Bool-cases (x.num == i)) [
    | inl e ↦
        let num : x.num ≡ i = ground arith in
        let same : x ≡ c = some_inj (sym (find-snoc is x i absent ∙ rw e refl) ∙ found) in
        (omega (arith, num, le), ap (λ (z : Cell Inode). env.fits z.addr) (sym same) ∙ ok_x)
    | inr e ↦ known i c (sym (find-snoc is x i absent ∙ rw e refl) ∙ found)
  ]

  -- an inode that was read from its block is the one of the table
  CleanInodes-snoc :
      (last : ℕ) (view view' : ℕ → Bytes) (is : List (Cell Inode)) (x : Cell Inode)
      → find is x.num ≡ none
      → Known last is
      → ((i : ℕ) → i ≤ last → inode_at view' i ≡ inode_at view i)
      → x.num ≤ last
      → x.addr ≡ inode_at view x.num
      → CleanInodes is view
      → CleanInodes (is ++ x ∷ []) view'
  CleanInodes-snoc last view view' is x absent known same le read clean i c found d =
      elim (Bool-cases (x.num == i)) [
        | inl e ↦
            let num : x.num ≡ i = ground arith in
            let here : x ≡ c = some_inj (sym (find-snoc is x i absent ∙ rw e refl) ∙ found) in
            sym (ap (λ (z : Cell Inode). z.addr) here)
            ∙ read
            ∙ sym (same x.num le)
            ∙ ap (inode_at view') num
        | inr e ↦
            let there : find is i ≡ some c = sym (find-snoc is x i absent ∙ rw e refl) ∙ found in
            clean i c there d ∙ sym (same i (known i c there).0)
      ]

  abbrev new_inode : ℕ → Bytes → Ptr → CacheItem Inode
  new_inode i_num bytes p = record {
    c_item_num = i_num;
    dirty = env.fresh_dirty p;
    addr = env.decode_inode bytes;
    prev_c_item = env.fresh_next p;
    next_c_item = env.fresh_next p;
  }

  -- the end of fetch_i, with room in the cache
  abbrev load_i : ℕ → M Ptr
  load_i i_num = do
    b_addr ← get_b (item_block i_num)
    bytes ← read_block b_addr (item_offset i_num) env.inode_size
    s' ← get
    on_inodes (Cache.add false (new_inode i_num bytes s'.inodes.brk))

  module _ (layout : IsLayout env) (last : ℕ) (table : inode_block last < env.num_sectors)
      (pos : 0 < env.block_cache_size) where
    CleanInodes-step :
        {R : Type 0} {bs bs' : List (Cell Bytes)} {r : R} {run : Run R} (s : Sys)
        (st : Blocks s bs bs' r run) (is : List (Cell Inode)) (x : Cell Inode)
        → find is x.num ≡ none
        → Known last is
        → x.num ≤ last
        → x.addr ≡ inode_at (content bs s.disk) x.num
        → CleanInodes is (content bs s.disk)
        → CleanInodes (is ++ x ∷ []) (content bs' st.state.disk)
    CleanInodes-step {bs = bs} {bs' = bs'} s st is x absent known =
        CleanInodes-snoc last (content bs s.disk) (content bs' st.state.disk) is x absent known
          λ j le.
            ap (λ t. env.decode_inode (slice (inode_offset j) env.inode_size t))
              (st.same (inode_block j) (in_table layout last table pos j le))

    pub load_i-GotInode :
        (s : Sys) (bs : List (Cell Bytes)) (is : List (Cell Inode)) (i : ℕ)
        → IsSys last s bs is
        → find is i ≡ none
        → length is < env.inode_cache_size
        → i ≤ last
        → (is ≡ [] → env.fresh_next s.inodes.brk ≡ null)
        → GotInode last s bs is is i (load_i i s)
    unfolding on_inodes
    load_i-GotInode s bs is i v absent room i_le clean =
        let b = inode_block i in
        let lt = in_table layout last table pos i i_le in
        let off = inode_offset i in
        let (at_block, at_offset) = in_table-int layout last table pos i i_le in
        let g = get_b-Got s bs b v.blocks v.blocks_fit pos in
        let s₁ = g.step.state in
        let within = (inode_offset-le i i layout.inode_size_pos layout.inode_size-le).0 in
        let bytes = slice off env.inode_size g.last.addr in
        let read = read_block-slice s₁ _ g.last [] g.step.valid off env.inode_size within in
        let it = new_inode i bytes s.inodes.brk in
        let a = add-Stepped false s.inodes is it v.inodes absent (λ e _. clean e) in
        let same_inodes : s₁.inodes ≡ s.inodes = ap {A = Sys} (λ z. z.inodes) g.step.others in
        let held = Got-addr s bs _ b _ g lt in
        let cell = cell_of s.inodes.brk it in
        let view = content bs s.disk in
        record {
          cell = cell;
          step = record {
            state = record s₁ { inodes = a.cache };
            cells = _;
            returns = rw (
              at_block, at_offset, g.step.returns, read, same_inodes, a.returns, on_inodes, ◌>>=◌,
            );
            valid = record {
              blocks = g.step.valid;
              inodes = a.valid;
              blocks_fit = g.fits;
              inodes_fit = omega (arith, room, length-append is (cell ∷ []));
              sized = λ k k_lt. ap length (g.step.same k k_lt) ∙ v.sized k k_lt;
              known = Known-snoc last is cell absent i_le (layout.fits-decode bytes) v.known;
            };
            same = record {
              inodes = λ j j_le.
                  let k = inode_block j in
                  let same_at =
                    ap (λ t. env.decode_inode (slice (inode_offset j) env.inode_size t))
                      (g.step.same k (in_table layout last table pos j j_le)) in
                  let snoc = find-snoc is cell j absent in
                  elim (Bool-cases (i == j)) [
                    | inl e ↦
                        let at_j : i ≡ j = ground arith in
                        let gone : find is j ≡ none = rw at_j at absent in
                        let here : find (is ++ cell ∷ []) j ≡ some cell = snoc ∙ rw e refl in
                        rw (here, gone)
                          (ap (λ t. env.decode_inode (slice off env.inode_size t)) held
                            ∙ ap (inode_at view) at_j)
                    | inr e ↦
                        let there : find (is ++ cell ∷ []) j ≡ find is j = snoc ∙ rw e refl in
                        rw there (ap (λ z. addr_of z (find is j)) same_at)
                  ];
              blocks = λ k behind k_lt. g.step.same k k_lt;
            };
            settled = λ on_disk. record {
              blocks = g.step.tracked on_disk.blocks;
              inodes =
                  CleanInodes-step s g.step is cell absent v.known i_le
                    (ap (λ t. env.decode_inode (slice off env.inode_size t)) held) on_disk.inodes;
            };
            others = ap {A = Sys} (λ z. record z { inodes = a.cache }) g.step.others;
          };
          num = refl;
        }
