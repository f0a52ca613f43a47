-- ===== src/Buffer/GetInode.antt =====
-- get_i, with what evict_i does to the inodes.
use model_lib.Prelude.{
  ℕ, ◌≤◌, ◌<◌, ◌≡◌, refl, sym, ap, ◌∙◌, inl, inr, none, some, Option-cases, Bool-cases, List, [],
  ◌∷◌, ◌++◌, true, false, ◌==◌, if◌then◌else◌, arith, length, drop,
}
use model_lib.Env.{Env, Bytes, null, Inode, IsLayout}
use model_lib.Queue.Seg.{Cell}
use model_lib.Cache
use model_lib.Cache.Cells.{find, at_of, addr_of, without, find-move, find-split, length-move}
use model_lib.Cache.Steps.{IsCache, query-find, touch-Stepped, ne_null}
use model_lib.Machine.{Sys, ok, on_inodes, ◌>>=◌, ◌>>◌}
use model_lib.Buffer.{inode_block, fetch_i, get_i}
use model_lib.Buffer.Evict.{content}
use model_lib.Buffer.Table.{inode_at}
use model_lib.Buffer.Inodes.{IsSys, evict_i-Inodes}
use model_lib.Buffer.LoadInode.{GotInode, GotInode-after, load_i-GotInode}

module _ ⦃env : Env⦄ where
  module _ (layout : IsLayout env) (last : ℕ) (table : inode_block last < env.num_sectors)
      (pos : 0 < env.block_cache_size) where
    -- a full cache loses its least recently used item
    abbrev pub make_room : List (Cell Inode) → List (Cell Inode)
    make_room is = if length is == env.inode_cache_size then drop 1 is else is

    fetch_i-GotInode :
        (s : Sys) (bs : List (Cell Bytes)) (is : List (Cell Inode)) (i : ℕ)
        → IsSys last s bs is
        → find is i ≡ none
        → i ≤ last
        → (is ≡ [] → env.fresh_next s.inodes.brk ≡ null)
        → 1 < env.inode_cache_size
        → GotInode last s bs is (make_room is) i (fetch_i i s)
    unfolding fetch_i
    fetch_i-GotInode s bs [] i v absent i_le clean two =
        let room : (s.inodes.size == env.inode_cache_size) ≡ false =
          ground (arith, v.inodes.counted) in
        let nonempty : (0 == env.inode_cache_size) ≡ false = ground arith in
        rw (room, nonempty)
          (load_i-GotInode layout last table pos s bs [] i v absent (omega (arith, two)) i_le clean)
    fetch_i-GotInode s bs (x ∷ is) i v absent i_le clean two =
        elim (Bool-cases (s.inodes.size == env.inode_cache_size)) [
          | inl full ↦
              let e = evict_i-Inodes layout last table pos s bs x is v in
              let all : (length (x ∷ is) == env.inode_cache_size) ≡ true =
                rw v.inodes.counted at full in
              let count : length (x ∷ is) ≡ env.inode_cache_size = ground arith in
              let some_left : is ≡ [] → env.fresh_next e.state.inodes.brk ≡ null =
                λ e. absurd (omega (arith, ap length e, count, two)) in
              let g =
                load_i-GotInode layout last table pos e.state e.cells is i e.valid (ground arith)
                  (omega (arith, v.inodes.counted, v.inodes_fit)) i_le some_left in
              rw (full, all, e.returns) (GotInode-after e.same e.settled e.others g)
          | inr room ↦
              let more : (length (x ∷ is) == env.inode_cache_size) ≡ false =
                rw v.inodes.counted at room in
              let lt : length (x ∷ is) < env.inode_cache_size =
                ground (arith, v.inodes_fit, more) in
              rw (room, more)
                (load_i-GotInode layout last table pos s bs (x ∷ is) i v absent lt i_le clean)
        ]

    query_i-find :
        (s : Sys) (is : List (Cell Inode)) (i : ℕ)
        → IsCache s.inodes is
        → on_inodes (Cache.query i) s ≡ ok (at_of (find is i)) s
    unfolding on_inodes
    query_i-find s is i v = rw (query-find s.inodes is i v, on_inodes)

    hit_i-GotInode :
        (s : Sys) (bs : List (Cell Bytes)) (ys : List (Cell Inode)) (x : Cell Inode)
        (zs : List (Cell Inode)) (i : ℕ)
        → IsSys last s bs (ys ++ x ∷ zs)
        → find (ys ++ x ∷ zs) i ≡ some x
        → x.num ≡ i
        → GotInode last s bs (ys ++ x ∷ zs) (ys ++ zs) i (get_i i s)
    unfolding get_i on_inodes
    hit_i-GotInode s bs ys x zs i v found num =
        let t = touch-Stepped false s.inodes ys x zs v.inodes in
        let q = s.inodes.queue in
        let ne = ne_null q.heap null q.q_first ys x zs null q.q_last v.inodes.queue.chain in
        let some_p : (x.at == null) ≡ false = ground arith in
        let moved = λ (j : ℕ). find-move ys x zs j v.inodes.unique in
        record {
          cell = x;
          step = record {
            state = record s { inodes = t.cache };
            cells = bs;
            returns = rw (
              query_i-find s (ys ++ x ∷ zs) i v.inodes,
              found,
              some_p,
              t.returns,
              get_i,
              on_inodes,
              ◌>>=◌,
              ◌>>◌,
            );
            valid = record {
              blocks = v.blocks;
              inodes = t.valid;
              blocks_fit = v.blocks_fit;
              inodes_fit = omega (arith, length-move ys x zs, v.inodes_fit);
              sized = v.sized;
              known = λ j c e. v.known j c (sym (moved j) ∙ e);
            };
            same = record {
              inodes = λ j j_le. ap (addr_of (inode_at (content bs s.disk) j)) (moved j);
              blocks = λ b behind lt. refl;
            };
            settled = λ on_disk. record {
              blocks = on_disk.blocks;
              inodes = λ j c e d. on_disk.inodes j c (sym (moved j) ∙ e) d;
            };
            others = refl;
          };
          num = num;
        }

    -- On two well-formed caches that are not over their sizes, with room for two inodes or more,
    -- get_i of a number of the table returns a pointer to the inode's item, which becomes the most
    -- recently used; only if the inode was not cached and the cache was full, the least recently
    -- used one leaves and is written to its block; the others keep their order; both caches stay
    -- well formed and within their sizes. What every inode of the table holds, in its cache, in
    -- its block or on the disk, stays the same, and so does what each block behind the table
    -- holds. Nothing but the caches and the disk is changed. If the inode cache is empty, malloc
    -- has to leave NULL in next_c_item. If before every item of the caches that is not dirty holds
    -- what is on the disk, or in the block of the inode, then so it is afterwards.
    pub get_i-GotInode :
        (s : Sys) (bs : List (Cell Bytes)) (is : List (Cell Inode)) (i : ℕ)
        → IsSys last s bs is
        → i ≤ last
        → (is ≡ [] → env.fresh_next s.inodes.brk ≡ null)
        → 1 < env.inode_cache_size
        → GotInode last s bs is
            (elim (find is i) [ none ↦ make_room is | some c ↦ without is i ])
            i
            (get_i i s)
    unfolding get_i
    get_i-GotInode s bs is i v i_le clean two = elim (Option-cases (find is i)) [
      | inl absent ↦
          rw (query_i-find s is i v.inodes, absent, get_i)
            (fetch_i-GotInode s bs is i v absent i_le clean two)
      | inr (x, found) ↦
          let (ys, zs, split, num, rest) = find-split is i x found in
          rw (found, rest, split)
            (hit_i-GotInode s bs ys x zs i (rw split at v) (rw split at found) num)
    ]
