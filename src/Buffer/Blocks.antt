-- ===== src/Buffer/Blocks.antt =====
-- get_b on the list of the cached blocks, from the least to the most recently used: what a block
-- holds, in the cache or on the disk, stays the same.
use model_lib.Prelude.{
  some_inj, ℕ, ◌≤◌, ◌<◌, ◌≡◌, refl, sym, ap, ◌∙◌, inl, inr, none, some, Option-cases, Bool-cases,
  List, [], ◌∷◌, ◌++◌, true, false, ◌==◌, ltb, if◌then◌else◌, arith, length, drop, length-append,
}
use model_lib.Env.{Env, Bytes, Ptr, null}
use model_lib.Queue.{CacheItem}
use model_lib.Queue.Seg.{Cell}
use model_lib.Queue.Moves.{cell_of}
use model_lib.Cache
use model_lib.Cache.{Cache}
use model_lib.Cache.Cells.{
  find, at_of, addr_of, without, find-move, find-snoc, find-split, length-move,
}
use model_lib.Cache.Steps.{IsCache, query-find, touch-Stepped, add-Stepped, ne_null}
use model_lib.Machine.{Sys, Run, ok, on_blocks, read_sector, ◌>>=◌, ◌>>◌}
use model_lib.Buffer.{fetch_b, get_b}
use model_lib.Buffer.Evict.{SameContent, Synced, Tracked, Blocks, evict_b-Blocks}

module _ ⦃env : Env⦄ where
  -- What get_b promises: a pointer to the block's item, which is now the most recently used,
  -- behind the items `before`; the cache holds no more items than it may.
  pub record Got (s : Sys) (xs before : List (Cell Bytes)) (b_num : ℕ) (run : Run Ptr)
      : Type 0 where
    pub last : Cell Bytes
    pub step : Blocks s xs (before ++ last ∷ []) last.at run
    pub num : last.num ≡ b_num
    pub fits : length (before ++ last ∷ []) ≤ env.block_cache_size

  abbrev new_item : ℕ → Bytes → Ptr → CacheItem Bytes
  new_item b_num block p = record {
    c_item_num = b_num;
    dirty = false;
    addr = block;
    prev_c_item = env.fresh_next p;
    next_c_item = env.fresh_next p;
  }

  abbrev sector_of : Sys → ℕ → Bytes
  sector_of s b_num =
      if ltb b_num env.num_sectors then s.disk b_num else env.fresh_block s.blocks.brk

  Tracked-snoc :
      (s : Sys) (xs : List (Cell Bytes)) (b_num : ℕ) (p : Ptr)
      → find xs b_num ≡ none
      → Tracked s xs
      → Tracked s (xs ++ cell_of p (new_item b_num (sector_of s b_num) p) ∷ [])
  Tracked-snoc s xs b_num p absent clean b c lt found d =
      let x = cell_of p (new_item b_num (sector_of s b_num) p) in
      elim (Bool-cases (b_num == b)) [
        | inl e ↦
            let same : x ≡ c = some_inj (sym (find-snoc xs x b absent ∙ rw e refl) ∙ found) in
            let inside : sector_of s b_num ≡ s.disk b = ground (arith, lt) in
            sym (ap (λ (z : Cell Bytes). z.addr) same) ∙ inside
        | inr e ↦ clean b c lt (sym (find-snoc xs x b absent ∙ rw e refl) ∙ found) d
      ]

  -- the end of fetch_b, with room in the cache
  load_b-Got :
      (s : Sys) (xs : List (Cell Bytes)) (b_num : ℕ)
      → IsCache s.blocks xs
      → find xs b_num ≡ none
      → length xs < env.block_cache_size
      → Got s xs xs b_num
          (on_blocks (Cache.add true (new_item b_num (sector_of s b_num) s.blocks.brk)) s)
  unfolding on_blocks
  load_b-Got s xs b_num v absent room =
      let it = new_item b_num (sector_of s b_num) s.blocks.brk in
      let a = add-Stepped true s.blocks xs it v absent (λ e f. cc) in
      record {
        last = cell_of s.blocks.brk it;
        step = record {
          state = record s { blocks = a.cache };
          returns = rw (a.returns, on_blocks);
          valid = a.valid;
          same = λ b lt. ground (arith, find-snoc xs (cell_of s.blocks.brk it) b absent);
          synced = λ on_disk b lt.
              ground (arith, on_disk b lt, find-snoc xs (cell_of s.blocks.brk it) b absent);
          tracked = λ clean. Tracked-snoc s xs b_num s.blocks.brk absent clean;
          others = refl;
        };
        num = refl;
        fits = omega (arith, length-append xs (cell_of s.blocks.brk it ∷ []));
      }

  Got-after :
      {s s₁ : Sys} {xs xs₁ ys : List (Cell Bytes)} {b_num : ℕ} {run : Run Ptr}
      → SameContent s s₁ xs xs₁
      → (Synced s xs → Synced s₁ xs₁)
      → (Tracked s xs → Tracked s₁ xs₁)
      → s₁ ≡ record s { blocks = s₁.blocks; disk = s₁.disk }
      → Got s₁ xs₁ ys b_num run
      → Got s xs ys b_num run
  Got-after same synced tracked others g = record {
    last = g.last;
    step = record {
      state = g.step.state;
      returns = g.step.returns;
      valid = g.step.valid;
      same = λ b lt. g.step.same b lt ∙ same b lt;
      synced = λ on_disk. g.step.synced (synced on_disk);
      tracked = λ clean. g.step.tracked (tracked clean);
      others =
          g.step.others
          ∙ ap {A = Sys} (λ z. record z { blocks = g.step.state.blocks; disk = g.step.state.disk })
              others;
    };
    num = g.num;
    fits = g.fits;
  }

  -- a full cache loses its least recently used item
  abbrev pub make_room : List (Cell Bytes) → List (Cell Bytes)
  make_room xs = if length xs == env.block_cache_size then drop 1 xs else xs

  fetch_b-Got :
      (s : Sys) (xs : List (Cell Bytes)) (b_num : ℕ)
      → IsCache s.blocks xs
      → find xs b_num ≡ none
      → length xs ≤ env.block_cache_size
      → 0 < env.block_cache_size
      → Got s xs (make_room xs) b_num (fetch_b b_num s)
  unfolding fetch_b read_sector
  fetch_b-Got s [] b_num v absent le pos =
      let room : (s.blocks.size == env.block_cache_size) ≡ false = ground (arith, v.counted) in
      let nonempty : (0 == env.block_cache_size) ≡ false = ground arith in
      rw (room, nonempty) (load_b-Got s [] b_num v absent pos)
  fetch_b-Got s (x ∷ xs) b_num v absent le pos =
      elim (Bool-cases (s.blocks.size == env.block_cache_size)) [
        | inl full ↦
            let e = evict_b-Blocks s x xs v in
            let g =
              load_b-Got e.state xs b_num e.valid (ground arith) (omega (arith, v.counted, le)) in
            let all : (length (x ∷ xs) == env.block_cache_size) ≡ true = rw v.counted at full in
            rw (full, all, e.returns) (Got-after e.same e.synced e.tracked e.others g)
        | inr room ↦
            let some_left : (length (x ∷ xs) == env.block_cache_size) ≡ false =
              rw v.counted at room in
            rw (room, some_left) (load_b-Got s (x ∷ xs) b_num v absent (ground (arith, v.counted)))
      ]

  query_b-find :
      (s : Sys) (xs : List (Cell Bytes)) (b_num : ℕ)
      → IsCache s.blocks xs
      → on_blocks (Cache.query b_num) s ≡ ok (at_of (find xs b_num)) s
  unfolding on_blocks
  query_b-find s xs b_num v = rw (query-find s.blocks xs b_num v, on_blocks)

  hit_b-Got :
      (s : Sys) (ys : List (Cell Bytes)) (x : Cell Bytes) (zs : List (Cell Bytes)) (b_num : ℕ)
      → IsCache s.blocks (ys ++ x ∷ zs)
      → find (ys ++ x ∷ zs) b_num ≡ some x
      → x.num ≡ b_num
      → length (ys ++ x ∷ zs) ≤ env.block_cache_size
      → Got s (ys ++ x ∷ zs) (ys ++ zs) b_num (get_b b_num s)
  unfolding get_b on_blocks
  hit_b-Got s ys x zs b_num v found num le =
      let t = touch-Stepped true s.blocks ys x zs v in
      let q = s.blocks.queue in
      let ne = ne_null q.heap null q.q_first ys x zs null q.q_last v.queue.chain in
      let some_p : (x.at == null) ≡ false = ground arith in
      record {
        last = x;
        step = record {
          state = record s { blocks = t.cache };
          returns = rw (
            query_b-find s (ys ++ x ∷ zs) b_num v,
            found,
            some_p,
            t.returns,
            get_b,
            on_blocks,
            ◌>>=◌,
            ◌>>◌,
          );
          valid = t.valid;
          same = λ b lt. ap (addr_of (s.disk b)) (find-move ys x zs b v.unique);
          synced = λ on_disk b lt.
              on_disk b lt ∙ sym (ap (addr_of (s.disk b)) (find-move ys x zs b v.unique));
          tracked =
              λ clean b c lt found d. clean b c lt (sym (find-move ys x zs b v.unique) ∙ found) d;
          others = refl;
        };
        num = num;
        fits = omega (arith, length-move ys x zs);
      }

  -- On a well-formed block cache that is not over its size, get_b returns a pointer to the block's
  -- item, which becomes the most recently used; only if the block was not cached and the cache was
  -- full, the least recently used item leaves; the others keep their order; the cache stays well formed
  -- and within its size; what every block of the disk holds, in the cache or on the disk, stays the same,
  -- also where a block is evicted; if before no item that is not dirty differs from the disk, then none
  -- does afterwards; and nothing but the block cache and the disk is changed.
  pub get_b-Got :
      (s : Sys) (xs : List (Cell Bytes)) (b_num : ℕ)
      → IsCache s.blocks xs
      → length xs ≤ env.block_cache_size
      → 0 < env.block_cache_size
      → Got s xs
          (elim (find xs b_num) [ none ↦ make_room xs | some c ↦ without xs b_num ])
          b_num
          (get_b b_num s)
  unfolding get_b
  get_b-Got s xs b_num v le pos = elim (Option-cases (find xs b_num)) [
    | inl absent ↦
        rw (query_b-find s xs b_num v, absent, get_b) (fetch_b-Got s xs b_num v absent le pos)
    | inr (x, found) ↦
        let (ys, zs, split, num, rest) = find-split xs b_num x found in
        rw (found, rest, split)
          (hit_b-Got s ys x zs b_num (rw split at v) (rw split at found) num (rw split at le))
  ]
