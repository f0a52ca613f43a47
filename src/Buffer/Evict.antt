-- ===== src/Buffer/Evict.antt =====
-- What a block holds, in the cache or on the disk, and evict_b on the list of the cached blocks, from
-- the least to the most recently used.
use model_lib.Prelude.{
  ℕ, ◌<◌, ◌≡◌, refl, ◌∙◌, inl, inr, some, Bool-cases, List, ◌∷◌, false, ◌==◌, ltb, arith,
}
use model_lib.Env.{Env, Bytes}
use model_lib.Queue.Seg.{Cell}
use model_lib.Cache.Cells.{find, addr_of}
use model_lib.Cache.Steps.{IsCache, lru-Evicted}
use model_lib.Machine.{Sys, Run, ok, on_blocks, write_sector, update, ◌>>=◌, ◌>>◌}
use model_lib.Buffer.{evict_b}

-- what a block holds
abbrev pub content : List (Cell Bytes) → (ℕ → Bytes) → ℕ → Bytes
content xs disk b = addr_of (disk b) (find xs b)

module _ ⦃env : Env⦄ where
  abbrev pub SameContent : (s s' : Sys) → (xs xs' : List (Cell Bytes)) → Type 0
  SameContent s s' xs xs' =
      (b : ℕ) → b < env.num_sectors → content xs' s'.disk b ≡ content xs s.disk b

  -- the disk holds what the blocks hold
  abbrev pub Synced : Sys → List (Cell Bytes) → Type 0
  Synced s xs = (b : ℕ) → b < env.num_sectors → s.disk b ≡ content xs s.disk b

  -- An item that is not dirty holds what is on the disk.
  abbrev pub Tracked : Sys → List (Cell Bytes) → Type 0
  Tracked s xs =
      (b : ℕ) (c : Cell Bytes)
      → b < env.num_sectors
      → find xs b ≡ some c
      → c.dirty ≡ false
      → c.addr ≡ s.disk b

  -- a step that changed at most the block cache and the disk
  pub record Blocks {R : Type 0} (s : Sys) (xs xs' : List (Cell Bytes)) (r : R) (run : Run R)
      : Type 0 where
    pub state : Sys
    pub returns : run ≡ ok r state
    pub valid : IsCache state.blocks xs'
    pub same : SameContent s state xs xs'
    pub synced : Synced s xs → Synced state xs'
    pub tracked : Tracked s xs → Tracked state xs'
    pub others : state ≡ record s { blocks = state.blocks; disk = state.disk }

  pub evict_b-Blocks :
      (s : Sys) (x : Cell Bytes) (xs : List (Cell Bytes))
      → IsCache s.blocks (x ∷ xs)
      → Blocks s (x ∷ xs) xs tt (evict_b s)
  unfolding evict_b on_blocks write_sector
  evict_b-Blocks s x xs v =
      let e = lru-Evicted s.blocks x xs v in
      elim (Bool-cases (ltb x.num env.num_sectors)) [
        | inl inside ↦ record {
          state = record s { blocks = e.freed.cache; disk = update s.disk x.num x.addr };
          returns =
              rw (e.dequeued, inside, e.dropped, e.freed.returns, on_blocks, ◌>>=◌, ◌>>◌)
                (rw inside refl);
          valid = e.freed.valid;
          same = λ b lt. ground (arith, v.unique.0);
          synced = λ on_disk b lt. ground (arith, v.unique.0, on_disk b lt);
          tracked = λ clean b c lt found d.
              let apart : (x.num == b) ≡ false = ground (arith, v.unique.0, found) in
              let there : find (x ∷ xs) b ≡ some c = rw apart found in
              let other : s.disk b ≡ update s.disk x.num x.addr b = ground (arith, apart) in
              clean b c lt there d ∙ other;
          others = refl;
        }
        | inr outside ↦ record {
          state = record s { blocks = e.freed.cache };
          returns =
              rw (e.dequeued, outside, e.dropped, e.freed.returns, on_blocks, ◌>>=◌, ◌>>◌)
                (rw outside refl);
          valid = e.freed.valid;
          same = λ b lt. ground arith;
          synced = λ on_disk b lt. ground (arith, on_disk b lt);
          tracked = λ clean b c lt found d.
              let apart : (x.num == b) ≡ false = ground (arith, lt, outside) in
              let there : find (x ∷ xs) b ≡ some c = rw apart found in clean b c lt there d;
          others = refl;
        }
      ]
