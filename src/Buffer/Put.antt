-- ===== src/Buffer/Put.antt =====
-- Accesses to a cached block through the pointer that get_b returned.
use model_lib.Prelude.{
  refl, some_inj, inl, inr, Bool-cases, false, ℕ, ◌+◌, ◌≤◌, ◌<◌, ◌≡◌, sym, ap, ◌∙◌, some, List, [],
  ◌∷◌, ◌++◌, true, ◌==◌, leb, if◌then◌else◌, arith, length,
}
use model_lib.Env.{Env, Bytes, Ptr}
use model_lib.Queue.Seg.{Cell}
use model_lib.Cache
use model_lib.Cache.Cells.{
  find-change, Unique, find, addr_of, change, find-here, addr_of-change, length-change,
}
use model_lib.Cache.Steps.{IsCache}
use model_lib.Cache.Access.{get_addr-some, set_addr-Stepped, mark_dirty-Stepped}
use model_lib.Machine.{Sys, Run, ok, on_blocks, ◌>>=◌}
use model_lib.Buffer.{splice, slice, read_block, write_block, mark_b_dirty, get_b}
use model_lib.Buffer.Evict.{Tracked, content}
use model_lib.Buffer.Blocks.{Got, get_b-Got}

module _ ⦃env : Env⦄ where
  abbrev pub with_blocks : Sys → Cache.Cache Bytes → Sys
  with_blocks s c = record s { blocks = c }

  -- a step that changed the block cache only
  pub record Accessed (s : Sys) (xs : List (Cell Bytes)) (run : Run (Unit {0})) : Type 0 where
    pub cache : Cache.Cache Bytes
    pub returns : run ≡ ok tt (with_blocks s cache)
    pub valid : IsCache cache xs

  module _ (s : Sys) (ys : List (Cell Bytes)) (x : Cell Bytes) (zs : List (Cell Bytes))
      (v : IsCache s.blocks (ys ++ x ∷ zs)) where
    pub read_block-slice :
        (off n : ℕ) → off + n ≤ env.block_size → read_block x.at off n s ≡ ok (slice off n x.addr) s
    unfolding read_block on_blocks
    read_block-slice off n le =
        let within : leb (off + n) env.block_size ≡ true = ground arith in
        rw (within, get_addr-some s.blocks ys x zs v, read_block, on_blocks, ◌>>=◌)

    pub write_block-Accessed :
        (off : ℕ) (new : Bytes)
        → off + length new ≤ env.block_size
        → Accessed s
            (ys ++ change x x.dirty (splice off new x.addr) ∷ zs)
            (write_block x.at off new s)
    unfolding write_block on_blocks
    write_block-Accessed off new le =
        let within : leb (off + length new) env.block_size ≡ true = ground arith in
        let w = set_addr-Stepped s.blocks ys x zs v (splice off new x.addr) in
        record {
          cache = w.cache;
          returns =
              rw (
                within,
                get_addr-some s.blocks ys x zs v,
                w.returns,
                write_block,
                on_blocks,
                ◌>>=◌,
              );
          valid = w.valid;
        }

    pub mark_b_dirty-Accessed : Accessed s (ys ++ change x true x.addr ∷ zs) (mark_b_dirty x.num s)
    unfolding mark_b_dirty on_blocks
    mark_b_dirty-Accessed =
        let w = mark_dirty-Stepped s.blocks ys x zs v in
        record {
          cache = w.cache;
          returns = rw (w.returns, mark_b_dirty, on_blocks);
          valid = w.valid;
        }

  -- The three steps that replace a piece of a block: get_b, a write, and the dirty flag.
  pub record Put (s : Sys) (xs : List (Cell Bytes)) (b off : ℕ) (new : Bytes) : Type 0 where
    pub p : Ptr
    pub s₁ : Sys
    pub s₂ : Sys
    pub state : Sys
    pub cells : List (Cell Bytes)
    pub got : get_b b s ≡ ok p s₁
    pub got_others : s₁ ≡ record s { blocks = s₁.blocks; disk = s₁.disk }
    pub wrote : write_block p off new s₁ ≡ ok tt s₂
    pub marked : mark_b_dirty b s₂ ≡ ok tt state
    pub valid : IsCache state.blocks cells
    pub fits : length cells ≤ env.block_cache_size
    pub contents :
        (k : ℕ)
        → k < env.num_sectors
        → content cells state.disk k
          ≡ (if b == k then splice off new (content xs s.disk b) else content xs s.disk k)
    pub tracked : Tracked s xs → Tracked state cells
    pub others : state ≡ record s { blocks = state.blocks; disk = state.disk }

  Tracked-change :
      (s : Sys) (ys : List (Cell Bytes)) (x : Cell Bytes) (new : Bytes)
      → Unique (ys ++ x ∷ [])
      → Tracked s (ys ++ x ∷ [])
      → Tracked s (ys ++ change x true new ∷ [])
  Tracked-change s ys x new u clean b c lt found d = elim (Bool-cases (x.num == b)) [
    | inl e ↦
        let here : change x true new ≡ c =
          some_inj (sym (find-change x true new ys [] b u ∙ rw e refl) ∙ found) in
        let dirty : true ≡ false = ap (λ (z : Cell Bytes). z.dirty) here ∙ d in
        absurd (ground (arith, dirty))
    | inr e ↦ clean b c lt (sym (find-change x true new ys [] b u ∙ rw e refl) ∙ found) d
  ]

  -- the block that get_b returned holds what it held
  pub Got-addr :
      (s : Sys) (xs before : List (Cell Bytes)) (b : ℕ) (run : Run Ptr) (g : Got s xs before b run)
      → b < env.num_sectors
      → g.last.addr ≡ content xs s.disk b
  Got-addr s xs before b run g lt =
      let x = g.last in
      let found : find (before ++ x ∷ []) b ≡ some x =
        ap (find (before ++ x ∷ [])) (sym g.num) ∙ find-here before x [] g.step.valid.unique in
      sym (ap (addr_of (g.step.state.disk b)) found) ∙ g.step.same b lt

  Got-Put :
      (s : Sys) (xs ys : List (Cell Bytes)) (b off : ℕ) (new : Bytes)
      → Got s xs ys b (get_b b s)
      → b < env.num_sectors
      → off + length new ≤ env.block_size
      → Put s xs b off new
  Got-Put s xs ys b off new g lt room =
      let x = g.last in
      let w = write_block-Accessed g.step.state ys x [] g.step.valid off new room in
      let x₁ = change x x.dirty (splice off new x.addr) in
      let s₂ = with_blocks g.step.state w.cache in
      let m = mark_b_dirty-Accessed s₂ ys x₁ [] w.valid in
      let held = Got-addr s xs ys b (get_b b s) g lt in
      record {
        p = x.at;
        s₁ = g.step.state;
        s₂ = s₂;
        state = with_blocks s₂ m.cache;
        cells = ys ++ change x₁ true x₁.addr ∷ [];
        got = g.step.returns;
        got_others = g.step.others;
        wrote = w.returns;
        marked = rw g.num at m.returns;
        valid = m.valid;
        fits =
            rw (length-change x₁ true x₁.addr ys [], length-change x x.dirty x₁.addr ys []) g.fits;
        contents = λ k k_lt. ground (
          arith,
          g.num,
          held,
          addr_of-change x₁ true x₁.addr ys [] k (g.step.state.disk k) w.valid.unique,
          addr_of-change x x.dirty x₁.addr ys [] k (g.step.state.disk k) g.step.valid.unique,
          g.step.same k k_lt,
        );
        tracked = λ clean.
            Tracked-change g.step.state ys x x₁.addr g.step.valid.unique (g.step.tracked clean);
        others =
            ap {A = Sys} (λ z. record z { blocks = m.cache; disk = g.step.state.disk })
              g.step.others;
      }

  pub get_b-Put :
      (s : Sys) (xs : List (Cell Bytes)) (b off : ℕ) (new : Bytes)
      → IsCache s.blocks xs
      → length xs ≤ env.block_cache_size
      → 0 < env.block_cache_size
      → b < env.num_sectors
      → off + length new ≤ env.block_size
      → Put s xs b off new
  get_b-Put s xs b off new v le pos lt room =
      Got-Put s xs _ b off new (get_b-Got s xs b v le pos) lt room
