-- ===== src/File/Locate.antt =====
-- get_nth_b on a file that it does not extend: the number of the block, with the contents of all
-- blocks unchanged.
use native.Mathlib.Nat.{div-mul-le_self, mul-le-mul_right}
use model_lib.Prelude.{
  ℕ, ◌+◌, ◌-◌, ◌*◌, ◌/◌, ◌≤◌, ◌<◌, ◌≡◌, refl, ap, ◌∙◌, inl, inr, some, Bool-cases, List, [], ◌∷◌,
  ◌++◌, Bool, false, ◌&&◌, leb, ltb, arith, length, get_or,
}
use model_lib.Env.{Env, Bytes, Ptr, Inode}
use model_lib.Queue.Seg.{Cell}
use model_lib.Cache
use model_lib.Cache.Steps.{IsCache}
use model_lib.Machine.{Sys, Run, ok, on_inodes, ◌>>=◌, ◌>>◌}
use model_lib.Buffer.{slice, get_b, read_block, read_inode}
use model_lib.Buffer.Slots.{slot-lt}
use model_lib.Buffer.Evict.{content, SameContent, Tracked}
use model_lib.Buffer.Blocks.{Got, get_b-Got}
use model_lib.Buffer.Put.{Got-addr, read_block-slice}
use model_lib.File.{get_nth_b, locate_b, direct_b, indirect_b, read_indirect, max_blocks}
use model_lib.File.Contents.{block_of}

-- the item at `p` holds this inode
abbrev pub Held : Ptr → Inode → Sys → Type 0
Held p inode s = Cache.get_addr p s.inodes ≡ some (inode, s.inodes)

pub Held-others :
    (p : Ptr) (inode : Inode) (s s' : Sys) → s'.inodes ≡ s.inodes → Held p inode s → Held p inode s'
Held-others p inode s s' same held = rw same held

module _ ⦃env : Env⦄ where
  -- The block cache holds these items and is not over its size.
  pub record Cached (s : Sys) (xs : List (Cell Bytes)) : Type 0 where
    pub cache : IsCache s.blocks xs
    pub fits : length xs ≤ env.block_cache_size
    pub room : 0 < env.block_cache_size

  -- a step that changed at most the block cache and the disk, and not what a block holds
  pub record Quiet {R : Type 0} (s : Sys) (xs : List (Cell Bytes)) (r : R) (run : Run R)
      : Type 0 where
    pub state : Sys
    pub cells : List (Cell Bytes)
    pub returns : run ≡ ok r state
    pub valid : Cached state cells
    pub same : SameContent s state xs cells
    pub tracked : Tracked s xs → Tracked state cells
    pub others : state ≡ record s { blocks = state.blocks; disk = state.disk }

  pub stay :
      {R : Type 0} (s : Sys) (xs : List (Cell Bytes)) (r : R) → Cached s xs → Quiet s xs r (ok r s)
  stay s xs r v = record {
    state = s;
    cells = xs;
    returns = refl;
    valid = v;
    same = λ b lt. refl;
    tracked = λ on_disk. on_disk;
    others = refl;
  }

  pub read_inode-Held :
      (p : Ptr) (inode : Inode) (s : Sys) → Held p inode s → read_inode p s ≡ ok inode s
  unfolding read_inode on_inodes
  read_inode-Held p inode s held = rw (held, read_inode, on_inodes)

  -- a piece of a block, with get_b and a read through its pointer
  pub record Piece (s : Sys) (xs : List (Cell Bytes)) (b off n : ℕ) : Type 0 where
    pub p : Ptr
    pub quiet : Quiet s xs p (get_b b s)
    pub read : read_block p off n quiet.state ≡ ok (slice off n (content xs s.disk b)) quiet.state

  Got-Piece :
      (s : Sys) (xs ys : List (Cell Bytes)) (b off n : ℕ)
      → Cached s xs
      → Got s xs ys b (get_b b s)
      → b < env.num_sectors
      → off + n ≤ env.block_size
      → Piece s xs b off n
  Got-Piece s xs ys b off n v g lt within = record {
    p = g.last.at;
    quiet = record {
      state = g.step.state;
      cells = ys ++ g.last ∷ [];
      returns = g.step.returns;
      valid = record { cache = g.step.valid; fits = g.fits; room = v.room };
      same = g.step.same;
      tracked = g.step.tracked;
      others = g.step.others;
    };
    read =
        read_block-slice g.step.state ys g.last [] g.step.valid off n within
        ∙ ap (λ t. ok (slice off n t) g.step.state) (Got-addr s xs ys b (get_b b s) g lt);
  }

  pub get_b-Piece :
      (s : Sys) (xs : List (Cell Bytes)) (b off n : ℕ)
      → Cached s xs
      → b < env.num_sectors
      → off + n ≤ env.block_size
      → Piece s xs b off n
  get_b-Piece s xs b off n v lt within =
      Got-Piece s xs _ b off n v (get_b-Got s xs b v.cache v.fits v.room) lt within

  -- the place of an indirect block number
  entry-le :
      (n : ℕ)
      → n < max_blocks
      → env.num_direct ≤ n
      → (n - env.num_direct) * env.int_size + env.int_size ≤ env.block_size
  entry-le n lt ge = omega (
    arith,
    slot-lt (n - env.num_direct) (env.block_size / env.int_size) env.int_size
        (omega (arith, lt, ge)),
    div-mul-le_self env.block_size env.int_size,
  )

  module _ (s : Sys) (xs : List (Cell Bytes)) (p : Ptr) (inode : Inode) (n : ℕ) (v : Cached s xs)
      (held : Held p inode s) where
    direct_b-Quiet : Quiet s xs (get_or inode.direct n 0) (direct_b p n false s)
    unfolding direct_b
    direct_b-Quiet =
        rw (read_inode-Held p inode s held, direct_b, ◌>>=◌, ◌>>◌)
          (stay s xs (get_or inode.direct n 0) v)

    indirect_b-Quiet :
        n < max_blocks
        → env.num_direct ≤ n
        → inode.indirect < env.num_sectors
        → Quiet s xs
            (env.decode_int (
              slice
                ((n - env.num_direct) * env.int_size)
                env.int_size
                (content xs s.disk inode.indirect)))
            (indirect_b p n false s)
    unfolding indirect_b read_indirect
    indirect_b-Quiet lt ge placed =
        let off = (n - env.num_direct) * env.int_size in
        let c = get_b-Piece s xs inode.indirect off env.int_size v placed (entry-le n lt ge) in
        record {
          state = c.quiet.state;
          cells = c.quiet.cells;
          returns = rw (
            read_inode-Held p inode s held,
            c.quiet.returns,
            c.read,
            indirect_b,
            read_indirect,
            ◌>>=◌,
            ◌>>◌,
          );
          valid = c.quiet.valid;
          same = c.quiet.same;
          tracked = c.quiet.tracked;
          others = c.quiet.others;
        }

    -- On a well-formed block cache that is not over its size, let the item at `p` hold an inode whose
    -- block of block numbers lies on the disk, if the file reaches it. Without `allocate`, and also with
    -- it for a block that the file has, get_nth_b of `n` gives the number of the file's n-th block, from
    -- the inode or from the block of block numbers, and 0 behind the file's size and behind the last
    -- block that an inode can name. What each block holds is the same, the cache stays well formed and
    -- within its size, and nothing but it and the disk is changed.
    pub get_nth_b-Quiet :
        (allocate : Bool)
        → (leb inode.size (n * env.block_size) && allocate) ≡ false
        → (env.num_direct * env.block_size < inode.size → inode.indirect < env.num_sectors)
        → Quiet s xs (block_of inode (content xs s.disk) n) (get_nth_b p n allocate s)
    unfolding get_nth_b locate_b
    get_nth_b-Quiet allocate present indirect = elim (Bool-cases (leb max_blocks n)) [
      | inl past ↦ rw (past, get_nth_b) (stay s xs 0 v)
      | inr within ↦ elim (Bool-cases (leb inode.size (n * env.block_size))) [
        | inl finish ↦
            let off : allocate ≡ false = ground (arith, present, finish) in
            rw (within, read_inode-Held p inode s held, finish, off, get_nth_b, locate_b, ◌>>=◌)
              (stay s xs 0 v)
        | inr more ↦ elim (Bool-cases (ltb n env.num_direct)) [
          | inl direct ↦
              rw (within, read_inode-Held p inode s held, more, direct, get_nth_b, locate_b, ◌>>=◌)
                direct_b-Quiet
          | inr far ↦
              let lt : n < max_blocks = ground arith in
              let ge : env.num_direct ≤ n = ground arith in
              let first = mul-le-mul_right {m = env.num_direct} {n = n} env.block_size ge in
              let beyond : n * env.block_size < inode.size = ground arith in
              rw (within, read_inode-Held p inode s held, more, far, get_nth_b, locate_b, ◌>>=◌)
                (indirect_b-Quiet lt ge (indirect (omega (arith, first, beyond))))
        ]
      ]
    ]
