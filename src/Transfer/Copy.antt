-- ===== src/Transfer/Copy.antt =====
-- A round of the loop of handle_read: what it finds, and what it copies.
use model_lib.Prelude.{
  ℕ, ◌+◌, ◌-◌, ◌*◌, ◌≤◌, ◌<◌, ◌≡◌, refl, ap, ◌∙◌, inl, inr, Bool-cases, List, true, false, ltb,
  arith,
}
use model_lib.Env.{Env, Bytes, Ptr, Inode}
use model_lib.Queue.Seg.{Cell}
use model_lib.Machine.{Sys, Run, ok, write_memory}
use model_lib.Buffer.{slice, get_b, read_block}
use model_lib.Buffer.Evict.{Tracked, content}
use model_lib.File.{get_nth_b}
use model_lib.File.Contents.{block_of, bytes_from, slice-bytes_from, block_of_same}
use model_lib.File.Locate.{Held-others, get_b-Piece, get_nth_b-Quiet}
use model_lib.Transfer.Rounds.{cursor, chunk, IsStored, Shows, present}
use model_lib.Transfer.{clip}

module _ ⦃env : Env⦄ where
  -- the addresses at which the process may be written
  abbrev pub Writable : ℕ → Ptr → ℕ → Type 0
  Writable pid buf left = (a n : ℕ) → buf ≤ a → a + n ≤ buf + left → env.writable pid a n ≡ true

  -- The bytes were copied to the process, and no block changed.
  pub record Copied {R : Type 0} (pid : ℕ) (p : Ptr) (inode : Inode) (view : ℕ → Bytes) (buf : Ptr)
      (bytes : Bytes) (s : Sys) (xs : List (Cell Bytes)) (r : R) (run : Run R) : Type 0 where
    pub state : Sys
    pub cells : List (Cell Bytes)
    pub returns : run ≡ ok r state
    pub shows : Shows p inode view state cells
    pub tracked : Tracked s xs → Tracked state cells
    pub user : (q : ℕ) (a : Ptr) → state.user q a ≡ write_memory s.user pid buf bytes q a
    pub others : state ≡ record s { blocks = state.blocks; disk = state.disk; user = state.user }

  module _ (last : ℕ) (pid : ℕ) (p : Ptr) (inode : Inode) (view : ℕ → Bytes)
      (stored : IsStored last inode view) where
    pub clip-chunk :
        (buf : Ptr) (off left : ℕ)
        → clip (cursor buf off left) ≡ record (cursor buf off left) { num_bytes = chunk off left }
    unfolding clip
    clip-chunk buf off left = elim (Bool-cases (ltb left (env.block_size - off))) [
      | inl part ↦ rw part refl
      | inr whole ↦ rw whole refl
    ]

    -- a round: the block's number, the block, and the copy of its piece
    pub record Round (i : ℕ) (buf : Ptr) (off left : ℕ) (s : Sys) (xs : List (Cell Bytes))
        : Type 0 where
      pub s₀ : Sys
      pub s₁ : Sys
      pub b_addr : Ptr
      pub found : get_nth_b p i false s ≡ ok (block_of inode view i) s₀
      pub got : get_b (block_of inode view i) s₀ ≡ ok b_addr s₁
      pub read :
          read_block b_addr off (chunk off left) s₁
          ≡ ok (bytes_from inode view (i * env.block_size + off) (chunk off left)) s₁
      pub cells : List (Cell Bytes)
      pub shows : Shows p inode view s₁ cells
      pub tracked : Tracked s xs → Tracked s₁ cells
      pub others : s₁ ≡ record s { blocks = s₁.blocks; disk = s₁.disk }

    pub copy_steps :
        (i : ℕ) (buf : Ptr) (off left : ℕ) (s : Sys) (xs : List (Cell Bytes))
        → Shows p inode view s xs
        → off < env.block_size
        → 0 < left
        → i * env.block_size + off + left ≤ inode.size
        → Round i buf off left s xs
    copy_steps i buf off left s xs v lt more inside =
        let (at_i, on_disk, nonzero, below) =
          present inode view last stored i off left lt more inside in
        let q =
          get_nth_b-Quiet s xs p inode i v.cached v.held false (ground arith)
            (λ far. (stored.file.indirect far).1) in
        let block = block_of inode view i in
        let same_block : block_of inode (content xs s.disk) i ≡ block =
          block_of_same inode (content xs s.disk) view i
            (λ far. v.agree inode.indirect (stored.file.indirect far).1) in
        let n = chunk off left in
        let within : off + n ≤ env.block_size = ground (arith, lt) in
        let c = get_b-Piece q.state q.cells block off n q.valid on_disk within in
        let shown : content q.cells q.state.disk block ≡ view block =
          q.same block on_disk ∙ v.agree block on_disk in
        let others : c.quiet.state
            ≡ record s { blocks = c.quiet.state.blocks; disk = c.quiet.state.disk } =
          c.quiet.others
          ∙ ap {A = Sys}
              (λ z. record z { blocks = c.quiet.state.blocks; disk = c.quiet.state.disk })
              q.others in
        record {
          s₁ = c.quiet.state;
          b_addr = c.p;
          s₀ = q.state;
          found = q.returns ∙ ap (λ b. ok b q.state) same_block;
          got = c.quiet.returns;
          read =
              c.read
              ∙ ap (λ t. ok (slice off n t) c.quiet.state) shown
              ∙ ap (λ t. ok t c.quiet.state)
                  (slice-bytes_from inode view i off n within (stored.sized block on_disk));
          cells = c.quiet.cells;
          tracked = λ on_disk. c.quiet.tracked (q.tracked on_disk);
          shows = record {
            cached = c.quiet.valid;
            held = Held-others p inode s c.quiet.state (ap {A = Sys} (λ z. z.inodes) others) v.held;
            agree = λ b b_lt. c.quiet.same b b_lt ∙ q.same b b_lt ∙ v.agree b b_lt;
          };
          others = others;
        }
