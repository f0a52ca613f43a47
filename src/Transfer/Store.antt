-- ===== src/Transfer/Store.antt =====
-- A round of the loop of handle_write: what it finds, and what it does to the block.
use model_lib.Prelude.{
  ℕ, ◌+◌, ◌-◌, ◌*◌, ◌≤◌, ◌<◌, ◌≡◌, refl, ap, ◌∙◌, List, some, true, false, ◌==◌, ltb, if◌then◌else◌,
  arith, length,
}
use model_lib.Env.{Env, Bytes, Ptr, Inode}
use model_lib.Queue.Seg.{Cell}
use model_lib.Machine.{Sys, Run, ok, copy_from, read_memory, ◌>>=◌}
use model_lib.Machine.Memory.{length-read_memory}
use model_lib.Buffer.{splice}
use model_lib.Buffer.Evict.{Tracked, content}
use model_lib.Buffer.Put.{Put, get_b-Put}
use model_lib.File.{get_nth_b}
use model_lib.File.Contents.{block_of}
use model_lib.File.Locate.{Held, Held-others, Cached, get_nth_b-Quiet, read_inode-Held}
use model_lib.File.Patch.{Overwritten-splice}
use model_lib.File.Overwrite.{IsApart, Overwritten}
use model_lib.Transfer.Rounds.{chunk, IsStored, present}
use model_lib.Transfer.{update_i_size}

module _ ⦃env : Env⦄ where
  -- the addresses at which the process may be read
  abbrev pub Readable : ℕ → Ptr → ℕ → Type 0
  Readable pid buf left = (a n : ℕ) → buf ≤ a → a + n ≤ buf + left → env.readable pid a n ≡ true

  pub update_i_size_lem :
      (p : Ptr) (inode : Inode) (size byte_offset left : ℕ) (s : Sys)
      → Held p inode s
      → byte_offset + size ≤ inode.size
      → update_i_size p size byte_offset left s ≡ ok tt s
  unfolding update_i_size
  update_i_size_lem p inode size byte_offset left s held le =
      let within : ltb inode.size (size - left + byte_offset) ≡ false = ground (arith, le) in
      rw (read_inode-Held p inode s held, within, update_i_size, ◌>>=◌) refl

  -- The bytes are in the file, and nothing but the block cache and the disk was changed.
  pub record Stored {R : Type 0} (inode : Inode) (at : ℕ) (new : Bytes) (s : Sys)
      (xs : List (Cell Bytes)) (r : R) (run : Run R) : Type 0 where
    pub state : Sys
    pub cells : List (Cell Bytes)
    pub returns : run ≡ ok r state
    pub cached : Cached state cells
    pub written : Overwritten inode at new (content xs s.disk) (content cells state.disk)
    pub tracked : Tracked s xs → Tracked state cells
    pub others : state ≡ record s { blocks = state.blocks; disk = state.disk }

  module _ (last : ℕ) (pid : ℕ) (p : Ptr) (inode : Inode) (size byte_offset : ℕ)
      (whole : byte_offset + size ≤ inode.size) where
    -- what a round finds and does
    pub record Round (i : ℕ) (buf : Ptr) (off left : ℕ) (s : Sys) (xs : List (Cell Bytes))
        : Type 0 where
      pub s₀ : Sys
      pub cells₀ : List (Cell Bytes)
      pub found : get_nth_b p i true s ≡ ok (block_of inode (content xs s.disk) i) s₀
      pub put :
          Put s₀ cells₀
            (block_of inode (content xs s.disk) i)
            off
            (read_memory (s.user pid) buf (chunk off left))
      pub copied :
          copy_from pid buf (chunk off left) put.s₁
          ≡ ok (some (read_memory (s.user pid) buf (chunk off left))) put.s₁
      pub cached : Cached put.state put.cells
      pub held : Held p inode put.state
      pub written :
          Overwritten inode
            (i * env.block_size + off)
            (read_memory (s.user pid) buf (chunk off left))
            (content xs s.disk)
            (content put.cells put.state.disk)
      pub tracked : Tracked s xs → Tracked put.state put.cells
      pub others : put.state ≡ record s { blocks = put.state.blocks; disk = put.state.disk }

    pub store_steps :
        (i : ℕ) (buf : Ptr) (off left : ℕ) (s : Sys) (xs : List (Cell Bytes))
        → Cached s xs
        → Held p inode s
        → IsStored last inode (content xs s.disk)
        → IsApart inode (content xs s.disk)
        → off < env.block_size
        → 0 < left
        → i * env.block_size + off + left ≤ inode.size
        → env.readable pid buf (chunk off left) ≡ true
        → Round i buf off left s xs
    unfolding copy_from
    store_steps i buf off left s xs v held stored apart lt more inside ok_user =
        let view = content xs s.disk in
        let (at_i, on_disk, nonzero, below) =
          present inode view last stored i off left lt more inside in
        let q =
          get_nth_b-Quiet s xs p inode i v held true (ground (arith, at_i))
            (λ far. (stored.file.indirect far).1) in
        let block = block_of inode view i in
        let new = read_memory (s.user pid) buf (chunk off left) in
        let room : off + length new ≤ env.block_size =
          ground (arith, lt, length-read_memory (s.user pid) buf (chunk off left)) in
        let w =
          get_b-Put q.state q.cells block off new q.valid.cache q.valid.fits q.valid.room on_disk
            room in
        let same_user : w.s₁.user ≡ s.user =
          ap {A = Sys} (λ z. z.user) w.got_others ∙ ap {A = Sys} (λ z. z.user) q.others in
        let others : w.state ≡ record s { blocks = w.state.blocks; disk = w.state.disk } =
          w.others
          ∙ ap {A = Sys} (λ z. record z { blocks = w.state.blocks; disk = w.state.disk })
              q.others in
        record {
          s₀ = q.state;
          cells₀ = q.cells;
          found = q.returns;
          put = w;
          copied =
              rw (ok_user, copy_from)
                (ap (λ (u : ℕ → Ptr → ℕ). ok (some (read_memory (u pid) buf (chunk off left))) w.s₁)
                  same_user);
          cached = record { cache = w.valid; fits = w.fits; room = v.room };
          held = Held-others p inode s w.state (ap {A = Sys} (λ z. z.inodes) others) held;
          written =
              Overwritten-splice inode (i * env.block_size + off) view
                (content w.cells w.state.disk) last i off new stored.file apart stored.sized
                (omega (arith, lt)) (omega (arith, more, inside)) refl room
                (λ b b_lt.
                  w.contents b b_lt
                  ∙ ap
                      (λ t. if block == b then splice off new t else content q.cells q.state.disk b)
                      (q.same block on_disk)
                  ∙ ap (λ t. if block == b then splice off new (view block) else t)
                      (q.same b b_lt));
          tracked = λ on_disk. w.tracked (q.tracked on_disk);
          others = others;
        }
