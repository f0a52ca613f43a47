-- ===== src/Dir/Steps.antt =====
-- The steps of the search of a directory that go to the block cache: the number of a block, and a block
-- that is then read through the pointer that get_b returned.
use model_lib.Prelude.{ℕ, ◌<◌, ◌≡◌, ap, ◌∙◌, List, [], ◌∷◌, ◌++◌, false, arith}
use model_lib.Env.{Env, Bytes, Ptr, Inode}
use model_lib.Queue.Seg.{Cell}
use model_lib.Machine.{Sys, Run, ok}
use model_lib.Buffer.{slice, get_b}
use model_lib.Buffer.Evict.{Tracked, content}
use model_lib.Buffer.Blocks.{Got, get_b-Got}
use model_lib.Buffer.Put.{Got-addr, read_block-slice}
use model_lib.File.{get_nth_b}
use model_lib.File.Contents.{block_of, block_of_same}
use model_lib.File.Locate.{Quiet, Held-others, get_nth_b-Quiet}
use model_lib.Transfer.Rounds.{Shows, IsStored}
use model_lib.Dir.ScanBlock.{Reads}

module _ ⦃env : Env⦄ where
  -- a step that changed at most the block cache and the disk, with the blocks and the inode as they were
  pub record Looked {R : Type 0} (p : Ptr) (inode : Inode) (view : ℕ → Bytes) (s : Sys)
      (xs : List (Cell Bytes)) (r : R) (run : Run R) : Type 0 where
    pub state : Sys
    pub cells : List (Cell Bytes)
    pub returns : run ≡ ok r state
    pub shows : Shows p inode view state cells
    pub tracked : Tracked s xs → Tracked state cells
    pub others : state ≡ record s { blocks = state.blocks; disk = state.disk }

  -- a block and the pointer at which it is read
  pub record Opened (p : Ptr) (inode : Inode) (view : ℕ → Bytes) (b : ℕ) (s : Sys)
      (xs : List (Cell Bytes)) : Type 0 where
    pub at : Ptr
    pub looked : Looked p inode view s xs at (get_b b s)
    pub reads : Reads at (view b) looked.state

  module _ (p : Ptr) (inode : Inode) (view : ℕ → Bytes) where
    pub Looked-after :
        {R S : Type 0} (s : Sys) (xs : List (Cell Bytes)) (r : R) (run : Run R) (r' : S)
        (run' : Run S)
        → (l : Looked p inode view s xs r run) → Looked p inode view l.state l.cells r' run'
        → Looked p inode view s xs r' run'
    Looked-after s xs r run r' run' l l' = record {
      state = l'.state;
      cells = l'.cells;
      returns = l'.returns;
      shows = l'.shows;
      tracked = λ on_disk. l'.tracked (l.tracked on_disk);
      others =
          l'.others
          ∙ ap {A = Sys} (λ z. record z { blocks = l'.state.blocks; disk = l'.state.disk })
              l.others;
    }

    Quiet-Shows :
        {R : Type 0} (s : Sys) (xs : List (Cell Bytes)) (r : R) (run : Run R)
        → Shows p inode view s xs
        → (q : Quiet s xs r run) → Shows p inode view q.state q.cells
    Quiet-Shows s xs r run v q = record {
      cached = q.valid;
      held = Held-others p inode s q.state (ap {A = Sys} (λ z. z.inodes) q.others) v.held;
      agree = λ b lt. q.same b lt ∙ v.agree b lt;
    }

    pub get_nth_b-Looked :
        (last i : ℕ) (s : Sys) (xs : List (Cell Bytes))
        → IsStored last inode view
        → Shows p inode view s xs
        → Looked p inode view s xs (block_of inode view i) (get_nth_b p i false s)
    get_nth_b-Looked last i s xs stored v =
        let q =
          get_nth_b-Quiet s xs p inode i v.cached v.held false (ground arith)
            (λ far. (stored.file.indirect far).1) in
        let block =
          block_of_same inode (content xs s.disk) view i
            (λ far. v.agree inode.indirect (stored.file.indirect far).1) in
        record {
          state = q.state;
          cells = q.cells;
          returns = q.returns ∙ ap (λ b. ok b q.state) block;
          shows = Quiet-Shows s xs _ (get_nth_b p i false s) v q;
          tracked = q.tracked;
          others = q.others;
        }

    Got-Opened :
        (s : Sys) (xs ys : List (Cell Bytes)) (b : ℕ)
        → Shows p inode view s xs
        → b < env.num_sectors
        → Got s xs ys b (get_b b s)
        → Opened p inode view b s xs
    Got-Opened s xs ys b v lt g = record {
      at = g.last.at;
      looked = record {
        state = g.step.state;
        cells = ys ++ g.last ∷ [];
        returns = g.step.returns;
        shows = Quiet-Shows s xs g.last.at (get_b b s) v (record {
          state = g.step.state;
          cells = ys ++ g.last ∷ [];
          returns = g.step.returns;
          valid = record { cache = g.step.valid; fits = g.fits; room = v.cached.room };
          same = g.step.same;
          tracked = g.step.tracked;
          others = g.step.others;
        });
        tracked = g.step.tracked;
        others = g.step.others;
      };
      reads = λ off n within.
          read_block-slice g.step.state ys g.last [] g.step.valid off n within
          ∙ ap (λ t. ok (slice off n t) g.step.state)
              (Got-addr s xs ys b (get_b b s) g lt ∙ v.agree b lt);
    }

    pub get_b-Opened :
        (s : Sys) (xs : List (Cell Bytes)) (b : ℕ)
        → Shows p inode view s xs
        → b < env.num_sectors
        → Opened p inode view b s xs
    get_b-Opened s xs b v lt =
        Got-Opened s xs _ b v lt (get_b-Got s xs b v.cached.cache v.cached.fits v.cached.room)
