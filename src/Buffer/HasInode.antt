-- ===== src/Buffer/HasInode.antt =====
-- get_i as a step of yfs.c that changes no file, with the inode that its pointer shows.
use model_lib.Prelude.{ℕ, ◌≤◌, ◌<◌, ap, List, [], ◌∷◌, ◌++◌, arith, length, length-append}
use model_lib.Env.{Env, Bytes, Ptr, IsLayout}
use model_lib.Queue.Seg.{Cell}
use model_lib.Env.{Inode}
use model_lib.Machine.{Sys, Run}
use model_lib.Buffer.{inode_block, get_i}
use model_lib.Buffer.Inodes.{inode_content, IsSys}
use model_lib.Buffer.LoadInode.{GotInode}
use model_lib.Buffer.GetInode.{get_i-GotInode}
use model_lib.Buffer.Kept.{IsWarm, Kept}
use model_lib.File.Locate.{Held}
use model_lib.Transfer.ReadFile.{GotInode-Held}

module _ ⦃env : Env⦄ where
  -- a pointer to inode `i`
  pub record HasInode (last : ℕ) (s : Sys) (bs : List (Cell Bytes)) (is : List (Cell Inode)) (i : ℕ)
      (run : Run Ptr) : Type 0 where
    pub at : Ptr
    pub kept : Kept last s bs is at run
    pub held : Held at (inode_content bs s.disk is i) kept.state

  module _ (layout : IsLayout env) (last : ℕ) (table : inode_block last < env.num_sectors)
      (pos : 0 < env.block_cache_size) where
    GotInode-HasInode :
        (s : Sys) (bs : List (Cell Bytes)) (is before : List (Cell Inode)) (i : ℕ) (run : Run Ptr)
        → i ≤ last
        → GotInode last s bs is before i run
        → HasInode last s bs is i run
    GotInode-HasInode s bs is before i run le g = record {
      at = g.cell.at;
      kept = record {
        state = g.step.state;
        cells = g.step.cells;
        items = before ++ g.cell ∷ [];
        returns = g.step.returns;
        valid = g.step.valid;
        warm = λ empty. absurd (omega (arith, ap length empty, length-append before (g.cell ∷ [])));
        settled = g.step.settled;
        same = g.step.same;
        others = g.step.others;
      };
      held = GotInode-Held layout last table pos s bs is before i run g le;
    }

    pub get_i-HasInode :
        (s : Sys) (bs : List (Cell Bytes)) (is : List (Cell Inode)) (i : ℕ)
        → IsSys last s bs is
        → IsWarm s is
        → 1 < env.inode_cache_size
        → i ≤ last
        → HasInode last s bs is i (get_i i s)
    get_i-HasInode s bs is i v warm two le =
        GotInode-HasInode s bs is _ i (get_i i s) le
          (get_i-GotInode layout last table pos s bs is i v le warm two)
