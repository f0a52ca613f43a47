-- ===== src/Buffer/Kept.antt =====
-- Steps of yfs.c that go through both caches and change no file, and sequences of them.
use model_lib.Prelude.{ℕ, ◌≤◌, ◌<◌, ◌≡◌, refl, ap, ◌∙◌, sym, List, [], length}
use model_lib.Env.{Env, Bytes, null, Inode, IsLayout}
use model_lib.Queue.Seg.{Cell}
use model_lib.Cache.Cells.{find, addr_of}
use model_lib.Machine.{Sys, Run, ok}
use model_lib.Buffer.{slice, inode_block, inode_offset}
use model_lib.Buffer.Evict.{content, Tracked}
use model_lib.Buffer.Table.{inode_at}
use model_lib.Buffer.Inodes.{IsSys, SameFiles, IsSettled, in_table}
use model_lib.File.Locate.{Cached}

module _ ⦃env : Env⦄ where
  -- right_enqueue into an empty queue leaves next_c_item as malloc gave it
  abbrev pub IsWarm : Sys → List (Cell Inode) → Type 0
  IsWarm s is = is ≡ [] → env.fresh_next s.inodes.brk ≡ null

  -- a step that changed at most the two caches and the disk, and no file
  pub record Kept {R : Type 0} (last : ℕ) (s : Sys) (bs : List (Cell Bytes))
      (is : List (Cell Inode)) (r : R) (run : Run R) : Type 0 where
    pub state : Sys
    pub cells : List (Cell Bytes)
    pub items : List (Cell Inode)
    pub returns : run ≡ ok r state
    pub valid : IsSys last state cells items
    pub warm : IsWarm state items
    pub settled : IsSettled s bs is → IsSettled state cells items
    pub same : SameFiles last s state bs cells is items
    pub others :
        state ≡ record s { blocks = state.blocks; inodes = state.inodes; disk = state.disk }

  module _ (last : ℕ) where
    pub Kept-result :
        {R : Type 0} (s : Sys) (bs : List (Cell Bytes)) (is : List (Cell Inode)) (r r' : R)
        (run : Run R)
        → r ≡ r'
        → Kept last s bs is r run
        → Kept last s bs is r' run
    Kept-result s bs is r r' run e k = rw⁻¹ e k

    pub Kept-ok :
        {R : Type 0} (s : Sys) (bs : List (Cell Bytes)) (is : List (Cell Inode)) (r : R)
        (run : Run R)
        → IsSys last s bs is
        → IsWarm s is
        → run ≡ ok r s
        → Kept last s bs is r run
    Kept-ok s bs is r run v warm returns = record {
      state = s;
      cells = bs;
      items = is;
      returns = returns;
      valid = v;
      warm = warm;
      settled = λ on_disk. on_disk;
      same = record { inodes = λ i le. refl; blocks = λ b behind lt. refl };
      others = refl;
    }

    -- the same step with another result
    pub Kept-ends :
        {R S : Type 0} (s : Sys) (bs : List (Cell Bytes)) (is : List (Cell Inode)) (r : R)
        (run : Run R) (r' : S) (run' : Run S)
        → (k : Kept last s bs is r run) → run' ≡ ok r' k.state
        → Kept last s bs is r' run'
    Kept-ends s bs is r run r' run' k returns = record {
      state = k.state;
      cells = k.cells;
      items = k.items;
      returns = returns;
      valid = k.valid;
      warm = k.warm;
      settled = k.settled;
      same = k.same;
      others = k.others;
    }

    pub Kept-after :
        {R S : Type 0} (s : Sys) (bs : List (Cell Bytes)) (is : List (Cell Inode)) (r : R)
        (run : Run R) (r' : S) (run' : Run S)
        → (k : Kept last s bs is r run) → Kept last k.state k.cells k.items r' run'
        → Kept last s bs is r' run'
    Kept-after s bs is r run r' run' k k' = record {
      state = k'.state;
      cells = k'.cells;
      items = k'.items;
      returns = k'.returns;
      valid = k'.valid;
      warm = k'.warm;
      settled = λ on_disk. k'.settled (k.settled on_disk);
      same = record {
        inodes = λ i le. k'.same.inodes i le ∙ k.same.inodes i le;
        blocks = λ b behind lt. k'.same.blocks b behind lt ∙ k.same.blocks b behind lt;
      };
      others =
          k'.others
          ∙ ap {A = Sys}
              (λ z. record z {
                blocks = k'.state.blocks;
                inodes = k'.state.inodes;
                disk = k'.state.disk;
              })
              k.others;
    }

    -- a step that changed at most the block cache and the disk, and not what a block holds
    pub Cached-Kept :
        {R : Type 0} (layout : IsLayout env) (table : inode_block last < env.num_sectors)
        (s s' : Sys) (bs bs' : List (Cell Bytes)) (is : List (Cell Inode)) (r : R) (run : Run R)
        → IsSys last s bs is
        → IsWarm s is
        → run ≡ ok r s'
        → Cached s' bs'
        → ((b : ℕ) → b < env.num_sectors → content bs' s'.disk b ≡ content bs s.disk b)
        → (Tracked s bs → Tracked s' bs')
        → s' ≡ record s { blocks = s'.blocks; disk = s'.disk }
        → Kept last s bs is r run
    Cached-Kept layout table s s' bs bs' is r run v warm returns cached agree tracked others =
        let same_inode : (j : ℕ)
            → j ≤ last
            → inode_at (content bs' s'.disk) j ≡ inode_at (content bs s.disk) j =
          λ j le.
            ap (λ t. env.decode_inode (slice (inode_offset j) env.inode_size t))
              (agree (inode_block j) (in_table layout last table cached.room j le)) in
        let same_inodes : s'.inodes ≡ s.inodes = ap {A = Sys} (λ z. z.inodes) others in
        record {
          state = s';
          cells = bs';
          items = is;
          returns = returns;
          valid = record {
            blocks = cached.cache;
            inodes = rw same_inodes v.inodes;
            blocks_fit = cached.fits;
            inodes_fit = v.inodes_fit;
            sized = λ b lt. ap length (agree b lt) ∙ v.sized b lt;
            known = v.known;
          };
          warm = λ empty. ap (λ z. env.fresh_next z.brk) same_inodes ∙ warm empty;
          settled = λ on_disk. record {
            blocks = tracked on_disk.blocks;
            inodes = λ i c found d.
                on_disk.inodes i c found d ∙ sym (same_inode i (v.known i c found).0);
          };
          same = record {
            inodes = λ j le. ap (λ z. addr_of z (find is j)) (same_inode j le);
            blocks = λ b behind lt. agree b lt;
          };
          others =
              others
              ∙ ap (λ z. record s { blocks = s'.blocks; inodes = z; disk = s'.disk })
                  (sym same_inodes);
        }
