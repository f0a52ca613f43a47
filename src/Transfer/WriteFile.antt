-- ===== src/Transfer/WriteFile.antt =====
-- A write to a file whose inode get_i has returned, and what a write promises.
use native.Mathlib.Nat.{div-add-mod', mod-lt}
use model_lib.Prelude.{
  ℕ, zero, suc, ◌+◌, ◌*◌, ◌/◌, ◌%◌, ◌≤◌, ◌<◌, ◌≡◌, ◌≢◌, refl, sym, ap, ◌∙◌, List, [], ◌∷◌, ◌++◌,
  Bool, true, arith,
}
use model_lib.Prelude.Int.{ℤ, pos}
use model_lib.Env.{Env, Bytes, Ptr, Inode, IsLayout}
use model_lib.Queue.Seg.{Cell}
use model_lib.Cache.Cells.{find, addr_of, change}
use model_lib.Machine.{Sys, Run, ok, read_memory, ◌>>=◌, ◌>>◌}
use model_lib.Buffer.{inode_block, inode_offset, slice}
use model_lib.Buffer.Evict.{content}
use model_lib.Buffer.Table.{inode_at, inode_block_mono}
use model_lib.Buffer.Inodes.{inode_content, IsSys, SameFiles, IsSettled, in_table}
use model_lib.Buffer.MarkInode.{mark_i_dirty-Marked}
use model_lib.File.{max_blocks}
use model_lib.File.Contents.{block_of, byte_at, IsFile, block_of_behind, byte_at_behind}
use model_lib.File.Locate.{Held, Cached}
use model_lib.File.Overwrite.{IsApart, Overwritten-nil, Overwritten-at}
use model_lib.Machine.Memory.{put_at}
use model_lib.Transfer.{write_at, finish_write, get_num_copy_bytes}
use model_lib.Transfer.Rounds.{IsStored}
use model_lib.Transfer.Store.{Readable, Stored}
use model_lib.Transfer.Write.{write_blocks-Stored}

append-nonempty : (xs : List (Cell Inode)) (x : Cell Inode) → xs ++ x ∷ [] ≢ []
append-nonempty [] x e = ground (arith, e)
append-nonempty (y ∷ ys) x e = ground (arith, e)

module _ ⦃env : Env⦄ where
  -- the loop, and the mark that is left to do
  pub record WroteAt (pid i : ℕ) (p : Ptr) (inode : Inode) (off size : ℕ) (buf : Ptr) (s : Sys)
      (xs : List (Cell Bytes)) : Type 0 where
    run : Run Bool
    stored : Stored inode off (read_memory (s.user pid) buf size) s xs true run
    runs : write_at pid i p (pos off) (pos size) buf s ≡ finish_write i (pos size) true stored.state

  pub write_at-WroteAt :
      (last pid i : ℕ) (p : Ptr) (inode : Inode) (off size : ℕ) (buf : Ptr) (s : Sys)
      (xs : List (Cell Bytes))
      → Cached s xs
      → Held p inode s
      → IsStored last inode (content xs s.disk)
      → IsApart inode (content xs s.disk)
      → 0 < env.block_size
      → off + size ≤ inode.size
      → Readable pid buf size
      → WroteAt pid i p inode off size buf s xs
  unfolding write_at read_memory
  write_at-WroteAt last pid i p inode off zero buf s xs v held stored apart wide inside ok_user =
      record {
        run = ok true s;
        stored = record {
          state = s;
          cells = xs;
          returns = refl;
          cached = v;
          written = Overwritten-nil inode off (content xs s.disk) stored.sized;
          tracked = λ on_disk. on_disk;
          others = refl;
        };
        runs = refl;
      }
  write_at-WroteAt last pid i p inode off (suc size) buf s xs v held stored apart wide inside
        ok_user =
      let whole = div-add-mod' off env.block_size in
      let b_offset = off % env.block_size in
      let copied = read_memory (s.user pid) buf (suc size) in
      let w =
        write_blocks-Stored last pid p inode (suc size) off inside (max_blocks + 1)
          (off / env.block_size) buf b_offset (suc size) (get_num_copy_bytes (suc size) b_offset) s
          xs v held stored apart (mod-lt off wide) (λ more. omega (arith, whole, inside))
          (omega arith) (omega arith) ok_user in
      record {
        run = _;
        stored = record {
          state = w.state;
          cells = w.cells;
          returns = w.returns;
          cached = w.cached;
          written =
              Overwritten-at inode (off / env.block_size * env.block_size + b_offset) off copied
                (content xs s.disk) (content w.cells w.state.disk) (λ more. whole) w.written;
          tracked = w.tracked;
          others = w.others;
        };
        runs = rw (w.returns, write_at, ◌>>=◌) refl;
      }

  -- What a write promises: the answer, the bytes in the file, and that the rest is the same.
  pub record HasWritten (last : ℕ) (inode : Inode) (off : ℕ) (new : Bytes) (s : Sys)
      (bs : List (Cell Bytes)) (is : List (Cell Inode)) (r : ℤ) (run : Run ℤ) : Type 0 where
    pub state : Sys
    pub cells : List (Cell Bytes)
    pub items : List (Cell Inode)
    pub returns : run ≡ ok r state
    pub valid : IsSys last state cells items
    pub nonempty : items ≢ []
    pub settled : IsSettled s bs is → IsSettled state cells items
    pub inodes :
        (i : ℕ) → i ≤ last → inode_content cells state.disk items i ≡ inode_content bs s.disk is i
    pub bytes :
        (k : ℕ)
        → k < inode.size
        → byte_at inode (content cells state.disk) k
          ≡ put_at off new k (byte_at inode (content bs s.disk) k)
    pub blocks :
        (b : ℕ)
        → inode_block last < b
        → b < env.num_sectors
        → ((n : ℕ) → n * env.block_size < inode.size → block_of inode (content bs s.disk) n ≢ b)
        → content cells state.disk b ≡ content bs s.disk b
    pub block :
        (n : ℕ) → block_of inode (content cells state.disk) n ≡ block_of inode (content bs s.disk) n
    pub others :
        state ≡ record s { blocks = state.blocks; inodes = state.inodes; disk = state.disk }

  module _ (layout : IsLayout env) (last : ℕ) (table : inode_block last < env.num_sectors)
      (pos_cache : 0 < env.block_cache_size) where
    pub WroteAt-HasWritten :
        (pid i : ℕ) (inode : Inode) (off size : ℕ) (buf : Ptr) (s : Sys) (bs : List (Cell Bytes))
        (before : List (Cell Inode)) (x : Cell Inode)
        → IsSys last s bs (before ++ x ∷ [])
        → IsFile last inode (content bs s.disk)
        → x.num ≡ i
        → WroteAt pid i x.at inode off size buf s bs
        → HasWritten last inode off
            (read_memory (s.user pid) buf size)
            s
            bs
            (before ++ x ∷ [])
            (pos size)
            (write_at pid i x.at (pos off) (pos size) buf s)
    unfolding finish_write
    WroteAt-HasWritten pid i inode off size buf s bs before x v file num w =
        let s₂ = w.stored.state in
        let bs₂ = w.stored.cells in
        let same_inodes : s₂.inodes ≡ s.inodes = ap {A = Sys} (λ z. z.inodes) w.stored.others in
        let v₂ : IsSys last s₂ bs₂ (before ++ x ∷ []) = record {
          blocks = w.stored.cached.cache;
          inodes = rw same_inodes v.inodes;
          blocks_fit = w.stored.cached.fits;
          inodes_fit = v.inodes_fit;
          sized = w.stored.written.sized;
          known = v.known;
        } in
        let m = mark_i_dirty-Marked before x last s₂ bs₂ v₂ in
        let view = content bs s.disk in
        let view₂ = content bs₂ s₂.disk in
        let untouched : (j : ℕ) → j ≤ last → view₂ (inode_block j) ≡ view (inode_block j) = λ j le.
          let order = inode_block_mono layout j last le in
          w.stored.written.outside (inode_block j) (in_table layout last table pos_cache j le)
            (λ n n_lt e. omega (arith, (file.placed n n_lt).0, order, e)) in
        let same_inode : (j : ℕ) → j ≤ last → inode_at view₂ j ≡ inode_at view j = λ j le.
          ap (λ t. env.decode_inode (slice (inode_offset j) env.inode_size t)) (untouched j le) in
        record {
          state = record s₂ { inodes = m.cache };
          cells = bs₂;
          items = before ++ change x true x.addr ∷ [];
          returns = rw (w.runs, sym num, m.returns, finish_write, ◌>>=◌, ◌>>◌) refl;
          valid = m.valid;
          nonempty = append-nonempty before (change x true x.addr);
          settled = λ on_disk. record {
            blocks = w.stored.tracked on_disk.blocks;
            inodes = m.clean (content bs₂ s₂.disk) (λ j c found d.
                on_disk.inodes j c found d ∙ sym (same_inode j (v.known j c found).0));
          };
          inodes = λ j le.
              m.same (inode_at (content bs₂ s₂.disk) j) j
              ∙ ap
                  (λ t.
                    addr_of (env.decode_inode (slice (inode_offset j) env.inode_size t))
                      (find (before ++ x ∷ []) j))
                  (untouched j le);
          bytes = w.stored.written.byte;
          blocks = λ b behind lt none_holds. w.stored.written.outside b lt none_holds;
          block = w.stored.written.block;
          others = ap {A = Sys} (λ z. record z { inodes = m.cache }) w.stored.others;
        }

    -- a write behind a step that changed at most the caches, the table and the disk
    pub HasWritten-after :
        (inode : Inode) (off : ℕ) (new : Bytes) (s s₁ : Sys) (bs bs₁ : List (Cell Bytes))
        (is is₁ : List (Cell Inode)) (r : ℤ) (run : Run ℤ)
        → IsFile last inode (content bs s.disk)
        → SameFiles last s s₁ bs bs₁ is is₁
        → (IsSettled s bs is → IsSettled s₁ bs₁ is₁)
        → s₁ ≡ record s { blocks = s₁.blocks; inodes = s₁.inodes; disk = s₁.disk }
        → HasWritten last inode off new s₁ bs₁ is₁ r run
        → HasWritten last inode off new s bs is r run
    HasWritten-after inode off new s s₁ bs bs₁ is is₁ r run file same settled others h =
        let view = content bs s.disk in
        let view₁ = content bs₁ s₁.disk in
        let block =
          block_of_behind last inode view view₁ (λ b behind lt. sym (same.blocks b behind lt))
            file in
        record {
          state = h.state;
          cells = h.cells;
          items = h.items;
          returns = h.returns;
          valid = h.valid;
          nonempty = h.nonempty;
          settled = λ on_disk. h.settled (settled on_disk);
          inodes = λ j le. h.inodes j le ∙ same.inodes j le;
          bytes = λ k lt.
              h.bytes k lt
              ∙ ap (put_at off new k) (
                  sym (
                    byte_at_behind last inode view view₁
                      (λ b behind b_lt. sym (same.blocks b behind b_lt)) file k lt));
          blocks = λ b behind lt apart.
              h.blocks b behind lt (λ n n_lt e. apart n n_lt (block n ∙ e))
              ∙ same.blocks b behind lt;
          block = λ n. h.block n ∙ sym (block n);
          others =
              h.others
              ∙ ap {A = Sys}
                  (λ z. record z {
                    blocks = h.state.blocks;
                    inodes = h.state.inodes;
                    disk = h.state.disk;
                  })
                  others;
        }
