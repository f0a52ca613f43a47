-- ===== src/File/Overwrite.antt =====
-- What a file holds after some of its bytes were replaced.
use native.Mathlib.Decide.{dec_lt}
use model_lib.Prelude.{ℕ, ◌+◌, ◌*◌, ◌<◌, ◌≡◌, refl, sym, ap, ◌∙◌, ◌≢◌, [], ◌++◌, arith, length}
use model_lib.Env.{Env, Bytes, Inode}
use model_lib.Machine.Memory.{put_at, put_at-append}
use model_lib.Buffer.{inode_block}
use model_lib.File.Contents.{block_of, byte_at, IsFile, block_of_behind}

put_at-start :
    (at at' : ℕ) (new : Bytes) (k old : ℕ)
    → (0 < length new → at ≡ at')
    → put_at at new k old ≡ put_at at' new k old
put_at-start at at' new k old same = elim (dec_lt 0 (length new)) [
  | yes more ↦ ap (λ a. put_at a new k old) (same more)
  | no none_left ↦ ground arith
]

module _ ⦃env : Env⦄ where
  -- No block holds two pieces of the file, and its block of block numbers holds none.
  pub record IsApart (inode : Inode) (view : ℕ → Bytes) : Type 0 where
    pub blocks :
        (n m : ℕ)
        → n * env.block_size < inode.size
        → m * env.block_size < inode.size
        → n ≢ m
        → block_of inode view n ≢ block_of inode view m
    pub indirect :
        (n : ℕ)
        → n * env.block_size < inode.size
        → env.num_direct * env.block_size < inode.size
        → block_of inode view n ≢ inode.indirect

  -- The file's bytes from `at` on are `new`, its other bytes and the other blocks are as before.
  pub record Overwritten (inode : Inode) (at : ℕ) (new : Bytes) (view view' : ℕ → Bytes)
      : Type 0 where
    pub byte :
        (k : ℕ) → k < inode.size → byte_at inode view' k ≡ put_at at new k (byte_at inode view k)
    pub outside :
        (b : ℕ)
        → b < env.num_sectors
        → ((n : ℕ) → n * env.block_size < inode.size → block_of inode view n ≢ b)
        → view' b ≡ view b
    pub block : (n : ℕ) → block_of inode view' n ≡ block_of inode view n
    pub sized : (b : ℕ) → b < env.num_sectors → length (view' b) ≡ env.block_size

  module _ (inode : Inode) (at : ℕ) where
    pub Overwritten-nil :
        (view : ℕ → Bytes)
        → ((b : ℕ) → b < env.num_sectors → length (view b) ≡ env.block_size)
        → Overwritten inode at [] view view
    Overwritten-nil view sized = record {
      byte = λ k lt. ground arith;
      outside = λ b lt apart. refl;
      block = λ n. refl;
      sized = sized;
    }

    pub Overwritten-append :
        (new new' : Bytes) (view view₁ view₂ : ℕ → Bytes)
        → Overwritten inode at new view view₁
        → Overwritten inode (at + length new) new' view₁ view₂
        → Overwritten inode at (new ++ new') view view₂
    Overwritten-append new new' view view₁ view₂ a b = record {
      byte = λ k lt.
          b.byte k lt
          ∙ ap (put_at (at + length new) new' k) (a.byte k lt)
          ∙ put_at-append at new new' k (byte_at inode view k);
      outside = λ c lt apart.
          b.outside c lt (λ n n_lt. λ e. apart n n_lt (sym (a.block n) ∙ e)) ∙ a.outside c lt apart;
      block = λ n. b.block n ∙ a.block n;
      sized = b.sized;
    }

    -- where nothing is replaced, the position does not matter
    pub Overwritten-at :
        (at' : ℕ) (new : Bytes) (view view' : ℕ → Bytes)
        → (0 < length new → at ≡ at')
        → Overwritten inode at new view view'
        → Overwritten inode at' new view view'
    Overwritten-at at' new view view' same w = record {
      byte = λ k lt. w.byte k lt ∙ put_at-start at at' new k (byte_at inode view k) same;
      outside = w.outside;
      block = w.block;
      sized = w.sized;
    }

    pub Overwritten-same :
        (new new' : Bytes) (view view' : ℕ → Bytes)
        → new ≡ new'
        → Overwritten inode at new view view'
        → Overwritten inode at new' view view'
    Overwritten-same new new' view view' e w = rw (sym e) w

    -- The blocks of the file stay where they are.
    pub Overwritten-IsFile :
        (last : ℕ) (new : Bytes) (view view' : ℕ → Bytes)
        → Overwritten inode at new view view'
        → IsFile last inode view
        → IsFile last inode view'
    Overwritten-IsFile last new view view' w file = record {
      placed = λ n lt. let here = file.placed n lt in rw (sym (w.block n)) at here;
      indirect = file.indirect;
    }

    pub Overwritten-IsApart :
        (new : Bytes) (view view' : ℕ → Bytes)
        → Overwritten inode at new view view'
        → IsApart inode view
        → IsApart inode view'
    Overwritten-IsApart new view view' w apart = record {
      blocks =
          λ n m n_lt m_lt ne e. apart.blocks n m n_lt m_lt ne (sym (w.block n) ∙ e ∙ w.block m);
      indirect = λ n n_lt far e. apart.indirect n n_lt far (sym (w.block n) ∙ e);
    }

  -- two views of the blocks that agree behind the table of inodes
  pub IsApart-same :
      (last : ℕ) (inode : Inode) (view view' : ℕ → Bytes)
      → ((b : ℕ) → inode_block last < b → b < env.num_sectors → view b ≡ view' b)
      → IsFile last inode view
      → IsApart inode view
      → IsApart inode view'
  IsApart-same last inode view view' same file apart =
      let block = block_of_behind last inode view view' same file in
      record {
        blocks = λ n m n_lt m_lt ne e. apart.blocks n m n_lt m_lt ne (block n ∙ e ∙ sym (block m));
        indirect = λ n n_lt far e. apart.indirect n n_lt far (block n ∙ e);
      }
