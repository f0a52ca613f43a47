-- ===== src/Transfer/ReadFile.antt =====
-- A read of a file whose inode get_i has returned, and what a read promises.
use native.Mathlib.Nat.{div-add-mod', mod-lt}
use model_lib.Prelude.{
  ℕ, zero, suc, ◌+◌, ◌-◌, ◌/◌, ◌%◌, ◌≤◌, ◌<◌, ◌≡◌, refl, sym, ap, ◌∙◌, some, List, [], ◌∷◌, ◌++◌,
  Bool, true, false, ltb, if◌then◌else◌, arith, length,
}
use model_lib.Prelude.Int.{ℤ, pos, negsuc, ◌-ℤ◌, eqb_ℤ}
use model_lib.Env.{Env, Bytes, Ptr, null, Inode, IsLayout}
use model_lib.Queue.Seg.{Cell}
use model_lib.Cache.Cells.{find, find-here, addr_of}
use model_lib.Cache.Access.{get_addr-some}
use model_lib.Machine.{Sys, Run, ok, int_limit, sub_int, check_int, write_memory, ◌>>=◌}
use model_lib.Machine.Memory.{write_memory_nil}
use model_lib.Buffer.{inode_block, inode_offset, slice}
use model_lib.Buffer.Evict.{content}
use model_lib.Buffer.Table.{inode_at}
use model_lib.Buffer.Inodes.{inode_content, IsSys, SameFiles, IsSettled, in_table}
use model_lib.Buffer.LoadInode.{GotInode}
use model_lib.File.{max_blocks}
use model_lib.File.Contents.{bytes_from}
use model_lib.File.Locate.{Held}
use model_lib.Transfer.{get_num_bytes_left, int_of_bool, read_at, read_from}
use model_lib.Transfer.Rounds.{Shows, IsStored}
use model_lib.Transfer.Copy.{Writable, Copied}
use model_lib.Transfer.Read.{read_blocks-Copied}

module _ ⦃env : Env⦄ where
  -- how many bytes of a file are read
  abbrev pub count : Inode → (size off : ℕ) → ℕ
  count inode size off = if ltb (inode.size - off) size then inode.size - off else size

  -- ERROR is no value of a `bool`
  pub no_test : (b : Bool) → env.error ≡ negsuc 0 → eqb_ℤ (int_of_bool b) env.error ≡ false
  no_test true code = rw code refl
  no_test false code = rw code refl

  pub get_num_bytes_left_lem :
      (inode : Inode) (size off : ℕ) (s : Sys)
      → off ≤ inode.size
      → inode.size < int_limit
      → get_num_bytes_left (pos off) (pos size) inode s ≡ ok (pos (count inode size off)) s
  unfolding get_num_bytes_left sub_int check_int ◌-ℤ◌
  get_num_bytes_left_lem inode size off s le lt = ground arith

  module _ (last : ℕ) (pid : ℕ) (p : Ptr) (inode : Inode) (view : ℕ → Bytes)
      (stored : IsStored last inode view) where
    pub read_at-Copied :
        (buf : Ptr) (off left : ℕ) (s : Sys) (xs : List (Cell Bytes))
        → Shows p inode view s xs
        → 0 < env.block_size
        → off + left ≤ inode.size
        → Writable pid buf left
        → Copied pid p inode view buf
            (bytes_from inode view off left)
            s
            xs
            (pos left)
            (read_at pid p (pos off) (pos left) buf s)
    unfolding read_at read_from
    read_at-Copied buf off zero s xs v size inside ok_user = record {
      state = s;
      cells = xs;
      returns = refl;
      shows = v;
      tracked = λ on_disk. on_disk;
      user = λ q a. sym (write_memory_nil s.user pid buf q a);
      others = refl;
    }
    read_at-Copied buf off (suc left) s xs v size inside ok_user =
        let whole = div-add-mod' off env.block_size in
        let c =
          read_blocks-Copied last pid p inode view stored (max_blocks + 1) (off / env.block_size)
            buf (off % env.block_size) (suc left) s xs v (mod-lt off size)
            (λ more. omega (arith, whole, inside)) (omega arith) (omega arith) ok_user in
        record {
          state = c.state;
          cells = c.cells;
          returns = rw (c.returns, read_from, ◌>>=◌) refl;
          shows = c.shows;
          tracked = c.tracked;
          user = λ q a.
              c.user q a
              ∙ ap (λ k. write_memory s.user pid buf (bytes_from inode view k (suc left)) q a)
                  whole;
          others = c.others;
        }

  -- What a read promises: the answer, the bytes in the process's memory, and that the files are the
  -- same. The two caches stay well formed and within their sizes.
  pub record HasRead (last : ℕ) (pid : ℕ) (buf : Ptr) (bytes : Bytes) (s : Sys)
      (bs : List (Cell Bytes)) (is : List (Cell Inode)) (r : ℤ) (run : Run ℤ) : Type 0 where
    pub state : Sys
    pub cells : List (Cell Bytes)
    pub items : List (Cell Inode)
    pub returns : run ≡ ok r state
    pub valid : IsSys last state cells items
    pub warm :
        (is ≡ [] → env.fresh_next s.inodes.brk ≡ null)
        → items ≡ []
        → env.fresh_next state.inodes.brk ≡ null
    pub same : SameFiles last s state bs cells is items
    pub settled : IsSettled s bs is → IsSettled state cells items
    pub user : (q : ℕ) (a : Ptr) → state.user q a ≡ write_memory s.user pid buf bytes q a
    pub others : state ≡ record s {
      blocks = state.blocks;
      inodes = state.inodes;
      disk = state.disk;
      user = state.user;
    }

  module _ (layout : IsLayout env) (last : ℕ) (table : inode_block last < env.num_sectors)
      (pos_cache : 0 < env.block_cache_size) where
    -- the inode that get_i returned
    pub GotInode-Held :
        (s : Sys) (bs : List (Cell Bytes)) (is before : List (Cell Inode)) (i : ℕ) (run : Run Ptr)
        → (g : GotInode last s bs is before i run) → i ≤ last
        → Held g.cell.at (inode_content bs s.disk is i) g.step.state
    GotInode-Held s bs is before i run g le =
        let x = g.cell in
        let found : find (before ++ x ∷ []) i ≡ some x =
          ap (find (before ++ x ∷ [])) (sym g.num)
          ∙ find-here before x [] g.step.valid.inodes.unique in
        let inode : x.addr ≡ inode_content bs s.disk is i =
          sym (ap (addr_of (inode_at (content g.step.cells g.step.state.disk) i)) found)
          ∙ g.step.same.inodes i le in
        get_addr-some g.step.state.inodes before x [] g.step.valid.inodes
        ∙ ap (λ z. some (z, g.step.state.inodes)) inode

    -- a step that changes no block, on a state of two caches
    pub Copied-HasRead :
        (pid : ℕ) (p : Ptr) (inode : Inode) (buf : Ptr) (bytes : Bytes) (s : Sys)
        (bs : List (Cell Bytes)) (is : List (Cell Inode)) (r : ℤ) (run : Run ℤ)
        → IsSys last s bs is
        → Copied pid p inode (content bs s.disk) buf bytes s bs r run
        → HasRead last pid buf bytes s bs is r run
    Copied-HasRead pid p inode buf bytes s bs is r run v c =
        let same_inode : (j : ℕ)
            → j ≤ last
            → inode_at (content c.cells c.state.disk) j ≡ inode_at (content bs s.disk) j =
          λ j le.
            ap (λ t. env.decode_inode (slice (inode_offset j) env.inode_size t))
              (c.shows.agree (inode_block j) (in_table layout last table pos_cache j le)) in
        let same_inodes : c.state.inodes ≡ s.inodes = ap {A = Sys} (λ z. z.inodes) c.others in
        record {
          state = c.state;
          cells = c.cells;
          items = is;
          returns = c.returns;
          valid = record {
            blocks = c.shows.cached.cache;
            inodes = rw same_inodes v.inodes;
            blocks_fit = c.shows.cached.fits;
            inodes_fit = v.inodes_fit;
            sized = λ b lt. ap length (c.shows.agree b lt) ∙ v.sized b lt;
            known = v.known;
          };
          warm = λ clean empty. ap (λ z. env.fresh_next z.brk) same_inodes ∙ clean empty;
          same = record {
            inodes = λ j le. ap (λ z. addr_of z (find is j)) (same_inode j le);
            blocks = λ b behind lt. c.shows.agree b lt;
          };
          settled = λ on_disk. record {
            blocks = c.tracked on_disk.blocks;
            inodes = λ j x found d.
                on_disk.inodes j x found d ∙ sym (same_inode j (v.known j x found).0);
          };
          user = c.user;
          others =
              c.others
              ∙ ap
                  (λ z. record s {
                    blocks = c.state.blocks;
                    inodes = z;
                    disk = c.state.disk;
                    user = c.state.user;
                  })
                  (sym same_inodes);
        }

    -- a read behind a step that changed at most the caches and the disk
    pub HasRead-after :
        (pid : ℕ) (buf : Ptr) (bytes bytes' : Bytes) (s s₁ : Sys) (bs bs₁ : List (Cell Bytes))
        (is is₁ : List (Cell Inode)) (r : ℤ) (run : Run ℤ)
        → SameFiles last s s₁ bs bs₁ is is₁
        → ((is ≡ [] → env.fresh_next s.inodes.brk ≡ null)
            → is₁ ≡ []
            → env.fresh_next s₁.inodes.brk ≡ null)
        → (IsSettled s bs is → IsSettled s₁ bs₁ is₁)
        → s₁ ≡ record s { blocks = s₁.blocks; inodes = s₁.inodes; disk = s₁.disk }
        → bytes ≡ bytes'
        → HasRead last pid buf bytes s₁ bs₁ is₁ r run
        → HasRead last pid buf bytes' s bs is r run
    HasRead-after pid buf bytes bytes' s s₁ bs bs₁ is is₁ r run same warm settled others equal h =
        record {
          state = h.state;
          cells = h.cells;
          items = h.items;
          returns = h.returns;
          valid = h.valid;
          warm = λ clean. h.warm (warm clean);
          same = record {
            inodes = λ j le. h.same.inodes j le ∙ same.inodes j le;
            blocks = λ b behind lt. h.same.blocks b behind lt ∙ same.blocks b behind lt;
          };
          settled = λ on_disk. h.settled (settled on_disk);
          user = λ q a.
              h.user q a
              ∙ ap (λ (u : ℕ → Ptr → ℕ). write_memory u pid buf bytes q a)
                  (ap {A = Sys} (λ z. z.user) others)
              ∙ ap (λ t. write_memory s.user pid buf t q a) equal;
          others =
              h.others
              ∙ ap {A = Sys}
                  (λ z. record z {
                    blocks = h.state.blocks;
                    inodes = h.state.inodes;
                    disk = h.state.disk;
                    user = h.state.user;
                  })
                  others;
        }
