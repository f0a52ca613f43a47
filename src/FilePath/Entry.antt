-- ===== src/FilePath/Entry.antt =====
-- The entry that get_dir_entry found: where it lies, and its inode number as get_path_i_num reads it.
use native.Mathlib.Nat.{div-add-mod', mod-lt, mul-le-mul_right, div-mul-le_self, mul_assoc}
use native.Mathlib.Decide.{dec_lt}
use model_lib.Prelude.{
  ℕ, zero, suc, ◌+◌, ◌*◌, ◌/◌, ◌%◌, ◌≤◌, ◌<◌, ◌≡◌, refl, sym, ap, ◌∙◌, inl, inr, Bool-cases, some,
  List, some_inj, arith,
}
use model_lib.Env.{Env, Bytes, Ptr, Inode, IsLayout}
use model_lib.Queue.Seg.{Cell}
use model_lib.Machine.{Sys, Run, ok, ◌>>=◌}
use model_lib.Buffer.{slice, get_b, read_entry, inode_block}
use model_lib.Buffer.Evict.{content}
use model_lib.Buffer.Inodes.{IsSys}
use model_lib.Buffer.Kept.{IsWarm, Kept, Cached-Kept}
use model_lib.Dir.{name_eq}
use model_lib.Dir.Entries.{IsDivided, entry_at, entries, directory, find_name}
use model_lib.File.Contents.{block_of, bytes_from, slice-bytes_from, IsFile}
use model_lib.File.Locate.{get_b-Piece}
use model_lib.FilePath.{entry_inum}

-- a piece at a multiple of its size lies in one part
piece-le :
    (j m size bytes q r : ℕ)
    → m * size ≡ bytes
    → j * size ≡ q * bytes + r
    → r < bytes
    → r + size ≤ bytes
piece-le j m size bytes q r whole at lt =
    let all : (q + 1) * m * size ≡ q * bytes + bytes =
      mul_assoc (q + 1) m size ∙ ap (λ (t : ℕ). (q + 1) * t) whole ∙ omega arith in
    elim (dec_lt j ((q + 1) * m)) [
      | yes below ↦
          let next = mul-le-mul_right {m = j + 1} {n = (q + 1) * m} size (omega (arith, below)) in
          omega (arith, next, all, at)
      | no above ↦
          let past = mul-le-mul_right {m = (q + 1) * m} {n = j} size (omega (arith, above)) in
          absurd (omega (arith, past, all, at, lt))
    ]

module _ ⦃env : Env⦄ where
  -- the place of an entry of the directory
  pub record IsPlaced (inode : Inode) (pos : ℕ) : Type 0 where
    pub index : ℕ
    pub at : pos ≡ index * env.entry_size
    pub inside : pos + env.entry_size ≤ inode.size
    pub within : pos % env.block_size + env.entry_size ≤ env.block_size

  find_name-at :
      (path : Bytes) (inode : Inode) (view : ℕ → Bytes) (j n k : ℕ)
      → find_name path (entries inode view (j * env.entry_size) n) ≡ some k
      → (i : ℕ) × (k ≡ i * env.entry_size) × (i < j + n)
  find_name-at path inode view j zero k e = absurd (ground (arith, e))
  find_name-at path inode view j (suc n) k e =
      elim (Bool-cases
        (name_eq env.dir_name_len path (entry_at inode view (j * env.entry_size)).name)) [
          | inl same ↦
              let here : some (j * env.entry_size) ≡ some k = rw same at e in
              (j, sym (some_inj here), omega arith)
          | inr other ↦
              let there : find_name path
                    (entries inode view (j * env.entry_size + env.entry_size) n)
                  ≡ some k =
                rw other at e in
              let step : j * env.entry_size + env.entry_size ≡ (j + 1) * env.entry_size =
                omega arith in
              let (i, at, lt) = find_name-at path inode view (j + 1) n k (rw step at there) in
              (i, at, omega (arith, lt))
        ]

  pub find_name-IsPlaced :
      (path : Bytes) (inode : Inode) (view : ℕ → Bytes) (k : ℕ)
      → IsDivided env
      → 0 < env.block_size
      → find_name path (directory inode view) ≡ some k
      → IsPlaced inode k
  find_name-IsPlaced path inode view k divided size e =
      let n = inode.size / env.entry_size in
      let start : 0 ≡ 0 * env.entry_size = omega arith in
      let (i, at, lt) =
        find_name-at path inode view 0 n k
          (ap (λ (t : ℕ). find_name path (entries inode view t n)) (sym start) ∙ e) in
      let whole = div-add-mod' k env.block_size in
      let up_to = mul-le-mul_right {m = i + 1} {n = n} env.entry_size (omega (arith, lt)) in
      record {
        index = i;
        at = at;
        inside = omega (arith, at, up_to, div-mul-le_self inode.size env.entry_size);
        within =
            piece-le i divided.per_block env.entry_size env.block_size (k / env.block_size)
              (k % env.block_size) divided.whole (omega (arith, at, whole)) (mod-lt k size);
      }

  module _ (layout : IsLayout env) (last : ℕ) (table : inode_block last < env.num_sectors)
      (pos_cache : 0 < env.block_cache_size) where
    -- the block of an entry, and the entry in it
    pub record EntryRead (R : Type 0) (s : Sys) (bs : List (Cell Bytes)) (is : List (Cell Inode))
        (inode : Inode) (view : ℕ → Bytes) (pos : ℕ) : Type 0 where
      pub at : Ptr
      pub state : Sys
      pub got : get_b (block_of inode view (pos / env.block_size)) s ≡ ok at state
      pub read : read_entry at (pos % env.block_size) state ≡ ok (entry_at inode view pos) state
      pub kept : (r : R) (run : Run R) → run ≡ ok r state → Kept last s bs is r run

    pub read_entry-EntryRead :
        (R : Type 0) (s : Sys) (bs : List (Cell Bytes)) (is : List (Cell Inode)) (inode : Inode)
        (pos : ℕ)
        → IsSys last s bs is
        → IsWarm s is
        → IsFile last inode (content bs s.disk)
        → IsPlaced inode pos
        → 0 < env.entry_size
        → EntryRead R s bs is inode (content bs s.disk) pos
    unfolding read_entry
    read_entry-EntryRead R s bs is inode pos v warm file at size =
        let view = content bs s.disk in
        let q = pos / env.block_size in
        let off = pos % env.block_size in
        let whole = div-add-mod' pos env.block_size in
        let (behind, placed) =
          file.placed q (omega (arith, div-mul-le_self pos env.block_size, at.inside, size)) in
        let c =
          get_b-Piece s bs (block_of inode view q) off env.entry_size
            (record { cache = v.blocks; fits = v.blocks_fit; room = pos_cache }) placed at.within in
        let bytes : slice off env.entry_size (view (block_of inode view q))
            ≡ bytes_from inode view pos env.entry_size =
          slice-bytes_from inode view q off env.entry_size at.within
            (v.sized (block_of inode view q) placed)
          ∙ ap (λ (t : ℕ). bytes_from inode view t env.entry_size) whole in
        record {
          at = c.p;
          state = c.quiet.state;
          got = c.quiet.returns;
          read = rw (c.read, bytes, read_entry, ◌>>=◌) refl;
          kept = λ r run e.
              Cached-Kept last layout table s c.quiet.state bs c.quiet.cells is r run v warm e
                c.quiet.valid c.quiet.same c.quiet.tracked c.quiet.others;
        }

    pub entry_inum-Kept :
        (s : Sys) (bs : List (Cell Bytes)) (is : List (Cell Inode)) (inode : Inode) (pos : ℕ)
        → IsSys last s bs is
        → IsWarm s is
        → IsFile last inode (content bs s.disk)
        → IsPlaced inode pos
        → 0 < env.entry_size
        → Kept last s bs is (entry_at inode (content bs s.disk) pos).inum (
            entry_inum
              (
                some (pos % env.block_size),
                block_of inode (content bs s.disk) (pos / env.block_size),
              )
              s)
    unfolding entry_inum
    entry_inum-Kept s bs is inode pos v warm file at size =
        let c = read_entry-EntryRead ℕ s bs is inode pos v warm file at size in
        c.kept _ _ (rw (c.got, c.read, entry_inum, ◌>>=◌) refl)
