-- ===== src/Transfer/Rounds.antt =====
-- What the copying loops of handle_read and handle_write go through: the variables of a round, and the
-- part of the file that a round is about.
use model_lib.Prelude.{
  ℕ, ◌+◌, ◌-◌, ◌*◌, ◌≤◌, ◌<◌, ◌≡◌, refl, sym, ap, ◌∙◌, inl, inr, Bool-cases, List, ◌++◌, false,
  ◌==◌, ltb, leb, if◌then◌else◌, arith, length,
}
use model_lib.Env.{Env, Bytes, Ptr, Inode}
use model_lib.Queue.Seg.{Cell}
use model_lib.Machine.{Sys}
use model_lib.Buffer.Evict.{content}
use model_lib.File.{max_blocks}
use model_lib.File.Contents.{block_of, bytes_from, IsFile, bytes_from-append}
use model_lib.File.Locate.{Held, Cached}
use model_lib.Transfer.{Cursor}

module _ ⦃env : Env⦄ where
  -- The variables of a copying loop where a round begins.
  abbrev pub cursor : Ptr → (off left : ℕ) → Cursor
  cursor buf off left = record {
    buf = buf;
    b_offset = off;
    leftover_bytes = left;
    num_bytes = env.block_size - off;
  }

  -- how many bytes the round copies
  abbrev pub chunk : (off left : ℕ) → ℕ
  chunk off left = if ltb left (env.block_size - off) then left else env.block_size - off

  -- where a file's contents lie, in blocks of full length
  pub record IsStored (last : ℕ) (inode : Inode) (view : ℕ → Bytes) : Type 0 where
    pub file : IsFile last inode view
    pub sized : (b : ℕ) → b < env.num_sectors → length (view b) ≡ env.block_size

  -- The caches show these blocks, and the inode at `p`.
  pub record Shows (p : Ptr) (inode : Inode) (view : ℕ → Bytes) (s : Sys) (xs : List (Cell Bytes))
      : Type 0 where
    pub cached : Cached s xs
    pub held : Held p inode s
    pub agree : (b : ℕ) → b < env.num_sectors → content xs s.disk b ≡ view b

  pub Shows-user :
      (p : Ptr) (inode : Inode) (view : ℕ → Bytes) (s : Sys) (xs : List (Cell Bytes))
      (user : ℕ → Ptr → ℕ)
      → Shows p inode view s xs
      → Shows p inode view (record s { user = user }) xs
  Shows-user p inode view s xs user v = record {
    cached = record { cache = v.cached.cache; fits = v.cached.fits; room = v.cached.room };
    held = v.held;
    agree = v.agree;
  }

  module _ (inode : Inode) (view : ℕ → Bytes) where
    -- the block that a position inside the file lies in
    pub present :
        (last : ℕ)
        → IsStored last inode view
        → (i off left : ℕ) → off < env.block_size
        → 0 < left
        → i * env.block_size + off + left ≤ inode.size
        → (leb inode.size (i * env.block_size) ≡ false)
          × (block_of inode view i < env.num_sectors)
          × ((block_of inode view i == 0) ≡ false)
          × (i < max_blocks)
    present last stored i off left lt more inside =
        let (behind, disk) = stored.file.placed i (omega (arith, lt, more, inside)) in
        (ground (arith, more, inside), disk, ground (arith, behind), ground (arith, behind))

    -- a round copies the first bytes, and the next one begins behind them
    pub bytes-chunk :
        (i off left : ℕ)
        → off < env.block_size
        → bytes_from inode view (i * env.block_size + off) left
          ≡ bytes_from inode view (i * env.block_size + off) (chunk off left)
            ++ bytes_from inode view ((i + 1) * env.block_size + 0) (left - chunk off left)
    bytes-chunk i off left lt =
        let size = env.block_size in
        let k = i * size + off in
        elim (Bool-cases (ltb left (size - off))) [
          | inl part ↦
              let gone : left - left ≡ 0 = omega arith in
              let all : left + 0 ≡ left = omega arith in
              rw (part, gone)
                (sym (ap (bytes_from inode view k) all) ∙ bytes_from-append inode view k left 0)
          | inr whole ↦
              let n = size - off in
              let sum : n + (left - n) ≡ left = ground arith in
              let next : k + n ≡ (i + 1) * size + 0 = omega (arith, lt) in
              rw whole (
                sym (ap (bytes_from inode view k) sum)
                ∙ bytes_from-append inode view k n (left - n)
                ∙ rw next refl)
        ]
