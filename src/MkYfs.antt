-- ===== src/MkYfs.antt =====
-- The formatter, mkyfs.c, as the function from the number of inodes to the disk that it writes.
pub mod Pieces
pub mod Inodes
use model_lib.Prelude.{
  ℕ, zero, suc, ◌+◌, ◌-◌, ◌*◌, ◌/◌, List, [], ◌∷◌, ◌++◌, ltb, ◌==◌, if◌then◌else◌, set, replicate,
  take, drop,
}
use model_lib.Prelude.Int.{pos}
use model_lib.Env.{Env, Bytes, Inode, inode_directory, inode_free}

module _ ⦃env : Env⦄ where
  -- (num_inodes + 1) * INODESIZE, rounded up to whole blocks. BLOCKSIZE is a power of two, so the
  -- mask `& ~(BLOCKSIZE - 1)` of the source is this division.
  unfoldable pub table_blocks : ℕ → ℕ
  table_blocks num_inodes =
      ((num_inodes + 1) * env.inode_size + env.block_size - 1) / env.block_size

  -- `inodes[1]`, over what malloc left there
  unfoldable pub root_of : ℕ → Inode → Inode
  root_of num_inodes old = record old {
    type = inode_directory;
    nlink = pos 2;
    reuse = 1;
    size = 2 * env.entry_size;
    direct = set old.direct 0 (table_blocks num_inodes + 1);
  }

  -- the loop from inode 2 on: only the type is set
  unfoldable pub free_inodes : List Inode → List Inode
  free_inodes [] = []
  free_inodes (old ∷ rest) = record old { type = inode_free } ∷ free_inodes rest

  unfoldable pub encode_all : List Inode → Bytes
  encode_all [] = []
  encode_all (i ∷ rest) = env.encode_inode i ++ encode_all rest

  -- `name[0] = '.'` in an array of zeros
  unfoldable pub dots : ℕ → Bytes
  dots n = take env.dir_name_len (replicate n b'.' ++ replicate env.dir_name_len 0)

  unfoldable pub root_entries : Bytes
  root_entries =
      env.encode_entry (record { inum = env.root_inode; name = dots 1 })
      ++ env.encode_entry (record { inum = env.root_inode; name = dots 2 })

  -- The bytes of the file DISK from block 1 on: `root` and `others` are what malloc left for the
  -- inodes 1 and 2 to num_inodes, and `rest` what it left behind them.
  unfoldable pub table : (num_inodes : ℕ) → Inode → List Inode → Bytes → Bytes
  table num_inodes root others rest =
      env.encode_header (record { num_blocks = env.num_sectors; num_inodes = num_inodes })
      ++ (env.encode_inode (root_of num_inodes root) ++ (encode_all (free_inodes others) ++ rest))

  -- sector `b` of a file that is zero behind its end
  unfoldable pub sector : Bytes → ℕ → Bytes
  sector bytes b =
      take env.block_size (drop (b * env.block_size) bytes ++ replicate env.block_size 0)

  -- Block 0 and what was skipped by lseek are zero, and so is the last block, which is written last.
  unfoldable pub format : (num_inodes : ℕ) → Inode → List Inode → Bytes → ℕ → Bytes
  format num_inodes root others rest zero = replicate env.block_size 0
  format num_inodes root others rest (suc b) =
      if b + 2 == env.num_sectors
      then replicate env.block_size 0
      else if ltb b (table_blocks num_inodes)
      then sector (table num_inodes root others rest) b
      else if b == table_blocks num_inodes
      then sector root_entries 0
      else replicate env.block_size 0
