-- ===== src/Dir/Entries.antt =====
-- A directory as the list of its entries, and the search of that list: what the loops of get_dir_entry
-- in yfs.c implement.
use model_lib.Prelude.{
  ℕ, zero, suc, ◌+◌, ◌*◌, ◌/◌, ◌%◌, ◌<◌, ◌≤◌, ◌≡◌, Option, none, some, List, [], ◌∷◌, ◌==◌,
  if◌then◌else◌,
}
use model_lib.Env.{Env, Bytes, Inode, DirEntry}
use model_lib.Dir.{Entry, name_eq}
use model_lib.File.Contents.{block_of, bytes_from}

-- A block is divided into entries.
pub record IsDivided (env : Env) : Type 0 where
  pub per_block : ℕ
  pub entry_size_pos : 0 < env.entry_size
  pub whole : per_block * env.entry_size ≡ env.block_size

module _ ⦃env : Env⦄ where
  -- the entry at a position of the directory's file
  abbrev pub entry_at : Inode → (ℕ → Bytes) → ℕ → DirEntry
  entry_at inode view pos = env.decode_entry (bytes_from inode view pos env.entry_size)

  -- `n` entries from a position on, each with its position
  abbrev pub entries : Inode → (ℕ → Bytes) → (pos n : ℕ) → List (ℕ × DirEntry)
  entries inode view pos zero = []
  entries inode view pos (suc n) =
      (pos, entry_at inode view pos) ∷ entries inode view (pos + env.entry_size) n

  -- all of them
  abbrev pub directory : Inode → (ℕ → Bytes) → List (ℕ × DirEntry)
  directory inode view = entries inode view 0 (inode.size / env.entry_size)

  -- the first entry with this name
  abbrev pub find_name : Bytes → List (ℕ × DirEntry) → Option ℕ
  find_name path [] = none
  find_name path (e ∷ es) =
      let rest = find_name path es in
      if name_eq env.dir_name_len path e.1.name then some e.0 else rest

  -- the first free entry, or the one that was found before
  abbrev pub first_free : Option ℕ → List (ℕ × DirEntry) → Option ℕ
  first_free (some pos) es = some pos
  first_free none [] = none
  first_free none (e ∷ es) =
      let rest = first_free none es in if e.1.inum == 0 then some e.0 else rest

  -- Where a position lies: the offset in its block, and the block's number.
  abbrev pub place : Inode → (ℕ → Bytes) → Option ℕ → Entry
  place inode view none = (none, 0)
  place inode view (some pos) =
      (some (pos % env.block_size), block_of inode view (pos / env.block_size))

  -- The file holds `n` more whole entries from a position on.
  pub record Remain (inode : Inode) (pos n : ℕ) : Type 0 where
    pub holds : pos + n * env.entry_size ≤ inode.size
    pub ends : inode.size < pos + n * env.entry_size + env.entry_size
