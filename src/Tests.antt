-- ===== src/Tests.antt =====
-- A small file system on which the theorems are tried: 32 byte blocks, inodes of 8 numbers with two
-- direct blocks, directory entries of 4 numbers.
mod Disk
mod Tables
mod Blocks
mod Client
mod Names
mod Layout
mod Pair
mod Inodes
mod Durable
mod Format
mod Tree
mod Reads
use model_lib.Prelude.{ℕ, zero, suc, [], ◌∷◌, ◌++◌, Bool, true, false, get_or, take, drop}
use model_lib.Prelude.Int.{ℤ, pos, negsuc, pos_part}
use model_lib.Env.{
  Env, Bytes, Inode, InodeType, inode_free, inode_directory, inode_regular, inode_other, DirEntry,
  Header, Stat,
}

abbrev pub type_of : ℕ → InodeType
type_of zero = inode_free
type_of (suc zero) = inode_directory
type_of (suc (suc zero)) = inode_regular
type_of (suc (suc (suc n))) = inode_other n

abbrev pub type_code : InodeType → ℕ
type_code inode_free = 0
type_code inode_directory = 1
type_code inode_regular = 2
type_code (inode_other n) = suc (suc (suc n))

abbrev pub fits_fields : ℤ → Bytes → Bool
fits_fields (pos n) (a ∷ b ∷ []) = true
fits_fields (pos n) [] = false
fits_fields (pos n) (a ∷ []) = false
fits_fields (pos n) (a ∷ b ∷ c ∷ rest) = false
fits_fields (negsuc n) direct = false

abbrev inode_of : Bytes → Inode
inode_of b = record {
  type = type_of (get_or b 0 0);
  nlink = pos (get_or b 1 0);
  reuse = get_or b 2 0;
  size = get_or b 3 0;
  direct = get_or b 4 0 ∷ get_or b 5 0 ∷ [];
  indirect = get_or b 6 0;
}

abbrev inode_bytes : Inode → Bytes
inode_bytes i =
    type_code i.type
    ∷ pos_part i.nlink
    ∷ i.reuse
    ∷ i.size
    ∷ get_or i.direct 0 0
    ∷ get_or i.direct 1 0
    ∷ i.indirect
    ∷ 0
    ∷ []

-- two direct blocks, and a number of links that is not negative
abbrev fits : Inode → Bool
fits i = fits_fields i.nlink i.direct

abbrev pub env : Env
env = record {
  block_size = 32;
  inode_size = 8;
  num_direct = 2;
  dir_name_len = 3;
  max_path_name_len = 16;
  root_inode = 1;
  num_sectors = 12;
  max_open_files = 3;
  block_cache_size = 4;
  inode_cache_size = 4;
  entry_size = 4;
  int_size = 1;
  error = negsuc 0;
  seek_set = pos 0;
  seek_cur = pos 1;
  seek_end = pos 2;
  decode_inode = inode_of;
  encode_inode = inode_bytes;
  decode_entry = λ b. record { inum = get_or b 0 0; name = take 3 (drop 1 b) };
  encode_entry = λ e. e.inum ∷ take 3 (e.name ++ 0 ∷ 0 ∷ 0 ∷ []);
  decode_int = λ b. get_or b 0 0;
  encode_int = λ n. n ∷ [];
  decode_header = λ b. record { num_blocks = get_or b 0 0; num_inodes = get_or b 1 0 };
  encode_header = λ h. h.num_blocks ∷ h.num_inodes ∷ 0 ∷ 0 ∷ 0 ∷ 0 ∷ 0 ∷ 0 ∷ [];
  encode_stat = λ s. s.inum ∷ type_code s.type ∷ s.size ∷ pos_part s.nlink ∷ [];
  fits = fits;
  writable = λ pid a n. true;
  readable = λ pid a n. true;
  nlink_value = λ n. n;
  reuse_value = λ n. n;
  fresh_next = λ p. 0;
  fresh_dirty = λ p. false;
  fresh_block = λ p. [];
}
