-- ===== src/Env.antt =====
-- What yfs.c, iolib.c and mkyfs.c take from the course's headers (comp421/filesystem.h,
-- comp421/yalnix.h, comp421/iolib.h), from the kernel and from malloc: the constants, the layout
-- of the on-disk structures, which user buffers may be copied, and what fresh memory holds.
use model_lib.Prelude.{◌*◌, ◌^◌, ℕ, ◌≤◌, ◌<◌, ◌≡◌, Bool, true, List, length}
use model_lib.Prelude.Int.{ℤ}

abbrev pub Bytes : Type 0
Bytes = List ℕ

-- Addresses of cache items, and addresses of user memory; 0 is NULL.
abbrev pub Ptr : Type 0
Ptr = ℕ

abbrev pub null : Ptr
null = 0

-- The values of the field `type` that the source names, and any other.
pub data InodeType : Type 0 where
  inode_free inode_directory inode_regular : InodeType
  inode_other : ℕ → InodeType

-- `struct inode`. A count of bytes and a block number are natural numbers.
pub record Inode : Type 0 where
  pub type : InodeType
  pub nlink : ℤ
  pub reuse : ℕ
  pub size : ℕ
  pub direct : List ℕ
  pub indirect : ℕ

-- `struct dir_entry`: `name` holds DIRNAMELEN characters.
pub record DirEntry : Type 0 where
  pub inum : ℕ
  pub name : Bytes

pub record Header : Type 0 where
  pub num_blocks : ℕ
  pub num_inodes : ℕ

-- `struct Stat`
pub record Stat : Type 0 where
  pub inum : ℕ
  pub type : InodeType
  pub size : ℕ
  pub nlink : ℤ

pub record Env : Type 0 where
  -- filesystem.h, iolib.h
  pub block_size : ℕ
  pub inode_size : ℕ
  pub num_direct : ℕ
  pub dir_name_len : ℕ
  pub max_path_name_len : ℕ
  pub root_inode : ℕ
  pub num_sectors : ℕ
  pub max_open_files : ℕ
  pub block_cache_size : ℕ
  pub inode_cache_size : ℕ
  -- `sizeof(struct dir_entry)`, `sizeof(int)`
  pub entry_size : ℕ
  pub int_size : ℕ
  -- `ERROR`, and the three values of `whence`
  pub error : ℤ
  pub seek_set : ℤ
  pub seek_cur : ℤ
  pub seek_end : ℤ
  -- the structures as bytes
  pub decode_inode : Bytes → Inode
  pub encode_inode : Inode → Bytes
  pub decode_entry : Bytes → DirEntry
  pub encode_entry : DirEntry → Bytes
  pub decode_int : Bytes → ℕ
  pub encode_int : ℕ → Bytes
  pub decode_header : Bytes → Header
  pub encode_header : Header → Bytes
  pub encode_stat : Stat → Bytes
  -- whether the fields of an inode are values that `struct inode` can hold
  pub fits : Inode → Bool
  -- what the fields nlink and reuse hold once a number was assigned to them
  pub nlink_value : ℤ → ℤ
  pub reuse_value : ℕ → ℕ
  -- whether CopyTo and CopyFrom of `n` bytes at an address of a process succeed
  pub writable : (pid : ℕ) (address : Ptr) (n : ℕ) → Bool
  pub readable : (pid : ℕ) (address : Ptr) (n : ℕ) → Bool
  -- what malloc leaves in the fields `next_c_item` and `dirty` of a new cache item, and in a block,
  -- by the address of the item, which is a new one each time
  pub fresh_next : Ptr → Ptr
  pub fresh_dirty : Ptr → Bool
  pub fresh_block : Ptr → Bytes

-- The layout of the structure of an inode: it takes INODESIZE bytes, a block holds at least one, and
-- an inode that is copied to a block and back is the same. Offsets in the disk are ints.
pub record IsLayout (env : Env) : Type 0 where
  pub inode_size_pos : 0 < env.inode_size
  pub inode_size-le : env.inode_size ≤ env.block_size
  pub disk-le : env.num_sectors * env.block_size ≤ 2 ^ 31
  pub length-encode : (inode : Inode) → length (env.encode_inode inode) ≡ env.inode_size
  pub fits-decode : (bytes : Bytes) → env.fits (env.decode_inode bytes) ≡ true
  pub decode-encode :
      (inode : Inode) → env.fits inode ≡ true → env.decode_inode (env.encode_inode inode) ≡ inode
