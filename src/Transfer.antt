-- ===== src/Transfer.antt =====
-- The contents of files in yfs.c: handle_read and handle_write with their helpers.
pub mod Ends
pub mod Rounds
pub mod Copy
pub mod Read
pub mod ReadFile
pub mod HandleRead
pub mod Store
pub mod Write
pub mod WriteFile
pub mod HandleWrite
pub mod RoundTrip
pub mod ReadErrors
use model_lib.Prelude.{
  ℕ, zero, suc, ◌+◌, ◌-◌, ◌/◌, ◌%◌, Option, none, some, Bool, true, false, not, ltb, ◌==◌, ◌||◌,
  if◌then◌else◌,
}
use model_lib.Prelude.Int.{ℤ, pos, negsuc, ltb_ℤ, leb_ℤ, eqb_ℤ}
use model_lib.Env.{Env, Bytes, Ptr, null, Inode}
use model_lib.Machine.{M, out_of_fuel, pure, ◌>>=◌, ◌>>◌, when, crash, copy_to, copy_from, sub_int}
use model_lib.Buffer.{
  read_block, write_block, read_inode, write_inode, mark_b_dirty, mark_i_dirty, get_b, get_i,
  inode_num,
}
use model_lib.File.{get_nth_b, max_blocks}
use model_lib.FilePath.{is_regular}

-- The variables of the copying loops. `leftover_bytes` is positive where a round begins, and no
-- round copies more.
pub record Cursor : Type 0 where
  pub buf : Ptr
  pub b_offset : ℕ
  pub leftover_bytes : ℕ
  pub num_bytes : ℕ

-- a `bool` that is returned as an `int`
abbrev pub int_of_bool : Bool → ℤ
int_of_bool true = pos 1
int_of_bool false = pos 0

unfoldable pub is_valid_inputs : ℤ → Ptr → (size byte_offset : ℤ) → Bool
is_valid_inputs i_num buf size byte_offset =
    not (buf == null || ltb_ℤ size (pos 0) || ltb_ℤ byte_offset (pos 0) || leb_ℤ i_num (pos 0))

unfoldable pub is_valid_i : Inode → Bool
is_valid_i inode = is_regular inode.type

unfoldable pub get_num_bytes_left : (byte_offset size : ℤ) → Inode → M ℤ
get_num_bytes_left byte_offset size inode = do
  left ← sub_int (pos inode.size) byte_offset
  pure (if ltb_ℤ left size then left else size)

module _ ⦃env : Env⦄ where
  -- read_update and write_update, which are one function, after `num_bytes` were copied
  unfoldable pub read_update : Cursor → Cursor
  read_update cur = record {
    buf = cur.buf + cur.num_bytes;
    b_offset = 0;
    leftover_bytes = cur.leftover_bytes - cur.num_bytes;
    num_bytes = env.block_size;
  }

  unfoldable pub write_update : Cursor → Cursor
  write_update cur = record {
    buf = cur.buf + cur.num_bytes;
    b_offset = 0;
    leftover_bytes = cur.leftover_bytes - cur.num_bytes;
    num_bytes = env.block_size;
  }

  unfoldable pub get_num_copy_bytes : (leftover_bytes b_offset : ℕ) → ℕ
  get_num_copy_bytes leftover_bytes b_offset =
      let num_bytes = env.block_size - b_offset in
      if ltb leftover_bytes num_bytes then leftover_bytes else num_bytes

  -- `if (leftover_bytes < num_bytes) num_bytes = leftover_bytes`
  unfoldable pub clip : Cursor → Cursor
  clip cur =
      if ltb cur.leftover_bytes cur.num_bytes
      then record cur { num_bytes = cur.leftover_bytes }
      else cur

  -- The loop of handle_read from block `i`; `false` is `return ERROR`.
  unfoldable pub read_blocks : ℕ → (pid : ℕ) → Ptr → (i : ℕ) → Cursor → M Bool
  read_blocks zero pid p i cur = λ s. out_of_fuel
  read_blocks (suc fuel) pid p i cur = if cur.leftover_bytes == 0 then pure true else do
    b_num ← get_nth_b p i false
    if b_num == 0 then pure false else do
      cur_b ← get_b b_num
      let cur' = clip cur
      bytes ← read_block cur_b cur'.b_offset cur'.num_bytes
      copied ← copy_to pid cur'.buf bytes
      if copied then read_blocks fuel pid p (i + 1) (read_update cur') else pure false

  -- get_nth_b returns 0 at `max_blocks` at the latest
  unfoldable pub read_from : (pid : ℕ) → Ptr → (byte_offset leftover_bytes : ℕ) → Ptr → M ℤ
  read_from pid p byte_offset leftover_bytes buf = do
    let b_offset = byte_offset % env.block_size
    done ← read_blocks (max_blocks + 1) pid p (byte_offset / env.block_size) (record {
      buf = buf;
      b_offset = b_offset;
      leftover_bytes = leftover_bytes;
      num_bytes = env.block_size - b_offset;
    })
    pure (if done then pos leftover_bytes else env.error)

  -- A round at an offset of -(n + 1): the block's index is `offset / BLOCKSIZE`, rounded to 0. A
  -- negative index lies outside `direct`, and a negative offset outside the block.
  unfoldable pub before_start : Ptr → ℕ → Bool → M ℤ
  before_start p n allocate =
      if ltb (n + 1) env.block_size
      then (do
        b_num ← get_nth_b p 0 allocate
        if b_num == 0 then pure env.error else (do get_b b_num; crash))
      else crash

  -- `for (...; leftover_bytes > 0; ...)`, whose first test fails at 0 and below
  unfoldable pub read_at : (pid : ℕ) → Ptr → (byte_offset leftover_bytes : ℤ) → Ptr → M ℤ
  read_at pid p byte_offset (negsuc n) buf = pure (negsuc n)
  read_at pid p byte_offset (pos zero) buf = pure (pos 0)
  read_at pid p (negsuc n) (pos (suc left)) buf = before_start p n false
  read_at pid p (pos off) (pos (suc left)) buf = read_from pid p off (suc left) buf

  -- The test compares a `bool` with ERROR.
  unfoldable pub handle_read : ℤ → Ptr → (size byte_offset : ℤ) → (pid : ℕ) → M ℤ
  handle_read i_num buf size byte_offset pid =
      if eqb_ℤ (int_of_bool (is_valid_inputs i_num buf size byte_offset)) env.error
      then pure env.error
      else do
        n ← inode_num i_num
        p ← get_i n
        inode ← read_inode p
        if ltb_ℤ (pos inode.size) byte_offset then pure env.error else do
          leftover_bytes ← get_num_bytes_left byte_offset size inode
          read_at pid p byte_offset leftover_bytes buf

  unfoldable pub update_i_size : Ptr → (size byte_offset leftover_bytes : ℕ) → M (Unit {0})
  update_i_size p size byte_offset leftover_bytes = do
    inode ← read_inode p
    let wrote_bytes = size - leftover_bytes
    when (ltb inode.size (wrote_bytes + byte_offset))
        (write_inode p (record inode { size = wrote_bytes + byte_offset }))

  -- The rest of a round, with what CopyFrom returned; `false` is `return ERROR`. `leftover_bytes`
  -- is the one after write_update.
  unfoldable pub store_copied :
      Ptr
      → (size byte_offset b_num : ℕ) → (cur_b : Ptr) → (b_offset leftover_bytes : ℕ) → Option Bytes
      → M Bool
  store_copied p size byte_offset b_num cur_b b_offset leftover_bytes none = pure false
  store_copied p size byte_offset b_num cur_b b_offset leftover_bytes (some bytes) = do
    write_block cur_b b_offset bytes
    mark_b_dirty b_num
    update_i_size p size byte_offset leftover_bytes
    pure true

  unfoldable pub write_blocks :
      ℕ → (pid : ℕ) → Ptr → (size byte_offset : ℕ) → (i : ℕ) → Cursor → M Bool
  write_blocks zero pid p size byte_offset i cur = λ s. out_of_fuel
  write_blocks (suc fuel) pid p size byte_offset i cur =
      if cur.leftover_bytes == 0 then pure true else do
        b_num ← get_nth_b p i true
        if b_num == 0 then pure false else do
          cur_b ← get_b b_num
          let n = get_num_copy_bytes cur.leftover_bytes cur.b_offset
          let cur' = write_update (record cur { num_bytes = n })
          copied ← copy_from pid cur.buf n
          done ← store_copied p size byte_offset b_num cur_b cur.b_offset cur'.leftover_bytes copied
          if done then write_blocks fuel pid p size byte_offset (i + 1) cur' else pure false

  -- the end of handle_write, which an error skips
  unfoldable pub finish_write : (i_num : ℕ) → (size : ℤ) → Bool → M ℤ
  finish_write i_num size false = pure env.error
  finish_write i_num size true = do mark_i_dirty i_num; pure size

  unfoldable pub write_at : (pid : ℕ) → ℕ → Ptr → (byte_offset size : ℤ) → Ptr → M ℤ
  write_at pid i_num p byte_offset (negsuc n) buf = finish_write i_num (negsuc n) true
  write_at pid i_num p byte_offset (pos zero) buf = finish_write i_num (pos 0) true
  write_at pid i_num p (negsuc n) (pos (suc size)) buf = before_start p n true
  write_at pid i_num p (pos off) (pos (suc size)) buf = do
    let b_offset = off % env.block_size
    done ← write_blocks (max_blocks + 1) pid p (suc size) off (off / env.block_size) (record {
      buf = buf;
      b_offset = b_offset;
      leftover_bytes = suc size;
      num_bytes = get_num_copy_bytes (suc size) b_offset;
    })
    finish_write i_num (pos (suc size)) done

  unfoldable pub handle_write : ℤ → Ptr → (size byte_offset : ℤ) → (pid : ℕ) → M ℤ
  handle_write i_num buf size byte_offset pid = do
    n ← inode_num i_num
    p ← get_i n
    inode ← read_inode p
    if eqb_ℤ (int_of_bool (is_valid_i inode)) env.error
        then pure env.error
        else write_at pid n p byte_offset size buf
