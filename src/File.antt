-- ===== src/File.antt =====
-- Free lists and the blocks of a file in yfs.c: get_next_free_bnum, add_b_freelist,
-- get_next_inum_free, add_free_i_list, get_nth_b, clear_file and zero_file.
pub mod Ends
pub mod Contents
pub mod Locate
pub mod Overwrite
pub mod Patch
use model_lib.Prelude.{
  ℕ, zero, suc, ◌+◌, ◌-◌, ◌*◌, ◌/◌, List, [], ◌∷◌, Bool, false, ◌==◌, ltb, leb, not, ◌&&◌,
  if◌then◌else◌, get_or, set,
}
use model_lib.Env.{Env, Ptr}
use model_lib.Machine.{M, ok, out_of_fuel, pure, ◌>>=◌, ◌>>◌, when, get, put}
use model_lib.Buffer.{read_block, write_block, read_inode, write_inode, mark_i_dirty, get_b, get_i}

-- Neither count falls when a number is taken.
unfoldable pub pop_b : List ℕ → M ℕ
pop_b [] s = ok 0 s
pop_b (b_num ∷ rest) s = ok b_num (record s { b_head = rest })

unfoldable pub get_next_free_bnum : M ℕ
get_next_free_bnum s = pop_b s.b_head s

unfoldable pub add_b_freelist : ℕ → M (Unit {0})
add_b_freelist b_num s =
    ok tt (record s { b_head = b_num ∷ s.b_head; free_b_count = s.free_b_count + 1 })

unfoldable pub add_free_i_list : ℕ → M (Unit {0})
add_free_i_list i_num s =
    ok tt (record s { i_head = i_num ∷ s.i_head; free_i_count = s.free_i_count + 1 })

module _ ⦃env : Env⦄ where
  -- `i_head` is read again after get_i, which leaves it as it is
  unfoldable pub take_inum : List ℕ → M ℕ
  take_inum [] = pure 0
  take_inum (i_num ∷ rest) = do
    p ← get_i i_num
    inode ← read_inode p
    write_inode p (record inode { reuse = env.reuse_value (inode.reuse + 1) })
    mark_i_dirty i_num
    s ← get
    put (record s { i_head = rest })
    pure i_num

  unfoldable pub get_next_inum_free : M ℕ
  get_next_inum_free s = take_inum s.i_head s

  -- the number of blocks that an inode can name
  abbrev pub max_blocks : ℕ
  max_blocks = env.num_direct + env.block_size / env.int_size

  unfoldable pub read_indirect : Ptr → ℕ → M ℕ
  read_indirect b_indir k = do
    bytes ← read_block b_indir (k * env.int_size) env.int_size
    pure (env.decode_int bytes)

  unfoldable pub direct_b : Ptr → ℕ → Bool → M ℕ
  direct_b p n finish = do
    when finish (do
      b_num ← get_next_free_bnum
      inode ← read_inode p
      write_inode p (record inode { direct = set inode.direct n b_num }))
    inode ← read_inode p
    pure (get_or inode.direct n 0)

  unfoldable pub indirect_b : Ptr → ℕ → Bool → M ℕ
  indirect_b p n finish = do
    inode ← read_inode p
    b_indir ← get_b inode.indirect
    when finish (do
      b_num ← get_next_free_bnum
      write_block b_indir ((n - env.num_direct) * env.int_size) (env.encode_int b_num))
    read_indirect b_indir (n - env.num_direct)

  unfoldable pub locate_b : Ptr → ℕ → Bool → Bool → M ℕ
  locate_b p n finish allocate =
      if finish && not allocate
      then pure 0
      else (if ltb n env.num_direct then direct_b p n finish else indirect_b p n finish)

  unfoldable pub get_nth_b : Ptr → ℕ → Bool → M ℕ
  get_nth_b p n allocate =
      if leb max_blocks n
      then pure 0
      else do inode ← read_inode p; locate_b p n (leb inode.size (n * env.block_size)) allocate

  -- `while ((b_num = get_nth_b(inode, i++, false)) != 0)`, which gives back each block
  unfoldable pub free_blocks : ℕ → Ptr → ℕ → M (Unit {0})
  free_blocks zero p i = λ s. out_of_fuel
  free_blocks (suc fuel) p i = do
    b_num ← get_nth_b p i false
    if b_num == 0 then pure tt else do add_b_freelist b_num; free_blocks fuel p (i + 1)

  -- get_nth_b returns 0 at `max_blocks` at the latest
  unfoldable pub clear_file : Ptr → M (Unit {0})
  clear_file p = do
    free_blocks (max_blocks + 1) p 0
    inode ← read_inode p
    write_inode p (record inode { size = 0 })

  unfoldable pub zero_file : ℕ → M (Unit {0})
  zero_file i_num = do p ← get_i i_num; clear_file p; mark_i_dirty i_num
