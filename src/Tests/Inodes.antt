-- ===== src/Tests/Inodes.antt =====
-- The theorems on the inode cache at a cache of two inodes, which is full, over an empty block cache.
use model_lib.Prelude.{
  some_inj, ◌≢◌, ◌<◌, ◌*◌, ◌++◌, ℕ, zero, suc, ◌≡◌, ◌≤◌, refl, sym, ap, inl, inr, Bool-cases, none,
  some, [], ◌∷◌, true, ◌==◌, arith, replicate,
}
use model_lib.Prelude.Int.{pos, negsuc}
use model_lib.Env.{Env, Bytes, Inode, inode_regular, inode_directory, IsLayout}
use model_lib.Queue.Seg.{Cell}
use model_lib.Cache.{empty_cache}
use model_lib.Cache.Cells.{find}
use model_lib.Cache.Start.{empty_cache-IsCache}
use model_lib.Machine.{read_memory, ◌>>◌, Sys}
use model_lib.Buffer.{get_i, inode_block}
use model_lib.Buffer.Inodes.{IsSys}
use model_lib.Buffer.LoadInode.{GotInode}
use model_lib.Buffer.GetInode.{get_i-GotInode}
use model_lib.File.Contents.{IsFile, block_of}
use model_lib.File.Overwrite.{IsApart}
use model_lib.Transfer.{handle_read, handle_write}
use model_lib.Transfer.WriteFile.{HasWritten}
use model_lib.Transfer.HandleWrite.{handle_write-HasWritten}
use model_lib.Cache.Access.{get_addr-some}
use model_lib.File.{get_nth_b}
use model_lib.File.Locate.{Quiet, get_nth_b-Quiet}
use model_lib.Transfer.ReadErrors.{handle_read-error}
use model_lib.Transfer.RoundTrip.{IsRoundTrip, handle_read-handle_write}
use model_lib.Transfer.ReadFile.{HasRead}
use model_lib.Transfer.HandleRead.{handle_read-HasRead}
use model_lib.Tests.{env}
use model_lib.Tests.Layout.{env-IsLayout}
use model_lib.Tests.Pair.{item_3, item_2, full_cache, full_cache-IsCache}

instance abbrev pub small_env : Env
small_env = record env { block_cache_size = 2; inode_cache_size = 2 }

abbrev pub layout : IsLayout small_env
layout = record {
  inode_size_pos = env-IsLayout.inode_size_pos;
  inode_size-le = env-IsLayout.inode_size-le;
  disk-le = env-IsLayout.disk-le;
  length-encode = env-IsLayout.length-encode;
  fits-decode = env-IsLayout.fits-decode;
  decode-encode = env-IsLayout.decode-encode;
}

-- a regular file of 40 bytes in blocks 5 and 6
abbrev pub file : Inode
file = record {
  type = inode_regular;
  nlink = pos 1;
  reuse = 0;
  size = 40;
  direct = 5 ∷ 6 ∷ [];
  indirect = 0;
}

-- the inode that the bytes of the table of inodes give
abbrev pub folder : Inode
folder = record {
  type = inode_directory;
  nlink = pos 1;
  reuse = 1;
  size = 1;
  direct = 1 ∷ 1 ∷ [];
  indirect = 1;
}

-- Inodes 3 and 2 are cached, and 3 is dirty.
abbrev pub state : Sys
state = record {
  disk = λ b. replicate 32 b;
  blocks = empty_cache 2;
  inodes = full_cache file folder;
  i_head = [];
  b_head = 7 ∷ [];
  free_i_count = 0;
  free_b_count = 0;
  user = λ pid a. a;
}

known :
    (i : ℕ) (c : Cell Inode)
    → find (item_3 file ∷ item_2 folder ∷ []) i ≡ some c
    → (i ≤ 8) × (env.fits c.addr ≡ true)
known i c found = elim (Bool-cases (3 == i)) [
  | inl e ↦
      let here : item_3 file ≡ c = some_inj (rw e at found) in
      (ground arith, ap (λ (z : Cell Inode). env.fits z.addr) (sym here))
  | inr e ↦ elim (Bool-cases (2 == i)) [
    | inl e' ↦
        let here : item_2 folder ≡ c = some_inj (rw (e, e') at found) in
        (ground arith, ap (λ (z : Cell Inode). env.fits z.addr) (sym here))
    | inr e' ↦ let absent : none ≡ some c = rw (e, e') at found in absurd (ground (arith, absent))
  ]
]

pub state-IsSys : IsSys 8 state [] (item_3 file ∷ item_2 folder ∷ [])
state-IsSys = record {
  blocks = empty_cache-IsCache {A = Bytes} 2;
  inodes = full_cache-IsCache file folder;
  blocks_fit = omega arith;
  inodes_fit = omega arith;
  sized = λ b lt. refl;
  known = known;
}

get_i-GotInode_example :
    GotInode 8 state [] (item_3 file ∷ item_2 folder ∷ []) (item_2 folder ∷ []) 5 (get_i 5 state)
unfolding inode_block
get_i-GotInode_example =
    get_i-GotInode layout 8 (omega arith) (omega arith) state [] (item_3 file ∷ item_2 folder ∷ [])
      5 state-IsSys (omega arith) (λ e. refl) (omega arith)

placed :
    (n : ℕ)
    → n * 32 < 40
    → (inode_block 8 < block_of file state.disk n) × (block_of file state.disk n < 12)
unfolding inode_block
placed zero lt = (omega arith, omega arith)
placed (suc zero) lt = (omega arith, omega arith)
placed (suc (suc n)) lt = absurd (omega (arith, lt))

pub file-IsFile : IsFile 8 file state.disk
file-IsFile = record { placed = placed; indirect = λ far. absurd (omega (arith, far)) }

-- 20 bytes from position 30 on, of which the file has 10, in two blocks
handle_read-HasRead_example :
    HasRead 8 1 100
      (replicate 2 5 ++ replicate 8 6)
      state
      []
      (item_3 file ∷ item_2 folder ∷ [])
      (pos 10)
      (handle_read (pos 3) 100 (pos 20) (pos 30) 1 state)
unfolding inode_block
handle_read-HasRead_example =
    handle_read-HasRead layout 8 (omega arith) (omega arith) 1 3 100 20 30 state []
      (item_3 file ∷ item_2 folder ∷ []) state-IsSys (omega arith) (λ e. refl) (omega arith) refl
      file-IsFile (omega arith) (omega arith) (λ a n le le'. refl)

-- blocks 5 and 6 are two blocks
apart :
    (n m : ℕ)
    → n * 32 < 40
    → m * 32 < 40
    → n ≢ m
    → block_of file state.disk n ≢ block_of file state.disk m
apart zero zero n_lt m_lt ne = absurd (ne refl)
apart zero (suc zero) n_lt m_lt ne = λ e. omega (arith, e)
apart (suc zero) zero n_lt m_lt ne = λ e. omega (arith, e)
apart (suc zero) (suc zero) n_lt m_lt ne = absurd (ne refl)
apart zero (suc (suc m)) n_lt m_lt ne = absurd (omega (arith, m_lt))
apart (suc zero) (suc (suc m)) n_lt m_lt ne = absurd (omega (arith, m_lt))
apart (suc (suc n)) m n_lt m_lt ne = absurd (omega (arith, n_lt))

pub file-IsApart : IsApart file state.disk
file-IsApart = record { blocks = apart; indirect = λ n lt far. absurd (omega (arith, far)) }

-- 8 bytes to position 30, in two blocks
handle_write-HasWritten_example :
    HasWritten 8 file 30
      (200 ∷ 201 ∷ 202 ∷ 203 ∷ 204 ∷ 205 ∷ 206 ∷ 207 ∷ [])
      state
      []
      (item_3 file ∷ item_2 folder ∷ [])
      (pos 8)
      (handle_write (pos 3) 200 (pos 8) (pos 30) 1 state)
unfolding inode_block read_memory
handle_write-HasWritten_example =
    handle_write-HasWritten layout 8 (omega arith) (omega arith) 1 3 200 8 30 state []
      (item_3 file ∷ item_2 folder ∷ []) state-IsSys (omega arith) (λ e. refl) (omega arith) refl
      file-IsFile file-IsApart (omega arith) (λ a n le le'. refl)

handle_read-handle_write_example : IsRoundTrip 1 200 8 2 300 state (
    (do handle_write (pos 3) 200 (pos 8) (pos 30) 1; handle_read (pos 3) 300 (pos 8) (pos 30) 2)
      state)
unfolding inode_block
handle_read-handle_write_example =
    handle_read-handle_write layout 8 (omega arith) (omega arith) 1 3 200 8 30 2 300 state []
      (item_3 file ∷ item_2 folder ∷ []) state-IsSys (omega arith) (λ e. refl) (omega arith) refl
      file-IsFile file-IsApart (omega arith) (omega arith) (λ a n le le'. refl) (λ a n le le'. refl)

handle_read-error_example :
    HasRead 8 1 100 [] state []
      (item_3 file ∷ item_2 folder ∷ [])
      (negsuc 0)
      (handle_read (pos 3) 100 (pos 20) (pos 41) 1 state)
unfolding inode_block
handle_read-error_example =
    handle_read-error layout 8 (omega arith) (omega arith) 1 3 100 20 41 state []
      (item_3 file ∷ item_2 folder ∷ []) state-IsSys (omega arith) (λ e. refl) (omega arith) refl
      (omega arith)

get_nth_b-Quiet_example : Quiet state [] 6 (get_nth_b 5 1 true state)
get_nth_b-Quiet_example =
    get_nth_b-Quiet state [] 5 file 1
      (record { cache = empty_cache-IsCache {A = Bytes} 2; fits = omega arith; room = omega arith })
      (get_addr-some state.inodes [] (item_3 file) (item_2 folder ∷ []) state-IsSys.inodes) true
      refl (λ far. absurd (omega (arith, far)))
