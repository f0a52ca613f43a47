-- ===== src/Tests/Tree.antt =====
-- The theorems on directories and paths at a tree: the root, inode 1, has the entries "a" for the file
-- 3 and "d" for the directory 2, which has the entry "f" for the same file.
use model_lib.Prelude.{
  some_inj, ℕ, zero, suc, ◌+◌, ◌*◌, ◌≤◌, ◌<◌, ◌≡◌, refl, sym, ap, inl, inr, Bool-cases, none, some,
  List, [], ◌∷◌, ◌++◌, true, false, ◌==◌, arith, replicate, length,
}
use model_lib.Prelude.Int.{pos, negsuc}
use model_lib.Env.{Bytes, Inode, inode_regular, inode_directory}
use model_lib.Queue.Seg.{Cell}
use model_lib.Cache.{empty_cache}
use model_lib.Cache.Cells.{find}
use model_lib.Cache.Start.{empty_cache-IsCache}
use model_lib.Machine.{Sys, fault}
use model_lib.Buffer.{inode_block, inode_offset, slice}
use model_lib.Buffer.Inodes.{inode_content, IsSys}
use model_lib.Buffer.Kept.{Kept}
use model_lib.Create.{adj_path_i, handle_link, handle_unlink}
use model_lib.Create.Refused.{handle_unlink-Kept, handle_unlink-fault, handle_link-Kept}
use model_lib.Dir.{name_eq, get_dir_entry}
use model_lib.Dir.Entries.{IsDivided, entry_at}
use model_lib.Dir.GetEntry.{get_dir_entry-Kept}
use model_lib.File.Contents.{IsFile, block_of}
use model_lib.FilePath.{
  is_directory, from_root, skip_slashes, skip_name, get_next_path_part, last_slash,
}
use model_lib.Folders.{handle_mkdir}
use model_lib.Folders.Refused.{handle_mkdir-Kept}
use model_lib.FilePath.Tree.{IsTree, arrives, here, above}
use model_lib.Lookup.{handle_stat}
use model_lib.Lookup.Resolve.{IsTold, handle_stat-IsTold}
use model_lib.Tests.Inodes.{small_env, layout}
use model_lib.Tests.Pair.{item_3, item_2, full_cache, full_cache-IsCache}

abbrev root_dir : Bytes
root_dir = 1 ∷ 1 ∷ 0 ∷ 8 ∷ 5 ∷ 0 ∷ 0 ∷ 0 ∷ []

abbrev tree_disk : ℕ → Bytes
tree_disk zero = replicate 32 0
tree_disk (suc zero) = replicate 8 0 ++ (root_dir ++ replicate 16 0)
tree_disk (suc (suc zero)) = replicate 32 0
tree_disk (suc (suc (suc zero))) = replicate 32 0
tree_disk (suc (suc (suc (suc zero)))) = replicate 32 0
tree_disk (suc (suc (suc (suc (suc zero))))) = 3 ∷ b'a' ∷ 0 ∷ 0 ∷ 2 ∷ b'd' ∷ 0 ∷ 0 ∷ replicate 24 0
tree_disk (suc (suc (suc (suc (suc (suc n)))))) = 3 ∷ b'f' ∷ 0 ∷ 0 ∷ replicate 28 0

abbrev text_file : Inode
text_file = record {
  type = inode_regular;
  nlink = pos 2;
  reuse = 0;
  size = 0;
  direct = 0 ∷ 0 ∷ [];
  indirect = 0;
}

abbrev sub_dir : Inode
sub_dir = record {
  type = inode_directory;
  nlink = pos 1;
  reuse = 0;
  size = 4;
  direct = 6 ∷ 0 ∷ [];
  indirect = 0;
}

abbrev cached : List (Cell Inode)
cached = item_3 text_file ∷ item_2 sub_dir ∷ []

abbrev tree_state : Sys
tree_state = record {
  disk = tree_disk;
  blocks = empty_cache 2;
  inodes = full_cache text_file sub_dir;
  i_head = [];
  b_head = [];
  free_i_count = 0;
  free_b_count = 0;
  user = λ pid a. a;
}

known : (i : ℕ) (c : Cell Inode) → find cached i ≡ some c → (i ≤ 3) × (small_env.fits c.addr ≡ true)
known i c found = elim (Bool-cases (3 == i)) [
  | inl e ↦
      let here : item_3 text_file ≡ c = some_inj (rw e at found) in
      (ground arith, ap (λ (z : Cell Inode). small_env.fits z.addr) (sym here))
  | inr e ↦ elim (Bool-cases (2 == i)) [
    | inl e' ↦
        let here : item_2 sub_dir ≡ c = some_inj (rw (e, e') at found) in
        (ground arith, ap (λ (z : Cell Inode). small_env.fits z.addr) (sym here))
    | inr e' ↦ let absent : none ≡ some c = rw (e, e') at found in absurd (ground (arith, absent))
  ]
]

sized : (b : ℕ) → b < 12 → length (tree_disk b) ≡ 32
sized zero lt = refl
sized (suc zero) lt = refl
sized (suc (suc zero)) lt = refl
sized (suc (suc (suc zero))) lt = refl
sized (suc (suc (suc (suc zero)))) lt = refl
sized (suc (suc (suc (suc (suc zero))))) lt = refl
sized (suc (suc (suc (suc (suc (suc n)))))) lt = refl

tree_state-IsSys : IsSys 3 tree_state [] cached
tree_state-IsSys = record {
  blocks = empty_cache-IsCache {A = Bytes} 2;
  inodes = full_cache-IsCache text_file sub_dir;
  blocks_fit = omega arith;
  inodes_fit = omega arith;
  sized = sized;
  known = known;
}

abbrev files : ℕ → Inode
files = inode_content [] tree_disk cached

placed_root :
    (n : ℕ)
    → n * 32 < 8
    → (inode_block 3 < block_of (files 1) tree_disk n) × (block_of (files 1) tree_disk n < 12)
unfolding inode_block inode_offset slice
placed_root zero lt = (omega arith, omega arith)
placed_root (suc n) lt = absurd (omega (arith, lt))

placed_sub :
    (n : ℕ)
    → n * 32 < 4
    → (inode_block 3 < block_of (files 2) tree_disk n) × (block_of (files 2) tree_disk n < 12)
unfolding inode_block
placed_sub zero lt = (omega arith, omega arith)
placed_sub (suc n) lt = absurd (omega (arith, lt))

stored : (i : ℕ) → i ≤ 3 → is_directory (files i).type ≡ true → IsFile 3 (files i) tree_disk
unfolding inode_block inode_offset slice
stored zero le dir = absurd (cc)
stored (suc zero) le dir = record {
  placed = placed_root;
  indirect = λ far. absurd (omega (arith, far));
}
stored (suc (suc zero)) le dir = record {
  placed = placed_sub;
  indirect = λ far. absurd (omega (arith, far));
}
stored (suc (suc (suc zero))) le dir = absurd (cc)
stored (suc (suc (suc (suc i)))) le dir = absurd (omega (arith, le))

linked :
    (i k : ℕ)
    → i ≤ 3
    → is_directory (files i).type ≡ true
    → k * 4 + 4 ≤ (files i).size
    → (entry_at (files i) tree_disk (k * 4)).inum ≤ 3
unfolding inode_offset inode_block slice
linked zero k le dir room = absurd (cc)
linked (suc zero) zero le dir room = omega arith
linked (suc zero) (suc zero) le dir room = omega arith
linked (suc zero) (suc (suc k)) le dir room = absurd (omega (arith, room))
linked (suc (suc zero)) zero le dir room = omega arith
linked (suc (suc zero)) (suc k) le dir room = absurd (omega (arith, room))
linked (suc (suc (suc zero))) k le dir room = absurd (cc)
linked (suc (suc (suc (suc i)))) k le dir room = absurd (omega (arith, le))

divided : IsDivided small_env
divided = record { per_block = 8; entry_size_pos = omega arith; whole = refl }

tree : IsTree 3 files tree_disk
tree = record { stored = stored; linked = linked }

-- the entry "d" of the root
get_dir_entry-Kept_example :
    Kept 3 tree_state [] cached (some 4, 5) (get_dir_entry (b'd' ∷ []) 1 false tree_state)
unfolding inode_block inode_offset slice name_eq
get_dir_entry-Kept_example =
    get_dir_entry-Kept layout 3 (omega arith) (omega arith) divided (b'd' ∷ []) 1 false tree_state
      [] cached tree_state-IsSys (λ e. refl) (omega arith) (omega arith)
      (stored 1 (omega arith) refl) (λ e. absurd (cc))

handle_stat-IsTold_example :
    IsTold 3 1 100
      (b'd' ∷ b'/' ∷ b'f' ∷ [])
      1
      tree_state
      []
      cached
      (handle_stat (some (b'd' ∷ b'/' ∷ b'f' ∷ [])) (pos 1) 100 1 tree_state)
unfolding inode_block from_root
handle_stat-IsTold_example =
    handle_stat-IsTold layout 3 (omega arith) (omega arith) (omega arith) divided 1 100 tree_state
      [] cached (b'd' ∷ b'/' ∷ b'f' ∷ []) (b'd' ∷ b'/' ∷ b'f' ∷ []) 1 1 tree_state-IsSys (λ e. refl)
      tree (omega arith) refl (omega arith) (omega arith) (λ stat. refl)

-- the root has no "x"
handle_unlink-Kept_example :
    Kept 3 tree_state [] cached (negsuc 0) (handle_unlink (some (b'x' ∷ [])) (pos 1) tree_state)
unfolding inode_block inode_offset slice from_root last_slash name_eq
handle_unlink-Kept_example =
    handle_unlink-Kept layout 3 (omega arith) (omega arith) (omega arith) divided tree_state []
      cached (b'x' ∷ []) (b'x' ∷ []) (b'x' ∷ []) 1 1 1 tree_state-IsSys (λ e. refl) tree
      (omega arith) refl (omega arith) (omega arith) (omega arith) (here refl refl refl)
      (omega arith) (λ dir. refl)

-- nor a directory "z"
handle_unlink-fault_example :
    handle_unlink (some (b'z' ∷ b'/' ∷ b'f' ∷ [])) (pos 1) tree_state ≡ fault
unfolding inode_block inode_offset slice from_root last_slash name_eq get_next_path_part skip_name
    skip_slashes
handle_unlink-fault_example =
    handle_unlink-fault layout 3 (omega arith) (omega arith) (omega arith) divided tree_state []
      cached (b'z' ∷ b'/' ∷ b'f' ∷ []) (b'z' ∷ b'/' ∷ b'f' ∷ []) (b'f' ∷ []) 1 1 tree_state-IsSys
      (λ e. refl) tree refl (omega arith) refl (omega arith) (omega arith) (omega arith)
      (above (omega arith) (arrives (b'z' ∷ []) 1 0 refl refl refl) refl) (omega arith)

-- "d" is a directory
handle_link-Kept_example :
    Kept 3 tree_state [] cached
      (negsuc 0)
      (handle_link (some (b'd' ∷ [])) (some (b'e' ∷ [])) (pos 1) tree_state)
unfolding inode_block inode_offset slice adj_path_i name_eq get_next_path_part skip_name
    skip_slashes
handle_link-Kept_example =
    handle_link-Kept layout 3 (omega arith) (omega arith) (omega arith) divided tree_state [] cached
      (b'd' ∷ []) (b'd' ∷ []) (b'e' ∷ []) 1 1 2 tree_state-IsSys (λ e. refl) tree (omega arith) refl
      (omega arith) (arrives (b'd' ∷ []) 1 2 refl refl refl) refl

-- the root has the name "d"
handle_mkdir-Kept_example :
    Kept 3 tree_state [] cached (negsuc 0) (handle_mkdir (some (b'd' ∷ [])) (pos 1) tree_state)
unfolding inode_block inode_offset slice from_root last_slash name_eq
handle_mkdir-Kept_example =
    handle_mkdir-Kept layout 3 (omega arith) (omega arith) (omega arith) divided tree_state []
      cached (b'd' ∷ []) (b'd' ∷ []) (b'd' ∷ []) 1 1 1 4 tree_state-IsSys (λ e. refl) tree
      (omega arith) refl (omega arith) (omega arith) (omega arith) (here refl refl refl)
      (omega arith) refl refl (omega arith)
