-- ===== src/Folders/Refused.antt =====
-- handle_mkdir on a name that the directory has: what it leaves unchanged.
use model_lib.Prelude.{
  ℕ, ◌≤◌, ◌<◌, ◌≡◌, refl, sym, ap, ◌∙◌, ◌/◌, inl, inr, Bool-cases, [], ◌∷◌, some, List, true, false,
  ◌==◌, arith, length,
}
use model_lib.Prelude.Int.{ℤ, pos, leb_ℤ}
use model_lib.Env.{Env, Bytes, Inode, IsLayout}
use model_lib.Queue.Seg.{Cell}
use model_lib.Machine.{Sys, ok, ◌>>=◌}
use model_lib.Buffer.{inode_block, inode_num, get_b}
use model_lib.Buffer.Evict.{content}
use model_lib.Buffer.Inodes.{inode_content, IsSys}
use model_lib.Buffer.Kept.{IsWarm, Kept, Kept-after}
use model_lib.Dir.{get_dir_entry, head_char, slash}
use model_lib.Dir.Entries.{IsDivided, entry_at, directory, find_name, place}
use model_lib.Dir.GetEntry.{pick_found}
use model_lib.File.Contents.{IsFile-same, block_of, block_of_behind, bytes_from_same}
use model_lib.FilePath.{is_directory, from_root, get_super_dir, skip_slashes}
use model_lib.FilePath.Tree.{IsTree, IsParent}
use model_lib.FilePath.Entry.{find_name-IsPlaced, read_entry-EntryRead}
use model_lib.FilePath.First.{Tells, Kept-Tells, pick-Kept}
use model_lib.FilePath.Super.{get_super_dir-Kept}
use model_lib.Folders.{mkdir_in, handle_mkdir}
use model_lib.Lookup.{update_path_i}

module _ ⦃env : Env⦄ where
  module _ (layout : IsLayout env) (last : ℕ) (table : inode_block last < env.num_sectors)
      (pos_cache : 0 < env.block_cache_size) (two : 1 < env.inode_cache_size)
      (divided : IsDivided env) (files : ℕ → Inode) (view : ℕ → Bytes)
      (tree : IsTree last files view) where
    mkdir_in-Kept :
        (n at_entry : ℕ) (name : Bytes) (s : Sys) (bs : List (Cell Bytes)) (is : List (Cell Inode))
        → Tells last files view s bs is
        → n ≤ last
        → is_directory (files n).type ≡ true
        → find_name name (directory (files n) view) ≡ some at_entry
        → 0 < (entry_at (files n) view at_entry).inum
        → Kept last s bs is env.error (mkdir_in (pos n, name) s)
    unfolding mkdir_in inode_num
    mkdir_in-Kept n at_entry name s bs is t le folder search used =
        let wide : 0 < env.block_size =
          omega (arith, layout.inode_size_pos, layout.inode_size-le) in
        let file = tree.stored n le folder in
        let picked = pick_found true name (directory (files n) view) at_entry search in
        let k =
          pick-Kept last files view layout table pos_cache two divided tree true name n s bs is t le
            file (λ e f. ground (arith, picked, f)) in
        let t₁ = Kept-Tells last files view s bs is _ _ k t in
        let view₁ = content k.cells k.state.disk in
        let same : (b : ℕ) → inode_block last < b → b < env.num_sectors → view b ≡ view₁ b =
          λ b behind lt. sym (t₁.blocks b behind lt) in
        let file₁ = IsFile-same last (files n) view view₁ same file in
        let at = find_name-IsPlaced name (files n) view at_entry divided wide search in
        let c =
          read_entry-EntryRead layout last table pos_cache ℤ k.state k.cells k.items (files n)
            at_entry k.valid k.warm file₁ at divided.entry_size_pos in
        let found : get_dir_entry name n true s
            ≡ ok (place (files n) view (some at_entry)) k.state =
          k.returns ∙ ap (λ t. ok (place (files n) view t) k.state) picked in
        let q = at_entry / env.block_size in
        let got : get_b (block_of (files n) view q) k.state ≡ ok c.at c.state =
          ap (λ b. get_b b k.state) (block_of_behind last (files n) view view₁ same file q)
          ∙ c.got in
        let bytes =
          bytes_from_same last (files n) view view₁ same file at_entry env.entry_size at.inside in
        let taken : ((entry_at (files n) view₁ at_entry).inum == 0) ≡ false =
          let here = ap (λ t. (env.decode_entry t).inum) bytes in ground (arith, here, used) in
        Kept-after last s bs is _ _ _ _ k
          (c.kept env.error _ (rw (found, got, c.read, taken, mkdir_in, inode_num, ◌>>=◌) refl))

  skip_slashes-head : (cs : Bytes) → (head_char (skip_slashes cs) == slash) ≡ false
  unfolding skip_slashes
  skip_slashes-head [] = refl
  skip_slashes-head (c ∷ cs) = elim (Bool-cases (c == slash)) [
    | inl e ↦ rw e (skip_slashes-head cs)
    | inr e ↦ rw e e
  ]

  -- the slashes are taken off once
  from_root-again :
      (pathname path : Bytes) (dir i : ℕ)
      → from_root pathname (pos dir) ≡ (path, pos i)
      → from_root path (pos i) ≡ (path, pos i)
  unfolding from_root
  from_root-again pathname path dir i start = elim (Bool-cases (head_char pathname == slash)) [
    | inl e ↦
        let at : skip_slashes pathname ≡ path = ap (λ (t : Bytes × ℤ). t.0) (rw e at start) in
        let off : (head_char path == slash) ≡ false = rw at at (skip_slashes-head pathname) in
        rw off refl
    | inr e ↦
        let at : pathname ≡ path = ap (λ (t : Bytes × ℤ). t.0) (rw e at start) in
        let off : (head_char path == slash) ≡ false = rw at at e in rw off refl
  ]

  module _ (layout : IsLayout env) (last : ℕ) (table : inode_block last < env.num_sectors)
      (pos_cache : 0 < env.block_cache_size) (two : 1 < env.inode_cache_size)
      (divided : IsDivided env) where
    -- Let the caches be well formed and within their sizes, with room for two inodes or more,
    -- every directory name blocks behind the table, and every entry an inode of the table. For a
    -- path that is not too long, with its slashes and its first directory as for handle_open, let
    -- the part before the last slash lead to an inode other than 0 that is a directory. If the
    -- first entry of it that get_dir_entry's comparison accepts for the name behind the slash has
    -- an inode number other than 0, handle_mkdir answers ERROR and changes no file; the caches
    -- stay well formed and within their sizes, and what is not dirty stays what is on the disk, or
    -- in the block of the inode.
    pub handle_mkdir-Kept :
        (s : Sys) (bs : List (Cell Bytes)) (is : List (Cell Inode)) (pathname path name : Bytes)
        (dir i n at_entry : ℕ)
        → IsSys last s bs is
        → IsWarm s is
        → IsTree last (inode_content bs s.disk is) (content bs s.disk)
        → 0 < dir
        → from_root pathname (pos dir) ≡ (path, pos i)
        → length path < env.max_path_name_len
        → i ≤ last
        → 0 < i
        → IsParent (inode_content bs s.disk is) (content bs s.disk) path i n name
        → 0 < n
        → is_directory (inode_content bs s.disk is n).type ≡ true
        → find_name name (directory (inode_content bs s.disk is n) (content bs s.disk))
          ≡ some at_entry
        → 0 < (entry_at (inode_content bs s.disk is n) (content bs s.disk) at_entry).inum
        → Kept last s bs is env.error (handle_mkdir (some pathname) (pos dir) s)
    unfolding handle_mkdir update_path_i
    handle_mkdir-Kept s bs is pathname path name dir i n at_entry v warm tree some_dir start short
          le some_i parent some_n folder search used =
        let files = inode_content bs s.disk is in
        let view = content bs s.disk in
        let t : Tells last files view s bs is = record {
          valid = v;
          warm = warm;
          inodes = λ j j_le. refl;
          blocks = λ b behind lt. refl;
        } in
        let known : leb_ℤ (pos dir) (pos 0) ≡ false = ground (arith, some_dir) in
        let (n_le, k) =
          get_super_dir-Kept last files view layout table pos_cache two divided tree path path name
            i i n s bs is t (from_root-again pathname path dir i start) short le some_i parent in
        let nonzero : (n == 0) ≡ false = ground (arith, some_n) in
        let at : get_super_dir path (pos i) s ≡ ok (pos n, name) k.state =
          rw nonzero at (k.returns) in
        let e =
          mkdir_in-Kept layout last table pos_cache two divided files view tree n at_entry name
            k.state k.cells k.items (Kept-Tells last files view s bs is _ _ k t) n_le folder search
            used in
        rw (known, start, at, handle_mkdir, update_path_i, ◌>>=◌)
          (Kept-after last s bs is _ _ _ _ k e)
