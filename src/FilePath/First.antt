-- ===== src/FilePath/First.antt =====
-- The lookup of the first part of a path in a directory, as get_path_i_num in yfs.c makes it.
use model_lib.Prelude.{
  ℕ, ◌+◌, ◌*◌, ◌≤◌, ◌<◌, ◌≡◌, refl, sym, ap, ◌∙◌, inl, inr, Option-cases, Option, none, some, List,
  Bool, true, false, ◌≢◌, arith,
}
use model_lib.Env.{Env, Bytes, Inode, DirEntry, IsLayout}
use model_lib.Queue.Seg.{Cell}
use model_lib.Machine.{Sys, Run, ◌>>=◌}
use model_lib.Buffer.{inode_block}
use model_lib.Buffer.Evict.{content}
use model_lib.Buffer.Inodes.{inode_content, IsSys}
use model_lib.Buffer.Kept.{IsWarm, Kept, Kept-after, Kept-result, Kept-ends}
use model_lib.Dir.{get_dir_entry}
use model_lib.Dir.Entries.{IsDivided, directory, find_name, place}
use model_lib.Dir.GetEntry.{pick, directory_same, place_same, get_dir_entry-Kept}
use model_lib.File.Contents.{IsFile, IsFile-same, bytes_from_same}
use model_lib.FilePath.{is_directory, entry_inum}
use model_lib.FilePath.Tree.{inum_at, lookup, IsTree}
use model_lib.FilePath.Entry.{IsPlaced, find_name-IsPlaced, entry_inum-Kept}

module _ ⦃env : Env⦄ where
  -- The caches show these inodes and these blocks behind the table.
  pub record Tells (last : ℕ) (files : ℕ → Inode) (view : ℕ → Bytes) (s : Sys)
      (bs : List (Cell Bytes)) (is : List (Cell Inode)) : Type 0 where
    pub valid : IsSys last s bs is
    pub warm : IsWarm s is
    pub inodes : (i : ℕ) → i ≤ last → inode_content bs s.disk is i ≡ files i
    pub blocks : (b : ℕ) → inode_block last < b → b < env.num_sectors → content bs s.disk b ≡ view b

  module _ (last : ℕ) (files : ℕ → Inode) (view : ℕ → Bytes) where
    pub Kept-Tells :
        {R : Type 0} (s : Sys) (bs : List (Cell Bytes)) (is : List (Cell Inode)) (r : R)
        (run : Run R)
        → (k : Kept last s bs is r run) → Tells last files view s bs is
        → Tells last files view k.state k.cells k.items
    Kept-Tells s bs is r run k t = record {
      valid = k.valid;
      warm = k.warm;
      inodes = λ i le. k.same.inodes i le ∙ t.inodes i le;
      blocks = λ b behind lt. k.same.blocks b behind lt ∙ t.blocks b behind lt;
    }

    module _ (layout : IsLayout env) (table : inode_block last < env.num_sectors)
        (pos_cache : 0 < env.block_cache_size) (two : 1 < env.inode_cache_size)
        (divided : IsDivided env) (tree : IsTree last files view) where
      some_block : 0 < env.block_size
      some_block = omega (arith, layout.inode_size_pos, layout.inode_size-le)

      view-same :
          (s : Sys) (bs : List (Cell Bytes)) (is : List (Cell Inode))
          → Tells last files view s bs is
          → (b : ℕ) → inode_block last < b
          → b < env.num_sectors
          → view b ≡ content bs s.disk b
      view-same s bs is t b behind lt = sym (t.blocks b behind lt)

      pick-false :
          (path : Bytes) (es : List (ℕ × DirEntry)) → pick false path es ≡ find_name path es
      pick-false path es = elim (Option-cases (find_name path es)) [
        | inl absent ↦ rw (absent, pick) refl
        | inr (pos, search) ↦ rw (search, pick) refl
      ]

      -- where the entry lies
      pub pick-Kept :
          (make : Bool) (path : Bytes) (i : ℕ) (s : Sys) (bs : List (Cell Bytes))
          (is : List (Cell Inode))
          → Tells last files view s bs is
          → i ≤ last
          → IsFile last (files i) view
          → (make ≡ true → pick make path (directory (files i) view) ≢ none)
          → Kept last s bs is
              (place (files i) view (pick make path (directory (files i) view)))
              (get_dir_entry path i make s)
      pick-Kept make path i s bs is t le file there =
          let view' = content bs s.disk in
          let same = view-same s bs is t in
          let inode = t.inodes i le in
          let file' = IsFile-same last (files i) view view' same file in
          let folder = directory_same last (files i) view view' same file in
          let k =
            get_dir_entry-Kept layout last table pos_cache divided path i make s bs is t.valid
              t.warm two le (rw inode file') (rw inode (λ e. rw folder at (there e))) in
          let at : place (inode_content bs s.disk is i) view'
                (pick make path (directory (inode_content bs s.disk is i) view'))
              ≡ place (files i) view (pick make path (directory (files i) view)) =
            ap (λ (z : Inode). place z view' (pick make path (directory z view'))) inode
            ∙ ap (λ t. place (files i) view' (pick make path t)) (sym folder)
            ∙ sym (
                place_same last (files i) view view' same file
                  (pick make path (directory (files i) view))) in
          Kept-result last s bs is _ _ _ at k

      pub entry-Kept :
          (path : Bytes) (i : ℕ) (s : Sys) (bs : List (Cell Bytes)) (is : List (Cell Inode))
          → Tells last files view s bs is
          → i ≤ last
          → IsFile last (files i) view
          → Kept last s bs is
              (place (files i) view (find_name path (directory (files i) view)))
              (get_dir_entry path i false s)
      entry-Kept path i s bs is t le file =
          Kept-result last s bs is _ _ _
            (ap (place (files i) view) (pick-false path (directory (files i) view)))
            (pick-Kept false path i s bs is t le file (λ e. absurd (ground (arith, e))))

      -- the inode number in it
      inum-Kept :
          (i pos : ℕ) (s : Sys) (bs : List (Cell Bytes)) (is : List (Cell Inode))
          → Tells last files view s bs is
          → IsFile last (files i) view
          → IsPlaced (files i) pos
          → Kept last s bs is
              (inum_at (files i) view (some pos))
              (entry_inum (place (files i) view (some pos)) s)
      inum-Kept i pos s bs is t file at =
          let view' = content bs s.disk in
          let same = view-same s bs is t in
          let file' = IsFile-same last (files i) view view' same file in
          let k =
            entry_inum-Kept layout last table pos_cache s bs is (files i) pos t.valid t.warm file'
              at divided.entry_size_pos in
          let bytes =
            bytes_from_same last (files i) view view' same file pos env.entry_size at.inside in
          rw (place_same last (files i) view view' same file (some pos))
            (Kept-result last s bs is _ _ _ (sym (ap (λ t. (env.decode_entry t).inum) bytes)) k)

      lookup-at :
          (path : Bytes) (i : ℕ) (target : Option ℕ) (s : Sys) (bs : List (Cell Bytes))
          (is : List (Cell Inode))
          → Tells last files view s bs is
          → IsFile last (files i) view
          → ((pos : ℕ) → target ≡ some pos → IsPlaced (files i) pos)
          → Kept last s bs is (place (files i) view target) (get_dir_entry path i false s)
          → Kept last s bs is
              (inum_at (files i) view target)
              ((do found ← get_dir_entry path i false; entry_inum found) s)
      unfolding entry_inum
      lookup-at path i none s bs is t file placed k =
          Kept-ends last s bs is _ _ _ _ k (rw (k.returns, entry_inum) refl)
      lookup-at path i (some pos) s bs is t file placed k =
          let after =
            inum-Kept i pos k.state k.cells k.items (Kept-Tells s bs is _ _ k t) file
              (placed pos refl) in
          rw k.returns (Kept-after last s bs is _ _ _ _ k after)

      -- the lookup of the first part of a path in a directory
      pub lookup-Kept :
          (path : Bytes) (i : ℕ) (s : Sys) (bs : List (Cell Bytes)) (is : List (Cell Inode))
          → Tells last files view s bs is
          → i ≤ last
          → IsFile last (files i) view
          → Kept last s bs is
              (lookup (files i) view path)
              ((do found ← get_dir_entry path i false; entry_inum found) s)
      lookup-Kept path i s bs is t le file =
          lookup-at path i (find_name path (directory (files i) view)) s bs is t file
            (λ pos search. find_name-IsPlaced path (files i) view pos divided some_block search)
            (entry-Kept path i s bs is t le file)

      pub lookup-le :
          (path : Bytes) (i : ℕ)
          → i ≤ last
          → is_directory (files i).type ≡ true
          → lookup (files i) view path ≤ last
      lookup-le path i le folder = elim (Option-cases (find_name path (directory (files i) view))) [
        | inl absent ↦ rw absent (omega arith)
        | inr (pos, search) ↦
            let at = find_name-IsPlaced path (files i) view pos divided some_block search in
            let inside : at.index * env.entry_size + env.entry_size ≤ (files i).size =
              omega (arith, at.at, at.inside) in
            rw (search, at.at) (tree.linked i at.index le folder inside)
      ]
