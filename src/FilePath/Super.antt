-- ===== src/FilePath/Super.antt =====
-- get_super_dir on the tree of directories.
use model_lib.Prelude.{
  ℕ, ◌+◌, ◌≤◌, ◌<◌, ◌≡◌, refl, sym, ap, List, true, false, ◌==◌, leb, if◌then◌else◌, arith, length,
  take, drop,
}
use model_lib.Prelude.Int.{ℤ, pos}
use model_lib.Env.{Env, Bytes, Inode, IsLayout}
use model_lib.Queue.Seg.{Cell}
use model_lib.Machine.{Sys, ok, ◌>>=◌}
use model_lib.Buffer.{inode_block, inode_num}
use model_lib.Buffer.Kept.{Kept, Kept-ok, Kept-ends}
use model_lib.Dir.Entries.{IsDivided}
use model_lib.FilePath.{from_root, last_slash, get_super_dir, split_path, containing_dir}
use model_lib.FilePath.Tree.{IsTree, Leads-unique, IsParent, here, above}
use model_lib.FilePath.First.{Tells}
use model_lib.FilePath.Walk.{get_path_i_num-Resolved}

module _ ⦃env : Env⦄ where
  -- `*file_ptr` and the directory that get_super_dir returns; ERROR for 0
  abbrev pub dir_answer : ℕ → Bytes → ℤ × Bytes
  dir_answer n name = (if n == 0 then env.error else pos n, name)

  module _ (last : ℕ) (files : ℕ → Inode) (view : ℕ → Bytes) (layout : IsLayout env)
      (table : inode_block last < env.num_sectors) (pos_cache : 0 < env.block_cache_size)
      (two : 1 < env.inode_cache_size) (divided : IsDivided env)
      (tree : IsTree last files view) where
    split_path-Kept :
        (path name : Bytes) (i n : ℕ) (s : Sys) (bs : List (Cell Bytes)) (is : List (Cell Inode))
        → Tells last files view s bs is
        → i ≤ last
        → 0 < i
        → IsParent files view path i n name
        → (n ≤ last) × Kept last s bs is (dir_answer n name) (split_path (path, pos i) s)
    unfolding split_path containing_dir inode_num
    split_path-Kept path name i n s bs is t le some_dir (here no_slash at named) =
        let zero : (last_slash 0 0 path == 0) ≡ true = ground (arith, no_slash) in
        let nonzero : (n == 0) ≡ false = ground (arith, at, some_dir) in
        let same : dir_answer n name ≡ (pos i, path) = rw nonzero (rw (at, named) refl) in
        (
          omega (arith, at, le),
          Kept-ok last s bs is _ _ t.valid t.warm
              (rw (zero, split_path) (ap (λ (r : ℤ × Bytes). ok r s) (sym same))),
        )
    split_path-Kept path name i n s bs is t le some_dir (above some_slash leads named) =
        let idx = last_slash 0 0 path in
        let w =
          get_path_i_num-Resolved last files view layout table pos_cache two divided tree
            (take idx path) i s bs is t le in
        let k = w.kept in
        let more : (idx == 0) ≡ false = ground (arith, some_slash) in
        let same : w.inum ≡ n = Leads-unique files view w.leads leads in
        let same_name : dir_answer w.inum (drop (idx + 1) path) ≡ dir_answer n name =
          rw (same, named) refl in
        (
          omega (arith, same, w.le),
          Kept-ends last s bs is _ _ _ _ k (
              rw (more, k.returns, split_path, containing_dir, inode_num, ◌>>=◌)
                (ap (λ (r : ℤ × Bytes). ok r k.state) same_name)),
        )

    -- From a directory of the table, on a path that is not too long, get_super_dir answers the directory
    -- before the last slash, if there is one, and the part behind it.
    pub get_super_dir-Kept :
        (pathname path name : Bytes) (dir i n : ℕ) (s : Sys) (bs : List (Cell Bytes))
        (is : List (Cell Inode))
        → Tells last files view s bs is
        → from_root pathname (pos dir) ≡ (path, pos i)
        → length pathname < env.max_path_name_len
        → i ≤ last
        → 0 < i
        → IsParent files view path i n name
        → (n ≤ last) × Kept last s bs is (dir_answer n name) (get_super_dir pathname (pos dir) s)
    unfolding get_super_dir
    get_super_dir-Kept pathname path name dir i n s bs is t start short le some_dir parent =
        let fits : leb env.max_path_name_len (length pathname) ≡ false = ground (arith, short) in
        let (n_le, k) = split_path-Kept path name i n s bs is t le some_dir parent in
        (n_le, Kept-ends last s bs is _ _ _ _ k (rw (fits, start, get_super_dir) k.returns))
