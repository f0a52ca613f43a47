-- ===== src/Create/Refused.antt =====
-- handle_unlink and handle_link where they answer ERROR: what they leave unchanged.
use native.Mathlib.Nat.{mod-eq_of_lt}
use model_lib.Prelude.{
  ◌+◌, ◌%◌, ℕ, ◌≤◌, ◌<◌, ◌≡◌, refl, ap, ◌∙◌, inl, inr, Bool-cases, none, some, List, true, false,
  ◌==◌, ◌||◌, arith, length,
}
use model_lib.Prelude.Int.{pos, negsuc, leb_ℤ}
use model_lib.Env.{Env, Bytes, Inode, IsLayout}
use model_lib.Queue.Seg.{Cell}
use model_lib.Machine.{Sys, ok, fault, ◌>>=◌}
use model_lib.Buffer.{inodes_per_block, inode_block, inode_num, read_inode}
use model_lib.Buffer.Evict.{content}
use model_lib.Buffer.Inodes.{inode_content, IsSys}
use model_lib.Buffer.Kept.{IsWarm, Kept, Kept-after, Kept-ends}
use model_lib.Buffer.HasInode.{get_i-HasInode}
use model_lib.Create.{adj_path_i, link_from, handle_link, unlink_in, unlink_found, handle_unlink}
use model_lib.Dir.Entries.{IsDivided, directory, find_name, place}
use model_lib.File.Locate.{read_inode-Held}
use model_lib.FilePath.{is_directory, from_root, get_super_dir}
use model_lib.FilePath.Tree.{IsTree, Leads, Leads-unique, IsParent}
use model_lib.FilePath.First.{Tells, Kept-Tells, entry-Kept}
use model_lib.FilePath.Walk.{get_path_i_num-Resolved}
use model_lib.FilePath.Super.{get_super_dir-Kept}

module _ ⦃env : Env⦄ where
  module _ (layout : IsLayout env) (last : ℕ) (table : inode_block last < env.num_sectors)
      (pos_cache : 0 < env.block_cache_size) (two : 1 < env.inode_cache_size)
      (divided : IsDivided env) (files : ℕ → Inode) (view : ℕ → Bytes)
      (tree : IsTree last files view) where
    -- a directory that has no such name, or no directory
    unlink_in-Kept :
        (n : ℕ) (name : Bytes) (s : Sys) (bs : List (Cell Bytes)) (is : List (Cell Inode))
        → Tells last files view s bs is
        → n ≤ last
        → (is_directory (files n).type ≡ true → find_name name (directory (files n) view) ≡ none)
        → Kept last s bs is env.error (unlink_in (pos n, name) s)
    unfolding unlink_in unlink_found inode_num
    unlink_in-Kept n name s bs is t le missing =
        let g = get_i-HasInode layout last table pos_cache s bs is n t.valid t.warm two le in
        let k = g.kept in
        let t₁ = Kept-Tells last files view s bs is _ _ k t in
        let read : read_inode g.at k.state ≡ ok (files n) k.state =
          read_inode-Held g.at _ k.state g.held ∙ ap (λ z. ok z k.state) (t.inodes n le) in
        elim (Bool-cases (is_directory (files n).type)) [
          | inr other ↦
              Kept-ends last s bs is _ _ _ _ k
                (rw (k.returns, read, other, unlink_in, inode_num, ◌>>=◌) refl)
          | inl folder ↦
              let e =
                entry-Kept last files view layout table pos_cache two divided tree name n k.state
                  k.cells k.items t₁ le (tree.stored n le folder) in
              let absent : place (files n) view (find_name name (directory (files n) view))
                  ≡ (none, 0) =
                ap (place (files n) view) (missing folder) in
              let none_found = e.returns ∙ ap (λ r. ok r e.state) absent in
              Kept-after last s bs is _ _ _ _ k (
                Kept-ends last k.state k.cells k.items _ _ _ _ e (
                  rw
                    (k.returns, read, folder, none_found, unlink_in, unlink_found, inode_num, ◌>>=◌)
                    refl))
        ]

  module _ (layout : IsLayout env) (last : ℕ) (table : inode_block last < env.num_sectors)
      (pos_cache : 0 < env.block_cache_size) (two : 1 < env.inode_cache_size)
      (divided : IsDivided env) where
    Tells-self :
        (s : Sys) (bs : List (Cell Bytes)) (is : List (Cell Inode))
        → IsSys last s bs is
        → IsWarm s is
        → Tells last (inode_content bs s.disk is) (content bs s.disk) s bs is
    Tells-self s bs is v warm = record {
      valid = v;
      warm = warm;
      inodes = λ j le. refl;
      blocks = λ b behind lt. refl;
    }

    -- Let the caches be well formed and within their sizes, with room for two inodes or more,
    -- every directory name blocks behind the table, and every entry an inode of the table. For a
    -- path that is not too long, with its slashes and its first directory as for handle_open, let
    -- the part before the last slash lead to an inode other than 0, or be missing. If that inode
    -- is no directory, or has no entry that get_dir_entry's comparison accepts for the name behind
    -- the slash, handle_unlink answers ERROR and changes no file; the caches stay well formed and
    -- within their sizes, and what is not dirty stays what is on the disk, or in the block of the
    -- inode.
    pub handle_unlink-Kept :
        (s : Sys) (bs : List (Cell Bytes)) (is : List (Cell Inode)) (pathname path name : Bytes)
        (dir i n : ℕ)
        → IsSys last s bs is
        → IsWarm s is
        → IsTree last (inode_content bs s.disk is) (content bs s.disk)
        → 0 < dir
        → from_root pathname (pos dir) ≡ (path, pos i)
        → length pathname < env.max_path_name_len
        → i ≤ last
        → 0 < i
        → IsParent (inode_content bs s.disk is) (content bs s.disk) path i n name
        → 0 < n
        → (is_directory (inode_content bs s.disk is n).type ≡ true
            → find_name name (directory (inode_content bs s.disk is n) (content bs s.disk)) ≡ none)
        → Kept last s bs is env.error (handle_unlink (some pathname) (pos dir) s)
    unfolding handle_unlink
    handle_unlink-Kept s bs is pathname path name dir i n v warm tree some_dir start short le some_i
          parent some_n missing =
        let files = inode_content bs s.disk is in
        let view = content bs s.disk in
        let t = Tells-self s bs is v warm in
        let known : leb_ℤ (pos dir) (pos 0) ≡ false = ground (arith, some_dir) in
        let (n_le, k) =
          get_super_dir-Kept last files view layout table pos_cache two divided tree pathname path
            name dir i n s bs is t start short le some_i parent in
        let nonzero : (n == 0) ≡ false = ground (arith, some_n) in
        let at : get_super_dir pathname (pos dir) s ≡ ok (pos n, name) k.state =
          rw nonzero at (k.returns) in
        let e =
          unlink_in-Kept layout last table pos_cache two divided files view tree n name k.state
            k.cells k.items (Kept-Tells last files view s bs is _ _ k t) n_le missing in
        rw (known, at, handle_unlink, ◌>>=◌) (Kept-after last s bs is _ _ _ _ k e)

    -- Let the caches be well formed and within their sizes, with room for two inodes or more,
    -- every directory name blocks behind the table, and every entry an inode of the table. For a
    -- path that is not too long, let the part before the last slash lead to 0, as where a
    -- directory on the way does not exist. Then get_super_dir answers ERROR, which is -1,
    -- handle_unlink takes it as the number of an inode, and, as a block holds more than one inode,
    -- reads outside of the buffer of a block.
    pub handle_unlink-fault :
        (s : Sys) (bs : List (Cell Bytes)) (is : List (Cell Inode)) (pathname path name : Bytes)
        (dir i : ℕ)
        → IsSys last s bs is
        → IsWarm s is
        → IsTree last (inode_content bs s.disk is) (content bs s.disk)
        → env.error ≡ negsuc 0
        → 0 < dir
        → from_root pathname (pos dir) ≡ (path, pos i)
        → length pathname < env.max_path_name_len
        → i ≤ last
        → 0 < i
        → IsParent (inode_content bs s.disk is) (content bs s.disk) path i 0 name
        → 1 < inodes_per_block
        → handle_unlink (some pathname) (pos dir) s ≡ fault
    unfolding handle_unlink unlink_in inode_num
    handle_unlink-fault s bs is pathname path name dir i v warm tree code some_dir start short le
          some_i parent several =
        let files = inode_content bs s.disk is in
        let view = content bs s.disk in
        let known : leb_ℤ (pos dir) (pos 0) ≡ false = ground (arith, some_dir) in
        let rest : ((0 + 1) % inodes_per_block == 0) ≡ false =
          ground (arith, mod-eq_of_lt several) in
        let (n_le, k) =
          get_super_dir-Kept last files view layout table pos_cache two divided tree pathname path
            name dir i 0 s bs is (Tells-self s bs is v warm) start short le some_i parent in
        rw (known, k.returns, code, handle_unlink, unlink_in, inode_num, rest, ◌>>=◌) refl

    -- Let the caches be well formed and within their sizes, with room for two inodes or more,
    -- every directory name blocks behind the table, and every entry an inode of the table. If the
    -- old name, less its first slash if it has one, leads to 0 or to a directory, from the root or
    -- from the directory that the process gives, handle_link answers ERROR, whatever the new name,
    -- and changes no file; the caches stay well formed and within their sizes, and what is not
    -- dirty stays what is on the disk, or in the block of the inode.
    pub handle_link-Kept :
        (s : Sys) (bs : List (Cell Bytes)) (is : List (Cell Inode)) (old_name path new_name : Bytes)
        (dir i r : ℕ)
        → IsSys last s bs is
        → IsWarm s is
        → IsTree last (inode_content bs s.disk is) (content bs s.disk)
        → 0 < dir
        → adj_path_i (old_name, pos dir) ≡ (path, pos i)
        → i ≤ last
        → Leads (inode_content bs s.disk is) (content bs s.disk) path i r
        → (is_directory (inode_content bs s.disk is r).type || (r == 0)) ≡ true
        → Kept last s bs is env.error (handle_link (some old_name) (some new_name) (pos dir) s)
    unfolding handle_link link_from inode_num
    handle_link-Kept s bs is old_name path new_name dir i r v warm tree some_dir start le leads
          refused =
        let files = inode_content bs s.disk is in
        let view = content bs s.disk in
        let t = Tells-self s bs is v warm in
        let known : leb_ℤ (pos dir) (pos 0) ≡ false = ground (arith, some_dir) in
        let w =
          get_path_i_num-Resolved last files view layout table pos_cache two divided tree path i s
            bs is t le in
        let k = w.kept in
        let same : w.inum ≡ r = Leads-unique files view w.leads leads in
        let t₁ = Kept-Tells last files view s bs is _ _ k t in
        let g =
          get_i-HasInode layout last table pos_cache k.state k.cells k.items w.inum t₁.valid t₁.warm
            two w.le in
        let j = g.kept in
        let read : read_inode g.at j.state ≡ ok (files w.inum) j.state =
          read_inode-Held g.at _ j.state g.held ∙ ap (λ z. ok z j.state) (t₁.inodes w.inum w.le) in
        let no : (is_directory (files w.inum).type || (w.inum == 0)) ≡ true =
          ap (λ (z : ℕ). is_directory (files z).type || (z == 0)) same ∙ refused in
        Kept-after last s bs is _ _ _ _ k (
          Kept-ends last k.state k.cells k.items _ _ _ _ j (
            rw
              (
                known, start, k.returns, j.returns, read, no, handle_link, link_from, inode_num,
                ◌>>=◌,
              )
              refl))
