-- ===== src/FilePath/Walk.antt =====
-- get_path_i_num on the tree of directories.
use model_lib.Prelude.{
  ℕ, zero, suc, ◌+◌, ◌≤◌, ◌<◌, ◌≡◌, refl, ap, ◌∙◌, inl, inr, Bool-cases, List, false, ◌==◌,
  if◌then◌else◌, arith, length,
}
use model_lib.Env.{Env, Bytes, Inode, IsLayout}
use model_lib.Queue.Seg.{Cell}
use model_lib.Machine.{Sys, Run, ok, exited, fault, out_of_fuel, and_then, M, pure, ◌>>=◌, ◌>>◌}
use model_lib.Buffer.{inode_block, get_i, read_inode}
use model_lib.Buffer.Kept.{Kept, Kept-after, Kept-ends}
use model_lib.Buffer.HasInode.{get_i-HasInode}
use model_lib.Dir.{get_dir_entry}
use model_lib.Dir.Entries.{IsDivided}
use model_lib.File.Locate.{read_inode-Held}
use model_lib.FilePath.{is_directory, get_next_path_part, entry_inum, walk, get_path_i_num}
use model_lib.FilePath.Parts.{length-get_next_path_part-lt}
use model_lib.FilePath.Tree.{lookup, IsTree, Leads, blocked, arrives, enters}
use model_lib.FilePath.First.{Tells, Kept-Tells, lookup-Kept, lookup-le}

-- a step behind two steps that were taken together
next_runs :
    {A B C : Type 0} (r : Run A) (f : A → M B) (h : B → M C) (b : B) (s : Sys)
    → and_then r f ≡ ok b s
    → and_then r (λ a. f a >>= h) ≡ h b s
next_runs (ok a s') f h b s e = rw e refl
next_runs (exited n s') f h b s e = absurd (cc)
next_runs fault f h b s e = absurd (cc)
next_runs out_of_fuel f h b s e = absurd (cc)

module _ ⦃env : Env⦄ where
  -- where the path leads, by a run that changes no file
  pub record Resolved (last : ℕ) (files : ℕ → Inode) (view : ℕ → Bytes) (path : Bytes) (i : ℕ)
      (s : Sys) (bs : List (Cell Bytes)) (is : List (Cell Inode)) (run : Run ℕ) : Type 0 where
    pub inum : ℕ
    pub leads : Leads files view path i inum
    pub le : inum ≤ last
    pub kept : Kept last s bs is inum run

  module _ (last : ℕ) (files : ℕ → Inode) (view : ℕ → Bytes) where
    module _ (layout : IsLayout env) (table : inode_block last < env.num_sectors)
        (pos_cache : 0 < env.block_cache_size) (two : 1 < env.inode_cache_size)
        (divided : IsDivided env) (tree : IsTree last files view) where
      -- the end of a path
      walk_end :
          (path : Bytes) (i : ℕ) (s : Sys) (bs : List (Cell Bytes)) (is : List (Cell Inode))
          → Tells last files view s bs is
          → i ≤ last
          → Kept last s bs is i ((do get_i i; pure i) s)
      walk_end path i s bs is t le =
          let g = get_i-HasInode layout last table pos_cache s bs is i t.valid t.warm two le in
          let k = g.kept in Kept-ends last s bs is _ _ _ _ k (rw k.returns refl)

      Resolved-after :
          {R : Type 0} (path path' : Bytes) (i i' : ℕ) (s : Sys) (bs : List (Cell Bytes))
          (is : List (Cell Inode)) (r : R) (run : Run R) (run' : Run ℕ)
          → (k : Kept last s bs is r run)
          → ((inum : ℕ) → Leads files view path' i' inum → Leads files view path i inum)
          → Resolved last files view path' i' k.state k.cells k.items run'
          → Resolved last files view path i s bs is run'
      Resolved-after path path' i i' s bs is r run run' k step rest = record {
        inum = rest.inum;
        leads = step rest.inum rest.leads;
        le = rest.le;
        kept = Kept-after last s bs is r run rest.inum run' k rest.kept;
      }

      walk-Resolved :
          (fuel : ℕ) (path : Bytes) (i : ℕ) (s : Sys) (bs : List (Cell Bytes))
          (is : List (Cell Inode))
          → Tells last files view s bs is
          → i ≤ last
          → length path < fuel
          → Resolved last files view path i s bs is (walk fuel path i s)
      unfolding walk
      walk-Resolved zero path i s bs is t le enough = absurd (omega (arith, enough))
      walk-Resolved (suc fuel) path i s bs is t le enough =
          let g = get_i-HasInode layout last table pos_cache s bs is i t.valid t.warm two le in
          let k = g.kept in
          let t₁ = Kept-Tells last files view s bs is _ _ k t in
          let inode = t.inodes i le in
          let read : read_inode g.at k.state ≡ ok (files i) k.state =
            read_inode-Held g.at _ k.state g.held ∙ ap (λ z. ok z k.state) inode in
          elim (Bool-cases (is_directory (files i).type)) [
            | inr other ↦ record {
              inum = 0;
              leads = blocked path i other;
              le = omega arith;
              kept =
                  Kept-ends last s bs is _ _ _ _ k (rw (k.returns, read, other, walk, ◌>>=◌) refl);
            }
            | inl folder ↦
                let l =
                  lookup-Kept last files view layout table pos_cache two divided tree path i k.state
                    k.cells k.items t₁ le (tree.stored i le folder) in
                let t₂ = Kept-Tells last files view k.state k.cells k.items _ _ l t₁ in
                let next = lookup (files i) view path in
                let next_le =
                  lookup-le last files view layout table pos_cache two divided tree path i le
                    folder in
                let rest = get_next_path_part path in
                let go =
                  next_runs (get_dir_entry path i false k.state) entry_inum
                    (λ (n : ℕ). if length rest == 0 then (do get_i n; pure n) else walk fuel rest n)
                    next l.state l.returns in
                rw (k.returns, read, folder, ◌>>=◌)
                  (rw go (elim (Bool-cases (length rest == 0)) [
                    | inl last_part ↦
                        let e = walk_end path next l.state l.cells l.items t₂ next_le in
                        rw last_part (record {
                          inum = next;
                          leads = arrives path i next folder (ground (arith, last_part)) refl;
                          le = next_le;
                          kept =
                              Kept-after last s bs is _ _ _ _ k
                                (Kept-after last k.state k.cells k.items _ _ _ _ l e);
                        })
                    | inr more ↦
                        let some_left : 0 < length rest = ground (arith, more) in
                        let w =
                          walk-Resolved fuel rest next l.state l.cells l.items t₂ next_le
                            (omega (arith, length-get_next_path_part-lt path some_left, enough)) in
                        rw more (
                          Resolved-after path path i i s bs is _ _ _ k (λ r lead. lead)
                            (Resolved-after path rest i next k.state k.cells k.items _ _ _ l
                              (λ r lead. enters path i next r folder some_left refl lead) w))
                  ]))
          ]

      pub get_path_i_num-Resolved :
          (path : Bytes) (i : ℕ) (s : Sys) (bs : List (Cell Bytes)) (is : List (Cell Inode))
          → Tells last files view s bs is
          → i ≤ last
          → Resolved last files view path i s bs is (get_path_i_num path i s)
      unfolding get_path_i_num
      get_path_i_num-Resolved path i s bs is t le =
          walk-Resolved (length path + 1) path i s bs is t le (omega arith)
