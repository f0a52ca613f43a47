-- ===== src/Buffer/MarkInode.antt =====
-- The dirty flag of the inode that get_i returned.
use model_lib.Prelude.{
  ◌≤◌, ◌≡◌, ℕ, refl, sym, ap, ◌∙◌, inl, inr, some_inj, some, false, Option-cases, Bool-cases, List,
  [], ◌∷◌, ◌++◌, true, ◌==◌, arith,
}
use model_lib.Env.{Env, Bytes, Inode}
use model_lib.Queue.Seg.{Cell}
use model_lib.Cache
use model_lib.Cache.Cells.{
  find, addr_of, change, find-here, find-change, find-change_absent, addr_of-change, length-change,
  Unique,
}
use model_lib.Cache.Access.{mark_dirty-Stepped}
use model_lib.Machine.{Sys, ok, on_inodes}
use model_lib.Buffer.{mark_i_dirty}
use model_lib.Buffer.Inodes.{IsSys, CleanInodes}

module _ ⦃env : Env⦄ (ys : List (Cell Inode)) (x : Cell Inode) where
  abbrev marked : List (Cell Inode)
  marked = ys ++ change x true x.addr ∷ []

  -- what is found under a number, with the flag set
  addr_of_marked :
      (z : Inode) (i : ℕ)
      → Unique (ys ++ x ∷ [])
      → addr_of z (find marked i) ≡ addr_of z (find (ys ++ x ∷ []) i)
  addr_of_marked z i u = addr_of-change x true x.addr ys [] i z u ∙ elim (Bool-cases (x.num == i)) [
    | inl e ↦
        let num : x.num ≡ i = ground arith in
        let found : find (ys ++ x ∷ []) i ≡ some x =
          ap (find (ys ++ x ∷ [])) (sym num) ∙ find-here ys x [] u in
        rw (e, found) refl
    | inr e ↦ rw e refl
  ]

  pub record Marked (last : ℕ) (s : Sys) (bs : List (Cell Bytes)) : Type 0 where
    pub cache : Cache.Cache Inode
    pub returns : mark_i_dirty x.num s ≡ ok tt (record s { inodes = cache })
    pub valid : IsSys last (record s { inodes = cache }) bs marked
    pub clean : (view : ℕ → Bytes) → CleanInodes (ys ++ x ∷ []) view → CleanInodes marked view
    pub same : (z : Inode) (i : ℕ) → addr_of z (find marked i) ≡ addr_of z (find (ys ++ x ∷ []) i)

  -- an inode that is marked is dirty
  CleanInodes-marked :
      (view : ℕ → Bytes)
      → Unique (ys ++ x ∷ [])
      → CleanInodes (ys ++ x ∷ []) view
      → CleanInodes marked view
  CleanInodes-marked view u clean i c found d = elim (Bool-cases (x.num == i)) [
    | inl e ↦
        let here : change x true x.addr ≡ c =
          some_inj (sym (find-change x true x.addr ys [] i u ∙ rw e refl) ∙ found) in
        let dirty : true ≡ false = ap (λ (z : Cell Inode). z.dirty) here ∙ d in
        absurd (ground (arith, dirty))
    | inr e ↦ clean i c (sym (find-change x true x.addr ys [] i u ∙ rw e refl) ∙ found) d
  ]

  known_marked :
      (last : ℕ) (s : Sys) (bs : List (Cell Bytes))
      → IsSys last s bs (ys ++ x ∷ [])
      → (i : ℕ) (c : Cell Inode) → find marked i ≡ some c
      → (i ≤ last) × (env.fits c.addr ≡ true)
  known_marked last s bs v i c found = elim (Option-cases (find (ys ++ x ∷ []) i)) [
    | inl absent ↦
        let gone = find-change_absent x true x.addr ys [] i absent in
        absurd (ground (arith, gone, found))
    | inr (d, was) ↦
        let (le, ok_d) = v.known i d was in
        let same : c.addr ≡ d.addr =
          ap (addr_of c.addr) (sym found)
          ∙ addr_of_marked c.addr i v.inodes.unique
          ∙ ap (addr_of c.addr) was in
        (le, ap env.fits same ∙ ok_d)
  ]

  pub mark_i_dirty-Marked :
      (last : ℕ) (s : Sys) (bs : List (Cell Bytes))
      → IsSys last s bs (ys ++ x ∷ [])
      → Marked last s bs
  unfolding mark_i_dirty on_inodes
  mark_i_dirty-Marked last s bs v =
      let m = mark_dirty-Stepped s.inodes ys x [] v.inodes in
      record {
        cache = m.cache;
        returns = rw (m.returns, mark_i_dirty, on_inodes);
        valid = record {
          blocks = v.blocks;
          inodes = m.valid;
          blocks_fit = v.blocks_fit;
          inodes_fit = rw (length-change x true x.addr ys []) v.inodes_fit;
          sized = v.sized;
          known = known_marked last s bs v;
        };
        clean = λ view before. CleanInodes-marked view v.inodes.unique before;
        same = λ z i. addr_of_marked z i v.inodes.unique;
      }
