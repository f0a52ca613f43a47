-- ===== src/MkYfs/Pieces.antt =====
-- Pieces of the bytes that mkyfs.c writes.
use native.Mathlib.Decide.{dec_lt}
use model_lib.Prelude.{
  ℕ, suc, ◌+◌, ◌*◌, ◌≤◌, ◌≡◌, refl, ap, List, [], ◌∷◌, ◌++◌, arith, length, replicate, take, drop,
  length-drop,
}
use model_lib.Env.{Env, Bytes, Inode}
use model_lib.Buffer.{slice}
use model_lib.Buffer.Pieces.{
  eq_of_get_elem?, get_elem?-slice, get_elem?-take, get_elem?-drop, get_elem?-append,
}
use model_lib.MkYfs.{free_inodes, sector}

pub take-append_self : (xs ys : Bytes) → take (length xs) (xs ++ ys) ≡ xs
take-append_self [] ys = refl
take-append_self (x ∷ xs) ys = ap (λ t. x ∷ t) (take-append_self xs ys)

pub drop-append_self : (xs ys : Bytes) (m : ℕ) → drop (length xs + m) (xs ++ ys) ≡ drop m ys
drop-append_self [] ys m = let e : 0 + m ≡ m = omega arith in rw e refl
drop-append_self (x ∷ xs) ys m =
    let e : suc (length xs) + m ≡ suc (length xs + m) = omega arith in
    rw e (drop-append_self xs ys m)

module _ ⦃env : Env⦄ where
  pub length-free_inodes : (is : List Inode) → length (free_inodes is) ≡ length is
  unfolding free_inodes
  length-free_inodes [] = refl
  length-free_inodes (i ∷ is) = ap suc (length-free_inodes is)

  -- a piece of a block is the piece of the file
  pub slice-sector :
      (bytes : Bytes) (b off n : ℕ)
      → off + n ≤ env.block_size
      → b * env.block_size + off + n ≤ length bytes
      → slice off n (sector bytes b) ≡ slice (b * env.block_size + off) n bytes
  unfolding sector
  slice-sector bytes b off n le inside =
      let start = b * env.block_size in
      let behind = drop start bytes ++ replicate env.block_size 0 in
      eq_of_get_elem? (slice off n (take env.block_size behind)) (slice (start + off) n bytes) λ i.
        let place : i + (start + off) ≡ i + off + start = omega arith in
        elim (dec_lt i n) [
          | yes lt ↦ ground (
            arith,
            get_elem?-slice off n (take env.block_size behind) i,
            get_elem?-slice (start + off) n bytes i,
            get_elem?-take env.block_size behind (i + off),
            get_elem?-append (drop start bytes) (replicate env.block_size 0) (i + off),
            length-drop start bytes,
            get_elem?-drop start bytes (i + off),
            place,
          )
          | no ge ↦ ground (
            arith,
            get_elem?-slice off n (take env.block_size behind) i,
            get_elem?-slice (start + off) n bytes i,
          )
        ]
