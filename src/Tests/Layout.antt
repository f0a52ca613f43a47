-- ===== src/Tests/Layout.antt =====
-- The layout of the inodes of the small file system.
use model_lib.Prelude.{ℕ, ◌≡◌, refl, ap, [], ◌∷◌, true, arith}
use model_lib.Prelude.Int.{ℤ, pos, negsuc}
use model_lib.Env.{
  Bytes, Inode, InodeType, inode_free, inode_directory, inode_regular, inode_other, IsLayout,
}
use model_lib.Tests.{env, type_of, type_code, fits_fields}

type_of-type_code : (t : InodeType) → type_of (type_code t) ≡ t
type_of-type_code inode_free = refl
type_of-type_code inode_directory = refl
type_of-type_code inode_regular = refl
type_of-type_code (inode_other n) = refl

abbrev inode_with : ℤ → (reuse size : ℕ) → Bytes → ℕ → InodeType → Inode
inode_with links reuse size direct indirect t = record {
  type = t;
  nlink = links;
  reuse = reuse;
  size = size;
  direct = direct;
  indirect = indirect;
}

decode-fields :
    (t : InodeType) (links : ℤ) (reuse size : ℕ) (direct : Bytes) (indirect : ℕ)
    → fits_fields links direct ≡ true
    → env.decode_inode (env.encode_inode (inode_with links reuse size direct indirect t))
      ≡ inode_with links reuse size direct indirect t
decode-fields t (pos n) reuse size (a ∷ b ∷ []) indirect ok =
    ap (inode_with (pos n) reuse size (a ∷ b ∷ []) indirect) (type_of-type_code t)
decode-fields t (pos n) reuse size [] indirect ok = ground arith
decode-fields t (pos n) reuse size (a ∷ []) indirect ok = ground arith
decode-fields t (pos n) reuse size (a ∷ b ∷ c ∷ rest) indirect ok = ground arith
decode-fields t (negsuc n) reuse size direct indirect ok = ground arith

pub env-IsLayout : IsLayout env
env-IsLayout = record {
  inode_size_pos = omega arith;
  inode_size-le = omega arith;
  disk-le = omega arith;
  length-encode = λ inode. refl;
  fits-decode = λ bytes. refl;
  decode-encode = λ i ok. decode-fields i.type i.nlink i.reuse i.size i.direct i.indirect ok;
}
