-- ===== src/File/Contents.antt =====
-- What a file holds: its block numbers and its bytes, as functions of its inode and of the blocks.
use native.Mathlib.Nat.{
  mul-add-div_right, div-eq_of_lt, div-mul-le_self, mul-le-mul_right, mul-add-mod_self_right,
  mod-eq_of_lt,
}
use native.Mathlib.Decide.{dec_lt}
use model_lib.Prelude.{
  ℕ, zero, suc, ◌+◌, ◌-◌, ◌*◌, ◌/◌, ◌%◌, ◌≤◌, ◌<◌, ◌≡◌, refl, ap, ◌∙◌, some, none, [], ◌∷◌, ◌++◌,
  leb, ltb, inl, inr, Bool-cases, ◌||◌, if◌then◌else◌, arith, length, get_or, get_elem?,
  get_elem?-get_or,
}
use model_lib.Env.{Env, Bytes, Inode}
use model_lib.Buffer.{slice, inode_block}
use model_lib.Buffer.Pieces.{eq_of_get_elem?, get_elem?-slice}
use model_lib.File.{max_blocks}

-- position `c` of block `n`
pub in_block : (n c size : ℕ) → c < size → ((n * size + c) / size ≡ n) × ((n * size + c) % size ≡ c)
in_block n c size lt = (
  omega (
    arith,
    mul-add-div_right {m = size} (omega (arith, lt)) n c,
    div-eq_of_lt {n = c} {m = size} lt,
  ),
  mul-add-mod_self_right n size c ∙ mod-eq_of_lt {n = c} {m = size} lt,
)

module _ ⦃env : Env⦄ where
  -- the number of a file's block `n`, direct or indirect; 0 if it has none
  abbrev pub block_of : Inode → (ℕ → Bytes) → ℕ → ℕ
  block_of inode view n =
      if leb max_blocks n
      then 0
      else (if leb inode.size (n * env.block_size)
          then 0
          else (if ltb n env.num_direct
              then get_or inode.direct n 0
              else env.decode_int
                  (slice ((n - env.num_direct) * env.int_size) env.int_size (view inode.indirect))))

  -- the byte at a position
  abbrev pub byte_at : Inode → (ℕ → Bytes) → ℕ → ℕ
  byte_at inode view k =
      get_or (view (block_of inode view (k / env.block_size))) (k % env.block_size) 0

  -- `n` bytes from a position on
  abbrev pub bytes_from : Inode → (ℕ → Bytes) → ℕ → ℕ → Bytes
  bytes_from inode view k zero = []
  bytes_from inode view k (suc n) = byte_at inode view k ∷ bytes_from inode view (k + 1) n

  -- The blocks of the file lie on the disk behind the table of inodes, and so does its block of block
  -- numbers if it has one.
  pub record IsFile (last : ℕ) (inode : Inode) (view : ℕ → Bytes) : Type 0 where
    pub placed :
        (n : ℕ)
        → n * env.block_size < inode.size
        → (inode_block last < block_of inode view n) × (block_of inode view n < env.num_sectors)
    pub indirect :
        env.num_direct * env.block_size < inode.size
        → (inode_block last < inode.indirect) × (inode.indirect < env.num_sectors)

  -- two views of the blocks that agree on the block of block numbers
  pub block_of_same :
      (inode : Inode) (view view' : ℕ → Bytes) (n : ℕ)
      → (env.num_direct * env.block_size < inode.size → view inode.indirect ≡ view' inode.indirect)
      → block_of inode view n ≡ block_of inode view' n
  block_of_same inode view view' n same =
      elim (Bool-cases (leb inode.size (n * env.block_size) || ltb n env.num_direct)) [
        | inl near ↦ ground arith
        | inr far ↦
            let ge : env.num_direct ≤ n = ground arith in
            let first = mul-le-mul_right {m = env.num_direct} {n = n} env.block_size ge in
            let beyond : n * env.block_size < inode.size = ground arith in
            rw (same (omega (arith, first, beyond))) refl
      ]

  -- a position in block `n` of the file
  pub byte_at_block :
      (inode : Inode) (view : ℕ → Bytes) (n c : ℕ)
      → (n * env.block_size + c) / env.block_size ≡ n
      → (n * env.block_size + c) % env.block_size ≡ c
      → byte_at inode view (n * env.block_size + c) ≡ get_or (view (block_of inode view n)) c 0
  byte_at_block inode view n c quot rem =
      ap (λ q. get_or (view (block_of inode view q)) ((n * env.block_size + c) % env.block_size) 0)
        quot
      ∙ ap (λ r. get_or (view (block_of inode view n)) r 0) rem

  module _ (inode : Inode) (view : ℕ → Bytes) where
    pub length-bytes_from : (k n : ℕ) → length (bytes_from inode view k n) ≡ n
    length-bytes_from k zero = refl
    length-bytes_from k (suc n) = ap suc (length-bytes_from (k + 1) n)

    pub bytes_from-append :
        (k m n : ℕ)
        → bytes_from inode view k (m + n)
          ≡ bytes_from inode view k m ++ bytes_from inode view (k + m) n
    bytes_from-append k zero n =
        let a : 0 + n ≡ n = omega arith in let b : k + 0 ≡ k = omega arith in rw (a, b) refl
    bytes_from-append k (suc m) n =
        let a : suc m + n ≡ suc (m + n) = omega arith in
        let b : k + suc m ≡ k + 1 + m = omega arith in
        rw (a, b) (ap (λ t. byte_at inode view k ∷ t) (bytes_from-append (k + 1) m n))

    pub get_elem?-bytes_from :
        (k n i : ℕ)
        → get_elem? (bytes_from inode view k n) i
          ≡ (if ltb i n then some (byte_at inode view (k + i)) else none)
    get_elem?-bytes_from k zero i = ground arith
    get_elem?-bytes_from k (suc n) zero = let e : k + 0 ≡ k = omega arith in ground (arith, e)
    get_elem?-bytes_from k (suc n) (suc i) =
        let e : k + 1 + i ≡ k + suc i = omega arith in
        ground (arith, e, get_elem?-bytes_from (k + 1) n i)

    -- a piece of one block is a piece of the file
    pub slice-bytes_from :
        (n off len : ℕ)
        → off + len ≤ env.block_size
        → length (view (block_of inode view n)) ≡ env.block_size
        → slice off len (view (block_of inode view n))
          ≡ bytes_from inode view (n * env.block_size + off) len
    slice-bytes_from n off len le size =
        let block = view (block_of inode view n) in
        eq_of_get_elem? (slice off len (view (block_of inode view n)))
          (bytes_from inode view (n * env.block_size + off) len)
          λ i. get_elem?-slice off len block i ∙ elim (dec_lt i len) [
            | yes lt ↦
                let (quot, rem) = in_block n (off + i) env.block_size (omega (arith, le, lt)) in
                let pos : n * env.block_size + off + i ≡ n * env.block_size + (off + i) =
                  omega arith in
                let byte : byte_at inode view (n * env.block_size + off + i)
                    ≡ get_or block (off + i) 0 =
                  rw pos (byte_at_block inode view n (off + i) quot rem) in
                let there = get_elem?-get_or block (off + i) 0 (omega (arith, le, lt, size)) in
                let turn : i + off ≡ off + i = omega arith in
                ground
                  (arith, turn, there, byte, get_elem?-bytes_from (n * env.block_size + off) len i)
            | no ge ↦ ground (arith, get_elem?-bytes_from (n * env.block_size + off) len i)
          ]

  -- two views of the blocks that agree behind the table of inodes
  module _ (last : ℕ) (inode : Inode) (view view' : ℕ → Bytes)
      (same : (b : ℕ) → inode_block last < b → b < env.num_sectors → view b ≡ view' b)
      (file : IsFile last inode view) where
    pub block_of_behind : (n : ℕ) → block_of inode view n ≡ block_of inode view' n
    block_of_behind n =
        block_of_same inode view view' n
          λ far. same inode.indirect (file.indirect far).0 (file.indirect far).1

    pub IsFile-same : IsFile last inode view'
    IsFile-same = record {
      placed = λ n lt. let here = file.placed n lt in rw (block_of_behind n) at here;
      indirect = file.indirect;
    }

    pub byte_at_behind : (k : ℕ) → k < inode.size → byte_at inode view k ≡ byte_at inode view' k
    byte_at_behind k k_lt =
        let q = k / env.block_size in
        let (behind, lt) = file.placed q (omega (arith, div-mul-le_self k env.block_size, k_lt)) in
        ap (λ t. get_or t (k % env.block_size) 0)
          (same (block_of inode view q) behind lt ∙ ap view' (block_of_behind q))

    pub bytes_from_same :
        (k n : ℕ) → k + n ≤ inode.size → bytes_from inode view k n ≡ bytes_from inode view' k n
    bytes_from_same k zero le = refl
    bytes_from_same k (suc n) le =
        ap (λ (t : ℕ). t ∷ bytes_from inode view (k + 1) n) (byte_at_behind k (omega (arith, le)))
        ∙ ap (λ (t : Bytes). byte_at inode view' k ∷ t)
            (bytes_from_same (k + 1) n (omega (arith, le)))
