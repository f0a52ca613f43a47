-- ===== src/MkYfs/Inodes.antt =====
-- The inodes on the disk that mkyfs.c writes, where the server looks for them.
use native.Mathlib.Nat.{div-add-mod', mod-lt, mul-le-mul_right, mul_assoc, add-mul}
use mathlib.Core.List.{append_assoc}
use native.Mathlib.Decide.{dec_lt}
use model_lib.Prelude.{
  some_inj, ℕ, zero, suc, ◌+◌, ◌-◌, ◌*◌, ◌/◌, ◌%◌, ◌≤◌, ◌<◌, ◌≡◌, refl, sym, ap, ◌∙◌, some, List,
  [], ◌∷◌, ◌++◌, true, false, ◌==◌, ltb, arith, length, length-append, take, drop, get_elem?,
}
use model_lib.Env.{Env, Bytes, Inode, IsLayout, Header}
use model_lib.Buffer.{slice, inode_block, inode_offset, inodes_per_block}
use model_lib.Buffer.Slots.{inode_offset-mod, inode_offset-le}
use model_lib.Buffer.Pieces.{get_elem?-beyond}
use model_lib.Buffer.Table.{inode_at}
use model_lib.MkYfs.{table_blocks, root_of, free_inodes, encode_all, table, sector, format}
use model_lib.MkYfs.Pieces.{take-append_self, drop-append_self, length-free_inodes, slice-sector}

suc-mul : (a c : ℕ) → suc a * c ≡ c + a * c
suc-mul a c = omega arith

module _ ⦃env : Env⦄ where
  module _ (layout : IsLayout env) where
    length-encode_all : (is : List Inode) → length (encode_all is) ≡ length is * env.inode_size
    unfolding encode_all
    length-encode_all [] = omega arith
    length-encode_all (i ∷ is) =
        let e : suc (length is) * env.inode_size ≡ env.inode_size + length is * env.inode_size =
          omega arith in
        length-append (env.encode_inode i) (encode_all is)
        ∙ rw (layout.length-encode i, length-encode_all is, e) refl

    -- the inode at a place of the table
    slice-encode_all :
        (is : List Inode) (k : ℕ) (inode : Inode) (rest : Bytes)
        → get_elem? is k ≡ some inode
        → slice (k * env.inode_size) env.inode_size (encode_all is ++ rest) ≡ env.encode_inode inode
    unfolding encode_all slice
    slice-encode_all [] k inode rest h = absurd (ground (arith, h))
    slice-encode_all (i ∷ is) zero inode rest h =
        let n = env.inode_size in
        let same : i ≡ inode = some_inj h in
        let start : 0 * n ≡ 0 = omega arith in
        rw start (
          ap (take n) (append_assoc (env.encode_inode i) (encode_all is) rest)
          ∙ ap (λ m. take m (env.encode_inode i ++ (encode_all is ++ rest)))
              (sym (layout.length-encode i))
          ∙ take-append_self (env.encode_inode i) (encode_all is ++ rest)
          ∙ ap env.encode_inode same)
    slice-encode_all (i ∷ is) (suc k) inode rest h =
        let n = env.inode_size in
        let start : suc k * n ≡ length (env.encode_inode i) + k * n =
          omega (arith, layout.length-encode i, suc-mul k n) in
        rw start (
          ap (λ t. take n (drop (length (env.encode_inode i) + k * n) t))
            (append_assoc (env.encode_inode i) (encode_all is) rest)
          ∙ ap (take n) (drop-append_self (env.encode_inode i) (encode_all is ++ rest) (k * n))
          ∙ slice-encode_all is k inode rest h)

    -- where the server looks for an inode, counted from block 1 on
    inode_place :
        (i : ℕ)
        → env.block_size ≡ inodes_per_block * env.inode_size
        → i / inodes_per_block * env.block_size + inode_offset i ≡ i * env.inode_size
    inode_place i whole =
        let m = inodes_per_block in
        let n = env.inode_size in
        ap (λ o. i / m * env.block_size + o) (inode_offset-mod i)
        ∙ ap (λ t. i / m * t + i % m * n) whole
        ∙ ap (λ t. t + i % m * n) (sym (mul_assoc (i / m) m n))
        ∙ sym (add-mul (i / m * m) (i % m) n)
        ∙ ap (λ t. t * n) (div-add-mod' i m)

    -- the blocks of the table are enough
    table_blocks-le :
        (num_inodes : ℕ)
        → (num_inodes + 1) * env.inode_size ≤ table_blocks num_inodes * env.block_size
    unfolding table_blocks
    table_blocks-le num_inodes =
        let size = env.block_size in
        let y = (num_inodes + 1) * env.inode_size + size - 1 in
        let wide : 0 < size = omega (arith, layout.inode_size_pos, layout.inode_size-le) in
        omega (arith, div-add-mod' y size, mod-lt y wide)

    listed : (is : List Inode) (k : ℕ) (inode : Inode) → get_elem? is k ≡ some inode → k < length is
    listed is k inode h = elim (dec_lt k (length is)) [
      | yes lt ↦ lt
      | no ge ↦
          let gone = get_elem?-beyond is k (omega (arith, ge)) in absurd (ground (arith, gone, h))
    ]

    fits_in :
        (i m len b off : ℕ)
        → b * env.block_size + off ≡ i * env.inode_size
        → i + 1 ≤ m
        → m * env.inode_size ≤ len
        → b * env.block_size + off + env.inode_size ≤ len
    fits_in i m len b off place le all =
        let more = mul-le-mul_right {m = i + 1} {n = m} env.inode_size le in
        let one : (i + 1) * env.inode_size ≡ i * env.inode_size + env.inode_size = omega arith in
        omega (arith, more, one, place, all)

    in_first :
        (i num_inodes b : ℕ)
        → b * env.block_size ≤ i * env.inode_size
        → i ≤ num_inodes
        → ltb b (table_blocks num_inodes) ≡ true
    in_first i num_inodes b before le = elim (dec_lt b (table_blocks num_inodes)) [
      | yes lt ↦ ground (arith, lt)
      | no ge ↦
          let beyond =
            mul-le-mul_right {m = table_blocks num_inodes} {n = b} env.block_size
              (omega (arith, ge)) in
          let all =
            mul-le-mul_right {m = i + 1} {n = num_inodes + 1} env.inode_size (omega (arith, le)) in
          let one : (i + 1) * env.inode_size ≡ i * env.inode_size + env.inode_size = omega arith in
          absurd (
            omega
              (arith, beyond, all, one, before, table_blocks-le num_inodes, layout.inode_size_pos))
    ]

    module _ (num_inodes : ℕ) (root : Inode) (others : List Inode) (rest : Bytes) where
      table-encode_all :
          table num_inodes root others rest
          ≡ env.encode_header (record { num_blocks = env.num_sectors; num_inodes = num_inodes })
            ++ (encode_all (root_of num_inodes root ∷ free_inodes others) ++ rest)
      unfolding table encode_all
      table-encode_all =
          ap
            (λ t.
              env.encode_header (record { num_blocks = env.num_sectors; num_inodes = num_inodes })
              ++ t)
            (sym (
              append_assoc (env.encode_inode (root_of num_inodes root))
                (encode_all (free_inodes others)) rest))

      format-inode_block :
          (i : ℕ)
          → table_blocks num_inodes + 1 < env.num_sectors
          → ltb (i / inodes_per_block) (table_blocks num_inodes) ≡ true
          → format num_inodes root others rest (inode_block i)
            ≡ sector (table num_inodes root others rest) (i / inodes_per_block)
      unfolding format inode_block
      format-inode_block i room in_table =
          let b = i / inodes_per_block in
          let next : b + 1 ≡ suc b = omega arith in
          let before_last : (b + 2 == env.num_sectors) ≡ false = ground (arith, room, in_table) in
          ap (format num_inodes root others rest) next ∙ rw (before_last, in_table) refl

      slice-table :
          (k : ℕ) (inode : Inode)
          → ((h : Header) → length (env.encode_header h) ≡ env.inode_size)
          → get_elem? (root_of num_inodes root ∷ free_inodes others) k ≡ some inode
          → slice ((k + 1) * env.inode_size) env.inode_size (table num_inodes root others rest)
            ≡ env.encode_inode inode
      unfolding slice
      slice-table k inode header at_k =
          let n = env.inode_size in
          let h =
            env.encode_header (record { num_blocks = env.num_sectors; num_inodes = num_inodes }) in
          let all = root_of num_inodes root ∷ free_inodes others in
          let len : length h ≡ n = header _ in
          let start : (k + 1) * n ≡ length h + k * n = omega (arith, len) in
          rw (start, table-encode_all)
            (ap (take n) (drop-append_self h (encode_all all ++ rest) (k * n))
              ∙ slice-encode_all all k inode rest at_k)

      length-table :
          ((h : Header) → length (env.encode_header h) ≡ env.inode_size)
          → (length others + 2) * env.inode_size ≤ length (table num_inodes root others rest)
      length-table header =
          let n = env.inode_size in
          let h =
            env.encode_header (record { num_blocks = env.num_sectors; num_inodes = num_inodes }) in
          let all = root_of num_inodes root ∷ free_inodes others in
          let len : length h ≡ n = header _ in
          let count : length all ≡ length others + 1 = omega (arith, length-free_inodes others) in
          let items : length (encode_all all) ≡ (length others + 1) * n =
            length-encode_all all ∙ ap (λ m. m * n) count in
          let sum : (length others + 2) * n ≡ n + (length others + 1) * n = omega arith in
          rw table-encode_all (
            omega (
              arith,
              length-append h (encode_all all ++ rest),
              length-append (encode_all all) rest,
              len,
              items,
              sum,
            ))

    -- Take inodes that fill a block without a rest, a header as long as an inode, a table that ends
    -- before the last block of the disk, and `others` for the inodes from 2 to num_inodes as malloc
    -- left them. On the disk that mkyfs.c writes, the bytes at
    -- which get_i looks for inode 1 are those of the root directory, and for the inodes from 2 to
    -- num_inodes those of a free inode, with what malloc left in the other fields; each reads back as
    -- the inode that mkyfs.c set, if its fields fit.
    pub inode_at-format :
        (num_inodes : ℕ) (root : Inode) (others : List Inode) (rest : Bytes) (k : ℕ) (inode : Inode)
        → env.block_size ≡ inodes_per_block * env.inode_size
        → ((h : Header) → length (env.encode_header h) ≡ env.inode_size)
        → length others + 1 ≡ num_inodes
        → table_blocks num_inodes + 1 < env.num_sectors
        → get_elem? (root_of num_inodes root ∷ free_inodes others) k ≡ some inode
        → env.fits inode ≡ true
        → inode_at (format num_inodes root others rest) (k + 1) ≡ inode
    inode_at-format num_inodes root others rest k inode whole header count room at_k ok_inode =
        let i = k + 1 in
        let n = env.inode_size in
        let b = i / inodes_per_block in
        let all = root_of num_inodes root ∷ free_inodes others in
        let bytes = table num_inodes root others rest in
        let frees = length-free_inodes others in
        let inside = listed all k inode at_k in
        let (within, apart) = inode_offset-le i i layout.inode_size_pos layout.inode_size-le in
        let place = inode_place i whole in
        let in_table : (ltb b (table_blocks num_inodes)) ≡ true =
          in_first i num_inodes b (omega (arith, place)) (omega (arith, inside, count, frees)) in
        let found : slice (i * n) n bytes ≡ env.encode_inode inode =
          slice-table num_inodes root others rest k inode header at_k in
        let here = format-inode_block num_inodes root others rest i room in_table in
        let piece = slice-sector bytes b (inode_offset i) n within (
          fits_in i (length others + 2) (length bytes) b (inode_offset i) place
            (omega (arith, inside, frees)) (length-table num_inodes root others rest header)) in
        ap (λ t. env.decode_inode (slice (inode_offset i) n t)) here
        ∙ ap env.decode_inode (piece ∙ ap (λ o. slice o n bytes) place ∙ found)
        ∙ layout.decode-encode inode ok_inode
