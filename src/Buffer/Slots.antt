-- ===== src/Buffer/Slots.antt =====
-- Where get_i finds an inode: its slot lies within its block, and no two inodes share a byte.
use native.Mathlib.Nat.{mod-lt, mod-eq-sub-div-mul, div-add-mod', div-mul-le_self, mul-le-mul_right}
use native.Mathlib.Decide.{dec_lt}
use model_lib.Prelude.{
  ℕ, ◌+◌, ◌-◌, ◌*◌, ◌/◌, ◌%◌, ◌≤◌, ◌<◌, ◌≡◌, sym, ap, ◌∙◌, ◌≢◌, ◌⊎◌, inl, inr, arith,
}
use model_lib.Env.{Env, IsLayout}
use model_lib.Machine.{int_limit}
use model_lib.Buffer.{inodes_per_block, inode_block, inode_offset}

suc-mul : (a c : ℕ) → (a + 1) * c ≡ a * c + c
suc-mul a c = omega arith

pub slot-lt : (a b c : ℕ) → a < b → a * c + c ≤ b * c
slot-lt a b c h =
    omega (arith, mul-le-mul_right {m = a + 1} {n = b} c (omega (arith, h)), suc-mul a c)

slot-injective : (i j n : ℕ) → i / n + 1 ≡ j / n + 1 → i % n ≡ j % n → i ≡ j
slot-injective i j n same e =
    let blocks : i / n ≡ j / n = omega (arith, same) in
    sym (div-add-mod' i n) ∙ rw (blocks, e) (div-add-mod' j n)

module _ ⦃env : Env⦄ where
  pub inode_offset-mod : (i : ℕ) → inode_offset i ≡ i % inodes_per_block * env.inode_size
  unfolding inode_offset inode_block
  inode_offset-mod i =
      let n = inodes_per_block in
      let one : i / n + 1 - 1 ≡ i / n = omega arith in
      rw one (ap (λ r. r * env.inode_size) (sym (mod-eq-sub-div-mul i n)))

  pub inodes_per_block-pos :
      0 < env.inode_size → env.inode_size ≤ env.block_size → 0 < inodes_per_block
  inodes_per_block-pos pos le = elim (dec_lt 0 inodes_per_block) [
    | yes lt ↦ lt
    | no ge ↦
        let none_fit : inodes_per_block ≡ 0 = omega arith in
        let whole = div-add-mod' env.block_size env.inode_size in
        let rest = mod-lt env.block_size pos in absurd (omega (arith, rw none_fit at whole, rest))
  ]

  -- With inodes that are not empty and fit in a block, the slot of each inode lies within its block;
  -- and two inodes of one block have slots that lie apart.
  pub inode_offset-le :
      (i j : ℕ)
      → 0 < env.inode_size
      → env.inode_size ≤ env.block_size
      → (inode_offset i + env.inode_size ≤ env.block_size)
        × (inode_block i ≡ inode_block j
            → i ≢ j
            → (inode_offset i + env.inode_size ≤ inode_offset j)
              ⊎ (inode_offset j + env.inode_size ≤ inode_offset i))
  unfolding inode_block
  inode_offset-le i j pos le =
      let n = inodes_per_block in
      let n_pos = inodes_per_block-pos pos le in
      let fits = slot-lt (i % n) n env.inode_size (mod-lt i n_pos) in
      let whole = div-mul-le_self env.block_size env.inode_size in
      rw (inode_offset-mod i, inode_offset-mod j)
        (
          omega (arith, fits, whole),
          λ same ne. elim (dec_lt (i % n) (j % n)) [
            | yes lt ↦ inl (slot-lt (i % n) (j % n) env.inode_size lt)
            | no ge ↦
                let apart : i % n ≢ j % n = λ e. ne (slot-injective i j n same e) in
                inr (slot-lt (j % n) (i % n) env.inode_size (omega arith))
          ],
        )

  -- the numbers of the inodes on the disk are ints
  pub inode-lt : (layout : IsLayout env) (i : ℕ) → inode_block i < env.num_sectors → i < int_limit
  unfolding inode_block
  inode-lt layout i lt =
      let n = inodes_per_block in
      let blocks = env.num_sectors in
      let n_pos = inodes_per_block-pos layout.inode_size_pos layout.inode_size-le in
      let whole = div-add-mod' i n in
      let rest = mod-lt i n_pos in
      let inside = mul-le-mul_right {m = i / n + 1} {n = blocks} n (omega (arith, lt)) in
      let step = suc-mul (i / n) n in
      let one = mul-le-mul_right {m = 1} {n = env.inode_size} n (layout.inode_size_pos) in
      let slots = div-mul-le_self env.block_size env.inode_size in
      let few : n ≤ env.block_size = omega (arith, one, slots) in
      let all = mul-le-mul_right {m = n} {n = env.block_size} blocks few in
      omega (arith, whole, rest, inside, step, all, layout.disk-le)
