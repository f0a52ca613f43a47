-- ===== src/Buffer/Table.antt =====
-- The table of inodes in the blocks: what an inode holds, and how a write of one inode changes it.
use model_lib.Prelude.{
  ℕ, ◌+◌, ◌/◌, ◌≤◌, ◌<◌, ◌≡◌, refl, ap, ◌∙◌, ◌≢◌, inl, inr, Bool-cases, true, ◌==◌, if◌then◌else◌,
  arith, length,
}
use native.Mathlib.Nat.{le-div_iff_mul-le, div-mul-le_self}
use model_lib.Env.{Env, Bytes, Inode, IsLayout}
use model_lib.Buffer.{slice, splice, inode_block, inode_offset, inodes_per_block}
use model_lib.Buffer.Slots.{inode_offset-le, inodes_per_block-pos}
use model_lib.Buffer.Pieces.{slice-splice_self, slice-splice_apart, length-splice}

module _ ⦃env : Env⦄ where
  -- an inode in the blocks
  abbrev pub inode_at : (ℕ → Bytes) → ℕ → Inode
  inode_at view i = env.decode_inode (slice (inode_offset i) env.inode_size (view (inode_block i)))

  pub inode_block_mono : IsLayout env → (i n : ℕ) → i ≤ n → inode_block i ≤ inode_block n
  unfolding inode_block
  inode_block_mono layout i n le =
      let m = inodes_per_block in
      let pos = inodes_per_block-pos layout.inode_size_pos layout.inode_size-le in
      let blocks : i / m ≤ n / m =
        (le-div_iff_mul-le {k = m} {x = i / m} {y = n} pos).1
          (omega (arith, div-mul-le_self i m)) in
      omega (arith, blocks)

  -- the blocks with one inode written
  abbrev pub Written : (view view' : ℕ → Bytes) → (i : ℕ) → Inode → Type 0
  Written view view' i inode =
      (b : ℕ)
      → b < env.num_sectors
      → view' b ≡ (
          if inode_block i == b
          then splice (inode_offset i) (env.encode_inode inode) (view (inode_block i))
          else view b)

  module _ (layout : IsLayout env) (view view' : ℕ → Bytes) (i : ℕ) (inode : Inode)
      (w : Written view view' i inode)
      (sized : (b : ℕ) → b < env.num_sectors → length (view b) ≡ env.block_size) where
    fits_in : (j : ℕ) → inode_offset j + env.inode_size ≤ env.block_size
    fits_in j = (inode_offset-le j j layout.inode_size_pos layout.inode_size-le).0

    pub inode_at_self :
        inode_block i < env.num_sectors → env.fits inode ≡ true → inode_at view' i ≡ inode
    inode_at_self lt ok =
        let off = inode_offset i in
        let enc = env.encode_inode inode in
        let old = view (inode_block i) in
        let same_block : (inode_block i == inode_block i) ≡ true = ground arith in
        let here : view' (inode_block i) ≡ splice off enc old =
          w (inode_block i) lt ∙ rw same_block refl in
        let room : off ≤ length old = omega (arith, fits_in i, sized (inode_block i) lt) in
        ap (λ v. env.decode_inode (slice off env.inode_size v)) here
        ∙ ap env.decode_inode
            (slice-splice_self off env.inode_size enc old (layout.length-encode inode) room)
        ∙ layout.decode-encode inode ok

    pub inode_at_other :
        (j : ℕ)
        → inode_block i < env.num_sectors
        → inode_block j < env.num_sectors
        → i ≢ j
        → inode_at view' j ≡ inode_at view j
    inode_at_other j lt lt' ne =
        let off = inode_offset i in
        let enc = env.encode_inode inode in
        let old = view (inode_block i) in
        elim (Bool-cases (inode_block i == inode_block j)) [
          | inr apart ↦
              ap (λ v. env.decode_inode (slice (inode_offset j) env.inode_size v))
                (w (inode_block j) lt' ∙ rw apart refl)
          | inl together ↦
              let one : inode_block i ≡ inode_block j = ground arith in
              let there : view' (inode_block j) ≡ splice off enc (view (inode_block j)) =
                w (inode_block j) lt' ∙ rw (together, one) refl in
              let room : off ≤ length (view (inode_block j)) =
                omega (arith, fits_in i, sized (inode_block j) lt') in
              let slots =
                (inode_offset-le i j layout.inode_size_pos layout.inode_size-le).1 one ne in
              let size = layout.length-encode inode in
              ap (λ v. env.decode_inode (slice (inode_offset j) env.inode_size v)) there
              ∙ ap env.decode_inode (
                  slice-splice_apart (inode_offset j) env.inode_size off enc (view (inode_block j))
                    (ground (arith, slots, size)) room)
        ]

    pub length-written :
        (b : ℕ)
        → inode_block i < env.num_sectors
        → b < env.num_sectors
        → length (view' b) ≡ env.block_size
    length-written b lt lt' =
        let room : inode_offset i + length (env.encode_inode inode)
            ≤ length (view (inode_block i)) =
          omega (arith, fits_in i, sized (inode_block i) lt, layout.length-encode inode) in
        let size =
          length-splice (inode_offset i) (env.encode_inode inode) (view (inode_block i)) room in
        elim (Bool-cases (inode_block i == b)) [
          | inl here ↦ ap length (w b lt' ∙ rw here refl) ∙ size ∙ sized (inode_block i) lt
          | inr there ↦ ap length (w b lt' ∙ rw there refl) ∙ sized b lt'
        ]
