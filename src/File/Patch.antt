-- ===== src/File/Patch.antt =====
-- A piece of one block of a file replaced.
use native.Mathlib.Nat.{div-add-mod', mod-lt}
use native.Mathlib.Decide.{dec_lt, ℕ_discrete}
use model_lib.Prelude.{
  ℕ, ◌+◌, ◌-◌, ◌*◌, ◌/◌, ◌%◌, ◌≤◌, ◌<◌, ◌≡◌, refl, sym, ap, ◌∙◌, ◌≢◌, inl, inr, Bool-cases, true,
  false, leb, ltb, ◌==◌, ◌&&◌, if◌then◌else◌, arith, length, get_or, get_elem?-get_or,
}
use model_lib.Env.{Env, Bytes, Inode}
use model_lib.Machine.Memory.{put_at}
use model_lib.Buffer.{splice}
use model_lib.Buffer.Slots.{slot-lt}
use model_lib.Buffer.Pieces.{get_elem?-splice, length-splice}
use model_lib.File.Contents.{block_of, byte_at, in_block, block_of_same, IsFile, byte_at_block}
use model_lib.File.Overwrite.{IsApart, Overwritten}

put_at-shift :
    (m off : ℕ) (new : Bytes) (c old : ℕ) → put_at (m + off) new (m + c) old ≡ put_at off new c old
put_at-shift m off new c old =
    let d : m + c - (m + off) ≡ c - off = omega arith in ground (arith, d)

get_or-splice :
    (off : ℕ) (new bytes : Bytes) (i : ℕ)
    → off + length new ≤ length bytes
    → i < length bytes
    → get_or (splice off new bytes) i 0 ≡ put_at off new i (get_or bytes i 0)
get_or-splice off new bytes i le lt =
    let size = length-splice off new bytes le in
    let spliced = get_elem?-splice off new bytes i (omega (arith, le)) in
    let here = get_elem?-get_or (splice off new bytes) i 0 (omega (arith, size, lt)) in
    let old = get_elem?-get_or bytes i 0 lt in
    elim (Bool-cases (leb off i && ltb i (off + length new))) [
      | inl inside ↦
          let fresh = get_elem?-get_or new (i - off) 0 (ground (arith, inside)) in
          ground (arith, spliced, here, fresh)
      | inr outside ↦ ground (arith, spliced, here, old)
    ]

module _ ⦃env : Env⦄ where
  module _ (inode : Inode) (at : ℕ) where
    -- a piece of block `i` is replaced
    module _ (view view' : ℕ → Bytes) (last i off : ℕ) (new : Bytes) (file : IsFile last inode view)
        (apart : IsApart inode view)
        (sized : (b : ℕ) → b < env.num_sectors → length (view b) ≡ env.block_size)
        (wide : 0 < env.block_size) (lt : i * env.block_size < inode.size)
        (place : i * env.block_size + off ≡ at) (le : off + length new ≤ env.block_size)
        (spliced : (b : ℕ)
          → b < env.num_sectors
          → view' b ≡ (
              if block_of inode view i == b
              then splice off new (view (block_of inode view i))
              else view b)) where
      unchanged : (b : ℕ) → b < env.num_sectors → block_of inode view i ≢ b → view' b ≡ view b
      unchanged b b_lt ne =
          let other : (block_of inode view i == b) ≡ false = ground arith in
          spliced b b_lt ∙ rw other refl

      block_same : (n : ℕ) → block_of inode view' n ≡ block_of inode view n
      block_same n =
          block_of_same inode view' view n
            λ far. unchanged inode.indirect (file.indirect far).1 (apart.indirect i lt far)

      spliced_here : view' (block_of inode view i) ≡ splice off new (view (block_of inode view i))
      spliced_here =
          let b = block_of inode view i in
          let self : (b == b) ≡ true = ground arith in spliced b (file.placed i lt).1 ∙ rw self refl

      -- position `c` of block `n` of the file
      byte_same :
          (n c : ℕ)
          → n * env.block_size + c < inode.size
          → c < env.block_size
          → byte_at inode view' (n * env.block_size + c)
            ≡ put_at at new (n * env.block_size + c) (byte_at inode view (n * env.block_size + c))
      byte_same n c n_lt c_lt =
          let (quot, rem) = in_block n c env.block_size c_lt in
          let n_in : n * env.block_size < inode.size = omega (arith, n_lt) in
          let old = byte_at_block inode view n c quot rem in
          let now =
            byte_at_block inode view' n c quot rem
            ∙ ap (λ b. get_or (view' b) c 0) (block_same n) in
          elim (ℕ_discrete i n) [
            | yes same ↦
                let b = block_of inode view i in
                let here : block_of inode view n ≡ b = ap (block_of inode view) (sym same) in
                let size = sized b (file.placed i lt).1 in
                let bytes : get_or (view' (block_of inode view n)) c 0
                    ≡ put_at off new c (get_or (view b) c 0) =
                  rw here (
                    rw spliced_here (
                      get_or-splice off new (view b) c (omega (arith, size, le))
                        (omega (arith, size, c_lt)))) in
                let start : n * env.block_size + off ≡ at = rw same at place in
                now
                ∙ bytes
                ∙ sym (ap (λ v. put_at off new c (get_or (view v) c 0)) here)
                ∙ sym (
                    put_at-shift (n * env.block_size) off new c
                      (get_or (view (block_of inode view n)) c 0))
                ∙ ap
                    (λ a.
                      put_at a new (n * env.block_size + c)
                        (get_or (view (block_of inode view n)) c 0))
                    start
                ∙ ap (put_at at new (n * env.block_size + c)) (sym old)
            | no ne ↦
                let b = block_of inode view n in
                let beside : put_at at new (n * env.block_size + c)
                      (byte_at inode view (n * env.block_size + c))
                    ≡ byte_at inode view (n * env.block_size + c) =
                  elim (dec_lt i n) [
                    | yes before ↦
                        let order = slot-lt i n env.block_size before in
                        ground (arith, order, place, le)
                    | no behind ↦
                        let order = slot-lt n i env.block_size (omega (arith, ne)) in
                        ground (arith, order, place, c_lt)
                  ] in
                now
                ∙ ap (λ t. get_or t c 0)
                    (unchanged b (file.placed n n_in).1 (apart.blocks i n lt n_in ne))
                ∙ sym old
                ∙ sym beside
          ]

      pub Overwritten-splice : Overwritten inode at new view view'
      Overwritten-splice = record {
        byte = λ k k_lt.
            let whole = div-add-mod' k env.block_size in
            let at_k =
              byte_same (k / env.block_size) (k % env.block_size) (omega (arith, whole, k_lt))
                (mod-lt k wide) in
            rw whole at at_k;
        outside = λ b b_lt none_holds. unchanged b b_lt (none_holds i lt);
        block = block_same;
        sized = λ b b_lt. elim (Bool-cases (block_of inode view i == b)) [
          | inl here ↦
              let old = view (block_of inode view i) in
              let size = sized (block_of inode view i) (file.placed i lt).1 in
              ap length (spliced b b_lt ∙ rw here refl)
              ∙ length-splice off new old (omega (arith, size, le))
              ∙ size
          | inr there ↦ ap length (spliced b b_lt ∙ rw there refl) ∙ sized b b_lt
        ];
      }
