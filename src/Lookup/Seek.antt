-- ===== src/Lookup/Seek.antt =====
-- What handle_seek answers: ERROR, or a position within the file.
use model_lib.Prelude.{
  ◌≡◌, refl, inl, inr, Bool-cases, Bool, true, false, ◌||◌, ◌&&◌, if◌then◌else◌, arith,
}
use model_lib.Prelude.Int.{+ℤ_parts, ℤ, pos, ◌+ℤ◌, leb_ℤ, ltb_ℤ, eqb_ℤ}
use model_lib.Env.{Env}
use model_lib.Machine.{is_int, Sys, ok, add_int, check_int}
use model_lib.Lookup.{seek_set, seek_cur, seek_end, seek_from}

module _ ⦃env : Env⦄ where
  -- the position that a seek asks for
  abbrev pub target : (size offset whence cur_pos : ℤ) → ℤ
  target size offset whence cur_pos =
      if eqb_ℤ whence env.seek_set
      then offset
      else if eqb_ℤ whence env.seek_cur
      then cur_pos +ℤ offset
      else size +ℤ offset

  abbrev pub is_whence : ℤ → Bool
  is_whence whence =
      eqb_ℤ whence env.seek_set || (eqb_ℤ whence env.seek_cur || eqb_ℤ whence env.seek_end)

  abbrev pub inside : (size p : ℤ) → Bool
  inside size p = leb_ℤ (pos 0) p && leb_ℤ p size

  -- the position, if it lies within the file
  abbrev pub checked : (size p : ℤ) → ℤ
  checked size p = if inside size p then p else env.error

  seek_set_lem : (size offset : ℤ) (s : Sys) → seek_set size offset s ≡ ok (checked size offset) s
  unfolding seek_set
  seek_set_lem size offset s = ground arith

  seek_cur_lem :
      (size offset cur_pos : ℤ) (s : Sys)
      → is_int (cur_pos +ℤ offset) ≡ true
      → seek_cur size offset cur_pos s ≡ ok (checked size (cur_pos +ℤ offset)) s
  unfolding seek_cur add_int check_int
  seek_cur_lem size offset cur_pos s h = ground arith

  seek_end_lem :
      (size offset : ℤ) (s : Sys)
      → is_int (size +ℤ offset) ≡ true
      → seek_end size offset s ≡ ok (checked size (size +ℤ offset)) s
  unfolding seek_end add_int check_int
  seek_end_lem size offset s h = ground (arith, +ℤ_parts size offset)

  -- handle_seek, once it has the size of the file, does not overflow where cur_pos + offset and
  -- size + offset are ints. It answers the position that whence asks for if whence is one of the
  -- three values, and both cur_pos and that position lie between 0 and the size; else ERROR, also
  -- for a position behind the size.
  pub seek_from-target :
      (size offset whence cur_pos : ℤ) (s : Sys)
      → is_int (cur_pos +ℤ offset) ≡ true
      → is_int (size +ℤ offset) ≡ true
      → seek_from size offset whence cur_pos s
        ≡ ok
            (if inside size cur_pos && is_whence whence
              then checked size (target size offset whence cur_pos)
              else env.error)
            s
  unfolding seek_from
  seek_from-target size offset whence cur_pos s cur end = elim (Bool-cases (inside size cur_pos)) [
    | inr out ↦
        let guard : (ltb_ℤ size cur_pos || ltb_ℤ cur_pos (pos 0)) ≡ true = ground arith in
        rw (guard, out) refl
    | inl within ↦
        let guard : (ltb_ℤ size cur_pos || ltb_ℤ cur_pos (pos 0)) ≡ false = ground arith in
        rw (guard, within)
          (elim (Bool-cases (eqb_ℤ whence env.seek_set)) [
            | inl set ↦ rw set (seek_set_lem size offset s)
            | inr not_set ↦ elim (Bool-cases (eqb_ℤ whence env.seek_cur)) [
              | inl cur_w ↦ rw (not_set, cur_w) (seek_cur_lem size offset cur_pos s cur)
              | inr not_cur ↦ elim (Bool-cases (eqb_ℤ whence env.seek_end)) [
                | inl end_w ↦ rw (not_set, not_cur, end_w) (seek_end_lem size offset s end)
                | inr not_end ↦ rw (not_set, not_cur, not_end) refl
              ]
            ]
          ])
  ]
