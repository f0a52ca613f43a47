-- ===== src/File/Ends.antt =====
-- The loops over the blocks of a file end: get_nth_b returns 0 past the last index of an inode.
use model_lib.Prelude.{
  ℕ, zero, suc, ◌+◌, ◌≤◌, ◌<◌, ◌≡◌, refl, inl, inr, Bool-cases, List, [], ◌∷◌, Bool, true, false,
  ◌==◌, leb, arith,
}
use native.Mathlib.Decide.{dec_lt}
use model_lib.Env.{Env, Ptr}
use model_lib.Machine.{Sys, ok, M, and_then}
use model_lib.Machine.Ends.{Ends, ends_ok, Ends-bind}
use model_lib.Buffer.Ends.{buffer_rules}
use model_lib.File.{
  pop_b, get_next_free_bnum, add_b_freelist, add_free_i_list, take_inum, get_next_inum_free,
  max_blocks, read_indirect, direct_b, indirect_b, locate_b, get_nth_b, free_blocks, clear_file,
  zero_file,
}

pop_b-Ends : (xs : List ℕ) (s : Sys) → Ends (pop_b xs s)
unfolding pop_b
pop_b-Ends [] s = ends_ok
pop_b-Ends (b ∷ xs) s = ends_ok

pub get_next_free_bnum-Ends : (s : Sys) → Ends (get_next_free_bnum s)
unfolding get_next_free_bnum
get_next_free_bnum-Ends s = pop_b-Ends s.b_head s

pub add_free_i_list-Ends : (i : ℕ) (s : Sys) → Ends (add_free_i_list i s)
unfolding add_free_i_list
add_free_i_list-Ends i s = ends_ok

module _ ⦃env : Env⦄ where
  take_inum-Ends : (xs : List ℕ) (s : Sys) → Ends (take_inum xs s)
  unfolding take_inum
  take_inum-Ends [] s = ends_ok
  take_inum-Ends (i ∷ xs) s = search buffer_rules depth 8

  pub get_next_inum_free-Ends : (s : Sys) → Ends (get_next_inum_free s)
  unfolding get_next_inum_free
  get_next_inum_free-Ends s = take_inum-Ends s.i_head s

  pub read_indirect-Ends : (b : Ptr) (k : ℕ) (s : Sys) → Ends (read_indirect b k s)
  unfolding read_indirect
  read_indirect-Ends b k s = search buffer_rules

  direct_b-Ends : (p : Ptr) (n : ℕ) (finish : Bool) (s : Sys) → Ends (direct_b p n finish s)
  unfolding direct_b
  direct_b-Ends p n finish s = search (buffer_rules, get_next_free_bnum-Ends) depth 9

  indirect_b-Ends : (p : Ptr) (n : ℕ) (finish : Bool) (s : Sys) → Ends (indirect_b p n finish s)
  unfolding indirect_b
  indirect_b-Ends p n finish s =
      search (buffer_rules, get_next_free_bnum-Ends, read_indirect-Ends) depth 9

  locate_b-Ends :
      (p : Ptr) (n : ℕ) (finish allocate : Bool) (s : Sys) → Ends (locate_b p n finish allocate s)
  unfolding locate_b
  locate_b-Ends p n finish allocate s = search (buffer_rules, direct_b-Ends, indirect_b-Ends)

  pub get_nth_b-Ends :
      (p : Ptr) (n : ℕ) (allocate : Bool) (s : Sys) → Ends (get_nth_b p n allocate s)
  unfolding get_nth_b
  get_nth_b-Ends p n allocate s = search (buffer_rules, locate_b-Ends)

  -- past the last block that an inode can name, get_nth_b returns 0
  pub get_nth_b-beyond :
      (p : Ptr) (n : ℕ) (allocate : Bool) (s : Sys)
      → max_blocks ≤ n
      → get_nth_b p n allocate s ≡ ok 0 s
  unfolding get_nth_b
  get_nth_b-beyond p n allocate s h = let e : leb max_blocks n ≡ true = ground arith in rw e

  -- a loop's continuation may use that the blocks come to an end
  pub get_nth_b-then :
      {A : Type 0} (p : Ptr) (n : ℕ) (allocate : Bool) (s : Sys) (k : ℕ → M A)
      → ((b : ℕ) (s' : Sys) → (max_blocks ≤ n → b ≡ 0) → Ends (k b s'))
      → Ends (and_then (get_nth_b p n allocate s) k)
  get_nth_b-then p n allocate s k h = elim (dec_lt n max_blocks) [
    | yes lt ↦
        Ends-bind (get_nth_b-Ends p n allocate s) (λ b s'. h b s' (λ le. absurd (omega arith)))
    | no ge ↦ rw (get_nth_b-beyond p n allocate s (omega arith)) (h 0 s (λ _. refl))
  ]

  free_blocks-Ends :
      (fuel : ℕ) (p : Ptr) (i : ℕ) (s : Sys)
      → max_blocks < fuel + i
      → 0 < fuel
      → Ends (free_blocks fuel p i s)
  unfolding free_blocks add_b_freelist
  free_blocks-Ends zero p i s room pos = elim pos [ ]
  free_blocks-Ends (suc fuel) p i s room pos = get_nth_b-then p i false s _ λ b s' last.
      elim (Bool-cases (b == 0)) [
        | inl e ↦ rw e ends_ok
        | inr e ↦ rw e (free_blocks-Ends fuel p (i + 1) _ (omega arith) (ground arith))
      ]

  pub clear_file-Ends : (p : Ptr) (s : Sys) → Ends (clear_file p s)
  unfolding clear_file
  clear_file-Ends p s =
      search (buffer_rules, free_blocks-Ends (max_blocks + 1) p 0 s (omega arith) (omega arith))

  pub zero_file-Ends : (i : ℕ) (s : Sys) → Ends (zero_file i s)
  unfolding zero_file
  zero_file-Ends i s = search (buffer_rules, clear_file-Ends)
