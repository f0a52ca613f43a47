-- ===== src/Dir/Ends.antt =====
-- The search of a directory ends: its entries and its blocks are finitely many.
use model_lib.Prelude.{
  ℕ, zero, suc, ◌+◌, ◌≤◌, ◌<◌, ◌≡◌, Bool, false, ◌==◌, ltb, leb, ◌&&◌, arith, Bool-cases, inl, inr,
}
use model_lib.Env.{Env, Bytes, Ptr}
use model_lib.Machine.{Sys}
use model_lib.Machine.Ends.{Ends, ends_ok, Ends-bind, Ends-if}
use model_lib.Buffer.Ends.{buffer_rules, read_inode-Ends, read_entry-Ends, get_b-Ends, get_i-Ends}
use model_lib.File.{max_blocks}
use model_lib.File.Ends.{get_nth_b-Ends, get_nth_b-then}
use model_lib.Dir.{
  Scan, note_free, next_entry, scan_block, scan_blocks, grow_dir, clear_inum, new_block_entry,
  new_entry, append_entry, make_entry, start_scan, finish_scan, get_dir_entry, name_eq,
}

module _ ⦃env : Env⦄ where
  grow_dir-Ends : (p : Ptr) (s : Sys) → Ends (grow_dir p s)
  unfolding grow_dir
  grow_dir-Ends p s = search buffer_rules

  clear_inum-Ends : (b : Ptr) (off : ℕ) (s : Sys) → Ends (clear_inum b off s)
  unfolding clear_inum
  clear_inum-Ends b off s = search buffer_rules

  new_block_entry-Ends : (p : Ptr) (start_i i : ℕ) (s : Sys) → Ends (new_block_entry p start_i i s)
  unfolding new_block_entry
  new_block_entry-Ends p start_i i s =
      search (buffer_rules, get_nth_b-Ends, grow_dir-Ends, clear_inum-Ends) depth 10

  new_entry-Ends : (p : Ptr) (start_i : ℕ) (sc : Scan) (s : Sys) → Ends (new_entry p start_i sc s)
  unfolding new_entry
  new_entry-Ends p start_i sc s = search (buffer_rules, grow_dir-Ends, clear_inum-Ends) depth 10

  make_entry-Ends : (p : Ptr) (start_i : ℕ) (sc : Scan) (s : Sys) → Ends (make_entry p start_i sc s)
  unfolding make_entry append_entry
  make_entry-Ends p start_i sc s =
      search (buffer_rules, new_block_entry-Ends, new_entry-Ends) depth 7

  finish_scan-Ends :
      (p : Ptr) (start_i : ℕ) (make : Bool) (sc : Scan) (s : Sys)
      → Ends (finish_scan p start_i make sc s)
  unfolding finish_scan
  finish_scan-Ends p start_i make sc s = search (buffer_rules, make_entry-Ends)

  scan_block-Ends :
      (fuel : ℕ) (path : Bytes) (p : Ptr) (sc : Scan) (s : Sys)
      → 0 < env.entry_size
      → env.block_size < fuel + sc.cur_entry
      → 0 < fuel
      → Ends (scan_block fuel path p sc s)
  unfolding scan_block next_entry note_free
  scan_block-Ends zero path p sc s size room pos = elim pos [ ]
  scan_block-Ends (suc fuel) path p sc s size room pos = Ends-bind (read_inode-Ends p s) λ inode s₁.
      elim (Bool-cases (leb sc.total_size inode.size && ltb sc.cur_entry env.block_size)) [
        | inr e ↦ rw e ends_ok
        | inl e ↦ rw e (
            Ends-bind (read_entry-Ends sc.cur_b sc.cur_entry s₁) λ entry s₂.
              Ends-if (name_eq env.dir_name_len path entry.name) _ _ s₂ ends_ok
                (scan_block-Ends fuel path p _ s₂ size (ground arith) (ground arith)))
      ]

  scan_blocks-Ends :
      (fuel : ℕ) (path : Bytes) (p : Ptr) (sc : Scan) (s : Sys)
      → 0 < env.entry_size
      → max_blocks < fuel + sc.i
      → 0 < fuel
      → (max_blocks ≤ sc.i → sc.b_num ≡ 0)
      → Ends (scan_blocks fuel path p sc s)
  unfolding scan_blocks
  scan_blocks-Ends zero path p sc s size room pos last = elim pos [ ]
  scan_blocks-Ends (suc fuel) path p sc s size room pos last = elim (Bool-cases (sc.b_num == 0)) [
    | inl e ↦ rw e ends_ok
    | inr e ↦ rw e (
        Ends-bind (get_b-Ends sc.b_num s) λ cur_b s₁.
          Ends-bind
            (scan_block-Ends (env.block_size + 1) path p _ s₁ size (omega arith) (omega arith))
            λ sc' s₂. Ends-if sc'.found _ _ s₂ ends_ok (
              get_nth_b-then p (sc.i + 1) false s₂ _ λ b s₃ last'.
                scan_blocks-Ends fuel path p _ s₃ size (omega arith) (ground arith) last'))
  ]

  pub get_dir_entry-Ends :
      (path : Bytes) (start_i : ℕ) (make : Bool) (s : Sys)
      → 0 < env.entry_size
      → Ends (get_dir_entry path start_i make s)
  unfolding get_dir_entry start_scan
  get_dir_entry-Ends path start_i make s size = Ends-bind (get_i-Ends start_i s) λ p s₁.
      get_nth_b-then p 0 false s₁ _ λ b s₂ last.
        Ends-bind
          (scan_blocks-Ends (max_blocks + 1) path p (start_scan b) s₂ size (omega arith)
            (omega arith) last)
          λ sc s₃. finish_scan-Ends p start_i make sc s₃
