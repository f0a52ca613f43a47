-- ===== src/Transfer/Ends.antt =====
-- The copying loops of handle_read and handle_write end, whatever the file is and wherever they
-- start.
use model_lib.Prelude.{
  ℕ, zero, suc, ◌+◌, ◌<◌, ◌/◌, inl, inr, Option, none, some, Bool, true, false, ◌==◌, Bool-cases,
  arith,
}
use model_lib.Prelude.Int.{ℤ, pos, negsuc}
use model_lib.Env.{Env, Bytes, Ptr, Inode}
use model_lib.Machine.{Sys, copy_from}
use model_lib.Machine.Ends.{
  Ends, ends_ok, Ends-bind, Ends-if, sub_int-Ends, copy_to-Ends, ends_rules,
}
use model_lib.Buffer.Ends.{buffer_rules, get_b-Ends, read_block-Ends}
use model_lib.File.{max_blocks}
use model_lib.File.Ends.{get_nth_b-Ends, get_nth_b-then}
use model_lib.Transfer.{
  Cursor, get_num_bytes_left, read_blocks, read_from, before_start, read_at, handle_read,
  update_i_size, store_copied, write_blocks, finish_write, write_at, handle_write,
}

get_num_bytes_left-Ends :
    (off size : ℤ) (inode : Inode) (s : Sys) → Ends (get_num_bytes_left off size inode s)
unfolding get_num_bytes_left
get_num_bytes_left-Ends off size inode s = search (ends_rules, sub_int-Ends)

module _ ⦃env : Env⦄ where
  read_blocks-Ends :
      (fuel pid : ℕ) (p : Ptr) (i : ℕ) (cur : Cursor) (s : Sys)
      → max_blocks < fuel + i
      → 0 < fuel
      → Ends (read_blocks fuel pid p i cur s)
  unfolding read_blocks
  read_blocks-Ends zero pid p i cur s room more = elim more [ ]
  read_blocks-Ends (suc fuel) pid p i cur s room more =
      Ends-if (cur.leftover_bytes == 0) _ _ s ends_ok (
        get_nth_b-then p i false s _ λ b s₁ last. elim (Bool-cases (b == 0)) [
          | inl e ↦ rw e ends_ok
          | inr e ↦ rw e (
              Ends-bind (get_b-Ends b s₁) λ q s₂. Ends-bind (read_block-Ends q _ _ s₂) λ bytes s₃.
                Ends-bind (copy_to-Ends pid _ bytes s₃) λ copied s₄.
                  Ends-if copied _ _ s₄
                    (read_blocks-Ends fuel pid p (i + 1) _ s₄ (omega arith) (ground arith)) ends_ok)
        ])

  read_from-Ends :
      (pid : ℕ) (p : Ptr) (off left : ℕ) (buf : Ptr) (s : Sys)
      → Ends (read_from pid p off left buf s)
  unfolding read_from
  read_from-Ends pid p off left buf s =
      Ends-bind
        (read_blocks-Ends (max_blocks + 1) pid p (off / env.block_size) _ s (omega arith)
          (omega arith))
        λ done s₁. ends_ok

  before_start-Ends :
      (p : Ptr) (n : ℕ) (allocate : Bool) (s : Sys) → Ends (before_start p n allocate s)
  unfolding before_start
  before_start-Ends p n allocate s = search (buffer_rules, get_nth_b-Ends)

  read_at-Ends :
      (pid : ℕ) (p : Ptr) (off left : ℤ) (buf : Ptr) (s : Sys) → Ends (read_at pid p off left buf s)
  unfolding read_at
  read_at-Ends pid p off (negsuc n) buf s = ends_ok
  read_at-Ends pid p off (pos zero) buf s = ends_ok
  read_at-Ends pid p (negsuc n) (pos (suc left)) buf s = before_start-Ends p n false s
  read_at-Ends pid p (pos off) (pos (suc left)) buf s = read_from-Ends pid p off (suc left) buf s

  pub handle_read-Ends :
      (i : ℤ) (buf : Ptr) (size off : ℤ) (pid : ℕ) (s : Sys)
      → Ends (handle_read i buf size off pid s)
  unfolding handle_read
  handle_read-Ends i buf size off pid s =
      search (buffer_rules, get_num_bytes_left-Ends, read_at-Ends) depth 9

  update_i_size-Ends :
      (p : Ptr) (size off left : ℕ) (s : Sys) → Ends (update_i_size p size off left s)
  unfolding update_i_size
  update_i_size-Ends p size off left s = search buffer_rules

  store_copied-Ends :
      (p : Ptr) (size off b : ℕ) (q : Ptr) (b_offset left : ℕ) (copied : Option Bytes) (s : Sys)
      → Ends (store_copied p size off b q b_offset left copied s)
  unfolding store_copied
  store_copied-Ends p size off b q b_offset left none s = ends_ok
  store_copied-Ends p size off b q b_offset left (some bytes) s =
      search (buffer_rules, update_i_size-Ends)

  write_blocks-Ends :
      (fuel pid : ℕ) (p : Ptr) (size off i : ℕ) (cur : Cursor) (s : Sys)
      → max_blocks < fuel + i
      → 0 < fuel
      → Ends (write_blocks fuel pid p size off i cur s)
  unfolding write_blocks copy_from
  write_blocks-Ends zero pid p size off i cur s room more = elim more [ ]
  write_blocks-Ends (suc fuel) pid p size off i cur s room more =
      Ends-if (cur.leftover_bytes == 0) _ _ s ends_ok (
        get_nth_b-then p i true s _ λ b s₁ last. elim (Bool-cases (b == 0)) [
          | inl e ↦ rw e ends_ok
          | inr e ↦ rw e (
              Ends-bind (get_b-Ends b s₁) λ q s₂.
                Ends-bind (store_copied-Ends p size off b q cur.b_offset _ _ s₂) λ done s₃.
                  Ends-if done _ _ s₃
                    (write_blocks-Ends fuel pid p size off (i + 1) _ s₃ (omega arith)
                      (ground arith))
                    ends_ok)
        ])

  finish_write-Ends : (i : ℕ) (size : ℤ) (done : Bool) (s : Sys) → Ends (finish_write i size done s)
  unfolding finish_write
  finish_write-Ends i size false s = ends_ok
  finish_write-Ends i size true s = search buffer_rules

  write_at-Ends :
      (pid i : ℕ) (p : Ptr) (off size : ℤ) (buf : Ptr) (s : Sys)
      → Ends (write_at pid i p off size buf s)
  unfolding write_at
  write_at-Ends pid i p off (negsuc n) buf s = finish_write-Ends i (negsuc n) true s
  write_at-Ends pid i p off (pos zero) buf s = finish_write-Ends i (pos 0) true s
  write_at-Ends pid i p (negsuc n) (pos (suc size)) buf s = before_start-Ends p n true s
  write_at-Ends pid i p (pos off) (pos (suc size)) buf s =
      Ends-bind
        (write_blocks-Ends (max_blocks + 1) pid p (suc size) off (off / env.block_size) _ s
          (omega arith) (omega arith))
        λ done s₁. finish_write-Ends i (pos (suc size)) done s₁

  pub handle_write-Ends :
      (i : ℤ) (buf : Ptr) (size off : ℤ) (pid : ℕ) (s : Sys)
      → Ends (handle_write i buf size off pid s)
  unfolding handle_write
  handle_write-Ends i buf size off pid s = search (buffer_rules, write_at-Ends) depth 7
