-- ===== src/Transfer/Read.antt =====
-- The loop of handle_read on a file that holds the bytes to be read.
use model_lib.Prelude.{
  Bool, ℕ, zero, suc, ◌+◌, ◌-◌, ◌*◌, ◌≤◌, ◌<◌, ◌≡◌, refl, sym, ap, ◌∙◌, List, true, false, ◌==◌,
  arith, length,
}
use model_lib.Env.{Env, Bytes, Ptr, Inode}
use model_lib.Queue.Seg.{Cell}
use model_lib.Machine.{Sys, Run, copy_to, write_memory, ◌>>=◌}
use model_lib.Machine.Memory.{write_memory_nil, write_memory-append}
use model_lib.File.{max_blocks}
use model_lib.File.Contents.{block_of, bytes_from, length-bytes_from}
use model_lib.Transfer.Rounds.{cursor, chunk, IsStored, Shows, Shows-user, present, bytes-chunk}
use model_lib.Transfer.{read_blocks, read_update}
use model_lib.Transfer.Copy.{Copied, Round, Writable, clip-chunk, copy_steps}

module _ ⦃env : Env⦄ where
  module _ (last : ℕ) (pid : ℕ) (p : Ptr) (inode : Inode) (view : ℕ → Bytes)
      (stored : IsStored last inode view) where
    write_memory-chunk :
        (user : ℕ → Ptr → ℕ) (i : ℕ) (buf : Ptr) (off left : ℕ) (q : ℕ) (a : Ptr)
        → off < env.block_size
        → write_memory
            (write_memory user pid buf
              (bytes_from inode view (i * env.block_size + off) (chunk off left)))
            pid
            (buf + chunk off left)
            (bytes_from inode view ((i + 1) * env.block_size + 0) (left - chunk off left))
            q
            a
          ≡ write_memory user pid buf (bytes_from inode view (i * env.block_size + off) left) q a
    write_memory-chunk user i buf off left q a lt =
        let n = chunk off left in
        let k = i * env.block_size + off in
        let bytes = bytes_from inode view k n in
        let after = bytes_from inode view ((i + 1) * env.block_size + 0) (left - n) in
        ap (λ m. write_memory (write_memory user pid buf bytes) pid (buf + m) after q a)
          (sym (length-bytes_from inode view k n))
        ∙ write_memory-append user pid buf bytes after q a
        ∙ ap (λ t. write_memory user pid buf t q a) (sym (bytes-chunk inode view i off left lt))

    -- a round in the process's memory
    abbrev copied_state : (i : ℕ) (buf : Ptr) (off left : ℕ) → Sys → Sys
    copied_state i buf off left s = record s {
      user =
          write_memory s.user pid buf
            (bytes_from inode view (i * env.block_size + off) (chunk off left));
    }

    Round-runs :
        (fuel i : ℕ) (buf : Ptr) (off left : ℕ) (s : Sys) (xs : List (Cell Bytes))
        (rd : Round last pid p inode view stored i buf off left s xs)
        → 0 < left
        → (block_of inode view i == 0) ≡ false
        → env.writable pid buf
            (length (bytes_from inode view (i * env.block_size + off) (chunk off left)))
          ≡ true
        → read_blocks (suc fuel) pid p i (cursor buf off left) s
          ≡ read_blocks fuel pid p
              (i + 1)
              (cursor (buf + chunk off left) 0 (left - chunk off left))
              (copied_state i buf off left rd.s₁)
    unfolding read_blocks copy_to read_update
    Round-runs fuel i buf off left s xs rd some_left nonzero allowed =
        let n = chunk off left in
        let whole : env.block_size - 0 ≡ env.block_size = omega arith in
        let more : (left == 0) ≡ false = ground (arith, some_left) in
        rw
          (
            more,
            rd.found,
            nonzero,
            rd.got,
            clip-chunk last pid p inode view stored buf off left,
            rd.read,
            allowed,
            copy_to,
            read_update,
            ◌>>=◌,
          )
          (ap
            (λ m.
              read_blocks fuel pid p (i + 1)
                (record (cursor (buf + n) 0 (left - n)) { num_bytes = m })
                (copied_state i buf off left rd.s₁))
            (sym whole))

    -- a round and the ones behind it
    Copied-after :
        (i : ℕ) (buf : Ptr) (off left : ℕ) (s : Sys) (xs : List (Cell Bytes))
        (rd : Round last pid p inode view stored i buf off left s xs) (run : Run Bool)
        → off < env.block_size
        → Copied pid p inode view
            (buf + chunk off left)
            (bytes_from inode view ((i + 1) * env.block_size + 0) (left - chunk off left))
            (copied_state i buf off left rd.s₁)
            rd.cells
            true
            run
        → Copied pid p inode view buf
            (bytes_from inode view (i * env.block_size + off) left)
            s
            xs
            true
            run
    Copied-after i buf off left s xs rd run lt rest =
        let n = chunk off left in
        let bytes = bytes_from inode view (i * env.block_size + off) n in
        let after = bytes_from inode view ((i + 1) * env.block_size + 0) (left - n) in
        record {
          state = rest.state;
          cells = rest.cells;
          returns = rest.returns;
          shows = rest.shows;
          tracked = λ on_disk. rest.tracked (rd.tracked on_disk);
          user = λ q a.
              rest.user q a
              ∙ ap
                  (λ (u : ℕ → Ptr → ℕ).
                    write_memory (write_memory u pid buf bytes) pid (buf + n) after q a)
                  (ap {A = Sys} (λ z. z.user) rd.others)
              ∙ write_memory-chunk s.user i buf off left q a lt;
          others =
              rest.others
              ∙ ap {A = Sys}
                  (λ z. record z {
                    blocks = rest.state.blocks;
                    disk = rest.state.disk;
                    user = rest.state.user;
                  })
                  rd.others;
        }

    pub read_blocks-Copied :
        (fuel i : ℕ) (buf : Ptr) (off left : ℕ) (s : Sys) (xs : List (Cell Bytes))
        → Shows p inode view s xs
        → off < env.block_size
        → (0 < left → i * env.block_size + off + left ≤ inode.size)
        → 0 < fuel
        → max_blocks < fuel + i
        → Writable pid buf left
        → Copied pid p inode view buf
            (bytes_from inode view (i * env.block_size + off) left)
            s
            xs
            true
            (read_blocks fuel pid p i (cursor buf off left) s)
    unfolding read_blocks
    read_blocks-Copied zero i buf off left s xs v lt inside pos enough ok_user = elim pos [ ]
    read_blocks-Copied (suc fuel) i buf off zero s xs v lt inside pos enough ok_user = record {
      state = s;
      cells = xs;
      returns = refl;
      shows = v;
      tracked = λ on_disk. on_disk;
      user = λ q a. sym (write_memory_nil s.user pid buf q a);
      others = refl;
    }
    read_blocks-Copied (suc fuel) i buf off (suc left) s xs v lt inside pos enough ok_user =
        let here = inside (omega arith) in
        let rd =
          copy_steps last pid p inode view stored i buf off (suc left) s xs v lt (omega arith)
            here in
        let n = chunk off (suc left) in
        let fewer : n ≤ suc left = ground arith in
        let bytes = bytes_from inode view (i * env.block_size + off) n in
        let size = length-bytes_from inode view (i * env.block_size + off) n in
        let (at_i, on_disk, nonzero, below) =
          present inode view last stored i off (suc left) lt (omega arith) here in
        let allowed : env.writable pid buf (length bytes) ≡ true =
          rw size (ok_user buf n (omega arith) (omega (arith, fewer))) in
        let rest =
          read_blocks-Copied fuel (i + 1) (buf + n) 0 (suc left - n)
            (copied_state i buf off (suc left) rd.s₁) rd.cells
            (Shows-user p inode view rd.s₁ rd.cells (write_memory rd.s₁.user pid buf bytes)
              rd.shows)
            (omega (arith, lt)) (λ more. ground (arith, more, here, lt))
            (omega (arith, enough, below)) (omega (arith, enough))
            (λ a m le le'. ok_user a m (omega (arith, le)) (omega (arith, le', fewer))) in
        rw (Round-runs fuel i buf off (suc left) s xs rd (omega arith) nonzero allowed)
          (Copied-after i buf off (suc left) s xs rd _ lt rest)
