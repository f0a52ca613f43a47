-- ===== src/Transfer/Write.antt =====
-- The loop of handle_write where it replaces bytes that the file has.
use model_lib.Prelude.{
  ℕ, zero, suc, ◌+◌, ◌-◌, ◌*◌, ◌≤◌, ◌<◌, ◌≡◌, refl, sym, ap, ◌∙◌, List, ◌++◌, Bool, true, false,
  ◌==◌, arith, length,
}
use model_lib.Env.{Env, Bytes, Ptr, Inode}
use model_lib.Queue.Seg.{Cell}
use model_lib.Machine.{Sys, Run, read_memory, ◌>>=◌, ◌>>◌}
use model_lib.Machine.Memory.{read_memory-append, length-read_memory}
use model_lib.Buffer.Evict.{content}
use model_lib.File.{max_blocks}
use model_lib.File.Contents.{block_of}
use model_lib.File.Locate.{Held, Cached}
use model_lib.File.Overwrite.{
  IsApart, Overwritten, Overwritten-nil, Overwritten-append, Overwritten-at, Overwritten-same,
  Overwritten-IsFile, Overwritten-IsApart,
}
use model_lib.Transfer.Rounds.{chunk, IsStored, present}
use model_lib.Transfer.{write_blocks, write_update, get_num_copy_bytes, store_copied}
use model_lib.Transfer.Store.{update_i_size_lem, Readable, Round, Stored, store_steps}

module _ ⦃env : Env⦄ where
  module _ (last : ℕ) (pid : ℕ) (p : Ptr) (inode : Inode) (size byte_offset : ℕ)
      (whole : byte_offset + size ≤ inode.size) where
    -- a round and the ones behind it
    Stored-after :
        (i : ℕ) (buf : Ptr) (off left : ℕ) (s : Sys) (xs : List (Cell Bytes))
        (rd : Round last pid p inode size byte_offset whole i buf off left s xs) (run : Run Bool)
        → off < env.block_size
        → Stored inode
            ((i + 1) * env.block_size + 0)
            (read_memory (rd.put.state.user pid) (buf + chunk off left) (left - chunk off left))
            rd.put.state
            rd.put.cells
            true
            run
        → Stored inode (i * env.block_size + off) (read_memory (s.user pid) buf left) s xs true run
    Stored-after i buf off left s xs rd run lt rest =
        let n = chunk off left in
        let mem = s.user pid in
        let k = i * env.block_size + off in
        let after = read_memory mem (buf + n) (left - n) in
        let same_user : rd.put.state.user ≡ s.user = ap {A = Sys} (λ z. z.user) rd.others in
        let sum : n + (left - n) ≡ left = ground arith in
        let pieces : read_memory mem buf n ++ after ≡ read_memory mem buf left =
          sym (read_memory-append mem buf n (left - n)) ∙ ap (read_memory mem buf) sum in
        let view₁ = content rd.put.cells rd.put.state.disk in
        let view₂ = content rest.cells rest.state.disk in
        let more : Overwritten inode ((i + 1) * env.block_size + 0) after view₁ view₂ =
          Overwritten-same inode ((i + 1) * env.block_size + 0)
            (read_memory (rd.put.state.user pid) (buf + n) (left - n)) after view₁ view₂
            (ap (λ (u : ℕ → Ptr → ℕ). read_memory (u pid) (buf + n) (left - n)) same_user)
            rest.written in
        let next : 0 < length after
            → (i + 1) * env.block_size + 0 ≡ k + length (read_memory mem buf n) =
          λ some_left. ground (
            arith,
            some_left,
            lt,
            length-read_memory mem buf n,
            length-read_memory mem (buf + n) (left - n),
          ) in
        let both =
          Overwritten-append inode k (read_memory mem buf n) after (content xs s.disk) view₁ view₂
            rd.written
            (Overwritten-at inode ((i + 1) * env.block_size + 0)
              (k + length (read_memory mem buf n)) after view₁ view₂ next more) in
        record {
          state = rest.state;
          cells = rest.cells;
          returns = rest.returns;
          cached = rest.cached;
          written =
              Overwritten-same inode k (read_memory mem buf n ++ after) (read_memory mem buf left)
                (content xs s.disk) view₂ pieces both;
          tracked = λ on_disk. rest.tracked (rd.tracked on_disk);
          others =
              rest.others
              ∙ ap {A = Sys} (λ z. record z { blocks = rest.state.blocks; disk = rest.state.disk })
                  rd.others;
        }

    Round-runs :
        (fuel i : ℕ) (buf : Ptr) (off left m : ℕ) (s : Sys) (xs : List (Cell Bytes))
        (rd : Round last pid p inode size byte_offset whole i buf off left s xs)
        → 0 < left
        → (block_of inode (content xs s.disk) i == 0) ≡ false
        → write_blocks
            (suc fuel)
            pid
            p
            size
            byte_offset
            i
            (record { buf = buf; b_offset = off; leftover_bytes = left; num_bytes = m })
            s
          ≡ write_blocks fuel pid p size byte_offset
              (i + 1)
              (record {
                buf = buf + chunk off left;
                b_offset = 0;
                leftover_bytes = left - chunk off left;
                num_bytes = env.block_size;
              })
              rd.put.state
    unfolding write_blocks get_num_copy_bytes write_update store_copied
    Round-runs fuel i buf off left m s xs rd more nonzero =
        let again : (left == 0) ≡ false = ground (arith, more) in
        rw
          (
            again,
            rd.found,
            nonzero,
            rd.put.got,
            rd.copied,
            rd.put.wrote,
            rd.put.marked,
            update_i_size_lem p inode size byte_offset (left - chunk off left) rd.put.state rd.held
                whole,
            get_num_copy_bytes,
            write_update,
            store_copied,
            ◌>>=◌,
            ◌>>◌,
          )
          refl

    pub write_blocks-Stored :
        (fuel i : ℕ) (buf : Ptr) (off left m : ℕ) (s : Sys) (xs : List (Cell Bytes))
        → Cached s xs
        → Held p inode s
        → IsStored last inode (content xs s.disk)
        → IsApart inode (content xs s.disk)
        → off < env.block_size
        → (0 < left → i * env.block_size + off + left ≤ inode.size)
        → 0 < fuel
        → max_blocks < fuel + i
        → Readable pid buf left
        → Stored inode (i * env.block_size + off) (read_memory (s.user pid) buf left) s xs true (
            write_blocks fuel pid p size byte_offset i
              (record { buf = buf; b_offset = off; leftover_bytes = left; num_bytes = m })
              s)
    unfolding write_blocks read_memory
    write_blocks-Stored zero i buf off left m s xs v held stored apart lt inside pos enough
          ok_user =
        elim pos [ ]
    write_blocks-Stored (suc fuel) i buf off zero m s xs v held stored apart lt inside pos enough
          ok_user =
        record {
          state = s;
          cells = xs;
          returns = refl;
          cached = v;
          written =
              Overwritten-nil inode (i * env.block_size + off) (content xs s.disk) stored.sized;
          tracked = λ on_disk. on_disk;
          others = refl;
        }
    write_blocks-Stored (suc fuel) i buf off (suc left) m s xs v held stored apart lt inside pos
          enough ok_user =
        let view = content xs s.disk in
        let n = chunk off (suc left) in
        let fewer : n ≤ suc left = ground arith in
        let here = inside (omega arith) in
        let (at_i, on_disk, nonzero, below) =
          present inode view last stored i off (suc left) lt (omega arith) here in
        let rd =
          store_steps last pid p inode size byte_offset whole i buf off (suc left) s xs v held
            stored apart lt (omega arith) here
            (ok_user buf n (omega arith) (omega (arith, fewer))) in
        let view₁ = content rd.put.cells rd.put.state.disk in
        let new = read_memory (s.user pid) buf n in
        let stored₁ : IsStored last inode view₁ = record {
          file =
              Overwritten-IsFile inode (i * env.block_size + off) last new view view₁ rd.written
                stored.file;
          sized = rd.written.sized;
        } in
        let rest =
          write_blocks-Stored fuel (i + 1) (buf + n) 0 (suc left - n) env.block_size rd.put.state
            rd.put.cells rd.cached rd.held stored₁
            (Overwritten-IsApart inode (i * env.block_size + off) new view view₁ rd.written apart)
            (omega (arith, lt)) (λ more. ground (arith, more, here, lt))
            (omega (arith, enough, below)) (omega (arith, enough))
            (λ a k le le'. ok_user a k (omega (arith, le)) (omega (arith, le', fewer))) in
        rw (Round-runs fuel i buf off (suc left) m s xs rd (omega arith) nonzero)
          (Stored-after i buf off (suc left) s xs rd _ lt rest)
