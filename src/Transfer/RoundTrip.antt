-- ===== src/Transfer/RoundTrip.antt =====
-- A read behind a write of the same bytes of a file.
use native.Mathlib.Decide.{dec_lt}
use model_lib.Prelude.{
  ℕ, ◌+◌, ◌-◌, ◌≤◌, ◌<◌, ◌≡◌, refl, sym, ap, ◌∙◌, List, [], arith, length, get_elem?-get_or,
}
use model_lib.Prelude.Int.{ℤ, pos, negsuc}
use model_lib.Env.{Env, Bytes, Ptr, null, Inode, IsLayout}
use model_lib.Queue.Seg.{Cell}
use model_lib.Machine.{Sys, Run, ok, int_limit, read_memory, write_memory, ◌>>=◌, ◌>>◌}
use model_lib.Machine.Memory.{length-read_memory, put_at}
use model_lib.Buffer.{inode_block}
use model_lib.Buffer.Evict.{content}
use model_lib.Buffer.Pieces.{eq_of_get_elem?, get_elem?-beyond}
use model_lib.Buffer.Inodes.{inode_content, IsSys}
use model_lib.File.Contents.{byte_at, bytes_from, get_elem?-bytes_from, IsFile}
use model_lib.File.Overwrite.{IsApart}
use model_lib.Transfer.{handle_read, handle_write}
use model_lib.Transfer.Copy.{Writable}
use model_lib.Transfer.ReadFile.{HasRead, count}
use model_lib.Transfer.HandleRead.{handle_read-HasRead}
use model_lib.Transfer.Store.{Readable}
use model_lib.Transfer.WriteFile.{HasWritten}
use model_lib.Transfer.HandleWrite.{handle_write-HasWritten}

module _ ⦃env : Env⦄ where
  -- the bytes that were put
  bytes_from-put_at :
      (inode : Inode) (view view' : ℕ → Bytes) (off : ℕ) (new : Bytes)
      → ((k : ℕ) → k < inode.size → byte_at inode view' k ≡ put_at off new k (byte_at inode view k))
      → off + length new ≤ inode.size
      → bytes_from inode view' off (length new) ≡ new
  bytes_from-put_at inode view view' off new put inside =
      eq_of_get_elem? (bytes_from inode view' off (length new)) new λ i.
        get_elem?-bytes_from inode view' off (length new) i ∙ elim (dec_lt i (length new)) [
          | yes lt ↦
              let back : off + i - off ≡ i = omega arith in
              let byte = put (off + i) (omega (arith, lt, inside)) in
              let there = get_elem?-get_or new i 0 lt in ground (arith, back, byte, there)
          | no ge ↦ ground (arith, get_elem?-beyond new i)
        ]

  -- The two calls ended, and the second one's process has the bytes of the first one's.
  pub record IsRoundTrip (pid : ℕ) (buf : Ptr) (size : ℕ) (pid' : ℕ) (buf' : Ptr) (s : Sys)
      (run : Run ℤ) : Type 0 where
    pub state : Sys
    pub returns : run ≡ ok (pos size) state
    pub user :
        (q : ℕ) (a : Ptr)
        → state.user q a ≡ write_memory s.user pid' buf' (read_memory (s.user pid) buf size) q a

  module _ (layout : IsLayout env) (last : ℕ) (table : inode_block last < env.num_sectors)
      (pos_cache : 0 < env.block_cache_size) where
    HasWritten-HasRead :
        (i : ℕ) (inode : Inode) (off : ℕ) (new : Bytes) (s : Sys) (bs : List (Cell Bytes))
        (is : List (Cell Inode)) (r : ℤ) (run : Run ℤ) (pid : ℕ) (buf : Ptr)
        → (h : HasWritten last inode off new s bs is r run) → inode_content bs s.disk is i ≡ inode
        → i ≤ last
        → 1 < env.inode_cache_size
        → env.error ≡ negsuc 0
        → IsFile last inode (content bs s.disk)
        → off + length new ≤ inode.size
        → inode.size < int_limit
        → Writable pid buf (length new)
        → HasRead last pid buf new h.state h.cells h.items
            (pos (length new))
            (handle_read (pos i) buf (pos (length new)) (pos off) pid h.state)
    HasWritten-HasRead i inode off new s bs is r run pid buf h at_i i_le two code file inside small
          ok_user =
        let view = content bs s.disk in
        let view' = content h.cells h.state.disk in
        let now : inode_content h.cells h.state.disk h.items i ≡ inode = h.inodes i i_le ∙ at_i in
        let all : count inode (length new) off ≡ length new = ground (arith, inside) in
        let file' : IsFile last inode view' = record {
          placed = λ n lt. let here = file.placed n lt in rw (sym (h.block n)) at here;
          indirect = file.indirect;
        } in
        let bytes = bytes_from-put_at inode view view' off new h.bytes inside in
        let read =
          handle_read-HasRead layout last table pos_cache pid i buf (length new) off h.state h.cells
            h.items h.valid i_le (λ e. absurd (h.nonempty e)) two code (rw now file')
            (rw now (omega (arith, inside))) (rw now small) (rw (now, all) ok_user) in
        rw (now, all, bytes) at read

    -- Take the caches, the inode i and its file as for a write: well formed, with the file's blocks
    -- apart from each other and behind the table of inodes. If handle_write is given `size` bytes of a
    -- process, which may be read, for a place within the file's size, which is an int, then handle_read
    -- of `size` bytes from that place on, into memory that may be written, of the same process or
    -- another, also answers `size`, and copies the bytes that were written; no other memory changes.
    pub handle_read-handle_write :
        (pid i : ℕ) (buf : Ptr) (size off : ℕ) (pid' : ℕ) (buf' : Ptr) (s : Sys)
        (bs : List (Cell Bytes)) (is : List (Cell Inode))
        → IsSys last s bs is
        → i ≤ last
        → (is ≡ [] → env.fresh_next s.inodes.brk ≡ null)
        → 1 < env.inode_cache_size
        → env.error ≡ negsuc 0
        → IsFile last (inode_content bs s.disk is i) (content bs s.disk)
        → IsApart (inode_content bs s.disk is i) (content bs s.disk)
        → off + size ≤ (inode_content bs s.disk is i).size
        → (inode_content bs s.disk is i).size < int_limit
        → Readable pid buf size
        → Writable pid' buf' size
        → IsRoundTrip pid buf size pid' buf' s (
            (do
              handle_write (pos i) buf (pos size) (pos off) pid
              handle_read (pos i) buf' (pos size) (pos off) pid')
              s)
    handle_read-handle_write pid i buf size off pid' buf' s bs is v i_le clean two code file apart
          inside small from_user to_user =
        let inode = inode_content bs s.disk is i in
        let new = read_memory (s.user pid) buf size in
        let len = length-read_memory (s.user pid) buf size in
        let h =
          handle_write-HasWritten layout last table pos_cache pid i buf size off s bs is v i_le
            clean two code file apart inside from_user in
        let r =
          HasWritten-HasRead i inode off new s bs is (pos size) _ pid' buf' h refl i_le two code
            file (omega (arith, len, inside)) small (rw len to_user) in
        let same_user : h.state.user ≡ s.user = ap {A = Sys} (λ z. z.user) h.others in
        record {
          state = r.state;
          returns =
              rw (h.returns, ◌>>=◌, ◌>>◌)
                (ap (λ n. handle_read (pos i) buf' (pos n) (pos off) pid' h.state) (sym len)
                  ∙ r.returns
                  ∙ ap (λ n. ok (pos n) r.state) len);
          user = λ q a. r.user q a ∙ ap (λ u. write_memory u pid' buf' new q a) same_user;
        }
