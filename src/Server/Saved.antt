-- ===== src/Server/Saved.antt =====
-- A Write request and then a Shutdown: what the loop of main leaves on the disk.
use model_lib.Prelude.{ℕ, ◌+◌, ◌*◌, ◌≤◌, ◌<◌, ◌≡◌, ◌≢◌, refl, sym, ◌∙◌, some, List, [], ◌∷◌}
use model_lib.Prelude.Int.{ℤ, pos, negsuc}
use model_lib.Env.{Env, Bytes, Ptr, null, Inode, IsLayout}
use model_lib.Queue.Seg.{Cell}
use model_lib.Machine.{Sys, Run, exited, read_memory, ◌>>=◌}
use model_lib.Machine.Memory.{put_at}
use model_lib.Buffer.{inode_block}
use model_lib.Buffer.Evict.{content}
use model_lib.Buffer.Table.{inode_at}
use model_lib.Buffer.Inodes.{inode_content, IsSys, IsSettled}
use model_lib.File.Contents.{block_of, byte_at, byte_at_behind, IsFile}
use model_lib.File.Overwrite.{IsApart}
use model_lib.Server.{Received, m_file, yfs_write, m_shutdown, handle, serve}
use model_lib.Server.Shutdown.{serve-IsStopped}
use model_lib.Transfer.{handle_write}
use model_lib.Transfer.Store.{Readable}
use model_lib.Transfer.WriteFile.{HasWritten}
use model_lib.Transfer.HandleWrite.{handle_write-HasWritten}

module _ ⦃env : Env⦄ where
  -- The server stops, and the disk alone has the file with the bytes written, and the rest as it was.
  pub record IsSaved (last i off : ℕ) (new : Bytes) (s : Sys) (bs : List (Cell Bytes))
      (is : List (Cell Inode)) (run : Run (List (ℕ × ℤ))) : Type 0 where
    pub state : Sys
    pub stops : run ≡ exited 0 state
    pub inodes : (j : ℕ) → j ≤ last → inode_at state.disk j ≡ inode_content bs s.disk is j
    pub bytes :
        (k : ℕ)
        → k < (inode_content bs s.disk is i).size
        → byte_at (inode_content bs s.disk is i) state.disk k
          ≡ put_at off new k (byte_at (inode_content bs s.disk is i) (content bs s.disk) k)
    pub blocks :
        (b : ℕ)
        → inode_block last < b
        → b < env.num_sectors
        → ((n : ℕ)
            → n * env.block_size < (inode_content bs s.disk is i).size
            → block_of (inode_content bs s.disk is i) (content bs s.disk) n ≢ b)
        → state.disk b ≡ content bs s.disk b

  module _ (layout : IsLayout env) (last : ℕ) (table : inode_block last < env.num_sectors)
      (pos_cache : 0 < env.block_cache_size) where
    HasWritten-IsSaved :
        (pid pid' i : ℕ) (buf : Ptr) (size off : ℕ) (later : List Received) (s : Sys)
        (bs : List (Cell Bytes)) (is : List (Cell Inode))
        → IsSettled s bs is
        → IsFile last (inode_content bs s.disk is i) (content bs s.disk)
        → HasWritten last
            (inode_content bs s.disk is i)
            off
            (read_memory (s.user pid) buf size)
            s
            bs
            is
            (pos size)
            (handle_write (pos i) buf (pos size) (pos off) pid s)
        → IsSaved last i off (read_memory (s.user pid) buf size) s bs is (
            serve
              (some (pid, m_file yfs_write (pos i) buf (pos size) (pos off))
                ∷ some (pid', m_shutdown)
                ∷ later)
              s)
    unfolding serve handle
    HasWritten-IsSaved pid pid' i buf size off later s bs is on_disk file h =
        let inode = inode_content bs s.disk is i in
        let view = content bs s.disk in
        let view₁ = content h.cells h.state.disk in
        let r = h.settled on_disk in
        let d =
          serve-IsStopped layout last table pos_cache h.state h.cells h.items h.valid
            (λ b lt c found clean. r.blocks b c lt found clean) r.inodes in
        let file₁ : IsFile last inode view₁ = record {
          placed = λ n lt. rw (h.block n) (file.placed n lt);
          indirect = file.indirect;
        } in
        record {
          state = d.state;
          stops = rw (h.returns, d.asked pid' later, serve, handle, ◌>>=◌) refl;
          inodes = λ j le. d.inodes j le ∙ h.inodes j le;
          bytes = λ k lt.
              sym (
                byte_at_behind last inode view₁ d.state.disk
                  (λ b behind b_lt. sym (d.blocks b behind b_lt)) file₁ k lt)
              ∙ h.bytes k lt;
          blocks = λ b behind lt none_holds. d.blocks b behind lt ∙ h.blocks b behind lt none_holds;
        }

    -- On well-formed caches that are not over their sizes, with room for two inodes or more, where an
    -- item that is not dirty holds what is on the disk, or in the block of the inode, take a Write
    -- message for a file and bytes as in handle_write: the file's blocks lie behind the table and apart
    -- from each other, the bytes lie within its size, and the process may be read. If a Shutdown
    -- message is received next, the loop of main ends with Exit(0), whatever would come later. Then the
    -- disk alone, without the caches, has the bytes of the process at their place in the file, the other
    -- bytes of the file, every inode of the table, and every block behind the table that is none of the
    -- file's, as the caches and the disk held them before. ERROR is -1; if the inode cache is empty,
    -- malloc has to leave NULL in next_c_item.
    pub serve-IsSaved :
        (pid pid' i : ℕ) (buf : Ptr) (size off : ℕ) (later : List Received) (s : Sys)
        (bs : List (Cell Bytes)) (is : List (Cell Inode))
        → IsSys last s bs is
        → IsSettled s bs is
        → i ≤ last
        → (is ≡ [] → env.fresh_next s.inodes.brk ≡ null)
        → 1 < env.inode_cache_size
        → env.error ≡ negsuc 0
        → IsFile last (inode_content bs s.disk is i) (content bs s.disk)
        → IsApart (inode_content bs s.disk is i) (content bs s.disk)
        → off + size ≤ (inode_content bs s.disk is i).size
        → Readable pid buf size
        → IsSaved last i off (read_memory (s.user pid) buf size) s bs is (
            serve
              (some (pid, m_file yfs_write (pos i) buf (pos size) (pos off))
                ∷ some (pid', m_shutdown)
                ∷ later)
              s)
    serve-IsSaved pid pid' i buf size off later s bs is v on_disk i_le clean two code file apart
          inside ok_user =
        HasWritten-IsSaved pid pid' i buf size off later s bs is on_disk file (
          handle_write-HasWritten layout last table pos_cache pid i buf size off s bs is v i_le
            clean two code file apart inside ok_user)
