-- ===== src/Server/Shutdown.antt =====
-- How the server stops: handle_shutdown in the loop of main.
use model_lib.Prelude.{ℕ, ◌≤◌, ◌<◌, ◌≡◌, refl, none, some, List, ◌∷◌}
use model_lib.Env.{Env, Bytes, Inode, IsLayout}
use model_lib.Queue.Seg.{Cell}
use model_lib.Machine.{Sys, exited, ◌>>=◌, ◌>>◌}
use model_lib.Buffer.{inode_block}
use model_lib.Buffer.Evict.{content}
use model_lib.Buffer.Table.{inode_at}
use model_lib.Buffer.Inodes.{inode_content, IsSys, CleanInodes}
use model_lib.Buffer.Sync.{Clean}
use model_lib.Buffer.Durable.{handle_sync-IsDurable}
use model_lib.Server.{Received, m_shutdown, handle, handle_shutdown, serve}

module _ ⦃env : Env⦄ where
  -- The server stops with this disk.
  pub record IsStopped (last : ℕ) (s : Sys) (bs : List (Cell Bytes)) (is : List (Cell Inode))
      : Type 0 where
    pub state : Sys
    pub asked :
        (pid : ℕ) (later : List Received)
        → serve (some (pid, m_shutdown) ∷ later) s ≡ exited 0 state
    pub failed : (later : List Received) → serve (none ∷ later) s ≡ exited 0 state
    pub inodes : (i : ℕ) → i ≤ last → inode_at state.disk i ≡ inode_content bs s.disk is i
    pub blocks :
        (b : ℕ) → inode_block last < b → b < env.num_sectors → state.disk b ≡ content bs s.disk b

  module _ (layout : IsLayout env) (last : ℕ) (table : inode_block last < env.num_sectors)
      (pos_cache : 0 < env.block_cache_size) where
    -- On well-formed caches that are not over their sizes, where an item that is not dirty holds what
    -- is on the disk, or in the block of the inode, the loop of main ends at a Shutdown message, and at
    -- an error of Receive, with Exit(0), whatever would come later. Then the disk alone holds every inode
    -- of the table and every block behind it, as the caches and the disk held them before.
    pub serve-IsStopped :
        (s : Sys) (bs : List (Cell Bytes)) (is : List (Cell Inode))
        → IsSys last s bs is
        → ((b : ℕ) → b < env.num_sectors → Clean bs s.disk b)
        → CleanInodes is (content bs s.disk)
        → IsStopped last s bs is
    unfolding serve handle handle_shutdown
    serve-IsStopped s bs is v clean clean_i =
        let d = handle_sync-IsDurable layout last table pos_cache s bs is v clean clean_i in
        record {
          state = d.state;
          asked = λ pid later. rw (d.returns, handle, handle_shutdown, ◌>>=◌, ◌>>◌) refl;
          failed = λ later. rw (d.returns, handle_shutdown, ◌>>=◌, ◌>>◌) refl;
          inodes = d.inodes;
          blocks = d.blocks;
        }
