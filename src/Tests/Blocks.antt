-- ===== src/Tests/Blocks.antt =====
-- The theorems on the block cache at a cache of two items, which is full.
use model_lib.Prelude.{ℕ, ◌≡◌, ◌<◌, none, [], ◌∷◌, arith}
use model_lib.Env.{Env, Bytes}
use model_lib.Queue.Seg.{Cell}
use model_lib.Cache.{empty_cache}
use model_lib.Cache.Steps.{IsCache}
use model_lib.Cache.Start.{empty_cache-IsCache}
use model_lib.Machine.{Sys, ok}
use model_lib.Buffer.{get_b, sync_blocks}
use model_lib.Buffer.Evict.{content}
use model_lib.Buffer.Blocks.{Got, get_b-Got}
use model_lib.Buffer.Sync.{Clean, sync_blocks-content}
use model_lib.Tests.{env}
use model_lib.Tests.Pair.{item_3, item_2, full_cache, full_cache-IsCache}

instance abbrev small_env : Env
small_env = record env { block_cache_size = 2 }

-- block 3, which is dirty, and block 2
abbrev oldest : Cell Bytes
oldest = item_3 (33 ∷ [])

abbrev newest : Cell Bytes
newest = item_2 (0 ∷ [])

abbrev state : Sys
state = record {
  disk = λ b. 0 ∷ [];
  blocks = full_cache (33 ∷ []) (0 ∷ []);
  inodes = record {
    queue = record { heap = λ a. none; q_first = 0; q_last = 0 };
    ht = record { head = [] ∷ []; size = 1; num_used = 0 };
    size = 0;
    brk = 1;
  };
  i_head = [];
  b_head = [];
  free_i_count = 0;
  free_b_count = 0;
  user = λ pid a. 0;
}

get_b-Got_example : Got state (oldest ∷ newest ∷ []) (newest ∷ []) 4 (get_b 4 state)
get_b-Got_example =
    get_b-Got state (oldest ∷ newest ∷ []) 4 (full_cache-IsCache (33 ∷ []) (0 ∷ [])) (omega arith)
      (omega arith)

sync_blocks-content_example :
    (disk : ℕ → Bytes) × (sync_blocks 3 5 state ≡ ok tt (record state { disk = disk }))
    × ((b : ℕ)
        → b < 12
        → Clean (oldest ∷ newest ∷ []) state.disk b
        → disk b ≡ content (oldest ∷ newest ∷ []) state.disk b)
sync_blocks-content_example =
    sync_blocks-content state (oldest ∷ newest ∷ []) (full_cache-IsCache (33 ∷ []) (0 ∷ []))

empty_cache-IsCache_example : IsCache {A = Bytes} (empty_cache 32) []
empty_cache-IsCache_example = empty_cache-IsCache {A = Bytes} 32
