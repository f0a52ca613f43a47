-- ===== src/Cache.antt =====
-- A write-back cache of yfs.c: an LRU queue, the hash table that finds its items, and the count of
-- items. The block cache (cache_b_queue, b_ht, cache_b_size) and the inode cache (cache_i_queue,
-- i_ht, cache_i_size) are two of these; get_b, get_i, evict_b and evict_i are composed of the steps
-- below. `none` is a fault.
pub mod Cells
pub mod Steps
pub mod Start
pub mod Access
use model_lib.Prelude.{ℕ, suc, ◌+◌, ◌-◌, Option, none, some, Bool, [], replicate}
use model_lib.Env.{Ptr, null}
use model_lib.HashTable.{Ht, query_ht, insert_ht, evict_ht}
use model_lib.Queue
use model_lib.Queue.{CacheItem, Queue, Op, write, load, left_dequeue, right_dequeue, right_enqueue}

-- `brk` is the next address that malloc returns.
pub record Cache (A : Type 0) : Type 0 where
  pub queue : Queue A
  pub ht : Ht
  pub size : ℕ
  pub brk : Ptr

abbrev pub Step : Type 0 → Type 0 → Type 0
Step A R = Cache A → Option (R × Cache A)

infixl 5 ◌>>=◌ ◌>>◌
abbrev pub ◌>>=◌ : {A R S : Type 0} → Step A R → (R → Step A S) → Step A S
◌>>=◌ m f c = elim (m c) [ none ↦ none | some (a, c') ↦ f a c' ]

abbrev pub ◌>>◌ : {A R S : Type 0} → Step A R → Step A S → Step A S
m >> n = m >>= λ _. n

-- make_free_lists: an empty queue, and a table of one bucket more than the cache has items
unfoldable pub empty_cache : {A : Type 0} → (capacity : ℕ) → Cache A
empty_cache capacity = record {
  queue = record { heap = λ _. none; q_first = null; q_last = null };
  ht = record { head = replicate (suc capacity) []; size = suc capacity; num_used = 0 };
  size = 0;
  brk = 1;
}

module _ {A : Type 0} where
  abbrev pub pure : {R : Type 0} → R → Step A R
  pure r c = some (r, c)

  abbrev pub on_queue : {R : Type 0} → Op A R → Step A R
  on_queue m c = elim (m c.queue) [ none ↦ none | some (r, q) ↦ some (r, record c { queue = q }) ]

  unfoldable pub query : ℕ → Step A Ptr
  query num c = elim (query_ht c.ht num) [ none ↦ none | some p ↦ some (p, c) ]

  -- a hit: the item moves to the end of the queue
  unfoldable pub touch : Bool → Ptr → Step A (Unit {0})
  touch is_block_queue p = do on_queue (right_dequeue p); on_queue (right_enqueue is_block_queue p)

  unfoldable pub malloc : CacheItem A → Step A Ptr
  malloc it c = some (
    c.brk,
    record c {
      queue = record (c.queue) { heap = write c.queue.heap c.brk (some it) };
      brk = c.brk + 1;
    },
  )

  unfoldable pub insert : ℕ → Ptr → Step A (Unit {0})
  insert num p c = elim (insert_ht c.ht num p) [
    | none ↦ none
    | some ht ↦ some (tt, record c { ht = ht })
  ]

  unfoldable pub grow : Step A (Unit {0})
  grow c = some (tt, record c { size = c.size + 1 })

  -- a miss: a new item at the end of the queue, and in the table
  unfoldable pub add : Bool → CacheItem A → Step A Ptr
  add is_block_queue it = do
    p ← malloc it
    on_queue (right_enqueue is_block_queue p)
    grow
    insert it.c_item_num p
    pure p

  -- the least recently used item leaves the queue
  unfoldable pub dequeue_lru : Step A (Ptr × CacheItem A)
  dequeue_lru = do p ← on_queue left_dequeue; it ← on_queue (load p); pure (p, it)

  -- and the table
  unfoldable pub drop_entry : ℕ → Step A (Unit {0})
  drop_entry num c = elim (evict_ht c.ht num) [
    | none ↦ none
    | some ht ↦ some (tt, record c { size = c.size - 1; ht = ht })
  ]

  unfoldable pub free : Ptr → Step A (Unit {0})
  free p = do
    it ← on_queue (load p)
    λ c. some (tt, record c { queue = record (c.queue) { heap = write c.queue.heap p none } })

  -- `query_ht(ht, num)->dirty = true`; NULL is dereferenced if the item is not in the cache
  unfoldable pub mark_dirty : ℕ → Step A (Unit {0})
  mark_dirty num = do
    p ← query num
    it ← on_queue (load p)
    on_queue (Queue.store p (record it { dirty = Bool.true }))

  -- reads and writes of the buffer
  unfoldable pub get_addr : Ptr → Step A A
  get_addr p = do it ← on_queue (load p); pure it.addr

  unfoldable pub set_addr : Ptr → A → Step A (Unit {0})
  set_addr p a = do it ← on_queue (load p); on_queue (Queue.store p (record it { addr = a }))
