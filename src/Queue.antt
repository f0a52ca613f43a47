-- ===== src/Queue.antt =====
-- The doubly linked LRU queue of yfs.c: left_dequeue, right_dequeue and right_enqueue, over an
-- explicit heap of cache items. `none` is a fault: NULL or a freed item is dereferenced.
pub mod Seg
pub mod Moves
pub mod Remove
use model_lib.Prelude.{ℕ, Option, none, some, Bool, ◌==◌, if◌then◌else◌}
use model_lib.Env.{Ptr, null}

-- `struct cache_item`. Its buffer `addr` is allocated and freed with it, so the buffer's contents
-- are a field, and a pointer to the buffer is a pointer to the item.
pub record CacheItem (A : Type 0) : Type 0 where
  pub c_item_num : ℕ
  pub dirty : Bool
  pub addr : A
  pub prev_c_item : Ptr
  pub next_c_item : Ptr

-- `struct queue`, with the heap that its pointers point into
pub record Queue (A : Type 0) : Type 0 where
  pub heap : Ptr → Option (CacheItem A)
  pub q_first : Ptr
  pub q_last : Ptr

abbrev pub Op : Type 0 → Type 0 → Type 0
Op A R = Queue A → Option (R × Queue A)

infixl 5 ◌>>=◌ ◌>>◌
abbrev pub ◌>>=◌ : {A R S : Type 0} → Op A R → (R → Op A S) → Op A S
◌>>=◌ m f q = elim (m q) [ none ↦ none | some (a, q') ↦ f a q' ]

abbrev pub ◌>>◌ : {A R S : Type 0} → Op A R → Op A S → Op A S
m >> n = m >>= λ _. n

module _ {A : Type 0} where
  abbrev pub pure : {R : Type 0} → R → Op A R
  pure r q = some (r, q)

  unfoldable pub write :
      (Ptr → Option (CacheItem A)) → Ptr → Option (CacheItem A) → Ptr → Option (CacheItem A)
  write h p c a = if a == p then c else h a

  unfoldable pub load : Ptr → Op A (CacheItem A)
  load p q = if p == null then none else elim (q.heap p) [ none ↦ none | some it ↦ some (it, q) ]

  abbrev pub store : Ptr → CacheItem A → Op A (Unit {0})
  store p it q = some (tt, record q { heap = write q.heap p (some it) })

  unfoldable pub set_prev : Ptr → Ptr → Op A (Unit {0})
  unfolding load
  set_prev p v = do it ← load p; store p (record it { prev_c_item = v })

  unfoldable pub set_next : Ptr → Ptr → Op A (Unit {0})
  unfolding load
  set_next p v = do it ← load p; store p (record it { next_c_item = v })

  abbrev pub set_first : Ptr → Op A (Unit {0})
  set_first v q = some (tt, record q { q_first = v })

  abbrev pub set_last : Ptr → Op A (Unit {0})
  set_last v q = some (tt, record q { q_last = v })

  abbrev pub get_first : Op A Ptr
  get_first q = some (q.q_first, q)

  abbrev pub get_last : Op A Ptr
  get_last q = some (q.q_last, q)

  abbrev pub when : Bool → Op A (Unit {0}) → Op A (Unit {0})
  when b m = if b then m else pure tt

  unfoldable pub left_dequeue : Op A Ptr
  left_dequeue = do
    q_first ← get_first
    if q_first == null then pure null else do
      it ← load q_first
      when (it.next_c_item == null) (set_last null)
      set_prev q_first null
      set_first it.next_c_item
      if it.next_c_item == null then pure q_first else do set_prev it.next_c_item null; pure q_first

  unfoldable pub right_dequeue : Ptr → Op A (Unit {0})
  right_dequeue item = do
    it ← load item
    if it.prev_c_item == null then (do left_dequeue; pure tt) else do
      when (it.next_c_item == null) (set_last it.prev_c_item)
      set_next it.prev_c_item it.next_c_item
      it' ← load item
      if it'.next_c_item == null then pure tt else set_prev it'.next_c_item it'.prev_c_item

  -- `is_block_queue` is the test `queue == cache_b_queue`
  unfoldable pub enqueue_empty : Bool → Ptr → Op A (Unit {0})
  enqueue_empty is_block_queue item = do
    when is_block_queue (set_next item null)
    set_prev item null
    set_last item
    set_first item

  unfoldable pub enqueue_nonempty : Ptr → Op A (Unit {0})
  enqueue_nonempty item = do
    q_last ← get_last
    set_next q_last item
    set_prev item q_last
    set_last item
    set_next item null

  unfoldable pub right_enqueue : Bool → Ptr → Op A (Unit {0})
  right_enqueue is_block_queue item = do
    q_first ← get_first
    if q_first == null then enqueue_empty is_block_queue item else enqueue_nonempty item
