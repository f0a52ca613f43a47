-- ===== src/Cache/Steps.antt =====
-- The steps of a cache on the list of its items, from the least to the most recently used.
use model_lib.Prelude.{
  ℕ, ◌+◌, ◌-◌, ◌≤◌, ◌<◌, ◌≡◌, sym, ap, ◌∙◌, ◌≢◌, Option, none, some, List, [], ◌∷◌, ◌++◌, Bool,
  false, arith, length, length-append,
}
use model_lib.Env.{Ptr, null}
use model_lib.HashTable.{Ht}
use model_lib.HashTable.Laws.{IsHt, view, query_ht-view, insert_ht-view, evict_ht-view}
use model_lib.Queue.{CacheItem, Queue, write}
use model_lib.Queue.Seg
use model_lib.Queue.Seg.{Cell, Heap, item, has, Distinct, Seg}
use model_lib.Queue.Moves.{IsQueue, cell_of, load-some, right_enqueue-Moved, left_dequeue-Removed}
use model_lib.Queue.Remove.{right_dequeue-Removed}
use model_lib.Cache.{
  Cache, query, touch, malloc, insert, grow, add, dequeue_lru, drop_entry, free, ◌>>=◌, ◌>>◌,
  on_queue,
}
use model_lib.Cache.Cells.{
  find, at_of, Unique, find-move, find-snoc, Unique-move, Unique-snoc, length-move,
}

module _ {A : Type 0} where
  -- The queue holds these items; the table gives the address of each item under its number, and
  -- NULL for the others; the size is counted; no item lies where malloc goes on.
  pub record IsCache (c : Cache A) (xs : List (Cell A)) : Type 0 where
    pub queue : IsQueue c.queue xs
    pub table : IsHt c.ht
    pub indexed : (n : ℕ) → view c.ht n ≡ at_of (find xs n)
    pub unique : Unique xs
    pub counted : c.size ≡ length xs
    pub brk_pos : 0 < c.brk
    pub fresh : (a : Ptr) → c.brk ≤ a → has a xs ≡ false

  pub query-find :
      (c : Cache A) (xs : List (Cell A)) (n : ℕ)
      → IsCache c xs
      → query n c ≡ some (at_of (find xs n), c)
  unfolding query
  query-find c xs n v = rw (query_ht-view v.table n, query) (ap (λ p. some (p, c)) (v.indexed n))

  pub ne_null :
      (h : Heap A) (prev p : Ptr) (ys : List (Cell A)) (x : Cell A) (zs : List (Cell A))
      (next last : Ptr)
      → Seg h prev p (ys ++ x ∷ zs) next last
      → x.at ≢ null
  ne_null h prev p [] x zs next last s = s.1
  ne_null h prev p (y ∷ ys) x zs next last s = ne_null h y.at s.2 ys x zs next last s.4

  has-move :
      (a : Ptr) (ys : List (Cell A)) (x : Cell A) (zs : List (Cell A))
      → has a (ys ++ x ∷ zs) ≡ false
      → has a ((ys ++ zs) ++ x ∷ []) ≡ false
  has-move a ys x zs h = ground (
    arith,
    Seg.has-append a (ys ++ zs) (x ∷ []),
    Seg.has-append a ys zs,
    Seg.has-append a ys (x ∷ zs),
  )

  -- what a step did: it returned `r`, and the cache now holds `xs`
  pub record Stepped {R : Type 0} (xs : List (Cell A)) (r : R) (run : Option (R × Cache A))
      : Type 0 where
    pub cache : Cache A
    pub returns : run ≡ some (r, cache)
    pub valid : IsCache cache xs

  -- Using an item moves it to the end.
  pub touch-Stepped :
      (b : Bool) (c : Cache A) (ys : List (Cell A)) (x : Cell A) (zs : List (Cell A))
      → IsCache c (ys ++ x ∷ zs)
      → Stepped ((ys ++ zs) ++ x ∷ []) tt (touch b x.at c)
  unfolding touch
  touch-Stepped b c ys x zs v =
      let r = right_dequeue-Removed c.queue ys x zs v.queue in
      let q₁ = r.moved.queue in
      let ne =
        ne_null c.queue.heap null c.queue.q_first ys x zs null c.queue.q_last v.queue.chain in
      let out = (Seg.Distinct-drop ys x zs v.queue.distinct).1 in
      let m =
        right_enqueue-Moved b q₁ x.at (item x r.prev r.next) (ys ++ zs) r.moved.valid ne r.left out
          (λ e _. r.clean e) in
      record {
        cache = record c { queue = m.queue };
        returns = rw (r.moved.returns, m.returns, on_queue, ◌>>◌, ◌>>=◌);
        valid = record {
          queue = m.valid;
          table = v.table;
          indexed = λ n. v.indexed n ∙ ap at_of (sym (find-move ys x zs n v.unique));
          unique = Unique-move ys x zs v.unique;
          counted = v.counted ∙ sym (length-move ys x zs);
          brk_pos = v.brk_pos;
          fresh = λ a le. has-move a ys x zs (v.fresh a le);
        };
      }

  -- Given an item with a new number, add puts it at the end, at the address that malloc returned.
  pub add-Stepped :
      (b : Bool) (c : Cache A) (xs : List (Cell A)) (it : CacheItem A)
      → IsCache c xs
      → find xs it.c_item_num ≡ none
      → (xs ≡ [] → b ≡ false → it.next_c_item ≡ null)
      → Stepped (xs ++ cell_of c.brk it ∷ []) c.brk (add b it c)
  unfolding add malloc insert grow write
  add-Stepped b c xs it v absent clean =
      let h = write c.queue.heap c.brk (some it) in
      let q₀ = record (c.queue) { heap = h } in
      let out = v.fresh c.brk (omega arith) in
      let v₀ : IsQueue q₀ xs = record {
        chain =
            Seg.frame c.queue.heap h null c.queue.q_first xs null c.queue.q_last v.queue.chain
              (λ a i. ground arith);
        distinct = v.queue.distinct;
      } in
      let ne : c.brk ≢ null = let p = v.brk_pos in ground arith in
      let m = right_enqueue-Moved b q₀ c.brk it xs v₀ ne (ground arith) out clean in
      let unused : view c.ht it.c_item_num ≡ null = v.indexed it.c_item_num ∙ ap at_of absent in
      let (ht', inserted, table', indexed', used') =
        insert_ht-view v.table it.c_item_num c.brk unused ne in
      record {
        cache = record { queue = m.queue; ht = ht'; size = c.size + 1; brk = c.brk + 1 };
        returns = rw (m.returns, inserted, on_queue, ◌>>◌, ◌>>=◌);
        valid = record {
          queue = m.valid;
          table = table';
          indexed = λ n.
              ground (arith, indexed' n, v.indexed n, find-snoc xs (cell_of c.brk it) n absent);
          unique = Unique-snoc xs (cell_of c.brk it) v.unique absent;
          counted = omega (arith, v.counted, length-append xs (cell_of c.brk it ∷ []));
          brk_pos = omega arith;
          fresh = λ a le. ground (arith, v.fresh a, Seg.has-append a xs (cell_of c.brk it ∷ []));
        };
      }

  -- The steps that take the least recently used item out of the cache: of the queue, of the table,
  -- and off the heap.
  pub record Evicted (c : Cache A) (x : Cell A) (xs : List (Cell A)) : Type 0 where
    pub prev : Ptr
    pub next : Ptr
    pub queue : Queue A
    pub dequeued : dequeue_lru c ≡ some ((x.at, item x prev next), record c { queue = queue })
    pub ht : Ht
    pub dropped :
        drop_entry x.num (record c { queue = queue })
        ≡ some (tt, record c { queue = queue; ht = ht; size = c.size - 1 })
    pub freed : Stepped xs tt (free x.at (record c { queue = queue; ht = ht; size = c.size - 1 }))

  pub lru-Evicted :
      (c : Cache A) (x : Cell A) (xs : List (Cell A)) → IsCache c (x ∷ xs) → Evicted c x xs
  unfolding dequeue_lru drop_entry free write
  lru-Evicted c x xs v =
      let r = left_dequeue-Removed c.queue x xs v.queue in
      let q = r.moved.queue in
      let h = write q.heap x.at none in
      let ne = v.queue.chain.1 in
      let loaded = load-some x.at q (item x r.prev r.next) ne r.left in
      let (ht', evicted, table', indexed') = evict_ht-view v.table x.num in
      record {
        prev = r.prev;
        next = r.next;
        queue = q;
        dequeued = rw (r.moved.returns, loaded, on_queue, ◌>>◌, ◌>>=◌);
        ht = ht';
        dropped = rw (evicted, drop_entry);
        freed = record {
          cache = record {
            queue = record q { heap = h };
            ht = ht';
            size = c.size - 1;
            brk = c.brk;
          };
          returns = rw (loaded, on_queue, ◌>>=◌);
          valid = record {
            queue = record {
              chain =
                  Seg.frame q.heap h null q.q_first xs null q.q_last r.moved.valid.chain
                    (λ a i. ground (arith, v.queue.distinct.0));
              distinct = v.queue.distinct.1;
            };
            table = table';
            indexed = λ n. ground (arith, indexed' n, v.indexed n, v.unique.0);
            unique = v.unique.1;
            counted = omega (arith, v.counted);
            brk_pos = v.brk_pos;
            fresh = λ a le. ground (arith, v.fresh a);
          };
        };
      }
