-- ===== src/Cache/Access.antt =====
-- Reads and writes of a cache item through its pointer, on the list of items.
use model_lib.Prelude.{◌≡◌, refl, sym, ap, ◌∙◌, ◌≢◌, some, List, [], ◌∷◌, ◌++◌, Bool, true, arith}
use model_lib.Env.{Ptr, null}
use model_lib.Queue.{write, load}
use model_lib.Queue.Seg
use model_lib.Queue.Seg.{Cell, Heap, item, has, Distinct, Seg}
use model_lib.Queue.Moves.{load-some}
use model_lib.Cache.{Cache, get_addr, set_addr, mark_dirty, on_queue, query, ◌>>=◌}
use model_lib.Cache.Cells.{at_of, change, at_of-change, Unique-change, length-change, find-here}
use model_lib.Cache.Steps.{IsCache, Stepped, query-find, ne_null}

module _ {A : Type 0} where
  module _ (x : Cell A) (d : Bool) (a : A) where
    has-change :
        (p : Ptr) (ys zs : List (Cell A)) → has p (ys ++ change x d a ∷ zs) ≡ has p (ys ++ x ∷ zs)
    has-change p [] zs = refl
    has-change p (y ∷ ys) zs = rw (has-change p ys zs)

    Distinct-change :
        (ys zs : List (Cell A)) → Distinct (ys ++ x ∷ zs) → Distinct (ys ++ change x d a ∷ zs)
    Distinct-change [] zs u = u
    Distinct-change (y ∷ ys) zs u = (has-change y.at ys zs ∙ u.0, Distinct-change ys zs u.1)

    -- the item of the cell, and the segment with the cell changed
    Seg-change :
        (h : Heap A) (prev p : Ptr) (ys zs : List (Cell A)) (next last : Ptr)
        → Seg h prev p (ys ++ x ∷ zs) next last
        → Distinct (ys ++ x ∷ zs)
        → (j : Ptr) × (k : Ptr) × (h x.at ≡ some (item x j k))
          × Seg
              (write h x.at (some (item (change x d a) j k)))
              prev
              p
              (ys ++ change x d a ∷ zs)
              next
              last
    unfolding write
    Seg-change h prev p [] zs next last s u =
        let h' = write h x.at (some (item (change x d a) prev s.2)) in
        (
          prev,
          s.2,
          s.3,
          (
            s.0,
            s.1,
            s.2,
            ground arith,
            Seg.frame h h' x.at s.2 zs next last s.4 (λ b i. ground (arith, u.0)),
          ),
        )
    Seg-change h prev p (y ∷ ys) zs next last s u =
        let (j, k, at_x, rest) = Seg-change h y.at s.2 ys zs next last s.4 u.1 in
        let apart : y.at ≢ x.at = ground (arith, u.0, Seg.has-append y.at ys (x ∷ zs)) in
        (j, k, at_x, (s.0, s.1, s.2, ground arith, rest))

  -- the item of a cell, and the cache with the cell changed
  record Changed (c : Cache A) (ys : List (Cell A)) (x : Cell A) (zs : List (Cell A)) (d : Bool)
      (a : A) : Type 0 where
    prev : Ptr
    next : Ptr
    loaded : load x.at c.queue ≡ some (item x prev next, c.queue)
    valid :
        IsCache
          (record c {
            queue = record (c.queue) {
              heap = write c.queue.heap x.at (some (item (change x d a) prev next));
            };
          })
          (ys ++ change x d a ∷ zs)

  cell-Changed :
      (c : Cache A) (ys : List (Cell A)) (x : Cell A) (zs : List (Cell A)) (d : Bool) (a : A)
      → IsCache c (ys ++ x ∷ zs)
      → Changed c ys x zs d a
  cell-Changed c ys x zs d a v =
      let q = c.queue in
      let (j, k, at_x, seg) =
        Seg-change x d a q.heap null q.q_first ys zs null q.q_last v.queue.chain v.queue.distinct in
      let ne = ne_null q.heap null q.q_first ys x zs null q.q_last v.queue.chain in
      record {
        prev = j;
        next = k;
        loaded = load-some x.at q (item x j k) ne at_x;
        valid = record {
          queue = record { chain = seg; distinct = Distinct-change x d a ys zs v.queue.distinct };
          table = v.table;
          indexed = λ n. v.indexed n ∙ sym (at_of-change x d a ys zs n);
          unique = Unique-change x d a ys zs v.unique;
          counted = v.counted ∙ sym (length-change x d a ys zs);
          brk_pos = v.brk_pos;
          fresh = λ p le. has-change x d a p ys zs ∙ v.fresh p le;
        };
      }

  module _ (c : Cache A) (ys : List (Cell A)) (x : Cell A) (zs : List (Cell A))
      (v : IsCache c (ys ++ x ∷ zs)) where
    -- A read through a pointer to an item gives its buffer.
    pub get_addr-some : get_addr x.at c ≡ some (x.addr, c)
    unfolding get_addr
    get_addr-some =
        let r = cell-Changed c ys x zs x.dirty x.addr v in rw (r.loaded, get_addr, on_queue, ◌>>=◌)

    -- A write through it changes the buffer of that item only.
    pub set_addr-Stepped : (a : A) → Stepped (ys ++ change x x.dirty a ∷ zs) tt (set_addr x.at a c)
    unfolding set_addr
    set_addr-Stepped a =
        let r = cell-Changed c ys x zs x.dirty a v in
        record { cache = _; returns = rw (r.loaded, set_addr, on_queue, ◌>>=◌); valid = r.valid }

    pub query_here : query x.num c ≡ some (x.at, c)
    query_here =
        query-find c (ys ++ x ∷ zs) x.num v
        ∙ ap (λ o. some (at_of o, c)) (find-here ys x zs v.unique)

    -- mark_dirty finds the item by its number.
    pub mark_dirty-Stepped : Stepped (ys ++ change x true x.addr ∷ zs) tt (mark_dirty x.num c)
    unfolding mark_dirty
    mark_dirty-Stepped =
        let r = cell-Changed c ys x zs true x.addr v in
        record {
          cache = _;
          returns = rw (query_here, r.loaded, mark_dirty, on_queue, ◌>>=◌);
          valid = r.valid;
        }
