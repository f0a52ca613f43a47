-- ===== src/Queue/Moves.antt =====
-- The moves of the LRU queue on the list of its items: left_dequeue takes the first, right_enqueue
-- adds behind the last, and right_dequeue takes any item out.
use model_lib.Prelude.{
  ◌≡◌, refl, ◌≢◌, inl, inr, Option, some, List, [], ◌∷◌, ◌++◌, Bool, true, false, ◌==◌, arith,
}
use model_lib.Env.{Ptr, null}
use model_lib.Queue.{
  CacheItem, Queue, write, load, set_prev, set_next, left_dequeue, enqueue_empty, enqueue_nonempty,
  right_enqueue, ◌>>=◌,
}
use model_lib.Queue.Seg
use model_lib.Queue.Seg.{Cell, Heap, item, has, Distinct, Seg, snoc-cases}

module _ {A : Type 0} where
  -- The queue holds these items, first to last.
  pub record IsQueue (q : Queue A) (xs : List (Cell A)) : Type 0 where
    pub chain : Seg q.heap null q.q_first xs null q.q_last
    pub distinct : Distinct xs

  abbrev pub cell_of : Ptr → CacheItem A → Cell A
  cell_of p it = record { at = p; num = it.c_item_num; dirty = it.dirty; addr = it.addr }

  -- the two queues differ at most at these addresses
  abbrev pub SameOutside : List (Cell A) → Queue A → Queue A → Type 0
  SameOutside xs q q' = (a : Ptr) → has a xs ≡ false → q'.heap a ≡ q.heap a

  pub load-some :
      (p : Ptr) (q : Queue A) (it : CacheItem A)
      → p ≢ null
      → q.heap p ≡ some it
      → load p q ≡ some (it, q)
  unfolding load
  load-some p q it ne h = let e : (p == null) ≡ false = ground arith in rw (e, h)

  pub set_prev-some :
      (p v : Ptr) (q : Queue A) (it : CacheItem A)
      → p ≢ null
      → q.heap p ≡ some it
      → set_prev p v q
        ≡ some (tt, record q { heap = write q.heap p (some (record it { prev_c_item = v })) })
  unfolding set_prev
  set_prev-some p v q it ne h = rw (load-some p q it ne h, ◌>>=◌)

  pub set_next-some :
      (p v : Ptr) (q : Queue A) (it : CacheItem A)
      → p ≢ null
      → q.heap p ≡ some it
      → set_next p v q
        ≡ some (tt, record q { heap = write q.heap p (some (record it { next_c_item = v })) })
  unfolding set_next
  set_next-some p v q it ne h = rw (load-some p q it ne h, ◌>>=◌)

  -- what a move did: it returned `r`, and the queue now holds `xs`
  pub record Moved {R : Type 0} (q : Queue A) (ys xs : List (Cell A)) (r : R)
      (run : Option (R × Queue A)) : Type 0 where
    pub queue : Queue A
    pub returns : run ≡ some (r, queue)
    pub valid : IsQueue queue xs
    pub same : SameOutside ys q queue

  enqueue_empty-Moved :
      (b : Bool) (q : Queue A) (p : Ptr) (it : CacheItem A)
      → p ≢ null
      → q.heap p ≡ some it
      → (b ≡ false → it.next_c_item ≡ null)
      → Moved q (cell_of p it ∷ []) (cell_of p it ∷ []) tt (enqueue_empty b p q)
  unfolding enqueue_empty write set_next set_prev load
  enqueue_empty-Moved true q p it ne h clean = record {
    queue = record q {
      heap =
          write (write q.heap p (some (record it { next_c_item = null }))) p
            (some (record it { next_c_item = null; prev_c_item = null }));
      q_first = p;
      q_last = p;
    };
    returns = ground arith;
    valid = record { chain = (refl, ne, null, ground arith, (refl, refl)); distinct = (refl, tt) };
    same = ground arith;
  }
  enqueue_empty-Moved false q p it ne h clean = record {
    queue = record q {
      heap = write q.heap p (some (record it { prev_c_item = null }));
      q_first = p;
      q_last = p;
    };
    returns = ground arith;
    valid = record {
      chain = (refl, ne, it.next_c_item, ground arith, (clean refl, refl));
      distinct = (refl, tt);
    };
    same = ground arith;
  }

  enqueue_nonempty-Moved :
      (q : Queue A) (p : Ptr) (it : CacheItem A) (ys : List (Cell A)) (l : Cell A)
      → IsQueue q (ys ++ l ∷ [])
      → p ≢ null
      → q.heap p ≡ some it
      → has p (ys ++ l ∷ []) ≡ false
      → Moved q
          (cell_of p it ∷ (ys ++ l ∷ []))
          ((ys ++ l ∷ []) ++ cell_of p it ∷ [])
          tt
          (enqueue_nonempty p q)
  unfolding enqueue_nonempty write set_next set_prev load
  enqueue_nonempty-Moved q p it ys l v ne h out =
      let (k, at_l, last, ne_l) = Seg.last_item q.heap null q.q_first ys l null q.q_last v.chain in
      let apart = Seg.has-append p ys (l ∷ []) in
      let h₁ = write q.heap l.at (some (item l k p)) in
      let h₂ = write h₁ p (some (record it { prev_c_item = l.at })) in
      let h₃ = write h₂ p (some (record it { prev_c_item = l.at; next_c_item = null })) in
      record {
        queue = record q { heap = h₃; q_last = p };
        returns = ground arith;
        valid = record {
          chain =
              Seg.join h₃ null q.q_first p l.at (ys ++ l ∷ []) (cell_of p it ∷ []) null p
                (Seg.relink_last q.heap h₃ null q.q_first ys l null q.q_last p v.chain
                  (λ it' e. ground arith)
                  (λ a i. ground (arith, Seg.Distinct-apart ys (l ∷ []) a v.distinct i)))
                (refl, ne, null, ground arith, (refl, refl));
          distinct = Seg.Distinct-snoc (ys ++ l ∷ []) (cell_of p it) v.distinct out;
        };
        same = λ a o. ground (arith, Seg.has-append a ys (l ∷ []));
      }

  Seg-not_null :
      (h : Heap A) (prev p : Ptr) (ys : List (Cell A)) (l : Cell A) (next last : Ptr)
      → Seg h prev p (ys ++ l ∷ []) next last
      → (p == null) ≡ false
  Seg-not_null h prev p [] l next last s = ground arith
  Seg-not_null h prev p (y ∷ ys) l next last s = ground arith

  -- Given an item that is not in the queue, right_enqueue puts it behind the last and changes no
  -- other item's contents. The item's `next_c_item` has to be NULL already if the queue is empty and
  -- not cache_b_queue.
  pub right_enqueue-Moved :
      (b : Bool) (q : Queue A) (p : Ptr) (it : CacheItem A) (xs : List (Cell A))
      → IsQueue q xs
      → p ≢ null
      → q.heap p ≡ some it
      → has p xs ≡ false
      → (xs ≡ [] → b ≡ false → it.next_c_item ≡ null)
      → Moved q (cell_of p it ∷ xs) (xs ++ cell_of p it ∷ []) tt (right_enqueue b p q)
  unfolding right_enqueue
  right_enqueue-Moved b q p it xs v ne h out clean = elim (snoc-cases xs) [
    | inl e ↦
        let none_first : (q.q_first == null) ≡ true = ground (arith, rw e at v.chain) in
        rw (none_first, e) (enqueue_empty-Moved b q p it ne h (clean e))
    | inr (ys, l, e) ↦
        let some_first : (q.q_first == null) ≡ false =
          Seg-not_null q.heap null q.q_first ys l null q.q_last (rw e at v.chain) in
        rw (some_first, e) (enqueue_nonempty-Moved q p it ys l (rw e at v) ne h (rw e at out))
  ]

  -- An item that a move took out stays on the heap with its contents.
  pub record Removed {R : Type 0} (q : Queue A) (ys xs : List (Cell A)) (c : Cell A) (r : R)
      (run : Option (R × Queue A)) : Type 0 where
    pub moved : Moved q ys xs r run
    pub prev : Ptr
    pub next : Ptr
    pub left : moved.queue.heap c.at ≡ some (item c prev next)
    pub clean : xs ≡ [] → next ≡ null

  left_dequeue-one :
      (q : Queue A) (c : Cell A)
      → IsQueue q (c ∷ [])
      → Removed q (c ∷ []) [] c c.at (left_dequeue q)
  unfolding left_dequeue write set_prev load
  left_dequeue-one q c v =
      let s = v.chain in
      record {
        moved = record {
          queue = record {
            heap = write q.heap c.at (some (item c null null));
            q_first = null;
            q_last = null;
          };
          returns = ground arith;
          valid = record { chain = (refl, refl); distinct = tt };
          same = λ a o. ground arith;
        };
        prev = null;
        next = null;
        left = ground arith;
        clean = λ _. refl;
      }

  left_dequeue-more :
      (q : Queue A) (c z : Cell A) (zs : List (Cell A))
      → IsQueue q (c ∷ z ∷ zs)
      → Removed q (c ∷ z ∷ zs) (z ∷ zs) c c.at (left_dequeue q)
  unfolding left_dequeue write set_prev load
  left_dequeue-more q c z zs v =
      let s = v.chain in
      let next = s.4.2 in
      let h₁ = write q.heap c.at (some (item c null z.at)) in
      let h₂ = write h₁ z.at (some (item z null next)) in
      record {
        moved = record {
          queue = record q { heap = h₂; q_first = z.at };
          returns = ground arith;
          valid = record {
            chain = (
              refl,
              s.4.1,
              next,
              ground arith,
              Seg.frame q.heap h₂ z.at next zs null q.q_last s.4.4 (λ a i. ground arith),
            );
            distinct = v.distinct.1;
          };
          same = λ a o. ground arith;
        };
        prev = null;
        next = z.at;
        left = ground arith;
        clean = λ e. cc;
      }

  -- From a queue that is not empty, left_dequeue takes the first item out and returns it.
  pub left_dequeue-Removed :
      (q : Queue A) (c : Cell A) (cs : List (Cell A))
      → IsQueue q (c ∷ cs)
      → Removed q (c ∷ cs) cs c c.at (left_dequeue q)
  left_dequeue-Removed q c [] v = left_dequeue-one q c v
  left_dequeue-Removed q c (z ∷ zs) v = left_dequeue-more q c z zs v
