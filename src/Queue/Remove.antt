-- ===== src/Queue/Remove.antt =====
-- right_dequeue: any item leaves the queue, and the others stay in their order.
use mathlib.Core.List.{append-nil}
use model_lib.Prelude.{
  ◌≡◌, refl, ap, ◌∙◌, ◌≢◌, inl, inr, some, List, [], ◌∷◌, ◌++◌, true, false, ◌==◌, arith,
}
use model_lib.Env.{Ptr, null}
use model_lib.Queue.{Queue, write, right_dequeue, ◌>>=◌}
use model_lib.Queue.Seg
use model_lib.Queue.Seg.{Cell, item, has, Distinct, Seg, snoc-cases}
use model_lib.Queue.Moves.{
  IsQueue, Removed, load-some, set_prev-some, set_next-some, left_dequeue-Removed,
}

module _ {A : Type 0} where
  has-snoc : (ys : List (Cell A)) (l : Cell A) → has l.at (ys ++ l ∷ []) ≡ true
  has-snoc ys l = ground (arith, Seg.has-append l.at ys (l ∷ []))

  right_dequeue-last :
      (q : Queue A) (l c : Cell A) (j : Ptr)
      → l.at ≢ null
      → c.at ≢ null
      → c.at ≢ l.at
      → q.heap l.at ≡ some (item l j c.at)
      → q.heap c.at ≡ some (item c l.at null)
      → right_dequeue c.at q
        ≡ some (tt, record q { heap = write q.heap l.at (some (item l j null)); q_last = l.at })
  unfolding right_dequeue write
  right_dequeue-last q l c j ne_l ne_c ne at_l at_c =
      let q₁ = record q { q_last = l.at } in
      let q₂ = record q₁ { heap = write q.heap l.at (some (item l j null)) } in
      let behind : (l.at == null) ≡ false = ground arith in
      let still : q₂.heap c.at ≡ some (item c l.at null) = ground arith in
      rw (
        load-some c.at q (item c l.at null) ne_c at_c,
        behind,
        set_next-some l.at null q₁ (item l j c.at) ne_l at_l,
        load-some c.at q₂ (item c l.at null) ne_c still,
        ◌>>=◌,
      )

  right_dequeue-middle :
      (q : Queue A) (l c z : Cell A) (j next : Ptr)
      → l.at ≢ null
      → c.at ≢ null
      → z.at ≢ null
      → c.at ≢ l.at
      → z.at ≢ l.at
      → q.heap l.at ≡ some (item l j c.at)
      → q.heap c.at ≡ some (item c l.at z.at)
      → q.heap z.at ≡ some (item z c.at next)
      → right_dequeue c.at q
        ≡ some (
          tt,
          record q {
            heap = write (write q.heap l.at (some (item l j z.at))) z.at (some (item z l.at next));
          },
        )
  unfolding right_dequeue write
  right_dequeue-middle q l c z j next ne_l ne_c ne_z lc lz at_l at_c at_z =
      let q₁ = record q { heap = write q.heap l.at (some (item l j z.at)) } in
      let behind : (l.at == null) ≡ false = ground arith in
      let before : (z.at == null) ≡ false = ground arith in
      let still : q₁.heap c.at ≡ some (item c l.at z.at) = ground arith in
      let at_z' : q₁.heap z.at ≡ some (item z c.at next) = ground arith in
      rw (
        load-some c.at q (item c l.at z.at) ne_c at_c,
        behind,
        before,
        set_next-some l.at z.at q (item l j c.at) ne_l at_l,
        load-some c.at q₁ (item c l.at z.at) ne_c still,
        before,
        set_prev-some z.at l.at q₁ (item z c.at next) ne_z at_z',
        ◌>>=◌,
      )

  -- right_dequeue of the last of several items
  remove-last :
      (q : Queue A) (ys : List (Cell A)) (l c : Cell A)
      → IsQueue q ((ys ++ l ∷ []) ++ c ∷ [])
      → Removed q ((ys ++ l ∷ []) ++ c ∷ []) (ys ++ l ∷ []) c tt (right_dequeue c.at q)
  unfolding write
  remove-last q ys l c v =
      let xs = ys ++ l ∷ [] in
      let (j, at_l, ne_l, front, back) =
        Seg.split_at q.heap null q.q_first ys l c [] null q.q_last v.chain in
      let d = Seg.Distinct-append_left xs (c ∷ []) v.distinct in
      let apart = Seg.Distinct-apart xs (c ∷ []) l.at v.distinct (has-snoc ys l) in
      let at_c : q.heap c.at ≡ some (item c l.at null) =
        back.3 ∙ ap (λ n. some (item c l.at n)) back.4.0 in
      let h₁ = write q.heap l.at (some (item l j null)) in
      record {
        moved = record {
          queue = record q { heap = h₁; q_last = l.at };
          returns = right_dequeue-last q l c j ne_l back.1 (ground arith) at_l at_c;
          valid = record {
            chain =
                Seg.relink_last q.heap h₁ null q.q_first ys l c.at l.at null front
                  (λ it e. ground arith)
                  (λ a i. ground (arith, Seg.Distinct-apart ys (l ∷ []) a d i));
            distinct = d;
          };
          same = λ a o. ground (arith, Seg.has-append a xs (c ∷ []), Seg.has-append a ys (l ∷ []));
        };
        prev = l.at;
        next = null;
        left = ground arith;
        clean = λ _. refl;
      }

  -- right_dequeue of an item between two others
  remove-middle :
      (q : Queue A) (ys : List (Cell A)) (l c z : Cell A) (zs : List (Cell A))
      → IsQueue q ((ys ++ l ∷ []) ++ c ∷ z ∷ zs)
      → Removed q
          ((ys ++ l ∷ []) ++ c ∷ z ∷ zs)
          ((ys ++ l ∷ []) ++ z ∷ zs)
          c
          tt
          (right_dequeue c.at q)
  unfolding write
  remove-middle q ys l c z zs v =
      let xs = ys ++ l ∷ [] in
      let (j, at_l, ne_l, front, back) =
        Seg.split_at q.heap null q.q_first ys l c (z ∷ zs) null q.q_last v.chain in
      let d = Seg.Distinct-append_left xs (c ∷ z ∷ zs) v.distinct in
      let (d', out) = Seg.Distinct-drop xs c (z ∷ zs) v.distinct in
      let apart = Seg.Distinct-apart xs (c ∷ z ∷ zs) l.at v.distinct (has-snoc ys l) in
      let e = Seg.Distinct-append_right xs (c ∷ z ∷ zs) v.distinct in
      let next = back.4.2 in
      let at_c : q.heap c.at ≡ some (item c l.at z.at) =
        back.3 ∙ ap (λ n. some (item c l.at n)) back.4.0 in
      let h₁ = write q.heap l.at (some (item l j z.at)) in
      let h₂ = write h₁ z.at (some (item z l.at next)) in
      record {
        moved = record {
          queue = record q { heap = h₂ };
          returns =
              right_dequeue-middle q l c z j next ne_l back.1 back.4.1 (ground arith) (ground arith)
                at_l at_c back.4.3;
          valid = record {
            chain =
                Seg.join h₂ null q.q_first z.at l.at xs (z ∷ zs) null q.q_last
                  (Seg.relink_last q.heap h₂ null q.q_first ys l c.at l.at z.at front
                    (λ it f. ground arith)
                    (λ a i. ground (
                      arith,
                      Seg.Distinct-apart ys (l ∷ []) a d i,
                      Seg.Distinct-apart xs (c ∷ z ∷ zs) a v.distinct,
                      Seg.has-append a ys (l ∷ []),
                    )))
                  (
                    refl,
                    back.4.1,
                    next,
                    ground arith,
                    Seg.frame q.heap h₂ z.at next zs null q.q_last back.4.4
                        (λ a i. ground (arith, e.1.0)),
                  );
            distinct = d';
          };
          same =
              λ a o. ground (arith, Seg.has-append a xs (c ∷ z ∷ zs), Seg.has-append a ys (l ∷ []));
        };
        prev = l.at;
        next = z.at;
        left = ground arith;
        clean = λ f. ground (arith, ap (has z.at) f, Seg.has-append z.at xs (z ∷ zs));
      }

  remove-first :
      (q : Queue A) (c : Cell A) (zs : List (Cell A))
      → IsQueue q (c ∷ zs)
      → Removed q (c ∷ zs) zs c tt (right_dequeue c.at q)
  unfolding right_dequeue
  remove-first q c zs v =
      let r = left_dequeue-Removed q c zs v in
      record {
        moved = record {
          queue = r.moved.queue;
          returns = rw (load-some c.at q _ v.chain.1 v.chain.3, r.moved.returns, ◌>>=◌);
          valid = r.moved.valid;
          same = r.moved.same;
        };
        prev = r.prev;
        next = r.next;
        left = r.left;
        clean = r.clean;
      }

  remove-behind :
      (q : Queue A) (ys : List (Cell A)) (l c : Cell A) (zs : List (Cell A))
      → IsQueue q ((ys ++ l ∷ []) ++ c ∷ zs)
      → Removed q ((ys ++ l ∷ []) ++ c ∷ zs) ((ys ++ l ∷ []) ++ zs) c tt (right_dequeue c.at q)
  remove-behind q ys l c [] v = rw append-nil (remove-last q ys l c v)
  remove-behind q ys l c (z ∷ zs) v = remove-middle q ys l c z zs v

  -- Wherever an item stands in the queue, right_dequeue takes it out and leaves the others in their
  -- order; nothing outside the queue is written, and the item keeps its contents.
  pub right_dequeue-Removed :
      (q : Queue A) (ys : List (Cell A)) (c : Cell A) (zs : List (Cell A))
      → IsQueue q (ys ++ c ∷ zs)
      → Removed q (ys ++ c ∷ zs) (ys ++ zs) c tt (right_dequeue c.at q)
  right_dequeue-Removed q ys c zs v = elim (snoc-cases ys) [
    | inl e ↦ rw e (remove-first q c zs (rw e at v))
    | inr (xs, l, e) ↦ rw e (remove-behind q xs l c zs (rw e at v))
  ]
