-- ===== src/Queue/Seg.antt =====
-- Segments of a doubly linked list of cache items on the heap.
use mathlib.Core.Bool.{or_assoc}
use model_lib.Prelude.{
  ℕ, ◌≡◌, refl, sym, ◌≢◌, ◌⊎◌, inl, inr, Option, some, List, [], ◌∷◌, ◌++◌, Bool, true, false, ◌==◌,
  ◌||◌, arith,
}
use model_lib.Env.{Ptr, null}
use model_lib.Queue.{CacheItem}

-- an item with its address, without its links
pub record Cell (A : Type 0) : Type 0 where
  pub at : Ptr
  pub num : ℕ
  pub dirty : Bool
  pub addr : A

abbrev pub Heap : Type 0 → Type 0
Heap A = Ptr → Option (CacheItem A)

module _ {A : Type 0} where
  abbrev pub item : Cell A → (prev next : Ptr) → CacheItem A
  item c prev next = record {
    c_item_num = c.num;
    dirty = c.dirty;
    addr = c.addr;
    prev_c_item = prev;
    next_c_item = next;
  }

  abbrev pub has : Ptr → List (Cell A) → Bool
  has a [] = false
  has a (c ∷ cs) = (a == c.at) || has a cs

  abbrev pub Distinct : List (Cell A) → Type 0
  Distinct [] = Unit {0}
  Distinct (c ∷ cs) = (has c.at cs ≡ false) × Distinct cs

  -- From `p` the items of the list follow one another to `next`; `prev` stands before the first,
  -- and `last` is the address of the last, or `prev` if there is none.
  abbrev pub Seg : Heap A → (prev p : Ptr) → List (Cell A) → (next last : Ptr) → Type 0
  Seg h prev p [] next last = (p ≡ next) × (prev ≡ last)
  Seg h prev p (c ∷ cs) next last =
      (p ≡ c.at)
      × (c.at ≢ null)
      × (q : Ptr) × (h c.at ≡ some (item c prev q))
      × Seg h c.at q cs next last

  pub has-append : (a : Ptr) (xs ys : List (Cell A)) → has a (xs ++ ys) ≡ (has a xs || has a ys)
  has-append a [] ys = refl
  has-append a (x ∷ xs) ys = rw (has-append a xs ys, or_assoc)

  pub Distinct-append_right : (xs ys : List (Cell A)) → Distinct (xs ++ ys) → Distinct ys
  Distinct-append_right [] ys d = d
  Distinct-append_right (x ∷ xs) ys d = Distinct-append_right xs ys d.1

  pub Distinct-append_left : (xs ys : List (Cell A)) → Distinct (xs ++ ys) → Distinct xs
  Distinct-append_left [] ys d = tt
  Distinct-append_left (x ∷ xs) ys d =
      (ground (arith, has-append x.at xs ys), Distinct-append_left xs ys d.1)

  -- the cells in front share no address with those behind
  pub Distinct-apart :
      (xs ys : List (Cell A)) (a : Ptr) → Distinct (xs ++ ys) → has a xs ≡ true → has a ys ≡ false
  Distinct-apart [] ys a d h = cc
  Distinct-apart (x ∷ xs) ys a d h =
      ground (arith, Distinct-apart xs ys a d.1, has-append a xs ys, has-append x.at xs ys)

  -- dropping a cell keeps the others distinct
  pub Distinct-drop :
      (xs : List (Cell A)) (c : Cell A) (ys : List (Cell A))
      → Distinct (xs ++ c ∷ ys)
      → Distinct (xs ++ ys) × (has c.at (xs ++ ys) ≡ false)
  Distinct-drop [] c ys d = (d.1, d.0)
  Distinct-drop (x ∷ xs) c ys d =
      let (rest, out) = Distinct-drop xs c ys d.1 in
      (
        (ground (arith, has-append x.at xs (c ∷ ys), has-append x.at xs ys), rest),
        ground (arith, has-append x.at xs (c ∷ ys)),
      )

  pub Distinct-snoc :
      (xs : List (Cell A)) (c : Cell A)
      → Distinct xs
      → has c.at xs ≡ false
      → Distinct (xs ++ c ∷ [])
  Distinct-snoc [] c d out = (refl, tt)
  Distinct-snoc (x ∷ xs) c d out =
      (ground (arith, has-append x.at xs (c ∷ [])), Distinct-snoc xs c d.1 (ground arith))

  pub snoc-cases :
      (xs : List (Cell A)) → (xs ≡ []) ⊎ ((ys : List (Cell A)) × (l : Cell A) × (xs ≡ ys ++ l ∷ []))
  snoc-cases [] = inl refl
  snoc-cases (x ∷ xs) = elim (snoc-cases xs) [
    | inl e ↦ inr ([], x, rw e)
    | inr (ys, l, e) ↦ inr (x ∷ ys, l, rw e)
  ]

  -- A segment outlives any change that spares its items.
  pub frame :
      (h g : Heap A) (prev p : Ptr) (xs : List (Cell A)) (next last : Ptr)
      → Seg h prev p xs next last
      → ((a : Ptr) → has a xs ≡ true → g a ≡ h a)
      → Seg g prev p xs next last
  frame h g prev p [] next last s same = s
  frame h g prev p (c ∷ cs) next last s same = (
    s.0,
    s.1,
    s.2,
    ground (arith, same c.at),
    frame h g c.at s.2 cs next last s.4 (λ a i. same a (ground arith)),
  )

  pub split :
      (h : Heap A) (prev p : Ptr) (xs ys : List (Cell A)) (next last : Ptr)
      → Seg h prev p (xs ++ ys) next last
      → (m : Ptr) × (k : Ptr) × Seg h prev p xs m k × Seg h k m ys next last
  split h prev p [] ys next last s = (p, prev, (refl, refl), s)
  split h prev p (c ∷ cs) ys next last s =
      let (m, k, front, back) = split h c.at s.2 cs ys next last s.4 in
      (m, k, (s.0, s.1, s.2, s.3, front), back)

  pub join :
      (h : Heap A) (prev p m k : Ptr) (xs ys : List (Cell A)) (next last : Ptr)
      → Seg h prev p xs m k
      → Seg h k m ys next last
      → Seg h prev p (xs ++ ys) next last
  join h prev p m k [] ys next last s t = rw (s.0, s.1) t
  join h prev p m k (c ∷ cs) ys next last s t =
      (s.0, s.1, s.2, s.3, join h c.at s.2 m k cs ys next last s.4 t)

  -- Another successor for the last item.
  pub relink_last :
      (h g : Heap A) (prev p : Ptr) (xs : List (Cell A)) (l : Cell A) (next last next' : Ptr)
      → Seg h prev p (xs ++ l ∷ []) next last
      → ((it : CacheItem A) → h l.at ≡ some it → g l.at ≡ some (record it { next_c_item = next' }))
      → ((a : Ptr) → has a xs ≡ true → g a ≡ h a)
      → Seg g prev p (xs ++ l ∷ []) next' l.at
  relink_last h g prev p [] l next last next' s new same =
      (s.0, s.1, next', new _ s.3, (refl, refl))
  relink_last h g prev p (c ∷ cs) l next last next' s new same = (
    s.0,
    s.1,
    s.2,
    ground (arith, same c.at),
    relink_last h g c.at s.2 cs l next last next' s.4 new (λ a i. same a (ground arith)),
  )

  -- the last item of a segment is where `last` says, and points to `next`
  pub last_item :
      (h : Heap A) (prev p : Ptr) (xs : List (Cell A)) (l : Cell A) (next last : Ptr)
      → Seg h prev p (xs ++ l ∷ []) next last
      → (k : Ptr) × (h l.at ≡ some (item l k next)) × (last ≡ l.at) × (l.at ≢ null)
  last_item h prev p [] l next last s = (prev, rw (← s.4.0) s.3, sym s.4.1, s.1)
  last_item h prev p (c ∷ cs) l next last s = last_item h c.at s.2 cs l next last s.4

  -- a segment cut in front of an item that is not its first
  pub split_at :
      (h : Heap A) (prev p : Ptr) (ys : List (Cell A)) (l c : Cell A) (zs : List (Cell A))
      (next last : Ptr)
      → Seg h prev p ((ys ++ l ∷ []) ++ c ∷ zs) next last
      → (j : Ptr) × (h l.at ≡ some (item l j c.at))
        × (l.at ≢ null)
        × Seg h prev p (ys ++ l ∷ []) c.at l.at
        × Seg h l.at c.at (c ∷ zs) next last
  split_at h prev p [] l c zs next last s = (
    prev,
    rw (← s.4.0) s.3,
    s.1,
    (s.0, s.1, c.at, rw (← s.4.0) s.3, (refl, refl)),
    (refl, s.4.1, s.4.2, s.4.3, s.4.4),
  )
  split_at h prev p (y ∷ ys) l c zs next last s =
      let (j, at_l, ne, front, back) = split_at h y.at s.2 ys l c zs next last s.4 in
      (j, at_l, ne, (s.0, s.1, s.2, s.3, front), back)
