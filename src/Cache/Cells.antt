-- ===== src/Cache/Cells.antt =====
-- Lists of cells found by their number, which no two of them share.
use model_lib.Prelude.{
  some_inj, Bool, ℕ, suc, ◌≡◌, refl, sym, ap, ◌∙◌, inl, inr, Bool-cases, Option, none, some, List,
  [], ◌∷◌, ◌++◌, true, false, ◌==◌, if◌then◌else◌, arith, length, length-append,
}
use model_lib.Env.{Ptr, null}
use model_lib.Queue.Seg.{Cell}

module _ {A : Type 0} where
  abbrev pub find : List (Cell A) → ℕ → Option (Cell A)
  find [] n = none
  find (c ∷ cs) n = if c.num == n then some c else find cs n

  abbrev pub or_else : Option (Cell A) → Option (Cell A) → Option (Cell A)
  or_else none o = o
  or_else (some c) o = some c

  abbrev pub without : List (Cell A) → ℕ → List (Cell A)
  without [] n = []
  without (c ∷ cs) n = if c.num == n then cs else c ∷ without cs n

  abbrev pub at_of : Option (Cell A) → Ptr
  at_of none = null
  at_of (some c) = c.at

  abbrev pub addr_of : A → Option (Cell A) → A
  addr_of a none = a
  addr_of a (some c) = c.addr

  abbrev pub Unique : List (Cell A) → Type 0
  Unique [] = Unit {0}
  Unique (c ∷ cs) = (find cs c.num ≡ none) × Unique cs

  pub find-append :
      (xs ys : List (Cell A)) (n : ℕ) → find (xs ++ ys) n ≡ or_else (find xs n) (find ys n)
  find-append [] ys n = refl
  find-append (x ∷ xs) ys n = ground (arith, find-append xs ys n)

  or_else-none : (o : Option (Cell A)) → or_else o none ≡ o
  or_else-none none = refl
  or_else-none (some c) = refl

  pub find-snoc_other :
      (xs : List (Cell A)) (x : Cell A) (n : ℕ)
      → (x.num == n) ≡ false
      → find (xs ++ x ∷ []) n ≡ find xs n
  find-snoc_other xs x n e = rw (find-append xs (x ∷ []) n, e) (or_else-none (find xs n))

  pub find-snoc_self :
      (xs : List (Cell A)) (x : Cell A) (n : ℕ)
      → find xs n ≡ none
      → (x.num == n) ≡ true
      → find (xs ++ x ∷ []) n ≡ some x
  find-snoc_self xs x n absent e = rw (find-append xs (x ∷ []) n, absent, e) refl

  -- a new cell at the end
  pub find-snoc :
      (xs : List (Cell A)) (x : Cell A) (n : ℕ)
      → find xs x.num ≡ none
      → find (xs ++ x ∷ []) n ≡ (if x.num == n then some x else find xs n)
  find-snoc xs x n absent = ground (arith, find-snoc_other xs x n, find-snoc_self xs x n)

  -- the cell that is used goes to the end
  pub find-move :
      (ys : List (Cell A)) (x : Cell A) (zs : List (Cell A)) (n : ℕ)
      → Unique (ys ++ x ∷ zs)
      → find ((ys ++ zs) ++ x ∷ []) n ≡ find (ys ++ x ∷ zs) n
  find-move [] x zs n u = ground (arith, find-snoc_other zs x n, find-snoc_self zs x n)
  find-move (y ∷ ys) x zs n u = ground (arith, find-move ys x zs n u.1)

  pub Unique-snoc :
      (xs : List (Cell A)) (x : Cell A) → Unique xs → find xs x.num ≡ none → Unique (xs ++ x ∷ [])
  Unique-snoc [] x u h = (refl, tt)
  Unique-snoc (y ∷ ys) x u h =
      (ground (arith, find-snoc_other ys x y.num), Unique-snoc ys x u.1 (ground arith))

  pub Unique-move :
      (ys : List (Cell A)) (x : Cell A) (zs : List (Cell A))
      → Unique (ys ++ x ∷ zs)
      → Unique ((ys ++ zs) ++ x ∷ [])
  Unique-move [] x zs u = Unique-snoc zs x u.1 u.0
  Unique-move (y ∷ ys) x zs u = (find-move ys x zs y.num u.1 ∙ u.0, Unique-move ys x zs u.1)

  -- a cell that is found stands in the list
  pub find-split :
      (xs : List (Cell A)) (n : ℕ) (c : Cell A)
      → find xs n ≡ some c
      → (ys : List (Cell A)) × (zs : List (Cell A)) × (xs ≡ ys ++ c ∷ zs)
        × (c.num ≡ n)
        × (without xs n ≡ ys ++ zs)
  find-split [] n c h = cc
  find-split (x ∷ xs) n c h = elim (Bool-cases (x.num == n)) [
    | inl e ↦
        let same : x ≡ c = some_inj (rw e at h) in
        ([], xs, ap (λ y. y ∷ xs) same, ap (λ y. y.num) (sym same) ∙ (ground arith), rw e refl)
    | inr e ↦
        let (ys, zs, split, k, rest) = find-split xs n c (rw e at h) in
        (x ∷ ys, zs, ap (λ l. x ∷ l) split, k, rw e (ap (λ l. x ∷ l) rest))
  ]

  pub length-move :
      (ys : List (Cell A)) (x : Cell A) (zs : List (Cell A))
      → length ((ys ++ zs) ++ x ∷ []) ≡ length (ys ++ x ∷ zs)
  length-move ys x zs =
      omega
        (arith, length-append (ys ++ zs) (x ∷ []), length-append ys zs, length-append ys (x ∷ zs))

  -- the cell with another buffer and another dirty flag
  abbrev pub change : Cell A → Bool → A → Cell A
  change x d a = record x { dirty = d; addr = a }

  find-some_ne :
      (ys : List (Cell A)) (x : Cell A) (zs : List (Cell A)) (n : ℕ)
      → find (ys ++ x ∷ zs) n ≡ none
      → (x.num == n) ≡ false
  find-some_ne [] x zs n h = ground arith
  find-some_ne (y ∷ ys) x zs n h = ground (arith, find-some_ne ys x zs n)

  -- a cell of the list is found under its number
  pub find-here :
      (ys : List (Cell A)) (x : Cell A) (zs : List (Cell A))
      → Unique (ys ++ x ∷ zs)
      → find (ys ++ x ∷ zs) x.num ≡ some x
  find-here [] x zs u = ground arith
  find-here (y ∷ ys) x zs u = ground (arith, find-here ys x zs u.1, find-some_ne ys x zs y.num u.0)

  module _ (x : Cell A) (d : Bool) (a : A) where
    pub at_of-change :
        (ys zs : List (Cell A)) (n : ℕ)
        → at_of (find (ys ++ change x d a ∷ zs) n) ≡ at_of (find (ys ++ x ∷ zs) n)
    at_of-change [] zs n = ground arith
    at_of-change (y ∷ ys) zs n = ground (arith, at_of-change ys zs n)

    pub find-change_absent :
        (ys zs : List (Cell A)) (n : ℕ)
        → find (ys ++ x ∷ zs) n ≡ none
        → find (ys ++ change x d a ∷ zs) n ≡ none
    find-change_absent [] zs n h = ground arith
    find-change_absent (y ∷ ys) zs n h = ground (arith, find-change_absent ys zs n)

    pub Unique-change :
        (ys zs : List (Cell A)) → Unique (ys ++ x ∷ zs) → Unique (ys ++ change x d a ∷ zs)
    Unique-change [] zs u = u
    Unique-change (y ∷ ys) zs u = (find-change_absent ys zs y.num u.0, Unique-change ys zs u.1)

    pub addr_of-change :
        (ys zs : List (Cell A)) (n : ℕ) (z : A)
        → Unique (ys ++ x ∷ zs)
        → addr_of z (find (ys ++ change x d a ∷ zs) n)
          ≡ (if x.num == n then a else addr_of z (find (ys ++ x ∷ zs) n))
    addr_of-change [] zs n z u = ground arith
    addr_of-change (y ∷ ys) zs n z u =
        ground (arith, addr_of-change ys zs n z u.1, find-some_ne ys x zs y.num u.0)

    pub find-change :
        (ys zs : List (Cell A)) (n : ℕ)
        → Unique (ys ++ x ∷ zs)
        → find (ys ++ change x d a ∷ zs) n
          ≡ (if x.num == n then some (change x d a) else find (ys ++ x ∷ zs) n)
    find-change [] zs n u = ground arith
    find-change (y ∷ ys) zs n u =
        ground (arith, find-change ys zs n u.1, find-some_ne ys x zs y.num u.0)

    pub length-change :
        (ys zs : List (Cell A)) → length (ys ++ change x d a ∷ zs) ≡ length (ys ++ x ∷ zs)
    length-change [] zs = refl
    length-change (y ∷ ys) zs = ap suc (length-change ys zs)
