-- ===== src/Machine/Memory.antt =====
-- The memory of a process: writes one after the other, and a read of what was written.
use model_lib.Prelude.{
  ℕ, zero, suc, ◌+◌, ◌-◌, ◌≤◌, ◌<◌, ◌≡◌, refl, sym, ap, inl, inr, Bool-cases, [], ◌∷◌, ◌++◌, leb,
  ltb, ◌&&◌, if◌then◌else◌, arith, length, get_or, length-append,
}
use model_lib.Env.{Bytes, Ptr}
use model_lib.Machine.{read_memory, write_memory}

get_or-append_left :
    (xs ys : Bytes) (i d : ℕ) → i < length xs → get_or (xs ++ ys) i d ≡ get_or xs i d
get_or-append_left [] ys i d lt = elim lt [ ]
get_or-append_left (x ∷ xs) ys zero d lt = refl
get_or-append_left (x ∷ xs) ys (suc i) d lt = get_or-append_left xs ys i d (omega arith)

get_or-append_right :
    (xs ys : Bytes) (j d : ℕ) → get_or (xs ++ ys) (length xs + j) d ≡ get_or ys j d
get_or-append_right [] ys j d = let e : 0 + j ≡ j = omega arith in rw e refl
get_or-append_right (x ∷ xs) ys j d =
    let e : suc (length xs) + j ≡ suc (length xs + j) = omega arith in
    rw e (get_or-append_right xs ys j d)

pub write_memory_nil :
    (mem : ℕ → Ptr → ℕ) (pid : ℕ) (buf : Ptr) (q : ℕ) (a : Ptr)
    → write_memory mem pid buf [] q a ≡ mem q a
unfolding write_memory
write_memory_nil mem pid buf q a = ground arith

-- the value at `k` once `new` was put at `at`
abbrev pub put_at : (at : ℕ) → Bytes → (k old : ℕ) → ℕ
put_at at new k old = if leb at k && ltb k (at + length new) then get_or new (k - at) 0 else old

pub put_at-append :
    (at : ℕ) (new new' : Bytes) (k old : ℕ)
    → put_at (at + length new) new' k (put_at at new k old) ≡ put_at at (new ++ new') k old
put_at-append at new new' k old =
    let len = length-append new new' in
    elim (Bool-cases (leb (at + length new) k)) [
      | inl behind ↦
          let off : length new + (k - (at + length new)) ≡ k - at = ground arith in
          let there : get_or (new ++ new') (k - at) 0 ≡ get_or new' (k - (at + length new)) 0 =
            rw (sym off) (get_or-append_right new new' (k - (at + length new)) 0) in
          ground (arith, len, there)
      | inr before ↦ ground (arith, len, get_or-append_left new new' (k - at) 0)
    ]

-- Two writes in a row are one.
pub write_memory-append :
    (mem : ℕ → Ptr → ℕ) (pid : ℕ) (buf : Ptr) (xs ys : Bytes) (q : ℕ) (a : Ptr)
    → write_memory (write_memory mem pid buf xs) pid (buf + length xs) ys q a
      ≡ write_memory mem pid buf (xs ++ ys) q a
unfolding write_memory
write_memory-append mem pid buf xs ys q a = ground (arith, put_at-append buf xs ys a (mem q a))

pub read_memory-same :
    (mem mem' : Ptr → ℕ) (a : Ptr) (n : ℕ)
    → ((b : Ptr) → a ≤ b → b < a + n → mem b ≡ mem' b)
    → read_memory mem a n ≡ read_memory mem' a n
unfolding read_memory
read_memory-same mem mem' a zero h = refl
read_memory-same mem mem' a (suc n) h =
    rw
      (
        h a (omega arith) (omega arith),
        read_memory-same mem mem' (a + 1) n (λ b le lt. h b (omega arith) (omega arith)),
      )
      refl

pub length-read_memory : (mem : Ptr → ℕ) (a : Ptr) (n : ℕ) → length (read_memory mem a n) ≡ n
unfolding read_memory
length-read_memory mem a zero = refl
length-read_memory mem a (suc n) = ap suc (length-read_memory mem (a + 1) n)

pub read_memory-append :
    (mem : Ptr → ℕ) (a : Ptr) (m n : ℕ)
    → read_memory mem a (m + n) ≡ read_memory mem a m ++ read_memory mem (a + m) n
unfolding read_memory
read_memory-append mem a zero n =
    let e : 0 + n ≡ n = omega arith in let f : a + 0 ≡ a = omega arith in rw (e, f) refl
read_memory-append mem a (suc m) n =
    let e : suc m + n ≡ suc (m + n) = omega arith in
    let f : a + suc m ≡ a + 1 + m = omega arith in
    rw (e, f) (ap (λ t. mem a ∷ t) (read_memory-append mem (a + 1) m n))
