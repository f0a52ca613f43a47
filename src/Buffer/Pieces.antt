-- ===== src/Buffer/Pieces.antt =====
-- Pieces of a buffer, read and replaced: slice and splice, byte by byte.
use model_lib.Prelude.{
  some_inj, ℕ, zero, suc, ◌+◌, ◌-◌, ◌≤◌, ◌≡◌, refl, ◌∙◌, ◌⊎◌, none, List, [], ◌∷◌, ◌++◌, ltb,
  if◌then◌else◌, arith, length, length-append, length-take, length-drop, take, drop, get_elem?,
}
use native.Mathlib.Decide.{dec_lt}
use model_lib.Env.{Bytes}
use model_lib.Buffer.{slice, splice}

module _ {A : Type 0} where
  pub get_elem?-take :
      (n : ℕ) (xs : List A) (i : ℕ)
      → get_elem? (take n xs) i ≡ (if ltb i n then get_elem? xs i else none)
  get_elem?-take zero xs i = ground arith
  get_elem?-take (suc n) [] i = ground arith
  get_elem?-take (suc n) (x ∷ xs) zero = ground arith
  get_elem?-take (suc n) (x ∷ xs) (suc i) = ground (arith, get_elem?-take n xs i)

  pub get_elem?-drop :
      (n : ℕ) (xs : List A) (i : ℕ) → get_elem? (drop n xs) i ≡ get_elem? xs (i + n)
  get_elem?-drop zero xs i = let e : i + 0 ≡ i = omega arith in rw e refl
  get_elem?-drop (suc n) [] i = refl
  get_elem?-drop (suc n) (x ∷ xs) i =
      let e : i + suc n ≡ suc (i + n) = omega arith in rw e (get_elem?-drop n xs i)

  pub get_elem?-append :
      (xs ys : List A) (i : ℕ)
      → get_elem? (xs ++ ys) i
        ≡ (if ltb i (length xs) then get_elem? xs i else get_elem? ys (i - length xs))
  get_elem?-append [] ys i = let e : i - 0 ≡ i = omega arith in ground (arith, e)
  get_elem?-append (x ∷ xs) ys zero = ground arith
  get_elem?-append (x ∷ xs) ys (suc i) =
      let e : suc i - suc (length xs) ≡ i - length xs = omega arith in
      ground (arith, e, get_elem?-append xs ys i)

  -- lists with the same elements are the same
  pub eq_of_get_elem? : (xs ys : List A) → ((i : ℕ) → get_elem? xs i ≡ get_elem? ys i) → xs ≡ ys
  eq_of_get_elem? [] [] h = refl
  eq_of_get_elem? [] (y ∷ ys) h = let e = h 0 in cc
  eq_of_get_elem? (x ∷ xs) [] h = let e = h 0 in cc
  eq_of_get_elem? (x ∷ xs) (y ∷ ys) h =
      let e = some_inj (h 0) in rw (e, eq_of_get_elem? xs ys (λ i. h (suc i))) refl

  pub get_elem?-beyond : (xs : List A) (i : ℕ) → length xs ≤ i → get_elem? xs i ≡ none
  get_elem?-beyond [] i h = refl
  get_elem?-beyond (x ∷ xs) zero h = absurd (omega (arith, h))
  get_elem?-beyond (x ∷ xs) (suc i) h = get_elem?-beyond xs i (omega (arith, h))

pub get_elem?-slice :
    (off n : ℕ) (bytes : Bytes) (i : ℕ)
    → get_elem? (slice off n bytes) i ≡ (if ltb i n then get_elem? bytes (i + off) else none)
unfolding slice
get_elem?-slice off n bytes i =
    ground (arith, get_elem?-take n (drop off bytes) i, get_elem?-drop off bytes i)

pub get_elem?-splice :
    (off : ℕ) (new bytes : Bytes) (i : ℕ)
    → off ≤ length bytes
    → get_elem? (splice off new bytes) i ≡ (
        if ltb i off
        then get_elem? bytes i
        else (if ltb i (off + length new) then get_elem? new (i - off) else get_elem? bytes i))
unfolding splice
get_elem?-splice off new bytes i h =
    let rest = drop (off + length new) bytes in
    let front : length (take off bytes) ≡ off = omega (arith, length-take off bytes) in
    let at_append = get_elem?-append (take off bytes) (new ++ rest) i in
    let at_new = get_elem?-append new rest (i - off) in
    let at_rest = get_elem?-drop (off + length new) bytes (i - off - length new) in
    elim (dec_lt i (off + length new)) [
      | yes lt ↦ ground (arith, front, at_append, at_new, get_elem?-take off bytes i)
      | no ge ↦
          let back : i - off - length new + (off + length new) ≡ i = omega (arith, ge) in
          ground (arith, front, at_append, at_new, at_rest, back)
    ]

pub length-splice :
    (off : ℕ) (new bytes : Bytes)
    → off + length new ≤ length bytes
    → length (splice off new bytes) ≡ length bytes
unfolding splice
length-splice off new bytes h = omega (
  arith,
  length-append (take off bytes) (new ++ drop (off + length new) bytes),
  length-append new (drop (off + length new) bytes),
  length-take off bytes,
  length-drop (off + length new) bytes,
)

pub slice-splice_self :
    (off n : ℕ) (new bytes : Bytes)
    → length new ≡ n
    → off ≤ length bytes
    → slice off n (splice off new bytes) ≡ new
slice-splice_self off n new bytes e h =
    eq_of_get_elem? (slice off n (splice off new bytes)) new λ i.
      let back : i + off - off ≡ i = omega arith in
      get_elem?-slice off n (splice off new bytes) i
      ∙ ground (arith, back, get_elem?-splice off new bytes (i + off) h, get_elem?-beyond new i)

pub slice-splice_apart :
    (off n at : ℕ) (new bytes : Bytes)
    → (off + n ≤ at) ⊎ (at + length new ≤ off)
    → at ≤ length bytes
    → slice off n (splice at new bytes) ≡ slice off n bytes
slice-splice_apart off n at new bytes apart h =
    eq_of_get_elem? (slice off n (splice at new bytes)) (slice off n bytes) λ i. ground (
      arith,
      get_elem?-slice off n (splice at new bytes) i,
      get_elem?-slice off n bytes i,
      get_elem?-splice at new bytes (i + off) h,
    )
