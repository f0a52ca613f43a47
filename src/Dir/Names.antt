-- ===== src/Dir/Names.antt =====
-- The comparison of names in get_dir_entry: it compares the first part of a path with a name.
use model_lib.Prelude.{
  ℕ, zero, suc, ◌≡◌, refl, inl, inr, [], ◌∷◌, Bool, true, false, ◌==◌, ◌&&◌, ◌||◌, if◌then◌else◌,
  arith, take, Bool-cases,
}
use model_lib.Env.{Bytes}
use model_lib.Dir.{slash, name_eq}

-- whether two strings are the same
abbrev pub same : Bytes → Bytes → Bool
same [] [] = true
same [] (d ∷ ds) = false
same (c ∷ cs) [] = false
same (c ∷ cs) (d ∷ ds) = (c == d) && same cs ds

-- the characters before the first `stop`
abbrev pub up_to : ℕ → Bytes → Bytes
up_to stop [] = []
up_to stop (c ∷ cs) = let rest = up_to stop cs in if c == stop then [] else c ∷ rest

abbrev pub contains : ℕ → Bytes → Bool
contains x [] = false
contains x (c ∷ cs) = (c == x) || contains x cs

-- The loop compares the first part of a path, up to its first slash, with a name, up to its first NUL:
-- it finds them equal if and only if their first `n` characters are, provided that the path has no NUL
-- and the name no slash.
pub name_eq-same :
    (n : ℕ) (pathname name : Bytes)
    → contains 0 pathname ≡ false
    → contains slash name ≡ false
    → name_eq n pathname name ≡ same (take n (up_to slash pathname)) (take n (up_to 0 name))
unfolding name_eq
name_eq-same zero path name h k = refl
name_eq-same (suc n) [] [] h k = refl
name_eq-same (suc n) [] (d ∷ ds) h k = elim (Bool-cases (d == 0)) [
  | inl e ↦ rw e refl
  | inr e ↦ let f : (0 == d) ≡ false = ground arith in rw (e, f) refl
]
name_eq-same (suc n) (c ∷ cs) [] h k = elim (Bool-cases (c == slash)) [
  | inl e ↦ rw e refl
  | inr e ↦ let f : (c == 0) ≡ false = ground arith in rw (e, f) refl
]
name_eq-same (suc n) (c ∷ cs) (d ∷ ds) h k =
    let rest = name_eq-same n cs ds (ground arith) (ground arith) in
    elim (Bool-cases (c == slash)) [
      | inl e ↦ elim (Bool-cases (d == 0)) [
        | inl f ↦ rw (e, f) refl
        | inr f ↦ rw (e, f) (ground arith)
      ]
      | inr e ↦ elim (Bool-cases (d == 0)) [
        | inl f ↦ rw (e, f) (ground arith)
        | inr f ↦ rw (e, f) (ground (arith, rest))
      ]
    ]
