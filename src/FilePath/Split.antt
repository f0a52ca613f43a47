-- ===== src/FilePath/Split.antt =====
-- get_super_dir cuts a path at its last slash.
use model_lib.Prelude.{
  ℕ, zero, suc, ◌+◌, ◌<◌, ◌≡◌, refl, ap, ◌⊎◌, inl, inr, [], ◌∷◌, ◌++◌, Bool, true, false, ◌==◌,
  ◌||◌, if◌then◌else◌, arith, length, take, drop, Bool-cases,
}
use model_lib.Env.{Env, Bytes}
use model_lib.Dir.{head_char, slash}
use model_lib.FilePath.{last_slash, split_path, containing_dir}
use model_lib.Machine.{pure, ◌>>=◌}
use model_lib.Prelude.Int.{ℤ}

abbrev pub has_slash : Bytes → Bool
has_slash [] = false
has_slash (c ∷ cs) = (c == slash) || has_slash cs

last_slash-absent :
    (idx i : ℕ) (path : Bytes) → has_slash path ≡ false → last_slash idx i path ≡ idx
unfolding last_slash
last_slash-absent idx i [] h = refl
last_slash-absent idx i (c ∷ cs) h = ground (arith, last_slash-absent idx (i + 1) cs)

-- behind the last slash of a path that has one there is none
record Cut (i : ℕ) (path : Bytes) (k : ℕ) : Type 0 where
  offset : ℕ
  at : k ≡ i + offset
  whole : take offset path ++ slash ∷ drop (suc offset) path ≡ path
  name : has_slash (drop (suc offset) path) ≡ false

last_slash-Cut :
    (idx i : ℕ) (path : Bytes) → has_slash path ≡ true → Cut i path (last_slash idx i path)
unfolding last_slash
last_slash-Cut idx i [] h = cc
last_slash-Cut idx i (c ∷ cs) h = elim (Bool-cases (has_slash cs)) [
  | inl later ↦
      let r = last_slash-Cut (if c == slash then i else idx) (i + 1) cs later in
      record {
        offset = suc r.offset;
        at = omega (arith, r.at);
        whole = ap (λ t. c ∷ t) r.whole;
        name = r.name;
      }
  | inr none_later ↦
      let here : (c == slash) ≡ true = ground arith in
      record {
        offset = 0;
        at = rw (here, last_slash-absent i (i + 1) cs none_later) (omega arith);
        whole = ap (λ t. t ∷ cs) (ground arith);
        name = none_later;
      }
]

last_slash-pos :
    (path : Bytes)
    → (head_char path == slash) ≡ false
    → has_slash path ≡ true
    → 0 < last_slash 0 0 path
unfolding last_slash
last_slash-pos [] h k = cc
last_slash-pos (c ∷ cs) h k =
    let later : has_slash cs ≡ true = ground arith in
    let r = last_slash-Cut 0 1 cs later in rw h (omega (arith, r.at))

length-take-pos : (n : ℕ) (path : Bytes) → 0 < n → has_slash path ≡ true → 0 < length (take n path)
length-take-pos zero path h k = absurd (omega (arith, h))
length-take-pos (suc n) [] h k = cc
length-take-pos (suc n) (c ∷ cs) h k = omega arith

module _ ⦃env : Env⦄ where
  -- For a path that does not begin with a slash: if it has none at all, get_super_dir answers the
  -- directory it starts from and the path as the name. Else it cuts the path at its last slash, looks up the part in front, which is not empty, and answers the part
  -- behind, which has no slash, as the name.
  pub split_path-last_slash :
      (path : Bytes) (curr_i : ℤ)
      → (head_char path == slash) ≡ false
      → ((has_slash path ≡ false) × (split_path (path, curr_i) ≡ pure (curr_i, path)))
        ⊎ ((dir : Bytes) × (name : Bytes) × (dir ++ slash ∷ name ≡ path)
            × (has_slash name ≡ false)
            × (0 < length dir)
            × (split_path (path, curr_i) ≡ (do d ← containing_dir dir curr_i; pure (d, name))))
  unfolding split_path
  split_path-last_slash path curr_i h = elim (Bool-cases (has_slash path)) [
    | inr none_there ↦ inl (none_there, rw (last_slash-absent 0 0 path none_there, split_path))
    | inl there ↦
        let idx = last_slash 0 0 path in
        let r = last_slash-Cut 0 0 path there in
        let p = last_slash-pos path h there in
        let nonzero : (idx == 0) ≡ false = ground arith in
        let here : idx ≡ r.offset = omega (arith, r.at) in
        let next : idx + 1 ≡ suc r.offset = omega (arith, r.at) in
        inr (
          take idx path,
          drop (idx + 1) path,
          rw (next, here) r.whole,
          rw next r.name,
          length-take-pos idx path p there,
          rw (nonzero, split_path),
        )
  ]
