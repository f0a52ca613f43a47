-- ===== src/Boot/Free.antt =====
-- The last loop of make_free_lists: the blocks that are not marked used become the list of free ones.
use model_lib.Prelude.{
  ℕ, suc, ◌+◌, ◌-◌, ◌<◌, ◌⊎◌, inl, inr, ◌≡◌, refl, List, [], ◌∷◌, Bool, true, false, not, ◌==◌,
  ◌||◌, ◌&&◌, leb, if◌then◌else◌, arith, get_or,
}
use model_lib.Machine.{Sys, Run, ok}
use model_lib.File.{add_b_freelist}
use model_lib.Boot.{Used, push_free}

abbrev pub member : ℕ → List ℕ → Bool
member b [] = false
member b (x ∷ xs) = (b == x) || member b xs

-- the number of flags that are not set
abbrev pub unused : Used → ℕ
unused [] = 0
unused (u ∷ us) = if u then unused us else suc (unused us)

ℕ_trichotomy : (a b : ℕ) → (a < b) ⊎ ((a ≡ b) ⊎ (b < a))
ℕ_trichotomy a b = ground arith

-- the flag of block `b` is not set, where the flags begin with that of block `i`
abbrev free_from : ℕ → Used → ℕ → Bool
free_from i used b = leb i b && not (get_or used (b - i) true)

free_from-cons :
    (i : ℕ) (u : Bool) (us : Used) (b : ℕ)
    → free_from i (u ∷ us) b ≡ ((b == i) && not u || free_from (i + 1) us b)
free_from-cons i u us b = elim (ℕ_trichotomy i b) [
  | inl lt ↦
      let step : b - i ≡ suc (b - (i + 1)) = omega arith in
      let later : (b == i) ≡ false = ground arith in
      let one : leb i b ≡ true = ground arith in
      let two : leb (i + 1) b ≡ true = ground arith in rw (step, later, one, two) refl
  | inr (inl e) ↦
      let none_left : b - i ≡ 0 = omega arith in
      let here : (b == i) ≡ true = ground arith in
      let one : leb i b ≡ true = ground arith in
      let two : leb (i + 1) b ≡ false = ground arith in
      rw (none_left, here, one, two) (ground arith)
  | inr (inr gt) ↦
      let one : leb i b ≡ false = ground arith in
      let two : leb (i + 1) b ≡ false = ground arith in
      let later : (b == i) ≡ false = ground arith in rw (one, two, later) refl
]

-- what the loop did, from block `i` on
record Pushed (i : ℕ) (used : Used) (s : Sys) (run : Run (Unit {0})) : Type 0 where
  state : Sys
  returns : run ≡ ok tt state
  others : state ≡ record s { b_head = state.b_head; free_b_count = state.free_b_count }
  listed : (b : ℕ) → member b state.b_head ≡ (member b s.b_head || free_from i used b)
  counted : state.free_b_count ≡ s.free_b_count + unused used

push_free-Pushed : (i : ℕ) (used : Used) (s : Sys) → Pushed i used s (push_free i used s)
unfolding push_free add_b_freelist
push_free-Pushed i [] s = record {
  state = s;
  returns = refl;
  others = refl;
  listed = λ b. ground arith;
  counted = omega arith;
}
push_free-Pushed i (true ∷ us) s =
    let r = push_free-Pushed (i + 1) us s in
    record {
      state = r.state;
      returns = r.returns;
      others = r.others;
      listed = λ b. ground (arith, r.listed b, free_from-cons i true us b);
      counted = omega (arith, r.counted);
    }
push_free-Pushed i (false ∷ us) s =
    let s₁ = record s { b_head = i ∷ s.b_head; free_b_count = s.free_b_count + 1 } in
    let r = push_free-Pushed (i + 1) us s₁ in
    record {
      state = r.state;
      returns = r.returns;
      others = r.others;
      listed = λ b. ground (arith, r.listed b, free_from-cons i false us b);
      counted = omega (arith, r.counted);
    }

-- Behind the marking of the blocks, make_free_lists ends and adds to the list of free blocks the
-- numbers whose flag is not set and no others; it counts them, and changes nothing else.
pub push_free-listed :
    (used : Used) (s : Sys)
    → (s' : Sys) × (push_free 0 used s ≡ ok tt s')
      × (s' ≡ record s { b_head = s'.b_head; free_b_count = s'.free_b_count })
      × ((b : ℕ) → member b s'.b_head ≡ (member b s.b_head || not (get_or used b true)))
      × (s'.free_b_count ≡ s.free_b_count + unused used)
push_free-listed used s =
    let r = push_free-Pushed 0 used s in
    let listed : (b : ℕ)
        → member b r.state.b_head ≡ (member b s.b_head || not (get_or used b true)) =
      λ b. let at_b : b - 0 ≡ b = omega arith in ground (arith, r.listed b, at_b) in
    (r.state, r.returns, r.others, listed, r.counted)
