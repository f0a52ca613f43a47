-- ===== src/Machine/Ends.antt =====
-- Runs that come to an end: with a result, by Exit, or by a fault, but never for want of fuel.
use model_lib.Prelude.{
  ℕ, inl, inr, Bool-cases, length, Bool, true, false, Option-cases, if◌then◌else◌,
}
use model_lib.Prelude.Int.{ℤ}
use model_lib.Env.{Env, Ptr, Bytes, Inode}
use model_lib.Cache.{Step}
use model_lib.Machine.{
  Sys, Run, ok, exited, fault, M, and_then, add_int, sub_int, copy_to, on_blocks, on_inodes,
}

pub data Ends {A : Type 0} : Run A → Type 0 where
  ends_ok : {a : A} {s : Sys} → Ends (ok a s)
  ends_exited : {n : ℕ} {s : Sys} → Ends (exited n s)
  ends_fault : Ends fault

module _ {A : Type 0} where
  pub Ends-bind :
      {B : Type 0} {r : Run A} {k : A → M B}
      → Ends r
      → ((a : A) (s : Sys) → Ends (k a s))
      → Ends (and_then r k)
  Ends-bind ends_ok h = h _ _
  Ends-bind ends_exited h = ends_exited
  Ends-bind ends_fault h = ends_fault

  pub Ends-if :
      (b : Bool) (m n : M A) (s : Sys) → Ends (m s) → Ends (n s) → Ends ((if b then m else n) s)
  Ends-if true m n s h k = h
  Ends-if false m n s h k = k

-- a step of a cache ends: at worst in a fault
module _ {R : Type 0} (s : Sys) where
  pub on_blocks-Ends : (m : Step Bytes R) → Ends (on_blocks m s)
  unfolding on_blocks
  on_blocks-Ends m = elim (Option-cases (m s.blocks)) [
    | inl e ↦ rw (e, on_blocks) ends_fault
    | inr (a, e) ↦ rw (e, on_blocks) ends_ok
  ]

  pub on_inodes-Ends : (m : Step Inode R) → Ends (on_inodes m s)
  unfolding on_inodes
  on_inodes-Ends m = elim (Option-cases (m s.inodes)) [
    | inl e ↦ rw (e, on_inodes) ends_fault
    | inr (a, e) ↦ rw (e, on_inodes) ends_ok
  ]

pub ruleset ends_rules =
    (ends_ok, ends_exited, ends_fault, Ends-bind, Ends-if, on_blocks-Ends, on_inodes-Ends)

pub add_int-Ends : (a b : ℤ) (s : Sys) → Ends (add_int a b s)
unfolding add_int
add_int-Ends a b s = search ends_rules

pub sub_int-Ends : (a b : ℤ) (s : Sys) → Ends (sub_int a b s)
unfolding sub_int
sub_int-Ends a b s = search ends_rules

pub copy_to-Ends :
    ⦃env : Env⦄ (pid : ℕ) (a : Ptr) (bytes : Bytes) (s : Sys) → Ends (copy_to pid a bytes s)
unfolding copy_to
copy_to-Ends ⦃env⦄ pid a bytes s = elim (Bool-cases (env.writable pid a (length bytes))) [
  | inl e ↦ rw e ends_ok
  | inr e ↦ rw e ends_ok
]
