-- ===== src/Machine.antt =====
-- The state of the file server: its two caches, its free lists, the disk and the memory of the
-- user processes; and the monad of its functions.
pub mod Ends
pub mod Memory
use model_lib.Prelude.{
  ℕ, ◌+◌, ◌-◌, ◌^◌, ◌||◌, zero, suc, ◌==◌, Option, none, some, Bool, true, false, List, [], ◌∷◌,
  ltb, if◌then◌else◌, ◌&&◌, leb, length, get_or,
}
use model_lib.Prelude.Int.{ℤ, pos, negsuc, ltb_ℤ, leb_ℤ, ◌+ℤ◌, ◌-ℤ◌}
use model_lib.Env.{Env, Bytes, Ptr, Inode}
use model_lib.Cache.{Cache, Step}

pub record Sys : Type 0 where
  pub disk : ℕ → Bytes
  pub blocks : Cache Bytes
  pub inodes : Cache Inode
  -- the numbers in the lists of `struct free_inode` and `struct free_block`, from i_head and b_head
  pub i_head : List ℕ
  pub b_head : List ℕ
  pub free_i_count : ℕ
  pub free_b_count : ℕ
  -- the memory of each process
  pub user : ℕ → Ptr → ℕ

-- `exited` is Exit(status). `fault` is a use of memory that C leaves undefined: NULL or a freed
-- buffer, an index outside an array, a failed assert. `out_of_fuel` is an unfinished loop.
pub data Run (A : Type 0) : Type 0 where
  ok : A → Sys → Run A
  exited : ℕ → Sys → Run A
  fault : Run A
  out_of_fuel : Run A

abbrev pub M : Type 0 → Type 0
M A = Sys → Run A

abbrev pub pure : {A : Type 0} → A → M A
pure = ok

module _ {A B : Type 0} where
  abbrev pub and_then : Run A → (A → M B) → Run B
  and_then (ok a s) k = k a s
  and_then (exited n s) k = exited n s
  and_then fault k = fault
  and_then out_of_fuel k = out_of_fuel

  infixl 5 ◌>>=◌ ◌>>◌
  abbrev pub ◌>>=◌ : M A → (A → M B) → M B
  m >>= k = λ s. and_then (m s) k

  abbrev pub ◌>>◌ : M A → M B → M B
  m >> n = m >>= λ _. n

abbrev pub crash : {A : Type 0} → M A
crash s = fault

-- The values of `int` lie between -int_limit and int_limit - 1.
abbrev pub int_limit : ℕ
int_limit = 2 ^ 31

abbrev pub is_int : ℤ → Bool
is_int a = leb_ℤ (negsuc (int_limit - 1)) a && ltb_ℤ a (pos int_limit)

-- A result of type `int`: an overflow is undefined.
unfoldable pub check_int : ℤ → M ℤ
check_int a = if ltb_ℤ a (negsuc (int_limit - 1)) || leb_ℤ (pos int_limit) a then crash else pure a

unfoldable pub add_int : ℤ → ℤ → M ℤ
unfolding check_int
add_int a b = check_int (a +ℤ b)

unfoldable pub sub_int : ℤ → ℤ → M ℤ
unfolding check_int
sub_int a b = check_int (a -ℤ b)

abbrev pub when : Bool → M (Unit {0}) → M (Unit {0})
when b m = if b then m else pure tt

abbrev pub get : M Sys
get s = ok s s

abbrev pub put : Sys → M (Unit {0})
put s' s = ok tt s'

unfoldable pub on_blocks : {R : Type 0} → Step Bytes R → M R
on_blocks m s = elim (m s.blocks) [ none ↦ fault | some (r, c) ↦ ok r (record s { blocks = c }) ]

unfoldable pub on_inodes : {R : Type 0} → Step Inode R → M R
on_inodes m s = elim (m s.inodes) [ none ↦ fault | some (r, c) ↦ ok r (record s { inodes = c }) ]

abbrev pub update : (ℕ → Bytes) → ℕ → Bytes → ℕ → Bytes
update f b bytes a = if a == b then bytes else f a

-- `n` bytes of a memory, from an address on
unfoldable pub read_memory : (Ptr → ℕ) → Ptr → ℕ → Bytes
read_memory mem a zero = []
read_memory mem a (suc n) = mem a ∷ read_memory mem (a + 1) n

unfoldable pub write_memory : (ℕ → Ptr → ℕ) → ℕ → Ptr → Bytes → ℕ → Ptr → ℕ
write_memory mem pid address bytes q a =
    if (q == pid) && (leb address a && ltb a (address + length bytes))
    then get_or bytes (a - address) 0
    else mem q a

module _ ⦃env : Env⦄ where
  -- The disk has sectors 0 to NUMSECTORS - 1. The callers ignore the result, so a read outside
  -- leaves the buffer as malloc returned it, and a write outside does nothing.
  unfoldable pub read_sector : ℕ → M Bytes
  read_sector b s = ok (if ltb b env.num_sectors then s.disk b else env.fresh_block s.blocks.brk) s

  unfoldable pub write_sector : ℕ → Bytes → M (Unit {0})
  write_sector b bytes s =
      ok tt (if ltb b env.num_sectors then record s { disk = update s.disk b bytes } else s)

  -- CopyTo and CopyFrom: `false` and `none` are ERROR
  unfoldable pub copy_to : ℕ → Ptr → Bytes → M Bool
  copy_to pid address bytes s =
      if env.writable pid address (length bytes)
      then ok true (record s { user = write_memory s.user pid address bytes })
      else ok false s

  unfoldable pub copy_from : ℕ → Ptr → ℕ → M (Option Bytes)
  copy_from pid address n s =
      ok (if env.readable pid address n then some (read_memory (s.user pid) address n) else none) s
