-- ===== src/HashTable.antt =====
-- The hash table of yfs.c: insert_ht, evict_ht and query_ht, with chained buckets. `none` stands
-- for a failed assert, or for a bucket that lies outside the array.
pub mod Chains
pub mod Laws
use model_lib.Prelude.{
  ℕ, ◌+◌, ◌-◌, ◌%◌, Option, none, some, List, [], ◌∷◌, Bool, ◌==◌, ◌||◌, if◌then◌else◌, get_elem?,
  set,
}
use model_lib.Env.{Ptr, null}

-- `struct ht_map`: the list of a bucket is its `next_inode` chain.
pub record HtMap : Type 0 where
  pub key : ℕ
  pub value : Ptr

-- `struct ht`; `load_factor` is never read.
pub record Ht : Type 0 where
  pub head : List (List HtMap)
  pub size : ℕ
  pub num_used : ℕ

unfoldable pub bucket_index : Ht → ℕ → ℕ
bucket_index ht key = key % ht.size % ht.size

unfoldable pub query_chain : List HtMap → ℕ → Ptr
query_chain [] key = null
query_chain (elem ∷ rest) key = if elem.key == key then elem.value else query_chain rest key

-- `elem->next_inode = ...` past the first element with the key
unfoldable pub evict_chain : List HtMap → ℕ → List HtMap
evict_chain [] key = []
evict_chain (elem ∷ rest) key = if elem.key == key then rest else elem ∷ evict_chain rest key

-- whether the loop of evict_ht meets the key
unfoldable pub in_chain : List HtMap → ℕ → Bool
in_chain [] key = Bool.false
in_chain (elem ∷ rest) key = (elem.key == key) || in_chain rest key

unfoldable pub query_ht : Ht → ℕ → Option Ptr
query_ht ht key = elim (get_elem? ht.head (bucket_index ht key)) [
  | none ↦ none
  | some chain ↦ some (query_chain chain key)
]

-- the two asserts, then the new element in front of its bucket
unfoldable pub insert_chain : Ht → ℕ → Ptr → List HtMap → Option Ht
insert_chain ht key value chain =
    if query_chain chain key == null
    then (if value == null
        then none
        else some (record ht {
          head = set ht.head (bucket_index ht key) (record { key = key; value = value } ∷ chain);
          num_used = ht.num_used + 1;
        }))
    else none

unfoldable pub insert_ht : Ht → ℕ → Ptr → Option Ht
insert_ht ht key value = elim (get_elem? ht.head (bucket_index ht key)) [
  | none ↦ none
  | some chain ↦ insert_chain ht key value chain
]

unfoldable pub evict_ht : Ht → ℕ → Option Ht
evict_ht ht key = elim (get_elem? ht.head (bucket_index ht key)) [
  | none ↦ none
  | some chain ↦ some (
      if in_chain chain key
      then record ht {
        head = set ht.head (bucket_index ht key) (evict_chain chain key);
        num_used = ht.num_used - 1;
      }
      else ht)
]
