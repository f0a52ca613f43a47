-- ===== src/Tests/Pair.antt =====
-- A cache of two items, for blocks and for inodes.
use model_lib.Prelude.{
  ℕ, zero, suc, ◌≡◌, ◌%◌, refl, none, some, [], ◌∷◌, true, false, arith, get_or,
}
use model_lib.HashTable.{bucket_index, query_chain, in_chain}
use model_lib.HashTable.Chains.{IsChain}
use model_lib.HashTable.Laws.{view}
use model_lib.Queue.{write}
use model_lib.Queue.Seg.{Cell, item}
use model_lib.Cache.{Cache}
use model_lib.Cache.Cells.{find, at_of}
use model_lib.Cache.Steps.{IsCache}

module _ {A : Type 0} where
  -- the least recently used item, which is dirty, and the other
  abbrev pub item_3 : A → Cell A
  item_3 a = record { at = 5; num = 3; dirty = true; addr = a }

  abbrev pub item_2 : A → Cell A
  item_2 b = record { at = 6; num = 2; dirty = false; addr = b }

  abbrev pub full_cache : A → A → Cache A
  full_cache a b = record {
    queue = record {
      heap =
          write (write (λ a. none) 5 (some (item (item_3 a) 0 6))) 6 (some (item (item_2 b) 5 0));
      q_first = 5;
      q_last = 6;
    };
    ht = record {
      head = (record { key = 2; value = 6 } ∷ record { key = 3; value = 5 } ∷ []) ∷ [];
      size = 1;
      num_used = 2;
    };
    size = 2;
    brk = 7;
  }

  module _ (a b : A) where
    chains : (i : ℕ) → IsChain (get_or (full_cache a b).ht.head i [])
    unfolding in_chain
    chains zero = (ground arith, refl, (ground arith, refl, tt))
    chains (suc i) = tt

    indexed : (n : ℕ) → view (full_cache a b).ht n ≡ at_of (find (item_3 a ∷ item_2 b ∷ []) n)
    unfolding view bucket_index query_chain
    indexed n = let one : n % 1 % 1 ≡ 0 = omega arith in rw one (ground arith)

    pub full_cache-IsCache : IsCache (full_cache a b) (item_3 a ∷ item_2 b ∷ [])
    unfolding write
    full_cache-IsCache = record {
      queue = record {
        chain = (refl, ground arith, 6, refl, (refl, ground arith, 0, refl, (refl, refl)));
        distinct = (refl, (refl, tt));
      };
      table = record { size_pos = omega arith; width = refl; chains = chains; counted = refl };
      indexed = indexed;
      unique = (refl, (refl, tt));
      counted = refl;
      brk_pos = omega arith;
      fresh = λ a le. ground arith;
    }
