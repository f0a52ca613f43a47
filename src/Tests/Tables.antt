-- ===== src/Tests/Tables.antt =====
-- The theorems on the hash table and on the queue, at a table of two buckets and a queue of three
-- items.
use model_lib.Prelude.{
  ℕ, zero, suc, get_or, ◌≡◌, refl, none, some, [], ◌∷◌, true, false, ◌==◌, if◌then◌else◌, arith,
}
use model_lib.Env.{null}
use model_lib.HashTable.{Ht, insert_ht, evict_ht, bucket_index, query_chain, in_chain}
use model_lib.HashTable.Chains.{IsChain}
use model_lib.HashTable.Laws.{IsHt, view, insert_ht-view, evict_ht-view}
use model_lib.Queue.{Queue, CacheItem, left_dequeue, right_dequeue, right_enqueue, write}
use model_lib.Queue.Seg.{Cell, item}
use model_lib.Queue.Moves.{
  IsQueue, Moved, Removed, cell_of, right_enqueue-Moved, left_dequeue-Removed,
}
use model_lib.Queue.Remove.{right_dequeue-Removed}

-- 4 at address 30, 2 at 20 and 7 at 10
abbrev two_buckets : Ht
two_buckets = record {
  head =
      (record { key = 4; value = 30 } ∷ record { key = 2; value = 20 } ∷ [])
      ∷ (record { key = 7; value = 10 } ∷ [])
      ∷ [];
  size = 2;
  num_used = 3;
}

two_buckets-chains : (i : ℕ) → IsChain (get_or two_buckets.head i [])
unfolding in_chain
two_buckets-chains zero = (ground arith, refl, (ground arith, refl, tt))
two_buckets-chains (suc zero) = (ground arith, refl, tt)
two_buckets-chains (suc (suc i)) = tt

two_buckets-IsHt : IsHt two_buckets
two_buckets-IsHt = record {
  size_pos = omega arith;
  width = refl;
  chains = two_buckets-chains;
  counted = refl;
}

insert_ht-view_example :
    (ht' : Ht) × (insert_ht two_buckets 9 40 ≡ some ht')
    × IsHt ht'
    × ((q : ℕ) → view ht' q ≡ (if 9 == q then 40 else view two_buckets q))
    × (ht'.num_used ≡ 4)
unfolding view bucket_index query_chain
insert_ht-view_example = insert_ht-view two_buckets-IsHt 9 40 refl (ground arith)

evict_ht-view_example :
    (ht' : Ht) × (evict_ht two_buckets 2 ≡ some ht')
    × IsHt ht'
    × ((q : ℕ) → view ht' q ≡ (if 2 == q then null else view two_buckets q))
evict_ht-view_example = evict_ht-view two_buckets-IsHt 2

abbrev first : Cell ℕ
first = record { at = 10; num = 7; dirty = true; addr = 70 }

abbrev second : Cell ℕ
second = record { at = 20; num = 2; dirty = false; addr = 22 }

abbrev third : Cell ℕ
third = record { at = 30; num = 4; dirty = true; addr = 44 }

-- an item that is in no queue
abbrev loose : CacheItem ℕ
loose = item (record { at = 40; num = 9; dirty = false; addr = 99 }) 0 0

abbrev three_items : Queue ℕ
three_items = record {
  heap =
      write
        (write (write (write (λ a. none) 10 (some (item first 0 20))) 20 (some (item second 10 30)))
          30 (some (item third 20 0)))
        40 (some loose);
  q_first = 10;
  q_last = 30;
}

three_items-IsQueue : IsQueue three_items (first ∷ second ∷ third ∷ [])
unfolding write
three_items-IsQueue = record {
  chain = (
    refl,
    ground arith,
    20,
    refl,
    (refl, ground arith, 30, refl, (refl, ground arith, 0, refl, (refl, refl))),
  );
  distinct = (refl, (refl, (refl, tt)));
}

right_dequeue-Removed_example :
    Removed three_items
      (first ∷ second ∷ third ∷ [])
      (first ∷ third ∷ [])
      second
      tt
      (right_dequeue 20 three_items)
right_dequeue-Removed_example =
    right_dequeue-Removed three_items (first ∷ []) second (third ∷ []) three_items-IsQueue

left_dequeue-Removed_example :
    Removed three_items
      (first ∷ second ∷ third ∷ [])
      (second ∷ third ∷ [])
      first
      10
      (left_dequeue three_items)
left_dequeue-Removed_example =
    left_dequeue-Removed three_items first (second ∷ third ∷ []) three_items-IsQueue

right_enqueue-Moved_example :
    Moved three_items
      (cell_of 40 loose ∷ first ∷ second ∷ third ∷ [])
      (first ∷ second ∷ third ∷ cell_of 40 loose ∷ [])
      tt
      (right_enqueue true 40 three_items)
unfolding write
right_enqueue-Moved_example =
    right_enqueue-Moved true three_items 40 loose (first ∷ second ∷ third ∷ []) three_items-IsQueue
      (ground arith) refl refl (λ e. cc)
