-- ===== src/Cache/Start.antt =====
-- The empty cache that make_free_lists builds.
use model_lib.Prelude.{
  ℕ, zero, suc, ◌≡◌, refl, List, [], arith, get_or, replicate, length-replicate,
}
use model_lib.HashTable.{HtMap, query_chain, bucket_index}
use model_lib.HashTable.Laws.{view, total}
use model_lib.Cache.{empty_cache}
use model_lib.Cache.Steps.{IsCache}

get_or-replicate : (n i : ℕ) → get_or {A = List HtMap} (replicate n []) i [] ≡ []
get_or-replicate zero i = refl
get_or-replicate (suc n) zero = refl
get_or-replicate (suc n) (suc i) = get_or-replicate n i

total-replicate : (n : ℕ) → total (replicate n []) ≡ 0
total-replicate zero = refl
total-replicate (suc n) = omega (arith, total-replicate n)

-- Whatever its capacity, the cache that the server starts with is well formed and holds nothing.
pub empty_cache-IsCache : {A : Type 0} (capacity : ℕ) → IsCache {A = A} (empty_cache capacity) []
unfolding empty_cache view query_chain
empty_cache-IsCache capacity = record {
  queue = record { chain = (refl, refl); distinct = tt };
  table = record {
    size_pos = omega arith;
    width = length-replicate (suc capacity) [];
    chains = λ i. rw (get_or-replicate (suc capacity) i) tt;
    counted = omega (arith, total-replicate capacity);
  };
  indexed =
      λ n. rw (get_or-replicate (suc capacity) (bucket_index (empty_cache capacity).ht n)) refl;
  unique = tt;
  counted = refl;
  brk_pos = omega arith;
  fresh = λ a le. refl;
}
