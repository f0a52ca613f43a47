-- ===== src/HashTable/Chains.antt =====
-- The chain of a bucket as a partial map: query_chain after evict_chain.
use model_lib.Prelude.{
  ℕ, ◌+◌, ◌≡◌, refl, ◌≢◌, List, [], ◌∷◌, true, false, ◌==◌, if◌then◌else◌, arith, length,
}
use model_lib.Env.{null}
use model_lib.HashTable.{HtMap, query_chain, evict_chain, in_chain}

-- No key occurs twice, and no value is NULL.
abbrev pub IsChain : List HtMap → Type 0
IsChain [] = Unit {0}
IsChain (elem ∷ rest) = (elem.value ≢ null) × (in_chain rest elem.key ≡ false) × IsChain rest

pub query_chain-eq_null :
    (c : List HtMap) (key : ℕ) → in_chain c key ≡ false → query_chain c key ≡ null
unfolding query_chain in_chain
query_chain-eq_null [] key h = refl
query_chain-eq_null (elem ∷ rest) key h = ground (arith, query_chain-eq_null rest key)

pub in_chain-eq_false :
    (c : List HtMap) (key : ℕ) → IsChain c → query_chain c key ≡ null → in_chain c key ≡ false
unfolding query_chain in_chain
in_chain-eq_false [] key w h = refl
in_chain-eq_false (elem ∷ rest) key w h = ground (arith, in_chain-eq_false rest key)

in_chain-evict_chain :
    (c : List HtMap) (key q : ℕ) → in_chain c q ≡ false → in_chain (evict_chain c key) q ≡ false
unfolding evict_chain in_chain
in_chain-evict_chain [] key q h = refl
in_chain-evict_chain (elem ∷ rest) key q h = ground (arith, in_chain-evict_chain rest key q)

pub evict_chain-IsChain : (c : List HtMap) (key : ℕ) → IsChain c → IsChain (evict_chain c key)
unfolding evict_chain in_chain
evict_chain-IsChain [] key w = tt
evict_chain-IsChain (elem ∷ rest) key w =
    ground (arith, evict_chain-IsChain rest key w.2, in_chain-evict_chain rest key elem.key)

pub query_chain-evict_chain :
    (c : List HtMap) (key q : ℕ)
    → IsChain c
    → query_chain (evict_chain c key) q ≡ (if key == q then null else query_chain c q)
unfolding query_chain evict_chain in_chain
query_chain-evict_chain [] key q w = ground arith
query_chain-evict_chain (elem ∷ rest) key q w =
    ground (arith, query_chain-evict_chain rest key q w.2, query_chain-eq_null rest elem.key)

pub length-evict_chain :
    (c : List HtMap) (key : ℕ) → in_chain c key ≡ true → length (evict_chain c key) + 1 ≡ length c
unfolding evict_chain in_chain
length-evict_chain [] key h = cc
length-evict_chain (elem ∷ rest) key h = ground (arith, length-evict_chain rest key)
