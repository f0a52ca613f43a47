-- ===== src/HashTable/Laws.antt =====
-- The hash table as a partial map from keys to addresses.
use native.Mathlib.Decide.{ℕ_discrete}
use model_lib.Prelude.{
  ℕ, suc, ◌+◌, ◌-◌, ◌<◌, ◌≡◌, refl, ◌≢◌, some, List, [], ◌∷◌, false, ◌==◌, if◌then◌else◌, arith,
  length, get_or, set, length-set, get_elem?-get_or, get_or-set_self, get_or-set_ne, Bool-cases,
  inl, inr,
}
use model_lib.Env.{Ptr, null}
use model_lib.HashTable.{
  Ht, HtMap, bucket_index, query_chain, evict_chain, in_chain, query_ht, insert_ht, insert_chain,
  evict_ht,
}
use model_lib.HashTable.Chains.{
  IsChain, query_chain-eq_null, in_chain-eq_false, evict_chain-IsChain, query_chain-evict_chain,
  length-evict_chain,
}

abbrev pub total : List (List HtMap) → ℕ
total [] = 0
total (c ∷ cs) = length c + total cs

total-set :
    (cs : List (List HtMap)) (i : ℕ) (c : List HtMap)
    → i < length cs
    → total (set cs i c) + length (get_or cs i []) ≡ total cs + length c
total-set [] i c h = elim h [ ]
total-set (d ∷ cs) ℕ.zero c h = omega arith
total-set (d ∷ cs) (suc i) c h = omega (arith, total-set cs i c (omega arith))

-- The table has a bucket, its chains are chains, and num_used counts its elements.
pub record IsHt (ht : Ht) : Type 0 where
  pub size_pos : 0 < ht.size
  pub width : length ht.head ≡ ht.size
  pub chains : (i : ℕ) → IsChain (get_or ht.head i [])
  pub counted : ht.num_used ≡ total ht.head

-- the address under a key; NULL if there is none
unfoldable pub view : Ht → ℕ → Ptr
view ht key = query_chain (get_or ht.head (bucket_index ht key) []) key

module _ {ht : Ht} (valid : IsHt ht) (key : ℕ) where
  bucket_index-lt : bucket_index ht key < length ht.head
  unfolding bucket_index
  bucket_index-lt = rw valid.width (let p = valid.size_pos in grind arith)

  -- On a well-formed table a query does not fault, and reads the map.
  pub query_ht-view : query_ht ht key ≡ some (view ht key)
  unfolding query_ht view
  query_ht-view = rw (get_elem?-get_or ht.head (bucket_index ht key) [] bucket_index-lt, query_ht)

  bucket : List HtMap
  bucket = get_or ht.head (bucket_index ht key) []

  -- the table with another chain in the key's bucket
  with_bucket : List HtMap → ℕ → Ht
  with_bucket c n = record ht { head = set ht.head (bucket_index ht key) c; num_used = n }

  with_bucket-IsHt :
      (c : List HtMap) (n : ℕ)
      → IsChain c
      → n + length bucket ≡ total ht.head + length c
      → IsHt (with_bucket c n)
  unfolding with_bucket bucket
  with_bucket-IsHt c n w e = record {
    size_pos = valid.size_pos;
    width = rw (length-set ht.head (bucket_index ht key) c) valid.width;
    chains = λ i. elim (ℕ_discrete (bucket_index ht key) i) [
      | yes same ↦ rw (← same, get_or-set_self ht.head (bucket_index ht key) c [] bucket_index-lt) w
      | no other ↦ rw (get_or-set_ne ht.head (bucket_index ht key) i c [] other) (valid.chains i)
    ];
    counted = omega (arith, total-set ht.head (bucket_index ht key) c bucket_index-lt);
  }

  view-with_bucket :
      (c : List HtMap) (n : ℕ) (v : Ptr)
      → ((q : ℕ) → query_chain c q ≡ (if key == q then v else query_chain bucket q))
      → (q : ℕ) → view (with_bucket c n) q ≡ (if key == q then v else view ht q)
  unfolding view with_bucket bucket bucket_index
  view-with_bucket c n v h q = elim (ℕ_discrete (bucket_index ht key) (bucket_index ht q)) [
    | yes same ↦
        rw (← same, get_or-set_self ht.head (bucket_index ht key) c [] bucket_index-lt) (h q)
    | no other ↦
        rw (get_or-set_ne ht.head (bucket_index ht key) (bucket_index ht q) c [] other)
          (ground arith)
  ]

  query_chain-cons :
      (v : Ptr) (q : ℕ)
      → query_chain (record { key = key; value = v } ∷ bucket) q
        ≡ (if key == q then v else query_chain bucket q)
  unfolding query_chain
  query_chain-cons v q = refl

  insert_ht-with_bucket :
      (v : Ptr)
      → view ht key ≡ null
      → v ≢ null
      → insert_ht ht key v
        ≡ some (with_bucket (record { key = key; value = v } ∷ bucket) (ht.num_used + 1))
  unfolding insert_ht view insert_chain with_bucket bucket
  insert_ht-with_bucket v absent ne =
      rw (get_elem?-get_or ht.head (bucket_index ht key) [] bucket_index-lt, insert_ht)
        (ground arith)

  -- Inserting a new key with an address other than NULL succeeds, changes the map at that key only
  -- and counts one more element.
  pub insert_ht-view :
      (v : Ptr)
      → view ht key ≡ null
      → v ≢ null
      → (ht' : Ht) × (insert_ht ht key v ≡ some ht')
        × IsHt ht'
        × ((q : ℕ) → view ht' q ≡ (if key == q then v else view ht q))
        × (ht'.num_used ≡ ht.num_used + 1)
  unfolding with_bucket bucket
  insert_ht-view v absent ne =
      let c = record { key = key; value = v } ∷ bucket in
      (
        with_bucket c (ht.num_used + 1),
        insert_ht-with_bucket v absent ne,
        with_bucket-IsHt c (ht.num_used + 1)
            (
              ne,
              in_chain-eq_false bucket key (valid.chains _) (unfold view bucket in absent),
              valid.chains _,
            )
            (omega (arith, valid.counted)),
        view-with_bucket c (ht.num_used + 1) v (λ q. query_chain-cons v q),
        refl,
      )

  view-eq_null : in_chain bucket key ≡ false → view ht key ≡ null
  unfolding view bucket
  view-eq_null h = query_chain-eq_null bucket key h

  view_absent :
      in_chain bucket key ≡ false → (q : ℕ) → view ht q ≡ (if key == q then null else view ht q)
  view_absent h q = ground (arith, view-eq_null h)

  -- Evicting a key succeeds, whether the key is there or not, and clears the map at that key only.
  pub evict_ht-view :
      (ht' : Ht) × (evict_ht ht key ≡ some ht')
      × IsHt ht'
      × ((q : ℕ) → view ht' q ≡ (if key == q then null else view ht q))
  unfolding evict_ht with_bucket bucket
  evict_ht-view =
      let found = get_elem?-get_or ht.head (bucket_index ht key) [] bucket_index-lt in
      let w = valid.chains (bucket_index ht key) in
      let n = ht.num_used - 1 in
      let c = evict_chain bucket key in
      elim (Bool-cases (in_chain bucket key)) [
        | inl e ↦ (
          with_bucket c n,
          rw (found, evict_ht) (rw e),
          with_bucket-IsHt c n (evict_chain-IsChain bucket key w) (
              omega (
                arith,
                valid.counted,
                length-evict_chain bucket key e,
                total-set ht.head (bucket_index ht key) [] bucket_index-lt,
              )),
          view-with_bucket c n null (λ q. query_chain-evict_chain bucket key q w),
        )
        | inr e ↦ (ht, rw (found, evict_ht) (rw e), valid, view_absent e)
      ]
