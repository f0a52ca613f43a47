-- ===== src/Buffer/Sync.antt =====
-- The first loop of handle_sync: it writes the dirty blocks of the cache to the disk.
use model_lib.Prelude.{
  ℕ, zero, suc, ◌+◌, ◌<◌, ◌≡◌, refl, sym, ap, ◌∙◌, ◌≢◌, inl, inr, none, some, Bool-cases, List, [],
  ◌∷◌, true, false, ◌==◌, ◌&&◌, ltb, if◌then◌else◌, arith, length,
}
use model_lib.Env.{Env, Bytes, Ptr, null}
use model_lib.Queue.{load}
use model_lib.Queue.Seg.{Cell, item, Seg}
use model_lib.Queue.Moves.{load-some}
use model_lib.Cache.{on_queue}
use model_lib.Cache.Cells.{find, addr_of, Unique}
use model_lib.Cache.Steps.{IsCache}
use model_lib.Machine.{Sys, ok, on_blocks, write_sector, update, when, ◌>>=◌, ◌>>◌}
use model_lib.Buffer.{sync_blocks}
use model_lib.Buffer.Evict.{content}

module _ ⦃env : Env⦄ where
  -- the disk behind the write of one block
  abbrev flush_one : Cell Bytes → (ℕ → Bytes) → ℕ → Bytes
  flush_one c disk = if c.dirty && ltb c.num env.num_sectors then update disk c.num c.addr else disk

  -- The disk with the dirty blocks of the list written to it.
  abbrev pub flush : List (Cell Bytes) → (ℕ → Bytes) → ℕ → Bytes
  flush [] disk = disk
  flush (c ∷ cs) disk = flush cs (flush_one c disk)

  sync_blocks_one :
      (c : Cell Bytes) (s : Sys)
      → when c.dirty (write_sector c.num c.addr) s ≡ ok tt (record s { disk = flush_one c s.disk })
  unfolding write_sector
  sync_blocks_one c s = ground arith

  load_b-item :
      (prev next : Ptr) (c : Cell Bytes) (s : Sys)
      → c.at ≢ null
      → s.blocks.queue.heap c.at ≡ some (item c prev next)
      → on_blocks (on_queue (load c.at)) s ≡ ok (item c prev next) s
  unfolding on_blocks
  load_b-item prev next c s ne h =
      rw (load-some c.at s.blocks.queue (item c prev next) ne h, on_blocks, on_queue)

  pub sync_blocks-flush :
      (fuel : ℕ) (xs : List (Cell Bytes)) (prev p last : Ptr) (s : Sys)
      → Seg s.blocks.queue.heap prev p xs null last
      → length xs < fuel
      → sync_blocks fuel p s ≡ ok tt (record s { disk = flush xs s.disk })
  unfolding sync_blocks
  sync_blocks-flush zero xs prev p last s seg lt = absurd (omega (arith, lt))
  sync_blocks-flush (suc fuel) [] prev p last s seg lt = rw seg.0 refl
  sync_blocks-flush (suc fuel) (c ∷ cs) prev p last s seg lt =
      let some_p : (c.at == null) ≡ false = let ne = seg.1 in ground arith in
      rw (seg.0, some_p, load_b-item prev seg.2 c s seg.1 seg.3, sync_blocks_one c s, ◌>>=◌, ◌>>◌)
        (sync_blocks-flush fuel cs c.at seg.2 last (record s { disk = flush_one c s.disk }) seg.4
          (omega (arith, lt)))

  -- a block of the list that is not dirty is on the disk already
  abbrev pub Clean : List (Cell Bytes) → (ℕ → Bytes) → ℕ → Type 0
  Clean xs disk b = (c : Cell Bytes) → find xs b ≡ some c → c.dirty ≡ false → c.addr ≡ disk b

  flush_one_other :
      (c : Cell Bytes) (disk : ℕ → Bytes) (b : ℕ)
      → (c.num == b) ≡ false
      → flush_one c disk b ≡ disk b
  flush_one_other c disk b h = ground arith

  flush_absent :
      (xs : List (Cell Bytes)) (disk : ℕ → Bytes) (b : ℕ)
      → find xs b ≡ none
      → flush xs disk b ≡ disk b
  flush_absent [] disk b h = refl
  flush_absent (c ∷ cs) disk b h =
      let other : (c.num == b) ≡ false = ground arith in
      flush_absent cs (flush_one c disk) b (rw other at h) ∙ flush_one_other c disk b other

  flush_one_self :
      (c : Cell Bytes) (disk : ℕ → Bytes) (b : ℕ)
      → (c.num == b) ≡ true
      → b < env.num_sectors
      → (c.dirty ≡ false → c.addr ≡ disk b)
      → flush_one c disk b ≡ c.addr
  flush_one_self c disk b h lt clean = ground arith

  flush-content :
      (xs : List (Cell Bytes)) (disk : ℕ → Bytes) (b : ℕ)
      → Unique xs
      → b < env.num_sectors
      → Clean xs disk b
      → flush xs disk b ≡ content xs disk b
  flush-content [] disk b u lt clean = refl
  flush-content (c ∷ cs) disk b u lt clean = elim (Bool-cases (c.num == b)) [
    | inl self ↦
        let num : c.num ≡ b = ground arith in
        let one = flush_one_self c disk b self lt (λ d. clean c (rw self refl) d) in
        rw self (flush_absent cs (flush_one c disk) b (rw num at u.0) ∙ one)
    | inr other ↦
        let same = flush_one_other c disk b other in
        rw other (
          flush-content cs (flush_one c disk) b u.1 lt
            (λ x found d. clean x (rw other found) d ∙ sym same)
          ∙ ap (λ bytes. addr_of bytes (find cs b)) same)
  ]

  -- On a well-formed block cache the first loop of handle_sync ends within its fuel and changes only
  -- the disk; behind it each block of the disk that was clean, or not cached, or dirty holds on the
  -- disk what it held in the cache or on the disk before.
  pub sync_blocks-content :
      (s : Sys) (xs : List (Cell Bytes))
      → IsCache s.blocks xs
      → (disk : ℕ → Bytes) × (sync_blocks (s.blocks.size + 1) s.blocks.queue.q_first s
          ≡ ok tt (record s { disk = disk }))
        × ((b : ℕ) → b < env.num_sectors → Clean xs s.disk b → disk b ≡ content xs s.disk b)
  sync_blocks-content s xs v =
      let q = s.blocks.queue in
      (
        flush xs s.disk,
        sync_blocks-flush (s.blocks.size + 1) xs null q.q_first q.q_last s v.queue.chain
            (omega (arith, v.counted)),
        λ b lt clean. flush-content xs s.disk b v.unique lt clean,
      )
