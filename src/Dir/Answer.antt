-- ===== src/Dir/Answer.antt =====
-- What the search of a directory answers, and what holds where a round of its outer loop begins.
use model_lib.Prelude.{
  ℕ, zero, suc, ◌+◌, ◌*◌, ◌≤◌, ◌<◌, ◌≡◌, refl, sym, ap, ◌∙◌, Option, none, some, List, [], true,
  false, ◌==◌, arith,
}
use model_lib.Env.{Env, Bytes, Ptr, Inode, DirEntry}
use model_lib.Queue.Seg.{Cell}
use model_lib.Machine.{Sys, Run}
use model_lib.Dir.{Scan}
use model_lib.Dir.Entries.{entries, find_name, first_free, place, Remain}
use model_lib.Dir.Steps.{Looked}
use model_lib.File.Contents.{block_of}

pub rounds : (c size bytes : ℕ) → 0 < size → c * size ≡ bytes → c ≤ bytes
rounds c zero bytes some_bytes whole = absurd (omega (arith, some_bytes))
rounds c (suc size) bytes some_bytes whole = omega (arith, whole)

module _ ⦃env : Env⦄ where
  -- the variables of the loops behind the search of these entries
  pub data IsAnswer (path : Bytes) (inode : Inode) (view : ℕ → Bytes) (free : Option ℕ)
      (es : List (ℕ × DirEntry)) (sc : Scan) : Type 0 where
    found :
        (pos : ℕ)
        → sc.found ≡ true
        → find_name path es ≡ some pos
        → (some sc.cur_entry, sc.b_num) ≡ place inode view (some pos)
        → IsAnswer path inode view free es sc
    absent :
        sc.found ≡ false
        → find_name path es ≡ none
        → sc.b_num ≡ 0
        → (sc.entry_offset, sc.entry_b_num) ≡ place inode view (first_free free es)
        → IsAnswer path inode view free es sc

  -- the search of `n` entries from a position on
  pub record Searched (path : Bytes) (p : Ptr) (inode : Inode) (view : ℕ → Bytes) (pos n : ℕ)
      (free : Option ℕ) (s : Sys) (xs : List (Cell Bytes)) (run : Run Scan) : Type 0 where
    pub sc : Scan
    pub looked : Looked p inode view s xs sc run
    pub answer : IsAnswer path inode view free (entries inode view pos n) sc

  module _ (path : Bytes) (p : Ptr) (inode : Inode) (view : ℕ → Bytes) where
    pub IsAnswer-same :
        (pos n pos' m : ℕ) (free free' : Option ℕ) (sc : Scan)
        → find_name path (entries inode view pos n) ≡ find_name path (entries inode view pos' m)
        → first_free free (entries inode view pos n) ≡ first_free free' (entries inode view pos' m)
        → IsAnswer path inode view free' (entries inode view pos' m) sc
        → IsAnswer path inode view free (entries inode view pos n) sc
    IsAnswer-same pos n pos' m free free' sc search free_same (found k f e at) =
        found k f (search ∙ e) at
    IsAnswer-same pos n pos' m free free' sc search free_same (absent f e b at) =
        absent f (search ∙ e) b (at ∙ ap (place inode view) (sym free_same))

    -- What holds where a round of the outer loop begins: block `i` is to be searched from its start, or
    -- there is none and no entry is left.
    pub record Begins (i total pos n : ℕ) : Type 0 where
      pub ended : (block_of inode view i == 0) ≡ true → n ≡ 0
      pub at_pos : (block_of inode view i == 0) ≡ false → pos ≡ i * env.block_size
      pub at_total : (block_of inode view i == 0) ≡ false → total ≡ pos + env.entry_size
      pub rest : (block_of inode view i == 0) ≡ false → Remain inode pos n

    pub no_room : (m pos : ℕ) → 0 < env.entry_size → Remain inode pos m → inode.size ≤ pos → m ≡ 0
    no_room zero pos size rest le = refl
    no_room (suc m) pos size rest le = absurd (omega (arith, size, rest.holds, le))

    pub past_end :
        (i off pos m : ℕ)
        → pos ≡ i * env.block_size + off
        → Remain inode pos m
        → (m ≡ 0) × (off + env.entry_size ≤ env.block_size)
        → (i + 1) * env.block_size < inode.size
        → ⊥
    past_end i off pos zero at_pos rest e lt = omega (arith, at_pos, rest.ends, e.1, lt)
    past_end i off pos (suc m) at_pos rest e lt = absurd (omega (arith, e.0))

    pub first_free_nil : (free : Option ℕ) → first_free free [] ≡ free
    first_free_nil none = refl
    first_free_nil (some pos) = refl
