-- ===== src/Dir/ScanBlock.antt =====
-- The inner loop of get_dir_entry: the scan of one block of a directory.
use model_lib.Prelude.{
  ℕ, zero, suc, ◌+◌, ◌*◌, ◌≤◌, ◌<◌, ◌≡◌, ◌⊎◌, refl, ap, ◌∙◌, inl, inr, Bool-cases, Option, none,
  some, List, [], ◌∷◌, sym, true, false, ◌==◌, ltb, leb, ◌&&◌, arith, length,
}
use model_lib.Env.{Env, Bytes, Ptr, Inode, DirEntry}
use model_lib.Machine.{Sys, Run, ok, ◌>>=◌}
use model_lib.Buffer.{slice, read_block, read_entry}
use model_lib.Dir.{Scan, Entry, note_free, next_entry, name_eq, scan_block}
use model_lib.Dir.Entries.{entry_at, entries, find_name, first_free, place, Remain}
use model_lib.File.Contents.{block_of, bytes_from, slice-bytes_from, in_block}
use model_lib.File.Locate.{Held, read_inode-Held}

module _ ⦃env : Env⦄ where
  -- the pointer `p` shows these bytes
  abbrev pub Reads : Ptr → Bytes → Sys → Type 0
  Reads p bytes s =
      (off n : ℕ) → off + n ≤ env.block_size → read_block p off n s ≡ ok (slice off n bytes) s

  -- the variables of the loops, with the free entry that was seen first
  abbrev pub scan_at : (i b curr : ℕ) (cur_b : Ptr) (off total : ℕ) → Entry → Scan
  scan_at i b curr cur_b off total free = record {
    i = i;
    b_num = b;
    curr_b_num = curr;
    cur_b = cur_b;
    cur_entry = off;
    total_size = total;
    entry_offset = free.0;
    entry_b_num = free.1;
    found = false;
  }

  module _ (inode : Inode) (view : ℕ → Bytes) where
    note_free-scan_at :
        (i curr : ℕ) (cur_b : Ptr) (off total pos : ℕ) (free : Option ℕ) (entry : DirEntry)
        → place inode view (some pos) ≡ (some off, block_of inode view i)
        → note_free
            (scan_at i (block_of inode view i) curr cur_b off total (place inode view free))
            entry
          ≡ scan_at i
              (block_of inode view i)
              curr
              cur_b
              off
              total
              (place inode view (first_free free ((pos, entry) ∷ [])))
    unfolding note_free
    note_free-scan_at i curr cur_b off total pos (some f) entry here = refl
    note_free-scan_at i curr cur_b off total pos none entry here =
        elim (Bool-cases (entry.inum == 0)) [
          | inl e ↦ rw e (
              ap (λ (t : Entry). scan_at i (block_of inode view i) curr cur_b off total t)
                (sym here))
          | inr e ↦ rw e refl
        ]

  module _ (path : Bytes) (inode : Inode) (view : ℕ → Bytes) (i curr : ℕ) (cur_b : Ptr)
      (s : Sys) where
    -- The scan of block `i` from position `pos` on, where the file holds `n` more entries: it finds the
    -- entry, or it goes on at a later position with the same search of the rest.
    pub data Scanned (pos n : ℕ) (free : Option ℕ) (run : Run Scan) : Type 0 where
      hit :
          (sc : Scan) (off : ℕ)
          → run ≡ ok sc s
          → sc.found ≡ true
          → sc.cur_entry ≡ off
          → sc.b_num ≡ block_of inode view i
          → off < env.block_size
          → find_name path (entries inode view pos n) ≡ some (i * env.block_size + off)
          → Scanned pos n free run
      miss :
          (off total pos' m : ℕ) (free' : Option ℕ)
          → run
            ≡ ok (scan_at i (block_of inode view i) curr cur_b off total (place inode view free')) s
          → pos' ≡ i * env.block_size + off
          → total ≡ pos' + env.entry_size
          → find_name path (entries inode view pos n) ≡ find_name path (entries inode view pos' m)
          → first_free free (entries inode view pos n)
            ≡ first_free free' (entries inode view pos' m)
          → Remain inode pos' m
          → ((m ≡ 0) × (off + env.entry_size ≤ env.block_size)) ⊎ (off ≡ env.block_size)
          → Scanned pos n free run

    first_free-cons :
        (free : Option ℕ) (e : ℕ × DirEntry) (es : List (ℕ × DirEntry))
        → first_free free (e ∷ es) ≡ first_free (first_free free (e ∷ [])) es
    first_free-cons (some f) e es = refl
    first_free-cons none e es = elim (Bool-cases (e.1.inum == 0)) [
      | inl t ↦ rw t refl
      | inr t ↦ rw t refl
    ]

    -- an entry with another name is passed over
    Scanned-next :
        (pos n : ℕ) (free : Option ℕ) (run : Run Scan)
        → name_eq env.dir_name_len path (entry_at inode view pos).name ≡ false
        → Scanned
            (pos + env.entry_size)
            n
            (first_free free ((pos, entry_at inode view pos) ∷ []))
            run
        → Scanned pos (suc n) free run
    Scanned-next pos n free run other (hit sc off returns found at b lt here) =
        hit sc off returns found at b lt (rw other here)
    Scanned-next pos n free run other
          (miss off total pos' m free' returns at_pos at_total search free_same rest stop) =
        miss off total pos' m free' returns at_pos at_total (rw other search)
          (first_free-cons free (pos, entry_at inode view pos)
              (entries inode view (pos + env.entry_size) n)
            ∙ free_same)
          rest stop

    -- the loop ends where the file or the block does
    stop-Scanned :
        (fuel : ℕ) (p : Ptr) (off total pos n : ℕ) (free : Option ℕ)
        → Held p inode s
        → pos ≡ i * env.block_size + off
        → total ≡ pos + env.entry_size
        → Remain inode pos n
        → (leb total inode.size && ltb off env.block_size) ≡ false
        → ((n ≡ 0) × (off + env.entry_size ≤ env.block_size)) ⊎ (off ≡ env.block_size)
        → Scanned pos n free (
            scan_block
              (suc fuel)
              path
              p
              (scan_at i (block_of inode view i) curr cur_b off total (place inode view free))
              s)
    unfolding scan_block
    stop-Scanned fuel p off total pos n free held at_pos at_total rest test stop =
        miss off total pos n free
          (rw (read_inode-Held p inode s held, test, scan_block, ◌>>=◌) refl) at_pos at_total refl
          refl rest stop

    pub scan_block-Scanned :
        (fuel c : ℕ) (p : Ptr) (off total pos n : ℕ) (free : Option ℕ)
        → Held p inode s
        → Reads cur_b (view (block_of inode view i)) s
        → length (view (block_of inode view i)) ≡ env.block_size
        → 0 < env.entry_size
        → off + c * env.entry_size ≡ env.block_size
        → pos ≡ i * env.block_size + off
        → total ≡ pos + env.entry_size
        → Remain inode pos n
        → c < fuel
        → Scanned pos n free (
            scan_block fuel path p
              (scan_at i (block_of inode view i) curr cur_b off total (place inode view free))
              s)
    unfolding scan_block next_entry read_entry
    scan_block-Scanned zero c p off total pos n free held reads sized size room at_pos at_total rest
          lt =
        absurd (omega (arith, lt))
    scan_block-Scanned (suc fuel) zero p off total pos n free held reads sized size room at_pos
          at_total rest lt =
        let full : off ≡ env.block_size = omega (arith, room) in
        stop-Scanned fuel p off total pos n free held at_pos at_total rest (ground (arith, full))
          (inr full)
    scan_block-Scanned (suc fuel) (suc c) p off total pos zero free held reads sized size room
          at_pos at_total rest lt =
        stop-Scanned fuel p off total pos zero free held at_pos at_total rest
          (let past = rest.ends in ground (arith, past, at_total)) (inl (refl, omega (arith, room)))
    scan_block-Scanned (suc fuel) (suc c) p off total pos (suc n) free held reads sized size room
          at_pos at_total rest lt =
        let b = block_of inode view i in
        let entry = entry_at inode view pos in
        let within : off + env.entry_size ≤ env.block_size = omega (arith, room) in
        let inside : off < env.block_size = omega (arith, within, size) in
        let enough : pos + env.entry_size ≤ inode.size = omega (arith, rest.holds) in
        let go_on : (leb total inode.size && ltb off env.block_size) ≡ true =
          ground (arith, enough, at_total, inside) in
        let bytes : slice off env.entry_size (view b) ≡ bytes_from inode view pos env.entry_size =
          slice-bytes_from inode view i off env.entry_size within sized
          ∙ ap (λ (t : ℕ). bytes_from inode view t env.entry_size) (sym at_pos) in
        let read = reads off env.entry_size within in
        let (quot, rem) = in_block i off env.block_size inside in
        let here : place inode view (some pos) ≡ (some off, b) = rw (at_pos, quot, rem) refl in
        let noted = note_free-scan_at inode view i curr cur_b off total pos free entry here in
        let free' = first_free free ((pos, entry) ∷ []) in
        let after =
          scan_block-Scanned fuel c p (off + env.entry_size) (total + env.entry_size)
            (pos + env.entry_size) n free' held reads sized size (omega (arith, room))
            (omega (arith, at_pos)) (omega (arith, at_total))
            (record { holds = omega (arith, rest.holds); ends = omega (arith, rest.ends) })
            (omega (arith, lt)) in
        elim (Bool-cases (name_eq env.dir_name_len path entry.name)) [
          | inl same ↦
              hit
                (record (scan_at i b curr cur_b off total (place inode view free')) {
                  found = true;
                })
                off
                (rw
                  (
                    read_inode-Held p inode s held,
                    go_on,
                    read,
                    bytes,
                    noted,
                    same,
                    scan_block,
                    read_entry,
                    ◌>>=◌,
                  )
                  refl)
                refl refl refl inside (rw same (ap some at_pos))
          | inr other ↦ Scanned-next pos n free _ other (
              rw
                (
                  read_inode-Held p inode s held,
                  go_on,
                  read,
                  bytes,
                  noted,
                  other,
                  scan_block,
                  read_entry,
                  ◌>>=◌,
                )
                after)
        ]
