-- ===== src/Dir/GetEntry.antt =====
-- get_dir_entry on the list of the directory's entries.
use native.Mathlib.Nat.{div-mul-le_self}
use model_lib.Prelude.{
  ℕ, zero, suc, ◌+◌, ◌*◌, ◌/◌, ◌%◌, ◌≤◌, ◌<◌, ◌≡◌, ◌≢◌, refl, sym, ap, ◌∙◌, inl, inr, Bool-cases,
  Option-cases, Option, none, some, List, ◌∷◌, Bool, true, false, ◌==◌, if◌then◌else◌, arith,
}
use model_lib.Env.{Env, Bytes, Ptr, Inode, DirEntry, IsLayout}
use model_lib.Queue.Seg.{Cell}
use model_lib.Machine.{Sys, ok, ◌>>=◌}
use model_lib.Buffer.{inode_block, get_i}
use model_lib.Buffer.Evict.{content}
use model_lib.Buffer.Inodes.{inode_content, IsSys}
use model_lib.Buffer.Kept.{IsWarm, Kept, Kept-after, Cached-Kept}
use model_lib.Buffer.HasInode.{get_i-HasInode}
use model_lib.Dir.{Scan, Entry, make_entry, start_scan, scan_blocks, finish_scan, get_dir_entry}
use model_lib.Dir.Entries.{IsDivided, entry_at, entries, directory, find_name, first_free, place}
use model_lib.Dir.Steps.{Looked, get_nth_b-Looked}
use model_lib.Dir.Answer.{IsAnswer, found, absent}
use model_lib.Dir.ScanBlocks.{scan_blocks-directory}
use model_lib.File.{max_blocks, get_nth_b}
use model_lib.File.Contents.{block_of, IsFile, IsFile-same, block_of_behind, bytes_from_same}
use model_lib.Transfer.Rounds.{Shows, IsStored}

module _ ⦃env : Env⦄ where
  -- the entry that get_dir_entry picks: the first one with the name, or, if one is to be made, the
  -- first free one
  abbrev pub pick : Bool → Bytes → List (ℕ × DirEntry) → Option ℕ
  pick make path es = elim (find_name path es) [
    | some pos ↦ some pos
    | none ↦ if make then first_free none es else none
  ]

  pub pick_found :
      (make : Bool) (path : Bytes) (es : List (ℕ × DirEntry)) (pos : ℕ)
      → find_name path es ≡ some pos
      → pick make path es ≡ some pos
  pick_found make path es pos search = rw (search, pick) refl

  pick_absent :
      (make : Bool) (path : Bytes) (es : List (ℕ × DirEntry))
      → find_name path es ≡ none
      → pick make path es ≡ (if make then first_free none es else none)
  pick_absent make path es search = rw (search, pick) refl

  -- two views of the blocks that agree behind the table of inodes
  module _ (last : ℕ) (inode : Inode) (view view' : ℕ → Bytes)
      (same : (b : ℕ) → inode_block last < b → b < env.num_sectors → view b ≡ view' b)
      (file : IsFile last inode view) where
    entries_same :
        (pos n : ℕ)
        → pos + n * env.entry_size ≤ inode.size
        → entries inode view pos n ≡ entries inode view' pos n
    entries_same pos zero le = refl
    entries_same pos (suc n) le =
        ap (λ (t : Bytes). (pos, env.decode_entry t) ∷ entries inode view (pos + env.entry_size) n)
          (bytes_from_same last inode view view' same file pos env.entry_size (omega (arith, le)))
        ∙ ap (λ t. (pos, entry_at inode view' pos) ∷ t)
            (entries_same (pos + env.entry_size) n (omega (arith, le)))

    pub directory_same : directory inode view ≡ directory inode view'
    directory_same =
        entries_same 0 (inode.size / env.entry_size)
          (omega (arith, div-mul-le_self inode.size env.entry_size))

    pub place_same : (pos : Option ℕ) → place inode view pos ≡ place inode view' pos
    place_same none = refl
    place_same (some pos) =
        ap (λ (t : ℕ). (some (pos % env.block_size), t))
          (block_of_behind last inode view view' same file (pos / env.block_size))

  first_free-lt :
      (inode : Inode) (view : ℕ → Bytes) (pos n k : ℕ)
      → 0 < env.entry_size
      → pos + n * env.entry_size ≤ inode.size
      → first_free none (entries inode view pos n) ≡ some k
      → k < inode.size
  first_free-lt inode view pos zero k size le e = absurd (ground (arith, e))
  first_free-lt inode view pos (suc n) k size le e =
      elim (Bool-cases ((entry_at inode view pos).inum == 0)) [
        | inl free ↦ let here : some pos ≡ some k = rw free at e in ground (arith, here, size, le)
        | inr used ↦
            let there : first_free none (entries inode view (pos + env.entry_size) n) ≡ some k =
              rw used at e in
            first_free-lt inode view (pos + env.entry_size) n k size (omega (arith, le)) there
      ]

  module _ (last : ℕ) (path : Bytes) (p : Ptr) (start_i : ℕ) (inode : Inode) (view : ℕ → Bytes)
      (file : IsFile last inode view) (divided : IsDivided env) where
    -- the end of get_dir_entry, if no entry is to be added
    finish_scan_lem :
        (make : Bool) (sc : Scan) (s : Sys)
        → IsAnswer path inode view none (directory inode view) sc
        → (make ≡ true → pick make path (directory inode view) ≢ none)
        → finish_scan p start_i make sc s
          ≡ ok (place inode view (pick make path (directory inode view))) s
    unfolding finish_scan make_entry
    finish_scan_lem make sc s (found pos is_found search at) there =
        rw (is_found, finish_scan)
          (ap (λ t. ok t s)
            (at
              ∙ ap (place inode view)
                  (sym (pick_found make path (directory inode view) pos search))))
    finish_scan_lem false sc s (absent not_found search at_end at) there =
        rw (not_found, finish_scan)
          (ap (λ (b : ℕ). ok (none, b) s) at_end
            ∙ ap (λ (t : Option ℕ). ok (place inode view t) s)
                (sym (pick_absent false path (directory inode view) search)))
    finish_scan_lem true sc s (absent not_found search at_end at) there =
        elim (Option-cases (first_free none (directory inode view))) [
          | inl full ↦
              absurd (there refl (pick_absent true path (directory inode view) search ∙ full))
          | inr (k, e) ↦
              let b = block_of inode view (k / env.block_size) in
              let inside =
                first_free-lt inode view 0 (inode.size / env.entry_size) k divided.entry_size_pos
                  (omega (arith, div-mul-le_self inode.size env.entry_size)) e in
              let (behind, placed) =
                file.placed (k / env.block_size)
                  (omega (arith, div-mul-le_self k env.block_size, inside)) in
              let here = at ∙ ap (place inode view) e in
              let b_num : sc.entry_b_num ≡ b = ap (λ (t : Entry). t.1) here in
              let nonzero : (sc.entry_b_num == 0) ≡ false = ground (arith, b_num, behind) in
              rw (not_found, nonzero, finish_scan, make_entry)
                (ap (λ t. ok t s)
                  (at
                    ∙ ap (place inode view)
                        (sym (pick_absent true path (directory inode view) search))))
        ]

  module _ (layout : IsLayout env) (last : ℕ) (table : inode_block last < env.num_sectors)
      (pos_cache : 0 < env.block_cache_size) (divided : IsDivided env) (path : Bytes) (i : ℕ)
      (make : Bool) where
    -- the part behind get_i
    scan-Looked :
        (p : Ptr) (inode : Inode) (view : ℕ → Bytes) (s : Sys) (xs : List (Cell Bytes))
        → IsStored last inode view
        → Shows p inode view s xs
        → (make ≡ true → pick make path (directory inode view) ≢ none)
        → Looked p inode view s xs (place inode view (pick make path (directory inode view))) (
            (do
              b_num ← get_nth_b p 0 false
              sc ← scan_blocks (max_blocks + 1) path p (start_scan b_num)
              finish_scan p i make sc)
              s)
    scan-Looked p inode view s xs stored v there =
        let q = get_nth_b-Looked p inode view last 0 s xs stored v in
        let d =
          scan_blocks-directory path p inode view last stored divided q.state q.cells q.shows in
        let l = d.looked in
        let done =
          finish_scan_lem last path p i inode view stored.file divided make d.sc l.state d.answer
            there in
        record {
          state = l.state;
          cells = l.cells;
          returns = rw (q.returns, l.returns) done;
          shows = l.shows;
          tracked = λ on_disk. l.tracked (q.tracked on_disk);
          others =
              l.others
              ∙ ap {A = Sys} (λ z. record z { blocks = l.state.blocks; disk = l.state.disk })
                  q.others;
        }

    -- On well-formed caches that are not over their sizes, with room for two inodes or more, let i
    -- be a number of the table whose inode names blocks behind the table for all its bytes, where
    -- a block is divided into entries. Read as the list of its entries, the directory has a first
    -- entry whose name get_dir_entry's comparison accepts, or none; get_dir_entry answers the
    -- place of that entry, its offset and its block's number. If there is none, it answers the
    -- place of the first free entry if one is to be made, and no place otherwise; the case that
    -- one is to be made in a directory with neither is left out. No file is changed, also where
    -- items of the caches were evicted, and the caches stay well formed and within their sizes. If
    -- the inode cache is empty, malloc has to leave NULL in next_c_item. If before every item of
    -- the caches that is not dirty holds what is on the disk, or in the block of the inode, then
    -- so it is afterwards.
    pub get_dir_entry-Kept :
        (s : Sys) (bs : List (Cell Bytes)) (is : List (Cell Inode))
        → IsSys last s bs is
        → IsWarm s is
        → 1 < env.inode_cache_size
        → i ≤ last
        → IsFile last (inode_content bs s.disk is i) (content bs s.disk)
        → (make ≡ true
            → pick make path (directory (inode_content bs s.disk is i) (content bs s.disk)) ≢ none)
        → Kept last s bs is
            (place
              (inode_content bs s.disk is i)
              (content bs s.disk)
              (pick make path (directory (inode_content bs s.disk is i) (content bs s.disk))))
            (get_dir_entry path i make s)
    unfolding get_dir_entry
    get_dir_entry-Kept s bs is v warm two le file there =
        let inode = inode_content bs s.disk is i in
        let view = content bs s.disk in
        let g = get_i-HasInode layout last table pos_cache s bs is i v warm two le in
        let k = g.kept in
        let view' = content k.cells k.state.disk in
        let same : (b : ℕ) → inode_block last < b → b < env.num_sectors → view b ≡ view' b =
          λ b behind lt. sym (k.same.blocks b behind lt) in
        let folder = directory_same last inode view view' same file in
        let l =
          scan-Looked g.at inode view' k.state k.cells
            (record { file = IsFile-same last inode view view' same file; sized = k.valid.sized })
            (record {
              cached = record {
                cache = k.valid.blocks;
                fits = k.valid.blocks_fit;
                room = pos_cache;
              };
              held = g.held;
              agree = λ b lt. refl;
            })
            (rw folder at there) in
        let r = place inode view (pick make path (directory inode view)) in
        let same_place : place inode view' (pick make path (directory inode view')) ≡ r =
          ap (λ t. place inode view' (pick make path t)) (sym folder)
          ∙ sym (
              place_same last inode view view' same file (pick make path (directory inode view))) in
        Kept-after last s bs is g.at (get_i i s) r _ k (
          Cached-Kept last layout table k.state l.state k.cells l.cells k.items r _ k.valid k.warm
            (rw (k.returns, get_dir_entry) (l.returns ∙ ap (λ t. ok t l.state) same_place))
            l.shows.cached l.shows.agree l.tracked l.others)
