-- ===== src/Dir/ScanBlocks.antt =====
-- The outer loop of get_dir_entry: the search goes through all entries of the directory.
use model_lib.Prelude.{
  ℕ, zero, suc, ◌+◌, ◌*◌, ◌/◌, ◌≤◌, ◌<◌, ◌≡◌, ◌⊎◌, refl, sym, ap, inl, inr, Bool-cases, Option,
  none, List, true, false, ◌==◌, arith,
}
use native.Mathlib.Decide.{dec_lt}
use native.Mathlib.Nat.{div-add-mod', mod-lt}
use model_lib.Env.{Env, Bytes, Ptr, null, Inode}
use model_lib.Queue.Seg.{Cell}
use model_lib.Machine.{Sys, Run, ◌>>=◌}
use model_lib.Dir.{Scan, start_scan, scan_blocks}
use model_lib.Dir.Entries.{IsDivided, entries, find_name, first_free, place, Remain}
use model_lib.Dir.ScanBlock.{scan_at, scan_block-Scanned, hit, miss}
use model_lib.Dir.Steps.{Looked, Looked-after, get_b-Opened, get_nth_b-Looked}
use model_lib.File.{max_blocks}
use model_lib.File.Contents.{block_of, in_block}
use model_lib.Transfer.Rounds.{Shows, IsStored}
use model_lib.Dir.Answer.{
  rounds, found, absent, Searched, IsAnswer-same, no_room, past_end, first_free_nil, Begins,
}

module _ ⦃env : Env⦄ where
  module _ (path : Bytes) (p : Ptr) (inode : Inode) (view : ℕ → Bytes) where
    module _ (last : ℕ) (stored : IsStored last inode view) (divided : IsDivided env) where
      -- a block of the file
      in_file :
          (i : ℕ)
          → (block_of inode view i == 0) ≡ false
          → (i * env.block_size < inode.size)
            × (block_of inode view i < env.num_sectors)
            × (i < max_blocks)
      in_file i some_block =
          let lt : i * env.block_size < inode.size = ground (arith, some_block) in
          (lt, (stored.file.placed i lt).1, ground (arith, some_block))

      file_ends : (i : ℕ) → (block_of inode view i == 0) ≡ true → inode.size ≤ i * env.block_size
      file_ends i none_left = elim (dec_lt (i * env.block_size) inode.size) [
        | no ge ↦ omega (arith, ge)
        | yes lt ↦
            let (behind, placed) = stored.file.placed i lt in
            absurd (ground (arith, behind, none_left))
      ]

      -- the block behind the one that was searched
      Begins-next :
          (i off total pos m : ℕ)
          → pos ≡ i * env.block_size + off
          → total ≡ pos + env.entry_size
          → Remain inode pos m
          → ((m ≡ 0) × (off + env.entry_size ≤ env.block_size)) ⊎ (off ≡ env.block_size)
          → Begins path p inode view (i + 1) total pos m
      Begins-next i off total pos m at_pos at_total rest stop = record {
        ended = λ none_left. elim stop [
          | inl e ↦ e.0
          | inr full ↦
              no_room path p inode view m pos divided.entry_size_pos rest
                (let le = file_ends (i + 1) none_left in omega (arith, le, at_pos, full))
        ];
        at_pos = λ some_left.
            let (lt, placed, below) = in_file (i + 1) some_left in
            elim stop [
              | inl e ↦ absurd (past_end path p inode view i off pos m at_pos rest e lt)
              | inr full ↦ omega (arith, at_pos, full)
            ];
        at_total = λ some_left. at_total;
        rest = λ some_left. rest;
      }

      search_ends :
          (fuel i curr : ℕ) (cur_b : Ptr) (off total pos : ℕ) (free : Option ℕ) (s : Sys)
          (xs : List (Cell Bytes))
          → Shows p inode view s xs
          → (block_of inode view i == 0) ≡ true
          → Searched path p inode view pos 0 free s xs (
              scan_blocks
                (suc fuel)
                path
                p
                (scan_at i (block_of inode view i) curr cur_b off total (place inode view free))
                s)
      unfolding scan_blocks
      search_ends fuel i curr cur_b off total pos free s xs v none_left = record {
        sc = scan_at i (block_of inode view i) curr cur_b off total (place inode view free);
        looked = record {
          state = s;
          cells = xs;
          returns = rw (none_left, scan_blocks) refl;
          shows = v;
          tracked = λ on_disk. on_disk;
          others = refl;
        };
        answer =
            absent refl refl (ground (arith, none_left))
              (ap (place inode view) (sym (first_free_nil path p inode view free)));
      }

      -- the rest of the search, behind a block that does not have the entry
      Searched-after :
          {R : Type 0} (pos n pos' m : ℕ) (free free' : Option ℕ) (s : Sys) (xs : List (Cell Bytes))
          (r : R) (run : Run R) (run' : Run Scan) (l : Looked p inode view s xs r run)
          → find_name path (entries inode view pos n) ≡ find_name path (entries inode view pos' m)
          → first_free free (entries inode view pos n)
            ≡ first_free free' (entries inode view pos' m)
          → Searched path p inode view pos' m free' l.state l.cells run'
          → Searched path p inode view pos n free s xs run'
      Searched-after pos n pos' m free free' s xs r run run' l search free_same rest = record {
        sc = rest.sc;
        looked = Looked-after p inode view s xs r run rest.sc run' l rest.looked;
        answer =
            IsAnswer-same path p inode view pos n pos' m free free' rest.sc search free_same
              rest.answer;
      }

      scan_blocks-Searched :
          (fuel i curr : ℕ) (cur_b : Ptr) (off total pos n : ℕ) (free : Option ℕ) (s : Sys)
          (xs : List (Cell Bytes))
          → Shows p inode view s xs
          → Begins path p inode view i total pos n
          → 0 < fuel
          → max_blocks < fuel + i
          → Searched path p inode view pos n free s xs (
              scan_blocks fuel path p
                (scan_at i (block_of inode view i) curr cur_b off total (place inode view free))
                s)
      unfolding scan_blocks
      scan_blocks-Searched zero i curr cur_b off total pos n free s xs v begins some_fuel enough =
          absurd (omega (arith, some_fuel))
      scan_blocks-Searched (suc fuel) i curr cur_b off total pos n free s xs v begins some_fuel
            enough =
          elim (Bool-cases (block_of inode view i == 0)) [
            | inl none_left ↦
                rw (begins.ended none_left)
                  (search_ends fuel i curr cur_b off total pos free s xs v none_left)
            | inr some_left ↦
                let (lt, placed, below) = in_file i some_left in
                let o = get_b-Opened p inode view s xs (block_of inode view i) v placed in
                let s₁ = o.looked.state in
                let shows = o.looked.shows in
                let at_pos : pos ≡ i * env.block_size + 0 =
                  omega (arith, begins.at_pos some_left) in
                let got = o.looked.returns in
                elim (scan_block-Scanned path inode view i curr o.at s₁ (env.block_size + 1)
                  divided.per_block p 0 total pos n free shows.held o.reads
                  (stored.sized (block_of inode view i) placed) divided.entry_size_pos
                  (omega (arith, divided.whole)) at_pos (begins.at_total some_left)
                  (begins.rest some_left)
                  (omega (
                    arith,
                    rounds divided.per_block env.entry_size env.block_size divided.entry_size_pos
                        divided.whole,
                  ))) [
                    | hit sc off' returns is_found at b_num inside search ↦ record {
                      sc = sc;
                      looked = record {
                        state = s₁;
                        cells = o.looked.cells;
                        returns = rw (some_left, got, returns, is_found, scan_blocks, ◌>>=◌) refl;
                        shows = shows;
                        tracked = o.looked.tracked;
                        others = o.looked.others;
                      };
                      answer = found (i * env.block_size + off') is_found search (
                          let (quot, rem) = in_block i off' env.block_size inside in
                          rw (quot, rem, at, b_num) refl);
                    }
                    | miss off' total' pos' m free' returns at_pos' at_total' search free_same rest
                          stop ↦
                        let q =
                          get_nth_b-Looked p inode view last (i + 1) s₁ o.looked.cells stored
                            shows in
                        let ahead = Begins-next i off' total' pos' m at_pos' at_total' rest stop in
                        let after =
                          scan_blocks-Searched fuel (i + 1) (block_of inode view i) o.at off' total'
                            pos' m free' q.state q.cells q.shows ahead
                            (omega (arith, enough, below)) (omega (arith, enough)) in
                        rw (some_left, got, returns, q.returns, scan_blocks, ◌>>=◌)
                          (Searched-after pos n pos' m free free' s xs _ _ _ o.looked search
                            free_same
                            (Searched-after pos' m pos' m free' free' s₁ o.looked.cells _ _ _ q refl
                              refl after))
                  ]
          ]

      -- the whole directory
      pub scan_blocks-directory :
          (s : Sys) (xs : List (Cell Bytes))
          → Shows p inode view s xs
          → Searched path p inode view 0
              (inode.size / env.entry_size)
              none
              s
              xs
              (scan_blocks (max_blocks + 1) path p (start_scan (block_of inode view 0)) s)
      unfolding start_scan
      scan_blocks-directory s xs v =
          let n = inode.size / env.entry_size in
          let whole = div-add-mod' inode.size env.entry_size in
          let part = mod-lt inode.size divided.entry_size_pos in
          let rest : Remain inode 0 n = record {
            holds = omega (arith, whole);
            ends = omega (arith, whole, part);
          } in
          scan_blocks-Searched (max_blocks + 1) 0 0 null 0 env.entry_size 0 n none s xs v
            (record {
              ended = λ none_left.
                  no_room path p inode view n 0 divided.entry_size_pos rest
                    (omega (arith, file_ends 0 none_left));
              at_pos = λ some_left. omega arith;
              at_total = λ some_left. omega arith;
              rest = λ some_left. rest;
            })
            (omega arith) (omega arith)
