-- ===== src/Buffer/Ends.antt =====
-- Every access to the caches comes to an end.
use model_lib.Prelude.{ℕ}
use model_lib.Prelude.Int.{ℤ, pos, negsuc}
use model_lib.Env.{Env, Bytes, Ptr, Inode, DirEntry}
use model_lib.Machine.{Sys, read_sector, write_sector}
use model_lib.Machine.Ends.{Ends, ends_ok, ends_fault, ends_rules}
use model_lib.Buffer.{
  read_block, write_block, read_inode, write_inode, read_entry, write_entry, mark_b_dirty,
  mark_i_dirty, evict_b, fetch_b, get_b, evict_i, fetch_i, get_i, inode_num,
}

module _ ⦃env : Env⦄ where
  pub read_block-Ends : (p : Ptr) (off n : ℕ) (s : Sys) → Ends (read_block p off n s)
  unfolding read_block
  read_block-Ends p off n s = search ends_rules

  pub write_block-Ends :
      (p : Ptr) (off : ℕ) (new : Bytes) (s : Sys) → Ends (write_block p off new s)
  unfolding write_block
  write_block-Ends p off new s = search ends_rules

  pub read_inode-Ends : (p : Ptr) (s : Sys) → Ends (read_inode p s)
  unfolding read_inode
  read_inode-Ends p s = search ends_rules

  pub write_inode-Ends : (p : Ptr) (inode : Inode) (s : Sys) → Ends (write_inode p inode s)
  unfolding write_inode
  write_inode-Ends p inode s = search ends_rules

  pub read_entry-Ends : (p : Ptr) (off : ℕ) (s : Sys) → Ends (read_entry p off s)
  unfolding read_entry
  read_entry-Ends p off s = search (ends_rules, read_block-Ends)

  pub write_entry-Ends : (p : Ptr) (off : ℕ) (e : DirEntry) (s : Sys) → Ends (write_entry p off e s)
  unfolding write_entry
  write_entry-Ends p off e s = search write_block-Ends

  pub mark_b_dirty-Ends : (b : ℕ) (s : Sys) → Ends (mark_b_dirty b s)
  unfolding mark_b_dirty
  mark_b_dirty-Ends b s = search ends_rules

  pub mark_i_dirty-Ends : (i : ℕ) (s : Sys) → Ends (mark_i_dirty i s)
  unfolding mark_i_dirty
  mark_i_dirty-Ends i s = search ends_rules

  evict_b-Ends : (s : Sys) → Ends (evict_b s)
  unfolding evict_b write_sector
  evict_b-Ends s = search ends_rules

  fetch_b-Ends : (b : ℕ) (s : Sys) → Ends (fetch_b b s)
  unfolding fetch_b read_sector
  fetch_b-Ends b s = search (ends_rules, evict_b-Ends)

  pub get_b-Ends : (b : ℕ) (s : Sys) → Ends (get_b b s)
  unfolding get_b
  get_b-Ends b s = search (ends_rules, fetch_b-Ends)

  evict_i-Ends : (s : Sys) → Ends (evict_i s)
  unfolding evict_i
  evict_i-Ends s = search (ends_rules, get_b-Ends, write_block-Ends, mark_b_dirty-Ends) depth 8

  fetch_i-Ends : (i : ℕ) (s : Sys) → Ends (fetch_i i s)
  unfolding fetch_i
  fetch_i-Ends i s = search (ends_rules, evict_i-Ends, get_b-Ends, read_block-Ends)

  pub get_i-Ends : (i : ℕ) (s : Sys) → Ends (get_i i s)
  unfolding get_i
  get_i-Ends i s = search (ends_rules, fetch_i-Ends)

  pub inode_num-Ends : (i : ℤ) (s : Sys) → Ends (inode_num i s)
  unfolding inode_num
  inode_num-Ends (pos i) s = ends_ok
  inode_num-Ends (negsuc i) s = search ends_rules

pub ruleset buffer_rules = (
  ends_rules, read_block-Ends, write_block-Ends, read_inode-Ends, write_inode-Ends, read_entry-Ends,
  write_entry-Ends, mark_b_dirty-Ends, mark_i_dirty-Ends, get_b-Ends, get_i-Ends, inode_num-Ends,
)
