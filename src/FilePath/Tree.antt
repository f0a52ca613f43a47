-- ===== src/FilePath/Tree.antt =====
-- The tree of directories as a reader of the disk sees it, and the inode that a path leads to: what
-- get_path_i_num in yfs.c implements.
use model_lib.Prelude.{
  ℕ, ◌+◌, ◌*◌, ◌≤◌, ◌<◌, ◌≡◌, Option, none, some, true, false, length, take, drop, refl, sym, ◌∙◌,
  arith,
}
use model_lib.Env.{Env, Bytes, Inode}
use model_lib.Dir.Entries.{entry_at, directory, find_name}
use model_lib.File.Contents.{IsFile}
use model_lib.FilePath.{is_directory, get_next_path_part, last_slash}

module _ ⦃env : Env⦄ where
  -- the inode number in the entry at a position; 0 without an entry
  abbrev pub inum_at : Inode → (ℕ → Bytes) → Option ℕ → ℕ
  inum_at inode view none = 0
  inum_at inode view (some pos) = (entry_at inode view pos).inum

  -- the inode number that a directory has for the first part of a path
  abbrev pub lookup : Inode → (ℕ → Bytes) → Bytes → ℕ
  lookup inode view path = inum_at inode view (find_name path (directory inode view))

  -- The blocks of every directory lie on the disk, and its entries have numbers of the table of inodes.
  pub record IsTree (last : ℕ) (files : ℕ → Inode) (view : ℕ → Bytes) : Type 0 where
    pub stored :
        (i : ℕ) → i ≤ last → is_directory (files i).type ≡ true → IsFile last (files i) view
    pub linked :
        (i k : ℕ)
        → i ≤ last
        → is_directory (files i).type ≡ true
        → k * env.entry_size + env.entry_size ≤ (files i).size
        → (entry_at (files i) view (k * env.entry_size)).inum ≤ last

  -- `Leads files view path i r`: from inode `i`, the path leads to inode `r`, which is 0 where a part
  -- before the last one is no directory.
  pub data Leads (files : ℕ → Inode) (view : ℕ → Bytes) : Bytes → ℕ → ℕ → Type 0 where
    blocked :
        (path : Bytes) (i : ℕ) → is_directory (files i).type ≡ false → Leads files view path i 0
    arrives :
        (path : Bytes) (i r : ℕ)
        → is_directory (files i).type ≡ true
        → length (get_next_path_part path) ≡ 0
        → r ≡ lookup (files i) view path
        → Leads files view path i r
    enters :
        (path : Bytes) (i next r : ℕ)
        → is_directory (files i).type ≡ true
        → 0 < length (get_next_path_part path)
        → next ≡ lookup (files i) view path
        → Leads files view (get_next_path_part path) next r
        → Leads files view path i r

  -- `IsParent files view path i n name`: from inode `i`, the part of the path before its last slash leads
  -- to inode `n`, and `name` is behind it.
  pub data IsParent (files : ℕ → Inode) (view : ℕ → Bytes) (path : Bytes) (i n : ℕ) (name : Bytes)
      : Type 0 where
    here : last_slash 0 0 path ≡ 0 → n ≡ i → name ≡ path → IsParent files view path i n name
    above :
        0 < last_slash 0 0 path
        → Leads files view (take (last_slash 0 0 path) path) i n
        → name ≡ drop (last_slash 0 0 path + 1) path
        → IsParent files view path i n name

  -- a path leads to one inode only
  pub Leads-unique :
      (files : ℕ → Inode) (view : ℕ → Bytes) {path : Bytes} {i r r' : ℕ}
      → Leads files view path i r
      → Leads files view path i r'
      → r ≡ r'
  Leads-unique files view (blocked _ _ h) (blocked _ _ h') = refl
  Leads-unique files view (blocked _ _ h) (arrives _ _ _ d e at) = absurd (cc)
  Leads-unique files view (blocked _ _ h) (enters _ _ _ _ d m at l) = absurd (cc)
  Leads-unique files view (arrives _ _ _ d e at) (blocked _ _ h) = absurd (cc)
  Leads-unique files view (arrives _ _ _ d e at) (arrives _ _ _ d' e' at') = at ∙ sym at'
  Leads-unique files view (arrives _ _ _ d e at) (enters _ _ _ _ d' m at' l) =
      absurd (omega (arith, e, m))
  Leads-unique files view (enters _ _ _ _ d m at l) (blocked _ _ h) = absurd (cc)
  Leads-unique files view (enters _ _ _ _ d m at l) (arrives _ _ _ d' e at') =
      absurd (omega (arith, e, m))
  Leads-unique files view (enters _ _ next r d m at l) (enters _ _ next' r' d' m' at' l') =
      Leads-unique files view l (rw (at' ∙ sym at) at l')
