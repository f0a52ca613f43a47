-- ===== src/FilePath.antt =====
-- Path names in yfs.c: get_proc_path, isPathnameValid, get_next_path_part, get_path_i_num and
-- get_super_dir.
pub mod Parts
pub mod Split
pub mod Ends
pub mod Tree
pub mod Entry
pub mod First
pub mod Walk
pub mod Super
use model_lib.Prelude.{
  ℕ, zero, suc, ◌+◌, Option, none, some, [], ◌∷◌, Bool, true, false, ◌==◌, leb, not, if◌then◌else◌,
  length, take, drop,
}
use model_lib.Prelude.Int.{ℤ, pos, negsuc}
use model_lib.Env.{
  Env, Bytes, Ptr, InodeType, inode_free, inode_directory, inode_regular, inode_other,
}
use model_lib.Machine.{M, out_of_fuel, pure, ◌>>=◌, ◌>>◌, crash, copy_from}
use model_lib.Buffer.{read_inode, read_entry, get_b, get_i, inode_num}
use model_lib.Dir.{head_char, slash, get_dir_entry}

-- the characters before the first NUL; `none` if a buffer has no NUL, so that every reader of the
-- string runs past its end
unfoldable pub c_string : Bytes → Option Bytes
c_string [] = none
c_string (c ∷ cs) =
    let rest = c_string cs in
    if c == 0 then some [] else elim rest [ none ↦ none | some t ↦ some (c ∷ t) ]

abbrev pub or_crash : Bool → Option Bytes → M (Option Bytes)
or_crash unread none = if unread then pure none else crash
or_crash unread (some t) = pure (some t)

-- The string that was copied; `none` is NULL. Of a buffer without NUL, a handler that returns ERROR
-- before it reads the string does what it does with NULL. Another one is taken to fault at once,
-- though it may stop at a name that it does not find: get_path_len counts the NUL into the length.
unfoldable pub read_text : (unread : Bool) → Option Bytes → M (Option Bytes)
read_text unread none = pure none
read_text unread (some bytes) = or_crash unread (c_string bytes)

-- malloc of a negative number of bytes, which is a `size_t` larger than any object, returns NULL
unfoldable pub get_proc_path : ⦃env : Env⦄ → (pid : ℕ) → Ptr → (len : ℤ) → M (Option Bytes)
get_proc_path pid pathname (negsuc n) = pure none
get_proc_path pid pathname (pos len) = copy_from pid pathname len

-- `while (pathname[0] == '/') pathname++`
unfoldable pub skip_slashes : Bytes → Bytes
skip_slashes [] = []
skip_slashes (c ∷ cs) = let rest = skip_slashes cs in if c == slash then rest else c ∷ cs

-- `while (*path != '/' && *path != '\0') path++`
unfoldable pub skip_name : Bytes → Bytes
skip_name [] = []
skip_name (c ∷ cs) = let rest = skip_name cs in if c == slash then c ∷ cs else rest

unfoldable pub get_next_path_part : Bytes → Bytes
unfolding skip_slashes skip_name
get_next_path_part path = skip_slashes (skip_name path)

-- whether the second loop of isPathnameValid returns false: a '/' stands before the NUL
unfoldable pub ends_in_slash : Bytes → Bool
ends_in_slash [] = false
ends_in_slash (c ∷ []) = c == slash
ends_in_slash (c ∷ d ∷ cs) = ends_in_slash (d ∷ cs)

-- The index of the last '/' behind the first character, or 0: `i` is the index of the list's head.
unfoldable pub last_slash : ℕ → ℕ → Bytes → ℕ
last_slash idx i [] = idx
last_slash idx i (c ∷ cs) = last_slash (if c == slash then i else idx) (i + 1) cs

abbrev pub is_directory : InodeType → Bool
is_directory inode_free = false
is_directory inode_directory = true
is_directory inode_regular = false
is_directory (inode_other _) = false

abbrev pub is_regular : InodeType → Bool
is_regular inode_free = false
is_regular inode_directory = false
is_regular inode_regular = true
is_regular (inode_other _) = false

module _ ⦃env : Env⦄ where
  -- The test `i + 1 > MAXPATHNAMELEN` of the source is false whenever it is reached.
  unfoldable pub is_pathname_valid : Option Bytes → Bool
  is_pathname_valid none = false
  is_pathname_valid (some pathname) =
      if leb env.max_path_name_len (length pathname) then false else not (ends_in_slash pathname)

  -- the inode number in an entry that get_dir_entry found; 0 if it found none
  unfoldable pub entry_inum : Option ℕ × ℕ → M ℕ
  entry_inum (none, b_num) = pure 0
  entry_inum (some offset, b_num) = do b ← get_b b_num; e ← read_entry b offset; pure e.inum

  -- The recursion ends with the path: its length is fuel enough, see FilePath/Parts.
  unfoldable pub walk : ℕ → Bytes → ℕ → M ℕ
  walk zero path start_i = λ s. out_of_fuel
  walk (suc fuel) path start_i = do
    p ← get_i start_i
    inode ← read_inode p
    if not (is_directory inode.type) then pure 0 else do
      found ← get_dir_entry path start_i false
      next_i_num ← entry_inum found
      let p_next = get_next_path_part path
      let rest = walk fuel p_next next_i_num
      if length p_next == 0 then (do get_i next_i_num; pure next_i_num) else rest

  unfoldable pub get_path_i_num : Bytes → ℕ → M ℕ
  get_path_i_num path start_i = walk (length path + 1) path start_i

  -- `if (pathname[0] == '/') { skip the slashes; curr_i = ROOTINODE; }`
  unfoldable pub from_root : Bytes → ℤ → Bytes × ℤ
  from_root pathname curr_i =
      if head_char pathname == slash
      then (skip_slashes pathname, pos env.root_inode)
      else (pathname, curr_i)

  -- the directory before the last slash; 0 is turned into ERROR
  unfoldable pub containing_dir : Bytes → ℤ → M ℤ
  containing_dir path curr_i = do
    i_num ← inode_num curr_i
    dir_i_num ← get_path_i_num path i_num
    pure (if dir_i_num == 0 then env.error else pos dir_i_num)

  -- the part of get_super_dir behind the leading slashes; `*file_ptr` is the second result
  unfoldable pub split_path : Bytes × ℤ → M (ℤ × Bytes)
  split_path (pathname, curr_i) =
      let idx = last_slash 0 0 pathname in
      if idx == 0 then pure (curr_i, pathname) else do
        dir_i_num ← containing_dir (take idx pathname) curr_i
        pure (dir_i_num, drop (idx + 1) pathname)

  -- For a path that is too long `*file_ptr` is left as it was, which is modelled by the empty name.
  unfoldable pub get_super_dir : Bytes → ℤ → M (ℤ × Bytes)
  get_super_dir pathname curr_i =
      if leb env.max_path_name_len (length pathname)
      then pure (env.error, [])
      else split_path (from_root pathname curr_i)
