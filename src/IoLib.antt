-- ===== src/IoLib.antt =====
-- The client library, iolib.c: the table of open files of a process, and the requests that its
-- procedures send to the server. Allocations succeed.
pub mod Table
pub mod Transfer
use model_lib.Prelude.{
  ℕ, zero, suc, ◌+◌, Option, none, some, List, [], ◌∷◌, Bool, ◌==◌, ◌||◌, not, leb, if◌then◌else◌,
  get_elem?, set, replicate,
}
use model_lib.Prelude.Int.{ℤ, pos, negsuc, ltb_ℤ, leb_ℤ, eqb_ℤ, ◌+ℤ◌}
use model_lib.Env.{Env, Ptr, null}
use model_lib.Machine.{is_int}
use model_lib.Server.{
  PathOp, yfs_open, yfs_create, yfs_unlink, yfs_mkdir, yfs_rmdir, yfs_chdir, FileOp, yfs_read,
  yfs_write, Request, m_path, m_file, m_seek, m_link, m_stat, m_sync, m_shutdown,
}

-- `struct opened_file`
pub record OpenedFile : Type 0 where
  pub i_num : ℤ
  pub pos : ℤ

-- `opened_ft`, with `none` for NULL, and the current directory `cur_i`
pub record Client : Type 0 where
  pub opened_ft : List (Option OpenedFile)
  pub cur_i : ℤ

-- The kernel and all that is behind it, as a process sees it: `send` is Send to the server, which
-- gives the reply's code, or `none` if it fails; `memory` is the memory of the process.
pub record Kernel (S : Type 0) : Type 0 where
  pub send : Request → S → Option ℤ × S
  pub memory : S → Ptr → ℕ

-- the first index that holds `none`
unfoldable pub first_free : List (Option OpenedFile) → Option ℕ
first_free [] = none
first_free (none ∷ files) = some 0
first_free (some file ∷ files) = elim (first_free files) [ none ↦ none | some fd ↦ some (suc fd) ]

-- the characters before the first NUL, at most `n`
unfoldable pub string_length : ℕ → (Ptr → ℕ) → Ptr → ℕ
string_length zero mem a = 0
string_length (suc n) mem a =
    let rest = string_length n mem (a + 1) in if mem a == 0 then 0 else suc rest

module _ ⦃env : Env⦄ where
  unfoldable pub start_client : Client
  start_client = record {
    opened_ft = replicate env.max_open_files none;
    cur_i = pos env.root_inode;
  }

  -- `none` is ERROR
  unfoldable pub get_path_len : (Ptr → ℕ) → Ptr → Option ℕ
  get_path_len mem pathname =
      let i = string_length env.max_path_name_len mem pathname in
      if pathname == null || i == 0 || i == env.max_path_name_len then none else some (i + 1)

  -- `opened_ft[fd]`; `none` outside the table and for NULL
  unfoldable pub file_at : Client → ℤ → Option OpenedFile
  file_at c (negsuc n) = none
  file_at c (pos fd) =
      if leb env.max_open_files fd
      then none
      else elim (get_elem? c.opened_ft fd) [ none ↦ none | some file ↦ file ]

  unfoldable pub set_file : ℤ → Option OpenedFile → Client → Client
  set_file (negsuc n) file c = c
  set_file (pos fd) file c = record c { opened_ft = set c.opened_ft fd file }

  -- the loop of Open and Create over the table
  unfoldable pub place_file : ℤ → Client → ℤ × Client
  place_file i_num c = elim (first_free c.opened_ft) [
    | none ↦ (env.error, c)
    | some fd ↦ (
      pos fd,
      record c { opened_ft = set c.opened_ft fd (some (record { i_num = i_num; pos = pos 0 })) },
    )
  ]

  unfoldable pub close : ℤ → Client → ℤ × Client
  close fd c = elim (file_at c fd) [
    | none ↦ (env.error, c)
    | some file ↦ (pos 0, set_file fd none c)
  ]

module _ {S : Type 0} (kernel : Kernel S) ⦃env : Env⦄ where
  -- a procedure of the library: its result, the client and the rest of the system
  abbrev pub Call : Type 0
  Call = Client → S → ℤ × Client × S

  unfoldable pub reply : Option ℤ → ℤ
  reply none = env.error
  reply (some code) = code

  unfoldable pub send_request : Request → S → ℤ × S
  send_request request s = let (code, s') = kernel.send request s in (reply code, s')

  unfoldable pub send_path_m : PathOp → Ptr → Client → S → ℤ × S
  send_path_m op pathname c s = elim (get_path_len (kernel.memory s) pathname) [
    | none ↦ (env.error, s)
    | some len ↦ send_request (m_path op c.cur_i pathname (pos len)) s
  ]

  unfoldable pub send_file_m : FileOp → (i_num : ℤ) → Ptr → (size offset : ℤ) → S → ℤ × S
  send_file_m op i_num buf size offset s =
      if ltb_ℤ size (pos 0) || buf == null
      then (env.error, s)
      else send_request (m_file op i_num buf size offset) s

  -- Open and Create behind their message
  unfoldable pub opened : ℤ × S → Client → ℤ × Client × S
  opened (i_num, s) c =
      if eqb_ℤ i_num env.error
      then (env.error, c, s)
      else let (fd, c') = place_file i_num c in (fd, c', s)

  unfoldable pub open_file : Ptr → Call
  open_file pathname c s = opened (send_path_m yfs_open pathname c s) c

  unfoldable pub create_file : Ptr → Call
  create_file pathname c s = opened (send_path_m yfs_create pathname c s) c

  -- Read and Write behind their message. `none` is the overflow of `file->pos += bytes`, an int,
  -- which C leaves undefined.
  unfoldable pub advance : ℤ → OpenedFile → ℤ × S → Client → Option (ℤ × Client × S)
  advance fd file (bytes, s) c =
      if eqb_ℤ bytes env.error
      then some (env.error, c, s)
      else if is_int (file.pos +ℤ bytes)
      then some (bytes, set_file fd (some (record file { pos = file.pos +ℤ bytes })) c, s)
      else none

  unfoldable pub transfer :
      FileOp → (fd : ℤ) → Ptr → (size : ℤ) → Client → S → Option (ℤ × Client × S)
  transfer op fd buf size c s = elim (file_at c fd) [
    | none ↦ some (env.error, c, s)
    | some file ↦ advance fd file (send_file_m op file.i_num buf size file.pos s) c
  ]

  unfoldable pub read : (fd : ℤ) → Ptr → (size : ℤ) → Client → S → Option (ℤ × Client × S)
  unfolding transfer
  read = transfer yfs_read

  unfoldable pub write : (fd : ℤ) → Ptr → (size : ℤ) → Client → S → Option (ℤ × Client × S)
  unfolding transfer
  write = transfer yfs_write

  unfoldable pub is_whence : ℤ → Bool
  is_whence whence =
      eqb_ℤ whence env.seek_set || eqb_ℤ whence env.seek_cur || eqb_ℤ whence env.seek_end

  unfoldable pub move_to : ℤ → OpenedFile → ℤ × S → Client → ℤ × Client × S
  move_to fd file (p, s) c =
      if eqb_ℤ p env.error
      then (env.error, c, s)
      else (p, set_file fd (some (record file { pos = p })) c, s)

  unfoldable pub seek : (fd offset whence : ℤ) → Call
  seek fd offset whence c s = elim (file_at c fd) [
    | none ↦ (env.error, c, s)
    | some file ↦
        if not (is_whence whence) || leb_ℤ file.i_num (pos 0)
        then (env.error, c, s)
        else move_to fd file (send_request (m_seek file.i_num offset whence file.pos) s) c
  ]

  unfoldable pub link : (old_name new_name : Ptr) → Call
  link old_name new_name c s = elim (get_path_len (kernel.memory s) old_name) [
    | none ↦ (env.error, c, s)
    | some old_len ↦ elim (get_path_len (kernel.memory s) new_name) [
      | none ↦ (env.error, c, s)
      | some new_len ↦
          let (code, s') =
            send_request (m_link c.cur_i old_name new_name (pos old_len) (pos new_len)) s in
          (code, c, s')
    ]
  ]

  unfoldable pub on_name : PathOp → Ptr → Call
  on_name op pathname c s = let (code, s') = send_path_m op pathname c s in (code, c, s')

  unfoldable pub unlink : Ptr → Call
  unfolding on_name
  unlink = on_name yfs_unlink

  unfoldable pub mk_dir : Ptr → Call
  unfolding on_name
  mk_dir = on_name yfs_mkdir

  unfoldable pub rm_dir : Ptr → Call
  unfolding on_name
  rm_dir = on_name yfs_rmdir

  unfoldable pub enter : ℤ × S → Client → ℤ × Client × S
  enter (i_num, s) c =
      if eqb_ℤ i_num env.error then (env.error, c, s) else (pos 0, record c { cur_i = i_num }, s)

  unfoldable pub ch_dir : Ptr → Call
  ch_dir pathname c s = enter (send_path_m yfs_chdir pathname c s) c

  unfoldable pub stat : Ptr → (stat_buffer : Ptr) → Call
  stat pathname stat_buffer c s =
      if stat_buffer == null
      then (env.error, c, s)
      else elim (get_path_len (kernel.memory s) pathname) [
        | none ↦ (env.error, c, s)
        | some len ↦
            let (code, s') = send_request (m_stat c.cur_i pathname (pos len) stat_buffer) s in
            (code, c, s')
      ]

  unfoldable pub sync : Call
  sync c s = let (code, s') = send_request m_sync s in (code, c, s')

  -- the reply's code is not read
  unfoldable pub shutdown : Call
  shutdown c s =
      let (sent, s') = kernel.send m_shutdown s in
      (elim sent [ none ↦ env.error | some code ↦ pos 0 ], c, s')
