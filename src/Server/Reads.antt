-- ===== src/Server/Reads.antt =====
-- A sequence of Read messages, of one process or of several, in the loop of main.
use mathlib.Core.Path.{fun_ext}
use model_lib.Prelude.{ℕ, ◌≤◌, ◌<◌, ◌≡◌, refl, sym, ap, ◌∙◌, some, List, [], ◌∷◌, ◌++◌, map, arith}
use model_lib.Prelude.Int.{ℤ, pos, negsuc}
use model_lib.Env.{Env, Bytes, Ptr, Inode, IsLayout}
use model_lib.Queue.Seg.{Cell}
use model_lib.Machine.{
  Sys, Run, ok, exited, fault, out_of_fuel, pure, and_then, int_limit, write_memory, ◌>>=◌,
}
use model_lib.Buffer.{inode_block}
use model_lib.Buffer.Evict.{content}
use model_lib.Buffer.Inodes.{inode_content, IsSettled}
use model_lib.File.Contents.{bytes_from, bytes_from_same, IsFile, IsFile-same}
use model_lib.FilePath.First.{Tells}
use model_lib.Server.{Received, m_file, yfs_read, handle, serve}
use model_lib.Transfer.{handle_read}
use model_lib.Transfer.Copy.{Writable}
use model_lib.Transfer.ReadFile.{HasRead, count}
use model_lib.Transfer.HandleRead.{handle_read-HasRead}

-- two results, one after the other
and_then-pure :
    {A B C : Type 0} (run : Run A) (f : A → B) (g : B → C)
    → and_then (and_then run (λ a. pure (f a))) (λ b. pure (g b))
      ≡ and_then run (λ a. pure (g (f a)))
and_then-pure (ok a s) f g = refl
and_then-pure (exited n s) f g = refl
and_then-pure fault f g = refl
and_then-pure out_of_fuel f g = refl

and_then_self : {A : Type 0} (run : Run A) → and_then run (λ a. pure a) ≡ run
and_then_self (ok a s) = refl
and_then_self (exited n s) = refl
and_then_self fault = refl
and_then_self out_of_fuel = refl

-- a Read message and its sender
pub record Reading : Type 0 where
  pub pid : ℕ
  pub i : ℕ
  pub buf : Ptr
  pub size : ℕ
  pub off : ℕ

module _ ⦃env : Env⦄ where
  abbrev pub message : Reading → Received
  message r = some (r.pid, m_file yfs_read (pos r.i) r.buf (pos r.size) (pos r.off))

  -- the file may be read, and the process written
  pub record IsReadable (last : ℕ) (files : ℕ → Inode) (view : ℕ → Bytes) (r : Reading)
      : Type 0 where
    pub le : r.i ≤ last
    pub file : IsFile last (files r.i) view
    pub inside : r.off ≤ (files r.i).size
    pub small : (files r.i).size < int_limit
    pub allowed : Writable r.pid r.buf (count (files r.i) r.size r.off)

  abbrev pub AreReadable : ℕ → (ℕ → Inode) → (ℕ → Bytes) → List Reading → Type 0
  AreReadable last files view [] = Unit
  AreReadable last files view (r ∷ rs) =
      IsReadable last files view r × AreReadable last files view rs

  abbrev pub answers : (ℕ → Inode) → List Reading → List (ℕ × ℤ)
  answers files [] = []
  answers files (r ∷ rs) = (r.pid, pos (count (files r.i) r.size r.off)) ∷ answers files rs

  -- the memories with the bytes of the files, one message after the other
  abbrev pub memory : (ℕ → Inode) → (ℕ → Bytes) → List Reading → (ℕ → Ptr → ℕ) → ℕ → Ptr → ℕ
  memory files view [] user = user
  memory files view (r ∷ rs) user = memory files view rs (
      write_memory user r.pid r.buf
        (bytes_from (files r.i) view r.off (count (files r.i) r.size r.off)))

  -- The loop answered the messages, whatever comes later, and no file changed.
  pub record Served (last : ℕ) (files : ℕ → Inode) (view : ℕ → Bytes) (rs : List Reading) (s : Sys)
      (bs : List (Cell Bytes)) (is : List (Cell Inode)) : Type 0 where
    pub state : Sys
    pub cells : List (Cell Bytes)
    pub items : List (Cell Inode)
    pub runs :
        (later : List Received)
        → serve (map message rs ++ later) s
          ≡ and_then (serve later state) (λ replies. pure (answers files rs ++ replies))
    pub tells : Tells last files view state cells items
    pub settled : IsSettled s bs is → IsSettled state cells items
    pub user : state.user ≡ memory files view rs s.user
    pub others : state ≡ record s {
      blocks = state.blocks;
      inodes = state.inodes;
      disk = state.disk;
      user = state.user;
    }

  -- one message
  record Answered (last : ℕ) (files : ℕ → Inode) (view : ℕ → Bytes) (r : Reading) (s : Sys)
      (bs : List (Cell Bytes)) (is : List (Cell Inode)) : Type 0 where
    state : Sys
    cells : List (Cell Bytes)
    items : List (Cell Inode)
    returns :
        handle_read (pos r.i) r.buf (pos r.size) (pos r.off) r.pid s
        ≡ ok (pos (count (files r.i) r.size r.off)) state
    tells : Tells last files view state cells items
    settled : IsSettled s bs is → IsSettled state cells items
    user :
        state.user
        ≡ write_memory s.user r.pid r.buf
            (bytes_from (files r.i) view r.off (count (files r.i) r.size r.off))
    others : state ≡ record s {
      blocks = state.blocks;
      inodes = state.inodes;
      disk = state.disk;
      user = state.user;
    }

  module _ (layout : IsLayout env) (last : ℕ) (table : inode_block last < env.num_sectors)
      (pos_cache : 0 < env.block_cache_size) (two : 1 < env.inode_cache_size)
      (code : env.error ≡ negsuc 0) (files : ℕ → Inode) (view : ℕ → Bytes) where
    HasRead-Answered :
        (r : Reading) (s : Sys) (bs : List (Cell Bytes)) (is : List (Cell Inode)) (inode : Inode)
        → Tells last files view s bs is
        → IsReadable last files view r
        → inode ≡ files r.i
        → HasRead last r.pid r.buf
            (bytes_from inode (content bs s.disk) r.off (count inode r.size r.off))
            s
            bs
            is
            (pos (count inode r.size r.off))
            (handle_read (pos r.i) r.buf (pos r.size) (pos r.off) r.pid s)
        → Answered last files view r s bs is
    HasRead-Answered r s bs is inode t ok_r same h =
        let inode₁ = files r.i in
        let n = count inode₁ r.size r.off in
        let view₁ = content bs s.disk in
        let bytes : bytes_from inode view₁ r.off (count inode r.size r.off)
            ≡ bytes_from inode₁ view r.off n =
          ap (λ (z : Inode). bytes_from z view₁ r.off (count z r.size r.off)) same
          ∙ sym (
              bytes_from_same last inode₁ view view₁ (λ b behind lt. sym (t.blocks b behind lt))
                ok_r.file r.off n (let le = ok_r.inside in ground (arith, le))) in
        record {
          state = h.state;
          cells = h.cells;
          items = h.items;
          returns = h.returns ∙ ap (λ (z : Inode). ok (pos (count z r.size r.off)) h.state) same;
          tells = record {
            valid = h.valid;
            warm = h.warm t.warm;
            inodes = λ i le. h.same.inodes i le ∙ t.inodes i le;
            blocks = λ b behind lt. h.same.blocks b behind lt ∙ t.blocks b behind lt;
          };
          settled = h.settled;
          user =
              fun_ext (λ q. fun_ext (λ a. h.user q a))
              ∙ ap (λ (z : Bytes). write_memory s.user r.pid r.buf z) bytes;
          others = h.others;
        }

    read-Answered :
        (r : Reading) (s : Sys) (bs : List (Cell Bytes)) (is : List (Cell Inode))
        → Tells last files view s bs is
        → IsReadable last files view r
        → Answered last files view r s bs is
    read-Answered r s bs is t ok_r =
        let same = t.inodes r.i ok_r.le in
        let file =
          IsFile-same last (files r.i) view (content bs s.disk)
            (λ b behind lt. sym (t.blocks b behind lt)) ok_r.file in
        HasRead-Answered r s bs is (inode_content bs s.disk is r.i) t ok_r same (
          handle_read-HasRead layout last table pos_cache r.pid r.i r.buf r.size r.off s bs is
            t.valid ok_r.le t.warm two code (rw same file) (rw same ok_r.inside)
            (rw same ok_r.small) (rw same ok_r.allowed))

    -- Take caches that are well formed and within their sizes, with room for two inodes or more,
    -- and a list of Read messages, of one process or of several, each for an inode of the table
    -- whose file has its blocks behind the table, for a place within its size, which is an int,
    -- and with memory that may be written. The loop of main answers them in their order, each with
    -- the number of bytes that its file has from the place on, and at most as many as were asked
    -- for, and goes on with whatever comes later. Then the memories hold the bytes of the files,
    -- copied in the order of the messages, and no other memory is changed; the files are the same,
    -- and the caches stay well formed and within their sizes. What is not dirty stays what is on
    -- the disk, or in the block of the inode. ERROR is -1; if the inode cache is empty, malloc has
    -- to leave NULL in next_c_item.
    pub serve-Served :
        (rs : List Reading) (s : Sys) (bs : List (Cell Bytes)) (is : List (Cell Inode))
        → Tells last files view s bs is
        → AreReadable last files view rs
        → Served last files view rs s bs is
    unfolding serve handle
    serve-Served [] s bs is t ok_rs = record {
      state = s;
      cells = bs;
      items = is;
      runs = λ later. sym (and_then_self (serve later s));
      tells = t;
      settled = λ on_disk. on_disk;
      user = refl;
      others = refl;
    }
    serve-Served (r ∷ rs) s bs is t ok_rs =
        let a = read-Answered r s bs is t ok_rs.0 in
        let w = serve-Served rs a.state a.cells a.items a.tells ok_rs.1 in
        let reply : ℕ × ℤ = (r.pid, pos (count (files r.i) r.size r.off)) in
        record {
          state = w.state;
          cells = w.cells;
          items = w.items;
          runs = λ later.
              rw (a.returns, w.runs later, serve, handle, ◌>>=◌)
                (and_then-pure (serve later w.state) (λ z. answers files rs ++ z) (λ z. reply ∷ z));
          tells = w.tells;
          settled = λ on_disk. w.settled (a.settled on_disk);
          user = w.user ∙ ap (memory files view rs) a.user;
          others =
              w.others
              ∙ ap {A = Sys}
                  (λ z. record z {
                    blocks = w.state.blocks;
                    inodes = w.state.inodes;
                    disk = w.state.disk;
                    user = w.state.user;
                  })
                  a.others;
        }
