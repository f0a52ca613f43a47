-- ===== src/Tests/Durable.antt =====
-- handle_sync on the caches of Tests/Inodes.
use model_lib.Prelude.{
  some_inj, ◌≡◌, refl, sym, ap, ◌∙◌, inl, inr, Bool-cases, none, some, [], ◌∷◌, true, false, ◌==◌,
  arith,
}
use model_lib.Env.{Inode}
use model_lib.Queue.Seg.{Cell}
use model_lib.Buffer.{handle_sync, inode_block, inode_offset, slice}
use model_lib.Buffer.Table.{inode_at}
use model_lib.Buffer.Inodes.{CleanInodes, IsSettled}
use model_lib.Machine.{read_memory}
use model_lib.Prelude.Int.{pos}
use model_lib.Server.{m_file, yfs_write, m_shutdown, serve}
use model_lib.Server.Saved.{IsSaved, serve-IsSaved}
use model_lib.Buffer.Durable.{IsDurable, handle_sync-IsDurable}
use model_lib.Server.Shutdown.{IsStopped, serve-IsStopped}
use model_lib.Tests.Inodes.{
  small_env, layout, file, folder, state, state-IsSys, file-IsFile, file-IsApart,
}
use model_lib.Tests.Pair.{item_3, item_2}

folder-inode_at : folder ≡ inode_at state.disk 2
unfolding inode_block inode_offset slice
folder-inode_at = refl

state-CleanInodes : CleanInodes (item_3 file ∷ item_2 folder ∷ []) state.disk
state-CleanInodes i c found clean = elim (Bool-cases (3 == i)) [
  | inl e ↦
      let here : item_3 file ≡ c = some_inj (rw e at found) in
      let dirty : true ≡ false = ap (λ (z : Cell Inode). z.dirty) here ∙ clean in
      absurd (ground (arith, dirty))
  | inr e ↦ elim (Bool-cases (2 == i)) [
    | inl e' ↦
        let here : item_2 folder ≡ c = some_inj (rw (e, e') at found) in
        let num : 2 ≡ i = ground arith in
        sym (ap (λ (z : Cell Inode). z.addr) here) ∙ folder-inode_at ∙ ap (inode_at state.disk) num
    | inr e' ↦ let absent : none ≡ some c = rw (e, e') at found in absurd (ground (arith, absent))
  ]
]

handle_sync-IsDurable_example :
    IsDurable 8 state [] (item_3 file ∷ item_2 folder ∷ []) (handle_sync state)
unfolding inode_block
handle_sync-IsDurable_example =
    handle_sync-IsDurable layout 8 (omega arith) (omega arith) state []
      (item_3 file ∷ item_2 folder ∷ []) state-IsSys
      (λ b lt c found. absurd (ground (arith, found))) state-CleanInodes

serve-IsStopped_example : IsStopped 8 state [] (item_3 file ∷ item_2 folder ∷ [])
unfolding inode_block
serve-IsStopped_example =
    serve-IsStopped layout 8 (omega arith) (omega arith) state [] (item_3 file ∷ item_2 folder ∷ [])
      state-IsSys (λ b lt c found. absurd (ground (arith, found))) state-CleanInodes

state-IsSettled : IsSettled state [] (item_3 file ∷ item_2 folder ∷ [])
state-IsSettled = record {
  blocks = λ b c lt found. absurd (ground (arith, found));
  inodes = state-CleanInodes;
}

-- 8 bytes to position 30 of the file, and a shutdown
serve-IsSaved_example :
    IsSaved 8 3 30
      (200 ∷ 201 ∷ 202 ∷ 203 ∷ 204 ∷ 205 ∷ 206 ∷ 207 ∷ [])
      state
      []
      (item_3 file ∷ item_2 folder ∷ [])
      (serve
        (some (1, m_file yfs_write (pos 3) 200 (pos 8) (pos 30)) ∷ some (1, m_shutdown) ∷ [])
        state)
unfolding inode_block read_memory
serve-IsSaved_example =
    serve-IsSaved layout 8 (omega arith) (omega arith) 1 1 3 200 8 30 [] state []
      (item_3 file ∷ item_2 folder ∷ []) state-IsSys state-IsSettled (omega arith) (λ e. refl)
      (omega arith) refl file-IsFile file-IsApart (omega arith) (λ a n le le'. refl)
