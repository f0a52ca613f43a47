-- ===== src/Tests/Format.antt =====
-- The disk that mkyfs.c writes for three inodes.
use model_lib.Prelude.{◌≡◌, refl, arith, [], ◌∷◌}
use model_lib.Env.{inode_free}
use model_lib.Buffer.Table.{inode_at}
use model_lib.MkYfs.{format, free_inodes, table_blocks}
use model_lib.MkYfs.Inodes.{inode_at-format}
use model_lib.Tests.Inodes.{small_env, layout, file, folder}

inode_at-format_example :
    inode_at (format 3 file (folder ∷ file ∷ []) []) 3 ≡ record file { type = inode_free }
unfolding free_inodes table_blocks
inode_at-format_example =
    inode_at-format layout 3 file (folder ∷ file ∷ []) [] 2 (record file { type = inode_free }) refl
      (λ h. refl) refl (omega arith) refl refl
