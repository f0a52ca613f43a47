-- ===== src/Tests/Reads.antt =====
-- The loop of main on Read messages of two processes, at the state of Tests/Inodes.
use model_lib.Prelude.{ℕ, ◌∷◌, [], refl, arith}
use model_lib.Env.{Inode}
use model_lib.Buffer.{inode_block}
use model_lib.Buffer.Inodes.{inode_content}
use model_lib.FilePath.First.{Tells}
use model_lib.Server.Reads.{Reading, Served, serve-Served}
use model_lib.Tests.Inodes.{small_env, layout, file, folder, state, state-IsSys, file-IsFile}
use model_lib.Tests.Pair.{item_3, item_2}

abbrev files : ℕ → Inode
files = inode_content [] state.disk (item_3 file ∷ item_2 folder ∷ [])

abbrev first_reading : Reading
first_reading = record { pid = 1; i = 3; buf = 100; size = 20; off = 30 }

abbrev second_reading : Reading
second_reading = record { pid = 2; i = 3; buf = 300; size = 4; off = 0 }

state-Tells : Tells 8 files state.disk state [] (item_3 file ∷ item_2 folder ∷ [])
state-Tells = record {
  valid = state-IsSys;
  warm = λ e. refl;
  inodes = λ i le. refl;
  blocks = λ b behind lt. refl;
}

serve-Served_example :
    Served 8 files state.disk
      (first_reading ∷ second_reading ∷ [])
      state
      []
      (item_3 file ∷ item_2 folder ∷ [])
unfolding inode_block
serve-Served_example =
    serve-Served layout 8 (omega arith) (omega arith) (omega arith) refl files state.disk
      (first_reading ∷ second_reading ∷ []) state [] (item_3 file ∷ item_2 folder ∷ []) state-Tells
      (
        record {
          le = omega arith;
          file = file-IsFile;
          inside = omega arith;
          small = omega arith;
          allowed = λ a n le le'. refl;
        },
        (
          record {
            le = omega arith;
            file = file-IsFile;
            inside = omega arith;
            small = omega arith;
            allowed = λ a n le le'. refl;
          },
          tt,
        ),
      )
