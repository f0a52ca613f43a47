-- ===== src/Tests/Client.antt =====
-- The theorems on the client library, on paths, seeks and free lists at small inputs.
use model_lib.Prelude.{
  ℕ, ◌≡◌, ◌<◌, ◌⊎◌, refl, none, some, [], ◌∷◌, ◌++◌, ◌+◌, true, false, not, ◌||◌, get_or, length,
}
use model_lib.Prelude.Int.{pos, negsuc, ◌+ℤ◌}
use model_lib.Env.{Env, Bytes}
use model_lib.Machine.{Sys, ok, pure, ◌>>=◌}
use model_lib.Dir.{slash}
use model_lib.FilePath.{split_path, containing_dir}
use model_lib.FilePath.Split.{has_slash, split_path-last_slash}
use model_lib.Lookup.{seek_from}
use model_lib.Lookup.Seek.{seek_from-target}
use model_lib.Boot.{start_state, push_free}
use model_lib.Boot.Free.{member, push_free-listed}
use model_lib.IoLib.{Client, place_file}
use model_lib.IoLib.Table.{Placed, Taken, place_file-Placed}
use model_lib.Tests.{env}

instance abbrev the_env : Env
the_env = env

abbrev state : Sys
unfolding start_state
state = start_state (λ b. []) (λ pid a. 0)

-- descriptors 0 and 2 are taken
abbrev client : Client
client = record {
  opened_ft =
      some (record { i_num = pos 4; pos = pos 7 })
      ∷ none
      ∷ some (record { i_num = pos 5; pos = pos 0 })
      ∷ [];
  cur_i = pos 1;
}

place_file-Placed_example :
    ((place_file (pos 6) client ≡ (negsuc 0, client)) × Taken client.opened_ft 3)
    ⊎ ((fd : ℕ) × Placed (pos 6) client fd)
place_file-Placed_example = place_file-Placed (pos 6) client refl

-- "a/b/c"
abbrev path : Bytes
path = b'a' ∷ b'/' ∷ b'b' ∷ b'/' ∷ b'c' ∷ []

split_path-last_slash_example :
    ((has_slash path ≡ false) × (split_path (path, pos 1) ≡ pure (pos 1, path)))
    ⊎ ((dir : Bytes) × (name : Bytes) × (dir ++ slash ∷ name ≡ path)
        × (has_slash name ≡ false)
        × (0 < length dir)
        × (split_path (path, pos 1) ≡ (do d ← containing_dir dir (pos 1); pure (d, name))))
split_path-last_slash_example = split_path-last_slash path (pos 1) refl

seek_from-target_example : seek_from (pos 10) (negsuc 1) (pos 2) (pos 4) state ≡ ok (pos 8) state
unfolding ◌+ℤ◌
seek_from-target_example = seek_from-target (pos 10) (negsuc 1) (pos 2) (pos 4) state refl refl

push_free-listed_example :
    (s' : Sys) × (push_free 0 (true ∷ false ∷ true ∷ false ∷ []) state ≡ ok tt s')
    × (s' ≡ record state { b_head = s'.b_head; free_b_count = s'.free_b_count })
    × ((b : ℕ)
        → member b s'.b_head
          ≡ (member b state.b_head || not (get_or (true ∷ false ∷ true ∷ false ∷ []) b true)))
    × (s'.free_b_count ≡ state.free_b_count + 2)
push_free-listed_example = push_free-listed (true ∷ false ∷ true ∷ false ∷ []) state
