-- ===== src/Tests/Names.antt =====
-- The theorems on names, links, transfers of the client and inode slots at small inputs.
use model_lib.Prelude.{ℕ, ◌≡◌, ◌≢◌, ◌≤◌, ◌⊎◌, refl, none, some, [], ◌∷◌, ◌+◌, arith, take}
use model_lib.Prelude.Int.{pos}
use model_lib.Env.{Env, Bytes}
use model_lib.Dir.{slash, name_eq}
use model_lib.Dir.Names.{same, up_to, name_eq-same}
use model_lib.Create.{handle_link}
use model_lib.Create.Link.{handle_link-absolute}
use model_lib.Buffer.{inode_block, inode_offset}
use model_lib.Buffer.Slots.{inode_offset-le}
use model_lib.Server.{yfs_read}
use model_lib.IoLib.{Client, Kernel, transfer}
use model_lib.IoLib.Transfer.{Transferred, answer_of, transfer-Advanced}
use model_lib.Tests.{env}

instance abbrev the_env : Env
the_env = env

-- "ab/c", and the name "ab" in a field of three characters
abbrev path : Bytes
path = b'a' ∷ b'b' ∷ b'/' ∷ b'c' ∷ []

abbrev name : Bytes
name = b'a' ∷ b'b' ∷ 0 ∷ []

name_eq-same_example :
    name_eq 3 path name ≡ same (take 3 (up_to slash path)) (take 3 (up_to 0 name))
name_eq-same_example = name_eq-same 3 path name refl refl

-- "/a" and "b", from the directories 4 and 5
handle_link-absolute_example :
    handle_link (some (b'/' ∷ b'a' ∷ [])) (some (b'b' ∷ [])) (pos 4)
    ≡ handle_link (some (b'/' ∷ b'a' ∷ [])) (some (b'b' ∷ [])) (pos 5)
handle_link-absolute_example =
    handle_link-absolute (b'/' ∷ b'a' ∷ []) (b'b' ∷ []) (pos 4) (pos 5) refl refl refl

-- Inodes 4 and 6 share a block.
abbrev four : ℕ
four = 4

inode_offset-le_example :
    (inode_offset 4 + 8 ≤ 32)
    × (inode_block 4 ≡ inode_block 6
        → four ≢ 6
        → (inode_offset 4 + 8 ≤ inode_offset 6) ⊎ (inode_offset 6 + 8 ≤ inode_offset 4))
inode_offset-le_example = inode_offset-le 4 6 (omega arith) (omega arith)

-- descriptor 1 is open at position 7, and the server answers 3
abbrev client : Client
client = record {
  opened_ft = none ∷ some (record { i_num = pos 4; pos = pos 7 }) ∷ none ∷ [];
  cur_i = pos 1;
}

abbrev kernel : Kernel ℕ
kernel = record { send = λ request n. (some (pos 3), n + 1); memory = λ n a. 0 }

transfer-Advanced_example :
    Transferred client 1
      (answer_of kernel yfs_read 50 (pos 3) 0)
      (transfer kernel yfs_read (pos 1) 50 (pos 3) client 0)
transfer-Advanced_example = transfer-Advanced kernel yfs_read 1 50 (pos 3) client 0 refl
