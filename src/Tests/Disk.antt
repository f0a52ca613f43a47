-- ===== src/Tests/Disk.antt =====
-- Runs of the server on a disk that the formatter wrote.
mod Processes
use model_lib.Prelude.{
  ℕ, ◌-◌, ◌≢◌, get_or, ◌≡◌, refl, arith, [], ◌∷◌, replicate, none, some, List, Option, true,
}
use model_lib.Prelude.Int.{ℤ, pos}
use model_lib.Env.{Env, Bytes, Ptr, Inode, inode_free}
use model_lib.Machine.{◌>>◌, Sys, Run, ok, exited, fault, out_of_fuel, ◌>>◌}
use model_lib.HashTable
use model_lib.Queue
use model_lib.Cache
use model_lib.Machine
use model_lib.Buffer
use model_lib.File
use model_lib.Dir
use model_lib.FilePath
use model_lib.Lookup
use model_lib.Transfer
use model_lib.Create
use model_lib.Folders
use model_lib.Boot
use model_lib.Server
use model_lib.MkYfs
use model_lib.MkYfs.{format}
use model_lib.Prelude.Int
use model_lib.Boot.{start_state}
use model_lib.Server.{
  serve, init, handle, m_path, m_file, yfs_open, yfs_create, yfs_read, yfs_write, yfs_mkdir,
}
use model_lib.Server.Ends.{handle-ne-out_of_fuel}
use model_lib.Tests.{env}

instance abbrev pub the_env : Env
the_env = env

-- what malloc left in the table of inodes
abbrev stale : Inode
stale = record {
  type = inode_free;
  nlink = pos 0;
  reuse = 0;
  size = 0;
  direct = 0 ∷ 0 ∷ [];
  indirect = 0;
}

-- the disk as the formatter leaves it
pub disk : ℕ → Bytes
unfolding format
disk =
    format 5 stale (replicate 4 stale)
      (0 ∷ 0 ∷ 0 ∷ 0 ∷ 0 ∷ 0 ∷ 0 ∷ 0 ∷ 0 ∷ 0 ∷ 0 ∷ 0 ∷ 0 ∷ 0 ∷ 0 ∷ 0 ∷ [])

-- the memory of a process: "/a" at 10, "/d" at 13, "/d/b" at 16, three numbers at 21
abbrev pub memory : ℕ → Ptr → ℕ
memory pid a =
    get_or (b'/' ∷ b'a' ∷ 0 ∷ b'/' ∷ b'd' ∷ 0 ∷ b'/' ∷ b'd' ∷ b'/' ∷ b'b' ∷ 0 ∷ 7 ∷ 8 ∷ 9 ∷ [])
      (a - 10) 0

abbrev pub state : Sys
unfolding start_state
state = start_state disk memory

-- the replies, and three numbers of the process's memory after them
abbrev outcome : Run (List (ℕ × ℤ)) → Option (List (ℕ × ℤ) × Bytes)
outcome (ok r s) = some (r, s.user 1 60 ∷ s.user 1 61 ∷ s.user 1 62 ∷ [])
outcome (exited n s) = none
outcome fault = none
outcome out_of_fuel = none

-- The formatter, the server's start, and six requests: a file /a, a directory /d, a file /d/b that is
-- opened, three numbers written to /a and read back. The first inode that is given out is 7, although
-- the header counts 5: make_free_lists looks at all inodes of a block. Then, from the start, a write to
-- the root directory.
session :
    (outcome (
        (init true
            >> serve (
                some (1, m_path yfs_create (pos 1) 10 (pos 3))
                ∷ some (1, m_path yfs_mkdir (pos 1) 13 (pos 3))
                ∷ some (1, m_path yfs_create (pos 1) 16 (pos 5))
                ∷ some (1, m_path yfs_open (pos 1) 16 (pos 5))
                ∷ some (1, m_file yfs_write (pos 7) 21 (pos 3) (pos 0))
                ∷ some (1, m_file yfs_read (pos 7) 60 (pos 3) (pos 0))
                ∷ []))
          state)
      ≡ some (
        (1, pos 7) ∷ (1, pos 0) ∷ (1, pos 5) ∷ (1, pos 5) ∷ (1, pos 3) ∷ (1, pos 3) ∷ [],
        7 ∷ 8 ∷ 9 ∷ [],
      ))
    × (outcome
          ((init true >> serve (some (1, m_file yfs_write (pos 1) 21 (pos 3) (pos 0)) ∷ [])) state)
        ≡ some ((1, pos 3) ∷ [], 0 ∷ 0 ∷ 0 ∷ []))
unfolding state HashTable.bucket_index HashTable.query_chain HashTable.evict_chain
    HashTable.in_chain HashTable.query_ht HashTable.insert_chain HashTable.insert_ht
    HashTable.evict_ht Queue.write Queue.load Queue.set_prev Queue.set_next Queue.left_dequeue
    Queue.right_dequeue Queue.enqueue_empty Queue.enqueue_nonempty Queue.right_enqueue
    Cache.empty_cache Cache.query Cache.touch Cache.malloc Cache.insert Cache.grow Cache.add
    Cache.dequeue_lru Cache.drop_entry Cache.free Cache.mark_dirty Cache.get_addr Cache.set_addr
    Machine.check_int Machine.add_int Machine.sub_int Machine.on_blocks Machine.on_inodes
    Machine.read_memory Machine.write_memory Machine.read_sector Machine.write_sector
    Machine.copy_to Machine.copy_from Buffer.slice Buffer.splice Buffer.read_block
    Buffer.write_block Buffer.read_inode Buffer.write_inode Buffer.read_entry Buffer.write_entry
    Buffer.mark_b_dirty Buffer.mark_i_dirty Buffer.evict_b Buffer.fetch_b Buffer.get_b
    Buffer.inode_block Buffer.inode_offset Buffer.item_block Buffer.item_offset Buffer.evict_i
    Buffer.fetch_i Buffer.get_i Buffer.inode_num Buffer.sync_blocks Buffer.sync_inode
    Buffer.sync_inodes Buffer.handle_sync File.pop_b File.get_next_free_bnum File.add_b_freelist
    File.add_free_i_list File.take_inum File.get_next_inum_free File.read_indirect File.direct_b
    File.indirect_b File.locate_b File.get_nth_b File.free_blocks File.clear_file File.zero_file
    Dir.name_eq Dir.note_free Dir.next_entry Dir.scan_block Dir.scan_blocks Dir.grow_dir
    Dir.clear_inum Dir.new_block_entry Dir.new_entry Dir.append_entry Dir.make_entry Dir.start_scan
    Dir.finish_scan Dir.get_dir_entry FilePath.c_string FilePath.read_text FilePath.get_proc_path
    FilePath.skip_slashes FilePath.skip_name FilePath.get_next_path_part FilePath.ends_in_slash
    FilePath.last_slash FilePath.is_pathname_valid FilePath.entry_inum FilePath.walk
    FilePath.get_path_i_num FilePath.from_root FilePath.containing_dir FilePath.split_path
    FilePath.get_super_dir Lookup.update_path_i Lookup.open_path Lookup.handle_open
    Lookup.handle_chdir Lookup.stat_path Lookup.handle_stat Lookup.seek_set Lookup.seek_cur
    Lookup.seek_end Lookup.seek_from Lookup.handle_seek Transfer.is_valid_inputs Transfer.is_valid_i
    Transfer.get_num_bytes_left Transfer.read_update Transfer.write_update
    Transfer.get_num_copy_bytes Transfer.clip Transfer.read_blocks Transfer.read_from
    Transfer.before_start Transfer.read_at Transfer.handle_read Transfer.update_i_size
    Transfer.store_copied Transfer.write_blocks Transfer.finish_write Transfer.write_at
    Transfer.handle_write Create.strncpy Create.set_inum Create.init_regular Create.make_file
    Create.reuse_file Create.get_create_file Create.create_in Create.create_path
    Create.handle_create Create.adj_path_i Create.link_to Create.link_from Create.handle_link
    Create.unlink_entry Create.unlink_found Create.unlink_in Create.handle_unlink
    Folders.update_dir_entry Folders.init_directory Folders.set_direct Folders.write_dots
    Folders.make_directory Folders.mkdir_in Folders.handle_mkdir Folders.rmdir_entry
    Folders.rmdir_path Folders.handle_rmdir Boot.mark_used Boot.push_free Boot.start_state
    Boot.block_pointer Boot.mark_blocks Boot.scan_inode Boot.scan_inodes Boot.scan_table
    Boot.make_free_lists Server.handle_shutdown Server.on_path Server.handle Server.serve
    Server.init disk MkYfs.table_blocks MkYfs.sector MkYfs.table MkYfs.root_of MkYfs.encode_all
    MkYfs.free_inodes MkYfs.root_entries MkYfs.dots Int.◌-ℤ◌
session = (refl, refl)

handle-ne-out_of_fuel_example : handle 1 (m_path yfs_open (pos 1) 10 (pos 3)) state ≢ out_of_fuel
unfolding FilePath.c_string Machine.read_memory state
handle-ne-out_of_fuel_example =
    handle-ne-out_of_fuel (omega arith) 1 (m_path yfs_open (pos 1) 10 (pos 3)) state refl refl
