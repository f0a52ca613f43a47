-- ===== src/Tests/Disk/Processes.antt =====
-- A process that calls the client library, with the server behind it.
use model_lib.Prelude.{ℕ, ◌≡◌, refl, none, some, Option, List, [], ◌∷◌, true}
use model_lib.Prelude.Int.{ℤ, pos, negsuc}
use model_lib.Machine.{Sys, Run, ok, exited, fault, out_of_fuel}
use model_lib.HashTable
use model_lib.Queue
use model_lib.Cache
use model_lib.Machine
use model_lib.Buffer
use model_lib.File
use model_lib.Dir
use model_lib.FilePath
use model_lib.Lookup
use model_lib.Transfer
use model_lib.Create
use model_lib.Folders
use model_lib.Boot
use model_lib.Server
use model_lib.MkYfs
use model_lib.Prelude.Int
use model_lib.IoLib
use model_lib.IoLib.{Client, Kernel}
use model_lib.Server.{Request, handle, init}
use model_lib.Tests.Disk.{the_env, state, disk}

-- a reply, or `none` if the server has ended
abbrev reply_of : Sys → Run ℤ → Option ℤ × Sys
reply_of s (ok r s') = (some r, s')
reply_of s (exited n s') = (none, s')
reply_of s fault = (none, s)
reply_of s out_of_fuel = (none, s)

-- the server, for the messages of process 1
kernel : Kernel Sys
kernel = record { send = λ request s. reply_of s (handle 1 request s); memory = λ s. s.user 1 }

abbrev started : Run (Unit {0}) → Sys
started (ok r s) = s
started (exited n s) = s
started fault = state
started out_of_fuel = state

abbrev Call : Type 0
Call = Client → Sys → ℤ × Client × Sys

-- the process stops where an int overflows
abbrev or_stop : (Client → Sys → Option (ℤ × Client × Sys)) → Call
or_stop call c s = elim (call c s) [ none ↦ (negsuc 8, c, s) | some result ↦ result ]

abbrev calls : List Call → Client → Sys → List ℤ × Sys
calls [] c s = ([], s)
calls (call ∷ later) c s =
    let (r, c', s') = call c s in let (rs, s'') = calls later c' s' in (r ∷ rs, s'')

-- Create /a, write three numbers, seek to 1 and read two of them to 60; make a directory /d, enter it,
-- link /a to /d/b; stat to 70, which gives the inode 7, the size 3 and two links; remove /a; open
-- /d/b; try to remove /d, which is not empty; sync, close, and shut the server down, which does not
-- reply.
process : List ℤ × List ℕ
process =
    let (rs, s) =
      calls
        (IoLib.create_file kernel 10
          ∷ or_stop (IoLib.write kernel (pos 0) 21 (pos 3))
          ∷ IoLib.seek kernel (pos 0) (pos 1) (pos 0)
          ∷ or_stop (IoLib.read kernel (pos 0) 60 (pos 2))
          ∷ IoLib.mk_dir kernel 13
          ∷ IoLib.ch_dir kernel 13
          ∷ IoLib.link kernel 10 16
          ∷ IoLib.stat kernel 16 70
          ∷ IoLib.unlink kernel 10
          ∷ IoLib.open_file kernel 16
          ∷ IoLib.rm_dir kernel 13
          ∷ IoLib.sync kernel
          ∷ (λ c s. let (r, c') = IoLib.close (pos 0) c in (r, c', s))
          ∷ IoLib.shutdown kernel
          ∷ [])
        IoLib.start_client (started (init true state)) in
    (rs, s.user 1 60 ∷ s.user 1 61 ∷ s.user 1 70 ∷ s.user 1 72 ∷ s.user 1 73 ∷ [])

process_result : process ≡ (
  pos 0
      ∷ pos 3
      ∷ pos 1
      ∷ pos 2
      ∷ pos 0
      ∷ pos 0
      ∷ pos 0
      ∷ pos 0
      ∷ pos 0
      ∷ pos 1
      ∷ negsuc 0
      ∷ pos 0
      ∷ pos 0
      ∷ negsuc 0
      ∷ [],
  8 ∷ 9 ∷ 7 ∷ 3 ∷ 2 ∷ [],
)
unfolding process kernel state Int.◌+ℤ◌ HashTable.bucket_index HashTable.query_chain
    HashTable.evict_chain HashTable.in_chain HashTable.query_ht HashTable.insert_chain
    HashTable.insert_ht HashTable.evict_ht Queue.write Queue.load Queue.set_prev Queue.set_next
    Queue.left_dequeue Queue.right_dequeue Queue.enqueue_empty Queue.enqueue_nonempty
    Queue.right_enqueue Cache.empty_cache Cache.query Cache.touch Cache.malloc Cache.insert
    Cache.grow Cache.add Cache.dequeue_lru Cache.drop_entry Cache.free Cache.mark_dirty
    Cache.get_addr Cache.set_addr Machine.check_int Machine.add_int Machine.sub_int
    Machine.on_blocks Machine.on_inodes Machine.read_memory Machine.write_memory Machine.read_sector
    Machine.write_sector Machine.copy_to Machine.copy_from Buffer.slice Buffer.splice
    Buffer.read_block Buffer.write_block Buffer.read_inode Buffer.write_inode Buffer.read_entry
    Buffer.write_entry Buffer.mark_b_dirty Buffer.mark_i_dirty Buffer.evict_b Buffer.fetch_b
    Buffer.get_b Buffer.inode_block Buffer.inode_offset Buffer.item_block Buffer.item_offset
    Buffer.evict_i Buffer.fetch_i Buffer.get_i Buffer.inode_num Buffer.sync_blocks Buffer.sync_inode
    Buffer.sync_inodes Buffer.handle_sync File.pop_b File.get_next_free_bnum File.add_b_freelist
    File.add_free_i_list File.take_inum File.get_next_inum_free File.read_indirect File.direct_b
    File.indirect_b File.locate_b File.get_nth_b File.free_blocks File.clear_file File.zero_file
    Dir.name_eq Dir.note_free Dir.next_entry Dir.scan_block Dir.scan_blocks Dir.grow_dir
    Dir.clear_inum Dir.new_block_entry Dir.new_entry Dir.append_entry Dir.make_entry Dir.start_scan
    Dir.finish_scan Dir.get_dir_entry FilePath.c_string FilePath.read_text FilePath.get_proc_path
    FilePath.skip_slashes FilePath.skip_name FilePath.get_next_path_part FilePath.ends_in_slash
    FilePath.last_slash FilePath.is_pathname_valid FilePath.entry_inum FilePath.walk
    FilePath.get_path_i_num FilePath.from_root FilePath.containing_dir FilePath.split_path
    FilePath.get_super_dir Lookup.update_path_i Lookup.open_path Lookup.handle_open
    Lookup.handle_chdir Lookup.stat_path Lookup.handle_stat Lookup.seek_set Lookup.seek_cur
    Lookup.seek_end Lookup.seek_from Lookup.handle_seek Transfer.is_valid_inputs Transfer.is_valid_i
    Transfer.get_num_bytes_left Transfer.read_update Transfer.write_update
    Transfer.get_num_copy_bytes Transfer.clip Transfer.read_blocks Transfer.read_from
    Transfer.before_start Transfer.read_at Transfer.handle_read Transfer.update_i_size
    Transfer.store_copied Transfer.write_blocks Transfer.finish_write Transfer.write_at
    Transfer.handle_write Create.strncpy Create.set_inum Create.init_regular Create.make_file
    Create.reuse_file Create.get_create_file Create.create_in Create.create_path
    Create.handle_create Create.adj_path_i Create.link_to Create.link_from Create.handle_link
    Create.unlink_entry Create.unlink_found Create.unlink_in Create.handle_unlink
    Folders.update_dir_entry Folders.init_directory Folders.set_direct Folders.write_dots
    Folders.make_directory Folders.mkdir_in Folders.handle_mkdir Folders.rmdir_entry
    Folders.rmdir_path Folders.handle_rmdir Boot.mark_used Boot.push_free Boot.start_state
    Boot.block_pointer Boot.mark_blocks Boot.scan_inode Boot.scan_inodes Boot.scan_table
    Boot.make_free_lists Server.handle_shutdown Server.on_path Server.handle Server.serve
    Server.init disk MkYfs.table_blocks MkYfs.sector MkYfs.table MkYfs.root_of MkYfs.encode_all
    MkYfs.free_inodes MkYfs.root_entries MkYfs.dots Int.◌-ℤ◌ IoLib.first_free IoLib.string_length
    IoLib.start_client IoLib.get_path_len IoLib.file_at IoLib.set_file IoLib.place_file IoLib.close
    IoLib.reply IoLib.send_request IoLib.send_path_m IoLib.send_file_m IoLib.opened IoLib.open_file
    IoLib.create_file IoLib.advance IoLib.transfer IoLib.read IoLib.write IoLib.is_whence
    IoLib.move_to IoLib.seek IoLib.link IoLib.on_name IoLib.unlink IoLib.mk_dir IoLib.rm_dir
    IoLib.enter IoLib.ch_dir IoLib.stat IoLib.sync IoLib.shutdown
process_result = refl
