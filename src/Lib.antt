-- ===== src/Lib.antt =====
-- CoWrite: a model of the storage server and the name server of a shared text file system, and of the
-- helpers under them.
--
-- The program has a name server (nm/), storage servers (ss/) and a client (client/), which exchange
-- JSON messages, and helpers that all of them share (common/). A storage server keeps each file as a
-- text with an undo file and a metadata file. Clients write one sentence at a time: a session locks a
-- sentence, edits its words, and a commit finds the sentence again in the file as it is by then, puts
-- the new text in its place and stores the file. The name server knows the files, who may use them, and
-- the one or two storage servers of each; it gives a client a ticket for one of them, and goes over to
-- the other when one is lost. This library models the storage server, the state of the name server with
-- its access commands, tickets, failover and replication, and the shared array and JSON helpers.
--
-- The parts, and the code that they model:
--   Prelude          natural and signed numbers, lists, C strings (no code of the repository)
--   Common/Array     common/array.c: struct array and its operations
--   Common/Json      common/json_util.c: escaping, and the readers of string and number fields
--   Common/Net       common/net_proto.c: send_all, recv_all, net_send_json, net_recv_json
--   Storage/Text     ss/ss_main.c: trim_spaces, split_words, split_sentences, join_words,
--                    join_sentences, count_words_in_text
--   Storage/Disk     ss/ss_main.c: load_text, store_text_atomic
--   Storage/Session  ss/ss_main.c: struct write_session, write_session_begin and the edits
--                    write_session_apply_insert, _replace and _delete
--   Storage/Commit   ss/ss_main.c: count_context_matches, write_session_commit
--   Storage/Locks    ss/ss_main.c: sentence_lock_find, _acquire and _release
--   Storage/Tickets  ss/ss_main.c: ticket_table_prune, _add and _take, validate_ticket
--   Storage/State    ss/ss_state.c: ss_state_find, _add, _remove and _save_meta
--   Storage/Server   ss/ss_main.c: struct ss_context, snapshot_file, set_file_lock_state, and the
--                    change of an entry that READ, UNDO, REVERT and a commit make
--   Storage/History  ss/ss_main.c: perform_undo, ss_create_checkpoint, ss_read_checkpoint,
--                    ss_revert_checkpoint, valid_filename, and handle_read up to its answer
--   Storage/Write    ss/ss_main.c: handle_write, from the lock of the sentence to its release
--   Manager/Entry    nm/nm_state.h: struct file_entry and what it holds
--   Manager/Access   nm/nm_state.c: nm_grant_access, nm_remove_access, nm_check_access, on one file
--   Manager/Files    nm/nm_state.c: the table of the files with its hash index: nm_find_file,
--                    nm_add_file, nm_remove_file
--   Manager/Servers  nm/nm_state.c: nm_register_server, nm_mark_server_down, nm_pick_server and
--                    nm_pick_backup_server
--   Manager/Cache    nm/nm_state.c: nm_cache_lookup, nm_cache_put, nm_add_user
--   Manager/State    nm/nm_state.c: struct nm_state, and the calls that go through the table of the
--                    files: access by name, checkpoints, nm_update_file_metadata
--   Manager/Requests nm/nm_main.c: ADDACCESS, REMACCESS, REQACCESS and HANDLEREQ
--   Manager/Replicas nm/nm_main.c: select_storage_server, handle_server_disconnect
--   Manager/Tickets  nm/nm_main.c: ticket_prune, issue_ticket, obtain_ticket_for_file
--   Manager/Create   nm/nm_main.c: handle_client_create
--   Manager/Delete   nm/nm_main.c: handle_client_delete
--   Manager/Replication  nm/nm_main.c: schedule_replication, try_assign_backup,
--                    handle_replication_failure, replicate_file_to_backup, replication_worker,
--                    handle_ss_file_update
--   Examples         concrete runs
-- A definition has the name of the function that it models; a smaller one under it is a loop, a branch
-- or a test of that function. The children of a module hold its theorems.
--
-- How the code is read:
--   - A C string is the list of its bytes. The buffers of names are cut as snprintf cuts them, and a
--     theorem says so where it needs a name to fit.
--   - Memory is granted, except where an argument decides, as `alloc` in Common/Array and `push` in
--     the tickets and the replication of Manager.
--   - The disk maps paths to contents, says for each path how far the next write of it gets (all of it,
--     or a failure to open, to write or to rename), and which paths can be unlinked.
--   - Where C does not define what the code does, the result says so: `undefined` after a conflict in
--     write_session_commit, where a variable is read to which nothing was written, and `overrun` in
--     net_recv_json. handle_write follows only the runs in which that variable reads as 0.
--   - The clock is an argument.
--   - What runs under one mutex or under the state lock is one step. The messages of a session come
--     decoded, as a list, whose end is a lost connection.
--   - An `int` index is a signed number. Document sizes and scores stay below 2 ^ 31.
--   - The answers of the storage servers to the name server are an argument, and so are the random
--     tokens. An attempt at a ticket is one step, and a round of the replication worker is, though
--     the code lets go of the state lock while it waits for a storage server.
--   - nm_state_save writes the state to the disk and leaves it as it is, so it is no step.
-- Loops are structural, but for some that run on fuel: the doubling of a capacity, which needs at most
-- as many rounds as elements are wanted; the two binary searches, which need at most one round more
-- than there are files, as each round halves the range; and the two walks along a hash chain of the
-- name server, which need at most one round more than there are files, as no chain has a file twice.
--
-- Not modelled: of the name server the saving and loading of its state, the checkpoint and undo
-- commands, the commands that only print, and EXEC; the client; of the storage server STREAM, the
-- replication write, the dispatch of commands with its tickets and the loading of the file index at the
-- start; and the threads, sockets and logs around all of it.
pub mod Prelude
pub mod Common
pub mod Storage
pub mod Manager
pub mod Examples
