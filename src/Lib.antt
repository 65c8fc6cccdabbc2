-- ===== src/Lib.antt =====
-- A peer-to-peer file sharing system. The tracker: users, groups, the files that members of a group
-- share, the commands on them, the sessions of clients and the messages between trackers. The
-- client: its commands, the upload of a file's record, and the transfer of files between clients.
--
-- The parts, and the files of this library that model them (paths from the repository's root):
--   tracker/managers/user_manager.cpp, `UserManager`: Users.
--   tracker/managers/group_manager.cpp, `GroupManager`: Groups. `requestToJoin` is request_to_join,
--     `isGroupAvailabel` is is_group_available, and so on.
--   tracker/managers/file_manager.cpp, `FileManager`: Files.
--   tracker/managers/manager.h, `FileInfo` with `toString` and `fromString`: FileInfo, FileInfo/Print
--     and FileInfo/Parse; `Address`: Address.
--   tracker/headers/tracker_utils.cpp, `trim_whitespace`, `sanitize`, `tokenize`: Words.
--   tracker/managers/command_manager.cpp, `CommandManager`: Commands and the files below it, with the
--     texts of the replies in Replies; `sync_handler`: Sync, which also has `notify_sync`.
--   tracker/managers/client_manager.cpp, `ClientManager`: Session. Session/Authenticating is
--     `login_loop`, Session/Commanding is `while_loop`, Session/Step is one round of either.
--   tracker/headers/tracker_sckelton.cpp, `Tracker::handle_client`: Service for the states
--     that it leads to, Service/Accepting for what it makes of a new connection, with
--     `send_sync_message`.
--   tracker/headers/tracker_utils.cpp, the tracker file and the arguments: TrackerFile, with
--     `set_tracker_address` and `init_sync` of tracker/headers/tracker_sckelton.cpp.
--   tracker/headers/tracker_threads.cpp and client/headers/client_threads.cpp: Pool.
--   client/headers/client_skelton.cpp: `handle_client` is Client/Seeding; `receive_piece`,
--     `write_content` and `download_piece` are Client/Fetching; `receive_full_file_data`, the tasks
--     and `file_download_command` are Client/Downloading; `file_upload_command` is
--     Client/Uploading; `handle_command`, the loop on the commands and `reset_tracker` are
--     Client/Commanding; `receive_full_message` is Client/Responses; `read_tracker` and
--     `connect_to_tracker` are Client/Connecting; `htonll` and `ntohll` are Client/ByteOrder.
--   client/headers/client_utils.cpp: the hashes of pieces and files are Client/Pieces,
--     `generate_file_message` is Client/Uploading, `create_file` is Client/Downloading. The functions
--     that it has in common with tracker_utils.cpp are modelled once.
--   tracker/managers/command_manager.cpp once more, as threads run it: Interleaving, with the handlers
--     as sequences of calls in Interleaving/Handlers and the threads in Interleaving/Schedule.
--   tracker/headers/tracker_logger.cpp, `Logger`: Logger.
--   tracker/tracker.cpp and client/client.cpp, with `Tracker::start`, `start_as_server` and
--     `start_sync` and `Client::start` and `start_as_listener`: Programs; `input_listener` and
--     `Tracker::stop`: Programs/Stopping.
--   Disk has `ftruncate` and the writes at an offset.
--   Number and Split have what the source takes from the C++ library: `to_string`, `stoull`, `stoi`,
--     `getline` and `find` with `substr`.
--
-- A session reads what its socket delivers, gives commands to the one command manager, which asks and
-- changes the three managers, and tells the other trackers of the commands that succeed. A handler
-- is a function of the state of the three managers; it returns the new state, the reply and the value
-- that the handler returns (Commands, `Outcome`). A round of a session is a function of the phase of
-- the session, its members, the shared state and the input; it returns these with the list of what the
-- round sends (Session, `Round`). The tracker at work is any sequence of such rounds and of messages
-- of other trackers (Service, `Served`).
--
-- A string is the list of its bytes. A map or a set is the list of its entries in the order of the
-- keys, also where the source has an unordered one: there the order of a listing is not specified by
-- the source. Every method of a manager holds the manager's mutex throughout and is one step. In
-- Commands, Session and Service a handler, which calls several methods, is one step as well, and so
-- is a round of a session; in Interleaving a handler is the tree of its calls, each with what the
-- handler does next, and any number of handlers make their calls in any order (`Reached`). The printing
-- of a number takes the number and one as its fuel, which its digits never use up. What the source
-- leaves as an uncaught exception or an access out of range is a `Fault`.
--
-- A download is a list of tasks, one for each piece, in the order in which they come to hold the lock
-- on the destination; each has its own view of the network, which may answer anything, and its own
-- results of `write`. A network connection is what its `recv` calls deliver. SHA-256, `htonl`,
-- `inet_pton`, `realpath`, `connect` and the tests of paths are parameters. Nothing is assumed of SHA-256: where
-- two texts with one hash would matter, the result says so. The threads that assign tasks do it in
-- three steps, which come in any order with those of other threads: an index is claimed under the
-- lock, and then the task is started, and detached, without it (Pool, `Reached`).
--
-- The recursion that cuts a file into pieces has the length of the file as its fuel, and each round
-- takes a byte; the loops on `recv`, `send` and `write` go along the list of the results of the calls.
--
-- Not modelled: the calls that open and close sockets and files, beyond whether they succeed; the
-- rounds of two sessions below the calls of their handlers; a download that is hashed in the
-- middle of a task's write; a join of a thread that is still to be detached; the waits on
-- condition variables; `connect_with_timeout`, `drain_socket`, `Client::stop` and the destructors;
-- and what is only printed on the terminal (showGroup, showLoggedInUsers, the client's messages,
-- the clock of the logger).
pub mod Prelude
pub mod Text
pub mod Map
pub mod TextSet
pub mod Address
pub mod Users
pub mod Groups
pub mod Number
pub mod Split
pub mod Words
pub mod Replies
pub mod Commands
pub mod Result
pub mod Verb
pub mod Sync
pub mod Session
pub mod Service
pub mod FileInfo
pub mod Files
pub mod Disk
pub mod Client
pub mod TrackerFile
pub mod Pool
pub mod Interleaving
pub mod Logger
pub mod Programs
pub mod Tests
