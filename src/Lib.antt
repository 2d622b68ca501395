-- ===== src/Lib.antt =====
-- The verification library of dropbox-simulator: a file synchroniser with a client (`box`) and a
-- server (`warehouse`) of which one instance is primary and the others are its backups.
--
-- The program. A client (client-side/source/Box.cpp, Client.cpp) opens three connections to the
-- primary server, one for the commands that are typed (utils/source/Instruction.cpp), one for the
-- changes that inotify reports, one on which the server sends. The server
-- (server-side/source/Server.cpp) starts a thread for each connection, keeps a table of users with
-- their devices and a table of backup servers, each with a semaphore, and repeats what happens to
-- the backup servers. All data travels over sockets in pieces of four bytes.
--
-- The files, and the code that they model:
--   Common: bytes, lists and `int`s over the native numbers, shared by all.
--   Registry: `users` and the functions on it (Server.cpp, `initiate_user_controller_structure` to
--     `get_available_device`). A pointer into the table is an index; `undefined` is a call that
--     dereferences null or whose value is used though it returned none. Registry/Lookup, Cases and
--     Writes relate pointers to names and ids, Registry/Invariant and Removal have the invariant,
--     Registry/Sessions and Refinement the map from names and ids to devices that the table is,
--     Registry/Contracts what a socket and a new user change, Registry/Sockets the table without its
--     sockets.
--   Thread: how a thread ends (done, `pthread_exit`, blocked, undefined behaviour), sequencing, and
--     `read` and `write` on a socket. What the network does is part of the state: `inbox` is what
--     the reads find, with short reads, end of stream and errors, and `accepts` how much each write
--     takes. A read keeps what it leaves of a segment for the next one.
--   Transfer: `sendLargePayloadToSocket` and `readLargePayloadFromSocket` of client and server.
--     Their loops take as fuel the size of the payload and one more: each round handles at least
--     one byte, but for an empty payload, which takes one round, and for sizes of 2 GB and more,
--     whose `int` is negative or too small.
--   Wire: `commandPacket` and `connection_t` (utils/include/masterInclude.h) as raw memory of an
--     x86-64 machine. Padding and uninitialised arrays are fields with any bytes.
--   Server: the shared state, the semaphores, acknowledgements and user directories.
--     Server/Backups: `backupServers`. Server/Session: `mediatorThread` and
--     `handle_user_controller_structure`; its children say what is written, who is let in and what
--     becomes of the semaphore.
--   Server/Commands: `uploadFileCommand`, `downloadFileCommand`, `deleteFileCommand`, `exitCommand`
--     and the loop of `terminalThreadFunction`; Server/Commands/Serving has one round of it.
--     Server/Commands/Listing is the text that `listServerCommand` prints; `readdir`, `stat` and the
--     formatting of a time are parameters.
--   Server/Replica: what a backup server does with the commands of the primary
--     (`second_server_processing` and its four handlers). Mirror and Connections have one command,
--     Tables what a connection makes of both tables, Runs the commands of a primary that serves
--     clients and of its backup as a step relation, Joining both from the greeting on.
--   Server/Start: what `run` does before its loop. Server/Election: the exchange of ids in the
--     `catch` block of `second_server_processing`. Server/Heartbeats: `sendHeartbeatThreadFunction`,
--     with the readings of the clock as a list, so that it needs no fuel.
--   Server/Configuration: `getBackupServersIPs`, which reads server.txt. What `malloc` gives is a
--     parameter, since the code asks for one byte less than it writes.
--   Server/History: runs of connections, uploads, deletions and exits as a step relation; a step is
--     a whole command of one thread, so steps of two threads are not mixed.
--   Instruction: the parser of the command line of the client (utils/source/Instruction.cpp), and
--     Operations: what a parsed command makes the client do (`upload_file` to `delete_file` there).
--     Instruction/Listing is the text that `list_client` prints.
--   Client: the functions of client-side/source/Client.cpp on a thread's connection, with the files
--     of the client and what its threads share. Client/Sending, Uploads, Downloads and Replies say
--     what each writes for given answers; Client/Exchange, Leftovers, Deletion and Listing put the
--     two sides of a connection together: what one side writes is what the reads of the other one
--     find. Client/Requests has what a client asks for, Client/Session a whole session: the loop of
--     the server takes as fuel one round for each command.
--   Box: client-side/source/Box.cpp. Box/Opening has the three connections of `open`, Box/Exits the
--     thread of the console, Box/Incoming that of the third connection, Box/Events the one that
--     watches the directory, Box/Saves the way of a saved file to the server, Box/Synchronised its
--     way on to another device and to a backup server, Box/Interleaved an event between two steps of
--     the console, on the instruction that both threads share. The lines that are typed, the polls
--     and what the server sends are given as lists. The loop over the events of one read takes as
--     fuel their number and one more.
--   Tests: runs, and the theorems at concrete inputs.
--
-- Conventions. A number is unbounded where the code only stores and compares it. The loops of
-- Transfer turn the `size_t` of a payload into an `int` as the code does, so what is sent or
-- received whole has less than 2 GB. A thread reads only the socket that it serves, so it has one
-- `inbox`. Where two sides are put together (`delivered`), each write of one side is a segment of
-- its own, which the reads of the other find in order; a read that finds more than one segment, as
-- TCP allows, is in the model (an `inbox` may have any segments) but not in these theorems. A
-- non-void function that ends without a return is undefined where its value is used; where it is
-- not, as after `insert_socket` and `remove_user`, the code goes on as compilers without
-- optimisation let it. Files are kept by the text of their paths, so two paths to one file, as
-- through "..", count as two. Uninitialised memory holds any bytes, the same each time. "With whole
-- writes" stands for `Steady` of the server and `Reliable` of the client: every write takes all
-- that it is given, and memory has the size that is asked for. A write to a closed connection
-- fails; the signal that the system sends by default is not modelled. The memory of a
-- `std::string` in a struct obtained by `malloc` is taken as constructed, and what such a struct
-- means in another process is undefined.
--
-- Not modelled: messages to the terminal, but for the listings of `listServerCommand` and
-- `list_client`; the creation of sockets and addresses and the loop of `run` that accepts
-- connections (calls of the libraries); when the `catch` block of the election runs, since nothing
-- in the `try` throws an exception of its own, and the calls that open the sockets of the election,
-- which it does not use; receiveHeartbeatThreadFunction (it prints, and is never started); and
-- interleavings within a command, but for the one of Box/Interleaved.
pub mod Common
pub mod Registry
pub mod Thread
pub mod Transfer
pub mod Wire
pub mod Server
pub mod Instruction
pub mod Client
pub mod Operations
pub mod Box
mod Tests
