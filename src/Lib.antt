-- ===== src/Lib.antt =====
-- efsw watches directories and reports what changes in them. This library models its core in C++
-- and proves what makes it correct.
--
-- Parts:
-- - Base: shared names, lists measured by native numbers, bytes, 32-bit integers and the order of
--   texts. A std::string is a list of bytes (`Text`).
-- - Protocol: include/efsw/agent_protocol.hpp, with Writer, Reader and FrameParser, one function per
--   method. Protocol/Stream is the receive loop of Agent::run over the chunks that `read` returns.
--   Fields, Payload, ReadBack and RoundTrip are about payloads, Split, Cut, Consume and Chunks
--   about the stream of frames.
-- - Agent: class Agent of src/agent/efsw-agent.cpp. Agent.antt has its state, onEvent and onMissed,
--   Agent/Handle the messages and `run`, Agent/Main the command line, Agent/Writing one round of
--   writerLoop. The watchers it drives are the interface `Service`; what a mutex guards is one
--   step, and the two guarded parts of onEvent and onMissed run one after the other. Agent/Session
--   is about a whole run.
-- - FileSystem, Strings: the functions of src/efsw/FileSystem.cpp and src/efsw/String.cpp on paths
--   and texts.
-- - FileInfo: src/efsw/FileInfo.cpp on POSIX. The calls of the operating system are the fields of
--   the record `Os`. FileInfo/Listing lists a directory and sorts the list.
-- - Snapshot: src/efsw/DirectorySnapshot.cpp and DirectorySnapshotDiff.cpp. The list `Files` is
--   sorted by path; `compare_files` is the part of `scan` that compares it with a new listing.
--   Snapshot/Views states what a diff says, Step to Outcome prove it, Lookup and Edit treat the
--   sorted list as a map.
-- - FileActionBatch: src/efsw/FileActionBatch.cpp, which joins a deletion and a creation in two
--   directories into a move. FileActionBatch/Meaning says what its tests mean, Moves and Passes
--   what it reports.
-- - FileWatcher: the last error (src/efsw/Log.cpp), FileWatcherImpl.cpp, the list of watches of the
--   generic back end (src/efsw/FileWatcherGeneric.cpp) and addWatch of src/efsw/FileWatcher.cpp.
--   `impl_add_watch` is that addWatch for any back end, `front_add_watch` over the generic one, and
--   `linux_add_watch` of Inotify/Adding over the Linux one.
--   The trees of directories behind the watches are the interface `Directories`.
-- - WatcherGeneric: one round of a watch (src/efsw/WatcherGeneric.cpp), from the events that its
--   scan finds. WatcherGeneric/Watching has the constructor, `watch` and `watchDir` over the tree of
--   DirWatcher.
-- - DirWatcher: the tree of directories that a polling watch follows
--   (src/efsw/DirWatcherGeneric.cpp), a data type of nodes and their children. DirWatcher/Scan has
--   the operations that read directories, DirWatcher/Find the two searches, DirWatcher/Gone is about
--   what the destructor reports, DirWatcher/Rooted about the paths in the tree.
-- - Inotify: the Linux back end (src/efsw/FileWatcherInotify.cpp, WatcherInotify.cpp) with its
--   objects, its tables and the kernel as one state. Inotify/Overlap decides which watches may stand
--   beside one another, Inotify/Adding and Inotify/Removing change the tables, Inotify/Actions is
--   handleAction, Inotify/Batch the loop of `run` over the events of one read.
-- - CWrapper: the callbacks of the C interface (src/efsw/FileWatcherCWrapper.cpp) and the calls of
--   FileWatcher::addWatch that they are handed to.
--
-- A snapshot uses FileInfo and FileSystem; the batch uses FileInfo; a node of the tree holds a
-- snapshot; the agent uses Protocol and is driven by the watchers. Not modelled are the other back
-- ends (kqueue, FSEvents, Windows: they are thin layers over system interfaces, and the first
-- works on the same snapshots), threads, raw input and output with the parsing of the inotify
-- buffer, the Unicode conversion and the class String (both adapted from the SFML library) and the
-- functions of the C interface that only pass a call on.
--
-- Bounds: integers are unbounded except on the wire, where Writer and Reader wrap them at 8, 16
-- and 32 bits. These loops run on fuel: `drain`, on the number of bytes in the buffer plus one,
-- since every frame takes at least eight, and `ranges`, on the length of the list, since every
-- round takes at least one record. `addChildren` and `watch` of the tree, and addWatch of the
-- Linux back end, recurse as deep as the directories are nested; their models return `none` when
-- the fuel that a caller gives is used up. For addChildren and addWatch, DirWatcher/Scan/Returns
-- and Inotify/Adding/Returns give the fuel that is enough where the directories are nested to a
-- finite depth. removeWatch calls itself from its loop as deep as the table of watches is long and
-- once more, where one call is enough for a table that holds every object under its own
-- descriptor. In `join` and `emit` an index that is out of range, which the source cannot have, is
-- skipped.
pub mod Base
pub mod Protocol
pub mod FileSystem
pub mod Strings
pub mod FileInfo
pub mod Snapshot
pub mod FileActionBatch
pub mod Agent
pub mod FileWatcher
pub mod WatcherGeneric
pub mod DirWatcher
pub mod Inotify
pub mod CWrapper
