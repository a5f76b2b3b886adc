-- ===== src/Lib.antt =====
-- weflow-server reads the live SQLite databases of a WeChat account, keeps an in-memory index of
-- its conversations, serves it over HTTP and pushes events to subscribers. The modules follow the
-- source tree (paths from the repository's root):
--
--   Base       shared names: tests on numbers, lists, signed integers (`i64` values as ℤ), texts as
--              lists of code points, decimal printing and parsing, maps with text keys as
--              association lists, bytes and words in either byte order (Bytes, Windows), and the
--              stable sort of the standard library.
--   Pathsafe   src/pathsafe.rs: safe path components, slugs, containment; in Resolve, where a joined
--              name leads, by the rules of the file systems.
--   Parser     src/parser/mod.rs: the packed `local_type`, the XML accessors, `parse_message`,
--              `decode_content` (in Content); and the code table `chatlab_type` of
--              src/server/handlers/mod.rs.
--   Store      src/store/mod.rs: the index and its names.
--   Db         src/db/scan.rs (`classify_rel`), src/db/live.rs (`LivePool`) and, in Cipher,
--              src/db/wcdb.rs: the encrypted pages, whole files, and the write-ahead log.
--   Keys       src/keystore/mod.rs: the database keys and the image keys.
--   Media      src/media/mod.rs: the encrypted image files; in Disk the files of the system, and in
--              Export src/media/export.rs: `export_one`, its batches, and the handles of the files.
--   Index      src/store/index.rs and src/store/group_meta.rs: the columns of a table, its rows,
--              the loaders of the sections, and in Build and Full the build of the whole index.
--   Sync       src/sync: the events; Drain is the loop over the pages of a table, with the order of
--              `read_new` and `max_watermark` of src/store/index.rs; Apply is the second phase of
--              `poll_once` and `find_original`; Poll is the whole round; History is the replay
--              buffer and, in Bus, `EventBus`.
--   Server     src/server: Params and Auth (the parameters and the guard), Messages (`page_slice`,
--              `collect_export_jobs`), Fetch (src/server/handlers/media.rs), Sessions
--              (sessions.rs), Members (group_members.rs), Stream (push_events.rs), Pull (the
--              ChatLab pull), Registry (`register_account`, `deregister_account`, and in Race the
--              interleaving of a build with a deregistration).
--   Tests      runs on concrete inputs.
--
-- How they interact: Index.Full opens the connections of Db.Live and fills the Store; a round of
-- Poll asks Db.Live for the connection of each changed file, empties its tables by Drain from the
-- watermarks of the Store, applies the rows by Apply and publishes the events by History. Server
-- reads the same Store under a lock; a lock makes each critical section one step.
--
-- State is passed explicitly. Rust's `Option` and error results are `Option`, or a data type where
-- the errors differ. What is outside the repository is a parameter: the SQLite binding (`Sqlite`,
-- `World`), the broadcast channel of tokio (`Broadcast`, with its documented behaviour as laws),
-- the file system's `canonicalize`, Unicode lower case and the readers of dates (`TextOps`), the
-- encoding of a text as bytes and back and the `zstd` crate (`Decoders`), the ciphers and hashes of
-- the pages (`Ciphers`), of the keys (`Codecs`) and of the images (`BlockCipher`), ffmpeg
-- (`Tools`), the failures of file operations (`Faults`), the resolution of links (`Links`), the
-- answers of a database to the queries of the build (`Connection`, `Source`), and the clock. A
-- `World` answers the same throughout one round: a file that changes while it is read shows its
-- later stamps only in the next round. A stream is the list of its frames, given what its receiver
-- delivers and the disk at the time of each frame.
--
-- Bounds: the event counter is a `u64` and wraps; the theorems on it ask for room. `drain` counts
-- the pages that may still be read, 64 of 5000 rows in the code; it is total, and the theorem on it
-- holds for every page size and number of pages. The clients of the message pages and of the
-- session pages (`walk`, `follow`) have fuel and answer none when it is used up: one request more
-- than there are entries is enough. The frames of a log and the blocks of an image
-- are counted down from the length of the data. The counters of the build are `u64` and wrap.
-- Subtraction of two times is taken as exact, as seconds are far from the ends of an `i64`.
--
-- Left out: HTTP routing, serialisation and the documents of the interface; the command line, the
-- configuration, logging, the MCP server and the embedding API; the text of the SQL queries, whose
-- answers are parameters; the moments timeline, the pragmas of a connection, and the file watcher.
pub mod Base
pub mod Pathsafe
pub mod Parser
pub mod Store
pub mod Index
pub mod Db
pub mod Keys
pub mod Media
pub mod Sync
pub mod Server
pub mod Tests
