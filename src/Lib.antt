-- ===== src/Lib.antt =====
-- scriptorium: a gRPC service that runs commands of language-model agents in Docker containers, one
-- workspace directory for each session.
--
-- The service (src/service.rs) takes requests for a workspace. It asks the workspace manager
-- (src/workspace.rs) for the directory of an id and for paths inside it, the container runtime
-- (src/runtime.rs) to run a command with that directory mounted, fetches URLs into it
-- (src/fetch.rs), and uploads from it to an S3-compatible store (src/oss.rs). Archives are packed
-- and unpacked by src/service/archive.rs, listings made by src/service/files.rs; src/config.rs holds
-- the limits and src/error.rs the errors.
--
-- How the program is modelled:
--   * World: an `Io E A` is a function of the history of requests made so far, which gives the longer
--     history and a result. World/Calls has the requests to the file system, Docker, the store, HTTP,
--     DNS, the semaphore and the clock, and the record `Env` that answers each of them by any function
--     of the history: what is proved holds for every environment, but for those laws that a theorem
--     names. World/Fs has the file system calls, World/Trace the requests that a program may make.
--     A deadline of `tokio::time::timeout` passes after a number of requests that `Env` chooses.
--   * Base, Text, FilePath: lists and integers over the native numbers, texts as code points, paths as
--     `std::path::Component`s: what `Path::components` gives, with names that are neither `.` nor `..`
--     and no `.` behind another component. Paths and texts that are not UTF-8 are not modelled.
--   * Error: `Error`, `Status` and the messages, each format string a constructor.
--   * Workspace: ids, homes and `resolve_path`. The crate `path_clean` is a parameter; its documented
--     rules are the hypothesis `IsPathClean` of Workspace/Lexical.
--   * Fetch: the guard against private addresses and the body loop; Fetch/Address is `is_disallowed`.
--   * Oss: Oss/Key and Oss/Date build object keys, Oss/Upload is the client, Oss/ContentType the table
--     of content types. `send_parts` runs on fuel, one for each part; more fuel than the file has
--     bytes is enough, as each part but the last takes at least one. A part number is an `i32` by its
--     32 bits and wraps around. The abort that the sources spawn after a failed completion is made in
--     place.
--   * Runtime: `exec_oneshot`; in Runtime/Select the stream of `exec_stream`, as a function of the
--     turns in which its `select!` wakes; where the turns end, the consumer has dropped the stream.
--     The turns bring the output, so the items of `attach_container` are not read a second time. A
--     drop while the clean-up after a timeout waits is not modelled.
--   * Config: `Config::load`, the defaults, `validate` and the concurrency limits. toml and the test
--     for UTF-8 are parameters.
--   * Service: permits, `do_exec_oneshot`, `do_fetch`, `do_upload`, `list_files`, `delete_workspace`;
--     Service/Import is `do_import_workspace_object`, Service/Export is `do_export_workspace_object`
--     with the stream that it is sent as, Service/Archive and Service/Files are the helpers.
--     Service/Rpc has `exec_stream` and `health`, Service/CallTool the router of the tools with serde
--     as a parameter, Service/Handlers the other RPCs. `collect_files` runs on fuel, one for each
--     directory of the walk, and `sha256_file` with one for each read; more fuel than the file has
--     bytes is enough. A stream that a client consumes is a function of what it takes before it goes
--     away: the turns of the loop behind `exec_stream`, or a number of polls of an export. Protobuf
--     messages whose fields are those of an internal outcome are that outcome.
--   * Tools: names, arguments, results and the catalog, with the texts for the language model.
--   * Startup: what `main` (src/main.rs) does before it serves.
--   * World/Store: the laws of a file system that keeps what it is given, for absolute paths without
--     `.` and `..` where they say what a request leaves as it was, by which Service/Stored and
--     Service/Imported say what an import leaves, and Service/Exported and Service/Roundtrip what an
--     export gives. Service/Uploaded, Packed and Delivered follow the requests of an upload, and
--     Service/Permits and Rpc/Permits the exec permits. Oss/Objects says what the object store holds
--     after a history, by which Oss/Stored and Service/UploadedObject say what an upload leaves there.
--   * Service/Lifecycle: the life of a container under its permit, as a machine whose steps are the
--     requests, and the runs of `exec` and `exec_stream` as paths in it. Service/Concurrency: any
--     number of these handlers side by side, one request at a time in any order, and the semaphore
--     that they share. A handler sees the others through the answers of its `Env` only; it runs to its
--     end, or is dropped on the way and gives its permit back. The time between the drop of a stream
--     and the clean-up that its guard spawns is not modelled. Service/Confined: the containers.
--   * Service/Within: the paths that an import, a fetch and a deletion name, step by step of
--     src/service/archive.rs, src/fetch.rs and the handlers, and the files of other workspaces.
--   * Tests: a concrete environment, and each theorem applied in it.
--
-- Not modelled: logging, the command line, the gRPC server and the signals, which are libraries';
-- generated protobuf code; errors of `spawn_blocking` itself; and symbolic links, which `resolve_path`
-- does not look at and the laws of World/Store exclude.
pub mod Base
pub mod Text
pub mod FilePath
pub mod Error
pub mod World
pub mod Workspace
pub mod Fetch
pub mod Oss
pub mod Runtime
pub mod Config
pub mod Service
pub mod Tools
pub mod Startup
pub mod Tests
