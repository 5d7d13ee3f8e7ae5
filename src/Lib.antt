-- ===== src/Lib.antt =====
-- AsyncIOManager: loading and saving of files by URL, without blocking.
--
-- An application hands a URL to `FileManager`. It splits the URL at "://" and at the last dot
-- (`getURLComponents`), finds the handler that is registered for the prefix, counts an outstanding
-- operation, and calls the handler with what follows the prefix and with a callback. A loader
-- makes a device, which is driven by the io_context: each operation that it starts ends in a
-- lambda, which starts the next one or makes the callback. The callback of a load lowers the
-- counter, or hands the buffers to a saver whose own callback lowers it, and calls the
-- application's final callback. At 0 the io_context is stopped.
--
-- How it is modelled. A device is a state machine: a state is the operation that is pending, with
-- the lambda that waits for it; an event is its end, with the answer of the library that ran it; a
-- step runs the lambda up to the next operation and returns the actions it takes, in their order.
-- So every ordering of the answers, and every answer, is a list of events, and a theorem about all
-- lists of events is one about all runs. The code runs on one io_context thread; lambdas do not
-- interleave (the external Bitswap instance, which other threads may set, is in Bitswap/Race). A
-- call that can throw, or whose behaviour C++ does not define, returns a `Call`. Texts are lists
-- of bytes.
--
-- The files and the code that each is about (paths from the root of the repository):
--
-- - Common, with Common/Tests, Common/Lists, Common/Text and Common/Search: shared names, Boolean
--   tests and lists over the native numbers; `find`, `rfind`, `substr` and `empty` of
--   `std::string`, with the laws of the searches, and `path::filename`.
-- - Io: the error enumerations (include/HTTPCommon.hpp, include/WSCommon.hpp,
--   include/IPFSCommon.hpp, include/IPFSLoader.hpp, include/MNNLoader.hpp), `ResultType` and
--   `CompletionCallback` (include/FileManager.hpp), the outcome of a C++ call, and actions with
--   the callbacks among them.
-- - Messages: the texts of the error codes, which stand beside the enumerations in the sources.
-- - Url: src/URLStringUtil.cpp. Url/Components is `getURLComponents`, Url/Http `parseHTTPUrl`,
--   Url/Sftp `parseSFTPUrl` in one function for each of its commented parts, Url/Ipfs
--   `parseIPFSUrl`. The reference parameters are a record that goes in and comes out, also where
--   the parser fails. The Laws below each relate it to the texts that it should accept; for SFTP
--   these texts are in Url/Sftp/Written, and Url/Sftp/Stages has the parts of the parser on them.
-- - Manager: src/FileManager.cpp. Manager/Maps has the registries, Manager/State the state
--   (include/FileManager.hpp), the virtual functions of the handlers and the monad of the code,
--   Manager the counter, `LoadFile`, `ParseData`, `SaveFile`, `LoadASync`, `SaveASync` and the
--   lambdas `handle_read` and `handle_write`. Manager/Steps has the calls of the application and
--   of the handlers as a step relation; Manager/Counter, Manager/Finals, Manager/Dispatch and
--   Manager/Held are about it, Manager/Throwing also about the callbacks that throw. A handler is a number, and its functions are a parameter,
--   `Handlers`.
-- - Http: src/HTTPCommon.cpp and src/HTTPLoader.cpp, with the deadlines of the stages.
--   Http/Delivery is about the callbacks, Http/Response about what they carry, Http/Verify about
--   the verification of the server.
-- - Ws: src/WSCommon.cpp and src/WSLoader.cpp, with Ws/Delivery and Ws/Payload.
-- - SftpUpload: the class `SFTPUploadDevice` of src/SFTPSaver.cpp, with the answers of libssh2 to
--   the calls between two waits as part of the event. SftpUpload/Delivery is about its callback,
--   SftpUpload/Ends about when it ends, SftpUpload/Writes and SftpUpload/Content about the bytes
--   that it writes, SftpUpload/Cleanup about the session.
-- - SftpSaver: `SFTPSaver::SaveASync` of src/SFTPSaver.cpp: one upload for each file, with a
--   shared counter. SftpSaver/FanIn is about the counter, SftpSaver/Planned about what the uploads are
--   for, SftpSaver/Runs about what they do.
--   SftpSaver/SaveFile is `SFTPSaver::SaveFile`, the blocking upload, with its Laws below.
-- - SftpDownload: src/SFTPCommon.cpp and src/SFTPLoader.cpp, which are not in the build: the
--   download over SFTP with its buffer. SftpDownload/Delivery counts the callbacks,
--   SftpDownload/Places has the bytes, sizes and places among the actions, SftpDownload/Reads what
--   one event reads, SftpDownload/Content what a run delivers, SftpDownload/Serving what it
--   delivers from a server that has the file, SftpDownload/Ends when it ends,
--   SftpDownload/Sessions about the session.
-- - Local: src/MNNLoader.cpp, src/MNNSaver.cpp and src/FILECommon.cpp. Local/Loading is about the
--   loader, Local/Writes about the saver; Local/Sync has the synchronous `LoadFile` and `SaveFile`
--   on a file system, Local/Disk what the asynchronous saver does to one (Local/Disk/Created and
--   Local/Disk/Ended are about it), Local/Descriptor the descriptor of a `FILEDevice`.
-- - Startup: `InitializeSingletons` of src/FileManager.cpp with the `InitializeSingleton`
--   functions and the constructors of the handlers, and the table of their synchronous functions.
--   Startup/Registered is about what is registered, Startup/Synchronous about the synchronous
--   calls that reach it.
-- - System: `FileManager` with all the devices in one io_context, every interleaving as a step
--   relation. System/Interface is what it needs of a device, with posted callbacks and a choice
--   between devices; System/Instances has the devices of the loaders and savers (of IPFS the one
--   that is made for a load with an external Bitswap instance), System/Starts the phases in which
--   a load leaves them. System/Tasks, System/Refinement and System/Settling relate the system to
--   `FileManager` alone; System/Stopping is about when the io_context is
--   stopped. System/SharedIpfs is the device that serves many loads, System/Sharing about its
--   callbacks, System/Losing about the loss of one.
-- - Ipfs: src/IPFSCommon.cpp and src/IPFSLoader.cpp. Ipfs/Requests and Ipfs/Overlap are about what
--   becomes of the requests of a shared device, Ipfs/Alone and Ipfs/Growth about a device of one
--   request, Ipfs/Content about what is delivered. Ipfs/Instance is the making of the shared
--   device, Ipfs/Providers the addresses that are handed to Bitswap.
-- - Bitswap: `setBitswap` and `clearBitswap` of src/FileManager.cpp, src/IPFSLoader.cpp and
--   src/IPFSSaver.cpp, with Bitswap/Sharing; Bitswap/Race has the atomic reads and writes of two
--   threads.
-- - IpfsSaver: `SaveASync` of src/IPFSSaver.cpp, with IpfsSaver/Balance.
-- - Example: `main` of example/MNNExample.cpp: the providers that it adds (Example/Providers), the
--   loads that it starts (Example/Loads), and how it ends with the system (Example/Ends).
-- - The modules called Tests have runs of the definitions on concrete inputs.
--
-- Bounds and fuel. No definition runs on fuel: the loops of the code are recursion on a list, and
-- a run is recursion on its events. Whether a run ends is a theorem on how many events it takes.
-- `size_t` counters wrap at 2 ^ 64, which is written out; the theorems about them take fewer files
-- than that. The `int` counter of `FileManager` is lowered only where it is positive, so a natural
-- number stands for it, up to the overflow at 2 ^ 31 operations at once.
--
-- What is not modelled. Boost.Asio, Boost.Beast, OpenSSL, libssh2, libp2p and the file system are
-- not code of this repository: their answers are events and parameters. System has the calls that
-- throw, and leaves out the callbacks that throw, which are in Manager/Throwing, since the exception ends
-- `io_context::run` there. Also left out: the loggers, the setting up of libp2p, and the
-- TLS context of a WebSocket. MNNExample.cpp at the root is an older copy of the example that does
-- nothing. include/httplib.h is a copy of another project, used by the tests.
pub mod Common
pub mod Url
pub mod Io
pub mod Messages
pub mod Manager
pub mod Http
pub mod Ws
pub mod SftpUpload
pub mod SftpSaver
pub mod SftpDownload
pub mod System
pub mod Startup
pub mod Local
pub mod Ipfs
pub mod Example
pub mod Bitswap
pub mod IpfsSaver
