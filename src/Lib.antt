-- ===== src/Lib.antt =====
-- Super_Voice: the file relay (Backend/FileRelay_.server) and the core of the API server
-- (Backend/SuperAPI._server).
--
-- The client watches a directory, compresses each file, cuts it into chunks, and sends the chunks over
-- several connections. The server checks each chunk, keeps it, and joins the chunks of a file once all
-- are there. Its control channel changes the number of data listeners and the lifetime of entries. The
-- API server names, measures and traces each request, passes it to a provider over HTTP, with retries
-- and a circuit breaker, and streams events back.
--
--   * Base: what the parts share. Numbers are unbounded with wrap-around written out, texts are lists
--     of bytes, a map is an association list, and an exception is a value of `Result`.
--   * Bytes and Crc: common/bytes.hpp, and the checksum in Server/src/storage.hpp. A function at a
--     fixed type becomes one with the width as an argument.
--   * Sha256: the class of common/bytes.hpp; Sha256.Client is the class of the same name in
--     Client/src/compressor.hpp. Sha256.Standard and Sha256.Reference are the compression
--     of a block and the digest as the standard FIPS 180-4 defines them, apart from the code.
--   * Protocol: common/protocol.hpp. PatchHeader is the header of a patch, Message the messages of the
--     system channels.
--   * Client: Client/src/chunker.hpp (Chunker), queue.hpp (Queue) and sender.hpp (Sender). What a
--     method does under one lock is one function; the modules History and Traffic take these in any order.
--     Queue.Monitor adds the threads that wait, the condition variables and the notifications.
--   * Server: Server/src/storage.hpp (Disk for the saving of a file, Storage for the entries),
--     assembler.hpp (Assembler), listeners.hpp (Listeners), control.hpp (Control), and of main.cpp the
--     arguments and the text of the metrics (Program). What the operating system and zstd answer to a
--     call is an argument.
--   * Api.Sse: SuperAPI._server/src/http/SSE.cpp. The mutex is part of the state.
--   * Api.Env: SuperAPI._server/src/environment.cpp. The environment of the process is a map, and
--     the `.env` file its bytes.
--   * Api.Provider: SuperAPI._server/src/providers/HttpProviderBase.cpp. Provider has the texts and
--     numbers of a call, Perform the call itself (performHttpRequest, performJsonOperation) with its
--     breaker, Operations the nine operations. JSON values, HTTP headers and floating numbers are the
--     record `Library`, with the exceptions of jsoncpp; what the upstream server answers and other threads do is in `Surroundings`.
--   * Api.Tracing: SuperAPI._server/src/core/Tracing.cpp. Spans has the spans of one thread and what is
--     sent to the collector; a `shared_ptr` is a number, and a list says which are still owned.
--   * Api.Metrics: SuperAPI._server/src/core/Metrics.cpp, with Render for the text of the metrics.
--   * Api.Middleware: SuperAPI._server/src/middleware/request_id.cpp, which uses the two before.
--
-- Fuel: `escape_loop` has the length of the text, and each round takes off a line; `shrink` has the
-- number of acceptors, and each round takes off one; `to_string` has the number, and each round divides
-- it by ten; `fill` has 64, and each round adds a byte to a buffer of 64; `copy_loop` has the number of
-- bytes, and each round takes one at least; `resolve_loop` has one more than the length of the text, and
-- each round goes behind a placeholder. `decompress_loop` has the fuel that the caller gives, since how
-- much a call of zstd takes is not known. Nested calls of the event stream have the fuel that the caller
-- gives; one level is enough, since the lock stops the second. The other loops count rounds that the
-- code counts.
--
-- Not modelled: sockets, threads, the file watcher, zstd, the handlers of the server's main
-- program, the catalogue of providers, and the routing of the API server, which is done by a
-- framework.
pub mod Base
pub mod Bytes
pub mod Crc
pub mod Sha256
pub mod Protocol
pub mod Client
pub mod Server
pub mod Api
pub mod Tests
