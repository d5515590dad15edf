-- ===== src/Lib.antt =====
-- Newth: a formal model of the HTTP tools `th` (a file server) and `dl` (a downloader), from the C
-- sources under src/.
--
-- The parts, and the files that model them:
--   Prelude           shared names; C strings as lists of bytes without the terminator, with the
--                     functions of <string.h> and <ctype.h> that are called, in the C locale
--                     (Prelude/Text), numbers as `printf` writes them (Prelude/Digits) and as the C
--                     library reads them (Prelude/Scan), signed file offsets (Prelude/Int), lists
--                     (Prelude/Lists).
--   Hex               src/common/hex.c: `hexConvertStringToAscii`, by which a request path is decoded,
--                     and `hexGetStringLength`.
--   Platform/Stream   the memory streams of src/platform/platform.c: a temporary `FILE`.
--   Platform/Socket   `send` on a non-blocking socket. The kernel's answers are a list that every
--                     function on a socket takes; the bytes that it accepted are `wire`.
--   Platform/Receive  `recv`, as the client's `AppendWait` calls it: a stream of bytes, and how many of
--                     them each call finds.
--   Platform/Ports    src/platform/platform.c: the ports of `platformBindPort`; Platform/Arguments is
--                     `platformArgvGetFlag`.
--   Server/SendBuffer src/server/sendbufr.c: bytes that the socket did not take are kept in a stream.
--   Server/Http       src/server/http.c: the response head and body writers, as a state monad over a
--                     send buffer and its socket (Server/Http/Writer).
--   Server/Routine    src/server/routine.c: `FileRoutineNew` and `FileRoutineContinue`, which reads the
--                     next block of a window of a file into a send buffer; the array of routines.
--                     Server/Routine/Directory lists a directory by ten entries in a call, and
--                     Server/Routine/Tick is the state machine of `RoutineTick`, for one routine
--                     and, in Tick/Rounds, over the array; whether `realloc` moves an array that
--                     shrinks is a parameter.
--   Server/Http/Html  src/server/http.c: the HTML pages of directories and the links in them.
--   Server/Request    src/server/http.c: what is read from a request, and the comparison of two times of
--                     src/platform/posix01.c.
--   Server/Handlers   src/server/server.c: `handlePath`, `handleFile` and `handleDir` over a record of the
--                     calls of the platform, and the paths of src/platform/posix01.c;
--                     Server/Handlers/Receiving is `handleConnection`. Server/Handlers/Head and
--                     Server/Handlers/Serving follow the answer with a file from its head to its last byte.
--   Server/Select     src/server/mltiplex/select.c: the sets of sockets, and a round of `serverTick` with
--                     `RoutineTick` and `handleConnection`; what the system accepts and what the sockets
--                     show are parameters.
--   Client/Io         src/client/io.c: request lines, the status line and the sizes of chunks.
--   Client/Uri        src/client/uri.c: `uriDetailsNewFrom` and its fields, schemes, ports, how two paths
--                     are joined, and the last name of a path (Client/Uri/Last).
--   Client/Site       src/client/site.c: the array of mounted sites and its two active numbers.
--   Client/Queue      src/client/queue.c: the array of entries with the addresses of their paths.
--   Client/RecvBuffer src/client/recvbufr.c: the length modes and the reading of a body by its length, to
--                     the end of the connection or in chunks (Append), and over data that exist already
--                     (Existing); the search for a token (Find, Search), and the response head of
--                     src/client/io.c that is read with it (Header).
--   Client/Xml        src/client/xml.c: attributes, and the links in a directory's page.
--   Client/HttpSite   src/client/site/http.c: the lengths and the kind of a response (Response), the paths
--                     (Path), and the reads of an open file and of a directory (Body); its children
--                     HttpSite/Lengths and HttpSite/FileNames read what the server's writers write.
-- The server's writers stand on the send buffer, which stands on the stream and the socket; the size
-- line of a chunk ties the server's writer to the client's reader.
--
-- A write or move outside its memory is the value `none` of the function. Memory allocation and
-- writes to temporary files are taken to succeed. `size_t` and file offsets have 64 bits.
-- Loops that are not on a list run on fuel: `flush_loop` on one more round than the stream has bytes,
-- since a round reads a byte or returns; `strip_up` on the length of the path, since a round deletes
-- two bytes; `count_digits` on the number itself, which each round divides by 16.
-- `tick_from`, the loop of `RoutineTick`, runs on the length of the array, since a round moves on by a place
-- and adds none.
-- `append_loop` of a receive buffer runs on the number of bytes that are asked for, each round of which
-- receives a byte or returns; `chunk_loop`, `append_until`, `fetch_loop` and `ditch_loop` on one more round
-- than the stream has bytes. `parse_chunks` and `next_links` run on a fuel that is given.
-- The block size SB_DATA_SIZE depends on the platform and is a parameter.
--
-- Not modelled: the event callbacks, which only watch; the waiting for sockets and the variant with
-- `poll`; the interactive programs and the Windows interface; the sending of requests and the
-- reconnection of a client; the site on local files, and so the downloads of the queue, which copy from
-- one kind of site to another; of the platform back ends all but what is named above, which wraps
-- system calls.
pub mod Prelude
pub mod Hex
pub mod Platform
pub mod Server
pub mod Client
