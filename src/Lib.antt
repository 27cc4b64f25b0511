-- ===== src/Lib.antt =====
-- Verification of SpySocket, an HTTP/1.1 server in C++98: the parser of its configuration
-- file, the parser of requests, the decoder of chunked bodies, the choice of a location, the methods
-- GET, DELETE and POST, the scripts (CGI), the choice between them, and the responses.
--
-- The server starts with a configuration file (`Config`, which gives each server block to a
-- `SingleServerConfig`). A connection owns a parser (`ParsingRequest`) and a client (`CClient`). The
-- server reads from its socket and hands each piece to `feed_data`, which appends it to a buffer and
-- goes on with the state machine: start line, headers, body, complete, or error. A body in chunks is
-- given to `refactor_data`, whose static variables are one state for the whole process. A complete
-- request goes to `handleMethod`, which finds the configuration of its host and starts a process if
-- the target names a script. Once the socket can be written to, `HandleAllMethod` gives the request
-- to its method; the output of a process comes by `HandleCGIMethod`. A method looks for the location
-- that serves the target and maps it to a file, and its answer is the text of a response.
--
-- - Prelude: numbers, lists and the operations of std::string and std::map.
-- - Parsing: the state of the parser (inc/parsing_request.hpp: `ParsingRequest`), with the results and
--   failures of its methods.
--   - Parsing/Uri, Parsing/Start, Parsing/Checks, Parsing/ContentType, Parsing/Headers: the methods of
--     src/Parsing/parsing_request.cpp in the order of the file. A method that returns bool is a
--     computation on the parser; `stop` is `return false` with the state that it leaves.
--   - Parsing/Feed: `parse_body`, `feed_data`, `reset` and the accessors, on a `Machine`, which is the
--     parser together with the decoder's static variables (src/Parsing/utils/utils.cpp has
--     `get_parse_status`).
--   - Parsing/Frame, Parsing/Methods, Parsing/WellFormed, Parsing/Uri/Normal, Parsing/Uri/Safe,
--     Parsing/Feed/Total, Parsing/Feed/Invariant, Parsing/Feed/Bounds: proofs.
-- - Chunked: src/POST/unchunk.cpp, `refactor_data`, and Chunked/Number, `hex_to_dec`. `Chunker` holds the static
--   variables, a `Turn` is what a call leaves. Chunked/Atoi: the conversion of text to `int`, which other
--   parts use as well. Chunked/Total, Chunked/RoundTrip, Chunked/Hex, Chunked/Request: proofs.
-- - Config: the records of inc/Struct.hpp.
--   - Config/Values, Config/Directives, Config/Server: src/singleserver.cpp, from the tests on single
--     values to the constructor of `SingleServerConfig`. An exception is `throw` with its text.
--     Config/Values/Ipv4, Config/Values/Size, Config/Directives/Valid, Config/Server/Valid: proofs.
--   - Config/Cluster: src/Config.cpp, `_checkBrackets` and what it calls. `Cluster` is `_cluster`, a
--     `Scan` the state of the loop over the lines. Config/Cluster/Valid: proofs.
--   - Config/Redirects: the two checks of src/Config.cpp and `StartToSet`. Config/Redirects/Ends,
--     Config/Redirects/Apart: proofs.
-- - Location: src/POST/match_location.cpp, `get_location`.
-- - PathSecurity: src/utils/path_security.cpp, `is_path_secure`.
-- - Disk: the file system, as the answers of the system calls to a path.
-- - Delete: src/Methods/DELETE.cpp, `PerformDelete` and what it calls. Delete/Loops, Delete/Safe: proofs.
-- - Get: src/Methods/Get.cpp. Get/Match: `matchLocation`; Get/File: files and parts of files;
--   Get/Index: directories; Get/Method: `MethodGet`. Get/Match/Ends, Get/File/Numbers, Get/File/Partial,
--   Get/Method/Safe, Get/Method/Ends: proofs.
-- - Post: src/POST/pwist.cpp, `split` and `handle_url_encoded`; Post/Upload: `handle_upload` and
--   `main_response`; Post/Method: `postMethod`. Post/Form, Post/Upload/Saved: proofs.
-- - Cgi: the state of a request for a script (inc/CGI.hpp), `check_is_cgi` (src/CGI/cgi_utils.cpp),
--   the environment and the output; Cgi/Process: the start of the process (src/CGI/cgi.cpp).
--   Cgi/Script, Cgi/Process/Started, Cgi/Process/Interpreter: proofs.
-- - Dispatch: `CClient` and the answers of the methods (src/CClient.cpp). Dispatch/Relay:
--   `formatCGIResponse`; Dispatch/Running: `HandleCGIMethod`; Dispatch/All: `HandleAllMethod` and
--   `handleMethod` (src/MethodHandler.cpp). Dispatch/Relay/Lines, Dispatch/Relay/ReadBack,
--   Dispatch/Settled, Dispatch/Ends, Dispatch/Kept, Dispatch/Reach: proofs.
-- - Serving: what src/server.cpp does for a connection whose socket can be written to. Serving/Afresh,
--   Serving/Sent: proofs.
-- - Time: src/utils/ft_time.cpp, `epochToUTC`, `ft_time_format` and `ft_random_time`. Time/Gregorian: the
--   calendar by closed formulas. Time/Calendar: proofs.
-- - Responses: src/POST/messages.cpp and src/utils/CookieManager.cpp; Responses/Pages: the pages for
--   errors (src/utils/RespondError.cpp). Responses/Framing, Responses/Framed, Responses/Chosen,
--   Responses/Served: proofs.
-- - Tests: runs on concrete input.
--
-- Text is a list of bytes. A number of type size_t or int keeps its bounds and its wrap-around where
-- the code can reach them. What C++ leaves open is a parameter: the value of an uninitialised `int`
-- in `parse_hex`, an overflowing conversion to `int`, the bools of an unset location, the members that a new
-- `ConfigStruct` leaves unset (the last two and the conversion are a `Setting`), and an uninitialised
-- `struct stat`. So are the time, and the answers of the system: those of the file system (`Disk`,
-- `Files`), those to the start of a process (`Launch`), and those to a wait for one and to the reads
-- of its output (`Poll`); and whether a process that is sent SIGTERM ends (`terminates` of a `World`),
-- for which `close_cgi` waits without a limit.
--
-- Loops that are not over a list run on fuel, and `none` says that it ran out. `feed_data` has three
-- rounds, one for each state that can go on; a round in which `at` or `substr` throws gives `none`
-- as well. The loop of `refactor_data` has the length of its buffer
-- and two more, since all rounds but the first take a line end off. The loops over the path of a URI
-- have its length, which shrinks; those of GET and DELETE have one round more. The loop over years has
-- the number of days, since a year takes 365. The loop that follows redirects has one round more than
-- there are locations, since it visits a new one in each round. The loop that writes a body to a
-- process runs on the results of the writes, and `none` says that the last one has not returned.
--
-- Not modelled: output to logs and to the terminal, failed allocations but those of a vector beyond
-- its limit, `unchunk_data` and the functions of GET that nothing calls, `print_time`, the command
-- line, and the rest of the loop over the sockets: new connections, input, the pipes of scripts, and
-- the calls of epoll.
pub mod Prelude
pub mod Parsing
pub mod Chunked
pub mod Config
pub mod Location
pub mod PathSecurity
pub mod Disk
pub mod Dispatch
pub mod Serving
pub mod Delete
pub mod Get
pub mod Post
pub mod Cgi
pub mod Time
pub mod Responses
mod Tests
