-- ===== src/Cgi.antt =====
-- The state of a CGI request: inc/CGI.hpp, with `check_is_cgi` and `isExtensionAllowed` of
-- src/CGI/cgi_utils.cpp and what src/CGI/cgi.cpp does to the state apart from starting the process. A
-- descriptor or a process id that is not set is `none`. `status` is never used.
pub mod Script
pub mod Process
use Prim.Native.String.{String}
use spy_socket.Config.{LocationStruct}
use spy_socket.Parsing.{Parser}
use spy_socket.Prelude.{
  ℕ, ◌+◌, Bool, true, false, not, ◌||◌, ◌&&◌, List, [], ◌∷◌, ◌++◌, Option, none, some, leb, ◌==◌,
  if◌then◌else◌, is_empty, drop, take, is_some,
}
use spy_socket.Prelude.Text.{Bytes, codes, str_eq, is_prefix, find, find_last}
use spy_socket.Prelude.Text.Map.{Map, lookup, insert}

pub record Cgi : Type 0 where
  pub env_vars : Map
  pub script_path : Bytes
  pub path_info : Bytes
  pub query_string : Bytes
  pub cgi_fd : Option ℕ
  pub cgi_pid : Option ℕ
  pub cgi_start_time : ℕ
  pub output_buffer : Bytes
  pub is_cgi : Bool
  pub error_code : ℕ
  pub error_message : Bytes
  pub current_location : LocationStruct

-- The constructor; the location holds what a new `LocationStruct` does.
unfoldable pub new_cgi : LocationStruct → Cgi
new_cgi unset = record {
  env_vars = [];
  script_path = [];
  path_info = [];
  query_string = [];
  cgi_fd = none;
  cgi_pid = none;
  cgi_start_time = 0;
  output_buffer = [];
  is_cgi = false;
  error_code = 0;
  error_message = [];
  current_location = unset;
}

unfoldable pub holds_text : List Bytes → Bytes → Bool
holds_text [] t = false
holds_text (s ∷ ss) t = str_eq s t || holds_text ss t

unfoldable pub is_extension_allowed : Bytes → LocationStruct → Bool
is_extension_allowed script_path location =
    if is_empty location.cgi_ext then true else elim (find_last b'.' script_path) [
      | none ↦ false
      | some dot ↦ holds_text location.cgi_ext (drop dot script_path)
    ]

abbrev pub cgi_prefix : Bytes
cgi_prefix = codes "/cgi-bin/"

-- `uri_without_query` and `query_string`
unfoldable pub split_query : Bytes → Bytes × Bytes
split_query uri = elim (find (codes "?") uri) [
  | none ↦ (uri, [])
  | some i ↦ (take i uri, drop (i + 1) uri)
]

-- The name of the script and `path_info`
unfoldable pub split_script : Bytes → Bytes × Bytes
split_script part = elim (find (codes "/") part) [
  | none ↦ (part, [])
  | some i ↦ (take i part, drop i part)
]

-- The parts of the target, which `check_is_cgi` sets before it looks at the extension.
unfoldable pub set_parts : Cgi → Bytes → Cgi
set_parts c uri =
    let path = (split_query uri).0 in
    let part = split_script (drop 9 path) in
    record c {
      is_cgi = true;
      query_string = (split_query uri).1;
      script_path = cgi_prefix ++ part.0;
      path_info = part.1;
    }

-- The part of `check_is_cgi` behind the test on the prefix.
unfoldable pub read_script : Cgi → Bytes → Bool × Cgi
read_script c uri =
    let c' = set_parts c uri in
    if not (is_extension_allowed c'.script_path c'.current_location)
    then (
      false,
      record c' {
        is_cgi = false;
        error_code = 403;
        error_message = codes "CGI script extension not allowed";
      },
    )
    else (true, c')

unfoldable pub check_is_cgi : Cgi → Map → Bool × Cgi
check_is_cgi c start_line = elim (lookup (codes "uri") start_line) [
  | none ↦ (false, record c { is_cgi = false })
  | some uri ↦
      if not (is_prefix cgi_prefix uri)
      then (false, record c { is_cgi = false })
      else read_script c uri
]

-- m.find(k) != m.end() ? m.at(k) : d
abbrev pub value_or : Bytes → Bytes → Map → Bytes
value_or k d m = elim (lookup k m) [ none ↦ d | some v ↦ v ]

-- SERVER_NAME; `none` is the exception of `at`.
unfoldable pub server_name_of : Map → Option Bytes
server_name_of headers =
    if is_some (lookup (codes "host") headers)
    then lookup (codes "host_name") headers
    else some (codes "localhost")

abbrev pub put : String → Bytes → Map → Map
put k v m = insert (codes k) v m

-- The environment that is made of the three headers that have to be there.
unfoldable pub make_env : Cgi → Map → Map → Bytes → Bytes → Bytes → Map
make_env c start headers name host port =
    let version = value_or (codes "version") (codes "HTTP/1.1") start in
    let translated = if is_empty c.path_info then [] else c.current_location.root ++ c.path_info in
    let chunked = str_eq (value_or (codes "transfer-encoding") [] headers) (codes "chunked") in
    let basic = put "SERVER_PORT" port (
      put "REMOTE_HOST" host (
        put "SERVER_SOFTWARE" (codes "SpySocket/1.0") (
          put "GATEWAY_INTERFACE" (codes "CGI/1.1") (
            put "HTTP_USER_AGENT" (value_or (codes "user-agent") [] headers) (
              put "CONTENT_LENGTH" (value_or (codes "content-length") (codes "0") headers) (
                put "CONTENT_TYPE" (value_or (codes "content-type") [] headers) (
                  put "SERVER_NAME" name (
                    put "SERVER_PROTOCOL" version (
                      put "HTTP_VERSION" version (
                        put "QUERY_STRING" c.query_string (
                          put "PATH_INFO" c.path_info (
                            put "SCRIPT_NAME" c.script_path (
                              put "REQUEST_METHOD" (value_or (codes "method") (codes "GET") start)
                                []))))))))))))) in
    put "PATH_TRANSLATED" translated (if chunked then put "TRANSFER_ENCODING" [] basic else basic)

-- `set_env_var`, which returns true wherever it returns; `none` is the exception of `at`.
unfoldable pub set_env_var : Cgi → Parser → Option Cgi
set_env_var c request = elim (server_name_of request.headers) [
  | none ↦ none
  | some name ↦ elim (lookup (codes "host") request.headers) [
    | none ↦ none
    | some host ↦ elim (lookup (codes "port") request.headers) [
      | none ↦ none
      | some port ↦
          some
            (record c { env_vars = make_env c request.start_line request.headers name host port })
    ]
  ]
]

-- What read gives: bytes, the end of the pipe, nothing yet, or a failure.
pub data Reading : Type 0 where
  bytes : Bytes → Reading
  end_of_file : Reading
  would_block : Reading
  broken : Reading

-- `read_output` with a descriptor.
unfoldable pub take_reading : Cgi → Reading → Bool × Cgi
take_reading c (bytes s) = (true, record c { output_buffer = c.output_buffer ++ s })
take_reading c end_of_file = (false, record c { cgi_fd = none })
take_reading c would_block = (false, c)
take_reading c broken = (false, record c { cgi_fd = none })

unfoldable pub read_output : Cgi → Reading → Bool × Cgi
read_output c reading = if not (is_some c.cgi_fd) then (false, c) else take_reading c reading

unfoldable pub is_cgi_timeout : Cgi → ℕ → ℕ → Bool
is_cgi_timeout c current_time timeout_seconds =
    if not (is_some c.cgi_pid) || c.cgi_start_time == 0
    then false
    else leb (c.cgi_start_time + timeout_seconds) current_time

-- A process that is left is sent SIGTERM and waited for: `none` is a wait that never ends, for a
-- process that goes on.
unfoldable pub close_cgi : Bool → Cgi → Option Cgi
close_cgi terminates c =
    if is_some c.cgi_pid && not terminates
    then none
    else some (record c { cgi_fd = none; cgi_pid = none; cgi_start_time = 0 })
