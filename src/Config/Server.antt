-- ===== src/Config/Server.antt =====
-- A server block in src/singleserver.cpp: the class `SingleServerConfig` with the configuration that it
-- fills. An exception ends the start of the program, so the state behind one is not kept.
pub mod Valid
use spy_socket.Chunked.{Overflow, atoi}
use spy_socket.Config.{LocationStruct, ConfigStruct}
use spy_socket.Config.Directives.{fill_location_struct, strip_white}
use spy_socket.Config.Values.{is_valid_host, is_valid_location_path, parse_body_size}
use spy_socket.Prelude.{
  ℕ, Bool, true, false, not, ◌&&◌, ◌||◌, List, [], ◌∷◌, ◌++◌, Option, none, some, min, ltb, ◌==◌,
  if◌then◌else◌, is_empty, all, ◌≤◌,
}
use spy_socket.Prelude.Except.{Except, ok, throw, ◌>>=◌}
use spy_socket.Prelude.Text.{Bytes, codes, str_eq, contains, is_digit, decimal}
use spy_socket.Prelude.Text.Words.{is_white, some_of, before, after, words, segments_of, ended_of}

-- `_conf` and `cbbsSet`
pub record Server : Type 0 where
  pub conf : ConfigStruct
  pub cbbs_set : Bool

abbrev pub with_conf : ConfigStruct → Server → Server
with_conf conf s = record s { conf = conf }

unfoldable pub has_port : ℕ → List ℕ → Bool
has_port port [] = false
has_port port (p ∷ ps) = p == port || has_port port ps

-- `ss >> port` on digits: a number that does not fit gives the largest unsigned short.
abbrev pub port_of : Bytes → ℕ
port_of value = min (decimal value) 65535

unfoldable pub add_listen : Overflow → Bytes → ConfigStruct → Except ConfigStruct
add_listen over value conf =
    if not (all is_digit value)
    then throw (codes "Error: 'listen' directive is required and must be properly formatted.")
    else if atoi over value == 0 || ltb 65535 (atoi over value)
    then throw (codes "Invalid listen port: must be between 1 and 65535")
    else if has_port (port_of value) conf.listen
    then throw (codes "Duplicate listen port: " ++ value)
    else ok (record conf { listen = conf.listen ++ (port_of value ∷ []) })

unfoldable pub set_host : Bytes → ConfigStruct → Except ConfigStruct
set_host value conf =
    if is_valid_host value
    then ok (record conf { host = value })
    else throw (codes "Invalid host format: " ++ value)

unfoldable pub set_root : Bytes → ConfigStruct → Except ConfigStruct
set_root value conf =
    if not (is_empty conf.root)
    then throw (codes "only one location-block with same key allowed")
    else ok (record conf { root = value })

unfoldable pub set_server_name : Bytes → ConfigStruct → Except ConfigStruct
set_server_name value conf =
    if not (is_empty conf.server_name)
    then throw (codes "duplicate Server Name .")
    else ok (record conf { server_name = value })

-- The lines of a location block, up to the one that closes it.
unfoldable pub block_lines : List Bytes → List Bytes
block_lines [] = []
block_lines (l ∷ ls) = let rest = block_lines ls in if str_eq l (codes "}") then [] else l ∷ rest

unfoldable pub location_key : Bytes → Bytes
location_key line = before is_white (after is_white line)

abbrev pub add_location : Bytes → ConfigStruct → LocationStruct → Except ConfigStruct
add_location key conf loc = ok (record conf { location = conf.location ++ ((key, loc) ∷ []) })

unfoldable pub handle_location_lines : Overflow → List Bytes → ConfigStruct → Except ConfigStruct
handle_location_lines over [] conf = ok conf
handle_location_lines over (line ∷ lines) conf =
    if not (is_valid_location_path (location_key line))
    then throw (codes "Invalid location path: " ++ location_key line)
    else fill_location_struct over (block_lines lines) >>= add_location (location_key line) conf

unfoldable pub handle_location : Overflow → Bytes → ConfigStruct → Except ConfigStruct
handle_location over block = handle_location_lines over (segments_of b'\n' block)

unfoldable pub has_page : Bytes → List (Bytes × Bytes) → Bool
has_page code [] = false
has_page code (p ∷ ps) = str_eq p.0 code || has_page code ps

unfoldable pub is_error_status : ℕ → Bool
is_error_status code = not (ltb code 400 || ltb 599 code)

unfoldable pub add_error_page : Overflow → Bytes → Bytes → ConfigStruct → Except ConfigStruct
add_error_page over status_code path conf =
    if not (is_error_status (atoi over status_code))
    then throw (codes "Invalid error status code: " ++ status_code)
    else if has_page status_code conf.error_page
    then throw (codes "Duplicate error_page entry found for status code: " ++ status_code)
    else ok (record conf { error_page = conf.error_page ++ ((status_code, path) ∷ []) })

abbrev pub error_page_of : Overflow → List Bytes → ConfigStruct → Except ConfigStruct
error_page_of over (directive ∷ status_code ∷ path ∷ []) conf =
    add_error_page over status_code path conf
error_page_of over _ conf =
    throw (codes "Error: 'error_page' must have exactly 2 arguments: status_code and file_path.")

unfoldable pub handle_error_page : Overflow → Bytes → ConfigStruct → Except ConfigStruct
handle_error_page over line = error_page_of over (words line)

unfoldable pub set_body_size : Overflow → Bytes → Server → Except Server
set_body_size over value s =
    if s.cbbs_set
    then throw (codes "Duplicate Client Max Body Size.")
    else parse_body_size over (strip_white value) >>= λ n.
        ok (record { conf = record (s.conf) { client_max_body_size = n }; cbbs_set = true })

abbrev pub on_conf : Server → Except ConfigStruct → Except Server
on_conf s m = m >>= λ conf. ok (with_conf conf s)

-- The switch over the key. The loop that looks for it reads one element behind its array for a key
-- that is unknown; whatever stands there, the key stays unknown.
unfoldable pub run_key : Overflow → Bytes → Bytes → Server → Except Server
run_key over key key_value s =
    let value = after is_white key_value in
    if str_eq key (codes "listen")
    then on_conf s (add_listen over value s.conf)
    else if str_eq key (codes "root")
    then on_conf s (set_root value s.conf)
    else if str_eq key (codes "server_name")
    then on_conf s (set_server_name value s.conf)
    else if str_eq key (codes "location")
    then on_conf s (handle_location over key_value s.conf)
    else if str_eq key (codes "error_page")
    then on_conf s (handle_error_page over key_value s.conf)
    else if str_eq key (codes "host")
    then on_conf s (set_host value s.conf)
    else if str_eq key (codes "client_max_body_size")
    then set_body_size over value s
    else throw (codes "Invalid key ")

unfoldable pub parse_key_value : Overflow → Bytes → Server → Except Server
parse_key_value over key_value s =
    if some_of is_white key_value
    then run_key over (before is_white key_value) key_value s
    else throw (codes "Error: 'listen' directive is required and must be properly formatted.")

-- The first loop of `_setVariables`: what stands behind the first line with a '{'.
unfoldable pub skip_to_brace : List Bytes → List Bytes
skip_to_brace [] = []
skip_to_brace (l ∷ ls) = let rest = skip_to_brace ls in if contains (codes "{") l then ls else rest

-- The second loop, with the text of the location block that it is in.
unfoldable pub read_lines : Overflow → Option Bytes → List Bytes → Server → Except Server
read_lines over none [] s = ok s
read_lines over (some block) [] s = parse_key_value over block s
read_lines over none (l ∷ ls) s = elim (str_eq l (codes "}")) [
  | true ↦ ok s
  | false ↦ elim (contains (codes "location") l) [
    | true ↦ read_lines over (some (l ++ (b'\n' ∷ []))) ls s
    | false ↦ parse_key_value over l s >>= read_lines over none ls
  ]
]
read_lines over (some block) (l ∷ ls) s = elim (str_eq l (codes "}")) [
  | true ↦ parse_key_value over (block ++ (l ++ (b'\n' ∷ []))) s >>= read_lines over none ls
  | false ↦ read_lines over (some (block ++ (l ++ (b'\n' ∷ [])))) ls s
]

unfoldable pub set_variables : Overflow → Bytes → Server → Except Server
set_variables over config = read_lines over none (skip_to_brace (ended_of b'\n' config))

-- The constructor, on the configuration that it is given.
unfoldable pub single_server_config : Overflow → Bytes → ConfigStruct → Except ConfigStruct
single_server_config over server conf =
    set_variables over server (record { conf = conf; cbbs_set = false }) >>= λ s. ok (s.conf)
