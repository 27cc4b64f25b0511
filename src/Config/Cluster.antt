-- ===== src/Config/Cluster.antt =====
-- src/Config.cpp: the servers of a configuration file. `_cluster` is a std::map, so its entries are in
-- the order of their keys. The exceptions of the classes of Config are their texts. Output to the
-- terminal is not modelled.
pub mod Valid
use spy_socket.Chunked.{Overflow}
use spy_socket.Config.{LocationStruct, ConfigStruct}
use spy_socket.Config.Server.{has_port, single_server_config}
use spy_socket.Prelude.{
  ℕ, Bool, true, false, not, ◌&&◌, ◌||◌, List, [], ◌∷◌, ◌++◌, Option, none, some, ltb, ◌==◌,
  if◌then◌else◌, is_empty,
}
use spy_socket.Prelude.Except.{Except, ok, throw, ◌>>=◌}
use spy_socket.Prelude.Text.{Bytes, codes, str_eq, contains}
use spy_socket.Prelude.Text.Words.{skip_white, drop_white, before, segments_of}
use spy_socket.Time.{print_nat}

abbrev pub Cluster : Type 0
Cluster = List (Bytes × ConfigStruct)

-- The order of std::string, as that of unsigned characters.
unfoldable pub less : Bytes → Bytes → Bool
less [] [] = false
less [] (d ∷ t) = true
less (c ∷ s) [] = false
less (c ∷ s) (d ∷ t) = let rest = less s t in if c == d then rest else ltb c d

-- _cluster.insert(pair), which leaves a key that is present alone
unfoldable pub insert_server : Bytes → ConfigStruct → Cluster → Cluster
insert_server key conf [] = (key, conf) ∷ []
insert_server key conf ((k, c) ∷ cluster) =
    let rest = insert_server key conf cluster in
    if str_eq key k
    then (k, c) ∷ cluster
    else if less key k
    then (key, conf) ∷ (k, c) ∷ cluster
    else (k, c) ∷ rest

-- Does one of the ports stand in a list of ports?
unfoldable pub shares_port : List ℕ → List ℕ → Bool
shares_port [] qs = false
shares_port (p ∷ ps) qs = has_port p qs || shares_port ps qs

-- The loop over the servers that are there.
unfoldable pub is_taken : ConfigStruct → Cluster → Bool
is_taken conf [] = false
is_taken conf ((k, c) ∷ cluster) =
    (str_eq c.host conf.host && shares_port conf.listen c.listen) || is_taken conf cluster

abbrev pub key_of : Bytes → ℕ → Bytes
key_of host port = host ++ (codes ":" ++ print_nat port)

-- The end of `_createConfigStruct`, for a server with these ports.
unfoldable pub place_server : List ℕ → ConfigStruct → Cluster → Except Cluster
place_server [] conf cluster = throw (codes "Missing listen directive in server configuration")
place_server (port ∷ ports) conf cluster =
    if is_empty conf.host
    then throw (codes "Missing host directive in server configuration")
    else if is_empty conf.location
    then throw (codes "Missing location blocks in server configuration")
    else ok (insert_server (key_of conf.host port) conf cluster)

-- `_createConfigStruct` behind the constructor of SingleServerConfig
unfoldable pub add_server : Cluster → ConfigStruct → Except Cluster
add_server cluster conf =
    if is_taken conf cluster then throw [] else place_server conf.listen conf cluster

-- What the compiled program does where C++ leaves it open: the members of a ConfigStruct that its
-- constructor does not set, and the conversions that overflow.
pub record Setting : Type 0 where
  pub auto_index : Bool
  pub client_max_body_size : ℕ
  pub over : Overflow

abbrev pub new_config : Setting → ConfigStruct
new_config set = record {
  server_name = [];
  host = [];
  root = [];
  index_page = [];
  auto_index = set.auto_index;
  client_max_body_size = set.client_max_body_size;
  listen = [];
  location = [];
  error_page = [];
}

unfoldable pub create_config_struct : Setting → Bytes → Cluster → Except Cluster
create_config_struct set server cluster =
    if contains (codes "server_name") server
    then single_server_config set.over server (new_config set) >>= add_server cluster
    else throw (codes "Missing server_name in server configuration")

-- A line up to its ';', without the white space around it.
unfoldable pub clean_line : Bytes → Bytes
clean_line line = drop_white (before (λ c. c == b';') (skip_white line))

unfoldable pub clean_lines : List Bytes → Bytes
clean_lines [] = []
clean_lines (l ∷ ls) =
    let rest = clean_lines ls in
    if is_empty (clean_line l) then rest else clean_line l ++ (b'\n' ∷ rest)

unfoldable pub parse_server_block : Setting → Bytes → Cluster → Except Cluster
parse_server_block set block = create_config_struct set (clean_lines (segments_of b'\n' block))

-- The state of the loop of `_checkBrackets`.
pub record Scan : Type 0 where
  pub open_server : Bool
  pub open_location : Bool
  pub text : Bytes
  pub buffer : Bytes
  pub cluster : Cluster

abbrev server_closed : Scan → Cluster → Except Scan
server_closed s cluster = ok (record {
  open_server = false;
  open_location = s.open_location;
  text = [];
  buffer = [];
  cluster = cluster;
})

-- A line that is not empty, which has been added to the text of the block.
unfoldable pub scan_line : Setting → Scan → Except Scan
scan_line set s =
    if contains (codes "server {") s.buffer
    then (if s.open_server
        then throw (codes "Wrong Syntax in .conf file, server-block inside server-block found")
        else ok (record s { open_server = true }))
    else if contains (codes "location ") s.buffer
    then (if not (contains (codes " {") s.buffer) || (not s.open_server || s.open_location)
        then throw (codes "Wrong location-block found inside .conf file")
        else ok (record s { open_location = true }))
    else if contains (codes "}") s.buffer
    then (if s.open_location
        then ok (record s { open_location = false })
        else parse_server_block set s.text s.cluster >>= server_closed s)
    else ok s

unfoldable pub scan_next : Setting → Bytes → Scan → Except Scan
scan_next set line s =
    if is_empty line
    then ok (record s { buffer = line })
    else scan_line set (record s { buffer = line; text = s.text ++ (line ++ (b'\n' ∷ [])) })

unfoldable pub scan_lines : Setting → List Bytes → Scan → Except Scan
scan_lines set [] s = ok s
scan_lines set (l ∷ ls) s = scan_next set l s >>= scan_lines set ls

unfoldable pub scan_end : Scan → Except Cluster
scan_end s =
    if s.open_location || s.open_server
    then throw (codes "Invalid brackets in .conf file")
    else if is_empty s.buffer
    then ok (s.cluster)
    else throw (codes "Content is forbidden outside server-block")

abbrev pub new_scan : Scan
new_scan = record {
  open_server = false;
  open_location = false;
  text = [];
  buffer = [];
  cluster = [];
}

unfoldable pub check_brackets : Setting → Bytes → Except Cluster
check_brackets set all = scan_lines set (segments_of b'\n' all) new_scan >>= scan_end
