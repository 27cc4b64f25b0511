-- ===== src/Dispatch/All.antt =====
-- `HandleAllMethod` of src/CClient.cpp and `handleMethod` of src/MethodHandler.cpp.
use spy_socket.Cgi.{Cgi, new_cgi, close_cgi, check_is_cgi, set_env_var}
use spy_socket.Config.{ConfigStruct}
use spy_socket.Config.Cluster.{Cluster}
use spy_socket.Dispatch.{
  World, CClient, Run, done, uncaught, unfinished, Handled, only, dropped, run_script,
  start_process, by_method,
}
use spy_socket.Dispatch.Running.{Poll, returns, handle_cgi_method}
use spy_socket.Location.{get_location}
use spy_socket.Parsing.{Parser}
use spy_socket.Prelude.{
  ◌+◌, Bool, true, false, not, ◌&&◌, [], ◌∷◌, ◌++◌, Option, none, some, if◌then◌else◌, is_some,
  take, drop,
}
use spy_socket.Prelude.Text.{Bytes, codes, str_eq, find}
use spy_socket.Prelude.Text.Map.{lookup, at_or_empty}

-- The handler that is there, or a new one.
unfoldable pub handler_of : World → CClient → Cgi
handler_of w c = elim (c.cgi_handler) [ some cgi ↦ cgi | none ↦ new_cgi w.unset ]

-- Behind check_is_cgi.
unfoldable pub dispatch : World → CClient → Bool × Cgi → Run Handled
dispatch w c (true, cgi) = run_script w c cgi
dispatch w c (false, cgi) = elim (close_cgi w.terminates cgi) [
  | none ↦ unfinished
  | some _ ↦ by_method w (dropped c)
]

unfoldable pub handle_all_method : World → Poll → CClient → Run Handled
handle_all_method w poll c =
    if c.is_cgi_request && is_some c.cgi_handler
    then (if returns w poll c then done (only (handle_cgi_method w poll c)) else unfinished)
    else if not c.is_cgi_request
    then dispatch w c (check_is_cgi (handler_of w c) c.parser.start_line)
    else by_method w (record c { cgi_handler = some (handler_of w c) })

-- The host, as the key of its configuration.
unfoldable pub host_key : Bytes → Bytes
host_key host = elim (find (codes "localhost") host) [
  | none ↦ host
  | some i ↦ take i host ++ (codes "127.0.0.1" ++ drop (i + 9) host)
]

unfoldable pub config_at : Bytes → Cluster → ConfigStruct → ConfigStruct
config_at key [] missing = missing
config_at key ((k, config) ∷ cluster) missing =
    let rest = config_at key cluster missing in if str_eq k key then config else rest

-- The client of a new request.
unfoldable pub new_client : ConfigStruct → Parser → CClient
new_client config parser = record {
  name_method = at_or_empty (codes "method") parser.start_line;
  uri = at_or_empty (codes "uri") parser.start_line;
  mutable_config = config;
  parser = parser;
  members = record { name_location = []; file_path = []; chunked_sending = false };
  intialized = true;
  cgi_handler = none;
  is_cgi_request = false;
}

-- The handler of a new request, which knows its location.
unfoldable pub located : World → CClient → Cgi
located w c = record (new_cgi w.unset) {
  current_location = (get_location w.unset c.uri c.mutable_config).1;
}

-- What becomes of the start of a process in `handleMethod`; an error is dropped with the handler.
unfoldable pub opened : CClient → Option (Bool × Cgi) → Run CClient
opened c none = unfinished
opened c (some (true, cgi)) = done (record c { cgi_handler = some cgi; is_cgi_request = true })
opened c (some (false, cgi)) = done (dropped c)

unfoldable pub open_script : World → CClient → Bool × Cgi → Run CClient
open_script w c (false, cgi) = done (record c { cgi_handler = some cgi })
open_script w c (true, cgi) = elim (set_env_var cgi c.parser) [
  | none ↦ uncaught
  | some cgi' ↦ opened c (start_process w c cgi')
]

unfoldable pub handle_method : World → Cluster → Parser → CClient → Run CClient
handle_method w cluster parser c = elim (lookup (codes "host") parser.headers) [
  | none ↦ uncaught
  | some host ↦
      if c.intialized
      then done c
      else (let new = new_client (config_at (host_key host) cluster w.no_config) parser in
          open_script w new (check_is_cgi (located w new) parser.start_line))
]
