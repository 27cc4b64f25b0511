-- ===== src/Tests/Clients.antt =====
-- Runs of the life of a client, and its properties at concrete input.
use spy_socket.Cgi.{
  Cgi, set_env_var, server_name_of, make_env, take_reading, read_output, is_cgi_timeout, bytes,
  end_of_file,
}
use spy_socket.Cgi.Process.{execute}
use spy_socket.Config.{ConfigStruct}
use spy_socket.Config.Cluster.{Cluster}
use spy_socket.Dispatch.{
  World, CClient, done, client_page, format_cgi_response, start_process, started, run_script,
  answer_get, delete_text, answer_delete, answer_post, finished, by_method,
}
use spy_socket.Dispatch.All.{
  handler_of, dispatch, handle_all_method, host_key, config_at, new_client, located, opened,
  open_script, handle_method,
}
use spy_socket.Dispatch.Ends.{IsEnded, handle_all_method-IsEnded}
use spy_socket.Dispatch.Kept.{Runs}
use spy_socket.Dispatch.Reach.{fresh, new_one, next, opens, Reach-Runs}
use spy_socket.Dispatch.Relay.{
  split_output, chomp, kept_lines, has_content_type, relayed_lines, relay, format_output,
}
use spy_socket.Dispatch.Relay.ReadBack.{IsReadBack, format_output-IsReadBack}
use spy_socket.Dispatch.Running.{
  Poll, ended, running, read_loop, looks_whole, settle, is_ended, go_on, with_handler,
  handle_cgi_method,
}
use spy_socket.Dispatch.Settled.{Waits, Settled, handle_cgi_method-ends}
use spy_socket.Parsing.{Parser}
use spy_socket.Prelude.{arith, false, none, true, [], ◌∷◌, some, ◌≡◌, ◌⊎◌, refl}
use spy_socket.Prelude.Text.{Bytes, codes}
use spy_socket.Serving.{
  Connection, took, broken, Served, fill, erase_sent, finish, send_response, serve,
}
use spy_socket.Serving.Sent.{GoesOn, Finished, serve-ends}
use spy_socket.Tests.{files, site, server, start}
use spy_socket.Tests.Scripts.{scripts, scripted, disk, launch, found}
use spy_socket.Tests.Serving.{host, now}

unfoldable clients : Unit {0}
unfolding scripts server_name_of make_env set_env_var take_reading read_output is_cgi_timeout
    execute client_page format_cgi_response started run_script answer_get delete_text answer_delete
    answer_post finished by_method handler_of dispatch handle_all_method host_key config_at
    new_client located opened open_script handle_method split_output chomp kept_lines
    has_content_type relayed_lines relay format_output read_loop looks_whole settle is_ended go_on
    with_handler handle_cgi_method fresh start_process
clients = tt

abbrev with_scripts : ConfigStruct
with_scripts = record server { location = (codes "/", scripted) ∷ [] }

abbrev cluster : Cluster
cluster = (codes "127.0.0.1:80", with_scripts) ∷ []

abbrev world : World
world = record {
  host = host;
  disk = disk;
  files = files;
  unset = site;
  no_config = server;
  launch = launch;
  terminates = true;
}

abbrev asking : Parser
asking = record (start.parser) {
  start_line = (codes "method", codes "POST") ∷ (codes "uri", codes "/cgi-bin/a.py/x/y?n=1") ∷ [];
  headers =
      (codes "host", codes "localhost:80")
      ∷ (codes "host_name", codes "localhost")
      ∷ (codes "port", codes "80")
      ∷ [];
  body_content = codes "hello";
}

-- The request starts the script.
abbrev asked : CClient
asked = record (new_client with_scripts asking) {
  is_cgi_request = true;
  cgi_handler = some (record found {
    env_vars =
        make_env found asking.start_line asking.headers (codes "localhost") (codes "localhost:80")
          (codes "80");
    cgi_pid = some 42;
    cgi_fd = some 7;
    cgi_start_time = 1000;
  });
}

opens_ok : handle_method world cluster asking (fresh world asking) ≡ done asked
unfolding clients
opens_ok = refl

Reach-Runs_example : Runs asked
unfolding clients
Reach-Runs_example = Reach-Runs world cluster asking asked (next new_one (opens asking refl))

abbrev output : Bytes
output = codes "Content-Type: text/plain\n\nhi"

-- The output comes in two pieces, and the process ends behind them.
abbrev poll : Poll
poll = record {
  first = running;
  second = ended true;
  now = 1001;
  early = bytes (codes "Content-Type: text") ∷ [];
  late = bytes (codes "/plain\n\nhi") ∷ end_of_file ∷ [];
}

abbrev waiting : Cgi
waiting = record found { cgi_pid = some 42; cgi_fd = some 7; cgi_start_time = 1000 }

abbrev runner : CClient
runner = record asked { cgi_handler = some waiting }

poll_ok :
    (handle_cgi_method world poll runner).0
    ≡ relay now (codes "Content-Type: text/plain\n\n") (codes "hi")
unfolding clients
poll_ok = refl

handle_cgi_method-ends_example :
    Waits runner (some 42) (handle_cgi_method world poll runner)
    ⊎ Settled (handle_cgi_method world poll runner)
unfolding clients
handle_cgi_method-ends_example = handle_cgi_method-ends world poll runner waiting refl

format_output-IsReadBack_example :
    (text : Bytes) × (format_output now (codes "A:b\r\n\r\nhi\n\n") ≡ some text)
    × IsReadBack (codes "hi\n\n") text
unfolding clients
format_output-IsReadBack_example =
    format_output-IsReadBack now (codes "A:b") [] (codes "hi\n\n")
      (((refl, (refl, (refl, tt))), refl), tt)

handle_all_method-IsEnded_example :
    IsEnded (handle_all_method world poll (new_client with_scripts asking))
unfolding clients
handle_all_method-IsEnded_example =
    handle_all_method-IsEnded world poll (new_client with_scripts asking)
      (codes "cgi-bin/a.py/x/y?n=1") refl refl refl

abbrev connection : Connection
connection = record {
  response = codes "hello";
  ready_to_respond = true;
  client_data = asked;
  bytes_sent = 0;
  should_close_connection = false;
  parser = some asking;
  chunker = start.chunker;
  no_parser = asking;
}

abbrev left_over : Connection
left_over = record connection { response = codes "llo"; bytes_sent = 2 }

serve_ok :
    serve world poll (took 2) connection
    ≡ done (record { piece = codes "he"; next = some left_over })
unfolding clients fill erase_sent finish send_response serve
serve_ok = refl

serve-ends_example :
    (s : Served) × (serve world poll (took 2) connection ≡ done s)
    × (GoesOn connection s ⊎ Finished connection s ⊎ (took 2 ≡ broken) × (s.next ≡ none))
unfolding clients fill erase_sent finish send_response serve
serve-ends_example = serve-ends world poll (took 2) connection connection refl (ground arith)
