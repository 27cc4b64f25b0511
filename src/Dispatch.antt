-- ===== src/Dispatch.antt =====
-- src/CClient.cpp and src/MethodHandler.cpp: the state of one request of a client, and which component
-- answers it. The members of CClient that only src/server.cpp uses are not modelled.
pub mod Relay
pub mod Running
pub mod All
pub mod Settled
pub mod Ends
pub mod Kept
pub mod Reach
use spy_socket.Cgi.{
  Cgi, Reading, would_block, new_cgi, check_is_cgi, set_env_var, read_output, is_cgi_timeout,
  close_cgi,
}
use spy_socket.Cgi.Process.{Launch, execute, execute_with_body}
use spy_socket.Config.{LocationStruct, ConfigStruct}
use spy_socket.Config.Cluster.{Cluster}
use spy_socket.Delete.{
  Files, Response, Deletion, error_page, redirect, no_content, forbidden, out_of_range,
  perform_delete,
}
use spy_socket.Disk.{Disk}
use spy_socket.Dispatch.Relay.{format_output}
use spy_socket.Get.{Host, Client, Outcome, answer, runtime_error, length_error}
use spy_socket.Get.Method.{method_get}
use spy_socket.Location.{get_location}
use spy_socket.Parsing.{Parser}
use spy_socket.Post.Method.{post_method}
use spy_socket.Post.Upload.{Posted, posted}
use spy_socket.Prelude.{
  ℕ, zero, suc, ◌+◌, Bool, true, false, not, ◌&&◌, ◌||◌, List, [], ◌∷◌, ◌++◌, Option, none, some,
  ltb, ◌==◌, if◌then◌else◌, is_empty, is_some, take, drop,
}
use spy_socket.Prelude.Text.{Bytes, codes, str_eq, is_prefix, find}
use spy_socket.Prelude.Text.Map.{lookup, at_or_empty}
use spy_socket.Responses.{Now, handle_redirect, generate_success_resp}
use spy_socket.Responses.Pages.{get_error_page_from_config}

-- What the code takes from outside: the file system, as the GET and POST methods and as the DELETE
-- method see it, what a new `LocationStruct` and a new `ConfigStruct` hold, the answers to the start of
-- a process, and whether a process that is sent SIGTERM ends.
pub record World : Type 0 where
  pub host : Host
  pub disk : Disk
  pub files : Files
  pub unset : LocationStruct
  pub no_config : ConfigStruct
  pub launch : Launch
  pub terminates : Bool

-- `members` are those that the GET method writes.
pub record CClient : Type 0 where
  pub name_method : Bytes
  pub uri : Bytes
  pub mutable_config : ConfigStruct
  pub parser : Parser
  pub members : Client
  pub intialized : Bool
  pub cgi_handler : Option Cgi
  pub is_cgi_request : Bool

-- A call that returns, one that leaves by an exception that nothing catches, or one that waits.
pub data Run {ℓ} (A : Type ℓ) : Type ℓ where
  done : A → Run A
  uncaught : Run A
  unfinished : Run A

-- What a call of `HandleAllMethod` leaves: the response, the client, the paths it removed and the
-- file it wrote.
pub record Handled : Type 0 where
  pub response : Bytes
  pub client : CClient
  pub removed : List Bytes
  pub written : Option (Bytes × Bytes)

abbrev pub only : Bytes × CClient → Handled
only (text, client) = record { response = text; client = client; removed = []; written = none }

-- `getErrorPageFromConfig`
unfoldable pub client_page : World → CClient → ℕ → Bytes × CClient
client_page w c code = (
  get_error_page_from_config w.host.over w.disk w.host.now c.mutable_config code,
  record c { members = record (c.members) { chunked_sending = true } },
)

-- The client behind a call of close_cgi that returns, and the end of the handler
abbrev pub dropped : CClient → CClient
dropped c = record c { cgi_handler = none; is_cgi_request = false }

unfoldable pub format_cgi_response : World → CClient → Bytes → Bytes × CClient
format_cgi_response w c output = elim (format_output w.host.now output) [
  | none ↦ client_page w c 500
  | some text ↦ (text, c)
]

unfoldable pub start_process : World → CClient → Cgi → Option (Bool × Cgi)
start_process w c cgi =
    if str_eq c.name_method (codes "POST")
    then execute_with_body w.disk w.launch cgi c.parser.body_content
    else some (execute w.disk w.launch cgi)

-- `HandleAllMethod` behind the start of a process.
unfoldable pub started : World → CClient → Option (Bool × Cgi) → Run Handled
started w c none = unfinished
started w c (some (true, cgi)) =
    done (only ([], record c { cgi_handler = some cgi; is_cgi_request = true }))
started w c (some (false, cgi)) =
    done (only (client_page w (dropped c) (if ltb 0 cgi.error_code then cgi.error_code else 500)))

unfoldable pub run_script : World → CClient → Cgi → Run Handled
run_script w c cgi = elim (set_env_var cgi c.parser) [
  | none ↦ uncaught
  | some cgi' ↦ started w c (start_process w c cgi')
]

-- The answer to what leaves the GET method.
unfoldable pub answer_get : World → CClient → Outcome × Client → Run Handled
answer_get w c (answer text, m) = done (only (text, record c { members = m }))
answer_get w c (runtime_error text, m) =
    let c' = record c { members = m } in
    done (
      only (
        client_page w c' (
          if is_some (find (codes "405") text)
          then 405
          else if is_some (find (codes "403") text)
          then 403
          else 500)))
answer_get w c (Outcome.out_of_range, m) = uncaught
answer_get w c (length_error, m) = uncaught

-- The text of a response of the DELETE method.
unfoldable pub delete_text : World → ConfigStruct → Response → Option Bytes
delete_text w config (error_page code) =
    some (get_error_page_from_config w.host.over w.disk w.host.now config code)
delete_text w config (redirect l) = some (handle_redirect w.host.now l)
delete_text w config no_content = some (generate_success_resp w.host.now)
delete_text w config forbidden = none
delete_text w config out_of_range = none

unfoldable pub answer_delete : World → CClient → Deletion → Run Handled
answer_delete w c d = elim (delete_text w c.mutable_config d.response) [
  | none ↦ uncaught
  | some text ↦ done (record (only (text, c)) { removed = d.removed })
]

unfoldable pub answer_post : CClient → Posted → Run Handled
answer_post c (posted text file) = done (record (only (text, c)) { written = file })
answer_post c Posted.out_of_range = uncaught

-- `none` stands for a method that does not end.
unfoldable pub finished {ℓ} : {A : Type ℓ} → (A → Run Handled) → Option A → Run Handled
finished f none = unfinished
finished f (some a) = f a

-- `HandleAllMethod` where no process is started.
unfoldable pub by_method : World → CClient → Run Handled
by_method w c =
    if str_eq c.name_method (codes "GET")
    then finished (answer_get w c)
        (method_get w.host w.disk c.mutable_config c.parser.headers c.members c.uri)
    else if str_eq c.name_method (codes "DELETE")
    then finished (answer_delete w c) (perform_delete w.files w.unset c.uri c.mutable_config)
    else if str_eq c.name_method (codes "POST")
    then answer_post c
        (post_method w.host.over w.disk w.host.now w.unset c.uri c.mutable_config c.parser)
    else done (only (client_page w c 405))
