-- ===== src/Serving.antt =====
-- What the loop of src/server.cpp does for a connection whose socket can be written to. The calls of
-- epoll are not modelled: a connection that stays waits for the same event, and one that starts
-- afresh waits for input.
pub mod Sent
pub mod Afresh
use spy_socket.Chunked.{Chunker}
use spy_socket.Dispatch.{World, CClient, Run, done, uncaught, unfinished, Handled}
use spy_socket.Dispatch.All.{handle_all_method}
use spy_socket.Dispatch.Reach.{fresh}
use spy_socket.Dispatch.Running.{Poll}
use spy_socket.Parsing.{Parser}
use spy_socket.Parsing.Feed.{machine, reset}
use spy_socket.Prelude.{
  ℕ, ◌+◌, Bool, true, false, not, ◌&&◌, ◌||◌, List, [], Option, none, some, leb, ltb, ◌==◌,
  if◌then◌else◌, is_empty, length, take, drop,
}
use spy_socket.Prelude.Text.{Bytes, codes, str_eq}

-- The entries of one connection in the maps of the loop, with the state of the decoder, which all
-- connections share. `no_parser` stands for the null pointer of a new client.
pub record Connection : Type 0 where
  pub response : Bytes
  pub ready_to_respond : Bool
  pub client_data : CClient
  pub bytes_sent : ℕ
  pub should_close_connection : Bool
  pub parser : Option Parser
  pub chunker : Chunker
  pub no_parser : Parser

-- The result of send: a number of bytes, EAGAIN or EWOULDBLOCK, or another failure.
pub data Send : Type 0 where
  took : ℕ → Send
  again : Send
  broken : Send

-- What the event leaves: the bytes that the socket took, and the connection, if it is still open.
pub record Served : Type 0 where
  pub piece : Bytes
  pub next : Option Connection

abbrev pub is_get : Connection → Bool
is_get c = str_eq c.client_data.name_method (codes "GET")

abbrev pub takes_over : Connection → Run Handled → Run Connection
takes_over c (done h) = done (record c { response = h.response; client_data = h.client })
takes_over c uncaught = uncaught
takes_over c unfinished = unfinished

unfoldable pub fill : World → Poll → Connection → Run Connection
fill w poll c =
    if is_empty c.response && not (is_get c && c.client_data.members.chunked_sending)
    then takes_over c (handle_all_method w poll c.client_data)
    else done c

-- bytes_sent += n, and c.response.erase(0, n)
unfoldable pub erase_sent : ℕ → Connection → Connection
erase_sent n c =
    if ltb 0 n
    then record c {
      bytes_sent = c.bytes_sent + n;
      response = if leb n (length c.response) then drop n c.response else [];
    }
    else c

-- Whether the request asks to close the connection.
unfoldable pub asks_to_close : Option Parser → Bool
asks_to_close none = false
asks_to_close (some p) = p.connection_status == 0

-- The parser and the decoder behind `reset`.
unfoldable pub restarted : World → Connection → Option Parser → Connection
restarted w c none = record c {
  ready_to_respond = false;
  client_data = fresh w c.no_parser;
  bytes_sent = 0;
  should_close_connection = false;
}
restarted w c (some p) = record c {
  ready_to_respond = false;
  client_data = fresh w c.no_parser;
  bytes_sent = 0;
  should_close_connection = false;
  parser = some (reset (machine p c.chunker)).parser;
  chunker = (reset (machine p c.chunker)).chunker;
}

-- Behind send: a response that is sent as a whole ends the request.
unfoldable pub finish : World → Connection → Option Connection
finish w c =
    if not (is_empty c.response)
    then some c
    else if c.should_close_connection || asks_to_close c.parser
    then none
    else some (restarted w c c.parser)

unfoldable pub send_response : World → Send → Connection → Served
send_response w (took n) c = record { piece = take n c.response; next = finish w (erase_sent n c) }
send_response w again c = record { piece = []; next = if is_get c then finish w c else some c }
send_response w broken c = record { piece = []; next = if is_get c then finish w c else none }

abbrev pub then_send : World → Send → Run Connection → Run Served
then_send w sent (done c) = done (send_response w sent c)
then_send w sent uncaught = uncaught
then_send w sent unfinished = unfinished

unfoldable pub serve : World → Poll → Send → Connection → Run Served
serve w poll sent c = then_send w sent (fill w poll c)
