-- ===== src/Parsing/Feed.antt =====
-- `parse_body`, `feed_data`, `reset` and the accessors of src/Parsing/parsing_request.cpp: the life of
-- a request. The state is that of one connection's parser and that of the decoder of chunked bodies.
pub mod Total
pub mod Invariant
pub mod Bounds
use spy_socket.Chunked.{
  Overflow, Chunker, Turn, fresh, refactor_data, reset_refactor_data_state,
  is_chunked_transfer_complete,
}
use spy_socket.Parsing.{
  ParseState, start_line_state, headers_state, body_state, complete, error, ParseResult, parse_ok,
  again, error_result, error_400, Parser, Piece, lit, num, Message, Result, ok, stop, M, next, done,
  failed, rejected, fail, ◌>>=◌, ◌>>◌,
}
use spy_socket.Parsing.Headers.{parse_headers}
use spy_socket.Parsing.Start.{parse_start_line}
use spy_socket.Prelude.{
  ℕ, zero, suc, ◌+◌, ◌-◌, ◌*◌, Bool, true, false, not, ◌&&◌, ◌||◌, List, [], ◌∷◌, ◌++◌, Option,
  none, some, ltb, leb, is_some, ◌==◌, if◌then◌else◌, is_empty, length, take, drop, get_or,
}
use spy_socket.Prelude.Text.{Bytes, codes, str_eq, find, find_from, substr}
use spy_socket.Prelude.Text.Map.{Map, lookup, at_or_empty}

-- What the model takes from outside: the byte of an uninitialised `int` in `parse_hex`, and the
-- conversions that overflow.
pub record Env : Type 0 where
  pub junk : ℕ
  pub over : Overflow

pub record Machine : Type 0 where
  pub parser : Parser
  pub chunker : Chunker

abbrev pub machine : Parser → Chunker → Machine
machine p c = record { parser = p; chunker = c }

-- A method that leaves the decoder alone.
abbrev pub on_machine : {A : Type 0} → Machine → Result Parser A → Result Machine A
on_machine m (ok a p) = ok a (machine p m.chunker)
on_machine m (stop p) = stop (machine p m.chunker)

abbrev on_parser : {A : Type 0} → M Parser A → M Machine A
on_parser f m = on_machine m (f m.parser)

abbrev pub set_state : ParseState → M Machine (Unit {0})
set_state s m = done (record m { parser = record (m.parser) { current_state = s } })

-- The body is complete: the whole buffer counts as consumed.
abbrev body_done : Parser → Bytes → Parser
body_done p body = record p {
  body_content = body;
  buffer_pos = length p.buffer;
  chunked_last_processed_size = 0;
  chunked_accumulated_data = [];
}

-- `parse_body` of a POST with chunks. The decoder is given the buffer from its start, so it sees the
-- header block again. `none` is a turn that is out of fuel or throws: `throws` has that case,
-- and nothing of the state is read behind it.
unfoldable pub parse_chunked : Overflow → M Machine (Unit {0})
parse_chunked over m =
    let p = m.parser in
    if leb (length p.buffer) p.chunked_last_processed_size
    then (if is_chunked_transfer_complete m.chunker
        then done (machine (body_done p p.chunked_accumulated_data) m.chunker)
        else stop m)
    else elim (refactor_data over p.chunked_accumulated_data
        (drop p.chunked_last_processed_size p.buffer) m.chunker) [
          | none ↦ stop m
          | some t ↦
              if t.returned
              then done (machine (body_done p t.out) t.chunker)
              else stop (
                  machine
                    (record p {
                      chunked_accumulated_data = t.out;
                      chunked_last_processed_size = length p.buffer;
                    })
                    t.chunker)
        ]

-- A lower-case letter behind the body, as `first_byte` is tested.
abbrev is_lower_at : Bytes → ℕ → Bool
is_lower_at s i = leb b'a' (get_or s i 0) && leb (get_or s i 0) b'z'

-- `parse_body` of a POST with a Content-Length, for a position within the buffer; `throws` has the
-- case behind it. Too little input leaves the state unchanged.
unfoldable pub parse_counted : M Parser (Unit {0})
parse_counted p =
    let available = length p.buffer - p.buffer_pos in
    let q = record p {
      body_content = substr p.buffer p.buffer_pos p.expected_body_length;
      buffer_pos = p.buffer_pos + p.expected_body_length;
    } in
    if ltb available p.expected_body_length
    then stop p
    else if ltb q.buffer_pos (length q.buffer) && is_lower_at q.buffer q.buffer_pos
    then fail 400
        (lit "Bad Request: Request body received "
          ∷ num available
          ∷ lit " bytes but Content-Length specifies "
          ∷ num q.expected_body_length
          ∷ lit " bytes"
          ∷ [])
        q
    else done q

-- start_line.at("method"), where the key is present; `throws` has the case that it is not.
abbrev pub method_of : Parser → Bytes
method_of p = at_or_empty (codes "method") p.start_line

unfoldable pub parse_body : Overflow → M Machine (Unit {0})
parse_body over m =
    if not (str_eq (method_of m.parser) (codes "POST"))
    then done m
    else if m.parser.transfer_encoding_exists == 1
    then parse_chunked over m
    else if m.parser.content_lenght_exists == 1
    then on_parser parse_counted m
    else done m

-- The state behind a complete header block.
abbrev pub after_headers : Parser → ParseState
after_headers p =
    if str_eq (method_of p) (codes "POST") || ltb 0 p.expected_body_length
    then body_state
    else complete

-- One round of the loop: the `case` of the current state.
unfoldable pub step_in : Env → ParseState → M Machine (Unit {0})
step_in env start_line_state = do on_parser (parse_start_line env.junk); set_state headers_state
step_in env headers_state = do on_parser parse_headers; λ m. set_state (after_headers m.parser) m
step_in env body_state = do parse_body env.over; set_state complete
step_in env _ = done

abbrev has_method : Parser → Bool
has_method p = is_some (lookup (codes "method") p.start_line)

abbrev pub is_ok : Result Parser (Unit {0}) → Bool
is_ok (ok _ p) = true
is_ok (stop p) = false

-- A POST whose body is counted, read from behind the end of the buffer: the distance wraps around,
-- and `substr` throws.
abbrev is_behind : Parser → Bool
is_behind p =
    str_eq (method_of p) (codes "POST")
    && not (p.transfer_encoding_exists == 1)
    && p.content_lenght_exists == 1
    && ltb (length p.buffer) p.buffer_pos

-- A POST in chunks with input that waits, where the decoder throws.
abbrev decoder_throws : Overflow → Machine → Bool
decoder_throws over m =
    let p = m.parser in
    str_eq (method_of p) (codes "POST")
    && p.transfer_encoding_exists == 1
    && not (leb (length p.buffer) p.chunked_last_processed_size)
    && not (
        is_some (
          refactor_data over p.chunked_accumulated_data
            (drop p.chunked_last_processed_size p.buffer) m.chunker))

-- Whether a round throws out_of_range: by `start_line.at` behind the header block and in
-- `parse_body`, or by `substr`.
unfoldable pub throws : Env → ParseState → Machine → Bool
throws env headers_state m = is_ok (parse_headers m.parser) && not (has_method m.parser)
throws env body_state m =
    not (has_method m.parser) || is_behind m.parser || decoder_throws env.over m
throws env _ m = false

abbrev is_error : ParseState → Bool
is_error error = true
is_error _ = false

-- What a method that returned false makes of the call.
abbrev pub verdict : Machine → Option ParseResult × Machine
verdict m = (some (if is_error m.parser.current_state then error_result else again), m)

-- What a round makes of the loop: it goes on with `k`, or the call ends.
abbrev pub settle :
    Result Machine (Unit {0})
    → (Machine → Option ParseResult × Machine)
    → Option ParseResult × Machine
settle (ok _ m) k = k m
settle (stop m) k = verdict m

-- The loop on fuel; the first component is `none` if the fuel ran out or a round throws.
unfoldable pub drive : Env → ℕ → ParseState → Machine → Option ParseResult × Machine
drive env fuel complete m = (some parse_ok, m)
drive env fuel error m = (some error_result, m)
drive env zero s m = (none, m)
drive env (suc fuel) s m =
    if throws env s m
    then (none, m)
    else settle (step_in env s m) (λ q. drive env fuel q.parser.current_state q)

abbrev pub max_buffer_size : ℕ
max_buffer_size = 10 * 1024 * 1024

-- Three rounds: the start line, the header block and the body.
unfoldable pub run : Env → Machine → Option ParseResult × Machine
run env m = drive env 3 m.parser.current_state m

-- `feed_data`. A failed allocation (the `catch` block) is not modelled.
unfoldable pub feed_data : Env → Bytes → Machine → Option ParseResult × Machine
feed_data env bytes m =
    if ltb max_buffer_size (length m.parser.buffer + length bytes)
    then (
      some error_result,
      record m {
        parser =
            record (rejected 413
              (lit "Payload Too Large: Request exceeds maximum allowed size" ∷ []) m.parser) {
                buffer = [];
              };
      },
    )
    else run env (record m { parser = record (m.parser) { buffer = m.parser.buffer ++ bytes } })

-- `reset`: what stands behind the request stays in the buffer, and the decoder starts afresh.
unfoldable pub reset : Machine → Machine
reset m = record {
  parser = record (m.parser) {
    start_line = [];
    headers = [];
    body_content = [];
    buffer = drop m.parser.buffer_pos m.parser.buffer;
    buffer_pos = 0;
    expected_body_length = 0;
    chunked_last_processed_size = 0;
    chunked_accumulated_data = [];
    current_state = start_line_state;
    connection_status = 1;
    content_lenght_exists = 0;
    transfer_encoding_exists = 0;
    host_exists = 0;
    error_code = 0;
    error_message = [];
    status_code = 200;
  };
  chunker = reset_refactor_data_state m.chunker;
}

unfoldable pub get_parse_status : Parser → ParseResult
get_parse_status p = elim (p.current_state) [ complete ↦ parse_ok | error ↦ error_400 | _ ↦ again ]

unfoldable pub get_cookies : Parser → Bytes
get_cookies p = at_or_empty (codes "cookie") p.headers

-- The text between "id=" and the next ';'.
unfoldable pub get_id : Parser → Bytes
get_id p =
    let cookies = get_cookies p in
    elim (find (codes "id=") cookies) [
      | none ↦ []
      | some i ↦ elim (find_from (codes ";") cookies (i + 3)) [
        | some j ↦ substr cookies (i + 3) (j - (i + 3))
        | none ↦ drop (i + 3) cookies
      ]
    ]
