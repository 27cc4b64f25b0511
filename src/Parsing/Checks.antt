-- ===== src/Parsing/Checks.antt =====
-- The tests on single headers in src/Parsing/parsing_request.cpp: `checkHost`, `checkConnection`,
-- `checkTransferEncoding`, `checkContentLength`, `checkLocation` and `checkCookie`. `parse_headers`
-- calls each of them with the member `headers` itself, by reference, so they read the map that they
-- also write.
use spy_socket.Parsing.{Parser, lit, text, Message, stop, error_501, M, done, fail, rejected}
use spy_socket.Parsing.Uri.{control, blank, bad_char}
use spy_socket.Prelude.{
  ℕ, ◌+◌, not, ◌||◌, [], ◌∷◌, none, some, ltb, ◌==◌, if◌then◌else◌, is_empty, length, take, drop,
  all,
}
use spy_socket.Prelude.Text.{Bytes, codes, str_eq, find, is_digit, decimal}
use spy_socket.Prelude.Text.Map.{lookup, insert}

abbrev int_max : ℕ
int_max = 2147483647

unfoldable pub check_location : M Parser (Unit {0})
check_location p = elim (lookup (codes "location") p.headers) [
  | none ↦ done p
  | some [] ↦ fail 400 (lit "Bad Request: Location header cannot be empty" ∷ []) p
  | some (c ∷ location) ↦
      if not (c == b'/')
      then fail 400
          (lit "Bad Request: Location header must start with '/' - got: '"
            ∷ text (c ∷ location)
            ∷ lit "'"
            ∷ [])
          p
      else if ltb 8000 (length (c ∷ location))
      then fail 400 (lit "Bad Request: Location header too long (exceeds 8000 characters)" ∷ []) p
      else elim (bad_char (c ∷ location)) [
        | some control ↦
            fail 400 (lit "Bad Request: Location header contains invalid control characters" ∷ []) p
        | some blank ↦
            fail 400 (lit "Bad Request: Location header contains unencoded spaces" ∷ []) p
        | none ↦ done p
      ]
]

unfoldable pub check_connection : M Parser (Unit {0})
check_connection p = elim (lookup (codes "connection") p.headers) [
  | none ↦ done (record p { connection_status = 1 })
  | some value ↦
      if str_eq value (codes "keep-alive")
      then done (record p { connection_status = 1 })
      else if str_eq value (codes "close")
      then done (record p { connection_status = 0 })
      else fail 400
          (lit "Bad Request: Invalid Connection header value - must be 'keep-alive' or 'close'"
            ∷ [])
          p
]

abbrev bad_length : Bytes → Message
bad_length value =
    lit "Bad Request: Content-Length header must be a valid integer - got: '"
    ∷ text value
    ∷ lit "'"
    ∷ []

-- On digits alone `iss >> content_length` fails just when the number is not an `int`, and what it
-- reads is never negative.
unfoldable pub check_content_length : M Parser (Unit {0})
check_content_length p = elim (lookup (codes "content-length") p.headers) [
  | none ↦ done p
  | some value ↦
      let q = record p { content_lenght_exists = 1 } in
      if is_empty value
      then fail 400 (lit "Bad Request: Content-Length header cannot be empty" ∷ []) q
      else if not (all is_digit value)
      then fail 400 (bad_length value) q
      else if ltb int_max (decimal value)
      then fail 400 (bad_length value) q
      else done q
]

abbrev host_found : Bytes → Bytes → M Parser (Unit {0})
host_found hostname port p = done (record p {
  headers = insert (codes "port") port (insert (codes "host_name") hostname p.headers);
  host_exists = 1;
})

-- `iss >> port` fails on digits when the number is not an `int`, which is above 65535 too.
unfoldable pub check_port : Bytes → Bytes → M Parser (Unit {0})
check_port hostname port p =
    if is_empty port
    then fail 400 (lit "Bad Request: Port in Host header cannot be empty" ∷ []) p
    else if not (all is_digit port)
    then fail 400
        (lit "Bad Request: Port in Host header must be a valid integer - got: '"
          ∷ text port
          ∷ lit "'"
          ∷ [])
        p
    else if ltb int_max (decimal port) || ltb (decimal port) 1 || ltb 65535 (decimal port)
    then fail 400 (lit "Bad Request: Invalid Port '" ∷ text port ∷ lit "'" ∷ []) p
    else host_found hostname port p

-- Without a colon both parts stay empty.
unfoldable pub check_host : M Parser (Unit {0})
check_host p = elim (lookup (codes "host") p.headers) [
  | none ↦ fail 400 (lit "Bad Request: Host header is missing" ∷ []) (record p { host_exists = 0 })
  | some value ↦
      if is_empty value
      then fail 400 (lit "Bad Request: Host header cannot be empty" ∷ []) p
      else elim (find (codes ":") value) [
        | some colon_pos ↦ check_port (take colon_pos value) (drop (colon_pos + 1) value) p
        | none ↦ host_found [] [] p
      ]
]

unfoldable pub check_transfer_encoding : M Parser (Unit {0})
check_transfer_encoding p = elim (lookup (codes "transfer-encoding") p.headers) [
  | none ↦ done (record p { transfer_encoding_exists = 0 })
  | some value ↦
      let q = record p { transfer_encoding_exists = 1 } in
      if str_eq value (codes "gzip")
        || str_eq value (codes "compress")
        || str_eq value (codes "deflate")
        || str_eq value (codes "identity")
      then stop
          (record (rejected 501
            (lit "Not Implemented: Transfer-Encoding '"
              ∷ text value
              ∷ lit "' is not implemented by our webserver :("
              ∷ [])
            q) { result_p = error_501 })
      else if not (str_eq value (codes "chunked"))
      then fail 400 (lit "Bad Request: Invalid Transfer-Encoding header value" ∷ []) q
      else done q
]

unfoldable pub check_cookie : M Parser (Unit {0})
check_cookie p = elim (lookup (codes "cookie") p.headers) [
  | none ↦ done p
  | some value ↦
      if is_empty value
      then done p
      else done (record p { headers = insert (codes "cookie") value p.headers })
]
