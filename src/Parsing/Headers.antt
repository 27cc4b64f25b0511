-- ===== src/Parsing/Headers.antt =====
-- `parse_headers` of src/Parsing/parsing_request.cpp: the block of header lines, and the tests behind
-- it in their order.
use Prim.Native.Nat.{ℕ}
use spy_socket.Parsing.{
  Parser, lit, text, ok, stop, M, ◌>>=◌, ◌>>◌, next, done, fail, failed, reject,
}
use spy_socket.Parsing.Checks.{
  check_location, check_connection, check_content_length, check_host, check_transfer_encoding,
  check_cookie,
}
use spy_socket.Parsing.ContentType.{check_content_type}
use spy_socket.Parsing.Start.{crlf}
use spy_socket.Prelude.{
  suc, ◌+◌, ◌-◌, ◌^◌, ◌%◌, Bool, ◌&&◌, ◌||◌, List, [], ◌∷◌, ◌++◌, Option, none, some, map, ltb, leb,
  ◌==◌, if◌then◌else◌, is_empty, length, take, drop, last,
}
use spy_socket.Prelude.Text.{
  Bytes, codes, str_eq, find, find_from, trim, to_lower, get_lines, is_blank, is_digit, char_lt,
  substr, decimal,
}
use spy_socket.Prelude.Text.Map.{Map, insert, at_or_empty}

abbrev pub max_header_size : ℕ
max_header_size = 8192

abbrev pub double_crlf : Bytes
double_crlf = crlf ++ crlf

-- if (line[line.length() - 1] == '\r') line.erase(line.length() - 1)
unfoldable pub strip_cr : Bytes → Bytes
strip_cr [] = []
strip_cr (c ∷ s) = let rest = strip_cr s in if c == b'\r' && is_empty s then [] else c ∷ rest

unfoldable pub is_separator : ℕ → Bool
is_separator c =
    char_lt c 33
    || ltb 126 c
    || (c == b'(' || c == b')' || c == b'<' || c == b'>' || c == b'@' || c == b',')
    || (c == b';' || c == b':' || c == b'\\' || c == b'"' || c == b'/' || c == b'[')
    || (c == b']' || c == b'?' || c == b'=' || c == b'{' || c == b'}')

-- The first character of a header name that no token holds.
unfoldable pub bad_name_char : Bytes → Option ℕ
bad_name_char [] = none
bad_name_char (c ∷ s) = if is_separator c then some c else bad_name_char s

-- The headers that are kept; all others are dropped.
unfoldable pub is_kept : Bytes → Bool
is_kept key =
    (str_eq key (codes "host")
      || str_eq key (codes "port")
      || str_eq key (codes "transfer-encoding")
      || str_eq key (codes "content-length")
      || str_eq key (codes "connection")
      || str_eq key (codes "user-agent"))
    || (str_eq key (codes "content-type")
        || str_eq key (codes "cookie")
        || str_eq key (codes "location")
        || str_eq key (codes "accept")
        || str_eq key (codes "accept-encoding")
        || str_eq key (codes "accept-language"))

-- `header_map[key] = value` on the lower-case key and the trimmed, lower-case value
unfoldable pub keep_header : Bytes → Bytes → Map → Map
keep_header key value m =
    if is_kept (map to_lower key)
    then insert (map to_lower key) (map to_lower (trim value)) m
    else m

-- A line that holds a colon, at its name and its value.
unfoldable pub add_header : Bytes → Bytes → Map → M Parser Map
add_header [] value m p = fail 400 (lit "Bad Request: Empty header name not allowed" ∷ []) p
add_header (k ∷ key) value m p =
    if is_blank (last (k ∷ key) 0)
    then fail 400
        (lit "Bad Request: Invalid header name - trailing whitespace not allowed: '"
          ∷ text (k ∷ key)
          ∷ lit "'"
          ∷ [])
        p
    else if is_blank k
    then fail 400
        (lit "Bad Request: Invalid header name - leading whitespace not allowed: '"
          ∷ text (k ∷ key)
          ∷ lit "'"
          ∷ [])
        p
    else elim (bad_name_char (k ∷ key)) [
      | some c ↦
          fail 400
            (lit "Bad Request: Invalid character in header name: '" ∷ text (c ∷ []) ∷ lit "'" ∷ [])
            p
      | none ↦ ok (keep_header (k ∷ key) value m) p
    ]

-- One round of the loop, on the line without its '\r'.
unfoldable pub add_line : Bytes → Map → M Parser Map
add_line line m p = if is_empty line then ok m p else elim (find (codes ":") line) [
  | none ↦
      fail 400
        (lit "Bad Request: Invalid header format - no colon found in line: '"
          ∷ text line
          ∷ lit "'"
          ∷ [])
        p
  | some colon_pos ↦ add_header (take colon_pos line) (drop (suc colon_pos) line) m p
]

unfoldable pub add_lines : List Bytes → Map → M Parser Map
add_lines [] m p = ok m p
add_lines (line ∷ lines) m p = next (add_line (strip_cr line) m p) (add_lines lines)

-- `||` over the seven tests. Each of them has set `current_state` already where it fails.
unfoldable pub check_headers : M Parser (Unit {0})
check_headers = do
  check_host
  check_connection
  check_transfer_encoding
  check_content_length
  check_location
  check_content_type
  check_cookie

-- `iss >> n` for a size_t: white space, a sign, digits. A number that does not fit gives the
-- largest one, no digit gives 0, and an extraction that meets the end at once leaves `n` alone.
abbrev size_max : ℕ
size_max = 2 ^ 64 - 1

digits_of : Bytes → Bytes
digits_of [] = []
digits_of (c ∷ s) = let rest = digits_of s in if is_digit c then c ∷ rest else []

unsigned_of : Bytes → ℕ
unsigned_of s = let n = decimal (digits_of s) in if ltb size_max n then size_max else n

unfoldable pub extract_size : Bytes → ℕ → ℕ
unfolding digits_of unsigned_of
extract_size [] old = old
extract_size (c ∷ s) old =
    let rest = extract_size s old in
    if (leb 9 c && leb c 13) || c == b' '
    then rest
    else if c == b'-'
    then (if ltb size_max (decimal (digits_of s))
        then size_max
        else (2 ^ 64 - decimal (digits_of s)) % 2 ^ 64)
    else if c == b'+'
    then unsigned_of s
    else unsigned_of (c ∷ s)

-- What follows the tests on single headers. `headers.at` finds its key: the flag is clear in a parser
-- that is new or reset, and only the test on content-length sets it, for a key that is there.
unfoldable pub body_length : M Parser (Unit {0})
body_length p =
    if p.content_lenght_exists == 1 && p.transfer_encoding_exists == 1
    then reject 400
        (lit "Bad Request: Content-Length and Transfer-Encoding headers cannot be used together"
          ∷ [])
        p
    else if p.content_lenght_exists == 1
    then done (record p {
      expected_body_length =
          extract_size (at_or_empty (codes "content-length") p.headers) p.expected_body_length;
    })
    else done (record p { expected_body_length = 0 })

-- The block of header lines in `headers_str`.
unfoldable pub read_headers : Bytes → M Parser (Unit {0})
read_headers headers_str = do
  header_map ← add_lines (get_lines b'\n' headers_str) []
  λ p. done (record p { headers = header_map })
  check_headers
  body_length

-- An incomplete block stops with the state unchanged, unless the buffer has grown too long.
unfoldable pub parse_headers : M Parser (Unit {0})
parse_headers p = elim (find_from double_crlf p.buffer p.buffer_pos) [
  | none ↦
      if ltb max_header_size (length p.buffer)
      then stop
          (record (failed 431 (lit "Request Header Fields Too Large: Headers exceed 8KB limit" ∷ [])
            p) { buffer = [] })
      else stop p
  | some pos ↦
      read_headers (substr p.buffer p.buffer_pos (pos - p.buffer_pos))
        (record p { buffer_pos = pos + 4 })
]
