-- ===== src/Parsing/Start.antt =====
-- `checkMethod`, `checkVersion` and `parse_start_line` of src/Parsing/parsing_request.cpp, and
-- `find_crlf` of src/Parsing/utils/utils.cpp.
use spy_socket.Parsing.{Parser, lit, text, stop, error_501, M, ◌>>=◌, ◌>>◌, done, fail, failed}
use spy_socket.Parsing.Uri.{check_uri}
use spy_socket.Prelude.{
  ℕ, ◌+◌, ◌-◌, Bool, not, ◌||◌, [], ◌∷◌, Option, none, some, if◌then◌else◌, is_empty, get_or,
}
use spy_socket.Prelude.Text.{Bytes, codes, str_eq, find_from, get_lines, substr}
use spy_socket.Prelude.Text.Map.{insert}

abbrev pub crlf : Bytes
crlf = b'\r' ∷ b'\n' ∷ []

unfoldable pub find_crlf : Parser → Option ℕ
find_crlf p = find_from crlf p.buffer p.buffer_pos

-- The methods of HTTP that the server knows and does not serve.
unfoldable pub is_unimplemented : Bytes → Bool
is_unimplemented m =
    str_eq m (codes "PUT")
    || str_eq m (codes "PATCH")
    || str_eq m (codes "OPTIONS")
    || str_eq m (codes "TRACE")
    || str_eq m (codes "CONNECT")
    || str_eq m (codes "HEAD")

unfoldable pub is_served : Bytes → Bool
is_served m = str_eq m (codes "GET") || str_eq m (codes "POST") || str_eq m (codes "DELETE")

unfoldable pub check_method : Bytes → M Parser (Unit {0})
check_method method p =
    if is_empty method
    then fail 400 (lit "Bad Request: HTTP method cannot be empty" ∷ []) p
    else if is_unimplemented method
    then stop
        (record (failed 501
          (lit "Not Implemented: HTTP method '" ∷ text method ∷ lit "' is not implemented" ∷ [])
          p) { result_p = error_501 })
    else if not (is_served method)
    then fail 400 (lit "Bad Request: Invalid HTTP method: '" ∷ text method ∷ lit "'" ∷ []) p
    else done p

unfoldable pub check_version : Bytes → M Parser (Unit {0})
check_version version p =
    if is_empty version
    then fail 400 (lit "Bad Request: HTTP version cannot be empty" ∷ []) p
    else if not (str_eq version (codes "HTTP/1.1"))
    then fail 400 (lit "Bad Request: Invalid HTTP version: '" ∷ text version ∷ lit "'" ∷ []) p
    else done p

-- The three tests in the order of `||`, and the assignments to the map behind them.
unfoldable pub check_start_line : ℕ → Bytes → Bytes → Bytes → M Parser (Unit {0})
check_start_line junk method uri version = do
  check_method method
  rewritten ← check_uri junk uri
  check_version version
  λ p. done (record p {
    start_line =
        insert (codes "version") version
          (insert (codes "uri") rewritten (insert (codes "method") method p.start_line));
  })

-- `getline` with ' ' gives the empty string where the line has no further word.
unfoldable pub parse_start_line : ℕ → M Parser (Unit {0})
parse_start_line junk p = elim (find_crlf p) [
  | none ↦ stop p
  | some crlf_pos ↦
      let words = get_lines b' ' (substr p.buffer p.buffer_pos (crlf_pos - p.buffer_pos)) in
      check_start_line junk (get_or words 0 []) (get_or words 1 []) (get_or words 2 [])
        (record p { buffer_pos = crlf_pos + 2 })
]
