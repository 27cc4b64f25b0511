-- ===== src/Dispatch/Relay.antt =====
-- `formatCGIResponse` of src/CClient.cpp: the output of a script as a response.
pub mod Lines
pub mod ReadBack
use spy_socket.Prelude.{
  ◌+◌, ◌==◌, Bool, true, false, ◌||◌, List, [], ◌∷◌, ◌++◌, Option, none, some, if◌then◌else◌,
  is_empty, length, take, drop,
}
use spy_socket.Prelude.Text.{Bytes, codes, str_eq, is_prefix, find, get_lines}
use spy_socket.Responses.{Now}
use spy_socket.Time.{print_nat, ft_time_format}

-- The headers with the line that ends them, and the body.
unfoldable pub split_output : Bytes → Option (Bytes × Bytes)
split_output output = elim (find (codes "\r\n\r\n") output) [
  | some i ↦ some (take (i + 4) output, drop (i + 4) output)
  | none ↦ elim (find (codes "\n\n") output) [
    | some i ↦ some (take (i + 2) output, drop (i + 2) output)
    | none ↦ none
  ]
]

-- A line without the '\r' at its end.
unfoldable pub chomp : Bytes → Bytes
chomp [] = []
chomp (c ∷ s) =
    let rest = chomp s in if is_empty s then (if c == b'\r' then [] else c ∷ []) else c ∷ rest

-- The lines that the loop takes over.
unfoldable pub kept_lines : List Bytes → List Bytes
kept_lines [] = []
kept_lines (line ∷ lines) =
    let rest = kept_lines lines in
    if is_empty line || str_eq line (codes "\r") then rest else chomp line ∷ rest

unfoldable pub has_content_type : List Bytes → Bool
has_content_type [] = false
has_content_type (line ∷ lines) =
    is_prefix (codes "Content-Type:") line
    || is_prefix (codes "content-type:") line
    || has_content_type lines

-- The lines, each with its line end, in front of a text.
abbrev pub lines_then : List Bytes → Bytes → Bytes
lines_then [] rest = rest
lines_then (line ∷ lines) rest = line ++ (codes "\r\n" ++ lines_then lines rest)

-- The lines of the response behind its status line.
unfoldable pub relayed_lines : Now → List Bytes → Bytes → List Bytes
relayed_lines now lines body =
    lines
    ++ ((if has_content_type lines then [] else codes "Content-Type: text/html" ∷ [])
        ++ ((codes "Content-Length: " ++ print_nat (length body))
            ∷ (codes "Date: " ++ ft_time_format now.time)
            ∷ codes "Server: SpySocket/1.0"
            ∷ codes "Connection: close"
            ∷ []))

unfoldable pub relay : Now → Bytes → Bytes → Bytes
relay now headers body =
    lines_then
      (codes "HTTP/1.1 200 OK" ∷ relayed_lines now (kept_lines (get_lines b'\n' headers)) body)
      (codes "\r\n" ++ body)

-- The response, or none where an error page with the code 500 is sent.
unfoldable pub format_output : Now → Bytes → Option Bytes
format_output now output = if is_empty output then none else elim (split_output output) [
  | none ↦ none
  | some (headers, body) ↦ some (relay now headers body)
]
