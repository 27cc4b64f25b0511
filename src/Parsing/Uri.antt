-- ===== src/Parsing/Uri.antt =====
-- `parse_hex`, `url_Decode`, `normalizePath` and `checkURI` of src/Parsing/parsing_request.cpp.
pub mod Normal
pub mod Safe
use spy_socket.Parsing.{Parser, lit, text, ok, M, fail, reject}
use spy_socket.Prelude.{
  ℕ, zero, suc, ◌+◌, ◌-◌, ◌*◌, ◌%◌, Bool, not, ◌&&◌, ◌||◌, List, [], ◌∷◌, ◌++◌, Option, none, some,
  ltb, leb, ◌==◌, if◌then◌else◌, is_empty, length, take, drop,
}
use spy_socket.Prelude.Text.{Bytes, codes, str_eq, find, contains, get_lines, char_lt}

-- isspace in the "C" locale
abbrev is_space : ℕ → Bool
is_space c = (leb 9 c && leb c 13) || c == b' '

-- the value of a hexadecimal digit
hex_digit : ℕ → Option ℕ
hex_digit c =
    if leb b'0' c && leb c b'9'
    then some (c - b'0')
    else if leb b'a' c && leb c b'f'
    then some (c - 87)
    else if leb b'A' c && leb c b'F'
    then some (c - 55)
    else none

-- the digits at the front, as num_get reads them; an `x` behind one `0` has no digit after it
-- in two characters, and the extraction then stores 0
hex_value : ℕ → Bytes → ℕ
hex_value n [] = n
hex_value n (c ∷ s) = elim (hex_digit c) [ some d ↦ hex_value (n * 16 + d) s | none ↦ n ]

-- `iss >> std::hex >> n` on at most two characters, and the cast of `n` to char. A sign may stand
-- in front. If nothing but white space is left the extraction does not reach `n`, which is not
-- initialised: `junk` is the byte that it then yields.
hex_unsigned : Bytes → ℕ
hex_unsigned s = hex_value 0 s

hex_signed : ℕ → Bytes → ℕ
hex_signed c s =
    if c == b'-'
    then (256 - hex_unsigned s) % 256
    else if c == b'+'
    then hex_unsigned s
    else hex_unsigned (c ∷ s)

parse_hex : ℕ → Bytes → ℕ
unfolding hex_digit hex_value hex_unsigned hex_signed
parse_hex junk [] = junk
parse_hex junk (c ∷ s) = let rest = parse_hex junk s in if is_space c then rest else hex_signed c s

-- The loop of `url_Decode`, with the characters that it still skips: `i += 3` passes over the two
-- behind a `%`, or over what is left of them.
decode : ℕ → ℕ → Bytes → Bytes
decode junk skip [] = []
decode junk (suc skip) (c ∷ s) = decode junk skip s
decode junk zero (c ∷ s) =
    let rest = decode junk (if c == b'%' then 2 else 0) s in
    (if c == b'%' then parse_hex junk (take 2 s) else c) ∷ rest

unfoldable pub url_decode : ℕ → Bytes → Bytes
unfolding decode parse_hex
url_decode junk s = decode junk 0 s

-- One round of the loop of `normalizePath`; the stack has its top at the front.
unfoldable pub push_token : Bytes → List Bytes → List Bytes
push_token t stack =
    if is_empty t || str_eq t (codes ".")
    then stack
    else if str_eq t (codes "..")
    then drop 1 stack
    else t ∷ stack

unfoldable pub normal_stack : List Bytes → List Bytes → List Bytes
normal_stack stack [] = stack
normal_stack stack (t ∷ ts) = normal_stack (push_token t stack) ts

-- The tokens from the bottom of the stack, with a '/' between two of them.
unfoldable pub join_up : List Bytes → Bytes → Bytes
join_up [] out = out
join_up (t ∷ []) out = t ++ out
join_up (t ∷ u ∷ ts) out = join_up (u ∷ ts) (b'/' ∷ (t ++ out))

unfoldable pub normalize_path : Bytes → Bytes
normalize_path path = b'/' ∷ join_up (normal_stack [] (get_lines b'/' path)) []

pub data CharFault : Type 0 where
  control blank : CharFault

-- The loop over the characters of a URI or of a location: the first character that is refused.
unfoldable pub bad_char : Bytes → Option CharFault
bad_char [] = none
bad_char (c ∷ s) =
    if char_lt c 32 || c == 127 then some control else if c == b' ' then some blank else bad_char s

-- The place of the first '?' or '#', if there is one.
unfoldable pub separator_pos : Bytes → Option ℕ
separator_pos uri = elim (find (codes "?") uri) [
  | some q ↦ elim (find (codes "#") uri) [
    | some f ↦ some (if ltb q f then q else f)
    | none ↦ some q
  ]
  | none ↦ find (codes "#") uri
]

-- `path_part` and `query_fragment_part`
unfoldable pub split_uri : Bytes → Bytes × Bytes
split_uri uri = elim (separator_pos uri) [ some i ↦ (take i uri, drop i uri) | none ↦ (uri, []) ]

-- The part of `checkURI` behind the tests on the characters.
unfoldable pub rewrite_uri : ℕ → Bytes → M Parser Bytes
rewrite_uri junk uri =
    let decoded_path = url_decode junk (split_uri uri).0 in
    let normalized_path = normalize_path decoded_path in
    if contains (codes "..") decoded_path
    then reject 400 (lit "Bad Request: Path traversal attempt detected in URI" ∷ [])
    else if contains (codes "..") normalized_path
    then reject 400 (lit "Bad Request: Invalid path resolution in URI" ∷ [])
    else ok (normalized_path ++ (split_uri uri).1)

-- On success the result is the new value of `uri`.
unfoldable pub check_uri : ℕ → Bytes → M Parser Bytes
check_uri junk [] = fail 400 (lit "Bad Request: URI cannot be empty" ∷ [])
check_uri junk (c ∷ uri) =
    if not (c == b'/')
    then fail 400
        (lit "Bad Request: URI must start with '/' - got: '" ∷ text (c ∷ uri) ∷ lit "'" ∷ [])
    else if ltb 8000 (length (c ∷ uri))
    then fail 414 (lit "URI Too Long: URI exceeds 8000 characters" ∷ [])
    else elim (bad_char (c ∷ uri)) [
      | some control ↦ fail 400 (lit "Bad Request: URI contains invalid control characters" ∷ [])
      | some blank ↦ fail 400 (lit "Bad Request: URI contains unencoded spaces" ∷ [])
      | none ↦ rewrite_uri junk (c ∷ uri)
    ]
