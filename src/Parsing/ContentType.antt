-- ===== src/Parsing/ContentType.antt =====
-- `initSupportedContentTypes` and `checkContentType` of src/Parsing/parsing_request.cpp.
use Prim.Native.String.{String}
use spy_socket.Parsing.{Parser, lit, text, M, ◌>>◌, done, fail}
use spy_socket.Prelude.{
  suc, Bool, false, not, ◌&&◌, ◌||◌, List, [], ◌∷◌, none, some, map, if◌then◌else◌, is_empty, take,
  drop,
}
use spy_socket.Prelude.Text.{Bytes, codes, str_eq, is_prefix, find, trim, to_lower, get_lines}
use spy_socket.Prelude.Text.Map.{Map, lookup, insert}

abbrev supported_types : List String
supported_types =
    "text/html" ∷ "text/plain" ∷ "text/css" ∷ "text/javascript" ∷ "text/csv" ∷ "text/xml"
    ∷ "application/json" ∷ "application/xml" ∷ "application/javascript"
    ∷ "application/x-www-form-urlencoded" ∷ "application/pdf" ∷ "application/zip"
    ∷ "application/gzip" ∷ "application/octet-stream" ∷ "application/x-tar"
    ∷ "application/vnd.ms-excel"
    ∷ "application/vnd.openxmlformats-officedocument.spreadsheetml.sheet"
    ∷ "application/vnd.ms-powerpoint"
    ∷ "application/vnd.openxmlformats-officedocument.presentationml.presentation"
    ∷ "application/msword"
    ∷ "application/vnd.openxmlformats-officedocument.wordprocessingml.document"
    ∷ "application/x-httpd-php" ∷ "multipart/form-data" ∷ "multipart/byteranges" ∷ "image/jpeg"
    ∷ "image/png" ∷ "image/gif" ∷ "image/bmp" ∷ "image/webp" ∷ "image/svg+xml" ∷ "image/x-icon"
    ∷ "image/tiff" ∷ "audio/mpeg" ∷ "audio/wav" ∷ "audio/ogg" ∷ "audio/webm" ∷ "audio/aac"
    ∷ "audio/mp4" ∷ "video/mp4" ∷ "video/mpeg" ∷ "video/webm" ∷ "video/ogg" ∷ "video/x-msvideo"
    ∷ "video/quicktime" ∷ []

is_any : Bytes → List String → Bool
is_any s [] = false
is_any s (t ∷ ts) = str_eq s (codes t) || is_any s ts

-- supported_types.find(s) != supported_types.end()
unfoldable pub is_supported : Bytes → Bool
unfolding is_any
is_supported s = is_any s supported_types

abbrev lower_trim : Bytes → Bytes
lower_trim s = map to_lower (trim s)

-- One directive: its key and value go into the local map and into the headers.
unfoldable pub add_directive : Bytes → Map → Parser → Map × Parser
add_directive directive directives p = elim (find (codes "=") (trim directive)) [
  | none ↦ (directives, p)
  | some equals_pos ↦
      let key = lower_trim (take equals_pos (trim directive)) in
      let value = lower_trim (drop (suc equals_pos) (trim directive)) in
      (insert key value directives, record p { headers = insert key value p.headers })
]

unfoldable pub add_directives : List Bytes → Map → Parser → Map × Parser
add_directives [] directives p = (directives, p)
add_directives (d ∷ ds) directives p =
    let r = add_directive d directives p in add_directives ds r.0 r.1

unfoldable pub check_charset : Map → M Parser (Unit {0})
check_charset directives p = elim (lookup (codes "charset") directives) [
  | none ↦ done p
  | some charset ↦
      if not (str_eq charset (codes "utf-8")) && not (str_eq charset (codes "iso-8859-1"))
      then fail 415
          (lit "Unsupported Media Type: Charset '" ∷ text charset ∷ lit "' is not supported" ∷ []) p
      else done p
]

unfoldable pub check_boundary : Bytes → Map → M Parser (Unit {0})
check_boundary value directives p =
    if not (is_prefix (codes "multipart/") value)
    then done p
    else elim (lookup (codes "boundary") directives) [
      | none ↦
          fail 400
            (lit "Bad Request: Boundary parameter is required for multipart content types" ∷ []) p
      | some boundary ↦
          if is_empty boundary
          then fail 400
              (lit "Bad Request: Boundary parameter cannot be empty for multipart content types"
                ∷ [])
              p
          else done p
    ]

unfoldable pub check_supported : Bytes → M Parser (Unit {0})
check_supported value p =
    if is_supported value
    then done p
    else fail 415
        (lit "Unsupported Media Type: Content-Type '" ∷ text value ∷ lit "' is not supported" ∷ [])
        p

-- The part behind the directives, on the type in front of the first ';'.
unfoldable pub check_media_type : Bytes → Map → M Parser (Unit {0})
check_media_type media_type directives = do
  λ p.
      done (record p {
        headers = insert (codes "content-type-value") (lower_trim media_type) p.headers;
      })
  check_boundary (lower_trim media_type) directives
  check_supported (lower_trim media_type)

-- A content type with directives behind its first ';'. The source also visits the empty part behind
-- a last ';', which holds no '=' and so has no effect.
unfoldable pub check_directives : Bytes → Bytes → M Parser (Unit {0})
check_directives media_type directives_part p =
    let r = add_directives (get_lines b';' directives_part) [] p in
    (do check_charset r.0; check_media_type media_type r.0) r.1

unfoldable pub check_content_type : M Parser (Unit {0})
check_content_type p = elim (lookup (codes "content-type") p.headers) [
  | none ↦ done p
  | some value ↦
      if is_empty value
      then fail 400 (lit "Bad Request: Content-Type header cannot be empty" ∷ []) p
      else elim (find (codes ";") value) [
        | some semicolon_pos ↦
            check_directives (take semicolon_pos value) (drop (suc semicolon_pos) value) p
        | none ↦ check_media_type value [] p
      ]
]
