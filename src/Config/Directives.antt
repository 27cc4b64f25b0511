-- ===== src/Config/Directives.antt =====
-- The directives of a location block in src/singleserver.cpp: `_fillLocationStruct` and what it calls.
pub mod Valid
use spy_socket.Chunked.{Overflow, atoi}
use spy_socket.Config.{LocationStruct}
use spy_socket.Prelude.{
  ℕ, ◌-◌, Bool, true, false, not, ◌&&◌, ◌||◌, List, [], ◌∷◌, ◌++◌, ltb, ◌==◌, if◌then◌else◌,
  is_empty, length, last, take, map,
}
use spy_socket.Prelude.Except.{Except, ok, throw, ◌>>=◌}
use spy_socket.Prelude.Text.{Bytes, codes, str_eq, is_blank}
use spy_socket.Prelude.Text.Words.{is_white, some_of, before, after, skip_white, drop_white, words}

-- _initializeLocationStruct
abbrev pub empty_location : LocationStruct
empty_location = record {
  auto_index = false;
  allowed_methods = [];
  root = [];
  index_page = [];
  returns = [];
  cgi_path = [];
  cgi_ext = [];
  upload_enabled = false;
  upload_path = [];
  url_encoded = [];
}

unfoldable pub parse_location_root : Bytes → LocationStruct → Except LocationStruct
parse_location_root value loc =
    if not (is_empty loc.root)
    then throw (codes "Duplicate root directive in location")
    else if is_empty value
    then throw (codes "Empty root value in location")
    else ok (record loc { root = value })

unfoldable pub parse_location_autoindex : Bytes → LocationStruct → Except LocationStruct
parse_location_autoindex value loc =
    if str_eq value (codes "on")
    then ok (record loc { auto_index = true })
    else if str_eq value (codes "off")
    then ok (record loc { auto_index = false })
    else throw (codes "Invalid autoindex value: " ++ (value ++ codes " (use on/off)"))

-- A std::set of strings as a list without repetitions.
unfoldable pub has_method : Bytes → List Bytes → Bool
has_method m [] = false
has_method m (n ∷ ns) = str_eq n m || has_method m ns

unfoldable pub insert_method : Bytes → List Bytes → List Bytes
insert_method m ms = if has_method m ms then ms else ms ++ (m ∷ [])

unfoldable pub is_http_method : Bytes → Bool
is_http_method m = str_eq m (codes "GET") || str_eq m (codes "POST") || str_eq m (codes "DELETE")

unfoldable pub add_methods : List Bytes → List Bytes → Except (List Bytes)
add_methods [] ms = ok ms
add_methods (m ∷ rest) ms =
    if is_http_method m
    then add_methods rest (insert_method m ms)
    else throw (codes "Invalid HTTP method: " ++ m)

abbrev pub set_methods : LocationStruct → List Bytes → Except LocationStruct
set_methods loc ms =
    if is_empty ms
    then throw (codes "No methods specified in method directive")
    else ok (record loc { allowed_methods = ms })

unfoldable pub parse_location_method : Bytes → LocationStruct → Except LocationStruct
parse_location_method value loc = add_methods (words value) loc.allowed_methods >>= set_methods loc

unfoldable pub parse_location_index_page : Bytes → LocationStruct → Except LocationStruct
parse_location_index_page value loc =
    if not (is_empty loc.index_page)
    then throw (codes "Duplicate index_page directive in location")
    else if is_empty value
    then throw (codes "Empty index_page value in location")
    else ok (record loc { index_page = value })

unfoldable pub is_redirect_code : ℕ → Bool
is_redirect_code code = not (ltb code 300 || ltb 399 code)

abbrev pub add_return : Overflow → Bytes → Bytes → LocationStruct → Except LocationStruct
add_return over code url loc =
    if is_redirect_code (atoi over code)
    then ok (record loc { returns = loc.returns ++ ((code, url) ∷ []) })
    else throw (codes "Invalid redirect status code: " ++ code)

abbrev pub return_of : Overflow → List Bytes → LocationStruct → Except LocationStruct
return_of over (code ∷ url ∷ _) loc = add_return over code url loc
return_of over _ loc = throw (codes "Invalid _return format: expected 'code url'")

unfoldable pub parse_location_return : Overflow → Bytes → LocationStruct → Except LocationStruct
parse_location_return over value = return_of over (words value)

unfoldable pub parse_location_cgi_path : Bytes → LocationStruct → Except LocationStruct
parse_location_cgi_path value loc = ok (record loc { cgi_path = loc.cgi_path ++ words value })

unfoldable pub dotted : Bytes → Bytes
dotted [] = codes "."
dotted (c ∷ ext) = if c == b'.' then c ∷ ext else b'.' ∷ c ∷ ext

unfoldable pub parse_location_cgi_ext : Bytes → LocationStruct → Except LocationStruct
parse_location_cgi_ext value loc =
    ok (record loc { cgi_ext = loc.cgi_ext ++ map dotted (words value) })

unfoldable pub parse_location_upload_enabled : Bytes → LocationStruct → Except LocationStruct
parse_location_upload_enabled value loc =
    if str_eq value (codes "on") || str_eq value (codes "true")
    then ok (record loc { upload_enabled = true })
    else if str_eq value (codes "off") || str_eq value (codes "false")
    then ok (record loc { upload_enabled = false })
    else throw (codes "Invalid upload_enabled value: " ++ (value ++ codes " (use on/off)"))

unfoldable pub parse_location_upload_path : Bytes → LocationStruct → Except LocationStruct
parse_location_upload_path value loc =
    if not (is_empty loc.upload_path)
    then throw (codes "Duplicate upload_path directive in location")
    else ok (record loc { upload_path = value })

-- A text without the white space around it, or all of it where there is nothing else.
unfoldable pub strip_white : Bytes → Bytes
strip_white value =
    if some_of (λ c. not (is_white c)) value then drop_white (skip_white value) else value

-- The switch over the key.
unfoldable pub run_directive : Overflow → Bytes → Bytes → LocationStruct → Except LocationStruct
run_directive over key value loc =
    if str_eq key (codes "root")
    then parse_location_root value loc
    else if str_eq key (codes "autoindex")
    then parse_location_autoindex value loc
    else if str_eq key (codes "method")
    then parse_location_method value loc
    else if str_eq key (codes "index_page")
    then parse_location_index_page value loc
    else if str_eq key (codes "_return")
    then parse_location_return over value loc
    else if str_eq key (codes "cgi_path")
    then parse_location_cgi_path value loc
    else if str_eq key (codes "cgi_ext")
    then parse_location_cgi_ext value loc
    else if str_eq key (codes "upload_enabled")
    then parse_location_upload_enabled value loc
    else if str_eq key (codes "upload_path")
    then parse_location_upload_path value loc
    else throw (codes "Unknown location directive: " ++ key)

unfoldable pub parse_location_directive : Overflow → Bytes → LocationStruct → Except LocationStruct
parse_location_directive over directive loc =
    if some_of is_blank directive
    then run_directive over (before is_blank directive) (strip_white (after is_blank directive)) loc
    else throw (codes "Invalid location directive format: " ++ directive)

-- The line without the ';' at its end.
unfoldable pub drop_semicolon : Bytes → Bytes
drop_semicolon line = if last line 0 == b';' then take (length line - 1) line else line

abbrev is_comment : Bytes → Bool
is_comment [] = true
is_comment (c ∷ s) = c == b'#'

-- One turn of the loop of `_fillLocationStruct`.
unfoldable pub fill_line : Overflow → Bytes → LocationStruct → Except LocationStruct
fill_line over line loc =
    let stripped = drop_white (skip_white line) in
    if is_comment stripped
    then ok loc
    else parse_location_directive over (drop_semicolon stripped) loc

unfoldable pub fill_lines : Overflow → List Bytes → LocationStruct → Except LocationStruct
fill_lines over [] loc = ok loc
fill_lines over (line ∷ lines) loc = fill_line over line loc >>= fill_lines over lines

unfoldable pub fill_location_struct : Overflow → List Bytes → Except LocationStruct
fill_location_struct over lines = fill_lines over lines empty_location
