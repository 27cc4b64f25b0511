-- ===== src/Config/Directives/Valid.antt =====
-- The directives of a location block in src/singleserver.cpp: what a location that they fill holds.
use spy_socket.Chunked.{Overflow, atoi}
use spy_socket.Config.{LocationStruct}
use spy_socket.Config.Directives.{
  drop_semicolon, strip_white, empty_location, parse_location_root, parse_location_autoindex,
  has_method, insert_method, is_http_method, return_of, add_methods, parse_location_method,
  parse_location_index_page, is_redirect_code, parse_location_return, parse_location_cgi_path,
  dotted, parse_location_cgi_ext, parse_location_upload_enabled, parse_location_upload_path,
  run_directive, parse_location_directive, fill_line, fill_lines, fill_location_struct,
}
use spy_socket.Prelude.{
  true, List, [], ◌∷◌, ◌≡◌, refl, arith, Bool-cases, get_or, map, All, All-append, inl, inr,
}
use spy_socket.Prelude.Except.{Ensures, Ensures-bind}
use spy_socket.Prelude.Text.{Bytes, is_blank}
use spy_socket.Prelude.Text.Words.{words, before, after, skip_white, drop_white}

-- A location that the directives have filled: its methods are among the three that the server has, the
-- codes of its redirects are redirects, and its CGI extensions begin with a dot.
pub record IsLocation (over : Overflow) (loc : LocationStruct) : Type 0 where
  pub methods_in : All (λ m. is_http_method m ≡ true) loc.allowed_methods
  pub returns_in : All (λ r. is_redirect_code (atoi over r.0) ≡ true) loc.returns
  pub exts_in : All (λ e. get_or e 0 0 ≡ b'.') loc.cgi_ext

module _ (over : Overflow) where
  empty-IsLocation : IsLocation over empty_location
  empty-IsLocation = record { methods_in = tt; returns_in = tt; exts_in = tt }

  insert_method-All :
      (m : Bytes) (ms : List Bytes)
      → is_http_method m ≡ true
      → All (λ m. is_http_method m ≡ true) ms
      → All (λ m. is_http_method m ≡ true) (insert_method m ms)
  unfolding insert_method
  insert_method-All m ms h g = elim (Bool-cases (has_method m ms)) [
    | inl e ↦ rw (insert_method, e) g
    | inr e ↦
        rw (insert_method, e) (All-append (λ m. is_http_method m ≡ true) ms (m ∷ []) g (h, tt))
  ]

  add_methods-All :
      (new ms : List Bytes)
      → All (λ m. is_http_method m ≡ true) ms
      → Ensures (All (λ m. is_http_method m ≡ true)) (add_methods new ms)
  unfolding add_methods
  add_methods-All [] ms h = h
  add_methods-All (m ∷ new) ms h = elim (Bool-cases (is_http_method m)) [
    | inl e ↦
        rw (add_methods, e) (add_methods-All new (insert_method m ms) (insert_method-All m ms e h))
    | inr e ↦ rw (add_methods, e) tt
  ]

  parse_location_method-IsLocation :
      (value : Bytes) (loc : LocationStruct)
      → IsLocation over loc
      → Ensures (IsLocation over) (parse_location_method value loc)
  unfolding parse_location_method
  parse_location_method-IsLocation value loc h =
      Ensures-bind _ _ (add_methods (words value) loc.allowed_methods) _
        (add_methods-All (words value) loc.allowed_methods h.methods_in) λ ms g. ground arith

  return_of-IsLocation :
      (ws : List Bytes) (loc : LocationStruct)
      → IsLocation over loc
      → Ensures (IsLocation over) (return_of over ws loc)
  return_of-IsLocation [] loc h = tt
  return_of-IsLocation (code ∷ []) loc h = tt
  return_of-IsLocation (code ∷ url ∷ ws) loc h =
      elim (Bool-cases (is_redirect_code (atoi over code))) [
        | inr e ↦ rw e tt
        | inl e ↦ rw e (record {
          methods_in = h.methods_in;
          returns_in =
              All-append (λ r. is_redirect_code (atoi over r.0) ≡ true) loc.returns
                ((code, url) ∷ []) h.returns_in (e, tt);
          exts_in = h.exts_in;
        })
      ]

  dotted-All : (ws : List Bytes) → All (λ e. get_or e 0 0 ≡ b'.') (map dotted ws)
  unfolding dotted
  dotted-All [] = tt
  dotted-All ([] ∷ ws) = (refl, dotted-All ws)
  dotted-All ((c ∷ e) ∷ ws) = (ground arith, dotted-All ws)

  run_directive-IsLocation :
      (key value : Bytes) (loc : LocationStruct)
      → IsLocation over loc
      → Ensures (IsLocation over) (run_directive over key value loc)
  unfolding run_directive parse_location_root parse_location_autoindex parse_location_index_page
      parse_location_cgi_path parse_location_upload_enabled parse_location_upload_path
      parse_location_return parse_location_cgi_ext
  run_directive-IsLocation key value loc h = ground (
    arith,
    parse_location_method-IsLocation value loc h,
    return_of-IsLocation (words value) loc h,
    All-append (λ e. get_or e 0 0 ≡ b'.') loc.cgi_ext (map dotted (words value)) h.exts_in
        (dotted-All (words value)),
  )

  parse_location_directive-IsLocation :
      (directive : Bytes) (loc : LocationStruct)
      → IsLocation over loc
      → Ensures (IsLocation over) (parse_location_directive over directive loc)
  unfolding parse_location_directive
  parse_location_directive-IsLocation directive loc h = ground (
    arith,
    run_directive-IsLocation (before is_blank directive) (strip_white (after is_blank directive))
        loc h,
  )

  fill_line-IsLocation :
      (line : Bytes) (loc : LocationStruct)
      → IsLocation over loc
      → Ensures (IsLocation over) (fill_line over line loc)
  unfolding fill_line
  fill_line-IsLocation line loc h = ground (
    arith,
    parse_location_directive-IsLocation (drop_semicolon (drop_white (skip_white line))) loc h,
  )

  fill_lines-IsLocation :
      (lines : List Bytes) (loc : LocationStruct)
      → IsLocation over loc
      → Ensures (IsLocation over) (fill_lines over lines loc)
  unfolding fill_lines
  fill_lines-IsLocation [] loc h = h
  fill_lines-IsLocation (line ∷ lines) loc h =
      Ensures-bind _ _ (fill_line over line loc) _ (fill_line-IsLocation line loc h)
        (fill_lines-IsLocation lines)

  -- A location block that is read is a valid location.
  pub fill_location_struct-IsLocation :
      (lines : List Bytes) → Ensures (IsLocation over) (fill_location_struct over lines)
  unfolding fill_location_struct
  fill_location_struct-IsLocation lines =
      fill_lines-IsLocation lines empty_location empty-IsLocation
