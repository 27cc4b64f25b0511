-- ===== src/Parsing/Frame.antt =====
-- The methods that `parse_start_line` and `parse_headers` of src/Parsing/parsing_request.cpp call: the
-- members that they do not write, and the error codes that they set.
use spy_socket.Parsing.{error, Parser, Result, ok, stop, M, Post, next}
use spy_socket.Parsing.Checks.{
  check_location, check_connection, check_content_length, check_host, check_port,
  check_transfer_encoding, check_cookie,
}
use spy_socket.Parsing.ContentType.{
  add_directive, add_directives, check_charset, check_boundary, check_supported, check_media_type,
  check_directives, check_content_type,
}
use spy_socket.Parsing.Headers.{
  add_header, add_line, add_lines, strip_cr, check_headers, body_length, read_headers,
}
use spy_socket.Parsing.Start.{check_method, check_version}
use spy_socket.Parsing.Uri.{rewrite_uri, check_uri}
use spy_socket.Prelude.{
  ℕ, Bool, true, ◌||◌, List, [], ◌∷◌, ◌≡◌, ◌∙◌, ◌==◌, arith, inl, inr, Option-cases, ◌+◌, suc, take,
  drop, map,
}
use spy_socket.Prelude.Text.{Bytes, codes, find, get_lines, to_lower, trim}
use spy_socket.Prelude.Text.Map.{Map, lookup, insert}

-- The codes with which a request is refused.
abbrev pub is_error_code : ℕ → Bool
is_error_code c = c == 400 || c == 413 || c == 414 || c == 415 || c == 431 || c == 501

pub record IsFailed (p : Parser) : Type 0 where
  pub state_is : p.current_state ≡ error
  pub code_is : is_error_code p.error_code ≡ true

-- The input, the start line and the state of the machine are those of `p`.
pub record Keeps (p q : Parser) : Type 0 where
  pub state_kept : q.current_state ≡ p.current_state
  pub buffer_kept : q.buffer ≡ p.buffer
  pub pos_kept : q.buffer_pos ≡ p.buffer_pos
  pub start_line_kept : q.start_line ≡ p.start_line
  pub host_stays : p.host_exists ≡ 1 → q.host_exists ≡ 1

Keeps-trans : {p q r : Parser} → Keeps p q → Keeps q r → Keeps p r
Keeps-trans h k = record {
  state_kept = k.state_kept ∙ h.state_kept;
  buffer_kept = k.buffer_kept ∙ h.buffer_kept;
  pos_kept = k.pos_kept ∙ h.pos_kept;
  start_line_kept = k.start_line_kept ∙ h.start_line_kept;
  host_stays = λ e. k.host_stays (h.host_stays e);
}

abbrev pub Framed : {A : Type 0} → Parser → Result Parser A → Type 0
Framed p r = Post (λ _ q. Keeps p q) IsFailed r

Framed-trans :
    {A : Type 0} {p q : Parser} (r : Result Parser A) → Keeps p q → Framed q r → Framed p r
Framed-trans (ok b s) h w = Keeps-trans h w
Framed-trans (stop s) h w = w

Framed-next :
    {A B : Type 0} (p : Parser) (r : Result Parser A) (f : A → M Parser B)
    → Framed p r
    → ((a : A) (q : Parser) → Framed q (f a q))
    → Framed p (next r f)
Framed-next p (ok a q) f h k = Framed-trans (f a q) h (k a q)
Framed-next p (stop q) f h k = h

pub check_method-Framed : (m : Bytes) (p : Parser) → Framed p (check_method m p)
unfolding check_method
check_method-Framed m p = ground arith

pub check_version-Framed : (m : Bytes) (p : Parser) → Framed p (check_version m p)
unfolding check_version
check_version-Framed m p = ground arith

pub check_uri-Framed : (j : ℕ) (m : Bytes) (p : Parser) → Framed p (check_uri j m p)
unfolding check_uri rewrite_uri
check_uri-Framed j m p = ground arith

pub check_location-Framed : (p : Parser) → Framed p (check_location p)
unfolding check_location
check_location-Framed p = ground arith

pub check_connection-Framed : (p : Parser) → Framed p (check_connection p)
unfolding check_connection
check_connection-Framed p = ground arith

pub check_content_length-Framed : (p : Parser) → Framed p (check_content_length p)
unfolding check_content_length
check_content_length-Framed p = ground arith

check_port-Framed : (h s : Bytes) (p : Parser) → Framed p (check_port h s p)
unfolding check_port
check_port-Framed h s p = ground arith

check_host-Framed : (p : Parser) → Framed p (check_host p)
unfolding check_host
check_host-Framed p = elim (Option-cases (lookup (codes "host") p.headers)) [
  | inl e ↦ ground arith
  | inr (v, e) ↦ elim (Option-cases (find (codes ":") v)) [
    | inl n ↦ ground arith
    | inr (i, n) ↦ ground (arith, check_port-Framed (take i v) (drop (i + 1) v) p)
  ]
]

pub check_transfer_encoding-Framed : (p : Parser) → Framed p (check_transfer_encoding p)
unfolding check_transfer_encoding
check_transfer_encoding-Framed p = ground arith

pub check_cookie-Framed : (p : Parser) → Framed p (check_cookie p)
unfolding check_cookie
check_cookie-Framed p = ground arith

add_directive-Keeps : (d : Bytes) (ds : Map) (p : Parser) → Keeps p (add_directive d ds p).1
unfolding add_directive
add_directive-Keeps d ds p = ground arith

add_directives-Keeps :
    (ts : List Bytes) (ds : Map) (p : Parser) → Keeps p (add_directives ts ds p).1
unfolding add_directives
add_directives-Keeps [] ds p = ground arith
add_directives-Keeps (t ∷ ts) ds p =
    Keeps-trans (add_directive-Keeps t ds p)
      (add_directives-Keeps ts (add_directive t ds p).0 (add_directive t ds p).1)

check_charset-Framed : (ds : Map) (p : Parser) → Framed p (check_charset ds p)
unfolding check_charset
check_charset-Framed ds p = ground arith

check_boundary-Framed : (v : Bytes) (ds : Map) (p : Parser) → Framed p (check_boundary v ds p)
unfolding check_boundary
check_boundary-Framed v ds p = ground arith

check_supported-Framed : (v : Bytes) (p : Parser) → Framed p (check_supported v p)
unfolding check_supported
check_supported-Framed v p = ground arith

check_media_type-Framed : (v : Bytes) (ds : Map) (p : Parser) → Framed p (check_media_type v ds p)
unfolding check_media_type
check_media_type-Framed v ds p =
    let value = map to_lower (trim v) in
    let q = record p { headers = insert (codes "content-type-value") value p.headers } in
    Framed-trans {p = p} {q = q} _ (ground arith) (
      Framed-next q (check_boundary value ds q) _ (check_boundary-Framed value ds q)
        (λ _ r. check_supported-Framed value r))

check_directives-Framed : (v s : Bytes) (p : Parser) → Framed p (check_directives v s p)
unfolding check_directives
check_directives-Framed v s p =
    let r = add_directives (get_lines b';' s) [] p in
    Framed-trans {p = p} {q = r.1} _ (add_directives-Keeps (get_lines b';' s) [] p) (
      Framed-next r.1 (check_charset r.0 r.1) _ (check_charset-Framed r.0 r.1)
        (λ _ q. check_media_type-Framed v r.0 q))

pub check_content_type-Framed : (p : Parser) → Framed p (check_content_type p)
unfolding check_content_type
check_content_type-Framed p = elim (Option-cases (lookup (codes "content-type") p.headers)) [
  | inl e ↦ ground arith
  | inr (v, e) ↦ elim (Option-cases (find (codes ";") v)) [
    | inl n ↦ ground (arith, check_media_type-Framed v [] p)
    | inr (i, n) ↦ ground (arith, check_directives-Framed (take i v) (drop (suc i) v) p)
  ]
]

add_header-Framed : (k v : Bytes) (m : Map) (p : Parser) → Framed p (add_header k v m p)
unfolding add_header
add_header-Framed [] v m p = ground arith
add_header-Framed (c ∷ k) v m p = ground arith

add_line-Framed : (l : Bytes) (m : Map) (p : Parser) → Framed p (add_line l m p)
unfolding add_line
add_line-Framed l m p = elim (Option-cases (find (codes ":") l)) [
  | inl n ↦ ground arith
  | inr (i, n) ↦ ground (arith, add_header-Framed (take i l) (drop (suc i) l) m p)
]

add_lines-Framed : (ls : List Bytes) (m : Map) (p : Parser) → Framed p (add_lines ls m p)
unfolding add_lines
add_lines-Framed [] m p = ground arith
add_lines-Framed (l ∷ ls) m p =
    Framed-next p _ _ (add_line-Framed (strip_cr l) m p) (λ n q. add_lines-Framed ls n q)

check_headers-Framed : (p : Parser) → Framed p (check_headers p)
unfolding check_headers
check_headers-Framed p = Framed-next p _ _ (check_host-Framed p) λ _ p.
    Framed-next p _ _ (check_connection-Framed p) λ _ p.
      Framed-next p _ _ (check_transfer_encoding-Framed p) λ _ p.
        Framed-next p _ _ (check_content_length-Framed p) λ _ p.
          Framed-next p _ _ (check_location-Framed p)
            λ _ p. Framed-next p _ _ (check_content_type-Framed p) λ _ p. check_cookie-Framed p

body_length-Framed : (p : Parser) → Framed p (body_length p)
unfolding body_length
body_length-Framed p = ground arith

pub read_headers-Framed : (s : Bytes) (p : Parser) → Framed p (read_headers s p)
unfolding read_headers
read_headers-Framed s p =
    Framed-next p (add_lines (get_lines b'\n' s) [] p) _ (add_lines-Framed (get_lines b'\n' s) [] p)
      λ m q.
        let r = record q { headers = m } in
        Framed-trans {p = q} {q = r} _ (ground arith)
          (Framed-next r _ _ (check_headers-Framed r) λ _ t. body_length-Framed t)
