-- ===== src/Parsing/WellFormed.antt =====
-- `parse_start_line` and `parse_headers` of src/Parsing/parsing_request.cpp: what the parser knows of
-- a request behind each of them.
use spy_socket.Parsing.{Parser, Result, ok, stop, M, Post, Post-next, next}
use spy_socket.Parsing.Checks.{check_host, check_port}
use spy_socket.Parsing.Frame.{
  Framed, check_connection-Framed, check_transfer_encoding-Framed, check_content_length-Framed,
  check_location-Framed, check_content_type-Framed, check_cookie-Framed, read_headers-Framed,
}
use spy_socket.Parsing.Headers.{
  double_crlf, max_header_size, parse_headers, read_headers, add_lines, check_headers, body_length,
}
use spy_socket.Parsing.Start.{
  find_crlf, is_served, check_method, check_version, check_start_line, parse_start_line,
}
use spy_socket.Parsing.Uri.{check_uri}
use spy_socket.Parsing.Uri.Safe.{IsSafe, check_uri-IsSafe}
use spy_socket.Prelude.{
  ℕ, ◌+◌, ◌-◌, true, false, [], some, ◌≡◌, refl, ◌∙◌, inl, inr, arith, Option-cases, Bool-cases,
  ltb, length, get_or, ◌==◌, ◌&&◌,
}
use spy_socket.Prelude.Text.{Bytes, codes, str_eq, str_eq_iff, find_from, get_lines, substr}
use spy_socket.Prelude.Text.Map.{Map, lookup, insert, lookup-insert}

-- A start line that was accepted.
pub record IsStarted (junk : ℕ) (l : Map) : Type 0 where
  pub method : Bytes
  pub raw : Bytes
  pub uri : Bytes
  pub method_is : lookup (codes "method") l ≡ some method
  pub uri_is : lookup (codes "uri") l ≡ some uri
  pub version_is : lookup (codes "version") l ≡ some (codes "HTTP/1.1")
  pub served : is_served method ≡ true
  pub safe : IsSafe junk raw uri

-- A header block that was accepted.
pub record IsHeaded (p : Parser) : Type 0 where
  pub has_host : p.host_exists ≡ 1
  pub one_length : (p.content_lenght_exists == 1 && p.transfer_encoding_exists == 1) ≡ false

check_method-served :
    (m : Bytes) (p : Parser) → Post (λ _ q. is_served m ≡ true) (λ _. Unit {0}) (check_method m p)
unfolding check_method
check_method-served m p = ground arith

check_version-eq :
    (v : Bytes) (p : Parser)
    → Post (λ _ q. str_eq v (codes "HTTP/1.1") ≡ true) (λ _. Unit {0}) (check_version v p)
unfolding check_version
check_version-eq v p = ground arith

stored-IsStarted :
    (junk : ℕ) (m u v w : Bytes) (l : Map)
    → is_served m ≡ true
    → IsSafe junk u w
    → v ≡ codes "HTTP/1.1"
    → IsStarted junk
        (insert (codes "version") v (insert (codes "uri") w (insert (codes "method") m l)))
unfolding str_eq
stored-IsStarted junk m u v w l served safe version = record {
  method = m;
  raw = u;
  uri = w;
  method_is = simp lookup-insert;
  uri_is = simp lookup-insert;
  version_is = simp (lookup-insert, version);
  served = served;
  safe = safe;
}

check_start_line-IsStarted :
    (junk : ℕ) (m u v : Bytes) (p : Parser)
    → Post (λ _ q. IsStarted junk q.start_line) (λ _. Unit {0}) (check_start_line junk m u v p)
unfolding check_start_line
check_start_line-IsStarted junk m u v p =
    Post-next (λ _ q. is_served m ≡ true) (λ _. Unit {0}) _ (check_method m p) _
      (check_method-served m p)
      λ _ q served.
        Post-next (λ w r. (r ≡ q) × IsSafe junk u w) (λ _. Unit {0}) _ (check_uri junk u q) _
          (check_uri-IsSafe junk u q)
          λ w r safe.
            Post-next (λ _ t. str_eq v (codes "HTTP/1.1") ≡ true) (λ _. Unit {0}) _
              (check_version v r) _ (check_version-eq v r)
              λ _ t same.
                stored-IsStarted junk m u v w t.start_line served (safe.1)
                  ((str_eq_iff v (codes "HTTP/1.1")).0 same)

pub parse_start_line-IsStarted :
    (junk : ℕ) (p : Parser)
    → Post (λ _ q. IsStarted junk q.start_line) (λ _. Unit {0}) (parse_start_line junk p)
unfolding parse_start_line
parse_start_line-IsStarted junk p = elim (Option-cases (find_crlf p)) [
  | inl e ↦ rw (parse_start_line, Post, e) tt
  | inr (i, e) ↦
      let words = get_lines b' ' (substr p.buffer p.buffer_pos (i - p.buffer_pos)) in
      rw (parse_start_line, Post, e)
        (check_start_line-IsStarted junk (get_or words 0 []) (get_or words 1 []) (get_or words 2 [])
          (record p { buffer_pos = i + 2 }))
]

-- The only host test that is passed has set `host_exists`.
check_host-set : (p : Parser) → Post (λ _ q. q.host_exists ≡ 1) (λ _. Unit {0}) (check_host p)
unfolding check_host check_port
check_host-set p = ground arith

-- A framed call keeps a host that was found.
host-next :
    {A B : Type 0} (p : Parser) (r : Result Parser A) (f : A → M Parser B)
    → p.host_exists ≡ 1
    → Framed p r
    → ((a : A) (q : Parser)
        → q.host_exists ≡ 1
        → Post (λ _ s. s.host_exists ≡ 1) (λ _. Unit {0}) (f a q))
    → Post (λ _ s. s.host_exists ≡ 1) (λ _. Unit {0}) (next r f)
host-next p (ok a q) f e h k = k a q (h.host_stays e)
host-next p (stop q) f e h k = tt

host_last :
    {A : Type 0} (p : Parser) (r : Result Parser A)
    → p.host_exists ≡ 1
    → Framed p r
    → Post (λ _ s. s.host_exists ≡ 1) (λ _. Unit {0}) r
host_last p (ok a q) e h = h.host_stays e
host_last p (stop q) e h = tt

check_headers-set : (p : Parser) → Post (λ _ q. q.host_exists ≡ 1) (λ _. Unit {0}) (check_headers p)
unfolding check_headers
check_headers-set p =
    Post-next (λ _ q. q.host_exists ≡ 1) (λ _. Unit {0}) _ (check_host p) _ (check_host-set p)
      λ _ p e. host-next p _ _ e (check_connection-Framed p) λ _ p e.
        host-next p _ _ e (check_transfer_encoding-Framed p) λ _ p e.
          host-next p _ _ e (check_content_length-Framed p) λ _ p e.
            host-next p _ _ e (check_location-Framed p) λ _ p e.
              host-next p _ _ e (check_content_type-Framed p)
                λ _ p e. host_last p _ e (check_cookie-Framed p)

body_length-IsHeaded :
    (p : Parser) → p.host_exists ≡ 1 → Post (λ _ q. IsHeaded q) (λ _. Unit {0}) (body_length p)
unfolding body_length
body_length-IsHeaded p e = ground arith

read_headers-IsHeaded :
    (s : Bytes) (p : Parser) → Post (λ _ q. IsHeaded q) (λ _. Unit {0}) (read_headers s p)
unfolding read_headers
read_headers-IsHeaded s p =
    Post-next (λ _ q. Unit {0}) (λ _. Unit {0}) _ (add_lines (get_lines b'\n' s) [] p) _ (forget _)
      λ m q _.
        let r = record q { headers = m } in
        Post-next (λ _ t. t.host_exists ≡ 1) (λ _. Unit {0}) _ (check_headers r) _
          (check_headers-set r) λ _ t e. body_length-IsHeaded t e
  where
    forget : {A : Type 0} (r : Result Parser A) → Post (λ _ q. Unit {0}) (λ _. Unit {0}) r
    forget (ok a q) = tt
    forget (stop q) = tt

start_line-Framed :
    {A : Type 0} (l : Map) (p : Parser) (r : Result Parser A)
    → p.start_line ≡ l
    → Framed p r
    → Post (λ _ q. IsHeaded q) (λ _. Unit {0}) r
    → Post (λ _ q. IsHeaded q × (q.start_line ≡ l)) (λ _. Unit {0}) r
start_line-Framed l p (ok a q) e h k = (k, h.start_line_kept ∙ e)
start_line-Framed l p (stop q) e h k = tt

pub parse_headers-IsHeaded :
    (p : Parser)
    → Post (λ _ q. IsHeaded q × (q.start_line ≡ p.start_line)) (λ _. Unit {0}) (parse_headers p)
unfolding parse_headers
parse_headers-IsHeaded p = elim (Option-cases (find_from double_crlf p.buffer p.buffer_pos)) [
  | inl e ↦ elim (Bool-cases (ltb max_header_size (length p.buffer))) [
    | inl big ↦ rw (parse_headers, Post, e, big) tt
    | inr small ↦ rw (parse_headers, Post, e, small) tt
  ]
  | inr (i, e) ↦
      let q = record p { buffer_pos = i + 4 } in
      let s = substr p.buffer p.buffer_pos (i - p.buffer_pos) in
      rw (parse_headers, Post, e)
        (start_line-Framed p.start_line q (read_headers s q) refl (read_headers-Framed s q)
          (read_headers-IsHeaded s q))
]
