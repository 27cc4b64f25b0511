-- ===== src/Parsing/Methods.antt =====
-- `parse_start_line` and `parse_headers` of src/Parsing/parsing_request.cpp: the parts of the state
-- that a call may change.
use spy_socket.Parsing.{Parser, Result, ok, stop, Post, Post-next}
use spy_socket.Parsing.Frame.{
  IsFailed, Keeps, Framed, check_method-Framed, check_uri-Framed, check_version-Framed,
  read_headers-Framed,
}
use spy_socket.Parsing.Headers.{double_crlf, parse_headers, max_header_size}
use spy_socket.Parsing.Start.{
  crlf, find_crlf, check_method, check_version, check_start_line, parse_start_line,
}
use spy_socket.Parsing.Uri.{check_uri}
use spy_socket.Prelude.{
  ℕ, ◌+◌, ◌-◌, ◌≤◌, ◌<◌, arith, [], ◌≡◌, refl, ◌∙◌, ◌⊎◌, inl, inr, Option-cases, Bool-cases, ltb,
  length, get_or,
}
use spy_socket.Prelude.Text.Find.{find_from-range}
use spy_socket.Prelude.Text.{Bytes, find_from, get_lines, substr}

-- A call that returned false: nothing has changed, or the request is refused.
abbrev pub Waits : Parser → Parser → Type 0
Waits p q = (q ≡ p) ⊎ IsFailed q

-- A call that returned true: it has moved the position forward, within the buffer.
pub record Reads (p q : Parser) : Type 0 where
  pub state_kept : q.current_state ≡ p.current_state
  pub buffer_kept : q.buffer ≡ p.buffer
  pub moved : p.buffer_pos < q.buffer_pos
  pub inside : q.buffer_pos ≤ length p.buffer

record Stays (p q : Parser) : Type 0 where
  state_kept : q.current_state ≡ p.current_state
  buffer_kept : q.buffer ≡ p.buffer
  pos_kept : q.buffer_pos ≡ p.buffer_pos

check_start_line-Stays :
    (junk : ℕ) (m u v : Bytes) (p : Parser)
    → Post (λ _ q. Stays p q) IsFailed (check_start_line junk m u v p)
unfolding check_start_line
check_start_line-Stays junk m u v p =
    Post-next (λ _ q. Keeps p q) IsFailed _ (check_method m p) _ (check_method-Framed m p)
      λ _ q k.
        Post-next (λ _ r. Keeps q r) IsFailed _ (check_uri junk u q) _ (check_uri-Framed junk u q)
          λ w r l.
            Post-next (λ _ t. Keeps r t) IsFailed _ (check_version v r) _ (check_version-Framed v r)
              λ _ t n. record {
                state_kept = n.state_kept ∙ l.state_kept ∙ k.state_kept;
                buffer_kept = n.buffer_kept ∙ l.buffer_kept ∙ k.buffer_kept;
                pos_kept = n.pos_kept ∙ l.pos_kept ∙ k.pos_kept;
              }

-- From "moved on, or failed" behind a change of position to "read on, or waits".
from_Post :
    {A : Type 0} (p q : Parser) (r : Result Parser A)
    → Reads p q
    → Post (λ _ s. Stays q s) IsFailed r
    → Post (λ _ s. Reads p s) (Waits p) r
from_Post p q (ok a s) h w = record {
  state_kept = w.state_kept ∙ h.state_kept;
  buffer_kept = w.buffer_kept ∙ h.buffer_kept;
  moved = omega (arith, h.moved, w.pos_kept);
  inside = omega (arith, h.inside, w.pos_kept);
}
from_Post p q (stop s) h w = inr w

-- The position behind a separator of `n` bytes that was found at `i`.
moved_Reads :
    (p : Parser) (i n : ℕ)
    → (p.buffer_pos ≤ i) × (i + n ≤ length p.buffer)
    → 0 < n
    → Reads p (record p { buffer_pos = i + n })
moved_Reads p i n h pos = record {
  state_kept = refl;
  buffer_kept = refl;
  moved = omega (arith, h.0);
  inside = h.1;
}

-- `parse_start_line` either goes on, with the state and the buffer kept and the position moved
-- forward within the buffer, or returns false; then nothing has changed, or the request is refused
-- with one of the codes of `is_error_code`.
pub parse_start_line-Post :
    (junk : ℕ) (p : Parser) → Post (λ _ q. Reads p q) (Waits p) (parse_start_line junk p)
unfolding parse_start_line find_crlf
parse_start_line-Post junk p = elim (Option-cases (find_crlf p)) [
  | inl e ↦ rw (parse_start_line, Post, e) (inl refl)
  | inr (i, e) ↦
      let q = record p { buffer_pos = i + 2 } in
      let words = get_lines b' ' (substr p.buffer p.buffer_pos (i - p.buffer_pos)) in
      rw (parse_start_line, Post, e)
        (from_Post p q _
          (moved_Reads p i 2 (find_from-range crlf p.buffer p.buffer_pos i e) (omega arith))
          (check_start_line-Stays junk (get_or words 0 []) (get_or words 1 []) (get_or words 2 [])
            q))
]

to_Stays :
    {A : Type 0} (p : Parser) (r : Result Parser A)
    → Framed p r
    → Post (λ _ s. Stays p s) IsFailed r
to_Stays p (ok a s) h = record {
  state_kept = h.state_kept;
  buffer_kept = h.buffer_kept;
  pos_kept = h.pos_kept;
}
to_Stays p (stop s) h = h

-- `parse_headers` either goes on, with the state and the buffer kept and the position moved forward
-- within the buffer, or returns false; then nothing has changed, or the request is refused with one
-- of the codes of `is_error_code`.
pub parse_headers-Post : (p : Parser) → Post (λ _ q. Reads p q) (Waits p) (parse_headers p)
unfolding parse_headers
parse_headers-Post p = elim (Option-cases (find_from double_crlf p.buffer p.buffer_pos)) [
  | inl e ↦ elim (Bool-cases (ltb max_header_size (length p.buffer))) [
    | inl big ↦ rw (parse_headers, Post, e, big) (inr (record { state_is = refl; code_is = refl }))
    | inr small ↦ rw (parse_headers, Post, e, small) (inl refl)
  ]
  | inr (i, e) ↦
      let q = record p { buffer_pos = i + 4 } in
      rw (parse_headers, Post, e)
        (from_Post p q _
          (moved_Reads p i 4 (find_from-range double_crlf p.buffer p.buffer_pos i e) (omega arith))
          (to_Stays q _ (read_headers-Framed (substr p.buffer p.buffer_pos (i - p.buffer_pos)) q)))
]
