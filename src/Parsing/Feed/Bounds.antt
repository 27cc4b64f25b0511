-- ===== src/Parsing/Feed/Bounds.antt =====
-- `feed_data` and `reset` of src/Parsing/parsing_request.cpp: the position in the buffer, at which the
-- methods call substr and whose distance to the end they compute in size_t.
use spy_socket.Chunked.{Overflow}
use spy_socket.Parsing.{
  ParseState, start_line_state, headers_state, body_state, complete, error, ParseResult, Parser,
  Result, ok, stop, Post, next,
}
use spy_socket.Parsing.Feed.{
  Env, Machine, on_machine, set_state, parse_chunked, parse_counted, parse_body, step_in, throws,
  settle, drive, run, feed_data, after_headers, max_buffer_size, reset,
}
use spy_socket.Parsing.Feed.Invariant.{unless-either, Reach, born, fed, restarted, shared}
use spy_socket.Parsing.Headers.{parse_headers}
use spy_socket.Parsing.Methods.{Waits, Reads, parse_start_line-Post, parse_headers-Post}
use spy_socket.Parsing.Start.{parse_start_line}
use spy_socket.Prelude.{
  ℕ, zero, suc, ◌+◌, ◌≤◌, Option, ◌≡◌, refl, sym, subst, ◌⊎◌, inl, inr, arith, Bool-cases, ltb,
  length, ◌++◌, length-append,
}
use spy_socket.Prelude.Text.{Bytes}

-- The request is refused, or the position is one of the buffer or its end.
abbrev pub IsBounded : Parser → Type 0
IsBounded p = (p.current_state ≡ error) ⊎ (p.buffer_pos ≤ length p.buffer)

-- The same of both outcomes of a round.
abbrev pub Bounded : Result Machine (Unit {0}) → Type 0
Bounded r = Post (λ _ q. IsBounded q.parser) (λ q. IsBounded q.parser) r

Waits-IsBounded : (p q : Parser) → IsBounded p → Waits p q → IsBounded q
Waits-IsBounded p q h (inl same) = subst IsBounded (sym same) h
Waits-IsBounded p q h (inr bad) = inl bad.state_is

Reads-Bounded :
    (m : Machine) (r : Result Parser (Unit {0})) (s : Parser → ParseState)
    → IsBounded m.parser
    → Post (λ _ q. Reads m.parser q) (Waits m.parser) r
    → Bounded (next (on_machine m r) (λ _ q. set_state (s q.parser) q))
Reads-Bounded m (ok a p) s h w =
    inr (subst (λ b. p.buffer_pos ≤ length b) (sym w.buffer_kept) w.inside)
Reads-Bounded m (stop p) s h w = Waits-IsBounded m.parser p h w

-- The same of the two outcomes of `parse_body`, the first before the state is set.
abbrev BodyBounded : Result Machine (Unit {0}) → Type 0
BodyBounded r =
    Post (λ _ q. q.parser.buffer_pos ≤ length q.parser.buffer) (λ q. IsBounded q.parser) r

parse_chunked-BodyBounded :
    (over : Overflow) (m : Machine)
    → m.parser.buffer_pos ≤ length m.parser.buffer
    → BodyBounded (parse_chunked over m)
unfolding parse_chunked
parse_chunked-BodyBounded over m h = ground arith

parse_counted-BodyBounded :
    (m : Machine)
    → m.parser.buffer_pos ≤ length m.parser.buffer
    → BodyBounded (on_machine m (parse_counted m.parser))
unfolding parse_counted
parse_counted-BodyBounded m h = ground arith

parse_body-BodyBounded :
    (over : Overflow) (m : Machine)
    → m.parser.buffer_pos ≤ length m.parser.buffer
    → BodyBounded (parse_body over m)
unfolding parse_body
parse_body-BodyBounded over m h =
    ground (arith, parse_chunked-BodyBounded over m h, parse_counted-BodyBounded m h)

completed-Bounded :
    (r : Result Machine (Unit {0})) → BodyBounded r → Bounded (next r (λ _. set_state complete))
completed-Bounded (ok a m) h = inr h
completed-Bounded (stop m) h = h

pub body_pos :
    (p : Parser) → p.current_state ≡ body_state → IsBounded p → p.buffer_pos ≤ length p.buffer
body_pos p e h = ground arith

pub step_in-Bounded :
    (env : Env) (s : ParseState) (m : Machine)
    → m.parser.current_state ≡ s
    → IsBounded m.parser
    → Bounded (step_in env s m)
unfolding step_in
step_in-Bounded env start_line_state m e h =
    Reads-Bounded m (parse_start_line env.junk m.parser) (λ _. headers_state) h
      (parse_start_line-Post env.junk m.parser)
step_in-Bounded env headers_state m e h =
    Reads-Bounded m (parse_headers m.parser) after_headers h (parse_headers-Post m.parser)
step_in-Bounded env body_state m e h =
    completed-Bounded (parse_body env.over m)
      (parse_body-BodyBounded env.over m (body_pos m.parser e h))
step_in-Bounded env complete m e h = h
step_in-Bounded env error m e h = h

settle-IsBounded :
    (r : Result Machine (Unit {0})) (k : Machine → Option ParseResult × Machine)
    → Bounded r
    → ((q : Machine) → IsBounded q.parser → IsBounded (k q).1.parser)
    → IsBounded (settle r k).1.parser
settle-IsBounded (ok a q) k h each = each q h
settle-IsBounded (stop q) k h each = h

drive-IsBounded :
    (env : Env) (fuel : ℕ) (s : ParseState) (m : Machine)
    → m.parser.current_state ≡ s
    → IsBounded m.parser
    → IsBounded (drive env fuel s m).1.parser
unfolding drive
drive-IsBounded env fuel complete m e h = h
drive-IsBounded env fuel error m e h = h
drive-IsBounded env zero start_line_state m e h = h
drive-IsBounded env zero headers_state m e h = h
drive-IsBounded env zero body_state m e h = h
drive-IsBounded env (suc fuel) start_line_state m e h =
    unless-either (λ r. IsBounded r.1.parser) (throws env start_line_state m) h
      (settle-IsBounded (step_in env start_line_state m) _ (step_in-Bounded env _ m e h)
        (λ q. drive-IsBounded env fuel q.parser.current_state q refl))
drive-IsBounded env (suc fuel) headers_state m e h =
    unless-either (λ r. IsBounded r.1.parser) (throws env headers_state m) h
      (settle-IsBounded (step_in env headers_state m) _ (step_in-Bounded env _ m e h)
        (λ q. drive-IsBounded env fuel q.parser.current_state q refl))
drive-IsBounded env (suc fuel) body_state m e h =
    unless-either (λ r. IsBounded r.1.parser) (throws env body_state m) h
      (settle-IsBounded (step_in env body_state m) _ (step_in-Bounded env _ m e h)
        (λ q. drive-IsBounded env fuel q.parser.current_state q refl))

pub appended-IsBounded :
    (p : Parser) (bytes : Bytes) → IsBounded p → IsBounded (record p { buffer = p.buffer ++ bytes })
appended-IsBounded p bytes (inl e) = inl e
appended-IsBounded p bytes (inr h) = inr (omega (arith, h, length-append p.buffer bytes))

feed_data-IsBounded :
    (env : Env) (bytes : Bytes) (m : Machine)
    → IsBounded m.parser
    → IsBounded (feed_data env bytes m).1.parser
unfolding feed_data run
feed_data-IsBounded env bytes m h =
    elim (Bool-cases (ltb max_buffer_size (length m.parser.buffer + length bytes))) [
      | inl big ↦ rw big (inl refl)
      | inr small ↦
          let q = record m { parser = record (m.parser) { buffer = m.parser.buffer ++ bytes } } in
          rw small (
            drive-IsBounded env 3 m.parser.current_state q refl
              (appended-IsBounded m.parser bytes h))
    ]

-- In every state that a connection's parser can reach, the request is refused or the position in the
-- buffer is at most the buffer's length.
pub Reach-IsBounded : {env : Env} {m : Machine} → Reach env m → IsBounded m.parser
unfolding reset
Reach-IsBounded (born code status r c) = inr (omega arith)
Reach-IsBounded {env} (fed {m} bytes h) = feed_data-IsBounded env bytes m (Reach-IsBounded h)
Reach-IsBounded (restarted h) = inr (omega arith)
Reach-IsBounded (shared c h) = Reach-IsBounded h
