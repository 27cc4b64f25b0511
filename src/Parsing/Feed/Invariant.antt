-- ===== src/Parsing/Feed/Invariant.antt =====
-- `feed_data` and `reset` of src/Parsing/parsing_request.cpp: the states that a connection's parser can
-- reach.
use spy_socket.Chunked.{Chunker}
use spy_socket.Parsing.{
  ParseState, start_line_state, headers_state, body_state, complete, error, ParseResult, Parser,
  new_parser, Result, ok, stop, Post, next,
}
use spy_socket.Parsing.Feed.{
  Env, Machine, machine, on_machine, set_state, parse_chunked, parse_counted, parse_body, step_in,
  throws, settle, drive, run, feed_data, after_headers, max_buffer_size, reset, method_of,
}
use spy_socket.Parsing.Frame.{is_error_code}
use spy_socket.Parsing.Headers.{parse_headers}
use spy_socket.Parsing.Methods.{Waits, Reads, parse_start_line-Post, parse_headers-Post}
use spy_socket.Parsing.Start.{parse_start_line}
use spy_socket.Parsing.WellFormed.{
  IsStarted, IsHeaded, parse_start_line-IsStarted, parse_headers-IsHeaded,
}
use spy_socket.Prelude.{
  ℕ, zero, suc, ◌+◌, ◌-◌, ◌≤◌, Bool, if◌then◌else◌, true, false, Option, ◌≡◌, refl, sym, subst, inl,
  inr, arith, Bool-cases, ltb, length, ◌++◌, ◌==◌, ◌&&◌, not, length-take, length-drop, take, drop,
}
use spy_socket.Prelude.Text.{Bytes, codes, str_eq}

-- A complete request: the body of a POST with a Content-Length has just the expected length.
pub record IsComplete (junk : ℕ) (p : Parser) : Type 0 where
  pub started : IsStarted junk p.start_line
  pub headed : IsHeaded p
  pub body_is :
      (str_eq (method_of p) (codes "POST")
        && p.content_lenght_exists == 1
        && not (length p.body_content == p.expected_body_length))
      ≡ false

-- What holds in each state.
abbrev pub InvAt : ℕ → ParseState → Parser → Type 0
InvAt junk start_line_state p = Unit
InvAt junk headers_state p = IsStarted junk p.start_line
InvAt junk body_state p = IsStarted junk p.start_line × IsHeaded p
InvAt junk complete p = IsComplete junk p
InvAt junk error p = is_error_code p.error_code ≡ true

abbrev pub Inv : ℕ → Parser → Type 0
Inv junk p = InvAt junk p.current_state p

-- The outcome of a round satisfies the invariant, whichever way it ends.
abbrev pub Kept : ℕ → Result Machine (Unit {0}) → Type 0
Kept junk r = Post (λ _ q. Inv junk q.parser) (λ q. Inv junk q.parser) r

Waits-Inv : (junk : ℕ) (p q : Parser) → Inv junk p → Waits p q → Inv junk q
Waits-Inv junk p q h (inl same) = subst (Inv junk) (sym same) h
Waits-Inv junk p q h (inr bad) = subst (λ s. InvAt junk s q) (sym bad.state_is) (bad.code_is)

start-Kept :
    (env : Env) (m : Machine) (r : Result Parser (Unit {0}))
    → Inv env.junk m.parser
    → Post (λ _ q. IsStarted env.junk q.start_line) (λ _. Unit {0}) r
    → Post (λ _ q. Unit {0}) (Waits m.parser) r
    → Kept env.junk (next (on_machine m r) (λ _. set_state headers_state))
start-Kept env m (ok a p) h s w = s
start-Kept env m (stop p) h s w = Waits-Inv env.junk m.parser p h w

after_headers-Inv :
    (junk : ℕ) (p : Parser)
    → IsStarted junk p.start_line
    → IsHeaded p
    → InvAt junk (after_headers p) (record p { current_state = after_headers p })
after_headers-Inv junk p s h = ground arith

headers-Kept :
    (env : Env) (m : Machine) (r : Result Parser (Unit {0}))
    → m.parser.current_state ≡ headers_state
    → Inv env.junk m.parser
    → Post (λ _ q. IsHeaded q × (q.start_line ≡ m.parser.start_line)) (λ _. Unit {0}) r
    → Post (λ _ q. Unit {0}) (Waits m.parser) r
    → Kept env.junk (next (on_machine m r) (λ _ q. set_state (after_headers q.parser) q))
headers-Kept env m (ok a p) e h s w =
    after_headers-Inv env.junk p
      (subst (IsStarted env.junk) (sym s.1) (subst (λ st. InvAt env.junk st m.parser) e h)) s.0
headers-Kept env m (stop p) e h s w = Waits-Inv env.junk m.parser p h w

-- `parse_body` from a well-formed state.
abbrev BodyKept : ℕ → Result Machine (Unit {0}) → Type 0
BodyKept junk r =
    Post (λ _ q. IsComplete junk (record (q.parser) { current_state = complete }))
      (λ q. Inv junk q.parser) r

parse_chunked-BodyKept :
    (env : Env) (m : Machine)
    → m.parser.current_state ≡ body_state
    → m.parser.transfer_encoding_exists ≡ 1
    → IsStarted env.junk m.parser.start_line
    → IsHeaded m.parser
    → BodyKept env.junk (parse_chunked env.over m)
unfolding parse_chunked
parse_chunked-BodyKept env m e t s h = ground (arith, h.one_length)

counted_length :
    (p : Parser)
    → p.expected_body_length ≤ length p.buffer - p.buffer_pos
    → length (take p.expected_body_length (drop p.buffer_pos p.buffer)) ≡ p.expected_body_length
counted_length p le = omega (
  arith,
  length-take p.expected_body_length (drop p.buffer_pos p.buffer),
  length-drop p.buffer_pos p.buffer,
)

parse_counted-BodyKept :
    (env : Env) (m : Machine)
    → m.parser.current_state ≡ body_state
    → IsStarted env.junk m.parser.start_line
    → IsHeaded m.parser
    → BodyKept env.junk (on_machine m (parse_counted m.parser))
unfolding parse_counted
parse_counted-BodyKept env m e s h = ground (arith, counted_length m.parser)

parse_body-BodyKept :
    (env : Env) (m : Machine)
    → m.parser.current_state ≡ body_state
    → IsStarted env.junk m.parser.start_line
    → IsHeaded m.parser
    → BodyKept env.junk (parse_body env.over m)
unfolding parse_body
parse_body-BodyKept env m e s h =
    ground (arith, parse_chunked-BodyKept env m e, parse_counted-BodyKept env m e s h)

complete-Kept :
    (junk : ℕ) (r : Result Machine (Unit {0}))
    → BodyKept junk r
    → Kept junk (next r (λ _. set_state complete))
complete-Kept junk (ok a m) h = h
complete-Kept junk (stop m) h = h

-- The second component of `waits`, without what it says of success.
forget_ok :
    (P E : Parser → Type 0) (r : Result Parser (Unit {0}))
    → Post (λ _ q. P q) E r
    → Post (λ _ q. Unit {0}) E r
forget_ok P E (ok a q) h = tt
forget_ok P E (stop q) h = h

pub step_in-Kept :
    (env : Env) (s : ParseState) (m : Machine)
    → m.parser.current_state ≡ s
    → Inv env.junk m.parser
    → Kept env.junk (step_in env s m)
unfolding step_in
step_in-Kept env start_line_state m e h =
    start-Kept env m (parse_start_line env.junk m.parser) h
      (parse_start_line-IsStarted env.junk m.parser)
      (forget_ok (Reads m.parser) (Waits m.parser) (parse_start_line env.junk m.parser)
        (parse_start_line-Post env.junk m.parser))
step_in-Kept env headers_state m e h =
    headers-Kept env m (parse_headers m.parser) e h (parse_headers-IsHeaded m.parser) (
      forget_ok (Reads m.parser) (Waits m.parser) (parse_headers m.parser)
        (parse_headers-Post m.parser))
step_in-Kept env body_state m e h =
    let both = subst (λ s. InvAt env.junk s m.parser) e h in
    complete-Kept env.junk (parse_body env.over m) (parse_body-BodyKept env m e (both.0) (both.1))
step_in-Kept env complete m e h = h
step_in-Kept env error m e h = h

settle-Inv :
    (junk : ℕ) (r : Result Machine (Unit {0})) (k : Machine → Option ParseResult × Machine)
    → Kept junk r
    → ((q : Machine) → Inv junk q.parser → Inv junk (k q).1.parser)
    → Inv junk (settle r k).1.parser
settle-Inv junk (ok a q) k h each = each q h
settle-Inv junk (stop q) k h each = h

-- What holds of both branches.
pub unless-either :
    (P : Option ParseResult × Machine → Type 0) (b : Bool) {x y : Option ParseResult × Machine}
    → P x
    → P y
    → P (if b then x else y)
unless-either P true hx hy = hx
unless-either P false hx hy = hy

drive-Inv :
    (env : Env) (fuel : ℕ) (s : ParseState) (m : Machine)
    → m.parser.current_state ≡ s
    → Inv env.junk m.parser
    → Inv env.junk (drive env fuel s m).1.parser
unfolding drive
drive-Inv env fuel complete m e h = h
drive-Inv env fuel error m e h = h
drive-Inv env zero start_line_state m e h = h
drive-Inv env zero headers_state m e h = h
drive-Inv env zero body_state m e h = h
drive-Inv env (suc fuel) start_line_state m e h =
    unless-either (λ r. Inv env.junk r.1.parser) (throws env start_line_state m) h
      (settle-Inv env.junk (step_in env start_line_state m) _ (step_in-Kept env _ m e h)
        (λ q k. drive-Inv env fuel q.parser.current_state q refl k))
drive-Inv env (suc fuel) headers_state m e h =
    unless-either (λ r. Inv env.junk r.1.parser) (throws env headers_state m) h
      (settle-Inv env.junk (step_in env headers_state m) _ (step_in-Kept env _ m e h)
        (λ q k. drive-Inv env fuel q.parser.current_state q refl k))
drive-Inv env (suc fuel) body_state m e h =
    unless-either (λ r. Inv env.junk r.1.parser) (throws env body_state m) h
      (settle-Inv env.junk (step_in env body_state m) _ (step_in-Kept env _ m e h)
        (λ q k. drive-Inv env fuel q.parser.current_state q refl k))

pub appended-Inv :
    (junk : ℕ) (s : ParseState) (p : Parser) (bytes : Bytes)
    → InvAt junk s p
    → InvAt junk s (record p { buffer = p.buffer ++ bytes })
appended-Inv junk s p bytes h = ground arith

feed_data-Inv :
    (env : Env) (bytes : Bytes) (m : Machine)
    → Inv env.junk m.parser
    → Inv env.junk (feed_data env bytes m).1.parser
unfolding feed_data run
feed_data-Inv env bytes m h =
    elim (Bool-cases (ltb max_buffer_size (length m.parser.buffer + length bytes))) [
      | inl big ↦ rw big refl
      | inr small ↦
          let q = record m { parser = record (m.parser) { buffer = m.parser.buffer ++ bytes } } in
          rw small (
            drive-Inv env 3 m.parser.current_state q refl
              (appended-Inv env.junk m.parser.current_state m.parser bytes h))
    ]

-- A connection's parser: new, after input, or after `reset`. Between its own calls the decoder,
-- which all connections share, may be left in any state by the others.
pub data Reach (env : Env) : Machine → Type 0 where
  born :
      (code status : ℕ) (r : ParseResult) (c : Chunker)
      → Reach env (machine (new_parser code status r) c)
  fed : {m : Machine} (bytes : Bytes) → Reach env m → Reach env (feed_data env bytes m).1
  restarted : {m : Machine} → Reach env m → Reach env (reset m)
  shared : {m : Machine} (c : Chunker) → Reach env m → Reach env (machine (m.parser) c)

-- In every state that a connection's parser can reach, whatever the input, however it is cut into
-- pieces, and whatever other connections do to the shared decoder: behind the start line its method
-- is one that is served, its version HTTP/1.1 and its URI safe; behind the headers a host was found,
-- and not both of Content-Length and Transfer-Encoding; in a complete POST with a Content-Length the
-- body has the expected length; and an error carries one of the codes of `is_error_code`.
pub Reach-Inv : {env : Env} {m : Machine} → Reach env m → Inv env.junk m.parser
unfolding reset
Reach-Inv (born code status r c) = tt
Reach-Inv {env} (fed {m} bytes h) = feed_data-Inv env bytes m (Reach-Inv h)
Reach-Inv (restarted h) = tt
Reach-Inv (shared c h) = Reach-Inv h
