-- ===== src/Parsing/Feed/Total.antt =====
-- `feed_data` of src/Parsing/parsing_request.cpp: its results, and the fuel of its loop.
use spy_socket.Chunked.Total.{IsReady}
use spy_socket.Parsing.{
  ParseState, start_line_state, headers_state, body_state, complete, error, ParseResult, parse_ok,
  again, error_result, Result, Post,
}
use spy_socket.Parsing.Feed.{Machine}
use spy_socket.Prelude.{ℕ, ◌<◌, Option, some, ◌≡◌, ◌⊎◌}

-- How many rounds a state is away from the end.
abbrev rank : ParseState → ℕ
rank start_line_state = 3
rank headers_state = 2
rank body_state = 1
rank complete = 0
rank error = 0

-- What a state means to the caller.
abbrev pub answer : ParseState → ParseResult
answer complete = parse_ok
answer error = error_result
answer _ = again

abbrev pub Answers : Option ParseResult × Machine → Type 0
Answers r = r.0 ≡ some (answer r.1.parser.current_state)

-- A machine that a method left by `return false` in state `s`.
abbrev Halts : ParseState → Machine → Type 0
Halts s m = (m.parser.current_state ≡ s) ⊎ (m.parser.current_state ≡ error)

-- The decoder of a machine that goes on, before its last state.
abbrev Ready : Result Machine (Unit {0}) → Type 0
Ready r = Post (λ _ q. 0 < rank q.parser.current_state → IsReady q.chunker) (λ _. Unit {0}) r
