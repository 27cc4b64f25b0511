-- ===== src/Parsing.antt =====
-- The state of `ParsingRequest` (inc/parsing_request.hpp) and the way its methods fail.
-- A method that returns false is a computation that stops; the state it leaves is kept, since
-- `feed_data` tells by `current_state` whether it failed or waits for more input.
pub mod Uri
pub mod Start
pub mod Checks
pub mod ContentType
pub mod Headers
pub mod Feed
pub mod Frame
pub mod Methods
pub mod WellFormed
use Prim.Native.String.{String}
use spy_socket.Prelude.{ℕ, List, []}
use spy_socket.Prelude.Text.{Bytes}
use spy_socket.Prelude.Text.Map.{Map}

pub data ParseState : Type 0 where
  start_line_state headers_state body_state complete error : ParseState

-- The members of the enumeration that the source ever stores or returns.
pub data ParseResult : Type 0 where
  parse_ok again error_result error_400 error_501 : ParseResult

-- A diagnostic text is the concatenation of its pieces.
pub data Piece : Type 0 where
  lit : String → Piece
  text : Bytes → Piece
  num : ℕ → Piece

abbrev pub Message : Type 0
Message = List Piece

pub record Parser : Type 0 where
  pub start_line : Map
  pub headers : Map
  pub connection_status : ℕ
  pub content_lenght_exists : ℕ
  pub transfer_encoding_exists : ℕ
  pub host_exists : ℕ
  pub error_code : ℕ
  pub error_message : Message
  pub status_code : ℕ
  pub result_p : ParseResult
  pub current_state : ParseState
  pub buffer : Bytes
  pub buffer_pos : ℕ
  pub expected_body_length : ℕ
  pub body_content : Bytes
  pub chunked_last_processed_size : ℕ
  pub chunked_accumulated_data : Bytes

-- The constructor. It leaves `error_code`, `status_code` and `result_p` as they are in memory.
abbrev pub new_parser : ℕ → ℕ → ParseResult → Parser
new_parser code status result = record {
  start_line = [];
  headers = [];
  connection_status = 1;
  content_lenght_exists = 0;
  transfer_encoding_exists = 0;
  host_exists = 0;
  error_code = code;
  error_message = [];
  status_code = status;
  result_p = result;
  current_state = start_line_state;
  buffer = [];
  buffer_pos = 0;
  expected_body_length = 0;
  body_content = [];
  chunked_last_processed_size = 0;
  chunked_accumulated_data = [];
}

-- `return true` with a value, or `return false`, each with the state that the method leaves.
pub data Result (S A : Type 0) : Type 0 where
  ok : A → S → Result S A
  stop : S → Result S A

abbrev pub M : Type 0 → Type 0 → Type 0
M S A = S → Result S A

abbrev pub next : {S A B : Type 0} → Result S A → (A → M S B) → Result S B
next (ok a s) f = f a s
next (stop s) f = stop s

infixl 5 ◌>>=◌ ◌>>◌
abbrev pub ◌>>=◌ : {S A B : Type 0} → M S A → (A → M S B) → M S B
◌>>=◌ m f s = next (m s) f

abbrev pub ◌>>◌ : {S B : Type 0} → M S (Unit {0}) → M S B → M S B
m >> k = m >>= λ _. k

abbrev pub done : {S : Type 0} → M S (Unit {0})
done s = ok tt s

-- `error_code = …; error_message = …; current_state = PARSE_ERROR`, where the connection is kept
abbrev pub rejected : ℕ → Message → Parser → Parser
rejected code msg p = record p { error_code = code; error_message = msg; current_state = error }

-- the same behind `connection_status = 0`
abbrev pub failed : ℕ → Message → Parser → Parser
failed code msg p = rejected code msg (record p { connection_status = 0 })

abbrev pub fail : {A : Type 0} → ℕ → Message → M Parser A
fail code msg p = stop (failed code msg p)

abbrev pub reject : {A : Type 0} → ℕ → Message → M Parser A
reject code msg p = stop (rejected code msg p)

-- What holds of an outcome: `Q` where the method returned true, `E` where it returned false.
abbrev pub Post : {S A : Type 0} → (A → S → Type 0) → (S → Type 0) → Result S A → Type 0
Post Q E (ok a s) = Q a s
Post Q E (stop s) = E s

pub Post-next :
    {S A B : Type 0} (Q : A → S → Type 0) (E : S → Type 0) (R : B → S → Type 0) (r : Result S A)
    (f : A → M S B)
    → Post Q E r
    → ((a : A) (s : S) → Q a s → Post R E (f a s))
    → Post R E (next r f)
Post-next Q E R (ok a s) f h k = k a s h
Post-next Q E R (stop s) f h k = h
