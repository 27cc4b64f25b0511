-- ===== src/Chunked.antt =====
-- src/POST/unchunk.cpp: `refactor_data`, the decoder of chunked bodies. The static variables of
-- `refactor_data` are a state of their own: the process has one of it for all
-- connections. A failed allocation (the `catch` blocks) is not modelled.
mod Number
pub mod Total
pub mod Atoi
pub mod Hex
pub mod RoundTrip
pub mod Request
unfoldable pub use spy_socket.Chunked.Number.*
use spy_socket.Prelude.{
  ℕ, zero, suc, ◌+◌, ◌-◌, ◌*◌, ◌^◌, ◌%◌, Bool, true, false, not, ◌&&◌, ◌||◌, List, [], ◌∷◌, ◌++◌,
  Option, none, some, ltb, leb, ◌==◌, if◌then◌else◌, is_empty, length, take, drop,
}
use spy_socket.Prelude.Text.{Bytes, codes, find, contains, is_blank, is_digit, decimal}

pub record Chunker : Type 0 where
  pub current_chunk_size : ℕ
  pub reading_size : Bool
  pub chunked_complete : Bool
  pub headers : Bytes
  pub chunk_buffer : Bytes

-- The static variables at the start, and after `reset_refactor_data_state`.
abbrev pub fresh : Chunker
fresh = record {
  current_chunk_size = 0;
  reading_size = true;
  chunked_complete = false;
  headers = [];
  chunk_buffer = [];
}

-- A call returns a Boolean, and leaves the caller's `buffer` and the static variables.
pub record Turn : Type 0 where
  pub returned : Bool
  pub out : Bytes
  pub chunker : Chunker

abbrev pub turn : Bool → Bytes → Chunker → Turn
turn b out c = record { returned = b; out = out; chunker = c }

unfoldable pub reset_refactor_data_state : Chunker → Chunker
reset_refactor_data_state c = fresh

-- `refactor_data(dummy, NULL, (size_t)-1)`
unfoldable pub is_chunked_transfer_complete : Chunker → Bool
is_chunked_transfer_complete c = c.chunked_complete

abbrev pub line_end : Bytes
line_end = b'\r' ∷ b'\n' ∷ []

-- The branch on a chunk of size 0: whatever stands behind the next line end joins the body.
unfoldable pub last_chunk : Bytes → Chunker → Turn
last_chunk out c =
    let left : Bytes = elim (find line_end c.chunk_buffer) [
      | none ↦ c.chunk_buffer
      | some i ↦ drop (i + 2) c.chunk_buffer
    ] in
    turn true (out ++ left) (record fresh { chunked_complete = true })

-- The lower half of the loop's body, from the test on the bytes at hand; `none` is `return false`.
-- `current_chunk_size + 2` wraps around.
unfoldable pub take_chunk : Bytes → Chunker → Option (Bytes × Chunker)
take_chunk out c =
    let wanted = (c.current_chunk_size + 2) % size_mod in
    if ltb (length c.chunk_buffer) wanted
    then none
    else some (
      out ++ take c.current_chunk_size c.chunk_buffer,
      record c { chunk_buffer = drop wanted c.chunk_buffer; reading_size = true },
    )

-- The upper half, while a size is expected: the state behind the line with the size.
unfoldable pub read_size : Overflow → ℕ → Chunker → Chunker
read_size over eol c = record c {
  current_chunk_size = size_of over (take eol c.chunk_buffer);
  chunk_buffer = drop (eol + 2) c.chunk_buffer;
}

-- What one round of `while (true)` does: it returns, or it goes on.
pub data Round : Type 0 where
  returns : Turn → Round
  again : Bytes → Chunker → Round

unfoldable pub chunk_round : Bytes → Chunker → Round
chunk_round out c = elim (take_chunk out c) [
  | none ↦ returns (turn false out c)
  | some (out', c') ↦ again out' c'
]

unfoldable pub decode_round : Overflow → Bytes → Chunker → Round
decode_round over out c =
    if c.reading_size
    then elim (find line_end c.chunk_buffer) [
      | none ↦ returns (turn false out c)
      | some eol ↦
          let sized = read_size over eol c in
          if sized.current_chunk_size == 0
          then returns (last_chunk out sized)
          else chunk_round out (record sized { reading_size = false })
    ]
    else chunk_round out c

-- What a round makes of the loop: it ends, or it goes on with `k`.
abbrev pub go_on : Round → (Bytes → Chunker → Option Turn) → Option Turn
go_on (returns t) k = some t
go_on (again out c) k = k out c

-- The loop on fuel; `none` means that the fuel ran out.
unfoldable pub decode_loop : Overflow → ℕ → Bytes → Chunker → Option Turn
decode_loop over zero out c = none
decode_loop over (suc fuel) out c =
    go_on (decode_round over out c) (λ out' c'. decode_loop over fuel out' c')

-- A round that goes on has taken a size line off the buffer, but for the first one.
abbrev pub enough : Chunker → ℕ
enough c = length c.chunk_buffer + 2

-- atoi, as it is converted to size_t
unfoldable pub digits_of : Bytes → Bytes
digits_of [] = []
digits_of (c ∷ s) = let rest = digits_of s in if is_digit c then c ∷ rest else []

abbrev int_or : Overflow → Bytes → ℕ → ℕ
int_or over s n = if ltb 2147483647 n then over s % size_mod else n

unfoldable pub atoi : Overflow → Bytes → ℕ
unfolding digits_of
atoi over [] = 0
atoi over (c ∷ s) =
    let rest = atoi over s in
    if (leb 9 c && leb c 13) || c == b' '
    then rest
    else if c == b'-'
    then (size_mod - int_or over s (decimal (digits_of s))) % size_mod
    else if c == b'+'
    then int_or over s (decimal (digits_of s))
    else int_or over (c ∷ s) (decimal (digits_of (c ∷ s)))

-- The branch for a header block that does not announce chunks: everything is body. The static
-- variables are cleared only if a Content-Length is found to be reached. `none` is the exception of
-- `substr`, where the block ends within the two bytes behind the name.
unfoldable pub pass_through : Overflow → Bytes → Chunker → Option Turn
pass_through over out c =
    let body = out ++ c.chunk_buffer in
    let kept = turn true body (record c { chunk_buffer = [] }) in
    if contains (codes "Content-Length:") c.headers
    then elim (find (codes "Content-Length") c.headers) [
      | none ↦ some kept
      | some i ↦
          if ltb (length c.headers) (i + 16)
          then none
          else if ltb (length body)
              ((atoi over (drop (i + 16) c.headers) + length c.headers) % size_mod)
          then some kept
          else some (
              turn true body (record c {
                headers = [];
                chunk_buffer = [];
                current_chunk_size = 0;
                reading_size = true;
              }))
    ]
    else some kept

unfoldable pub is_chunked : Bytes → Bool
is_chunked headers =
    contains (codes "Transfer-Encoding") headers && contains (codes "chunked") headers

-- From the test on `headers` on; the header block ends at its empty line.
unfoldable pub decode_body : Overflow → Bytes → Chunker → Option Turn
decode_body over out c =
    if is_chunked c.headers then decode_loop over (enough c) out c else pass_through over out c

abbrev pub blank_line : Bytes
blank_line = line_end ++ line_end

unfoldable pub take_headers : Overflow → Bytes → Chunker → Option Turn
take_headers over out c =
    if is_empty c.headers
    then elim (find blank_line c.chunk_buffer) [
      | none ↦ some (turn false out c)
      | some i ↦ decode_body over out (record c {
        headers = take (i + 4) c.chunk_buffer;
        chunk_buffer = drop (i + 4) c.chunk_buffer;
      })
    ]
    else decode_body over out c

-- A capital letter in front of a new message starts the decoder again.
unfoldable pub starts_message : Bytes → Chunker → Bool
starts_message [] c = false
starts_message (x ∷ s) c =
    (leb b'A' x && leb x b'Z') && (is_empty c.headers && is_empty c.chunk_buffer)

-- The static variables behind `chunk_buffer.append(data, len)`.
unfoldable pub receive : Bytes → Chunker → Chunker
receive bytes c =
    if starts_message bytes c
    then record c {
      current_chunk_size = 0;
      reading_size = true;
      chunk_buffer = c.chunk_buffer ++ bytes;
    }
    else record c { chunk_buffer = c.chunk_buffer ++ bytes }

-- refactor_data(out, bytes, bytes.size()), with `none` if the model's fuel ran out or `substr` throws.
unfoldable pub refactor_data : Overflow → Bytes → Bytes → Chunker → Option Turn
refactor_data over out bytes c = take_headers over out (receive bytes c)
