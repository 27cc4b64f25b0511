-- ===== src/Chunked/RoundTrip.antt =====
-- `refactor_data` of src/POST/unchunk.cpp on a body that a client cuts into chunks.
use native.Mathlib.Numerals.{towards_suc}
use spy_socket.Chunked.{
  Overflow, Chunker, turn, returns, again, value, line_end, blank_line, size_of, hex_to_dec, fresh,
  take_chunk, chunk_round, read_size, last_chunk, decode_round, decode_loop, is_chunked,
  decode_body, take_headers, receive, refactor_data,
}
use spy_socket.Prelude.{
  ℕ, zero, suc, ◌+◌, ◌≤◌, ◌<◌, true, false, List, [], ◌∷◌, ◌++◌, some, ◌≡◌, refl, ◌∙◌, ap, arith,
  length, drop, All, append-nil, append_assoc, length-append, take-length-append,
  drop-length-append,
}
use spy_socket.Prelude.Text.{Bytes, is_prefix, find, Lacks}
use spy_socket.Prelude.Text.Find.{find-append}

pub record Chunk : Type 0 where
  pub size_line : Bytes
  pub content : Bytes

-- The line is read as the length of the content, and the content is not empty.
pub record IsChunk (k : Chunk) : Type 0 where
  pub no_cr : Lacks b'\r' k.size_line
  pub size_is : hex_to_dec k.size_line ≡ value (length k.content)
  pub not_empty : 0 < length k.content
  pub fits : length k.content ≤ 2147483647

-- The line of the last chunk.
pub record IsLast (s : Bytes) : Type 0 where
  pub no_cr : Lacks b'\r' s
  pub size_is : hex_to_dec s ≡ value 0

abbrev pub encode : List Chunk → Bytes → Bytes
encode [] last = last ++ (b'\r' ∷ b'\n' ∷ b'\r' ∷ b'\n' ∷ [])
encode (k ∷ ks) last =
    k.size_line ++ (b'\r' ∷ b'\n' ∷ (k.content ++ (b'\r' ∷ b'\n' ∷ encode ks last)))

abbrev pub contents : List Chunk → Bytes
contents [] = []
contents (k ∷ ks) = k.content ++ contents ks

pub find-line_end :
    (s r : Bytes) → Lacks b'\r' s → find line_end (s ++ (b'\r' ∷ b'\n' ∷ r)) ≡ some (length s)
unfolding find is_prefix
find-line_end [] r h = refl
find-line_end (c ∷ s) r h = ground (arith, find-line_end s r h.1)

pub drop_line : (s r : Bytes) → drop (length s + 2) (s ++ (b'\r' ∷ b'\n' ∷ r)) ≡ r
drop_line s r = simp towards_suc (go s)
  where
    go : (t : Bytes) → drop (suc (suc (length t))) (t ++ (b'\r' ∷ b'\n' ∷ r)) ≡ r
    go [] = refl
    go (c ∷ t) = go t

-- The decoder between two chunks.
abbrev between : Chunker → Bytes → Chunker
between c s = record c { reading_size = true; chunk_buffer = s }

take_chunk-content :
    (out s r : Bytes) (c : Chunker)
    → length s ≤ 2147483647
    → c.current_chunk_size ≡ length s
    → c.chunk_buffer ≡ s ++ (b'\r' ∷ b'\n' ∷ r)
    → take_chunk out c ≡ some (out ++ s, between c r)
unfolding take_chunk
take_chunk-content out s r c fits n b = ground (
  arith,
  length-append s (b'\r' ∷ b'\n' ∷ r),
  take-length-append s (b'\r' ∷ b'\n' ∷ r),
  drop_line s r,
)

size_of-value : (over : Overflow) (s : Bytes) (n : ℕ) → hex_to_dec s ≡ value n → size_of over s ≡ n
unfolding size_of
size_of-value over s n e = rw (size_of, e)

-- A size line in front of the buffer is taken off.
read_size_line :
    (over : Overflow) (s r : Bytes) (c : Chunker) (n : ℕ)
    → hex_to_dec s ≡ value n
    → read_size over (length s) (between c (s ++ (b'\r' ∷ b'\n' ∷ r)))
      ≡ record c { current_chunk_size = n; reading_size = true; chunk_buffer = r }
unfolding read_size
read_size_line over s r c n e =
    ground (arith, size_of-value over s n, take-length-append s (b'\r' ∷ b'\n' ∷ r), drop_line s r)

-- One chunk is one round.
decode_round-chunk :
    (over : Overflow) (out : Bytes) (c : Chunker) (k : Chunk) (r : Bytes)
    → IsChunk k
    → decode_round over out
        (between c (k.size_line ++ (b'\r' ∷ b'\n' ∷ (k.content ++ (b'\r' ∷ b'\n' ∷ r)))))
      ≡ again (out ++ k.content) (between (record c { current_chunk_size = length k.content }) r)
unfolding decode_round chunk_round
decode_round-chunk over out c k r h =
    let rest = k.content ++ (b'\r' ∷ b'\n' ∷ r) in
    let sized = record c {
      current_chunk_size = length k.content;
      reading_size = false;
      chunk_buffer = rest;
    } in
    ground (
      arith,
      find-line_end k.size_line rest h.no_cr,
      read_size_line over k.size_line rest c (length k.content) h.size_is,
      take_chunk-content out k.content r sized h.fits refl refl,
    )

decode_round_last :
    (over : Overflow) (out : Bytes) (c : Chunker) (s : Bytes)
    → IsLast s
    → decode_round over out (between c (encode [] s))
      ≡ returns (turn true out (record fresh { chunked_complete = true }))
unfolding decode_round last_chunk find is_prefix
decode_round_last over out c s h = ground (
  arith,
  find-line_end s (b'\r' ∷ b'\n' ∷ []) h.no_cr,
  read_size_line over s (b'\r' ∷ b'\n' ∷ []) c 0 h.size_is,
  append-nil out,
)

decode_loop-encode :
    (over : Overflow) (fuel : ℕ) (out : Bytes) (c : Chunker) (ks : List Chunk) (last : Bytes)
    → length ks < fuel
    → All IsChunk ks
    → IsLast last
    → decode_loop over fuel out (between c (encode ks last))
      ≡ some (turn true (out ++ contents ks) (record fresh { chunked_complete = true }))
unfolding decode_loop
decode_loop-encode over zero out c ks last lt h l = absurd (omega arith)
decode_loop-encode over (suc fuel) out c [] last lt h l =
    rw (decode_round_last over out c last l, append-nil)
decode_loop-encode over (suc fuel) out c (k ∷ ks) last lt h l =
    rw (decode_round-chunk over out c k (encode ks last) h.0) (
      decode_loop-encode over fuel (out ++ k.content)
        (record c { current_chunk_size = length k.content }) ks last (omega arith) h.1 l
      ∙ ap (λ s. some (turn true s (record fresh { chunked_complete = true })))
          (append_assoc out k.content (contents ks)))

-- A chunk takes more than one byte of the buffer, so the fuel suffices.
length-encode : (ks : List Chunk) (last : Bytes) → length ks ≤ length (encode ks last)
length-encode [] last = omega arith
length-encode (k ∷ ks) last = omega (
  arith,
  length-append k.size_line (b'\r' ∷ b'\n' ∷ (k.content ++ (b'\r' ∷ b'\n' ∷ encode ks last))),
  length-append k.content (b'\r' ∷ b'\n' ∷ encode ks last),
  length-encode ks last,
)

-- The header block of a request, up to and with its empty line.
pub record IsHead (h : Bytes) : Type 0 where
  pub front : Bytes
  pub ends : h ≡ front ++ blank_line
  pub first : find blank_line h ≡ some (length front)
  pub chunked : is_chunked h ≡ true

receive-fresh : (bytes : Bytes) → receive bytes fresh ≡ record fresh { chunk_buffer = bytes }
unfolding receive
receive-fresh bytes = ground arith

-- The header block is split off at its empty line.
take_headers-IsHead :
    (over : Overflow) (out h e : Bytes)
    → IsHead h
    → take_headers over out (record fresh { chunk_buffer = h ++ e })
      ≡ decode_body over out (record fresh { headers = h; chunk_buffer = e })
unfolding take_headers
take_headers-IsHead over out h e head =
    let n : length head.front + 4 ≡ length h =
      omega (arith, ap length (head.ends), length-append head.front blank_line) in
    rw (
      take_headers,
      find-append blank_line h e (length head.front) head.first,
      n,
      take-length-append,
      drop-length-append,
    )

-- A request whose size lines `hex_to_dec` reads as the lengths is decoded to its contents.
pub refactor_data-encode_read :
    (over : Overflow) (out h : Bytes) (ks : List Chunk) (last : Bytes)
    → IsHead h
    → All IsChunk ks
    → IsLast last
    → refactor_data over out (h ++ encode ks last) fresh
      ≡ some (turn true (out ++ contents ks) (record fresh { chunked_complete = true }))
unfolding refactor_data decode_body
refactor_data-encode_read over out h ks last head chunks l =
    rw (receive-fresh, take_headers-IsHead over out h (encode ks last) head, head.chunked)
      (decode_loop-encode over _ out (record fresh { headers = h }) ks last
        (omega (arith, length-encode ks last)) chunks l)
