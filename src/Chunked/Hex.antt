-- ===== src/Chunked/Hex.antt =====
-- `hex_to_dec` of src/POST/unchunk.cpp and the usual reading of a hexadecimal numeral; and a size
-- line that it refuses.
use mathlib.Core.List.{reverse, reverse-append, concat-ne-nil}
use native.Mathlib.Nat.{pow-suc}
use spy_socket.Chunked.{
  Overflow, Chunker, again, value, invalid, size_mod, hexa, hex_loop, hex_to_dec, size_of,
  take_chunk, chunk_round, read_size, decode_round,
}
use spy_socket.Chunked.RoundTrip.{find-line_end, drop_line}
use spy_socket.Prelude.{
  ℕ, suc, ◌+◌, ◌-◌, ◌*◌, ◌^◌, ◌≤◌, ◌<◌, true, false, [], ◌∷◌, ◌++◌, none, some, ◌≡◌, ◌≢◌, refl, ◌∙◌,
  ap, arith, length, length-append, drop, All, take-length-append, take-length_le, ge→ltb,
}
use spy_socket.Prelude.Text.{Bytes, is_blank, Lacks}

-- A digit that `hexa` knows, with its value.
abbrev pub digit : ℕ → ℕ
digit c = elim (hexa c) [ none ↦ 0 | some d ↦ d ]

pub record IsHex (c : ℕ) : Type 0 where
  pub not_blank : is_blank c ≡ false
  pub known : (d : ℕ) × (hexa c ≡ some d)

-- The number that a numeral spells, its first digit being the highest.
unfoldable pub hex_value : Bytes → ℕ
hex_value [] = 0
hex_value (c ∷ s) = digit c * 16 ^ length s + hex_value s

-- The same with the lowest digit first.
rev_value : Bytes → ℕ
rev_value [] = 0
rev_value (c ∷ s) = digit c + 16 * rev_value s

rev_value-concat :
    (s : Bytes) (c : ℕ) → rev_value (s ++ c ∷ []) ≡ rev_value s + 16 ^ length s * digit c
unfolding rev_value
rev_value-concat [] c = omega arith
rev_value-concat (x ∷ s) c =
    omega (arith, rev_value-concat s c, ap (λ (t : ℕ). t * digit c) (pow-suc 16 (length s)))

reverse-cons : (c : ℕ) (s : Bytes) → reverse (c ∷ s) ≡ reverse s ++ c ∷ []
reverse-cons c s = reverse-append (c ∷ []) s

length-reverse : (s : Bytes) → length (reverse s) ≡ length s
length-reverse [] = refl
length-reverse (c ∷ s) =
    rw (reverse-cons c s) (omega (arith, length-append (reverse s) (c ∷ []), length-reverse s))

rev_value-reverse : (s : Bytes) → rev_value (reverse s) ≡ hex_value s
unfolding hex_value
rev_value-reverse [] = unfold rev_value in refl
rev_value-reverse (c ∷ s) =
    rw (reverse-cons c s)
      (rev_value-concat (reverse s) c ∙ rw (length-reverse s) (omega (arith, rev_value-reverse s)))

All-reverse : (s : Bytes) → All IsHex s → All IsHex (reverse s)
All-reverse [] h = tt
All-reverse (c ∷ s) h = rw (reverse-cons c s) (concat (reverse s) (All-reverse s h.1))
  where
    concat : (t : Bytes) → All IsHex t → All IsHex (t ++ c ∷ [])
    concat [] k = (h.0, tt)
    concat (x ∷ t) k = (k.0, concat t k.1)

-- The loop adds what the digits spell at their places.
hex_loop_lem :
    (s : Bytes) (j res : ℕ)
    → All IsHex s
    → j + length s ≤ 256
    → res + 16 ^ j * rev_value s ≤ 2147483647
    → hex_loop s j res ≡ value (res + 16 ^ j * rev_value s)
unfolding hex_loop rev_value
hex_loop_lem [] j res h short fits = ap value (omega arith)
hex_loop_lem (c ∷ s) j res h short fits =
    let (d, e) = h.0.known in
    let p = ap (λ (t : ℕ). t * rev_value s) (pow-suc 16 j) in
    ground (arith, h.0.not_blank, e, p, hex_loop_lem s (suc j) (res + d * 16 ^ j) h.1)

hex_to_dec-loop : (s : Bytes) → s ≢ [] → hex_to_dec s ≡ hex_loop (reverse s) 0 0
unfolding hex_to_dec
hex_to_dec-loop [] h = absurd (h refl)
hex_to_dec-loop (c ∷ s) h = refl

-- A numeral of lower-case hexadecimal digits is read as the number that it spells, if that is an
-- `int` and the numeral has at most 256 digits.
pub hex_to_dec-hex_value :
    (s : Bytes)
    → s ≢ []
    → All IsHex s
    → length s ≤ 256
    → hex_value s ≤ 2147483647
    → hex_to_dec s ≡ value (hex_value s)
hex_to_dec-hex_value s ne h short fits =
    hex_to_dec-loop s ne
    ∙ hex_loop_lem (reverse s) 0 0 (All-reverse s h) (omega (arith, length-reverse s))
        (omega (arith, rev_value-reverse s))
    ∙ ap value (omega (arith, rev_value-reverse s))

-- A line whose last character is neither a blank nor a digit that `hexa` knows is refused with -1.
hex_to_dec-invalid :
    (s : Bytes) (c : ℕ) → is_blank c ≡ false → hexa c ≡ none → hex_to_dec (s ++ c ∷ []) ≡ invalid
hex_to_dec-invalid s c b e =
    hex_to_dec-loop (s ++ c ∷ []) (concat-ne-nil c s)
    ∙ ap (λ t. hex_loop t 0 0) (reverse-append s (c ∷ []))
    ∙ hex_loop_bad (reverse s)
  where
    hex_loop_bad : (t : Bytes) → hex_loop (c ∷ t) 0 0 ≡ invalid
    hex_loop_bad t = unfold hex_loop in ground arith

-- With -1 for a size all that is at hand counts as the chunk.
chunk_round_all :
    (out r : Bytes) (c : Chunker)
    → 1 ≤ length r
    → length r < size_mod
    → chunk_round out (record c { current_chunk_size = size_mod - 1; chunk_buffer = r })
      ≡ again (out ++ r) (record c {
        current_chunk_size = size_mod - 1;
        reading_size = true;
        chunk_buffer = drop 1 r;
      })
unfolding chunk_round take_chunk
chunk_round_all out r c one fits = rw (
  chunk_round,
  take_chunk,
  ge→ltb (length r) 1 one,
  take-length_le (size_mod - 1) r (omega arith),
)

read_size-invalid :
    (over : Overflow) (s r : Bytes) (c : Chunker)
    → hex_to_dec s ≡ invalid
    → read_size over
        (length s)
        (record c { reading_size = true; chunk_buffer = s ++ (b'\r' ∷ b'\n' ∷ r) })
      ≡ record c { current_chunk_size = size_mod - 1; reading_size = true; chunk_buffer = r }
unfolding read_size size_of
read_size-invalid over s r c e =
    rw (take-length-append s (b'\r' ∷ b'\n' ∷ r), drop_line s r, size_of, e)

-- What the decoder makes of a size line that is refused: -1 becomes the largest size_t, and adding 2
-- to that wraps around to 1. So the whole rest of the buffer joins the body, framing included, one
-- byte is taken off the buffer, and the decoder goes on as if a chunk had been read.
pub decode_round-invalid :
    (over : Overflow) (out : Bytes) (c : Chunker) (s r : Bytes)
    → Lacks b'\r' s
    → hex_to_dec s ≡ invalid
    → 1 ≤ length r
    → length r < size_mod
    → decode_round over out
        (record c { reading_size = true; chunk_buffer = s ++ (b'\r' ∷ b'\n' ∷ r) })
      ≡ again (out ++ r) (record c {
        current_chunk_size = size_mod - 1;
        reading_size = true;
        chunk_buffer = drop 1 r;
      })
unfolding decode_round
decode_round-invalid over out c s r no_cr bad one fits =
    rw (decode_round, find-line_end s r no_cr, read_size-invalid over s r c bad)
      (chunk_round_all out r (record c { reading_size = false }) one fits)
