-- ===== src/Chunked/Number.antt =====
-- src/POST/unchunk.cpp: `hex_to_dec`, and the conversion of its result to size_t.
use spy_socket.Prelude.{
  ℕ, suc, ◌+◌, ◌-◌, ◌*◌, ◌^◌, ◌%◌, true, false, ◌&&◌, ◌||◌, [], ◌∷◌, Option, none, some, ltb, leb,
  if◌then◌else◌,
}
use mathlib.Core.List.{reverse}
use spy_socket.Prelude.Text.{Bytes, is_blank}

-- What the compiled program does where C++ leaves it open: the value of an `int` that is computed
-- from a number too large for it, as a size_t, for the text that it is read from.
abbrev pub Overflow : Type 0
Overflow = Bytes → ℕ

abbrev pub size_mod : ℕ
size_mod = 2 ^ 64

-- hexa.find(c) in "0123456789abcdef"
unfoldable pub hexa : ℕ → Option ℕ
hexa c =
    if leb b'0' c && leb c b'9'
    then some (c - b'0')
    else if leb b'a' c && leb c b'f'
    then some (c - 87)
    else none

pub data HexResult : Type 0 where
  value : ℕ → HexResult
  invalid overflow : HexResult

-- The loop of `hex_to_dec`, which reads from the last character to the first. The sum is formed in
-- `double`, exactly, and converted to `int`; from 16 ^ 256 on `pow` is infinite.
unfoldable pub hex_loop : Bytes → ℕ → ℕ → HexResult
hex_loop [] j res = value res
hex_loop (c ∷ s) j res = elim (is_blank c) [
  | true ↦ hex_loop s j res
  | false ↦ elim (hexa c) [
    | none ↦ invalid
    | some d ↦
        let rest = hex_loop s (suc j) (res + d * 16 ^ j) in
        if leb 256 j || ltb 2147483647 (res + d * 16 ^ j) then overflow else rest
  ]
]

unfoldable pub hex_to_dec : Bytes → HexResult
hex_to_dec [] = invalid
hex_to_dec (c ∷ s) = hex_loop (reverse (c ∷ s)) 0 0

-- The conversion to size_t; -1 becomes the largest one.
unfoldable pub size_of : Overflow → Bytes → ℕ
size_of over s = elim (hex_to_dec s) [
  | value n ↦ n
  | invalid ↦ size_mod - 1
  | overflow ↦ over s % size_mod
]
