-- ===== src/Config/Values/Size.antt =====
-- `_parseBodySize` of src/singleserver.cpp on a number and its unit.
use spy_socket.Chunked.{Overflow}
use spy_socket.Config.Values.{
  number_part, to_upper, suffix_part, unit_of, atoll, checked_size, scaled_size, sized,
  parse_body_size,
}
use native.Mathlib.Nat.{mul-le-mul}
use spy_socket.Prelude.{
  ℕ, ◌-◌, ◌*◌, ◌^◌, ◌%◌, ◌≤◌, ◌<◌, true, false, [], ◌∷◌, ◌++◌, some, ◌≡◌, refl, arith, ltb, leb,
  if◌then◌else◌, is_empty, all, get_or, map,
}
use spy_socket.Prelude.Except.{ok, throw}
use spy_socket.Prelude.Text.{Bytes, codes, str_eq, is_digit, decimal}

number_part-append :
    (digits suffix : Bytes)
    → all is_digit digits ≡ true
    → is_digit (get_or suffix 0 0) ≡ false
    → number_part (digits ++ suffix) ≡ digits
unfolding number_part
number_part-append [] [] h k = refl
number_part-append [] (c ∷ s) h k = rw k
number_part-append (d ∷ ds) s h k = ground (arith, number_part-append ds s)

suffix_part-append :
    (digits suffix : Bytes)
    → all is_digit digits ≡ true
    → is_digit (get_or suffix 0 0) ≡ false
    → suffix_part (digits ++ suffix) ≡ map to_upper suffix
unfolding suffix_part
suffix_part-append [] [] h k = refl
suffix_part-append [] (c ∷ s) h k = rw k
suffix_part-append (d ∷ ds) s h k = ground (arith, suffix_part-append ds s)

-- The units, in capital letters: 1024 to the power of 0, 1, 2 or 3 bytes.
pub data IsUnit (suffix : Bytes) : ℕ → Type 0 where
  bytes : suffix ≡ [] → IsUnit suffix 1
  kilo : suffix ≡ codes "KB" → IsUnit suffix 1024
  mega : suffix ≡ codes "MB" → IsUnit suffix 1048576
  giga : suffix ≡ codes "GB" → IsUnit suffix 1073741824

IsUnit-unit_of : (suffix : Bytes) (unit : ℕ) → IsUnit suffix unit → unit_of suffix ≡ some unit
unfolding unit_of str_eq
IsUnit-unit_of suffix _ (bytes e) = rw e refl
IsUnit-unit_of suffix _ (kilo e) = rw e refl
IsUnit-unit_of suffix _ (mega e) = rw e refl
IsUnit-unit_of suffix _ (giga e) = rw e refl

unit_of-le : (suffix : Bytes) (unit : ℕ) → unit_of suffix ≡ some unit → unit ≤ 1024 * 1024 * 1024
unfolding unit_of
unit_of-le suffix unit h = ground arith

fits : (n unit : ℕ) → n < 2 ^ 34 → unit ≤ 1024 * 1024 * 1024 → n * unit % 2 ^ 64 ≡ n * unit
fits n unit h k = let small : n ≤ 17179869183 = omega arith in omega (arith, mul-le-mul small k)

scaled_size-exact :
    (n unit : ℕ)
    → n < 2 ^ 34
    → unit ≤ 1024 * 1024 * 1024
    → scaled_size unit n ≡ checked_size (n * unit)
unfolding scaled_size
scaled_size-exact n unit h k =
    let positive : leb (2 ^ 63) n ≡ false = ground arith in rw (positive, fits n unit h k)

-- A client_max_body_size of digits, for a number below 2 ^ 34, and a unit, in capital or small
-- letters, is that number of bytes without a unit, times 1024 for KB, 1024 ^ 2 for MB and 1024 ^
-- 3 for GB; it is refused where the product is above 2 ^ 31.
pub parse_body_size-units :
    (over : Overflow) (digits suffix : Bytes) (unit : ℕ)
    → is_empty digits ≡ false
    → all is_digit digits ≡ true
    → is_digit (get_or suffix 0 0) ≡ false
    → IsUnit (map to_upper suffix) unit
    → decimal digits < 2 ^ 34
    → parse_body_size over (digits ++ suffix) ≡ (
        if ltb 2147483648 (decimal digits * unit)
        then throw (codes "client_max_body_size too large (max 2GB)")
        else ok (decimal digits * unit))
unfolding parse_body_size sized atoll checked_size
parse_body_size-units over [] suffix unit e d k u h = cc
parse_body_size-units over (c ∷ ds) suffix unit e d k u h =
    let known = IsUnit-unit_of (map to_upper suffix) unit u in
    let small : ltb (2 ^ 63 - 1) (decimal (c ∷ ds)) ≡ false = ground arith in
    rw (number_part-append (c ∷ ds) suffix d k, suffix_part-append (c ∷ ds) suffix d k, known)
      (rw (atoll, small)
        (scaled_size-exact (decimal (c ∷ ds)) unit h (unit_of-le (map to_upper suffix) unit known)))
