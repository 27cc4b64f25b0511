-- ===== src/Get/File/Numbers.antt =====
-- The numbers of a Range header, as `pathIsFile` of src/Methods/Get.cpp reads them.
use spy_socket.Chunked.{size_mod}
use spy_socket.Chunked.Atoi.{digits_of-all}
use spy_socket.Get.File.{strtoul, range_spec, range_header, range_of}
use spy_socket.Prelude.{
  ℕ, zero, suc, ◌+◌, ◌-◌, ◌*◌, ◌/◌, ◌%◌, ◌<◌, true, [], ◌∷◌, ◌++◌, some, ◌≡◌, refl, ap, ◌∙◌, arith,
  inl, inr, Bool-cases, ltb, leb, ◌&&◌, ltb→ge, length, drop, all, is_empty, take-length-append,
}
use spy_socket.Prelude.Text.{Bytes, codes, is_digit, decimal, find, is_prefix}
use spy_socket.Prelude.Text.Map.{Map, lookup}
use spy_socket.Time.{print_loop, print_nat}
use mathlib.Core.List.{foldl}
use native.Mathlib.Numerals.{add-one}

abbrev digit_step : ℕ → ℕ → ℕ
digit_step n c = n * 10 + (c - b'0')

-- Reading the digits that a stream has printed.
print_loop-decimal :
    (fuel n : ℕ) (out : Bytes)
    → n < fuel
    → foldl digit_step 0 (print_loop fuel n out) ≡ foldl digit_step n out
unfolding print_loop
print_loop-decimal zero n out h = absurd (omega arith)
print_loop-decimal (suc fuel) n out h = elim (Bool-cases (ltb n 10)) [
  | inl e ↦
      let s : digit_step 0 (b'0' + n) ≡ n = omega arith in
      rw (print_loop, e) (ap (λ k. foldl digit_step k out) s)
  | inr e ↦
      let s : digit_step (n / 10) (b'0' + n % 10) ≡ n = omega arith in
      rw (print_loop, e)
        (print_loop-decimal fuel (n / 10) ((b'0' + n % 10) ∷ out) (omega (arith, ltb→ge n 10 e))
          ∙ ap (λ k. foldl digit_step k out) s)
]

print_loop-digits :
    (fuel n : ℕ) (out : Bytes)
    → n < fuel
    → all is_digit out ≡ true
    → (c : ℕ) × (s : Bytes) × (print_loop fuel n out ≡ c ∷ s) × (all is_digit (c ∷ s) ≡ true)
unfolding print_loop is_digit
print_loop-digits zero n out h d = absurd (omega arith)
print_loop-digits (suc fuel) n out h d = elim (Bool-cases (ltb n 10)) [
  | inl e ↦ rw (print_loop, e) (b'0' + n, out, refl, ground arith)
  | inr e ↦
      rw (print_loop, e)
        (print_loop-digits fuel (n / 10) ((b'0' + n % 10) ∷ out) (omega (arith, ltb→ge n 10 e))
          (ground arith))
]

strtoul-digits :
    (c : ℕ) (s : Bytes)
    → all is_digit (c ∷ s) ≡ true
    → decimal (c ∷ s) < size_mod
    → strtoul (c ∷ s) ≡ decimal (c ∷ s)
unfolding strtoul is_digit
strtoul-digits c s h l = ground (arith, digits_of-all (c ∷ s) h)

strtoul_of :
    (t : Bytes) (c : ℕ) (s : Bytes) (n : ℕ)
    → t ≡ c ∷ s
    → all is_digit (c ∷ s) ≡ true
    → decimal t ≡ n
    → n < size_mod
    → strtoul t ≡ n
strtoul_of t c s n e d v h = ground (arith, strtoul-digits c s d, ap strtoul e, ap decimal e)

pub print_nat-digits :
    (n : ℕ) → (c : ℕ) × (s : Bytes) × (print_nat n ≡ c ∷ s) × (all is_digit (c ∷ s) ≡ true)
unfolding print_nat
print_nat-digits n = print_loop-digits (suc n) n [] (omega arith) refl

pub strtoul-print_nat : (n : ℕ) → n < size_mod → strtoul (print_nat n) ≡ n
unfolding print_nat decimal
strtoul-print_nat n h =
    let (c, s, e, d) = print_nat-digits n in
    strtoul_of (print_nat n) c s n e d (print_loop-decimal (suc n) n [] (omega arith)) h

find-dash :
    (s rest : Bytes)
    → all is_digit s ≡ true
    → find (codes "-") (s ++ (b'-' ∷ rest)) ≡ some (length s)
unfolding find is_prefix is_digit
find-dash [] rest h = refl
find-dash (c ∷ s) rest h = ground (arith, find-dash s rest)

-- The value of a Range header for the bytes from one position to another.
abbrev pub range_value : ℕ → ℕ → Bytes
range_value a b = codes "bytes=" ++ (print_nat a ++ (codes "-" ++ print_nat b))

range_spec-numbers :
    (size a b : ℕ)
    → size < size_mod
    → a < size_mod
    → b < size_mod
    → range_spec size (print_nat a) (print_nat b)
      ≡ record { first = a; last_byte = b; is_partial = ltb a size && ltb b size && leb a b }
unfolding range_spec
range_spec-numbers size a b h ha hb =
    let (c, s, e, _) = print_nat-digits a in
    let (d, t, f, _) = print_nat-digits b in
    rw (range_spec, strtoul-print_nat a ha, strtoul-print_nat b hb, ap is_empty e, ap is_empty f)
      refl

drop-dash : (s rest : Bytes) → drop (length s + 1) (s ++ (b'-' ∷ rest)) ≡ rest
drop-dash s rest = rw (add-one (length s)) (go s)
  where
    go : (s : Bytes) → drop (suc (length s)) (s ++ (b'-' ∷ rest)) ≡ rest
    go [] = refl
    go (c ∷ s) = go s

range_header-numbers :
    (size a b : ℕ)
    → range_header size (range_value a b) ≡ range_spec size (print_nat a) (print_nat b)
unfolding range_header is_prefix
range_header-numbers size a b =
    let (c, s, e, d) = print_nat-digits a in
    rw
      (
        range_header,
        find-dash (print_nat a) (print_nat b) (rw e d),
        take-length-append (print_nat a) (b'-' ∷ print_nat b),
        drop-dash (print_nat a) (print_nat b),
      )
      refl

pub range_of-numbers :
    (headers : Map) (size a b : ℕ)
    → lookup (codes "range") headers ≡ some (range_value a b)
    → size < size_mod
    → a < size_mod
    → b < size_mod
    → range_of headers size
      ≡ record { first = a; last_byte = b; is_partial = ltb a size && ltb b size && leb a b }
unfolding range_of
range_of-numbers headers size a b l h ha hb =
    rw (range_of, l) (range_header-numbers size a b ∙ range_spec-numbers size a b h ha hb)
