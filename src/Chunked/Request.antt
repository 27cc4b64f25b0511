-- ===== src/Chunked/Request.antt =====
-- `refactor_data` of src/POST/unchunk.cpp on a request as a client writes it: the header that
-- announces chunks, and sizes spelled in lower-case hexadecimal digits.
use spy_socket.Chunked.{
  Overflow, turn, value, blank_line, hexa, hex_to_dec, is_chunked, fresh, refactor_data,
}
use spy_socket.Chunked.Hex.{IsHex, digit, hex_value, hex_to_dec-hex_value}
use spy_socket.Chunked.RoundTrip.{
  Chunk, IsChunk, IsHead, encode, contents, refactor_data-encode_read,
}
use spy_socket.Prelude.{
  ℕ, ◌+◌, ◌*◌, ◌^◌, ◌≤◌, ◌<◌, true, List, [], ◌∷◌, ◌++◌, some, ◌≡◌, ◌≢◌, refl, ◌∙◌, ap, sym, subst,
  arith, ltb, if◌then◌else◌, length, All, Option, none,
}
use spy_socket.Prelude.Text.{Bytes, codes, find, contains, is_prefix, Lacks}
use spy_socket.Prelude.Text.Find.{find-append}

-- The lower-case digit of a value below 16.
abbrev pub spell : ℕ → ℕ
spell d = if ltb d 10 then 48 + d else 87 + d

abbrev pub spelled : List ℕ → Bytes
spelled [] = []
spelled (d ∷ ds) = spell d ∷ spelled ds

-- The number of a list of digits, the highest first.
abbrev pub number : List ℕ → ℕ
number [] = 0
number (d ∷ ds) = d * 16 ^ length ds + number ds

-- At most 256 digits, which the `int` holds.
pub record IsNumeral (s : Bytes) (n : ℕ) : Type 0 where
  pub digits : List ℕ
  pub below : All (λ d. d < 16) digits
  pub some_digit : digits ≢ []
  pub short : length digits ≤ 256
  pub spelling : s ≡ spelled digits
  pub number_is : number digits ≡ n
  pub fits : n ≤ 2147483647

-- A chunk with the length of its content for a size; it is not empty.
pub record IsSized (k : Chunk) : Type 0 where
  pub size_is : IsNumeral k.size_line (length k.content)
  pub not_empty : 0 < length k.content

-- A header block up to and with its first blank line, with the header that announces chunks.
pub record IsAnnounced (h : Bytes) : Type 0 where
  pub front : Bytes
  pub before : Bytes
  pub behind : Bytes
  pub ends : h ≡ front ++ blank_line
  pub first : find blank_line h ≡ some (length front)
  pub announced : h ≡ before ++ (codes "Transfer-Encoding: chunked" ++ behind)

hexa-spell : (d : ℕ) → d < 16 → hexa (spell d) ≡ some d
unfolding hexa
hexa-spell d h = ground arith

spell-IsHex : (d : ℕ) → d < 16 → IsHex (spell d)
spell-IsHex d h = record { not_blank = ground arith; known = (d, hexa-spell d h) }

spelled-IsHex : (ds : List ℕ) → All (λ d. d < 16) ds → All IsHex (spelled ds)
spelled-IsHex [] h = tt
spelled-IsHex (d ∷ ds) h = (spell-IsHex d h.0, spelled-IsHex ds h.1)

length-spelled : (ds : List ℕ) → length (spelled ds) ≡ length ds
length-spelled [] = refl
length-spelled (d ∷ ds) = omega (arith, length-spelled ds)

digit-spell : (d : ℕ) → d < 16 → digit (spell d) ≡ d
digit-spell d h = ap (λ (o : Option ℕ). elim o [ none ↦ 0 | some v ↦ v ]) (hexa-spell d h)

hex_value-spelled : (ds : List ℕ) → All (λ d. d < 16) ds → hex_value (spelled ds) ≡ number ds
unfolding hex_value
hex_value-spelled [] h = refl
hex_value-spelled (d ∷ ds) h =
    ap (λ (x : ℕ). x * 16 ^ length (spelled ds) + hex_value (spelled ds)) (digit-spell d h.0)
    ∙ ap (λ (n : ℕ). d * 16 ^ n + hex_value (spelled ds)) (length-spelled ds)
    ∙ ap (λ (v : ℕ). d * 16 ^ length ds + v) (hex_value-spelled ds h.1)

spell-Lacks : (ds : List ℕ) → All (λ d. d < 16) ds → Lacks b'\r' (spelled ds)
spell-Lacks [] h = tt
spell-Lacks (d ∷ ds) h = (ground arith, spell-Lacks ds h.1)

spelled_some : (ds : List ℕ) → ds ≢ [] → spelled ds ≢ []
spelled_some [] h = absurd (h refl)
spelled_some (d ∷ ds) h = λ e. cc

IsNumeral-Lacks : (s : Bytes) (n : ℕ) → IsNumeral s n → Lacks b'\r' s
IsNumeral-Lacks s n h = subst (Lacks b'\r') (sym h.spelling) (spell-Lacks h.digits h.below)

hex_to_dec-IsNumeral : (s : Bytes) (n : ℕ) → IsNumeral s n → hex_to_dec s ≡ value n
hex_to_dec-IsNumeral s n h =
    let v = hex_value-spelled h.digits h.below ∙ h.number_is in
    ap hex_to_dec h.spelling
    ∙ hex_to_dec-hex_value (spelled h.digits) (spelled_some h.digits h.some_digit)
        (spelled-IsHex h.digits h.below) (omega (arith, length-spelled h.digits, h.short))
        (omega (arith, v, h.fits))
    ∙ ap value v

IsSized-IsChunk : (ks : List Chunk) → All IsSized ks → All IsChunk ks
IsSized-IsChunk [] h = tt
IsSized-IsChunk (k ∷ ks) h = (
  record {
    no_cr = IsNumeral-Lacks k.size_line (length k.content) h.0.size_is;
    size_is = hex_to_dec-IsNumeral k.size_line (length k.content) h.0.size_is;
    not_empty = h.0.not_empty;
    fits = h.0.size_is.fits;
  },
  IsSized-IsChunk ks h.1,
)

contains-behind : (pat a t : Bytes) → contains pat t ≡ true → contains pat (a ++ t) ≡ true
unfolding contains find
contains-behind pat [] t h = h
contains-behind pat (c ∷ a) t h = ground (arith, contains-behind pat a t h)

contains-append : (pat s t : Bytes) (i : ℕ) → find pat s ≡ some i → contains pat (s ++ t) ≡ true
unfolding contains
contains-append pat s t i h = rw (find-append pat s t i h) refl

is_chunked_announced :
    (before behind : Bytes)
    → is_chunked (before ++ (codes "Transfer-Encoding: chunked" ++ behind)) ≡ true
unfolding is_chunked find is_prefix
is_chunked_announced before behind =
    let header = codes "Transfer-Encoding: chunked" in
    let name = codes "Transfer-Encoding" in
    let coding = codes "chunked" in
    rw
      (
        contains-behind name before (header ++ behind) (contains-append name header behind 0 refl),
        contains-behind coding before (header ++ behind)
            (contains-append coding header behind 19 refl),
      )
      refl

IsAnnounced-IsHead : (h : Bytes) → IsAnnounced h → IsHead h
IsAnnounced-IsHead h a = record {
  front = a.front;
  ends = a.ends;
  first = a.first;
  chunked = ap is_chunked a.announced ∙ is_chunked_announced a.before a.behind;
}

-- What the decoder does on a whole chunked request that reaches it in one piece, with its static
-- variables fresh: it reports the end of the body, appends the contents of the chunks in order,
-- and leaves the static variables fresh but for the note that a transfer is complete. The
-- conditions: the header block ends at its first blank line and holds the text
-- "Transfer-Encoding: chunked" spelled just so; each size line is the length of its chunk in
-- hexadecimal digits, the letters in lower case, at most 256 of them and nothing else on the
-- line; each chunk has between 1 and 2147483647 bytes; the last size line spells 0 in the same
-- way, and a blank line follows it.
pub refactor_data-encode :
    (over : Overflow) (out h : Bytes) (ks : List Chunk) (last : Bytes)
    → IsAnnounced h
    → All IsSized ks
    → IsNumeral last 0
    → refactor_data over out (h ++ encode ks last) fresh
      ≡ some (turn true (out ++ contents ks) (record fresh { chunked_complete = true }))
refactor_data-encode over out h ks last head chunks zero_last =
    refactor_data-encode_read over out h ks last (IsAnnounced-IsHead h head)
      (IsSized-IsChunk ks chunks)
      (record {
        no_cr = IsNumeral-Lacks last 0 zero_last;
        size_is = hex_to_dec-IsNumeral last 0 zero_last;
      })
