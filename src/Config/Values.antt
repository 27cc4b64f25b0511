-- ===== src/Config/Values.antt =====
-- The tests on single values of the configuration file in src/singleserver.cpp.
pub mod Ipv4
pub mod Size
use spy_socket.Chunked.{Overflow, atoi}
use spy_socket.Prelude.{
  ℕ, zero, suc, ◌+◌, ◌*◌, ◌^◌, ◌%◌, min, Bool, true, false, not, ◌&&◌, ◌||◌, List, [], ◌∷◌, ◌++◌,
  Option, none, some, ltb, leb, ◌==◌, if◌then◌else◌, is_empty, length, drop, all, last, get_or, ◌-◌,
  map,
}
use spy_socket.Prelude.Except.{Except, ok, throw}
use spy_socket.Prelude.Text.{
  Bytes, codes, str_eq, is_prefix, contains, get_lines, is_digit, decimal,
}

-- One turn of the loop of `_isValidIPv4`, but for the count.
unfoldable pub is_octet : Bytes → Bool
is_octet octet =
    not (is_empty octet)
    && leb (length octet) 3
    && all is_digit octet
    && not (ltb 1 (length octet) && get_or octet 0 0 == b'0')
    && leb (decimal octet) 255

unfoldable pub octets_loop : ℕ → List Bytes → Bool
octets_loop count [] = count == 4
octets_loop count (octet ∷ octets) =
    let later = octets_loop (suc count) octets in
    if ltb 4 (suc count) then false else if is_octet octet then later else false

unfoldable pub is_valid_ipv4 : Bytes → Bool
is_valid_ipv4 ip = octets_loop 0 (get_lines b'.' ip)

-- std::isalnum in the "C" locale
unfoldable pub is_alnum : ℕ → Bool
is_alnum c = is_digit c || (leb b'A' c && leb c b'Z') || (leb b'a' c && leb c b'z')

unfoldable pub is_label : Bytes → Bool
is_label label =
    not (is_empty label)
    && leb (length label) 63
    && not (get_or label 0 0 == b'-' || last label 0 == b'-')
    && all (λ c. is_alnum c || c == b'-') label

unfoldable pub is_valid_domain : Bytes → Bool
is_valid_domain domain =
    if is_empty domain || ltb 253 (length domain)
    then false
    else if get_or domain 0 0 == b'.'
        || get_or domain 0 0 == b'-'
        || last domain 0 == b'.'
        || last domain 0 == b'-'
    then false
    else all is_label (get_lines b'.' domain)

unfoldable pub is_valid_name : Bytes → Bool
is_valid_name host =
    if all (λ c. is_digit c || c == b'.') host then is_valid_ipv4 host else is_valid_domain host

unfoldable pub is_valid_host : Bytes → Bool
is_valid_host host =
    if is_empty host || ltb 253 (length host)
    then false
    else if get_or host 0 0 == b'*'
    then (if ltb (length host) 2 || not (get_or host 1 0 == b'.')
        then false
        else is_valid_name (drop 2 host))
    else is_valid_name host

unfoldable pub is_valid_location_path : Bytes → Bool
is_valid_location_path path =
    if is_empty path
    then false
    else if not (get_or path 0 0 == b'/')
    then false
    else if contains (0 ∷ []) path
    then false
    else if contains (codes "../") path || contains (codes "/..") path
    then false
    else if contains (codes "//") path
    then false
    else true

unfoldable pub number_part : Bytes → Bytes
number_part [] = []
number_part (c ∷ s) = let rest = number_part s in if is_digit c then c ∷ rest else []

unfoldable pub to_upper : ℕ → ℕ
to_upper c = if leb b'a' c && leb c b'z' then c - 32 else c

unfoldable pub suffix_part : Bytes → Bytes
suffix_part [] = []
suffix_part (c ∷ s) = let rest = suffix_part s in if is_digit c then rest else map to_upper (c ∷ s)

-- The unit that a suffix stands for.
unfoldable pub unit_of : Bytes → Option ℕ
unit_of suffix =
    if is_empty suffix
    then some 1
    else if str_eq suffix (codes "KB")
    then some 1024
    else if str_eq suffix (codes "MB")
    then some (1024 * 1024)
    else if str_eq suffix (codes "GB")
    then some (1024 * 1024 * 1024)
    else none

-- atoll on digits, as a size_t; a negative number is one from 2 ^ 63 on.
unfoldable pub atoll : Overflow → Bytes → ℕ
atoll over digits =
    if ltb (2 ^ 63 - 1) (decimal digits) then over digits % 2 ^ 64 else decimal digits

unfoldable pub checked_size : ℕ → Except ℕ
checked_size result =
    if ltb 2147483648 result
    then throw (codes "client_max_body_size too large (max 2GB)")
    else ok result

-- The product is one of size_t.
unfoldable pub scaled_size : ℕ → ℕ → Except ℕ
scaled_size unit number =
    if leb (2 ^ 63) number
    then throw (codes "Negative value not allowed in client_max_body_size")
    else checked_size (number * unit % 2 ^ 64)

-- The tests on the two parts of the text.
unfoldable pub sized : Overflow → Bytes → Bytes → Option ℕ → Except ℕ
sized over text [] unit = throw (codes "No numeric value in client_max_body_size: " ++ text)
sized over text (d ∷ ds) none =
    throw (codes "Invalid size suffix in client_max_body_size: " ++ text)
sized over text (d ∷ ds) (some unit) = scaled_size unit (atoll over (d ∷ ds))

unfoldable pub parse_body_size : Overflow → Bytes → Except ℕ
parse_body_size over [] = throw (codes "Empty client_max_body_size value")
parse_body_size over (c ∷ s) =
    sized over (c ∷ s) (number_part (c ∷ s)) (unit_of (suffix_part (c ∷ s)))
