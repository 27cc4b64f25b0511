-- ===== src/Responses/Framing.antt =====
-- The form of a response of HTTP/1.1: a status line, fields in lines, an empty line and a body, with a
-- Content-Length that is the length of the body.
use spy_socket.Responses.{Now, generate_simple_id, generate_set_cookie_header, set_id}
use spy_socket.Prelude.{
  ℕ, zero, suc, ◌/◌, Bool, true, not, ◌&&◌, List, [], ◌∷◌, ◌++◌, Option, none, some, ◌≡◌, refl, sym,
  ap, ◌∙◌, arith, ltb, ◌==◌, if◌then◌else◌, length, all, All, get_or, map, append_assoc,
  Option-cases, Bool-cases, inl, inr,
}
use spy_socket.Prelude.Text.{Bytes, codes, str_eq, to_lower}
use spy_socket.Time.{
  print_loop, print_nat, two_digits, ft_time_format, format_utc, day_of_week, epoch_to_utc, Utc,
  day_names, month_names,
}

abbrev pub Field : Type 0
Field = Bytes × Bytes

abbrev pub field_line : Field → Bytes → Bytes
field_line f rest = f.0 ++ (codes ": " ++ (f.1 ++ (codes "\r\n" ++ rest)))

abbrev pub field_lines : List Field → Bytes → Bytes
field_lines [] rest = rest
field_lines (f ∷ fs) rest = field_line f (field_lines fs rest)

abbrev pub render : Bytes → List Field → Bytes → Bytes
render status fields body = status ++ (codes "\r\n" ++ field_lines fields (codes "\r\n" ++ body))

-- A byte that ends neither a line nor a part of it.
abbrev pub is_plain : ℕ → Bool
is_plain c = not (c == b'\r') && not (c == b'\n')

abbrev pub is_name_char : ℕ → Bool
is_name_char c = is_plain c && not (c == b':') && not (c == b' ')

abbrev pub IsField : Field → Type 0
IsField f = (all is_name_char f.0 ≡ true) × (all is_plain f.1 ≡ true)

-- The value of the first Content-Length, whose name may be in any case.
abbrev pub content_length : List Field → Option Bytes
content_length [] = none
content_length (f ∷ fs) =
    if str_eq (map to_lower f.0) (codes "content-length") then some (f.1) else content_length fs

-- The value of the first field with a name in lower case.
abbrev pub value_of : Bytes → List Field → Option Bytes
value_of name [] = none
value_of name (f ∷ fs) = if str_eq (map to_lower f.0) name then some (f.1) else value_of name fs

-- A text that a client reads as a response with this body.
pub record IsFramed (text body : Bytes) : Type 0 where
  pub status : Bytes
  pub fields : List Field
  pub text_is : text ≡ render status fields body
  pub status_in : all is_plain status ≡ true
  pub fields_in : All IsField fields
  pub length_is : content_length fields ≡ some (print_nat (length body))

pub append-plain :
    (s t : Bytes) → all is_plain s ≡ true → all is_plain t ≡ true → all is_plain (s ++ t) ≡ true
append-plain [] t h g = g
append-plain (c ∷ s) t h g = elim (Bool-cases (is_plain c)) [
  | inl e ↦ rw e (append-plain s t (ground arith) g)
  | inr e ↦ absurd (ground arith)
]

print_loop-plain :
    (fuel n : ℕ) (out : Bytes)
    → all is_plain out ≡ true
    → all is_plain (print_loop fuel n out) ≡ true
unfolding print_loop
print_loop-plain zero n out h = h
print_loop-plain (suc fuel) n out h = elim (Bool-cases (ltb n 10)) [
  | inl e ↦ rw (print_loop, e) (ground arith)
  | inr e ↦ rw (print_loop, e) (print_loop-plain fuel (n / 10) _ (ground arith))
]

pub print_nat-plain : (n : ℕ) → all is_plain (print_nat n) ≡ true
unfolding print_nat
print_nat-plain n = print_loop-plain (suc n) n [] refl

two_digits-plain : (n : ℕ) → all is_plain (two_digits n) ≡ true
unfolding two_digits
two_digits-plain n = elim (Bool-cases (ltb n 10)) [
  | inl e ↦ rw (two_digits, e) (print_nat-plain n)
  | inr e ↦ rw (two_digits, e) (print_nat-plain n)
]

get_or-plain :
    (ts : List Bytes) (i : ℕ)
    → All (λ t. all is_plain t ≡ true) ts
    → all is_plain (get_or ts i []) ≡ true
get_or-plain [] i h = refl
get_or-plain (t ∷ ts) zero h = h.0
get_or-plain (t ∷ ts) (suc i) h = get_or-plain ts i h.1

day-plain : (i : ℕ) → all is_plain (get_or day_names i []) ≡ true
day-plain i = get_or-plain day_names i (refl, (refl, (refl, (refl, (refl, (refl, (refl, tt)))))))

month-plain : (i : ℕ) → all is_plain (get_or month_names i []) ≡ true
month-plain i = get_or-plain month_names i (
  refl,
  (refl, (refl, (refl, (refl, (refl, (refl, (refl, (refl, (refl, (refl, (refl, tt))))))))))),
)

format_utc-plain : (weekday : ℕ) (t : Utc) → all is_plain (format_utc weekday t) ≡ true
unfolding format_utc
format_utc-plain weekday t =
    search (append-plain, day-plain, month-plain, two_digits-plain, print_nat-plain) depth 16

pub date-plain : (time : Option ℕ) → all is_plain (ft_time_format time) ≡ true
unfolding ft_time_format
date-plain none = refl
date-plain (some epoch) = elim (Option-cases (epoch_to_utc epoch)) [
  | inl e ↦ rw (ft_time_format, e) refl
  | inr (t, e) ↦ rw (ft_time_format, e) (format_utc-plain (day_of_week epoch) t)
]

abbrev pub id_field : Now → Field
id_field now = (codes "Set-Cookie", codes "id=" ++ (generate_simple_id now ++ codes "; Path=/"))

pub set_id-line : (now : Now) (rest : Bytes) → set_id now ++ rest ≡ field_line (id_field now) rest
unfolding generate_set_cookie_header
set_id-line now rest =
    ap (λ z. codes "Set-Cookie: id=" ++ z)
      (append_assoc (generate_simple_id now) (codes "; Path=/\r\n") rest
        ∙ sym (append_assoc (generate_simple_id now) (codes "; Path=/") (codes "\r\n" ++ rest)))

pub id_field-IsField : (now : Now) → IsField (id_field now)
unfolding generate_simple_id
id_field-IsField now = (refl, search (append-plain, print_nat-plain))
