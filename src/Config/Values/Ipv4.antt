-- ===== src/Config/Values/Ipv4.antt =====
-- `_isValidIPv4` of src/singleserver.cpp and the addresses in dotted decimal notation.
use spy_socket.Config.Values.{is_octet, octets_loop, is_valid_ipv4}
use spy_socket.Prelude.{
  ℕ, zero, suc, ◌+◌, ◌-◌, ◌*◌, ◌/◌, ◌%◌, ◌≤◌, ◌<◌, true, false, List, [], ◌∷◌, ◌++◌, ◌≡◌, ◌↔◌, ◌⊎◌,
  inl, inr, refl, sym, ◌∙◌, ap, arith, Bool-cases, ltb, ◌==◌, all, append_assoc, subst, ==_iff,
}
use spy_socket.Prelude.Text.{Bytes, get_lines, push, is_digit, decimal, Lacks}
use spy_socket.Time.{print_loop, print_nat}

print_last : (f n : ℕ) (out : Bytes) → n < 10 → print_loop (suc f) n out ≡ (b'0' + n) ∷ out
unfolding print_loop
print_last f n out h = ground arith

print_step :
    (f n : ℕ) (out : Bytes)
    → 10 ≤ n
    → print_loop (suc f) n out ≡ print_loop f (n / 10) ((b'0' + n % 10) ∷ out)
unfolding print_loop
print_step f n out h = ground arith

print_one : (n : ℕ) → n < 10 → print_nat n ≡ (b'0' + n) ∷ []
unfolding print_nat
print_one n h = print_last n n [] h

print_two : (n : ℕ) → 10 ≤ n → n < 100 → print_nat n ≡ (b'0' + n / 10) ∷ (b'0' + n % 10) ∷ []
unfolding print_nat
print_two zero h k = absurd (omega arith)
print_two (suc m) h k = print_step (suc m) (suc m) [] h ∙ print_last m (suc m / 10) _ (omega arith)

print_three :
    (n : ℕ)
    → 100 ≤ n
    → n < 1000
    → print_nat n ≡ (b'0' + n / 10 / 10) ∷ (b'0' + n / 10 % 10) ∷ (b'0' + n % 10) ∷ []
unfolding print_nat
print_three zero h k = absurd (omega arith)
print_three (suc zero) h k = absurd (omega arith)
print_three (suc (suc m)) h k =
    print_step (suc (suc m)) (suc (suc m)) [] (omega arith)
    ∙ print_step (suc m) (suc (suc m) / 10) _ (omega arith)
    ∙ print_last m (suc (suc m) / 10 / 10) _ (omega arith)

pub is_octet-print_nat : (n : ℕ) → n ≤ 255 → is_octet (print_nat n) ≡ true
unfolding is_octet is_digit decimal
is_octet-print_nat n h = elim (Bool-cases (ltb n 10)) [
  | inl a ↦ rw (print_one n (ground arith)) (ground arith)
  | inr a ↦ elim (Bool-cases (ltb n 100)) [
    | inl b ↦ rw (print_two n (ground arith) (ground arith)) (ground arith)
    | inr b ↦ rw (print_three n (ground arith) (omega arith)) (ground arith)
  ]
]

pub print_nat-decimal : (t : Bytes) → is_octet t ≡ true → t ≡ print_nat (decimal t)
unfolding is_octet is_digit decimal
print_nat-decimal [] h = cc
print_nat-decimal (a ∷ []) h = rw (print_one (0 + (a - 48)) (ground arith)) (ground arith)
print_nat-decimal (a ∷ b ∷ []) h =
    rw (print_two ((0 + (a - 48)) * 10 + (b - 48)) (ground arith) (ground arith)) (ground arith)
print_nat-decimal (a ∷ b ∷ c ∷ []) h =
    rw
      (print_three (((0 + (a - 48)) * 10 + (b - 48)) * 10 + (c - 48)) (ground arith) (ground arith))
      (ground arith)
print_nat-decimal (a ∷ b ∷ c ∷ d ∷ t) h = absurd (ground arith)

decimal-le : (t : Bytes) → is_octet t ≡ true → decimal t ≤ 255
unfolding is_octet
decimal-le t h = ground arith

-- Four octets with a dot between any two of them.
abbrev pub address : Bytes → Bytes → Bytes → Bytes → Bytes
address a b c d = a ++ (b'.' ∷ (b ++ (b'.' ∷ (c ++ (b'.' ∷ d)))))

-- An address in dotted decimal notation, or one with another dot at its end.
pub record IsIpv4 (s : Bytes) : Type 0 where
  pub a : ℕ
  pub b : ℕ
  pub c : ℕ
  pub d : ℕ
  pub a_le : a ≤ 255
  pub b_le : b ≤ 255
  pub c_le : c ≤ 255
  pub d_le : d ≤ 255
  pub text_is :
      (s ≡ address (print_nat a) (print_nat b) (print_nat c) (print_nat d))
      ⊎ (s ≡ address (print_nat a) (print_nat b) (print_nat c) (print_nat d ++ (b'.' ∷ [])))

-- The tokens of a text, joined again.
abbrev joined : List Bytes → Bytes
joined [] = []
joined (t ∷ []) = t
joined (t ∷ u ∷ ts) = t ++ (b'.' ∷ joined (u ∷ ts))

abbrev Joins : Bytes → List Bytes → Type 0
Joins s [] = s ≡ []
Joins s (t ∷ ts) = (s ≡ joined (t ∷ ts)) ⊎ (s ≡ joined (t ∷ ts) ++ (b'.' ∷ []))

Joins-dot : (s : Bytes) (ts : List Bytes) → Joins s ts → Joins (b'.' ∷ s) ([] ∷ ts)
Joins-dot s [] e = inr (ap (◌∷◌ b'.') e)
Joins-dot s (t ∷ ts) (inl e) = inl (ap (◌∷◌ b'.') e)
Joins-dot s (t ∷ ts) (inr e) = inr (ap (◌∷◌ b'.') e)

Joins-push : (c : ℕ) (s : Bytes) (ts : List Bytes) → Joins s ts → Joins (c ∷ s) (push c ts)
Joins-push c s [] e = inl (ap (◌∷◌ c) e)
Joins-push c s (t ∷ []) (inl e) = inl (ap (◌∷◌ c) e)
Joins-push c s (t ∷ []) (inr e) = inr (ap (◌∷◌ c) e)
Joins-push c s (t ∷ u ∷ ts) (inl e) = inl (ap (◌∷◌ c) e)
Joins-push c s (t ∷ u ∷ ts) (inr e) = inr (ap (◌∷◌ c) e)

get_lines-Joins : (s : Bytes) → Joins s (get_lines b'.' s)
unfolding get_lines
get_lines-Joins [] = refl
get_lines-Joins (c ∷ s) = elim (Bool-cases (c == b'.')) [
  | inl e ↦
      rw (get_lines, e)
        (subst (λ z. Joins (z ∷ s) ([] ∷ get_lines b'.' s)) (sym ((==_iff c b'.').0 e))
          (Joins-dot s (get_lines b'.' s) (get_lines-Joins s)))
  | inr e ↦ rw (get_lines, e) (Joins-push c s (get_lines b'.' s) (get_lines-Joins s))
]

address-append : (a b c d e : Bytes) → address a b c d ++ e ≡ address a b c (d ++ e)
address-append a b c d e =
    append_assoc a _ e
    ∙ ap (λ z. a ++ (b'.' ∷ z))
        (append_assoc b _ e ∙ ap (λ z. b ++ (b'.' ∷ z)) (append_assoc c _ e))

octets-IsIpv4 : (s : Bytes) (ts : List Bytes) → Joins s ts → octets_loop 0 ts ≡ true → IsIpv4 s
unfolding octets_loop
octets-IsIpv4 s [] j h = cc
octets-IsIpv4 s (a ∷ []) j h = absurd (ground arith)
octets-IsIpv4 s (a ∷ b ∷ []) j h = absurd (ground arith)
octets-IsIpv4 s (a ∷ b ∷ c ∷ []) j h = absurd (ground arith)
octets-IsIpv4 s (a ∷ b ∷ c ∷ d ∷ []) j h =
    let oa : is_octet a ≡ true = ground arith in
    let ob : is_octet b ≡ true = ground arith in
    let oc : is_octet c ≡ true = ground arith in
    let od : is_octet d ≡ true = ground arith in
    record {
      a = decimal a;
      b = decimal b;
      c = decimal c;
      d = decimal d;
      a_le = decimal-le a oa;
      b_le = decimal-le b ob;
      c_le = decimal-le c oc;
      d_le = decimal-le d od;
      text_is =
          rw
            (
              sym (print_nat-decimal a oa),
              sym (print_nat-decimal b ob),
              sym (print_nat-decimal c oc),
              sym (print_nat-decimal d od),
            )
            (elim j [ inl e ↦ inl e | inr e ↦ inr (e ∙ address-append a b c d (b'.' ∷ [])) ]);
    }
octets-IsIpv4 s (a ∷ b ∷ c ∷ d ∷ e ∷ ts) j h = absurd (ground arith)

get_lines-token :
    (t : Bytes) (s : Bytes) → Lacks b'.' t → get_lines b'.' (t ++ (b'.' ∷ s)) ≡ t ∷ get_lines b'.' s
unfolding get_lines
get_lines-token [] s h = refl
get_lines-token (c ∷ t) s h = rw (get_lines, h.0, get_lines-token t s h.1)

get_lines-push :
    (c : ℕ) (s : Bytes) → (c == b'.') ≡ false → get_lines b'.' (c ∷ s) ≡ push c (get_lines b'.' s)
unfolding get_lines
get_lines-push c s h = rw h

get_lines-last : (c : ℕ) (t : Bytes) → Lacks b'.' (c ∷ t) → get_lines b'.' (c ∷ t) ≡ (c ∷ t) ∷ []
get_lines-last c [] h = get_lines-push c [] h.0 ∙ (unfold get_lines in refl)
get_lines-last c (d ∷ t) h = get_lines-push c (d ∷ t) h.0 ∙ ap (push c) (get_lines-last d t h.1)

is_octet-Lacks : (t : Bytes) → is_octet t ≡ true → Lacks b'.' t
unfolding is_octet is_digit
is_octet-Lacks t h = digits t (ground arith)
  where
    digits : (t : Bytes) → all is_digit t ≡ true → Lacks b'.' t
    digits [] h = tt
    digits (c ∷ t) h = (ground arith, digits t (ground arith))

get_lines-octet : (t : Bytes) → is_octet t ≡ true → get_lines b'.' t ≡ t ∷ []
unfolding is_octet
get_lines-octet [] h = cc
get_lines-octet (c ∷ t) h = get_lines-last c t (is_octet-Lacks (c ∷ t) h)

get_lines-address :
    (a b c d e : Bytes)
    → is_octet a ≡ true
    → is_octet b ≡ true
    → is_octet c ≡ true
    → get_lines b'.' e ≡ d ∷ []
    → get_lines b'.' (address a b c e) ≡ a ∷ b ∷ c ∷ d ∷ []
get_lines-address a b c d e ha hb hc he =
    get_lines-token a _ (is_octet-Lacks a ha)
    ∙ ap (◌∷◌ a) (
        get_lines-token b _ (is_octet-Lacks b hb)
        ∙ ap (◌∷◌ b) (get_lines-token c _ (is_octet-Lacks c hc) ∙ ap (◌∷◌ c) he))

octets_loop-four :
    (a b c d : Bytes)
    → is_octet a ≡ true
    → is_octet b ≡ true
    → is_octet c ≡ true
    → is_octet d ≡ true
    → octets_loop 0 (a ∷ b ∷ c ∷ d ∷ []) ≡ true
unfolding octets_loop
octets_loop-four a b c d ha hb hc hd = rw (ha, hb, hc, hd) refl

IsIpv4-is_valid_ipv4 : (s : Bytes) → IsIpv4 s → is_valid_ipv4 s ≡ true
unfolding is_valid_ipv4
IsIpv4-is_valid_ipv4 s h =
    let oa = is_octet-print_nat h.a h.a_le in
    let ob = is_octet-print_nat h.b h.b_le in
    let oc = is_octet-print_nat h.c h.c_le in
    let od = is_octet-print_nat h.d h.d_le in
    let four = octets_loop-four _ _ _ _ oa ob oc od in
    elim (h.text_is) [
      | inl e ↦
          ap (λ z. octets_loop 0 (get_lines b'.' z)) e
          ∙ ap (octets_loop 0) (get_lines-address _ _ _ _ _ oa ob oc (get_lines-octet _ od))
          ∙ four
      | inr e ↦
          ap (λ z. octets_loop 0 (get_lines b'.' z)) e
          ∙ ap (octets_loop 0) (
              get_lines-address _ _ _ (print_nat h.d) _ oa ob oc (
                get_lines-token (print_nat h.d) [] (is_octet-Lacks _ od)
                ∙ (unfold get_lines in refl)))
          ∙ four
    ]

-- `_isValidIPv4` accepts just the addresses of four numbers up to 255 in decimal notation without
-- leading zeros, with a dot between any two of them, and those with one more dot at the end.
pub is_valid_ipv4_iff : (s : Bytes) → (is_valid_ipv4 s ≡ true) ↔ IsIpv4 s
unfolding is_valid_ipv4
is_valid_ipv4_iff s =
    (octets-IsIpv4 s (get_lines b'.' s) (get_lines-Joins s), IsIpv4-is_valid_ipv4 s)
