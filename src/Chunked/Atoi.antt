-- ===== src/Chunked/Atoi.antt =====
-- atoi on a text of digits, as src/POST/unchunk.cpp and src/singleserver.cpp call it.
use spy_socket.Chunked.{Overflow, digits_of, atoi}
use spy_socket.Prelude.{true, [], ◌∷◌, ◌≡◌, refl, arith, all}
use spy_socket.Prelude.Text.{Bytes, is_digit, decimal}

pub digits_of-all : (s : Bytes) → all is_digit s ≡ true → digits_of s ≡ s
unfolding digits_of
digits_of-all [] h = refl
digits_of-all (c ∷ s) h = ground (arith, digits_of-all s)

pub atoi-zero :
    (over : Overflow) (s : Bytes) → all is_digit s ≡ true → decimal s ≡ 0 → atoi over s ≡ 0
unfolding atoi is_digit
atoi-zero over [] h z = refl
atoi-zero over (c ∷ s) h z = ground (arith, digits_of-all (c ∷ s) h)
