-- ===== src/Prelude/Text.antt =====
-- The operations of std::string and of string streams that the source uses, over lists of bytes.
-- A position that may be `npos` is an `Option`. `char` is signed on the platform of the Makefile
-- (x86-64), so a test `c < k` with `k` below 128 also holds of the bytes from 128 on.
pub mod Find
pub mod Map
pub mod Words
use Prim.Native.Char.{code}
use Prim.Native.String.{String}
use Prim.Native.Nat.{ℕ, zero, suc, ◌+◌, ◌-◌, ◌*◌}
use mathlib.Core.Path.{◌≡◌, refl}
use mathlib.Core.Logic.{◌↔◌}
use mathlib.Core.Bool.{Bool, true, false, not, ◌&&◌, ◌||◌}
use mathlib.Core.Option
use mathlib.Core.Option.{Option, none, some}
use mathlib.Core.List.{List, [], ◌∷◌, foldl}
use native.Mathlib.Omega.{arith}
use spy_socket.Prelude.Tests.{ltb, leb, ◌==◌, if◌then◌else◌, is_some}
use spy_socket.Prelude.Lists.{length, is_empty, drop, take, All}

abbrev pub Bytes : Type 0
Bytes = List ℕ

-- The bytes of a literal, which is ASCII.
abbrev pub codes : String → Bytes
codes String.[] = []
codes (String.◌∷◌ c s) = code c ∷ codes s

-- s == t
unfoldable pub str_eq : Bytes → Bytes → Bool
str_eq [] [] = true
str_eq (x ∷ xs) (y ∷ ys) = x == y && str_eq xs ys
str_eq _ _ = false

pub str_eq_iff : (a b : Bytes) → (str_eq a b ≡ true) ↔ (a ≡ b)
unfolding str_eq
str_eq_iff (x ∷ a) (y ∷ b) = ground (arith, str_eq_iff a b)
str_eq_iff _ _ = ground arith

-- s.compare(0, pat.size(), pat) == 0
unfoldable pub is_prefix : Bytes → Bytes → Bool
is_prefix [] s = true
is_prefix (x ∷ pat) [] = false
is_prefix (x ∷ pat) (y ∷ s) = x == y && is_prefix pat s

-- s.find(pat)
unfoldable pub find : Bytes → Bytes → Option ℕ
find pat [] = if is_empty pat then some 0 else none
find pat (c ∷ s) =
    let later = find pat s in if is_prefix pat (c ∷ s) then some 0 else Option.map suc later

-- s.find(pat, pos)
unfoldable pub find_from : Bytes → Bytes → ℕ → Option ℕ
find_from pat s pos =
    if ltb (length s) pos then none else Option.map (λ i. pos + i) (find pat (drop pos s))

-- s.find(pat) != npos
unfoldable pub contains : Bytes → Bytes → Bool
contains pat s = is_some (find pat s)

-- s.substr(pos, n), for pos at most s.size()
abbrev pub substr : Bytes → ℕ → ℕ → Bytes
substr s pos n = take n (drop pos s)

-- s.find_last_of(c)
unfoldable pub find_last : ℕ → Bytes → Option ℕ
find_last c [] = none
find_last c (x ∷ s) = elim (find_last c s) [
  | some i ↦ some (suc i)
  | none ↦ if x == c then some 0 else none
]

-- The tokens of `while (std::getline(stream, token, d))`; no token follows a last separator.
abbrev pub push : ℕ → List Bytes → List Bytes
push c [] = (c ∷ []) ∷ []
push c (t ∷ ts) = (c ∷ t) ∷ ts

unfoldable pub get_lines : ℕ → Bytes → List Bytes
get_lines d [] = []
get_lines d (c ∷ s) = let rest = get_lines d s in if c == d then [] ∷ rest else push c rest

abbrev pub is_blank : ℕ → Bool
is_blank c = c == b' ' || c == b'\t'

-- s.erase(0, s.find_first_not_of(" \t"))
unfoldable pub trim_start : Bytes → Bytes
trim_start [] = []
trim_start (c ∷ s) = let rest = trim_start s in if is_blank c then rest else c ∷ s

-- s.erase(s.find_last_not_of(" \t") + 1)
unfoldable pub trim_end : Bytes → Bytes
trim_end [] = []
trim_end (c ∷ s) = let rest = trim_end s in if is_blank c && is_empty rest then [] else c ∷ rest

unfoldable pub trim : Bytes → Bytes
trim s = trim_end (trim_start s)

unfoldable pub to_lower : ℕ → ℕ
to_lower c = if leb b'A' c && leb c b'Z' then c + 32 else c

unfoldable pub is_digit : ℕ → Bool
is_digit c = leb b'0' c && leb c b'9'

-- The number that a run of decimal digits spells.
unfoldable pub decimal : Bytes → ℕ
decimal = foldl (λ n c. n * 10 + (c - b'0')) 0

-- `(char)c < k`, for k from 0 to 127
abbrev pub char_lt : ℕ → ℕ → Bool
char_lt c k = ltb c k || leb 128 c

-- No byte of the text is `d`.
abbrev pub Lacks : ℕ → Bytes → Type 0
Lacks d = All (λ c. (c == d) ≡ false)
