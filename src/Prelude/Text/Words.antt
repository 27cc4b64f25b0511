-- ===== src/Prelude/Text/Words.antt =====
-- Text between characters of a kind: searches by a test on characters, white space, the words of
-- `iss >> word`, and lines.
use Prim.Native.Nat.{ℕ}
use mathlib.Core.Bool.{Bool, true, false, ◌&&◌, ◌||◌}
use mathlib.Core.Option.{Option, none, some}
use mathlib.Core.List.{List, [], ◌∷◌, ◌++◌}
use spy_socket.Prelude.Tests.{leb, ◌==◌, if◌then◌else◌}
use spy_socket.Prelude.Lists.{is_empty}
use spy_socket.Prelude.Text.{Bytes}

-- WHITESPACE, which is also what isspace accepts
unfoldable pub is_white : ℕ → Bool
is_white c = (leb 9 c && leb c 13) || c == b' '

-- s.find_first_of(...) != npos
unfoldable pub some_of : (ℕ → Bool) → Bytes → Bool
some_of p [] = false
some_of p (c ∷ s) = p c || some_of p s

-- s.substr(0, s.find_first_of(...))
unfoldable pub before : (ℕ → Bool) → Bytes → Bytes
before p [] = []
before p (c ∷ s) = let rest = before p s in if p c then [] else c ∷ rest

-- What stands behind the first character of the kind, if there is one.
unfoldable pub behind : (ℕ → Bool) → Bytes → Option Bytes
behind p [] = none
behind p (c ∷ s) = let rest = behind p s in if p c then some s else rest

-- s.substr(s.find_first_of(...) + 1), which is all of `s` where nothing is found
unfoldable pub after : (ℕ → Bool) → Bytes → Bytes
after p s = elim (behind p s) [ none ↦ s | some t ↦ t ]

-- s.erase(0, s.find_first_not_of(WHITESPACE))
unfoldable pub skip_white : Bytes → Bytes
skip_white [] = []
skip_white (c ∷ s) = let rest = skip_white s in if is_white c then rest else c ∷ s

-- s.substr(0, s.find_last_not_of(WHITESPACE) + 1)
unfoldable pub drop_white : Bytes → Bytes
drop_white [] = []
drop_white (c ∷ s) = let rest = drop_white s in if is_white c && is_empty rest then [] else c ∷ rest

-- The words of `while (iss >> word)`.
abbrev pub close : Bytes → List Bytes → List Bytes
close [] ws = ws
close (c ∷ w) ws = (c ∷ w) ∷ ws

unfoldable pub words_from : Bytes → Bytes → List Bytes
words_from w [] = close w []
words_from w (c ∷ s) = elim (is_white c) [
  | true ↦ close w (words_from [] s)
  | false ↦ words_from (w ++ (c ∷ [])) s
]

unfoldable pub words : Bytes → List Bytes
words = words_from []

-- The texts between the separators, the last one included.
abbrev pub put : ℕ → List Bytes → List Bytes
put c [] = (c ∷ []) ∷ []
put c (t ∷ ts) = (c ∷ t) ∷ ts

-- The lines of `while (stream.good()) std::getline(stream, line)`.
unfoldable pub segments_of : ℕ → Bytes → List Bytes
segments_of d [] = [] ∷ []
segments_of d (c ∷ s) = let rest = segments_of d s in if c == d then [] ∷ rest else put c rest

-- All but the last one: the lines of `while (std::getline(stream, line) && stream.good())`.
unfoldable pub ended_of : ℕ → Bytes → List Bytes
ended_of d s = init (segments_of d s)
  where
    init : List Bytes → List Bytes
    init [] = []
    init (t ∷ []) = []
    init (t ∷ u ∷ ts) = t ∷ init (u ∷ ts)
