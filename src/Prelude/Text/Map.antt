-- ===== src/Prelude/Text/Map.antt =====
-- std::map<std::string, std::string> as an association list with one entry for each key.
use mathlib.Core.Path.{◌≡◌, refl}
use mathlib.Core.Option.{Option, none, some}
use mathlib.Core.List.{List, [], ◌∷◌}
use native.Mathlib.Omega.{arith}
use spy_socket.Prelude.Tests.{if◌then◌else◌}
use spy_socket.Prelude.Text.{Bytes, str_eq, str_eq_iff}

abbrev pub Map : Type 0
Map = List (Bytes × Bytes)

-- m.find(k), and m.at(k) where it is present
unfoldable pub lookup : Bytes → Map → Option Bytes
lookup k [] = none
lookup k ((j, v) ∷ m) = if str_eq j k then some v else lookup k m

-- m[k] = v
unfoldable pub insert : Bytes → Bytes → Map → Map
insert k v [] = (k, v) ∷ []
insert k v ((j, w) ∷ m) = if str_eq j k then (k, v) ∷ m else (j, w) ∷ insert k v m

-- m[k], with the empty string for a missing key
unfoldable pub at_or_empty : Bytes → Map → Bytes
at_or_empty k m = elim (lookup k m) [ none ↦ [] | some v ↦ v ]

pub lookup-insert :
    (k j v : Bytes) (m : Map)
    → lookup j (insert k v m) ≡ (if str_eq k j then some v else lookup j m)
unfolding lookup insert
lookup-insert k j v [] = refl
lookup-insert k j v ((i, w) ∷ m) =
    ground (arith, str_eq_iff k j, str_eq_iff i k, str_eq_iff i j, lookup-insert k j v m)
