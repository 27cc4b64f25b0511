-- ===== src/Post.antt =====
-- src/POST/pwist.cpp: `split` and `handle_url_encoded`, the forms that a POST request sends. `res_body` is
-- never used; the response stands in Post/Method.
pub mod Form
pub mod Upload
pub mod Method
use mathlib.Core.List.{foldl}
use spy_socket.Config.{LocationStruct}
use spy_socket.Parsing.{Parser}
use spy_socket.Prelude.{
  ℕ, Bool, true, false, ◌||◌, List, [], ◌∷◌, ◌++◌, map, ◌==◌, if◌then◌else◌, is_empty, get_or,
  is_some,
}
use spy_socket.Prelude.Text.{Bytes, codes}
use spy_socket.Prelude.Text.Map.{Map, lookup}

-- delimiters.find(c) != npos
unfoldable pub holds : Bytes → ℕ → Bool
holds [] c = false
holds (d ∷ ds) c = d == c || holds ds c

-- if (!token.empty()) tokens.push_back(token)
abbrev pub flush : Bytes → List Bytes → List Bytes
flush [] tokens = tokens
flush (c ∷ token) tokens = (c ∷ token) ∷ tokens

unfoldable pub split_loop : Bytes → Bytes → Bytes → List Bytes
split_loop delimiters token [] = flush token []
split_loop delimiters token (c ∷ s) = elim (holds delimiters c) [
  | true ↦ flush token (split_loop delimiters [] s)
  | false ↦ split_loop delimiters (token ++ (c ∷ [])) s
]

unfoldable pub split : Bytes → Bytes → List Bytes
split s delimiters = split_loop delimiters [] s

-- The pair that is made of a token.
unfoldable pub pair_of : Bytes → Bytes × Bytes
pair_of token =
    let pairs = split token (codes "=") in
    (get_or pairs 0 (codes "No key"), get_or pairs 1 (codes "No val"))

-- m.insert(pair), which leaves a key that is present alone
unfoldable pub insert_new : Map → Bytes × Bytes → Map
insert_new m pair = if is_some (lookup pair.0 m) then m else m ++ (pair ∷ [])

unfoldable pub handle_url_encoded : LocationStruct → Parser → LocationStruct
handle_url_encoded location parser =
    let tokens = split parser.body_content (codes "&") in
    record location { url_encoded = foldl insert_new location.url_encoded (map pair_of tokens) }
