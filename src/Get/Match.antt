-- ===== src/Get/Match.antt =====
-- `matchLocation` of src/Methods/Get.cpp: the path of the file system for a request target.
pub mod Ends
use spy_socket.Config.{LocationStruct, ConfigStruct}
use spy_socket.Delete.{allows, next_path, without_query}
use spy_socket.Location.{Location, location_at}
use spy_socket.PathSecurity.{is_path_secure}
use spy_socket.Prelude.{
  ℕ, zero, suc, ◌+◌, not, true, false, List, [], ◌++◌, Option, none, some, if◌then◌else◌, length,
  drop,
}
use spy_socket.Prelude.Text.{Bytes, codes, str_eq, find_last}

-- `found` has the path of the location, which `_name_location` becomes, and the result; `traversal` has
-- the former alone. `not_allowed` and `traversal` are the exceptions for 405 and 403, `nowhere` is the
-- empty result, and `bad_substr` the exception of substr.
pub data Found : Type 0 where
  found : Bytes → Bytes → Found
  nowhere : Found
  not_allowed : Found
  traversal : Bytes → Found
  bad_substr : Found

unfoldable pub at_location : Bytes → LocationStruct → Bytes → Found
at_location path l removed =
    if not (allows (codes "GET") l.allowed_methods)
    then not_allowed
    else if not (is_path_secure (drop 1 removed))
    then traversal path
    else found path (l.root ++ removed)

-- Each turn takes the last segment off `path`.
unfoldable pub match_loop : ℕ → List Location → Bytes → Bytes → Option Found
match_loop zero ls path removed = none
match_loop (suc fuel) ls path removed = elim (location_at path ls) [
  | some l ↦ some (at_location path l removed)
  | none ↦ elim (str_eq path (codes "/")) [
    | true ↦ some nowhere
    | false ↦ elim (find_last b'/' path) [
      | none ↦ some bad_substr
      | some i ↦ match_loop fuel ls (next_path i path) (drop i path ++ removed)
    ]
  ]
]

unfoldable pub match_location : Bytes → ConfigStruct → Option Found
match_location request_path server =
    match_loop (length (without_query request_path) + 1) server.location
      (without_query request_path) []
