-- ===== src/Delete.antt =====
-- src/Methods/DELETE.cpp: the DELETE method. The file system is a parameter, with one answer for each
-- system call on a path. A response is the call that makes it. `none` means that the fuel of a loop ran
-- out.
pub mod Loops
pub mod Safe
use spy_socket.Config.{LocationStruct, ConfigStruct}
use spy_socket.Location.{Location, location_at, get_location}
use spy_socket.Parsing.{Parser}
use spy_socket.Parsing.Uri.{separator_pos}
use spy_socket.PathSecurity.{is_path_secure}
use mathlib.Core.Option
use spy_socket.Prelude.{
  ℕ, zero, suc, ◌+◌, Bool, true, false, not, ◌&&◌, ◌||◌, List, [], ◌∷◌, ◌++◌, Option, none, some,
  ltb, ◌==◌, if◌then◌else◌, length, is_empty, take, drop, last, all, ◌-◌,
}
use spy_socket.Prelude.Text.{Bytes, codes, str_eq, find_last}

-- What the system answers about a path: whether it opens as a file stream, is a directory, is
-- writable, the names in it if it opens as a directory, and whether std::remove returns 0.
pub record Files : Type 0 where
  pub opens : Bytes → Bool
  pub is_dir : Bytes → Bool
  pub writable : Bytes → Bool
  pub entries : Bytes → Option (List Bytes)
  pub removes : Bytes → Bool

-- `error_page` is getErrorPageFromConfig, `redirect` is handle_redirect, `no_content` is
-- generate_success_resp; `forbidden` is the std::runtime_error of mapUriToPath and `out_of_range`
-- the exception of substr, neither of which PerformDelete catches.
pub data Response : Type 0 where
  error_page : ℕ → Response
  redirect : Location → Response
  no_content : Response
  forbidden : Response
  out_of_range : Response

pub data Mapped : Type 0 where
  mapped : Bytes → Mapped
  unmapped : Mapped
  insecure : Mapped
  bad_substr : Mapped

unfoldable pub allows : Bytes → List Bytes → Bool
allows method [] = false
allows method (m ∷ ms) = str_eq m method || allows method ms

-- The path up to its last '/', which is at `lastSlash`, or "/".
abbrev pub next_path : ℕ → Bytes → Bytes
next_path zero path = codes "/"
next_path (suc i) path = take (suc i) path

unfoldable pub allowed_loop : ℕ → Bytes → List Location → Bytes → Option Bool
allowed_loop zero method ls path = none
allowed_loop (suc fuel) method ls path = elim (location_at path ls) [
  | some l ↦ some (allows method l.allowed_methods)
  | none ↦ elim (str_eq path (codes "/")) [
    | true ↦ some false
    | false ↦ elim (find_last b'/' path) [
      | none ↦ allowed_loop fuel method ls (codes "/")
      | some i ↦ allowed_loop fuel method ls (next_path i path)
    ]
  ]
]

-- Each turn but one shortens the path.
unfoldable pub check_if_allowed : Bytes → ConfigStruct → Bytes → Option Bool
check_if_allowed method config uri = allowed_loop (length uri + 2) method config.location uri

-- `path` up to its query or its fragment.
unfoldable pub without_query : Bytes → Bytes
without_query path = elim (separator_pos path) [ some i ↦ take i path | none ↦ path ]

unfoldable pub map_loop : ℕ → List Location → Bytes → Bytes → Option Mapped
map_loop zero ls path removed = none
map_loop (suc fuel) ls path removed = elim (location_at path ls) [
  | some l ↦ some (if is_path_secure (drop 1 removed) then mapped (l.root ++ removed) else insecure)
  | none ↦ elim (str_eq path (codes "/")) [
    | true ↦ some unmapped
    | false ↦ elim (find_last b'/' path) [
      | none ↦ some bad_substr
      | some i ↦ map_loop fuel ls (next_path i path) (drop i path ++ removed)
    ]
  ]
]

unfoldable pub map_uri_to_path : Bytes → ConfigStruct → Option Mapped
map_uri_to_path uri config =
    map_loop (length (without_query uri) + 1) config.location (without_query uri) []

-- What a call leaves: the response, the members `error_code` and `error_message` where it set them,
-- and the paths it called std::remove on.
pub record Deletion : Type 0 where
  pub response : Response
  pub error : Option (ℕ × Bytes)
  pub removed : List Bytes

unfoldable pub check_req_for_delete : Parser → Bool × Option (ℕ × Bytes)
check_req_for_delete request =
    if request.content_lenght_exists == 1 && ltb 0 (length request.body_content)
    then (false, some (400, codes "Bad Request: DELETE requests should not have a body"))
    else (true, none)

unfoldable pub check_file : Files → Bytes → Bool × Option (ℕ × Bytes)
check_file os uri =
    if os.opens uri
    then (true, none)
    else (false, some (404, codes "Not Found: File does not exist - " ++ uri))

unfoldable pub check_access : Files → Bytes → Bool × Option (ℕ × Bytes)
check_access os uri = if os.writable uri then (true, none) else (
  false,
  some (403, codes "Forbidden: You do not have permission to delete this resource - " ++ uri),
)

abbrev ends_in_slash : Bytes → Bool
ends_in_slash path = last path 0 == b'/'

abbrev is_dots : Bytes → Bool
is_dots name = str_eq name (codes ".") || str_eq name (codes "..")

unfoldable pub is_dir_empty : Files → Bytes → Bool
is_dir_empty os path =
    elim (os.entries (if ends_in_slash path then take (length path - 1) path else path)) [
      | none ↦ false
      | some names ↦ all is_dots names
    ]

abbrev page : ℕ → Option (ℕ × Bytes) → Deletion
page status error = record { response = error_page status; error = error; removed = [] }

abbrev answer : Response → Deletion
answer response = record { response = response; error = none; removed = [] }

-- std::remove and the answer to its result
unfoldable pub remove_it : Files → Bytes → Deletion
remove_it os path = record {
  response = if os.removes path then no_content else error_page 500;
  error = none;
  removed = path ∷ [];
}

-- PerformDelete behind mapUriToPath, for the path that it found
unfoldable pub delete_path : Files → Bytes → Deletion
delete_path os path =
    if not (check_file os path).0
    then page 404 (check_file os path).1
    else if not (os.is_dir path)
    then (if not (check_access os path).0
        then page 403 (check_access os path).1
        else remove_it os path)
    else if not (check_access os path).0
    then page 403 (check_access os path).1
    else if not (is_dir_empty os path)
    then page 409 none
    else remove_it os path

unfoldable pub delete_mapped : Files → Mapped → Deletion
delete_mapped os (mapped path) = if is_empty path then page 404 none else delete_path os path
delete_mapped os unmapped = page 404 none
delete_mapped os insecure = answer forbidden
delete_mapped os bad_substr = answer out_of_range

-- PerformDelete behind the redirect
unfoldable pub delete_allowed : Files → Bytes → ConfigStruct → Option Bool → Option Deletion
delete_allowed os uri config none = none
delete_allowed os uri config (some false) = some (page 405 none)
delete_allowed os uri config (some true) =
    Option.map (delete_mapped os) (map_uri_to_path uri config)

unfoldable pub perform_delete : Files → LocationStruct → Bytes → ConfigStruct → Option Deletion
perform_delete os unset uri config =
    let location = get_location unset uri config in
    if is_empty location.0
    then some (page 404 none)
    else if not (is_empty location.1.returns)
    then some (answer (redirect location))
    else delete_allowed os uri config (check_if_allowed (codes "DELETE") config uri)
