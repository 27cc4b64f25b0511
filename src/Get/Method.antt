-- ===== src/Get/Method.antt =====
-- `MethodGet` of src/Methods/Get.cpp.
pub mod Safe
pub mod Ends
use spy_socket.Chunked.{atoi}
use spy_socket.Config.{LocationStruct, ConfigStruct}
use spy_socket.Disk.{Disk, Kind, regular, directory, special}
use spy_socket.Get.{Host, Client, Outcome, answer, runtime_error, out_of_range, error_page}
use spy_socket.Get.File.{path_is_file, sent}
use spy_socket.Get.Index.{handle_directory_with_auto_index}
use spy_socket.Get.Match.{Found, found, nowhere, not_allowed, traversal, bad_substr, match_location}
use spy_socket.Location.{location_at}
use spy_socket.Responses.{first_return}
use spy_socket.Responses.Pages.{int_to_string}
use mathlib.Core.Option
use spy_socket.Prelude.{
  ℕ, ◌%◌, Bool, true, false, not, List, [], ◌∷◌, ◌++◌, Option, none, some, ◌==◌, if◌then◌else◌,
  is_empty,
}
use spy_socket.Prelude.Text.{Bytes, codes}
use spy_socket.Prelude.Text.Map.{Map}

-- `buildRedirectResponse`, on the code that atoi gives
unfoldable pub build_redirect_response : ℕ → Bytes → Bytes
build_redirect_response code target =
    let message =
      if code == 301
      then codes "Moved Permanently"
      else if code == 302
      then codes "Found"
      else if code == 307
      then codes "Temporary Redirect"
      else codes "Redirect" in
    codes "HTTP/1.1 "
    ++ (int_to_string code
        ++ (codes " "
            ++ (message
                ++ (codes "\r\nLocation: "
                    ++ (target ++ codes "\r\nContent-Length: 0\r\nConnection: close\r\n\r\n")))))

abbrev pub index_path : LocationStruct → Bytes → Bytes
index_path l path = path ++ (codes "/" ++ l.index_page)

abbrev pub is_file : Option Kind → Bool
is_file (some regular) = true
is_file _ = false

-- The end of the method, for a directory.
unfoldable pub get_directory :
    Host → Disk → ConfigStruct → Map → Client → LocationStruct → Bytes → Outcome × Client
get_directory host disk config headers client l path =
    if is_file (disk (index_path l path)).kind
    then path_is_file host disk config headers client (index_path l path)
    else if l.auto_index
    then (answer (handle_directory_with_auto_index host disk path), client)
    else error_page host disk config client 403

-- Behind the redirect: what stands at the path.
unfoldable pub get_kind :
    Host
    → Disk
    → ConfigStruct
    → Map
    → Client
    → LocationStruct
    → Bytes
    → Option Kind
    → Outcome × Client
get_kind host disk config headers client l path none = error_page host disk config client 404
get_kind host disk config headers client l path (some regular) =
    path_is_file host disk config headers client path
get_kind host disk config headers client l path (some directory) =
    get_directory host disk config headers client l path
get_kind host disk config headers client l path (some special) =
    error_page host disk config client 403

-- Behind the search for the location that `_name_location` names.
unfoldable pub get_at :
    Host → Disk → ConfigStruct → Map → Client → Bytes → Option LocationStruct → Outcome × Client
get_at host disk config headers client path none = (runtime_error [], client)
get_at host disk config headers client path (some l) =
    if not (is_empty l.returns)
    then (
      answer (build_redirect_response (atoi host.over (first_return l).0) (first_return l).1),
      sent client,
    )
    else get_kind host disk config headers client l path (disk path).kind

unfoldable pub get_found : Host → Disk → ConfigStruct → Map → Client → Found → Outcome × Client
get_found host disk config headers client (found name path) =
    get_at host disk config headers (record client { name_location = name }) path
      (location_at name config.location)
get_found host disk config headers client nowhere =
    get_at host disk config headers client [] (location_at client.name_location config.location)
get_found host disk config headers client not_allowed =
    (runtime_error (codes "Error 405 Method Not Allowed"), client)
get_found host disk config headers client (traversal name) = (
  runtime_error (codes "Error 403 Forbidden: Path traversal detected"),
  record client { name_location = name },
)
get_found host disk config headers client bad_substr = (out_of_range, client)

unfoldable pub method_get :
    Host → Disk → ConfigStruct → Map → Client → Bytes → Option (Outcome × Client)
method_get host disk config headers client uri =
    if is_empty uri
    then some (error_page host disk config client 400)
    else Option.map (get_found host disk config headers client) (match_location uri config)
