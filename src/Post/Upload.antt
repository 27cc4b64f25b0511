-- ===== src/Post/Upload.antt =====
-- src/POST/pwist.cpp: the files that a POST request saves. The file system is a `Disk`; its paths are C
-- strings. `counter` is counted up and never read, and is not modelled.
pub mod Saved
use spy_socket.Chunked.{Overflow, size_mod}
use spy_socket.Config.{LocationStruct, ConfigStruct}
use spy_socket.Disk.{Disk, Kind, regular, directory, special}
use spy_socket.Parsing.{Parser}
use spy_socket.Responses.{Now}
use spy_socket.Responses.Pages.{get_error_page_from_config}
use spy_socket.Prelude.{
  ℕ, ◌+◌, ◌-◌, ◌%◌, Bool, true, false, not, ◌&&◌, List, [], ◌∷◌, ◌++◌, Option, none, some, ◌==◌,
  if◌then◌else◌, is_empty, length, drop, get_or,
}
use spy_socket.Prelude.Text.{Bytes, codes, contains, find, find_from, substr}
use spy_socket.Prelude.Text.Map.{lookup, at_or_empty}
use spy_socket.Time.{ft_random_time}

-- A response, with the path and the bytes that were written to it if it opened; or the out_of_range of
-- std::map::at.
pub data Posted : Type 0 where
  posted : Bytes → Option (Bytes × Bytes) → Posted
  out_of_range : Posted

unfoldable pub generate_filename : Now → Bytes → Bytes → Bytes
generate_filename now type termination =
    type
    ++ (ft_random_time now.time ++ (if is_empty termination then codes ".txt" else termination))

-- `a - b` of size_t
abbrev pub minus : ℕ → ℕ → ℕ
minus a b = (a + (size_mod - b % size_mod)) % size_mod

abbrev pub delimiter : Bytes → Bytes
delimiter boundary = codes "--" ++ boundary

abbrev pub close_delimiter : Bytes → Bytes
close_delimiter boundary = codes "--" ++ (boundary ++ codes "--")

-- `body`: the text between the first boundary and the closing one.
unfoldable pub upload_body : Bytes → Bytes → Option Bytes
upload_body boundary request = elim (find (delimiter boundary) request) [
  | none ↦ none
  | some start ↦ elim (find_from (close_delimiter boundary) request start) [
    | none ↦ none
    | some stop ↦
        some
          (substr request (start + length boundary + 4) (minus stop (start + length boundary + 4)))
  ]
]

abbrev pub name_or_generated : Now → Bytes → Bytes
name_or_generated now name =
    if is_empty name then generate_filename now (codes "upload_") [] else name

-- The name behind "filename=", from its position: in quotes, or up to a blank.
unfoldable pub quoted_name : Now → Bytes → ℕ → Option Bytes
quoted_name now body pos = elim (find_from (codes "\"") body pos) [
  | none ↦ none
  | some stop ↦ some (name_or_generated now (substr body pos (stop - pos)))
]

unfoldable pub bare_name : Now → Bytes → ℕ → Bytes
bare_name now body pos = elim (find_from (codes " ") body pos) [
  | none ↦ name_or_generated now (drop pos body)
  | some stop ↦ name_or_generated now (substr body pos (stop - pos))
]

-- `filename`; nothing for a quote that is not closed.
unfoldable pub upload_name : Now → Bytes → Option Bytes
upload_name now body = elim (find (codes "filename=") body) [
  | none ↦ some (generate_filename now (codes "upload_") [])
  | some i ↦
      if get_or body (i + 9) 0 == b'"'
      then quoted_name now body (i + 10)
      else some (bare_name now body (i + 9))
]

-- `filename` behind stat: below the path for uploads if that is a directory, else that path itself.
unfoldable pub target_path : Bytes → Bytes → Option Kind → Option Bytes
target_path upload_path filename none = none
target_path upload_path filename (some directory) = some (upload_path ++ (codes "/" ++ filename))
target_path upload_path filename (some _) = some upload_path

module _ (over : Overflow) (disk : Disk) (now : Now) where
  abbrev pub page : ConfigStruct → ℕ → Posted
  page config code = posted (get_error_page_from_config over disk now config code) none

  -- The write to a path.
  unfoldable pub save : ConfigStruct → Bytes → Option Bytes → Posted
  save config bytes none = page config 500
  save config bytes (some path) =
      if not (disk path).writable
      then page config 500
      else posted
          (get_error_page_from_config over disk now config (if (disk path).keeps then 201 else 500))
          (some (path, bytes))

  -- Behind the search for the name, on the position of the empty line.
  unfoldable pub save_part : ConfigStruct → Bytes → Bytes → Bytes → Option ℕ → Posted
  save_part config upload_path body filename none = page config 400
  save_part config upload_path body filename (some i) =
      save config (drop (i + 4) body) (target_path upload_path filename (disk upload_path).kind)

  unfoldable pub save_named : ConfigStruct → Bytes → Bytes → Option Bytes → Posted
  save_named config upload_path body none = page config 400
  save_named config upload_path body (some filename) =
      save_part config upload_path body filename (find (codes "\r\n\r\n") body)

  unfoldable pub save_upload : ConfigStruct → Bytes → Option Bytes → Posted
  save_upload config upload_path none = page config 400
  save_upload config upload_path (some body) =
      save_named config upload_path body (upload_name now body)

  unfoldable pub handle_upload : LocationStruct → Parser → ConfigStruct → Posted
  handle_upload location parser config =
      let upload_path =
        if is_empty location.upload_path then location.root else location.upload_path in
      if not location.upload_enabled
      then page config 403
      else elim (lookup (codes "boundary") parser.headers) [
        | none ↦ out_of_range
        | some boundary ↦ save_upload config upload_path (upload_body boundary parser.body_content)
      ]

  unfoldable pub main_name : Bytes → Bytes
  main_name content_type =
      if contains (codes "image") content_type
      then generate_filename now (codes "image_") (codes ".png")
      else if contains (codes "video") content_type
      then generate_filename now (codes "video_") (codes ".mp4")
      else generate_filename now (codes "file_") (codes ".txt")

  unfoldable pub main_response : LocationStruct → Parser → ConfigStruct → Posted
  main_response location parser config =
      let filename = main_name (at_or_empty (codes "content-type-value") parser.headers) in
      let upload_path =
        if location.upload_enabled && is_empty location.upload_path
        then location.root
        else location.upload_path in
      save config parser.body_content (target_path upload_path filename (disk upload_path).kind)
