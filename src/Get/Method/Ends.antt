-- ===== src/Get/Method/Ends.antt =====
-- `MethodGet` of src/Methods/Get.cpp comes to an end, with no exception of substr.
use spy_socket.Config.{LocationStruct, ConfigStruct}
use spy_socket.Delete.{without_query}
use spy_socket.Disk.{Disk, Kind, regular, directory, special}
use spy_socket.Get.{Host, Client, Outcome, out_of_range, error_page}
use spy_socket.Get.File.{send_range, send_whole, path_is_file}
use spy_socket.Get.Match.{Found, found, nowhere, not_allowed, traversal, bad_substr, match_location}
use spy_socket.Get.Match.Ends.{match_loop-Ends, Ends}
use spy_socket.Get.Method.{index_path, get_directory, get_kind, get_at, get_found, method_get}
use spy_socket.Location.{location_at}
use spy_socket.Parsing.Uri.{separator_pos}
use mathlib.Core.Option
use spy_socket.Prelude.{
  ℕ, zero, suc, ◌+◌, [], ◌∷◌, Option, none, some, ◌≡◌, ◌≢◌, refl, arith, length, take,
}
use spy_socket.Prelude.Text.{Bytes, find, is_prefix}
use spy_socket.Prelude.Text.Map.{Map}

separator_pos-head : (t : Bytes) → separator_pos (b'/' ∷ t) ≢ some 0
unfolding separator_pos find is_prefix
separator_pos-head t e = ground arith

without_query-head : (t : Bytes) → (r : Bytes) × (without_query (b'/' ∷ t) ≡ b'/' ∷ r)
unfolding without_query
without_query-head t = go (separator_pos (b'/' ∷ t)) refl
  where
    go :
        (o : Option ℕ)
        → separator_pos (b'/' ∷ t) ≡ o
        → (r : Bytes) × (without_query (b'/' ∷ t) ≡ b'/' ∷ r)
    go none e = (t, rw (without_query, e) refl)
    go (some zero) e = absurd (separator_pos-head t e)
    go (some (suc i)) e = (take i t, rw (without_query, e) refl)

module _ (host : Host) (disk : Disk) (config : ConfigStruct) where
  error_page-answers :
      (client : Client) (code : ℕ) → (error_page host disk config client code).0 ≢ out_of_range
  unfolding error_page
  error_page-answers client code e = cc

  path_is_file-answers :
      (headers : Map) (client : Client) (path : Bytes)
      → (path_is_file host disk config headers client path).0 ≢ out_of_range
  unfolding path_is_file send_range send_whole error_page
  path_is_file-answers headers client path e = ground arith

  get_directory-answers :
      (headers : Map) (client : Client) (l : LocationStruct) (path : Bytes)
      → (get_directory host disk config headers client l path).0 ≢ out_of_range
  unfolding get_directory error_page
  get_directory-answers headers client l path e =
      ground (arith, path_is_file-answers headers client (index_path l path))

  get_kind-answers :
      (headers : Map) (client : Client) (l : LocationStruct) (path : Bytes) (kind : Option Kind)
      → (get_kind host disk config headers client l path kind).0 ≢ out_of_range
  unfolding get_kind
  get_kind-answers headers client l path none = error_page-answers client 404
  get_kind-answers headers client l path (some regular) = path_is_file-answers headers client path
  get_kind-answers headers client l path (some directory) =
      get_directory-answers headers client l path
  get_kind-answers headers client l path (some special) = error_page-answers client 403

  get_at-answers :
      (headers : Map) (client : Client) (path : Bytes) (l : Option LocationStruct)
      → (get_at host disk config headers client path l).0 ≢ out_of_range
  unfolding get_at
  get_at-answers headers client path none e = cc
  get_at-answers headers client path (some l) e =
      ground (arith, get_kind-answers headers client l path (disk path).kind)

  get_found-answers :
      (headers : Map) (client : Client) (f : Found)
      → f ≢ bad_substr
      → (get_found host disk config headers client f).0 ≢ out_of_range
  unfolding get_found
  get_found-answers headers client (found name path) h e =
      get_at-answers headers (record client { name_location = name }) path
        (location_at name config.location) e
  get_found-answers headers client nowhere h e =
      get_at-answers headers client [] (location_at client.name_location config.location) e
  get_found-answers headers client not_allowed h e = cc
  get_found-answers headers client (traversal name) h e = cc
  get_found-answers headers client bad_substr h e = h refl

-- An end of the method other than by the exception of substr.
abbrev pub Answers : Option (Outcome × Client) → Type 0
Answers none = ⊥
Answers (some r) = r.0 ≢ out_of_range

-- On every request target that starts with a '/', as those that the parser accepts do, and for every
-- file system and configuration, `MethodGet` comes to an end, and never by the out_of_range of substr,
-- which no caller catches.
pub method_get-Answers :
    (host : Host) (disk : Disk) (config : ConfigStruct) (headers : Map) (client : Client)
    (rest : Bytes)
    → Answers (method_get host disk config headers client (b'/' ∷ rest))
unfolding method_get match_location
method_get-Answers host disk config headers client rest =
    let (r, q) = without_query-head rest in
    go (match_location (b'/' ∷ rest) config) (
      match_loop-Ends (length (without_query (b'/' ∷ rest)) + 1) config.location
        (without_query (b'/' ∷ rest)) r [] q (omega arith))
  where
    go :
        (o : Option Found)
        → Ends o
        → Answers (Option.map (get_found host disk config headers client) o)
    go none h = h
    go (some f) h = get_found-answers host disk config headers client f h
