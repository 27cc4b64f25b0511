-- ===== src/Get/Method/Safe.antt =====
-- The paths that `MethodGet` of src/Methods/Get.cpp reads.
use spy_socket.Config.{ConfigStruct}
use spy_socket.Delete.{allows, without_query}
use spy_socket.Delete.Safe.{IsPlace}
use spy_socket.Disk.{Disk, Kind, regular, directory, special}
use spy_socket.Get.{Host, Client, error_page}
use mathlib.Core.Option
use spy_socket.Get.File.{send_range, send_whole, path_is_file, Range, range_of}
use spy_socket.Get.Index.{list_entries, generate_auto_index, handle_directory_with_auto_index}
use spy_socket.Get.Match.{
  Found, found, nowhere, not_allowed, traversal, bad_substr, match_loop, match_location,
}
use spy_socket.Get.Match.Ends.{match_loop-IsFound}
use spy_socket.Get.Method.{index_path, get_directory, get_kind, get_at, get_found, method_get}
use spy_socket.Location.{location_at}
use spy_socket.Responses.Pages.{
  config_page, page_path, error_path, error_body, generate_res_err, get_error_page_from_config,
}
use spy_socket.Chunked.{Overflow}
use spy_socket.Prelude.{
  ℕ, suc, ◌+◌, true, List, [], ◌∷◌, ◌++◌, Option, none, some, ◌≡◌, refl, ap, inl, length, is_empty,
  All, get_elem?, append-nil, if◌then◌else◌,
}
use spy_socket.Prelude.Text.{Bytes, codes}
use spy_socket.Prelude.Text.Map.{Map}

-- A path that GET may serve for a request target: the root of a location that allows GET, with a
-- secure rest of the target behind it.
pub record IsGettable (config : ConfigStruct) (uri path : Bytes) : Type 0 where
  pub from : IsPlace config.location (without_query uri) path
  pub allowed : allows (codes "GET") from.location.allowed_methods ≡ true

-- What GET may look at: such a path, the index page of its location below it, an entry of its
-- directory, the pages for errors of the configuration, and the default ones.
pub data MayRead (disk : Disk) (config : ConfigStruct) (uri : Bytes) : Bytes → Type 0 where
  served : {path : Bytes} → IsGettable config uri path → MayRead disk config uri path
  index :
      {path : Bytes} (g : IsGettable config uri path)
      → MayRead disk config uri (index_path g.from.location path)
  entry :
      {path : Bytes} (names : List Bytes) (i : ℕ) (name : Bytes)
      → IsGettable config uri path
      → (disk path).names ≡ some names
      → get_elem? names i ≡ some name
      → MayRead disk config uri (path ++ (codes "/" ++ name))
  page :
      (i : ℕ) (status text : Bytes)
      → get_elem? config.error_page i ≡ some (status, text)
      → MayRead disk config uri (page_path config.root text)
  default_page : (code : ℕ) → MayRead disk config uri (error_path code)

-- A fact about each element of a list, from one about each position.
All-of {ℓ κ} :
    {A : Type ℓ} (P : A → Type κ) (xs : List A)
    → ((i : ℕ) (x : A) → get_elem? xs i ≡ some x → P x)
    → All P xs
All-of P [] h = tt
All-of P (x ∷ xs) h = (h 0 x refl, All-of P xs (λ i y e. h (suc i) y e))

config_page-agrees :
    (disk disk' : Disk) (over : Overflow) (root : Bytes) (code : ℕ) (pages : List (Bytes × Bytes))
    → All (λ e. disk (page_path root e.1) ≡ disk' (page_path root e.1)) pages
    → config_page over disk root code pages ≡ config_page over disk' root code pages
unfolding config_page
config_page-agrees disk disk' over root code [] h = refl
config_page-agrees disk disk' over root code ((s, p) ∷ pages) h =
    rw (config_page, h.0, config_page-agrees disk disk' over root code pages h.1) refl

list_entries-agrees :
    (host : Host) (disk disk' : Disk) (path : Bytes) (names : List Bytes)
    → All (λ n. disk (path ++ (codes "/" ++ n)) ≡ disk' (path ++ (codes "/" ++ n))) names
    → list_entries host disk path names ≡ list_entries host disk' path names
unfolding list_entries
list_entries-agrees host disk disk' path [] h = refl
list_entries-agrees host disk disk' path (n ∷ names) h =
    rw (list_entries, h.0, list_entries-agrees host disk disk' path names h.1) refl

module _ (host : Host) (disk disk' : Disk) (config : ConfigStruct) (uri : Bytes)
    (agree : (p : Bytes) → MayRead disk config uri p → disk p ≡ disk' p) where
  error_body-agrees : (code : ℕ) → error_body disk code ≡ error_body disk' code
  unfolding error_body
  error_body-agrees code = rw (error_body, agree (error_path code) (default_page code)) refl

  error_page-agrees :
      (client : Client) (code : ℕ)
      → error_page host disk config client code ≡ error_page host disk' config client code
  unfolding error_page get_error_page_from_config generate_res_err
  error_page-agrees client code =
      rw
        (
          error_page,
          get_error_page_from_config,
          generate_res_err,
          config_page-agrees disk disk' host.over config.root code config.error_page
              (All-of _ config.error_page (λ i e h. agree _ (page i e.0 e.1 h))),
          error_body-agrees code,
        )
        refl

  send_range-agrees :
      (client : Client) (path : Bytes) (size : ℕ) (r : Range) (text : Option Bytes)
      → send_range host disk config client path size r text
        ≡ send_range host disk' config client path size r text
  unfolding send_range
  send_range-agrees client path size r none = error_page-agrees client 500
  send_range-agrees client path size r (some text) = refl

  send_whole-agrees :
      (client : Client) (path : Bytes) (text : Option Bytes)
      → send_whole host disk config client path text ≡ send_whole host disk' config client path text
  unfolding send_whole
  send_whole-agrees client path none = error_page-agrees client 500
  send_whole-agrees client path (some text) = refl

  path_is_file-agrees :
      (headers : Map) (client : Client) (path : Bytes)
      → disk path ≡ disk' path
      → path_is_file host disk config headers client path
        ≡ path_is_file host disk' config headers client path
  unfolding path_is_file
  path_is_file-agrees headers client path e =
      rw
        (
          path_is_file,
          e,
          error_page-agrees (record client { file_path = path }) 500,
          send_range-agrees (record client { file_path = path }) path (disk' path).size
              (range_of headers (disk' path).size) (disk' path).text,
          send_whole-agrees (record client { file_path = path }) path (disk' path).text,
        )
        refl

  generate_auto_index-agrees :
      (path : Bytes)
      → IsGettable config uri path
      → generate_auto_index host disk path ≡ generate_auto_index host disk' path
  unfolding generate_auto_index
  generate_auto_index-agrees path g = go (disk path).names refl
    where
      go :
          (names : Option (List Bytes))
          → (disk path).names ≡ names
          → generate_auto_index host disk path ≡ generate_auto_index host disk' path
      go none e = rw (generate_auto_index, ← agree path (served g), e) refl
      go (some names) e =
          rw
            (
              generate_auto_index,
              ← agree path (served g),
              e,
              list_entries-agrees host disk disk' path names
                  (All-of _ names (λ i name h. agree _ (entry names i name g e h))),
            )
            refl

  -- What stands at a path that may be served.
  module _ (headers : Map) (client : Client) (path : Bytes) (g : IsGettable config uri path) where
    get_directory-agrees :
        get_directory host disk config headers client g.from.location path
        ≡ get_directory host disk' config headers client g.from.location path
    unfolding get_directory handle_directory_with_auto_index
    get_directory-agrees =
        rw
          (
            get_directory,
            handle_directory_with_auto_index,
            path_is_file-agrees headers client (index_path g.from.location path)
                (agree _ (index g)),
            agree (index_path g.from.location path) (index g),
            generate_auto_index-agrees path g,
            error_page-agrees client 403,
          )
          refl

    get_kind-agrees :
        (kind : Option Kind)
        → get_kind host disk config headers client g.from.location path kind
          ≡ get_kind host disk' config headers client g.from.location path kind
    unfolding get_kind
    get_kind-agrees none = error_page-agrees client 404
    get_kind-agrees (some regular) = path_is_file-agrees headers client path (agree path (served g))
    get_kind-agrees (some directory) = get_directory-agrees
    get_kind-agrees (some special) = error_page-agrees client 403

    get_at-agrees :
        get_at host disk config headers client path (some g.from.location)
        ≡ get_at host disk' config headers client path (some g.from.location)
    unfolding get_at
    get_at-agrees = rw (get_at, agree path (served g), get_kind-agrees (disk' path).kind) refl

  get_found-agrees :
      (headers : Map) (client : Client) (fuel : ℕ) (f : Found)
      → location_at client.name_location config.location ≡ none
      → match_loop fuel config.location (without_query uri) [] ≡ some f
      → get_found host disk config headers client f ≡ get_found host disk' config headers client f
  unfolding get_found get_at
  get_found-agrees headers client fuel (found name path) h e =
      let r =
        match_loop-IsFound fuel config.location (without_query uri) [] (without_query uri) name path
          (inl (append-nil (without_query uri))) e in
      rw (← r.name_is, r.from.listed)
        (get_at-agrees headers (record client { name_location = r.from.place }) path
          (record { from = r.from; allowed = r.allowed }))
  get_found-agrees headers client fuel nowhere h e = rw (get_found, h) refl
  get_found-agrees headers client fuel not_allowed h e = refl
  get_found-agrees headers client fuel (traversal name) h e = refl
  get_found-agrees headers client fuel bad_substr h e = refl

-- The answer to a GET is the same on two file systems that agree on every path that the request may
-- read: the path of the target below the root of a location that allows GET, reached by a rest
-- that `is_path_secure` accepts, its index page, the entries of its directory, and the pages for
-- errors. So nothing else of the file system can show in a response. It is supposed that the
-- configuration has no location with the name that the client starts with, which is empty.
pub method_get-agrees :
    (host : Host) (disk disk' : Disk) (config : ConfigStruct) (headers : Map) (client : Client)
    (uri : Bytes)
    → location_at client.name_location config.location ≡ none
    → ((p : Bytes) → MayRead disk config uri p → disk p ≡ disk' p)
    → method_get host disk config headers client uri
      ≡ method_get host disk' config headers client uri
unfolding method_get match_location
method_get-agrees host disk disk' config headers client uri h agree =
    rw (method_get, error_page-agrees host disk disk' config uri agree client 400)
      (ap (λ o. if is_empty uri then some (error_page host disk' config client 400) else o)
        (go (match_location uri config) refl))
  where
    go :
        (o : Option Found)
        → match_location uri config ≡ o
        → Option.map (get_found host disk config headers client) o
          ≡ Option.map (get_found host disk' config headers client) o
    go none e = refl
    go (some f) e =
        ap (λ z. some z)
          (get_found-agrees host disk disk' config uri agree headers client
            (length (without_query uri) + 1) f h e)
