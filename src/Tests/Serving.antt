-- ===== src/Tests/Serving.antt =====
-- Runs of the GET method and of the responses, and their properties at concrete input.
use spy_socket.Chunked.{digits_of}
use spy_socket.Config.{LocationStruct}
use spy_socket.Disk.{Disk, Node, regular}
use spy_socket.Get.{Host, Client, answer, runtime_error, error_page}
use spy_socket.Get.File.{
  strtoul, range_spec, range_header, range_of, range_response, send_range, whole_response,
  send_whole, path_is_file,
}
use spy_socket.Get.Index.{
  mime_of, get_mime_type, list_head, list_entry, list_entries, generate_auto_index,
  handle_directory_with_auto_index,
}
use spy_socket.Get.Match.{at_location, match_loop, match_location}
use spy_socket.Get.File.Numbers.{range_value}
use spy_socket.Get.File.Partial.{IsPartial, path_is_file-IsPartial}
use spy_socket.Get.Method.{
  build_redirect_response, get_directory, get_kind, get_at, get_found, method_get,
}
use spy_socket.Get.Method.Ends.{Answers, method_get-Answers}
use spy_socket.Get.Method.Safe.{
  IsGettable, MayRead, served, index, entry, page, default_page, method_get-agrees,
}
use spy_socket.Location.{location_at}
use spy_socket.Responses.{
  generate_simple_id, generate_set_cookie_header, Now, ok_200, not_found, not_found_page,
  internal_error, internal_page, created_success, created_page, handle_not_allowed,
  not_allowed_page,
}
use spy_socket.Responses.Framed.{IsResponse, responses-IsFramed}
use spy_socket.Responses.Framing.{value_of, IsFramed}
use spy_socket.Responses.Pages.{
  get_status_message, generate_res_err, config_page, page_response, page_path, error_body,
  get_error_page_from_config, int_to_string, generate_error_page_html, get_default_error_message,
  get_status_phrase,
}
use spy_socket.Responses.Served.{IsErrorPage, get_error_page_from_config-IsFramed}
use spy_socket.Prelude.{
  true, false, [], ◌∷◌, ◌++◌, none, some, ◌≡◌, ◌≢◌, refl, inl, inr, arith, ◌==◌, if◌then◌else◌,
  length, get_or, append-nil, Bool-cases, ==_iff,
}
use spy_socket.Prelude.Text.{Bytes, codes, str_eq}
use spy_socket.Prelude.Text.Map.{Map}
use spy_socket.Time.{ft_time_format}
use spy_socket.Tests.{program, env, site, server}

unfoldable pub serving : Unit {0}
unfolding program generate_simple_id generate_set_cookie_header get_status_message get_status_phrase
    get_default_error_message int_to_string generate_error_page_html error_body generate_res_err
    page_path config_page page_response get_error_page_from_config error_page mime_of get_mime_type
    digits_of strtoul range_spec range_header range_of range_response send_range whole_response
    send_whole path_is_file at_location match_loop match_location list_head list_entry list_entries
    generate_auto_index handle_directory_with_auto_index build_redirect_response get_directory
    get_kind get_at get_found method_get
serving = tt

abbrev pub now : Now
now = record { time = some 951827696; random = 5 }

abbrev pub host : Host
host = record { over = env.over; now = now; stale = λ _. false }

abbrev pub client : Client
client = record { name_location = []; file_path = []; chunked_sending = false }

abbrev pub missing : Node
missing = record {
  kind = none;
  size = 0;
  text = none;
  names = none;
  present = false;
  executable = false;
  writable = false;
  keeps = false;
}

abbrev file : Bytes → Node
file text = record missing { kind = some regular; size = length text; text = some text }

-- One page, at the root of the site.
abbrev pages : Disk
pages path = if str_eq path (codes "www/a.txt") then file (codes "0123456789") else missing

-- The same with another file, outside of the site.
abbrev more_pages : Disk
more_pages path = if get_or path 0 0 == b'x' then file (codes "secret") else pages path

abbrev target : Bytes
target = codes "/up/a.txt?q"

-- What may be read starts with the root of the site, or is a page for errors.
root_is :
    (place : Bytes) (l : LocationStruct)
    → location_at place server.location ≡ some l
    → l.root ≡ codes "www"
unfolding location_at
root_is place l h = ground arith

served-head : (path : Bytes) → IsGettable server target path → get_or path 0 0 ≡ b'w'
served-head path g = rw (g.from.path_is, root_is g.from.place g.from.location g.from.listed) refl

append-head : (p q : Bytes) → get_or p 0 0 ≡ b'w' → get_or (p ++ q) 0 0 ≡ b'w'
append-head [] q h = absurd (omega arith)
append-head (c ∷ p) q h = h

served-differs :
    (path rest : Bytes) → IsGettable server target path → get_or (path ++ rest) 0 0 ≢ b'x'
served-differs path rest g =
    let h = append-head path rest (served-head path g) in λ e. absurd (omega arith)

MayRead-head : (p : Bytes) → MayRead pages server target p → get_or p 0 0 ≢ b'x'
MayRead-head p (served g) = rw (← append-nil p) (served-differs p [] g)
MayRead-head p (index {path = q} g) = served-differs q _ g
MayRead-head p (entry {path = q} names i name g e f) = served-differs q _ g
MayRead-head p (page i status text e) = cc
MayRead-head p (default_page code) = omega arith

method_get-agrees_example :
    method_get host pages server [] client target
    ≡ method_get host more_pages server [] client target
unfolding location_at str_eq
method_get-agrees_example =
    method_get-agrees host pages more_pages server [] client target refl
      (λ p m. agree p (MayRead-head p m))
  where
    agree : (p : Bytes) → get_or p 0 0 ≢ b'x' → pages p ≡ more_pages p
    agree p h = elim (Bool-cases (get_or p 0 0 == b'x')) [
      | inl e ↦ absurd (h ((==_iff _ _).0 e))
      | inr e ↦ rw e refl
    ]

method_get-Answers_example : Answers (method_get host pages server [] client (codes "/up/a.txt"))
method_get-Answers_example = method_get-Answers host pages server [] client (codes "up/a.txt")

abbrev wanted : Map
wanted = (codes "range", range_value 2 5) ∷ []

path_is_file-IsPartial_example :
    (response : Bytes) × ((path_is_file host pages server wanted client (codes "www/a.txt")).0
      ≡ answer response)
    × IsPartial response
        (codes "HTTP/1.1 206 Partial Content")
        (codes "bytes 2-5/10")
        (codes "2345")
unfolding program
path_is_file-IsPartial_example =
    path_is_file-IsPartial host pages server wanted client (codes "www/a.txt") (codes "0123456789")
      regular 2 5 refl refl refl (omega arith) refl (omega arith) (omega arith)

-- The whole response to a GET, and the exception where no location matches.
method_get_ok :
    method_get host pages server [] client target
    ≡ some (
      answer (
          codes "HTTP/1.1 200 OK \r\nDate: Tue, 29 Feb 2000 12:34:56 GMT\r\n"
          ++ (codes "Server: SpySocket/1.0\r\nSet-Cookie: id=100005; Path=/\r\n"
              ++ codes
                  "Content-type: application/octet-stream\r\nContent-length: 10\r\n\r\n0123456789")),
      record { name_location = codes "/up"; file_path = codes "www/a.txt"; chunked_sending = true },
    )
unfolding serving
method_get_ok = refl

method_get_nowhere :
    method_get host pages (record server { location = [] }) [] client target
    ≡ some (runtime_error [], client)
unfolding serving
method_get_nowhere = refl

get_error_page_from_config-IsFramed_example :
    IsErrorPage env.over pages server 404 (get_error_page_from_config env.over pages now server 404)
unfolding serving
get_error_page_from_config-IsFramed_example =
    get_error_page_from_config-IsFramed env.over pages now server 404 (omega arith)

responses-IsFramed_example :
    IsResponse now (ok_200 now (codes "hi")) (codes "hi")
    × IsResponse now (not_found now) not_found_page
    × IsResponse now (internal_error now) internal_page
    × IsResponse now (handle_not_allowed now (codes "/", site)) not_allowed_page
    × ((f : IsFramed (created_success now) created_page) × (value_of (codes "date") f.fields
          ≡ some (ft_time_format now.time ++ codes "Server: SpySocket/1.0"))
        × (value_of (codes "server") f.fields ≡ none))
responses-IsFramed_example =
    responses-IsFramed now (codes "hi") (codes "/", site) (refl, (refl, tt))
