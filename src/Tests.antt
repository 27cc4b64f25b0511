-- ===== src/Tests.antt =====
-- Runs of the model on concrete input.
mod Examples
mod Serving
mod Posting
mod Scripts
mod Clients
use Prim.Native.String.{String}
use spy_socket.Chunked.{fresh}
use spy_socket.Prelude.Text.{
  str_eq, is_prefix, find, find_from, contains, find_last, get_lines, trim_start, trim_end, trim,
  to_lower, is_digit, decimal,
}
use spy_socket.Prelude.Text.Map.{lookup, insert, at_or_empty}
use spy_socket.Parsing.Uri.{
  join_up, normal_stack, push_token, url_decode, normalize_path, bad_char, separator_pos, split_uri,
  rewrite_uri, check_uri,
}
use spy_socket.Parsing.Start.{
  find_crlf, is_unimplemented, is_served, check_method, check_version, check_start_line,
  parse_start_line,
}
use spy_socket.Parsing.Checks.{
  check_location, check_connection, check_content_length, check_port, check_host,
  check_transfer_encoding, check_cookie,
}
use spy_socket.Parsing.ContentType.{
  is_supported, add_directive, add_directives, check_charset, check_boundary, check_supported,
  check_media_type, check_directives, check_content_type,
}
use spy_socket.Parsing.Headers.{
  strip_cr, is_separator, bad_name_char, is_kept, keep_header, add_header, add_line, add_lines,
  check_headers, extract_size, body_length, read_headers, parse_headers,
}
use spy_socket.Parsing.Feed.{
  parse_chunked, parse_counted, throws, parse_body, step_in, drive, run, reset, get_parse_status,
  get_cookies, get_id,
}
use spy_socket.Chunked.{
  hexa, hex_loop, hex_to_dec, size_of, reset_refactor_data_state, is_chunked_transfer_complete,
  last_chunk, take_chunk, read_size, chunk_round, decode_round, decode_loop, atoi, pass_through,
  is_chunked, decode_body, take_headers, starts_message, receive, refactor_data,
}
use spy_socket.Parsing.{Parser, new_parser, parse_ok, again, error_result, ParseResult}
use spy_socket.Parsing.Feed.{Env, Machine, machine, feed_data}
use spy_socket.Chunked.Hex.{hex_value}
use spy_socket.Time.{
  is_leap_year, days_in_year, year_loop, month_loop, in_year, epoch_to_utc, print_loop, print_nat,
  two_digits, day_of_week, format_utc, ft_time_format, ft_random_time,
}
use spy_socket.Location.{location_at, best_of, get_location}
use spy_socket.PathSecurity.{ends_segment, no_parent, is_path_secure}
use spy_socket.Delete.{
  allows, allowed_loop, check_if_allowed, without_query, map_loop, map_uri_to_path, check_file,
  check_access, is_dir_empty, remove_it, delete_path, delete_mapped, delete_allowed, perform_delete,
  check_req_for_delete, Files, no_content,
}
use spy_socket.Prelude.Text.Words.{
  is_white, some_of, before, behind, after, skip_white, drop_white, words_from, words, segments_of,
  ended_of,
}
use spy_socket.Config.Values.{
  is_octet, octets_loop, is_valid_ipv4, is_alnum, is_label, is_valid_domain, is_valid_name,
  is_valid_host, is_valid_location_path, number_part, to_upper, suffix_part, unit_of, atoll,
  checked_size, scaled_size, sized, parse_body_size,
}
use spy_socket.Config.Directives.{
  parse_location_root, parse_location_autoindex, has_method, insert_method, is_http_method,
  add_methods, parse_location_method, parse_location_index_page, is_redirect_code,
  parse_location_return, parse_location_cgi_path, dotted, parse_location_cgi_ext,
  parse_location_upload_enabled, parse_location_upload_path, strip_white, run_directive,
  parse_location_directive, drop_semicolon, fill_line, fill_lines, fill_location_struct,
}
use spy_socket.Config.Server.{
  has_port, add_listen, set_host, set_root, set_server_name, block_lines, location_key,
  handle_location_lines, handle_location, has_page, is_error_status, add_error_page,
  handle_error_page, set_body_size, run_key, parse_key_value, skip_to_brace, read_lines,
  set_variables, single_server_config,
}
use spy_socket.Config.Cluster.{
  less, insert_server, shares_port, is_taken, place_server, add_server, create_config_struct,
  clean_line, clean_lines, parse_server_block, scan_line, scan_next, scan_lines, scan_end,
  check_brackets, Cluster, Setting,
}
use spy_socket.Config.Redirects.{
  is_url, search, next_of, was_visited, chain, count_locations, check_return, check_returns,
  check_locations, check_servers, check_redirection_loops, has_address, check_ports,
  check_addresses, check_duplicate_listen_addresses, start_to_set,
}
use spy_socket.Post.{holds, split_loop, split, pair_of, insert_new, handle_url_encoded}
use spy_socket.Config.{LocationStruct, ConfigStruct}
use spy_socket.Prelude.{ℕ, Bool, true, false, List, [], ◌∷◌, ◌++◌, Option, none, some, ◌≡◌, refl}
use spy_socket.Prelude.Text.{Bytes, codes}
use spy_socket.Prelude.Except.{ok, throw}

pub program : Unit {0}
unfolding feed_data join_up normal_stack push_token str_eq is_prefix find find_from contains
    find_last get_lines trim_start trim_end trim to_lower is_digit decimal lookup insert at_or_empty
    url_decode normalize_path bad_char separator_pos split_uri rewrite_uri check_uri find_crlf
    is_unimplemented is_served check_method check_version check_start_line parse_start_line
    check_location check_connection check_content_length check_port check_host
    check_transfer_encoding check_cookie is_supported add_directive add_directives check_charset
    check_boundary check_supported check_media_type check_directives check_content_type strip_cr
    is_separator bad_name_char is_kept keep_header add_header add_line add_lines check_headers
    extract_size body_length read_headers parse_headers parse_chunked parse_counted throws
    parse_body step_in drive run reset get_parse_status get_cookies get_id hexa hex_loop hex_to_dec
    size_of reset_refactor_data_state is_chunked_transfer_complete last_chunk take_chunk read_size
    chunk_round decode_round decode_loop atoi pass_through is_chunked decode_body take_headers
    starts_message receive refactor_data is_leap_year days_in_year year_loop month_loop in_year
    epoch_to_utc print_loop print_nat two_digits day_of_week format_utc ft_time_format
    ft_random_time best_of get_location ends_segment no_parent is_path_secure location_at allows
    allowed_loop check_if_allowed without_query map_loop map_uri_to_path check_file check_access
    is_dir_empty remove_it delete_path delete_mapped delete_allowed perform_delete
    check_req_for_delete hex_value holds split_loop split pair_of insert_new handle_url_encoded
    is_white some_of before behind after skip_white drop_white words_from words segments_of ended_of
    is_octet octets_loop is_valid_ipv4 is_alnum is_label is_valid_domain is_valid_name is_valid_host
    is_valid_location_path number_part to_upper suffix_part unit_of atoll checked_size scaled_size
    sized parse_body_size parse_location_root parse_location_autoindex has_method insert_method
    is_http_method add_methods parse_location_method parse_location_index_page is_redirect_code
    parse_location_return parse_location_cgi_path dotted parse_location_cgi_ext
    parse_location_upload_enabled parse_location_upload_path strip_white run_directive
    parse_location_directive drop_semicolon fill_line fill_lines fill_location_struct has_port
    add_listen set_host set_root set_server_name block_lines location_key handle_location_lines
    handle_location has_page is_error_status add_error_page handle_error_page set_body_size run_key
    parse_key_value skip_to_brace read_lines set_variables single_server_config less insert_server
    shares_port is_taken place_server add_server create_config_struct clean_line clean_lines
    parse_server_block scan_line scan_next scan_lines scan_end check_brackets is_url search next_of
    was_visited chain count_locations check_return check_returns check_locations check_servers
    check_redirection_loops has_address check_ports check_addresses check_duplicate_listen_addresses
    start_to_set
program = tt

abbrev pub env : Env
env = record { junk = 0; over = λ s. 0 }

abbrev pub start : Machine
start = machine (new_parser 0 0 parse_ok) fresh

abbrev pub simple_get : Bytes
simple_get = codes "GET /a/./b//c?x=1 HTTP/1.1\r\nHost: localhost:8080\r\nCookie: id=42\r\n\r\n"

simple_get_ok : (feed_data env simple_get start).0 ≡ some parse_ok
unfolding program
simple_get_ok = refl

abbrev pub chunked_post : Bytes
chunked_post =
    codes "POST /up HTTP/1.1\r\nHost: a\r\nTransfer-Encoding: chunked\r\n\r\n"
    ++ codes "4\r\nWiki\r\n5\r\npedia\r\n0\r\n\r\n"

chunked_post_ok : (feed_data env chunked_post start).1.parser.body_content ≡ codes "Wikipedia"
unfolding program
chunked_post_ok = refl

time_ok : ft_time_format (some 951827696) ≡ codes "Tue, 29 Feb 2000 12:34:56 GMT"
unfolding program
time_ok = refl

abbrev pub site : LocationStruct
site = record {
  auto_index = false;
  allowed_methods = codes "GET" ∷ codes "DELETE" ∷ [];
  root = codes "www";
  index_page = codes "index.html";
  returns = [];
  cgi_path = [];
  cgi_ext = [];
  upload_enabled = false;
  upload_path = [];
  url_encoded = [];
}

abbrev pub server : ConfigStruct
server = record {
  server_name = codes "a";
  host = codes "127.0.0.1";
  root = codes "www";
  index_page = codes "index.html";
  auto_index = false;
  client_max_body_size = 1000;
  listen = 8080 ∷ [];
  location = (codes "/", site) ∷ (codes "/up", site) ∷ [];
  error_page = [];
}

-- A file system that holds plain files alone.
abbrev pub files : Files
files = record {
  opens = λ _. true;
  is_dir = λ _. false;
  writable = λ _. true;
  entries = λ _. none;
  removes = λ _. true;
}

delete_ok :
    perform_delete files site (codes "/up/a.txt") server
    ≡ some (record { response = no_content; error = none; removed = codes "www/a.txt" ∷ [] })
unfolding program
delete_ok = refl

abbrev pub setting : Setting
setting = record { auto_index = false; client_max_body_size = 1048576; over = λ s. 0 }

abbrev pub one_server : Bytes
one_server =
    codes "server {\nserver_name a;\nhost 127.0.0.1;\nlisten 8080;\nerror_page 404 e.html;\n"
    ++ codes "location / {\nmethod GET POST\n_return 301 /up\n}\n"
    ++ codes "location /up {\nroot www;\n}\n}\n"

abbrev pub root_location : LocationStruct
root_location = record {
  auto_index = false;
  allowed_methods = codes "GET" ∷ codes "POST" ∷ [];
  root = [];
  index_page = [];
  returns = (codes "301", codes "/up") ∷ [];
  cgi_path = [];
  cgi_ext = [];
  upload_enabled = false;
  upload_path = [];
  url_encoded = [];
}

abbrev pub one_cluster : Cluster
one_cluster =
    (
      codes "127.0.0.1:8080",
      record {
        server_name = codes "a";
        host = codes "127.0.0.1";
        root = [];
        index_page = [];
        auto_index = false;
        client_max_body_size = 1048576;
        listen = 8080 ∷ [];
        location =
            (codes "/", root_location)
            ∷ (
              codes "/up",
              record root_location { allowed_methods = []; root = codes "www"; returns = [] },
            )
            ∷ [];
        error_page = (codes "404", codes "e.html") ∷ [];
      },
    )
    ∷ []

check_brackets_ok : check_brackets setting one_server ≡ ok one_cluster
unfolding program
check_brackets_ok = refl

start_to_set_ok : start_to_set setting (some one_server) ≡ some (ok one_cluster)
unfolding program
start_to_set_ok = refl
