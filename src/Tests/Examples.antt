-- ===== src/Tests/Examples.antt =====
-- The properties at concrete input.
use spy_socket.Chunked.{
  turn, fresh, again, value, size_mod, hex_to_dec, refactor_data, decode_round,
}
use spy_socket.Chunked.Hex.{hex_to_dec-hex_value, decode_round-invalid}
use spy_socket.Chunked.Request.{IsNumeral, spell, refactor_data-encode}
use spy_socket.Chunked.RoundTrip.{Chunk, encode}
use spy_socket.Chunked.Total.{Returns, refactor_data-total}
use spy_socket.Config.Server.{single_server_config}
use spy_socket.Config.Server.Valid.{IsConfig, single_server_config-IsConfig}
use spy_socket.Config.Cluster.{new_config, check_brackets}
use spy_socket.Config.Cluster.Valid.{IsCluster, check_brackets-IsCluster}
use spy_socket.Config.Redirects.{
  check_redirection_loops, check_duplicate_listen_addresses, start_to_set,
}
use spy_socket.Config.Redirects.Apart.{
  Starts, IsReady, start_to_set-Starts, check_duplicate_listen_addresses-ok,
}
use spy_socket.Config.Redirects.Ends.{Shows, AllLeave, check_redirection_loops-Shows}
use spy_socket.Config.Values.{is_valid_ipv4, parse_body_size}
use spy_socket.Config.Values.Ipv4.{IsIpv4, is_valid_ipv4_iff}
use spy_socket.Config.Values.Size.{IsUnit, parse_body_size-units}
use spy_socket.Prelude.Except.{ok, Ensures}
use spy_socket.Tests.{setting, one_server, one_cluster}
use spy_socket.Delete.{perform_delete}
use spy_socket.Delete.Safe.{IsDone, perform_delete-IsDone}
use spy_socket.Location.{get_location}
use spy_socket.Location.{IsBest, get_location-IsBest}
use spy_socket.Parsing.{Parser, Post, parse_ok}
use spy_socket.Parsing.Feed.{feed_data, reset}
use spy_socket.Parsing.Feed.Bounds.{IsBounded, Reach-IsBounded}
use spy_socket.Parsing.Feed.Invariant.{born, fed, restarted, Inv, Reach-Inv}
use spy_socket.Parsing.Headers.{parse_headers}
use spy_socket.Parsing.Methods.{Reads, Waits, parse_start_line-Post, parse_headers-Post}
use spy_socket.Parsing.Start.{parse_start_line}
use spy_socket.Parsing.Uri.{check_uri, normalize_path}
use spy_socket.Parsing.Uri.Normal.{
  IsClean, join, segments, normalize_path-join, normalize_path_idem,
}
use spy_socket.Parsing.Uri.Safe.{IsSafe, check_uri-IsSafe}
use spy_socket.PathSecurity.{is_path_secure, is_path_secure-parent}
use spy_socket.Post.{handle_url_encoded}
use spy_socket.Post.Form.{handle_url_encoded-form}
use spy_socket.Prelude.{
  ◌<◌, ◌^◌, ℕ, inl, ◌↔◌, ◌+◌, ◌-◌, ◌*◌, true, false, List, [], ◌∷◌, ◌++◌, some, ◌≡◌, refl, arith,
  All,
}
use spy_socket.Prelude.Text.{Bytes, codes}
use spy_socket.Tests.{program, env, start, simple_get, chunked_post, site, server, files}
use spy_socket.Time.{Utc, epoch_to_utc}
use spy_socket.Time.Calendar.{epoch_to_utc-IsDate}
use spy_socket.Time.Gregorian.{IsDate, day_number}

Reach-Inv_example : Inv 0 (feed_data env simple_get start).1.parser
Reach-Inv_example = Reach-Inv (fed simple_get (born 0 0 parse_ok fresh))

Reach-IsBounded_example : IsBounded (reset (feed_data env chunked_post start).1).parser
Reach-IsBounded_example = Reach-IsBounded (restarted (fed chunked_post (born 0 0 parse_ok fresh)))

check_uri-IsSafe_example :
    Post
      (λ u q. (q ≡ start.parser) × IsSafe 0 (codes "/a/./b//c?x=1") u)
      (λ _. Unit {0})
      (check_uri 0 (codes "/a/./b//c?x=1") start.parser)
check_uri-IsSafe_example = check_uri-IsSafe 0 (codes "/a/./b//c?x=1") start.parser

abbrev head : Bytes
head = codes "POST / HTTP/1.1\r\nTransfer-Encoding: chunked\r\n\r\n"

abbrev chunks : List Chunk
chunks =
    record { size_line = codes "4"; content = codes "Wiki" }
    ∷ record { size_line = codes "5"; content = codes "pedia" }
    ∷ []

one_digit : (d : ℕ) → d < 16 → IsNumeral (spell d ∷ []) d
one_digit d h = record {
  digits = d ∷ [];
  below = (h, tt);
  some_digit = λ e. cc;
  short = omega arith;
  spelling = refl;
  number_is = omega arith;
  fits = omega arith;
}

refactor_data-encode_example :
    refactor_data env.over [] (head ++ encode chunks (codes "0")) fresh
    ≡ some (turn true (codes "Wikipedia") (record fresh { chunked_complete = true }))
unfolding program
refactor_data-encode_example =
    refactor_data-encode env.over [] head chunks (codes "0")
      (record {
        front = codes "POST / HTTP/1.1\r\nTransfer-Encoding: chunked";
        before = codes "POST / HTTP/1.1\r\n";
        behind = codes "\r\n\r\n";
        ends = refl;
        first = refl;
        announced = refl;
      })
      (
        record { size_is = one_digit 4 (omega arith); not_empty = omega arith },
        (record { size_is = one_digit 5 (omega arith); not_empty = omega arith }, tt),
      )
      (one_digit 0 (omega arith))

refactor_data-total_example : Returns (refactor_data env.over [] chunked_post fresh)
refactor_data-total_example = refactor_data-total env.over [] chunked_post fresh (inl refl)

hex_to_dec-hex_value_example : hex_to_dec (codes "1f") ≡ value 31
unfolding program
hex_to_dec-hex_value_example =
    hex_to_dec-hex_value (codes "1f") (λ e. cc)
      (
        record { not_blank = refl; known = (1, refl) },
        (record { not_blank = refl; known = (15, refl) }, tt),
      )
      (omega arith) (omega arith)

decode_round-invalid_example :
    decode_round env.over []
      (record fresh { reading_size = true; chunk_buffer = codes "A\r\n0123456789\r\n" })
    ≡ again (codes "0123456789\r\n") (record fresh {
      current_chunk_size = size_mod - 1;
      reading_size = true;
      chunk_buffer = codes "123456789\r\n";
    })
unfolding program
decode_round-invalid_example =
    decode_round-invalid env.over [] fresh (codes "A") (codes "0123456789\r\n") (refl, tt) refl
      (omega arith) (omega arith)

normalize_path-join_example :
    (normalize_path (codes "/a/../b") ≡ b'/' ∷ join (segments (codes "/a/../b")))
    × All IsClean (segments (codes "/a/../b"))
normalize_path-join_example = normalize_path-join (codes "/a/../b")

normalize_path_idem_example :
    normalize_path (normalize_path (codes "/a/../b")) ≡ normalize_path (codes "/a/../b")
normalize_path_idem_example = normalize_path_idem (codes "/a/../b")

epoch_to_utc-IsDate_example :
    (t : Utc) × (epoch_to_utc 951827696 ≡ some t)
    × IsDate t
    × (t.year < 2 ^ 31)
    × (((day_number t * 24 + t.hour) * 60 + t.minute) * 60 + t.second ≡ 951827696)
epoch_to_utc-IsDate_example = epoch_to_utc-IsDate 951827696 (omega arith)

abbrev fields : List (Bytes × Bytes)
fields = (codes "name", codes "bob") ∷ (codes "age", codes "7") ∷ []

abbrev posted : Parser
posted = record (start.parser) { body_content = codes "name=bob&age=7" }

handle_url_encoded-form_example : (handle_url_encoded site posted).url_encoded ≡ fields
unfolding program
handle_url_encoded-form_example = handle_url_encoded-form site posted fields refl (
  record {
    key = record { not_empty = refl; no_separator = (refl, (refl, (refl, (refl, tt)))) };
    val = record { not_empty = refl; no_separator = (refl, (refl, (refl, tt))) };
    key_alone = (refl, (refl, (refl, (refl, tt))));
    val_alone = (refl, (refl, (refl, tt)));
  },
  (
    record {
      key = record { not_empty = refl; no_separator = (refl, (refl, (refl, tt))) };
      val = record { not_empty = refl; no_separator = (refl, tt) };
      key_alone = (refl, (refl, (refl, tt)));
      val_alone = (refl, tt);
    },
    tt,
  ),
)

get_location-IsBest_example :
    IsBest (codes "/up/a") server.location ([], site) (get_location site (codes "/up/a") server)
get_location-IsBest_example = get_location-IsBest site (codes "/up/a") server

is_path_secure-parent_example : is_path_secure (codes "a/../b") ≡ false
unfolding program
is_path_secure-parent_example = is_path_secure-parent (codes "a/") (codes "/b") refl refl

perform_delete-IsDone_example :
    IsDone files server (codes "/up/a.txt") (perform_delete files site (codes "/up/a.txt") server)
perform_delete-IsDone_example = perform_delete-IsDone files site (codes "/up/a.txt") server

parse_start_line-Post_example :
    Post (λ _ q. Reads start.parser q) (Waits start.parser) (parse_start_line 0 start.parser)
parse_start_line-Post_example = parse_start_line-Post 0 start.parser

parse_headers-Post_example :
    Post (λ _ q. Reads start.parser q) (Waits start.parser) (parse_headers start.parser)
parse_headers-Post_example = parse_headers-Post start.parser

start_to_set-Starts_example : Starts (IsReady setting) (start_to_set setting (some one_server))
start_to_set-Starts_example = start_to_set-Starts setting (some one_server)

check_redirection_loops-Shows_example :
    Shows (AllLeave one_cluster one_cluster) (check_redirection_loops one_cluster)
check_redirection_loops-Shows_example = check_redirection_loops-Shows one_cluster

check_brackets-IsCluster_example : Ensures (IsCluster setting) (check_brackets setting one_server)
check_brackets-IsCluster_example = check_brackets-IsCluster setting one_server

check_duplicate_listen_addresses-ok_example : check_duplicate_listen_addresses one_cluster ≡ ok tt
unfolding program
check_duplicate_listen_addresses-ok_example =
    check_duplicate_listen_addresses-ok setting one_server one_cluster refl

single_server_config-IsConfig_example : Ensures (IsConfig env.over 0) (
    single_server_config env.over one_server
      (record (new_config setting) { client_max_body_size = 0 }))
unfolding program
single_server_config-IsConfig_example =
    single_server_config-IsConfig env.over 0 one_server
      (record (new_config setting) { client_max_body_size = 0 })
      (record {
        ports_in = tt;
        ports_once = tt;
        host_in = refl;
        pages_in = tt;
        pages_once = tt;
        locations_in = tt;
        size_in = refl;
      })

is_valid_ipv4_iff_example : (is_valid_ipv4 (codes "127.0.0.1") ≡ true) ↔ IsIpv4 (codes "127.0.0.1")
is_valid_ipv4_iff_example = is_valid_ipv4_iff (codes "127.0.0.1")

parse_body_size-units_example : parse_body_size env.over (codes "10Mb") ≡ ok 10485760
unfolding program
parse_body_size-units_example =
    parse_body_size-units env.over (codes "10") (codes "Mb") 1048576 refl refl refl
      (IsUnit.mega refl) (omega arith)
