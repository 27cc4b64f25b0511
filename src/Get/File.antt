-- ===== src/Get/File.antt =====
-- `pathIsFile` of src/Methods/Get.cpp: the response with a file, or with the part of it that a Range
-- header asks for.
pub mod Numbers
pub mod Partial
use spy_socket.Chunked.{digits_of, size_mod}
use spy_socket.Config.{ConfigStruct}
use spy_socket.Disk.{Disk, Node}
use spy_socket.Get.{Host, Client, Outcome, answer, length_error, error_page}
use spy_socket.Get.Index.{get_mime_type}
use spy_socket.Responses.{set_id}
use spy_socket.Prelude.{
  ℕ, ◌+◌, ◌-◌, ◌*◌, ◌%◌, ◌^◌, Bool, true, false, ◌&&◌, ◌||◌, List, [], ◌∷◌, ◌++◌, Option, none,
  some, ltb, leb, ◌==◌, if◌then◌else◌, is_empty, length, take, drop, is_some, not,
}
use spy_socket.Prelude.Text.{Bytes, codes, is_prefix, find, decimal}
use spy_socket.Prelude.Text.Map.{Map, lookup}
use spy_socket.Time.{print_nat, ft_time_format}

-- A value of strtoul with a sign: the largest one if the digits are out of range.
abbrev pub unsigned_of : Bool → ℕ → ℕ
unsigned_of negative n =
    if leb size_mod n then size_mod - 1 else if negative then (size_mod - n) % size_mod else n

-- std::strtoul(s, NULL, 10)
unfoldable pub strtoul : Bytes → ℕ
strtoul [] = 0
strtoul (c ∷ s) =
    let rest = strtoul s in
    if (leb 9 c && leb c 13) || c == b' '
    then rest
    else if c == b'-'
    then unsigned_of true (decimal (digits_of s))
    else if c == b'+'
    then unsigned_of false (decimal (digits_of s))
    else unsigned_of false (decimal (digits_of (c ∷ s)))

-- `rangeStart`, `rangeEnd` and `isPartialContent`
pub record Range : Type 0 where
  pub first : ℕ
  pub last_byte : ℕ
  pub is_partial : Bool

abbrev pub whole : ℕ → Range
whole size = record {
  first = 0;
  last_byte = (size + (size_mod - 1)) % size_mod;
  is_partial = false;
}

-- The numbers of a range; one that is left out is that of the whole file.
unfoldable pub range_spec : ℕ → Bytes → Bytes → Range
range_spec size start stop =
    let a = if is_empty start then 0 else strtoul start in
    let b = if is_empty stop then (size + (size_mod - 1)) % size_mod else strtoul stop in
    record { first = a; last_byte = b; is_partial = ltb a size && ltb b size && leb a b }

unfoldable pub range_header : ℕ → Bytes → Range
range_header size header =
    let spec = drop 6 header in
    if is_prefix (codes "bytes=") header
    then elim (find (codes "-") spec) [
      | none ↦ whole size
      | some i ↦ range_spec size (take i spec) (drop (i + 1) spec)
    ]
    else whole size

unfoldable pub range_of : Map → ℕ → Range
range_of headers size = elim (lookup (codes "range") headers) [
  | none ↦ whole size
  | some header ↦ range_header size header
]

-- The lines of the response that say which bytes it has.
abbrev pub range_lines : ℕ → Range → ℕ → Bytes
range_lines size r read =
    if r.is_partial
    then codes "HTTP/1.1 206 Partial Content\r\nContent-Range: bytes "
      ++ (print_nat r.first
          ++ (codes "-"
              ++ (print_nat ((r.first + read + (size_mod - 1)) % size_mod)
                  ++ (codes "/" ++ (print_nat size ++ codes "\r\n")))))
    else codes "HTTP/1.1 200 OK\r\n"

-- The response behind the read.
unfoldable pub range_response : Host → Bytes → ℕ → Range → Bytes → Bytes
range_response host path size r bytes =
    range_lines size r (length bytes)
    ++ (codes "Date: "
        ++ (ft_time_format host.now.time
            ++ (codes "\r\nServer: SpySocket/1.0\r\n"
                ++ (set_id host.now
                    ++ (codes "Content-Type: "
                        ++ (get_mime_type path
                            ++ (codes "\r\nContent-Length: "
                                ++ (print_nat (length bytes)
                                    ++ (codes
                                          "\r\nAccept-Ranges: bytes\r\nConnection: close\r\n\r\n"
                                        ++ bytes)))))))))

-- The length of `buffer`, which wraps around.
abbrev pub range_length : Range → ℕ
range_length r = (r.last_byte + (size_mod - r.first) + 1) % size_mod

abbrev pub sent : Client → Client
sent client = record client { chunked_sending = true }

-- The branch for a large file or a range, on the text of the file if it opens.
unfoldable pub send_range :
    Host → Disk → ConfigStruct → Client → Bytes → ℕ → Range → Option Bytes → Outcome × Client
send_range host disk config client path size r none = error_page host disk config client 500
send_range host disk config client path size r (some text) =
    if leb (2 ^ 63) (range_length r) then (length_error, client) else (
      answer (range_response host path size r (take (range_length r) (drop r.first text))),
      sent client,
    )

unfoldable pub whole_response : Host → Bytes → Bytes → Bytes
whole_response host path text =
    codes "HTTP/1.1 200 OK \r\nDate: "
    ++ (ft_time_format host.now.time
        ++ (codes "\r\nServer: SpySocket/1.0\r\n"
            ++ (set_id host.now
                ++ (codes "Content-type: "
                    ++ (get_mime_type path
                        ++ (codes "\r\nContent-length: "
                            ++ (print_nat (length text) ++ (codes "\r\n\r\n" ++ text))))))))

unfoldable pub send_whole :
    Host → Disk → ConfigStruct → Client → Bytes → Option Bytes → Outcome × Client
send_whole host disk config client path none = error_page host disk config client 500
send_whole host disk config client path (some text) =
    (answer (whole_response host path text), sent client)

unfoldable pub path_is_file : Host → Disk → ConfigStruct → Map → Client → Bytes → Outcome × Client
path_is_file host disk config headers client path =
    let file = disk path in
    let client' = record client { file_path = path } in
    let r = range_of headers file.size in
    if not (is_some file.kind)
    then error_page host disk config client' 500
    else if ltb (1024 * 1024) file.size || r.is_partial
    then send_range host disk config client' path file.size r file.text
    else send_whole host disk config client' path file.text
