-- ===== src/Get/File/Partial.antt =====
-- `pathIsFile` of src/Methods/Get.cpp on a Range header.
use spy_socket.Chunked.{size_mod}
use spy_socket.Config.{ConfigStruct}
use spy_socket.Disk.{Disk, Kind}
use spy_socket.Get.{Host, Client, answer}
use spy_socket.Get.File.{Range, range_of, range_response, range_length, send_range, path_is_file}
use spy_socket.Get.File.Numbers.{range_value, range_of-numbers}
use spy_socket.Get.Index.{mime_of, get_mime_type}
use spy_socket.Responses.Framed.{date_field, server_field}
use spy_socket.Responses.Framing.{
  IsFramed, id_field, set_id-line, id_field-IsField, date-plain, print_nat-plain, append-plain,
  is_plain,
}
use spy_socket.Prelude.{
  ℕ, ◌+◌, ◌-◌, ◌%◌, ◌^◌, ◌<◌, ◌≤◌, Bool, true, false, [], ◌∷◌, ◌++◌, some, ◌≡◌, refl, arith, leb,
  length, take, drop, all, get_elem?, append_assoc, length-take, length-drop, subst, ◌||◌,
}
use spy_socket.Prelude.Text.{Bytes, codes, str_eq, to_lower}
use spy_socket.Prelude.Text.Map.{Map, lookup}
use spy_socket.Time.{print_nat}

get_mime_type-plain : (path : Bytes) → all is_plain (get_mime_type path) ≡ true
unfolding get_mime_type mime_of
get_mime_type-plain path = ground arith

-- The first field of the response with a part of a file.
abbrev pub content_range : ℕ → Range → ℕ → Bytes
content_range size r read =
    codes "bytes "
    ++ (print_nat r.first
        ++ (codes "-"
            ++ (print_nat ((r.first + read + (size_mod - 1)) % size_mod)
                ++ (codes "/" ++ print_nat size))))

content_range-plain :
    (size : ℕ) (r : Range) (read : ℕ) → all is_plain (content_range size r read) ≡ true
content_range-plain size r read = append-plain (print_nat r.first) _ (print_nat-plain r.first) (
    append-plain (print_nat ((r.first + read + (size_mod - 1)) % size_mod)) _
      (print_nat-plain ((r.first + read + (size_mod - 1)) % size_mod)) (print_nat-plain size))

-- A response with the part of a file: its first line, its first field and its body.
pub record IsPartial (response status range body : Bytes) : Type 0 where
  pub framed : IsFramed response body
  pub status_is : framed.status ≡ status
  pub range_is : get_elem? framed.fields 0 ≡ some (codes "Content-Range", range)

range_response-IsPartial :
    (host : Host) (path : Bytes) (size : ℕ) (r : Range) (bytes : Bytes)
    → r.is_partial ≡ true
    → IsPartial
        (range_response host path size r bytes)
        (codes "HTTP/1.1 206 Partial Content")
        (content_range size r (length bytes))
        bytes
unfolding range_response str_eq to_lower
range_response-IsPartial host path size r bytes h = record {
  framed = record {
    status = codes "HTTP/1.1 206 Partial Content";
    fields =
        (codes "Content-Range", content_range size r (length bytes))
        ∷ date_field host.now
        ∷ server_field
        ∷ id_field host.now
        ∷ (codes "Content-Type", get_mime_type path)
        ∷ (codes "Content-Length", print_nat (length bytes))
        ∷ (codes "Accept-Ranges", codes "bytes")
        ∷ (codes "Connection", codes "close")
        ∷ [];
    text_is = rw (range_response, h, set_id-line host.now _) (simp append_assoc);
    status_in = refl;
    fields_in = (
      (refl, content_range-plain size r (length bytes)),
      (
        (refl, date-plain host.now.time),
        (
          (refl, refl),
          (
            id_field-IsField host.now,
            (
              (refl, get_mime_type-plain path),
              ((refl, print_nat-plain _), ((refl, refl), ((refl, refl), tt))),
            ),
          ),
        ),
      ),
    );
    length_is = refl;
  };
  status_is = refl;
  range_is = refl;
}

abbrev pub part : ℕ → ℕ → Bytes → Bytes
part a b text = take (b + 1 - a) (drop a text)

or-true : (x : Bool) → (x || true) ≡ true
or-true true = refl
or-true false = refl

ge→leb : (a b : ℕ) → b < a → leb a b ≡ false
ge→leb a b h = ground arith

-- The position of the last byte of the part.
last_sent :
    (a b : ℕ) (text : Bytes)
    → a ≤ b
    → b < length text
    → length text < 2 ^ 63
    → (a + length (part a b text) + (size_mod - 1)) % size_mod ≡ b
last_sent a b text le lt l =
    omega (arith, length-take (b + 1 - a) (drop a text), length-drop a text)

le→leb : (a b : ℕ) → a ≤ b → leb a b ≡ true
le→leb a b h = ground arith

-- Where the parsed headers map range to bytes=a-b, with a at most b and b within a file that
-- opens and whose length is what stat says and below 2 ^ 63, pathIsFile answers 206 with just the
-- bytes from a to b, their number as the Content-Length, and a Content-Range with a, b and the
-- size. (parse_headers keeps no Range header, so only a directive of a Content-Type puts that key
-- there.)
pub path_is_file-IsPartial :
    (host : Host) (disk : Disk) (config : ConfigStruct) (headers : Map) (client : Client)
    (path text : Bytes) (kind : Kind) (a b : ℕ)
    → (disk path).kind ≡ some kind
    → (disk path).text ≡ some text
    → (disk path).size ≡ length text
    → length text < 2 ^ 63
    → lookup (codes "range") headers ≡ some (range_value a b)
    → a ≤ b
    → b < length text
    → (response : Bytes) × ((path_is_file host disk config headers client path).0 ≡ answer response)
      × IsPartial response
          (codes "HTTP/1.1 206 Partial Content")
          (codes "bytes "
            ++ (print_nat a
                ++ (codes "-" ++ (print_nat b ++ (codes "/" ++ print_nat (length text))))))
          (part a b text)
unfolding path_is_file send_range
path_is_file-IsPartial host disk config headers client path text kind a b k t s l r le lt =
    let range : Range = record { first = a; last_byte = b; is_partial = true } in
    let p : range_of headers (length text) ≡ range =
      rw (range_of-numbers headers (length text) a b r (omega arith) (omega arith) (omega arith))
        (ground arith) in
    let n : range_length range ≡ b + 1 - a = omega arith in
    (
      range_response host path (length text) range (part a b text),
      rw
          (
            path_is_file,
            send_range,
            k,
            t,
            s,
            p,
            or-true,
            n,
            ge→leb (2 ^ 63) (b + 1 - a) (omega arith),
          )
          refl,
      subst
          (λ z.
            IsPartial (range_response host path (length text) range (part a b text))
              (codes "HTTP/1.1 206 Partial Content")
              (codes "bytes "
                ++ (print_nat a
                    ++ (codes "-" ++ (print_nat z ++ (codes "/" ++ print_nat (length text))))))
              (part a b text))
          (last_sent a b text le lt l)
          (range_response-IsPartial host path (length text) range (part a b text) refl),
    )
