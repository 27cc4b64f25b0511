-- ===== src/Responses/Framed.antt =====
-- The responses of src/POST/messages.cpp and of the DELETE method, and their form.
use spy_socket.Location.{Location}
use spy_socket.Responses.{
  Now, not_found, not_found_page, internal_error, internal_page, ok_200, created_success,
  created_page, handle_not_allowed, not_allowed_page, comma_separated,
}
use spy_socket.Responses.Framing.{
  value_of, Field, IsFramed, id_field, set_id-line, id_field-IsField, date-plain, print_nat-plain,
  append-plain, is_plain,
}
use spy_socket.Prelude.{
  some, none, List, [], ◌∷◌, ◌++◌, ◌≡◌, refl, length, all, All, true, append_assoc,
}
use spy_socket.Prelude.Text.{Bytes, codes, str_eq, to_lower}
use spy_socket.Time.{print_nat, print_loop, ft_time_format}

abbrev pub date_field : Now → Field
date_field now = (codes "Date", ft_time_format now.time)

abbrev pub server_field : Field
server_field = (codes "Server", codes "SpySocket/1.0")

abbrev pub html_field : Field
html_field = (codes "Content-Type", codes "text/html; charset=UTF-8")

abbrev length_field : Bytes → Field
length_field body = (codes "Content-Length", print_nat (length body))

ok_200-IsFramed : (now : Now) (body : Bytes) → IsFramed (ok_200 now body) body
unfolding ok_200 str_eq to_lower
ok_200-IsFramed now body = record {
  status = codes "HTTP/1.1 200 OK";
  fields =
      date_field now
      ∷ server_field
      ∷ html_field
      ∷ length_field body
      ∷ (codes "Connection", codes "close")
      ∷ id_field now
      ∷ [];
  text_is = rw (set_id-line now (codes "\r\n" ++ body)) refl;
  status_in = refl;
  fields_in = (
    (refl, date-plain now.time),
    (
      (refl, refl),
      ((refl, refl), ((refl, print_nat-plain _), ((refl, refl), (id_field-IsField now, tt)))),
    ),
  );
  length_is = refl;
}

not_found-IsFramed : (now : Now) → IsFramed (not_found now) not_found_page
unfolding not_found str_eq to_lower print_nat print_loop
not_found-IsFramed now = record {
  status = codes "HTTP/1.1 404 Not Found";
  fields =
      (codes "Content-Type", codes "text/html")
      ∷ (codes "Content-Length", codes "48")
      ∷ date_field now
      ∷ server_field
      ∷ id_field now
      ∷ [];
  text_is = rw (set_id-line now (codes "\r\n" ++ not_found_page)) refl;
  status_in = refl;
  fields_in = (
    (refl, refl),
    ((refl, refl), ((refl, date-plain now.time), ((refl, refl), (id_field-IsField now, tt)))),
  );
  length_is = refl;
}

internal_error-IsFramed : (now : Now) → IsFramed (internal_error now) internal_page
unfolding internal_error str_eq to_lower print_nat print_loop
internal_error-IsFramed now = record {
  status = codes "HTTP/1.1 500 Internal Server Error";
  fields =
      html_field
      ∷ (codes "Content-Length", codes "164")
      ∷ (codes "Connection", codes "close")
      ∷ date_field now
      ∷ server_field
      ∷ id_field now
      ∷ [];
  text_is = rw (set_id-line now (codes "\r\n" ++ internal_page)) refl;
  status_in = refl;
  fields_in = (
    (refl, refl),
    (
      (refl, refl),
      ((refl, refl), ((refl, date-plain now.time), ((refl, refl), (id_field-IsField now, tt)))),
    ),
  );
  length_is = refl;
}

created_success-IsFramed : (now : Now) → IsFramed (created_success now) created_page
unfolding created_success str_eq to_lower print_nat print_loop
created_success-IsFramed now = record {
  status = codes "HTTP/1.1 201 Created";
  fields =
      html_field
      ∷ (codes "Content-Length", codes "142")
      ∷ (codes "Connection", codes "keep-alive")
      ∷ (codes "Date", ft_time_format now.time ++ codes "Server: SpySocket/1.0")
      ∷ id_field now
      ∷ [];
  text_is =
      rw (set_id-line now (codes "\r\n" ++ created_page))
        (rw (append_assoc (ft_time_format now.time) (codes "Server: SpySocket/1.0") _) refl);
  status_in = refl;
  fields_in = (
    (refl, refl),
    (
      (refl, refl),
      (
        (refl, refl),
        (
          (
            refl,
            append-plain (ft_time_format now.time) (codes "Server: SpySocket/1.0")
                (date-plain now.time) refl,
          ),
          (id_field-IsField now, tt),
        ),
      ),
    ),
  );
  length_is = refl;
}

comma_separated-plain :
    (ms : List Bytes)
    → All (λ m. all is_plain m ≡ true) ms
    → all is_plain (comma_separated ms) ≡ true
comma_separated-plain [] h = refl
comma_separated-plain (m ∷ []) h = h.0
comma_separated-plain (m ∷ n ∷ ms) h = append-plain m _ h.0 (comma_separated-plain (n ∷ ms) h.1)

handle_not_allowed-IsFramed :
    (now : Now) (l : Location)
    → All (λ m. all is_plain m ≡ true) l.1.allowed_methods
    → IsFramed (handle_not_allowed now l) not_allowed_page
unfolding handle_not_allowed str_eq to_lower
handle_not_allowed-IsFramed now l h = record {
  status = codes "HTTP/1.1 405 Method Not Allowed";
  fields =
      (codes "Allow", comma_separated l.1.allowed_methods)
      ∷ (codes "Content-Type", codes "text/html")
      ∷ length_field not_allowed_page
      ∷ date_field now
      ∷ server_field
      ∷ id_field now
      ∷ [];
  text_is = rw (set_id-line now (codes "\r\n" ++ not_allowed_page)) refl;
  status_in = refl;
  fields_in = (
    (refl, comma_separated-plain l.1.allowed_methods h),
    (
      (refl, refl),
      (
        (refl, print_nat-plain _),
        ((refl, date-plain now.time), ((refl, refl), (id_field-IsField now, tt))),
      ),
    ),
  );
  length_is = refl;
}

-- A date and the name of the server, each in a field of its own.
abbrev pub IsDated : Now → List Field → Type 0
IsDated now fields =
    (value_of (codes "date") fields ≡ some (ft_time_format now.time))
    × (value_of (codes "server") fields ≡ some (codes "SpySocket/1.0"))

-- A response with its body, date and server.
abbrev pub IsResponse : Now → Bytes → Bytes → Type 0
IsResponse now text body = (f : IsFramed text body) × IsDated now f.fields

ok_200-IsResponse : (now : Now) (body : Bytes) → IsResponse now (ok_200 now body) body
unfolding str_eq to_lower ok_200-IsFramed
ok_200-IsResponse now body = (ok_200-IsFramed now body, (refl, refl))

not_found-IsResponse : (now : Now) → IsResponse now (not_found now) not_found_page
unfolding str_eq to_lower not_found-IsFramed
not_found-IsResponse now = (not_found-IsFramed now, (refl, refl))

internal_error-IsResponse : (now : Now) → IsResponse now (internal_error now) internal_page
unfolding str_eq to_lower internal_error-IsFramed
internal_error-IsResponse now = (internal_error-IsFramed now, (refl, refl))

handle_not_allowed-IsResponse :
    (now : Now) (l : Location)
    → All (λ m. all is_plain m ≡ true) l.1.allowed_methods
    → IsResponse now (handle_not_allowed now l) not_allowed_page
unfolding str_eq to_lower handle_not_allowed-IsFramed
handle_not_allowed-IsResponse now l h = (handle_not_allowed-IsFramed now l h, (refl, refl))

created_success-lost :
    (now : Now)
    → (f : IsFramed (created_success now) created_page) × (value_of (codes "date") f.fields
        ≡ some (ft_time_format now.time ++ codes "Server: SpySocket/1.0"))
      × (value_of (codes "server") f.fields ≡ none)
unfolding str_eq to_lower created_success-IsFramed
created_success-lost now = (created_success-IsFramed now, refl, refl)

-- Where the methods of the location hold no line end, OK_200, notFound, internal_error and
-- handle_notAllowed give a status line, fields in lines, an empty line and a body whose length is
-- the Content-Length, with the date in a Date field and the name of the server in a Server field.
-- created_success does so but for the line end behind the date: its Date field is the date with
-- the text of the Server field behind it, and there is no Server field.
pub responses-IsFramed :
    (now : Now) (body : Bytes) (l : Location)
    → All (λ m. all is_plain m ≡ true) l.1.allowed_methods
    → IsResponse now (ok_200 now body) body
      × IsResponse now (not_found now) not_found_page
      × IsResponse now (internal_error now) internal_page
      × IsResponse now (handle_not_allowed now l) not_allowed_page
      × ((f : IsFramed (created_success now) created_page) × (value_of (codes "date") f.fields
            ≡ some (ft_time_format now.time ++ codes "Server: SpySocket/1.0"))
          × (value_of (codes "server") f.fields ≡ none))
responses-IsFramed now body l h = (
  ok_200-IsResponse now body,
  not_found-IsResponse now,
  internal_error-IsResponse now,
  handle_not_allowed-IsResponse now l h,
  created_success-lost now,
)
