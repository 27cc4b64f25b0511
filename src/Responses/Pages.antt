-- ===== src/Responses/Pages.antt =====
-- The status lines and the pages for errors: src/utils/RespondError.cpp, and `getStatusMessage` and
-- `getErrorPageFromConfig` of src/POST/messages.cpp, whose text src/Methods/DELETE.cpp, src/Methods/Get.cpp
-- and src/CClient.cpp repeat (the last two also note in `chunkedSending` that a page was made). The
-- lines that `access_error` writes to a log are not modelled.
use spy_socket.Chunked.{Overflow, atoi}
use spy_socket.Config.{ConfigStruct}
use spy_socket.Disk.{Disk, Kind, regular}
use spy_socket.Responses.{Now, set_id}
use spy_socket.Prelude.{
  ℕ, ◌-◌, ◌%◌, ◌^◌, not, ◌&&◌, List, [], ◌∷◌, ◌++◌, Option, none, some, ltb, ◌==◌, if◌then◌else◌,
  is_empty, length, last, get_or, drop,
}
use spy_socket.Prelude.Text.{Bytes, codes, get_lines}
use spy_socket.Time.{print_nat, ft_time_format}

-- The phrase of a code in a table, or the default.
abbrev pub phrase_in : List (ℕ × Bytes) → Bytes → ℕ → Bytes
phrase_in [] other code = other
phrase_in ((c, phrase) ∷ table) other code =
    if code == c then phrase else phrase_in table other code

abbrev pub status_messages : List (ℕ × Bytes)
status_messages =
    (200, codes "OK")
    ∷ (201, codes "Created")
    ∷ (204, codes "No Content")
    ∷ (400, codes "Bad Request")
    ∷ (401, codes "Unauthorized")
    ∷ (403, codes "Forbidden")
    ∷ (404, codes "Not Found")
    ∷ (405, codes "Method Not Allowed")
    ∷ (413, codes "Content Too Large")
    ∷ (414, codes "URI Too Long")
    ∷ (415, codes "Unsupported Media Type")
    ∷ (429, codes "Too Many Requests")
    ∷ (500, codes "Internal Server Error")
    ∷ (501, codes "Not Implemented")
    ∷ (502, codes "Bad Gateway")
    ∷ (503, codes "Service Unavailable")
    ∷ (504, codes "Gateway Timeout")
    ∷ (505, codes "HTTP Version Not Supported")
    ∷ []

unfoldable pub get_status_message : ℕ → Bytes
get_status_message = phrase_in status_messages (codes "Unknown Error")

-- The same table with one more code.
unfoldable pub get_status_phrase : ℕ → Bytes
get_status_phrase = phrase_in ((409, codes "Conflict") ∷ status_messages) (codes "Unknown Error")

abbrev pub default_messages : List (ℕ × Bytes)
default_messages =
    (400, codes "The request could not be understood by the server due to malformed syntax.")
    ∷ (403, codes "The server understood the request, but is refusing to fulfill it.")
    ∷ (404, codes "The requested resource could not be found on this server.")
    ∷ (405, codes "The method specified in the request is not allowed for the resource.")
    ∷ (
      409,
      codes "The request could not be completed due to a conflict with the current state of the "
          ++ codes "resource.",
    )
    ∷ (413, codes "The request entity is larger than limits defined by server.")
    ∷ (414, codes "The request URI is longer than the server can interpret.")
    ∷ (415, codes "The media type is not supported by the server.")
    ∷ (429, codes "Too many requests have been made in a given amount of time.")
    ∷ (
      500,
      codes "The server encountered an internal error and was unable to complete your request.",
    )
    ∷ (501, codes "The server does not support the functionality required to fulfill the request.")
    ∷ (502, codes "The server received an invalid response from the upstream server.")
    ∷ (503, codes "The server is temporarily unable to service your request due to maintenance.")
    ∷ (504, codes "The server did not receive a timely response from the upstream server.")
    ∷ (505, codes "The server does not support the HTTP protocol version used in the request.")
    ∷ []

unfoldable pub get_default_error_message : ℕ → Bytes
get_default_error_message =
    phrase_in default_messages (codes "An error occurred while processing your request.")

-- intToString of a size, which is converted to an `int` of 32 bits first
unfoldable pub int_to_string : ℕ → Bytes
int_to_string n =
    if ltb (n % 2 ^ 32) (2 ^ 31)
    then print_nat (n % 2 ^ 32)
    else b'-' ∷ print_nat (2 ^ 32 - n % 2 ^ 32)

unfoldable pub generate_error_page_html : ℕ → Bytes → Bytes
generate_error_page_html code message =
    codes "<!DOCTYPE html>\n<html>\n<head>\n    <title>"
    ++ (int_to_string code
        ++ (codes " "
            ++ (get_status_phrase code
                ++ (codes "</title>\n</head>\n<body>\n    <h1>"
                    ++ (int_to_string code
                        ++ (codes " "
                            ++ (get_status_phrase code
                                ++ (codes "</h1>\n    <p>"
                                    ++ (message
                                        ++ (codes "</p>\n    <hr>\n    <div>SpySocket</div>\n"
                                            ++ codes "</body>\n</html>\n"))))))))))

abbrev pub error_path : ℕ → Bytes
error_path code = codes "error/" ++ (int_to_string code ++ codes ".html")

-- The lines of a file, each with a line end.
abbrev pub with_ends : List Bytes → Bytes
with_ends [] = []
with_ends (line ∷ lines) = line ++ (codes "\n" ++ with_ends lines)

-- `htmlBody`
unfoldable pub error_body : Disk → ℕ → Bytes
error_body disk code =
    let made = generate_error_page_html code (get_default_error_message code) in
    if not (disk (error_path code)).present then made else elim ((disk (error_path code)).text) [
      | some text ↦ with_ends (get_lines b'\n' text)
      | none ↦ made
    ]

unfoldable pub generate_res_err : Disk → Now → ℕ → Bytes
generate_res_err disk now code =
    codes "HTTP/1.1 "
    ++ (int_to_string code
        ++ (codes " "
            ++ (get_status_phrase code
                ++ (codes "\r\nContent-Type: text/html; charset=UTF-8\r\nContent-Length: "
                    ++ (int_to_string (length (error_body disk code))
                        ++ (codes "\r\n"
                            ++ (set_id now
                                ++ (codes "Date: "
                                    ++ (ft_time_format now.time
                                        ++ (codes "\r\nServer: SpySocket/1.0\r\n"
                                            ++ (codes "Connection: close\r\n\r\n"
                                                ++ error_body disk code)))))))))))

-- `errorPagePath`
unfoldable pub page_path : Bytes → Bytes → Bytes
page_path root page =
    let root' =
      if not (is_empty root) && not (last root 0 == b'/') then root ++ codes "/" else root in
    root' ++ (if get_or page 0 0 == b'/' then drop 1 page else page)

-- The text of a page, if it is a plain file that opens.
abbrev pub plain_text : Option Kind → Option Bytes → Option Bytes
plain_text (some regular) text = text
plain_text _ text = none

abbrev pub or_else : Option Bytes → Option Bytes → Option Bytes
or_else (some text) rest = some text
or_else none rest = rest

-- The loop over the pages of the configuration.
unfoldable pub config_page : Overflow → Disk → Bytes → ℕ → List (Bytes × Bytes) → Option Bytes
config_page over disk root code [] = none
config_page over disk root code ((status, page) ∷ pages) =
    let rest = config_page over disk root code pages in
    let file = disk (page_path root page) in
    if atoi over status == code then or_else (plain_text file.kind file.text) rest else rest

unfoldable pub page_response : ℕ → Bytes → Bytes
page_response code text =
    codes "HTTP/1.1 "
    ++ (int_to_string code
        ++ (codes " "
            ++ (get_status_message code
                ++ (codes "\r\nContent-Type: text/html\r\nContent-Length: "
                    ++ (print_nat (length text) ++ (codes "\r\n\r\n" ++ text))))))

abbrev pub page_or : ℕ → Option Bytes → Bytes → Bytes
page_or code (some text) made = page_response code text
page_or code none made = made

unfoldable pub get_error_page_from_config : Overflow → Disk → Now → ConfigStruct → ℕ → Bytes
get_error_page_from_config over disk now config code =
    page_or code (config_page over disk config.root code config.error_page)
      (generate_res_err disk now code)
