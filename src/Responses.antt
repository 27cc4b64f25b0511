-- ===== src/Responses.antt =====
-- The texts of responses: src/utils/CookieManager.cpp, and the functions of src/POST/messages.cpp and
-- of src/Methods/DELETE.cpp that write one. The Date is that of `ft_time_format`, on the time that the
-- system gives. Output to the terminal is not modelled.
pub mod Framing
pub mod Framed
pub mod Pages
pub mod Chosen
pub mod Served
use spy_socket.Config.{LocationStruct}
use spy_socket.Location.{Location}
use spy_socket.Prelude.{ℕ, ◌+◌, ◌%◌, List, [], ◌∷◌, ◌++◌, Option, none, some, length, if◌then◌else◌}
use spy_socket.Prelude.Text.{Bytes, codes, str_eq}
use spy_socket.Time.{print_nat, ft_time_format}

-- What the system gives while a response is written: the time, and the number of std::rand.
pub record Now : Type 0 where
  pub time : Option ℕ
  pub random : ℕ

unfoldable pub generate_simple_id : Now → Bytes
generate_simple_id now = print_nat (now.random % 900000 + 100000)

unfoldable pub generate_set_cookie_header : Bytes → Bytes → Bytes
generate_set_cookie_header name value =
    codes "Set-Cookie: " ++ (name ++ (codes "=" ++ (value ++ codes "; Path=/\r\n")))

abbrev pub set_id : Now → Bytes
set_id now = generate_set_cookie_header (codes "id") (generate_simple_id now)

abbrev pub first_return : LocationStruct → Bytes × Bytes
first_return l = elim (l.returns) [ [] ↦ ([], []) | r ∷ _ ↦ r ]

unfoldable pub redirect_message : Bytes → Bytes
redirect_message status =
    if str_eq status (codes "301")
    then codes "Moved Permanently"
    else if str_eq status (codes "302")
    then codes "Found"
    else if str_eq status (codes "307")
    then codes "Temporary Redirect"
    else if str_eq status (codes "308")
    then codes "Permanent Redirect"
    else codes "Redirect"

-- The location has a redirect: the two callers test that.
unfoldable pub handle_redirect : Now → Location → Bytes
handle_redirect now location =
    codes "HTTP/1.1 "
    ++ ((first_return location.1).0
        ++ (codes " "
            ++ (redirect_message (first_return location.1).0
                ++ (codes "\r\nLocation: "
                    ++ ((first_return location.1).1
                        ++ (codes "\r\nContent-Length: 0\r\nDate: "
                            ++ (ft_time_format now.time
                                ++ (codes "\r\nServer: SpySocket/1.0\r\n"
                                    ++ (set_id now ++ codes "\r\n")))))))))

abbrev pub comma_separated : List Bytes → Bytes
comma_separated [] = []
comma_separated (m ∷ []) = m
comma_separated (m ∷ n ∷ ms) = m ++ (codes ", " ++ comma_separated (n ∷ ms))

abbrev pub not_allowed_page : Bytes
not_allowed_page = codes "<html><body><h1>405 Method Not Allowed</h1></body></html>"

-- The methods in the order of the set, which is that of the list here.
unfoldable pub handle_not_allowed : Now → Location → Bytes
handle_not_allowed now location =
    codes "HTTP/1.1 405 Method Not Allowed\r\nAllow: "
    ++ (comma_separated location.1.allowed_methods
        ++ (codes "\r\nContent-Type: text/html\r\nContent-Length: "
            ++ (print_nat (length not_allowed_page)
                ++ (codes "\r\nDate: "
                    ++ (ft_time_format now.time
                        ++ (codes "\r\nServer: SpySocket/1.0\r\n"
                            ++ (set_id now ++ (codes "\r\n" ++ not_allowed_page))))))))

-- The end of the responses below, from their Date on.
abbrev dated : Now → Bytes → Bytes
dated now body =
    codes "Date: "
    ++ (ft_time_format now.time
        ++ (codes "\r\nServer: SpySocket/1.0\r\n" ++ (set_id now ++ (codes "\r\n" ++ body))))

abbrev pub not_found_page : Bytes
not_found_page = codes "<html><body><h1>404 Not Found</h1></body></html>"

unfoldable pub not_found : Now → Bytes
not_found now =
    codes "HTTP/1.1 404 Not Found\r\nContent-Type: text/html\r\nContent-Length: 48\r\n"
    ++ dated now not_found_page

abbrev pub bad_request_page : Bytes
bad_request_page =
    codes "<!DOCTYPE html>\n<html>\n<head><title>400 Bad Request</title></head>\n"
    ++ codes "<body><h1>400 Bad Request</h1><p>Your request is invalid.</p></body>\n</html>\n"

unfoldable pub bad_request : Now → Bytes
bad_request now =
    codes "HTTP/1.1 400 Bad Request\r\nContent-Type: text/html; charset=UTF-8\r\n"
    ++ (codes "Content-Length: 113\r\nConnection: close\r\n" ++ dated now bad_request_page)

abbrev pub forbidden_page : Bytes
forbidden_page =
    codes "<html><head><title>403 Forbidden</title></head><body><h1>Forbidden</h1>"
    ++ codes "<p>You don't have permission to access this resource.</p></body></html>"

unfoldable pub forbidden_403 : Now → Bytes
forbidden_403 now =
    codes "HTTP/1.1 403 Forbidden\r\nContent-Type: text/html\r\nContent-Length: 112\r\n"
    ++ (codes "Connection: close\r\n" ++ dated now forbidden_page)

abbrev pub internal_page : Bytes
internal_page =
    codes "<!DOCTYPE html>\n<html>\n<head><title>500 Internal Server Error</title></head>\n"
    ++ codes "<body><h1>500 Internal Server Error</h1><p>Unexpected server error.</p></body>\n"
    ++ codes "</html>\n"

unfoldable pub internal_error : Now → Bytes
internal_error now =
    codes "HTTP/1.1 500 Internal Server Error\r\nContent-Type: text/html; charset=UTF-8\r\n"
    ++ (codes "Content-Length: 164\r\nConnection: close\r\n" ++ dated now internal_page)

abbrev pub created_page : Bytes
created_page =
    codes "<!DOCTYPE html>\n<html>\n<head><title>201 Created</title></head>\n"
    ++ codes "<body><h1>201 Created</h1><p>Resource created successfully.</p></body>\n</html>\n"

-- No line end stands behind the Date.
unfoldable pub created_success : Now → Bytes
created_success now =
    codes "HTTP/1.1 201 Created\r\nContent-Type: text/html; charset=UTF-8\r\n"
    ++ (codes "Content-Length: 142\r\nConnection: keep-alive\r\nDate: "
        ++ (ft_time_format now.time
            ++ (codes "Server: SpySocket/1.0\r\n"
                ++ (set_id now ++ (codes "\r\n" ++ created_page)))))

unfoldable pub ok_200 : Now → Bytes → Bytes
ok_200 now body =
    codes "HTTP/1.1 200 OK\r\nDate: "
    ++ (ft_time_format now.time
        ++ (codes "\r\nServer: SpySocket/1.0\r\nContent-Type: text/html; charset=UTF-8\r\n"
            ++ (codes "Content-Length: "
                ++ (print_nat (length body)
                    ++ (codes "\r\nConnection: close\r\n"
                        ++ (set_id now ++ (codes "\r\n" ++ body)))))))

-- generate_success_resp
unfoldable pub generate_success_resp : Now → Bytes
generate_success_resp now =
    codes "HTTP/1.1 204 No Content\r\nDate: "
    ++ (ft_time_format now.time
        ++ (codes "\r\nServer: SpySocket/1.0\r\nConnection: close\r\n"
            ++ (set_id now ++ codes "\r\n")))
