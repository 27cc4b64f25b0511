-- ===== src/Get/Index.antt =====
-- `getMimeType`, `generateAutoIndex` and `handleDirectoryWithAutoIndex` of src/Methods/Get.cpp.
use spy_socket.Disk.{Disk, Kind, directory}
use spy_socket.Get.{Host}
use spy_socket.Responses.{set_id}
use spy_socket.Prelude.{
  Bool, true, false, ◌||◌, List, [], ◌∷◌, ◌++◌, Option, none, some, if◌then◌else◌, length, drop,
}
use spy_socket.Prelude.Text.{Bytes, codes, str_eq, find_last}
use spy_socket.Time.{print_nat}

unfoldable pub mime_of : Bytes → Bytes
mime_of ext =
    if str_eq ext (codes ".html") || str_eq ext (codes ".htm")
    then codes "text/html"
    else if str_eq ext (codes ".css")
    then codes "text/css"
    else if str_eq ext (codes ".mp4")
    then codes "video/mp4"
    else if str_eq ext (codes ".js")
    then codes "application/javascript"
    else if str_eq ext (codes ".png")
    then codes "image/png"
    else if str_eq ext (codes ".jpg") || str_eq ext (codes ".jpeg")
    then codes "image/jpeg"
    else if str_eq ext (codes ".gif")
    then codes "image/gif"
    else codes "application/octet-stream"

unfoldable pub get_mime_type : Bytes → Bytes
get_mime_type path = elim (find_last b'.' path) [
  | none ↦ codes "text/html"
  | some i ↦ mime_of (drop i path)
]

abbrev pub no_listing : Bytes
no_listing = codes "<html><body><h1>403 Forbidden</h1></body></html>"

unfoldable pub list_head : Bytes → Bytes
list_head path =
    codes "<!DOCTYPE html>\n<html>\n<head>\n<meta charset=\"UTF-8\">\n"
    ++ (codes "<meta name=\"viewport\" content=\"width=device-width, initial-scale=1.0\">\n"
        ++ (codes "<title>Index of "
            ++ (path
                ++ (codes "</title>\n<style>\n"
                    ++ (codes "body { font-family: Arial, sans-serif; margin: 40px; }\n"
                        ++ (codes "h1 { color: #333; border-bottom: 1px solid #ccc; "
                            ++ (codes "padding-bottom: 10px; }\n"
                                ++ (codes "ul { list-style: none; padding: 0; }\n"
                                    ++ (codes "li { margin: 5px 0; }\n"
                                        ++ (codes "a { text-decoration: none; color: #0066cc; "
                                            ++ (codes "padding: 5px; display: block; }\n"
                                                ++ (codes "a:hover { background-color: #f0f0f0; }\n"
                                                    ++ (codes ".directory { font-weight: bold; }\n"
                                                        ++ (codes "</style>\n</head>\n<body>\n"
                                                            ++ (codes "<h1>Index of "
                                                            ++ (path
                                                            ++ codes "</h1>\n<ul>\n"))))))))))))))))

-- The entry of a name: the flag says whether it is a directory.
unfoldable pub list_entry : Bytes → Bool → Bytes
list_entry name dir =
    let mark = if dir then codes "/" else [] in
    codes "<li><a href=\""
    ++ (name ++ (mark ++ (codes "\">" ++ (name ++ (mark ++ codes "</a></li>\n")))))

-- S_ISDIR(s.st_mode), where `junk` is what the memory of `s` says if stat fails
abbrev pub shows_dir : Bool → Option Kind → Bool
shows_dir junk none = junk
shows_dir junk (some directory) = true
shows_dir junk (some _) = false

unfoldable pub list_entries : Host → Disk → Bytes → List Bytes → Bytes
list_entries host disk path [] = []
list_entries host disk path (name ∷ names) =
    let rest = list_entries host disk path names in
    let full = path ++ (codes "/" ++ name) in
    if str_eq name (codes ".")
    then rest
    else list_entry name (shows_dir (host.stale full) (disk full).kind) ++ rest

unfoldable pub generate_auto_index : Host → Disk → Bytes → Bytes
generate_auto_index host disk path = elim ((disk path).names) [
  | none ↦ no_listing
  | some names ↦
      list_head path ++ (list_entries host disk path names ++ codes "</ul><hr></body></html>\n")
]

unfoldable pub handle_directory_with_auto_index : Host → Disk → Bytes → Bytes
handle_directory_with_auto_index host disk path =
    let listing = generate_auto_index host disk path in
    codes "HTTP/1.1 200 OK\r\n"
    ++ (set_id host.now
        ++ (codes "Content-Type: text/html\r\nContent-Length: "
            ++ (print_nat (length listing) ++ (codes "\r\n\r\n" ++ listing))))
