-- ===== src/Post/Method.antt =====
-- `postMethod` of src/POST/pwist.cpp: the choice of what a POST request does.
use spy_socket.Chunked.{Overflow}
use spy_socket.Config.{LocationStruct, ConfigStruct}
use spy_socket.Delete.{allows}
use spy_socket.Disk.{Disk}
use spy_socket.Location.{get_location}
use spy_socket.Parsing.{Parser}
use spy_socket.Post.Upload.{Posted, posted, page, handle_upload, main_response}
use spy_socket.Responses.{Now, handle_redirect}
use spy_socket.Prelude.{not, none, if◌then◌else◌, is_empty}
use spy_socket.Prelude.Text.{Bytes, codes, str_eq}
use spy_socket.Prelude.Text.Map.{at_or_empty}

-- The choice by the media type. `handle_url_encoded` changes the copy of the location that this function
-- holds, which nothing reads afterwards, and answers 200.
unfoldable pub post_content :
    Overflow → Disk → Now → LocationStruct → Parser → ConfigStruct → Posted
post_content over disk now location parser config =
    let content_type = at_or_empty (codes "content-type-value") parser.headers in
    if str_eq content_type (codes "multipart/form-data")
    then handle_upload over disk now location parser config
    else if str_eq content_type (codes "application/x-www-form-urlencoded")
    then page over disk now config 200
    else main_response over disk now location parser config

-- `unset` is what get_location leaves in a location that it does not find.
unfoldable pub post_method :
    Overflow → Disk → Now → LocationStruct → Bytes → ConfigStruct → Parser → Posted
post_method over disk now unset uri config parser =
    let location = get_location unset uri config in
    if is_empty location.0
    then page over disk now config 404
    else if not (is_empty location.1.returns)
    then posted (handle_redirect now location) none
    else if not (allows (codes "POST") location.1.allowed_methods)
    then page over disk now config 405
    else post_content over disk now location.1 parser config
