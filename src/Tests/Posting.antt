-- ===== src/Tests/Posting.antt =====
-- Runs of the POST method, and its properties at concrete input.
use spy_socket.Config.{LocationStruct, ConfigStruct}
use spy_socket.Disk.{Disk, directory}
use spy_socket.Parsing.{Parser}
use spy_socket.Post.Method.{post_content, post_method}
use spy_socket.Post.Upload.{
  posted, generate_filename, upload_body, quoted_name, bare_name, upload_name, target_path, save,
  save_part, save_named, save_upload, handle_upload, main_name, main_response,
}
use spy_socket.Post.Upload.Saved.{upload_form, part_text, part_head, handle_upload-form}
use spy_socket.Responses.Pages.{get_error_page_from_config}
use spy_socket.Prelude.{true, [], ◌∷◌, none, some, ◌≡◌, refl, arith, if◌then◌else◌}
use spy_socket.Prelude.Text.{Bytes, codes, str_eq}
use spy_socket.Tests.{env, start, site, server}
use spy_socket.Tests.Serving.{serving, now, missing}

posting : Unit {0}
unfolding serving generate_filename upload_body quoted_name bare_name upload_name target_path save
    save_part save_named save_upload handle_upload main_name main_response post_content post_method
posting = tt

abbrev drop_box : LocationStruct
drop_box = record site {
  allowed_methods = codes "POST" ∷ [];
  upload_enabled = true;
  upload_path = codes "www/up";
}

abbrev boxes : ConfigStruct
boxes = record server { location = (codes "/", drop_box) ∷ [] }

-- A directory for uploads, in which all files can be written.
abbrev store : Disk
store path = record missing {
  kind = if str_eq path (codes "www/up") then some directory else none;
  writable = true;
  keeps = true;
}

abbrev before : Bytes
before = codes "Content-Disposition: form-data; name=\"f\"; "

abbrev form : Bytes
form = upload_form (codes "xyz") (part_text (part_head before (codes "a.txt") []) (codes "hello"))

abbrev sender : Parser
sender = record (start.parser) {
  headers =
      (codes "content-type-value", codes "multipart/form-data")
      ∷ (codes "boundary", codes "xyz")
      ∷ [];
  body_content = form;
}

upload_ok :
    post_method env.over store now site (codes "/a") boxes sender
    ≡ posted
        (get_error_page_from_config env.over store now boxes 201)
        (some (codes "www/up/a.txt", codes "hello\r\n"))
unfolding posting
upload_ok = refl

handle_upload-form_example :
    handle_upload env.over store now drop_box sender boxes
    ≡ posted
        (get_error_page_from_config env.over store now boxes 201)
        (some (codes "www/up/a.txt", codes "hello\r\n"))
unfolding posting
handle_upload-form_example =
    handle_upload-form env.over store now drop_box sender boxes (codes "xyz") before (codes "a.txt")
      [] (codes "hello")
      (record {
        named = refl;
        name_first = refl;
        quote_first = refl;
        head_ends = refl;
        closed = refl;
        fits = omega arith;
      })
      refl refl refl refl refl refl refl
