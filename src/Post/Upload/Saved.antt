-- ===== src/Post/Upload/Saved.antt =====
-- `handle_upload` of src/POST/pwist.cpp on the body that a client makes of a file.
use spy_socket.Chunked.{Overflow}
use spy_socket.Config.{LocationStruct, ConfigStruct}
use spy_socket.Disk.{Disk, directory}
use spy_socket.Parsing.{Parser}
use spy_socket.Post.Upload.{
  posted, minus, delimiter, close_delimiter, upload_body, quoted_name, upload_name, target_path,
  save, save_part, save_named, save_upload, handle_upload,
}
use spy_socket.Responses.{Now}
use spy_socket.Responses.Pages.{get_error_page_from_config}
use spy_socket.Prelude.{
  ℕ, ◌+◌, ◌-◌, ◌<◌, ◌≤◌, ◌^◌, true, false, [], ◌∷◌, ◌++◌, some, ◌≡◌, refl, sym, ap, ◌∙◌, arith,
  length, drop, is_empty, get_or, append_assoc, subst, length-append, take-length-append,
  drop-length-append, ge→ltb, ==_refl, ltb,
}
use Prim.Native.Nat.add
use spy_socket.Prelude.Text.{Bytes, codes, find, find_from, is_prefix}
use spy_socket.Prelude.Text.Find.{find-append}
use spy_socket.Prelude.Text.Map.{lookup}

-- Nothing but the end of `s ++ pat` is the first occurrence of `pat` in it.
abbrev pub Ends : Bytes → Bytes → Type 0
Ends pat s = find pat (s ++ pat) ≡ some (length s)

-- The header of the part with the file, and the text of the part.
abbrev pub part_head : Bytes → Bytes → Bytes → Bytes
part_head before name after =
    before ++ (codes "filename=" ++ (codes "\"" ++ (name ++ (codes "\"" ++ after))))

abbrev pub part_text : Bytes → Bytes → Bytes
part_text head content = head ++ (codes "\r\n\r\n" ++ (content ++ codes "\r\n"))

-- The body of the request: one part between the boundary and its closing form.
abbrev pub form_open : Bytes → Bytes
form_open boundary = codes "--" ++ (boundary ++ codes "\r\n")

abbrev pub upload_form : Bytes → Bytes → Bytes
upload_form boundary text =
    form_open boundary ++ (text ++ (close_delimiter boundary ++ codes "\r\n"))

-- A search finds the end of a text that it is known to end in, whatever follows.
find_end : (pat s rest : Bytes) → Ends pat s → find pat (s ++ (pat ++ rest)) ≡ some (length s)
find_end pat s rest h =
    rw (← append_assoc s pat rest) (find-append pat (s ++ pat) rest (length s) h)

find_from_end :
    (pat a s rest : Bytes)
    → Ends pat s
    → find_from pat (a ++ (s ++ (pat ++ rest))) (length a) ≡ some (length a + length s)
unfolding find_from
find_from_end pat a s rest h =
    rw
      (
        find_from,
        ge→ltb (length (a ++ (s ++ (pat ++ rest)))) (length a)
            (omega (arith, length-append a (s ++ (pat ++ rest)))),
        drop-length-append a (s ++ (pat ++ rest)),
        find_end pat s rest h,
      )
      refl

drop-past : (s t : Bytes) (n : ℕ) → drop (length s + n) (s ++ t) ≡ drop n t
drop-past [] t n = rw add.zero refl
drop-past (c ∷ s) t n = rw add.suc (drop-past s t n)

is_prefix_refl : (s : Bytes) → is_prefix s s ≡ true
unfolding is_prefix
is_prefix_refl [] = refl
is_prefix_refl (c ∷ s) = rw (is_prefix, ==_refl c) (is_prefix_refl s)

Ends-nil : (c : ℕ) (s : Bytes) → Ends (c ∷ s) []
unfolding find
Ends-nil c s = rw (find, is_prefix_refl (c ∷ s)) refl

find_open : (boundary text : Bytes) → find (delimiter boundary) (upload_form boundary text) ≡ some 0
find_open boundary text =
    rw (append_assoc boundary (codes "\r\n") (text ++ (close_delimiter boundary ++ codes "\r\n")))
      (find_end (delimiter boundary) [] _ (Ends-nil b'-' (b'-' ∷ boundary)))

find_close :
    (boundary text : Bytes)
    → Ends (close_delimiter boundary) (form_open boundary ++ text)
    → find_from (close_delimiter boundary) (upload_form boundary text) 0
      ≡ some (length (form_open boundary ++ text))
find_close boundary text h =
    rw (← append_assoc (form_open boundary) text (close_delimiter boundary ++ codes "\r\n")) (
      find_from_end (close_delimiter boundary) [] (form_open boundary ++ text) (codes "\r\n") h
      ∙ ap (λ n. some n) (add.zero (length (form_open boundary ++ text))))

stop_minus :
    (boundary text : Bytes)
    → length (upload_form boundary text) < 2 ^ 63
    → minus (length (form_open boundary ++ text)) (length (form_open boundary)) ≡ length text
stop_minus boundary text l = omega (
  arith,
  length-append (form_open boundary) text,
  length-append (form_open boundary) (text ++ (close_delimiter boundary ++ codes "\r\n")),
  length-append text (close_delimiter boundary ++ codes "\r\n"),
)

-- The text between the boundaries is the text of the part.
upload_body-form :
    (boundary text : Bytes)
    → Ends (close_delimiter boundary) (form_open boundary ++ text)
    → length (upload_form boundary text) < 2 ^ 63
    → upload_body boundary (upload_form boundary text) ≡ some text
unfolding upload_body
upload_body-form boundary text h l =
    let open_len : 0 + length boundary + 4 ≡ length (form_open boundary) =
      omega (arith, length-append boundary (codes "\r\n")) in
    let all_len = length-append (form_open boundary) text in
    rw
      (
        upload_body,
        find_open boundary text,
        find_close boundary text h,
        open_len,
        drop-length-append (form_open boundary)
            (text ++ (close_delimiter boundary ++ codes "\r\n")),
        stop_minus boundary text l,
        take-length-append text (close_delimiter boundary ++ codes "\r\n"),
      )
      refl

get_or-past : (s t : Bytes) (n d : ℕ) → get_or (s ++ t) (length s + n) d ≡ get_or t n d
get_or-past [] t n d = rw add.zero refl
get_or-past (c ∷ s) t n d = rw add.suc (get_or-past s t n d)

-- The name of the file, and what stands behind the header of the part.
quoted_name-form :
    (now : Now) (before name more : Bytes) (n : ℕ)
    → is_empty name ≡ false
    → Ends (codes "\"") name
    → (t : Bytes) → drop n t ≡ name ++ (codes "\"" ++ more)
    → n ≤ length t
    → quoted_name now (before ++ t) (length before + n) ≡ some name
unfolding quoted_name find_from
quoted_name-form now before name more n e q t d l =
    let room : ltb (length (before ++ t)) (length before + n) ≡ false =
      ge→ltb _ _ (omega (arith, length-append before t)) in
    let size : length before + n + length name - (length before + n) ≡ length name = omega arith in
    rw
      (
        quoted_name,
        find_from,
        room,
        drop-past before t n,
        d,
        find_end (codes "\"") name more q,
        size,
        drop-past before t n,
        d,
        take-length-append name (codes "\"" ++ more),
        e,
      )
      refl

upload_name-form :
    (now : Now) (before name more : Bytes)
    → Ends (codes "filename=") before
    → is_empty name ≡ false
    → Ends (codes "\"") name
    → upload_name now
        (before ++ (codes "filename=" ++ (codes "\"" ++ (name ++ (codes "\"" ++ more)))))
      ≡ some name
unfolding upload_name
upload_name-form now before name more b e q =
    let tail = codes "filename=" ++ (codes "\"" ++ (name ++ (codes "\"" ++ more))) in
    rw
      (
        upload_name,
        find_end (codes "filename=") before (codes "\"" ++ (name ++ (codes "\"" ++ more))) b,
        get_or-past before tail 9 0,
      )
      (quoted_name-form now before name more 10 e q tail refl (omega arith))

-- A file in a form: the header of its part is `part_head before name after`.
pub record IsUpload (boundary before name after content : Bytes) : Type 0 where
  pub named : is_empty name ≡ false
  pub name_first : Ends (codes "filename=") before
  pub quote_first : Ends (codes "\"") name
  pub head_ends : Ends (codes "\r\n\r\n") (part_head before name after)
  pub closed :
      Ends
        (close_delimiter boundary)
        (form_open boundary ++ part_text (part_head before name after) content)
  pub fits :
      length (upload_form boundary (part_text (part_head before name after) content)) < 2 ^ 63

upload_name-part :
    (now : Now) (boundary before name after content : Bytes)
    → IsUpload boundary before name after content
    → upload_name now (part_text (part_head before name after) content) ≡ some name
upload_name-part now boundary before name after content u =
    let more = after ++ (codes "\r\n\r\n" ++ (content ++ codes "\r\n")) in
    subst (λ z. upload_name now z ≡ some name)
      (sym (
        append_assoc before (codes "filename=" ++ (codes "\"" ++ (name ++ (codes "\"" ++ after)))) _
        ∙ ap (λ z. before ++ (codes "filename=" ++ (codes "\"" ++ z)))
            (append_assoc name (codes "\"" ++ after) _)))
      (upload_name-form now before name more u.name_first u.named u.quote_first)

-- handle_upload is given a body of one part between the boundary of the parsed headers, in the
-- same case, and its closing form, shorter than 2 ^ 63 bytes; the header of the part names the
-- file in quotes, with a name that is not empty and holds no quote, and none of the texts that
-- end the parts of the body occurs earlier. The location has uploads on and a path for them that
-- is a directory, and the file there opens for writing and takes the text. Then the response is
-- the page for 201, and the text is written to the path for uploads with a '/' and the name as it
-- was sent: it is the content of the file with the line end behind it.
pub handle_upload-form :
    (over : Overflow) (disk : Disk) (now : Now) (location : LocationStruct) (parser : Parser)
    (config : ConfigStruct) (boundary before name after content : Bytes)
    → IsUpload boundary before name after content
    → lookup (codes "boundary") parser.headers ≡ some boundary
    → parser.body_content ≡ upload_form boundary (part_text (part_head before name after) content)
    → location.upload_enabled ≡ true
    → is_empty location.upload_path ≡ false
    → (disk location.upload_path).kind ≡ some directory
    → (disk (location.upload_path ++ (codes "/" ++ name))).writable ≡ true
    → (disk (location.upload_path ++ (codes "/" ++ name))).keeps ≡ true
    → handle_upload over disk now location parser config
      ≡ posted
          (get_error_page_from_config over disk now config 201)
          (some (location.upload_path ++ (codes "/" ++ name), content ++ codes "\r\n"))
unfolding handle_upload save_upload save_named save_part target_path save
handle_upload-form over disk now location parser config boundary before name after content u b r e p
      k w g =
    let head = part_head before name after in
    let text = part_text head content in
    rw
      (
        handle_upload,
        e,
        b,
        p,
        r,
        upload_body-form boundary text u.closed u.fits,
        upload_name-part now boundary before name after content u,
        find_end (codes "\r\n\r\n") head (content ++ codes "\r\n") u.head_ends,
        k,
        w,
        g,
        drop-past head (codes "\r\n\r\n" ++ (content ++ codes "\r\n")) 4,
      )
      refl
