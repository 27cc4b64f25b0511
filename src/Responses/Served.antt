-- ===== src/Responses/Served.antt =====
-- The form of the pages for errors: `GenerateResErr` and `getErrorPageFromConfig`.
use spy_socket.Chunked.{Overflow}
use spy_socket.Config.{ConfigStruct}
use spy_socket.Disk.{Disk}
use spy_socket.Responses.{Now}
use spy_socket.Responses.Chosen.{IsFirst, IsUnusable, config_page-some, config_page-none}
use spy_socket.Responses.Framed.{date_field, server_field, html_field}
use spy_socket.Responses.Framing.{
  IsFramed, id_field, set_id-line, id_field-IsField, date-plain, print_nat-plain, append-plain,
  is_plain,
}
use spy_socket.Responses.Pages.{
  phrase_in, status_messages, get_status_message, get_status_phrase, int_to_string, error_body,
  generate_res_err, config_page, page_response, get_error_page_from_config,
}
use spy_socket.Prelude.{
  ◌⊎◌, All, ℕ, ◌-◌, ◌%◌, ◌^◌, ◌<◌, List, [], ◌∷◌, ◌++◌, ◌≡◌, refl, arith, length, all, true,
  append_assoc, Bool-cases, Option-cases, inl, inr, ltb, ◌==◌, lt→ltb,
}
use spy_socket.Prelude.Text.{Bytes, codes, str_eq, to_lower}
use spy_socket.Time.{print_nat}

abbrev Plain : Bytes → Type 0
Plain s = all is_plain s ≡ true

phrase_in-Plain :
    (table : List (ℕ × Bytes)) (other : Bytes) (code : ℕ)
    → all (λ e. all is_plain e.1) table ≡ true
    → Plain other
    → Plain (phrase_in table other code)
phrase_in-Plain [] other code h o = o
phrase_in-Plain ((c, phrase) ∷ table) other code h o = elim (Bool-cases (code == c)) [
  | inl e ↦ rw e (ground arith)
  | inr e ↦ rw e (phrase_in-Plain table other code (ground arith) o)
]

get_status_phrase-Plain : (code : ℕ) → Plain (get_status_phrase code)
unfolding get_status_phrase
get_status_phrase-Plain code =
    phrase_in-Plain ((409, codes "Conflict") ∷ status_messages) (codes "Unknown Error") code refl
      refl

pub get_status_message-Plain : (code : ℕ) → Plain (get_status_message code)
unfolding get_status_message
get_status_message-Plain code =
    phrase_in-Plain status_messages (codes "Unknown Error") code refl refl

int_to_string-Plain : (n : ℕ) → Plain (int_to_string n)
unfolding int_to_string
int_to_string-Plain n = elim (Bool-cases (ltb (n % 2 ^ 32) (2 ^ 31))) [
  | inl e ↦ rw (int_to_string, e) (print_nat-plain _)
  | inr e ↦ rw (int_to_string, e) (print_nat-plain (2 ^ 32 - n % 2 ^ 32))
]

pub int_to_string-small : (n : ℕ) → n < 2 ^ 31 → int_to_string n ≡ print_nat n
unfolding int_to_string
int_to_string-small n h =
    let whole : n % 2 ^ 32 ≡ n = omega arith in rw (int_to_string, whole, lt→ltb n (2 ^ 31) h) refl

-- The first line of a response.
abbrev pub status_line : ℕ → Bytes → Bytes
status_line code phrase = codes "HTTP/1.1 " ++ (int_to_string code ++ (codes " " ++ phrase))

status_line-Plain : (code : ℕ) (phrase : Bytes) → Plain phrase → Plain (status_line code phrase)
status_line-Plain code phrase h =
    append-plain (int_to_string code) (codes " " ++ phrase) (int_to_string-Plain code) h

generate_res_err-IsFramed :
    (disk : Disk) (now : Now) (code : ℕ)
    → length (error_body disk code) < 2 ^ 31
    → (f : IsFramed (generate_res_err disk now code) (error_body disk code)) × (f.status
        ≡ status_line code (get_status_phrase code))
unfolding generate_res_err get_status_phrase str_eq to_lower
generate_res_err-IsFramed disk now code h =
    let body = error_body disk code in
    (
      record {
        status = status_line code (get_status_phrase code);
        fields =
            html_field
            ∷ (codes "Content-Length", int_to_string (length body))
            ∷ id_field now
            ∷ date_field now
            ∷ server_field
            ∷ (codes "Connection", codes "close")
            ∷ [];
        text_is =
            rw (append_assoc (int_to_string code) (codes " " ++ get_status_phrase code) _)
              (rw (set_id-line now _) refl);
        status_in = status_line-Plain code _ (get_status_phrase-Plain code);
        fields_in = (
          (refl, refl),
          (
            (refl, int_to_string-Plain (length body)),
            (
              id_field-IsField now,
              ((refl, date-plain now.time), ((refl, refl), ((refl, refl), tt))),
            ),
          ),
        );
        length_is = rw (int_to_string-small (length body) h) refl;
      },
      refl,
    )

page_response-IsFramed :
    (code : ℕ) (text : Bytes)
    → (f : IsFramed (page_response code text) text) × (f.status
        ≡ status_line code (get_status_message code))
unfolding page_response get_status_message str_eq to_lower
page_response-IsFramed code text = (
  record {
    status = status_line code (get_status_message code);
    fields =
        (codes "Content-Type", codes "text/html")
        ∷ (codes "Content-Length", print_nat (length text))
        ∷ [];
    text_is = rw (append_assoc (int_to_string code) (codes " " ++ get_status_message code) _) refl;
    status_in = status_line-Plain code _ (get_status_message-Plain code);
    fields_in = ((refl, refl), ((refl, print_nat-plain _), tt));
    length_is = refl;
  },
  refl,
)

-- The response for a code: its text, with the status line and the body that it has to have.
pub record IsErrorPage (over : Overflow) (disk : Disk) (config : ConfigStruct) (code : ℕ)
    (text : Bytes) : Type 0 where
  pub body : Bytes
  pub framed : IsFramed text body
  pub phrase : Bytes
  pub status_is : framed.status ≡ status_line code phrase
  pub body_is :
      (IsFirst over disk config.root code body config.error_page
        × (phrase ≡ get_status_message code))
      ⊎ (All (IsUnusable over disk config.root code) config.error_page
          × (body ≡ error_body disk code)
          × (phrase ≡ get_status_phrase code))

-- Where the default text for a status code is shorter than 2 ^ 31 bytes, the response for that
-- code has a status line with the code and its phrase, fields in lines, an empty line and a body
-- whose length is the Content-Length. The body is the text of the first page of the configuration
-- whose status is the code and which is a plain file that opens, or, where no page is such, the
-- default text.
pub get_error_page_from_config-IsFramed :
    (over : Overflow) (disk : Disk) (now : Now) (config : ConfigStruct) (code : ℕ)
    → length (error_body disk code) < 2 ^ 31
    → IsErrorPage over disk config code (get_error_page_from_config over disk now config code)
unfolding get_error_page_from_config
get_error_page_from_config-IsFramed over disk now config code h =
    elim (Option-cases (config_page over disk config.root code config.error_page)) [
      | inl e ↦
          let (f, s) = generate_res_err-IsFramed disk now code h in
          rw (get_error_page_from_config, e)
            (record {
              body = error_body disk code;
              framed = f;
              phrase = get_status_phrase code;
              status_is = s;
              body_is =
                  inr (config_page-none over disk config.root code config.error_page e, refl, refl);
            })
      | inr (text, e) ↦
          let (f, s) = page_response-IsFramed code text in
          rw (get_error_page_from_config, e)
            (record {
              body = text;
              framed = f;
              phrase = get_status_message code;
              status_is = s;
              body_is =
                  inl (config_page-some over disk config.root code config.error_page text e, refl);
            })
    ]
