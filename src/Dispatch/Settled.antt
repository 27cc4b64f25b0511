-- ===== src/Dispatch/Settled.antt =====
-- The end of a script's process: `HandleCGIMethod` of src/CClient.cpp, which src/server.cpp calls until
-- its response is not empty.
use spy_socket.Cgi.{
  is_cgi_timeout, Cgi, read_output, take_reading, Reading, bytes, end_of_file, would_block, broken,
}
use spy_socket.Chunked.{Overflow}
use spy_socket.Config.{ConfigStruct}
use spy_socket.Disk.{Disk}
use spy_socket.Dispatch.{World, CClient, client_page, format_cgi_response, dropped}
use spy_socket.Dispatch.Relay.{format_output, split_output, relay}
use spy_socket.Dispatch.Running.{
  cgi_timeout, Poll, Wait, failed, ended, running, read_loop, looks_whole, settle, limit, is_ended,
  go_on, with_handler, handle_cgi_method,
}
use spy_socket.Responses.{Now}
use spy_socket.Responses.Pages.{
  get_error_page_from_config, config_page, generate_res_err, page_response,
}
use spy_socket.Prelude.{
  ℕ, zero, suc, true, false, not, ◌&&◌, List, [], ◌∷◌, Option, none, some, ◌≡◌, refl, ◌⊎◌, ◌∙◌,
  subst, inl, inr, Bool-cases, Option-cases, is_empty, is_some,
}
use spy_socket.Prelude.Text.{Bytes}

-- Either there is no response yet, and the client still has its process, or there is one, and the
-- client has none.
pub record Waits (c : CClient) (pid : Option ℕ) (r : Bytes × CClient) : Type 0 where
  pub no_text : r.0 ≡ []
  pub cgi : Cgi
  pub handler_is : r.1.cgi_handler ≡ some cgi
  pub pid_is : cgi.cgi_pid ≡ pid
  pub still_is : r.1.is_cgi_request ≡ c.is_cgi_request

pub record Settled (r : Bytes × CClient) : Type 0 where
  pub has_text : is_empty r.0 ≡ false
  pub no_handler : r.1.cgi_handler ≡ none
  pub no_cgi : r.1.is_cgi_request ≡ false

error_page-some :
    (over : Overflow) (disk : Disk) (now : Now) (config : ConfigStruct) (code : ℕ)
    → is_empty (get_error_page_from_config over disk now config code) ≡ false
unfolding get_error_page_from_config generate_res_err page_response
error_page-some over disk now config code =
    elim (Option-cases (config_page over disk config.root code config.error_page)) [
      | inl e ↦ rw (get_error_page_from_config, e) refl
      | inr (text, e) ↦ rw (get_error_page_from_config, e) refl
    ]

client_page-Settled :
    (w : World) (c : CClient) (code : ℕ) → Settled (client_page w (dropped c) code)
unfolding client_page
client_page-Settled w c code = record {
  has_text = error_page-some _ _ _ _ _;
  no_handler = refl;
  no_cgi = refl;
}

formatted-Settled :
    (w : World) (c : CClient) (output : Bytes) → Settled (format_cgi_response w (dropped c) output)
unfolding format_cgi_response format_output relay
formatted-Settled w c output = elim (Bool-cases (is_empty output)) [
  | inl e ↦ rw (format_cgi_response, format_output, e) (client_page-Settled w c 500)
  | inr e ↦ elim (Option-cases (split_output output)) [
    | inl f ↦ rw (format_cgi_response, format_output, e, f) (client_page-Settled w c 500)
    | inr ((headers, body), f) ↦
        rw (format_cgi_response, format_output, e, f)
          (record { has_text = refl; no_handler = refl; no_cgi = refl })
  ]
]

settle-Settled : (w : World) (c : CClient) (cgi : Cgi) → Settled (settle w c cgi)
unfolding settle
settle-Settled w c cgi = formatted-Settled w c cgi.output_buffer

pub read_output-pid : (cgi : Cgi) (r : Reading) → (read_output cgi r).1.cgi_pid ≡ cgi.cgi_pid
unfolding read_output take_reading
read_output-pid cgi r = elim (Bool-cases (is_some cgi.cgi_fd)) [
  | inr e ↦ rw (read_output, e) refl
  | inl e ↦ rw (read_output, e) (go r)
]
  where
    go : (r : Reading) → (take_reading cgi r).1.cgi_pid ≡ cgi.cgi_pid
    go (bytes s) = refl
    go end_of_file = refl
    go would_block = refl
    go broken = refl

read_loop-pid : (n : ℕ) (rs : List Reading) (cgi : Cgi) → (read_loop n rs cgi).cgi_pid ≡ cgi.cgi_pid
unfolding read_loop
read_loop-pid n [] cgi = read_output-pid cgi would_block
read_loop-pid zero (r ∷ rs) cgi = read_output-pid cgi r
read_loop-pid (suc n) (r ∷ rs) cgi = elim (Bool-cases (read_output cgi r).0) [
  | inl e ↦ rw (read_loop, e) (read_loop-pid n rs (read_output cgi r).1 ∙ read_output-pid cgi r)
  | inr e ↦ rw (read_loop, e) (read_output-pid cgi r)
]

go_on-ends :
    (w : World) (poll : Poll) (c : CClient) (cgi : Cgi)
    → Waits c cgi.cgi_pid (go_on w poll c cgi) ⊎ Settled (go_on w poll c cgi)
unfolding go_on
go_on-ends w poll c cgi = elim (Bool-cases (is_ended poll.second)) [
  | inl e ↦ rw (go_on, e) (inr (settle-Settled w c _))
  | inr e ↦ elim (Bool-cases (not (is_some cgi.cgi_fd) && not (is_empty cgi.output_buffer))) [
    | inl f ↦ rw (go_on, e, f) (inr (settle-Settled w c cgi))
    | inr f ↦ elim (Bool-cases (looks_whole cgi.output_buffer)) [
      | inl g ↦ rw (go_on, e, f, g) (inr (settle-Settled w c cgi))
      | inr g ↦
          rw (go_on, e, f, g)
            (inl (record {
              no_text = refl;
              cgi = cgi;
              handler_is = refl;
              pid_is = refl;
              still_is = refl;
            }))
    ]
  ]
]

with_handler-ends :
    (w : World) (poll : Poll) (first : Wait) (c : CClient) (cgi : Cgi)
    → Waits c cgi.cgi_pid (with_handler w poll first c cgi)
      ⊎ Settled (with_handler w poll first c cgi)
unfolding with_handler
with_handler-ends w poll failed c cgi = inr (client_page-Settled w c 500)
with_handler-ends w poll (ended false) c cgi = inr (client_page-Settled w c 502)
with_handler-ends w poll (ended true) c cgi = inr (settle-Settled w c _)
with_handler-ends w poll running c cgi =
    elim (Bool-cases (is_cgi_timeout cgi poll.now cgi_timeout)) [
      | inl e ↦ rw (with_handler, e) (inr (client_page-Settled w c 504))
      | inr e ↦
          let cgi' = read_loop limit poll.early cgi in
          rw (with_handler, e)
            (subst (λ pid. Waits c pid (go_on w poll c cgi') ⊎ Settled (go_on w poll c cgi'))
              (read_loop-pid limit poll.early cgi) (go_on-ends w poll c cgi'))
    ]

-- For a client with a handler, HandleCGIMethod either gives an empty response and keeps a handler with
-- the same process, or gives a response that is not empty and leaves no handler.
pub handle_cgi_method-ends :
    (w : World) (poll : Poll) (c : CClient) (cgi : Cgi)
    → c.cgi_handler ≡ some cgi
    → Waits c cgi.cgi_pid (handle_cgi_method w poll c) ⊎ Settled (handle_cgi_method w poll c)
unfolding handle_cgi_method
handle_cgi_method-ends w poll c cgi e =
    simp (handle_cgi_method, e) (with_handler-ends w poll poll.first c cgi)
