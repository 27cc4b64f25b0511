-- ===== src/Dispatch/Ends.antt =====
-- The end of `HandleAllMethod` of src/CClient.cpp.
use spy_socket.Cgi.{close_cgi, Cgi, set_env_var}
use spy_socket.Cgi.Process.{execute_with_body, check_script, full_script_path, send_loop}
use spy_socket.Delete.{Deletion}
use spy_socket.Delete.Safe.{IsDone, perform_delete-IsDone}
use spy_socket.Dispatch.{
  World, CClient, Run, done, uncaught, unfinished, Handled, dropped, start_process, started,
  run_script, answer_get, delete_text, answer_delete, answer_post, finished, by_method,
}
use spy_socket.Dispatch.All.{dispatch, handle_all_method}
use spy_socket.Dispatch.Running.{Poll, returns}
use spy_socket.Get.{Client, Outcome, answer, runtime_error, length_error}
use spy_socket.Get.Method.{method_get}
use spy_socket.Get.Method.Ends.{Answers, method_get-Answers}
use spy_socket.Post.Upload.{Posted, posted}
use spy_socket.Prelude.{
  Bool, true, false, ◌∷◌, Option, none, some, ◌≡◌, refl, sym, subst, arith, inl, inr, Bool-cases,
  Option-cases, is_some, length,
}
use spy_socket.Prelude.Text.{Bytes, codes, str_eq}

abbrev pub IsEnded : Run Handled → Type 0
IsEnded (done h) = Unit {0}
IsEnded uncaught = Unit {0}
IsEnded unfinished = ⊥

-- An exception of the GET method that is caught, or a response.
answer_get-IsEnded : (w : World) (c : CClient) (r : Outcome × Client) → IsEnded (answer_get w c r)
unfolding answer_get
answer_get-IsEnded w c (answer text, m) = tt
answer_get-IsEnded w c (runtime_error text, m) = tt
answer_get-IsEnded w c (Outcome.out_of_range, m) = tt
answer_get-IsEnded w c (length_error, m) = tt

get-IsEnded :
    (w : World) (c : CClient) (o : Option (Outcome × Client))
    → Answers o
    → IsEnded (finished (answer_get w c) o)
unfolding finished
get-IsEnded w c none h = elim h [ ]
get-IsEnded w c (some r) h = answer_get-IsEnded w c r

delete-IsEnded :
    (w : World) (c : CClient) (o : Option Deletion)
    → IsDone w.files c.mutable_config c.uri o
    → IsEnded (finished (answer_delete w c) o)
unfolding finished answer_delete
delete-IsEnded w c none h = elim h [ ]
delete-IsEnded w c (some d) h = elim (Option-cases (delete_text w c.mutable_config d.response)) [
  | inl e ↦ rw (answer_delete, e) tt
  | inr (text, e) ↦ rw (answer_delete, e) tt
]

post-IsEnded : (c : CClient) (p : Posted) → IsEnded (answer_post c p)
unfolding answer_post
post-IsEnded c (posted text file) = tt
post-IsEnded c Posted.out_of_range = tt

by_method-IsEnded :
    (w : World) (c : CClient) (rest : Bytes) → c.uri ≡ b'/' ∷ rest → IsEnded (by_method w c)
unfolding by_method
by_method-IsEnded w c rest u = elim (Bool-cases (str_eq c.name_method (codes "GET"))) [
  | inl e ↦
      rw (by_method, e)
        (get-IsEnded w c _ (
          subst
            (λ uri.
              Answers (method_get w.host w.disk c.mutable_config c.parser.headers c.members uri))
            (sym u)
            (method_get-Answers w.host w.disk c.mutable_config c.parser.headers c.members rest)))
  | inr e ↦ elim (Bool-cases (str_eq c.name_method (codes "DELETE"))) [
    | inl f ↦
        rw (by_method, e, f)
          (delete-IsEnded w c _ (perform_delete-IsDone w.files w.unset c.uri c.mutable_config))
    | inr f ↦ elim (Bool-cases (str_eq c.name_method (codes "POST"))) [
      | inl g ↦ rw (by_method, e, f, g) (post-IsEnded c _)
      | inr g ↦ rw (by_method, e, f, g) tt
    ]
  ]
]

execute_with_body-some :
    (w : World) (cgi : Cgi) (body : Bytes)
    → is_some (send_loop w.launch.writes (length body)) ≡ true
    → is_some (execute_with_body w.disk w.launch cgi body) ≡ true
unfolding execute_with_body
execute_with_body-some w cgi body h =
    elim (Option-cases (check_script w.disk (full_script_path w.launch cgi) cgi)) [
      | inr (bad, e) ↦ rw (execute_with_body, e) refl
      | inl e ↦ elim (Bool-cases w.launch.pipes) [
        | inr p ↦ rw (execute_with_body, e, p) refl
        | inl p ↦ elim (Option-cases w.launch.child) [
          | inl f ↦ rw (execute_with_body, e, p, f) refl
          | inr (pid, f) ↦ elim (Option-cases (send_loop w.launch.writes (length body))) [
            | inl g ↦ absurd (ground arith)
            | inr (sent, g) ↦ rw (execute_with_body, e, p, f, g) refl
          ]
        ]
      ]
    ]

started-IsEnded :
    (w : World) (c : CClient) (o : Option (Bool × Cgi)) → is_some o ≡ true → IsEnded (started w c o)
unfolding started
started-IsEnded w c none h = absurd (ground arith)
started-IsEnded w c (some (true, cgi)) h = tt
started-IsEnded w c (some (false, cgi)) h = tt

start_process-some :
    (w : World) (c : CClient) (cgi : Cgi)
    → is_some (send_loop w.launch.writes (length c.parser.body_content)) ≡ true
    → is_some (start_process w c cgi) ≡ true
unfolding start_process
start_process-some w c cgi h = elim (Bool-cases (str_eq c.name_method (codes "POST"))) [
  | inl e ↦ rw (start_process, e) (execute_with_body-some w cgi c.parser.body_content h)
  | inr e ↦ rw (start_process, e) refl
]

close_cgi-some :
    (w : World) (cgi : Cgi)
    → w.terminates ≡ true
    → close_cgi w.terminates cgi
      ≡ some (record cgi { cgi_fd = none; cgi_pid = none; cgi_start_time = 0 })
unfolding close_cgi
close_cgi-some w cgi t = elim (Bool-cases (is_some cgi.cgi_pid)) [
  | inl e ↦ simp (close_cgi, t, e) refl
  | inr e ↦ simp (close_cgi, t, e) refl
]

returns-true :
    (w : World) (poll : Poll) (c : CClient) → w.terminates ≡ true → returns w poll c ≡ true
unfolding returns
returns-true w poll c t = simp (returns, t) refl

dispatch-IsEnded :
    (w : World) (c : CClient) (rest : Bytes) (r : Bool × Cgi)
    → c.uri ≡ b'/' ∷ rest
    → is_some (send_loop w.launch.writes (length c.parser.body_content)) ≡ true
    → w.terminates ≡ true
    → IsEnded (dispatch w c r)
unfolding dispatch run_script
dispatch-IsEnded w c rest (false, cgi) u h t =
    rw (dispatch, close_cgi-some w cgi t) (by_method-IsEnded w (dropped c) rest u)
dispatch-IsEnded w c rest (true, cgi) u h t = elim (Option-cases (set_env_var cgi c.parser)) [
  | inl e ↦ rw (run_script, e) tt
  | inr (cgi', e) ↦
      rw (run_script, e)
        (started-IsEnded w c (start_process w c cgi') (start_process-some w c cgi' h))
]

-- On every request target that starts with a '/', and for every method, file system and
-- configuration, HandleAllMethod comes to an end, provided that the writes of the body to a
-- script's process do, and that a process which is sent SIGTERM ends, so that the wait of
-- close_cgi does.
pub handle_all_method-IsEnded :
    (w : World) (poll : Poll) (c : CClient) (rest : Bytes)
    → c.uri ≡ b'/' ∷ rest
    → is_some (send_loop w.launch.writes (length c.parser.body_content)) ≡ true
    → w.terminates ≡ true
    → IsEnded (handle_all_method w poll c)
unfolding handle_all_method
handle_all_method-IsEnded w poll c rest u h t = elim (Bool-cases c.is_cgi_request) [
  | inr f ↦ simp (handle_all_method, f) (dispatch-IsEnded w c rest _ u h t)
  | inl f ↦ elim (Option-cases c.cgi_handler) [
    | inr (cgi, n) ↦ simp (handle_all_method, f, n, returns-true w poll c t) tt
    | inl n ↦ simp (handle_all_method, f, n) (by_method-IsEnded w _ rest u)
  ]
]
