-- ===== src/Dispatch/Kept.antt =====
-- What the operations of src/CClient.cpp keep of a client that runs a script.
use spy_socket.Cgi.{Cgi, set_env_var, close_cgi}
use spy_socket.Cgi.Process.{Launch, execute, check_script, full_script_path, running}
use spy_socket.Cgi.Process.Started.{execute_with_body-ends}
use spy_socket.Disk.{Disk}
use spy_socket.Delete.{Deletion}
use spy_socket.Dispatch.{
  World, CClient, Run, done, uncaught, unfinished, Handled, client_page, dropped, start_process,
  started, run_script, answer_get, delete_text, answer_delete, answer_post, finished, by_method,
}
use spy_socket.Dispatch.All.{dispatch, handle_all_method}
use spy_socket.Dispatch.Running.{Poll, returns, handle_cgi_method}
use spy_socket.Dispatch.Settled.{handle_cgi_method-ends}
use spy_socket.Get.{Client, Outcome, answer, runtime_error, length_error}
use spy_socket.Post.Upload.{Posted, posted}
use spy_socket.Prelude.{
  Bool, true, false, Option, none, some, ◌≡◌, refl, ap, ◌∙◌, subst, arith, inl, inr, Bool-cases,
  Option-cases, ltb, is_some, if◌then◌else◌,
}
use spy_socket.Prelude.Text.{codes, str_eq}

-- A client that runs a script has a handler, and that a process.
abbrev pub Runs : CClient → Type 0
Runs c =
    c.is_cgi_request ≡ true
    → (cgi : Cgi) × (c.cgi_handler ≡ some cgi) × (is_some cgi.cgi_pid ≡ true)

execute-pid :
    (disk : Disk) (launch : Launch) (cgi cgi' : Cgi)
    → execute disk launch cgi ≡ (true, cgi')
    → is_some cgi'.cgi_pid ≡ true
unfolding execute running
execute-pid disk launch cgi cgi' h =
    elim (Option-cases (check_script disk (full_script_path launch cgi) cgi)) [
      | inr (bad, e) ↦ let k = rw (execute, e) at h in cc
      | inl e ↦ elim (Bool-cases launch.pipes) [
        | inr p ↦ let k = rw (execute, e, p) at h in cc
        | inl p ↦ elim (Option-cases launch.child) [
          | inl f ↦ let k = rw (execute, e, p, f) at h in cc
          | inr (pid, f) ↦
              let k = rw (execute, e, p, f) at h in
              subst (λ c. is_some c.cgi_pid ≡ true) (ap (λ r. r.1) k) refl
        ]
      ]
    ]

pub start_process-pid :
    (w : World) (c : CClient) (cgi cgi' : Cgi)
    → start_process w c cgi ≡ some (true, cgi')
    → is_some cgi'.cgi_pid ≡ true
unfolding start_process running
start_process-pid w c cgi cgi' h = elim (Bool-cases (str_eq c.name_method (codes "POST"))) [
  | inl e ↦
      elim (execute_with_body-ends w.disk w.launch cgi cgi' c.parser.body_content true
        (rw (start_process, e) at h)) [ inl (_, s) ↦ ap is_some s.pid_is | inr (n, _) ↦ cc ]
  | inr e ↦ let k = rw (start_process, e) at h in execute-pid w.disk w.launch cgi cgi' cc
]

pub false-Runs : (c : CClient) → c.is_cgi_request ≡ false → Runs c
false-Runs c h t = absurd (ground arith)

-- The methods leave the mark of a script as it is.
abbrev KeepsOff : Run Handled → Type 0
KeepsOff (done h) = h.client.is_cgi_request ≡ false
KeepsOff uncaught = Unit {0}
KeepsOff unfinished = Unit {0}

answer_get-KeepsOff :
    (w : World) (c : CClient) (r : Outcome × Client)
    → c.is_cgi_request ≡ false
    → KeepsOff (answer_get w c r)
unfolding answer_get client_page
answer_get-KeepsOff w c (answer text, m) h = h
answer_get-KeepsOff w c (runtime_error text, m) h = h
answer_get-KeepsOff w c (Outcome.out_of_range, m) h = tt
answer_get-KeepsOff w c (length_error, m) h = tt

answer_delete-KeepsOff :
    (w : World) (c : CClient) (d : Deletion)
    → c.is_cgi_request ≡ false
    → KeepsOff (answer_delete w c d)
unfolding answer_delete
answer_delete-KeepsOff w c d h = elim (Option-cases (delete_text w c.mutable_config d.response)) [
  | inl e ↦ rw (answer_delete, e) tt
  | inr (text, e) ↦ rw (answer_delete, e) h
]

answer_post-KeepsOff :
    (c : CClient) (p : Posted) → c.is_cgi_request ≡ false → KeepsOff (answer_post c p)
unfolding answer_post
answer_post-KeepsOff c (posted text file) h = h
answer_post-KeepsOff c Posted.out_of_range h = tt

finished-KeepsOff {ℓ} :
    {A : Type ℓ} (f : A → Run Handled) (o : Option A)
    → ((a : A) → KeepsOff (f a))
    → KeepsOff (finished f o)
unfolding finished
finished-KeepsOff f none h = tt
finished-KeepsOff f (some a) h = h a

by_method-KeepsOff : (w : World) (c : CClient) → c.is_cgi_request ≡ false → KeepsOff (by_method w c)
unfolding by_method client_page
by_method-KeepsOff w c h = elim (Bool-cases (str_eq c.name_method (codes "GET"))) [
  | inl e ↦
      rw (by_method, e) (finished-KeepsOff (answer_get w c) _ (λ r. answer_get-KeepsOff w c r h))
  | inr e ↦ elim (Bool-cases (str_eq c.name_method (codes "DELETE"))) [
    | inl f ↦
        rw (by_method, e, f)
          (finished-KeepsOff (answer_delete w c) _ (λ d. answer_delete-KeepsOff w c d h))
    | inr f ↦ elim (Bool-cases (str_eq c.name_method (codes "POST"))) [
      | inl g ↦ rw (by_method, e, f, g) (answer_post-KeepsOff c _ h)
      | inr g ↦ rw (by_method, e, f, g) h
    ]
  ]
]

-- What a call leaves is a client that runs its script.
abbrev pub RunsAfter : Run Handled → Type 0
RunsAfter (done h) = Runs h.client
RunsAfter uncaught = Unit {0}
RunsAfter unfinished = Unit {0}

KeepsOff-RunsAfter : (r : Run Handled) → KeepsOff r → RunsAfter r
KeepsOff-RunsAfter (done h) k = false-Runs h.client k
KeepsOff-RunsAfter uncaught k = tt
KeepsOff-RunsAfter unfinished k = tt

started-RunsAfter :
    (w : World) (c : CClient) (o : Option (Bool × Cgi))
    → ((cgi : Cgi) → o ≡ some (true, cgi) → is_some cgi.cgi_pid ≡ true)
    → RunsAfter (started w c o)
unfolding started client_page
started-RunsAfter w c none h = tt
started-RunsAfter w c (some (true, cgi)) h = λ _. (cgi, refl, h cgi refl)
started-RunsAfter w c (some (false, cgi)) h =
    false-Runs (client_page w (dropped c) (if ltb 0 cgi.error_code then cgi.error_code else 500)).1
      refl

run_script-RunsAfter : (w : World) (c : CClient) (cgi : Cgi) → RunsAfter (run_script w c cgi)
unfolding run_script
run_script-RunsAfter w c cgi = elim (Option-cases (set_env_var cgi c.parser)) [
  | inl e ↦ rw (run_script, e) tt
  | inr (cgi', e) ↦
      rw (run_script, e)
        (started-RunsAfter w c (start_process w c cgi') (λ d s. start_process-pid w c cgi' d s))
]

dispatch-RunsAfter : (w : World) (c : CClient) (r : Bool × Cgi) → RunsAfter (dispatch w c r)
unfolding dispatch
dispatch-RunsAfter w c (true, cgi) = run_script-RunsAfter w c cgi
dispatch-RunsAfter w c (false, cgi) = elim (Option-cases (close_cgi w.terminates cgi)) [
  | inl e ↦ rw (dispatch, e) tt
  | inr (closed, e) ↦
      rw (dispatch, e)
        (KeepsOff-RunsAfter (by_method w (dropped c)) (by_method-KeepsOff w (dropped c) refl))
]

handle_cgi_method-off :
    (w : World) (poll : Poll) (c : CClient)
    → c.is_cgi_request ≡ false
    → (handle_cgi_method w poll c).1.is_cgi_request ≡ false
unfolding handle_cgi_method client_page
handle_cgi_method-off w poll c e = elim (Option-cases c.cgi_handler) [
  | inl n ↦ simp (handle_cgi_method, n) e
  | inr (cgi, there) ↦ elim (handle_cgi_method-ends w poll c cgi there) [
    | inl s ↦ s.still_is ∙ e
    | inr s ↦ s.no_cgi
  ]
]

-- HandleCGIMethod, whether there is a handler or not.
pub handle_cgi_method-Runs :
    (w : World) (poll : Poll) (c : CClient) → Runs c → Runs (handle_cgi_method w poll c).1
handle_cgi_method-Runs w poll c h = elim (Bool-cases c.is_cgi_request) [
  | inr e ↦ false-Runs (handle_cgi_method w poll c).1 (handle_cgi_method-off w poll c e)
  | inl e ↦
      let (cgi, there, pid) = h e in
      elim (handle_cgi_method-ends w poll c cgi there) [
        | inl s ↦ λ _. (s.cgi, s.handler_is, ap is_some s.pid_is ∙ pid)
        | inr s ↦ false-Runs (handle_cgi_method w poll c).1 s.no_cgi
      ]
]

pub handle_all_method-RunsAfter :
    (w : World) (poll : Poll) (c : CClient) → Runs c → RunsAfter (handle_all_method w poll c)
unfolding handle_all_method
handle_all_method-RunsAfter w poll c h = elim (Bool-cases c.is_cgi_request) [
  | inr e ↦ simp (handle_all_method, e) (dispatch-RunsAfter w c _)
  | inl e ↦
      let (cgi, there, pid) = h e in
      elim (Bool-cases (returns w poll c)) [
        | inl r ↦ simp (handle_all_method, e, there, r) (handle_cgi_method-Runs w poll c h)
        | inr r ↦ simp (handle_all_method, e, there, r) tt
      ]
]
