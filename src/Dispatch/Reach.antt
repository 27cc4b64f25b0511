-- ===== src/Dispatch/Reach.antt =====
-- The states of a client: what `handleMethod` and the methods of CClient, and src/server.cpp through
-- them, make of one entry of `client_data_map`.
use spy_socket.Cgi.{Cgi, Reading, read_output, set_env_var}
use spy_socket.Config.Cluster.{Cluster}
use spy_socket.Dispatch.{World, CClient, done, Handled, dropped, start_process}
use spy_socket.Dispatch.All.{
  handle_all_method, host_key, config_at, new_client, opened, open_script, handle_method,
}
use spy_socket.Dispatch.Running.{Poll, handle_cgi_method}
use spy_socket.Dispatch.Settled.{read_output-pid}
use spy_socket.Dispatch.Kept.{
  Runs, RunsAfter, start_process-pid, false-Runs, handle_cgi_method-Runs,
  handle_all_method-RunsAfter,
}
use spy_socket.Parsing.{Parser}
use spy_socket.Prelude.{
  Bool, true, false, [], Option, none, some, ◌≡◌, refl, sym, ap, ◌∙◌, subst, inl, inr, Bool-cases,
  Option-cases, is_some,
}
use spy_socket.Prelude.Text.{codes}
use spy_socket.Prelude.Text.Map.{lookup}

-- What becomes of the entry of one connection. The parser of a client is there from `handleMethod` on.
pub data Step (w : World) (cluster : Cluster) : CClient → CClient → Type 0 where
  -- handleMethod
  opens :
      {c c' : CClient} (parser : Parser)
      → handle_method w cluster parser c ≡ done c'
      → Step w cluster c c'
  -- HandleAllMethod
  handles :
      {c : CClient} {h : Handled} (poll : Poll)
      → c.intialized ≡ true
      → handle_all_method w poll c ≡ done h
      → Step w cluster c h.client
  -- HandleCGIMethod, where the server calls it
  polls : {c : CClient} (poll : Poll) → Step w cluster c (handle_cgi_method w poll c).1
  -- read_output, where the server calls it
  reads :
      {c : CClient} (cgi : Cgi) (r : Reading)
      → c.cgi_handler ≡ some cgi
      → Step w cluster c (record c { cgi_handler = some (read_output cgi r).1 })
  -- A process that failed or took too long
  drops : {c : CClient} → Step w cluster c (dropped c)

-- A client that `client_data_map` makes; `parser` stands for the null pointer.
unfoldable pub fresh : World → Parser → CClient
fresh w parser = record (new_client w.no_config parser) {
  name_method = [];
  uri = [];
  intialized = false;
}

-- The steps from a new client.
pub data Reach (w : World) (cluster : Cluster) (parser : Parser) : CClient → Type 0 where
  new_one : Reach w cluster parser (fresh w parser)
  next :
      {c c' : CClient} → Reach w cluster parser c → Step w cluster c c' → Reach w cluster parser c'

done-inj : {a b : CClient} → done a ≡ done b → a ≡ b
done-inj e = cc

same_some : {a b : Cgi} → some a ≡ some b → a ≡ b
same_some e = cc

opened-Runs :
    (c c' : CClient) (o : Option (Bool × Cgi))
    → ((cgi : Cgi) → o ≡ some (true, cgi) → is_some cgi.cgi_pid ≡ true)
    → opened c o ≡ done c'
    → Runs c'
unfolding opened
opened-Runs c c' none h e = cc
opened-Runs c c' (some (true, cgi)) h e = subst Runs (done-inj e) (λ _. (cgi, refl, h cgi refl))
opened-Runs c c' (some (false, cgi)) h e = subst Runs (done-inj e) (false-Runs (dropped c) refl)

open_script-Runs :
    (w : World) (c c' : CClient) (r : Bool × Cgi)
    → c.is_cgi_request ≡ false
    → open_script w c r ≡ done c'
    → Runs c'
unfolding open_script
open_script-Runs w c c' (false, cgi) h e =
    subst Runs (done-inj e) (false-Runs (record c { cgi_handler = some cgi }) h)
open_script-Runs w c c' (true, cgi) h e = elim (Option-cases (set_env_var cgi c.parser)) [
  | inl n ↦ let k = rw (open_script, n) at e in cc
  | inr (cgi', n) ↦
      opened-Runs c c' (start_process w c cgi') (λ d s. start_process-pid w c cgi' d s)
        (rw (open_script, n) at e)
]

handle_method-Runs :
    (w : World) (cluster : Cluster) (parser : Parser) (c c' : CClient)
    → Runs c
    → handle_method w cluster parser c ≡ done c'
    → Runs c'
unfolding handle_method new_client
handle_method-Runs w cluster parser c c' h e =
    elim (Option-cases (lookup (codes "host") parser.headers)) [
      | inl n ↦ let k = rw (handle_method, n) at e in cc
      | inr (host, n) ↦ elim (Bool-cases c.intialized) [
        | inl i ↦ subst Runs (done-inj (simp (handle_method, n, i) at e)) h
        | inr i ↦
            open_script-Runs w (new_client (config_at (host_key host) cluster w.no_config) parser)
              c' _ refl (simp (handle_method, n, i) at e)
      ]
    ]

Step-Runs :
    (w : World) (cluster : Cluster) (c c' : CClient) → Runs c → Step w cluster c c' → Runs c'
Step-Runs w cluster c c' h (opens parser e) = handle_method-Runs w cluster parser c c' h e
Step-Runs w cluster c _ h (handles poll i e) =
    subst RunsAfter e (handle_all_method-RunsAfter w poll c h)
Step-Runs w cluster c _ h (polls poll) = handle_cgi_method-Runs w poll c h
Step-Runs w cluster c _ h (reads cgi r there) = λ t.
    let (cgi', there', pid) = h t in
    (
      (read_output cgi r).1,
      refl,
      ap is_some (read_output-pid cgi r)
          ∙ subst (λ d. is_some d.cgi_pid ≡ true) (same_some (sym there' ∙ there)) pid,
    )
Step-Runs w cluster c _ h drops = false-Runs (dropped c) refl

-- In every state that a connection reaches, a client that is marked as running a script has a handler
-- with a process.
pub Reach-Runs :
    (w : World) (cluster : Cluster) (parser : Parser) (c : CClient)
    → Reach w cluster parser c
    → Runs c
unfolding fresh new_client
Reach-Runs w cluster parser _ new_one = false-Runs (fresh w parser) refl
Reach-Runs w cluster parser c' (next r s) =
    Step-Runs w cluster _ c' (Reach-Runs w cluster parser _ r) s
