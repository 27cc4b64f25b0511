-- ===== src/Serving/Sent.antt =====
-- The bytes of a response on the wire: src/server.cpp.
use spy_socket.Dispatch.{World, done}
use spy_socket.Dispatch.Running.{Poll}
use spy_socket.Serving.{
  Connection, Send, took, again, broken, Served, is_get, fill, erase_sent, finish, send_response,
  then_send, serve,
}
use spy_socket.Serving.Afresh.{AsksToClose, Restarts, finish-next}
use spy_socket.Prelude.{
  ℕ, zero, suc, ◌≤◌, true, [], ◌∷◌, ◌++◌, none, some, ◌≡◌, refl, sym, ap, ◌∙◌, arith, ◌⊎◌, inl, inr,
  Bool-cases, is_empty, length, take, leb, ltb, take-append-drop, append-nil,
}
use spy_socket.Prelude.Text.{Bytes}

-- A result of send: at most the bytes that it was given.
abbrev pub Fits : Send → Connection → Type 0
Fits (took n) c = n ≤ length c.response
Fits again c = Unit {0}
Fits broken c = Unit {0}

-- The connection goes on with what is left of the response; or it is done with the response, of which
-- nothing is left; or it is closed behind a failure that took no byte.
pub record GoesOn (c : Connection) (s : Served) : Type 0 where
  pub rest : Connection
  pub next_is : s.next ≡ some rest
  pub left : c.response ≡ s.piece ++ rest.response
  pub same_client : rest.client_data ≡ c.client_data

pub record Finished (c : Connection) (s : Served) : Type 0 where
  pub all_sent : c.response ≡ s.piece
  pub next_is : (AsksToClose c × (s.next ≡ none)) ⊎ ((AsksToClose c → ⊥) × Restarts c s.next)

some_bytes : (n : ℕ) → ltb 0 (suc n) ≡ true
some_bytes n = ground arith

erase_sent-left :
    (n : ℕ) (c : Connection)
    → n ≤ length c.response
    → c.response ≡ take n c.response ++ (erase_sent n c).response
unfolding erase_sent
erase_sent-left zero c h = refl
erase_sent-left (suc n) c h = elim (Bool-cases (leb (suc n) (length c.response))) [
  | inl e ↦ simp (erase_sent, some_bytes n, e) (sym (take-append-drop (suc n) c.response))
  | inr e ↦ absurd (ground arith)
]

erase_sent-client : (n : ℕ) (c : Connection) → (erase_sent n c).client_data ≡ c.client_data
unfolding erase_sent
erase_sent-client zero c = refl
erase_sent-client (suc n) c = simp (erase_sent, some_bytes n) refl

erase_sent-parser : (n : ℕ) (c : Connection) → (erase_sent n c).parser ≡ c.parser
unfolding erase_sent
erase_sent-parser zero c = refl
erase_sent-parser (suc n) c = simp (erase_sent, some_bytes n) refl

erase_sent-close :
    (n : ℕ) (c : Connection) → (erase_sent n c).should_close_connection ≡ c.should_close_connection
unfolding erase_sent
erase_sent-close zero c = refl
erase_sent-close (suc n) c = simp (erase_sent, some_bytes n) refl

empty-nil : (s : Bytes) → is_empty s ≡ true → s ≡ []
empty-nil [] h = refl
empty-nil (c ∷ s) h = cc

-- Behind a send that took `piece` and left the connection `d`.
finish-ends :
    (w : World) (c d : Connection) (piece : Bytes)
    → c.response ≡ piece ++ d.response
    → d.client_data ≡ c.client_data
    → d.parser ≡ c.parser
    → d.should_close_connection ≡ c.should_close_connection
    → GoesOn c (record { piece = piece; next = finish w d })
      ⊎ Finished c (record { piece = piece; next = finish w d })
unfolding finish
finish-ends w c d piece h g p k = elim (Bool-cases (is_empty d.response)) [
  | inr e ↦ inl (record { rest = d; next_is = simp (finish, e) refl; left = h; same_client = g })
  | inl e ↦
      let nil = empty-nil d.response e in
      inr (record {
        all_sent = h ∙ ap (piece ++◌) nil ∙ append-nil piece;
        next_is = finish-next w c d nil p k;
      })
]

ends {ℓ κ μ} : {A : Type ℓ} {B : Type κ} {C : Type μ} → A ⊎ B → A ⊎ B ⊎ C
ends (inl a) = inl a
ends (inr b) = inr (inl b)

send_response-ends :
    (w : World) (sent : Send) (c : Connection)
    → Fits sent c
    → GoesOn c (send_response w sent c)
      ⊎ Finished c (send_response w sent c)
      ⊎ (sent ≡ broken) × ((send_response w sent c).next ≡ none)
unfolding send_response
send_response-ends w (took n) c h = ends (
    finish-ends w c (erase_sent n c) (take n c.response) (erase_sent-left n c h)
      (erase_sent-client n c) (erase_sent-parser n c) (erase_sent-close n c))
send_response-ends w again c h = elim (Bool-cases (is_get c)) [
  | inl e ↦ simp (send_response, e) (ends (finish-ends w c c [] refl refl refl refl))
  | inr e ↦
      simp (send_response, e)
        (inl (record { rest = c; next_is = refl; left = refl; same_client = refl }))
]
send_response-ends w broken c h = elim (Bool-cases (is_get c)) [
  | inl e ↦ simp (send_response, e) (ends (finish-ends w c c [] refl refl refl refl))
  | inr e ↦ simp (send_response, e) (inr (inr (refl, refl)))
]

-- Where the response is there or HandleAllMethod gives one, and send takes no more bytes than it
-- is given, the event ends in one of three ways. The bytes that the socket took are the front of
-- the response, and the connection goes on with the rest and the same client. Or they are the
-- whole response: then the connection is closed just where it was to be closed or its request
-- asks for that, and else it starts afresh, with a new client without a handler, nothing to send,
-- and its parser, if it has one, at the start of a request with what stands behind the last one
-- in the buffer. Or send failed, and the connection is closed.
pub serve-ends :
    (w : World) (poll : Poll) (sent : Send) (c f : Connection)
    → fill w poll c ≡ done f
    → Fits sent f
    → (s : Served) × (serve w poll sent c ≡ done s)
      × (GoesOn f s ⊎ Finished f s ⊎ (sent ≡ broken) × (s.next ≡ none))
unfolding serve
serve-ends w poll sent c f e h =
    (send_response w sent f, ap (then_send w sent) e, send_response-ends w sent f h)
