-- ===== src/Serving/Afresh.antt =====
-- The end of a request on a connection: src/server.cpp.
use spy_socket.Dispatch.{World}
use spy_socket.Dispatch.All.{new_client}
use spy_socket.Dispatch.Reach.{fresh}
use spy_socket.Parsing.{Parser, start_line_state}
use spy_socket.Parsing.Feed.{machine, reset}
use spy_socket.Serving.{Connection, asks_to_close, restarted, finish}
use spy_socket.Prelude.{
  true, false, [], Option, none, some, ◌≡◌, refl, sym, ◌∙◌, ◌⊎◌, inl, inr, Bool-cases, ==_iff, drop,
}

-- The request or the server asks to close the connection.
abbrev pub AsksToClose : Connection → Type 0
AsksToClose c =
    (c.should_close_connection ≡ true)
    ⊎ ((p : Parser) × (c.parser ≡ some p) × (p.connection_status ≡ 0))

-- A parser that starts a request with what stands behind the last one.
pub record IsRestarted (old new : Parser) : Type 0 where
  pub state_is : new.current_state ≡ start_line_state
  pub buffer_is : new.buffer ≡ drop old.buffer_pos old.buffer
  pub from_start : new.buffer_pos ≡ 0
  pub no_line : new.start_line ≡ []
  pub no_headers : new.headers ≡ []
  pub no_body : new.body_content ≡ []
  pub no_error : new.error_code ≡ 0
  pub keeps_open : new.connection_status ≡ 1

-- The connection starts afresh: nothing of the last request is left, neither the client with its
-- handler nor what the parser read.
pub record IsAfresh (c d : Connection) : Type 0 where
  pub no_response : d.response ≡ []
  pub not_ready : d.ready_to_respond ≡ false
  pub none_sent : d.bytes_sent ≡ 0
  pub stays_open : d.should_close_connection ≡ false
  pub new_client : d.client_data.intialized ≡ false
  pub no_method : d.client_data.name_method ≡ []
  pub no_handler : d.client_data.cgi_handler ≡ none
  pub no_script : d.client_data.is_cgi_request ≡ false
  pub no_page : d.client_data.members.chunked_sending ≡ false
  pub parser_is :
      ((c.parser ≡ none) × (d.parser ≡ none))
      ⊎ ((p q : Parser) × (c.parser ≡ some p) × (d.parser ≡ some q) × IsRestarted p q)

abbrev pub Restarts : Connection → Option Connection → Type 0
Restarts c next = (d : Connection) × (next ≡ some d) × IsAfresh c d

restarted-IsAfresh :
    (w : World) (c d : Connection) (o : Option Parser)
    → d.response ≡ []
    → c.parser ≡ o
    → d.parser ≡ o
    → IsAfresh c (restarted w d o)
unfolding restarted reset fresh new_client
restarted-IsAfresh w c d none h g k = record {
  no_response = h;
  not_ready = refl;
  none_sent = refl;
  stays_open = refl;
  new_client = refl;
  no_method = refl;
  no_handler = refl;
  no_script = refl;
  no_page = refl;
  parser_is = inl (g, k);
}
restarted-IsAfresh w c d (some p) h g k = record {
  no_response = h;
  not_ready = refl;
  none_sent = refl;
  stays_open = refl;
  new_client = refl;
  no_method = refl;
  no_handler = refl;
  no_script = refl;
  no_page = refl;
  parser_is = inr (
    p,
    (reset (machine p d.chunker)).parser,
    g,
    refl,
    record {
      state_is = refl;
      buffer_is = refl;
      from_start = refl;
      no_line = refl;
      no_headers = refl;
      no_body = refl;
      no_error = refl;
      keeps_open = refl;
    },
  );
}

asks_to_close-AsksToClose :
    (o : Option Parser)
    → asks_to_close o ≡ true
    → (p : Parser) × (o ≡ some p) × (p.connection_status ≡ 0)
unfolding asks_to_close
asks_to_close-AsksToClose none h = cc
asks_to_close-AsksToClose (some p) h = (p, refl, (==_iff p.connection_status 0).0 h)

asks_to_close-not :
    (o : Option Parser) (p : Parser)
    → asks_to_close o ≡ false
    → o ≡ some p
    → p.connection_status ≡ 0
    → ⊥
unfolding asks_to_close
asks_to_close-not o p h e z =
    let k : asks_to_close o ≡ true = rw e ((==_iff p.connection_status 0).1 z) in cc

-- Whether the connection is closed, behind a response of which nothing is left.
pub finish-next :
    (w : World) (c d : Connection)
    → d.response ≡ []
    → d.parser ≡ c.parser
    → d.should_close_connection ≡ c.should_close_connection
    → (AsksToClose c × (finish w d ≡ none)) ⊎ ((AsksToClose c → ⊥) × Restarts c (finish w d))
unfolding finish
finish-next w c d h g k = elim (Bool-cases d.should_close_connection) [
  | inl e ↦ inl (inl (sym k ∙ e), simp (finish, h, e) refl)
  | inr e ↦ elim (Bool-cases (asks_to_close d.parser)) [
    | inl f ↦
        let (p, there, asks) = asks_to_close-AsksToClose d.parser f in
        inl (inr (p, sym g ∙ there, asks), simp (finish, h, e, f) refl)
    | inr f ↦ inr (
      λ s. elim s [
        | inl close ↦ let n = sym k ∙ e in cc
        | inr (p, there, asks) ↦ asks_to_close-not d.parser p f (g ∙ there) asks
      ],
      (
        restarted w d d.parser,
        simp (finish, h, e, f) refl,
        restarted-IsAfresh w c d d.parser h (sym g) refl,
      ),
    )
  ]
]
