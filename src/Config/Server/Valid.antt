-- ===== src/Config/Server/Valid.antt =====
-- `SingleServerConfig` of src/singleserver.cpp: what the configuration of a server holds.
use spy_socket.Chunked.{Overflow, atoi}
use spy_socket.Chunked.Atoi.{atoi-zero}
use spy_socket.Config.{LocationStruct, ConfigStruct}
use spy_socket.Config.Directives.{fill_location_struct, strip_white}
use spy_socket.Config.Directives.Valid.{IsLocation, fill_location_struct-IsLocation}
use spy_socket.Config.Server.{
  Server, has_port, port_of, add_listen, set_host, set_root, set_server_name, block_lines,
  location_key, handle_location_lines, handle_location, has_page, is_error_status, add_error_page,
  error_page_of, handle_error_page, set_body_size, on_conf, run_key, parse_key_value, skip_to_brace,
  read_lines, set_variables, single_server_config,
}
use spy_socket.Config.Values.{
  is_valid_host, is_valid_location_path, parse_body_size, sized, checked_size, scaled_size,
}
use spy_socket.Prelude.{
  ℕ, ◌≤◌, true, false, ◌||◌, List, [], ◌∷◌, ◌++◌, Option, none, some, ◌≡◌, refl, arith, Bool-cases,
  ◌==◌, ltb, leb, is_empty, all, All, All-append, inl, inr,
}
use spy_socket.Prelude.Except.{Except, ok, throw, Ensures, Ensures-bind, Ensures-if}
use spy_socket.Prelude.Text.{Bytes, codes, str_eq, str_eq_iff, contains, is_digit}
use spy_socket.Prelude.Text.Words.{is_white, before, after, words, segments_of, ended_of}

-- No port stands twice in the list.
abbrev pub Once : List ℕ → Type 0
Once [] = Unit
Once (p ∷ ps) = (has_port p ps ≡ false) × Once ps

abbrev pub PagesOnce : List (Bytes × Bytes) → Type 0
PagesOnce [] = Unit
PagesOnce (p ∷ ps) = (has_page p.0 ps ≡ false) × PagesOnce ps

abbrev pub IsPort : ℕ → Type 0
IsPort p = (1 ≤ p) × (p ≤ 65535)

abbrev pub IsPlaced : Overflow → Bytes × LocationStruct → Type 0
IsPlaced over l = (is_valid_location_path l.0 ≡ true) × IsLocation over l.1

-- A configuration that the directives have filled: ports and error pages are in range and given once,
-- the host is valid if there is one, each location has a valid path and is valid itself, and the body
-- size is bounded unless it is the one that was there before.
pub record IsConfig (over : Overflow) (size : ℕ) (conf : ConfigStruct) : Type 0 where
  pub ports_in : All IsPort conf.listen
  pub ports_once : Once conf.listen
  pub host_in : (is_empty conf.host || is_valid_host conf.host) ≡ true
  pub pages_in : All (λ p. is_error_status (atoi over p.0) ≡ true) conf.error_page
  pub pages_once : PagesOnce conf.error_page
  pub locations_in : All (IsPlaced over) conf.location
  pub size_in :
      (conf.client_max_body_size == size || leb conf.client_max_body_size 2147483648) ≡ true

has_port-append : (p q : ℕ) (ps : List ℕ) → has_port p (ps ++ (q ∷ [])) ≡ has_port p ps || q == p
unfolding has_port
has_port-append p q [] = ground arith
has_port-append p q (r ∷ ps) = ground (arith, has_port-append p q ps)

Once-append : (ps : List ℕ) (q : ℕ) → Once ps → has_port q ps ≡ false → Once (ps ++ (q ∷ []))
unfolding has_port
Once-append [] q h n = (refl, tt)
Once-append (p ∷ ps) q h n =
    (ground (arith, has_port-append p q ps, h.0), Once-append ps q h.1 (ground arith))

has_page-append :
    (c : Bytes) (q : Bytes × Bytes) (ps : List (Bytes × Bytes))
    → has_page c (ps ++ (q ∷ [])) ≡ has_page c ps || str_eq q.0 c
unfolding has_page
has_page-append c q [] = ground arith
has_page-append c q (r ∷ ps) = ground (arith, has_page-append c q ps)

PagesOnce-append :
    (ps : List (Bytes × Bytes)) (q : Bytes × Bytes)
    → PagesOnce ps
    → has_page q.0 ps ≡ false
    → PagesOnce (ps ++ (q ∷ []))
unfolding has_page
PagesOnce-append [] q h n = (refl, tt)
PagesOnce-append (p ∷ ps) q h n = (
  ground (arith, has_page-append p.0 q ps, h.0, str_eq_iff p.0 q.0, str_eq_iff q.0 p.0),
  PagesOnce-append ps q h.1 (ground arith),
)

module _ (over : Overflow) (size : ℕ) where
  add_listen-IsConfig :
      (value : Bytes) (conf : ConfigStruct)
      → IsConfig over size conf
      → Ensures (IsConfig over size) (add_listen over value conf)
  unfolding add_listen
  add_listen-IsConfig value conf h = elim (Bool-cases (all is_digit value)) [
    | inr d ↦ rw (add_listen, d) tt
    | inl d ↦ elim (Bool-cases (atoi over value == 0 || ltb 65535 (atoi over value))) [
      | inl z ↦ rw (add_listen, d, z) tt
      | inr z ↦ elim (Bool-cases (has_port (port_of value) conf.listen)) [
        | inl t ↦ rw (add_listen, d, z, t) tt
        | inr t ↦
            rw (add_listen, d, z, t)
              (record {
                ports_in =
                    All-append IsPort conf.listen (port_of value ∷ []) h.ports_in
                      ((ground (arith, atoi-zero over value d), omega arith), tt);
                ports_once = Once-append conf.listen (port_of value) h.ports_once t;
                host_in = h.host_in;
                pages_in = h.pages_in;
                pages_once = h.pages_once;
                locations_in = h.locations_in;
                size_in = h.size_in;
              })
      ]
    ]
  ]

  add_error_page-IsConfig :
      (code path : Bytes) (conf : ConfigStruct)
      → IsConfig over size conf
      → Ensures (IsConfig over size) (add_error_page over code path conf)
  unfolding add_error_page
  add_error_page-IsConfig code path conf h = elim (Bool-cases (is_error_status (atoi over code))) [
    | inr d ↦ rw (add_error_page, d) tt
    | inl d ↦ elim (Bool-cases (has_page code conf.error_page)) [
      | inl t ↦ rw (add_error_page, d, t) tt
      | inr t ↦
          rw (add_error_page, d, t)
            (record {
              ports_in = h.ports_in;
              ports_once = h.ports_once;
              host_in = h.host_in;
              pages_in =
                  All-append (λ p. is_error_status (atoi over p.0) ≡ true) conf.error_page
                    ((code, path) ∷ []) h.pages_in (d, tt);
              pages_once = PagesOnce-append conf.error_page (code, path) h.pages_once t;
              locations_in = h.locations_in;
              size_in = h.size_in;
            })
    ]
  ]

  error_page_of-IsConfig :
      (ws : List Bytes) (conf : ConfigStruct)
      → IsConfig over size conf
      → Ensures (IsConfig over size) (error_page_of over ws conf)
  error_page_of-IsConfig [] conf h = tt
  error_page_of-IsConfig (d ∷ []) conf h = tt
  error_page_of-IsConfig (d ∷ c ∷ []) conf h = tt
  error_page_of-IsConfig (d ∷ c ∷ p ∷ []) conf h = add_error_page-IsConfig c p conf h
  error_page_of-IsConfig (d ∷ c ∷ p ∷ e ∷ ws) conf h = tt

  handle_location_lines-IsConfig :
      (lines : List Bytes) (conf : ConfigStruct)
      → IsConfig over size conf
      → Ensures (IsConfig over size) (handle_location_lines over lines conf)
  unfolding handle_location_lines
  handle_location_lines-IsConfig [] conf h = h
  handle_location_lines-IsConfig (line ∷ lines) conf h =
      elim (Bool-cases (is_valid_location_path (location_key line))) [
        | inr e ↦ rw (handle_location_lines, e) tt
        | inl e ↦
            rw (handle_location_lines, e)
              (Ensures-bind _ _ (fill_location_struct over (block_lines lines)) _
                (fill_location_struct-IsLocation over (block_lines lines))
                λ loc g. record {
                  ports_in = h.ports_in;
                  ports_once = h.ports_once;
                  host_in = h.host_in;
                  pages_in = h.pages_in;
                  pages_once = h.pages_once;
                  locations_in =
                      All-append (IsPlaced over) conf.location ((location_key line, loc) ∷ [])
                        h.locations_in ((e, g), tt);
                  size_in = h.size_in;
                })
      ]

  set_host-IsConfig :
      (value : Bytes) (conf : ConfigStruct)
      → IsConfig over size conf
      → Ensures (IsConfig over size) (set_host value conf)
  unfolding set_host
  set_host-IsConfig value conf h = elim (Bool-cases (is_valid_host value)) [
    | inr e ↦ rw (set_host, e) tt
    | inl e ↦
        rw (set_host, e)
          (record {
            ports_in = h.ports_in;
            ports_once = h.ports_once;
            host_in = ground arith;
            pages_in = h.pages_in;
            pages_once = h.pages_once;
            locations_in = h.locations_in;
            size_in = h.size_in;
          })
  ]

  parse_body_size-le : (value : Bytes) → Ensures (λ n. n ≤ 2147483648) (parse_body_size over value)
  unfolding parse_body_size sized scaled_size checked_size
  parse_body_size-le [] = tt
  parse_body_size-le (c ∷ s) = ground arith

  set_body_size-IsConfig :
      (value : Bytes) (s : Server)
      → IsConfig over size s.conf
      → Ensures (λ t. IsConfig over size t.conf) (set_body_size over value s)
  unfolding set_body_size
  set_body_size-IsConfig value s h = Ensures-if _ s.cbbs_set _ _ tt (
      Ensures-bind _ _ (parse_body_size over (strip_white value)) _
        (parse_body_size-le (strip_white value))
        λ n g. record {
          ports_in = h.ports_in;
          ports_once = h.ports_once;
          host_in = h.host_in;
          pages_in = h.pages_in;
          pages_once = h.pages_once;
          locations_in = h.locations_in;
          size_in = ground (arith, g);
        })

  on_conf-IsConfig :
      (s : Server) (m : Except ConfigStruct)
      → Ensures (IsConfig over size) m
      → Ensures (λ t. IsConfig over size t.conf) (on_conf s m)
  on_conf-IsConfig s (throw e) h = tt
  on_conf-IsConfig s (ok conf) h = h

  run_key-IsConfig :
      (key key_value : Bytes) (s : Server)
      → IsConfig over size s.conf
      → Ensures (λ t. IsConfig over size t.conf) (run_key over key key_value s)
  unfolding run_key set_root set_server_name handle_location handle_error_page
  run_key-IsConfig key key_value s h =
      let value = after is_white key_value in
      ground (
        arith,
        on_conf-IsConfig s _ (add_listen-IsConfig value s.conf h),
        on_conf-IsConfig s _
            (handle_location_lines-IsConfig (segments_of b'\n' key_value) s.conf h),
        on_conf-IsConfig s _ (error_page_of-IsConfig (words key_value) s.conf h),
        on_conf-IsConfig s _ (set_host-IsConfig value s.conf h),
        set_body_size-IsConfig value s h,
      )

  parse_key_value-IsConfig :
      (key_value : Bytes) (s : Server)
      → IsConfig over size s.conf
      → Ensures (λ t. IsConfig over size t.conf) (parse_key_value over key_value s)
  unfolding parse_key_value
  parse_key_value-IsConfig key_value s h =
      ground (arith, run_key-IsConfig (before is_white key_value) key_value s h)

  read_lines-IsConfig :
      (block : Option Bytes) (lines : List Bytes) (s : Server)
      → IsConfig over size s.conf
      → Ensures (λ t. IsConfig over size t.conf) (read_lines over block lines s)
  unfolding read_lines
  read_lines-IsConfig none [] s h = h
  read_lines-IsConfig (some block) [] s h = parse_key_value-IsConfig block s h
  read_lines-IsConfig none (l ∷ ls) s h = elim (Bool-cases (str_eq l (codes "}"))) [
    | inl e ↦ rw (read_lines, e) h
    | inr e ↦ elim (Bool-cases (contains (codes "location") l)) [
      | inl f ↦ rw (read_lines, e, f) (read_lines-IsConfig (some (l ++ (b'\n' ∷ []))) ls s h)
      | inr f ↦
          rw (read_lines, e, f)
            (Ensures-bind _ _ (parse_key_value over l s) _ (parse_key_value-IsConfig l s h)
              (read_lines-IsConfig none ls))
    ]
  ]
  read_lines-IsConfig (some block) (l ∷ ls) s h =
      let longer = block ++ (l ++ (b'\n' ∷ [])) in
      elim (Bool-cases (str_eq l (codes "}"))) [
        | inl e ↦
            rw (read_lines, e)
              (Ensures-bind _ _ (parse_key_value over longer s) _
                (parse_key_value-IsConfig longer s h) (read_lines-IsConfig none ls))
        | inr e ↦ rw (read_lines, e) (read_lines-IsConfig (some longer) ls s h)
      ]

  -- Where the constructor of SingleServerConfig does not throw, on a configuration that is valid, it
  -- leaves one that is valid.
  pub single_server_config-IsConfig :
      (server : Bytes) (conf : ConfigStruct)
      → IsConfig over size conf
      → Ensures (IsConfig over size) (single_server_config over server conf)
  unfolding single_server_config set_variables
  single_server_config-IsConfig server conf h =
      let s : Server = record { conf = conf; cbbs_set = false } in
      let lines = skip_to_brace (ended_of b'\n' server) in
      Ensures-bind _ _ (read_lines over none lines s) _ (read_lines-IsConfig none lines s h)
        λ t g. g
