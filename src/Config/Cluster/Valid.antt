-- ===== src/Config/Cluster/Valid.antt =====
-- `_checkBrackets` of src/Config.cpp and what it calls: the servers of a configuration that is read.
use spy_socket.Config.{ConfigStruct}
use spy_socket.Config.Cluster.{
  Cluster, insert_server, less, shares_port, is_taken, key_of, place_server, add_server, Setting,
  new_config, create_config_struct, parse_server_block, clean_lines, Scan, server_closed, scan_line,
  scan_next, scan_lines, scan_end, new_scan, check_brackets,
}
use spy_socket.Config.Server.{has_port, single_server_config}
use spy_socket.Config.Server.Valid.{IsConfig, single_server_config-IsConfig}
use spy_socket.Prelude.{
  ℕ, false, ◌&&◌, ◌||◌, List, [], ◌∷◌, ◌≡◌, refl, sym, arith, Bool-cases, is_empty, All, inl, inr,
}
use spy_socket.Prelude.Except.{Ensures, Ensures-bind}
use spy_socket.Prelude.Text.{Bytes, codes, str_eq, str_eq_iff, contains}
use spy_socket.Prelude.Text.Words.{segments_of}

-- A server of the configuration: valid, with a port, a host and a location at least.
pub record IsServer (set : Setting) (conf : ConfigStruct) : Type 0 where
  pub config_in : IsConfig set.over set.client_max_body_size conf
  pub has_listen : is_empty conf.listen ≡ false
  pub has_host : is_empty conf.host ≡ false
  pub has_location : is_empty conf.location ≡ false

-- The two servers do not listen at the same host and port.
abbrev pub Apart : ConfigStruct → ConfigStruct → Type 0
Apart c d = (str_eq c.host d.host && shares_port c.listen d.listen) ≡ false

abbrev pub Separate : Cluster → Type 0
Separate [] = Unit
Separate (s ∷ cluster) = All (λ t. Apart s.1 t.1) cluster × Separate cluster

abbrev pub IsCluster : Setting → Cluster → Type 0
IsCluster set cluster = All (λ s. IsServer set s.1) cluster × Separate cluster

str_eq_comm : (a b : Bytes) → str_eq a b ≡ str_eq b a
str_eq_comm a b = ground (arith, str_eq_iff a b, str_eq_iff b a)

pub shares_port-cons :
    (ps qs : List ℕ) (q : ℕ) → shares_port ps (q ∷ qs) ≡ has_port q ps || shares_port ps qs
unfolding shares_port has_port
shares_port-cons [] qs q = refl
shares_port-cons (p ∷ ps) qs q = ground (arith, shares_port-cons ps qs q)

shares_port-nil : (ps : List ℕ) → shares_port ps [] ≡ false
unfolding shares_port has_port
shares_port-nil [] = refl
shares_port-nil (p ∷ ps) = ground (arith, shares_port-nil ps)

shares_port_comm : (ps qs : List ℕ) → shares_port ps qs ≡ shares_port qs ps
unfolding shares_port
shares_port_comm [] qs = sym (shares_port-nil qs)
shares_port_comm (p ∷ ps) qs = ground (arith, shares_port_comm ps qs, shares_port-cons qs ps p)

Apart-comm : (c d : ConfigStruct) → Apart c d → Apart d c
Apart-comm c d h = ground (arith, str_eq_comm c.host d.host, shares_port_comm c.listen d.listen)

is_taken-Apart :
    (conf : ConfigStruct) (cluster : Cluster)
    → is_taken conf cluster ≡ false
    → All (λ t. Apart conf t.1) cluster
unfolding is_taken
is_taken-Apart conf [] h = tt
is_taken-Apart conf ((k, c) ∷ cluster) h =
    (ground (arith, str_eq_comm c.host conf.host), is_taken-Apart conf cluster (ground arith))

insert_server-All :
    (P : ConfigStruct → Type 0) (key : Bytes) (conf : ConfigStruct) (cluster : Cluster)
    → P conf
    → All (λ s. P s.1) cluster
    → All (λ s. P s.1) (insert_server key conf cluster)
unfolding insert_server
insert_server-All P key conf [] h g = (h, tt)
insert_server-All P key conf ((k, c) ∷ cluster) h g = elim (Bool-cases (str_eq key k)) [
  | inl e ↦ rw (insert_server, e) g
  | inr e ↦ elim (Bool-cases (less key k)) [
    | inl f ↦ rw (insert_server, e, f) (h, g)
    | inr f ↦ rw (insert_server, e, f) (g.0, insert_server-All P key conf cluster h g.1)
  ]
]

insert_server-Separate :
    (key : Bytes) (conf : ConfigStruct) (cluster : Cluster)
    → All (λ t. Apart conf t.1) cluster
    → Separate cluster
    → Separate (insert_server key conf cluster)
unfolding insert_server
insert_server-Separate key conf [] h g = (tt, tt)
insert_server-Separate key conf ((k, c) ∷ cluster) h g = elim (Bool-cases (str_eq key k)) [
  | inl e ↦ rw (insert_server, e) g
  | inr e ↦ elim (Bool-cases (less key k)) [
    | inl f ↦ rw (insert_server, e, f) (h, g)
    | inr f ↦
        rw (insert_server, e, f)
          (
            insert_server-All (Apart c) key conf cluster (Apart-comm conf c h.0) g.0,
            insert_server-Separate key conf cluster h.1 g.1,
          )
  ]
]

module _ (set : Setting) where
  place_server-IsCluster :
      (ports : List ℕ) (conf : ConfigStruct) (cluster : Cluster)
      → conf.listen ≡ ports
      → All (λ t. Apart conf t.1) cluster
      → IsCluster set cluster
      → IsConfig set.over set.client_max_body_size conf
      → Ensures (IsCluster set) (place_server ports conf cluster)
  unfolding place_server
  place_server-IsCluster [] conf cluster e n h g = tt
  place_server-IsCluster (port ∷ ports) conf cluster e n h g =
      elim (Bool-cases (is_empty conf.host)) [
        | inl x ↦ rw (place_server, x) tt
        | inr x ↦ elim (Bool-cases (is_empty conf.location)) [
          | inl y ↦ rw (place_server, x, y) tt
          | inr y ↦
              rw (place_server, x, y)
                (
                  insert_server-All (IsServer set) (key_of conf.host port) conf cluster
                      (record {
                        config_in = g;
                        has_listen = rw e refl;
                        has_host = x;
                        has_location = y;
                      })
                      h.0,
                  insert_server-Separate (key_of conf.host port) conf cluster n h.1,
                )
        ]
      ]

  add_server-IsCluster :
      (cluster : Cluster) (conf : ConfigStruct)
      → IsCluster set cluster
      → IsConfig set.over set.client_max_body_size conf
      → Ensures (IsCluster set) (add_server cluster conf)
  unfolding add_server
  add_server-IsCluster cluster conf h g = elim (Bool-cases (is_taken conf cluster)) [
    | inl e ↦ rw (add_server, e) tt
    | inr e ↦
        rw (add_server, e)
          (place_server-IsCluster conf.listen conf cluster refl (is_taken-Apart conf cluster e) h g)
  ]

  new_config-IsConfig : IsConfig set.over set.client_max_body_size (new_config set)
  new_config-IsConfig = record {
    ports_in = tt;
    ports_once = tt;
    host_in = refl;
    pages_in = tt;
    pages_once = tt;
    locations_in = tt;
    size_in = ground arith;
  }

  create_config_struct-IsCluster :
      (server : Bytes) (cluster : Cluster)
      → IsCluster set cluster
      → Ensures (IsCluster set) (create_config_struct set server cluster)
  unfolding create_config_struct
  create_config_struct-IsCluster server cluster h =
      elim (Bool-cases (contains (codes "server_name") server)) [
        | inr e ↦ rw (create_config_struct, e) tt
        | inl e ↦
            rw (create_config_struct, e)
              (Ensures-bind _ _ (single_server_config set.over server (new_config set)) _
                (single_server_config-IsConfig set.over set.client_max_body_size server
                  (new_config set) new_config-IsConfig)
                λ conf g. add_server-IsCluster cluster conf h g)
      ]

  scan_line-IsCluster :
      (s : Scan)
      → IsCluster set s.cluster
      → Ensures (λ t. IsCluster set t.cluster) (scan_line set s)
  unfolding scan_line parse_server_block
  scan_line-IsCluster s h = ground (
    arith,
    Ensures-bind (IsCluster set) (λ t. IsCluster set t.cluster)
        (create_config_struct set (clean_lines (segments_of b'\n' s.text)) s.cluster)
        (server_closed s)
        (create_config_struct-IsCluster (clean_lines (segments_of b'\n' s.text)) s.cluster h)
        (λ c g. g),
  )

  scan_next-IsCluster :
      (line : Bytes) (s : Scan)
      → IsCluster set s.cluster
      → Ensures (λ t. IsCluster set t.cluster) (scan_next set line s)
  unfolding scan_next
  scan_next-IsCluster [] s h = h
  scan_next-IsCluster (c ∷ line) s h = scan_line-IsCluster _ h

  scan_lines-IsCluster :
      (lines : List Bytes) (s : Scan)
      → IsCluster set s.cluster
      → Ensures (λ t. IsCluster set t.cluster) (scan_lines set lines s)
  unfolding scan_lines
  scan_lines-IsCluster [] s h = h
  scan_lines-IsCluster (l ∷ ls) s h =
      Ensures-bind _ _ (scan_next set l s) _ (scan_next-IsCluster l s h) (scan_lines-IsCluster ls)

  scan_end-IsCluster : (s : Scan) → IsCluster set s.cluster → Ensures (IsCluster set) (scan_end s)
  unfolding scan_end
  scan_end-IsCluster s h = ground arith

  -- Where `_checkBrackets` does not throw, each server is valid and has a port, a host and a location,
  -- and no two servers listen at the same host and port.
  pub check_brackets-IsCluster :
      (content : Bytes) → Ensures (IsCluster set) (check_brackets set content)
  unfolding check_brackets
  check_brackets-IsCluster content =
      Ensures-bind _ _ (scan_lines set (segments_of b'\n' content) new_scan) _
        (scan_lines-IsCluster (segments_of b'\n' content) new_scan (tt, tt)) scan_end-IsCluster
