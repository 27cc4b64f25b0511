-- ===== src/Config/Redirects/Apart.antt =====
-- `_checkDuplicateListenAddresses` of src/Config.cpp behind `_checkBrackets`, and `StartToSet`.
use spy_socket.Config.{ConfigStruct}
use spy_socket.Config.Cluster.{Cluster, Setting, check_brackets, shares_port}
use spy_socket.Config.Cluster.Valid.{shares_port-cons, Apart, IsCluster, check_brackets-IsCluster}
use spy_socket.Config.Redirects.{
  has_address, check_ports, check_addresses, check_duplicate_listen_addresses, checked,
  check_cluster, check_redirection_loops, start_to_set,
}
use spy_socket.Config.Redirects.Ends.{AllLeave, Shows, check_redirection_loops-Shows}
use spy_socket.Config.Server.{has_port}
use spy_socket.Config.Server.Valid.{Once}
use spy_socket.Prelude.{
  ℕ, false, ◌&&◌, ◌||◌, List, [], ◌∷◌, Option, none, some, ◌≡◌, refl, arith, All,
}
use spy_socket.Prelude.Except.{Except, ok, throw, Ensures, Ensures-ok}
use spy_socket.Prelude.Text.{Bytes, str_eq}

-- What `check_ports` adds.
abbrev all_seen : Bytes → List ℕ → List (Bytes × ℕ) → List (Bytes × ℕ)
all_seen host [] seen = seen
all_seen host (p ∷ ps) seen = all_seen host ps ((host, p) ∷ seen)

has_address-all_seen :
    (h : Bytes) (q : ℕ) (host : Bytes) (ps : List ℕ) (seen : List (Bytes × ℕ))
    → has_address h q (all_seen host ps seen)
      ≡ (str_eq host h && has_port q ps) || has_address h q seen
unfolding has_address has_port
has_address-all_seen h q host [] seen = ground arith
has_address-all_seen h q host (p ∷ ps) seen =
    ground (arith, has_address-all_seen h q host ps ((host, p) ∷ seen))

-- None of the ports has been seen for the host.
abbrev Unseen : List (Bytes × ℕ) → Bytes → List ℕ → Type 0
Unseen seen host = All (λ p. has_address host p seen ≡ false)

Unseen-cons :
    (seen : List (Bytes × ℕ)) (host : Bytes) (p : ℕ) (ps : List ℕ)
    → has_port p ps ≡ false
    → Unseen seen host ps
    → Unseen ((host, p) ∷ seen) host ps
unfolding has_address has_port
Unseen-cons seen host p [] n h = tt
Unseen-cons seen host p (q ∷ ps) n h =
    (ground (arith, h.0), Unseen-cons seen host p ps (ground arith) h.1)

check_ports-ok :
    (host : Bytes) (ps : List ℕ) (seen : List (Bytes × ℕ))
    → Once ps
    → Unseen seen host ps
    → check_ports host ps seen ≡ ok (all_seen host ps seen)
unfolding check_ports
check_ports-ok host [] seen o h = refl
check_ports-ok host (p ∷ ps) seen o h =
    rw (check_ports, h.0)
      (check_ports-ok host ps ((host, p) ∷ seen) o.1 (Unseen-cons seen host p ps o.0 h.1))

-- Two servers that are apart: the ports of one are not seen as those of the other.
Unseen-all_seen :
    (c : ConfigStruct) (host : Bytes) (ps qs : List ℕ) (seen : List (Bytes × ℕ))
    → (str_eq c.host host && shares_port ps qs) ≡ false
    → Unseen seen host qs
    → Unseen (all_seen c.host ps seen) host qs
Unseen-all_seen c host ps [] seen a h = tt
Unseen-all_seen c host ps (q ∷ qs) seen a h = (
  ground (arith, h.0, has_address-all_seen host q c.host ps seen, shares_port-cons ps qs q),
  Unseen-all_seen c host ps qs seen (ground (arith, shares_port-cons ps qs q)) h.1,
)

Unseen-servers :
    (c : ConfigStruct) (seen : List (Bytes × ℕ)) (cluster : Cluster)
    → All (λ t. Apart c t.1) cluster
    → All (λ t. Unseen seen t.1.host t.1.listen) cluster
    → All (λ t. Unseen (all_seen c.host c.listen seen) t.1.host t.1.listen) cluster
Unseen-servers c seen [] a h = tt
Unseen-servers c seen (t ∷ cluster) a h = (
  Unseen-all_seen c t.1.host c.listen t.1.listen seen a.0 h.0,
  Unseen-servers c seen cluster a.1 h.1,
)

check_addresses-ok :
    (set : Setting) (cluster : Cluster) (seen : List (Bytes × ℕ))
    → IsCluster set cluster
    → All (λ t. Unseen seen t.1.host t.1.listen) cluster
    → check_addresses cluster seen ≡ ok tt
unfolding check_addresses
check_addresses-ok set [] seen h u = refl
check_addresses-ok set (s ∷ cluster) seen h u =
    rw (check_addresses, check_ports-ok s.1.host s.1.listen seen h.0.0.config_in.ports_once u.0)
      (check_addresses-ok set cluster (all_seen s.1.host s.1.listen seen) (h.0.1, h.1.1)
        (Unseen-servers s.1 seen cluster h.1.0 u.1))

nothing_seen : (cluster : Cluster) → All (λ t. Unseen [] t.1.host t.1.listen) cluster
nothing_seen [] = tt
nothing_seen (s ∷ cluster) = (no_ports s.1.listen, nothing_seen cluster)
  where
    no_ports : (ps : List ℕ) → Unseen [] s.1.host ps
    no_ports [] = tt
    no_ports (p ∷ ps) = (unfold has_address in refl, no_ports ps)

-- `_checkDuplicateListenAddresses` lets each configuration pass that `_checkBrackets` returns.
pub check_duplicate_listen_addresses-ok :
    (set : Setting) (content : Bytes) (cluster : Cluster)
    → check_brackets set content ≡ ok cluster
    → check_duplicate_listen_addresses cluster ≡ ok tt
unfolding check_duplicate_listen_addresses
check_duplicate_listen_addresses-ok set content cluster e =
    check_addresses-ok set cluster []
      (Ensures-ok (IsCluster set) (check_brackets set content) cluster
        (check_brackets-IsCluster set content) e)
      (nothing_seen cluster)

-- The start ends, and `P` holds of a configuration that it accepts.
abbrev pub Starts : (Cluster → Type 0) → Option (Except Cluster) → Type 0
Starts P none = ⊥
Starts P (some r) = Ensures P r

abbrev pub IsReady : Setting → Cluster → Type 0
IsReady set cluster = IsCluster set cluster × AllLeave cluster cluster

checked-Starts :
    (set : Setting) (cluster : Cluster) (r : Option (Except (Unit {0})))
    → IsCluster set cluster
    → Shows (AllLeave cluster cluster) r
    → Starts (IsReady set) (checked cluster r)
unfolding check_duplicate_listen_addresses
checked-Starts set cluster none h g = g
checked-Starts set cluster (some (throw e)) h g = tt
checked-Starts set cluster (some (ok _)) h g =
    rw (check_addresses-ok set cluster [] h (nothing_seen cluster)) (h, g)

check_cluster-Starts :
    (set : Setting) (r : Except Cluster)
    → Ensures (IsCluster set) r
    → Starts (IsReady set) (check_cluster r)
check_cluster-Starts set (throw e) h = tt
check_cluster-Starts set (ok cluster) h =
    checked-Starts set cluster (check_redirection_loops cluster) h
      (check_redirection_loops-Shows cluster)

-- StartToSet ends on every file, with an exception or a configuration. In the configuration each
-- server is valid and has a port, a host and a location, no two servers listen at the same host
-- and port, and each target of a redirect is a URL, or following the redirects from it, as the
-- check does, by locations of just that path, comes to an end.
pub start_to_set-Starts :
    (set : Setting) (content : Option Bytes) → Starts (IsReady set) (start_to_set set content)
unfolding start_to_set
start_to_set-Starts set none = tt
start_to_set-Starts set (some []) = tt
start_to_set-Starts set (some (c ∷ content)) =
    check_cluster-Starts set (check_brackets set (c ∷ content))
      (check_brackets-IsCluster set (c ∷ content))
