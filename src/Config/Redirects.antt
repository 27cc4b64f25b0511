-- ===== src/Config/Redirects.antt =====
-- src/Config.cpp: `_checkRedirectionLoops`, `_checkDuplicateListenAddresses` and `StartToSet` on the
-- content of the file. `none` means that the fuel of a loop ran out.
pub mod Ends
pub mod Apart
use spy_socket.Config.{LocationStruct, ConfigStruct}
use spy_socket.Config.Cluster.{Cluster, Setting, check_brackets}
use spy_socket.Location.{Location, location_at}
use spy_socket.Prelude.{
  ℕ, zero, suc, ◌+◌, Bool, true, false, not, ◌&&◌, ◌||◌, List, [], ◌∷◌, ◌++◌, Option, none, some,
  ◌==◌, if◌then◌else◌, is_empty, length,
}
use spy_socket.Prelude.Except.{Except, ok, throw, ◌>>=◌}
use spy_socket.Prelude.Text.{Bytes, codes, str_eq, is_prefix}

-- A redirect that leaves the server.
unfoldable pub is_url : Bytes → Bool
is_url target = is_prefix (codes "http://") target || is_prefix (codes "https://") target

-- The two inner loops: `targetFound` and `nextTarget`. A location that redirects to a URL does not end
-- the search, and its URL stays in `nextTarget`.
unfoldable pub search : Cluster → Bytes → Bytes → Bool × Bytes
search [] target next_target = (false, next_target)
search (s ∷ cluster) target next_target = elim (location_at target s.1.location) [
  | none ↦ search cluster target next_target
  | some l ↦ elim (l.returns) [
    | [] ↦ (true, next_target)
    | r ∷ _ ↦ elim (is_url r.1) [ true ↦ search cluster target r.1 | false ↦ (true, r.1) ]
  ]
]

abbrev pub go_to : Bool × Bytes → Option Bytes
go_to (false, target) = none
go_to (true, []) = none
go_to (true, c ∷ target) = some (c ∷ target)

-- The target that the loop goes on with, if there is one.
unfoldable pub next_of : Cluster → Bytes → Option Bytes
next_of cluster target = go_to (search cluster target [])

unfoldable pub was_visited : Bytes → List Bytes → Bool
was_visited target [] = false
was_visited target (v ∷ visited) = str_eq v target || was_visited target visited

-- The loop from a target: has it come back to a text that it has visited?
unfoldable pub chain : ℕ → Cluster → List Bytes → Bytes → Option Bool
chain zero cluster visited target = none
chain (suc fuel) cluster visited target = elim (was_visited target visited) [
  | true ↦ some true
  | false ↦ elim (next_of cluster target) [
    | none ↦ some false
    | some t ↦ chain fuel cluster (target ∷ visited) t
  ]
]

abbrev loop_verdict : Bytes → Bytes → Option Bool → Option (Except (Unit {0}))
loop_verdict path target none = none
loop_verdict path target (some false) = some (ok tt)
loop_verdict path target (some true) =
    some (throw (codes "Redirection loop detected: " ++ (path ++ (codes " -> " ++ target))))

infixl 5 ◌then_check◌
abbrev ◌then_check◌ :
    Option (Except (Unit {0})) → Option (Except (Unit {0})) → Option (Except (Unit {0}))
none then_check k = none
some (throw e) then_check k = some (throw e)
some (ok _) then_check k = k

-- All the locations of all the servers.
unfoldable pub count_locations : Cluster → ℕ
count_locations [] = 0
count_locations (s ∷ cluster) = length s.1.location + count_locations cluster

-- A turn that goes on visits one more location.
unfoldable pub check_return : Cluster → Bytes → Bytes → Option (Except (Unit {0}))
check_return cluster path target =
    if is_url target
    then some (ok tt)
    else loop_verdict path target (chain (suc (count_locations cluster)) cluster (path ∷ []) target)

unfoldable pub check_returns : Cluster → Bytes → List (Bytes × Bytes) → Option (Except (Unit {0}))
check_returns cluster path [] = some (ok tt)
check_returns cluster path (r ∷ rs) =
    check_return cluster path r.1 then_check check_returns cluster path rs

unfoldable pub check_locations : Cluster → List Location → Option (Except (Unit {0}))
check_locations cluster [] = some (ok tt)
check_locations cluster (l ∷ ls) =
    check_returns cluster l.0 l.1.returns then_check check_locations cluster ls

unfoldable pub check_servers : Cluster → Cluster → Option (Except (Unit {0}))
check_servers cluster [] = some (ok tt)
check_servers cluster (s ∷ servers) =
    check_locations cluster s.1.location then_check check_servers cluster servers

unfoldable pub check_redirection_loops : Cluster → Option (Except (Unit {0}))
check_redirection_loops cluster = check_servers cluster cluster

-- `listenAddresses` as the list of its pairs.
unfoldable pub has_address : Bytes → ℕ → List (Bytes × ℕ) → Bool
has_address host port [] = false
has_address host port (a ∷ seen) = (str_eq a.0 host && a.1 == port) || has_address host port seen

unfoldable pub check_ports : Bytes → List ℕ → List (Bytes × ℕ) → Except (List (Bytes × ℕ))
check_ports host [] seen = ok seen
check_ports host (p ∷ ps) seen =
    if has_address host p seen
    then throw (codes "Duplicate listen address found")
    else check_ports host ps ((host, p) ∷ seen)

unfoldable pub check_addresses : Cluster → List (Bytes × ℕ) → Except (Unit {0})
check_addresses [] seen = ok tt
check_addresses (s ∷ cluster) seen =
    check_ports s.1.host s.1.listen seen >>= check_addresses cluster

unfoldable pub check_duplicate_listen_addresses : Cluster → Except (Unit {0})
check_duplicate_listen_addresses cluster = check_addresses cluster []

-- `StartToSet` behind the two checks, on the outcome of the first.
abbrev pub checked : Cluster → Option (Except (Unit {0})) → Option (Except Cluster)
checked cluster none = none
checked cluster (some (throw e)) = some (throw e)
checked cluster (some (ok _)) = some (check_duplicate_listen_addresses cluster >>= λ _. ok cluster)

abbrev pub check_cluster : Except Cluster → Option (Except Cluster)
check_cluster (throw e) = some (throw e)
check_cluster (ok cluster) = checked cluster (check_redirection_loops cluster)

-- The content is `none` where the file does not open.
unfoldable pub start_to_set : Setting → Option Bytes → Option (Except Cluster)
start_to_set set none =
    some (throw (codes "Failed to read from .conf file, check file existence and readrights"))
start_to_set set (some []) = some (throw (codes "Configuration file is empty"))
start_to_set set (some (c ∷ content)) = check_cluster (check_brackets set (c ∷ content))
