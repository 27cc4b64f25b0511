-- ===== src/Config/Redirects/Ends.antt =====
-- `_checkRedirectionLoops` of src/Config.cpp: the fuel of its loop, and the redirects of a
-- configuration that it lets pass.
use spy_socket.Config.{LocationStruct}
use spy_socket.Config.Cluster.{Cluster}
use spy_socket.Config.Redirects.{
  is_url, search, go_to, next_of, was_visited, chain, count_locations, check_return, check_returns,
  check_locations, check_servers, check_redirection_loops, loop_verdict, ◌then_check◌,
}
use spy_socket.Location.{Location, location_at}
use spy_socket.Prelude.{
  ℕ, zero, suc, ◌+◌, ◌≤◌, ◌<◌, Bool, true, false, List, [], ◌∷◌, Option, none, some, ◌≡◌, refl, ap,
  ◌∙◌, ◌⊎◌, inl, inr, arith, Bool-cases, Option-cases, if◌then◌else◌, length, All,
}
use spy_socket.Prelude.Except.{Except, ok, throw}
use spy_socket.Prelude.Text.{Bytes, str_eq, str_eq_iff}

-- Following the redirects from a target comes to an end.
pub data Ends (cluster : Cluster) : Bytes → Type 0 where
  stops : (t : Bytes) → next_of cluster t ≡ none → Ends cluster t
  goes : (t u : Bytes) → next_of cluster t ≡ some u → Ends cluster u → Ends cluster t

-- The locations that have not been visited.
abbrev unseen_in : List Bytes → List Location → ℕ
unseen_in visited [] = 0
unseen_in visited (l ∷ ls) = (if was_visited l.0 visited then 0 else 1) + unseen_in visited ls

abbrev unseen : List Bytes → Cluster → ℕ
unseen visited [] = 0
unseen visited (s ∷ cluster) = unseen_in visited s.1.location + unseen visited cluster

unseen_in-length : (visited : List Bytes) (ls : List Location) → unseen_in visited ls ≤ length ls
unseen_in-length visited [] = omega arith
unseen_in-length visited (l ∷ ls) = ground (arith, unseen_in-length visited ls)

unseen-count_locations :
    (visited : List Bytes) (cluster : Cluster) → unseen visited cluster ≤ count_locations cluster
unfolding count_locations
unseen-count_locations visited [] = omega arith
unseen-count_locations visited (s ∷ cluster) =
    omega (arith, unseen_in-length visited s.1.location, unseen-count_locations visited cluster)

unseen_in-cons :
    (t : Bytes) (visited : List Bytes) (ls : List Location)
    → unseen_in (t ∷ visited) ls ≤ unseen_in visited ls
unfolding was_visited
unseen_in-cons t visited [] = omega arith
unseen_in-cons t visited (l ∷ ls) = ground (arith, unseen_in-cons t visited ls)

unseen_in-found :
    (t : Bytes) (visited : List Bytes) (ls : List Location) (l : LocationStruct)
    → location_at t ls ≡ some l
    → was_visited t visited ≡ false
    → unseen_in (t ∷ visited) ls < unseen_in visited ls
unfolding location_at was_visited
unseen_in-found t visited [] l e n = cc
unseen_in-found t visited (k ∷ ls) l e n = elim (Bool-cases (str_eq t k.0)) [
  | inl same ↦ ground (arith, (str_eq_iff t k.0).0 same, unseen_in-cons t visited ls)
  | inr other ↦ ground (arith, unseen_in-found t visited ls l, unseen_in-cons t visited (k ∷ []))
]

unseen-cons :
    (t : Bytes) (visited : List Bytes) (cluster : Cluster)
    → unseen (t ∷ visited) cluster ≤ unseen visited cluster
unseen-cons t visited [] = omega arith
unseen-cons t visited (s ∷ cluster) =
    omega (arith, unseen_in-cons t visited s.1.location, unseen-cons t visited cluster)

-- Where the search has found something, the target is one of the locations.
search-unseen :
    (t : Bytes) (visited : List Bytes) (cluster : Cluster) (u : Bytes)
    → (search cluster t u).0 ≡ true
    → was_visited t visited ≡ false
    → unseen (t ∷ visited) cluster < unseen visited cluster
unfolding search
search-unseen t visited [] u e n = cc
search-unseen t visited (s ∷ cluster) u e n = elim (Option-cases (location_at t s.1.location)) [
  | inr (l, f) ↦
      omega (arith, unseen_in-found t visited s.1.location l f n, unseen-cons t visited cluster)
  | inl f ↦ omega (
    arith,
    unseen_in-cons t visited s.1.location,
    search-unseen t visited cluster u (rw (search, f) at e) n,
  )
]

go_to-found : (r : Bool × Bytes) (u : Bytes) → go_to r ≡ some u → r.0 ≡ true
go_to-found (true, t) u e = refl
go_to-found (false, t) u e = cc

chain-total :
    (fuel : ℕ) (cluster : Cluster) (visited : List Bytes) (t : Bytes)
    → unseen visited cluster < fuel
    → (b : Bool) × (chain fuel cluster visited t ≡ some b)
unfolding chain
chain-total zero cluster visited t h = absurd (omega arith)
chain-total (suc fuel) cluster visited t h = elim (Bool-cases (was_visited t visited)) [
  | inl v ↦ (true, rw (chain, v) refl)
  | inr v ↦ elim (Option-cases (next_of cluster t)) [
    | inl e ↦ (false, rw (chain, v, e) refl)
    | inr (u, e) ↦
        let less =
          search-unseen t visited cluster []
            (go_to-found (search cluster t []) u (unfold next_of in e)) v in
        let (b, f) = chain-total fuel cluster (t ∷ visited) u (omega (arith, less)) in
        (b, rw (chain, v, e) f)
  ]
]

chain-Ends :
    (fuel : ℕ) (cluster : Cluster) (visited : List Bytes) (t : Bytes)
    → chain fuel cluster visited t ≡ some false
    → Ends cluster t
unfolding chain
chain-Ends zero cluster visited t h = cc
chain-Ends (suc fuel) cluster visited t h = elim (Bool-cases (was_visited t visited)) [
  | inl v ↦ absurd (ground arith)
  | inr v ↦ elim (Option-cases (next_of cluster t)) [
    | inl e ↦ Ends.stops t e
    | inr (u, e) ↦ Ends.goes t u e (chain-Ends fuel cluster (t ∷ visited) u (ground arith))
  ]
]

-- A target of a redirect that leads out of the server, or to an end within it.
abbrev pub Leaves : Cluster → Bytes → Type 0
Leaves cluster t = (is_url t ≡ true) ⊎ Ends cluster t

-- A check that ends, and that shows `P` where it lets pass.
abbrev pub Shows : Type 0 → Option (Except (Unit {0})) → Type 0
Shows P none = ⊥
Shows P (some (throw e)) = Unit
Shows P (some (ok _)) = P

Shows-then :
    (P Q : Type 0) (m k : Option (Except (Unit {0})))
    → Shows P m
    → Shows Q k
    → Shows (P × Q) (m then_check k)
Shows-then P Q none k h g = h
Shows-then P Q (some (throw e)) k h g = tt
Shows-then P Q (some (ok _)) none h g = g
Shows-then P Q (some (ok _)) (some (throw e)) h g = tt
Shows-then P Q (some (ok _)) (some (ok _)) h g = (h, g)

loop_verdict-Shows :
    (cluster : Cluster) (path target : Bytes) (b : Bool)
    → (b ≡ false → Ends cluster target)
    → Shows (Leaves cluster target) (loop_verdict path target (some b))
loop_verdict-Shows cluster path target true h = tt
loop_verdict-Shows cluster path target false h = inr (h refl)

Shows-if :
    (P : Type 0) (b : Bool) (m : Option (Except (Unit {0})))
    → (b ≡ true → P)
    → Shows P m
    → Shows P (if b then some (ok tt) else m)
Shows-if P true m h g = h refl
Shows-if P false m h g = g

check_return-Shows :
    (cluster : Cluster) (path target : Bytes)
    → Shows (Leaves cluster target) (check_return cluster path target)
unfolding check_return
check_return-Shows cluster path target =
    let (b, f) =
      chain-total (suc (count_locations cluster)) cluster (path ∷ []) target
        (omega (arith, unseen-count_locations (path ∷ []) cluster)) in
    Shows-if (Leaves cluster target) (is_url target) _ inl (
      rw f (
        loop_verdict-Shows cluster path target b
          λ g. chain-Ends _ cluster (path ∷ []) target (f ∙ ap some g)))

abbrev Returns : Cluster → List (Bytes × Bytes) → Type 0
Returns cluster = All (λ r. Leaves cluster r.1)

check_returns-Shows :
    (cluster : Cluster) (path : Bytes) (rs : List (Bytes × Bytes))
    → Shows (Returns cluster rs) (check_returns cluster path rs)
unfolding check_returns
check_returns-Shows cluster path [] = tt
check_returns-Shows cluster path (r ∷ rs) =
    Shows-then _ _ (check_return cluster path r.1) _ (check_return-Shows cluster path r.1)
      (check_returns-Shows cluster path rs)

check_locations-Shows :
    (cluster : Cluster) (ls : List Location)
    → Shows (All (λ l. Returns cluster l.1.returns) ls) (check_locations cluster ls)
unfolding check_locations
check_locations-Shows cluster [] = tt
check_locations-Shows cluster (l ∷ ls) =
    Shows-then _ _ (check_returns cluster l.0 l.1.returns) _
      (check_returns-Shows cluster l.0 l.1.returns) (check_locations-Shows cluster ls)

-- Every redirect of every location of the servers leads out of the server or to an end within it.
abbrev pub AllLeave : Cluster → Cluster → Type 0
AllLeave cluster = All (λ s. All (λ l. Returns cluster l.1.returns) s.1.location)

check_servers-Shows :
    (cluster servers : Cluster) → Shows (AllLeave cluster servers) (check_servers cluster servers)
unfolding check_servers
check_servers-Shows cluster [] = tt
check_servers-Shows cluster (s ∷ servers) =
    Shows-then _ _ (check_locations cluster s.1.location) _
      (check_locations-Shows cluster s.1.location) (check_servers-Shows cluster servers)

-- `_checkRedirectionLoops` ends on every configuration. Where it lets a configuration pass, each target
-- of a redirect is a URL, or following the redirects from it, as the check does, comes to an end.
pub check_redirection_loops-Shows :
    (cluster : Cluster) → Shows (AllLeave cluster cluster) (check_redirection_loops cluster)
unfolding check_redirection_loops
check_redirection_loops-Shows cluster = check_servers-Shows cluster cluster
