-- ===== src/Location.antt =====
-- src/POST/match_location.cpp: the location of the configuration that serves a path.
use spy_socket.Config.{LocationStruct, ConfigStruct}
use spy_socket.Prelude.{
  ℕ, suc, ◌≤◌, true, false, ◌&&◌, List, [], ◌∷◌, Option, none, some, ◌≡◌, refl, sym, ap, ◌⊎◌, inl,
  inr, arith, Bool-cases, ltb, if◌then◌else◌, length, is_empty, get_elem?, All,
}
use spy_socket.Prelude.Text.{Bytes, is_prefix, str_eq}

abbrev pub Location : Type 0
Location = Bytes × LocationStruct

-- The loops that look for the location with just this path, as in mapUriToPath.
unfoldable pub location_at : Bytes → List Location → Option LocationStruct
location_at path [] = none
location_at path (l ∷ ls) =
    let later = location_at path ls in if str_eq path l.0 then some l.1 else later

-- The loop; `best` is `bestMatch` and `bestLocation`, and `bestLength` is the length of `bestMatch`.
unfoldable pub best_of : Bytes → List Location → Location → Location
best_of path [] best = best
best_of path (l ∷ ls) best =
    best_of path ls (if is_prefix l.0 path && ltb (length best.0) (length l.0) then l else best)

-- `unset` is what `bestLocation` holds when no location matches.
unfoldable pub get_location : LocationStruct → Bytes → ConfigStruct → Location
get_location unset request_path server =
    let best = best_of request_path server.location ([], unset) in
    if is_empty best.0 then ([], best.1) else best

-- What a search for the longest matching location returns.
pub record IsBest (path : Bytes) (ls : List Location) (best r : Location) : Type 0 where
  pub matches : is_prefix r.0 path ≡ true
  pub grows : length best.0 ≤ length r.0
  pub longest : All (λ l. (is_prefix l.0 path && ltb (length r.0) (length l.0)) ≡ false) ls
  pub found : (r ≡ best) ⊎ ((i : ℕ) × (get_elem? ls i ≡ some r))

best_of-IsBest :
    (path : Bytes) (ls : List Location) (best : Location)
    → is_prefix best.0 path ≡ true
    → IsBest path ls best (best_of path ls best)
unfolding best_of
best_of-IsBest path [] best h = record {
  matches = h;
  grows = omega arith;
  longest = tt;
  found = inl refl;
}
best_of-IsBest path (l ∷ ls) best h =
    elim (Bool-cases (is_prefix l.0 path && ltb (length best.0) (length l.0))) [
      | inl e ↦
          let r = best_of-IsBest path ls l (ground arith) in
          rw e (record {
            matches = r.matches;
            grows = ground (arith, r.grows);
            longest = (ground (arith, r.grows), r.longest);
            found = elim r.found [
              | inl s ↦ inr (0, sym (ap (λ z. some z) s))
              | inr (i, s) ↦ inr (suc i, s)
            ];
          })
      | inr e ↦
          let r = best_of-IsBest path ls best h in
          rw e (record {
            matches = r.matches;
            grows = r.grows;
            longest = (ground (arith, r.grows), r.longest);
            found = elim r.found [ inl s ↦ inl s | inr (i, s) ↦ inr (suc i, s) ];
          })
    ]

-- The branches at the end of `get_location` return the best location as it is.
same_best : (best : Location) → (if is_empty best.0 then ([], best.1) else best) ≡ best
same_best ([], l) = refl
same_best (c ∷ p, l) = refl

-- `get_location` returns a location whose path is a prefix of the request's path and that is no
-- shorter than any location of the server whose path is one. It is one of the server's locations,
-- or it is the empty path with the unset location.
pub get_location-IsBest :
    (unset : LocationStruct) (path : Bytes) (server : ConfigStruct)
    → IsBest path server.location ([], unset) (get_location unset path server)
unfolding get_location is_prefix
get_location-IsBest unset path server =
    rw (same_best (best_of path server.location ([], unset)))
      (best_of-IsBest path server.location ([], unset) refl)
