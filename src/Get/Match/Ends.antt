-- ===== src/Get/Match/Ends.antt =====
-- The loop of `matchLocation` in src/Methods/Get.cpp: its fuel and its results.
use spy_socket.Config.{LocationStruct}
use spy_socket.Delete.{allows, next_path}
use spy_socket.Delete.Loops.{shorter}
use spy_socket.Delete.Safe.{IsPlace, IsSplit, take_up}
use spy_socket.Get.Match.{Found, found, bad_substr, at_location, match_loop}
use spy_socket.Location.{Location, location_at}
use spy_socket.PathSecurity.{is_path_secure}
use spy_socket.Prelude.{
  ℕ, zero, suc, ◌<◌, ◌≢◌, true, List, [], ◌∷◌, ◌++◌, Option, none, some, ◌≡◌, refl, inl, inr, arith,
  Bool-cases, Option-cases, length, take, drop,
}
use spy_socket.Prelude.Text.{Bytes, codes, str_eq, find_last}

-- What a found path is.
pub record IsFound (ls : List Location) (uri name full : Bytes) : Type 0 where
  pub from : IsPlace ls uri full
  pub name_is : from.place ≡ name
  pub allowed : allows (codes "GET") from.location.allowed_methods ≡ true

at_location-IsFound :
    (ls : List Location) (l : LocationStruct) (path removed uri name full : Bytes)
    → location_at path ls ≡ some l
    → IsSplit path removed uri
    → at_location path l removed ≡ found name full
    → IsFound ls uri name full
unfolding at_location
at_location-IsFound ls l path removed uri name full f h e =
    elim (Bool-cases (allows (codes "GET") l.allowed_methods)) [
      | inr a ↦ absurd (ground arith)
      | inl a ↦ elim (Bool-cases (is_path_secure (drop 1 removed))) [
        | inr s ↦ absurd (ground arith)
        | inl s ↦ record {
          from = record {
            place = path;
            location = l;
            rest = removed;
            listed = f;
            path_is = ground arith;
            secure = s;
            split = h;
          };
          name_is = ground arith;
          allowed = a;
        }
      ]
    ]

pub match_loop-IsFound :
    (fuel : ℕ) (ls : List Location) (path removed uri name full : Bytes)
    → IsSplit path removed uri
    → match_loop fuel ls path removed ≡ some (found name full)
    → IsFound ls uri name full
unfolding match_loop
match_loop-IsFound zero ls path removed uri name full h e = cc
match_loop-IsFound (suc fuel) ls path removed uri name full h e =
    elim (Option-cases (location_at path ls)) [
      | inr (l, f) ↦ at_location-IsFound ls l path removed uri name full f h (ground arith)
      | inl f ↦ elim (Bool-cases (str_eq path (codes "/"))) [
        | inl s ↦ absurd (ground arith)
        | inr s ↦ elim (Option-cases (find_last b'/' path)) [
          | inl g ↦ absurd (ground arith)
          | inr (i, g) ↦
              match_loop-IsFound fuel ls (next_path i path) (drop i path ++ removed) uri name full
                (take_up i path removed uri s h) (ground arith)
        ]
      ]
    ]

-- An end of the loop that is no exception of substr.
abbrev pub Ends : Option Found → Type 0
Ends none = ⊥
Ends (some f) = f ≢ bad_substr

at_location-Ends :
    (path : Bytes) (l : LocationStruct) (removed : Bytes) → at_location path l removed ≢ bad_substr
unfolding at_location
at_location-Ends path l removed e = ground arith

-- A path that starts with a '/' has a last one, and what is left of it starts with one too.
find_last-head : (c : ℕ) (s : Bytes) → find_last c (c ∷ s) ≢ none
unfolding find_last
find_last-head c s e = ground arith

pub match_loop-Ends :
    (fuel : ℕ) (ls : List Location) (path rest removed : Bytes)
    → path ≡ b'/' ∷ rest
    → length path < fuel
    → Ends (match_loop fuel ls path removed)
unfolding match_loop
match_loop-Ends zero ls path rest removed p h = absurd (omega arith)
match_loop-Ends (suc fuel) ls path rest removed p h = elim (Option-cases (location_at path ls)) [
  | inr (l, e) ↦ rw (match_loop, e) (at_location-Ends path l removed)
  | inl e ↦ elim (Bool-cases (str_eq path (codes "/"))) [
    | inl s ↦ rw (match_loop, e, s) (λ q. cc)
    | inr s ↦ elim (Option-cases (find_last b'/' path)) [
      | inl f ↦ absurd (find_last-head b'/' rest (rw p at f))
      | inr (i, f) ↦
          rw (match_loop, e, s, f)
            (let (t, q) = kept i path rest p in
              match_loop-Ends fuel ls (next_path i path) t (drop i path ++ removed) q
                (omega (arith, shorter path i s f)))
    ]
  ]
]
  where
    kept :
        (i : ℕ) (path rest : Bytes)
        → path ≡ b'/' ∷ rest
        → (t : Bytes) × (next_path i path ≡ b'/' ∷ t)
    kept zero path rest p = ([], refl)
    kept (suc i) path rest p = (take i rest, rw p refl)
