-- ===== src/Delete/Safe.antt =====
-- `PerformDelete` of src/Methods/DELETE.cpp: the paths that it removes.
use spy_socket.Config.{LocationStruct, ConfigStruct}
use spy_socket.Location.{location_at, Location, get_location}
use spy_socket.Delete.{
  allows, allowed_loop, Files, Mapped, mapped, unmapped, insecure, bad_substr, next_path,
  check_if_allowed, without_query, map_loop, map_uri_to_path, Deletion, check_file, check_access,
  is_dir_empty, remove_it, delete_path, delete_mapped, delete_allowed, perform_delete,
}
use spy_socket.Delete.Loops.{map_loop-total, allowed_loop-total}
use spy_socket.PathSecurity.{is_path_secure}
use spy_socket.Prelude.{
  ◌∷◌, ℕ, zero, suc, ◌+◌, Bool, true, false, List, [], ◌++◌, Option, none, some, ◌≡◌, refl, sym, ap,
  ◌∙◌, ◌⊎◌, inl, inr, arith, Bool-cases, Option-cases, length, is_empty, take, drop, All, get_elem?,
  append-nil, not, ◌||◌, take-append-drop, append_assoc,
}
use spy_socket.Prelude.Text.{Bytes, codes, str_eq, str_eq_iff, find_last}

-- Where a path of the file system comes from: the uri is split into the path of a location and a
-- rest, or it is the rest of the location "/"; the root of that location and the rest make the path.
pub record IsPlace (ls : List Location) (uri path : Bytes) : Type 0 where
  pub place : Bytes
  pub location : LocationStruct
  pub rest : Bytes
  pub listed : location_at place ls ≡ some location
  pub path_is : path ≡ location.root ++ rest
  pub secure : is_path_secure (drop 1 rest) ≡ true
  pub split : (place ++ rest ≡ uri) ⊎ ((place ≡ codes "/") × (rest ≡ uri))

-- The text begins with the path, or the path is "/".
abbrev pub IsFront : Bytes → Bytes → Type 0
IsFront path uri = ((rest : Bytes) × (path ++ rest ≡ uri)) ⊎ (path ≡ codes "/")

-- A location that the target, as it stands with its query, begins with, or the location "/", lists the
-- method.
pub record IsAllowedBy (ls : List Location) (method uri : Bytes) : Type 0 where
  pub place : Bytes
  pub location : LocationStruct
  pub listed : location_at place ls ≡ some location
  pub front : IsFront place uri
  pub at : ℕ
  pub lists : get_elem? location.allowed_methods at ≡ some method

-- A path that may be removed for a request.
pub record IsDeletable (os : Files) (config : ConfigStruct) (uri path : Bytes) : Type 0 where
  pub allowed : IsAllowedBy config.location (codes "DELETE") uri
  pub opens : os.opens path ≡ true
  pub writable : os.writable path ≡ true
  pub vacant : (not (os.is_dir path) || is_dir_empty os path) ≡ true
  pub from : IsPlace config.location (without_query uri) path

abbrev pub IsSplit : Bytes → Bytes → Bytes → Type 0
IsSplit path removed uri = (path ++ removed ≡ uri) ⊎ ((path ≡ codes "/") × (removed ≡ uri))

pub take_up :
    (i : ℕ) (path removed uri : Bytes)
    → (str_eq path (codes "/") ≡ false)
    → IsSplit path removed uri
    → IsSplit (next_path i path) (drop i path ++ removed) uri
take_up i path removed uri n (inr (e, s)) = absurd (ground (arith, str_eq_iff path (codes "/")))
take_up zero path removed uri n (inl e) = inr (refl, e)
take_up (suc i) path removed uri n (inl e) = inl (
    sym (append_assoc (take (suc i) path) (drop (suc i) path) removed)
    ∙ (ap (λ z. z ++ removed) (take-append-drop (suc i) path) ∙ e))

allows-listed :
    (method : Bytes) (ms : List Bytes)
    → allows method ms ≡ true
    → (i : ℕ) × (get_elem? ms i ≡ some method)
unfolding allows
allows-listed method [] h = cc
allows-listed method (m ∷ ms) h = elim (Bool-cases (str_eq m method)) [
  | inl e ↦ (0, ap some ((str_eq_iff m method).0 e))
  | inr e ↦ let (i, found) = allows-listed method ms (ground arith) in (suc i, found)
]

next_path-IsFront :
    (i : ℕ) (path uri : Bytes)
    → (str_eq path (codes "/") ≡ false)
    → IsFront path uri
    → IsFront (next_path i path) uri
next_path-IsFront i path uri n (inr e) = absurd (ground (arith, str_eq_iff path (codes "/")))
next_path-IsFront zero path uri n (inl h) = inr refl
next_path-IsFront (suc i) path uri n (inl (rest, e)) = inl (
  drop (suc i) path ++ rest,
  sym (append_assoc (take (suc i) path) (drop (suc i) path) rest)
      ∙ (ap (λ z. z ++ rest) (take-append-drop (suc i) path) ∙ e),
)

allowed_loop-IsAllowedBy :
    (fuel : ℕ) (method : Bytes) (ls : List Location) (path uri : Bytes)
    → IsFront path uri
    → allowed_loop fuel method ls path ≡ some true
    → IsAllowedBy ls method uri
unfolding allowed_loop
allowed_loop-IsAllowedBy zero method ls path uri h e = cc
allowed_loop-IsAllowedBy (suc fuel) method ls path uri h e =
    elim (Option-cases (location_at path ls)) [
      | inr (l, f) ↦
          let (i, found) = allows-listed method l.allowed_methods (ground arith) in
          record { place = path; location = l; listed = f; front = h; at = i; lists = found }
      | inl f ↦ elim (Bool-cases (str_eq path (codes "/"))) [
        | inl s ↦ absurd (ground arith)
        | inr s ↦ elim (Option-cases (find_last b'/' path)) [
          | inl g ↦
              allowed_loop-IsAllowedBy fuel method ls (codes "/") uri (inr refl) (ground arith)
          | inr (i, g) ↦
              allowed_loop-IsAllowedBy fuel method ls (next_path i path) uri
                (next_path-IsFront i path uri s h) (ground arith)
        ]
      ]
    ]

check_if_allowed-IsAllowedBy :
    (config : ConfigStruct) (uri : Bytes)
    → check_if_allowed (codes "DELETE") config uri ≡ some true
    → IsAllowedBy config.location (codes "DELETE") uri
unfolding check_if_allowed
check_if_allowed-IsAllowedBy config uri =
    allowed_loop-IsAllowedBy (length uri + 2) (codes "DELETE") config.location uri uri
      (inl ([], append-nil uri))

map_loop-IsPlace :
    (fuel : ℕ) (ls : List Location) (path removed uri full : Bytes)
    → IsSplit path removed uri
    → map_loop fuel ls path removed ≡ some (mapped full)
    → IsPlace ls uri full
unfolding map_loop
map_loop-IsPlace zero ls path removed uri full h e = cc
map_loop-IsPlace (suc fuel) ls path removed uri full h e =
    elim (Option-cases (location_at path ls)) [
      | inr (l, f) ↦ elim (Bool-cases (is_path_secure (drop 1 removed))) [
        | inl s ↦ record {
          place = path;
          location = l;
          rest = removed;
          listed = f;
          path_is = ground arith;
          secure = s;
          split = h;
        }
        | inr s ↦ absurd (ground arith)
      ]
      | inl f ↦ elim (Bool-cases (str_eq path (codes "/"))) [
        | inl s ↦ absurd (ground arith)
        | inr s ↦ elim (Option-cases (find_last b'/' path)) [
          | inl g ↦ absurd (ground arith)
          | inr (i, g) ↦
              map_loop-IsPlace fuel ls (next_path i path) (drop i path ++ removed) uri full
                (take_up i path removed uri s h) (ground arith)
        ]
      ]
    ]

-- What a deletion must satisfy, on the outcome of mapUriToPath.
delete_path-IsDeletable :
    (os : Files) (config : ConfigStruct) (uri path : Bytes)
    → check_if_allowed (codes "DELETE") config uri ≡ some true
    → IsPlace config.location (without_query uri) path
    → All (IsDeletable os config uri) (delete_path os path).removed
unfolding delete_path check_file check_access remove_it
delete_path-IsDeletable os config uri path a p = elim (Bool-cases (os.opens path)) [
  | inr o ↦ rw (delete_path, check_file, o) tt
  | inl o ↦ elim (Bool-cases (os.writable path)) [
    | inr w ↦ elim (Bool-cases (os.is_dir path)) [
      | inr d ↦ rw (delete_path, check_file, check_access, o, d, w) tt
      | inl d ↦ rw (delete_path, check_file, check_access, o, d, w) tt
    ]
    | inl w ↦ elim (Bool-cases (os.is_dir path)) [
      | inr d ↦
          rw (delete_path, check_file, check_access, o, d, w)
            (
              record {
                allowed = check_if_allowed-IsAllowedBy config uri a;
                opens = o;
                writable = w;
                vacant = rw d refl;
                from = p;
              },
              tt,
            )
      | inl d ↦ elim (Bool-cases (is_dir_empty os path)) [
        | inr v ↦ rw (delete_path, check_file, check_access, o, d, w, v) tt
        | inl v ↦
            rw (delete_path, check_file, check_access, o, d, w, v)
              (
                record {
                  allowed = check_if_allowed-IsAllowedBy config uri a;
                  opens = o;
                  writable = w;
                  vacant = rw (d, v) refl;
                  from = p;
                },
                tt,
              )
      ]
    ]
  ]
]

-- A call that ends and removes only what may be removed.
abbrev pub IsDone : Files → ConfigStruct → Bytes → Option Deletion → Type 0
IsDone os config uri none = ⊥
IsDone os config uri (some d) = All (IsDeletable os config uri) d.removed

delete_mapped-IsDone :
    (os : Files) (config : ConfigStruct) (uri : Bytes) (m : Mapped)
    → check_if_allowed (codes "DELETE") config uri ≡ some true
    → map_uri_to_path uri config ≡ some m
    → IsDone os config uri (some (delete_mapped os m))
unfolding delete_mapped map_uri_to_path
delete_mapped-IsDone os config uri (mapped path) a e = elim (Bool-cases (is_empty path)) [
  | inl z ↦ rw (delete_mapped, z) tt
  | inr z ↦
      rw (delete_mapped, z)
        (delete_path-IsDeletable os config uri path a (
          map_loop-IsPlace (length (without_query uri) + 1) config.location (without_query uri) []
            (without_query uri) path (inl (append-nil (without_query uri))) e))
]
delete_mapped-IsDone os config uri unmapped a e = tt
delete_mapped-IsDone os config uri insecure a e = tt
delete_mapped-IsDone os config uri bad_substr a e = tt

delete_allowed-IsDone :
    (os : Files) (config : ConfigStruct) (uri : Bytes) (b : Bool)
    → check_if_allowed (codes "DELETE") config uri ≡ some b
    → IsDone os config uri (delete_allowed os uri config (some b))
unfolding delete_allowed map_uri_to_path
delete_allowed-IsDone os config uri false a = tt
delete_allowed-IsDone os config uri true a = elim (Option-cases (map_uri_to_path uri config)) [
  | inl e ↦ absurd (
      ground (
        arith,
        map_loop-total (length (without_query uri) + 1) config.location (without_query uri) []
            (omega arith),
      ))
  | inr (m, e) ↦ rw (delete_allowed, e) (delete_mapped-IsDone os config uri m a e)
]

-- PerformDelete ends on every request target. Each path that it calls std::remove on opens as a
-- file, is writable, is empty if it is a directory, and is the root of one of the locations with
-- a rest of the path of the target that is_path_secure accepts; and DELETE is in the list of
-- methods of a location whose path the target, as it stands with its query, begins with, or of
-- the location "/". (These two locations need not be the same, since only one of the two searches
-- cuts the query off.)
pub perform_delete-IsDone :
    (os : Files) (unset : LocationStruct) (uri : Bytes) (config : ConfigStruct)
    → IsDone os config uri (perform_delete os unset uri config)
unfolding check_if_allowed perform_delete
perform_delete-IsDone os unset uri config =
    elim (Bool-cases (is_empty (get_location unset uri config).0)) [
      | inl e ↦ rw (perform_delete, e) tt
      | inr e ↦ elim (Bool-cases (is_empty (get_location unset uri config).1.returns)) [
        | inr r ↦ rw (perform_delete, e, r) tt
        | inl r ↦ elim (Option-cases (check_if_allowed (codes "DELETE") config uri)) [
          | inl a ↦ absurd (
              ground (
                arith,
                allowed_loop-total (length uri + 1) (codes "DELETE") config.location uri
                    (omega arith),
              ))
          | inr (b, a) ↦ rw (perform_delete, e, r, a) (delete_allowed-IsDone os config uri b a)
        ]
      ]
    ]
