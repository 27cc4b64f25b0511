-- ===== src/Delete/Loops.antt =====
-- The loops of `checkIfAllowed` and `mapUriToPath` in src/Methods/DELETE.cpp, and their fuel.
use spy_socket.Location.{location_at, Location}
use spy_socket.Delete.{next_path, allowed_loop, map_loop}
use spy_socket.Prelude.{
  ℕ, zero, suc, ◌<◌, true, false, List, [], ◌∷◌, ◌++◌, some, ◌≡◌, refl, inl, inr, arith, Bool-cases,
  Option-cases, length, drop, is_some, length-take,
}
use spy_socket.Prelude.Text.{Bytes, codes, str_eq, find_last}

pub find_last-length : (c : ℕ) (s : Bytes) (i : ℕ) → find_last c s ≡ some i → i < length s
unfolding find_last
find_last-length c [] i h = cc
find_last-length c (x ∷ s) i h = elim (Option-cases (find_last c s)) [
  | inl e ↦ ground arith
  | inr (j, e) ↦ ground (arith, find_last-length c s j e)
]

pub find_last-zero : (c : ℕ) (s : Bytes) → find_last c s ≡ some 0 → (t : Bytes) × (s ≡ c ∷ t)
unfolding find_last
find_last-zero c [] h = cc
find_last-zero c (x ∷ s) h = elim (Option-cases (find_last c s)) [
  | inl e ↦ (s, ground arith)
  | inr (j, e) ↦ absurd (ground arith)
]

slash_only :
    (t path : Bytes) → path ≡ b'/' ∷ t → (str_eq path (codes "/") ≡ false) → 1 < length path
unfolding str_eq
slash_only [] path e n = ground arith
slash_only (x ∷ t) path e n = rw e (omega arith)

-- A turn of the loops shortens a path other than "/".
pub shorter :
    (path : Bytes) (i : ℕ)
    → (str_eq path (codes "/") ≡ false)
    → find_last b'/' path ≡ some i
    → length (next_path i path) < length path
unfolding str_eq
shorter path (suc i) n e =
    ground (arith, find_last-length b'/' path (suc i) e, length-take (suc i) path)
shorter path zero n e = let (t, s) = find_last-zero b'/' path e in slash_only t path s n

pub map_loop-total :
    (fuel : ℕ) (ls : List Location) (path removed : Bytes)
    → length path < fuel
    → is_some (map_loop fuel ls path removed) ≡ true
unfolding map_loop
map_loop-total zero ls path removed h = absurd (omega arith)
map_loop-total (suc fuel) ls path removed h = elim (Option-cases (location_at path ls)) [
  | inr (l, e) ↦ rw (map_loop, e) refl
  | inl e ↦ elim (Bool-cases (str_eq path (codes "/"))) [
    | inl s ↦ rw (map_loop, e, s) refl
    | inr s ↦ elim (Option-cases (find_last b'/' path)) [
      | inl f ↦ rw (map_loop, e, s, f) refl
      | inr (i, f) ↦
          rw (map_loop, e, s, f)
            (map_loop-total fuel ls (next_path i path) (drop i path ++ removed)
              (omega (arith, shorter path i s f)))
    ]
  ]
]

allowed_loop-root :
    (fuel : ℕ) (method : Bytes) (ls : List Location)
    → is_some (allowed_loop (suc fuel) method ls (codes "/")) ≡ true
unfolding allowed_loop str_eq
allowed_loop-root fuel method ls = elim (Option-cases (location_at (codes "/") ls)) [
  | inr (l, e) ↦ rw (allowed_loop, e) refl
  | inl e ↦ rw (allowed_loop, e) refl
]

pub allowed_loop-total :
    (fuel : ℕ) (method : Bytes) (ls : List Location) (path : Bytes)
    → length path < fuel
    → is_some (allowed_loop (suc fuel) method ls path) ≡ true
unfolding allowed_loop
allowed_loop-total zero method ls path h = absurd (omega arith)
allowed_loop-total (suc fuel) method ls path h = elim (Option-cases (location_at path ls)) [
  | inr (l, e) ↦ rw (allowed_loop, e) refl
  | inl e ↦ elim (Bool-cases (str_eq path (codes "/"))) [
    | inl s ↦ rw (allowed_loop, e, s) refl
    | inr s ↦ elim (Option-cases (find_last b'/' path)) [
      | inl f ↦ rw (allowed_loop, e, s, f) (allowed_loop-root fuel method ls)
      | inr (i, f) ↦
          rw (allowed_loop, e, s, f)
            (allowed_loop-total fuel method ls (next_path i path)
              (omega (arith, shorter path i s f)))
    ]
  ]
]
