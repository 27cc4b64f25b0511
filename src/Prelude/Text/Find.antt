-- ===== src/Prelude/Text/Find.antt =====
-- The searches of std::string: positions of an occurrence, and text with more behind it.
use Prim.Native.Nat.{ℕ, ◌+◌, ◌≤◌}
use mathlib.Core.Path.{◌≡◌, refl}
use mathlib.Core.Logic.{inl, inr}
use mathlib.Core.Bool.{true}
use mathlib.Core.Option.{some}
use mathlib.Core.List.{[], ◌∷◌, ◌++◌}
use native.Mathlib.Omega.{arith}
use spy_socket.Prelude.Tests.{Option-cases}
use spy_socket.Prelude.Lists.{length, drop, length-append, drop-append, length-drop}
use spy_socket.Prelude.Text.{Bytes, is_prefix, find, find_from}

is_prefix-length : (pat s : Bytes) → is_prefix pat s ≡ true → length pat ≤ length s
unfolding is_prefix
is_prefix-length [] s h = omega arith
is_prefix-length (x ∷ pat) [] h = cc
is_prefix-length (x ∷ pat) (y ∷ s) h = ground (arith, is_prefix-length pat s)

is_prefix-append :
    (pat s t : Bytes) → length pat ≤ length s → is_prefix pat (s ++ t) ≡ is_prefix pat s
unfolding is_prefix
is_prefix-append [] s t h = refl
is_prefix-append (x ∷ pat) [] t h = absurd (omega arith)
is_prefix-append (x ∷ pat) (y ∷ s) t h = ground (arith, is_prefix-append pat s t)

pub find-length : (pat s : Bytes) (i : ℕ) → find pat s ≡ some i → i + length pat ≤ length s
unfolding find
find-length [] [] i h = ground arith
find-length (x ∷ pat) [] i h = cc
find-length pat (c ∷ s) i h = elim (Option-cases (find pat s)) [
  | inl e ↦ ground (arith, is_prefix-length pat (c ∷ s))
  | inr (j, e) ↦ ground (arith, is_prefix-length pat (c ∷ s), find-length pat s j e)
]

-- An occurrence stays the first one when bytes are appended.
pub find-append : (pat s t : Bytes) (i : ℕ) → find pat s ≡ some i → find pat (s ++ t) ≡ some i
unfolding find is_prefix
find-append [] [] [] i h = h
find-append [] [] (c ∷ t) i h = h
find-append (x ∷ pat) [] t i h = cc
find-append (x ∷ pat) (c ∷ s) t i h = elim (Option-cases (find (x ∷ pat) s)) [
  | inl e ↦ ground (arith, is_prefix-length (x ∷ pat) (c ∷ s), is_prefix-append (x ∷ pat) (c ∷ s) t)
  | inr (j, e) ↦ ground (
    arith,
    find-length (x ∷ pat) s j e,
    is_prefix-append (x ∷ pat) (c ∷ s) t,
    find-append (x ∷ pat) s t j e,
  )
]
find-append [] (c ∷ s) t i h = h

-- The same from a start position.
pub find_from-append :
    (pat s t : Bytes) (pos i : ℕ)
    → find_from pat s pos ≡ some i
    → find_from pat (s ++ t) pos ≡ some i
unfolding find_from
find_from-append pat s t pos i h = elim (Option-cases (find pat (drop pos s))) [
  | inl e ↦ ground arith
  | inr (j, e) ↦
      ground (arith, length-append s t, drop-append pos s t, find-append pat (drop pos s) t j e)
]

pub find_from-range :
    (pat s : Bytes) (pos i : ℕ)
    → find_from pat s pos ≡ some i
    → (pos ≤ i) × (i + length pat ≤ length s)
unfolding find_from
find_from-range pat s pos i h = elim (Option-cases (find pat (drop pos s))) [
  | inl e ↦ ground arith
  | inr (j, e) ↦ ground (arith, length-drop pos s, find-length pat (drop pos s) j e)
]
