-- ===== src/PathSecurity.antt =====
-- src/utils/path_security.cpp: the test of a path below the root of a location.
use spy_socket.Prelude.{
  Bool, true, false, not, ◌&&◌, ◌||◌, [], ◌∷◌, ◌≡◌, refl, inl, inr, arith, Bool-cases, ◌==◌,
  if◌then◌else◌, is_empty, last, ◌++◌,
}
use spy_socket.Prelude.Text.{Bytes, codes, contains, is_prefix}

-- Is a path at its end, or at a '/'?
unfoldable pub ends_segment : Bytes → Bool
ends_segment [] = true
ends_segment (c ∷ s) = c == b'/'

-- The loop over the occurrences of ".."; the flag is `validPrefix` at the position of the text. An
-- occurrence is stepped over whole. False is a segment "..".
unfoldable pub no_parent : Bool → Bytes → Bool
no_parent valid_prefix [] = true
no_parent valid_prefix (c ∷ []) = true
no_parent valid_prefix (c ∷ d ∷ s) = elim (c == b'.' && d == b'.') [
  | true ↦ elim (valid_prefix && ends_segment s) [ true ↦ false | false ↦ no_parent false s ]
  | false ↦ no_parent (c == b'/') (d ∷ s)
]

unfoldable pub is_path_secure : Bytes → Bool
is_path_secure full_path =
    if is_empty full_path
    then true
    else if is_prefix (codes "..") full_path
    then false
    else if not (no_parent true full_path)
    then false
    else if contains (codes "%2e%2e") full_path
        || contains (codes "%2E%2E") full_path
        || contains (codes "..%2f") full_path
        || contains (codes "..%5c") full_path
    then false
    else if contains (codes "//") full_path
    then false
    else if is_prefix (codes "/") full_path
    then false
    else true

-- Does the text behind `a` begin a segment? The flag is for an empty `a`.
abbrev pub opens_segment : Bool → Bytes → Bool
opens_segment valid_prefix [] = valid_prefix
opens_segment valid_prefix (c ∷ a) = last a c == b'/'

no_parent-segment :
    (v : Bool) (a b : Bytes)
    → opens_segment v a ≡ true
    → ends_segment b ≡ true
    → no_parent v (a ++ (b'.' ∷ b'.' ∷ b)) ≡ false
unfolding no_parent
no_parent-segment v [] b h e = ground arith
no_parent-segment v (c ∷ []) b h e = ground (arith, no_parent-segment true [] b refl e)
no_parent-segment v (c ∷ d ∷ []) b h e =
    ground (arith, no_parent-segment (c == b'/') (d ∷ []) b h e)
no_parent-segment v (c ∷ d ∷ x ∷ a) b h e = elim (Bool-cases (c == b'.' && d == b'.')) [
  | inl s ↦ ground (arith, no_parent-segment false (x ∷ a) b h e)
  | inr s ↦ rw (no_parent, s) (no_parent-segment (c == b'/') (d ∷ x ∷ a) b h e)
]

-- A path with a segment ".." anywhere, at the start, between two '/' or at the end, is refused.
pub is_path_secure-parent :
    (a b : Bytes)
    → opens_segment true a ≡ true
    → ends_segment b ≡ true
    → is_path_secure (a ++ (b'.' ∷ b'.' ∷ b)) ≡ false
unfolding is_path_secure
is_path_secure-parent a b h e = ground (arith, no_parent-segment true a b h e)
