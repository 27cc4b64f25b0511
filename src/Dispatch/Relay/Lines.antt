-- ===== src/Dispatch/Relay/Lines.antt =====
-- The first blank line behind the lines of a response of `formatCGIResponse` of src/CClient.cpp.
use spy_socket.Dispatch.Relay.{lines_then}
use spy_socket.Prelude.{
  ℕ, suc, ◌+◌, true, false, List, [], ◌∷◌, ◌++◌, some, ◌≡◌, refl, ap, ◌∙◌, arith, is_empty, length,
  drop, All,
}
use spy_socket.Prelude.Text.{Bytes, codes, is_prefix, find, Lacks}

-- A line that ends neither the headers nor itself.
abbrev pub IsLine : Bytes → Type 0
IsLine l = Lacks b'\n' l × (is_empty l ≡ false)

abbrev pub blank : Bytes
blank = codes "\r\n\r\n"

-- Inside a line there is no blank line.
inside_line :
    (c : ℕ) (s rest : Bytes)
    → Lacks b'\n' s
    → is_prefix blank (c ∷ (s ++ (codes "\r\n" ++ rest))) ≡ false
unfolding is_prefix
inside_line c [] rest l = ground arith
inside_line c (d ∷ s) rest l = ground arith

at_end : (rest : Bytes) → is_prefix blank (codes "\r\n" ++ rest) ≡ is_prefix (codes "\r\n") rest
unfolding is_prefix
at_end rest = refl

behind_cr : (rest : Bytes) → is_prefix blank (b'\n' ∷ rest) ≡ false
unfolding is_prefix
behind_cr rest = refl

find-line :
    (l rest : Bytes) (k : ℕ)
    → Lacks b'\n' l
    → is_prefix (codes "\r\n") rest ≡ false
    → find blank rest ≡ some k
    → find blank (l ++ (codes "\r\n" ++ rest)) ≡ some (length l + (2 + k))
unfolding find
find-line [] rest k l p h = rw (at_end rest ∙ p, behind_cr rest, h) (ap some (omega arith))
find-line (c ∷ s) rest k l p h =
    rw (inside_line c s rest l.1, find-line s rest k l.1 p h) (ap some (omega arith))

at_last : (body : Bytes) → is_prefix (codes "\r\n") (codes "\r\n" ++ body) ≡ true
unfolding is_prefix
at_last body = refl

find-end :
    (l body : Bytes)
    → Lacks b'\n' l
    → find blank (l ++ (codes "\r\n" ++ (codes "\r\n" ++ body))) ≡ some (length l)
unfolding find
find-end [] body l = rw (at_end (codes "\r\n" ++ body) ∙ at_last body) refl
find-end (c ∷ s) body l = rw (inside_line c s (codes "\r\n" ++ body) l.1, find-end s body l.1) refl

-- A text that starts with a line does not start with a line end.
starts_line :
    (l rest : Bytes) → IsLine l → is_prefix (codes "\r\n") (l ++ (codes "\r\n" ++ rest)) ≡ false
unfolding is_prefix
starts_line [] rest (_, n) = absurd (ground arith)
starts_line (c ∷ []) rest l = ground arith
starts_line (c ∷ d ∷ s) rest l = ground arith

drop-past : (n : ℕ) (s t : Bytes) → drop (length s + n) (s ++ t) ≡ drop n t
drop-past n [] t = ap (λ k. drop k t) (omega arith)
drop-past n (c ∷ s) t = ap (λ k. drop k (c ∷ (s ++ t))) (suc_past (length s) n) ∙ drop-past n s t
  where
    suc_past : (a n : ℕ) → suc a + n ≡ suc (a + n)
    suc_past a n = omega arith

-- Behind the lines comes the blank line, and behind it the body.
pub find-lines :
    (l : Bytes) (lines : List Bytes) (body : Bytes)
    → All IsLine (l ∷ lines)
    → (k : ℕ) × (find blank (lines_then (l ∷ lines) (codes "\r\n" ++ body)) ≡ some k)
      × (drop (k + 4) (lines_then (l ∷ lines) (codes "\r\n" ++ body)) ≡ body)
find-lines l [] body (i, _) =
    (length l, find-end l body i.0, drop-past 4 l (codes "\r\n\r\n" ++ body))
find-lines l (m ∷ lines) body (i, is) =
    let (k, found, behind) = find-lines m lines body is in
    (
      length l + (2 + k),
      find-line l (lines_then (m ∷ lines) (codes "\r\n" ++ body)) k i.0
          (starts_line m (lines_then lines (codes "\r\n" ++ body)) is.0) found,
      ap (λ n. drop n (lines_then (l ∷ m ∷ lines) (codes "\r\n" ++ body))) (past_both (length l) k)
          ∙ drop-past (suc (suc (k + 4))) l
              (codes "\r\n" ++ lines_then (m ∷ lines) (codes "\r\n" ++ body))
          ∙ behind,
    )
  where
    past_both : (a k : ℕ) → (a + (2 + k)) + 4 ≡ a + suc (suc (k + 4))
    past_both a k = omega arith
