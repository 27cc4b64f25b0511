-- ===== src/Dispatch/Relay/ReadBack.antt =====
-- What a receiver reads of a response of `formatCGIResponse` of src/CClient.cpp.
use spy_socket.Dispatch.Relay.{
  lines_then, split_output, chomp, kept_lines, has_content_type, relayed_lines, relay,
  format_output,
}
use spy_socket.Dispatch.Relay.Lines.{IsLine, blank, find-lines}
use spy_socket.Parsing.Uri.Normal.{get_lines-Lacks}
use spy_socket.Prelude.{
  ℕ, ◌+◌, ◌==◌, Bool, true, false, List, [], ◌∷◌, ◌++◌, some, ◌≡◌, refl, arith, inl, inr,
  Bool-cases, if◌then◌else◌, is_empty, length, take, drop, All, all, All-append,
}
use spy_socket.Prelude.Text.{Bytes, codes, str_eq, find, get_lines, Lacks}
use spy_socket.Responses.{Now}
use spy_socket.Responses.Framing.{is_plain, print_nat-plain, date-plain}
use spy_socket.Time.{print_nat, ft_time_format}

-- The lines of the response.
chomp-Lacks : (l : Bytes) → Lacks b'\n' l → Lacks b'\n' (chomp l)
unfolding chomp
chomp-Lacks [] h = tt
chomp-Lacks (c ∷ []) h = elim (Bool-cases (c == b'\r')) [ inl e ↦ rw e tt | inr e ↦ rw e h ]
chomp-Lacks (c ∷ d ∷ s) h = (h.0, chomp-Lacks (d ∷ s) h.1)

chomp-some :
    (l : Bytes) → is_empty l ≡ false → str_eq l (codes "\r") ≡ false → is_empty (chomp l) ≡ false
unfolding chomp str_eq
chomp-some [] h g = h
chomp-some (c ∷ []) h g = ground arith
chomp-some (c ∷ d ∷ s) h g = refl

kept_lines-IsLine : (ls : List Bytes) → All (Lacks b'\n') ls → All IsLine (kept_lines ls)
unfolding kept_lines
kept_lines-IsLine [] h = tt
kept_lines-IsLine (l ∷ ls) h = elim (Bool-cases (is_empty l)) [
  | inl e ↦ rw (kept_lines, e) (kept_lines-IsLine ls h.1)
  | inr e ↦ elim (Bool-cases (str_eq l (codes "\r"))) [
    | inl f ↦ rw (kept_lines, e, f) (kept_lines-IsLine ls h.1)
    | inr f ↦
        rw (kept_lines, e, f) ((chomp-Lacks l h.0, chomp-some l e f), kept_lines-IsLine ls h.1)
  ]
]

plain-Lacks : (s : Bytes) → all is_plain s ≡ true → Lacks b'\n' s
plain-Lacks [] h = tt
plain-Lacks (c ∷ s) h = elim (Bool-cases (is_plain c)) [
  | inl e ↦ (ground arith, plain-Lacks s (ground arith))
  | inr e ↦ absurd (ground arith)
]

relayed_lines-IsLine :
    (now : Now) (lines : List Bytes) (body : Bytes)
    → All IsLine lines
    → All IsLine (relayed_lines now lines body)
unfolding relayed_lines
relayed_lines-IsLine now lines body h = All-append IsLine lines _ h (
    All-append IsLine (if has_content_type lines then [] else codes "Content-Type: text/html" ∷ [])
      _ (type (has_content_type lines))
      (
        (
          plain-Lacks (codes "Content-Length: " ++ print_nat (length body))
              (print_nat-plain (length body)),
          refl,
        ),
        (
          (plain-Lacks (codes "Date: " ++ ft_time_format now.time) (date-plain now.time), refl),
          (
            (plain-Lacks (codes "Server: SpySocket/1.0") refl, refl),
            ((plain-Lacks (codes "Connection: close") refl, refl), tt),
          ),
        ),
      ))
  where
    type : (b : Bool) → All IsLine (if b then [] else codes "Content-Type: text/html" ∷ [])
    type true = tt
    type false = ((plain-Lacks (codes "Content-Type: text/html") refl, refl), tt)

-- What a receiver reads as the body of a text: what stands behind its first blank line.
pub record IsReadBack (body text : Bytes) : Type 0 where
  pub at : ℕ
  pub first : find blank text ≡ some at
  pub behind : drop (at + 4) text ≡ body

relay-IsReadBack : (now : Now) (headers body : Bytes) → IsReadBack body (relay now headers body)
unfolding relay
relay-IsReadBack now headers body =
    let lines = kept_lines (get_lines b'\n' headers) in
    let (k, first, behind) =
      find-lines (codes "HTTP/1.1 200 OK") (relayed_lines now lines body) body (
        (plain-Lacks (codes "HTTP/1.1 200 OK") refl, refl),
        relayed_lines-IsLine now lines body
            (kept_lines-IsLine (get_lines b'\n' headers) (get_lines-Lacks b'\n' headers)),
      ) in
    record { at = k; first = first; behind = behind }

lines_then-some :
    (l : Bytes) (lines : List Bytes) (rest : Bytes)
    → is_empty l ≡ false
    → is_empty (lines_then (l ∷ lines) rest) ≡ false
lines_then-some [] lines rest h = cc
lines_then-some (c ∷ l) lines rest h = refl

-- For the output of a script that is a line or more, each not empty and without '\n' and ended by
-- CRLF, an empty line ended by CRLF, and a body, formatCGIResponse gives a response, and a
-- receiver that splits it at its first empty line, as ended by CRLF, reads just that body.
pub format_output-IsReadBack :
    (now : Now) (l : Bytes) (lines : List Bytes) (body : Bytes)
    → All IsLine (l ∷ lines)
    → (text : Bytes) × (format_output now (lines_then (l ∷ lines) (codes "\r\n" ++ body))
        ≡ some text)
      × IsReadBack body text
unfolding format_output split_output
format_output-IsReadBack now l lines body h =
    let output = lines_then (l ∷ lines) (codes "\r\n" ++ body) in
    let (k, found, behind) = find-lines l lines body h in
    (
      relay now (take (k + 4) output) body,
      rw
          (
            format_output,
            lines_then-some l lines (codes "\r\n" ++ body) h.0.1,
            split_output,
            found,
            behind,
          )
          refl,
      relay-IsReadBack now (take (k + 4) output) body,
    )
