-- ===== src/Parsing/Uri/Normal.antt =====
-- `normalizePath` of src/Parsing/parsing_request.cpp: the form of its results.
use spy_socket.Parsing.Uri.{push_token, normal_stack, join_up, normalize_path}
use spy_socket.Prelude.{
  ℕ, false, List, [], ◌∷◌, ◌++◌, append-nil, ◌≡◌, refl, ap, ◌∙◌, arith, is_empty, All,
}
use spy_socket.Prelude.Text.{Bytes, codes, str_eq, get_lines, Lacks}

-- A segment that `normalizePath` keeps.
pub record IsClean (t : Bytes) : Type 0 where
  pub not_empty : is_empty t ≡ false
  pub no_slash : Lacks b'/' t
  pub not_dot : str_eq t (codes ".") ≡ false
  pub not_dots : str_eq t (codes "..") ≡ false

-- The segments joined by '/', as they stand in a path.
abbrev pub join : List Bytes → Bytes
join [] = []
join (t ∷ []) = t
join (t ∷ u ∷ ts) = t ++ (b'/' ∷ join (u ∷ ts))

abbrev rev_onto : List Bytes → List Bytes → List Bytes
rev_onto [] out = out
rev_onto (t ∷ ts) out = rev_onto ts (t ∷ out)

All-rev_onto :
    (ts out : List Bytes) → All IsClean ts → All IsClean out → All IsClean (rev_onto ts out)
All-rev_onto [] out h k = k
All-rev_onto (t ∷ ts) out h k = All-rev_onto ts (t ∷ out) h.1 (h.0, k)

rev_onto-rev_onto :
    (ts out acc : List Bytes) → rev_onto (rev_onto ts out) acc ≡ rev_onto out (ts ++ acc)
rev_onto-rev_onto [] out acc = refl
rev_onto-rev_onto (t ∷ ts) out acc = rev_onto-rev_onto ts (t ∷ out) acc

-- Tokens of `getline` with '/' hold no '/'.
pub get_lines-Lacks : (d : ℕ) (s : Bytes) → All (Lacks d) (get_lines d s)
unfolding get_lines
get_lines-Lacks d [] = tt
get_lines-Lacks d (c ∷ s) = ground (arith, get_lines-Lacks d s)

push_token-IsClean :
    (t : Bytes) (stack : List Bytes)
    → Lacks b'/' t
    → All IsClean stack
    → All IsClean (push_token t stack)
unfolding push_token
push_token-IsClean t [] h k = ground arith
push_token-IsClean t (u ∷ stack) h k = ground arith

normal_stack-IsClean :
    (ts stack : List Bytes)
    → All (Lacks b'/') ts
    → All IsClean stack
    → All IsClean (normal_stack stack ts)
unfolding normal_stack
normal_stack-IsClean [] stack h k = k
normal_stack-IsClean (t ∷ ts) stack h k =
    normal_stack-IsClean ts (push_token t stack) h.1 (push_token-IsClean t stack h.0 k)

-- Clean tokens are all pushed.
normal_stack-clean :
    (ts stack : List Bytes) → All IsClean ts → normal_stack stack ts ≡ rev_onto ts stack
unfolding normal_stack push_token
normal_stack-clean [] stack h = refl
normal_stack-clean (t ∷ ts) stack h =
    rw (h.0.not_empty, h.0.not_dot, h.0.not_dots) (normal_stack-clean ts (t ∷ stack) h.1)

-- A token up to a '/' or to the end is read back.
get_lines-token :
    (t r : Bytes) → Lacks b'/' t → get_lines b'/' (t ++ b'/' ∷ r) ≡ t ∷ get_lines b'/' r
unfolding get_lines
get_lines-token [] r h = refl
get_lines-token (c ∷ t) r h = ground (arith, get_lines-token t r h.1)

get_lines-last : (t : Bytes) → is_empty t ≡ false → Lacks b'/' t → get_lines b'/' t ≡ t ∷ []
unfolding get_lines
get_lines-last [] e h = cc
get_lines-last (c ∷ []) e h = ground arith
get_lines-last (c ∷ d ∷ t) e h = ground (arith, get_lines-last (d ∷ t) refl h.1)

join_up-join :
    (s : Bytes) (stack : List Bytes) (t : Bytes) (ts : List Bytes)
    → join_up (s ∷ stack) (b'/' ∷ join (t ∷ ts)) ≡ join (rev_onto stack (s ∷ t ∷ ts))
unfolding join_up
join_up-join s [] t ts = refl
join_up-join s (u ∷ stack) t ts = join_up-join u stack s (t ∷ ts)

join_up_all : (stack : List Bytes) → join_up stack [] ≡ join (rev_onto stack [])
unfolding join_up
join_up_all [] = refl
join_up_all (t ∷ []) = append-nil t
join_up_all (t ∷ u ∷ stack) = rw append-nil (join_up-join u stack t [])

get_lines-join : (ts : List Bytes) → All IsClean ts → get_lines b'/' (join ts) ≡ ts
get_lines-join [] h = unfold get_lines in refl
get_lines-join (t ∷ []) h = get_lines-last t h.0.not_empty h.0.no_slash
get_lines-join (t ∷ u ∷ ts) h =
    get_lines-token t (join (u ∷ ts)) h.0.no_slash ∙ ap (◌∷◌ t) (get_lines-join (u ∷ ts) h.1)

-- The segments that are left of a path, from its front.
pub segments : Bytes → List Bytes
segments s = rev_onto (normal_stack [] (get_lines b'/' s)) []

segments-IsClean : (s : Bytes) → All IsClean (segments s)
unfolding segments
segments-IsClean s = All-rev_onto _ [] (normal_stack-IsClean _ [] (get_lines-Lacks b'/' s) tt) tt

-- The result of `normalizePath` is a '/' and clean segments with a '/' between any two of them: no
-- segment is empty, "." or "..", and none holds a '/'.
pub normalize_path-join :
    (s : Bytes) → (normalize_path s ≡ b'/' ∷ join (segments s)) × All IsClean (segments s)
unfolding normalize_path segments
normalize_path-join s =
    (ap (◌∷◌ b'/') (join_up_all (normal_stack [] (get_lines b'/' s))), segments-IsClean s)

get_lines-slash : (s : Bytes) → get_lines b'/' (b'/' ∷ s) ≡ [] ∷ get_lines b'/' s
unfolding get_lines
get_lines-slash s = refl

-- A path of clean segments has just these segments, read back.
segments-join : (ts : List Bytes) → All IsClean ts → segments (b'/' ∷ join ts) ≡ ts
unfolding segments
segments-join ts h =
    rw (get_lines-slash, get_lines-join ts h)
      (unfold normal_stack push_token in
        (ap (λ st. rev_onto st []) (normal_stack-clean ts [] h)
          ∙ rev_onto-rev_onto ts [] []
          ∙ append-nil ts))

-- `normalizePath` leaves a path that it returned as it is.
pub normalize_path_idem : (s : Bytes) → normalize_path (normalize_path s) ≡ normalize_path s
normalize_path_idem s =
    let (eq, clean) = normalize_path-join s in
    rw eq (
      (normalize_path-join (b'/' ∷ join (segments s))).0
      ∙ ap (λ ts. b'/' ∷ join ts) (segments-join (segments s) clean))
