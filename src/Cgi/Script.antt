-- ===== src/Cgi/Script.antt =====
-- `check_is_cgi` of src/CGI/cgi_utils.cpp: the parts of a request target.
use spy_socket.Cgi.{
  Cgi, cgi_prefix, is_extension_allowed, split_query, split_script, set_parts, read_script,
  check_is_cgi,
}
use spy_socket.Prelude.{
  ℕ, zero, suc, true, [], ◌∷◌, ◌++◌, none, some, ◌≡◌, refl, sym, ap, ◌∙◌, ◌⊎◌, inl, inr, arith,
  Bool-cases, Option-cases, take, drop, append-nil, append_assoc, take-append-drop, length, subst,
}
use spy_socket.Prelude.Text.{Bytes, codes, is_prefix, find, Lacks}
use spy_socket.Prelude.Text.Map.{Map, lookup}
use native.Mathlib.Numerals.{add-one}

-- A search for one character.
find_char-none : (d : ℕ) (s : Bytes) → find (d ∷ []) s ≡ none → Lacks d s
unfolding find is_prefix
find_char-none d [] h = tt
find_char-none d (c ∷ s) h = (ground arith, find_char-none d s (ground arith))

find_char-some :
    (d : ℕ) (s : Bytes) (i : ℕ)
    → find (d ∷ []) s ≡ some i
    → Lacks d (take i s) × (drop i s ≡ d ∷ drop (suc i) s)
unfolding find is_prefix
find_char-some d [] i h = cc
find_char-some d (c ∷ s) zero h = elim (Option-cases (find (d ∷ []) s)) [
  | inl e ↦ ground arith
  | inr (j, e) ↦ ground arith
]
find_char-some d (c ∷ s) (suc i) h = elim (Option-cases (find (d ∷ []) s)) [
  | inl e ↦ ground arith
  | inr (j, e) ↦ ground (arith, find_char-some d s i)
]

-- A split at the first `d`: the text is the part before, or that with `d` and the rest behind it.
split_at-Lacks :
    (d : ℕ) (s : Bytes) (i : ℕ)
    → find (d ∷ []) s ≡ some i
    → Lacks d (take i s) × (s ≡ take i s ++ d ∷ drop (suc i) s)
split_at-Lacks d s i h =
    let (before, at) = find_char-some d s i h in
    (before, sym (take-append-drop i s) ∙ ap (take i s ++◌) at)

split_query-Lacks :
    (uri : Bytes)
    → Lacks b'?' (split_query uri).0
      × ((uri ≡ (split_query uri).0) × ((split_query uri).1 ≡ [])
          ⊎ (uri ≡ (split_query uri).0 ++ b'?' ∷ (split_query uri).1))
unfolding split_query
split_query-Lacks uri = elim (Option-cases (find (codes "?") uri)) [
  | inl e ↦ rw (split_query, e) (find_char-none b'?' uri e, inl (refl, refl))
  | inr (i, e) ↦
      let (l, s) = split_at-Lacks b'?' uri i e in rw (split_query, e, add-one i) (l, inr s)
]

split_script-Lacks :
    (part : Bytes)
    → Lacks b'/' (split_script part).0
      × (part ≡ (split_script part).0 ++ (split_script part).1)
      × (((split_script part).1 ≡ []) ⊎ ((t : Bytes) × ((split_script part).1 ≡ b'/' ∷ t)))
unfolding split_script
split_script-Lacks part = elim (Option-cases (find (codes "/") part)) [
  | inl e ↦ rw (split_script, e) (find_char-none b'/' part e, sym (append-nil part), inl refl)
  | inr (i, e) ↦
      let (l, s) = find_char-some b'/' part i e in
      rw (split_script, e) (l, sym (take-append-drop i part), inr (_, s))
]

is_prefix-cut :
    (d : ℕ) (pat path rest : Bytes)
    → Lacks d pat
    → is_prefix pat (path ++ d ∷ rest) ≡ true
    → is_prefix pat path ≡ true
unfolding is_prefix
is_prefix-cut d [] path rest l h = refl
is_prefix-cut d (x ∷ pat) [] rest l h = ground arith
is_prefix-cut d (x ∷ pat) (y ∷ path) rest l h = ground (arith, is_prefix-cut d pat path rest)

is_prefix-drop : (pat s : Bytes) → is_prefix pat s ≡ true → s ≡ pat ++ drop (length pat) s
unfolding is_prefix
is_prefix-drop [] s h = refl
is_prefix-drop (x ∷ pat) [] h = cc
is_prefix-drop (x ∷ pat) (y ∷ s) h = ground (arith, is_prefix-drop pat s)

-- What a request target has to be so that it runs a script.
pub record IsScript (uri : Bytes) (c : Cgi) : Type 0 where
  -- The script is a name in the directory of the scripts.
  pub name : Bytes
  pub script_is : c.script_path ≡ cgi_prefix ++ name
  pub no_slash : Lacks b'/' name
  -- Neither the script nor what follows it holds the start of a query.
  pub no_query : Lacks b'?' (c.script_path ++ c.path_info)
  -- What follows it is nothing or starts a new segment.
  pub info_is : (c.path_info ≡ []) ⊎ ((t : Bytes) × (c.path_info ≡ b'/' ∷ t))
  -- The target is the three parts.
  pub whole :
      ((uri ≡ c.script_path ++ c.path_info) × (c.query_string ≡ []))
      ⊎ (uri ≡ (c.script_path ++ c.path_info) ++ b'?' ∷ c.query_string)
  -- The location allows it.
  pub allowed : is_extension_allowed c.script_path c.current_location ≡ true
  pub marked : c.is_cgi ≡ true

-- The path in front of a query starts as the whole target does.
path-is_prefix :
    (uri : Bytes)
    → is_prefix cgi_prefix uri ≡ true
    → is_prefix cgi_prefix (split_query uri).0 ≡ true
path-is_prefix uri h = elim (split_query-Lacks uri).1 [
  | inl (e, q) ↦ ap (is_prefix cgi_prefix) (sym e) ∙ h
  | inr e ↦
      is_prefix-cut b'?' cgi_prefix (split_query uri).0 (split_query uri).1
        (refl, (refl, (refl, (refl, (refl, (refl, (refl, (refl, (refl, tt)))))))))
        (ap (is_prefix cgi_prefix) (sym e) ∙ h)
]

-- The path is the directory of the scripts and the two parts of what follows it.
set_parts-path :
    (c : Cgi) (uri : Bytes)
    → is_prefix cgi_prefix uri ≡ true
    → (split_query uri).0 ≡ (set_parts c uri).script_path ++ (set_parts c uri).path_info
unfolding set_parts
set_parts-path c uri h =
    let path = (split_query uri).0 in
    let part = drop 9 path in
    is_prefix-drop cgi_prefix path (path-is_prefix uri h)
    ∙ ap (cgi_prefix ++◌) (split_script-Lacks part).1
    ∙ sym (append_assoc cgi_prefix (split_script part).0 (split_script part).1)

set_parts-IsScript :
    (c : Cgi) (uri : Bytes)
    → is_prefix cgi_prefix uri ≡ true
    → is_extension_allowed (set_parts c uri).script_path c.current_location ≡ true
    → IsScript uri (set_parts c uri)
unfolding set_parts
set_parts-IsScript c uri h a = record {
  name = (split_script (drop 9 (split_query uri).0)).0;
  script_is = refl;
  no_slash = (split_script-Lacks (drop 9 (split_query uri).0)).0;
  no_query = subst (Lacks b'?') (set_parts-path c uri h) (split_query-Lacks uri).0;
  info_is = (split_script-Lacks (drop 9 (split_query uri).0)).2;
  whole =
      subst
        (λ s. ((uri ≡ s) × ((split_query uri).1 ≡ [])) ⊎ (uri ≡ s ++ b'?' ∷ (split_query uri).1))
        (set_parts-path c uri h) (split_query-Lacks uri).1;
  allowed = a;
  marked = refl;
}

-- Where the target is found to name a script, it is the directory of the scripts, a name, what
-- follows it and the query, and the extension is allowed.
pub check_is_cgi-IsScript :
    (c c' : Cgi) (line : Map) (uri : Bytes)
    → lookup (codes "uri") line ≡ some uri
    → check_is_cgi c line ≡ (true, c')
    → IsScript uri c'
unfolding check_is_cgi read_script set_parts
check_is_cgi-IsScript c c' line uri l h = elim (Bool-cases (is_prefix cgi_prefix uri)) [
  | inl p ↦
      elim (Bool-cases (is_extension_allowed (set_parts c uri).script_path c.current_location)) [
        | inl a ↦
            subst (IsScript uri) (ap (λ r. r.1) (rw (check_is_cgi, l, p, read_script, a) at h))
              (set_parts-IsScript c uri p a)
        | inr a ↦ let k = (rw (check_is_cgi, l, p, read_script, a) at h) in cc
      ]
  | inr p ↦ let k = (rw (check_is_cgi, l, p) at h) in cc
]
