-- ===== src/Post/Form.antt =====
-- `handle_url_encoded` of src/POST/pwist.cpp on pairs of texts.
use mathlib.Core.List.{foldl}
use spy_socket.Config.{LocationStruct}
use spy_socket.Parsing.{Parser}
use spy_socket.Post.{holds, flush, split_loop, split, pair_of, insert_new, handle_url_encoded}
use spy_socket.Prelude.{
  ℕ, false, List, [], ◌∷◌, ◌++◌, map, append_assoc, append-nil, ◌≡◌, refl, sym, ◌∙◌, ap, arith,
  ◌==◌, ==_refl, is_empty, All,
}
use spy_socket.Prelude.Text.{Bytes, Lacks}

-- A text that is not empty and does not hold the separator.
pub record IsToken (d : ℕ) (t : Bytes) : Type 0 where
  pub not_empty : is_empty t ≡ false
  pub no_separator : Lacks d t

-- The texts with the separator between any two of them.
abbrev pub join_by : ℕ → List Bytes → Bytes
join_by d [] = []
join_by d (t ∷ []) = t
join_by d (t ∷ u ∷ ts) = t ++ (d ∷ join_by d (u ∷ ts))

holds_one : (d c : ℕ) → holds (d ∷ []) c ≡ (c == d)
unfolding holds
holds_one d c = ground arith

split_loop-append :
    (d : ℕ) (token t s : Bytes)
    → Lacks d t
    → split_loop (d ∷ []) token (t ++ s) ≡ split_loop (d ∷ []) (token ++ t) s
unfolding split_loop
split_loop-append d token [] s h = ap (λ z. split_loop (d ∷ []) z s) (sym (append-nil token))
split_loop-append d token (c ∷ t) s h =
    rw (split_loop, holds_one d c, h.0)
      (split_loop-append d (token ++ (c ∷ [])) t s h.1
        ∙ ap (λ z. split_loop (d ∷ []) z s) (append_assoc token (c ∷ []) t))

flush_token : (d : ℕ) (t : Bytes) (ts : List Bytes) → IsToken d t → flush t ts ≡ t ∷ ts
flush_token d [] ts h = absurd (ground (arith, h.not_empty))
flush_token d (c ∷ t) ts h = refl

split_loop-token : (d : ℕ) (t : Bytes) → IsToken d t → split_loop (d ∷ []) [] t ≡ t ∷ []
unfolding split_loop
split_loop-token d t h =
    ap (split_loop (d ∷ []) []) (sym (append-nil t))
    ∙ split_loop-append d [] t [] h.no_separator
    ∙ flush_token d t [] h

split_loop-separator :
    (d : ℕ) (t s : Bytes)
    → IsToken d t
    → split_loop (d ∷ []) [] (t ++ (d ∷ s)) ≡ t ∷ split_loop (d ∷ []) [] s
unfolding split_loop
split_loop-separator d t s h =
    split_loop-append d [] t (d ∷ s) h.no_separator
    ∙ rw (split_loop, holds_one d d, ==_refl d) (flush_token d t (split_loop (d ∷ []) [] s) h)

split-join_by : (d : ℕ) (ts : List Bytes) → All (IsToken d) ts → split (join_by d ts) (d ∷ []) ≡ ts
unfolding split
split-join_by d [] h = unfold split_loop in refl
split-join_by d (t ∷ []) h = split_loop-token d t h.0
split-join_by d (t ∷ u ∷ ts) h =
    split_loop-separator d t (join_by d (u ∷ ts)) h.0 ∙ ap (◌∷◌ t) (split-join_by d (u ∷ ts) h.1)

-- A pair of texts as they are sent: neither holds '&' or '='.
pub record IsField (kv : Bytes × Bytes) : Type 0 where
  pub key : IsToken b'=' kv.0
  pub val : IsToken b'=' kv.1
  pub key_alone : Lacks b'&' kv.0
  pub val_alone : Lacks b'&' kv.1

abbrev pub field : Bytes × Bytes → Bytes
field kv = kv.0 ++ (b'=' ∷ kv.1)

-- The pairs as they stand, without any encoding.
abbrev pub raw_pairs : List (Bytes × Bytes) → Bytes
raw_pairs kvs = join_by b'&' (map field kvs)

Lacks-append : (d : ℕ) (s t : Bytes) → Lacks d s → Lacks d t → Lacks d (s ++ t)
Lacks-append d [] t h k = k
Lacks-append d (c ∷ s) t h k = (h.0, Lacks-append d s t h.1 k)

append_not_empty : (s : Bytes) (c : ℕ) (t : Bytes) → is_empty (s ++ (c ∷ t)) ≡ false
append_not_empty [] c t = refl
append_not_empty (x ∷ s) c t = refl

field-IsToken : (kv : Bytes × Bytes) → IsField kv → IsToken b'&' (field kv)
field-IsToken kv h = record {
  not_empty = append_not_empty kv.0 b'=' kv.1;
  no_separator = Lacks-append b'&' kv.0 (b'=' ∷ kv.1) h.key_alone (refl, h.val_alone);
}

fields-IsToken : (kvs : List (Bytes × Bytes)) → All IsField kvs → All (IsToken b'&') (map field kvs)
fields-IsToken [] h = tt
fields-IsToken (kv ∷ kvs) h = (field-IsToken kv h.0, fields-IsToken kvs h.1)

pair_of-field : (kv : Bytes × Bytes) → IsField kv → pair_of (field kv) ≡ kv
unfolding pair_of
pair_of-field kv h = rw (pair_of, split-join_by b'=' (kv.0 ∷ kv.1 ∷ []) (h.key, (h.val, tt)))

pairs_of-fields : (kvs : List (Bytes × Bytes)) → All IsField kvs → map pair_of (map field kvs) ≡ kvs
pairs_of-fields [] h = refl
pairs_of-fields (kv ∷ kvs) h = rw (pair_of-field kv h.0, pairs_of-fields kvs h.1)

-- On a body of pairs key=value joined by '&', whose keys and values are as sent not empty and
-- hold neither '&' nor '=', handle_url_encoded inserts just these pairs in their order into what
-- the location has, with the texts as they were sent: what a client encodes by '+' or '%' is not
-- decoded.
pub handle_url_encoded-form :
    (location : LocationStruct) (parser : Parser) (kvs : List (Bytes × Bytes))
    → parser.body_content ≡ raw_pairs kvs
    → All IsField kvs
    → (handle_url_encoded location parser).url_encoded ≡ foldl insert_new location.url_encoded kvs
unfolding handle_url_encoded
handle_url_encoded-form location parser kvs e h = rw (
  handle_url_encoded,
  e,
  split-join_by b'&' (map field kvs) (fields-IsToken kvs h),
  pairs_of-fields kvs h,
)
