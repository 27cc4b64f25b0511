-- ===== src/Parsing/Uri/Safe.antt =====
-- `checkURI` of src/Parsing/parsing_request.cpp: the form of a URI that it accepts.
use spy_socket.Parsing.{Parser, Post}
use spy_socket.Parsing.Uri.{normalize_path, url_decode, split_uri, rewrite_uri, check_uri}
use spy_socket.Parsing.Uri.Normal.{IsClean, join, segments, normalize_path-join}
use spy_socket.Prelude.{
  ℕ, ◌≤◌, false, List, [], ◌∷◌, ◌++◌, ◌≡◌, refl, ap, inl, inr, arith, Bool-cases, All, length,
}
use spy_socket.Prelude.Text.{Bytes, codes, contains}

-- The URI that is stored for `raw`: the clean segments of its decoded path, and its query or
-- fragment as it came.
pub record IsSafe (junk : ℕ) (raw u : Bytes) : Type 0 where
  pub parts : List Bytes
  pub rest : Bytes
  pub uri_is : u ≡ b'/' ∷ (join parts ++ rest)
  pub parts_are : parts ≡ segments (url_decode junk (split_uri raw).0)
  pub parts_clean : All IsClean parts
  pub no_dots : contains (codes "..") (b'/' ∷ join parts) ≡ false
  pub rest_is : rest ≡ (split_uri raw).1
  pub length_in : length raw ≤ 8000

rewrite_uri-IsSafe :
    (junk : ℕ) (raw : Bytes) (p : Parser)
    → length raw ≤ 8000
    → Post (λ u q. (q ≡ p) × IsSafe junk raw u) (λ _. Unit {0}) (rewrite_uri junk raw p)
unfolding rewrite_uri
rewrite_uri-IsSafe junk raw p len =
    elim (Bool-cases (contains (codes "..") (url_decode junk (split_uri raw).0))) [
      | inl up ↦ rw (rewrite_uri, Post, up) tt
      | inr low ↦
          elim (Bool-cases
            (contains (codes "..") (normalize_path (url_decode junk (split_uri raw).0)))) [
              | inl up ↦ rw (rewrite_uri, Post, low, up) tt
              | inr safe ↦
                  let n = normalize_path-join (url_decode junk (split_uri raw).0) in
                  rw (rewrite_uri, Post, low, safe)
                    (
                      refl,
                      record {
                        parts = segments (url_decode junk (split_uri raw).0);
                        rest = (split_uri raw).1;
                        uri_is = ap (λ s. s ++ (split_uri raw).1) (n.0);
                        parts_are = refl;
                        parts_clean = n.1;
                        no_dots = rw (n.0) at safe;
                        rest_is = refl;
                        length_in = len;
                      },
                    )
            ]
    ]

-- A URI that `checkURI` accepts is at most 8000 bytes long and begins with '/'. It is replaced by a
-- '/', the clean segments of its decoded path with a '/' between two of them, which hold no "..",
-- and the unchanged query and fragment. Nothing else changes.
pub check_uri-IsSafe :
    (junk : ℕ) (raw : Bytes) (p : Parser)
    → Post (λ u q. (q ≡ p) × IsSafe junk raw u) (λ _. Unit {0}) (check_uri junk raw p)
unfolding check_uri
check_uri-IsSafe junk [] p = tt
check_uri-IsSafe junk (c ∷ uri) p = ground (arith, rewrite_uri-IsSafe junk (c ∷ uri) p)
