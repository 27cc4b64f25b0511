-- ===== src/Chunked/Total.antt =====
-- The loop of `refactor_data` in src/POST/unchunk.cpp and its fuel.
use spy_socket.Chunked.{
  atoi, starts_message, Overflow, Chunker, Turn, Round, returns, again, size_mod, line_end,
  take_chunk, chunk_round, read_size, decode_round, last_chunk, decode_loop, go_on, receive, turn,
  enough, decode_body, take_headers, refactor_data, is_chunked, blank_line, pass_through,
}
use spy_socket.Prelude.{
  ◌==◌, ltb, ◌∙◌, sym, ℕ, zero, suc, ◌+◌, ◌%◌, ◌≤◌, ◌<◌, true, false, [], ◌∷◌, ◌++◌, none, ◌⊎◌,
  length-append, ap, subst, Option, some, ◌≡◌, refl, inl, inr, arith, Bool-cases, Option-cases,
  if◌then◌else◌, length, length-drop, drop, take, is_empty,
}
use spy_socket.Prelude.Text.{Bytes, codes, is_prefix, find, contains, Lacks}
use spy_socket.Prelude.Text.Find.{find-length}

-- The bytes that wait, and one more inside a chunk.
abbrev work : Chunker → ℕ
work c = length c.chunk_buffer + (if c.reading_size then 0 else 1)

-- A block of headers that is empty or ends with a blank line.
pub record IsBlock (h : Bytes) : Type 0 where
  pub front : Bytes
  pub ends : h ≡ front ++ blank_line

abbrev pub IsReady : Chunker → Type 0
IsReady c = (c.headers ≡ []) ⊎ IsBlock c.headers

-- A call that returns, and leaves a block of headers that is empty or ends with a blank line.
abbrev pub Returns : Option Turn → Type 0
Returns r = (t : Turn) × (r ≡ some t) × IsReady t.chunker

-- A round that goes on does so with less work; both outcomes keep the block of headers, or clear it.
abbrev Less : ℕ → Round → Type 0
Less n (returns t) = IsReady t.chunker
Less n (again out c) = (work c < n) × IsReady c

read_size-IsReady :
    (over : Overflow) (eol : ℕ) (c : Chunker)
    → IsReady c
    → IsReady (record (read_size over eol c) { reading_size = false })
unfolding read_size
read_size-IsReady over eol c ready = ready

chunk_round-Less :
    (out : Bytes) (c : Chunker) (n : ℕ)
    → IsReady c
    → length c.chunk_buffer < n
    → Less n (chunk_round out c)
unfolding chunk_round take_chunk
chunk_round-Less out c n ready h =
    let wanted = (c.current_chunk_size + 2) % size_mod in
    elim (Bool-cases (ltb (length c.chunk_buffer) wanted)) [
      | inl few ↦ rw (Less, chunk_round, take_chunk, few) ready
      | inr many ↦
          rw (Less, chunk_round, take_chunk, many)
            (ground (arith, length-drop wanted c.chunk_buffer), ready)
    ]

read_size-shorter :
    (over : Overflow) (eol : ℕ) (c : Chunker)
    → find line_end c.chunk_buffer ≡ some eol
    → length (read_size over eol c).chunk_buffer < length c.chunk_buffer
unfolding read_size
read_size-shorter over eol c e =
    omega (arith, find-length line_end c.chunk_buffer eol e, length-drop (eol + 2) c.chunk_buffer)

decode_round-Less :
    (over : Overflow) (out : Bytes) (c : Chunker) (n : ℕ)
    → IsReady c
    → work c ≤ n
    → Less n (decode_round over out c)
unfolding decode_round last_chunk
decode_round-Less over out c n ready h = elim (Bool-cases c.reading_size) [
  | inr inside ↦ simp (decode_round, inside) (chunk_round-Less out c n ready (ground arith))
  | inl sizing ↦ elim (Option-cases (find line_end c.chunk_buffer)) [
    | inl e ↦ simp (decode_round, sizing, e) ready
    | inr (eol, e) ↦
        let sized = read_size over eol c in
        elim (Bool-cases (sized.current_chunk_size == 0)) [
          | inl last ↦ simp (decode_round, sizing, e, last) (inl refl)
          | inr more ↦
              simp (decode_round, sizing, e, more)
                (chunk_round-Less out (record sized { reading_size = false }) n
                  (read_size-IsReady over eol c ready)
                  (omega (arith, read_size-shorter over eol c e)))
        ]
  ]
]

go_on-total :
    (r : Round) (k : Bytes → Chunker → Option Turn) (n : ℕ)
    → Less n r
    → ((out : Bytes) (c : Chunker) → work c < n → IsReady c → Returns (k out c))
    → Returns (go_on r k)
go_on-total (returns t) k n l each = (t, refl, l)
go_on-total (again out c) k n l each = each out c (l.0) (l.1)

-- The loop with fuel above the work.
decode_loop-total :
    (over : Overflow) (fuel : ℕ) (out : Bytes) (c : Chunker)
    → IsReady c
    → work c < fuel
    → Returns (decode_loop over fuel out c)
unfolding decode_loop
decode_loop-total over zero out c ready h = absurd (omega arith)
decode_loop-total over (suc fuel) out c ready h =
    go_on-total (decode_round over out c) _ (work c)
      (decode_round-Less over out c (work c) ready (omega arith))
      (λ out' c' l r. decode_loop-total over fuel out' c' r (omega arith))

is_prefix-before_cr :
    (pat f r : Bytes)
    → Lacks b'\r' pat
    → is_prefix pat (f ++ b'\r' ∷ r) ≡ true
    → length pat ≤ length f
unfolding is_prefix
is_prefix-before_cr [] f r l h = omega arith
is_prefix-before_cr (x ∷ pat) [] r l h = absurd (ground arith)
is_prefix-before_cr (x ∷ pat) (c ∷ f) r l h = ground (arith, is_prefix-before_cr pat f r l.1)

-- A name without a carriage return ends before the blank line.
find-before_cr :
    (pat f r : Bytes) (i : ℕ)
    → Lacks b'\r' pat
    → find pat (b'\r' ∷ r) ≡ none
    → find pat (f ++ b'\r' ∷ r) ≡ some i
    → i + length pat ≤ length f
unfolding find
find-before_cr pat [] r i l n h = absurd (let k = sym n ∙ h in cc)
find-before_cr pat (c ∷ f) r i l n h = elim (Option-cases (find pat (f ++ b'\r' ∷ r))) [
  | inl e ↦ ground (arith, is_prefix-before_cr pat (c ∷ f) r l)
  | inr (j, e) ↦ ground (arith, is_prefix-before_cr pat (c ∷ f) r l, find-before_cr pat f r j l n e)
]

name-Lacks : Lacks b'\r' (codes "Content-Length")
name-Lacks = grind arith

-- What `substr` skips is within such a block.
find_ready :
    (h : Bytes) (i : ℕ)
    → (h ≡ []) ⊎ IsBlock h
    → find (codes "Content-Length") h ≡ some i
    → ltb (length h) (i + 16) ≡ false
unfolding find is_prefix
find_ready h i (inl empty) e = absurd (let k = rw empty at e in cc)
find_ready h i (inr b) e = ground (
  arith,
  ap length (b.ends),
  length-append b.front blank_line,
  find-before_cr (codes "Content-Length") b.front (b'\n' ∷ line_end) i name-Lacks refl
      (subst (λ t. find (codes "Content-Length") t ≡ some i) b.ends e),
)

pass_through-total :
    (over : Overflow) (out : Bytes) (c : Chunker) → IsReady c → Returns (pass_through over out c)
unfolding pass_through
pass_through-total over out c ready =
    let kept = turn true (out ++ c.chunk_buffer) (record c { chunk_buffer = [] }) in
    elim (Bool-cases (contains (codes "Content-Length:") c.headers)) [
      | inr absent ↦ (kept, rw absent refl, ready)
      | inl there ↦ elim (Option-cases (find (codes "Content-Length") c.headers)) [
        | inl e ↦ (kept, rw (there, e) refl, ready)
        | inr (i, e) ↦
            elim (Bool-cases (
              ltb (length (out ++ c.chunk_buffer))
                ((atoi over (drop (i + 16) c.headers) + length c.headers) % size_mod))) [
                  | inl short ↦
                      (kept, rw (there, e, find_ready c.headers i ready e, short) refl, ready)
                  | inr whole ↦ (
                    turn true (out ++ c.chunk_buffer) (record c {
                      headers = [];
                      chunk_buffer = [];
                      current_chunk_size = 0;
                      reading_size = true;
                    }),
                    rw (there, e, find_ready c.headers i ready e, whole) refl,
                    inl refl,
                  )
                ]
      ]
    ]

decode_body-total :
    (over : Overflow) (out : Bytes) (c : Chunker) → IsReady c → Returns (decode_body over out c)
unfolding decode_body
decode_body-total over out c ready = elim (Bool-cases (is_chunked c.headers)) [
  | inl chunks ↦
      let (t, e, r) = decode_loop-total over (enough c) out c ready (ground arith) in
      (t, rw chunks e, r)
  | inr other ↦ let (t, e, r) = pass_through-total over out c ready in (t, rw other e, r)
]

is_prefix-take : (pat s : Bytes) → is_prefix pat s ≡ true → take (length pat) s ≡ pat
unfolding is_prefix
is_prefix-take [] s h = refl
is_prefix-take (x ∷ pat) [] h = absurd (ground arith)
is_prefix-take (x ∷ pat) (y ∷ s) h = ground (arith, is_prefix-take pat s)

-- The bytes up to and with an occurrence end with the text that was searched.
find-take :
    (pat s : Bytes) (i : ℕ) → find pat s ≡ some i → take (i + length pat) s ≡ take i s ++ pat
unfolding find
find-take [] [] i h =
    subst (λ n. take {A = ℕ} (n + 0) [] ≡ take {A = ℕ} n [] ++ []) (zero_is i h) refl
  where
    zero_is : (i : ℕ) → some 0 ≡ some i → 0 ≡ i
    zero_is i h = ground arith
find-take (x ∷ pat) [] i h = absurd (ground arith)
find-take pat (c ∷ s) i h =
    let at_place : ℕ → Type 0 = λ n. take (n + length pat) (c ∷ s) ≡ take n (c ∷ s) ++ pat in
    elim (Bool-cases (is_prefix pat (c ∷ s))) [
      | inl here ↦
          let first : 0 ≡ i = ground arith in
          let none_before : 0 + length pat ≡ length pat = omega arith in
          subst at_place first
            (ap (λ n. take n (c ∷ s)) none_before ∙ is_prefix-take pat (c ∷ s) here)
      | inr later ↦ elim (Option-cases (find pat s)) [
        | inl e ↦ absurd (ground arith)
        | inr (j, e) ↦
            let behind : suc j ≡ i = ground arith in
            let one_more : suc j + length pat ≡ suc (j + length pat) = omega arith in
            subst at_place behind
              (ap (λ n. take n (c ∷ s)) one_more ∙ ap (λ t. c ∷ t) (find-take pat s j e))
      ]
    ]

receive-IsReady : (bytes : Bytes) (c : Chunker) → IsReady c → IsReady (receive bytes c)
unfolding receive
receive-IsReady bytes c ready = elim (Bool-cases (starts_message bytes c)) [
  | inl e ↦ rw e ready
  | inr e ↦ rw e ready
]

take_headers-total :
    (over : Overflow) (out : Bytes) (c : Chunker) → IsReady c → Returns (take_headers over out c)
unfolding take_headers
take_headers-total over out c ready = elim (Bool-cases (is_empty c.headers)) [
  | inr known ↦ let (t, e, r) = decode_body-total over out c ready in (t, rw known e, r)
  | inl fresh ↦ elim (Option-cases (find blank_line c.chunk_buffer)) [
    | inl e ↦ (turn false out c, rw (fresh, take_headers, e), ready)
    | inr (i, e) ↦
        let split = record c {
          headers = take (i + 4) c.chunk_buffer;
          chunk_buffer = drop (i + 4) c.chunk_buffer;
        } in
        let block : IsBlock split.headers = record {
          front = take i c.chunk_buffer;
          ends = find-take blank_line c.chunk_buffer i e;
        } in
        let (t, d, r) = decode_body-total over out split (inr block) in
        (t, rw (fresh, take_headers, e) d, r)
  ]
]

-- A call of refactor_data with data returns, whatever the data, if the header block in its static
-- variables is empty or ends with a blank line, and it leaves a header block for which the same
-- holds: the loop ends, and substr is not called behind the end of the block. Failed allocations
-- are left out.
pub refactor_data-total :
    (over : Overflow) (out bytes : Bytes) (c : Chunker)
    → IsReady c
    → Returns (refactor_data over out bytes c)
unfolding refactor_data
refactor_data-total over out bytes c ready =
    take_headers-total over out (receive bytes c) (receive-IsReady bytes c ready)
