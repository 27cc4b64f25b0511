-- ===== src/Responses/Chosen.antt =====
-- The page of the configuration that `getErrorPageFromConfig` takes.
use spy_socket.Chunked.{Overflow, atoi}
use spy_socket.Disk.{Disk, Kind, regular, directory, special}
use spy_socket.Responses.Pages.{page_path, plain_text, config_page}
use spy_socket.Prelude.{
  ℕ, false, List, [], ◌∷◌, Option, none, some, ◌≡◌, refl, ◌∙◌, sym, inl, inr, All, Bool-cases,
  Option-cases, ◌==◌, ==_iff,
}
use spy_socket.Prelude.Text.{Bytes}

-- A page of the configuration for a code, which is a plain file and opens with this text.
abbrev pub IsUsable : Overflow → Disk → Bytes → ℕ → Bytes × Bytes → Bytes → Type 0
IsUsable over disk root code entry text =
    (atoi over entry.0 ≡ code)
    × ((disk (page_path root entry.1)).kind ≡ some regular)
    × ((disk (page_path root entry.1)).text ≡ some text)

abbrev pub IsUnusable : Overflow → Disk → Bytes → ℕ → Bytes × Bytes → Type 0
IsUnusable over disk root code entry = (text : Bytes) → IsUsable over disk root code entry text → ⊥

-- The text is that of the first usable page.
pub data IsFirst (over : Overflow) (disk : Disk) (root : Bytes) (code : ℕ) (text : Bytes)
    : List (Bytes × Bytes) → Type 0 where
  here :
      (entry : Bytes × Bytes) (entries : List (Bytes × Bytes))
      → IsUsable over disk root code entry text
      → IsFirst over disk root code text (entry ∷ entries)
  later :
      (entry : Bytes × Bytes) (entries : List (Bytes × Bytes))
      → IsUnusable over disk root code entry
      → IsFirst over disk root code text entries
      → IsFirst over disk root code text (entry ∷ entries)

plain_text-some :
    (kind : Option Kind) (text : Option Bytes) (t : Bytes)
    → plain_text kind text ≡ some t
    → (kind ≡ some regular) × (text ≡ some t)
plain_text-some none text t h = cc
plain_text-some (some regular) text t h = (refl, h)
plain_text-some (some directory) text t h = cc
plain_text-some (some special) text t h = cc

plain_text-none :
    (kind : Option Kind) (text : Option Bytes) (t : Bytes)
    → plain_text kind text ≡ none
    → kind ≡ some regular
    → text ≡ some t
    → ⊥
plain_text-none none text t h k e = cc
plain_text-none (some regular) text t h k e = let n = sym h ∙ e in cc
plain_text-none (some directory) text t h k e = cc
plain_text-none (some special) text t h k e = cc

-- Why a page is not taken.
other_code :
    (over : Overflow) (disk : Disk) (root : Bytes) (code : ℕ) (entry : Bytes × Bytes)
    → (atoi over entry.0 == code) ≡ false
    → IsUnusable over disk root code entry
other_code over disk root code entry e text (h, _, _) =
    let t = (==_iff (atoi over entry.0) code).1 h in let n = sym e ∙ t in cc

no_text :
    (over : Overflow) (disk : Disk) (root : Bytes) (code : ℕ) (entry : Bytes × Bytes)
    → plain_text (disk (page_path root entry.1)).kind (disk (page_path root entry.1)).text ≡ none
    → IsUnusable over disk root code entry
no_text over disk root code entry e text (_, k, t) = plain_text-none _ _ text e k t

pub config_page-some :
    (over : Overflow) (disk : Disk) (root : Bytes) (code : ℕ) (entries : List (Bytes × Bytes))
    (text : Bytes)
    → config_page over disk root code entries ≡ some text
    → IsFirst over disk root code text entries
unfolding config_page
config_page-some over disk root code [] text h = cc
config_page-some over disk root code ((status, page) ∷ entries) text h =
    let node = disk (page_path root page) in
    elim (Bool-cases (atoi over status == code)) [
      | inr e ↦
          later (status, page) entries (other_code over disk root code (status, page) e)
            (config_page-some over disk root code entries text (rw (config_page, e) at h))
      | inl e ↦ elim (Option-cases (plain_text node.kind node.text)) [
        | inl n ↦
            later (status, page) entries (no_text over disk root code (status, page) n)
              (config_page-some over disk root code entries text (rw (config_page, e, n) at h))
        | inr (t, n) ↦
            let (k, read) =
              plain_text-some node.kind node.text text (n ∙ (rw (config_page, e, n) at h)) in
            here (status, page) entries ((==_iff (atoi over status) code).0 e, k, read)
      ]
    ]

pub config_page-none :
    (over : Overflow) (disk : Disk) (root : Bytes) (code : ℕ) (entries : List (Bytes × Bytes))
    → config_page over disk root code entries ≡ none
    → All (IsUnusable over disk root code) entries
unfolding config_page
config_page-none over disk root code [] h = tt
config_page-none over disk root code ((status, page) ∷ entries) h =
    let node = disk (page_path root page) in
    elim (Bool-cases (atoi over status == code)) [
      | inr e ↦ (
        other_code over disk root code (status, page) e,
        config_page-none over disk root code entries (rw (config_page, e) at h),
      )
      | inl e ↦ elim (Option-cases (plain_text node.kind node.text)) [
        | inl n ↦ (
          no_text over disk root code (status, page) n,
          config_page-none over disk root code entries (rw (config_page, e, n) at h),
        )
        | inr (t, n) ↦ let k = rw (config_page, e, n) at h in cc
      ]
    ]
