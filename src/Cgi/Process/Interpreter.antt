-- ===== src/Cgi/Process/Interpreter.antt =====
-- The interpreter of a script: `get_interpreter` of src/CGI/cgi.cpp.
use spy_socket.Cgi.Process.{
  chosen, if_executable, configured, default_interpreter, shebang, shebang_of, extension_of,
  get_interpreter,
}
use spy_socket.Config.{LocationStruct}
use spy_socket.Disk.{Disk}
use spy_socket.Prelude.{
  true, List, [], ◌∷◌, Option, none, some, ◌≡◌, Bool-cases, Option-cases, is_empty, length, ltb,
  inl, inr, ◌&&◌, ◌==◌, ◌∙◌, ap,
}
use spy_socket.Prelude.Text.Words.{before}
use spy_socket.Prelude.Text.{Bytes, codes, str_eq, is_prefix}

if_executable-chosen :
    (disk : Disk) (path message i : Bytes)
    → if_executable disk path message ≡ chosen i
    → (disk i).executable ≡ true
if_executable-chosen disk path message i h = elim (Bool-cases (disk path).executable) [
  | inl x ↦ let k = rw x at h in cc
  | inr x ↦ let k = rw x at h in cc
]

configured-chosen :
    (disk : Disk) (extension i : Bytes) (exts paths : List Bytes)
    → configured disk extension exts paths ≡ some (chosen i)
    → (disk i).executable ≡ true
unfolding configured
configured-chosen disk extension i [] paths h = cc
configured-chosen disk extension i (e ∷ exts) [] h = cc
configured-chosen disk extension i (e ∷ exts) (p ∷ paths) h =
    elim (Bool-cases (str_eq extension e)) [
      | inl t ↦
          let k = rw (configured, t) at h in
          if_executable-chosen disk p (codes "Configured CGI interpreter not executable") i cc
      | inr t ↦ configured-chosen disk extension i exts paths (rw (configured, t) at h)
    ]

shebang-chosen :
    (disk : Disk) (text : Option Bytes) (i : Bytes)
    → shebang disk text ≡ chosen i
    → (disk i).executable ≡ true
unfolding shebang
shebang-chosen disk none i h = cc
shebang-chosen disk (some text) i h =
    let line = before (λ c. c == b'\n') text in
    elim (Bool-cases (ltb 2 (length line) && is_prefix (codes "#!") line)) [
      | inr m ↦ let k = rw (shebang, m) at h in cc
      | inl m ↦ elim (Bool-cases (is_empty (shebang_of line))) [
        | inl n ↦ let k = rw (shebang, m, n) at h in cc
        | inr n ↦ if_executable-chosen disk _ _ i (rw (shebang, m, n) at h)
      ]
    ]

-- An interpreter that is chosen can be run.
pub get_interpreter-executable :
    (disk : Disk) (path i : Bytes) (l : LocationStruct)
    → get_interpreter disk path l ≡ chosen i
    → (disk i).executable ≡ true
unfolding get_interpreter
get_interpreter-executable disk path i l h =
    elim (Option-cases (configured disk (extension_of path) l.cgi_ext l.cgi_path)) [
      | inr (choice, e) ↦
          configured-chosen disk (extension_of path) i l.cgi_ext l.cgi_path
            (e ∙ ap some (rw (get_interpreter, e) at h))
      | inl e ↦ elim (Bool-cases (is_empty (default_interpreter (extension_of path)))) [
        | inl d ↦ shebang-chosen disk (disk path).text i (rw (get_interpreter, e, d) at h)
        | inr d ↦ if_executable-chosen disk _ _ i (rw (get_interpreter, e, d) at h)
      ]
    ]
