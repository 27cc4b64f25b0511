-- ===== src/Cgi/Process.antt =====
-- The process of a CGI request: `execute`, `execute_with_body`, `get_interpreter` and `send_post_data` of
-- src/CGI/cgi.cpp. What the system answers is a `Launch`; the lines that `access_error` writes are not
-- modelled.
pub mod Started
pub mod Interpreter
use spy_socket.Cgi.{Cgi}
use spy_socket.Config.{LocationStruct}
use spy_socket.Disk.{Disk}
use spy_socket.Prelude.{
  ℕ, zero, suc, ◌-◌, Bool, true, false, not, ◌&&◌, ◌||◌, List, [], ◌∷◌, ◌++◌, Option, none, some,
  ltb, ◌==◌, if◌then◌else◌, is_empty, length, drop,
}
use spy_socket.Prelude.Text.{Bytes, codes, str_eq, is_prefix, find_last, is_blank, trim_start}
use spy_socket.Prelude.Text.Words.{before}

-- The answers of the system: the working directory, whether both pipes are made, the id of the
-- child, the descriptor that its output is read from, the time, and the results of the writes to it.
pub record Launch : Type 0 where
  pub cwd : Bytes
  pub pipes : Bool
  pub child : Option ℕ
  pub out_fd : ℕ
  pub started : ℕ
  pub writes : List (Option ℕ)

-- An interpreter, or none with the error message that is set with the code 500.
pub data Choice : Type 0 where
  chosen : Bytes → Choice
  refused : Bytes → Choice

abbrev pub if_executable : Disk → Bytes → Bytes → Choice
if_executable disk path message = if (disk path).executable then chosen path else refused message

-- The loop over the extensions of the location; nothing where none of them is that of the script.
unfoldable pub configured : Disk → Bytes → List Bytes → List Bytes → Option Choice
configured disk extension [] paths = none
configured disk extension (e ∷ exts) [] = none
configured disk extension (e ∷ exts) (p ∷ paths) =
    let rest = configured disk extension exts paths in
    if str_eq extension e
    then some (if_executable disk p (codes "Configured CGI interpreter not executable"))
    else rest

unfoldable pub default_interpreter : Bytes → Bytes
default_interpreter extension =
    if str_eq extension (codes ".py")
    then codes "/usr/bin/python3"
    else if str_eq extension (codes ".pl")
    then codes "/usr/bin/perl"
    else if str_eq extension (codes ".php")
    then codes "/usr/bin/php"
    else if str_eq extension (codes ".sh")
    then codes "/bin/bash"
    else []

-- What the first line of a script names.
unfoldable pub shebang_of : Bytes → Bytes
shebang_of line = before (λ c. is_blank c || c == b'\r' || c == b'\n') (trim_start (drop 2 line))

unfoldable pub shebang : Disk → Option Bytes → Choice
shebang disk none = refused (codes "Could not determine CGI interpreter")
shebang disk (some text) =
    let line = before (λ c. c == b'\n') text in
    if not (ltb 2 (length line) && is_prefix (codes "#!") line)
    then refused (codes "Could not determine CGI interpreter")
    else if is_empty (shebang_of line)
    then refused (codes "Shebang interpreter not found or not executable")
    else if_executable disk (shebang_of line)
        (codes "Shebang interpreter not found or not executable")

unfoldable pub extension_of : Bytes → Bytes
extension_of path = elim (find_last b'.' path) [ none ↦ [] | some dot ↦ drop dot path ]

unfoldable pub get_interpreter : Disk → Bytes → LocationStruct → Choice
get_interpreter disk script_path location =
    let extension = extension_of script_path in
    let default = default_interpreter extension in
    elim (configured disk extension location.cgi_ext location.cgi_path) [
      | some choice ↦ choice
      | none ↦
          if not (is_empty default)
          then if_executable disk default
              (codes "Default CGI interpreter not found or not executable")
          else shebang disk (disk script_path).text
    ]

-- `argv` of the child, whose first entry is the program that execve runs.
unfoldable pub child_argv : Disk → Bytes → LocationStruct → List Bytes
child_argv disk full_path location = elim (get_interpreter disk full_path location) [
  | chosen interpreter ↦ interpreter ∷ full_path ∷ []
  | refused message ↦ full_path ∷ []
]

unfoldable pub full_script_path : Launch → Cgi → Bytes
full_script_path launch c = launch.cwd ++ (codes "/" ++ (c.current_location.root ++ c.script_path))

-- The two tests on the script: the state with the error, if one fails.
unfoldable pub check_script : Disk → Bytes → Cgi → Option Cgi
check_script disk path c =
    if not (disk path).present
    then some
        (record c { error_code = 404; error_message = codes "CGI script not found: " ++ path })
    else if not (disk path).executable
    then some
        (record c { error_code = 403; error_message = codes "CGI script not executable: " ++ path })
    else none

-- The state of the parent behind fork.
unfoldable pub running : Launch → ℕ → Cgi → Cgi
running launch pid c = record c {
  cgi_pid = some pid;
  cgi_fd = some launch.out_fd;
  cgi_start_time = launch.started;
}

unfoldable pub execute : Disk → Launch → Cgi → Bool × Cgi
execute disk launch c = elim (check_script disk (full_script_path launch c) c) [
  | some failed ↦ (false, failed)
  | none ↦ if not launch.pipes then (false, c) else elim (launch.child) [
    | none ↦ (
      false,
      record c {
        cgi_pid = none;
        error_code = 500;
        error_message = codes "Fork Failed : Internal server error";
      },
    )
    | some pid ↦ (true, running launch pid c)
  ]
]

-- The loop of `send_post_data` over the results of write, on the number of bytes that are left; `none`
-- where write has not returned yet.
unfoldable pub send_loop : List (Option ℕ) → ℕ → Option Bool
send_loop writes zero = some true
send_loop [] (suc left) = none
send_loop (none ∷ writes) (suc left) = some false
send_loop (some zero ∷ writes) (suc left) = some false
send_loop (some (suc sent) ∷ writes) (suc left) = send_loop writes (left - sent)

-- Behind a body that was not sent the child is killed, and the members stay set.
unfoldable pub execute_with_body : Disk → Launch → Cgi → Bytes → Option (Bool × Cgi)
execute_with_body disk launch c body = elim (check_script disk (full_script_path launch c) c) [
  | some failed ↦ some (false, failed)
  | none ↦ if not launch.pipes then some (false, c) else elim (launch.child) [
    | none ↦ some (false, record c { cgi_pid = none })
    | some pid ↦ elim (send_loop launch.writes (length body)) [
      | none ↦ none
      | some sent ↦ some (sent, running launch pid c)
    ]
  ]
]
