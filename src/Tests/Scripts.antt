-- ===== src/Tests/Scripts.antt =====
-- Runs of the CGI requests, and their properties at concrete input.
use spy_socket.Cgi.{
  Cgi, new_cgi, holds_text, is_extension_allowed, split_query, split_script, set_parts, read_script,
  check_is_cgi,
}
use spy_socket.Cgi.Process.{
  Launch, configured, default_interpreter, shebang_of, shebang, extension_of, get_interpreter,
  full_script_path, check_script, running, send_loop, execute_with_body,
}
use spy_socket.Cgi.Process.Started.{IsStarted, IsRefused, execute_with_body-ends}
use spy_socket.Cgi.Process.Interpreter.{get_interpreter-executable}
use spy_socket.Cgi.Script.{IsScript, check_is_cgi-IsScript}
use spy_socket.Config.{LocationStruct}
use spy_socket.Disk.{Disk}
use spy_socket.Prelude.{◌⊎◌, true, false, [], ◌∷◌, none, some, ◌≡◌, refl, if◌then◌else◌}
use spy_socket.Prelude.Text.{Bytes, codes, str_eq}
use spy_socket.Prelude.Text.Map.{Map}
use spy_socket.Tests.{site}
use spy_socket.Tests.Serving.{serving, missing}

unfoldable pub scripts : Unit {0}
unfolding serving new_cgi holds_text is_extension_allowed split_query split_script set_parts
    read_script check_is_cgi configured default_interpreter shebang_of shebang extension_of
    get_interpreter full_script_path check_script running send_loop execute_with_body
scripts = tt

abbrev pub scripted : LocationStruct
scripted = record site {
  root = codes "www";
  cgi_ext = codes ".py" ∷ [];
  cgi_path = codes "/bin/py" ∷ [];
}

abbrev fresh : Cgi
fresh = record (new_cgi site) { current_location = scripted }

abbrev target : Bytes
target = codes "/cgi-bin/a.py/x/y?n=1"

abbrev line : Map
line = (codes "uri", target) ∷ []

abbrev pub found : Cgi
found = record fresh {
  is_cgi = true;
  script_path = codes "/cgi-bin/a.py";
  path_info = codes "/x/y";
  query_string = codes "n=1";
}

check_ok : check_is_cgi fresh line ≡ (true, found)
unfolding scripts
check_ok = refl

check_is_cgi-IsScript_example : IsScript target found
unfolding scripts
check_is_cgi-IsScript_example = check_is_cgi-IsScript fresh found line target refl refl

-- The interpreter and the script can be run.
abbrev pub disk : Disk
disk path = record missing {
  present = true;
  executable =
      if str_eq path (codes "/bin/py") then true else str_eq path (codes "/srv/www/cgi-bin/a.py");
}

abbrev pub launch : Launch
launch = record {
  cwd = codes "/srv";
  pipes = true;
  child = some 42;
  out_fd = 7;
  started = 1000;
  writes = some 3 ∷ some 2 ∷ [];
}

-- A write that fails.
send_fails :
    (execute_with_body disk (record launch { writes = some 3 ∷ none ∷ [] }) found (codes "hello"))
    ≡ some (false, running launch 42 found)
unfolding scripts
send_fails = refl

execute_with_body-ends_example :
    ((true ≡ true) × IsStarted disk launch found (running launch 42 found) (codes "hello"))
    ⊎ ((true ≡ false) × IsRefused disk launch found (running launch 42 found) (codes "hello"))
unfolding scripts
execute_with_body-ends_example =
    execute_with_body-ends disk launch found (running launch 42 found) (codes "hello") true refl

get_interpreter-executable_example : (disk (codes "/bin/py")).executable ≡ true
unfolding scripts
get_interpreter-executable_example =
    get_interpreter-executable disk (codes "/srv/www/cgi-bin/a.py") (codes "/bin/py") scripted refl
