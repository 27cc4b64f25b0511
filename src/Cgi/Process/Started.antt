-- ===== src/Cgi/Process/Started.antt =====
-- The start of a process that is given a body: `execute_with_body` of src/CGI/cgi.cpp.
use spy_socket.Cgi.{Cgi}
use spy_socket.Cgi.Process.{
  Launch, full_script_path, check_script, running, send_loop, execute_with_body,
}
use spy_socket.Disk.{Disk}
use spy_socket.Prelude.{
  ◌<◌, ◌++◌, map, ◌⊎◌, subst, Bool, false, refl, ℕ, zero, suc, ◌+◌, ◌-◌, ◌≤◌, true, List, [], ◌∷◌,
  Option, none, some, ◌≡◌, arith, Bool-cases, Option-cases, length, inl, inr, ◌∙◌, ap,
}
use spy_socket.Prelude.Text.{Bytes}

-- The bytes that the writes took.
abbrev pub total : List (Option ℕ) → ℕ
total [] = 0
total (none ∷ writes) = total writes
total (some n ∷ writes) = n + total writes

send_loop-total :
    (writes : List (Option ℕ)) (left : ℕ) → send_loop writes left ≡ some true → left ≤ total writes
unfolding send_loop
send_loop-total writes zero h = omega arith
send_loop-total [] (suc left) h = cc
send_loop-total (none ∷ writes) (suc left) h = cc
send_loop-total (some zero ∷ writes) (suc left) h = cc
send_loop-total (some (suc sent) ∷ writes) (suc left) h =
    let k = send_loop-total writes (left - sent) h in omega arith

-- The writes fail before the body is written: some are taken, and then one is an error or takes nothing.
pub record IsCut (writes : List (Option ℕ)) (size : ℕ) : Type 0 where
  pub taken : List ℕ
  pub bad : Option ℕ
  pub rest : List (Option ℕ)
  pub writes_are : writes ≡ map (λ n. some n) taken ++ bad ∷ rest
  pub fails : (bad ≡ none) ⊎ (bad ≡ some 0)
  pub short : total (map (λ n. some n) taken) < size

send_loop-IsCut :
    (writes : List (Option ℕ)) (left : ℕ) → send_loop writes left ≡ some false → IsCut writes left
unfolding send_loop
send_loop-IsCut writes zero h = cc
send_loop-IsCut [] (suc left) h = cc
send_loop-IsCut (none ∷ writes) (suc left) h = record {
  taken = [];
  bad = none;
  rest = writes;
  writes_are = refl;
  fails = inl refl;
  short = omega arith;
}
send_loop-IsCut (some zero ∷ writes) (suc left) h = record {
  taken = [];
  bad = some 0;
  rest = writes;
  writes_are = refl;
  fails = inr refl;
  short = omega arith;
}
send_loop-IsCut (some (suc sent) ∷ writes) (suc left) h =
    let r = send_loop-IsCut writes (left - sent) h in
    record {
      taken = suc sent ∷ r.taken;
      bad = r.bad;
      rest = r.rest;
      writes_are = ap (some (suc sent) ∷◌) r.writes_are;
      fails = r.fails;
      short = let l = r.short in omega arith;
    }

-- A process that is started: the script can be run, the state holds the process, the descriptor of
-- its output and the time, and the writes took the whole body.
pub record IsStarted (disk : Disk) (launch : Launch) (c c' : Cgi) (body : Bytes) : Type 0 where
  pub present : (disk (full_script_path launch c)).present ≡ true
  pub executable : (disk (full_script_path launch c)).executable ≡ true
  pub pid : ℕ
  pub child_is : launch.child ≡ some pid
  pub pid_is : c'.cgi_pid ≡ some pid
  pub fd_is : c'.cgi_fd ≡ some launch.out_fd
  pub time_is : c'.cgi_start_time ≡ launch.started
  pub no_output : c'.output_buffer ≡ c.output_buffer
  pub sent : length body ≤ total launch.writes

-- Why no process is started, and the error that is left.
pub data IsRefused (disk : Disk) (launch : Launch) (c c' : Cgi) (body : Bytes) : Type 0 where
  absent :
      (disk (full_script_path launch c)).present ≡ false
      → c'.error_code ≡ 404
      → c'.cgi_pid ≡ c.cgi_pid
      → IsRefused disk launch c c' body
  barred :
      (disk (full_script_path launch c)).executable ≡ false
      → c'.error_code ≡ 403
      → c'.cgi_pid ≡ c.cgi_pid
      → IsRefused disk launch c c' body
  no_pipe : launch.pipes ≡ false → c' ≡ c → IsRefused disk launch c c' body
  no_child :
      launch.child ≡ none
      → c'.cgi_pid ≡ none
      → c'.error_code ≡ c.error_code
      → IsRefused disk launch c c' body
  unsent : IsCut launch.writes (length body) → IsRefused disk launch c c' body

check_script-refuses :
    (disk : Disk) (launch : Launch) (c c' : Cgi) (body : Bytes)
    → check_script disk (full_script_path launch c) c ≡ some c'
    → IsRefused disk launch c c' body
unfolding check_script
check_script-refuses disk launch c c' body h =
    let node = disk (full_script_path launch c) in
    elim (Bool-cases node.present) [
      | inr p ↦
          let k = rw (check_script, p) at h in
          absent p (ap_some (λ d. d.error_code) k) (ap_some (λ d. d.cgi_pid) k)
      | inl p ↦ elim (Bool-cases node.executable) [
        | inr x ↦
            let k = rw (check_script, p, x) at h in
            barred x (ap_some (λ d. d.error_code) k) (ap_some (λ d. d.cgi_pid) k)
        | inl x ↦ let k = rw (check_script, p, x) at h in cc
      ]
    ]
  where
    ap_some :
        {A : Type 0} {a b : Cgi} (f : Cgi → A) → ◌≡◌ {A = Option Cgi} (some a) (some b) → f b ≡ f a
    ap_some f e = cc

check_script-none :
    (disk : Disk) (path : Bytes) (c : Cgi)
    → check_script disk path c ≡ none
    → ((disk path).present ≡ true) × ((disk path).executable ≡ true)
unfolding check_script
check_script-none disk path c h = elim (Bool-cases (disk path).present) [
  | inl p ↦ elim (Bool-cases (disk path).executable) [
    | inl x ↦ (p, x)
    | inr x ↦ let k = rw (check_script, p, x) at h in cc
  ]
  | inr p ↦ let k = rw (check_script, p) at h in cc
]

started :
    (disk : Disk) (launch : Launch) (c c' : Cgi) (body : Bytes) (pid : ℕ)
    → check_script disk (full_script_path launch c) c ≡ none
    → launch.child ≡ some pid
    → running launch pid c ≡ c'
    → send_loop launch.writes (length body) ≡ some true
    → IsStarted disk launch c c' body
unfolding running
started disk launch c c' body pid e f d g =
    let (there, runs) = check_script-none disk (full_script_path launch c) c e in
    subst (λ d. IsStarted disk launch c d body) d
      (record {
        present = there;
        executable = runs;
        pid = pid;
        child_is = f;
        pid_is = refl;
        fd_is = refl;
        time_is = refl;
        no_output = refl;
        sent = send_loop-total launch.writes (length body) g;
      })

-- Where execute_with_body returns, it returns true and the script is there and can be run, the
-- state holds the id of the child, the descriptor of its output and the time of the start, and
-- the writes took at least as many bytes as the body has; or it returns false, and the script is
-- not there (the error is 404), or it cannot be run (403), or a pipe was not made and the state
-- is as it was, or fork failed and there is no process, or a write failed or took nothing before
-- the body was written.
pub execute_with_body-ends :
    (disk : Disk) (launch : Launch) (c c' : Cgi) (body : Bytes) (ok : Bool)
    → execute_with_body disk launch c body ≡ some (ok, c')
    → ((ok ≡ true) × IsStarted disk launch c c' body)
      ⊎ ((ok ≡ false) × IsRefused disk launch c c' body)
unfolding execute_with_body
execute_with_body-ends disk launch c c' body ok h =
    elim (Option-cases (check_script disk (full_script_path launch c) c)) [
      | inr (failed, e) ↦
          let k = rw (execute_with_body, e) at h in
          inr (cc, check_script-refuses disk launch c c' body (e ∙ cc))
      | inl e ↦ elim (Bool-cases launch.pipes) [
        | inr p ↦ let k = rw (execute_with_body, e, p) at h in inr (cc, no_pipe p cc)
        | inl p ↦ elim (Option-cases launch.child) [
          | inl f ↦
              let k = rw (execute_with_body, e, p, f) at h in
              let d : record c { cgi_pid = none } ≡ c' = cc in
              inr (
                cc,
                no_child f (subst (λ d. d.cgi_pid ≡ none) d refl)
                    (subst (λ d. d.error_code ≡ c.error_code) d refl),
              )
          | inr (pid, f) ↦ elim (Option-cases (send_loop launch.writes (length body))) [
            | inl g ↦ let k = rw (execute_with_body, e, p, f, g) at h in cc
            | inr (true, g) ↦
                let k = rw (execute_with_body, e, p, f, g) at h in
                inl (cc, started disk launch c c' body pid e f (cc) g)
            | inr (false, g) ↦
                let k = rw (execute_with_body, e, p, f, g) at h in
                inr (cc, unsent (send_loop-IsCut launch.writes (length body) g))
          ]
        ]
      ]
    ]
