-- ===== src/Dispatch/Running.antt =====
-- `HandleCGIMethod` of src/CClient.cpp: what becomes of a process that was started.
use spy_socket.Cgi.{Cgi, Reading, would_block, read_output, is_cgi_timeout}
use spy_socket.Dispatch.{World, CClient, client_page, format_cgi_response, dropped}
use spy_socket.Prelude.{
  ℕ, zero, suc, Bool, true, false, not, ◌&&◌, ◌||◌, List, [], ◌∷◌, none, some, if◌then◌else◌,
  is_empty, is_some, take,
}
use spy_socket.Prelude.Text.{Bytes, codes, find, contains}

-- The result of waitpid: an error, the process with whether it exited with the status 0, or anything
-- else.
pub data Wait : Type 0 where
  failed : Wait
  ended : Bool → Wait
  running : Wait

-- The answers of the system in one call: both waits, the time, and what each of the loops reads. Where
-- a list of readings ends, there is nothing to read yet.
pub record Poll : Type 0 where
  pub first : Wait
  pub second : Wait
  pub now : ℕ
  pub early : List Reading
  pub late : List Reading

-- while (read_output() && n < limit) n++
unfoldable pub read_loop : ℕ → List Reading → Cgi → Cgi
read_loop limit [] cgi = (read_output cgi would_block).1
read_loop zero (r ∷ rs) cgi = (read_output cgi r).1
read_loop (suc limit) (r ∷ rs) cgi =
    let rest = read_loop limit rs (read_output cgi r).1 in
    if (read_output cgi r).0 then rest else (read_output cgi r).1

-- Whether output that is not at its end is taken for a whole page.
unfoldable pub looks_whole : Bytes → Bool
looks_whole output =
    contains (codes "Content-Type:") output
    && (contains (codes "\r\n\r\n") output || contains (codes "\n\n") output)
    && contains (codes "text/html")
        (elim (find (codes "\n") output) [ none ↦ output | some i ↦ take i output ])
    && (contains (codes "</html>") output || contains (codes "<!DOCTYPE html>") output)

-- The handler is closed and the output is the response.
unfoldable pub settle : World → CClient → Cgi → Bytes × CClient
settle w c cgi = format_cgi_response w (dropped c) cgi.output_buffer

abbrev pub limit : ℕ
limit = 100

unfoldable pub is_ended : Wait → Bool
is_ended (ended ok) = true
is_ended failed = false
is_ended running = false

-- Behind the loop that reads while the process is running.
unfoldable pub go_on : World → Poll → CClient → Cgi → Bytes × CClient
go_on w poll c cgi =
    if is_ended poll.second
    then settle w c (if is_some cgi.cgi_fd then read_loop limit poll.late cgi else cgi)
    else if not (is_some cgi.cgi_fd) && not (is_empty cgi.output_buffer)
    then settle w c cgi
    else if looks_whole cgi.output_buffer
    then settle w c cgi
    else ([], record c { cgi_handler = some cgi })

abbrev pub cgi_timeout : ℕ
cgi_timeout = 30

unfoldable pub with_handler : World → Poll → Wait → CClient → Cgi → Bytes × CClient
with_handler w poll failed c cgi = client_page w (dropped c) 500
with_handler w poll (ended false) c cgi = client_page w (dropped c) 502
with_handler w poll (ended true) c cgi = settle w c (read_loop 10 poll.early cgi)
with_handler w poll running c cgi =
    if is_cgi_timeout cgi poll.now cgi_timeout
    then client_page w (dropped c) 504
    else go_on w poll c (read_loop limit poll.early cgi)

-- Whether the call closes a handler whose process was still there at the last wait for it.
unfoldable pub closes_running : World → Poll → Wait → CClient → Cgi → Bool
closes_running w poll failed c cgi = false
closes_running w poll (ended ok) c cgi = false
closes_running w poll running c cgi =
    if is_cgi_timeout cgi poll.now cgi_timeout
    then true
    else not (is_ended poll.second) && not (is_empty (with_handler w poll running c cgi).0)

-- Whether the call comes back: close_cgi waits for a process that goes on.
unfoldable pub returns : World → Poll → CClient → Bool
returns w poll c = w.terminates || elim (c.cgi_handler) [
  | none ↦ true
  | some cgi ↦ not (closes_running w poll poll.first c cgi)
]

-- What the call gives where it comes back.
unfoldable pub handle_cgi_method : World → Poll → CClient → Bytes × CClient
handle_cgi_method w poll c = elim (c.cgi_handler) [
  | none ↦ client_page w c 500
  | some cgi ↦ with_handler w poll poll.first c cgi
]
