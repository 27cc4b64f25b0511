-- ===== src/Get.antt =====
-- src/Methods/Get.cpp: the GET method. The file system is a `Disk`. What the method writes of its client is
-- a `Client`, and an exception is an `Outcome` of its own. A failed allocation is modelled only where
-- the length is beyond what a vector can have. `buildHttpHeaders`, `handleDirectoryWithIndex` and
-- `setupChunkedSending`, which nothing calls, and the functions that print are not modelled.
pub mod Match
pub mod Index
pub mod File
pub mod Method
use spy_socket.Chunked.{Overflow}
use spy_socket.Config.{ConfigStruct}
use spy_socket.Disk.{Disk}
use spy_socket.Responses.{Now}
use spy_socket.Responses.Pages.{get_error_page_from_config}
use spy_socket.Prelude.{ℕ, Bool, true, List, ◌∷◌, []}
use spy_socket.Prelude.Text.{Bytes}

-- The rest of what the method takes from outside: the conversions to `int` that overflow, the time,
-- and what an uninitialised `struct stat` says of a path whose stat fails.
pub record Host : Type 0 where
  pub over : Overflow
  pub now : Now
  pub stale : Bytes → Bool

-- The members of CClient that the method writes.
pub record Client : Type 0 where
  pub name_location : Bytes
  pub file_path : Bytes
  pub chunked_sending : Bool

-- A response, or the exception that leaves the method: a runtime_error with its text, the
-- out_of_range of substr, or the length_error of a vector.
pub data Outcome : Type 0 where
  answer : Bytes → Outcome
  runtime_error : Bytes → Outcome
  out_of_range : Outcome
  length_error : Outcome

-- `getErrorPageFromConfig`
unfoldable pub error_page : Host → Disk → ConfigStruct → Client → ℕ → Outcome × Client
error_page host disk config client code = (
  answer (get_error_page_from_config host.over disk host.now config code),
  record client { chunked_sending = true },
)
