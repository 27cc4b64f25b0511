-- ===== src/Disk.antt =====
-- The file system as src/Methods/Get.cpp, src/POST and src/utils/RespondError.cpp see it: what the system
-- answers about a path. It is a parameter of the functions that use it, and does not change while one
-- response is made.
use spy_socket.Prelude.{ℕ, Bool, List, Option}
use spy_socket.Prelude.Text.{Bytes}

pub data Kind : Type 0 where
  regular directory special : Kind

-- `kind` and `size` are what stat gives, with no kind where it fails; `text` is what an input stream
-- reads, if it opens; `names` is what readdir gives, if the path opens as a directory; `present` and
-- `executable` are the answers of access; `writable` and `keeps` say whether an output stream opens, and
-- whether it is still good behind a write.
pub record Node : Type 0 where
  pub kind : Option Kind
  pub size : ℕ
  pub text : Option Bytes
  pub names : Option (List Bytes)
  pub present : Bool
  pub executable : Bool
  pub writable : Bool
  pub keeps : Bool

abbrev pub Disk : Type 0
Disk = Bytes → Node
