-- ===== src/Config.antt =====
-- inc/Struct.hpp: what a server block of the configuration holds. A std::map and a list of pairs
-- are association lists, a std::set is the list of its elements.
pub mod Values
pub mod Directives
pub mod Server
pub mod Cluster
pub mod Redirects
use spy_socket.Prelude.{ℕ, Bool, List}
use spy_socket.Prelude.Text.{Bytes}

pub record LocationStruct : Type 0 where
  pub auto_index : Bool
  pub allowed_methods : List Bytes
  pub root : Bytes
  pub index_page : Bytes
  pub returns : List (Bytes × Bytes)
  pub cgi_path : List Bytes
  pub cgi_ext : List Bytes
  pub upload_enabled : Bool
  pub upload_path : Bytes
  pub url_encoded : List (Bytes × Bytes)

pub record ConfigStruct : Type 0 where
  pub server_name : Bytes
  pub host : Bytes
  pub root : Bytes
  pub index_page : Bytes
  pub auto_index : Bool
  pub client_max_body_size : ℕ
  pub listen : List ℕ
  pub location : List (Bytes × LocationStruct)
  pub error_page : List (Bytes × Bytes)
