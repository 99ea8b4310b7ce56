-- ===== src/Application.antt =====
-- example_app.cpp: the server from the command line.
pub mod Starting
pub mod Tests
use in_memory_object_storage.Common.{
  ℕ, zero, suc, ◌-◌, ◌%◌, ◌^◌, Bool, List, [], ◌∷◌, Option, none, some, if◌then◌else◌, Outcome, ok,
  ◌>>=◌, or_undefined,
}
use in_memory_object_storage.Common.Text.{Bytes, codes, text_eq}
use in_memory_object_storage.Utils.Split.{split}
use in_memory_object_storage.Utils.Split.Tokens.{join}
use in_memory_object_storage.Protocol.HttpRequest.{to_size}
use in_memory_object_storage.Protocol.HttpRequest.Atoi.{ℤ, pos, negsuc, atoi}
use in_memory_object_storage.Session.Start.{PortRange}
use in_memory_object_storage.Server.{
  ObjectStorage, LogLevel, AcceptorResults, new_server, add_user, start,
}

-- An int converted to std::uint16_t.
unfoldable pub to_uint16 : ℤ → ℕ
to_uint16 (pos n) = n % 2 ^ 16
to_uint16 (negsuc n) = 2 ^ 16 - 1 - n % 2 ^ 16

-- What stands at `tokens[i].data()`: a view has no end of its own for std::atoi, which reads on
-- behind the token to the end of the argument.
unfoldable pub text_from : ℕ → List Bytes → Option Bytes
text_from i [] = none
text_from zero (token ∷ tokens) = some (join (codes "-") (token ∷ tokens))
text_from (suc i) (token ∷ tokens) = text_from i tokens

-- The server with its user, before it starts.
unfoldable pub configured : Bytes → ℤ → Bytes → ℤ → ℤ → ObjectStorage
unfolding new_server add_user to_uint16
configured address port auth min max =
    (add_user (codes "Nord") (codes "VPN") (
      new_server address (to_uint16 port) LogLevel.info (text_eq auth (codes "auth"))
        (record { min_port = to_uint16 min; max_port = to_uint16 max }))).1

-- The server that runs, or `none` where -1 is returned.
unfoldable pub main : AcceptorResults → List Bytes → Outcome (Option ObjectStorage)
unfolding text_from configured start to_size
main r (program ∷ address ∷ port ∷ threads ∷ auth ∷ range ∷ []) = do
  port_number ← atoi port
  thread_count ← atoi threads
  ftp_port_range ← split range (codes "-")
  first ← or_undefined (text_from 0 ftp_port_range)
  ftp_port_min ← atoi first
  second ← or_undefined (text_from 1 ftp_port_range)
  ftp_port_max ← atoi second
  let (started, o) =
      start r (to_size thread_count) (configured address port_number auth ftp_port_min ftp_port_max)
  ok (if started then some o else none)
main r _ = ok none
