-- ===== src/Session/Start.antt =====
-- `Session::start` in server/object_storage/src/session.cpp. The option TCP_NODELAY and the client's
-- address are for the network and the log only.
pub mod Greeting
use in_memory_object_storage.Common.{ℕ, Bool, ◌&&◌, leb, ltb, if◌then◌else◌}
use in_memory_object_storage.Common.Text.{Bytes, codes}
use in_memory_object_storage.Protocol.FtpResponse.{service_ready_for_new_user}
use in_memory_object_storage.Session.{Session, receive_message, reply}

pub record PortRange : Type 0 where
  pub min_port : ℕ
  pub max_port : ℕ

abbrev pub is_ftp_port : PortRange → ℕ → Bool
is_ftp_port range port = leb range.min_port port && ltb port range.max_port

-- The call of receiveMessage is posted in front of all others on the strand, so it comes first.
unfoldable pub start : PortRange → ℕ → Session → Session
unfolding receive_message reply
start range client_port s =
    let s' = receive_message s in
    if is_ftp_port range client_port
    then reply service_ready_for_new_user (codes "Welcome to ObjectStorage server") s'
    else s'
