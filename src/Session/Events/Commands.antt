-- ===== src/Session/Events/Commands.antt =====
-- FTP requests as events.
use in_memory_object_storage.Common.{◌≡◌, ◌∙◌, sym, ap, subst, true, List, [], ◌∷◌, none, some, ok}
use in_memory_object_storage.Common.Text.{Bytes, Lacks}
use in_memory_object_storage.UserDatabase.{User}
use in_memory_object_storage.Protocol.Detector.{AppLayerProtocol, detect_protocol}
use in_memory_object_storage.Protocol.FtpRequest.{FtpCommand, with_command, lookup_command}
use in_memory_object_storage.Session.{Session, Network, Accept}
use in_memory_object_storage.Session.Ftp.{handle_request}
use in_memory_object_storage.Session.Ftp.Login.{line, handle_ftp-line}
use in_memory_object_storage.Session.Events.{
  Event, packet_received, step, end_read, receive_packet, handle_packet,
}
use in_memory_object_storage.Session.Events.Download.{IsIdle}

-- Nothing is going on but the read of a request.
pub record IsFree (accepts : List Accept) (s : Session) : Type 0 where
  pub reads : s.reads ≡ 1
  pub waiting : s.accepts ≡ accepts
  pub idle : IsIdle s.ftp_data
  pub no_receptions : s.ftp_data.receptions ≡ []

-- A user is logged in besides, and the data acceptor is open.
pub record IsReady (user : User) (accepts : List Accept) (s : Session) : Type 0 where
  pub login : s.logged_in_user ≡ some user
  pub passive : s.acceptor_open ≡ true
  pub free : IsFree accepts s

-- A line of a command and a name as a request.
abbrev pub IsCommand : FtpCommand → Bytes → Bytes → Type 0
IsCommand command word name =
    (lookup_command word ≡ ok (some command))
    × Lacks b' ' word
    × (detect_protocol (line word name) ≡ ok AppLayerProtocol.ftp)

abbrev pub request : Network → Bytes → Bytes → Event
request net word name = packet_received net (line word name) none

pub step-line :
    (net : Network) (command : FtpCommand) (word name : Bytes) (s : Session)
    → IsCommand command word name
    → Lacks b' ' name
    → s.reads ≡ 1
    → step (request net word name) s
      ≡ handle_request net (with_command (some command) (word ∷ name ∷ [])) (record s { reads = 0 })
unfolding step end_read receive_packet handle_packet
step-line net command word name s (e, l, d) k h =
    ap (λ n. end_read n net (line word name) none s) h
    ∙ rw d (handle_ftp-line net word name (some command) (record s { reads = 0 }) e l k)

-- What requests that only change the user leave as it is.
pub record Unmoved (s s' : Session) : Type 0 where
  pub users : s'.users ≡ s.users
  pub filesystem : s'.filesystem ≡ s.filesystem
  pub ftp_data : s'.ftp_data ≡ s.ftp_data
  pub accepts : s'.accepts ≡ s.accepts
  pub directory : s'.current_working_dir ≡ s.current_working_dir

pub Unmoved-IsFree :
    (accepts : List Accept) (s s' : Session)
    → Unmoved s s'
    → s'.reads ≡ 1
    → IsFree accepts s
    → IsFree accepts s'
Unmoved-IsFree accepts s s' m r h = record {
  reads = r;
  waiting = m.accepts ∙ h.waiting;
  idle = subst IsIdle (sym m.ftp_data) h.idle;
  no_receptions = ap (λ d. d.receptions) m.ftp_data ∙ h.no_receptions;
}
