-- ===== src/Session/Events/Preparing.antt =====
-- FTP requests as events: the login and the passive mode.
use in_memory_object_storage.Common.{
  ℕ, ◌≡◌, ◌≢◌, ◌∙◌, refl, ap, true, List, [], ◌∷◌, ◌++◌, none, some, ok, ◌>>=◌,
}
use in_memory_object_storage.Common.Text.{Bytes, codes, Lacks}
use in_memory_object_storage.Common.Dict.{lookup}
use in_memory_object_storage.UserDatabase.{User, verify}
use in_memory_object_storage.Utils.Case.{to_upper_case}
use in_memory_object_storage.Utils.Split.Tokens.{join}
use in_memory_object_storage.Protocol.Detector.{AppLayerProtocol, detect_protocol}
use in_memory_object_storage.Protocol.FtpRequest.{FtpCommand, with_command, lookup_command}
use in_memory_object_storage.Protocol.FtpRequest.Parsing.{parse-line}
use in_memory_object_storage.Protocol.FtpResponse.{entering_passive_mode}
use in_memory_object_storage.Session.{
  Session, Network, Accept, reply, receive_message, configure_data_acceptor,
}
use in_memory_object_storage.Session.Ftp.{
  dispatch, handle_request, handle_ftp, handle_pasv, log_in, endpoint_text,
}
use in_memory_object_storage.Session.Ftp.Login.{
  asked, answered, handle_request-user, handle_request-pass,
}
use in_memory_object_storage.Session.Events.{
  Event, packet_received, step, end_read, receive_packet, handle_packet,
}
use in_memory_object_storage.Session.Events.Commands.{
  IsFree, IsReady, IsCommand, request, step-line, Unmoved, Unmoved-IsFree,
}

asked-Unmoved :
    (name : Bytes) (s : Session)
    → let s' = asked name (record s { reads = 0 }) in Unmoved s s' × (s'.reads ≡ 1)
unfolding asked
asked-Unmoved name s = (
  record { users = refl; filesystem = refl; ftp_data = refl; accepts = refl; directory = refl },
  refl,
)

answered-Unmoved :
    (u : User) (s : Session)
    → verify s.users u ≡ true
    → let s' = answered u (record s { reads = 0 }) in
      (s'.logged_in_user ≡ some u) × Unmoved s s' × (s'.reads ≡ 1)
unfolding answered log_in reply
answered-Unmoved u s v = rw v (
  refl,
  record { users = refl; filesystem = refl; ftp_data = refl; accepts = refl; directory = refl },
  refl,
)

pub user-step :
    (net : Network) (word name : Bytes) (accepts : List Accept) (s : Session)
    → IsCommand FtpCommand.user word name
    → Lacks b' ' name
    → IsFree accepts s
    → let s' = asked name (record s { reads = 0 }) in
      (step (request net word name) s ≡ ok s') × Unmoved s s' × IsFree accepts s'
user-step net word name accepts s c l h =
    let s' = asked name (record s { reads = 0 }) in
    let (same, reads) = asked-Unmoved name s in
    (
      step-line net FtpCommand.user word name s c l h.reads
          ∙ handle_request-user net word name (record s { reads = 0 }),
      same,
      Unmoved-IsFree accepts s s' same reads h,
    )

pub pass-step :
    (net : Network) (word : Bytes) (u : User) (accepts : List Accept) (s : Session)
    → IsCommand FtpCommand.pass word u.password
    → Lacks b' ' u.password
    → s.last_ftp_command ≡ FtpCommand.user
    → s.last_username ≡ u.username
    → verify s.users u ≡ true
    → IsFree accepts s
    → let s' = answered u (record s { reads = 0 }) in
      (step (request net word u.password) s ≡ ok s')
      × (s'.logged_in_user ≡ some u)
      × Unmoved s s'
      × IsFree accepts s'
pass-step net word u accepts s c l q n v h =
    let s' = answered u (record s { reads = 0 }) in
    let (login, same, reads) = answered-Unmoved u s v in
    (
      step-line net FtpCommand.pass word u.password s c l h.reads
          ∙ handle_request-pass net word u.username u.password (record s { reads = 0 }) q n,
      login,
      same,
      Unmoved-IsFree accepts s s' same reads h,
    )

-- PASV has no argument.
abbrev pub IsPassive : Bytes → Type 0
IsPassive word =
    (lookup_command word ≡ ok (some FtpCommand.pasv))
    × Lacks b' ' word
    × (detect_protocol (word ++ codes "\r\n") ≡ ok AppLayerProtocol.ftp)

abbrev pub passive_request : Network → Bytes → Event
passive_request net word = packet_received net (word ++ codes "\r\n") none

pub passive : Network → List ℕ → Session → Session
passive net address s =
    let s' =
      reply entering_passive_mode (codes "Entering passive mode " ++ endpoint_text address net.port)
        (record s { acceptor_open = true }) in
    receive_message (record s' { last_ftp_command = FtpCommand.pasv })

handle_request-pasv :
    (net : Network) (address : List ℕ) (word : Bytes) (u : User) (s : Session)
    → s.logged_in_user ≡ some u
    → (net.opens ≡ true) × (net.binds ≡ true) × (net.listens ≡ true) × (net.address ≡ some address)
    → handle_request net (with_command (some FtpCommand.pasv) (word ∷ [])) s
      ≡ ok (passive net address s)
unfolding handle_request dispatch with_command handle_pasv configure_data_acceptor reply
    receive_message passive
handle_request-pasv net address word u s l (o, b, i, v) = rw (l, o, b, i, v) refl

lookup_command-ne : (word : Bytes) (c : FtpCommand) → lookup_command word ≡ ok (some c) → word ≢ []
unfolding lookup_command lookup to_upper_case
lookup_command-ne word c e n = let there : lookup_command [] ≡ ok (some c) = rw n at e in cc there

handle_ftp-passive :
    (net : Network) (word : Bytes) (s : Session)
    → IsPassive word
    → handle_ftp net (word ++ codes "\r\n") s
      ≡ handle_request net (with_command (some FtpCommand.pasv) (word ∷ [])) s
unfolding handle_ftp join
handle_ftp-passive net word s (e, l, d) =
    ap (λ r. r >>= λ p. handle_request net p s)
      (parse-line word [] (lookup_command-ne word FtpCommand.pasv e) (l, tt)
        ∙ ap (λ r. r >>= λ o. ok (with_command o (word ∷ []))) e)

pub passive-step :
    (net : Network) (address : List ℕ) (word : Bytes) (u : User) (accepts : List Accept)
    (s : Session)
    → IsPassive word
    → s.logged_in_user ≡ some u
    → (net.opens ≡ true) × (net.binds ≡ true) × (net.listens ≡ true) × (net.address ≡ some address)
    → IsFree accepts s
    → let s' = passive net address (record s { reads = 0 }) in
      (step (passive_request net word) s ≡ ok s') × Unmoved s s' × IsReady u accepts s'
unfolding step end_read receive_packet handle_packet passive reply receive_message
passive-step net address word u accepts s (e, l, d) login n h = (
  ap (λ k. end_read k net (word ++ codes "\r\n") none s) h.reads
      ∙ rw d (
          handle_ftp-passive net word (record s { reads = 0 }) (e, l, d)
          ∙ handle_request-pasv net address word u (record s { reads = 0 }) login n),
  record { users = refl; filesystem = refl; ftp_data = refl; accepts = refl; directory = refl },
  record {
    login = login;
    passive = refl;
    free = record {
      reads = refl;
      waiting = h.waiting;
      idle = h.idle;
      no_receptions = h.no_receptions;
    };
  },
)
