-- ===== src/Session/Ftp/Login.antt =====
-- USER and PASS, one after the other.
use in_memory_object_storage.Common.{
  ◌≡◌, ◌∙◌, refl, ap, true, false, [], ◌∷◌, ◌++◌, Option, some, none, ok, ◌>>=◌,
}
use in_memory_object_storage.Common.Text.{Bytes, codes, Lacks}
use in_memory_object_storage.UserDatabase.{User, verify}
use in_memory_object_storage.Utils.Split.Tokens.{join}
use in_memory_object_storage.Protocol.FtpRequest.{FtpCommand, with_command, lookup_command}
use in_memory_object_storage.Protocol.FtpRequest.Parsing.{parse-line}
use in_memory_object_storage.Protocol.FtpResponse.{user_name_ok}
use in_memory_object_storage.Session.{Session, Network, reply, receive_message}
use in_memory_object_storage.Session.Ftp.{handle_ftp, handle_request, dispatch, log_in}
use in_memory_object_storage.Session.Ftp.Answers.{append-ne}
use in_memory_object_storage.Session.Ftp.Guards.{serve_ftp}

-- A request of a command and an argument.
abbrev pub line : Bytes → Bytes → Bytes
line command argument = join (codes " ") (command ∷ argument ∷ []) ++ codes "\r\n"

pub handle_ftp-line :
    (net : Network) (command argument : Bytes) (o : Option FtpCommand) (s : Session)
    → lookup_command command ≡ ok o
    → Lacks b' ' command
    → Lacks b' ' argument
    → handle_ftp net (line command argument) s
      ≡ handle_request net (with_command o (command ∷ argument ∷ [])) s
unfolding handle_ftp join
handle_ftp-line net command argument o s e h k =
    ap (λ r. r >>= λ p. handle_request net p s)
      (parse-line command (argument ∷ []) (append-ne command argument b' ') (h, (k, tt))
        ∙ ap (λ r. r >>= λ p. ok (with_command p (command ∷ argument ∷ []))) e)

-- The session after USER.
unfoldable pub asked : Bytes → Session → Session
unfolding reply receive_message
asked name s =
    let s' =
      reply user_name_ok (codes "Please provide password")
        (record s { logged_in_user = none; last_username = name }) in
    receive_message (record s' { last_ftp_command = FtpCommand.user })

pub handle_request-user :
    (net : Network) (command name : Bytes) (s : Session)
    → handle_request net (with_command (some FtpCommand.user) (command ∷ name ∷ [])) s
      ≡ ok (asked name s)
unfolding handle_request dispatch with_command asked
handle_request-user net command name s = refl

pub asked-waits :
    (name : Bytes) (s : Session)
    → ((asked name s).last_ftp_command ≡ FtpCommand.user) × ((asked name s).last_username ≡ name)
unfolding asked
asked-waits name s = (refl, refl)

-- The session after PASS.
unfoldable pub answered : User → Session → Session
unfolding receive_message log_in
answered u s = receive_message (record (log_in u s) { last_ftp_command = FtpCommand.pass })

pub handle_request-pass :
    (net : Network) (command name password : Bytes) (s : Session)
    → s.last_ftp_command ≡ FtpCommand.user
    → s.last_username ≡ name
    → handle_request net (with_command (some FtpCommand.pass) (command ∷ password ∷ [])) s
      ≡ ok (answered (record { username = name; password = password }) s)
unfolding handle_request dispatch with_command answered receive_message
handle_request-pass net command name password s c u = rw (c, u) refl

log_in-tried :
    (u : User) (name : Bytes) (s : Session)
    → let s' = answered u (asked name s) in
      (verify s.users u ≡ true → s'.logged_in_user ≡ some u)
      × (verify s.users u ≡ false → s'.logged_in_user ≡ none)
unfolding asked answered log_in reply receive_message
log_in-tried u name s = (λ h. rw h refl, λ h. rw h refl)

-- USER with a name and then PASS with a password, the words without spaces and the commands in
-- any letter case, are both handled normally; then the user with that name and password is logged
-- in if the user database accepts it, and nobody is if it does not.
pub login_lem :
    (net : Network) (user_word name pass_word password : Bytes) (s : Session)
    → lookup_command user_word ≡ ok (some FtpCommand.user)
    → lookup_command pass_word ≡ ok (some FtpCommand.pass)
    → Lacks b' ' user_word
    → Lacks b' ' name
    → Lacks b' ' pass_word
    → Lacks b' ' password
    → let u : User = record { username = name; password = password } in
      (s' : Session) × (serve_ftp
          ((net, line user_word name) ∷ (net, line pass_word password) ∷ [])
          s
        ≡ ok s')
      × (verify s.users u ≡ true → s'.logged_in_user ≡ some u)
      × (verify s.users u ≡ false → s'.logged_in_user ≡ none)
unfolding serve_ftp
login_lem net user_word name pass_word password s e f l₁ l₂ l₃ l₄ =
    let u : User = record { username = name; password = password } in
    let first : handle_ftp net (line user_word name) s ≡ ok (asked name s) =
      handle_ftp-line net user_word name (some FtpCommand.user) s e l₁ l₂
      ∙ handle_request-user net user_word name s in
    let second : handle_ftp net (line pass_word password) (asked name s)
        ≡ ok (answered u (asked name s)) =
      handle_ftp-line net pass_word password (some FtpCommand.pass) (asked name s) f l₃ l₄
      ∙ handle_request-pass net pass_word name password (asked name s) (asked-waits name s).0
          (asked-waits name s).1 in
    let (accepted, rejected) = log_in-tried u name s in
    (answered u (asked name s), rw (first, second) refl, accepted, rejected)
