-- ===== src/Session/Events/Visits.antt =====
-- An FTP client that logs in, asks for the passive mode, and uploads and downloads a file.
use in_memory_object_storage.Common.{
  ℕ, suc, ◌≡◌, ◌≢◌, ◌∙◌, sym, ap, true, List, [], ◌∷◌, ◌++◌, none, some, All, ok,
}
use mathlib.Core.List.{flatten}
use in_memory_object_storage.Common.Text.{Bytes, Lacks}
use in_memory_object_storage.Common.Dict.{lookup}
use in_memory_object_storage.UserDatabase.{User, verify}
use in_memory_object_storage.Protocol.FtpRequest.{FtpCommand}
use in_memory_object_storage.Session.{Session, Network}
use in_memory_object_storage.Session.Ftp.Login.{asked, answered, asked-waits}
use in_memory_object_storage.Session.Events.{Event, step, run}
use in_memory_object_storage.Session.Events.Download.{IsIdle}
use in_memory_object_storage.Session.Events.Commands.{IsFree, IsCommand, request}
use in_memory_object_storage.Session.Events.Preparing.{
  IsPassive, passive_request, passive, user-step, pass-step, passive-step,
}
use in_memory_object_storage.Session.Events.StoreAndRetrieve.{round_trip, stor-retr}

abbrev pub visit :
    Network → Bytes → Bytes → Bytes → Bytes → Bytes → Bytes → List Bytes → Bytes → User → List Event
visit net user_word pass_word pasv_word stor_word retr_word name bs last u =
    request net user_word u.username
    ∷ request net pass_word u.password
    ∷ passive_request net pasv_word
    ∷ round_trip net net stor_word retr_word name bs last

module _ (net : Network) (address : List ℕ)
    (user_word pass_word pasv_word stor_word retr_word name : Bytes) (bs : List Bytes)
    (last : Bytes) (u : User) (s : Session) where
  run_three :
      (a b c : Event) (s₁ s₂ s₃ s₄ : Session) (events : List Event)
      → step a s ≡ ok s₁
      → step b s₁ ≡ ok s₂
      → step c s₂ ≡ ok s₃
      → run events s₃ ≡ ok s₄
      → run (a ∷ b ∷ c ∷ events) s ≡ ok s₄
  unfolding run
  run_three a b c s₁ s₂ s₃ s₄ events e₁ e₂ e₃ e₄ = rw (e₁, e₂, e₃) e₄

  -- In a session in which one read of a request is pending and no transfer is going on, let an
  -- FTP client send USER and PASS of a user whom the database accepts, PASV, over a socket with
  -- an IPv4 address and with a data acceptor that can be set up, STOR of a name whose path is
  -- free, connect and send a file in pieces that are not empty with the end of the stream behind
  -- it, then send RETR of the name and connect, each command in any letter case, its argument
  -- without spaces and each line detected as FTP. When the completions of each transfer follow
  -- one another in order and its write succeeds, all of these end normally, the file is stored
  -- under the working directory followed by the name, exactly the file is written to the second
  -- data connection, both data connections are closed, and no transfer is going on.
  pub visit_lem :
      IsCommand FtpCommand.user user_word u.username
      → IsCommand FtpCommand.pass pass_word u.password
      → IsPassive pasv_word
      → IsCommand FtpCommand.stor stor_word name
      → IsCommand FtpCommand.retr retr_word name
      → Lacks b' ' u.username × Lacks b' ' u.password × Lacks b' ' name
      → (net.opens ≡ true)
        × (net.binds ≡ true)
        × (net.listens ≡ true)
        × (net.address ≡ some address)
      → verify s.users u ≡ true
      → IsFree [] s
      → lookup (s.current_working_dir ++ name) s.filesystem.fs ≡ none
      → All (λ b. b ≢ []) bs
      → let file = flatten bs ++ last in
        let k = s.ftp_data.next_socket in
        (s' : Session) × (run
            (visit net user_word pass_word pasv_word stor_word retr_word name bs last u)
            s
          ≡ ok s')
        × (lookup (s.current_working_dir ++ name) s'.filesystem.fs ≡ some file)
        × (s'.ftp_data.delivered
            ≡ s.ftp_data.delivered ++ record { file = file; socket = suc k } ∷ [])
        × (s'.ftp_data.closed ≡ s.ftp_data.closed ++ k ∷ suc k ∷ [])
        × IsIdle s'.ftp_data
  visit_lem c₁ c₂ c₃ c₄ c₅ (l₁, l₂, l₃) n v h free w =
      let s₁ = asked u.username (record s { reads = 0 }) in
      let (e₁, m₁, h₁) = user-step net user_word u.username [] s c₁ l₁ h in
      let (asked_user, asked_name) = asked-waits u.username (record s { reads = 0 }) in
      let s₂ = answered u (record s₁ { reads = 0 }) in
      let (e₂, login, m₂, h₂) =
        pass-step net pass_word u [] s₁ c₂ l₂ asked_user asked_name (rw m₁.users v) h₁ in
      let s₃ = passive net address (record s₂ { reads = 0 }) in
      let (e₃, m₃, ready) = passive-step net address pasv_word u [] s₂ c₃ login n h₂ in
      let directory : s₃.current_working_dir ≡ s.current_working_dir =
        m₃.directory ∙ m₂.directory ∙ m₁.directory in
      let files : s₃.filesystem ≡ s.filesystem = m₃.filesystem ∙ m₂.filesystem ∙ m₁.filesystem in
      let data_side : s₃.ftp_data ≡ s.ftp_data = m₃.ftp_data ∙ m₂.ftp_data ∙ m₁.ftp_data in
      let free₃ : lookup (s₃.current_working_dir ++ name) s₃.filesystem.fs ≡ none =
        rw (directory, files) free in
      let (s', e, stored, delivered, closed, posted, idle) =
        stor-retr net net stor_word retr_word name bs last u s₃ c₄ c₅ l₃ ready free₃ w in
      (
        s',
        run_three (request net user_word u.username) (request net pass_word u.password)
            (passive_request net pasv_word) s₁ s₂ s₃ s'
            (round_trip net net stor_word retr_word name bs last) e₁ e₂ e₃ e,
        ap (λ d. lookup (d ++ name) s'.filesystem.fs) (sym directory) ∙ stored,
        delivered
            ∙ ap
                (λ d.
                  d.delivered
                  ++ record { file = flatten bs ++ last; socket = suc d.next_socket } ∷ [])
                data_side,
        closed ∙ ap (λ d. d.closed ++ d.next_socket ∷ suc d.next_socket ∷ []) data_side,
        idle,
      )
