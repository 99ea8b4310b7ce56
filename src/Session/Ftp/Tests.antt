-- ===== src/Session/Ftp/Tests.antt =====
-- A login, and the reply to PASV.
use in_memory_object_storage.Common.{
  ℕ, ◌+◌, ◌*◌, ◌<◌, ◌≡◌, refl, true, false, [], ◌∷◌, ◌++◌, none, some, arith, ok,
}
use in_memory_object_storage.Common.Text.{Bytes, codes}
use in_memory_object_storage.Common.Dict.{lookup}
use in_memory_object_storage.UserDatabase.{verify}
use in_memory_object_storage.Utils.Case.{to_upper_case}
use in_memory_object_storage.Protocol.FtpRequest.{
  FtpCommand, FtpParser, lookup_command, with_command,
}
use in_memory_object_storage.Protocol.FtpResponse.{entering_passive_mode, with_text, serialize}
use in_memory_object_storage.Session.{Session}
use in_memory_object_storage.Session.Ftp.{handle_pasv}
use in_memory_object_storage.Session.Ftp.Guards.{serve_ftp}
use in_memory_object_storage.Session.Ftp.Login.{line, login_lem}
use in_memory_object_storage.Session.Ftp.Passive.{read_listed, handle_pasv-reads}
use in_memory_object_storage.Session.Tests.{ann, net, fresh, at_work}

lookup_command-user : lookup_command (codes "User") ≡ ok (some FtpCommand.user)
unfolding lookup_command lookup to_upper_case
lookup_command-user = refl

lookup_command-pass : lookup_command (codes "PASS") ≡ ok (some FtpCommand.pass)
unfolding lookup_command lookup to_upper_case
lookup_command-pass = refl

login_lem_example :
    (s' : Session) × (serve_ftp
        ((net, line (codes "User") (codes "ann"))
          ∷ (net, line (codes "PASS") (codes "secret"))
          ∷ [])
        fresh
      ≡ ok s')
    × (verify fresh.users ann ≡ true → s'.logged_in_user ≡ some ann)
    × (verify fresh.users ann ≡ false → s'.logged_in_user ≡ none)
login_lem_example =
    login_lem net (codes "User") (codes "ann") (codes "PASS") (codes "secret") fresh
      lookup_command-user lookup_command-pass (omega arith) (omega arith) (omega arith)
      (omega arith)

abbrev pasv_parser : FtpParser
pasv_parser = with_command (some FtpCommand.pasv) (codes "PASV" ∷ [])

handle_pasv-reads_example :
    (fields : Bytes) × (high : ℕ) × (low : ℕ) × (s' : Session) × (handle_pasv net pasv_parser
        at_work
      ≡ ok s')
    × (s'.posted
        ≡ at_work.posted
          ++ serialize (
              with_text entering_passive_mode
                (codes "Entering passive mode " ++ codes "(" ++ fields ++ codes ")"))
            ∷ [])
    × (read_listed fields ≡ ok (127 ∷ 0 ∷ 0 ∷ 1 ∷ [] ++ high ∷ low ∷ []))
    × (high < 256)
    × (low < 256)
    × (high * 256 + low ≡ net.port)
handle_pasv-reads_example =
    handle_pasv-reads net pasv_parser ann (127 ∷ 0 ∷ 0 ∷ 1 ∷ []) at_work refl (refl, refl, refl)
      refl (omega arith)
