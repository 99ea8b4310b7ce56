-- ===== src/Session/Events/VisitTests.antt =====
-- A visit of ann.
use in_memory_object_storage.Common.{
  ◌≡◌, refl, true, List, [], ◌∷◌, ◌++◌, none, some, arith, ok, suc,
}
use mathlib.Core.List.{flatten}
use in_memory_object_storage.Common.Text.{Bytes, codes}
use in_memory_object_storage.Common.Dict.{lookup}
use in_memory_object_storage.UserDatabase.{verify, is_reserved}
use in_memory_object_storage.Utils.Case.{to_upper_case}
use in_memory_object_storage.Utils.Split.{find}
use in_memory_object_storage.Utils.Split.Tokens.{join}
use in_memory_object_storage.Protocol.Detector.{detect_protocol}
use in_memory_object_storage.Protocol.FtpRequest.{FtpCommand, lookup_command}
use in_memory_object_storage.Session.{Session, new_session}
use in_memory_object_storage.Session.Start.{start}
use in_memory_object_storage.Session.Events.{run}
use in_memory_object_storage.Session.Events.Download.{IsIdle}
use in_memory_object_storage.Session.Events.Commands.{IsFree, IsCommand}
use in_memory_object_storage.Session.Events.Preparing.{IsPassive}
use in_memory_object_storage.Session.Events.Visits.{visit, visit_lem}
use in_memory_object_storage.Session.Events.Tests.{begun}
use in_memory_object_storage.Session.Tests.{ann, net}

user-IsCommand : IsCommand FtpCommand.user (codes "user") (codes "ann")
unfolding lookup_command lookup to_upper_case join detect_protocol find
user-IsCommand = (refl, omega arith, refl)

pass-IsCommand : IsCommand FtpCommand.pass (codes "PASS") (codes "secret")
unfolding lookup_command lookup to_upper_case join detect_protocol find
pass-IsCommand = (refl, omega arith, refl)

pasv-IsPassive : IsPassive (codes "PASV")
unfolding lookup_command lookup to_upper_case detect_protocol find
pasv-IsPassive = (refl, omega arith, refl)

stor-IsCommand : IsCommand FtpCommand.stor (codes "STOR") (codes "b")
unfolding lookup_command lookup to_upper_case join detect_protocol find
stor-IsCommand = (refl, omega arith, refl)

retr-IsCommand : IsCommand FtpCommand.retr (codes "RETR") (codes "b")
unfolding lookup_command lookup to_upper_case join detect_protocol find
retr-IsCommand = (refl, omega arith, refl)

ann-accepted : verify begun.users ann ≡ true
unfolding verify is_reserved lookup start new_session
ann-accepted = refl

begun-IsFree : IsFree [] begun
unfolding start new_session
begun-IsFree = record {
  reads = refl;
  waiting = refl;
  idle = (refl, refl, refl);
  no_receptions = refl;
}

begun-free : lookup (begun.current_working_dir ++ codes "b") begun.filesystem.fs ≡ none
unfolding start new_session lookup
begun-free = refl

abbrev pieces : List Bytes
pieces = codes "one " ∷ codes "two" ∷ []

visit_lem_example :
    (s' : Session) × (run
        (visit net
          (codes "user")
          (codes "PASS")
          (codes "PASV")
          (codes "STOR")
          (codes "RETR")
          (codes "b")
          pieces
          (codes "!")
          ann)
        begun
      ≡ ok s')
    × (lookup (begun.current_working_dir ++ codes "b") s'.filesystem.fs
        ≡ some (flatten pieces ++ codes "!"))
    × (s'.ftp_data.delivered
        ≡ begun.ftp_data.delivered
          ++ record { file = flatten pieces ++ codes "!"; socket = suc begun.ftp_data.next_socket }
            ∷ [])
    × (s'.ftp_data.closed
        ≡ begun.ftp_data.closed ++ begun.ftp_data.next_socket ∷ suc begun.ftp_data.next_socket ∷ [])
    × IsIdle s'.ftp_data
visit_lem_example =
    visit_lem net (127 ∷ 0 ∷ 0 ∷ 1 ∷ []) (codes "user") (codes "PASS") (codes "PASV") (codes "STOR")
      (codes "RETR") (codes "b") pieces (codes "!") ann begun user-IsCommand pass-IsCommand
      pasv-IsPassive stor-IsCommand retr-IsCommand (omega arith) (refl, refl, refl, refl)
      ann-accepted begun-IsFree begun-free ((λ e. cc), ((λ e. cc), tt))
