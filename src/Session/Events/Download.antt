-- ===== src/Session/Events/Download.antt =====
-- A download from end to end, and what keeps the downloads from ever going on.
use in_memory_object_storage.Common.{
  suc, ◌≡◌, ◌∙◌, refl, ap, false, List, [], ◌∷◌, ◌++◌, none, some, ok,
}
use in_memory_object_storage.Common.Text.{codes}
use in_memory_object_storage.MemoryFs.{File}
use in_memory_object_storage.Protocol.FtpResponse.{with_text, serialize, closing_data_connection}
use in_memory_object_storage.Session.{Session, Accept, send_file, DataConnection, reply}
use in_memory_object_storage.Session.DataTransfer.{accepted, perform, data_written}
use in_memory_object_storage.Session.Events.{
  Event, connection_accepted, data_posted, data_sent, end_accept, run_task, end_data_write, step,
  run,
}

-- No transfer is under way.
abbrev pub IsIdle : DataConnection → Type 0
IsIdle d = (d.tasks ≡ []) × (d.buffer ≡ []) × (d.writes ≡ [])

-- The session in the course of a download over the socket `k`.
abbrev during : Session → List Accept → DataConnection → Session
during s accepts d = record s { accepts = accepts; ftp_data = d }

abbrev pub download_events : List Event
download_events =
    connection_accepted none
    ∷ data_posted
    ∷ data_posted
    ∷ data_posted
    ∷ data_sent false
    ∷ data_posted
    ∷ []

abbrev idle : DataConnection → DataConnection
idle d = record d { tasks = []; buffer = []; writes = [] }

abbrev after_download : File → DataConnection → DataConnection
after_download file d = record (idle d) {
  socket = some d.next_socket;
  next_socket = suc d.next_socket;
  delivered = d.delivered ++ record { file = file; socket = d.next_socket } ∷ [];
  closed = d.closed ++ d.next_socket ∷ [];
}

run-download :
    (file : File) (accepts : List Accept) (d : DataConnection) (s : Session)
    → run download_events (during s (send_file file ∷ accepts) (idle d))
      ≡ ok (reply closing_data_connection (codes "Done") (during s accepts (after_download file d)))
unfolding run step end_accept accepted run_task perform end_data_write data_written reply
run-download file accepts d s = refl

during-eq :
    (s : Session) (accepts : List Accept)
    → s.accepts ≡ accepts
    → IsIdle s.ftp_data
    → s ≡ during s accepts (idle s.ftp_data)
during-eq s accepts a (t, b, w) = λ i. record s {
  accepts = a i;
  ftp_data = record s.ftp_data { tasks = t i; buffer = b i; writes = w i };
}

-- With no transfer going on, after the client connects, the tasks that follow run in order and
-- the write succeeds, then exactly the file to be sent is written on the new socket, which is
-- closed, the message that the transfer is done is posted, and no transfer is going on.
pub download_lem :
    (file : File) (accepts : List Accept) (s : Session)
    → s.accepts ≡ send_file file ∷ accepts
    → IsIdle s.ftp_data
    → let k = s.ftp_data.next_socket in
      (s' : Session) × (run download_events s ≡ ok s')
      × (s'.ftp_data.delivered ≡ s.ftp_data.delivered ++ record { file = file; socket = k } ∷ [])
      × (s'.ftp_data.closed ≡ s.ftp_data.closed ++ k ∷ [])
      × (s'.posted ≡ s.posted ++ serialize (with_text closing_data_connection (codes "Done")) ∷ [])
      × (s'.filesystem ≡ s.filesystem)
      × IsIdle s'.ftp_data
unfolding reply
download_lem file accepts s a h = (
  _,
  ap (run download_events) (during-eq s (send_file file ∷ accepts) a h)
      ∙ run-download file accepts s.ftp_data s,
  refl,
  refl,
  refl,
  refl,
  (refl, refl, refl),
)
