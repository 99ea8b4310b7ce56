-- ===== src/Session/Events/DataTests.antt =====
-- Data connections at concrete events.
use in_memory_object_storage.Common.{
  ◌≡◌, ◌≢◌, refl, true, All, List, [], ◌∷◌, ◌++◌, none, some, arith, ok, value_or,
}
use mathlib.Core.List.{flatten}
use in_memory_object_storage.Common.Text.{Bytes, codes}
use in_memory_object_storage.Common.Dict.{lookup}
use in_memory_object_storage.Protocol.FtpResponse.{with_text, serialize, closing_data_connection}
use in_memory_object_storage.Session.{
  Session, no_data, send_file, receive_file, send_data, DataWrite, DataConnection,
}
use in_memory_object_storage.Session.DataTransfer.{perform, data_written}
use in_memory_object_storage.Session.DataTransfer.Transferring.{IsTransferring}
use in_memory_object_storage.Session.Events.{Event, data_posted, data_sent, run, step}
use in_memory_object_storage.Session.Events.Invariant.{IsSound}
use in_memory_object_storage.Session.Events.Uploads.{upload_events, upload_lem}
use in_memory_object_storage.Session.Events.LostTransfers.{
  failed_write-delivered, overlap-delivered,
}
use in_memory_object_storage.Session.Events.Tests.{begun, begun-IsSound}

-- A file comes in two pieces, and its end with the last bytes.
abbrev expecting : Session
expecting = record begun { accepts = receive_file (codes "/b") ∷ []; ftp_data = no_data }

expecting-free : lookup (codes "/b") expecting.filesystem.fs ≡ none
unfolding lookup in_memory_object_storage.Session.Start.start
    in_memory_object_storage.Session.new_session
expecting-free = refl

abbrev pieces : List Bytes
pieces = codes "one " ∷ codes "two" ∷ []

pieces-ne : All (λ b. b ≢ []) pieces
pieces-ne = ((λ e. cc), ((λ e. cc), tt))

upload_lem_example :
    (s' : Session) × (run (upload_events pieces (codes "!")) expecting ≡ ok s')
    × (lookup (codes "/b") s'.filesystem.fs ≡ some (flatten pieces ++ codes "!"))
    × (s'.posted
        ≡ expecting.posted
          ++ serialize (with_text closing_data_connection (codes "File saved")) ∷ [])
    × (s'.ftp_data.closed ≡ expecting.ftp_data.closed ++ expecting.ftp_data.next_socket ∷ [])
upload_lem_example =
    upload_lem pieces (codes "!") (codes "/b") [] expecting refl (refl, refl) expecting-free
      pieces-ne

-- A session with other data connections.
abbrev over : DataConnection → Session
over d = record begun { ftp_data = d }

over-IsSound : (d : DataConnection) → IsTransferring d.tasks d → IsSound (over d)
over-IsSound d h = record {
  sending = begun-IsSound.sending;
  transferring = h;
  one_read = begun-IsSound.one_read;
  store = begun-IsSound.store;
  authentic = begun-IsSound.authentic;
}

abbrev write : DataWrite
write = record { file = codes "x"; socket = 0 }

-- A file is being written, and its end waits.
abbrev writing : DataConnection
writing = record no_data { writes = write ∷ []; buffer = some (codes "x") ∷ none ∷ [] }

writing-IsTransferring : IsTransferring writing.tasks writing
writing-IsTransferring = record { one = omega arith; busy = λ n. refl }

abbrev failing : List Event
failing = data_sent true ∷ data_posted ∷ []

abbrev failed : Session
failed = value_or begun (run failing (over writing))

run-failing : run failing (over writing) ≡ ok failed
unfolding run step data_written
run-failing = refl

failed_write-delivered_example : failed.ftp_data.delivered ≡ (over writing).ftp_data.delivered
failed_write-delivered_example =
    failed_write-delivered write [] (some (codes "x")) none [] (data_posted ∷ []) (over writing)
      failed (over-IsSound writing writing-IsTransferring) refl refl run-failing

-- The end of one file is in front of the next file.
abbrev ending : DataConnection
ending = record no_data { tasks = send_data 0 ∷ []; buffer = none ∷ some (codes "y") ∷ none ∷ [] }

ending-IsTransferring : IsTransferring ending.tasks ending
ending-IsTransferring = record { one = omega arith; busy = λ n. refl }

abbrev ended : Session
ended = value_or begun (run (data_posted ∷ data_posted ∷ []) (over ending))

run-ending : run (data_posted ∷ data_posted ∷ []) (over ending) ≡ ok ended
unfolding run step perform
run-ending = refl

overlap-delivered_example : ended.ftp_data.delivered ≡ (over ending).ftp_data.delivered
overlap-delivered_example =
    overlap-delivered 0 [] (some (codes "y")) (none ∷ []) (data_posted ∷ []) (over ending) ended
      (over-IsSound ending ending-IsTransferring) refl refl run-ending
