-- ===== src/Session/Events.antt =====
-- A session as a whole: the completions that boost::asio calls it back with, in any order. A
-- completion is one step, since each runs on a strand; the two strands share nothing but objects
-- that have a lock of their own.
pub mod Invariant
pub mod Soundness
pub mod Effects
pub mod Order
pub mod Deafness
pub mod Download
pub mod Uploads
pub mod Runs
pub mod Commands
pub mod Preparing
pub mod StoreAndRetrieve
pub mod Visits
pub mod Stall
pub mod LostTransfers
pub mod Storage
pub mod Tests
pub mod DataTests
pub mod VisitTests
use in_memory_object_storage.Common.{
  ℕ, zero, suc, Bool, false, List, [], ◌∷◌, ◌++◌, Option, none, some, Outcome, ok, ◌>>=◌,
}
use in_memory_object_storage.Common.Text.{Bytes}
use in_memory_object_storage.MemoryFs.{File}
use in_memory_object_storage.Protocol.Detector.{AppLayerProtocol, detect_protocol}
use in_memory_object_storage.Session.{
  Session, Network, Accept, Upload, Output, DataTask, close_socket, DataWrite, Reception,
  receive_message, post_data,
}
use in_memory_object_storage.Session.Ftp.{handle_ftp}
use in_memory_object_storage.Session.Http.{handle_http, finish_put}
use in_memory_object_storage.Session.Transfer.{Arrival}
use in_memory_object_storage.Session.Messages.{enqueue_message, message_written}
use in_memory_object_storage.Session.DataTransfer.{accepted, perform, data_written, file_arrived}

-- What the environment has happen next. A packet comes with what the network layer answers to FTP,
-- and with the header that HTTP reads behind it; `true` is a failure; a number names a pending read.
pub data Event : Type 0 where
  message_posted : Event
  message_sent : Bool → Event
  packet_received : Network → Bytes → Option Bytes → Event
  read_failed : Event
  body_received : Option File → Event
  connection_accepted : Option Bytes → Event
  data_posted : Event
  data_sent : Bool → Event
  data_received : ℕ → Arrival → Event

unfoldable pub with_output : Outcome Output → Session → Outcome Session
with_output result s = do output ← result; ok (record s { output = output })

-- The switch of receiveMessage.
unfoldable pub handle_packet :
    AppLayerProtocol → Network → Bytes → Option Bytes → Session → Outcome Session
handle_packet AppLayerProtocol.http net packet headers s = handle_http packet headers s
handle_packet AppLayerProtocol.ftp net packet headers s = handle_ftp net packet s

-- The handler of the read that receiveMessage starts, without an error.
unfoldable pub receive_packet : Network → Bytes → Option Bytes → Session → Outcome Session
unfolding handle_packet
receive_packet net packet headers s = do
  protocol ← detect_protocol packet
  handle_packet protocol net packet headers s

-- The same, with an error, the end of the stream included.
unfoldable pub fail_read : Session → Session
unfolding post_data receive_message
fail_read s = receive_message (post_data close_socket (record s { acceptor_open = false }))

-- The oldest of the operations that are pending completes, and is pending no more; of the reads from
-- data sockets it may be any. If there is none the event does not happen: the state is the same.
unfoldable pub run_posted : List Bytes → Session → Outcome Session
run_posted [] s = ok s
run_posted (message ∷ posted) s =
    with_output (enqueue_message message s.output) (record s { posted = posted })

unfoldable pub end_write : ℕ → Bool → Session → Outcome Session
end_write zero failed s = ok s
end_write (suc writes) failed s = with_output (message_written failed writes s.output) s

unfoldable pub end_read : ℕ → Network → Bytes → Option Bytes → Session → Outcome Session
end_read zero net packet headers s = ok s
end_read (suc reads) net packet headers s =
    receive_packet net packet headers (record s { reads = reads })

unfoldable pub end_failed_read : ℕ → Session → Session
end_failed_read zero s = s
end_failed_read (suc reads) s = fail_read (record s { reads = reads })

unfoldable pub end_upload : List Upload → Option File → Session → Session
end_upload [] body s = s
end_upload (u ∷ uploads) body s = finish_put u.path body (record s { uploads = uploads })

unfoldable pub end_accept : List Accept → Option Bytes → Session → Session
end_accept [] error s = s
end_accept (a ∷ accepts) error s = accepted error a (record s { accepts = accepts })

unfoldable pub run_task : List DataTask → Session → Outcome Session
run_task [] s = ok s
run_task (task ∷ tasks) s =
    perform task (record s { ftp_data = record s.ftp_data { tasks = tasks } })

unfoldable pub end_data_write : List DataWrite → Bool → Session → Outcome Session
end_data_write [] failed s = ok s
end_data_write (w ∷ writes) failed s =
    data_written failed w s.ftp_data.buffer
      (record s { ftp_data = record s.ftp_data { writes = writes } })

-- An element of a list, and the others.
unfoldable pub take_out {ℓ} : {A : Type ℓ} → ℕ → List A → Option (A × List A)
take_out i [] = none
take_out zero (x ∷ xs) = some (x, xs)
take_out (suc i) (x ∷ xs) = elim (take_out i xs) [ none ↦ none | some (y, ys) ↦ some (y, x ∷ ys) ]

unfoldable pub end_reception : Option (Reception × List Reception) → Arrival → Session → Session
end_reception none arrival s = s
end_reception (some (r, receptions)) arrival s =
    file_arrived arrival r (record s { ftp_data = record s.ftp_data { receptions = receptions } })

unfoldable pub step : Event → Session → Outcome Session
unfolding run_posted end_write end_read end_failed_read end_upload end_accept run_task
    end_data_write end_reception take_out
step message_posted s = run_posted s.posted s
step (message_sent failed) s = end_write s.output.writes failed s
step (packet_received net packet headers) s = end_read s.reads net packet headers s
step read_failed s = ok (end_failed_read s.reads s)
step (body_received body) s = ok (end_upload s.uploads body s)
step (connection_accepted error) s = ok (end_accept s.accepts error s)
step data_posted s = run_task s.ftp_data.tasks s
step (data_sent failed) s = end_data_write s.ftp_data.writes failed s
step (data_received i arrival) s = ok (end_reception (take_out i s.ftp_data.receptions) arrival s)

unfoldable pub run : List Event → Session → Outcome Session
run [] s = ok s
run (event ∷ events) s = do s' ← step event s; run events s'
