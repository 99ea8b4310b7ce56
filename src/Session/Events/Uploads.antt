-- ===== src/Session/Events/Uploads.antt =====
-- An FTP upload from end to end.
use in_memory_object_storage.Common.{
  ℕ, suc, ◌≡◌, ◌≢◌, ◌∙◌, refl, ap, sym, true, false, List, [], ◌∷◌, ◌++◌, append_assoc, append-nil,
  none, some, arith, length, ◌==◌, All, ok,
}
use mathlib.Core.List.{flatten}
use in_memory_object_storage.Common.Text.{Bytes, codes}
use in_memory_object_storage.Common.Dict.{lookup}
use in_memory_object_storage.MemoryFs.{File}
use in_memory_object_storage.MemoryFs.Refinement.{add_new-eq}
use in_memory_object_storage.Protocol.FtpResponse.{with_text, serialize, closing_data_connection}
use in_memory_object_storage.Session.{Session, Accept, receive_file, DataConnection, reply}
use in_memory_object_storage.Session.Transfer.{Arrival, save_file}
use in_memory_object_storage.Session.DataTransfer.{accepted, perform, file_arrived}
use in_memory_object_storage.Session.Exchange.{save_file-Holds}
use in_memory_object_storage.Session.Events.{
  Event, connection_accepted, data_posted, data_received, end_accept, run_task, end_reception,
  take_out, step, run,
}

abbrev piece : Bytes → Arrival
piece b = record { bytes = b; failed = false }

abbrev last_piece : Bytes → Arrival
last_piece b = record { bytes = b; failed = true }

-- The client connects, the pieces arrive, the last one with an error, and the file is saved.
abbrev pub piece_events : List Bytes → List Event → List Event
piece_events [] events = events
piece_events (b ∷ bs) events = data_received 0 (piece b) ∷ piece_events bs events

abbrev pub end_events : Bytes → List Event
end_events last = data_received 0 (last_piece last) ∷ data_posted ∷ []

abbrev pub upload_events : List Bytes → Bytes → List Event
upload_events bs last = connection_accepted none ∷ piece_events bs (end_events last)

-- The session in the course of an upload over the socket `k`.
abbrev receiving : Session → DataConnection → File → Bytes → ℕ → Session
receiving s d file path k = record s {
  ftp_data = record d {
    tasks = [];
    receptions = record { file = file; path = path; socket = k } ∷ [];
  };
}

abbrev received : Session → DataConnection → Session
received s d = record s { ftp_data = record d { tasks = []; receptions = [] } }

run-piece :
    (c : ℕ) (b file path : Bytes) (k : ℕ) (d : DataConnection) (s : Session) (events : List Event)
    → run (data_received 0 (piece (c ∷ b)) ∷ events) (receiving s d file path k)
      ≡ run events (receiving s d (file ++ c ∷ b) path k)
unfolding run step end_reception take_out file_arrived
run-piece c b file path k d s events =
    let more : (suc (length b) == 0) ≡ false = ground arith in rw more refl

run-pieces :
    (bs : List Bytes) (file path : Bytes) (k : ℕ) (d : DataConnection) (s : Session)
    (events : List Event)
    → All (λ b. b ≢ []) bs
    → run (piece_events bs events) (receiving s d file path k)
      ≡ run events (receiving s d (file ++ flatten bs) path k)
unfolding flatten
run-pieces [] file path k d s events h =
    ap (λ f. run events (receiving s d f path k)) (sym (append-nil file))
run-pieces ([] ∷ bs) file path k d s events h = absurd (h.0 refl)
run-pieces ((c ∷ b) ∷ bs) file path k d s events h =
    run-piece c b file path k d s (piece_events bs events)
    ∙ run-pieces bs (file ++ c ∷ b) path k d s events h.1
    ∙ ap (λ f. run events (receiving s d f path k)) (append_assoc file (c ∷ b) (flatten bs))

run-end :
    (last file path : Bytes) (k : ℕ) (d : DataConnection) (s : Session)
    → run (end_events last) (receiving s d file path k)
      ≡ ok (save_file (file ++ last) path (received s d))
unfolding run step end_reception take_out file_arrived run_task perform
run-end last file path k d s = refl

abbrev connected_to : ℕ → DataConnection → DataConnection
connected_to k d = record d { socket = some k; next_socket = suc k }

run-upload :
    (bs : List Bytes) (last path : Bytes) (accepts : List Accept) (d : DataConnection) (s : Session)
    → All (λ b. b ≢ []) bs
    → run (upload_events bs last) (record (received s d) { accepts = receive_file path ∷ accepts })
      ≡ ok (
          save_file
            (flatten bs ++ last)
            path
            (received (record s { accepts = accepts }) (connected_to d.next_socket d)))
unfolding run step end_accept accepted
run-upload bs last path accepts d s h =
    run-pieces bs [] path d.next_socket (connected_to d.next_socket d)
      (record s { accepts = accepts }) (end_events last) h
    ∙ run-end last (flatten bs) path d.next_socket (connected_to d.next_socket d)
        (record s { accepts = accepts })

received-eq :
    (s : Session) (accepts : List Accept)
    → s.accepts ≡ accepts
    → (s.ftp_data.tasks ≡ []) × (s.ftp_data.receptions ≡ [])
    → s ≡ record (received s s.ftp_data) { accepts = accepts }
received-eq s accepts a (t, r) =
    λ i. record s { accepts = a i; ftp_data = record s.ftp_data { tasks = t i; receptions = r i } }

saved :
    (file path : Bytes) (k : ℕ) (s : Session)
    → lookup path s.filesystem.fs ≡ none
    → s.ftp_data.socket ≡ some k
    → let s' = save_file file path s in
      (lookup path s'.filesystem.fs ≡ some file)
      × (s'.posted
          ≡ s.posted ++ serialize (with_text closing_data_connection (codes "File saved")) ∷ [])
      × (s'.ftp_data.closed ≡ s.ftp_data.closed ++ k ∷ [])
unfolding save_file reply
saved file path k s h c = (
  save_file-Holds path file s h,
  rw (add_new-eq s.filesystem path file h) refl,
  rw (add_new-eq s.filesystem path file h, c) refl,
)

-- The session before the file is saved.
abbrev pub before_saving : List Accept → Session → Session
before_saving accepts s =
    received (record s { accepts = accepts }) (connected_to s.ftp_data.next_socket s.ftp_data)

pub run-upload_events :
    (bs : List Bytes) (last path : Bytes) (accepts : List Accept) (s : Session)
    → s.accepts ≡ receive_file path ∷ accepts
    → (s.ftp_data.tasks ≡ []) × (s.ftp_data.receptions ≡ [])
    → All (λ b. b ≢ []) bs
    → run (upload_events bs last) s
      ≡ ok (save_file (flatten bs ++ last) path (before_saving accepts s))
run-upload_events bs last path accepts s a q w =
    ap (run (upload_events bs last)) (received-eq s (receive_file path ∷ accepts) a q)
    ∙ run-upload bs last path accepts s.ftp_data s w

-- When no transfer is going on, an FTP upload to a path that is free is the first to be
-- connected, and after the client connects the file comes in pieces that are not empty, then the
-- last bytes with the end of the stream, and the task that saves it runs, each of these ends
-- normally, the pieces and the last bytes in order are stored under the path, the reply that the
-- file is saved is posted, and the socket is closed.
pub upload_lem :
    (bs : List Bytes) (last path : Bytes) (accepts : List Accept) (s : Session)
    → s.accepts ≡ receive_file path ∷ accepts
    → (s.ftp_data.tasks ≡ []) × (s.ftp_data.receptions ≡ [])
    → lookup path s.filesystem.fs ≡ none
    → All (λ b. b ≢ []) bs
    → (s' : Session) × (run (upload_events bs last) s ≡ ok s')
      × (lookup path s'.filesystem.fs ≡ some (flatten bs ++ last))
      × (s'.posted
          ≡ s.posted ++ serialize (with_text closing_data_connection (codes "File saved")) ∷ [])
      × (s'.ftp_data.closed ≡ s.ftp_data.closed ++ s.ftp_data.next_socket ∷ [])
upload_lem bs last path accepts s a q h w =
    let file : Bytes = flatten bs ++ last in
    let k = s.ftp_data.next_socket in
    let (there, posted, closed) = saved file path k (before_saving accepts s) h refl in
    (
      save_file file path (before_saving accepts s),
      run-upload_events bs last path accepts s a q w,
      there,
      posted,
      closed,
    )
