-- ===== src/Session/DataTransfer/Frame.antt =====
-- What the events of the FTP data connections leave alone.
use in_memory_object_storage.Common.{
  ℕ, ◌≡◌, refl, inl, inr, Bool, true, false, List, [], ◌∷◌, ◌++◌, Bool-cases, length, ◌==◌, Option,
  none, some, Ensures, ends, by_undefined,
}
use in_memory_object_storage.Common.Text.{Bytes}
use in_memory_object_storage.MemoryFs.{MemoryFs, Status, File, add}
use in_memory_object_storage.Session.{
  Session, DataConnection, Accept, send_file, receive_file, DataTask, enqueue_data, send_data, save,
  close_socket, DataWrite, Reception, post_data, close_ftp_data_socket, reply,
}
use in_memory_object_storage.Session.Frame.{Changes, Prefix, Prefix-refl}
use in_memory_object_storage.Session.Messages.{is_empty}
use in_memory_object_storage.Session.Transfer.{Arrival, save_file, report_saved}
use in_memory_object_storage.Session.DataTransfer.{
  connected, accepted, enqueue_ftp_data, send_ftp_data, perform, data_written, file_arrived,
}

pub record IsDataFrame (s s' : Session) : Type 0 where
  pub users : s'.users ≡ s.users
  pub authenticate : s'.authenticate ≡ s.authenticate
  pub logged_in_user : s'.logged_in_user ≡ s.logged_in_user
  pub output : s'.output ≡ s.output
  pub reads : s'.reads ≡ s.reads
  pub uploads : s'.uploads ≡ s.uploads
  pub posted : Prefix s.posted s'.posted
  pub filesystem : Changes s.filesystem s'.filesystem

-- Only what the data connections hold has changed.
only_data : (s : Session) (d : DataConnection) → IsDataFrame s (record s { ftp_data = d })
only_data s d = record {
  users = refl;
  authenticate = refl;
  logged_in_user = refl;
  output = refl;
  reads = refl;
  uploads = refl;
  posted = Prefix-refl s.posted;
  filesystem = inl refl;
}

report_saved-IsDataFrame :
    (status : Status) (s : Session) (m : MemoryFs)
    → Changes s.filesystem m
    → IsDataFrame s (close_ftp_data_socket (report_saved status (record s { filesystem = m })))
unfolding report_saved close_ftp_data_socket reply
report_saved-IsDataFrame Status.success s m h = record {
  users = refl;
  authenticate = refl;
  logged_in_user = refl;
  output = refl;
  reads = refl;
  uploads = refl;
  posted = (_, refl);
  filesystem = h;
}
report_saved-IsDataFrame _ s m h = record {
  users = refl;
  authenticate = refl;
  logged_in_user = refl;
  output = refl;
  reads = refl;
  uploads = refl;
  posted = (_, refl);
  filesystem = h;
}

save_file-IsDataFrame :
    (file : File) (path : Bytes) (s : Session) → IsDataFrame s (save_file file path s)
unfolding save_file
save_file-IsDataFrame file path s =
    report_saved-IsDataFrame (add s.filesystem path file).0 s _ (inr (inr (path, file, refl)))

enqueue_ftp_data-IsDataFrame :
    (file : Option File) (socket : ℕ) (s : Session) → IsDataFrame s (enqueue_ftp_data file socket s)
unfolding enqueue_ftp_data post_data
enqueue_ftp_data-IsDataFrame file socket s = elim (Bool-cases (is_empty s.ftp_data.buffer)) [
  | inl e ↦ rw e (only_data s _)
  | inr e ↦ rw e (only_data s _)
]

done-IsDataFrame :
    (s : Session) (d : DataConnection) (message : Bytes)
    → IsDataFrame s (record s { posted = s.posted ++ message ∷ []; ftp_data = d })
done-IsDataFrame s d message = record {
  users = refl;
  authenticate = refl;
  logged_in_user = refl;
  output = refl;
  reads = refl;
  uploads = refl;
  posted = (_, refl);
  filesystem = inl refl;
}

send_ftp_data-Ensures :
    (socket : ℕ) (buffer : List (Option File)) (s : Session)
    → Ensures (IsDataFrame s) (send_ftp_data socket buffer s)
unfolding send_ftp_data reply
send_ftp_data-Ensures socket [] s = by_undefined
send_ftp_data-Ensures socket (some file ∷ buffer) s = ends (only_data s _)
send_ftp_data-Ensures socket (none ∷ buffer) s = ends (done-IsDataFrame s _ _)

pub perform-Ensures : (task : DataTask) (s : Session) → Ensures (IsDataFrame s) (perform task s)
unfolding perform close_ftp_data_socket
perform-Ensures (enqueue_data file socket) s = ends (enqueue_ftp_data-IsDataFrame file socket s)
perform-Ensures (send_data socket) s = send_ftp_data-Ensures socket s.ftp_data.buffer s
perform-Ensures (save file path) s = ends (save_file-IsDataFrame file path s)
perform-Ensures close_socket s = ends (only_data s _)

pub data_written-Ensures :
    (failed : Bool) (write : DataWrite) (buffer : List (Option File)) (s : Session)
    → Ensures (IsDataFrame s) (data_written failed write buffer s)
unfolding data_written post_data
data_written-Ensures failed write [] s = by_undefined
data_written-Ensures true write (front ∷ buffer) s = ends (only_data s _)
data_written-Ensures false write (front ∷ []) s = ends (only_data s _)
data_written-Ensures false write (front ∷ second ∷ buffer) s = ends (only_data s _)

pub accepted-IsDataFrame :
    (error : Option Bytes) (a : Accept) (s : Session) → IsDataFrame s (accepted error a s)
unfolding accepted connected post_data reply
accepted-IsDataFrame (some message) a s = done-IsDataFrame s _ _
accepted-IsDataFrame none (send_file file) s = only_data s _
accepted-IsDataFrame none (receive_file path) s = only_data s _

pub file_arrived-IsDataFrame :
    (arrival : Arrival) (r : Reception) (s : Session) → IsDataFrame s (file_arrived arrival r s)
unfolding file_arrived post_data
file_arrived-IsDataFrame arrival r s = elim (Bool-cases arrival.failed) [
  | inl e ↦ rw e (only_data s _)
  | inr e ↦ elim (Bool-cases (length arrival.bytes == 0)) [
    | inl f ↦ rw (e, f) (only_data s _)
    | inr f ↦ rw (e, f) (only_data s _)
  ]
]
