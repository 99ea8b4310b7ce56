-- ===== src/Session/DataTransfer/Transferring.antt =====
-- The buffer of files to send: when a send is pending, and that its front is there.
use in_memory_object_storage.Common.{
  ℕ, suc, ◌+◌, ◌≤◌, ◌<◌, ◌≡◌, refl, Bool, true, false, List, [], ◌∷◌, ◌++◌, Option, none, some,
  arith, length, length-append, Outcome, ok,
}
use in_memory_object_storage.Common.Text.{Bytes}
use in_memory_object_storage.MemoryFs.{File}
use in_memory_object_storage.Session.{
  Session, Accept, send_file, receive_file, DataTask, enqueue_data, send_data, save, close_socket,
  DataWrite, Reception, DataConnection, post_data, close_ftp_data_socket, reply,
}
use in_memory_object_storage.Session.Messages.{is_empty}
use in_memory_object_storage.Session.Transfer.{Arrival, save_file}
use in_memory_object_storage.Session.DataTransfer.{
  connected, accepted, enqueue_ftp_data, send_ftp_data, perform, data_written, file_arrived,
}

abbrev pub is_send : DataTask → ℕ
is_send (send_data socket) = 1
is_send _ = 0

abbrev pub count_sends : List DataTask → ℕ
count_sends [] = 0
count_sends (task ∷ tasks) = is_send task + count_sends tasks

pub count_sends-append :
    (a b : List DataTask) → count_sends (a ++ b) ≡ count_sends a + count_sends b
count_sends-append [] b = omega arith
count_sends-append (task ∷ a) b = omega (arith, count_sends-append a b)

-- At most one call of sendFtpDataHandler waits or has its write pending, and then the buffer has the
-- file in front.
pub record IsTransferring (tasks : List DataTask) (d : DataConnection) : Type 0 where
  pub one : count_sends tasks + length d.writes ≤ 1
  pub busy : 0 < count_sends tasks + length d.writes → is_empty d.buffer ≡ false

abbrev pub IsSafe : Session → Type 0
IsSafe s = IsTransferring s.ftp_data.tasks s.ftp_data

abbrev Ends : Outcome Session → Type 0
Ends o = (s' : Session) × (o ≡ ok s') × IsSafe s'

send_ftp_data-Ends :
    (socket : ℕ) (buffer : List (Option File)) (s : Session)
    → s.ftp_data.buffer ≡ buffer
    → IsTransferring (send_data socket ∷ s.ftp_data.tasks) s.ftp_data
    → Ends (send_ftp_data socket buffer s)
unfolding send_ftp_data reply
send_ftp_data-Ends socket [] s e h = absurd (ground (arith, e, h.busy))
send_ftp_data-Ends socket (some file ∷ buffer) s e h = (
  _,
  refl,
  ground (
    arith,
    e,
    h.one,
    length-append s.ftp_data.writes (record { file = file; socket = socket } ∷ []),
  ),
)
send_ftp_data-Ends socket (none ∷ buffer) s e h = (_, refl, ground (arith, e, h.one))

enqueue_ftp_data-IsSafe :
    (file : Option File) (socket : ℕ) (s : Session) (buffer : List (Option File))
    → s.ftp_data.buffer ≡ buffer
    → IsSafe s
    → IsSafe (enqueue_ftp_data file socket s)
unfolding enqueue_ftp_data post_data
enqueue_ftp_data-IsSafe file socket s [] e h =
    ground (arith, e, h.one, h.busy, count_sends-append s.ftp_data.tasks (send_data socket ∷ []))
enqueue_ftp_data-IsSafe file socket s (front ∷ buffer) e h = ground (arith, e, h.one, h.busy)

save_file-ftp_data :
    (file : File) (path : Bytes) (s : Session)
    → ((save_file file path s).ftp_data.tasks ≡ s.ftp_data.tasks)
      × ((save_file file path s).ftp_data.writes ≡ s.ftp_data.writes)
      × ((save_file file path s).ftp_data.buffer ≡ s.ftp_data.buffer)
unfolding save_file
save_file-ftp_data file path s = ground arith

-- A task that waits can run.
pub perform-Ends :
    (task : DataTask) (s : Session)
    → IsTransferring (task ∷ s.ftp_data.tasks) s.ftp_data
    → Ends (perform task s)
unfolding perform close_ftp_data_socket
perform-Ends (enqueue_data file socket) s h = (
  _,
  refl,
  enqueue_ftp_data-IsSafe file socket s s.ftp_data.buffer refl
      (record { one = ground (arith, h.one); busy = ground (arith, h.busy) }),
)
perform-Ends (send_data socket) s h = send_ftp_data-Ends socket s.ftp_data.buffer s refl h
perform-Ends (save file path) s h =
    (_, refl, ground (arith, h.one, h.busy, save_file-ftp_data file path s))
perform-Ends close_socket s h =
    (_, refl, record { one = ground (arith, h.one); busy = ground (arith, h.busy) })

-- The completion of the pending write of a file ends.
pub data_written-Ends :
    (failed : Bool) (write : DataWrite) (buffer : List (Option File)) (s : Session)
    → count_sends s.ftp_data.tasks + length s.ftp_data.writes ≡ 0
    → is_empty buffer ≡ false
    → Ends (data_written failed write buffer s)
unfolding data_written post_data
data_written-Ends failed write [] s z n = cc
data_written-Ends true write (front ∷ buffer) s z n =
    (_, refl, record { one = ground (arith, z); busy = ground (arith, z) })
data_written-Ends false write (front ∷ []) s z n =
    (_, refl, record { one = ground (arith, z); busy = ground (arith, z) })
data_written-Ends false write (front ∷ second ∷ buffer) s z n = (
  _,
  refl,
  record {
    one = ground (arith, z, count_sends-append s.ftp_data.tasks (send_data write.socket ∷ []));
    busy = ground (arith, z);
  },
)

pub file_arrived-IsSafe :
    (arrival : Arrival) (r : Reception) (s : Session) → IsSafe s → IsSafe (file_arrived arrival r s)
unfolding file_arrived post_data
file_arrived-IsSafe arrival r s h = ground (
  arith,
  h.one,
  h.busy,
  count_sends-append s.ftp_data.tasks (save (r.file ++ arrival.bytes) r.path ∷ []),
)

pub post_data-IsSafe :
    (task : DataTask) (s : Session) → is_send task ≡ 0 → IsSafe s → IsSafe (post_data task s)
unfolding post_data
post_data-IsSafe task s z h =
    let more = count_sends-append s.ftp_data.tasks (task ∷ []) in
    record { one = ground (arith, h.one, more); busy = ground (arith, h.busy, more) }

pub accepted-IsSafe :
    (error : Option Bytes) (a : Accept) (s : Session) → IsSafe s → IsSafe (accepted error a s)
unfolding accepted connected post_data reply
accepted-IsSafe (some message) a s h = record { one = h.one; busy = h.busy }
accepted-IsSafe none (send_file file) s h =
    let k = s.ftp_data.next_socket in
    let t = record s { ftp_data = record s.ftp_data { socket = some k; next_socket = suc k } } in
    post_data-IsSafe (enqueue_data none k) (post_data (enqueue_data (some file) k) t) refl
      (post_data-IsSafe (enqueue_data (some file) k) t refl (record { one = h.one; busy = h.busy }))
accepted-IsSafe none (receive_file path) s h = record { one = h.one; busy = h.busy }
