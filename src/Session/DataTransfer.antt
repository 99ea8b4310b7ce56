-- ===== src/Session/DataTransfer.antt =====
-- The FTP data connections in server/object_storage/src/session.cpp: the handlers of async_accept,
-- enqueueFtpDataHandler, sendFtpDataHandler, receiveFile, and the tasks on their strand.
pub mod Transferring
pub mod Frame
pub mod Stalled
use in_memory_object_storage.Common.{
  ℕ, suc, Bool, true, false, not, List, [], ◌∷◌, ◌++◌, Option, none, some, ◌==◌, if◌then◌else◌,
  length, Outcome, ok, undefined,
}
use in_memory_object_storage.Common.Text.{Bytes, codes}
use in_memory_object_storage.MemoryFs.{File}
use in_memory_object_storage.Protocol.FtpResponse.{closing_data_connection, transfer_aborted}
use in_memory_object_storage.Session.{
  Session, Accept, send_file, receive_file, DataTask, enqueue_data, send_data, save, close_socket,
  DataWrite, Reception, DataConnection, reply, post_data, close_ftp_data_socket,
}
use in_memory_object_storage.Session.Messages.{is_empty}
use in_memory_object_storage.Session.Transfer.{Arrival, save_file}

-- A file or a listing is enqueued, and a null pointer behind it; an upload is read.
unfoldable pub connected : Accept → ℕ → Session → Session
unfolding post_data
connected (send_file file) socket s =
    post_data (enqueue_data none socket) (post_data (enqueue_data (some file) socket) s)
connected (receive_file path) socket s = record s {
  ftp_data = record s.ftp_data {
    receptions = s.ftp_data.receptions ++ record { file = []; path = path; socket = socket } ∷ [];
  };
}

-- The completion of an async_accept, with the message of an error or a new socket.
unfoldable pub accepted : Option Bytes → Accept → Session → Session
unfolding connected reply
accepted (some message) accept s =
    reply transfer_aborted (codes "Data transfer aborted: " ++ message) s
accepted none accept s = connected accept s.ftp_data.next_socket (record s {
  ftp_data = record s.ftp_data {
    socket = some s.ftp_data.next_socket;
    next_socket = suc s.ftp_data.next_socket;
  };
})

-- The task of enqueueFtpDataHandler.
unfoldable pub enqueue_ftp_data : Option File → ℕ → Session → Session
unfolding post_data
enqueue_ftp_data file socket s =
    let s' = record s {
      ftp_data = record s.ftp_data { buffer = s.ftp_data.buffer ++ file ∷ [] };
    } in
    if not (is_empty s.ftp_data.buffer) then s' else post_data (send_data socket) s'

-- The task of sendFtpDataHandler, at the contents of the buffer; `front` of an empty one is
-- undefined.
unfoldable pub send_ftp_data : ℕ → List (Option File) → Session → Outcome Session
unfolding reply
send_ftp_data socket [] s = undefined
send_ftp_data socket (some file ∷ buffer) s = ok (record s {
  ftp_data = record s.ftp_data {
    writes = s.ftp_data.writes ++ record { file = file; socket = socket } ∷ [];
  };
})
send_ftp_data socket (none ∷ buffer) s = ok (
    reply closing_data_connection (codes "Done") (record s {
      ftp_data = record s.ftp_data { buffer = buffer; closed = s.ftp_data.closed ++ socket ∷ [] };
    }))

unfoldable pub perform : DataTask → Session → Outcome Session
unfolding enqueue_ftp_data send_ftp_data save_file close_ftp_data_socket
perform (enqueue_data file socket) s = ok (enqueue_ftp_data file socket s)
perform (send_data socket) s = send_ftp_data socket s.ftp_data.buffer s
perform (save file path) s = ok (save_file file path s)
perform close_socket s = ok (close_ftp_data_socket s)

-- The completion of a write of a file; `pop_front` of an empty buffer is undefined.
unfoldable pub data_written : Bool → DataWrite → List (Option File) → Session → Outcome Session
unfolding post_data
data_written failed write [] s = undefined
data_written true write (front ∷ buffer) s =
    ok (record s { ftp_data = record s.ftp_data { buffer = buffer } })
data_written false write (front ∷ buffer) s =
    let s' = record s {
      ftp_data = record s.ftp_data {
        buffer = buffer;
        delivered = s.ftp_data.delivered ++ write ∷ [];
      };
    } in
    ok (if not (is_empty buffer) then post_data (send_data write.socket) s' else s')

-- The completion of a read of receiveFile: an error ends the file, which saveFile posts; bytes are
-- appended and the next read is started; neither ends the reading.
unfoldable pub file_arrived : Arrival → Reception → Session → Session
unfolding post_data
file_arrived arrival r s =
    if arrival.failed
    then post_data (save (r.file ++ arrival.bytes) r.path) s
    else if length arrival.bytes == 0
    then s
    else record s {
      ftp_data = record s.ftp_data {
        receptions = s.ftp_data.receptions ++ record r { file = r.file ++ arrival.bytes } ∷ [];
      };
    }
