-- ===== src/Session.antt =====
-- server/object_storage/src/session.{hpp,cpp}: the state of a session, its constructor, and the
-- members that every handler calls. The handlers of ftp_command_handlers.cpp and
-- http_method_handlers.cpp are in the modules Ftp and Http.
pub mod Ftp
pub mod Http
pub mod Transfer
pub mod Messages
pub mod DataTransfer
pub mod Frame
pub mod Events
pub mod Stream
pub mod Start
pub mod Exchange
pub mod Deletion
pub mod ExchangeTests
pub mod Tests
use in_memory_object_storage.Common.{
  ℕ, suc, Bool, true, false, List, [], ◌∷◌, ◌++◌, Option, none, some, if◌then◌else◌,
}
use in_memory_object_storage.Common.Text.{Bytes, codes}
use in_memory_object_storage.MemoryFs.{File, FileList, MemoryFs}
use in_memory_object_storage.UserDatabase.{User, UserDatabase}
use in_memory_object_storage.Protocol.FtpRequest.{FtpCommand, unrecognized}
use in_memory_object_storage.Protocol.FtpResponse.{FtpReplyCode, with_text, serialize}

-- An `async_accept` on the FTP data acceptor that has not completed, with what its handler does
-- with the connection: send a file (a listing is one), or receive one for a path.
pub data Accept : Type 0 where
  send_file : File → Accept
  receive_file : Bytes → Accept

-- An `async_read` of an HTTP body that has not completed.
pub record Upload : Type 0 where
  pub path : Bytes
  pub size : ℕ

-- The queue of messages to send: `output_queue_`, the `async_write`s on the socket that have not
-- completed, and the messages whose write has completed, the oldest first.
pub record Output : Type 0 where
  pub output_queue : List Bytes
  pub writes : ℕ
  pub sent : List Bytes

-- A task on the strand `ftp_data_serializer_`. A socket has a number.
pub data DataTask : Type 0 where
  enqueue_data : Option File → ℕ → DataTask
  send_data : ℕ → DataTask
  save : File → Bytes → DataTask
  close_socket : DataTask

-- An `async_write` of a file on a data socket that has not completed.
pub record DataWrite : Type 0 where
  pub file : File
  pub socket : ℕ

-- An `async_read` of `receiveFile` that has not completed, with the file so far.
pub record Reception : Type 0 where
  pub file : File
  pub path : Bytes
  pub socket : ℕ

-- The FTP data connections: the tasks on their strand in order, `ftp_data_buffer_` (`none` is the
-- null pointer that ends a transmission), the pending writes and reads, `ftp_data_socket_`, the
-- number of the next socket, the files whose write has completed, each with its socket, and the
-- sockets that were closed, the oldest first.
pub record DataConnection : Type 0 where
  pub tasks : List DataTask
  pub buffer : List (Option File)
  pub writes : List DataWrite
  pub receptions : List Reception
  pub socket : Option ℕ
  pub next_socket : ℕ
  pub delivered : List DataWrite
  pub closed : List ℕ

-- `users` and `filesystem` are the objects that all sessions share, as this session finds them.
-- `posted` holds the messages whose `sendMessage` task waits on the strand, the oldest first, and
-- `reads` counts the calls of `receiveMessage` whose read has not completed.
pub record Session : Type 0 where
  pub users : UserDatabase
  pub authenticate : Bool
  pub filesystem : MemoryFs
  pub posted : List Bytes
  pub reads : ℕ
  pub acceptor_open : Bool
  pub accepts : List Accept
  pub uploads : List Upload
  pub last_username : Bytes
  pub logged_in_user : Option User
  pub last_ftp_command : FtpCommand
  pub current_working_dir : Bytes
  pub output : Output
  pub ftp_data : DataConnection

abbrev no_output : Output
no_output = record { output_queue = []; writes = 0; sent = [] }

abbrev pub no_data : DataConnection
no_data = record {
  tasks = [];
  buffer = [];
  writes = [];
  receptions = [];
  socket = none;
  next_socket = 0;
  delivered = [];
  closed = [];
}

-- The constructor.
unfoldable pub new_session : UserDatabase → Bool → MemoryFs → Session
new_session users authenticate filesystem = record {
  users = users;
  authenticate = authenticate;
  filesystem = filesystem;
  posted = [];
  reads = 0;
  acceptor_open = false;
  accepts = [];
  uploads = [];
  last_username = [];
  logged_in_user = none;
  last_ftp_command = unrecognized;
  current_working_dir = codes "/";
  output = no_output;
  ftp_data = no_data;
}

-- What the network layer answers: whether the data acceptor could be opened, bound and set to
-- listen, the bytes of the address of the session's socket, none if it is no IPv4 address, and the
-- port of the acceptor.
pub record Network : Type 0 where
  pub opens : Bool
  pub binds : Bool
  pub listens : Bool
  pub address : Option (List ℕ)
  pub port : ℕ

unfoldable pub send_message : Bytes → Session → Session
send_message message s = record s { posted = s.posted ++ message ∷ [] }

unfoldable pub receive_message : Session → Session
receive_message s = record s { reads = suc s.reads }

-- `sendMessage(static_cast<std::string>(FtpResponse(code, text)))`
unfoldable pub reply : FtpReplyCode → Bytes → Session → Session
unfolding send_message
reply code text s = send_message (serialize (with_text code text)) s

-- `post` on the strand of the data connections.
unfoldable pub post_data : DataTask → Session → Session
post_data task s = record s {
  ftp_data = record s.ftp_data { tasks = s.ftp_data.tasks ++ task ∷ [] };
}

-- `closeFtpDataSocket`. The pointer is weak: a socket that nothing holds any more is closed already.
unfoldable pub close_ftp_data_socket : Session → Session
close_ftp_data_socket s = record s {
  ftp_data = record s.ftp_data {
    closed = elim s.ftp_data.socket [
      | none ↦ s.ftp_data.closed
      | some k ↦ s.ftp_data.closed ++ k ∷ []
    ];
  };
}

-- The loops that list the files, one path to a line.
unfoldable pub append_paths : FileList → Bytes → Bytes
append_paths [] text = text
append_paths (path ∷ paths) text = append_paths paths (text ++ (path ++ codes "\n"))

-- `configureDataAcceptor`: an open acceptor is closed first, with or without an error.
unfoldable pub configure_data_acceptor : Network → Session → Bool × Session
configure_data_acceptor net s =
    if net.opens
    then (if net.binds
        then (net.listens, record s { acceptor_open = true })
        else (false, record s { acceptor_open = true }))
    else (false, record s { acceptor_open = false })
