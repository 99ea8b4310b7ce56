-- ===== src/Server.antt =====
-- server/object_storage/src/object_storage.{hpp,cpp}: the server, its sessions, and what they share.
pub mod Lifecycle
pub mod Sessions
pub mod Serving
pub mod Sharing
pub mod Tests
use in_memory_object_storage.Common.{
  ℕ, zero, suc, Bool, true, false, not, ◌&&◌, List, [], ◌∷◌, ◌++◌, Option, none, some, ◌==◌, leb,
  if◌then◌else◌, get_elem?, Outcome, ok, ◌>>=◌,
}
use in_memory_object_storage.Common.Text.{Bytes}
use in_memory_object_storage.MemoryFs.{MemoryFs, empty_fs}
use in_memory_object_storage.UserDatabase.{UserDatabase, no_users, add}
use in_memory_object_storage.Session.{Session, new_session}
use in_memory_object_storage.Session.Start.{PortRange, start as start_session}
use in_memory_object_storage.Session.Events.{Event, step}

pub data LogLevel : Type 0 where
  trace debug info warning error eatal : LogLevel

-- The level as an int.
unfoldable pub level_number : LogLevel → ℕ
level_number trace = 0
level_number debug = 1
level_number info = 2
level_number warning = 3
level_number error = 4
level_number eatal = 5

-- `workers` counts the threads that run the event loop, and `stopped` tells that it has ended.
-- `waiting` holds the sessions whose connection is waited for, and `sessions` those that have one, the
-- oldest first.
pub record ObjectStorage : Type 0 where
  pub users : UserDatabase
  pub filesystem : MemoryFs
  pub address : Bytes
  pub port : ℕ
  pub log_level : LogLevel
  pub acceptor_open : Bool
  pub authenticate : Bool
  pub ftp_port_range : PortRange
  pub workers : ℕ
  pub stopped : Bool
  pub waiting : List Session
  pub sessions : List Session

-- The constructor.
unfoldable pub new_server : Bytes → ℕ → LogLevel → Bool → PortRange → ObjectStorage
new_server address port log_level authenticate ftp_port_range = record {
  users = no_users;
  filesystem = empty_fs;
  address = address;
  port = port;
  log_level = log_level;
  acceptor_open = false;
  authenticate = authenticate;
  ftp_port_range = ftp_port_range;
  workers = 0;
  stopped = false;
  waiting = [];
  sessions = [];
}

-- `setUpLogging`: the filter of the log, which a record of a severity passes or not.
unfoldable pub set_up_logging : ObjectStorage → ℕ → Bool
unfolding level_number
set_up_logging o severity = leb (level_number o.log_level) severity

-- What the network layer answers: whether the address is one, and whether an acceptor that is closed
-- could be opened, given its option, bound and set to listen.
pub record AcceptorResults : Type 0 where
  pub address_valid : Bool
  pub opens : Bool
  pub option_set : Bool
  pub binds : Bool
  pub listens : Bool

-- A session is made and its connection waited for.
unfoldable pub await_connection : ObjectStorage → ObjectStorage
await_connection o = record o {
  waiting = o.waiting ++ new_session o.users o.authenticate o.filesystem ∷ [];
}

-- The acceptor stays open when a step behind its opening fails, and to open it again is an error.
unfoldable pub configure_acceptor : AcceptorResults → ObjectStorage → Bool × ObjectStorage
unfolding await_connection
configure_acceptor r o =
    let o' = record o { acceptor_open = true } in
    if not r.address_valid
    then (false, o)
    else if o.acceptor_open
    then (false, o)
    else if not r.opens
    then (false, o)
    else if not r.option_set
    then (false, o')
    else if not r.binds
    then (false, o')
    else if not r.listens
    then (false, o')
    else (true, await_connection o')

unfoldable pub start : AcceptorResults → ℕ → ObjectStorage → Bool × ObjectStorage
unfolding configure_acceptor
start r thread_count o =
    if thread_count == 0
    then (false, o)
    else if leb o.ftp_port_range.max_port o.ftp_port_range.min_port
    then (false, o)
    else (let (configured, o') = configure_acceptor r o in
        if configured then (true, record o' { workers = thread_count }) else (false, o'))

-- `addUser`, with what it returns.
unfoldable pub add_user : Bytes → Bytes → ObjectStorage → Bool × ObjectStorage
add_user username password o =
    let (added, users) = add o.users (record { username = username; password = password }) in
    (added, record o { users = users })

-- `acceptConnection` for a session: it begins, and the next connection is waited for; after an error
-- nothing is.
unfoldable pub accept_connection : Bool → ℕ → Session → ObjectStorage → ObjectStorage
unfolding await_connection
accept_connection failed client_port s o =
    if failed
    then o
    else await_connection
        (record o { sessions = o.sessions ++ start_session o.ftp_port_range client_port s ∷ [] })

-- The destructor's `stop`: the event loop ends, and the threads with it.
unfoldable pub stop : ObjectStorage → ObjectStorage
stop o = record o { stopped = true }

-- The getters.
unfoldable pub get_port : ObjectStorage → ℕ
get_port o = o.port

unfoldable pub get_address : ObjectStorage → Bytes
get_address o = o.address

-- What happens next: a connection, with the client's port, or its failure; an event of a session;
-- a call of addUser; or one of stop.
pub data ServerEvent : Type 0 where
  connection : Bool → ℕ → ServerEvent
  session_event : ℕ → Event → ServerEvent
  user_added : Bytes → Bytes → ServerEvent
  server_stopped : ServerEvent

-- The users and the files are shared by reference: a session finds them as they are.
abbrev pub attach : ObjectStorage → Session → Session
attach o s = record s { users = o.users; filesystem = o.filesystem }

abbrev pub set : List Session → ℕ → Session → List Session
set [] i t = []
set (s ∷ sessions) zero t = t ∷ sessions
set (s ∷ sessions) (suc i) t = s ∷ set sessions i t

end_accept : List Session → Bool → ℕ → ObjectStorage → ObjectStorage
end_accept [] failed client_port o = o
end_accept (s ∷ waiting) failed client_port o =
    accept_connection failed client_port (attach o s) (record o { waiting = waiting })

step_session : Option Session → ℕ → Event → ObjectStorage → Outcome ObjectStorage
step_session none i event o = ok o
step_session (some s) i event o = do
  s' ← step event (attach o s)
  ok (record o { filesystem = s'.filesystem; sessions = set o.sessions i s' })

unfoldable pub step_server : ServerEvent → ObjectStorage → Outcome ObjectStorage
unfolding end_accept step_session accept_connection add_user stop
step_server (connection failed client_port) o = ok (end_accept o.waiting failed client_port o)
step_server (session_event i event) o = step_session (get_elem? o.sessions i) i event o
step_server (user_added username password) o = ok (add_user username password o).1
step_server server_stopped o = ok (stop o)

-- The events that are handlers, which run while the event loop does.
unfoldable pub is_handler : ServerEvent → Bool
is_handler (connection failed client_port) = true
is_handler (session_event i event) = true
is_handler _ = false

unfoldable pub serve : ServerEvent → ObjectStorage → Outcome ObjectStorage
unfolding is_handler
serve event o = if o.stopped && is_handler event then ok o else step_server event o

unfoldable pub run_server : List ServerEvent → ObjectStorage → Outcome ObjectStorage
run_server [] o = ok o
run_server (event ∷ events) o = do o' ← serve event o; run_server events o'
