-- ===== src/Server/Lifecycle.antt =====
-- When the server starts.
use in_memory_object_storage.Common.{ℕ, ◌<◌, ◌≡◌, ◌≢◌, ◌↔◌, true, false, arith}
use in_memory_object_storage.Server.{ObjectStorage, AcceptorResults, await_connection, start}

-- Everything that the network layer was asked for went well.
abbrev pub IsOpen : AcceptorResults → Type 0
IsOpen r =
    (r.address_valid ≡ true)
    × (r.opens ≡ true)
    × (r.option_set ≡ true)
    × (r.binds ≡ true)
    × (r.listens ≡ true)

-- A server whose acceptor is closed starts exactly if the thread count is not zero, the lower bound
-- of the FTP ports is below the upper one, and every step of setting up the acceptor succeeds; then
-- it awaits one more connection and has that many threads.
pub start_iff :
    (r : AcceptorResults) (thread_count : ℕ) (o : ObjectStorage)
    → o.acceptor_open ≡ false
    → (((start r thread_count o).0 ≡ true)
        ↔ ((thread_count ≢ 0) × (o.ftp_port_range.min_port < o.ftp_port_range.max_port) × IsOpen r))
      × ((start r thread_count o).0 ≡ true
          → (start r thread_count o).1
            ≡ record (await_connection (record o { acceptor_open = true })) {
              workers = thread_count;
            })
unfolding start
start_iff r thread_count o c = ((λ h. ground arith, λ h. ground (arith, c)), λ h. ground arith)

-- A start that opens the acceptor leaves it open, whether it succeeds or not.
start-opens :
    (r : AcceptorResults) (thread_count : ℕ) (o : ObjectStorage)
    → o.acceptor_open ≡ false
    → thread_count ≢ 0
    → o.ftp_port_range.min_port < o.ftp_port_range.max_port
    → (r.address_valid ≡ true) × (r.opens ≡ true)
    → (start r thread_count o).1.acceptor_open ≡ true
unfolding start await_connection
start-opens r thread_count o c n b (v, p) = ground (arith, c, v, p)

start-refused :
    (r : AcceptorResults) (thread_count : ℕ) (o : ObjectStorage)
    → o.acceptor_open ≡ true
    → start r thread_count o ≡ (false, o)
unfolding start
start-refused r thread_count o c = ground (arith, c)

-- When a start with threads and a valid range of FTP ports, on a server whose acceptor is closed,
-- has opened the acceptor, then, whether it succeeded or failed in a later step, every later
-- start returns false and leaves the server as it is.
pub start-once :
    (r later : AcceptorResults) (thread_count other_count : ℕ) (o : ObjectStorage)
    → o.acceptor_open ≡ false
    → thread_count ≢ 0
    → o.ftp_port_range.min_port < o.ftp_port_range.max_port
    → (r.address_valid ≡ true) × (r.opens ≡ true)
    → let (started, o') = start r thread_count o in start later other_count o' ≡ (false, o')
start-once r later thread_count other_count o c n b v =
    start-refused later other_count (start r thread_count o).1
      (start-opens r thread_count o c n b v)
