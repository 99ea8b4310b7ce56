-- ===== src/Session/Stream.antt =====
-- The bytes that a session reads: `input_stream_` in front of the socket. `receiveMessage` in
-- server/object_storage/src/session.cpp and the reads in http_method_handlers.cpp.
pub mod Packets
pub mod Lines
pub mod Heads
pub mod Bodies
pub mod Requests
pub mod Visits
pub mod Tests
pub mod HttpTests
use in_memory_object_storage.Common.{
  ℕ, zero, suc, ◌+◌, ◌-◌, ◌≡◌, Bool, true, false, if◌then◌else◌, List, [], ◌∷◌, ◌++◌, Option, none,
  some, length, take, drop, replicate, Outcome, ok, ◌>>=◌,
}
use in_memory_object_storage.Common.Text.{Bytes, codes}
use in_memory_object_storage.Utils.Split.{find}
use in_memory_object_storage.Protocol.Detector.{AppLayerProtocol, detect_protocol}
use in_memory_object_storage.Session.{Session, Network, Upload}
use in_memory_object_storage.Session.Events.{
  Event, packet_received, read_failed, body_received, step,
}

-- `buffer` is what `input_stream_` holds, and `incoming` what the socket will still give.
pub record Input : Type 0 where
  pub buffer : Bytes
  pub incoming : Bytes

abbrev pub unread : Input → Bytes
unread i = i.buffer ++ i.incoming

-- Bytes go from the socket to the buffer.
pub record Moves (i i' : Input) : Type 0 where
  pub moved : ℕ
  pub buffer_is : i'.buffer ≡ i.buffer ++ take moved i.incoming
  pub incoming_is : i'.incoming ≡ drop moved i.incoming

-- The reads of boost::asio, with how the network cuts the stream; `none` is an error, the end of the
-- stream included. `read_until` moves as many bytes to the buffer as it likes, until the buffer holds
-- the delimiter, and returns how many bytes there are up to the end of its first occurrence.
-- `read_exactly` is a read of the socket alone with `transfer_exactly`.
pub record Reader : Type 0 where
  pub read_until : Bytes → Input → Option ℕ × Input
  pub read_exactly : ℕ → Bytes → Option Bytes × Bytes
  pub read_until-Moves : (delimiter : Bytes) (i : Input) → Moves i (read_until delimiter i).1
  pub read_until-finds :
      (delimiter : Bytes) (i : Input) (n : ℕ)
      → (read_until delimiter i).0 ≡ some n
      → (position : ℕ) × (find delimiter (read_until delimiter i).1.buffer ≡ some position)
        × (n ≡ position + length delimiter)
  pub read_exactly-body :
      (size : ℕ) (stream body : Bytes)
      → (read_exactly size stream).0 ≡ some body
      → (length body ≡ size) × (stream ≡ body ++ (read_exactly size stream).1)

-- `resize`, then `istream::read` into the string: what the stream does not give stays zero.
unfoldable pub take_packet : ℕ → Input → Bytes × Input
take_packet n i =
    (take n i.buffer ++ replicate (n - length i.buffer) 0, record i { buffer = drop n i.buffer })

abbrev pub taken : Option ℕ × Input → Option Bytes × Input
taken (none, i) = (none, i)
taken (some n, i) = let (packet, i') = take_packet n i in (some packet, i')

-- The read of `receiveMessage`, up to the packet.
unfoldable pub read_packet : Reader → Input → Option Bytes × Input
read_packet r i = taken (r.read_until (codes "\r\n") i)

-- The read at the start of `handleHttp`; where it throws there are no headers.
unfoldable pub read_headers : Reader → Input → Option Bytes × Input
read_headers r i = taken (r.read_until (codes "\r\n\r\n") i)

-- What the handler of a protocol reads behind the packet.
abbrev pub read_rest : AppLayerProtocol → Reader → Input → Option Bytes × Input
read_rest AppLayerProtocol.ftp r i = (none, i)
read_rest AppLayerProtocol.http r i = read_headers r i

-- The event of the session that the bytes make.
abbrev pub event_of : Reader → Network → Option Bytes × Input → Outcome (Event × Input)
event_of r net (none, i) = ok (read_failed, i)
event_of r net (some packet, i) = do
  protocol ← detect_protocol packet
  let (headers, i') = read_rest protocol r i
  ok (packet_received net packet headers, i')

pub record Connection : Type 0 where
  pub session : Session
  pub input : Input

-- A read of a request completes, if one is pending.
unfoldable pub receive_request : ℕ → Reader → Network → Connection → Outcome Connection
receive_request zero r net c = ok c
receive_request (suc reads) r net c = do
  (event, i) ← event_of r net (read_packet r c.input)
  s ← step event c.session
  ok (record { session = s; input = i })

-- The `async_read` of a body completes, if one is pending. It reads from the socket, past the buffer.
unfoldable pub receive_body : List Upload → Reader → Connection → Outcome Connection
receive_body [] r c = ok c
receive_body (u ∷ uploads) r c = do
  let (body, incoming) = r.read_exactly u.size c.input.incoming
  s ← step (body_received body) c.session
  ok (record { session = s; input = record c.input { incoming = incoming } })

-- The events that are the ends of reads from the socket of the session.
unfoldable pub is_read : Event → Bool
is_read (packet_received net packet headers) = true
is_read read_failed = true
is_read (body_received body) = true
is_read _ = false

-- Any other event leaves the input as it is.
unfoldable pub pass : Event → Connection → Outcome Connection
unfolding is_read
pass event c =
    if is_read event then ok c else (do s ← step event c.session; ok (record c { session = s }))

-- What happens next on a connection.
pub data ConnectionEvent : Type 0 where
  request_arrives : Reader → Network → ConnectionEvent
  body_arrives : Reader → ConnectionEvent
  other : Event → ConnectionEvent

unfoldable pub step_connection : ConnectionEvent → Connection → Outcome Connection
unfolding receive_request receive_body pass
step_connection (request_arrives r net) c = receive_request c.session.reads r net c
step_connection (body_arrives r) c = receive_body c.session.uploads r c
step_connection (other event) c = pass event c

unfoldable pub run_connection : List ConnectionEvent → Connection → Outcome Connection
run_connection [] c = ok c
run_connection (event ∷ events) c = do c' ← step_connection event c; run_connection events c'
