-- ===== src/Session/Stream/Lines.antt =====
-- An FTP client's requests, as the bytes of one stream.
use in_memory_object_storage.Common.{
  ℕ, suc, ◌+◌, ◌≡◌, ◌∙◌, refl, ap, subst, List, [], ◌∷◌, ◌++◌, append_assoc, Option, none, some,
  arith, map, All, ok, >>=-eq-ok, ok-injective,
}
use in_memory_object_storage.Common.Text.{Bytes, codes, Lacks}
use in_memory_object_storage.Protocol.Detector.{AppLayerProtocol, detect_protocol}
use in_memory_object_storage.Session.{Session, Network}
use in_memory_object_storage.Session.Ftp.Replies.{handle_ftp-one_reply}
use in_memory_object_storage.Session.Events.{
  Event, packet_received, step, run, end_read, receive_packet, handle_packet,
}
use in_memory_object_storage.Session.Stream.{
  Input, unread, Reader, read_packet, Connection, ConnectionEvent, request_arrives, event_of,
  receive_request, step_connection, run_connection,
}
use in_memory_object_storage.Session.Stream.Packets.{IsSteady, read_packet-line}

-- A line that a client sends, without its end, with what the network does meanwhile.
pub record Request : Type 0 where
  pub text : Bytes
  pub reader : Reader
  pub net : Network

abbrev pub packet : Request → Bytes
packet q = q.text ++ codes "\r\n"

abbrev pub IsFtpRequest : Request → Type 0
IsFtpRequest q =
    Lacks 13 q.text × (detect_protocol (packet q) ≡ ok AppLayerProtocol.ftp) × IsSteady q.reader

-- The stream of the requests.
unfoldable pub sent : List Request → Bytes
sent [] = []
sent (q ∷ requests) = q.text ++ (codes "\r\n" ++ sent requests)

abbrev pub arrival : Request → ConnectionEvent
arrival q = request_arrives q.reader q.net

-- The request as a packet of its own.
abbrev pub as_packet : Request → Event
as_packet q = packet_received q.net (packet q) none

event_of-packet :
    (q : Request) (result : Option Bytes × Input)
    → detect_protocol (packet q) ≡ ok AppLayerProtocol.ftp
    → result.0 ≡ some (packet q)
    → event_of q.reader q.net result ≡ ok (as_packet q, result.1)
event_of-packet q (none, i) d e = cc
event_of-packet q (some p, i) d e =
    let same : packet q ≡ p = cc in
    subst (λ t. event_of q.reader q.net (some t, i) ≡ ok (as_packet q, i)) same (rw d refl)

-- The handling starts one read, and so another request can come.
receive_packet-again :
    (q : Request) (s s' : Session)
    → detect_protocol (packet q) ≡ ok AppLayerProtocol.ftp
    → receive_packet q.net (packet q) none s ≡ ok s'
    → s'.reads ≡ s.reads + 1
unfolding receive_packet handle_packet
receive_packet-again q s s' d e =
    let (code, text, posted, reads) = handle_ftp-one_reply q.net (packet q) s s' (rw d at e) in
    reads

step-again :
    (q : Request) (reads : ℕ) (s s' : Session)
    → detect_protocol (packet q) ≡ ok AppLayerProtocol.ftp
    → s.reads ≡ suc reads
    → step (as_packet q) s ≡ ok s'
    → s'.reads ≡ suc reads
unfolding step end_read
step-again q reads s s' d h e =
    let there : end_read (suc reads) q.net (packet q) none s ≡ ok s' =
      subst (λ k. end_read k q.net (packet q) none s ≡ ok s') h e in
    receive_packet-again q (record s { reads = reads }) s' d there ∙ omega arith

receive_request-packet :
    (q : Request) (reads : ℕ) (c : Connection) (s' : Session)
    → detect_protocol (packet q) ≡ ok AppLayerProtocol.ftp
    → (read_packet q.reader c.input).0 ≡ some (packet q)
    → step (as_packet q) c.session ≡ ok s'
    → receive_request (suc reads) q.reader q.net c
      ≡ ok (record { session = s'; input = (read_packet q.reader c.input).1 })
unfolding receive_request
receive_request-packet q reads c s' d p e =
    rw (event_of-packet q (read_packet q.reader c.input) d p, e) refl

arrival-step :
    (q : Request) (rest : Bytes) (s s' : Session) (i : Input)
    → IsFtpRequest q
    → unread i ≡ q.text ++ (codes "\r\n" ++ rest)
    → s.reads ≡ 1
    → step (as_packet q) s ≡ ok s'
    → (i' : Input) × (step_connection (arrival q) (record { session = s; input = i })
        ≡ ok (record { session = s'; input = i' }))
      × (unread i' ≡ rest)
      × (s'.reads ≡ 1)
unfolding step_connection
arrival-step q rest s s' i (l, d, steady) u h e =
    let c : Connection = record { session = s; input = i } in
    let (whole, left) = read_packet-line q.reader q.text rest i steady l u in
    (
      (read_packet q.reader i).1,
      ap (λ k. receive_request k q.reader q.net c) h ∙ receive_request-packet q 0 c s' d whole e,
      left,
      step-again q 0 s s' d h e,
    )

-- When the stream of a connection, the bytes that the session has read ahead and then those of
-- its socket, begins with lines without a carriage return that are detected as FTP and end with
-- CRLF, one read is pending, and handling each line as a packet of its own ends normally, then
-- with reads that find what is in the stream, however the network cuts it, the connection handles
-- the lines with the same result, and what stands behind them is left unread.
pub serve-lines :
    (requests : List Request) (rest : Bytes) (s s' : Session) (i : Input)
    → All IsFtpRequest requests
    → unread i ≡ sent requests ++ rest
    → s.reads ≡ 1
    → run (map as_packet requests) s ≡ ok s'
    → (i' : Input) × (run_connection (map arrival requests) (record { session = s; input = i })
        ≡ ok (record { session = s'; input = i' }))
      × (unread i' ≡ rest)
unfolding run run_connection sent
serve-lines [] rest s s' i w u h e =
    (i, ap (λ t. ok (record { session = t; input = i })) (ok-injective e), u)
serve-lines (q ∷ requests) rest s s' i w u h e =
    let (t, f, later) = >>=-eq-ok (step (as_packet q) s) (run (map as_packet requests)) e in
    let cut : unread i ≡ q.text ++ (codes "\r\n" ++ (sent requests ++ rest)) =
      u ∙ append_assoc q.text (codes "\r\n" ++ sent requests) rest in
    let (i₁, first, left, again) = arrival-step q (sent requests ++ rest) s t i w.0 cut h f in
    let (i₂, more, end) = serve-lines requests rest t s' i₁ w.1 left again later in
    (i₂, rw first more, end)
