-- ===== src/Session/Stream/Heads.antt =====
-- The head of an HTTP request in the stream: its first line, its header fields, and the blank line.
use in_memory_object_storage.Common.{
  ℕ, suc, ◌≡◌, ◌∙◌, refl, ap, inl, inr, List, ◌∷◌, ◌++◌, Option, none, some, Option-cases, All,
  append_assoc, ok, throws, ◌>>=◌,
}
use in_memory_object_storage.Common.Text.{Bytes, codes, Lacks}
use in_memory_object_storage.Utils.Split.{find}
use in_memory_object_storage.Utils.Split.Tokens.{join}
use in_memory_object_storage.Utils.Split.Growing.{find-append}
use in_memory_object_storage.Utils.Split.BlankLine.{IsLine, find-blank}
use in_memory_object_storage.Protocol.Detector.{AppLayerProtocol, detect_protocol}
use in_memory_object_storage.Session.{Session, Network}
use in_memory_object_storage.Session.Http.{handle_http}
use in_memory_object_storage.Session.Events.{
  packet_received, step, end_read, receive_packet, handle_packet,
}
use in_memory_object_storage.Session.Stream.{
  Input, unread, Reader, taken, read_packet, read_headers, Connection, request_arrives, event_of,
  receive_request, step_connection,
}
use in_memory_object_storage.Session.Stream.Packets.{
  Moves-unread, IsSteady, taken-IsSteady, read_packet-line,
}

abbrev pub IsHttpLine : Bytes → Type 0
IsHttpLine line = detect_protocol (line ++ codes "\r\n") ≡ ok AppLayerProtocol.http

event_of-http :
    (r : Reader) (net : Network) (packet : Bytes) (headers : Option Bytes)
    (result : Option Bytes × Input)
    → detect_protocol packet ≡ ok AppLayerProtocol.http
    → result.0 ≡ some packet
    → (read_headers r result.1).0 ≡ headers
    → event_of r net result ≡ ok (packet_received net packet headers, (read_headers r result.1).1)
event_of-http r net packet headers (none, i) d e h = cc
event_of-http r net packet headers (some p, i) d e h =
    let same : p ≡ packet = cc in
    ap (λ t. event_of r net (some t, i)) same
    ∙ rw d (ap (λ o. ok (packet_received net packet o, (read_headers r i).1)) h)

receive_request-http :
    (r : Reader) (net : Network) (packet : Bytes) (headers : Option Bytes) (reads : ℕ)
    (c : Connection)
    → detect_protocol packet ≡ ok AppLayerProtocol.http
    → (read_packet r c.input).0 ≡ some packet
    → (read_headers r (read_packet r c.input).1).0 ≡ headers
    → c.session.reads ≡ suc reads
    → step_connection (request_arrives r net) c ≡ (
        step (packet_received net packet headers) c.session >>= λ s.
        ok (record { session = s; input = (read_headers r (read_packet r c.input).1).1 }))
unfolding step_connection receive_request
receive_request-http r net packet headers reads c d p h k =
    ap (λ n. receive_request n r net c) k
    ∙ ap (λ o. o >>= (λ e. step e.0 c.session >>= λ s. ok (record { session = s; input = e.1 })))
        (event_of-http r net packet headers (read_packet r c.input) d p h)

-- The header fields as they are sent, up to the blank line.
abbrev pub header_text : Bytes → List Bytes → Bytes
header_text field fields = join (codes "\r\n") (field ∷ fields) ++ codes "\r\n\r\n"

pub head_arrives :
    (r : Reader) (net : Network) (line field : Bytes) (fields : List Bytes) (rest : Bytes)
    (reads : ℕ) (c : Connection) (s : Session)
    → IsSteady r
    → Lacks 13 line
    → IsHttpLine line
    → All IsLine (field ∷ fields)
    → unread c.input ≡ line ++ (codes "\r\n" ++ (header_text field fields ++ rest))
    → c.session.reads ≡ suc reads
    → step (packet_received net (line ++ codes "\r\n") (some (header_text field fields))) c.session
      ≡ ok s
    → let i = (read_headers r (read_packet r c.input).1).1 in
      (step_connection (request_arrives r net) c ≡ ok (record { session = s; input = i }))
      × (unread i ≡ rest)
unfolding read_headers
head_arrives r net line field fields rest reads c s steady l d w u k e =
    let head = join (codes "\r\n") (field ∷ fields) in
    let blank = codes "\r\n\r\n" in
    let (packet, behind) =
      read_packet-line r line (header_text field fields ++ rest) c.input steady l u in
    let (headers, left) =
      taken-IsSteady r blank head rest (read_packet r c.input).1 steady
        (find-blank field fields rest w) (behind ∙ append_assoc head blank rest) in
    (
      receive_request-http r net (line ++ codes "\r\n") (some (head ++ blank)) reads c d packet
            headers k
          ∙ ap
              (λ o. o >>= (λ s.
                ok (record { session = s; input = (read_headers r (read_packet r c.input).1).1 })))
              e,
      left,
    )

taken-none : (result : Option ℕ × Input) → result.0 ≡ none → (taken result).0 ≡ none
taken-none (none, i) e = refl
taken-none (some n, i) e = cc

-- A delimiter that is nowhere in the stream is not found.
taken-Lacks :
    (r : Reader) (delimiter : Bytes) (i : Input)
    → find delimiter (unread i) ≡ none
    → (taken (r.read_until delimiter i)).0 ≡ none
taken-Lacks r delimiter i h = elim (Option-cases (r.read_until delimiter i).0) [
  | inl failed ↦ taken-none (r.read_until delimiter i) failed
  | inr (n, e) ↦
      let i' = (r.read_until delimiter i).1 in
      let (position, f, g) = r.read_until-finds delimiter i n e in
      let there = find-append delimiter i'.buffer i'.incoming position f in
      let same = ap (find delimiter) (Moves-unread i i' (r.read_until-Moves delimiter i)) ∙ h in
      cc (there, same)
]

crlf-find : find (codes "\r\n\r\n") (codes "\r\n") ≡ none
unfolding find
crlf-find = refl

step-headless :
    (net : Network) (packet : Bytes) (reads : ℕ) (s : Session)
    → detect_protocol packet ≡ ok AppLayerProtocol.http
    → s.reads ≡ suc reads
    → step (packet_received net packet none) s ≡ throws
unfolding step end_read receive_packet handle_packet handle_http
step-headless net packet reads s d k = ap (λ n. end_read n net packet none s) k ∙ rw d refl

-- When a first line without a carriage return that is detected as HTTP, its CRLF and the CRLF of
-- the blank line, so no header fields, are all that is left in the stream, and a read is pending,
-- then with reads that find what is in the stream the arrival of the request throws.
pub request_arrives-headless :
    (r : Reader) (net : Network) (line : Bytes) (reads : ℕ) (c : Connection)
    → IsSteady r
    → Lacks 13 line
    → IsHttpLine line
    → unread c.input ≡ line ++ (codes "\r\n" ++ codes "\r\n")
    → c.session.reads ≡ suc reads
    → step_connection (request_arrives r net) c ≡ throws
unfolding read_headers
request_arrives-headless r net line reads c steady l d u k =
    let (packet, behind) = read_packet-line r line (codes "\r\n") c.input steady l u in
    let i = (read_packet r c.input).1 in
    let headers =
      taken-Lacks r (codes "\r\n\r\n") i (ap (find (codes "\r\n\r\n")) behind ∙ crlf-find) in
    receive_request-http r net (line ++ codes "\r\n") none reads c d packet headers k
    ∙ ap (λ o. o >>= (λ s. ok (record { session = s; input = (read_headers r i).1 })))
        (step-headless net (line ++ codes "\r\n") reads c.session d k)
