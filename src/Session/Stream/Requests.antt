-- ===== src/Session/Stream/Requests.antt =====
-- Well-formed HTTP requests as the bytes of a stream.
use in_memory_object_storage.Common.{
  ℕ, ◌<◌, ◌^◌, ◌≡◌, ◌≢◌, ◌∙◌, refl, sym, ap, false, List, [], ◌∷◌, ◌++◌, append_assoc, some, arith,
  map, All, All-append, ok,
}
use in_memory_object_storage.Common.Text.{Bytes, codes, text_eq, Lacks}
use in_memory_object_storage.Common.Dict.{lookup}
use in_memory_object_storage.Utils.Split.Tokens.{join}
use in_memory_object_storage.Utils.Split.BlankLine.{IsLine}
use in_memory_object_storage.Protocol.Detector.{AppLayerProtocol, detect_protocol}
use in_memory_object_storage.Protocol.Detector.FirstLine.{detect_protocol-http_iff}
use in_memory_object_storage.Protocol.HttpRequest.Parsing.{
  Header, IsHeader, value, header_line, header_lines, append-ne,
}
use in_memory_object_storage.Protocol.HttpRequest.Parsing.Requests.{
  request_line, request_text, request_line-Lacks, Announces,
}
use in_memory_object_storage.Protocol.HttpResponse
use in_memory_object_storage.Protocol.HttpResponse.{of_resource}
use in_memory_object_storage.Session.{Session, Network, receive_message}
use in_memory_object_storage.Session.Http.{respond, handle_http}
use in_memory_object_storage.Session.Http.Requests.{put_request-pending, get_request-stored}
use in_memory_object_storage.Session.Events.{
  packet_received, step, end_read, receive_packet, handle_packet,
}
use in_memory_object_storage.Session.Stream.{
  Input, unread, Reader, read_packet, read_headers, Connection, request_arrives, step_connection,
}
use in_memory_object_storage.Session.Stream.Packets.{IsSteady}
use in_memory_object_storage.Session.Stream.Heads.{IsHttpLine, header_text, head_arrives}

-- A header as a request has it on a line.
header_line-IsLine : (h : Header) → IsHeader h → IsLine (header_line h)
unfolding header_line
header_line-IsLine h (n, v, r, s, k, a) = (
  append-ne h.name (b' ' ∷ value h) b':',
  All-append (λ c. c ≢ 13) h.name _ r (omega arith, (omega arith, s)),
)

header_lines-IsLine :
    (headers : List Header) → All IsHeader headers → All IsLine (map header_line headers)
header_lines-IsLine [] w = tt
header_lines-IsLine (h ∷ headers) w = (header_line-IsLine h w.0, header_lines-IsLine headers w.1)

-- The text of a request is its first line and its header.
join-blank :
    (line : Bytes) (lines : List Bytes)
    → join (codes "\r\n") ((line ∷ lines) ++ [] ∷ [] ∷ []) ≡ header_text line lines
unfolding join
join-blank line [] = refl
join-blank line (u ∷ lines) =
    ap (λ t. line ++ (codes "\r\n" ++ t)) (join-blank u lines)
    ∙ sym (append_assoc line _ (codes "\r\n\r\n"))

abbrev pub head : Bytes → Bytes → Bytes
head name uri = request_line name uri (codes "HTTP/1.1")

abbrev pub fields_text : Header → List Header → Bytes
fields_text h headers = header_text (header_line h) (map header_line headers)

request_text-head :
    (name uri : Bytes) (h : Header) (headers : List Header)
    → request_text name uri (codes "HTTP/1.1") (h ∷ headers)
      ≡ head name uri ++ (codes "\r\n" ++ fields_text h headers)
unfolding request_text join header_lines
request_text-head name uri h headers =
    ap (λ t. head name uri ++ (codes "\r\n" ++ t))
      (join-blank (header_line h) (map header_line headers))

head-IsHttpLine : (name uri : Bytes) → Lacks 13 (head name uri) → IsHttpLine (head name uri)
unfolding request_line
head-IsHttpLine name uri l =
    let front : Bytes = name ++ (codes " " ++ (uri ++ codes " ")) in
    let same : head name uri ≡ front ++ (codes "HTTP" ++ codes "/1.1") = simp append_assoc in
    (detect_protocol-http_iff (head name uri) [] l).1 (front, codes "/1.1", same)

-- The step of a read that was the only one.
step-http :
    (net : Network) (packet headers : Bytes) (s : Session)
    → detect_protocol packet ≡ ok AppLayerProtocol.http
    → s.reads ≡ 1
    → step (packet_received net packet (some headers)) s
      ≡ handle_http packet (some headers) (record s { reads = 0 })
unfolding step end_read receive_packet handle_packet
step-http net packet headers s d k = ap (λ n. end_read n net packet (some headers) s) k ∙ rw d refl

abbrev pub after_head : Reader → Input → Input
after_head r i = (read_headers r (read_packet r i).1).1

-- A well-formed request is handled with all of its head and nothing of what is behind it.
request-arrives :
    (r : Reader) (net : Network) (name uri : Bytes) (h : Header) (headers : List Header)
    (rest : Bytes) (c : Connection) (s : Session)
    → IsSteady r
    → Lacks 13 name
    → Lacks 13 uri
    → All IsHeader (h ∷ headers)
    → c.session.reads ≡ 1
    → unread c.input ≡ request_text name uri (codes "HTTP/1.1") (h ∷ headers) ++ rest
    → handle_http
        (head name uri ++ codes "\r\n")
        (some (fields_text h headers))
        (record c.session { reads = 0 })
      ≡ ok s
    → (step_connection (request_arrives r net) c
        ≡ ok (record { session = s; input = after_head r c.input }))
      × (unread (after_head r c.input) ≡ rest)
request-arrives r net name uri h headers rest c s steady l₁ l₂ w k u e =
    let line = head name uri in
    let lacks = request_line-Lacks name uri (codes "HTTP/1.1") l₁ l₂ (omega arith) in
    let http = head-IsHttpLine name uri lacks in
    let text : unread c.input ≡ line ++ (codes "\r\n" ++ (fields_text h headers ++ rest)) =
      u
      ∙ ap (λ t. t ++ rest) (request_text-head name uri h headers)
      ∙ append_assoc line (codes "\r\n" ++ fields_text h headers) rest in
    head_arrives r net line (header_line h) (map header_line headers) rest 0 c s steady lacks http
      (header_lines-IsLine (h ∷ headers) w) text k
      (step-http net (line ++ codes "\r\n") (fields_text h headers) c.session http k ∙ e)

whole_text :
    (name uri : Bytes) (h : Header) (headers : List Header)
    → (head name uri ++ codes "\r\n") ++ fields_text h headers
      ≡ request_text name uri (codes "HTTP/1.1") (h ∷ headers)
whole_text name uri h headers =
    append_assoc (head name uri) (codes "\r\n") (fields_text h headers)
    ∙ sym (request_text-head name uri h headers)

pub put-arrives :
    (r : Reader) (net : Network) (uri : Bytes) (h : Header) (headers : List Header) (n : ℕ)
    (rest : Bytes) (c : Connection)
    → IsSteady r
    → c.session.authenticate ≡ false
    → c.session.uploads ≡ []
    → c.session.reads ≡ 1
    → Lacks b' ' uri × Lacks 13 uri
    → All IsHeader (h ∷ headers)
    → n < 2 ^ 31
    → Announces (h ∷ headers) n
    → unread c.input ≡ request_text (codes "PUT") uri (codes "HTTP/1.1") (h ∷ headers) ++ rest
    → (s : Session) × (step_connection (request_arrives r net) c
        ≡ ok (record { session = s; input = after_head r c.input }))
      × (unread (after_head r c.input) ≡ rest)
      × (s.uploads ≡ record { path = uri; size = n } ∷ [])
      × (s.filesystem ≡ c.session.filesystem)
      × (s.authenticate ≡ false)
      × (s.reads ≡ 0)
put-arrives r net uri h headers n rest c steady a p k (l, l') w b m u =
    let (s, e, uploads, files, same, reads) =
      put_request-pending uri (codes "HTTP/1.1") (head (codes "PUT") uri ++ codes "\r\n")
        (fields_text h headers) (h ∷ headers) n (record c.session { reads = 0 }) a p
        (l, omega arith, l', omega arith) (whole_text (codes "PUT") uri h headers) w b m in
    let (there, left) =
      request-arrives r net (codes "PUT") uri h headers rest c s steady (omega arith) l' w k u e in
    (s, there, left, uploads, files, same ∙ a, reads)

pub get-arrives :
    (r : Reader) (net : Network) (uri : Bytes) (h : Header) (headers : List Header) (n : ℕ)
    (file rest : Bytes) (c : Connection)
    → IsSteady r
    → c.session.authenticate ≡ false
    → c.session.reads ≡ 1
    → text_eq uri (codes "/") ≡ false
    → lookup uri c.session.filesystem.fs ≡ some file
    → Lacks b' ' uri × Lacks 13 uri
    → All IsHeader (h ∷ headers)
    → n < 2 ^ 31
    → Announces (h ∷ headers) n
    → unread c.input ≡ request_text (codes "GET") uri (codes "HTTP/1.1") (h ∷ headers) ++ rest
    → (step_connection (request_arrives r net) c
        ≡ ok (record {
          session =
              receive_message
                (respond (of_resource HttpResponse.ok file) (record c.session { reads = 0 }));
          input = after_head r c.input;
        }))
      × (unread (after_head r c.input) ≡ rest)
get-arrives r net uri h headers n file rest c steady a k root there (l, l') w b m u =
    let s = record c.session { reads = 0 } in
    let e =
      get_request-stored uri (codes "HTTP/1.1") (head (codes "GET") uri ++ codes "\r\n")
        (fields_text h headers) (h ∷ headers) n file s a root there
        (l, omega arith, l', omega arith) (whole_text (codes "GET") uri h headers) w b m in
    request-arrives r net (codes "GET") uri h headers rest c
      (receive_message (respond (of_resource HttpResponse.ok file) s)) steady (omega arith) l' w k u
      e
