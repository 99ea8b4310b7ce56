-- ===== src/Session/Stream/HttpTests.antt =====
-- HTTP over connections whose network gives one byte at a time.
use in_memory_object_storage.Common.{
  ℕ, suc, ◌+◌, ◌≡◌, ◌∙◌, refl, sym, ap, inl, inr, true, false, [], ◌∷◌, ◌++◌, append_assoc,
  append-nil, Option, none, some, Option-cases, arith, leb, length, length-append, take, ok, throws,
}
use in_memory_object_storage.Common.Text.{Bytes, codes}
use in_memory_object_storage.Common.Dict.{lookup}
use in_memory_object_storage.Utils.Split.{find}
use in_memory_object_storage.Utils.Split.Tokens.{join}
use in_memory_object_storage.Protocol.Detector.{detect_protocol}
use in_memory_object_storage.Protocol.HttpRequest.Parsing.{header_line, header_lines}
use in_memory_object_storage.Protocol.HttpRequest.Parsing.Requests.{request_line, request_text}
use in_memory_object_storage.Protocol.HttpRequest.Parsing.Tests.{
  host, length_field, put_fields, get_fields, put_fields-well, get_fields-well,
  put_fields-Announces, get_fields-Announces,
}
use in_memory_object_storage.Protocol.HttpResponse
use in_memory_object_storage.Protocol.HttpResponse.{of_resource}
use in_memory_object_storage.Session.{Session, receive_message, new_session}
use in_memory_object_storage.Session.Http.{respond}
use in_memory_object_storage.Session.Stream.{
  Input, unread, Moves, Reader, take_packet, read_packet, read_headers, Connection, request_arrives,
  body_arrives, step_connection, run_connection,
}
use in_memory_object_storage.Session.Stream.Packets.{IsSteady}
use in_memory_object_storage.Session.Stream.Heads.{IsHttpLine, request_arrives-headless}
use in_memory_object_storage.Session.Stream.Requests.{after_head}
use in_memory_object_storage.Session.Stream.Visits.{IsSteadyBody, put_and_get-served}
use in_memory_object_storage.Session.Stream.Tests.{
  greedy, greedy-IsSteady, end_of, end_of-finds, end_of-none, exactly, exactly-body,
}
use in_memory_object_storage.Session.Tests.{net, fresh}

-- A byte at a time, until the delimiter is there.
abbrev read_bytes : Bytes → Bytes → Bytes → Option ℕ × Input
read_bytes delimiter buffer [] =
    (end_of delimiter (find delimiter buffer), record { buffer = buffer; incoming = [] })
read_bytes delimiter buffer (c ∷ incoming) = elim (find delimiter buffer) [
  | some p ↦ (some (p + length delimiter), record { buffer = buffer; incoming = c ∷ incoming })
  | none ↦ read_bytes delimiter (buffer ++ c ∷ []) incoming
]

Moves-none : (i : Input) → Moves i i
Moves-none i = record { moved = 0; buffer_is = sym (append-nil i.buffer); incoming_is = refl }

read_bytes-Moves :
    (delimiter buffer incoming : Bytes)
    → Moves
        (record { buffer = buffer; incoming = incoming })
        (read_bytes delimiter buffer incoming).1
read_bytes-Moves delimiter buffer [] = Moves-none (record { buffer = buffer; incoming = [] })
read_bytes-Moves delimiter buffer (c ∷ incoming) = elim (Option-cases (find delimiter buffer)) [
  | inl e ↦
      let m = read_bytes-Moves delimiter (buffer ++ c ∷ []) incoming in
      rw (e, read_bytes)
        (record {
          moved = suc m.moved;
          buffer_is = m.buffer_is ∙ append_assoc buffer (c ∷ []) (take m.moved incoming);
          incoming_is = m.incoming_is;
        })
  | inr (p, e) ↦
      rw (e, read_bytes) (Moves-none (record { buffer = buffer; incoming = c ∷ incoming }))
]

read_bytes-finds :
    (delimiter buffer incoming : Bytes) (n : ℕ)
    → (read_bytes delimiter buffer incoming).0 ≡ some n
    → (position : ℕ) × (find delimiter (read_bytes delimiter buffer incoming).1.buffer
        ≡ some position)
      × (n ≡ position + length delimiter)
read_bytes-finds delimiter buffer [] n h = end_of-finds delimiter (find delimiter buffer) n h
read_bytes-finds delimiter buffer (c ∷ incoming) n h = elim (Option-cases (find delimiter buffer)) [
  | inl e ↦
      rw (e, read_bytes)
        (read_bytes-finds delimiter (buffer ++ c ∷ []) incoming n (rw (e, read_bytes) at h))
  | inr (p, e) ↦
      let h' = rw (e, read_bytes) at h in
      let same : p + length delimiter ≡ n = ground (arith, h') in
      rw (e, read_bytes) (p, e, sym same)
]

read_bytes-none :
    (delimiter buffer incoming : Bytes)
    → (read_bytes delimiter buffer incoming).0 ≡ none
    → find delimiter (buffer ++ incoming) ≡ none
read_bytes-none delimiter buffer [] h =
    ap (find delimiter) (append-nil buffer) ∙ end_of-none delimiter (find delimiter buffer) h
read_bytes-none delimiter buffer (c ∷ incoming) h = elim (Option-cases (find delimiter buffer)) [
  | inl e ↦
      ap (find delimiter) (sym (append_assoc buffer (c ∷ []) incoming))
      ∙ read_bytes-none delimiter (buffer ++ c ∷ []) incoming (rw (e, read_bytes) at h)
  | inr (p, e) ↦ cc (rw (e, read_bytes) at h)
]

abbrev byte_wise : Reader
byte_wise = record {
  read_until = λ delimiter i. read_bytes delimiter i.buffer i.incoming;
  read_exactly = exactly;
  read_until-Moves = λ delimiter i. read_bytes-Moves delimiter i.buffer i.incoming;
  read_until-finds = λ delimiter i n e. read_bytes-finds delimiter i.buffer i.incoming n e;
  read_exactly-body = exactly-body;
}

byte_wise-IsSteady : IsSteady byte_wise
byte_wise-IsSteady delimiter i h e = h (read_bytes-none delimiter i.buffer i.incoming e)

byte_wise-IsSteadyBody : IsSteadyBody byte_wise
byte_wise-IsSteadyBody body rest h =
    let fits : leb (length body) (length (body ++ rest)) ≡ true =
      ground (arith, length-append body rest) in
    cc (rw fits at h)

abbrev visitor : Connection
visitor = record {
  session = record fresh { authenticate = false; reads = 1 };
  input = record {
    buffer = [];
    incoming =
        codes
          "PUT /a HTTP/1.1\r\nHost: x\r\nContent-Length: 3\r\n\r\nabcGET /a HTTP/1.1\r\nHost: x\r\n\r\nGET";
  };
}

visitor-idle :
    (visitor.session.authenticate ≡ false)
    × (visitor.session.uploads ≡ [])
    × (visitor.session.reads ≡ 1)
unfolding new_session
visitor-idle = (refl, refl, refl)

visitor-free : lookup (codes "/a") visitor.session.filesystem.fs ≡ none
unfolding new_session lookup
visitor-free = refl

visitor-text :
    unread visitor.input
    ≡ request_text (codes "PUT") (codes "/a") (codes "HTTP/1.1") put_fields
      ++ (codes "abc"
          ++ (request_text (codes "GET") (codes "/a") (codes "HTTP/1.1") get_fields ++ codes "GET"))
unfolding request_text request_line header_lines header_line join
visitor-text = refl

visitor-head : (after_head byte_wise visitor.input).buffer ≡ []
unfolding read_packet read_headers take_packet find
visitor-head = refl

put_and_get-served_example :
    (s : Session) × (i : Input) × (run_connection
        (request_arrives byte_wise net ∷ body_arrives byte_wise ∷ request_arrives greedy net ∷ [])
        visitor
      ≡ ok (record {
        session = receive_message (respond (of_resource HttpResponse.ok (codes "abc")) s);
        input = i;
      }))
    × (lookup (codes "/a") s.filesystem.fs ≡ some (codes "abc"))
    × (unread i ≡ codes "GET")
put_and_get-served_example =
    put_and_get-served byte_wise byte_wise greedy net net (codes "/a") (codes "abc") (codes "GET")
      host host (length_field ∷ []) [] 0 visitor
      (byte_wise-IsSteady, byte_wise-IsSteadyBody, greedy-IsSteady) visitor-idle visitor-free refl
      (omega arith) (put_fields-well, get_fields-well) (omega arith)
      (put_fields-Announces, get_fields-Announces) visitor-text visitor-head

-- A request without header fields.
abbrev bare : Connection
bare = record {
  session = record fresh { reads = 1 };
  input = record { buffer = codes "GET / HT"; incoming = codes "TP/1.1\r\n\r\n" };
}

bare-IsHttpLine : IsHttpLine (codes "GET / HTTP/1.1")
unfolding detect_protocol find
bare-IsHttpLine = refl

request_arrives-headless_example : step_connection (request_arrives greedy net) bare ≡ throws
request_arrives-headless_example =
    request_arrives-headless greedy net (codes "GET / HTTP/1.1") 0 bare greedy-IsSteady
      (omega arith) bare-IsHttpLine refl refl
