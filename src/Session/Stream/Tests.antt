-- ===== src/Session/Stream/Tests.antt =====
-- A network that gives all it has at once, and connections over it.
use in_memory_object_storage.Common.{
  ℕ, ◌+◌, ◌≡◌, refl, ap, inl, inr, Bool-cases, List, [], ◌∷◌, ◌++◌, Option, none, some, arith, leb,
  if◌then◌else◌, length, take, drop, take-append-drop, length-take, map, All, ok, value_or, sym,
  ◌∙◌,
}
use in_memory_object_storage.Common.Text.{Bytes, codes}
use in_memory_object_storage.Common.Dict.{lookup}
use in_memory_object_storage.UserDatabase.{verify, is_reserved}
use in_memory_object_storage.Utils.Split.{find, split}
use in_memory_object_storage.Utils.Case.{to_upper_case}
use in_memory_object_storage.Protocol.Detector.{detect_protocol}
use in_memory_object_storage.Protocol.FtpRequest
use in_memory_object_storage.Protocol.HttpResponse.{of_status, internal_server_error}
use in_memory_object_storage.Session.{Session, Upload, new_session, receive_message}
use in_memory_object_storage.Session.Ftp.{handle_ftp}
use in_memory_object_storage.Session.Http.{respond}
use in_memory_object_storage.Session.Events.{step, run, receive_packet}
use in_memory_object_storage.Session.Stream.{
  Input, unread, Moves, Reader, Connection, body_arrives, step_connection, run_connection,
}
use in_memory_object_storage.Session.Stream.Packets.{IsSteady}
use in_memory_object_storage.Session.Stream.Lines.{
  Request, IsFtpRequest, sent, arrival, as_packet, serve-lines,
}
use in_memory_object_storage.Session.Stream.Bodies.{read_ahead-lost}
use in_memory_object_storage.Session.Tests.{net, fresh}

abbrev pub all_of : Input → Input
all_of i = record { buffer = i.buffer ++ i.incoming; incoming = [] }

abbrev pub end_of : Bytes → Option ℕ → Option ℕ
end_of delimiter none = none
end_of delimiter (some position) = some (position + length delimiter)

abbrev pub exactly : ℕ → Bytes → Option Bytes × Bytes
exactly size stream =
    if leb size (length stream) then (some (take size stream), drop size stream) else (none, [])

take-all : (s : Bytes) → take (length s) s ≡ s
take-all [] = refl
take-all (c ∷ s) = ap (◌∷◌ c) (take-all s)

drop-all : (s : Bytes) → drop (length s) s ≡ []
drop-all [] = refl
drop-all (c ∷ s) = drop-all s

pub all_of-Moves : (i : Input) → Moves i (all_of i)
all_of-Moves i = record {
  moved = length i.incoming;
  buffer_is = ap (λ t. i.buffer ++ t) (sym (take-all i.incoming));
  incoming_is = sym (drop-all i.incoming);
}

pub end_of-finds :
    (delimiter : Bytes) (found : Option ℕ) (n : ℕ)
    → end_of delimiter found ≡ some n
    → (position : ℕ) × (found ≡ some position) × (n ≡ position + length delimiter)
end_of-finds delimiter none n e = cc
end_of-finds delimiter (some p) n e = (p, refl, ground (arith, e))

pub exactly-body :
    (size : ℕ) (stream body : Bytes)
    → (exactly size stream).0 ≡ some body
    → (length body ≡ size) × (stream ≡ body ++ (exactly size stream).1)
exactly-body size stream body e = elim (Bool-cases (leb size (length stream))) [
  | inl b ↦
      let e' = rw b at e in
      let same : take size stream ≡ body = cc in
      (
        ap length (sym same) ∙ ground (arith, b, length-take size stream),
        rw b (sym (take-append-drop size stream) ∙ ap (λ t. t ++ drop size stream) same),
      )
  | inr b ↦ cc (rw b at e)
]

abbrev pub greedy : Reader
greedy = record {
  read_until = λ delimiter i. (end_of delimiter (find delimiter (unread i)), all_of i);
  read_exactly = exactly;
  read_until-Moves = λ delimiter i. all_of-Moves i;
  read_until-finds = λ delimiter i n e. end_of-finds delimiter (find delimiter (unread i)) n e;
  read_exactly-body = exactly-body;
}

pub end_of-none :
    (delimiter : Bytes) (found : Option ℕ) → end_of delimiter found ≡ none → found ≡ none
end_of-none delimiter none e = refl
end_of-none delimiter (some p) e = cc

pub greedy-IsSteady : IsSteady greedy
greedy-IsSteady delimiter i h e = h (end_of-none delimiter (find delimiter (unread i)) e)

-- Two requests in one piece.
abbrev request : Bytes → Request
request text = record { text = text; reader = greedy; net = net }

abbrev requests : List Request
requests = request (codes "USER ann") ∷ request (codes "PASS secret") ∷ []

abbrev reading : Session
reading = record fresh { reads = 1 }

abbrev pipelined : Input
pipelined = record { buffer = codes "USER ann\r\nPA"; incoming = codes "SS secret\r\nQU" }

requests-IsFtpRequest : All IsFtpRequest requests
unfolding detect_protocol find
requests-IsFtpRequest =
    ((omega arith, refl, greedy-IsSteady), ((omega arith, refl, greedy-IsSteady), tt))

pipelined-sent : unread pipelined ≡ sent requests ++ codes "QU"
unfolding sent
pipelined-sent = refl

abbrev served : Session
served = value_or reading (run (map as_packet requests) reading)

run-requests : run (map as_packet requests) reading ≡ ok served
unfolding run step receive_packet detect_protocol handle_ftp FtpRequest.parse split find
    to_upper_case lookup verify is_reserved new_session
run-requests = refl

reading-reads : reading.reads ≡ 1
reading-reads = refl

serve-lines_example :
    (i : Input) × (run_connection
        (map arrival requests)
        (record { session = reading; input = pipelined })
      ≡ ok (record { session = served; input = i }))
    × (unread i ≡ codes "QU")
serve-lines_example =
    serve-lines requests (codes "QU") reading served pipelined requests-IsFtpRequest pipelined-sent
      reading-reads run-requests

-- A connection over which a body is expected.
abbrev upload : Upload
upload = record { path = codes "/a"; size = 3 }

abbrev expecting : Input → Connection
expecting i = record { session = record fresh { uploads = upload ∷ [] }; input = i }

abbrev ahead : Connection
ahead = expecting (record { buffer = codes "a"; incoming = codes "bc" })

read_ahead-lost_example :
    (i : Input) × (step_connection (body_arrives greedy) ahead
      ≡ ok (record {
        session =
            receive_message
              (respond (of_status internal_server_error) (record ahead.session { uploads = [] }));
        input = i;
      }))
read_ahead-lost_example = read_ahead-lost greedy upload [] ahead refl (λ e. cc) refl
