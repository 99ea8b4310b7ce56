-- ===== src/Session/Events/Tests.antt =====
-- Sessions at concrete events.
use in_memory_object_storage.Common.{
  ◌≡◌, ◌∙◌, sym, refl, true, false, List, [], ◌∷◌, ◌++◌, none, some, ok, ok-injective, value_or,
  subst, ◌⊎◌,
}
use mathlib.Core.List.{Nodup-nil}
use in_memory_object_storage.Common.Text.{codes}
use in_memory_object_storage.Common.Dict.{lookup, assign}
use in_memory_object_storage.MemoryFs.{MemoryFs, IsStore, empty_fs, add}
use in_memory_object_storage.MemoryFs.Spec.{add_file, call}
use in_memory_object_storage.MemoryFs.Refinement.{call-IsStore}
use in_memory_object_storage.UserDatabase.{verify, is_reserved}
use in_memory_object_storage.Utils.Split.{split, find}
use in_memory_object_storage.Utils.Case.{to_upper_case, to_lower_case}
use in_memory_object_storage.Utils.Base64.{decode_base64}
use in_memory_object_storage.Protocol.Detector.{AppLayerProtocol, detect_protocol}
use in_memory_object_storage.Protocol.FtpRequest
use in_memory_object_storage.Protocol.HttpRequest
use in_memory_object_storage.Protocol.HttpRequest.{
  HttpParser, HttpAuthInfo, parse_request_line, parse_header_fields, parse_header_field,
  get_auth_info,
}
use in_memory_object_storage.Protocol.HttpRequest.Atoi.{atoi}
use in_memory_object_storage.Session.{Session, new_session}
use in_memory_object_storage.Session.Messages.{enqueue_message}
use in_memory_object_storage.Session.Ftp.{handle_ftp}
use in_memory_object_storage.Session.Http.{handle_http, auth_http_user}
use in_memory_object_storage.Session.Http.Access.{Accepted}
use in_memory_object_storage.Session.Events.{
  Event, message_posted, message_sent, packet_received, step, run, with_output, receive_packet,
}
use in_memory_object_storage.Session.Events.Invariant.{IsSound, Ends}
use in_memory_object_storage.Session.Events.Soundness.{step-Ends}
use in_memory_object_storage.Session.Events.Effects.{outgoing}
use in_memory_object_storage.Session.Events.Order.{IsHealthy, deliver_lem}
use in_memory_object_storage.Session.Events.Storage.{step-stored}
use in_memory_object_storage.Session.Events.Deafness.{refused-deaf}
use in_memory_object_storage.Session.Start.{PortRange, start}
use in_memory_object_storage.Session.Start.Greeting.{start-IsSound}
use in_memory_object_storage.Session.Tests.{only_ann, net, delete_line, wrong_headers}

abbrev pub ports : PortRange
ports = record { min_port = 1000; max_port = 2000 }

abbrev pub one_file : MemoryFs
one_file = record { fs = (codes "/a", codes "x") ∷ [] }

pub one_file-IsStore : IsStore one_file
unfolding call add assign lookup
one_file-IsStore = call-IsStore empty_fs (add_file (codes "/a") (codes "x")) Nodup-nil

abbrev pub begun : Session
begun = start ports 1500 (new_session only_ann true one_file)

pub begun-IsSound : IsSound begun
begun-IsSound = start-IsSound only_ann true one_file ports 1500 one_file-IsStore

-- A client is greeted and gives a name.
abbrev greeting : List Event
greeting =
    message_posted
    ∷ message_sent false
    ∷ packet_received net (codes "USER ann\r\n") none
    ∷ message_posted
    ∷ []

abbrev greeted : Session
greeted = value_or begun (run greeting begun)

step-Ends_example : Ends (step message_posted begun)
step-Ends_example = step-Ends message_posted begun refl begun-IsSound

begun-IsHealthy : IsHealthy begun.output
unfolding start new_session
begun-IsHealthy e = cc

deliver_lem_example :
    (events : List Event) × (s' : Session) × (run events begun ≡ ok s')
    × (s'.output.sent ≡ outgoing begun)
    × (outgoing s' ≡ s'.output.sent)
deliver_lem_example = deliver_lem begun begun-IsSound begun-IsHealthy

-- A DELE of nobody.
abbrev dele : Event
dele = packet_received net (codes "DELE /a\r\n") none

abbrev after_dele : Session
after_dele = value_or begun (step dele begun)

step-dele : step dele begun ≡ ok after_dele
unfolding step start new_session detect_protocol handle_ftp FtpRequest.parse split to_upper_case
    lookup receive_packet
step-dele = refl

begun-stored : lookup (codes "/a") begun.filesystem.fs ≡ some (codes "x")
unfolding start new_session lookup
begun-stored = refl

step-stored_example :
    (lookup (codes "/a") after_dele.filesystem.fs ≡ some (codes "x"))
    ⊎ (lookup (codes "/a") after_dele.filesystem.fs ≡ none)
step-stored_example =
    step-stored dele begun after_dele (codes "/a") (codes "x") begun-IsSound step-dele begun-stored

-- A DELETE whose credentials are wrong.
abbrev deletion : Event
deletion = packet_received net delete_line (some wrong_headers)

abbrev refused : Session
refused = value_or begun (run (deletion ∷ message_posted ∷ []) begun)

run-refused : run (deletion ∷ message_posted ∷ []) begun ≡ ok refused
unfolding run step start new_session detect_protocol receive_packet handle_http HttpRequest.parse
    parse_request_line parse_header_fields parse_header_field auth_http_user get_auth_info
    decode_base64 split to_lower_case lookup verify is_reserved atoi assign with_output
    enqueue_message
run-refused = refl

detect_protocol-deletion : detect_protocol delete_line ≡ ok AppLayerProtocol.http
unfolding detect_protocol find
detect_protocol-deletion = refl

begun-reads : begun.reads ≡ 1
unfolding start new_session
begun-reads = refl

begun-authenticates : begun.authenticate ≡ true
unfolding start new_session
begun-authenticates = refl

abbrev wrong_parser : HttpParser
wrong_parser = value_or HttpRequest.invalid (HttpRequest.parse (delete_line ++ wrong_headers))

abbrev wrong_info : HttpAuthInfo
wrong_info = record { username = codes "ann"; password = codes "x" }

parse-wrong : HttpRequest.parse (delete_line ++ wrong_headers) ≡ ok wrong_parser
unfolding HttpRequest.parse parse_request_line parse_header_fields parse_header_field split
    to_lower_case lookup assign
parse-wrong = refl

get_auth_info-wrong : get_auth_info wrong_parser ≡ ok (some wrong_info)
unfolding HttpRequest.parse parse_request_line parse_header_fields parse_header_field split
    to_lower_case lookup assign get_auth_info decode_base64
get_auth_info-wrong = refl

verify-wrong :
    verify begun.users (record { username = wrong_info.username; password = wrong_info.password })
    ≡ false
unfolding verify is_reserved lookup start new_session
verify-wrong = refl

not-Accepted : ¬ Accepted (delete_line ++ wrong_headers) begun
not-Accepted (parser, info, p, g, v) =
    let same : wrong_parser ≡ parser = ok-injective (sym parse-wrong ∙ p) in
    let known : get_auth_info wrong_parser ≡ ok (some info) =
      subst (λ q. get_auth_info q ≡ ok (some info)) (sym same) g in
    let it : some wrong_info ≡ some info = ok-injective (sym get_auth_info-wrong ∙ known) in
    cc (it, verify-wrong, v)

refused-deaf_example : (refused.reads ≡ 0) × (refused.uploads ≡ [])
refused-deaf_example =
    refused-deaf net delete_line wrong_headers (message_posted ∷ []) begun refused begun-IsSound
      begun-reads begun-authenticates detect_protocol-deletion not-Accepted run-refused
