-- ===== src/Session/Tests.antt =====
-- Sessions at concrete requests.
use in_memory_object_storage.Common.{
  arith, ◌+◌, ◌≡◌, ◌⊎◌, refl, true, List, [], ◌∷◌, ◌++◌, none, some, ok, undefined, value_or,
}
use in_memory_object_storage.Common.Text.{Bytes, codes}
use in_memory_object_storage.Common.Dict.{lookup, assign}
use in_memory_object_storage.MemoryFs.{empty_fs}
use in_memory_object_storage.UserDatabase.{User, UserDatabase, is_reserved, verify}
use in_memory_object_storage.Utils.Split.{split}
use in_memory_object_storage.Utils.Case.{to_upper_case, to_lower_case}
use in_memory_object_storage.Protocol.FtpRequest.{FtpCommand, FtpParser, retr}
use in_memory_object_storage.Protocol.FtpRequest
use in_memory_object_storage.Protocol.FtpResponse.{FtpReplyCode, with_text, serialize}
use in_memory_object_storage.Protocol.HttpRequest.{
  HttpMethod, HttpParser, field, parse_request_line, parse_header_fields, parse_header_field,
  get_auth_info,
}
use in_memory_object_storage.Protocol.HttpRequest.Atoi.{atoi}
use in_memory_object_storage.Utils.Base64.{decode_base64}
use in_memory_object_storage.Protocol.HttpRequest
use in_memory_object_storage.Session.{Session, Network, new_session}
use in_memory_object_storage.Session.Ftp.{handle_ftp}
use in_memory_object_storage.Session.Ftp.Guards.{
  IsAuthentic, serve_ftp, handle_ftp-guarded, serve_ftp-IsAuthentic,
}
use in_memory_object_storage.Utils.Split.Tokens.{join}
use in_memory_object_storage.Session.Ftp.Answers.{handle_ftp-Ends}
use in_memory_object_storage.Session.Ftp.Replies.{handle_ftp-one_reply}
use in_memory_object_storage.Session.Http.{auth_http_user, handle_http}
use in_memory_object_storage.Session.Http.Access.{
  Accepted, handle_http-authorized, handle_http-no_credentials,
}

abbrev pub ann : User
ann = record { username = codes "ann"; password = codes "secret" }

abbrev pub only_ann : UserDatabase
only_ann = record { users = (codes "ann", codes "secret") ∷ [] }

abbrev pub net : Network
net = record {
  opens = true;
  binds = true;
  listens = true;
  address = some (127 ∷ 0 ∷ 0 ∷ 1 ∷ []);
  port = 2000;
}

abbrev pub fresh : Session
fresh = new_session only_ann true empty_fs

abbrev pub at_work : Session
at_work = record fresh { logged_in_user = some ann; acceptor_open = true }

abbrev login : List (Network × Bytes)
login = (net, codes "USER ann\r\n") ∷ (net, codes "PASS secret\r\n") ∷ []

abbrev logged_in : Session
logged_in = value_or fresh (serve_ftp login fresh)

serve_ftp-login : serve_ftp login fresh ≡ ok logged_in
unfolding serve_ftp handle_ftp FtpRequest.parse split to_upper_case lookup verify is_reserved
serve_ftp-login = refl

IsAuthentic-fresh : IsAuthentic fresh
unfolding new_session
IsAuthentic-fresh = tt

serve_ftp-IsAuthentic_example : IsAuthentic logged_in
serve_ftp-IsAuthentic_example =
    serve_ftp-IsAuthentic login fresh logged_in IsAuthentic-fresh serve_ftp-login

abbrev after_dele : Session
after_dele = value_or fresh (handle_ftp net (codes "DELE /a\r\n") fresh)

handle_ftp-dele : handle_ftp net (codes "DELE /a\r\n") fresh ≡ ok after_dele
unfolding handle_ftp FtpRequest.parse split to_upper_case lookup new_session
handle_ftp-dele = refl

nobody-fresh : fresh.logged_in_user ≡ none
unfolding new_session
nobody-fresh = refl

handle_ftp-guarded_example :
    (after_dele.filesystem ≡ fresh.filesystem)
    × (after_dele.accepts ≡ fresh.accepts)
    × (after_dele.ftp_data ≡ fresh.ftp_data)
    × (after_dele.acceptor_open ≡ fresh.acceptor_open)
handle_ftp-guarded_example =
    handle_ftp-guarded net (codes "DELE /a\r\n") fresh after_dele nobody-fresh handle_ftp-dele

handle_ftp-one_reply_example :
    (code : FtpReplyCode) × (text : Bytes) × (after_dele.posted
      ≡ fresh.posted ++ serialize (with_text code text) ∷ [])
    × (after_dele.reads ≡ fresh.reads + 1)
handle_ftp-one_reply_example =
    handle_ftp-one_reply net (codes "DELE /a\r\n") fresh after_dele handle_ftp-dele

handle_ftp-Ends_example :
    (s' : Session) × (handle_ftp net
        (join (codes " ") (codes "RETR" ∷ codes "a" ∷ []) ++ codes "\r\n")
        fresh
      ≡ ok s')
handle_ftp-Ends_example =
    handle_ftp-Ends net (127 ∷ 0 ∷ 0 ∷ 1 ∷ []) (codes "RETR") (codes "a") fresh refl (omega arith)
      (omega arith) (omega arith)

-- HTTP
abbrev pub delete_line : Bytes
delete_line = codes "DELETE /a HTTP/1.1\r\n"

abbrev pub wrong_headers : Bytes
wrong_headers = codes "Authorization: Basic YW5uOng=\r\n\r\n"

abbrev after_delete : Session
after_delete = value_or fresh (handle_http delete_line (some wrong_headers) fresh)

handle_http-delete : handle_http delete_line (some wrong_headers) fresh ≡ ok after_delete
unfolding handle_http HttpRequest.parse parse_request_line parse_header_fields parse_header_field
    auth_http_user get_auth_info decode_base64 split to_lower_case lookup verify is_reserved
    new_session atoi assign
handle_http-delete = refl

authenticates-fresh : fresh.authenticate ≡ true
unfolding new_session
authenticates-fresh = refl

handle_http-authorized_example :
    Accepted (delete_line ++ wrong_headers) fresh
    ⊎ (after_delete.filesystem ≡ fresh.filesystem)
      × (after_delete.uploads ≡ fresh.uploads)
      × (after_delete.reads ≡ fresh.reads)
handle_http-authorized_example =
    handle_http-authorized delete_line wrong_headers fresh after_delete authenticates-fresh
      handle_http-delete

abbrev get_line : Bytes
get_line = codes "GET /a HTTP/1.1\r\n"

abbrev host_headers : Bytes
host_headers = codes "Host: x\r\n\r\n"

abbrev get_parser : HttpParser
get_parser = value_or HttpRequest.invalid (HttpRequest.parse (get_line ++ host_headers))

parse-get : HttpRequest.parse (get_line ++ host_headers) ≡ ok get_parser
unfolding HttpRequest.parse parse_request_line parse_header_fields parse_header_field split
    to_lower_case lookup assign
parse-get = refl

get_parser-valid : get_parser.valid ≡ true
unfolding HttpRequest.parse parse_request_line parse_header_fields parse_header_field split
    to_lower_case lookup assign
get_parser-valid = refl

get_parser-open : field get_parser (codes "authorization") ≡ none
unfolding HttpRequest.parse parse_request_line parse_header_fields parse_header_field split
    to_lower_case lookup field assign
get_parser-open = refl

handle_http-no_credentials_example : handle_http get_line (some host_headers) fresh ≡ undefined
handle_http-no_credentials_example =
    handle_http-no_credentials get_line host_headers fresh get_parser authenticates-fresh parse-get
      get_parser-valid get_parser-open
