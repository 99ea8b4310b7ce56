-- ===== src/Session/Http.antt =====
-- server/object_storage/src/http_method_handlers.cpp
pub mod Access
pub mod Requests
pub mod Frame
use in_memory_object_storage.Common.{
  ℕ, ◌-◌, ◌^◌, Bool, true, false, List, [], ◌∷◌, ◌++◌, Option, none, some, ltb, if◌then◌else◌,
  Outcome, ok, throws, undefined, ◌>>=◌, or_undefined,
}
use in_memory_object_storage.Common.Text.{Bytes, codes, text_eq}
use in_memory_object_storage.MemoryFs.{
  Status, success, file_not_found, already_exists, File, get, add, list, remove,
}
use in_memory_object_storage.UserDatabase.{User, verify}
use in_memory_object_storage.Protocol.HttpRequest.{
  HttpMethod, HttpParser, HttpAuthInfo, parse, field, get_auth_info,
}
use in_memory_object_storage.Protocol.HttpResponse.{
  HttpStatus, ok as status_ok, created, bad_request, unauthorized, not_found, internal_server_error,
  HttpResponse, of_status, of_resource, of_headers, serialize,
}
use in_memory_object_storage.Protocol.HttpResponse
use in_memory_object_storage.Session.{Session, Upload, send_message, receive_message, append_paths}

-- `sendMessage(static_cast<std::string>(response))`
unfoldable pub respond : HttpResponse → Session → Session
unfolding send_message
respond response s = send_message (serialize response) s

-- The user of an HTTP request; dereferencing an empty optional is undefined.
unfoldable pub verify_info : Option HttpAuthInfo → Session → Outcome Bool
verify_info info s = do
  auth ← or_undefined info
  ok (verify s.users (record { username = auth.username; password = auth.password }))

unfoldable pub auth_http_user : HttpParser → Session → Outcome Bool
unfolding verify_info
auth_http_user parser s =
    if s.authenticate then (do info ← get_auth_info parser; verify_info info s) else ok true

-- The switch on the status of `get`; no status is left for its default case but AlreadyExists.
unfoldable pub respond_file : Status × File → Session → Session
unfolding respond
respond_file (Status.success, file) s = respond (of_resource status_ok file) s
respond_file (Status.file_not_found, file) s = respond (of_status not_found) s
respond_file (Status.already_exists, file) s = respond (of_status internal_server_error) s

unfoldable pub handle_get : HttpParser → Session → Outcome Session
unfolding respond_file receive_message
handle_get parser s =
    if text_eq parser.uri (codes "/")
    then ok
        (receive_message (respond (of_resource status_ok (append_paths (list s.filesystem) [])) s))
    else ok (receive_message (respond_file (get s.filesystem parser.uri) s))

abbrev pub expects_continue : Option Bytes → Bool
expects_continue none = false
expects_continue (some value) = text_eq value (codes "100-continue")

-- std::string::max_size: `resize` beyond it throws std::length_error.
abbrev pub max_string_size : ℕ
max_string_size = 2 ^ 63 - 1

unfoldable pub continue_if_expected : HttpParser → Session → Session
unfolding respond
continue_if_expected parser s =
    if expects_continue (field parser (codes "expect"))
    then respond (of_status HttpStatus.continue) s
    else s

-- The read of the body is started; `finish_put` is its completion.
unfoldable pub handle_put : HttpParser → Session → Outcome Session
unfolding continue_if_expected
handle_put parser s =
    let s' = continue_if_expected parser s in
    if ltb max_string_size parser.resource_size
    then throws
    else ok (record s' {
      uploads = s'.uploads ++ (record { path = parser.uri; size = parser.resource_size }) ∷ [];
    })

-- The switch on the status of `add`.
unfoldable pub respond_added : Status → Session → Session
unfolding respond
respond_added Status.success s = respond (of_status created) s
respond_added Status.already_exists s = respond (of_status not_found) s
respond_added Status.file_not_found s = respond (of_status internal_server_error) s

-- The completion of the read of a body: an error (`none`), or the bytes asked for.
unfoldable pub finish_put : Bytes → Option File → Session → Session
unfolding respond_added receive_message
finish_put path none s = receive_message (respond (of_status internal_server_error) s)
finish_put path (some file) s =
    let (status, filesystem) = add s.filesystem path file in
    receive_message (respond_added status (record s { filesystem = filesystem }))

-- The switch on the status of `remove`.
unfoldable pub respond_removed : Status → Session → Session
unfolding respond
respond_removed Status.success s = respond (of_status status_ok) s
respond_removed Status.file_not_found s = respond (of_status not_found) s
respond_removed Status.already_exists s = respond (of_status internal_server_error) s

unfoldable pub handle_delete : HttpParser → Session → Outcome Session
unfolding respond_removed receive_message
handle_delete parser s =
    let (status, filesystem) = remove s.filesystem parser.uri in
    ok (receive_message (respond_removed status (record s { filesystem = filesystem })))

-- `http_handlers_.at(method)(parser)`
unfoldable pub dispatch : HttpMethod → HttpParser → Session → Outcome Session
unfolding handle_get handle_put handle_delete
dispatch HttpMethod.get parser s = handle_get parser s
dispatch HttpMethod.put parser s = handle_put parser s
dispatch HttpMethod.delete parser s = handle_delete parser s
dispatch HttpMethod.unrecognized parser s = throws

abbrev pub unauthorized_response : HttpResponse
unauthorized_response =
    of_headers unauthorized
      ((codes "WWW-Authenticate", codes "Basic") ∷ (codes "Content-Length", codes "0") ∷ [])

unfoldable pub handle_authorized : Bool → HttpParser → Session → Outcome Session
unfolding dispatch respond
handle_authorized true parser s = dispatch parser.method parser s
handle_authorized false parser s = ok (respond unauthorized_response s)

unfoldable pub handle_parsed : HttpParser → Session → Outcome Session
unfolding auth_http_user handle_authorized respond
handle_parsed parser s =
    if parser.valid
    then (do authorized ← auth_http_user parser s; handle_authorized authorized parser s)
    else ok (respond (of_status bad_request) s)

-- The line that was read, and what `read_until` reads up to the blank line; it throws when the
-- connection ends before that (`none`).
unfoldable pub handle_http : Bytes → Option Bytes → Session → Outcome Session
unfolding handle_parsed
handle_http request none s = throws
handle_http request (some headers) s = do
  parser ← parse (request ++ headers)
  handle_parsed parser s
