-- ===== src/Protocol/HttpResponse.antt =====
-- protocol/http/response/src/http_response.{hpp,cpp}
pub mod Framing
use in_memory_object_storage.Common.{ℕ, List, [], ◌∷◌, ◌++◌, length}
use in_memory_object_storage.Common.Text.{Bytes, codes}
use in_memory_object_storage.Common.Decimal.{to_string}

-- `PayloadTooLarge` is a second name of the value 413.
pub data HttpStatus : Type 0 where
  continue switching_protocols processing early_hints ok created accepted
        non_authoritative_information no_content reset_content partial_content multi_status
        already_reported im_used multiple_choices moved_permanently found see_other not_modified
        use_proxy temporary_redirect permanent_redirect bad_request unauthorized payment_required
        forbidden not_found method_not_allowed not_acceptable proxy_authentication_required
        request_timeout conflict gone length_required precondition_failed content_too_large
        uri_too_long unsupported_media_type range_not_satisfiable expectation_failed im_a_teapot
        misdirected_request unprocessable_content locked failed_dependency too_early
        upgrade_required precondition_required too_many_requests request_header_fields_too_large
        unavailable_for_legal_reasons internal_server_error not_implemented bad_gateway
        service_unavailable gateway_timeout http_version_not_supported variant_also_negotiates
        insufficient_storage loop_detected not_extended network_authentication_required :
      HttpStatus

-- `static_cast<int>(status)`
unfoldable pub status_number : HttpStatus → ℕ
status_number continue = 100
status_number switching_protocols = 101
status_number processing = 102
status_number early_hints = 103
status_number ok = 200
status_number created = 201
status_number accepted = 202
status_number non_authoritative_information = 203
status_number no_content = 204
status_number reset_content = 205
status_number partial_content = 206
status_number multi_status = 207
status_number already_reported = 208
status_number im_used = 226
status_number multiple_choices = 300
status_number moved_permanently = 301
status_number found = 302
status_number see_other = 303
status_number not_modified = 304
status_number use_proxy = 305
status_number temporary_redirect = 307
status_number permanent_redirect = 308
status_number bad_request = 400
status_number unauthorized = 401
status_number payment_required = 402
status_number forbidden = 403
status_number not_found = 404
status_number method_not_allowed = 405
status_number not_acceptable = 406
status_number proxy_authentication_required = 407
status_number request_timeout = 408
status_number conflict = 409
status_number gone = 410
status_number length_required = 411
status_number precondition_failed = 412
status_number content_too_large = 413
status_number uri_too_long = 414
status_number unsupported_media_type = 415
status_number range_not_satisfiable = 416
status_number expectation_failed = 417
status_number im_a_teapot = 418
status_number misdirected_request = 421
status_number unprocessable_content = 422
status_number locked = 423
status_number failed_dependency = 424
status_number too_early = 425
status_number upgrade_required = 426
status_number precondition_required = 428
status_number too_many_requests = 429
status_number request_header_fields_too_large = 431
status_number unavailable_for_legal_reasons = 451
status_number internal_server_error = 500
status_number not_implemented = 501
status_number bad_gateway = 502
status_number service_unavailable = 503
status_number gateway_timeout = 504
status_number http_version_not_supported = 505
status_number variant_also_negotiates = 506
status_number insufficient_storage = 507
status_number loop_detected = 508
status_number not_extended = 510
status_number network_authentication_required = 511

-- `kStatusToReason.at(status)`: the table has every status, so `at` never throws.
unfoldable pub reason_of : HttpStatus → Bytes
reason_of continue = codes "Continue"
reason_of switching_protocols = codes "Switching Protocols"
reason_of processing = codes "Processing"
reason_of early_hints = codes "Early Hints"
reason_of ok = codes "OK"
reason_of created = codes "Created"
reason_of accepted = codes "Accepted"
reason_of non_authoritative_information = codes "Non-Authoritative Information"
reason_of no_content = codes "No Content"
reason_of reset_content = codes "Reset Content"
reason_of partial_content = codes "Partial Content"
reason_of multi_status = codes "Multi-Status"
reason_of already_reported = codes "Already Reported"
reason_of im_used = codes "IM Used"
reason_of multiple_choices = codes "Multiple Choices"
reason_of moved_permanently = codes "Moved Permanently"
reason_of found = codes "Found"
reason_of see_other = codes "See Other"
reason_of not_modified = codes "Not Modified"
reason_of use_proxy = codes "Use Proxy"
reason_of temporary_redirect = codes "Temporary Redirect"
reason_of permanent_redirect = codes "Permanent Redirect"
reason_of bad_request = codes "Bad Request"
reason_of unauthorized = codes "Unauthorized"
reason_of payment_required = codes "Payment Required"
reason_of forbidden = codes "Forbidden"
reason_of not_found = codes "Not Found"
reason_of method_not_allowed = codes "Method Not Allowed"
reason_of not_acceptable = codes "Not Acceptable"
reason_of proxy_authentication_required = codes "Proxy Authentication Required"
reason_of request_timeout = codes "Request Timeout"
reason_of conflict = codes "Conflict"
reason_of gone = codes "Gone"
reason_of length_required = codes "Length Required"
reason_of precondition_failed = codes "Precondition Failed"
reason_of content_too_large = codes "Content Too Large"
reason_of uri_too_long = codes "URI Too Long"
reason_of unsupported_media_type = codes "Unsupported Media Type"
reason_of range_not_satisfiable = codes "Range Not Satisfiable"
reason_of expectation_failed = codes "Expectation Failed"
reason_of im_a_teapot = codes "I'm a teapot"
reason_of misdirected_request = codes "Misdirected Request"
reason_of unprocessable_content = codes "Unprocessable Content"
reason_of locked = codes "Locked"
reason_of failed_dependency = codes "Failed Dependency"
reason_of too_early = codes "Too Early"
reason_of upgrade_required = codes "Upgrade Required"
reason_of precondition_required = codes "Precondition Required"
reason_of too_many_requests = codes "Too Many Requests"
reason_of request_header_fields_too_large = codes "Request Header Fields Too Large"
reason_of unavailable_for_legal_reasons = codes "Unavailable For Legal Reasons"
reason_of internal_server_error = codes "Internal Server Error"
reason_of not_implemented = codes "Not Implemented"
reason_of bad_gateway = codes "Bad Gateway"
reason_of service_unavailable = codes "Service Unavailable"
reason_of gateway_timeout = codes "Gateway Timeout"
reason_of http_version_not_supported = codes "HTTP Version Not Supported"
reason_of variant_also_negotiates = codes "Variant Also Negotiates"
reason_of insufficient_storage = codes "Insufficient Storage"
reason_of loop_detected = codes "Loop Detected"
reason_of not_extended = codes "Not Extended"
reason_of network_authentication_required = codes "Network Authentication Required"

abbrev pub HttpResponseHeader : Type 0
HttpResponseHeader = Bytes × Bytes

pub record HttpResponse : Type 0 where
  pub status : HttpStatus
  pub reason_phrase : Bytes
  pub response_headers : List HttpResponseHeader
  pub resource : Bytes

-- The constructors, in the order of the source.
unfoldable pub of_status : HttpStatus → HttpResponse
of_status status = record {
  status = status;
  reason_phrase = reason_of status;
  response_headers = (codes "Content-Length", codes "0") ∷ [];
  resource = [];
}

unfoldable pub of_reason : Bytes → HttpStatus → HttpResponse
of_reason reason_phrase status = record {
  status = status;
  reason_phrase = reason_phrase;
  response_headers = (codes "Content-Length", codes "0") ∷ [];
  resource = [];
}

unfoldable pub of_resource : HttpStatus → Bytes → HttpResponse
of_resource status resource = record {
  status = status;
  reason_phrase = reason_of status;
  response_headers =
      (codes "Content-Type", codes "application/octet-stream")
      ∷ (codes "Content-Length", to_string (length resource))
      ∷ [];
  resource = resource;
}

unfoldable pub of_headers : HttpStatus → List HttpResponseHeader → HttpResponse
of_headers status headers = record {
  status = status;
  reason_phrase = reason_of status;
  response_headers = headers;
  resource = [];
}

-- The loop over the headers, which appends to `str`.
append_headers : List HttpResponseHeader → Bytes → Bytes
append_headers [] str = str
append_headers ((name, value) ∷ headers) str =
    append_headers headers (str ++ name ++ codes ": " ++ value ++ codes "\r\n")

-- operator std::string
unfoldable pub serialize : HttpResponse → Bytes
unfolding append_headers
serialize r =
    append_headers r.response_headers (
      codes "HTTP/1.1"
      ++ codes " "
      ++ to_string (status_number r.status)
      ++ codes " "
      ++ r.reason_phrase
      ++ codes "\r\n")
    ++ codes "\r\n"
    ++ r.resource
