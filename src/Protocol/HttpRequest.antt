-- ===== src/Protocol/HttpRequest.antt =====
-- protocol/http/request/src/http_parser.{hpp,cpp}
pub mod Atoi
pub mod Parsing
use in_memory_object_storage.Common.{
  ℕ, suc, ◌-◌, ◌^◌, Bool, true, false, List, [], ◌∷◌, ◌++◌, Option, none, some, ltb, ◌==◌,
  if◌then◌else◌, length, drop, get_elem?, Outcome, ok, throws, undefined, diverges, ◌>>=◌,
  or_undefined, or_throw,
}
use in_memory_object_storage.Common.Text.{Bytes, codes}
use in_memory_object_storage.Common.Dict.{Dict, lookup, assign}
use in_memory_object_storage.Utils.Split.{split}
use in_memory_object_storage.Utils.Split.Tokens.{join}
use in_memory_object_storage.Utils.Case.{to_lower_case}
use in_memory_object_storage.Utils.Base64.{decode_base64}
use Atoi.{ℤ, pos, negsuc, atoi}

pub data HttpMethod : Type 0 where
  get put delete unrecognized : HttpMethod

pub record HttpAuthInfo : Type 0 where
  pub username : Bytes
  pub password : Bytes

-- A std::string_view of a header value: its text, and what the buffer holds behind it, which
-- `data()` reaches too.
pub record HeaderValue : Type 0 where
  pub text : Bytes
  pub behind : Bytes

pub record HttpParser : Type 0 where
  pub valid : Bool
  pub method : HttpMethod
  pub uri : Bytes
  pub resource_size : ℕ
  pub header_fields : Dict HeaderValue

abbrev pub method_map : Dict HttpMethod
method_map = (codes "PUT", put) ∷ (codes "GET", get) ∷ (codes "DELETE", delete) ∷ []

-- `valid_{false}`, `method_{Unrecognized}`, `resource_size_{0}`.
abbrev pub invalid : HttpParser
invalid = record {
  valid = false;
  method = unrecognized;
  uri = [];
  resource_size = 0;
  header_fields = [];
}

-- The method and the URI.
unfoldable pub parse_request_line : List Bytes → Outcome (HttpMethod × Bytes)
parse_request_line lines = do
  line ← or_undefined (get_elem? lines 0)
  tokens ← split line (codes " ")
  name ← or_undefined (get_elem? tokens 0)
  method ← or_throw (lookup name method_map)
  uri ← or_undefined (get_elem? tokens 1)
  ok (method, uri)

-- `remove_prefix(find_first_not_of(' '))`; with no other byte than spaces the prefix is npos.
unfoldable pub skip_spaces : Bytes → Outcome Bytes
skip_spaces [] = undefined
skip_spaces (c ∷ s) = let rest = skip_spaces s in if c == b' ' then rest else ok (c ∷ s)

-- What stands behind the second token: the further tokens, then the further lines.
unfoldable pub behind_value : List Bytes → List Bytes → Bytes
behind_value [] lines = codes "\r\n" ++ join (codes "\r\n") lines
behind_value (token ∷ tokens) lines =
    codes ":" ++ join (codes ":") (token ∷ tokens) ++ codes "\r\n" ++ join (codes "\r\n") lines

unfoldable pub parse_header_field : Bytes → List Bytes → Outcome (Bytes × HeaderValue)
unfolding skip_spaces behind_value
parse_header_field line lines = do
  tokens ← split line (codes ":")
  token ← or_undefined (get_elem? tokens 1)
  value ← skip_spaces token
  name ← or_undefined (get_elem? tokens 0)
  key ← to_lower_case name
  ok (key, record { text = value; behind = behind_value (drop 2 tokens) lines })

-- The loop from `cbegin() + 1` to `cend() - 2`, from a line on; it passes the end if it starts
-- behind it.
unfoldable pub parse_header_lines : List Bytes → Dict HeaderValue → Outcome (Dict HeaderValue)
parse_header_lines [] fields = undefined
parse_header_lines (last ∷ []) fields = undefined
parse_header_lines (blank ∷ last ∷ []) fields = ok fields
parse_header_lines (line ∷ next ∷ after ∷ lines) fields = do
  (name, value) ← parse_header_field line (next ∷ after ∷ lines)
  parse_header_lines (next ∷ after ∷ lines) (assign name value fields)

unfoldable pub parse_header_fields : List Bytes → Outcome (Dict HeaderValue)
unfolding parse_header_lines
parse_header_fields lines = parse_header_lines (drop 1 lines) []

abbrev pub size_bound : ℕ
size_bound = 2 ^ 64

-- An int converted to std::size_t.
unfoldable pub to_size : ℤ → ℕ
to_size (pos n) = n
to_size (negsuc n) = size_bound - suc n

unfoldable pub content_length : Option HeaderValue → Outcome ℕ
unfolding to_size
content_length none = ok 0
content_length (some value) = do size ← atoi (value.text ++ value.behind); ok (to_size size)

unfoldable pub parse_request : Bytes → Outcome HttpParser
unfolding content_length
parse_request buffer = do
  lines ← split buffer (codes "\r\n")
  (method, uri) ← parse_request_line lines
  fields ← parse_header_fields lines
  size ← content_length (lookup (codes "content-length") fields)
  ok (record {
    valid = true;
    method = method;
    uri = uri;
    resource_size = size;
    header_fields = fields;
  })

-- `catch (std::exception&)`: only `kMethodMap.at` throws, before any member is set.
abbrev pub caught : Outcome HttpParser → Outcome HttpParser
caught (ok parser) = ok parser
caught throws = ok invalid
caught undefined = undefined
caught diverges = diverges

unfoldable pub parse : Bytes → Outcome HttpParser
unfolding parse_request
parse [] = ok invalid
parse (c ∷ buffer) = caught (parse_request (c ∷ buffer))

-- operator[]
unfoldable pub field : HttpParser → Bytes → Option Bytes
field parser key = elim (lookup key parser.header_fields) [
  | none ↦ none
  | some value ↦ some value.text
]

unfoldable pub credentials : Bytes → Outcome HttpAuthInfo
credentials decoded = do
  user_and_pass ← split decoded (codes ":")
  username ← or_undefined (get_elem? user_and_pass 0)
  password ← or_undefined (get_elem? user_and_pass 1)
  ok (record { username = username; password = password })

abbrev some_credentials : Option Bytes → Outcome (Option HttpAuthInfo)
some_credentials none = ok none
some_credentials (some decoded) = do info ← credentials decoded; ok (some info)

unfoldable pub auth_of : Option Bytes → Outcome (Option HttpAuthInfo)
unfolding credentials
auth_of none = ok none
auth_of (some value) = do
  tokens ← split value (codes " ")
  auth_data ← or_undefined (get_elem? tokens 1)
  decoded ← decode_base64 auth_data
  some_credentials decoded

unfoldable pub get_auth_info : HttpParser → Outcome (Option HttpAuthInfo)
unfolding auth_of field
get_auth_info parser = auth_of (field parser (codes "authorization"))
