-- ===== src/Protocol/HttpRequest/Parsing/Tests.antt =====
-- Well-formed requests, PUT and GET of /a.
use in_memory_object_storage.Common.{◌≡◌, refl, inl, inr, true, List, [], ◌∷◌, some, arith, All, ok}
use in_memory_object_storage.Common.Text.{Bytes, codes}
use in_memory_object_storage.Common.Dict.{lookup}
use in_memory_object_storage.Common.Decimal.{to_string}
use in_memory_object_storage.Utils.Case.{to_lower_case}
use in_memory_object_storage.Protocol.HttpRequest.{HttpMethod, HttpParser, method_map, parse, field}
use in_memory_object_storage.Protocol.HttpRequest.Parsing.{Header, IsHeader, found}
use in_memory_object_storage.Protocol.HttpRequest.Parsing.Requests.{
  request_text, Announces, parse-request,
}

abbrev pub host : Header
host = record { name = codes "Host"; first = b'x'; others = [] }

abbrev pub length_field : Header
length_field = record { name = codes "Content-Length"; first = b'3'; others = [] }

abbrev pub put_fields : List Header
put_fields = host ∷ length_field ∷ []

abbrev pub get_fields : List Header
get_fields = host ∷ []

pub put_fields-well : All IsHeader put_fields
put_fields-well = (omega arith, (omega arith, tt))

pub get_fields-well : All IsHeader get_fields
get_fields-well = (omega arith, tt)

pub put_fields-Announces : Announces put_fields 3
unfolding found to_lower_case to_string
put_fields-Announces = inr refl

pub get_fields-Announces : Announces get_fields 0
unfolding found to_lower_case
get_fields-Announces = inl (refl, refl)

lookup-put : lookup (codes "PUT") method_map ≡ some HttpMethod.put
unfolding lookup
lookup-put = refl

parse-request_example :
    (p : HttpParser) × (parse
        (request_text (codes "PUT") (codes "/a") (codes "HTTP/1.1") put_fields)
      ≡ ok p)
    × (p.valid ≡ true)
    × (p.method ≡ HttpMethod.put)
    × (p.uri ≡ codes "/a")
    × (p.resource_size ≡ 3)
    × ((key : Bytes) → field p key ≡ found put_fields key)
parse-request_example =
    parse-request (codes "PUT") (codes "/a") (codes "HTTP/1.1") HttpMethod.put put_fields 3
      lookup-put (omega arith) (omega arith) put_fields-well (omega arith) put_fields-Announces
