-- ===== src/Protocol/Tests.antt =====
-- The protocols at concrete messages.
use in_memory_object_storage.Common.{
  ◌+◌, ◌⊎◌, false, ◌≡◌, ◌≢◌, ◌↔◌, ◌<◌, [], ◌∷◌, ◌++◌, some, ok, undefined, arith, length, drop,
}
use in_memory_object_storage.Common.Text.{Bytes, codes}
use in_memory_object_storage.Common.Decimal.{to_string, read_digits}
use in_memory_object_storage.Utils.Split.{find, split}
use in_memory_object_storage.Utils.Split.Tokens.{join}
use in_memory_object_storage.Protocol.Detector.{http, detect_protocol}
use in_memory_object_storage.Protocol.Detector.FirstLine.{detect_protocol-http_iff}
use in_memory_object_storage.Protocol.FtpRequest.{FtpCommand, FtpParser, parse}
use in_memory_object_storage.Protocol.FtpRequest.Undefined.{HasNegative, parse-undefined_iff}
use in_memory_object_storage.Protocol.FtpRequest.Commands.{spelling, Spells, parse-words}
use in_memory_object_storage.Protocol.HttpResponse.{
  not_found, reason_of, of_resource, serialize, HttpResponse,
}
use in_memory_object_storage.Protocol.HttpResponse.Framing.{
  head_lines, status_line, of_resource-framing,
}

detect_protocol-http_iff_example :
    (detect_protocol (codes "STOR /HTTP" ++ (codes "\r\n" ++ [])) ≡ ok http)
    ↔ ((a : Bytes) × (b : Bytes) × (codes "STOR /HTTP" ≡ a ++ (codes "HTTP" ++ b)))
detect_protocol-http_iff_example = detect_protocol-http_iff (codes "STOR /HTTP") [] (omega arith)

join-user : join (codes " ") (codes "user" ∷ codes "ann" ∷ []) ≢ []
unfolding join
join-user z = cc

parse-words_example :
    (p : FtpParser) × (parse (join (codes " ") (codes "user" ∷ codes "ann" ∷ []) ++ codes "\r\n")
      ≡ ok p)
    × (p.tokens ≡ codes "user" ∷ codes "ann" ∷ [])
    × ((p.valid ≡ false) ↔ (p.command ≡ FtpCommand.unrecognized))
    × ((p.command ≡ FtpCommand.user) ↔ Spells (codes "user") (spelling FtpCommand.user))
parse-words_example =
    parse-words (codes "user") (codes "ann" ∷ []) FtpCommand.user (omega arith) join-user
      (omega arith) (λ e. cc)

-- A request whose first letter is the byte 200.
abbrev accented : Bytes
accented = 200 ∷ codes "ser ann\r\n"

parse-undefined_iff_example :
    (parse accented ≡ undefined)
    ↔ ((0 < length accented) × (length accented < 3) ⊎ HasNegative accented)
parse-undefined_iff_example = parse-undefined_iff accented

abbrev missing_page : HttpResponse
missing_page = of_resource not_found (codes "none\r\n\r\n")

of_resource-framing_example :
    let head = join (codes "\r\n") (head_lines missing_page) in
    (find (codes "\r\n\r\n") (serialize missing_page) ≡ some (length head))
    × (drop (length head + 4) (serialize missing_page) ≡ codes "none\r\n\r\n")
    × (split head (codes "\r\n")
        ≡ ok (
            status_line not_found (reason_of not_found)
            ∷ codes "Content-Type: application/octet-stream"
            ∷ (codes "Content-Length: " ++ to_string (length (codes "none\r\n\r\n")))
            ∷ []))
    × (read_digits 0 (to_string (length (codes "none\r\n\r\n"))) ≡ length (codes "none\r\n\r\n"))
of_resource-framing_example = of_resource-framing not_found (codes "none\r\n\r\n")
