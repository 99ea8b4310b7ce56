-- ===== src/Protocol/HttpResponse/Framing.antt =====
-- A client can tell the head of a response from its body, and the lines of the head.
use in_memory_object_storage.Common.{
  ℕ, ◌+◌, ◌≡◌, ◌≢◌, refl, sym, ap, ◌∙◌, List, [], ◌∷◌, ◌++◌, append_assoc, append-nil, map, some,
  arith, length, drop, drop-drop, drop-append-length, All, All-append, ok,
}
use in_memory_object_storage.Common.Text.{Bytes, codes, Lacks}
use in_memory_object_storage.Common.Decimal.{
  to_string, to_string-Lacks, read_digits, read_digits-to_string,
}
use in_memory_object_storage.Utils.Split.{find, split}
use in_memory_object_storage.Utils.Split.Tokens.{join}
use in_memory_object_storage.Utils.Split.BlankLine.{IsLine, blank, find-blank}
use in_memory_object_storage.Utils.Split.Lacking.{split-join-Lacks}
use in_memory_object_storage.Protocol.HttpResponse.{
  HttpStatus, continue, status_number, reason_of, HttpResponse, HttpResponseHeader, of_resource,
  append_headers, serialize,
}

abbrev pub header_line : HttpResponseHeader → Bytes
header_line (name, value) = name ++ codes ": " ++ value

abbrev pub status_line : HttpStatus → Bytes → Bytes
status_line status reason =
    codes "HTTP/1.1" ++ codes " " ++ to_string (status_number status) ++ codes " " ++ reason

abbrev pub head_lines : HttpResponse → List Bytes
head_lines r = status_line r.status r.reason_phrase ∷ map header_line r.response_headers

abbrev crlf : Bytes
crlf = codes "\r\n"

abbrev pub IsClean : HttpResponse → Type 0
IsClean r =
    Lacks b'\r' r.reason_phrase × All (λ h. Lacks b'\r' h.0 × Lacks b'\r' h.1) r.response_headers

-- `serialize` writes the lines of the head, a blank line and the body.
join-merge :
    (a b : Bytes) (ts : List Bytes) → join crlf ((a ++ (crlf ++ b)) ∷ ts) ≡ join crlf (a ∷ b ∷ ts)
unfolding join
join-merge a b [] = refl
join-merge a b (t ∷ ts) =
    append_assoc a (crlf ++ b) (crlf ++ join crlf (t ∷ ts))
    ∙ ap (◌++◌ a) (append_assoc crlf b (crlf ++ join crlf (t ∷ ts)))

append_headers-join :
    (headers : List HttpResponseHeader) (line : Bytes)
    → append_headers headers (line ++ crlf) ≡ join crlf (line ∷ map header_line headers) ++ crlf
unfolding append_headers join
append_headers-join [] line = refl
append_headers-join ((name, value) ∷ headers) line =
    append_headers-join headers (line ++ crlf ++ name ++ codes ": " ++ value)
    ∙ ap (λ (l : Bytes). join crlf (l ∷ map header_line headers) ++ crlf)
        {y = line ++ (crlf ++ header_line (name, value))} (simp append_assoc)
    ∙ ap (λ (t : Bytes). t ++ crlf)
        (join-merge line (header_line (name, value)) (map header_line headers))

serialize-head :
    (r : HttpResponse) → serialize r ≡ join crlf (head_lines r) ++ (blank ++ r.resource)
unfolding serialize
serialize-head r =
    ap (λ (t : Bytes). t ++ crlf ++ r.resource)
      (append_headers-join r.response_headers (status_line r.status r.reason_phrase))
    ∙ simp append_assoc

abbrev LacksCr : ℕ → Type 0
LacksCr c = c ≢ b'\r'

status_line-IsLine :
    (status : HttpStatus) (reason : Bytes) → Lacks b'\r' reason → IsLine (status_line status reason)
status_line-IsLine status reason h =
    let number : Bytes = to_string (status_number status) in
    let digits = to_string-Lacks b'\r' (status_number status) (omega arith) in
    let front = All-append LacksCr (codes "HTTP/1.1 ") number (omega arith) digits in
    let gap = All-append LacksCr (codes "HTTP/1.1 " ++ number) (codes " ") front (omega arith) in
    (not_empty, All-append LacksCr (codes "HTTP/1.1 " ++ number ++ codes " ") reason gap h)
  where
    not_empty : status_line status reason ≢ []
    not_empty e = cc

header_line-IsLine :
    (name value : Bytes) → Lacks b'\r' name → Lacks b'\r' value → IsLine (header_line (name, value))
header_line-IsLine name value h k = (
  not_empty name,
  All-append LacksCr (name ++ codes ": ") value
      (All-append LacksCr name (codes ": ") h (omega arith)) k,
)
  where
    not_empty : (n : Bytes) → n ++ codes ": " ++ value ≢ []
    not_empty [] e = cc
    not_empty (c ∷ n) e = cc

header_lines-IsLine :
    (headers : List HttpResponseHeader)
    → All (λ h. Lacks b'\r' h.0 × Lacks b'\r' h.1) headers
    → All IsLine (map header_line headers)
header_lines-IsLine [] h = tt
header_lines-IsLine ((name, value) ∷ headers) h =
    (header_line-IsLine name value h.0.0 h.0.1, header_lines-IsLine headers h.1)

lines-Lacks : (ls : List Bytes) → All IsLine ls → All (Lacks b'\r') ls
lines-Lacks [] h = tt
lines-Lacks (l ∷ ls) h = (h.0.1, lines-Lacks ls h.1)

join-ne : (line : Bytes) (lines : List Bytes) → IsLine line → join crlf (line ∷ lines) ≢ []
unfolding join
join-ne [] lines h e = h.0 refl
join-ne (c ∷ line) [] h e = cc
join-ne (c ∷ line) (u ∷ lines) h e = cc

-- When neither the reason phrase nor a header of a response holds a carriage return, then the
-- first blank line of the serialized response stands between its head and its resource, and the
-- head splits into the status line and one line for each header, in order.
pub serialize-framing :
    (r : HttpResponse)
    → IsClean r
    → let head = join (codes "\r\n") (head_lines r) in
      (serialize r ≡ head ++ (codes "\r\n\r\n" ++ r.resource))
      × (find (codes "\r\n\r\n") (serialize r) ≡ some (length head))
      × (split head (codes "\r\n") ≡ ok (head_lines r))
serialize-framing r h =
    let status = status_line-IsLine r.status r.reason_phrase h.0 in
    let headers = header_lines-IsLine r.response_headers h.1 in
    let first : Bytes = status_line r.status r.reason_phrase in
    let others : List Bytes = map header_line r.response_headers in
    (
      serialize-head r,
      ap (find blank) (serialize-head r) ∙ find-blank first others r.resource (status, headers),
      split-join-Lacks b'\r' (codes "\n") (first ∷ others) (join-ne first others status)
          (lines-Lacks (first ∷ others) (status, headers)),
    )

reason_of-Lacks : (status : HttpStatus) → Lacks b'\r' (reason_of status)
unfolding reason_of
reason_of-Lacks continue = omega arith
reason_of-Lacks _ = omega arith

-- A response with a resource is such, whatever the resource holds.
pub of_resource-IsClean :
    (status : HttpStatus) (resource : Bytes) → IsClean (of_resource status resource)
unfolding of_resource
of_resource-IsClean status resource =
    let digits = to_string-Lacks b'\r' (length resource) (omega arith) in
    (reason_of-Lacks status, ((omega arith, omega arith), ((omega arith, digits), tt)))

-- In a serialized response with a resource, for every status and resource, the first blank line
-- ends the head, what follows it is the resource, the lines of the head are the status line, the
-- content type and the content length, and the digits of the latter spell the length of the
-- resource.
pub of_resource-framing :
    (status : HttpStatus) (resource : Bytes)
    → let r = of_resource status resource in
      let head = join (codes "\r\n") (head_lines r) in
      (find (codes "\r\n\r\n") (serialize r) ≡ some (length head))
      × (drop (length head + 4) (serialize r) ≡ resource)
      × (split head (codes "\r\n")
          ≡ ok (
              status_line status (reason_of status)
              ∷ codes "Content-Type: application/octet-stream"
              ∷ (codes "Content-Length: " ++ to_string (length resource))
              ∷ []))
      × (read_digits 0 (to_string (length resource)) ≡ length resource)
unfolding of_resource read_digits
of_resource-framing status resource =
    let r : HttpResponse = of_resource status resource in
    let head : Bytes = join (codes "\r\n") (head_lines r) in
    let (spelled, blank_at, lines) = serialize-framing r (of_resource-IsClean status resource) in
    (
      blank_at,
      sym (drop-drop (length head) 4 (serialize r))
          ∙ ap (λ (t : Bytes). drop 4 (drop (length head) t)) spelled
          ∙ ap (drop 4) {y = blank ++ resource} (drop-append-length head (blank ++ resource)),
      lines,
      ap (read_digits 0) (sym (append-nil (to_string (length resource))))
          ∙ read_digits-to_string (length resource) [],
    )
