-- ===== src/Protocol/HttpRequest/Parsing/Requests.antt =====
-- The parser on a whole request that is well formed.
use in_memory_object_storage.Common.{
  ℕ, ◌≤◌, ◌<◌, ◌^◌, ◌≡◌, ◌≢◌, ◌⊎◌, ◌∙◌, refl, ap, inl, inr, true, List, [], ◌∷◌, ◌++◌, All,
  All-append, Option, none, some, arith, length, ok,
}
use in_memory_object_storage.Common.Text.{Bytes, codes, Lacks}
use in_memory_object_storage.Common.Dict.{lookup}
use in_memory_object_storage.Common.Decimal.{to_string, read_digits-stop, is_digit}
use in_memory_object_storage.Utils.Split.{split}
use in_memory_object_storage.Utils.Split.Tokens.{join}
use in_memory_object_storage.Utils.Split.Lacking.{split-join-Lacks}
use in_memory_object_storage.Protocol.HttpRequest.Atoi.RoundTrip.{atoi-to_string}
use in_memory_object_storage.Protocol.HttpRequest.{
  HttpMethod, HttpParser, HeaderValue, method_map, parse_request_line, parse_header_fields,
  content_length, to_size, parse_request, parse, field, caught,
}
use in_memory_object_storage.Protocol.HttpRequest.Parsing.{
  Header, IsHeader, header_line, found, append-ne, Matches, header_lines, two-lines,
  parse_header_lines-Matches,
}

unfoldable pub request_line : Bytes → Bytes → Bytes → Bytes
request_line name uri version = name ++ (codes " " ++ (uri ++ (codes " " ++ version)))

-- What a client sends, up to the blank line.
unfoldable pub request_text : Bytes → Bytes → Bytes → List Header → Bytes
request_text name uri version headers =
    join (codes "\r\n") (request_line name uri version ∷ header_lines headers)

header_lines-Lacks :
    (headers : List Header) → All IsHeader headers → All (Lacks 13) (header_lines headers)
unfolding header_lines header_line
header_lines-Lacks [] w = (tt, (tt, tt))
header_lines-Lacks (h ∷ headers) w =
    let (n, v, r, s, k, a) = w.0 in
    (
      All-append (λ c. c ≢ 13) h.name _ r (omega arith, (omega arith, s)),
      header_lines-Lacks headers w.1,
    )

join-ne :
    (line : Bytes) (lines : List Bytes) → 2 ≤ length lines → join (codes "\r\n") (line ∷ lines) ≢ []
unfolding join
join-ne line [] h = absurd (omega arith)
join-ne line (a ∷ lines) h = append-ne line _ 13

module _ (name uri version : Bytes) where
  split-request_line :
      Lacks b' ' name
      → Lacks b' ' uri
      → Lacks b' ' version
      → split (request_line name uri version) (codes " ") ≡ ok (name ∷ uri ∷ version ∷ [])
  unfolding request_line join
  split-request_line n u v =
      split-join-Lacks b' ' [] (name ∷ uri ∷ version ∷ []) (append-ne name _ b' ') (n, (u, (v, tt)))

  pub request_line-Lacks :
      Lacks 13 name → Lacks 13 uri → Lacks 13 version → Lacks 13 (request_line name uri version)
  unfolding request_line
  request_line-Lacks n u v =
      All-append (λ c. c ≢ 13) name _ n
        (omega arith, All-append (λ c. c ≢ 13) uri _ u (omega arith, v))

  parse_request_line-line :
      (method : HttpMethod) (lines : List Bytes)
      → Lacks b' ' name
      → Lacks b' ' uri
      → Lacks b' ' version
      → lookup name method_map ≡ some method
      → parse_request_line (request_line name uri version ∷ lines) ≡ ok (method, uri)
  unfolding parse_request_line
  parse_request_line-line method lines n u v e = rw (split-request_line n u v, e) refl

-- The size that a request announces, none or printed.
abbrev pub Announces : List Header → ℕ → Type 0
Announces headers n =
    (found headers (codes "content-length") ≡ none) × (n ≡ 0)
    ⊎ (found headers (codes "content-length") ≡ some (to_string n))

content_length-printed :
    (n : ℕ) (rest : Bytes)
    → n < 2 ^ 31
    → content_length (some (record { text = to_string n; behind = codes "\r\n" ++ rest })) ≡ ok n
unfolding content_length to_size is_digit
content_length-printed n rest b =
    rw (atoi-to_string n (codes "\r\n" ++ rest) b (read_digits-stop n 13 (10 ∷ rest) refl)) refl

content_length-Matches :
    (n : ℕ) (o : Option Bytes) (new : Option HeaderValue)
    → n < 2 ^ 31
    → (o ≡ none) × (n ≡ 0) ⊎ (o ≡ some (to_string n))
    → Matches o none new
    → content_length new ≡ ok n
unfolding content_length Matches to_size is_digit
content_length-Matches n none new b (inl (e, z)) m = rw (m, z) refl
content_length-Matches n none new b (inr e) m = cc
content_length-Matches n (some text) new b (inl (e, z)) m = cc
content_length-Matches n (some text) new b (inr e) (rest, m) =
    let printed : text ≡ to_string n = ap (λ o. elim o [ none ↦ [] | some t ↦ t ]) e in
    ap content_length m
    ∙ ap (λ t. content_length (some (record { text = t; behind = codes "\r\n" ++ rest }))) printed
    ∙ content_length-printed n rest b

field-Matches :
    (o : Option Bytes) (new : Option HeaderValue)
    → Matches o none new
    → elim new [ none ↦ none | some v ↦ some v.text ] ≡ o
unfolding Matches
field-Matches none new m = rw m refl
field-Matches (some text) new (rest, m) = rw m refl

-- At first no field is there.
Matches-nil :
    (o : Option Bytes) (key : Bytes) (new : Option HeaderValue)
    → Matches o (lookup key []) new
    → Matches o none new
unfolding lookup
Matches-nil o key new h = h

parse-ne : (text : Bytes) → text ≢ [] → parse text ≡ caught (parse_request text)
unfolding parse
parse-ne [] h = absurd (h refl)
parse-ne (c ∷ text) h = refl

-- A request line of a known method, a URI and a version, none with a space or a carriage return,
-- then header lines, each a name of ASCII characters, a colon, a space and a value that does not
-- begin with a space, none with a colon or a carriage return, and the blank line, are parsed: the
-- parser is valid, has the method and the URI, finds under each lower-case name the value of the
-- last field of that name in any case, and has the size that Content-Length prints, below 2^31,
-- or 0 without one.
pub parse-request :
    (name uri version : Bytes) (method : HttpMethod) (headers : List Header) (n : ℕ)
    → lookup name method_map ≡ some method
    → Lacks b' ' name × Lacks b' ' uri × Lacks b' ' version
    → Lacks 13 name × Lacks 13 uri × Lacks 13 version
    → All IsHeader headers
    → n < 2 ^ 31
    → Announces headers n
    → (p : HttpParser) × (parse (request_text name uri version headers) ≡ ok p)
      × (p.valid ≡ true)
      × (p.method ≡ method)
      × (p.uri ≡ uri)
      × (p.resource_size ≡ n)
      × ((key : Bytes) → field p key ≡ found headers key)
unfolding request_text parse_request parse_header_fields field
parse-request name uri version method headers n e (s₁, s₂, s₃) (r₁, r₂, r₃) w b a =
    let line = request_line name uri version in
    let lines = line ∷ header_lines headers in
    let ne = join-ne line (header_lines headers) (two-lines headers) in
    let (fields, f, m) = parse_header_lines-Matches headers [] w in
    let cut : split (join (codes "\r\n") lines) (codes "\r\n") ≡ ok lines =
      split-join-Lacks 13 (10 ∷ []) lines ne
        (request_line-Lacks name uri version r₁ r₂ r₃, header_lines-Lacks headers w) in
    let size =
      content_length-Matches n (found headers (codes "content-length"))
        (lookup (codes "content-length") fields) b a
        (Matches-nil _ _ _ (m (codes "content-length"))) in
    let p : HttpParser = record {
      valid = true;
      method = method;
      uri = uri;
      resource_size = n;
      header_fields = fields;
    } in
    let read : parse_request (join (codes "\r\n") lines) ≡ ok p =
      rw
        (
          cut,
          parse_request_line-line name uri version method (header_lines headers) s₁ s₂ s₃ e,
          f,
          size,
        )
        refl in
    (
      p,
      parse-ne (join (codes "\r\n") lines) ne ∙ ap caught read,
      refl,
      refl,
      refl,
      refl,
      λ key. field-Matches (found headers key) (lookup key fields) (Matches-nil _ key _ (m key)),
    )
